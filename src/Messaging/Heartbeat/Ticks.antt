-- ===== src/Messaging/Heartbeat/Ticks.antt =====
-- How a tick ends.
use ringclaw.Prelude.{not, Option, none, some, if_intro, ◌≡◌, refl}
use ringclaw.Prelude.Text.{Text, trim_space}
use ringclaw.Messaging.Heartbeat.{
  HeartbeatRunner, is_active_time, is_effectively_empty, is_duplicate, is_all_clear, Turn, report,
  reply_to, ask, read, Outcome, outside_hours, no_file, empty_file, no_agent, agent_error,
  all_clear, sent, send_failed, tick,
}

-- The reply that a tick sends or tries to send.
abbrev pub tried : Outcome → Option Text
tried (sent reply) = some reply
tried (send_failed reply) = some reply
tried _ = none

-- A tick ends early and changes nothing, or reports a reply unless it is a duplicate.
module _ {ℓ} (hash : Text → Text) (u : Turn) (r : HeartbeatRunner)
    (P : HeartbeatRunner × Outcome → Type ℓ) (quiet : (o : Outcome) → tried o ≡ none → P (r, o))
    (loud : (reply : Text) → P (report u reply (is_duplicate hash u.now reply r))) where
  ask_cases : (a : Option (Option Text)) → P (ask hash u a r)
  unfolding ask reply_to
  ask_cases none = quiet no_agent refl
  ask_cases (some none) = quiet agent_error refl
  ask_cases (some (some reply)) =
      if_intro P (is_all_clear (trim_space reply)) (λ _. quiet all_clear refl)
        (λ _. loud (trim_space reply))

  read_cases : (content : Option Text) → P (read hash u content r)
  unfolding read
  read_cases none = quiet no_file refl
  read_cases (some content) =
      if_intro P (is_effectively_empty content) (λ _. quiet empty_file refl)
        (λ _. ask_cases u.answer)

  pub tick_cases : P (tick hash u r)
  unfolding tick
  tick_cases =
      if_intro P (not (is_active_time u.mins r)) (λ _. quiet outside_hours refl)
        (λ _. read_cases u.content)
