-- ===== src/Messaging/FullAccess/Approval.antt =====
-- What opens full access.
use ringclaw.Prelude.{
  ℕ, ◌<◌, Bool, true, false, not, ◌||◌, Option, none, some, List, [], get_elem?, if_intro, ◌≡◌,
  refl, sym, ap, ◌∙◌, ◌⊎◌, inl, inr, arith,
}
use ringclaw.Prelude.Text.{Text, codes, text_eq, trim_prefix, trim_space, to_lower, is_empty}
use ringclaw.Prelude.Time.{Time, Duration}
use ringclaw.Oob.Challenge
use ringclaw.Oob.Challenge.{
  Manager, Error, challenge_expired, Issued, ok, fail, IssueOptions, default_challenge_ttl, issue,
  deny, Wake, wait,
}
use ringclaw.Oob.Challenge.Approval.{wait-ApprovedIn}
use ringclaw.Oob.FullAccess
use ringclaw.Oob.FullAccess.{
  grant_full_access, revoke_full_access, full_access_active, full_access_expires_at, System,
}
use ringclaw.Oob.FullAccess.Limit.{
  Sooner, revoke_full_access-Sooner, full_access_active-Sooner, full_access_expires_at-Sooner,
  step-Sooner,
}
use ringclaw.Messaging.FullAccess.{
  Waiter, Bot, reply, parse_grant_duration, Outside, intent, prompt, issued,
  start_full_access_grant, grant_for, format_full_access_status, subcommand, split_first_word,
  handle_full_access, settle, Event, command, wakes, approves, denies, pass, reads, callback, fire,
  step, run,
}
use ringclaw.Messaging.FullAccess.Trace.{ApprovedBy, wake_at-Woken, run-Led}

-- The end of the grant is not put off.
abbrev Stays : Bot → Bot → Type 0
Stays b c = Sooner b.grant c.grant

same : (b c : Bot) → c.grant ≡ b.grant → Stays b c
same b c e = rw e (omega arith)

issued-Stays :
    (o : Outside) (chat_id : Text) (dur : Duration) (r : Manager × Issued) (b : Bot)
    → (issued o chat_id dur r b).grant ≡ b.grant
unfolding issued prompt reply
issued-Stays o chat_id dur (m, fail err) b = refl
issued-Stays o chat_id dur (m, ok a) b = ground arith

grant_for-Stays :
    (o : Outside) (chat_id requester_id : Text) (d : Option Duration) (b : Bot)
    → (grant_for o chat_id requester_id d b).grant ≡ b.grant
unfolding grant_for start_full_access_grant reply
grant_for-Stays o chat_id requester_id none b = refl
grant_for-Stays o chat_id requester_id (some dur) b =
    let opts : IssueOptions = record { ttl = default_challenge_ttl; owner_id = [] } in
    issued-Stays o chat_id dur
      (issue o.random requester_id intent chat_id chat_id opts b.challenges) b

status-Stays : (b : Bot) → Stays b (format_full_access_status b)
unfolding format_full_access_status reply
status-Stays b =
    let read = full_access_active-Sooner b.grant in
    if_intro (Stays b) (full_access_active b.grant).1
      (λ _. omega (arith, full_access_expires_at-Sooner (full_access_active b.grant).0, read))
      (λ _. read)

subcommand-Stays :
    (o : Outside) (chat_id requester_id sub rest : Text) (b : Bot)
    → Stays b (subcommand o chat_id requester_id sub rest b)
unfolding subcommand reply
subcommand-Stays o chat_id requester_id sub rest b =
    if_intro (Stays b) (is_empty sub || text_eq sub (codes "status")) (λ _. status-Stays b)
      (λ _.
        if_intro (Stays b)
          (text_eq sub (codes "revoke") || text_eq sub (codes "off") || text_eq sub (codes "lock"))
          (λ _. revoke_full_access-Sooner b.grant)
          (λ _.
            if_intro (Stays b)
              (text_eq sub (codes "grant")
                || text_eq sub (codes "on")
                || text_eq sub (codes "unlock"))
              (λ _.
                same b
                  (grant_for o chat_id requester_id (parse_grant_duration o.parse_duration rest) b)
                  (grant_for-Stays o chat_id requester_id
                    (parse_grant_duration o.parse_duration rest) b))
              (λ _. omega arith)))

handle-Stays :
    (o : Outside) (chat_id requester_id text : Text) (b : Bot)
    → Stays b (handle_full_access o chat_id requester_id text b)
unfolding handle_full_access reply
handle-Stays o chat_id requester_id text b =
    if_intro (Stays b) (not b.configured) (λ _. omega arith)
      (λ _.
        if_intro (Stays b) (is_empty b.owner_dm_chat_id || not (text_eq chat_id b.owner_dm_chat_id))
          (λ _. omega arith)
          (λ _. subcommand-Stays o chat_id requester_id (to_lower words.0) words.1 b))
  where
    words : Text × Text
    words = split_first_word (trim_space (trim_prefix (trim_space text) (codes "/full-access")))

settle-Stays :
    (w : Waiter) (approved : Bool) (err : Option Error) (b : Bot)
    → Stays b (settle w approved err b) ⊎ ((approved ≡ true) × (err ≡ none))
unfolding settle reply
settle-Stays w approved (some challenge_expired) b = inl (omega arith)
settle-Stays w approved (some _) b = inl (omega arith)
settle-Stays w false none b = inl (omega arith)
settle-Stays w true none b = inr (refl, refl)

-- Waking a goroutine, where its wait reports an approval.
abbrev pub OpenedBy : Event → Bot → Type 0
OpenedBy e b =
    (n : ℕ) × (wake : Wake) × (w : Waiter) × (m : Manager) × (e ≡ wakes n wake)
    × (get_elem? b.waiting n ≡ some w)
    × (wait w.challenge wake b.challenges ≡ some (m, true, none))

step-OpenedBy : (e : Event) (b : Bot) → Stays b (step e b) ⊎ OpenedBy e b
unfolding step
step-OpenedBy (command o chat_id requester_id text) b =
    inl (handle-Stays o chat_id requester_id text b)
step-OpenedBy (wakes n wake) b = elim (wake_at-Woken n wake b) [
  | inl still ↦ inl (rw still (omega arith))
  | inr (w, m, approved, err, at, over, to) ↦
      elim (settle-Stays w approved err (record b { challenges = m })) [
        | inl stays ↦ inl (rw to stays)
        | inr (won, fine) ↦ inr (n, wake, w, m, refl, at, cc (over, won, fine))
      ]
]
step-OpenedBy (approves id) b = inl (omega arith)
step-OpenedBy (denies id) b = inl (omega arith)
step-OpenedBy (pass d) b = inl (step-Sooner (FullAccess.pass d) b.grant refl)
step-OpenedBy reads b = inl (step-Sooner FullAccess.active b.grant refl)
step-OpenedBy callback b = inl (step-Sooner FullAccess.callback b.grant refl)
step-OpenedBy (fire id) b = inl (step-Sooner (FullAccess.fire id) b.grant refl)

-- Full access is opened, or its end put off, only by a goroutine that is woken with the approval of
-- its challenge, and some approval of that challenge, before its end, came earlier in the
-- schedule: from a fresh table of challenges, whatever commands, approvals, denials, readers,
-- timers and waiting the schedule is made of.
pub run-ApprovedBy :
    (events : List Event) (e : Event) (b : Bot) (start : Time)
    → b.challenges ≡ Challenge.new start
    → (run events b).grant.full_access_until < (step e (run events b)).grant.full_access_until
    → (n : ℕ) × (wake : Wake) × (w : Waiter) × (e ≡ wakes n wake)
      × (get_elem? (run events b).waiting n ≡ some w)
      × ApprovedBy w.challenge events b
run-ApprovedBy events e b start fresh later = elim (step-OpenedBy e (run events b)) [
  | inl stays ↦ absurd (omega arith)
  | inr (n, wake, w, m, is, at, over) ↦
      let (cs, led, why) = run-Led events b in
      (
        n,
        wake,
        w,
        is,
        at,
        why w.challenge (
            simp fresh (
              wait-ApprovedIn start cs w.challenge wake m
                (ap (wait w.challenge wake) (sym (led ∙ ap (Challenge.run cs) fresh)) ∙ over))),
      )
]
