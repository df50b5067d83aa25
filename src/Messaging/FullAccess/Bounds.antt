-- ===== src/Messaging/FullAccess/Bounds.antt =====
-- No grant through the command lasts longer than the cap.
use ringclaw.Prelude.{
  ℕ, zero, suc, Bool, true, false, not, ◌||◌, Option, none, some, List, [], ◌∷◌, get_elem?, All,
  if_intro, ◌≡◌, refl, arith,
}
use ringclaw.Prelude.Text.{Text, codes, text_eq, trim_prefix, trim_space, to_lower, is_empty}
use ringclaw.Prelude.Time.{Duration, pos, negsuc}
use ringclaw.Oob.Challenge.{
  Manager, Error, challenge_expired, Issued, ok, fail, issue, Wake, wait, default_challenge_ttl,
}
use ringclaw.Oob.FullAccess
use ringclaw.Oob.FullAccess.{
  grant_full_access, revoke_full_access, full_access_active, full_access_expires_at,
}
use ringclaw.Oob.FullAccess.Limit.{
  Capped, Within, grant_full_access-Capped, revoke_full_access-Capped, full_access_active-Capped,
  full_access_expires_at-Capped, step-Capped,
}
use ringclaw.Messaging.FullAccess.{
  full_access_max_grant, Waiter, Bot, reply, cap, checked, parse_grant_duration, Outside, intent,
  prompt, issued, start_full_access_grant, grant_for, format_full_access_status, subcommand,
  split_first_word, handle_full_access, settle, await_full_access_grant, drop_at, wake_at, Event,
  command, wakes, approves, denies, pass, reads, callback, fire, step, run,
}

checked-Within :
    (o : Option Duration) (d : Duration) → checked o ≡ some d → Within full_access_max_grant d
unfolding checked cap
checked-Within none d e = cc
checked-Within (some (pos n)) (pos m) e = ground arith
checked-Within (some (pos n)) (negsuc m) e = tt
checked-Within (some (negsuc n)) d e = cc

-- A duration that is accepted is at most the cap.
parse_grant_duration-Within :
    (parse : Text → Option Duration) (s : Text) (d : Duration)
    → parse_grant_duration parse s ≡ some d
    → Within full_access_max_grant d
unfolding parse_grant_duration
parse_grant_duration-Within parse s (negsuc n) e = tt
parse_grant_duration-Within parse s (pos n) e =
    ground (arith, checked-Within (parse (trim_space s)) (pos n))

-- The grant, and those that are waited for, are no longer than the cap.
pub record Limited (b : Bot) : Type 0 where
  pub capped : Capped full_access_max_grant b.grant
  pub within : All (λ (w : Waiter). Within full_access_max_grant w.dur) b.waiting

prompt-Limited :
    (o : Outside) (a : ℕ) (id chat_id : Text) (dur : Duration) (b : Bot)
    → Within full_access_max_grant dur
    → Limited b
    → Limited (prompt o a id chat_id dur b)
unfolding prompt reply
prompt-Limited o a id chat_id dur b w l =
    if_intro Limited o.posted (λ _. record { capped = l.capped; within = (w, l.within) })
      (λ _. record { capped = l.capped; within = l.within })

issued-Limited :
    (o : Outside) (chat_id : Text) (dur : Duration) (r : Manager × Issued) (b : Bot)
    → Within full_access_max_grant dur
    → Limited b
    → Limited (issued o chat_id dur r b)
unfolding issued reply
issued-Limited o chat_id dur (m, fail err) b w l = record { capped = l.capped; within = l.within }
issued-Limited o chat_id dur (m, ok a) b w l =
    elim (get_elem? m.heap a)
      as (λ c. Limited (elim c as (λ _. Bot) [
        | none ↦ record b { challenges = m }
        | some c ↦ prompt o a c.id chat_id dur (record b { challenges = m })
      ])) [
        | none ↦ record { capped = l.capped; within = l.within }
        | some c ↦
            prompt-Limited o a c.id chat_id dur (record b { challenges = m }) w
              (record { capped = l.capped; within = l.within })
      ]

grant_for-Limited :
    (o : Outside) (chat_id requester_id : Text) (d : Option Duration) (b : Bot)
    → ((dur : Duration) → d ≡ some dur → Within full_access_max_grant dur)
    → Limited b
    → Limited (grant_for o chat_id requester_id d b)
unfolding grant_for start_full_access_grant reply
grant_for-Limited o chat_id requester_id none b w l = record {
  capped = l.capped;
  within = l.within;
}
grant_for-Limited o chat_id requester_id (some dur) b w l =
    issued-Limited o chat_id dur
      (issue o.random requester_id intent chat_id chat_id
        (record { ttl = default_challenge_ttl; owner_id = [] }) b.challenges)
      b (w dur refl) l

status-Limited : (b : Bot) → Limited b → Limited (format_full_access_status b)
unfolding format_full_access_status reply
status-Limited b l =
    let read = full_access_active-Capped full_access_max_grant b.grant l.capped in
    if_intro Limited (full_access_active b.grant).1
      (λ _. record {
        capped =
            full_access_expires_at-Capped full_access_max_grant (full_access_active b.grant).0 read;
        within = l.within;
      })
      (λ _. record { capped = read; within = l.within })

subcommand-Limited :
    (o : Outside) (chat_id requester_id sub rest : Text) (b : Bot)
    → Limited b
    → Limited (subcommand o chat_id requester_id sub rest b)
unfolding subcommand reply
subcommand-Limited o chat_id requester_id sub rest b l =
    if_intro Limited (is_empty sub || text_eq sub (codes "status")) (λ _. status-Limited b l)
      (λ _.
        if_intro Limited
          (text_eq sub (codes "revoke") || text_eq sub (codes "off") || text_eq sub (codes "lock"))
          (λ _. record {
            capped = revoke_full_access-Capped full_access_max_grant b.grant;
            within = l.within;
          })
          (λ _.
            if_intro Limited
              (text_eq sub (codes "grant")
                || text_eq sub (codes "on")
                || text_eq sub (codes "unlock"))
              (λ _.
                grant_for-Limited o chat_id requester_id
                  (parse_grant_duration o.parse_duration rest) b
                  (parse_grant_duration-Within o.parse_duration rest) l)
              (λ _. record { capped = l.capped; within = l.within })))

handle-Limited :
    (o : Outside) (chat_id requester_id text : Text) (b : Bot)
    → Limited b
    → Limited (handle_full_access o chat_id requester_id text b)
unfolding handle_full_access reply
handle-Limited o chat_id requester_id text b l =
    if_intro Limited (not b.configured) (λ _. record { capped = l.capped; within = l.within })
      (λ _.
        if_intro Limited (is_empty b.owner_dm_chat_id || not (text_eq chat_id b.owner_dm_chat_id))
          (λ _. record { capped = l.capped; within = l.within })
          (λ _. subcommand-Limited o chat_id requester_id (to_lower words.0) words.1 b l))
  where
    words : Text × Text
    words = split_first_word (trim_space (trim_prefix (trim_space text) (codes "/full-access")))

settle-Limited :
    (w : Waiter) (approved : Bool) (err : Option Error) (b : Bot)
    → Within full_access_max_grant w.dur
    → Limited b
    → Limited (settle w approved err b)
unfolding settle reply
settle-Limited w approved (some challenge_expired) b k l = record {
  capped = l.capped;
  within = l.within;
}
settle-Limited w approved (some _) b k l = record { capped = l.capped; within = l.within }
settle-Limited w false none b k l = record { capped = l.capped; within = l.within }
settle-Limited w true none b k l = record {
  capped =
      full_access_expires_at-Capped full_access_max_grant (grant_full_access w.dur b.grant)
        (grant_full_access-Capped full_access_max_grant w.dur b.grant k l.capped);
  within = l.within;
}

Within-at :
    (n : ℕ) (ws : List Waiter) (w : Waiter)
    → All (λ (v : Waiter). Within full_access_max_grant v.dur) ws
    → get_elem? ws n ≡ some w
    → Within full_access_max_grant w.dur
Within-at n [] w all e = cc
Within-at zero (v ∷ ws) w (k, all) e = let same : v ≡ w = cc in rw (← same) k
Within-at (suc n) (v ∷ ws) w (k, all) e = Within-at n ws w all e

drop_at-Within :
    (n : ℕ) (ws : List Waiter)
    → All (λ (v : Waiter). Within full_access_max_grant v.dur) ws
    → All (λ (v : Waiter). Within full_access_max_grant v.dur) (drop_at n ws)
unfolding drop_at
drop_at-Within n [] all = tt
drop_at-Within zero (w ∷ ws) (k, all) = all
drop_at-Within (suc n) (w ∷ ws) (k, all) = (k, drop_at-Within n ws all)

await-Limited :
    (w : Waiter) (wake : Wake) (b c : Bot)
    → Within full_access_max_grant w.dur
    → Limited b
    → await_full_access_grant w wake b ≡ some c
    → Limited c
unfolding await_full_access_grant
await-Limited w wake b c k l =
    elim (wait w.challenge wake b.challenges)
      as (λ r.
        elim r as (λ _. Option Bot) [
          | none ↦ none
          | some (m, approved, err) ↦ some (settle w approved err (record b { challenges = m }))
        ]
          ≡ some c
        → Limited c) [
          | none ↦ λ e. absurd (ground arith)
          | some (m, approved, err) ↦ λ e.
              let same : settle w approved err (record b { challenges = m }) ≡ c = cc in
              rw (← same) (
                settle-Limited w approved err (record b { challenges = m }) k
                  (record { capped = l.capped; within = l.within }))
        ]

wake_at-Limited : (n : ℕ) (wake : Wake) (b : Bot) → Limited b → Limited (wake_at n wake b)
unfolding wake_at
wake_at-Limited n wake b l = woken (get_elem? b.waiting n) refl
  where
    returned :
        (o : Option Bot)
        → ((c : Bot) → o ≡ some c → Limited c)
        → Limited (elim o as (λ _. Bot) [
          | none ↦ b
          | some c ↦ record c { waiting = drop_at n c.waiting }
        ])
    returned none f = l
    returned (some c) f = record {
      capped = (f c refl).capped;
      within = drop_at-Within n c.waiting (f c refl).within;
    }

    woken :
        (o : Option Waiter)
        → get_elem? b.waiting n ≡ o
        → Limited (elim o as (λ _. Bot) [
          | none ↦ b
          | some w ↦ elim (await_full_access_grant w wake b) [
            | none ↦ b
            | some c ↦ record c { waiting = drop_at n c.waiting }
          ]
        ])
    woken none e = l
    woken (some w) e =
        returned (await_full_access_grant w wake b)
          (λ c. await-Limited w wake b c (Within-at n b.waiting w l.within e) l)

step-Limited : (e : Event) (b : Bot) → Limited b → Limited (step e b)
unfolding step
step-Limited (command o chat_id requester_id text) b l =
    handle-Limited o chat_id requester_id text b l
step-Limited (wakes n wake) b l = wake_at-Limited n wake b l
step-Limited (approves id) b l = record { capped = l.capped; within = l.within }
step-Limited (denies id) b l = record { capped = l.capped; within = l.within }
step-Limited (pass d) b l = record {
  capped = step-Capped full_access_max_grant (FullAccess.pass d) b.grant tt l.capped;
  within = l.within;
}
step-Limited reads b l = record {
  capped = step-Capped full_access_max_grant FullAccess.active b.grant tt l.capped;
  within = l.within;
}
step-Limited callback b l = record {
  capped = step-Capped full_access_max_grant FullAccess.callback b.grant tt l.capped;
  within = l.within;
}
step-Limited (fire id) b l = record {
  capped = step-Capped full_access_max_grant (FullAccess.fire id) b.grant tt l.capped;
  within = l.within;
}

-- Whatever durations are asked for, and whatever else happens, the grant ends within thirty days
-- from the present, and no wait is for a longer one.
pub run-Limited : (events : List Event) (b : Bot) → Limited b → Limited (run events b)
unfolding run
run-Limited [] b l = l
run-Limited (e ∷ events) b l = run-Limited events _ (step-Limited e b l)
