-- ===== src/Messaging/Heartbeat/Repeats.antt =====
-- What the runner says again.
use mathlib.Core.Path.{subst}
use ringclaw.Prelude.{
  ◌+◌, ◌<◌, Bool, true, false, Option, none, some, List, [], ◌∷◌, All, if_intro, if◌then◌else◌, ltb,
  ◌≡◌, ◌≢◌, refl, ap, ◌∙◌, arith,
}
use ringclaw.Prelude.Text.{Text, text_eq, text_eq_iff}
use ringclaw.Prelude.Assoc.{Assoc, lookup, insert, lookup-insert, lookup_self}
use ringclaw.Prelude.Time.{Time}
use ringclaw.Messaging.Heartbeat.{
  HeartbeatRunner, heartbeat_dedup_window, clean_old, remember, seen_at, is_duplicate, Turn, report,
  sent, send_failed, tick, run,
}
use ringclaw.Messaging.Heartbeat.Ticks.{tried, tick_cases}

-- The window that begins at a time is still open.
abbrev pub Within : Time → Time → Type 0
Within start now = now < start + heartbeat_dedup_window

lookup-clean_old :
    (k : Text) (start now : Time) (m : Assoc Time)
    → Within start now
    → lookup k m ≡ some start
    → lookup k (clean_old now m) ≡ some start
unfolding lookup clean_old
lookup-clean_old k start now [] w e = e
lookup-clean_old k start now ((j, t) ∷ m) w e = ground (arith, lookup-clean_old k start now m w)

Holds : Text → Time → HeartbeatRunner → Type 0
Holds h start r = lookup h r.recent_hash ≡ some start

remember-Holds : (h : Text) (now : Time) (r : HeartbeatRunner) → Holds h now (remember h now r)
unfolding Holds remember
remember-Holds h now r =
    lookup-clean_old h now now (insert h now r.recent_hash) (omega arith)
      (lookup_self h now r.recent_hash)

remember_other-Holds :
    (h k : Text) (start now : Time) (r : HeartbeatRunner)
    → text_eq k h ≡ false
    → Within start now
    → Holds h start r
    → Holds h start (remember k now r)
unfolding Holds remember
remember_other-Holds h k start now r ne w e =
    lookup-clean_old h start now (insert k now r.recent_hash) w
      (lookup-insert k h now r.recent_hash ∙ rw ne e)

-- One call of `isDuplicate`, by what is recorded.
seen_at-Holds :
    (h k : Text) (start now : Time) (o : Option Time) (r : HeartbeatRunner)
    → lookup k r.recent_hash ≡ o
    → Within start now
    → Holds h start r
    → Holds h start (seen_at k now o r).0
unfolding seen_at Holds
seen_at-Holds h k start now none r e w held =
    remember_other-Holds h k start now r (ground (arith, text_eq_iff k h)) w held
seen_at-Holds h k start now (some t) r e w held =
    if_intro (λ (p : HeartbeatRunner × Bool). Holds h start p.0)
      (ltb now (t + heartbeat_dedup_window)) (λ _. held)
      (λ late. remember_other-Holds h k start now r (ground (arith, text_eq_iff k h)) w held)

report-Holds :
    (h : Text) (start : Time) (u : Turn) (reply : Text) (p : HeartbeatRunner × Bool)
    → Holds h start p.0
    → Holds h start (report u reply p).0
unfolding report
report-Holds h start u reply (r, true) held = held
report-Holds h start u reply (r, false) held = held

module _ (hash : Text → Text) where
  tick-Holds :
      (h : Text) (start : Time) (u : Turn) (r : HeartbeatRunner)
      → Within start u.now
      → Holds h start r
      → Holds h start (tick hash u r).0
  unfolding is_duplicate
  tick-Holds h start u r w held =
      tick_cases hash u r (λ p. Holds h start p.0) (λ _ _. held)
        (λ reply.
          report-Holds h start u reply _ (seen_at-Holds h (hash reply) start u.now _ r refl w held))

  run-Holds :
      (h : Text) (start : Time) (turns : List Turn) (r : HeartbeatRunner)
      → All (λ (u : Turn). Within start u.now) turns
      → Holds h start r
      → Holds h start (run hash turns r)
  unfolding run
  run-Holds h start [] r w held = held
  run-Holds h start (u ∷ turns) r (w, ws) held =
      run-Holds h start turns (tick hash u r).0 ws (tick-Holds h start u r w held)

  -- A report that tries a reply is one of that reply, and it is no duplicate.
  report-tried :
      (u : Turn) (reply said : Text) (p : HeartbeatRunner × Bool)
      → tried (report u reply p).1 ≡ some said
      → (p.1 ≡ false) × (reply ≡ said)
  unfolding report
  report-tried u reply said (r, true) e = cc
  report-tried u reply said (r, false) e = (refl, tried_either u.accepted e)
    where
      tried_either :
          (b : Bool)
          → tried (if b then sent reply else send_failed reply) ≡ some said
          → reply ≡ said
      tried_either true h = cc
      tried_either false h = cc

  seen_at-first :
      (k : Text) (now : Time) (o : Option Time) (r : HeartbeatRunner)
      → (seen_at k now o r).1 ≡ false
      → Holds k now (seen_at k now o r).0
  unfolding seen_at
  seen_at-first k now none r e = remember-Holds k now r
  seen_at-first k now (some t) r fresh =
      if_intro (λ (p : HeartbeatRunner × Bool). p.1 ≡ false → Holds k now p.0)
        (ltb now (t + heartbeat_dedup_window)) (λ _ e. cc) (λ _ _. remember-Holds k now r) fresh

  tick-first :
      (u : Turn) (r : HeartbeatRunner) (said : Text)
      → tried (tick hash u r).1 ≡ some said
      → Holds (hash said) u.now (tick hash u r).0
  unfolding is_duplicate
  tick-first u r said =
      tick_cases hash u r (λ p. tried p.1 ≡ some said → Holds (hash said) u.now p.0)
        (λ o quiet e. cc)
        (λ reply e.
          let (first, same) = report-tried u reply said (is_duplicate hash u.now reply r) e in
          report-Holds (hash said) u.now u reply (is_duplicate hash u.now reply r) (
            subst (λ t. Holds (hash t) u.now (is_duplicate hash u.now reply r).0) same
              (seen_at-first (hash reply) u.now (lookup (hash reply) r.recent_hash) r first)))

  is_duplicate-Holds :
      (said : Text) (start now : Time) (r : HeartbeatRunner)
      → Within start now
      → Holds (hash said) start r
      → (is_duplicate hash now said r).1 ≡ true
  unfolding is_duplicate seen_at Holds
  is_duplicate-Holds said start now r w held = rw held (
      if_intro (λ (p : HeartbeatRunner × Bool). p.1 ≡ true)
        (ltb now (start + heartbeat_dedup_window)) (λ _. refl) (λ late. ground arith))

  tick_again :
      (v : Turn) (r : HeartbeatRunner) (said : Text) (start : Time)
      → Within start v.now
      → Holds (hash said) start r
      → tried (tick hash v r).1 ≢ some said
  tick_again v r said start w held =
      tick_cases hash v r (λ p. tried p.1 ≢ some said) (λ o quiet e. cc)
        (λ reply e.
          let (first, same) = report-tried v reply said (is_duplicate hash v.now reply r) e in
          let repeated = is_duplicate-Holds said start v.now r w held in
          let answer = ap (λ t. (is_duplicate hash v.now t r).1) same in cc)

-- A reply that was sent, or that could not be sent, is not tried again by any tick whose time comes
-- before the end of twenty-four hours, whatever ticks of that time stand between: also a reply that
-- never arrived is held back.
pub run-tried_once :
    (hash : Text → Text) (u v : Turn) (turns : List Turn) (r : HeartbeatRunner) (said : Text)
    → tried (tick hash u r).1 ≡ some said
    → All (λ (w : Turn). Within u.now w.now) turns
    → Within u.now v.now
    → tried (tick hash v (run hash turns (tick hash u r).0)).1 ≢ some said
run-tried_once hash u v turns r said e ws w =
    tick_again hash v (run hash turns (tick hash u r).0) said u.now w
      (run-Holds hash (hash said) u.now turns (tick hash u r).0 ws (tick-first hash u r said e))
