-- ===== src/Oob/FullAccess/Expiry.antt =====
-- A grant ends in time: by a read that looks at the clock, and without any read by its timer.
use ringclaw.Prelude.{
  ℕ, ◌+◌, ◌==◌, ◌≤◌, ◌<◌, ◌≡◌, ◌≢◌, ◌⊎◌, inl, inr, refl, Bool, true, false, List, [], ◌∷◌, All, any,
  arith,
}
use ringclaw.Prelude.Time.{Time, Duration, pos}
use ringclaw.Oob.FullAccess.{
  System, Timer, Call, set_hook, grant, revoke, active, expires_at, pass, fire, callback, new, stop,
  step, run, grant_full_access, full_access_active,
}

-- A reader that answers "active" has just seen that the clock is not past the grant's end.
full_access_active_sound :
    (s : System)
    → (full_access_active s).1 ≡ true
    → ((full_access_active s).0.full_access_until ≡ s.full_access_until)
      × (s.full_access_until ≢ 0)
      × (s.now ≤ s.full_access_until)
unfolding full_access_active
full_access_active_sound s h = ground arith

-- A timer of the runtime stands at the end of the grant, or a callback already waits.
abbrev IsWatched : System → Type 0
IsWatched s =
    s.full_access_until ≢ 0
    → (any (λ t. t.deadline == s.full_access_until) s.timers ≡ true) ⊎ (0 < s.callbacks)

step-IsWatched : (c : Call) (s : System) → IsWatched s → IsWatched (step c s)
unfolding step
step-IsWatched (set_hook hook) s h = h
step-IsWatched (grant ttl) s h = ground arith
step-IsWatched revoke s h = ground arith
step-IsWatched active s h = ground arith
step-IsWatched expires_at s h = ground arith
step-IsWatched (pass d) s h = h
step-IsWatched (fire id) s h = ground arith
step-IsWatched callback s h = ground arith

run-IsWatched : (cs : List Call) (s : System) → IsWatched s → IsWatched (run cs s)
unfolding run
run-IsWatched [] s h = h
run-IsWatched (c ∷ cs) s h = run-IsWatched cs (step c s) (step-IsWatched c s h)

deadline-bound :
    (now until : Time) (ts : List Timer)
    → All (λ t. now ≤ t.deadline) ts
    → any (λ t. t.deadline == until) ts ≡ true
    → now ≤ until
deadline-bound now until [] h e = absurd (ground arith)
deadline-bound now until (t ∷ ts) h e = ground (arith, deadline-bound now until ts h.1)

-- After any schedule of calls from a fresh manager, in which nobody need ever have asked: if the
-- runtime has kept up (no armed timer is overdue and no callback waits for the mutex), then a grant
-- that still stands has not passed its end.
pub run-no_overstay :
    (start : Time) (cs : List Call)
    → let s = run cs (new start) in
      s.callbacks ≡ 0
      → All (λ t. s.now ≤ t.deadline) s.timers
      → s.full_access_until ≢ 0
      → s.now ≤ s.full_access_until
run-no_overstay start cs idle kept live =
    elim (run-IsWatched cs (new start) (unfold new in λ h. absurd (h refl)) live) [
      | inl armed ↦ deadline-bound _ _ (run cs (new start)).timers kept armed
      | inr waits ↦ absurd (omega arith)
    ]

-- No callback waits, and no timer is armed but the one that the manager would stop.
pub record IsQuiet (s : System) : Type 0 where
  pub idle : s.callbacks ≡ 0
  pub no_stray : stop s.expiry_timer s.timers ≡ []

-- Calls that neither grant nor revoke.
abbrev pub leaves_grant : Call → Bool
leaves_grant (grant ttl) = false
leaves_grant revoke = false
leaves_grant _ = true

-- The time that passes in a schedule.
abbrev pub elapsed : List Call → ℕ
elapsed [] = 0
elapsed (pass d ∷ cs) = d + elapsed cs
elapsed (_ ∷ cs) = elapsed cs

record IsRunning (until : Time) (s : System) : Type 0 where
  granted : s.full_access_until ≡ until
  idle : s.callbacks ≡ 0
  watched : (t : Timer) × (s.timers ≡ t ∷ []) × (t.deadline ≡ until)

grant-IsRunning :
    (n : ℕ) (s : System) → 0 < n → IsQuiet s → IsRunning (s.now + n) (grant_full_access (pos n) s)
unfolding grant_full_access
grant-IsRunning n s h q = record {
  granted = ground arith;
  idle = ground arith;
  watched = (record { id = s.next_timer; deadline = s.now + n }, ground arith, refl);
}

step-IsRunning :
    (c : Call) {until : Time} (s : System)
    → leaves_grant c ≡ true
    → s.now + elapsed (c ∷ []) < until
    → IsRunning until s
    → IsRunning until (step c s)
unfolding step
step-IsRunning (set_hook hook) s l h r = ground arith
step-IsRunning (grant ttl) s l h r = cc
step-IsRunning revoke s l h r = cc
step-IsRunning active s l h r = ground arith
step-IsRunning expires_at s l h r = ground arith
step-IsRunning (pass d) s l h r = ground arith
step-IsRunning (fire id) s l h r = ground arith
step-IsRunning callback s l h r = ground arith

now-step : (c : Call) (s : System) → (step c s).now ≡ s.now + elapsed (c ∷ [])
unfolding step
now-step (set_hook hook) s = omega arith
now-step (grant ttl) s = ground arith
now-step revoke s = ground arith
now-step active s = ground arith
now-step expires_at s = ground arith
now-step (pass d) s = ground arith
now-step (fire id) s = ground arith
now-step callback s = ground arith

elapsed-cons : (c : Call) (cs : List Call) → elapsed (c ∷ cs) ≡ elapsed (c ∷ []) + elapsed cs
elapsed-cons (pass d) cs = omega arith
elapsed-cons _ cs = omega arith

run-IsRunning :
    (cs : List Call) {until : Time} (s : System)
    → All (λ c. leaves_grant c ≡ true) cs
    → s.now + elapsed cs < until
    → IsRunning until s
    → IsRunning until (run cs s) × ((run cs s).now < until)
unfolding run
run-IsRunning [] s l h r = (r, omega arith)
run-IsRunning (c ∷ cs) s l h r =
    run-IsRunning cs (step c s) l.1 (omega (arith, elapsed-cons c cs, now-step c s))
      (step-IsRunning c s l.0 (omega (arith, elapsed-cons c cs)) r)

IsRunning-active :
    {until : Time} (s : System)
    → IsRunning until s
    → s.now < until
    → (full_access_active s).1 ≡ true
unfolding full_access_active
IsRunning-active s r h = ground arith

now-grant : (ttl : Duration) (s : System) → (grant_full_access ttl s).now ≡ s.now
unfolding grant_full_access
now-grant ttl s = ground arith

-- From a state with no callback under way and no stray timer, a grant for `n` stays in force through
-- any calls that neither grant nor revoke (reads, hook changes, timers that the runtime tries to
-- fire, callbacks), as long as less than `n` passes.
pub grant-lasts :
    (n : ℕ) (s : System) (cs : List Call)
    → IsQuiet s
    → All (λ c. leaves_grant c ≡ true) cs
    → elapsed cs < n
    → (full_access_active (run cs (grant_full_access (pos n) s))).1 ≡ true
grant-lasts n s cs q l h =
    let t = grant_full_access (pos n) s in
    let (r, before) =
      run-IsRunning cs {until = s.now + n} t l (omega (arith, now-grant (pos n) s))
        (grant-IsRunning n s (omega arith) q) in
    IsRunning-active (run cs t) r before
