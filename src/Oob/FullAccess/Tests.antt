-- ===== src/Oob/FullAccess/Tests.antt =====
-- Schedules of the full-access grant, and the theorems at them.
use ringclaw.Prelude.{
  ◌+◌, ◌≤◌, ◌≡◌, refl, true, not, ◌&&◌, some, none, List, [], ◌∷◌, arith, if◌then◌else◌,
}
use ringclaw.Prelude.Time.{pos}
use ringclaw.Oob.FullAccess.{
  System, Call, set_hook, grant, revoke, active, pass, fire, callback, new, launch, step, stop, run,
  grant_full_access, full_access_active,
}
use ringclaw.Oob.FullAccess.Hook.{is_granted, step-launched}
use ringclaw.Oob.FullAccess.Expiry.{run-no_overstay, grant-lasts}
use ringclaw.Oob.FullAccess.Readers.{
  Readers, Section, whole, consumes, tells, pay_hook, section, sections,
}
use ringclaw.Oob.FullAccess.Race.{callback-clears_new_grant}

-- A day's grant with a hook.
abbrev day : List Call
day = set_hook (some 7) ∷ grant (pos 100) ∷ pass 60 ∷ active ∷ []

abbrev in_force : System
in_force = run day (new 5)

expires_by_timer : (run (pass 40 ∷ fire 0 ∷ callback ∷ []) in_force).launched ≡ 7 ∷ []
unfolding run step new
expires_by_timer = refl

expires_by_read : (run (pass 41 ∷ active ∷ active ∷ []) in_force).launched ≡ 7 ∷ []
unfolding run step new
expires_by_read = refl

step-launched_example : (step revoke in_force).launched ≡ (
    if is_granted in_force && not (is_granted (step revoke in_force))
    then launch in_force.revoke_hook in_force.launched
    else in_force.launched)
step-launched_example = step-launched revoke in_force

run-no_overstay_example : in_force.now ≤ in_force.full_access_until
unfolding run step new
run-no_overstay_example = run-no_overstay 5 day refl (omega arith) (omega arith)

abbrev busy : List Call
busy = active ∷ pass 99 ∷ fire 0 ∷ callback ∷ []

grant-lasts_example : (full_access_active (run busy (grant_full_access (pos 100) (new 5)))).1 ≡ true
unfolding new stop
grant-lasts_example =
    grant-lasts 100 (new 5) busy (record { idle = refl; no_stray = refl })
      (refl, (refl, (refl, (refl, tt)))) (omega arith)

-- The old grant's timer fires at its deadline; the new grant gets the mutex before its callback.
abbrev raced : System
raced = run (set_hook (some 7) ∷ grant (pos 10) ∷ pass 10 ∷ fire 0 ∷ []) (new 5)

callback-clears_new_grant_example :
    let granted = step (grant (pos 1000)) raced in
    let cleared = step callback granted in
    (granted.full_access_until ≡ raced.now + 1000)
    × (cleared.full_access_until ≡ 0)
    × (cleared.expiry_timer ≡ none)
    × (cleared.timers ≡ granted.timers)
    × (cleared.launched ≡ launch raced.revoke_hook raced.launched)
unfolding run step new
callback-clears_new_grant_example = callback-clears_new_grant 1000 0 raced (omega arith) refl

-- Two readers find the grant expired; only the first owes the hook, and a new grant comes between.
abbrev interleaved : List Section
interleaved = whole (pass 41) ∷ consumes ∷ consumes ∷ whole (grant (pos 10)) ∷ tells ∷ []

abbrev readers : Readers
readers = record { system = in_force; owed = 0 }

hook_is_told : (sections interleaved readers).system.launched ≡ 7 ∷ []
unfolding sections section pay_hook run step new
hook_is_told = refl
