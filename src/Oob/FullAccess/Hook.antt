-- ===== src/Oob/FullAccess/Hook.antt =====
-- When the revoke hook of the full-access grant is launched.
use ringclaw.Prelude.{◌≡◌, Bool, not, ◌&&◌, arith, if◌then◌else◌}
use ringclaw.Prelude.Time.{is_zero}
use ringclaw.Oob.FullAccess.{
  System, Call, set_hook, grant, revoke, active, expires_at, pass, fire, callback, launch, step,
}

abbrev pub is_granted : System → Bool
is_granted s = not (is_zero s.full_access_until)

-- Every call launches the installed hook once if it ends a grant that stood before it, and launches
-- nothing otherwise, whichever way the grant ends: by a revoke, by the timer's callback, or by a
-- read that finds it expired.
pub step-launched :
    (c : Call) (s : System)
    → (step c s).launched ≡ (
        if is_granted s && not (is_granted (step c s))
        then launch s.revoke_hook s.launched
        else s.launched)
unfolding step launch
step-launched (set_hook hook) s = ground arith
step-launched (grant ttl) s = ground arith
step-launched revoke s = ground arith
step-launched active s = ground arith
step-launched expires_at s = ground arith
step-launched (pass d) s = ground arith
step-launched (fire id) s = ground arith
step-launched callback s = ground arith
