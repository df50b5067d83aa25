-- ===== src/Oob/FullAccess/Race.antt =====
-- A race: the callback of an old timer that already fired, and a new grant that comes first.
use ringclaw.Prelude.{ℕ, suc, ◌+◌, ◌<◌, ◌≡◌, none, arith}
use ringclaw.Prelude.Time.{pos}
use ringclaw.Oob.FullAccess.{System, grant, callback, launch, step}

-- Whenever a callback of an earlier grant waits for the mutex, a new grant for `n` that gets the
-- mutex first is cleared by that callback at once, whatever `n` is: it is in force between the two,
-- and then it is off, its timer has no handle any more that a later `Stop` could use, and the
-- revoke hook is launched as if it had expired.
pub callback-clears_new_grant :
    (n k : ℕ) (s : System)
    → 0 < n
    → s.callbacks ≡ suc k
    → let granted = step (grant (pos n)) s in
      let cleared = step callback granted in
      (granted.full_access_until ≡ s.now + n)
      × (cleared.full_access_until ≡ 0)
      × (cleared.expiry_timer ≡ none)
      × (cleared.timers ≡ granted.timers)
      × (cleared.launched ≡ launch s.revoke_hook s.launched)
unfolding step
callback-clears_new_grant n k s h c = ground arith
