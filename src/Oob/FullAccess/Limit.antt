-- ===== src/Oob/FullAccess/Limit.antt =====
-- How far ahead a grant may end.
use ringclaw.Prelude.{ℕ, ◌+◌, ◌≤◌, ◌≡◌, Bool, true, false, arith}
use ringclaw.Prelude.Time.{Duration, pos, negsuc}
use ringclaw.Oob.FullAccess.{
  System, set_full_access_revoke_hook, grant_full_access, revoke_full_access, consume_if_expired,
  fire_revoke_hook, expire_lazily, full_access_active, full_access_expires_at, fire_timer,
  run_callback, Call, set_hook, grant, revoke, active, expires_at, pass, fire, callback, step,
}

-- A grant that is in force ends within `max`.
abbrev pub Capped : ℕ → System → Type 0
Capped max s = s.full_access_until ≤ s.now + max

-- A duration that is not above `max`.
abbrev pub Within : ℕ → Duration → Type 0
Within max (pos n) = n ≤ max
Within max (negsuc n) = Unit

pub grant_full_access-Capped :
    (max : ℕ) (ttl : Duration) (s : System)
    → Within max ttl
    → Capped max s
    → Capped max (grant_full_access ttl s)
unfolding grant_full_access
grant_full_access-Capped max (pos n) s w c = ground arith
grant_full_access-Capped max (negsuc n) s w c = c

pub revoke_full_access-Capped : (max : ℕ) (s : System) → Capped max (revoke_full_access s)
unfolding revoke_full_access
revoke_full_access-Capped max s = omega arith

expire_lazily-Capped : (max : ℕ) (s : System) → Capped max s → Capped max (expire_lazily s)
unfolding expire_lazily consume_if_expired fire_revoke_hook
expire_lazily-Capped max s c = ground arith

pub full_access_active-Capped :
    (max : ℕ) (s : System) → Capped max s → Capped max (full_access_active s).0
unfolding full_access_active
full_access_active-Capped max s c = expire_lazily-Capped max s c

pub full_access_expires_at-Capped :
    (max : ℕ) (s : System) → Capped max s → Capped max (full_access_expires_at s).0
unfolding full_access_expires_at
full_access_expires_at-Capped max s c = expire_lazily-Capped max s c

-- The calls that grant no more than `max`.
abbrev pub Grants : ℕ → Call → Type 0
Grants max (grant ttl) = Within max ttl
Grants max _ = Unit

pub step-Capped :
    (max : ℕ) (call : Call) (s : System) → Grants max call → Capped max s → Capped max (step call s)
unfolding step
step-Capped max (set_hook hook) s g c = c
step-Capped max (grant ttl) s g c = grant_full_access-Capped max ttl s g c
step-Capped max revoke s g c = revoke_full_access-Capped max s
step-Capped max active s g c = full_access_active-Capped max s c
step-Capped max expires_at s g c = full_access_expires_at-Capped max s c
step-Capped max (pass d) s g c = omega arith
step-Capped max (fire id) s g c = unfold fire_timer in ground arith
step-Capped max callback s g c = unfold run_callback in ground arith

-- The end of the grant is not put off.
abbrev pub Sooner : System → System → Type 0
Sooner s t = t.full_access_until ≤ s.full_access_until

pub revoke_full_access-Sooner : (s : System) → Sooner s (revoke_full_access s)
unfolding revoke_full_access
revoke_full_access-Sooner s = omega arith

expire_lazily-Sooner : (s : System) → Sooner s (expire_lazily s)
unfolding expire_lazily consume_if_expired fire_revoke_hook
expire_lazily-Sooner s = ground arith

pub full_access_active-Sooner : (s : System) → Sooner s (full_access_active s).0
unfolding full_access_active
full_access_active-Sooner s = expire_lazily-Sooner s

pub full_access_expires_at-Sooner : (s : System) → Sooner s (full_access_expires_at s).0
unfolding full_access_expires_at
full_access_expires_at-Sooner s = expire_lazily-Sooner s

abbrev pub is_grant : Call → Bool
is_grant (grant ttl) = true
is_grant _ = false

pub step-Sooner : (call : Call) (s : System) → is_grant call ≡ false → Sooner s (step call s)
unfolding step
step-Sooner (set_hook hook) s e = unfold set_full_access_revoke_hook in omega arith
step-Sooner (grant ttl) s e = cc
step-Sooner revoke s e = revoke_full_access-Sooner s
step-Sooner active s e = full_access_active-Sooner s
step-Sooner expires_at s e = full_access_expires_at-Sooner s
step-Sooner (pass d) s e = omega arith
step-Sooner (fire id) s e = unfold fire_timer in ground arith
step-Sooner callback s e = unfold run_callback in ground arith
