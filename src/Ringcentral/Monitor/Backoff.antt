-- ===== src/Ringcentral/Monitor/Backoff.antt =====
-- The delay between two attempts to connect.
use Prim.Native.Nat.{min}
use ringclaw.Prelude.{ℕ, zero, suc, ◌-◌, ◌*◌, ◌≤◌, ◌≡◌, refl, arith}
use ringclaw.Ringcentral.Monitor.{Monitor, initial_backoff, max_backoff, backoff_loop, calc_backoff}

-- The delay that is meant: three seconds, doubled with each further failure, at most a minute.
abbrev pub doubled : ℕ → ℕ
doubled zero = initial_backoff
doubled (suc n) = min (doubled n * 2) max_backoff

backoff_loop-capped :
    (n d : ℕ)
    → initial_backoff ≤ d
    → d ≤ max_backoff
    → (backoff_loop n d ≤ max_backoff) × (d ≤ backoff_loop n d)
unfolding backoff_loop
backoff_loop-capped zero d l h = (h, omega arith)
backoff_loop-capped (suc n) d l h = ground (arith, backoff_loop-capped n (d * 2))

backoff_loop-suc :
    (n d : ℕ) → d ≤ max_backoff → backoff_loop (suc n) d ≡ min (backoff_loop n d * 2) max_backoff
unfolding backoff_loop
backoff_loop-suc zero d h = ground arith
backoff_loop-suc (suc n) d h = ground (arith, backoff_loop-suc n (d * 2))

backoff_loop-doubled : (n : ℕ) → backoff_loop n initial_backoff ≡ doubled n
unfolding backoff_loop
backoff_loop-doubled zero = refl
backoff_loop-doubled (suc n) =
    omega (arith, backoff_loop-suc n initial_backoff (omega arith), backoff_loop-doubled n)

-- After `n + 1` failures the delay is three seconds doubled `n` times, cut at a minute; it never
-- falls below three seconds.
calc_backoff-doubled :
    (m : Monitor) → (calc_backoff m ≡ doubled (m.failures - 1)) × (initial_backoff ≤ calc_backoff m)
unfolding calc_backoff
calc_backoff-doubled m = (
  backoff_loop-doubled (m.failures - 1),
  (backoff_loop-capped (m.failures - 1) initial_backoff (omega arith) (omega arith)).1,
)
