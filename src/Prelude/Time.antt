-- ===== src/Prelude/Time.antt =====
-- Go's `time`: a `time.Time` is its nanoseconds since the zero time, which is 0; a `time.Duration`
-- is signed.
use Prim.Native.Nat.{ℕ, suc, ◌+◌, ◌-◌, ◌*◌}
use mathlib.Core.Bool.{Bool, false}
pub use ringclaw.Prelude.Int.{pos, negsuc}
use ringclaw.Prelude.Int.{ℤ}
use ringclaw.Prelude.Tests.{ltb, ◌==◌}

abbrev pub Time : Type 0
Time = ℕ

abbrev pub Duration : Type 0
Duration = ℤ

-- `d > 0`
abbrev pub is_positive : Duration → Bool
is_positive (pos n) = ltb 0 n
is_positive (negsuc n) = false

-- `t.Add(d)`
abbrev pub add : Time → Duration → Time
add t (pos n) = t + n
add t (negsuc n) = t - suc n

abbrev pub is_zero : Time → Bool
is_zero t = t == 0

-- `t.After(u)`
abbrev pub after : Time → Time → Bool
after t u = ltb u t

abbrev pub second : ℕ
second = 1_000_000_000

abbrev pub minute : ℕ
minute = 60 * second

abbrev pub hour : ℕ
hour = 60 * minute
