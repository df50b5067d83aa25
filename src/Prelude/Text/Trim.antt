-- ===== src/Prelude/Text/Trim.antt =====
-- What `strings.TrimSpace` keeps of a text.
use ringclaw.Prelude.Lists.{length}
use Prim.Native.Nat.{ℕ, ◌≤◌}
use mathlib.Core.Path.{◌≡◌}
use mathlib.Core.Logic.{◌≢◌}
use mathlib.Core.Bool.{false}
use mathlib.Core.List.{[], ◌∷◌, ◌++◌}
use native.Mathlib.Omega.{arith}
use ringclaw.Prelude.Text.{Text, is_space, trim_left, trim_right, trim_space, trim_left-cons}

pub length-trim_left : (s : Text) → length (trim_left s) ≤ length s
unfolding trim_left
length-trim_left [] = omega arith
length-trim_left (c ∷ s) = ground (arith, length-trim_left s)

length-trim_right : (s : Text) → length (trim_right s) ≤ length s
unfolding trim_right
length-trim_right [] = omega arith
length-trim_right (c ∷ s) = ground (arith, length-trim_right s)

pub length-trim_space : (s : Text) → length (trim_space s) ≤ length s
unfolding trim_space
length-trim_space s = omega (arith, length-trim_left s, length-trim_right (trim_left s))

-- Behind anything, a text that ends as it should stays.
pub trim_right-append : (s t : Text) → t ≢ [] → trim_right t ≡ t → trim_right (s ++ t) ≡ s ++ t
unfolding trim_right
trim_right-append [] t ne e = e
trim_right-append (c ∷ s) t ne e = ground (arith, trim_right-append s t ne e, append-ne-nil s t ne)
  where
    append-ne-nil : (s t : Text) → t ≢ [] → s ++ t ≢ []
    append-ne-nil [] t ne = ne
    append-ne-nil (c ∷ s) t ne = cc

-- A text with no white space at its ends is its own trimmed form.
pub trim_space-append :
    (c : ℕ) (s t : Text)
    → is_space c ≡ false
    → t ≢ []
    → trim_right t ≡ t
    → trim_space (c ∷ s ++ t) ≡ c ∷ s ++ t
unfolding trim_space
trim_space-append c s t h ne e = rw (trim_left-cons c (s ++ t) h) (trim_right-append (c ∷ s) t ne e)
