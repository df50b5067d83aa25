-- ===== src/Agent/Terminal/Ids.antt =====
-- The identifiers of terminals.
use ringclaw.Prelude.{
  ℕ, zero, suc, ◌+◌, ◌-◌, ◌*◌, ◌<◌, [], ◌∷◌, ◌++◌, ltb, ◌≡◌, inl, inr, refl, sym, ap, ◌∙◌, arith,
  Bool-cases,
}
use Prim.Native.Nat.{◌/◌, ◌%◌}
use ringclaw.Prelude.Text.{Text, codes}
use ringclaw.Agent.Terminal.{digits, term_id}

-- The number that a text of digits spells.
value : ℕ → Text → ℕ
value n [] = n
value n (c ∷ s) = value (10 * n + (c - b'0')) s

value-append : (n : ℕ) (s : Text) (c : ℕ) → value n (s ++ c ∷ []) ≡ 10 * value n s + (c - b'0')
unfolding value
value-append n [] c = refl
value-append n (d ∷ s) c = value-append (10 * n + (d - b'0')) s c

value-digits : (fuel n : ℕ) → n < fuel → value 0 (digits fuel n) ≡ n
unfolding digits value
value-digits zero n h = absurd (omega arith)
value-digits (suc fuel) n h = elim (Bool-cases (ltb n 10)) [
  | inl e ↦ ground arith
  | inr e ↦
      rw
        (
          e,
          value-append 0 (digits fuel (n / 10)) (b'0' + n % 10),
          value-digits fuel (n / 10) (ground arith),
        )
        (omega arith)
]

drop_front : (s t u : Text) → s ++ t ≡ s ++ u → t ≡ u
drop_front [] t u e = e
drop_front (c ∷ s) t u e = drop_front s t u (cc)

-- Two terminals never get the same identifier.
pub term_id-injective : (m n : ℕ) → term_id m ≡ term_id n → m ≡ n
unfolding term_id
term_id-injective m n e =
    let same = drop_front (codes "term_") _ _ e in
    sym (value-digits (suc m) m (omega arith))
    ∙ ap (value 0) same
    ∙ value-digits (suc n) n (omega arith)
