-- ===== src/Oob/Challenge/Listing.antt =====
-- The listings `Pending` and `PendingFor`.
use mathlib.Core.List.{Memᴰ}
use ringclaw.Prelude.{
  ℕ, ◌≤◌, ◌≡◌, inl, inr, refl, Bool, true, Bool-cases, Option, none, some, List, [], ◌∷◌, get_elem?,
  All, arith,
}
use ringclaw.Prelude.Text.{Text, text_eq, text_eq_iff}
use ringclaw.Prelude.Assoc.{Assoc, lookup}
use ringclaw.Oob.Challenge.{Challenge, Manager, take_if, select, pending_for}

module _ (P : Challenge → Type 0) (p : Challenge → Bool)
    (means : (c : Challenge) → p c ≡ true → P c) where
  take_if-All : (o : Option Challenge) (out : List Challenge) → All P out → All P (take_if p o out)
  unfolding take_if
  take_if-All none out h = h
  take_if-All (some c) out h = elim (Bool-cases (p c)) [
    | inl passes ↦ rw (passes, All) (means c passes, h)
    | inr fails ↦ rw (fails, All) h
  ]

  select-All : (heap : List Challenge) (t : Assoc ℕ) → All P (select p heap t)
  unfolding select
  select-All heap [] = tt
  select-All heap ((id, a) ∷ t) = take_if-All (get_elem? heap a) _ (select-All heap t)

module _ (p : Challenge → Bool) (c : Challenge) where
  take_if-later :
      (o : Option Challenge) (out : List Challenge) → Memᴰ c out → Memᴰ c (take_if p o out)
  unfolding take_if
  take_if-later none out h = h
  take_if-later (some d) out h = elim (Bool-cases (p d)) [
    | inl passes ↦ rw passes (Memᴰ.tail h)
    | inr fails ↦ rw fails h
  ]

  take_if-here : (out : List Challenge) → p c ≡ true → Memᴰ c (take_if p (some c) out)
  unfolding take_if
  take_if-here out passes = rw passes (Memᴰ.head refl)

  select-complete :
      (heap : List Challenge) (t : Assoc ℕ) (id : Text) (a : ℕ)
      → lookup id t ≡ some a
      → get_elem? heap a ≡ some c
      → p c ≡ true
      → Memᴰ c (select p heap t)
  unfolding select lookup
  select-complete heap [] id a e at passes = cc
  select-complete heap ((j, b) ∷ t) id a e at passes = elim (Bool-cases (text_eq j id)) [
    | inl named ↦
        let same : b ≡ a = ground arith in rw (same, at) (take_if-here (select p heap t) passes)
    | inr other ↦
        take_if-later (get_elem? heap b) (select p heap t)
          (select-complete heap t id a (ground arith) at passes)
  ]

-- `PendingFor` lists challenges of that requester whose end has not passed, and each that the map
-- has under some identifier.
pending_for-exact :
    (requester_id : Text) (m : Manager)
    → All
        (λ c. (c.requester_id ≡ requester_id) × (m.now ≤ c.expires_at))
        (pending_for requester_id m)
      × ((id : Text) (a : ℕ) (c : Challenge)
          → lookup id m.challenges ≡ some a
          → get_elem? m.heap a ≡ some c
          → c.requester_id ≡ requester_id
          → m.now ≤ c.expires_at
          → Memᴰ c (pending_for requester_id m))
unfolding pending_for
pending_for-exact requester_id m = (
  select-All _ _ (λ c e. (ground (arith, text_eq_iff c.requester_id requester_id), ground arith))
      m.heap m.challenges,
  λ id a c e at own timely.
      select-complete _ c m.heap m.challenges id a e at
        (ground (arith, text_eq_iff c.requester_id requester_id)),
)
