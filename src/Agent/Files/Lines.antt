-- ===== src/Agent/Files/Lines.antt =====
-- Reading a file by lines.
use mathlib.Core.List.{append_assoc}
use ringclaw.Prelude.{
  ℕ, zero, suc, ◌+◌, ◌-◌, ◌*◌, ◌≤◌, ◌<◌, Option, none, some, List, [], ◌∷◌, ◌++◌, length, take,
  drop, take-drop, length-drop, concat, ◌≡◌, ◌↔◌, refl, sym, ap, ◌∙◌, arith, Option-cases,
  Bool-cases, ltb, inl, inr,
}
use ringclaw.Prelude.Int.{ℤ, pos, negsuc}
use ringclaw.Prelude.Text.{Text}
use ringclaw.Agent.Files.{
  lines_from, split_lines, join_lines, positive, start_of, int_bound, wrapped, between, capped,
  end_of, slice, join_all, content_of,
}

join-lines_from : (buf s : Text) → join_lines (lines_from buf s) ≡ buf ++ s
unfolding lines_from join_lines
join-lines_from [] [] = refl
join-lines_from (c ∷ buf) [] = refl
join-lines_from buf (b ∷ s) =
    ground
      (arith, join-lines_from [] s, join-lines_from (buf ++ b ∷ []) s, append_assoc buf (b ∷ []) s)

-- Joining the lines of a text gives the text back, for every text.
pub join_lines-split_lines : (s : Text) → join_lines (split_lines s) ≡ s
unfolding split_lines
join_lines-split_lines s = join-lines_from [] s

take_all {ℓ} : {A : Type ℓ} (n : ℕ) (xs : List A) → length xs ≤ n → take n xs ≡ xs
take_all zero [] h = refl
take_all zero (x ∷ xs) h = absurd (omega arith)
take_all (suc n) [] h = refl
take_all (suc n) (x ∷ xs) h = ap (λ t. x ∷ t) (take_all n xs (omega arith))

drop_all {ℓ} : {A : Type ℓ} (n : ℕ) (xs : List A) → length xs ≤ n → drop n xs ≡ []
drop_all zero [] h = refl
drop_all zero (x ∷ xs) h = absurd (omega arith)
drop_all (suc n) [] h = refl
drop_all (suc n) (x ∷ xs) h = drop_all n xs (omega arith)

positive_pos : (n : ℕ) → 0 < n → positive (some (pos n)) ≡ some n
unfolding positive
positive_pos n h = ground arith

start_of_within : (line : Option ℤ) (total : ℕ) → start_of line total ≤ total
unfolding start_of
start_of_within line total = elim (Option-cases (positive line)) [
  | inl e ↦ ground arith
  | inr (n, e) ↦ ground arith
]

wrapped_small : (n : ℕ) → n < int_bound → wrapped n ≡ pos n
unfolding wrapped
wrapped_small n h = ground arith

wrapped_large :
    (n : ℕ) → int_bound ≤ n → n < 2 * int_bound → wrapped n ≡ negsuc (2 * int_bound - 1 - n)
unfolding wrapped
wrapped_large n h k = ground arith

concat-append {ℓ} :
    {A : Type ℓ} (xs ys : List (List A)) → concat (xs ++ ys) ≡ concat xs ++ concat ys
concat-append [] ys = refl
concat-append (x ∷ xs) ys = rw (concat-append xs ys) (sym (append_assoc x (concat xs) (concat ys)))

-- What a slice comes to, by the number of lines that is asked for.
between_open :
    (start : ℕ) (lines : List Text)
    → start ≤ length lines
    → between start (end_of none start (length lines)) lines ≡ some (drop start lines)
unfolding between end_of capped
between_open start lines le =
    ground (arith, le, take_all (length lines - start) (drop start lines), length-drop start lines)

between_fits :
    (start n : ℕ) (lines : List Text)
    → start ≤ length lines
    → start + n < int_bound
    → between start (end_of (some n) start (length lines)) lines ≡ some (take n (drop start lines))
unfolding between end_of capped
between_fits start n lines le h = rw (wrapped_small (start + n) h) (
    ground (
      arith,
      le,
      take_all (length lines - start) (drop start lines),
      take_all n (drop start lines),
      length-drop start lines,
    ))

between_overflows :
    (start n : ℕ) (lines : List Text)
    → int_bound ≤ start + n
    → start + n < 2 * int_bound
    → between start (end_of (some n) start (length lines)) lines ≡ none
unfolding between end_of capped
between_overflows start n lines h k = rw (wrapped_large (start + n) h k) refl

-- A field that a JSON number was decoded into.
abbrev pub IsInt : Option ℤ → Type 0
IsInt none = Unit
IsInt (some (pos n)) = n < int_bound
IsInt (some (negsuc n)) = n < int_bound

positive-IsInt : (limit : Option ℤ) (n : ℕ) → IsInt limit → positive limit ≡ some n → n < int_bound
unfolding positive
positive-IsInt none n h e = cc
positive-IsInt (some (pos m)) n h e = ground arith
positive-IsInt (some (negsuc m)) n h e = cc

slice_by :
    (start : ℕ) (o : Option ℕ) (lines : List Text)
    → start ≤ length lines
    → length lines < int_bound
    → ((n : ℕ) → o ≡ some n → n < int_bound)
    → (between start (end_of o start (length lines)) lines ≡ none)
      ↔ ((n : ℕ) × (o ≡ some n) × (int_bound ≤ start + n))
slice_by start none lines le total small =
    (λ h. absurd (ground (arith, between_open start lines le)), λ (n, p, large). cc)
slice_by start (some n) lines le total small = elim (Bool-cases (ltb (start + n) int_bound)) [
  | inl e ↦ (
    λ h. absurd (ground (arith, between_fits start n lines le (ground arith))),
    λ (m, p, large). absurd (ground arith),
  )
  | inr e ↦ (
    λ h. (n, refl, ground arith),
    λ (m, p, large). between_overflows start n lines (ground arith) (omega (arith, small n refl)),
  )
]

-- Where the file's lines are fewer than an `int` can count and the limit is one that an `int` holds,
-- a read of lines panics exactly when a positive number of lines is asked for whose sum with the
-- start does not fit an `int`; the start is never behind the file's end.
pub slice-panics :
    (line limit : Option ℤ) (lines : List Text)
    → length lines < int_bound
    → IsInt limit
    → (slice line limit lines ≡ none)
      ↔ ((n : ℕ) × (positive limit ≡ some n) × (int_bound ≤ start_of line (length lines) + n))
unfolding slice
slice-panics line limit lines total small =
    slice_by (start_of line (length lines)) (positive limit) lines
      (start_of_within line (length lines)) total (λ n e. positive-IsInt limit n small e)

slice_first :
    (n : ℕ) (lines : List Text)
    → 0 < n
    → n < int_bound
    → slice none (some (pos n)) lines ≡ some (take n lines)
unfolding slice start_of positive
slice_first n lines h k =
    rw (positive_pos n h) (between_fits 0 n lines (omega arith) (omega (arith, k)))

start_drop :
    (n : ℕ) (lines : List Text)
    → drop (start_of (some (pos (suc n))) (length lines)) lines ≡ drop n lines
unfolding start_of positive
start_drop n lines = ground (arith, drop_all n lines, drop_all (length lines) lines)

slice_rest :
    (n : ℕ) (lines : List Text) → slice (some (pos (suc n))) none lines ≡ some (drop n lines)
unfolding slice positive
slice_rest n lines =
    between_open (start_of (some (pos (suc n))) (length lines)) lines
      (start_of_within (some (pos (suc n))) (length lines))
    ∙ ap some (start_drop n lines)

-- A read of the first lines and a read from the next line on give the whole file, for any positive
-- number of lines that an `int` holds.
content_of-paged :
    (n : ℕ) (s : Text)
    → 0 < n
    → n < int_bound
    → (front : Text) × (rest : Text) × (content_of none (some (pos n)) s ≡ some front)
      × (content_of (some (pos (suc n))) none s ≡ some rest)
      × (front ++ rest ≡ s)
unfolding content_of join_all join_lines
content_of-paged n s h k =
    let lines = split_lines s in
    (
      concat (take n lines),
      concat (drop n lines),
      rw (slice_first n lines h k) refl,
      rw (slice_rest n lines) refl,
      sym (concat-append (take n lines) (drop n lines))
          ∙ ap concat (take-drop n lines)
          ∙ join_lines-split_lines s,
    )
