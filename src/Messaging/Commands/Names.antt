-- ===== src/Messaging/Commands/Names.antt =====
-- How the loop of `parseCommand` ends, and the names that it gives.
use ringclaw.Prelude.{
  ℕ, zero, suc, ◌<◌, ◌≤◌, ◌==◌, Bool, true, false, not, ◌&&◌, Option, none, some, List, [], ◌∷◌,
  length, any, ◌≡◌, refl, ap, inl, inr, arith, Bool-cases,
}
use ringclaw.Prelude.Text.{Text, codes, text_eq, text_eq_iff, has_prefix, trim_space}
use ringclaw.Prelude.Assoc.{Assoc}
use ringclaw.Prelude.Text.Trim.{length-trim_space}
use ringclaw.Messaging.Commands.{
  cut_token, after_token, Round, break_with, go_on, round_behind, round_at, round, parse_loop,
  unique, resolve_all, parse_command,
}

length-cut_token : (s : Text) → length (cut_token s).1 ≤ length s
unfolding cut_token
length-cut_token [] = omega arith
length-cut_token (c ∷ s) = ground (arith, length-cut_token s)

length-after_token : (s : Text) → length (after_token s) ≤ length s
unfolding after_token
length-after_token [] = omega arith
length-after_token (c ∷ s) = ground (arith, length-trim_space s)

length-behind : (s : Text) → length (after_token (cut_token s).1) ≤ length s
length-behind s = omega (arith, length-after_token (cut_token s).1, length-cut_token s)

-- A round that goes on has read something; the last one leaves no slash in front.
abbrev Advances : ℕ → Round → Type 0
Advances n (break_with names rest) = has_prefix rest (codes "/") ≡ false
Advances n (go_on names rest) = length rest < n

round_behind-Advances :
    (names : List Text) (n : ℕ) (s : Text) → length s < n → Advances n (round_behind names s)
unfolding round_behind has_prefix
round_behind-Advances names n [] h = refl
round_behind-Advances names n (c ∷ s) h = h

round_at-Advances :
    (names : List Text) (n : ℕ) (s : Text) → length s ≤ n → Advances n (round_at names s)
unfolding round_at has_prefix
round_at-Advances names n [] h = refl
round_at-Advances names n (c ∷ s) h = elim (Bool-cases (c == b'/')) [
  | inl e ↦ rw e (round_behind-Advances _ n _ (omega (arith, length-behind s)))
  | inr e ↦ rw e (ap (λ b. b && true) e)
]

-- The loop came to an end of its own, at a text without a slash in front.
abbrev pub ends : Option (List Text × Text) → Bool
ends none = false
ends (some (names, rest)) = not (has_prefix rest (codes "/"))

-- The loop of `parseCommand` comes to its end in at most one round more than the text has
-- characters, and the message that it leaves does not begin with a slash.
pub parse_loop-ends :
    (fuel : ℕ) (names : List Text) (text : Text)
    → length text < fuel
    → ends (parse_loop fuel names text) ≡ true
unfolding parse_loop round
parse_loop-ends zero names text h = ground arith
parse_loop-ends (suc fuel) names text h =
    (elim (round names text)
        as (λ r.
          Advances (length text) r
          → ends (elim r [ break_with ns t ↦ some (ns, t) | go_on ns t ↦ parse_loop fuel ns t ])
            ≡ true) [
              | break_with ns t ↦ λ e. ap not e
              | go_on ns t ↦ λ lt. parse_loop-ends fuel ns t (omega arith)
            ])
      (round_at-Advances names (length text) (trim_space text) (length-trim_space text))

-- No name stands twice.
abbrev pub Distinct : List Text → Type 0
Distinct [] = Unit
Distinct (n ∷ names) = (any (text_eq n) names ≡ false) × Distinct names

any-unique-seen :
    (m : Text) (seen names : List Text)
    → any (text_eq m) seen ≡ true
    → any (text_eq m) (unique seen names) ≡ false
unfolding unique
any-unique-seen m seen [] h = refl
any-unique-seen m seen (n ∷ names) h =
    grind
      (arith, text_eq_iff m n, any-unique-seen m seen names h, any-unique-seen m (n ∷ seen) names)

unique-Distinct : (seen names : List Text) → Distinct (unique seen names)
unfolding unique
unique-Distinct seen [] = tt
unique-Distinct seen (n ∷ names) = elim (Bool-cases (any (text_eq n) seen)) [
  | inl e ↦ rw e (unique-Distinct seen names)
  | inr e ↦ rw e (
    any-unique-seen n (n ∷ seen) names (ground (arith, text_eq_iff n n)),
    unique-Distinct (n ∷ seen) names,
  )
]

-- Dropping repeated names keeps each name that was there.
any-unique :
    (m : Text) (seen names : List Text)
    → any (text_eq m) seen ≡ false
    → any (text_eq m) (unique seen names) ≡ any (text_eq m) names
unfolding unique
any-unique m seen [] h = refl
any-unique m seen (n ∷ names) h = grind (
  arith,
  text_eq_iff m n,
  any-unique m seen names h,
  any-unique m (n ∷ seen) names,
  any-unique-seen m (n ∷ seen) names,
)

-- What `parseCommand` gives names each agent once.
pub parse_command-Distinct :
    (aliases : Assoc Text) (text : Text) → Distinct (parse_command aliases text).0
unfolding parse_command
parse_command-Distinct aliases text = elim (Bool-cases (has_prefix text (codes "/"))) [
  | inr e ↦ rw e tt
  | inl e ↦
      rw e
        (elim (parse_loop (suc (length text)) [] text)
          as (λ r.
            Distinct
              (elim r as (λ _. List Text × Text) [
                | none ↦ ([], text)
                | some (names, rest) ↦ (unique [] (resolve_all aliases names), rest)
              ]).0) [
                | none ↦ tt
                | some (names, rest) ↦ unique-Distinct [] (resolve_all aliases names)
              ])
]
