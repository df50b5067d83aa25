-- ===== src/Messaging/Commands/RoundTrip.antt =====
-- A message spelled with the names of its agents in front is read back.
use mathlib.Core.List.{append-nil, append_assoc}
use ringclaw.Prelude.{
  ℕ, zero, suc, ◌<◌, ◌≤◌, ◌==◌, Bool, true, false, not, ◌&&◌, some, List, [], ◌∷◌, ◌++◌, length,
  length-append, ◌≡◌, ◌≢◌, refl, ◌∙◌, arith, All,
}
use ringclaw.Prelude.Text.{
  Text, codes, has_prefix, is_space, trim_left, trim_left-cons, trim_right, trim_space,
}
use ringclaw.Prelude.Text.Trim.{trim_right-append}
use ringclaw.Prelude.Assoc.{Assoc}
use ringclaw.Messaging.Commands.{
  cut_token, after_token, add_name, break_with, go_on, round_behind, round_at, round, parse_loop,
  unique, resolve_all, parse_command,
}

-- "/a /b message"
abbrev pub spell : List Text → Text → Text
spell [] message = message
spell (n ∷ names) message = b'/' ∷ n ++ b' ' ∷ spell names message

abbrev pub plain : Text → Bool
plain [] = true
plain (c ∷ s) = not (c == b' ') && not (c == b'/') && plain s

-- A name that a token can hold.
abbrev pub IsName : Text → Type 0
IsName n = (n ≢ []) × (plain n ≡ true)

-- A message with no white space at its ends and no slash in front.
abbrev pub IsMessage : Text → Type 0
IsMessage s = (s ≢ []) × (trim_left s ≡ s) × (trim_right s ≡ s) × (has_prefix s (codes "/") ≡ false)

cut_token_name : (n rest : Text) → plain n ≡ true → cut_token (n ++ b' ' ∷ rest) ≡ (n, b' ' ∷ rest)
unfolding cut_token
cut_token_name [] rest h = refl
cut_token_name (c ∷ n) rest h = ground (arith, cut_token_name n rest)

spell-ne-nil : (names : List Text) (s : Text) → s ≢ [] → spell names s ≢ []
spell-ne-nil [] s ne = ne
spell-ne-nil (n ∷ names) s ne = cc

spell_behind :
    (n rest : Text)
    → rest ≢ []
    → trim_right rest ≡ rest
    → trim_right (b'/' ∷ n ++ b' ' ∷ rest) ≡ b'/' ∷ n ++ b' ' ∷ rest
spell_behind n rest ne e =
    trim_right-append (b'/' ∷ n) (b' ' ∷ rest) (cc) (trim_right-append (b' ' ∷ []) rest ne e)

trim_right-spell :
    (names : List Text) (s : Text) → IsMessage s → trim_right (spell names s) ≡ spell names s
trim_right-spell [] s (ne, l, r, h) = r
trim_right-spell (n ∷ names) s (ne, l, r, h) =
    spell_behind n (spell names s) (spell-ne-nil names s ne)
      (trim_right-spell names s (ne, l, r, h))

trim_space-spell :
    (names : List Text) (s : Text) → IsMessage s → trim_space (spell names s) ≡ spell names s
unfolding trim_space
trim_space-spell [] s (ne, l, r, h) = rw l r
trim_space-spell (n ∷ names) s m =
    rw (trim_left-cons b'/' (n ++ b' ' ∷ spell names s) slash) (trim_right-spell (n ∷ names) s m)
  where
    slash : is_space b'/' ≡ false
    slash = unfold is_space in refl

round_behind_rest : (names : List Text) (s : Text) → s ≢ [] → round_behind names s ≡ go_on names s
unfolding round_behind
round_behind_rest names [] ne = absurd (ne refl)
round_behind_rest names (c ∷ s) ne = refl

round-spell :
    (before : List Text) (n : Text) (names : List Text) (s : Text)
    → IsName n
    → IsMessage s
    → round before (spell (n ∷ names) s) ≡ go_on (before ++ n ∷ []) (spell names s)
unfolding round round_at after_token
round-spell before n names s (full, h) m =
    rw
      (
        trim_space-spell (n ∷ names) s m,
        cut_token_name n (spell names s) h,
        trim_space_blank,
        add_name_full n full,
      )
      (round_behind_rest _ _ (spell-ne-nil names s m.0))
  where
    add_name_full : (n : Text) → n ≢ [] → add_name n before ≡ before ++ n ∷ []
    add_name_full [] ne = absurd (ne refl)
    add_name_full (c ∷ t) ne = refl

    trim_space_blank : trim_space (spell names s) ≡ spell names s
    trim_space_blank = trim_space-spell names s m

round_at_message :
    (before : List Text) (s : Text) → IsMessage s → round_at before s ≡ break_with before s
unfolding round_at has_prefix
round_at_message before [] (ne, l, r, h) = absurd (ne refl)
round_at_message before (c ∷ s) (ne, l, r, h) = ground arith

round_message : (before : List Text) (s : Text) → IsMessage s → round before s ≡ break_with before s
unfolding round
round_message before s m = rw (trim_space-spell [] s m) (round_at_message before s m)

parse_loop-spell :
    (fuel : ℕ) (before names : List Text) (s : Text)
    → length names < fuel
    → All IsName names
    → IsMessage s
    → parse_loop fuel before (spell names s) ≡ some (before ++ names, s)
unfolding parse_loop
parse_loop-spell zero before names s h _ m = absurd (omega arith)
parse_loop-spell (suc fuel) before [] s h _ m =
    rw (round_message before s m, parse_loop, append-nil) refl
parse_loop-spell (suc fuel) before (n ∷ names) s h (hn, hs) m =
    rw (round-spell before n names s hn m, parse_loop)
      (parse_loop-spell fuel (before ++ n ∷ []) names s (omega arith) hs m ∙ rw append_assoc)

length-spell : (names : List Text) (s : Text) → length names ≤ length (spell names s)
length-spell [] s = omega arith
length-spell (n ∷ names) s =
    omega (arith, length-spell names s, length-append n (b' ' ∷ spell names s))

-- A message written as "/a /b message" is read as the names in front of it, each resolved and
-- named once, and the message: if the names hold no blank and no slash and are not empty, and the
-- message is not empty, has no white space at its ends and begins with no slash.
pub parse_command-spell :
    (aliases : Assoc Text) (names : List Text) (message : Text)
    → All IsName names
    → IsMessage message
    → parse_command aliases (spell names message) ≡ (unique [] (resolve_all aliases names), message)
unfolding parse_command has_prefix unique
parse_command-spell aliases [] message hs (ne, l, r, h) = rw h
parse_command-spell aliases (n ∷ names) message hs m = rw (
    parse_loop-spell (suc (length (spell (n ∷ names) message))) [] (n ∷ names) message
      (omega (arith, length-spell (n ∷ names) message)) hs m)
