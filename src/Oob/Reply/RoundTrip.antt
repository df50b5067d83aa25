-- ===== src/Oob/Reply/RoundTrip.antt =====
-- The parser of `/approval` replies against the identifiers that are issued.
use Prim.Native.Nat.{◌/◌, ◌%◌}
use mathlib.Core.Path.{subst}
use ringclaw.Prelude.{
  ◌∙◌, ℕ, ◌*◌, ◌≤◌, ◌<◌, ◌≡◌, ◌≢◌, ◌⊎◌, refl, true, false, some, List, [], ◌∷◌, ◌++◌, All, length,
  arith,
}
use ringclaw.Prelude.Text.{
  Text, codes, is_space, trim_left-cons, trim_right, trim_space, to_lower, equal_fold,
}
use ringclaw.Oob.Reply.{
  reply_approve, reply_deny, is_challenge_id, encode_to_string, hex_digit, all_hex,
  challenge_id_bytes, new_challenge_id, split_at_blank, split_first_field, parse_arguments,
  parse_approval_reply,
}

-- A digit as `hex.EncodeToString` writes it.
abbrev IsHexDigit : ℕ → Type 0
IsHexDigit c = ((48 ≤ c) × (c ≤ 57)) ⊎ ((97 ≤ c) × (c ≤ 102))

hex_digit-IsHexDigit : (n : ℕ) → n < 16 → IsHexDigit (hex_digit n)
unfolding hex_digit
hex_digit-IsHexDigit n h = ground arith

encode-IsHexDigit : (buf : List ℕ) → All (λ b. b < 256) buf → All IsHexDigit (encode_to_string buf)
unfolding encode_to_string
encode-IsHexDigit [] h = tt
encode-IsHexDigit (b ∷ bs) h = (
  hex_digit-IsHexDigit (b / 16) (omega arith),
  (hex_digit-IsHexDigit (b % 16) (omega arith), encode-IsHexDigit bs h.1),
)

length-encode : (buf : List ℕ) → length (encode_to_string buf) ≡ 2 * length buf
unfolding encode_to_string
length-encode [] = refl
length-encode (b ∷ bs) = omega (arith, length-encode bs)

not_space : (c : ℕ) → IsHexDigit c → is_space c ≡ false
unfolding is_space
not_space c h = ground arith

trim_right-dense : (s : Text) → All IsHexDigit s → trim_right s ≡ s
unfolding trim_right
trim_right-dense [] h = refl
trim_right-dense (c ∷ []) h = rw (not_space c h.0)
trim_right-dense (c ∷ d ∷ s) h = rw (trim_right-dense (d ∷ s) h.1, trim_right) refl

trim_right-append :
    (s : Text) (c : ℕ) (t : Text)
    → trim_right (c ∷ t) ≡ c ∷ t
    → trim_right (s ++ c ∷ t) ≡ s ++ c ∷ t
unfolding trim_right
trim_right-append [] c t h = h
trim_right-append (d ∷ []) c t h = rw (h, trim_right) refl
trim_right-append (d ∷ e ∷ s) c t h = rw (trim_right-append (e ∷ s) c t h, trim_right) refl

trim_space-dense : (s : Text) → All IsHexDigit s → trim_space s ≡ s
unfolding trim_space
trim_space-dense [] h = refl
trim_space-dense (c ∷ s) h = rw (trim_left-cons c s (not_space c h.0)) (trim_right-dense (c ∷ s) h)

split_at_blank-dense : (s : Text) → All IsHexDigit s → split_at_blank s ≡ (s, [])
unfolding split_at_blank
split_at_blank-dense [] h = refl
split_at_blank-dense (c ∷ s) h = ground (arith, split_at_blank-dense s h.1)

to_lower-dense : (s : Text) → All IsHexDigit s → to_lower s ≡ s
unfolding to_lower
to_lower-dense [] h = refl
to_lower-dense (c ∷ s) h = ground (arith, to_lower-dense s h.1)

all_hex-dense : (s : Text) → All IsHexDigit s → all_hex s ≡ true
unfolding all_hex
all_hex-dense [] h = refl
all_hex-dense (c ∷ s) h = ground (arith, all_hex-dense s h.1)

equal_fold-length : (s w : Text) → equal_fold s w ≡ true → length s ≡ length w
unfolding equal_fold
equal_fold-length [] [] h = refl
equal_fold-length [] (d ∷ w) h = cc
equal_fold-length (c ∷ s) [] h = cc
equal_fold-length (c ∷ s) (d ∷ w) h = ground (arith, equal_fold-length s w)

-- The words before the identifier stay: the text ends in a digit.
trim_space-words :
    (c : ℕ) (words : Text) (s : Text)
    → is_space c ≡ false
    → s ≢ []
    → All IsHexDigit s
    → trim_space (c ∷ words ++ s) ≡ c ∷ words ++ s
unfolding trim_space
trim_space-words c words [] hc ne h = absurd (ne refl)
trim_space-words c words (d ∷ s) hc ne h =
    rw (trim_left-cons c (words ++ d ∷ s) hc)
      (trim_right-append (c ∷ words) d s (trim_right-dense (d ∷ s) h))

split-dense : (s : Text) → s ≢ [] → All IsHexDigit s → split_first_field s ≡ (s, [])
unfolding split_first_field
split-dense [] ne h = absurd (ne refl)
split-dense (c ∷ s) ne h =
    rw (trim_space-dense (c ∷ s) h, split_at_blank-dense (c ∷ s) h) (unfold trim_space in refl)

not_deny : (s : Text) → length s ≡ 8 → equal_fold s (codes "deny") ≡ false
not_deny s n = ground (arith, equal_fold-length s (codes "deny"))

parse_arguments-id :
    (s : Text) → length s ≡ 8 → All IsHexDigit s → parse_arguments s ≡ reply_approve s
unfolding parse_arguments is_challenge_id
parse_arguments-id [] n h = absurd (omega arith)
parse_arguments-id (c ∷ s) n h =
    rw (split-dense (c ∷ s) (λ e. cc) h, not_deny (c ∷ s) n)
      (ground (arith, all_hex-dense (c ∷ s) h, to_lower-dense (c ∷ s) h))

trim_space-blank : (s : Text) → trim_space (b' ' ∷ s) ≡ trim_space s
unfolding trim_space
trim_space-blank s = refl

split-deny :
    (s : Text)
    → s ≢ []
    → All IsHexDigit s
    → split_first_field (codes "deny " ++ s) ≡ (codes "deny", s)
unfolding split_first_field
split-deny s ne h =
    rw (trim_space-words b'd' (codes "eny ") s (unfold is_space in refl) ne h)
      (rw (trim_space-blank s, trim_space-dense s h) refl)

-- `words` is what stands between the command and the identifier.
split-approval :
    (c : ℕ) (words s : Text)
    → is_space c ≡ false
    → s ≢ []
    → All IsHexDigit s
    → split_first_field (codes "/approval " ++ (c ∷ words ++ s))
      ≡ (codes "/approval", c ∷ words ++ s)
unfolding split_first_field
split-approval c words s hc ne h =
    rw (trim_space-words b'/' (codes "approval " ++ c ∷ words) s (unfold is_space in refl) ne h)
      (rw (trim_space-blank (c ∷ words ++ s), trim_space-words c words s hc ne h) refl)

deny_word : equal_fold (codes "deny") (codes "deny") ≡ true
unfolding equal_fold
deny_word = refl

parse_arguments-deny :
    (s : Text)
    → length s ≡ 8
    → All IsHexDigit s
    → parse_arguments (codes "deny " ++ s) ≡ reply_deny s
unfolding parse_arguments is_challenge_id
parse_arguments-deny [] n h = absurd (omega arith)
parse_arguments-deny (c ∷ s) n h =
    rw (split-deny (c ∷ s) (λ e. cc) h, trim_space-dense (c ∷ s) h, deny_word)
      (ground (arith, all_hex-dense (c ∷ s) h, to_lower-dense (c ∷ s) h))

approval_word : equal_fold (codes "/approval") (codes "/approval") ≡ true
unfolding equal_fold
approval_word = refl

parse-approval :
    (c : ℕ) (words s : Text)
    → is_space c ≡ false
    → s ≢ []
    → All IsHexDigit s
    → parse_approval_reply (codes "/approval " ++ (c ∷ words ++ s))
      ≡ parse_arguments (c ∷ words ++ s)
unfolding parse_approval_reply
parse-approval c words s hc ne h =
    rw (trim_space-words b'/' (codes "approval " ++ c ∷ words) s (unfold is_space in refl) ne h) (
      rw (split-approval c words s hc ne h)
        (rw (approval_word, trim_space-words c words s hc ne h) refl))

parse-digits :
    (s : Text)
    → length s ≡ 8
    → All IsHexDigit s
    → (parse_approval_reply (codes "/approval " ++ s) ≡ reply_approve s)
      × (parse_approval_reply (codes "/approval deny " ++ s) ≡ reply_deny s)
parse-digits [] n h = absurd (omega arith)
parse-digits (c ∷ []) n h = absurd (omega arith)
parse-digits (c ∷ d ∷ s) n h = (
  parse-approval c [] (d ∷ s) (not_space c h.0) (λ e. cc) h.1 ∙ parse_arguments-id (c ∷ d ∷ s) n h,
  parse-approval b'd' (codes "eny ") (c ∷ d ∷ s) (unfold is_space in refl) (λ e. cc) h
      ∙ parse_arguments-deny (c ∷ d ∷ s) n h,
)

-- Every identifier that is issued (from any four random bytes) can be answered: `/approval <id>` is
-- read as its approval, and `/approval deny <id>` as its denial.
parse_approval_reply-new_challenge_id :
    (buf : List ℕ) {id : Text}
    → length buf ≡ challenge_id_bytes
    → All (λ b. b < 256) buf
    → new_challenge_id (some buf) ≡ some id
    → (parse_approval_reply (codes "/approval " ++ id) ≡ reply_approve id)
      × (parse_approval_reply (codes "/approval deny " ++ id) ≡ reply_deny id)
unfolding new_challenge_id
parse_approval_reply-new_challenge_id buf {id} n h e =
    let encoded : encode_to_string buf ≡ id = cc in
    subst
      (λ t.
        (parse_approval_reply (codes "/approval " ++ t) ≡ reply_approve t)
        × (parse_approval_reply (codes "/approval deny " ++ t) ≡ reply_deny t))
      encoded
      (parse-digits (encode_to_string buf) (omega (arith, length-encode buf))
        (encode-IsHexDigit buf h))
