-- ===== src/Messaging/Persona/Ids.antt =====
-- The file names that identifiers become.
use ringclaw.Prelude.{
  ◌⊎◌, All, ℕ, zero, suc, ◌≤◌, true, false, [], ◌∷◌, length, take, if_intro, if◌then◌else◌, ltb,
  ◌≡◌, ◌≢◌, ◌↔◌, refl, ap, arith,
}
use ringclaw.Prelude.Text.{Text}
use ringclaw.Messaging.Persona.{
  max_sanitized_id_len, is_safe_char, is_accepted_char, replace_unsafe, sanitize_id, all_safe,
  is_safe_id,
}

length-replace_unsafe : (s : Text) → length (replace_unsafe s) ≡ length s
unfolding replace_unsafe
length-replace_unsafe [] = refl
length-replace_unsafe (r ∷ s) = ap suc (length-replace_unsafe s)

all_safe-replace_unsafe : (s : Text) → all_safe (replace_unsafe s) ≡ true
unfolding all_safe replace_unsafe is_safe_char is_accepted_char
all_safe-replace_unsafe [] = refl
all_safe-replace_unsafe (r ∷ s) = ground (arith, all_safe-replace_unsafe s)

all_safe-take : (n : ℕ) (s : Text) → all_safe s ≡ true → all_safe (take n s) ≡ true
unfolding all_safe
all_safe-take zero s h = refl
all_safe-take (suc n) [] h = refl
all_safe-take (suc n) (r ∷ s) h = ground (arith, all_safe-take n s)

length-take : (n : ℕ) (s : Text) → length (take n s) ≤ n
length-take zero s = omega arith
length-take (suc n) [] = omega arith
length-take (suc n) (r ∷ s) = omega (arith, length-take n s)

replace_unsafe_id : (s : Text) → all_safe s ≡ true → replace_unsafe s ≡ s
unfolding all_safe replace_unsafe is_safe_char is_accepted_char
replace_unsafe_id [] h = refl
replace_unsafe_id (r ∷ s) h = ground (arith, replace_unsafe_id s)

is_safe_id_of :
    (s : Text) → s ≢ [] → length s ≤ max_sanitized_id_len → all_safe s ≡ true → is_safe_id s ≡ true
unfolding is_safe_id
is_safe_id_of [] ne le h = absurd (ne refl)
is_safe_id_of (r ∷ s) ne le h = ground arith

take-ne-nil : (s : Text) → s ≢ [] → take max_sanitized_id_len s ≢ []
take-ne-nil [] ne = ne
take-ne-nil (r ∷ s) ne = cc

capped-is_safe_id :
    (s : Text)
    → s ≢ []
    → all_safe s ≡ true
    → is_safe_id (if ltb max_sanitized_id_len (length s) then take max_sanitized_id_len s else s)
      ≡ true
capped-is_safe_id s ne h =
    if_intro (λ t. is_safe_id t ≡ true) (ltb max_sanitized_id_len (length s))
      (λ _.
        is_safe_id_of (take max_sanitized_id_len s) (take-ne-nil s ne)
          (length-take max_sanitized_id_len s) (all_safe-take max_sanitized_id_len s h))
      (λ le. is_safe_id_of s ne (ground arith) h)

-- What `SanitizeID` makes is safe.
sanitize_id-is_safe_id : (s : Text) → is_safe_id (sanitize_id s) ≡ true
unfolding sanitize_id replace_unsafe
sanitize_id-is_safe_id [] = unfold is_safe_id all_safe is_accepted_char in refl
sanitize_id-is_safe_id (r ∷ s) =
    capped-is_safe_id (replace_unsafe (r ∷ s)) (cc) (all_safe-replace_unsafe (r ∷ s))

safe_is_fixed : (s : Text) → is_safe_id s ≡ true → sanitize_id s ≡ s
unfolding sanitize_id is_safe_id
safe_is_fixed [] h = cc
safe_is_fixed (r ∷ s) h =
    let all : all_safe (r ∷ s) ≡ true = ground arith in
    let short : ltb max_sanitized_id_len (length (replace_unsafe (r ∷ s))) ≡ false =
      ground (arith, length-replace_unsafe (r ∷ s)) in
    rw short (replace_unsafe_id (r ∷ s) all)

-- A lower-case or upper-case letter, a digit, an underscore or a dash of ASCII.
abbrev pub Plain : ℕ → Type 0
Plain c =
    ((97 ≤ c) × (c ≤ 122))
    ⊎ (((65 ≤ c) × (c ≤ 90)) ⊎ (((48 ≤ c) × (c ≤ 57)) ⊎ ((c ≡ 95) ⊎ (c ≡ 45))))

is_accepted_char-Plain : (c : ℕ) → is_accepted_char c ≡ true → Plain c
unfolding is_accepted_char
is_accepted_char-Plain c h = ground (arith, h)

all_safe-Plain : (s : Text) → all_safe s ≡ true → All Plain s
unfolding all_safe
all_safe-Plain [] h = tt
all_safe-Plain (r ∷ s) h =
    (is_accepted_char-Plain r (ground (arith, h)), all_safe-Plain s (ground (arith, h)))

-- A name for a file: not empty, not too long, and of plain characters.
abbrev pub FileName : Text → Type 0
FileName s = (s ≢ []) × (length s ≤ 64) × All Plain s

is_safe_id-FileName : (s : Text) → is_safe_id s ≡ true → FileName s
unfolding is_safe_id
is_safe_id-FileName [] h = cc
is_safe_id-FileName (r ∷ s) h =
    (λ e. cc, ground (arith, h), all_safe-Plain (r ∷ s) (ground (arith, h)))

-- What `SanitizeID` makes of any identifier is a name of 1 to 64 letters, digits, underscores and
-- dashes of ASCII, so it cannot lead out of its directory, and `IsSafeID` accepts it; and
-- `IsSafeID` accepts exactly the identifiers that `SanitizeID` leaves as they are.
pub sanitize_id-fixed :
    (s : Text)
    → FileName (sanitize_id s)
      × (is_safe_id (sanitize_id s) ≡ true)
      × ((is_safe_id s ≡ true) ↔ (sanitize_id s ≡ s))
sanitize_id-fixed s =
    let safe = sanitize_id-is_safe_id s in
    (is_safe_id-FileName (sanitize_id s) safe, safe, (safe_is_fixed s, λ e. rw (← e) safe))
