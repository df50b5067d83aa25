-- ===== src/Agent/RestrictedModes/Choice.antt =====
-- What the chosen mode is.
use mathlib.Core.List.{Memᴰ}
use ringclaw.Prelude.{
  ◌≡◌, ◌≢◌, ◌⊎◌, inl, inr, refl, true, false, not, ◌&&◌, ◌||◌, Bool-cases, Option-cases, none, some,
  List, [], ◌∷◌, All, arith,
}
use ringclaw.Prelude.Text.{Text, codes, text_eq_refl, contains, to_lower, is_empty}
use ringclaw.Agent.{SessionMode}
use ringclaw.Agent.RestrictedModes.{
  AgentMatcher, default_restricted_modes, read_only_keywords, has_mode, match_builtin,
  first_keyword, match_heuristic, after_override, resolve_restricted_mode_id,
}

-- A word of the list stands in the mode's id or name, in lower case.
abbrev pub Mentions : SessionMode → List Text → Type 0
Mentions mode kws =
    (kw : Text) × Memᴰ kw kws
    × ((contains (to_lower mode.id) kw || contains (to_lower mode.name) kw) ≡ true)

first_keyword-Mentions :
    (kws : List Text) (mode : SessionMode) {kw : Text}
    → first_keyword kws mode ≡ some kw
    → Mentions mode kws
unfolding first_keyword
first_keyword-Mentions [] mode e = cc
first_keyword-Mentions (w ∷ kws) mode {kw} e =
    elim (Bool-cases (contains (to_lower mode.id) w || contains (to_lower mode.name) w)) [
      | inl here ↦ (w, Memᴰ.head refl, here)
      | inr later ↦
          let (kw', m, h) = first_keyword-Mentions kws mode {kw = kw} (ground arith) in
          (kw', Memᴰ.tail m, h)
    ]

not-Mentions :
    (kws : List Text) (mode : SessionMode) → first_keyword kws mode ≡ none → ¬ Mentions mode kws
unfolding first_keyword
not-Mentions [] mode e (kw, m, h) = elim m [ ]
not-Mentions (w ∷ kws) mode e (kw, Memᴰ.head same, h) = ground (arith, same)
not-Mentions (w ∷ kws) mode e (kw, Memᴰ.tail m, h) = not-Mentions kws mode (ground arith) (kw, m, h)

match_heuristic-found :
    (modes : List SessionMode) {id kw : Text}
    → match_heuristic modes ≡ some (id, kw)
    → (mode : SessionMode) × Memᴰ mode modes × (mode.id ≡ id) × Mentions mode read_only_keywords
unfolding match_heuristic
match_heuristic-found [] e = cc
match_heuristic-found (m ∷ modes) {id} {kw} e =
    elim (Option-cases (first_keyword read_only_keywords m)) [
      | inr (w, f) ↦
          (m, Memᴰ.head refl, ground arith, first_keyword-Mentions read_only_keywords m f)
      | inl f ↦
          let (mode, mem, named, h) =
            match_heuristic-found modes {id = id} {kw = kw} (ground arith) in
          (mode, Memᴰ.tail mem, named, h)
    ]

match_heuristic-none :
    (modes : List SessionMode)
    → match_heuristic modes ≡ none
    → All (λ mode. ¬ Mentions mode read_only_keywords) modes
unfolding match_heuristic
match_heuristic-none [] e = tt
match_heuristic-none (m ∷ modes) e = elim (Option-cases (first_keyword read_only_keywords m)) [
  | inr (kw, f) ↦ absurd (ground arith)
  | inl f ↦ (not-Mentions read_only_keywords m f, match_heuristic-none modes (ground arith))
]

match_builtin-found :
    (ms : List AgentMatcher) (cmd_line : Text) (available : List SessionMode) {m : AgentMatcher}
    → match_builtin ms cmd_line available ≡ some m
    → Memᴰ m ms × (contains cmd_line m.pattern ≡ true) × (has_mode available m.mode_id ≡ true)
unfolding match_builtin
match_builtin-found [] cmd_line available e = cc
match_builtin-found (m ∷ ms) cmd_line available e =
    elim (Bool-cases (contains cmd_line m.pattern)) [
      | inl hit ↦ elim (Bool-cases (has_mode available m.mode_id)) [
        | inl has ↦ (Memᴰ.head (ground arith), ground arith, ground arith)
        | inr lacks ↦
            let (mem, h, k) = match_builtin-found ms cmd_line available (ground arith) in
            (Memᴰ.tail mem, h, k)
      ]
      | inr miss ↦
          let (mem, h, k) = match_builtin-found ms cmd_line available (ground arith) in
          (Memᴰ.tail mem, h, k)
    ]

match_builtin-none :
    (ms : List AgentMatcher) (cmd_line : Text) (available : List SessionMode)
    → match_builtin ms cmd_line available ≡ none
    → All (λ m. (contains cmd_line m.pattern && has_mode available m.mode_id) ≡ false) ms
unfolding match_builtin
match_builtin-none [] cmd_line available e = tt
match_builtin-none (m ∷ ms) cmd_line available e =
    (ground arith, match_builtin-none ms cmd_line available (ground arith))

mem-has_mode :
    (modes : List SessionMode) (mode : SessionMode)
    → Memᴰ mode modes
    → has_mode modes mode.id ≡ true
unfolding has_mode
mem-has_mode [] mode h = elim h [ ]
mem-has_mode (m ∷ modes) mode (Memᴰ.head same) = ground (arith, same, text_eq_refl m.id)
mem-has_mode (m ∷ modes) mode (Memᴰ.tail h) = ground (arith, mem-has_mode modes mode h)

-- Where a chosen mode comes from.
abbrev pub Restricts : Text → List SessionMode → Text → Text → Type 0
Restricts cmd_line available override id =
    (id ≡ override)
    ⊎ ((m : AgentMatcher) × Memᴰ m default_restricted_modes
        × (contains (to_lower cmd_line) m.pattern ≡ true)
        × (id ≡ m.mode_id))
    ⊎ ((mode : SessionMode) × Memᴰ mode available
        × (mode.id ≡ id)
        × Mentions mode read_only_keywords)

-- A mode that is chosen is one that the agent advertises, and it is the operator's override, the
-- mode of a built-in pattern that the command line contains, or a mode with a read-only word in
-- its id or name.
pub resolve-advertised :
    (cmd_line : Text) (available : List SessionMode) (override : Text)
    → let id = (resolve_restricted_mode_id cmd_line available override).0 in
      id ≢ [] → (has_mode available id ≡ true) × Restricts cmd_line available override id
unfolding resolve_restricted_mode_id after_override
resolve-advertised cmd_line available override ne =
    elim (Bool-cases (not (is_empty override) && has_mode available override)) [
      | inl taken ↦ (ground arith, inl (ground arith))
      | inr skipped ↦
          elim (Option-cases
            (match_builtin default_restricted_modes (to_lower cmd_line) available)) [
              | inr (m, e) ↦
                  let (mem, hit, has) =
                    match_builtin-found default_restricted_modes (to_lower cmd_line) available e in
                  (ground arith, inr (inl (m, mem, hit, ground arith)))
              | inl e ↦ elim (Option-cases (match_heuristic available)) [
                | inr ((id, kw), f) ↦
                    let (mode, mem, named, h) = match_heuristic-found available f in
                    (
                      ground (arith, mem-has_mode available mode mem),
                      inr (inr (mode, mem, ground arith, h)),
                    )
                | inl f ↦ absurd (ne (ground arith))
              ]
            ]
    ]

-- "Unsupported" is answered only where nothing would do: the override is empty or not advertised, no
-- built-in pattern of the command line has its mode advertised, and no advertised mode has a
-- read-only word. The caller then refuses the message.
resolve-unsupported :
    (cmd_line : Text) (available : List SessionMode) (override : Text)
    → resolve_restricted_mode_id cmd_line available override ≡ ([], codes "unsupported")
    → ((not (is_empty override) && has_mode available override) ≡ false)
      × All
          (λ m. (contains (to_lower cmd_line) m.pattern && has_mode available m.mode_id) ≡ false)
          default_restricted_modes
      × All (λ mode. ¬ Mentions mode read_only_keywords) available
unfolding resolve_restricted_mode_id after_override
resolve-unsupported cmd_line available override e =
    let skipped : (not (is_empty override) && has_mode available override) ≡ false = ground arith in
    let no_builtin : match_builtin default_restricted_modes (to_lower cmd_line) available ≡ none =
      ground arith in
    let no_word : match_heuristic available ≡ none = ground arith in
    (
      skipped,
      match_builtin-none default_restricted_modes (to_lower cmd_line) available no_builtin,
      match_heuristic-none available no_word,
    )
