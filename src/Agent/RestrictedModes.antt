-- ===== src/Agent/RestrictedModes.antt =====
-- agent/restricted_modes.go: the mode for the session of a sender who is not the owner.
pub mod Choice
mod Tests
use ringclaw.Prelude.{
  Bool, true, false, not, ◌&&◌, ◌||◌, Option, none, some, List, [], ◌∷◌, ◌++◌, any, map,
  if◌then◌else◌,
}
use ringclaw.Prelude.Text.{Text, codes, text_eq, contains, to_lower, is_empty}
use ringclaw.Agent.{SessionMode}

pub record AgentMatcher : Type 0 where
  pub pattern : Text
  pub mode_id : Text

abbrev matcher : Text → Text → AgentMatcher
matcher pattern mode_id = record { pattern = pattern; mode_id = mode_id }

pub default_restricted_modes : List AgentMatcher
default_restricted_modes =
    matcher (codes "droid") (codes "spec")
    ∷ matcher (codes "claude-code-acp") (codes "plan")
    ∷ matcher (codes "claude-agent-acp") (codes "plan")
    ∷ matcher (codes "claude") (codes "plan")
    ∷ matcher (codes "gemini") (codes "plan")
    ∷ matcher (codes "qwen") (codes "plan")
    ∷ matcher (codes "cursor-agent") (codes "plan")
    ∷ matcher (codes "cursor") (codes "plan")
    ∷ []

pub read_only_keywords : List Text
read_only_keywords =
    codes "plan" ∷ codes "spec" ∷ codes "read-only" ∷ codes "readonly" ∷ codes "safe" ∷ []

pub has_mode : List SessionMode → Text → Bool
has_mode modes id = any (λ m. text_eq m.id id) modes

-- The loop over the built-in patterns.
pub match_builtin : List AgentMatcher → Text → List SessionMode → Option AgentMatcher
match_builtin [] cmd_line available = none
match_builtin (m ∷ ms) cmd_line available =
    if not (contains cmd_line m.pattern)
    then match_builtin ms cmd_line available
    else if has_mode available m.mode_id
    then some m
    else match_builtin ms cmd_line available

-- The inner loop over the keywords.
pub first_keyword : List Text → SessionMode → Option Text
first_keyword [] mode = none
first_keyword (kw ∷ kws) mode =
    if contains (to_lower mode.id) kw || contains (to_lower mode.name) kw
    then some kw
    else first_keyword kws mode

-- The outer loop over the modes.
pub match_heuristic : List SessionMode → Option (Text × Text)
match_heuristic [] = none
match_heuristic (mode ∷ modes) = elim (first_keyword read_only_keywords mode) [
  | none ↦ match_heuristic modes
  | some kw ↦ some (mode.id, kw)
]

after_override : Text → List SessionMode → Text × Text
after_override cmd_line available =
    elim (match_builtin default_restricted_modes cmd_line available) [
      | some m ↦ (m.mode_id, codes "builtin:" ++ m.pattern)
      | none ↦ elim (match_heuristic available) [
        | some (id, kw) ↦ (id, codes "heuristic:" ++ kw)
        | none ↦ ([], codes "unsupported")
      ]
    ]

-- The mode (empty: none) and its source.
pub resolve_restricted_mode_id : Text → List SessionMode → Text → Text × Text
unfolding after_override
resolve_restricted_mode_id cmd_line available override =
    if not (is_empty override) && has_mode available override
    then (override, codes "config")
    else after_override (to_lower cmd_line) available

pub available_mode_ids : List SessionMode → List Text
available_mode_ids modes = map (λ m. m.id) modes
