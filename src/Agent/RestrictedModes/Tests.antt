-- ===== src/Agent/RestrictedModes/Tests.antt =====
-- Modes, chosen.
use ringclaw.Prelude.{◌≡◌, refl, List, [], ◌∷◌}
use ringclaw.Prelude.Text.{Text, codes, text_eq, contains, to_lower}
use ringclaw.Agent.{SessionMode}
use ringclaw.Agent.RestrictedModes.{
  default_restricted_modes, read_only_keywords, has_mode, match_builtin, first_keyword,
  match_heuristic, resolve_restricted_mode_id,
}

abbrev mode : Text → SessionMode
mode id = record { id = id; name = [] }

abbrev claude_modes : List SessionMode
claude_modes = mode (codes "default") ∷ mode (codes "plan") ∷ []

chooses_plan :
    resolve_restricted_mode_id (codes "npx Claude-agent-acp") claude_modes []
    ≡ (codes "plan", codes "builtin:claude-agent-acp")
unfolding resolve_restricted_mode_id match_builtin default_restricted_modes has_mode contains
    to_lower text_eq
chooses_plan = refl

-- `safe` is looked for as a part of a word.
takes_unsafe :
    resolve_restricted_mode_id (codes "other") (mode (codes "unsafe") ∷ []) []
    ≡ (codes "unsafe", codes "heuristic:safe")
unfolding resolve_restricted_mode_id match_builtin match_heuristic first_keyword read_only_keywords
    default_restricted_modes has_mode contains to_lower text_eq
takes_unsafe = refl

abbrev plain : List SessionMode
plain = mode (codes "normal") ∷ []
