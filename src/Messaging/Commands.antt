-- ===== src/Messaging/Commands.antt =====
-- The words that a message may begin with: `resolveAlias`, `parseCommand` and `stripForwardedPrefix`
-- of messaging/handler.go, and the tests for commands of messaging/handler_commands.go,
-- messaging/handler_persona.go, messaging/handler_fullaccess.go, messaging/actions_commands.go,
-- messaging/summarize.go and messaging/intent.go.
pub mod Names
pub mod RoundTrip
mod Tests
use ringclaw.Prelude.{
  ℕ, zero, suc, ◌+◌, ◌==◌, Bool, true, false, not, ◌&&◌, ◌||◌, Option, none, some, List, [], ◌∷◌,
  ◌++◌, length, any, if◌then◌else◌, ltb,
}
use ringclaw.Prelude.Text.{
  Text, codes, text_eq, fields, has_prefix, trim_prefix, contains, trim_space, to_lower, equal_fold,
  is_space, is_empty,
}
use ringclaw.Prelude.Assoc.{Assoc, lookup}

-- `agentAliases`
abbrev agent_aliases : Assoc Text
agent_aliases =
    (codes "cc", codes "claude")
    ∷ (codes "cx", codes "codex")
    ∷ (codes "oc", codes "openclaw")
    ∷ (codes "cs", codes "cursor")
    ∷ (codes "km", codes "kimi")
    ∷ (codes "gm", codes "gemini")
    ∷ (codes "ocd", codes "opencode")
    ∷ (codes "pi", codes "pi")
    ∷ (codes "cp", codes "copilot")
    ∷ (codes "dr", codes "droid")
    ∷ (codes "if", codes "iflow")
    ∷ (codes "kr", codes "kiro")
    ∷ (codes "qw", codes "qwen")
    ∷ (codes "ag", codes "augment")
    ∷ []

-- The argument is `customAliases`; a nil map has no keys.
pub resolve_alias : Assoc Text → Text → Text
resolve_alias custom_aliases name = elim (lookup name custom_aliases) [
  | some full ↦ full
  | none ↦ elim (lookup name agent_aliases) [ some full ↦ full | none ↦ name ]
]

-- The text before the first blank or slash (`strings.IndexAny(after, " /")`), and from it on.
pub cut_token : Text → Text × Text
cut_token [] = ([], [])
cut_token (c ∷ s) =
    let (token, rest) = cut_token s in
    if c == b' ' || c == b'/' then ([], c ∷ s) else (c ∷ token, rest)

-- What is left to read behind a token.
pub after_token : Text → Text
after_token [] = []
after_token (c ∷ s) = if c == b'/' then c ∷ s else trim_space s

abbrev pub add_name : Text → List Text → List Text
add_name [] names = names
add_name (c ∷ s) names = names ++ (c ∷ s) ∷ []

-- How a round of the loop of `parseCommand` ends: the names so far, and the text left to read.
pub data Round : Type 0 where
  break_with go_on : List Text → Text → Round

round_behind : List Text → Text → Round
round_behind names [] = break_with names []
round_behind names (c ∷ s) = go_on names (c ∷ s)

round_at : List Text → Text → Round
unfolding cut_token after_token round_behind
round_at names [] = break_with names []
round_at names (c ∷ after) =
    let (token, behind) = cut_token after in
    if c == b'/'
    then round_behind (add_name token names) (after_token behind)
    else break_with names (c ∷ after)

pub round : List Text → Text → Round
unfolding round_at
round names rest = round_at names (trim_space rest)

-- The loop; the names are resolved when it is done, and `none` is out of fuel.
pub parse_loop : ℕ → List Text → Text → Option (List Text × Text)
unfolding round
parse_loop zero names rest = none
parse_loop (suc fuel) names rest = elim (round names rest) [
  | break_with ns r ↦ some (ns, r)
  | go_on ns r ↦ parse_loop fuel ns r
]

-- The loop that drops repeated names; the first argument is `seen`.
pub unique : List Text → List Text → List Text
unique seen [] = []
unique seen (n ∷ names) =
    let others = unique (n ∷ seen) names in
    let skipped = unique seen names in if any (text_eq n) seen then skipped else n ∷ others

abbrev pub resolve_all : Assoc Text → List Text → List Text
resolve_all custom_aliases [] = []
resolve_all custom_aliases (n ∷ names) =
    resolve_alias custom_aliases n ∷ resolve_all custom_aliases names

unfoldable pub parse_command : Assoc Text → Text → List Text × Text
unfolding parse_loop unique has_prefix
parse_command custom_aliases text =
    if has_prefix text (codes "/")
    then elim (parse_loop (suc (length text)) [] text) [
      | none ↦ ([], text)
      | some (names, rest) ↦ (unique [] (resolve_all custom_aliases names), rest)
    ]
    else ([], text)

-- From the first occurrence of a text on.
from_index : Text → Text → Option Text
unfolding has_prefix
from_index p [] = if has_prefix [] p then some [] else none
from_index p (c ∷ s) = if has_prefix (c ∷ s) p then some (c ∷ s) else from_index p s

-- Behind the first line break.
after_line : Text → Option Text
after_line [] = none
after_line (c ∷ s) = if c == b'\n' then some s else after_line s

-- `strings.TrimPrefix(line, "> ")` on every line; the flag is "at the start of a line".
unquote : Bool → Text → Text
unquote start [] = []
unquote start (c ∷ []) = c ∷ []
unquote start (c ∷ d ∷ s) =
    let kept = c ∷ unquote (c == b'\n') (d ∷ s) in
    let dropped = unquote false s in if start && c == b'>' && d == b' ' then dropped else kept

unfoldable pub strip_forwarded_prefix : Text → Text
unfolding from_index after_line unquote trim_space
strip_forwarded_prefix text = elim (from_index (codes " posted in ![:Team](") text) [
  | none ↦ text
  | some tail ↦ elim (after_line tail) [
    | none ↦ text
    | some quoted ↦
        let result = trim_space (unquote true quoted) in if is_empty result then text else result
  ]
]

has_any_prefix : List Text → Text → Bool
unfolding has_prefix
has_any_prefix [] s = false
has_any_prefix (w ∷ words) s = has_prefix s w || has_any_prefix words s

abbrev summarize_keywords : List Text
summarize_keywords = codes "总结" ∷ codes "summarize" ∷ codes "summarise" ∷ codes "summary" ∷ []

unfoldable pub is_summarize_command : Text → Bool
unfolding has_any_prefix trim_space to_lower
is_summarize_command text = has_any_prefix summarize_keywords (to_lower (trim_space text))

-- `strings.EqualFold(s[:len(w)], w)` for an ASCII word: the slice is of bytes, so it matches `w`
-- only if its characters are ASCII too.
has_fold_prefix : Text → Text → Bool
unfolding equal_fold
has_fold_prefix s [] = true
has_fold_prefix [] (d ∷ w) = false
has_fold_prefix (c ∷ s) (d ∷ w) = ltb c 128 && equal_fold (c ∷ []) (d ∷ []) && has_fold_prefix s w

unfoldable pub is_mem_command : Text → Bool
unfolding has_fold_prefix trim_space equal_fold
is_mem_command text =
    let trim = trim_space text in
    equal_fold trim (codes "/mem") || has_fold_prefix trim (codes "/mem ")

unfoldable pub is_persona_command : Text → Bool
unfolding has_fold_prefix trim_space equal_fold
is_persona_command text =
    let trim = trim_space text in
    equal_fold trim (codes "/persona") || has_fold_prefix trim (codes "/persona ")

unfoldable pub second_field : List Text → Text
unfolding equal_fold to_lower
second_field (head ∷ second ∷ rest) = if equal_fold head (codes "/mem") then to_lower second else []
second_field _ = []

unfoldable pub mem_subcommand : Text → Text
unfolding second_field fields trim_space
mem_subcommand text = second_field (fields (trim_space text))

unfoldable pub is_full_access_command : Text → Bool
unfolding has_prefix trim_space
is_full_access_command text =
    let t = trim_space text in
    text_eq t (codes "/full-access") || has_prefix t (codes "/full-access ")

is_one_of_words : List Text → Text → Bool
unfolding has_prefix
is_one_of_words [] lower = false
is_one_of_words (cmd ∷ cmds) lower =
    text_eq lower cmd || has_prefix lower (cmd ++ b' ' ∷ []) || is_one_of_words cmds lower

unfoldable pub is_action_command : Text → Bool
unfolding is_one_of_words trim_space to_lower
is_action_command text =
    is_one_of_words (codes "/task" ∷ codes "/note" ∷ codes "/event" ∷ codes "/card" ∷ [])
      (to_lower (trim_space text))

abbrev pub is_mem_write : Text → Bool
is_mem_write sub = text_eq sub (codes "add") || text_eq sub (codes "del")

unfoldable pub is_privileged_command : Text → Bool
is_privileged_command text =
    if is_summarize_command text
    then true
    else if text_eq text (codes "/new") || text_eq text (codes "/clear")
    then true
    else if has_prefix text (codes "/cwd")
    then true
    else if has_prefix text (codes "/cron")
    then true
    else if text_eq text (codes "/reload")
    then true
    else if is_full_access_command text
    then true
    else if is_mem_command text
    then is_mem_write (mem_subcommand text)
    else false

abbrev intent_triggers : List Text
intent_triggers =
    codes "总结"
    ∷ codes "摘要"
    ∷ codes "汇总"
    ∷ codes "概括"
    ∷ codes "创建任务"
    ∷ codes "添加任务"
    ∷ codes "新建任务"
    ∷ codes "加个任务"
    ∷ codes "创建笔记"
    ∷ codes "添加笔记"
    ∷ codes "记一下"
    ∷ codes "记个笔记"
    ∷ codes "创建日程"
    ∷ codes "添加日程"
    ∷ codes "创建事件"
    ∷ codes "安排"
    ∷ codes "summarize"
    ∷ codes "summarise"
    ∷ codes "summary"
    ∷ codes "recap"
    ∷ codes "digest"
    ∷ codes "create task"
    ∷ codes "add task"
    ∷ codes "new task"
    ∷ codes "create note"
    ∷ codes "add note"
    ∷ codes "take note"
    ∷ codes "create event"
    ∷ codes "add event"
    ∷ codes "schedule"
    ∷ codes "まとめ"
    ∷ codes "要約"
    ∷ codes "резюме"
    ∷ codes "итог"
    ∷ codes "resumir"
    ∷ codes "resumen"
    ∷ []

contains_any : List Text → Text → Bool
unfolding contains
contains_any [] s = false
contains_any (w ∷ words) s = contains s w || contains_any words s

unfoldable pub matches_intent_trigger : Text → Bool
unfolding contains_any to_lower
matches_intent_trigger text = contains_any intent_triggers (to_lower text)

pub data Intent : Type 0 where
  intent_summarize intent_task intent_note intent_event intent_chat : Intent

unfoldable pub parse_intent_reply : Text → Intent
unfolding contains trim_space to_lower
parse_intent_reply reply =
    let cleaned = to_lower (trim_space reply) in
    if contains cleaned (codes "summarize")
    then intent_summarize
    else if contains cleaned (codes "summary")
    then intent_summarize
    else if contains cleaned (codes "task")
    then intent_task
    else if contains cleaned (codes "note")
    then intent_note
    else if contains cleaned (codes "event")
    then intent_event
    else intent_chat
