-- ===== src/Messaging/Memory.antt =====
-- The command `/mem` of messaging/handler_persona.go: its arguments (`parseMemCommand`) and its
-- handlers. A reply is kept as what it says; its wording is not.
pub mod Writes
mod Tests
use ringclaw.Prelude.{Bool, true, false, Option, none, some, List, [], ◌∷◌, ◌++◌, if◌then◌else◌}
use ringclaw.Prelude.Text.{Text, codes, text_eq, fields, trim_space, to_lower, equal_fold, is_empty}
use ringclaw.Prelude.Text.Bytes.{Bytes, is_blank}
use ringclaw.Prelude.Assoc.{Assoc}
use ringclaw.Messaging.Persona.{
  Scope, global, user, chat, ResolvedConfig, memory_file_path, load_memory, append_memory,
  clear_memory,
}

-- `args.usage`: which usage line is sent, if one is.
pub data Usage : Type 0 where
  no_usage usage_all usage_add usage_show usage_del : Usage

pub record MemArgs : Type 0 where
  pub sub : Text
  pub scope : Scope
  pub body : Text
  pub confirmed : Bool
  pub usage : Usage

abbrev pub mem_args : Text → Usage → MemArgs
mem_args sub usage = record { sub = sub; scope = chat; body = []; confirmed = false; usage = usage }

pub scope_from_token : Text → Option Scope
scope_from_token s =
    if text_eq (to_lower s) (codes "chat")
    then some chat
    else if text_eq (to_lower s) (codes "user")
    then some user
    else if text_eq (to_lower s) (codes "global")
    then some global
    else none

-- `strings.Join(words, " ")`
pub join : List Text → Text
join [] = []
join (w ∷ []) = w
join (w ∷ v ∷ words) = w ++ b' ' ∷ join (v ∷ words)

-- A text that is empty but for blanks is refused.
checked_body : MemArgs → MemArgs
checked_body out = if is_empty (trim_space out.body) then record out { usage = usage_add } else out

-- What is added, by what the first word is read as.
add_scoped : Option Scope → Text → List Text → MemArgs → MemArgs
add_scoped (some scope) w words out = record out { scope = scope; body = join words }
add_scoped none w words out = record out { body = join (w ∷ words) }

pub parse_add : List Text → MemArgs → MemArgs
parse_add [] out = record out { usage = usage_add }
parse_add (w ∷ []) out = checked_body (record out { body = w })
parse_add (w ∷ v ∷ words) out = checked_body (add_scoped (scope_from_token w) w (v ∷ words) out)

show_scope : Option Scope → MemArgs → MemArgs
show_scope (some scope) out = record out { scope = scope }
show_scope none out = record out { usage = usage_show }

pub parse_show : List Text → MemArgs → MemArgs
parse_show [] out = out
parse_show (w ∷ rest) out = show_scope (scope_from_token w) out

del_scope : Option Scope → MemArgs → Option MemArgs
del_scope (some scope) out = some (record out { scope = scope })
del_scope none out = none

-- A round of the loop of `del`; `none`: the token is neither.
pub del_token : Text → MemArgs → Option MemArgs
del_token a out =
    if equal_fold a (codes "confirm")
    then some (record out { confirmed = true })
    else del_scope (scope_from_token a) out

behind_token : (MemArgs → MemArgs) → Option MemArgs → MemArgs → MemArgs
behind_token go_on (some next) out = go_on next
behind_token go_on none out = record out { usage = usage_del }

pub parse_del : List Text → MemArgs → MemArgs
parse_del [] out = out
parse_del (a ∷ rest) out = behind_token (parse_del rest) (del_token a out) out

pub parse_verb : Text → List Text → MemArgs
parse_verb sub rest =
    if text_eq sub (codes "add")
    then parse_add rest (mem_args sub no_usage)
    else if text_eq sub (codes "show")
    then parse_show rest (mem_args sub no_usage)
    else if text_eq sub (codes "del")
    then parse_del rest (mem_args sub no_usage)
    else mem_args sub usage_all

pub parse_fields : List Text → MemArgs
parse_fields (head ∷ sub ∷ rest) =
    if equal_fold head (codes "/mem") then parse_verb (to_lower sub) rest else mem_args [] usage_all
parse_fields _ = mem_args [] usage_all

pub parse_mem_command : Text → MemArgs
parse_mem_command text = parse_fields (fields (trim_space text))

pub memory_id_for_scope : Scope → Text → Text → Text
memory_id_for_scope global chat_id user_id = []
memory_id_for_scope user chat_id user_id = user_id
memory_id_for_scope chat chat_id user_id = chat_id

pub data Answer : Type 0 where
  disabled save_failed load_failed : Answer
  told : Usage → Answer
  remembered : Scope → Text → Answer
  no_memory nothing_to_delete forgot forget_failed inspect_failed : Scope → Answer
  shown : Scope → Bool → Bytes → Answer
  must_confirm : Scope → Option Text → Bytes → Answer  -- the path and the content

-- What a command meets: the time stamp and whether files can be written.
pub record System : Type 0 where
  pub timestamp : Text
  pub writable : Bool

module _ (cfg : ResolvedConfig) (sys : System) (chat_id user_id : Text) where
  abbrev pub id_of : Scope → Text
  id_of scope = memory_id_for_scope scope chat_id user_id

  pub handle_mem_add : MemArgs → Assoc Bytes → Assoc Bytes × Answer
  handle_mem_add args files =
      let (next, saved) =
        append_memory cfg sys.timestamp sys.writable args.scope (id_of args.scope) args.body
          files in
      (next, if saved then remembered args.scope args.body else save_failed)

  pub handle_mem_show : Bool → MemArgs → Assoc Bytes → Answer
  handle_mem_show is_dm args files = elim (load_memory cfg args.scope (id_of args.scope) files) [
    | none ↦ load_failed
    | some content ↦
        if is_blank content then no_memory args.scope else shown args.scope is_dm content
  ]

  inspect : MemArgs → Assoc Bytes → Answer
  inspect args files = elim (load_memory cfg args.scope (id_of args.scope) files) [
    | none ↦ inspect_failed args.scope
    | some content ↦
        if is_blank content
        then nothing_to_delete args.scope
        else must_confirm args.scope (memory_file_path cfg args.scope (id_of args.scope)) content
  ]

  clear_confirmed : MemArgs → Assoc Bytes → Assoc Bytes × Answer
  clear_confirmed args files =
      let (next, cleared) = clear_memory cfg sys.writable args.scope (id_of args.scope) files in
      (next, if cleared then forgot args.scope else forget_failed args.scope)

  pub handle_mem_del : MemArgs → Assoc Bytes → Assoc Bytes × Answer
  handle_mem_del args files =
      if args.confirmed then clear_confirmed args files else (files, inspect args files)

  serve_verb : Bool → MemArgs → Assoc Bytes → Assoc Bytes × Answer
  serve_verb is_dm args files =
      if text_eq args.sub (codes "add")
      then handle_mem_add args files
      else if text_eq args.sub (codes "show")
      then (files, handle_mem_show is_dm args files)
      else if text_eq args.sub (codes "del")
      then handle_mem_del args files
      else (files, told usage_all)

  pub serve_mem : Bool → MemArgs → Assoc Bytes → Assoc Bytes × Answer
  serve_mem is_dm args files = elim args.usage [
    | no_usage ↦ serve_verb is_dm args files
    | usage_all ↦ (files, told usage_all)
    | usage_add ↦ (files, told usage_add)
    | usage_show ↦ (files, told usage_show)
    | usage_del ↦ (files, told usage_del)
  ]

-- `none`: the loader is not enabled.
pub handle_mem_command :
    Option ResolvedConfig → System → Text → Text → Text → Bool → Assoc Bytes → Assoc Bytes × Answer
handle_mem_command none sys text chat_id user_id is_dm files = (files, disabled)
handle_mem_command (some cfg) sys text chat_id user_id is_dm files =
    serve_mem cfg sys chat_id user_id is_dm (parse_mem_command text) files
