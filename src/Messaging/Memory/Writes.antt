-- ===== src/Messaging/Memory/Writes.antt =====
-- Which files the command `/mem` changes, and for whom.
use ringclaw.Prelude.{
  inl, inr, Bool, true, false, ◌&&◌, ◌||◌, Option, none, some, List, [], ◌∷◌, is_some, if_intro,
  ◌≡◌, ◌≢◌, refl, ap, ◌∙◌, arith, Bool-cases,
}
use ringclaw.Prelude.Text.{
  Text, codes, text_eq, text_eq_iff, fields, trim_space, to_lower, equal_fold, is_empty,
}
use ringclaw.Prelude.Int.{ℤ}
use ringclaw.Prelude.Text.Bytes.{Bytes}
use ringclaw.Prelude.Assoc.{Assoc, lookup, lookup-insert, lookup-remove}
use ringclaw.Messaging.Commands.{mem_subcommand, second_field, is_mem_write}
use ringclaw.Messaging.Persona.{
  Scope, ResolvedConfig, memory_file_path, append_memory, clear_memory, cap, append_at, clear_at,
  write_file, remove_file,
}
use ringclaw.Messaging.Memory.{
  no_usage, usage_all, usage_add, usage_show, usage_del, MemArgs, scope_from_token, checked_body,
  add_scoped, del_scope, behind_token, show_scope, parse_add, parse_show, parse_del, del_token,
  parse_verb, parse_fields, parse_mem_command, memory_id_for_scope, System, id_of, handle_mem_add,
  handle_mem_del, clear_confirmed, serve_verb, serve_mem, handle_mem_command, Answer, told,
}
use ringclaw.Messaging.Router.{Router, Incoming, is_bot_group, by_owner, mem}
use ringclaw.Messaging.Routing.{handle_message}
use ringclaw.Messaging.Routing.Owner.{handle_message-owner}

checked_body-sub : (out : MemArgs) → (checked_body out).sub ≡ out.sub
unfolding checked_body
checked_body-sub out =
    if_intro (λ (a : MemArgs). a.sub ≡ out.sub) (is_empty (trim_space out.body)) (λ _. refl)
      (λ _. refl)

add_scoped-sub :
    (o : Option Scope) (w : Text) (words : List Text) (out : MemArgs)
    → (add_scoped o w words out).sub ≡ out.sub
unfolding add_scoped
add_scoped-sub none w words out = refl
add_scoped-sub (some scope) w words out = refl

parse_add-sub : (words : List Text) (out : MemArgs) → (parse_add words out).sub ≡ out.sub
unfolding parse_add
parse_add-sub [] out = refl
parse_add-sub (w ∷ []) out = checked_body-sub (record out { body = w })
parse_add-sub (w ∷ v ∷ words) out =
    checked_body-sub (add_scoped (scope_from_token w) w (v ∷ words) out)
    ∙ add_scoped-sub (scope_from_token w) w (v ∷ words) out

show_scope-sub : (o : Option Scope) (out : MemArgs) → (show_scope o out).sub ≡ out.sub
unfolding show_scope
show_scope-sub none out = refl
show_scope-sub (some scope) out = refl

parse_show-sub : (words : List Text) (out : MemArgs) → (parse_show words out).sub ≡ out.sub
unfolding parse_show
parse_show-sub [] out = refl
parse_show-sub (w ∷ rest) out = show_scope-sub (scope_from_token w) out

KeepsSub : MemArgs → Option MemArgs → Type 0
KeepsSub out none = Unit
KeepsSub out (some next) = next.sub ≡ out.sub

del_scope-sub : (o : Option Scope) (out : MemArgs) → KeepsSub out (del_scope o out)
unfolding KeepsSub del_scope
del_scope-sub none out = tt
del_scope-sub (some scope) out = refl

del_token-sub : (a : Text) (out : MemArgs) → KeepsSub out (del_token a out)
unfolding del_token KeepsSub
del_token-sub a out =
    if_intro (KeepsSub out) (equal_fold a (codes "confirm")) (λ _. refl)
      (λ _. del_scope-sub (scope_from_token a) out)

behind_token-sub :
    (go_on : MemArgs → MemArgs) (o : Option MemArgs) (out : MemArgs)
    → ((next : MemArgs) → (go_on next).sub ≡ next.sub)
    → KeepsSub out o
    → (behind_token go_on o out).sub ≡ out.sub
unfolding behind_token KeepsSub
behind_token-sub go_on none out keeps h = refl
behind_token-sub go_on (some next) out keeps h = keeps next ∙ h

parse_del-sub : (words : List Text) (out : MemArgs) → (parse_del words out).sub ≡ out.sub
unfolding parse_del
parse_del-sub [] out = refl
parse_del-sub (a ∷ rest) out =
    behind_token-sub (parse_del rest) (del_token a out) out (parse_del-sub rest)
      (del_token-sub a out)

parse_verb-sub : (sub : Text) (rest : List Text) → (parse_verb sub rest).sub ≡ sub
unfolding parse_verb
parse_verb-sub sub rest =
    if_intro (λ (a : MemArgs). a.sub ≡ sub) (text_eq sub (codes "add")) (λ _. parse_add-sub rest _)
      (λ _.
        if_intro (λ (a : MemArgs). a.sub ≡ sub) (text_eq sub (codes "show"))
          (λ _. parse_show-sub rest _)
          (λ _.
            if_intro (λ (a : MemArgs). a.sub ≡ sub) (text_eq sub (codes "del"))
              (λ _. parse_del-sub rest _) (λ _. refl)))

parse_fields-sub : (words : List Text) → (parse_fields words).sub ≡ second_field words
unfolding parse_fields second_field
parse_fields-sub [] = refl
parse_fields-sub (head ∷ []) = refl
parse_fields-sub (head ∷ sub ∷ rest) = elim (Bool-cases (equal_fold head (codes "/mem"))) [
  | inl e ↦ rw e (parse_verb-sub (to_lower sub) rest)
  | inr e ↦ rw e refl
]

-- The gate of the privileged commands and the parser of `/mem` read the same subcommand.
parse_mem_command-sub : (text : Text) → (parse_mem_command text).sub ≡ mem_subcommand text
unfolding parse_mem_command mem_subcommand
parse_mem_command-sub text = parse_fields-sub (fields (trim_space text))

-- Files that no path but one may tell apart.
abbrev SameBut : Option Text → Assoc Bytes → Assoc Bytes → Type 0
SameBut q files next = (p : Text) → q ≢ some p → lookup p next ≡ lookup p files

write_file-SameBut :
    (writable : Bool) (path : Text) (bytes : Bytes) (files : Assoc Bytes)
    → SameBut (some path) files (write_file writable path bytes files).0
unfolding write_file
write_file-SameBut false path bytes files p ne = refl
write_file-SameBut true path bytes files p ne =
    lookup-insert path p bytes files
    ∙ if_intro (λ o. o ≡ lookup p files) (text_eq path p)
        (λ e. absurd (ne (ap some ((text_eq_iff path p).0 e)))) (λ _. refl)

remove_file-SameBut :
    (writable : Bool) (path : Text) (files : Assoc Bytes)
    → SameBut (some path) files (remove_file writable path files).0
unfolding remove_file
remove_file-SameBut false path files p ne = refl
remove_file-SameBut true path files p ne =
    lookup-remove path p files
    ∙ if_intro (λ o. o ≡ lookup p files) (text_eq path p)
        (λ e. absurd (ne (ap some ((text_eq_iff path p).0 e)))) (λ _. refl)

append_at-SameBut :
    (q : Option Text) (writable : Bool) (line : Bytes) (max : ℤ) (files : Assoc Bytes)
    → SameBut q files (append_at q writable line max files).0
unfolding append_at
append_at-SameBut none writable line max files = λ _ _. refl
append_at-SameBut (some path) writable line max files = write_file-SameBut writable path _ files

append_memory-SameBut :
    (cfg : ResolvedConfig) (timestamp : Text) (writable : Bool) (scope : Scope) (id entry : Text)
    (files : Assoc Bytes)
    → SameBut
        (memory_file_path cfg scope id)
        files
        (append_memory cfg timestamp writable scope id entry files).0
unfolding append_memory
append_memory-SameBut cfg timestamp writable scope id entry files =
    if_intro (λ (r : Assoc Bytes × Bool). SameBut (memory_file_path cfg scope id) files r.0)
      (is_empty (trim_space entry)) (λ _ _ _. refl)
      (λ _. append_at-SameBut (memory_file_path cfg scope id) writable _ (cap cfg scope) files)

clear_at-SameBut :
    (q : Option Text) (writable : Bool) (files : Assoc Bytes)
    → SameBut q files (clear_at q writable files).0
unfolding clear_at
clear_at-SameBut none writable files = λ _ _. refl
clear_at-SameBut (some path) writable files = remove_file-SameBut writable path files

-- What is asked for is a change: an entry to add, or a deletion that is confirmed.
abbrev pub asks_change : MemArgs → Bool
asks_change args =
    text_eq args.sub (codes "add") || text_eq args.sub (codes "del") && args.confirmed

module _ (cfg : ResolvedConfig) (sys : System) (chat_id user_id : Text) where
  abbrev Target : MemArgs → Assoc Bytes → Assoc Bytes → Type 0
  Target args = SameBut (memory_file_path cfg args.scope (id_of cfg sys chat_id user_id args.scope))

  Changes : MemArgs → Assoc Bytes → Assoc Bytes → Type 0
  Changes args files next = Target args files next × (asks_change args ≡ false → next ≡ files)

  untouched : (args : MemArgs) (files : Assoc Bytes) → Changes args files files
  unfolding Changes
  untouched args files = (λ _ _. refl, λ _. refl)

  clear_confirmed-Changes :
      (args : MemArgs) (files : Assoc Bytes)
      → text_eq args.sub (codes "del") ≡ true
      → args.confirmed ≡ true
      → Changes args files (clear_confirmed cfg sys chat_id user_id args files).0
  unfolding Changes clear_confirmed clear_memory
  clear_confirmed-Changes args files e c =
      (clear_at-SameBut (memory_file_path cfg args.scope _) sys.writable files, λ no. ground arith)

  handle_mem_add-Changes :
      (args : MemArgs) (files : Assoc Bytes)
      → text_eq args.sub (codes "add") ≡ true
      → Changes args files (handle_mem_add cfg sys chat_id user_id args files).0
  unfolding Changes handle_mem_add
  handle_mem_add-Changes args files e = (
    append_memory-SameBut cfg sys.timestamp sys.writable args.scope _ args.body files,
    λ no. ground arith,
  )

  serve_verb-Changes :
      (is_dm : Bool) (args : MemArgs) (files : Assoc Bytes)
      → Changes args files (serve_verb cfg sys chat_id user_id is_dm args files).0
  unfolding serve_verb handle_mem_del
  serve_verb-Changes is_dm args files =
      if_intro Ok (text_eq args.sub (codes "add")) (λ e. handle_mem_add-Changes args files e)
        (λ _.
          if_intro Ok (text_eq args.sub (codes "show")) (λ _. untouched args files)
            (λ _.
              if_intro Ok (text_eq args.sub (codes "del"))
                (λ e.
                  if_intro Ok args.confirmed (λ c. clear_confirmed-Changes args files e c)
                    (λ _. untouched args files))
                (λ _. untouched args files)))
    where
      Ok : Assoc Bytes × Answer → Type 0
      Ok r = Changes args files r.0

  serve_mem-Changes :
      (is_dm : Bool) (args : MemArgs) (files : Assoc Bytes)
      → Changes args files (serve_mem cfg sys chat_id user_id is_dm args files).0
  unfolding serve_mem
  serve_mem-Changes is_dm args files =
      elim (args.usage)
        as (λ u.
          Changes args files
            (elim u as (λ _. Assoc Bytes × Answer) [
              | no_usage ↦ serve_verb cfg sys chat_id user_id is_dm args files
              | usage_all ↦ (files, told usage_all)
              | usage_add ↦ (files, told usage_add)
              | usage_show ↦ (files, told usage_show)
              | usage_del ↦ (files, told usage_del)
            ]).0) [
              | no_usage ↦ serve_verb-Changes is_dm args files
              | usage_all ↦ untouched args files
              | usage_add ↦ untouched args files
              | usage_show ↦ untouched args files
              | usage_del ↦ untouched args files
            ]

-- A `/mem` command changes at most the one file of the scope that it names: the global memory, the
-- memory of the user who wrote it, or the memory of the chat it stands in. It changes none unless
-- it is an `add`, or a `del` with `confirm`.
pub handle_mem_command-one_file :
    (cfg : ResolvedConfig) (sys : System) (text chat_id user_id : Text) (is_dm : Bool)
    (files : Assoc Bytes)
    → let next = (handle_mem_command (some cfg) sys text chat_id user_id is_dm files).0 in
      let args = parse_mem_command text in
      ((p : Text)
        → memory_file_path cfg args.scope (memory_id_for_scope args.scope chat_id user_id) ≢ some p
        → lookup p next ≡ lookup p files)
      × (asks_change args ≡ false → next ≡ files)
unfolding handle_mem_command Changes
handle_mem_command-one_file cfg sys text chat_id user_id is_dm files =
    serve_mem-Changes cfg sys chat_id user_id is_dm (parse_mem_command text) files

write_of_change : (args : MemArgs) → is_mem_write args.sub ≡ false → asks_change args ≡ false
write_of_change args h = ground arith

-- Where there is an owner to ask for, a message that reaches `/mem` and was not written by that
-- owner leaves every memory file as it is.
pub handle_mem_command-owner :
    (m : Incoming) (r : Router) (text chat_id user_id : Text) (is_dm : Bool)
    (config : Option ResolvedConfig) (sys : System) (files : Assoc Bytes)
    → is_bot_group m || is_some m.private_app ≡ true
    → (handle_message m r).1 ≡ mem text is_dm
    → by_owner m ≡ false
    → (handle_mem_command config sys text chat_id user_id is_dm files).0 ≡ files
unfolding handle_mem_command
handle_mem_command-owner m r text chat_id user_id is_dm none sys files g e other = refl
handle_mem_command-owner m r text chat_id user_id is_dm (some cfg) sys files g e other =
    let reading : is_mem_write (mem_subcommand text) ≡ false =
      elim (Bool-cases (is_mem_write (mem_subcommand text))) [
        | inl w ↦ ground (arith, other, handle_message-owner m r g (rw e w))
        | inr w ↦ w
      ] in
    (handle_mem_command-one_file cfg sys text chat_id user_id is_dm files).1
      (write_of_change (parse_mem_command text) (rw (parse_mem_command-sub text) reading))
