-- ===== src/Messaging/Routing.antt =====
-- Where a message goes: `HandleMessage` and `routeOOBApprovalReply` of messaging/handler.go, in
-- their order of checks, `isKnownAgent`, `cleanSeenMsgs`, and `classifyAndRoute` of
-- messaging/handler_summarize.go. What the chosen destination does is not part of it.
pub mod Privileged
pub mod Owner
pub mod Refusals
pub mod Seen
pub mod Count
mod Tests
use ringclaw.Prelude.{
  ℕ, zero, suc, ◌+◌, ◌-◌, ◌*◌, Bool, true, false, not, ◌&&◌, ◌||◌, Option, none, some, List, [],
  ◌∷◌, ◌++◌, length, any, keep, is_some, if◌then◌else◌, ltb,
}
use ringclaw.Prelude.Text.{Text, codes, text_eq, has_prefix, trim_prefix, trim_space, is_empty}
use ringclaw.Prelude.Assoc.{Assoc, lookup, insert}
use ringclaw.Prelude.Time.{Time, minute}
use ringclaw.Oob.Reply.{ApprovalReply, reply_none, parse_approval_reply, handle_approval_reply}
use ringclaw.Ringcentral.{Client, is_bot_dm, Post}
use ringclaw.Messaging.{Handler}
use ringclaw.Messaging.Senders.{accepts_sender}
use ringclaw.Messaging.Router.{
  Router, Incoming, reader, is_bot_group, by_owner, Route, skipped_empty, duplicate, untrusted,
  approval_reply, refused, reload, status, new_session, help, persona, cwd, full_access, cron,
  chat_info, action_command, mem, summarize, switch_default, default_agent, named_agent, broadcast,
  enrich, text_of, mark_seen, recent, clean_seen_msgs,
}
use ringclaw.Messaging.Commands.{
  parse_command, strip_forwarded_prefix, is_summarize_command, is_mem_command, mem_subcommand,
  is_mem_write, is_persona_command, is_full_access_command, is_action_command,
  is_privileged_command, matches_intent_trigger, Intent, intent_summarize, intent_task, intent_note,
  intent_event, intent_chat, parse_intent_reply,
}

abbrev pub outside_dm_notice : Text
outside_dm_notice = codes "`/approval` is only recognized in the bot DM with the owner."

in_bot_dm : Bool × List Text → Option Route
in_bot_dm (handled, sent) = if handled then some (approval_reply sent) else none

outside_dm : ApprovalReply → Option Route
outside_dm reply_none = none
outside_dm _ = some (approval_reply (outside_dm_notice ∷ []))

-- `none`: not handled.
unfoldable pub route_oob_approval_reply : Router → Incoming → Text → Option Route
unfolding in_bot_dm outside_dm
route_oob_approval_reply r m text = elim r.handler.oob_manager [
  | none ↦ none
  | some _ ↦
      if is_bot_dm m.client m.post.group_id
      then in_bot_dm (handle_approval_reply text)
      else outside_dm (parse_approval_reply text)
]

-- The owner gate: what a privileged command is refused with.
unfoldable pub refusal : Incoming → Text → Option Text
refusal m text =
    if not (is_privileged_command text)
    then none
    else if is_bot_group m
    then if by_owner m
      then none
      else some (codes "Only the bot owner can use this command in group chats.")
    else if is_some m.private_app
    then if by_owner m
      then none
      else some (codes "Only the Private App owner can use this privileged command.")
    else none

-- The chain of commands that need no agent.
unfoldable pub built_in : Router → Incoming → Text → Option Route
built_in r m text =
    if text_eq text (codes "/reload")
    then some reload
    else if text_eq text (codes "/info") || text_eq text (codes "/status")
    then some status
    else if text_eq text (codes "/new") || text_eq text (codes "/clear")
    then some new_session
    else if has_prefix text (codes "/cwd")
    then some (cwd text)
    else if is_full_access_command text
    then some (full_access text)
    else if text_eq text (codes "/help")
    then some help
    else if has_prefix text (codes "/cron")
    then some (if r.has_cron_store then cron text else refused (codes "Cron is not configured."))
    else if has_prefix text (codes "/chatinfo")
    then some (chat_info text)
    else if is_mem_command text
    then some (mem text (is_bot_dm m.client m.post.group_id))
    else if is_persona_command text
    then some persona
    else if is_action_command text
    then some (action_command text)
    else none

classified : Option Text → Intent
unfolding parse_intent_reply
classified none = intent_chat
classified (some reply) = parse_intent_reply reply

route_intent : Text → Intent → Option Route
route_intent text intent_summarize = some summarize
route_intent text intent_chat = none
route_intent text _ = some (default_agent text)

-- `classifyAndRoute`; `summarize` is the call of `routeSummarize`.
pub classify_and_route : Incoming → Text → Option Route
unfolding classified route_intent
classify_and_route m text =
    if is_summarize_command text
    then some summarize
    else elim m.reply [ none ↦ none | some reply ↦ route_intent text (classified reply) ]

pub is_known_agent : Router → Text → Bool
is_known_agent r name = any (text_eq name) r.agents || any (text_eq name) r.agent_metas

-- An agent was named, and nothing else was said.
switch_to : Router → Incoming → Text → List Text → Route
unfolding is_known_agent
switch_to r m text (name ∷ []) =
    if is_known_agent r name
    then if is_bot_group m && not (by_owner m)
      then refused (codes "Only the bot owner can switch agents in group chats.")
      else switch_default name
    else default_agent text
switch_to r m text names =
    refused (codes "Usage: specify one agent to switch, or add a message to broadcast")

send_to : Text → Text → List Text → Route
send_to text message [] = default_agent text
send_to text message (name ∷ []) = named_agent name message
send_to text message names = broadcast names message

pub to_agents : Router → Incoming → Text → Route
unfolding switch_to send_to
to_agents r m text =
    let (names, message) = parse_command r.custom_aliases text in
    if is_empty names
    then default_agent text
    else if is_empty message
    then switch_to r m text names
    else send_to text message (keep (is_known_agent r) names)

abbrev or_else : Option Route → Route → Route
or_else none b = b
or_else (some a) b = a

-- Behind the owner gate.
unfoldable pub dispatch : Router → Incoming → Text → Route
unfolding built_in classify_and_route to_agents
dispatch r m text = or_else (built_in r m text) (
    or_else (if matches_intent_trigger text then classify_and_route m text else none)
      (to_agents r m text))

-- Behind the check for duplicates.
unfoldable pub route : Router → Incoming → Route
unfolding dispatch refusal route_oob_approval_reply
route r m =
    let text = text_of m in
    if not (accepts_sender m.post r.handler)
    then untrusted
    else or_else (route_oob_approval_reply r m text)
        (elim (refusal m text) [ some reason ↦ refused reason | none ↦ dispatch r m text ])

unfoldable pub handle_message : Incoming → Router → Router × Route
unfolding route mark_seen enrich
handle_message m r =
    let n = enrich r m in
    let (marked, loaded) = mark_seen n.post.id r in
    if is_empty (trim_space n.post.text) && not n.has_audio
    then (r, skipped_empty)
    else if loaded
    then (marked, duplicate)
    else (marked, route marked n)

run_cleaner : Router → Router
run_cleaner r = elim r.cleaners [ zero ↦ r | suc n ↦ clean_seen_msgs (record r { cleaners = n }) ]

-- Everything that touches the record of posts; a clean-up runs only where one was started.
pub data Step : Type 0 where
  handles : Incoming → Step
  cleans : Step
  pass : ℕ → Step

pub step : Step → Router → Router
unfolding run_cleaner
step (handles m) r = (handle_message m r).0
step cleans r = run_cleaner r
step (pass d) r = record r { now = r.now + d }

pub run : List Step → Router → Router
run [] r = r
run (s ∷ steps) r = run steps (step s r)
