-- ===== src/Messaging/Actions.antt =====
-- The actions of messaging/actions.go that an agent asks for: `ExecuteAgentActions` with its
-- decisions on chats, and the challenge for an action in another chat. What the REST calls and the
-- resolvers answer is an argument for each action. Only the effects and the kinds of the results are
-- kept, the latest first, not their wording.
pub mod Audit
pub mod Approved
mod Tests
use ringclaw.Prelude.{
  ℕ, String, Bool, true, false, not, ◌&&◌, ◌||◌, Option, none, some, List, [], ◌∷◌, ◌++◌, get_elem?,
  if◌then◌else◌,
}
use ringclaw.Prelude.Text.{Text, codes, text_eq, trim_space, is_empty}
use ringclaw.Prelude.Assoc.{Assoc, lookup}
use ringclaw.Oob.Challenge.{Manager, Issued, ok, fail, default_challenge_ttl, issue, deny}

pub record AgentAction : Type 0 where
  pub type : Text
  pub params : Assoc Text
  pub body : Text

-- `a.Params[key]`
pub or_empty : Option Text → Text
or_empty none = []
or_empty (some v) = v

abbrev pub param : String → AgentAction → Text
param key a = or_empty (lookup (codes key) a.params)

pub record ActionContext : Type 0 where
  pub origin_is_owner : Bool
  pub has_oob : Bool  -- whether `OOB` is set
  pub owner_dm_chat : Text
  pub requester_id : Text
  pub owner_id : Text

-- What an action meets.
pub record Outside : Type 0 where
  pub resolve_chat : Text → Option Text
  pub resolve_assignee : Text → Option Text
  pub delivered : Bool  -- the notice to the owner is delivered in time
  pub accepted : Bool  -- the REST call that carries the action out
  pub valid_json : Bool
  pub random : Option (List ℕ)
  pub posted : Bool  -- the prompt of a challenge

pub data Effect : Type 0 where
  created_note : Text → Text → Text → Effect  -- the chat, the title and the body
  published_note : Effect
  created_task : Text → Text → Option Text → Effect  -- the chat, the subject and the assignee
  created_event : Text → Text → Text → Effect
  created_card : Text → Text → Effect  -- the chat and the card
  sent_message : Text → Text → Effect  -- the chat and the text
  echoed : Text → Text → Text → Effect  -- the chat, the type and the body
  noticed : Text → Text → Text → Effect  -- the type, the origin and the target, told to the owner

pub data Result : Type 0 where
  failed unresolved unresolved_assignee invalid_card refused pending challenge_failed unknown_type :
      Result

-- A goroutine of `awaitCrossChatOOB` that has not returned: its arguments.
pub record Pending : Type 0 where
  pub challenge : ℕ
  pub action : AgentAction
  pub target : Text

pub record Board : Type 0 where
  pub challenges : Manager
  pub waiting : List Pending
  pub effects : List Effect
  pub results : List Result

pub effect : Effect → Board → Board
effect e b = record b { effects = e ∷ b.effects }

pub result : Result → Board → Board
result r b = record b { results = r ∷ b.results }

pub data Kind : Type 0 where
  note task event card message unknown : Kind

-- The cases of the `switch`.
pub kind_of : Text → Kind
kind_of type =
    if text_eq type (codes "NOTE")
    then note
    else if text_eq type (codes "TASK")
    then task
    else if text_eq type (codes "EVENT")
    then event
    else if text_eq type (codes "CARD")
    then card
    else if text_eq type (codes "MESSAGE")
    then message
    else unknown

-- A call that is carried out, or fails.
pub call : Outside → Effect → Board → Board
call o e b = if o.accepted then effect e b else result failed b

pub create_note : Outside → Text → AgentAction → Board → Board
create_note o target a b =
    let title = if is_empty (param "title" a) then codes "Note" else param "title" a in
    if o.accepted
    then effect published_note (effect (created_note target title a.body) b)
    else result failed b

pub assign : Outside → Text → Text → Option Text → Board → Board
assign o target subject none b = result unresolved_assignee b
assign o target subject (some id) b = call o (created_task target subject (some id)) b

pub create_task : Outside → Text → AgentAction → Board → Board
create_task o target a b =
    if is_empty (param "subject" a)
    then b
    else if is_empty (param "assignee" a)
    then call o (created_task target (param "subject" a) none) b
    else assign o target (param "subject" a) (o.resolve_assignee (param "assignee" a)) b

pub create_event : Outside → AgentAction → Board → Board
create_event o a b =
    if is_empty (param "title" a) || is_empty (param "start" a) || is_empty (param "end" a)
    then b
    else call o (created_event (param "title" a) (param "start" a) (param "end" a)) b

pub create_card : Outside → Text → AgentAction → Board → Board
create_card o target a b =
    if is_empty a.body
    then b
    else if not o.valid_json
    then result invalid_card b
    else call o (created_card target a.body) b

pub send_message : Outside → Text → AgentAction → Board → Board
send_message o target a b =
    if is_empty (trim_space a.body) then b else call o (sent_message target (trim_space a.body)) b

-- The default case; an error of the sending is only logged.
pub echo : Outside → Text → AgentAction → Board → Board
echo o chat_id a b =
    if is_empty (trim_space a.body) || not o.accepted
    then result unknown_type b
    else result unknown_type (effect (echoed chat_id a.type (trim_space a.body)) b)

pub perform : Kind → Outside → Text → Text → AgentAction → Board → Board
perform note o chat_id target a b = create_note o target a b
perform task o chat_id target a b = create_task o target a b
perform event o chat_id target a b = create_event o a b
perform card o chat_id target a b = create_card o target a b
perform message o chat_id target a b = send_message o target a b
perform unknown o chat_id target a b = echo o chat_id a b

-- Where an action goes: to a chat, and whether that is another one for an owner; behind a
-- challenge; or nowhere.
pub data Target : Type 0 where
  in_chat : Text → Bool → Target
  behind_challenge : Text → Target
  nowhere : Target

pub non_owner_target : Text → Option Text → Target
non_owner_target chat_id none = nowhere
non_owner_target chat_id (some resolved) =
    if text_eq resolved chat_id then in_chat chat_id false else behind_challenge resolved

pub owner_target : Text → Option Text → Target
owner_target chat_id none = nowhere
owner_target chat_id (some resolved) = in_chat resolved (not (text_eq resolved chat_id))

pub target_of : ActionContext → Outside → Text → AgentAction → Target
target_of opts o chat_id a =
    let cid = param "chatid" a in
    if is_empty cid
    then in_chat chat_id false
    else if opts.origin_is_owner
    then owner_target chat_id (o.resolve_chat cid)
    else if opts.has_oob && not (is_empty opts.owner_dm_chat) && not (is_empty opts.owner_id)
    then non_owner_target chat_id (o.resolve_chat cid)
    else in_chat chat_id false

-- `announceCrossChatOrRefuse`: whether the notice is delivered.
pub announce_cross_chat_or_refuse : ActionContext → Outside → Bool
announce_cross_chat_or_refuse opts o = not (is_empty opts.owner_dm_chat) && o.delivered

pub dispatch : ActionContext → Outside → Text → Text → Bool → AgentAction → Board → Board
dispatch opts o chat_id target cross_chat a b =
    if cross_chat && not (text_eq target opts.owner_dm_chat)
    then if announce_cross_chat_or_refuse opts o
      then perform (kind_of a.type) o chat_id target a (effect (noticed a.type chat_id target) b)
      else result refused b
    else perform (kind_of a.type) o chat_id target a b

-- The intent, less the start of the body.
abbrev pub intent : ActionContext → Text → Text → AgentAction → Text
intent opts chat_id target a =
    codes "cross-chat "
    ++ a.type
    ++ codes " by "
    ++ opts.requester_id
    ++ codes ": origin="
    ++ chat_id
    ++ codes " target="
    ++ target

pub prompt : Outside → ℕ → Text → Text → AgentAction → Board → Board
prompt o address id target a b =
    if o.posted
    then result pending (record b {
      waiting = record { challenge = address; action = a; target = target } ∷ b.waiting;
    })
    else result challenge_failed (record b { challenges = (deny id b.challenges).0 })

pub issued : Outside → Text → AgentAction → Manager × Issued → Board → Board
issued o target a (m, fail err) b = result challenge_failed (record b { challenges = m })
issued o target a (m, ok address) b = elim (get_elem? m.heap address) [
  | none ↦ record b { challenges = m }
  | some c ↦ prompt o address c.id target a (record b { challenges = m })
]

pub cross_chat_oob_challenge : ActionContext → Outside → Text → Text → AgentAction → Board → Board
cross_chat_oob_challenge opts o chat_id target a b =
    issued o target a
      (issue o.random opts.requester_id (intent opts chat_id target a) chat_id opts.owner_dm_chat
        (record { ttl = default_challenge_ttl; owner_id = opts.owner_id }) b.challenges)
      b

pub go_to : ActionContext → Outside → Text → Target → AgentAction → Board → Board
go_to opts o chat_id nowhere a b = result unresolved b
go_to opts o chat_id (behind_challenge target) a b =
    cross_chat_oob_challenge opts o chat_id target a b
go_to opts o chat_id (in_chat target cross_chat) a b = dispatch opts o chat_id target cross_chat a b

pub execute_agent_actions : ActionContext → Text → List (AgentAction × Outside) → Board → Board
execute_agent_actions opts chat_id [] b = b
execute_agent_actions opts chat_id ((a, o) ∷ actions) b =
    execute_agent_actions opts chat_id actions
      (go_to opts o chat_id (target_of opts o chat_id a) a b)
