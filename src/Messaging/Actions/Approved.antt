-- ===== src/Messaging/Actions/Approved.antt =====
-- `awaitCrossChatOOB` of messaging/actions.go: what becomes of an action in another chat that waits
-- for the owner. Every end sends a line to the chat that the action came from, which is kept as a
-- result, a success as none.
pub mod Safety
mod Tests
use ringclaw.Prelude.{Bool, true, false, not, ◌||◌, Option, none, some, ◌∷◌, if◌then◌else◌}
use ringclaw.Prelude.Text.{Text, codes, trim_space, is_empty}
use ringclaw.Oob.Challenge.{Manager, Error, Wake, wait}
use ringclaw.Messaging.Actions.{
  AgentAction, param, Outside, Effect, created_note, published_note, created_task, created_event,
  created_card, sent_message, Pending, Board, Result, failed, unresolved_assignee, invalid_card,
  effect, result, Kind, note, task, event, card, message, unknown, kind_of,
}

-- A call and the line about it.
pub call_approved : Outside → Effect → Board → Board
call_approved o e b = if o.accepted then effect e b else result failed b

pub approve_note : Outside → Text → AgentAction → Board → Board
approve_note o target a b =
    let title = if is_empty (param "title" a) then codes "Note" else param "title" a in
    if o.accepted
    then effect published_note (effect (created_note target title a.body) b)
    else result failed b

pub assign_approved : Outside → Text → Text → Option Text → Board → Board
assign_approved o target subject none b = result unresolved_assignee b
assign_approved o target subject (some id) b =
    call_approved o (created_task target subject (some id)) b

pub approve_task : Outside → Text → AgentAction → Board → Board
approve_task o target a b =
    if is_empty (param "subject" a)
    then result failed b
    else if is_empty (param "assignee" a)
    then call_approved o (created_task target (param "subject" a) none) b
    else assign_approved o target (param "subject" a) (o.resolve_assignee (param "assignee" a)) b

pub approve_event : Outside → AgentAction → Board → Board
approve_event o a b =
    if is_empty (param "title" a) || is_empty (param "start" a) || is_empty (param "end" a)
    then result failed b
    else call_approved o (created_event (param "title" a) (param "start" a) (param "end" a)) b

pub approve_card : Outside → Text → AgentAction → Board → Board
approve_card o target a b =
    if is_empty a.body
    then result failed b
    else if not o.valid_json
    then result invalid_card b
    else call_approved o (created_card target a.body) b

pub approve_message : Outside → Text → AgentAction → Board → Board
approve_message o target a b =
    if is_empty (trim_space a.body)
    then result failed b
    else call_approved o (sent_message target (trim_space a.body)) b

-- The `switch` behind an approval.
pub carry_out : Kind → Outside → Text → AgentAction → Board → Board
carry_out note o target a b = approve_note o target a b
carry_out task o target a b = approve_task o target a b
carry_out event o target a b = approve_event o a b
carry_out card o target a b = approve_card o target a b
carry_out message o target a b = approve_message o target a b
carry_out unknown o target a b = result failed b

-- The `switch` behind the wait.
pub settle : Pending → Outside → Bool → Option Error → Board → Board
settle p o approved (some err) b = result failed b
settle p o false none b = result failed b
settle p o true none b = carry_out (kind_of p.action.type) o p.target p.action b

settled : Pending → Outside → Option (Manager × Bool × Option Error) → Board → Option Board
settled p o none b = none
settled p o (some (m, approved, err)) b =
    some (settle p o approved err (record b { challenges = m }))

-- From the moment that the wait is over; `none`: it is not ready.
pub await_cross_chat_oob : Pending → Outside → Wake → Board → Option Board
await_cross_chat_oob p o wake b = settled p o (wait p.challenge wake b.challenges) b
