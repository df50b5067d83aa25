-- ===== src/Messaging/Actions/Tests.antt =====
-- Actions, checked.
use ringclaw.Prelude.{Bool, ◌≡◌, refl, true, false, none, some, [], ◌∷◌}
use ringclaw.Prelude.Text.{Text, codes, text_eq, trim_space, trim_left, trim_right, is_space}
use ringclaw.Prelude.Assoc.{lookup}
use ringclaw.Oob.Challenge
use ringclaw.Messaging.Actions.{
  AgentAction, ActionContext, Outside, sent_message, noticed, Board, or_empty, kind_of, perform,
  send_message, call, effect, target_of, owner_target, dispatch, announce_cross_chat_or_refuse,
  go_to, execute_agent_actions,
}
use ringclaw.Messaging.Actions.Audit.{audited, execute_agent_actions-Audited}

abbrev message_to : Text → AgentAction
message_to target = record {
  type = codes "MESSAGE";
  params = (codes "chatid", target) ∷ [];
  body = codes "hello";
}

abbrev answers : Outside
answers = record {
  resolve_chat = λ s. some s;
  resolve_assignee = λ _. none;
  delivered = true;
  accepted = true;
  valid_json = true;
  random = some (1 ∷ 2 ∷ 3 ∷ 4 ∷ []);
  posted = true;
}

abbrev by : Bool → ActionContext
by is_owner = record {
  origin_is_owner = is_owner;
  has_oob = true;
  owner_dm_chat = codes "dm";
  requester_id = codes "1";
  owner_id = codes "9";
}

abbrev board : Board
board = record { challenges = Challenge.new 100; waiting = []; effects = []; results = [] }

-- An owner's message to another chat is announced.
owner_is_audited :
    (execute_agent_actions
      (by true)
      (codes "here")
      ((message_to (codes "there"), answers) ∷ [])
      board).effects
    ≡ sent_message (codes "there") (codes "hello")
      ∷ noticed (codes "MESSAGE") (codes "here") (codes "there")
      ∷ []
unfolding execute_agent_actions go_to target_of owner_target dispatch announce_cross_chat_or_refuse
    perform kind_of send_message call effect or_empty lookup text_eq trim_space trim_left trim_right
    is_space
owner_is_audited = refl

execute_agent_actions-Audited_example :
    audited
      (by false)
      (codes "here")
      (execute_agent_actions
        (by false)
        (codes "here")
        ((message_to (codes "there"), answers) ∷ (message_to (codes "here"), answers) ∷ [])
        board).effects
    ≡ true
unfolding audited
execute_agent_actions-Audited_example =
    execute_agent_actions-Audited (by false) (codes "here")
      ((message_to (codes "there"), answers) ∷ (message_to (codes "here"), answers) ∷ []) board refl
