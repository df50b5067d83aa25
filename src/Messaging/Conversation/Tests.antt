-- ===== src/Messaging/Conversation/Tests.antt =====
-- Conversations of a group chat.
use ringclaw.Prelude.{◌≡◌, refl, true, false, none, [], ◌∷◌}
use ringclaw.Prelude.Text.{Text, codes, trim_space, text_eq}
use ringclaw.Prelude.Assoc.{lookup}
use ringclaw.Ringcentral.{Post}
use ringclaw.Agent.{Origin}
use ringclaw.Agent.Session.{
  Agent, Answers, existing, get_or_create_session, gate_non_owner_tool_call,
}
use ringclaw.Messaging.Conversation.{
  Conversations, conversation_id_for_post, resolve_conversation_id, record_conversation, flat_key,
  thread_key, thread_of,
}
use ringclaw.Messaging.Conversation.Keys.{}
use ringclaw.Messaging.Conversation.Threads.{
  resolve_conversation_id-apart, reply_uses_owner_session,
}

abbrev post_of : Text → Text → Text → Post
post_of id user parent = record {
  id = id;
  group_id = codes "g";
  type = codes "TextMessage";
  text = codes "hi";
  creator_id = user;
  mentions = [];
  event_type = codes "PostAdded";
  parent_post_id = parent;
  thread_id = [];
}

abbrev owners : Post
owners = post_of (codes "p") (codes "1") []

abbrev reply : Post
reply = post_of (codes "q") (codes "7") (codes "p")

abbrev flat : Conversations
flat = record { thread_reply = false; post_convo = [] }

abbrev threads : Conversations
threads = record { thread_reply = true; post_convo = [] }

owners_key : resolve_conversation_id none owners threads ≡ codes "rc:chat:g:thread:post:p:user:1"
unfolding resolve_conversation_id conversation_id_for_post flat_key thread_key thread_of trim_space
owners_key = refl

resolve_conversation_id-apart_example :
    (trim_space (codes "g") ≡ trim_space (codes "g"))
    × (trim_space (codes "7") ≡ trim_space (codes "7"))
unfolding trim_space
resolve_conversation_id-apart_example =
    resolve_conversation_id-apart none reply (post_of (codes "x") (codes "7") []) flat refl
      (refl, tt) (refl, tt)
      (unfold resolve_conversation_id conversation_id_for_post flat_key in refl)

abbrev owner : Origin
owner = record { is_owner = true; sender_id = codes "1"; reason = codes "source_user_ids" }

abbrev guest : Origin
guest = record { is_owner = false; sender_id = codes "7"; reason = codes "chat_user_allow" }

abbrev agent : Agent
agent = record {
  command = codes "claude-agent-acp";
  args = [];
  restricted_mode_id = [];
  full_access = true;
  started = true;
  sessions = (codes "rc:chat:g:thread:post:p:user:1", codes "s") ∷ [];
  session_roles = (codes "s", owner) ∷ [];
  session_modes = [];
  set_mode_unsupported = false;
  restricted_set_mode_unsupported = [];
  denied_tool_warned = [];
  accepted_modes = [];
  responses = [];
}

abbrev no_answers : Answers
no_answers = record {
  session_id = none;
  modes = none;
  restricted_err = none;
  granted = false;
  granted_again = false;
  full_err = none;
  granted_after = false;
  demote_err = none;
}

reply_uses_owner_session_example :
    let conv =
      resolve_conversation_id none reply (record_conversation none owners (codes "w") threads) in
    (get_or_create_session conv guest no_answers agent ≡ (agent, existing (codes "s")))
    × ((gate_non_owner_tool_call (codes "fs/write_text_file") (codes "s") agent).1 ≡ false)
reply_uses_owner_session_example =
    reply_uses_owner_session none owners reply (codes "w") threads guest no_answers agent
      (codes "s") (codes "fs/write_text_file") refl (unfold trim_space in refl) (λ e. cc e) refl
      (rw (owners_key) (unfold lookup text_eq in refl)) (owner, unfold lookup text_eq in refl, refl)
