-- ===== src/Messaging/Conversation/Threads.antt =====
-- Which conversation a reply joins.
use ringclaw.Prelude.{◌≡◌, ◌≢◌, true, false, [], Option, some, arith}
use ringclaw.Prelude.Text.{Text, text_eq_refl, trim_space, is_empty, is_empty_iff}
use ringclaw.Prelude.Assoc.{lookup, insert, lookup-insert}
use ringclaw.Ringcentral.{Client, Post}
use ringclaw.Agent.{Origin}
use ringclaw.Agent.Session.{
  Agent, Answers, existing, get_or_create_session, gate_non_owner_tool_call,
}
use ringclaw.Agent.Session.Gate.{OwnerDriven, gate-exact}
use ringclaw.Agent.Session.Access.{get_or_create_session_existing}
use ringclaw.Messaging.Conversation.{
  Conversations, is_dm_of, flat_key, thread_key, conversation_id_for_post, resolve_conversation_id,
  record_conversation,
}
use ringclaw.Messaging.Conversation.Keys.{NoColon, flat_key-apart}

conversation_id_nonempty :
    (client : Option Client) (p : Post) (h : Conversations)
    → is_empty (conversation_id_for_post client p h) ≡ false
unfolding conversation_id_for_post flat_key thread_key
conversation_id_nonempty client p h = ground arith

resolve_nonempty :
    (client : Option Client) (p : Post) (h : Conversations)
    → is_empty (resolve_conversation_id client p h) ≡ false
unfolding resolve_conversation_id
resolve_nonempty client p h = ground (arith, conversation_id_nonempty client p h)

-- With thread mode off, posts share a conversation only if they have the same chat and the same
-- user, whatever the posts' threads and parents are; chats' identifiers have no colon.
pub resolve_conversation_id-apart :
    (client : Option Client) (p q : Post) (h : Conversations)
    → h.thread_reply ≡ false
    → NoColon (trim_space p.group_id)
    → NoColon (trim_space q.group_id)
    → resolve_conversation_id client p h ≡ resolve_conversation_id client q h
    → (trim_space p.group_id ≡ trim_space q.group_id)
      × (trim_space p.creator_id ≡ trim_space q.creator_id)
unfolding resolve_conversation_id conversation_id_for_post
resolve_conversation_id-apart client p q h flat n n' = rw flat λ e.
    let (kind, chat, user) =
      flat_key-apart (is_dm_of client (trim_space p.group_id))
        (is_dm_of client (trim_space q.group_id)) (trim_space p.group_id) (trim_space q.group_id)
        (trim_space p.creator_id) (trim_space q.creator_id) n n' e in
    (chat, user)

recorded :
    (client : Option Client) (p : Post) (placeholder : Text) (h : Conversations)
    → h.thread_reply ≡ true
    → ((record_conversation client p placeholder h).thread_reply ≡ true)
      × (lookup p.id (record_conversation client p placeholder h).post_convo
          ≡ some (resolve_conversation_id client p h))
unfolding record_conversation
recorded client p placeholder h threads =
    let key = resolve_conversation_id client p h in
    (
      ground arith,
      ground (
        arith,
        lookup-insert placeholder p.id key (insert p.id key h.post_convo),
        lookup-insert p.id p.id key h.post_convo,
        text_eq_refl p.id,
      ),
    )

joins :
    (client : Option Client) (p q : Post) (g : Conversations) (key : Text)
    → g.thread_reply ≡ true
    → lookup p.id g.post_convo ≡ some key
    → is_empty key ≡ false
    → trim_space q.parent_post_id ≡ p.id
    → p.id ≢ []
    → resolve_conversation_id client q g ≡ key
unfolding resolve_conversation_id
joins client p q g key on found filled reply named = ground (arith, is_empty_iff p.id)

-- With thread mode on, a reply to a post that was dispatched joins the conversation of that post,
-- whoever wrote the reply and in whichever chat.
resolve_conversation_id-record_conversation :
    (client : Option Client) (p q : Post) (placeholder : Text) (h : Conversations)
    → h.thread_reply ≡ true
    → trim_space q.parent_post_id ≡ p.id
    → p.id ≢ []
    → resolve_conversation_id client q (record_conversation client p placeholder h)
      ≡ resolve_conversation_id client p h
resolve_conversation_id-record_conversation client p q placeholder h threads reply named =
    let (on, found) = recorded client p placeholder h threads in
    joins client p q (record_conversation client p placeholder h)
      (resolve_conversation_id client p h) on found (resolve_nonempty client p h) reply named

-- With thread mode on, a user who is not an owner replies to a post of the owner: if the
-- conversation of that post has a session that the owner drives, the reply is prompted in that
-- very session, no restricted mode is asked for, and the session's file and terminal calls go
-- through.
pub reply_uses_owner_session :
    (client : Option Client) (p q : Post) (placeholder : Text) (h : Conversations) (guest : Origin)
    (r : Answers) (a : Agent) (sid method : Text)
    → h.thread_reply ≡ true
    → trim_space q.parent_post_id ≡ p.id
    → p.id ≢ []
    → guest.is_owner ≡ false
    → lookup (resolve_conversation_id client p h) a.sessions ≡ some sid
    → OwnerDriven sid a
    → let conv = resolve_conversation_id client q (record_conversation client p placeholder h) in
      (get_or_create_session conv guest r a ≡ (a, existing sid))
      × ((gate_non_owner_tool_call method sid a).1 ≡ false)
reply_uses_owner_session client p q placeholder h guest r a sid method threads reply named other has
      own =
    let same =
      resolve_conversation_id-record_conversation client p q placeholder h threads reply named in
    (
      rw (same)
          (get_or_create_session_existing (resolve_conversation_id client p h) guest r a sid has),
      (gate-exact method sid a).0.1 own,
    )
