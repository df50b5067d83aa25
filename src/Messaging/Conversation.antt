-- ===== src/Messaging/Conversation.antt =====
-- Which conversation with an agent a post belongs to: `conversationIDForPost`,
-- `resolveConversationID` of messaging/handler.go, and what `dispatchToAgent` records for it.
pub mod Keys
pub mod Threads
mod Tests
use ringclaw.Prelude.{
  Bool, true, false, not, ◌&&◌, Option, none, some, List, [], ◌∷◌, ◌++◌, if◌then◌else◌,
}
use ringclaw.Prelude.Text.{Text, codes, trim_space, is_empty}
use ringclaw.Prelude.Assoc.{Assoc, lookup, insert}
use ringclaw.Ringcentral.{Client, is_bot_dm, Post}

-- The handler's fields for conversations.
pub record Conversations : Type 0 where
  pub thread_reply : Bool
  pub post_convo : Assoc Text

abbrev is_dm_of : Option Client → Text → Bool
is_dm_of none chat_id = false
is_dm_of (some client) chat_id = is_bot_dm client chat_id

-- The formats of the four keys.
pub flat_key : Bool → Text → Text → Text
flat_key is_dm chat_id creator_id =
    if is_dm
    then codes "rc:dm:" ++ (chat_id ++ (codes ":" ++ creator_id))
    else codes "rc:chat:" ++ (chat_id ++ (codes ":user:" ++ creator_id))

thread_key : Bool → Text → Text → Text → Text
thread_key is_dm chat_id thread_id creator_id =
    if is_dm
    then codes "rc:dm:"
      ++ (chat_id ++ (codes ":thread:" ++ (thread_id ++ (codes ":" ++ creator_id))))
    else codes "rc:chat:"
      ++ (chat_id ++ (codes ":thread:" ++ (thread_id ++ (codes ":user:" ++ creator_id))))

thread_of : Post → Text
thread_of post =
    if is_empty (trim_space post.thread_id)
    then codes "post:" ++ post.id
    else trim_space post.thread_id

pub conversation_id_for_post : Option Client → Post → Conversations → Text
unfolding flat_key thread_key thread_of
conversation_id_for_post client post h =
    let chat_id = trim_space post.group_id in
    let creator_id = trim_space post.creator_id in
    let is_dm = is_dm_of client chat_id in
    if not h.thread_reply
    then flat_key is_dm chat_id creator_id
    else thread_key is_dm chat_id (thread_of post) creator_id

pub resolve_conversation_id : Option Client → Post → Conversations → Text
resolve_conversation_id client post h =
    let own = conversation_id_for_post client post h in
    let parent = trim_space post.parent_post_id in
    if h.thread_reply && not (is_empty parent)
    then elim (lookup parent h.post_convo) [
      | none ↦ own
      | some key ↦ if not (is_empty key) then key else own
    ]
    else own

-- What `dispatchToAgent` records before it prompts: the post, and the placeholder if there is one.
pub record_conversation : Option Client → Post → Text → Conversations → Conversations
record_conversation client post placeholder_id h =
    let key = resolve_conversation_id client post h in
    if not h.thread_reply
    then h
    else if not (is_empty placeholder_id)
    then record h { post_convo = insert placeholder_id key (insert post.id key h.post_convo) }
    else record h { post_convo = insert post.id key h.post_convo }
