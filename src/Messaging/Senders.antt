-- ===== src/Messaging/Senders.antt =====
-- Who may drive an agent, and as whom: the allowlists of messaging/handler.go, the check at the top
-- of `HandleMessage`, and `originForPost` of messaging/sender_role.go.
pub mod Agreement
mod Tests
use ringclaw.Prelude.{Bool, true, false, not, ◌&&◌, Option, none, some, if◌then◌else◌}
use ringclaw.Prelude.Text.{Text, codes, is_empty}
use ringclaw.Prelude.Assoc.{insert, flag}
use ringclaw.Ringcentral.{Client, is_bot_dm, Post}
use ringclaw.Ringcentral.Monitor.{allow_in, is_allowed_in}
use ringclaw.Agent.{Origin}
use ringclaw.Messaging.{Handler}

pub add_trusted_sender : Text → Handler → Handler
add_trusted_sender user_id h =
    if is_empty user_id
    then h
    else record h { trusted_senders = insert user_id true h.trusted_senders }

pub enforce_sender_allowlist : Handler → Handler
enforce_sender_allowlist h = record h { allow_all_senders = false }

pub is_trusted_sender : Text → Handler → Bool
is_trusted_sender creator_id h =
    if h.allow_all_senders
    then true
    else if is_empty creator_id
    then false
    else flag creator_id h.trusted_senders

unfoldable pub add_chat_user_allow : Text → Text → Handler → Handler
add_chat_user_allow chat_id user_id h = record h {
  chat_user_allow = allow_in chat_id user_id h.chat_user_allow;
}

unfoldable pub is_chat_user_allowed : Text → Text → Handler → Bool
is_chat_user_allowed chat_id user_id h = is_allowed_in chat_id user_id h.chat_user_allow

-- The negation of the test that makes `HandleMessage` drop a post.
unfoldable pub accepts_sender : Post → Handler → Bool
unfolding is_trusted_sender
accepts_sender post h = not (
    not (is_trusted_sender post.creator_id h)
    && not (is_chat_user_allowed post.group_id post.creator_id h))

is_bot_dm_of : Option Client → Text → Bool
is_bot_dm_of none chat_id = false
is_bot_dm_of (some client) chat_id = is_bot_dm client chat_id

pub origin_for_post : Option Client → Post → Handler → Origin
unfolding is_trusted_sender is_bot_dm_of
origin_for_post client post h =
    if is_bot_dm_of client post.group_id
    then record { is_owner = true; sender_id = post.creator_id; reason = codes "dm_to_bot" }
    else if is_trusted_sender post.creator_id h
    then record { is_owner = true; sender_id = post.creator_id; reason = codes "source_user_ids" }
    else record {
      is_owner = false;
      sender_id = post.creator_id;
      reason =
          if is_chat_user_allowed post.group_id post.creator_id h
          then codes "chat_user_allow"
          else codes "non_owner";
    }
