-- ===== src/Messaging/Senders/Tests.antt =====
-- Senders, checked.
use ringclaw.Prelude.{◌≡◌, inl, inr, refl, true, false, none, some, [], ◌∷◌}
use ringclaw.Prelude.Text.{codes, text_eq, has_prefix}
use ringclaw.Prelude.Assoc.{lookup}
use ringclaw.Ringcentral.{Client, Post}
use ringclaw.Ringcentral.Monitor.{
  Monitor, Frame, array, event_of, is_bot_message, is_sent_post, dispatch, handle_ws_message,
}
use ringclaw.Ringcentral.Monitor.Filter.{handle_ws_message-dispatch}
use ringclaw.Messaging.{Handler}
use ringclaw.Messaging.Senders.{accepts_sender}
use ringclaw.Messaging.Senders.Agreement.{Mirrors, handle_ws_message-accepts_sender}

abbrev client : Client
client = record { is_bot = true; dm_chat_id = codes "dm"; owner_id = codes "bot" }

abbrev monitor : Monitor
monitor = record {
  client = client;
  bot_mention_only = false;
  allowed_chat_ids = (codes "g", true) ∷ [];
  allowed_user_ids = (codes "1", true) ∷ [];
  allow_all_senders = false;
  chat_user_allow = [];
  mention_authorize = true;
  failures = 0;
  sent_posts = [];
  last_evict = 0;
}

abbrev handler : Handler
handler = record {
  allow_all_senders = false;
  trusted_senders = (codes "1", true) ∷ [];
  chat_user_allow = [];
  oob_manager = none;
  owner_dm_chat_id = codes "dm";
  persists = false;
  authorize_monitor = none;
  pending_authorize = [];
  authorize_meta = [];
  authorize_cooldown = [];
  waiting = [];
  persisted = [];
  notices = [];
}

abbrev post : Post
post = record {
  id = codes "p";
  group_id = codes "g";
  type = codes "TextMessage";
  text = codes "hi";
  creator_id = codes "1";
  mentions = [];
  event_type = codes "PostAdded";
  parent_post_id = [];
  thread_id = [];
}

abbrev frame : Frame
frame = array (none ∷ some post ∷ [])

mirrors : Mirrors monitor handler
mirrors = record { same_users = refl; same_pairs = refl; same_openness = λ e. e }

dispatched : (handle_ws_message 0 frame monitor).1 ≡ dispatch post
unfolding event_of is_bot_message is_sent_post lookup has_prefix text_eq
dispatched = (handle_ws_message-dispatch 0 frame monitor post).1 (
  refl,
  record {
    added = refl;
    not_bot_text = refl;
    not_own = refl;
    is_text = refl;
    in_chat = refl;
    not_self = inr (λ e. cc e);
  },
  inr (inl refl),
  inl refl,
)

handle_ws_message-accepts_sender_example : accepts_sender post handler ≡ true
handle_ws_message-accepts_sender_example =
    handle_ws_message-accepts_sender 0 frame monitor handler post mirrors (λ e. cc e) dispatched
