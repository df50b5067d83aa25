-- ===== src/Ringcentral/Monitor/Tests.antt =====
-- The filters, run.
use ringclaw.Prelude.{◌*◌, ◌≡◌, ◌↔◌, true, false, none, some, List, [], ◌∷◌}
use ringclaw.Prelude.Text.{Text, codes}
use ringclaw.Prelude.Time.{minute}
use ringclaw.Ringcentral.{Client, Post}
use ringclaw.Ringcentral.Monitor.{Monitor, Frame, array, event_of, dispatch, handle_ws_message}
use ringclaw.Ringcentral.Monitor.Filter.{Passes, Trusted, Addressed, handle_ws_message-dispatch}
use ringclaw.Ringcentral.Monitor.Echo.{Call, mark, look}

abbrev client : Client
client = record { is_bot = true; dm_chat_id = codes "dm"; owner_id = codes "bot" }

abbrev monitor : Monitor
monitor = record {
  client = client;
  bot_mention_only = true;
  allowed_chat_ids = (codes "g", true) ∷ [];
  allowed_user_ids = (codes "owner", true) ∷ [];
  allow_all_senders = false;
  chat_user_allow = [];
  mention_authorize = true;
  failures = 4;
  sent_posts = [];
  last_evict = 0;
}

abbrev post_by : Text → Post
post_by user = record {
  id = codes "p1";
  group_id = codes "g";
  type = codes "TextMessage";
  text = codes "hi";
  creator_id = user;
  mentions = record { id = codes "bot" } ∷ [];
  event_type = codes "PostAdded";
  parent_post_id = [];
  thread_id = [];
}

abbrev frame_by : Text → Frame
frame_by user = array (none ∷ some (post_by user) ∷ [])

handle_ws_message-dispatch_example :
    ((handle_ws_message 0 (frame_by (codes "owner")) monitor).1
      ≡ dispatch (post_by (codes "owner")))
    ↔ ((event_of (frame_by (codes "owner")) ≡ some (post_by (codes "owner")))
        × Passes 0 (post_by (codes "owner")) monitor
        × Trusted (post_by (codes "owner")) monitor
        × Addressed (post_by (codes "owner")) monitor)
handle_ws_message-dispatch_example =
    handle_ws_message-dispatch 0 (frame_by (codes "owner")) monitor (post_by (codes "owner"))

abbrev calls : List Call
calls =
    mark minute (codes "other") ∷ look minute (codes "other") ∷ look (3 * minute) (codes "p1") ∷ []
