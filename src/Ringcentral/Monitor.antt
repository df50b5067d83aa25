-- ===== src/Ringcentral/Monitor.antt =====
-- ringcentral/monitor.go: which posts reach the message handler. The WebSocket connection itself
-- (`Run`, `connectAndListen`, `subscribe`) is I/O and is not modelled, but for the delay between
-- attempts.
pub mod Filter
pub mod Echo
pub mod Allow
pub mod Backoff
mod Tests
use ringclaw.Prelude.{
  ℕ, zero, suc, ◌+◌, ◌-◌, ◌*◌, ◌==◌, Bool, true, false, not, ◌&&◌, ◌||◌, Option, none, some, List,
  [], ◌∷◌, if◌then◌else◌, ltb, any, is_some,
}
use ringclaw.Prelude.Text.{Text, codes, text_eq, has_prefix, trim_space, is_empty}
use ringclaw.Prelude.Assoc.{Assoc, lookup, insert, remove, flag, flag_in}
use ringclaw.Prelude.Time.{Time, second, minute}
use ringclaw.Ringcentral.{Client, is_bot_dm, Mention, Post}

pub record Monitor : Type 0 where
  pub client : Client
  pub bot_mention_only : Bool
  pub allowed_chat_ids : Assoc Bool
  pub allowed_user_ids : Assoc Bool
  pub allow_all_senders : Bool
  pub chat_user_allow : Assoc (Assoc Bool)
  pub mention_authorize : Bool  -- whether a callback is installed
  pub failures : ℕ
  pub sent_posts : Assoc Time
  pub last_evict : Time

abbrev pub sent_post_ttl : ℕ
sent_post_ttl = 5 * minute

abbrev pub evict_interval : ℕ
evict_interval = 1 * minute

-- `evictExpiredLocked`
evict_expired : Time → Assoc Time → Assoc Time
evict_expired now [] = []
evict_expired now ((k, t) ∷ m) =
    let rest = evict_expired now m in if ltb sent_post_ttl (now - t) then rest else (k, t) ∷ rest

-- The calls that read the clock take the time as an argument.
pub mark_sent_post : Time → Text → Monitor → Monitor
unfolding evict_expired
mark_sent_post now id m =
    let marked = insert id now m.sent_posts in
    if ltb evict_interval (now - m.last_evict)
    then record m { sent_posts = evict_expired now marked; last_evict = now }
    else record m { sent_posts = marked }

unfoldable pub is_sent_post : Time → Text → Monitor → Monitor × Bool
is_sent_post now id m = elim (lookup id m.sent_posts) [
  | none ↦ (m, false)
  | some t ↦
      if ltb sent_post_ttl (now - t)
      then (record m { sent_posts = remove id m.sent_posts }, false)
      else (m, true)
]

set_of : List Text → Assoc Bool
set_of [] = []
set_of (id ∷ ids) = insert id true (set_of ids)

pub new_monitor : Client → List Text → List Text → Bool → Monitor
unfolding set_of
new_monitor client chat_ids source_user_ids mention_only = record {
  client = client;
  bot_mention_only = mention_only;
  allowed_chat_ids =
      if not (is_empty client.dm_chat_id)
      then insert client.dm_chat_id true (set_of chat_ids)
      else set_of chat_ids;
  allowed_user_ids = set_of source_user_ids;
  allow_all_senders = true;
  chat_user_allow = [];
  mention_authorize = false;
  failures = 0;
  sent_posts = [];
  last_evict = 0;
}

trimmed_set : List Text → Assoc Bool
trimmed_set [] = []
trimmed_set (id ∷ ids) =
    let rest = trimmed_set ids in
    if is_empty (trim_space id) then rest else insert (trim_space id) true rest

-- `SetChatUserAllow`, over the map's entries in the order of the loop, the last one first.
pub set_chat_user_allow : List (Text × List Text) → Monitor → Monitor
unfolding trimmed_set
set_chat_user_allow [] m = record m { chat_user_allow = [] }
set_chat_user_allow ((chat_id, ids) ∷ by_chat) m =
    let done = set_chat_user_allow by_chat m in
    if is_empty (trim_space chat_id) || is_empty (trimmed_set ids) then done else record done {
      chat_user_allow = insert (trim_space chat_id) (trimmed_set ids) done.chat_user_allow;
    }

-- The body that the monitor's and the handler's `AddChatUserAllow` share.
unfoldable pub allow_in : Text → Text → Assoc (Assoc Bool) → Assoc (Assoc Bool)
allow_in chat_id user_id allow =
    if is_empty (trim_space chat_id) || is_empty (trim_space user_id)
    then allow
    else elim (lookup (trim_space chat_id) allow) [
      | none ↦ insert (trim_space chat_id) (insert (trim_space user_id) true []) allow
      | some set ↦ insert (trim_space chat_id) (insert (trim_space user_id) true set) allow
    ]

pub add_chat_user_allow : Text → Text → Monitor → Monitor
add_chat_user_allow chat_id user_id m = record m {
  chat_user_allow = allow_in chat_id user_id m.chat_user_allow;
}

-- The body that the monitor's and the handler's `isChatUserAllowed` share.
unfoldable pub is_allowed_in : Text → Text → Assoc (Assoc Bool) → Bool
is_allowed_in chat_id user_id allow =
    if is_empty chat_id || is_empty user_id then false else flag_in chat_id user_id allow

pub is_chat_user_allowed : Text → Text → Monitor → Bool
is_chat_user_allowed chat_id user_id m = is_allowed_in chat_id user_id m.chat_user_allow

pub has_any_chat_user_allow : Monitor → Bool
has_any_chat_user_allow m = any (λ e. not (is_empty e.1)) m.chat_user_allow

pub set_mention_authorize : Bool → Monitor → Monitor
set_mention_authorize installed m = record m { mention_authorize = installed }

pub set_allow_all_senders : Bool → Monitor → Monitor
set_allow_all_senders allow m = record m { allow_all_senders = allow }

pub enforce_sender_allowlist : Monitor → Monitor
enforce_sender_allowlist m = record m { allow_all_senders = false }

pub add_trusted_sender : Text → Monitor → Monitor
add_trusted_sender user_id m =
    if is_empty user_id
    then m
    else record m { allowed_user_ids = insert user_id true m.allowed_user_ids }

pub has_trusted_senders : Monitor → Bool
has_trusted_senders m = not (is_empty m.allowed_user_ids)

pub is_bot_mentioned : List Mention → Monitor → Bool
is_bot_mentioned mentions m =
    if is_empty m.client.owner_id
    then false
    else any (λ mention. text_eq mention.id m.client.owner_id) mentions

unfoldable pub is_bot_message : Text → Bool
is_bot_message text =
    has_prefix text (codes "--------answer--------") || text_eq text (codes "Thinking...")

-- A message of the WebSocket, as far as JSON decoding goes: an array, each item with the event that
-- it decodes to (`none`: it does not); a single object that decodes to an event; anything else.
pub data Frame : Type 0 where
  array : List (Option Post) → Frame
  object : Post → Frame
  other : Frame

unfoldable pub event_of : Frame → Option Post
event_of (array (header ∷ event ∷ rest)) = event
event_of (array _) = none
event_of (object event) = some event
event_of other = none

-- What becomes of a message: nothing, `go authorizeFn(…)`, or `go m.handler(…)`.
pub data Outcome : Type 0 where
  ignored : Outcome
  authorize : Post → Outcome
  dispatch : Post → Outcome

-- The `switch` over the sources of trust.
pub sender_trusted : Post → Monitor → Bool
unfolding is_chat_user_allowed
sender_trusted post m =
    if m.allow_all_senders && is_empty m.allowed_user_ids
    then true
    else if flag post.creator_id m.allowed_user_ids
    then true
    else is_chat_user_allowed post.group_id post.creator_id m

-- From the snapshot under the mutex on.
filter_sender : Post → Monitor → Outcome
filter_sender post m =
    if not m.allow_all_senders && is_empty m.allowed_user_ids && not (has_any_chat_user_allow m)
    then ignored
    else if not (sender_trusted post m)
    then if m.mention_authorize
        && not (is_bot_dm m.client post.group_id)
        && is_bot_mentioned post.mentions m
      then authorize post
      else ignored
    else if m.bot_mention_only
        && not (is_bot_dm m.client post.group_id)
        && not (is_bot_mentioned post.mentions m)
    then ignored
    else dispatch post

-- The filters that come before the sender is looked at, once `IsSentPost` has answered.
filter_post : Post → Monitor → Outcome
filter_post post m =
    if not (text_eq post.type (codes "TextMessage"))
    then ignored
    else if not (flag post.group_id m.allowed_chat_ids)
    then ignored
    else if not (is_empty m.client.owner_id) && text_eq post.creator_id m.client.owner_id
    then ignored
    else filter_sender post m

handle_event : Time → Post → Monitor → Monitor × Outcome
handle_event now post m =
    if is_empty post.event_type
    then (m, ignored)
    else if not (text_eq post.event_type (codes "PostAdded"))
    then (m, ignored)
    else if is_bot_message post.text
    then (m, ignored)
    else let (m', own) = is_sent_post now post.id m in
      if own then (m', ignored) else (m', filter_post post m')

pub handle_ws_message : Time → Frame → Monitor → Monitor × Outcome
unfolding event_of handle_event
handle_ws_message now msg m = elim (event_of msg) [
  | none ↦ (m, ignored)
  | some post ↦ handle_event now post m
]

abbrev pub initial_backoff : ℕ
initial_backoff = 3 * second

abbrev pub max_backoff : ℕ
max_backoff = 60 * second

-- The loop of `calcBackoff`, `rounds` from its end.
backoff_loop : ℕ → ℕ → ℕ
backoff_loop zero d = d
backoff_loop (suc rounds) d =
    let rest = backoff_loop rounds (d * 2) in if ltb max_backoff (d * 2) then max_backoff else rest

pub calc_backoff : Monitor → ℕ
unfolding backoff_loop
calc_backoff m = backoff_loop (m.failures - 1) initial_backoff
