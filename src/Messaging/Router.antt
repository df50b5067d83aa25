-- ===== src/Messaging/Router.antt =====
-- The state and the input of `HandleMessage` of messaging/handler.go, the text that it reads its
-- commands from, the record of posts that were handled (`seenMsgs`, `cleanSeenMsgs`), and the
-- places where a message may go.
use Prim.Native.Nat.{◌/◌}
use ringclaw.Prelude.{
  ℕ, suc, ◌+◌, ◌-◌, ◌*◌, Bool, true, false, not, ◌&&◌, ◌||◌, Option, none, some, List, [], ◌∷◌,
  ◌++◌, length, keep, if◌then◌else◌, ltb,
}
use ringclaw.Prelude.Text.{Text, codes, text_eq, has_prefix, trim_prefix, trim_space, is_empty}
use ringclaw.Prelude.Assoc.{Assoc, lookup, insert}
use ringclaw.Prelude.Time.{Time, minute}
use ringclaw.Ringcentral.{Client, is_bot_dm, Post}
use ringclaw.Messaging.{Handler}
use ringclaw.Messaging.Commands.{strip_forwarded_prefix}

-- The handler's fields that routing reads beside those of `Handler`.
pub record Router : Type 0 where
  pub handler : Handler
  pub custom_aliases : Assoc Text
  pub agents : List Text  -- the keys of `h.agents`
  pub agent_metas : List Text  -- the names of `h.agentMetas`
  pub has_cron_store : Bool
  pub thread_reply : Bool
  pub now : Time
  pub seen_msgs : Assoc Time
  pub seen_msg_count : ℕ
  pub cleaners : ℕ  -- goroutines of `cleanSeenMsgs` that have not run

-- A call of `HandleMessage`, with what it meets outside.
pub record Incoming : Type 0 where
  pub client : Client
  pub private_app : Option Client  -- `readClient`, where it is not `client`
  pub post : Post
  pub has_audio : Bool
  pub fresh : Option (Text × Text)  -- thread and parent of the post, when it is read again
  pub reply : Option (Option Text)  -- the default agent's on the intent, if there is an agent

abbrev pub reader : Incoming → Client
reader m = elim m.private_app [ none ↦ m.client | some c ↦ c ]

abbrev pub is_bot_group : Incoming → Bool
is_bot_group m = m.client.is_bot && not (is_bot_dm m.client m.post.group_id)

abbrev pub by_owner : Incoming → Bool
by_owner m = text_eq m.post.creator_id (reader m).owner_id

pub data Route : Type 0 where
  skipped_empty duplicate untrusted : Route
  approval_reply : List Text → Route  -- the texts sent back
  refused : Text → Route
  reload status new_session help persona : Route
  cwd full_access cron chat_info action_command : Text → Route
  mem : Text → Bool → Route  -- whether the chat is the bot's direct chat
  summarize : Route
  switch_default : Text → Route
  default_agent : Text → Route
  named_agent : Text → Text → Route
  broadcast : List Text → Text → Route

-- The thread and the parent of the post, read again where the event left them out.
read_thread : Router → Incoming → Text × Text
read_thread r m =
    if r.thread_reply
      && is_empty m.post.thread_id
      && not (is_empty m.post.group_id)
      && not (is_empty m.post.id)
    then elim m.fresh [ none ↦ (m.post.thread_id, m.post.parent_post_id) | some thread ↦ thread ]
    else (m.post.thread_id, m.post.parent_post_id)

unfoldable pub enrich : Router → Incoming → Incoming
unfolding read_thread
enrich r m =
    let (thread_id, parent_post_id) = read_thread r m in
    record m { post = record m.post { thread_id = thread_id; parent_post_id = parent_post_id } }

-- `strings.TrimLeft(text, ",:")`
trim_marks : Text → Text
trim_marks [] = []
trim_marks (c ∷ s) =
    let rest = trim_marks s in
    if text_eq (c ∷ []) (codes ",") || text_eq (c ∷ []) (codes ":") then rest else c ∷ s

strip_mention : Text → Text → Text
unfolding trim_marks trim_prefix has_prefix trim_space
strip_mention bot_id text =
    let prefix = codes "![:Person](" ++ (bot_id ++ codes ")") in
    if not (is_empty bot_id) && has_prefix text prefix
    then trim_space (trim_marks (trim_space (trim_prefix text prefix)))
    else text

-- The text that the commands are read from.
unfoldable pub text_of : Incoming → Text
unfolding strip_mention
text_of m = strip_forwarded_prefix (strip_mention m.client.owner_id (trim_space m.post.text))

abbrev max_seen_msgs : ℕ
max_seen_msgs = 10_000

-- `LoadOrStore`, and the count: the router, and whether the post was there.
unfoldable pub mark_seen : Text → Router → Router × Bool
unfolding lookup insert
mark_seen id r = if is_empty id then (r, false) else elim (lookup id r.seen_msgs) [
  | some t ↦ (r, true)
  | none ↦ (
    record r {
      seen_msgs = insert id r.now r.seen_msgs;
      seen_msg_count = suc r.seen_msg_count;
      cleaners =
          if ltb (max_seen_msgs / 2) (suc r.seen_msg_count) then suc r.cleaners else r.cleaners;
    },
    false,
  )
]

-- `!t.Before(cutoff)`
abbrev pub recent : Time → Text × Time → Bool
recent now (id, t) = not (ltb (t + 5 * minute) now)

-- `cleanSeenMsgs`
unfoldable pub clean_seen_msgs : Router → Router
clean_seen_msgs r =
    let kept = keep (recent r.now) r.seen_msgs in
    record r {
      seen_msgs = kept;
      seen_msg_count = r.seen_msg_count - (length r.seen_msgs - length kept);
    }
