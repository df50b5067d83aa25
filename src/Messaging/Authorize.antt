-- ===== src/Messaging/Authorize.antt =====
-- The flow of messaging/handler_authorize.go: a user who is not trusted mentions the bot, the
-- owner is asked, and an approval grants that user that chat. What a call meets outside (random
-- bytes, the directory's answers, whether the prompt could be posted) is an argument; the texts
-- of the messages are not kept.
mod Effects
mod Waking
pub mod Trace
pub mod Pending
pub mod Ownership
pub mod Cooldown
pub mod Grants
pub mod Commit
mod Tests
use ringclaw.Prelude.{
  ℕ, zero, suc, ◌-◌, ◌*◌, Bool, true, false, not, ◌&&◌, ◌||◌, Option, none, some, List, [], ◌∷◌,
  ◌++◌, if◌then◌else◌, leb, get_elem?,
}
use ringclaw.Prelude.Text.{Text, codes, text_eq, trim_space, is_empty}
use ringclaw.Prelude.Assoc.{lookup, insert, remove, flag}
use ringclaw.Prelude.Time.{Time, minute}
use ringclaw.Oob.Challenge.{
  Manager, Error, challenge_expired, Issued, ok, fail, IssueOptions, default_challenge_ttl, issue,
  deny, Wake, wait, Call,
}
use ringclaw.Oob.Challenge
use ringclaw.Ringcentral.{Client, Post}
use ringclaw.Ringcentral.Monitor
use ringclaw.Messaging.{AuthorizeMeta, Waiter, Notice, expired, denied, authorized, Handler}
use ringclaw.Messaging.Senders.{add_chat_user_allow}

abbrev pub authorize_cooldown_ttl : ℕ
authorize_cooldown_ttl = 24 * (60 * minute)

unfoldable pub authorize_pending_key : Text → Text → Text
authorize_pending_key chat_id user_id = chat_id ++ codes "|" ++ user_id

pub try_reserve_pending : Text → Handler → Handler × Bool
try_reserve_pending key h =
    if flag key h.pending_authorize
    then (h, false)
    else (record h { pending_authorize = insert key true h.pending_authorize }, true)

pub release_pending : Text → Handler → Handler
release_pending key h = record h { pending_authorize = remove key h.pending_authorize }

pub store_authorize_meta : Text → AuthorizeMeta → Handler → Handler
store_authorize_meta id meta h = record h { authorize_meta = insert id meta h.authorize_meta }

pub peek_authorize_meta : Text → Handler → AuthorizeMeta
peek_authorize_meta id h = elim (lookup id h.authorize_meta) [
  | none ↦ record { email = []; display_name = []; chat_name = [] }
  | some meta ↦ meta
]

pub drop_authorize_meta : Text → Handler → Handler
drop_authorize_meta id h = record h { authorize_meta = remove id h.authorize_meta }

-- With the second look under the write lock: no other call comes between the two here.
pub in_authorize_cooldown : Time → Text → Handler → Handler × Bool
in_authorize_cooldown now key h = elim (lookup key h.authorize_cooldown) [
  | none ↦ (h, false)
  | some t ↦
      if leb authorize_cooldown_ttl (now - t)
      then (record h { authorize_cooldown = remove key h.authorize_cooldown }, false)
      else (h, true)
]

pub record_authorize_cooldown : Time → Text → Handler → Handler
record_authorize_cooldown now key h = record h {
  authorize_cooldown = insert key now h.authorize_cooldown;
}

pub clear_authorize_cooldown : Text → Handler → Handler
clear_authorize_cooldown key h = record h { authorize_cooldown = remove key h.authorize_cooldown }

tell : Notice → Handler → Handler
tell notice h = if is_empty h.owner_dm_chat_id then h else record h { notices = notice ∷ h.notices }

abbrev pub identifier_of : Text → AuthorizeMeta → Text
identifier_of user_id meta = if not (is_empty meta.email) then meta.email else user_id

-- `applyAuthorize` without its notice.
commit : Text → Text → AuthorizeMeta → Handler → Handler
commit chat_id user_id meta h =
    let granted = add_chat_user_allow chat_id user_id h in
    let pushed = record granted {
      authorize_monitor = elim granted.authorize_monitor [
        | none ↦ none
        | some mon ↦ some (Monitor.add_chat_user_allow chat_id user_id mon)
      ];
    } in
    record pushed {
      persisted =
          if pushed.persists
          then (chat_id, identifier_of user_id meta) ∷ pushed.persisted
          else pushed.persisted;
    }

pub apply_authorize : Text → Text → AuthorizeMeta → Handler → Handler
unfolding tell commit
apply_authorize chat_id user_id meta h =
    tell (authorized (identifier_of user_id meta) chat_id) (commit chat_id user_id meta h)

-- What `AuthorizeMention` meets outside.
pub record Outside : Type 0 where
  pub random : Option (List ℕ)
  pub meta : AuthorizeMeta
  pub posted : Bool  -- whether the prompt was sent

abbrev owner_of : Option Client → Text
owner_of none = []
owner_of (some client) = client.owner_id

-- `collectAuthorizeMeta`
abbrev collect_authorize_meta : Option Client → AuthorizeMeta → AuthorizeMeta
collect_authorize_meta none found = record { email = []; display_name = []; chat_name = [] }
collect_authorize_meta (some client) found = found

-- From the new challenge on: the prompt, and the goroutine or the clean-up.
prompt : Outside → Option Client → Post → Text → ℕ → Text → Handler → Handler
unfolding release_pending store_authorize_meta drop_authorize_meta
prompt o read_client post key a id h =
    let stored = store_authorize_meta id (collect_authorize_meta read_client o.meta) h in
    if o.posted
    then record stored {
      waiting =
          record {
            challenge = a;
            challenge_id = id;
            chat_id = post.group_id;
            user_id = post.creator_id;
            key = key;
          }
          ∷ stored.waiting;
    }
    else release_pending key (
        drop_authorize_meta id (record stored {
          oob_manager = elim stored.oob_manager [ none ↦ none | some mgr ↦ some (deny id mgr).0 ];
        }))

-- Once `Issue` has returned. A pointer that it returns is never nil.
proceed : Outside → Option Client → Post → Text → Manager × Issued → Handler → Handler
unfolding prompt release_pending
proceed o read_client post key (mgr, fail err) h =
    release_pending key (record h { oob_manager = some mgr })
proceed o read_client post key (mgr, ok a) h = elim (get_elem? mgr.heap a) [
  | none ↦ h
  | some c ↦ prompt o read_client post key a c.id (record h { oob_manager = some mgr })
]

abbrev intent_of : Post → Text
intent_of post = codes "authorize user " ++ post.creator_id ++ codes " in chat " ++ post.group_id

abbrev options_of : Option Client → IssueOptions
options_of read_client = record { ttl = default_challenge_ttl; owner_id = owner_of read_client }

-- From the reservation on.
request : Outside → Option Client → Post → Text → Manager → Handler → Handler
unfolding proceed
request o read_client post key mgr h =
    proceed o read_client post key
      (issue o.random post.creator_id (intent_of post) post.group_id h.owner_dm_chat_id
        (options_of read_client) mgr)
      h

-- The cooldown, the reservation and the request.
pub ask : Outside → Option Client → Post → Text → Manager → Handler → Handler
unfolding in_authorize_cooldown try_reserve_pending request
ask o read_client post key mgr h =
    let (swept, silent) = in_authorize_cooldown mgr.now key h in
    if silent
    then swept
    else let (reserved, mine) = try_reserve_pending key swept in
      if mine then request o read_client post key mgr reserved else reserved

pub authorize_mention : Outside → Option Client → Post → Handler → Handler
unfolding ask
authorize_mention o read_client post h = elim h.oob_manager [
  | none ↦ h
  | some mgr ↦
      if is_empty h.owner_dm_chat_id
      then h
      else if is_empty (trim_space post.group_id) || is_empty (trim_space post.creator_id)
      then h
      else if not (is_empty (trim_space (owner_of read_client)))
          && text_eq (trim_space (owner_of read_client)) (trim_space post.creator_id)
      then h
      else ask o read_client post (authorize_pending_key post.group_id post.creator_id) mgr h
]

-- The `switch` after `c.Wait`, with what it returned.
pub settle : Waiter → Time → Bool → Option Error → Handler → Handler
unfolding record_authorize_cooldown clear_authorize_cooldown peek_authorize_meta apply_authorize
    tell
settle w now approved (some challenge_expired) h =
    tell (expired w.user_id w.chat_id) (record_authorize_cooldown now w.key h)
settle w now approved (some _) h = h
settle w now false none h =
    tell (denied w.user_id w.chat_id) (record_authorize_cooldown now w.key h)
settle w now true none h =
    let cleared = clear_authorize_cooldown w.key h in
    apply_authorize w.chat_id w.user_id (peek_authorize_meta w.challenge_id cleared) cleared

-- The two deferred calls.
pub finish : Waiter → Handler → Handler
unfolding release_pending drop_authorize_meta
finish w h = release_pending w.key (drop_authorize_meta w.challenge_id h)

-- `awaitAuthorizeMention` from the moment that its wait is over; `none`: the wait is not ready.
pub await_authorize_mention : Waiter → Wake → Handler → Option Handler
unfolding settle finish
await_authorize_mention w wake h = elim h.oob_manager [
  | none ↦ some (finish w h)
  | some mgr ↦ elim (wait w.challenge wake mgr) [
    | none ↦ none
    | some (mgr', approved, err) ↦
        some (finish w (settle w mgr'.now approved err (record h { oob_manager = some mgr' })))
  ]
]

-- A list without the element at a position.
pub drop_at {ℓ} : {A : Type ℓ} → ℕ → List A → List A
drop_at n [] = []
drop_at zero (x ∷ xs) = xs
drop_at (suc n) (x ∷ xs) = x ∷ drop_at n xs

-- What can happen: a mention, the end of a goroutine's wait, and a call on the manager by others
-- (an approval, a denial, the clock, another flow).
pub data Event : Type 0 where
  mention : Outside → Option Client → Post → Event
  wakes : ℕ → Wake → Event
  calls : Call → Event

-- The goroutine at a position of `waiting` goes on.
pub wake_at : ℕ → Wake → Handler → Handler
unfolding await_authorize_mention drop_at
wake_at n wake h = elim (get_elem? h.waiting n) [
  | none ↦ h
  | some w ↦ elim (await_authorize_mention w wake h) [
    | none ↦ h
    | some h' ↦ record h' { waiting = drop_at n h'.waiting }
  ]
]

pub step : Event → Handler → Handler
unfolding authorize_mention wake_at
step (mention o read_client post) h = authorize_mention o read_client post h
step (wakes n wake) h = wake_at n wake h
step (calls c) h = record h {
  oob_manager = elim h.oob_manager [ none ↦ none | some mgr ↦ some (Challenge.step c mgr) ];
}

pub run : List Event → Handler → Handler
run [] h = h
run (e ∷ es) h = run es (step e h)
