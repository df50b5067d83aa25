-- ===== src/Messaging/Authorize/Cooldown.antt =====
-- How a settled request ends, and the silence after a denial.
use ringclaw.Prelude.{
  ◌+◌, ◌≤◌, ◌<◌, ◌∙◌, ap, ◌≡◌, refl, Bool, true, false, Option, none, some, arith,
}
use ringclaw.Prelude.Text.{Text, text_eq_refl}
use ringclaw.Prelude.Assoc.{lookup, flag, lookup_self, lookup_removed, lookup-remove}
use ringclaw.Prelude.Time.{Time}
use ringclaw.Oob.Challenge.{Manager, Error, challenge_expired, Wake, wait}
use ringclaw.Ringcentral.{Client, Post}
use ringclaw.Messaging.{AuthorizeMeta, Waiter, Notice, expired, denied, authorized, Handler}
use ringclaw.Messaging.Authorize.{
  authorize_cooldown_ttl, authorize_pending_key, Outside, authorize_mention, in_authorize_cooldown,
  await_authorize_mention, settle, finish, tell, identifier_of, commit, peek_authorize_meta,
  apply_authorize, record_authorize_cooldown, clear_authorize_cooldown, release_pending,
  drop_authorize_meta,
}
use ringclaw.Messaging.Senders.{add_chat_user_allow}

-- What each outcome of a wait does to the silence of the pair: a denial and an expiry start it, an
-- approval ends it, any other error leaves it.
abbrev pub silence_after : Time → Bool → Option Error → Option Time → Option Time
silence_after now approved (some challenge_expired) old = some now
silence_after now approved (some _) old = old
silence_after now false none old = some now
silence_after now true none old = none

tell_keeps : (n : Notice) (h : Handler) → (tell n h).authorize_cooldown ≡ h.authorize_cooldown
unfolding tell
tell_keeps n h = ground arith

apply_authorize_keeps :
    (c u : Text) (meta : AuthorizeMeta) (h : Handler)
    → (apply_authorize c u meta h).authorize_cooldown ≡ h.authorize_cooldown
unfolding apply_authorize commit add_chat_user_allow
apply_authorize_keeps c u meta h =
    tell_keeps (authorized (identifier_of u meta) c) (commit c u meta h)

settle-silence :
    (w : Waiter) (now : Time) (approved : Bool) (err : Option Error) (h : Handler)
    → lookup w.key (settle w now approved err h).authorize_cooldown
      ≡ silence_after now approved err (lookup w.key h.authorize_cooldown)
unfolding settle record_authorize_cooldown clear_authorize_cooldown
settle-silence w now approved (some challenge_expired) h =
    ap (lookup w.key)
      (tell_keeps (expired w.user_id w.chat_id) (record_authorize_cooldown now w.key h))
    ∙ lookup_self w.key now h.authorize_cooldown
settle-silence w now approved (some _) h = refl
settle-silence w now false none h =
    ap (lookup w.key)
      (tell_keeps (denied w.user_id w.chat_id) (record_authorize_cooldown now w.key h))
    ∙ lookup_self w.key now h.authorize_cooldown
settle-silence w now true none h =
    ap (lookup w.key) (
      apply_authorize_keeps w.chat_id w.user_id
        (peek_authorize_meta w.challenge_id (clear_authorize_cooldown w.key h))
        (clear_authorize_cooldown w.key h))
    ∙ lookup_removed w.key h.authorize_cooldown

awaited :
    (w : Waiter) (wake : Wake) (h : Handler) (mgr mgr' : Manager) (approved : Bool)
    (err : Option Error)
    → h.oob_manager ≡ some mgr
    → wait w.challenge wake mgr ≡ some (mgr', approved, err)
    → await_authorize_mention w wake h
      ≡ some (finish w (settle w mgr'.now approved err (record h { oob_manager = some mgr' })))
unfolding await_authorize_mention
awaited w wake h mgr mgr' approved err has over = ground arith

-- Whichever way a wait ends, the pair is no longer pending and the metadata of the challenge is
-- gone; the silence of the pair starts on a denial and on an expiry, ends on an approval, and
-- stays as it was if the wait was cancelled.
await_authorize_mention-releases :
    (w : Waiter) (wake : Wake) (h : Handler) (mgr mgr' : Manager) (approved : Bool)
    (err : Option Error)
    → h.oob_manager ≡ some mgr
    → wait w.challenge wake mgr ≡ some (mgr', approved, err)
    → (h' : Handler) × (await_authorize_mention w wake h ≡ some h')
      × (flag w.key h'.pending_authorize ≡ false)
      × (lookup w.challenge_id h'.authorize_meta ≡ none)
      × (lookup w.key h'.authorize_cooldown
          ≡ silence_after mgr'.now approved err (lookup w.key h.authorize_cooldown))
unfolding finish release_pending drop_authorize_meta
await_authorize_mention-releases w wake h mgr mgr' approved err has over =
    let settled = settle w mgr'.now approved err (record h { oob_manager = some mgr' }) in
    (
      finish w settled,
      awaited w wake h mgr mgr' approved err has over,
      ground (arith, lookup-remove w.key w.key settled.pending_authorize, text_eq_refl w.key),
      lookup_removed w.challenge_id settled.authorize_meta,
      settle-silence w mgr'.now approved err (record h { oob_manager = some mgr' }),
    )

-- For a day after a denial or an expiry, a mention by the same user in the same chat changes nothing
-- at all: no challenge is issued and nothing is sent. After the day the silence no longer holds.
authorize_mention_silenced :
    (o : Outside) (read_client : Option Client) (post : Post) (h : Handler) (mgr : Manager)
    (since : Time)
    → h.oob_manager ≡ some mgr
    → lookup (authorize_pending_key post.group_id post.creator_id) h.authorize_cooldown ≡ some since
    → (mgr.now < since + authorize_cooldown_ttl → authorize_mention o read_client post h ≡ h)
      × (since + authorize_cooldown_ttl ≤ mgr.now
          → (in_authorize_cooldown mgr.now
              (authorize_pending_key post.group_id post.creator_id)
              h).1
            ≡ false)
unfolding authorize_mention in_authorize_cooldown
authorize_mention_silenced o read_client post h mgr since has silenced =
    (λ early. ground arith, λ late. ground arith)
