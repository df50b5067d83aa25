-- ===== src/Messaging/Senders/Agreement.antt =====
-- The handler's check and the origin agree with the monitor's filter.
use ringclaw.Prelude.{
  ◌≡◌, ◌≢◌, ◌⊎◌, ◌↔◌, inl, inr, refl, true, false, Bool-cases, Option, none, some, [], arith,
}
use ringclaw.Prelude.Text.{codes, is_empty_iff}
use ringclaw.Prelude.Assoc.{flag, flag_in}
use ringclaw.Prelude.Time.{Time}
use ringclaw.Ringcentral.{Client, is_bot_dm, Post}
use ringclaw.Ringcentral.Monitor.{Monitor, Frame, dispatch, is_allowed_in, handle_ws_message}
use ringclaw.Ringcentral.Monitor.Filter.{handle_ws_message-dispatch}
use ringclaw.Messaging.{Handler}
use ringclaw.Messaging.Senders.{
  is_trusted_sender, is_chat_user_allowed, accepts_sender, is_bot_dm_of, origin_for_post,
}

-- The two keep the same lists, and the monitor is not more open than the handler.
pub record Mirrors (m : Monitor) (h : Handler) : Type 0 where
  pub same_users : m.allowed_user_ids ≡ h.trusted_senders
  pub same_pairs : m.chat_user_allow ≡ h.chat_user_allow
  pub same_openness : m.allow_all_senders ≡ true → h.allow_all_senders ≡ true

-- Every post that the monitor dispatches passes the handler's own check, if both keep the same lists
-- of senders and of pairs, the monitor lets all senders through only where the handler does, and the
-- author of the post is named.
pub handle_ws_message-accepts_sender :
    (now : Time) (msg : Frame) (m : Monitor) (h : Handler) (p : Post)
    → Mirrors m h
    → p.creator_id ≢ []
    → (handle_ws_message now msg m).1 ≡ dispatch p
    → accepts_sender p h ≡ true
unfolding accepts_sender is_trusted_sender is_chat_user_allowed is_allowed_in
handle_ws_message-accepts_sender now msg m h p mirrors named sent =
    let (decoded, passes, trusted, addressed) = (handle_ws_message-dispatch now msg m p).0 sent in
    let users = mirrors.same_users in
    let pairs = mirrors.same_pairs in
    let openness = mirrors.same_openness in
    let users_here : flag p.creator_id m.allowed_user_ids ≡ flag p.creator_id h.trusted_senders =
      rw (users) refl in
    let pairs_here : flag_in p.group_id p.creator_id m.chat_user_allow
        ≡ flag_in p.group_id p.creator_id h.chat_user_allow =
      rw (pairs) refl in
    ground (arith, is_empty_iff p.creator_id, is_empty_iff p.group_id, openness)

-- Exactly who counts as an owner: whoever writes in the bot's own chat, or a sender that the global
-- check trusts. A grant for one chat never makes its user an owner, and the reason names the list.
origin_for_post-is_owner :
    (client : Option Client) (p : Post) (h : Handler)
    → let origin = origin_for_post client p h in
      ((origin.is_owner ≡ true) ↔ (
        ((c : Client) × (client ≡ some c) × (is_bot_dm c p.group_id ≡ true))
        ⊎ (is_trusted_sender p.creator_id h ≡ true)))
      × ((origin.reason ≡ codes "chat_user_allow")
          ↔ ((origin.is_owner ≡ false) × (is_chat_user_allowed p.group_id p.creator_id h ≡ true)))
      × (origin.sender_id ≡ p.creator_id)
unfolding origin_for_post is_bot_dm_of
origin_for_post-is_owner none p h = (ground arith, ground arith, ground arith)
origin_for_post-is_owner (some client) p h = (
  (
    λ e. elim (Bool-cases (is_bot_dm client p.group_id)) [
      | inl dm ↦ inl (client, refl, dm)
      | inr group ↦ inr (ground arith)
    ],
    λ e. ground arith,
  ),
  ground arith,
  ground arith,
)
