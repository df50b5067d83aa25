-- ===== src/Messaging/Authorize/Commit.antt =====
-- What an approval writes.
use ringclaw.Prelude.{◌∙◌, ap, ◌≡◌, ◌≢◌, refl, Bool, true, some, [], ◌∷◌, arith, if◌then◌else◌}
use ringclaw.Prelude.Text.{Text, text_eq_refl, is_empty_iff, trim_space, is_empty}
use ringclaw.Prelude.Assoc.{Assoc}
use ringclaw.Ringcentral.Monitor
use ringclaw.Ringcentral.Monitor.{allow_in, is_allowed_in}
use ringclaw.Ringcentral.Monitor.Allow.{
  is_allowed_in-allow_in, is_chat_user_allowed-add_chat_user_allow,
}
use ringclaw.Messaging.{AuthorizeMeta, Notice, authorized, Handler}
use ringclaw.Messaging.Senders.{add_chat_user_allow, is_chat_user_allowed}
use ringclaw.Messaging.Authorize.{tell, identifier_of, commit, apply_authorize}

tell_granted :
    (n : Notice) (h : Handler)
    → ((tell n h).chat_user_allow ≡ h.chat_user_allow)
      × ((tell n h).authorize_monitor ≡ h.authorize_monitor)
      × ((tell n h).persisted ≡ h.persisted)
unfolding tell
tell_granted n h = ground arith

allow_in_self :
    (chat_id user_id : Text) (allow : Assoc (Assoc Bool))
    → trim_space chat_id ≢ []
    → trim_space user_id ≢ []
    → is_allowed_in (trim_space chat_id) (trim_space user_id) (allow_in chat_id user_id allow)
      ≡ true
allow_in_self chat_id user_id allow named known = ground (
  arith,
  is_allowed_in-allow_in chat_id user_id (trim_space chat_id) (trim_space user_id) allow,
  text_eq_refl (trim_space chat_id),
  text_eq_refl (trim_space user_id),
  is_empty_iff (trim_space chat_id),
  is_empty_iff (trim_space user_id),
)

added_self :
    (chat_id user_id : Text) (m : Monitor.Monitor)
    → trim_space chat_id ≢ []
    → trim_space user_id ≢ []
    → Monitor.is_chat_user_allowed
        (trim_space chat_id)
        (trim_space user_id)
        (Monitor.add_chat_user_allow chat_id user_id m)
      ≡ true
added_self chat_id user_id m named known = ground (
  arith,
  is_chat_user_allowed-add_chat_user_allow chat_id user_id (trim_space chat_id) (trim_space user_id)
      m,
  text_eq_refl (trim_space chat_id),
  text_eq_refl (trim_space user_id),
  is_empty_iff (trim_space chat_id),
  is_empty_iff (trim_space user_id),
)

-- What an approval does, on every list: the pair is allowed by the handler; if a monitor is
-- attached, its filter allows the pair too; and if a file is attached, exactly the chat with the
-- user's email, or the user's number if no email was found, is appended to it.
apply_authorize_grants :
    (chat_id user_id : Text) (meta : AuthorizeMeta) (h : Handler)
    → trim_space chat_id ≢ []
    → trim_space user_id ≢ []
    → let h' = apply_authorize chat_id user_id meta h in
      (is_chat_user_allowed (trim_space chat_id) (trim_space user_id) h' ≡ true)
      × ((m : Monitor.Monitor)
          → h.authorize_monitor ≡ some m
          → (m' : Monitor.Monitor) × (h'.authorize_monitor ≡ some m')
            × (Monitor.is_chat_user_allowed (trim_space chat_id) (trim_space user_id) m' ≡ true))
      × (h'.persisted ≡ (
          if h.persists
          then (chat_id, if is_empty meta.email then user_id else meta.email) ∷ h.persisted
          else h.persisted))
unfolding apply_authorize commit add_chat_user_allow is_chat_user_allowed
apply_authorize_grants chat_id user_id meta h named known =
    let (lists, monitors, files) =
      tell_granted (authorized (identifier_of user_id meta) chat_id)
        (commit chat_id user_id meta h) in
    (
      ap (is_allowed_in (trim_space chat_id) (trim_space user_id)) lists
          ∙ allow_in_self chat_id user_id h.chat_user_allow named known,
      λ m on. (
        Monitor.add_chat_user_allow chat_id user_id m,
        monitors ∙ rw on refl,
        added_self chat_id user_id m named known,
      ),
      files ∙ ground arith,
    )
