-- ===== src/Messaging/Routing/Owner.antt =====
-- The owner gate of `HandleMessage`.
use ringclaw.Prelude.{
  true, not, ◌||◌, Option, none, some, is_some, if◌then◌else◌, if_intro, ◌≡◌, refl, arith,
}
use ringclaw.Prelude.Text.{Text}
use ringclaw.Messaging.Commands.{is_privileged_command}
use ringclaw.Messaging.Router.{
  Router, Incoming, is_bot_group, by_owner, enrich, text_of, mark_seen, Route, refused,
}
use ringclaw.Messaging.Routing.{
  refusal, dispatch, or_else, route, handle_message, route_oob_approval_reply, in_bot_dm,
  outside_dm,
}
use ringclaw.Oob.Reply.{
  ApprovalReply, reply_none, reply_approve, reply_deny, parse_approval_reply, handle_approval_reply,
}
use ringclaw.Ringcentral.{is_bot_dm}
use ringclaw.Messaging.Senders.{accepts_sender}
use ringclaw.Messaging.Routing.Privileged.{is_privileged, Harmless, dispatch-Guarded}

refusal-none :
    (m : Incoming) (text : Text)
    → is_bot_group m || is_some m.private_app ≡ true
    → is_privileged_command text ≡ true
    → refusal m text ≡ none
    → by_owner m ≡ true
unfolding refusal
refusal-none m text g p e = ground arith

outside_dm-Harmless : (text : Text) (a : ApprovalReply) → Harmless text (outside_dm a)
unfolding outside_dm
outside_dm-Harmless text reply_none = tt
outside_dm-Harmless text (reply_approve id) = refl
outside_dm-Harmless text (reply_deny id) = refl

route_oob-Harmless :
    (r : Router) (m : Incoming) (text : Text) → Harmless text (route_oob_approval_reply r m text)
unfolding route_oob_approval_reply in_bot_dm
route_oob-Harmless r m text =
    elim (r.handler.oob_manager)
      as (λ o. Harmless text (elim o as (λ _. Option Route) [
        | none ↦ none
        | some _ ↦
            if is_bot_dm m.client m.post.group_id
            then in_bot_dm (handle_approval_reply text)
            else outside_dm (parse_approval_reply text)
      ])) [
        | none ↦ tt
        | some _ ↦
            if_intro (Harmless text) (is_bot_dm m.client m.post.group_id)
              (λ _. if_intro (Harmless text) (handle_approval_reply text).0 (λ _. refl) (λ _. tt))
              (λ _. outside_dm-Harmless text (parse_approval_reply text))
      ]

-- Behind the gate.
gate-owner :
    (r : Router) (m : Incoming) (text : Text) (o : Option Text)
    → refusal m text ≡ o
    → is_bot_group m || is_some m.private_app ≡ true
    → is_privileged text
        (elim o as (λ _. Route) [ some reason ↦ refused reason | none ↦ dispatch r m text ])
      ≡ true
    → by_owner m ≡ true
gate-owner r m text none e g h = refusal-none m text g (dispatch-Guarded r m text h) e
gate-owner r m text (some reason) e g h = cc

or_else-either :
    (text : Text) (a : Option Route) (b : Route)
    → Harmless text a
    → is_privileged text (or_else a b) ≡ true
    → is_privileged text b ≡ true
or_else-either text none b g h = h
or_else-either text (some a) b g h = cc

route-owner :
    (r : Router) (m : Incoming)
    → is_bot_group m || is_some m.private_app ≡ true
    → is_privileged (text_of m) (route r m) ≡ true
    → by_owner m ≡ true
unfolding route
route-owner r m g =
    if_intro (λ a. is_privileged (text_of m) a ≡ true → by_owner m ≡ true)
      (not (accepts_sender m.post r.handler)) (λ _ h. cc)
      (λ _ h.
        gate-owner r m (text_of m) _ refl g
          (or_else-either (text_of m) _ _ (route_oob-Harmless r m (text_of m)) h))

-- Where there is an owner to ask for (in a group chat of the bot, or with a Private App), a message
-- that is led to a privileged destination was written by that owner, whatever the message is. A
-- summary counts as privileged where the text is a summary command; one that only the default agent
-- makes out of another text does not, and is not behind this gate.
pub handle_message-owner :
    (m : Incoming) (r : Router)
    → is_bot_group m || is_some m.private_app ≡ true
    → is_privileged (text_of m) (handle_message m r).1 ≡ true
    → by_owner m ≡ true
unfolding handle_message enrich text_of
handle_message-owner m r g h = ground (arith, route-owner (mark_seen m.post.id r).0 (enrich r m) g)
