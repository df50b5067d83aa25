-- ===== src/Messaging/Routing/Refusals.antt =====
-- What `HandleMessage` keeps from every agent.
use ringclaw.Prelude.{
  Bool, true, false, not, ◌&&◌, Option, some, [], ◌∷◌, is_some, if◌then◌else◌, if_intro, ◌≡◌, refl,
  sym, ap, ◌∙◌, arith,
}
use ringclaw.Prelude.Text.{Text, text_eq, text_eq_refl, is_empty, trim_space}
use ringclaw.Ringcentral.{is_bot_dm}
use ringclaw.Oob.Reply.{
  disabled_notice, reply_none, parse_approval_reply, handle_approval_reply-notice,
}
use ringclaw.Messaging.Senders.{accepts_sender}
use ringclaw.Messaging.Router.{
  Router, Incoming, enrich, text_of, mark_seen, Route, skipped_empty, duplicate, untrusted,
  approval_reply,
}
use ringclaw.Messaging.Routing.{
  outside_dm_notice, in_bot_dm, outside_dm, route_oob_approval_reply, or_else, route,
  handle_message,
}

-- No answer, and no work.
abbrev pub is_dropped : Route → Bool
is_dropped skipped_empty = true
is_dropped duplicate = true
is_dropped untrusted = true
is_dropped _ = false

-- What an approval is answered with in the chat of the message.
abbrev pub notice_of : Incoming → Text
notice_of m = if is_bot_dm m.client m.post.group_id then disabled_notice else outside_dm_notice

-- An approval's way: it is answered with the notice and nothing else, or it is dropped, as blank, as
-- a post that was handled before, or as one of a sender whom the handler does not accept.
abbrev pub is_consumed : Incoming → Router → Route → Bool
is_consumed m r (approval_reply (sent ∷ [])) = text_eq sent (notice_of m)
is_consumed m r skipped_empty = is_empty (trim_space m.post.text) && not m.has_audio
is_consumed m r duplicate = (mark_seen m.post.id r).1
is_consumed m r untrusted = not (accepts_sender m.post r.handler)
is_consumed m r _ = false

abbrev pub is_approval : Text → Bool
is_approval text = elim (parse_approval_reply text) [ reply_none ↦ false | _ ↦ true ]

mark_seen-handler : (id : Text) (r : Router) → (mark_seen id r).0.handler ≡ r.handler
unfolding mark_seen
mark_seen-handler id r = ground arith

-- What holds of the route behind the record of posts holds of every outcome, if it holds of the two
-- that come before.
handle_by_route :
    (P : Route → Bool) (m : Incoming) (r : Router)
    → (is_empty (trim_space m.post.text) && not m.has_audio ≡ true → P skipped_empty ≡ true)
    → ((mark_seen m.post.id r).1 ≡ true → P duplicate ≡ true)
    → ((s : Router) → s.handler ≡ r.handler → P (route s (enrich r m)) ≡ true)
    → P (handle_message m r).1 ≡ true
unfolding handle_message
handle_by_route P m r a b f =
    let Q = λ (o : Router × Route). P o.1 ≡ true in
    let (marked, loaded) = mark_seen m.post.id r in
    if_intro {x = (r, skipped_empty)}
      {y = if loaded then (marked, duplicate) else (marked, route marked (enrich r m))} Q
      (is_empty (trim_space m.post.text) && not m.has_audio) (λ e. a e)
      (λ _.
        if_intro {x = (marked, duplicate)} {y = (marked, route marked (enrich r m))} Q loaded
          (λ e. b e) (λ _. f marked (mark_seen-handler m.post.id r)))

-- Reading the thread changes nothing that the allowlists look at.
accepts_enrich :
    (m : Incoming) (r s : Router)
    → s.handler ≡ r.handler
    → accepts_sender (enrich r m).post s.handler ≡ accepts_sender m.post r.handler
unfolding accepts_sender enrich
accepts_enrich m r s e = ap (accepts_sender m.post) e

route-untrusted :
    (r : Router) (m : Incoming) → accepts_sender m.post r.handler ≡ false → route r m ≡ untrusted
unfolding route
route-untrusted r m h = rw h refl

-- A message whose author is on no allowlist, neither the global one nor the chat's, is dropped.
handle_message-untrusted :
    (m : Incoming) (r : Router)
    → accepts_sender m.post r.handler ≡ false
    → is_dropped (handle_message m r).1 ≡ true
handle_message-untrusted m r h =
    handle_by_route is_dropped m r (λ _. refl) (λ _. refl)
      (λ s e. ap is_dropped (route-untrusted s (enrich r m) (accepts_enrich m r s e ∙ h)))

answered_by : Incoming → Option Route → Bool
answered_by m (some (approval_reply (sent ∷ []))) = text_eq sent (notice_of m)
answered_by m _ = false

route_oob-answers :
    (r : Router) (m : Incoming) (text : Text)
    → is_some r.handler.oob_manager ≡ true
    → is_approval text ≡ true
    → answered_by m (route_oob_approval_reply r m text) ≡ true
unfolding route_oob_approval_reply answered_by in_bot_dm outside_dm
route_oob-answers r m text e h = ground (
  arith,
  handle_approval_reply-notice text,
  text_eq_refl disabled_notice,
  text_eq_refl outside_dm_notice,
)

-- Behind an answer, the rest of the chain is not asked.
or_else-answered :
    (m : Incoming) (r : Router) (a : Option Route) (b : Route)
    → answered_by m a ≡ true
    → is_consumed m r (or_else a b) ≡ true
unfolding answered_by
or_else-answered m r (some (approval_reply (sent ∷ []))) b h = h
or_else-answered m r _ b h = cc

route-approval :
    (r : Router) (m : Incoming) (P : Route → Bool)
    → (not (accepts_sender m.post r.handler) ≡ true → P untrusted ≡ true)
    → ((b : Route) → P (or_else (route_oob_approval_reply r m (text_of m)) b) ≡ true)
    → P (route r m) ≡ true
unfolding route
route-approval r m P u f =
    if_intro (λ a. P a ≡ true) (not (accepts_sender m.post r.handler)) (λ e. u e) (λ _. f _)

-- Where approvals are configured, a message that reads as an approval or a denial reaches no agent
-- and no command, in any chat and from anyone: the answer is the one notice that belongs to the
-- chat, unless the message is blank, was handled before, or comes from a sender whom the handler
-- does not accept, and is dropped for that.
pub handle_message-approval :
    (m : Incoming) (r : Router)
    → is_some r.handler.oob_manager ≡ true
    → is_approval (text_of m) ≡ true
    → is_consumed m r (handle_message m r).1 ≡ true
unfolding enrich text_of answered_by
handle_message-approval m r e h =
    handle_by_route (is_consumed m r) m r (λ b. b) (λ b. b)
      (λ s same.
        route-approval s (enrich r m) (is_consumed m r)
          (λ u. ap not (sym (accepts_enrich m r s same)) ∙ u)
          (λ b.
            or_else-answered m r (route_oob_approval_reply s (enrich r m) (text_of (enrich r m))) b
              (route_oob-answers s (enrich r m) (text_of (enrich r m))
                (ap (λ k. is_some k.oob_manager) same ∙ e) h)))
