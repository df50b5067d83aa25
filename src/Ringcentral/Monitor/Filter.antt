-- ===== src/Ringcentral/Monitor/Filter.antt =====
-- Which posts the monitor dispatches, and which it hands to the authorization flow.
use mathlib.Core.Path.{subst}
use ringclaw.Prelude.{
  sym, ◌∙◌, ◌≡◌, ◌≢◌, ◌↔◌, ◌⊎◌, inl, inr, refl, Bool, true, false, not, ◌&&◌, Option-cases,
  Bool-cases, some, [], ◌∷◌, any, arith, if◌then◌else◌,
}
use ringclaw.Prelude.Text.{Text, codes, text_eq, text_eq_iff, is_empty, is_empty_iff}
use ringclaw.Prelude.Assoc.{Assoc, lookup, remove, flag, flag_in}
use ringclaw.Prelude.Time.{Time}
use ringclaw.Ringcentral.{is_bot_dm, Post}
use ringclaw.Ringcentral.Monitor.{
  Monitor, Frame, event_of, Outcome, ignored, authorize, dispatch, is_sent_post,
  is_chat_user_allowed, is_allowed_in, has_any_chat_user_allow, is_bot_mentioned, is_bot_message,
  sender_trusted, filter_sender, filter_post, handle_event, handle_ws_message,
}

-- The three sources of trust.
abbrev pub Trusted : Post → Monitor → Type 0
Trusted p m =
    ((m.allow_all_senders ≡ true) × (m.allowed_user_ids ≡ []))
    ⊎ (flag p.creator_id m.allowed_user_ids ≡ true)
    ⊎ ((p.group_id ≢ [])
        × (p.creator_id ≢ [])
        × (flag_in p.group_id p.creator_id m.chat_user_allow ≡ true))

-- The filters that do not look at the sender's trust.
pub record Passes (now : Time) (p : Post) (m : Monitor) : Type 0 where
  pub added : p.event_type ≡ codes "PostAdded"
  pub not_bot_text : is_bot_message p.text ≡ false
  pub not_own : (is_sent_post now p.id m).1 ≡ false
  pub is_text : p.type ≡ codes "TextMessage"
  pub in_chat : flag p.group_id m.allowed_chat_ids ≡ true
  pub not_self : (m.client.owner_id ≡ []) ⊎ (p.creator_id ≢ m.client.owner_id)

-- In a group chat of a monitor that asks for mentions, the bot is mentioned.
abbrev pub Addressed : Post → Monitor → Type 0
Addressed p m =
    (m.bot_mention_only ≡ false)
    ⊎ (is_bot_dm m.client p.group_id ≡ true)
    ⊎ (is_bot_mentioned p.mentions m ≡ true)

sender_trusted_iff : (p : Post) (m : Monitor) → (sender_trusted p m ≡ true) ↔ Trusted p m
unfolding sender_trusted is_chat_user_allowed is_allowed_in
sender_trusted_iff p m =
    ground
      (arith, is_empty_iff m.allowed_user_ids, is_empty_iff p.group_id, is_empty_iff p.creator_id)

flag-nonempty : (k : Text) (m : Assoc Bool) → flag k m ≡ true → is_empty m ≡ false
unfolding lookup
flag-nonempty k [] h = cc
flag-nonempty k (e ∷ m) h = refl

flag_in-any :
    (j k : Text) (m : Assoc (Assoc Bool))
    → flag_in j k m ≡ true
    → any (λ e. not (is_empty e.1)) m ≡ true
unfolding lookup
flag_in-any j k [] h = h
flag_in-any j k ((i, set) ∷ m) h = ground (arith, flag-nonempty k set, flag_in-any j k m)

-- A trusted sender is never caught by the test for empty allowlists.
Trusted-nonempty :
    (p : Post) (m : Monitor)
    → Trusted p m
    → (not m.allow_all_senders && is_empty m.allowed_user_ids && not (has_any_chat_user_allow m))
      ≡ false
unfolding has_any_chat_user_allow
Trusted-nonempty p m h = ground (
  arith,
  flag-nonempty p.creator_id m.allowed_user_ids,
  flag_in-any p.group_id p.creator_id m.chat_user_allow,
)

filter_sender-dispatch :
    (p q : Post) (m : Monitor)
    → (filter_sender p m ≡ dispatch q) ↔ ((p ≡ q) × (sender_trusted p m ≡ true) × Addressed p m)
unfolding filter_sender
filter_sender-dispatch p q m =
    (λ h. ground arith, λ h. ground (arith, Trusted-nonempty p m ((sender_trusted_iff p m).0 h.1)))

filter_sender-authorize :
    (p q : Post) (m : Monitor)
    → (filter_sender p m ≡ authorize q) ↔ (
        (p ≡ q)
        × (sender_trusted p m ≡ false)
        × (m.mention_authorize ≡ true)
        × (is_bot_dm m.client p.group_id ≡ false)
        × (is_bot_mentioned p.mentions m ≡ true)
        × ((not m.allow_all_senders
              && is_empty m.allowed_user_ids
              && not (has_any_chat_user_allow m))
            ≡ false))
unfolding filter_sender
filter_sender-authorize p q m = (λ h. ground arith, λ h. ground arith)

-- The filters before the sender's, in one test.
passes : Time → Post → Monitor → Bool
passes now p m =
    text_eq p.event_type (codes "PostAdded")
    && not (is_bot_message p.text)
    && not (is_sent_post now p.id m).1
    && text_eq p.type (codes "TextMessage")
    && flag p.group_id m.allowed_chat_ids
    && not (not (is_empty m.client.owner_id) && text_eq p.creator_id m.client.owner_id)

added_nonempty :
    (p : Post) → text_eq p.event_type (codes "PostAdded") ≡ true → is_empty p.event_type ≡ false
unfolding text_eq
added_nonempty p h = ground arith

-- The filters do not look at the posts that the bot sent.
forget_sent :
    (sent : Assoc Time) (p : Post) (m : Monitor)
    → filter_post p (record m { sent_posts = sent }) ≡ filter_post p m
unfolding filter_post filter_sender sender_trusted is_chat_user_allowed has_any_chat_user_allow
    is_bot_mentioned
forget_sent sent p m = refl

filter_post-is_sent_post :
    (now : Time) (id : Text) (p : Post) (m : Monitor)
    → filter_post p (is_sent_post now id m).0 ≡ filter_post p m
unfolding is_sent_post
filter_post-is_sent_post now id p m = ground (arith, forget_sent (remove id m.sent_posts) p m)

handle_event-outcome :
    (now : Time) (p : Post) (m : Monitor)
    → (handle_event now p m).1 ≡ (if passes now p m then filter_sender p m else ignored)
unfolding handle_event passes
handle_event-outcome now p m =
    rw filter_post-is_sent_post (unfold filter_post in ground (arith, added_nonempty p))

passes_iff : (now : Time) (p : Post) (m : Monitor) → (passes now p m ≡ true) ↔ Passes now p m
unfolding passes
passes_iff now p m = (
  λ h. record {
    added = ground (arith, text_eq_iff p.event_type (codes "PostAdded"));
    not_bot_text = ground arith;
    not_own = ground arith;
    is_text = ground (arith, text_eq_iff p.type (codes "TextMessage"));
    in_chat = ground arith;
    not_self =
        ground (arith, is_empty_iff m.client.owner_id, text_eq_iff p.creator_id m.client.owner_id);
  },
  λ h. ground (
    arith,
    text_eq_iff p.event_type (codes "PostAdded"),
    text_eq_iff p.type (codes "TextMessage"),
    is_empty_iff m.client.owner_id,
    text_eq_iff p.creator_id m.client.owner_id,
  ),
)

handled :
    (now : Time) (msg : Frame) (m : Monitor) (o : Outcome)
    → o ≢ ignored
    → ((handle_ws_message now msg m).1 ≡ o)
      ↔ ((p : Post) × (event_of msg ≡ some p) × (passes now p m ≡ true) × (filter_sender p m ≡ o))
unfolding handle_ws_message
handled now msg m o ne = elim (Option-cases (event_of msg)) [
  | inl e ↦ (λ h. absurd (ne (sym h ∙ ground arith)), λ h. ground arith)
  | inr (p, e) ↦ (
    λ h. (
      p,
      e,
      ground (arith, handle_event-outcome now p m, ne),
      ground (arith, handle_event-outcome now p m, ne),
    ),
    λ h. ground (arith, handle_event-outcome now p m, handle_event-outcome now h.0 m),
  )
]

-- A message reaches the agent exactly when it decodes to a post that passes every filter, its
-- sender is trusted (allow-all with no allowlist, or on the global list, or on the list of that
-- chat), and, where mentions are required, it is in the bot's own chat or mentions the bot.
pub handle_ws_message-dispatch :
    (now : Time) (msg : Frame) (m : Monitor) (p : Post)
    → ((handle_ws_message now msg m).1 ≡ dispatch p)
      ↔ ((event_of msg ≡ some p) × Passes now p m × Trusted p m × Addressed p m)
handle_ws_message-dispatch now msg m p = (
  λ h.
      let (q, e, through, sent) = (handled now msg m (dispatch p) (λ x. cc)).0 h in
      let (same, trusted, addressed) = (filter_sender-dispatch q p m).0 sent in
      subst (λ x. (event_of msg ≡ some x) × Passes now x m × Trusted x m × Addressed x m) same
        (e, (passes_iff now q m).0 through, (sender_trusted_iff q m).0 trusted, addressed),
  λ h. (handled now msg m (dispatch p) (λ x. cc)).1 (
    p,
    h.0,
    (passes_iff now p m).1 h.1,
    (filter_sender-dispatch p p m).1 (refl, (sender_trusted_iff p m).1 h.2, h.3),
  ),
)

-- The authorization flow gets exactly the posts that pass every filter, whose sender is not trusted,
-- and that mention the bot outside its own chat, while a callback is installed; with no allowlist at
-- all, a strict monitor gives it nothing.
handle_ws_message-authorize :
    (now : Time) (msg : Frame) (m : Monitor) (p : Post)
    → ((handle_ws_message now msg m).1 ≡ authorize p) ↔ (
        (event_of msg ≡ some p)
        × Passes now p m
        × ¬ Trusted p m
        × (m.mention_authorize ≡ true)
        × (is_bot_dm m.client p.group_id ≡ false)
        × (is_bot_mentioned p.mentions m ≡ true)
        × ((m.allow_all_senders ≡ true)
            ⊎ (is_empty m.allowed_user_ids ≡ false)
            ⊎ (has_any_chat_user_allow m ≡ true)))
handle_ws_message-authorize now msg m p = (
  λ h.
      let (q, e, through, sent) = (handled now msg m (authorize p) (λ x. cc)).0 h in
      let (same, distrusted, installed, group, mentioned, listed) =
        (filter_sender-authorize q p m).0 sent in
      subst
        (λ x.
          (event_of msg ≡ some x)
          × Passes now x m
          × ¬ Trusted x m
          × (m.mention_authorize ≡ true)
          × (is_bot_dm m.client x.group_id ≡ false)
          × (is_bot_mentioned x.mentions m ≡ true)
          × ((m.allow_all_senders ≡ true)
              ⊎ (is_empty m.allowed_user_ids ≡ false)
              ⊎ (has_any_chat_user_allow m ≡ true)))
        same
        (
          e,
          (passes_iff now q m).0 through,
          λ t. cc ((sender_trusted_iff q m).1 t),
          installed,
          group,
          mentioned,
          ground arith,
        ),
  λ h. (handled now msg m (authorize p) (λ x. cc)).1 (
    p,
    h.0,
    (passes_iff now p m).1 h.1,
    (filter_sender-authorize p p m).1 (refl, not_trusted h.2, h.3, h.4, h.5, ground arith),
  ),
)
  where
    not_trusted : ¬ Trusted p m → sender_trusted p m ≡ false
    not_trusted d = elim (Bool-cases (sender_trusted p m)) [
      | inl t ↦ absurd (d ((sender_trusted_iff p m).0 t))
      | inr f ↦ f
    ]
