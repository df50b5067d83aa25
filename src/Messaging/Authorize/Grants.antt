-- ===== src/Messaging/Authorize/Grants.antt =====
-- Who gets access to a chat through the flow, and on what.
use ringclaw.Prelude.{
  ℕ, ◌∙◌, ap, sym, ◌≡◌, inl, inr, refl, Bool, true, false, Bool-cases, Option, none, some, List, [],
  ◌∷◌, ◌++◌, arith, get_elem?,
}
use ringclaw.Prelude.Text.{Text, text_eq_iff, trim_space}
use ringclaw.Prelude.Assoc.{Assoc}
use ringclaw.Prelude.Time.{Time}
use ringclaw.Oob.Challenge
use ringclaw.Oob.Challenge.{Manager, Error, challenge_expired, Wake, wait, Issued, ok, fail}
use ringclaw.Oob.Challenge.Approval.{wait-ApprovedIn}
use ringclaw.Ringcentral.{Client, Post}
use ringclaw.Ringcentral.Monitor.{allow_in, is_allowed_in}
use ringclaw.Ringcentral.Monitor.Allow.{is_allowed_in-allow_in}
use ringclaw.Messaging.{Waiter, Notice, expired, denied, authorized, Handler}
use ringclaw.Messaging.Senders.{add_chat_user_allow, is_chat_user_allowed}
use ringclaw.Messaging.Authorize.{
  authorize_pending_key, Outside, authorize_mention, in_authorize_cooldown, try_reserve_pending,
  proceed, request, ask, prompt, settle, finish, tell, identifier_of, commit, peek_authorize_meta,
  apply_authorize, record_authorize_cooldown, clear_authorize_cooldown, store_authorize_meta,
  release_pending, drop_authorize_meta, wake_at, Event, mention, wakes, calls, step, run,
}
use ringclaw.Messaging.Authorize.Effects.{authorize_mention_cases}
use ringclaw.Messaging.Authorize.Waking.{wake_at_cases}
use ringclaw.Messaging.Authorize.Trace.{ApprovedBy, run-Led}

tell_allow : (n : Notice) (h : Handler) → (tell n h).chat_user_allow ≡ h.chat_user_allow
unfolding tell
tell_allow n h = ground arith

ask_allow :
    (o : Outside) (read : Option Client) (post : Post) (key : Text) (mgr : Manager) (h : Handler)
    → (ask o read post key mgr h).chat_user_allow ≡ h.chat_user_allow
unfolding ask in_authorize_cooldown try_reserve_pending request proceed prompt release_pending
    store_authorize_meta drop_authorize_meta
ask_allow o read post key mgr h = ground arith

authorize_mention_allow :
    (o : Outside) (read : Option Client) (post : Post) (h : Handler)
    → (authorize_mention o read post h).chat_user_allow ≡ h.chat_user_allow
authorize_mention_allow o read post h = elim (authorize_mention_cases o read post h) [
  | inl same ↦ rw same refl
  | inr (mgr, on, asked) ↦
      rw asked (ask_allow o read post (authorize_pending_key post.group_id post.creator_id) mgr h)
]

-- The pair that a goroutine is about, as it is granted.
abbrev pub About : Waiter → Text → Text → Type 0
About w c u = (trim_space w.chat_id ≡ c) × (trim_space w.user_id ≡ u)

-- What a settled wait leaves of the per-chat allowlist.
abbrev allow_after : Waiter → Bool → Option Error → Assoc (Assoc Bool) → Assoc (Assoc Bool)
allow_after w approved (some err) allow = allow
allow_after w false none allow = allow
allow_after w true none allow = allow_in w.chat_id w.user_id allow

settle_allow :
    (w : Waiter) (now : Time) (approved : Bool) (err : Option Error) (h : Handler)
    → (settle w now approved err h).chat_user_allow ≡ allow_after w approved err h.chat_user_allow
unfolding settle apply_authorize commit add_chat_user_allow record_authorize_cooldown
    clear_authorize_cooldown
settle_allow w now approved (some challenge_expired) h =
    tell_allow (expired w.user_id w.chat_id) (record_authorize_cooldown now w.key h)
settle_allow w now approved (some _) h = refl
settle_allow w now false none h =
    tell_allow (denied w.user_id w.chat_id) (record_authorize_cooldown now w.key h)
settle_allow w now true none h =
    let cleared = clear_authorize_cooldown w.key h in
    let meta = peek_authorize_meta w.challenge_id cleared in
    tell_allow (authorized (identifier_of w.user_id meta) w.chat_id)
      (commit w.chat_id w.user_id meta cleared)

allow_after-About :
    (w : Waiter) (approved : Bool) (err : Option Error) (allow : Assoc (Assoc Bool)) (c u : Text)
    → is_allowed_in c u allow ≡ false
    → is_allowed_in c u (allow_after w approved err allow) ≡ true
    → About w c u × (approved ≡ true) × (err ≡ none)
allow_after-About w approved (some err) allow c u before after = absurd (cc (before, after))
allow_after-About w false none allow c u before after = absurd (cc (before, after))
allow_after-About w true none allow c u before after =
    let law = is_allowed_in-allow_in w.chat_id w.user_id c u allow in
    (
      (
        ground (arith, law, text_eq_iff (trim_space w.chat_id) c),
        ground (arith, law, text_eq_iff (trim_space w.user_id) u),
      ),
      refl,
      refl,
    )

-- What happens when a pair gains access: a goroutine about that pair is woken, and its wait reports
-- an approval.
abbrev pub GrantedBy : ℕ → Wake → Text → Text → Handler → Type 0
GrantedBy n wake c u h =
    (w : Waiter) × (mgr : Manager) × (mgr' : Manager) × (get_elem? h.waiting n ≡ some w)
    × About w c u
    × (h.oob_manager ≡ some mgr)
    × (wait w.challenge wake mgr ≡ some (mgr', true, none))

wake_at-GrantedBy :
    (n : ℕ) (wake : Wake) (h : Handler) (c u : Text)
    → is_chat_user_allowed c u h ≡ false
    → is_chat_user_allowed c u (wake_at n wake h) ≡ true
    → GrantedBy n wake c u h
unfolding is_chat_user_allowed finish release_pending drop_authorize_meta
wake_at-GrantedBy n wake h c u before after = elim (wake_at_cases n wake h) [
  | inl same ↦ absurd (cc (before, after, same))
  | inr (inl (w, at, e)) ↦
      absurd (cc (before, after, ap (λ (g : Handler). is_allowed_in c u g.chat_user_allow) e))
  | inr (inr (w, mgr, mgr', approved, err, at, on, over, e)) ↦
      let (about, won, fine) = allow_after-About w approved err h.chat_user_allow c u before (
        sym (
          ap (is_allowed_in c u) (
            ap (λ (g : Handler). g.chat_user_allow) e
            ∙ settle_allow w mgr'.now approved err (record h { oob_manager = some mgr' })))
        ∙ after) in
      (w, mgr, mgr', at, about, on, cc (over, won, fine))
]

step-GrantedBy :
    (e : Event) (h : Handler) (c u : Text)
    → is_chat_user_allowed c u h ≡ false
    → is_chat_user_allowed c u (step e h) ≡ true
    → (n : ℕ) × (wake : Wake) × (e ≡ wakes n wake) × GrantedBy n wake c u h
unfolding step is_chat_user_allowed
step-GrantedBy (mention o read post) h c u before after =
    absurd (cc (before, after, ap (is_allowed_in c u) (authorize_mention_allow o read post h)))
step-GrantedBy (wakes n wake) h c u before after =
    (n, wake, refl, wake_at-GrantedBy n wake h c u before after)
step-GrantedBy (calls call) h c u before after = absurd (cc (before, after))

-- The first moment at which a pair has access.
run-GrantedBy :
    (es : List Event) (h : Handler) (c u : Text)
    → is_chat_user_allowed c u h ≡ false
    → is_chat_user_allowed c u (run es h) ≡ true
    → (early : List Event) × (late : List Event) × (n : ℕ) × (wake : Wake) × (es
        ≡ early ++ wakes n wake ∷ late)
      × GrantedBy n wake c u (run early h)
unfolding run
run-GrantedBy [] h c u before after = absurd (cc (before, after))
run-GrantedBy (e ∷ es) h c u before after =
    elim (Bool-cases (is_chat_user_allowed c u (step e h))) [
      | inl now ↦
          let (n, wake, same, granted) = step-GrantedBy e h c u before now in
          ([], es, n, wake, ap (λ x. x ∷ es) same, granted)
      | inr later ↦
          let (early, late, n, wake, same, granted) = run-GrantedBy es (step e h) c u later after in
          (e ∷ early, late, n, wake, ap (λ x. e ∷ x) same, granted)
    ]

-- From a handler whose manager is new: if a user has access to a chat after any schedule of
-- mentions, waits and other calls, and had none before, then at some point of it a goroutine that
-- was opened for that user and that chat (spaces trimmed) was woken, and before that point the
-- challenge it waited on had been approved by its identifier, and not after its end.
pub run_access-ApprovedBy :
    (start : Time) (es : List Event) (h : Handler) (c u : Text)
    → h.oob_manager ≡ some (Challenge.new start)
    → is_chat_user_allowed c u h ≡ false
    → is_chat_user_allowed c u (run es h) ≡ true
    → (early : List Event) × (late : List Event) × (n : ℕ) × (wake : Wake) × (w : Waiter) × (es
        ≡ early ++ wakes n wake ∷ late)
      × (get_elem? (run early h).waiting n ≡ some w)
      × About w c u
      × ApprovedBy w.challenge early h
run_access-ApprovedBy start es h c u fresh before after =
    let (early, late, n, wake, same, granted) = run-GrantedBy es h c u before after in
    let (w, mgr, mgr', at, about, on, over) = granted in
    let (cs, led, why) = run-Led early h (Challenge.new start) fresh in
    let there : some mgr ≡ some (Challenge.run cs (Challenge.new start)) = sym on ∙ led in
    (
      early,
      late,
      n,
      wake,
      w,
      same,
      at,
      about,
      why w.challenge
          (wait-ApprovedIn start cs w.challenge wake mgr' {err = none} (cc (over, there))),
    )
