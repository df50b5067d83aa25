-- ===== src/Messaging/Authorize/Effects.antt =====
-- What a mention does to the goroutines and the reservations.
use ringclaw.Prelude.{
  ℕ, ◌∙◌, ap, sym, ◌≡◌, ◌⊎◌, inl, inr, refl, true, false, not, ◌&&◌, ◌||◌, Bool-cases, Option-cases,
  Option, some, ◌∷◌, arith, if◌then◌else◌, get_elem?,
}
use ringclaw.Prelude.Text.{Text, text_eq, trim_space, is_empty}
use ringclaw.Prelude.Assoc.{insert, remove, flag}
use ringclaw.Prelude.Time.{Time}
use ringclaw.Oob.Challenge.{Challenge, Manager, Issued, ok, fail, issue}
use ringclaw.Oob.Challenge.Issuing.{issue-found}
use ringclaw.Ringcentral.{Client, Post}
use ringclaw.Messaging.{Waiter, Handler}
use ringclaw.Messaging.Authorize.{
  authorize_pending_key, Outside, authorize_mention, in_authorize_cooldown, try_reserve_pending,
  owner_of, intent_of, options_of, proceed, request, ask, prompt, store_authorize_meta,
  release_pending, drop_authorize_meta,
}

-- The two fields that matter here.
abbrev pub SameWaits : Handler → Handler → Type 0
SameWaits g h = (g.waiting ≡ h.waiting) × (g.pending_authorize ≡ h.pending_authorize)

-- The challenge that the goroutine waits on was issued for its user and its chat.
abbrev pub Asked : Waiter → Manager → Type 0
Asked w mgr =
    (c : Challenge) × (get_elem? mgr.heap w.challenge ≡ some c)
    × (c.requester_id ≡ w.user_id)
    × (c.origin_chat_id ≡ w.chat_id)

abbrev pub AskedIn : Waiter → Handler → Type 0
AskedIn w g = (mgr : Manager) → g.oob_manager ≡ some mgr → Asked w mgr

-- What a mention may do to them: nothing, open a request, or take back the reservation.
pub data Change (key : Text) (g h : Handler) : Type 0 where
  kept : SameWaits g h → Change key g h
  opened :
      (w : Waiter)
      → flag key h.pending_authorize ≡ false
      → w.key ≡ key
      → g.waiting ≡ w ∷ h.waiting
      → g.pending_authorize ≡ insert key true h.pending_authorize
      → AskedIn w g
      → Change key g h
  reverted :
      flag key h.pending_authorize ≡ false
      → g.waiting ≡ h.waiting
      → g.pending_authorize ≡ remove key (insert key true h.pending_authorize)
      → Change key g h

data Requested (key : Text) (g h : Handler) : Type 0 where
  accepted :
      (w : Waiter)
      → w.key ≡ key
      → g.waiting ≡ w ∷ h.waiting
      → g.pending_authorize ≡ h.pending_authorize
      → AskedIn w g
      → Requested key g h
  withdrawn :
      g.waiting ≡ h.waiting
      → g.pending_authorize ≡ remove key h.pending_authorize
      → Requested key g h

prompt-Requested :
    (o : Outside) (read : Option Client) (post : Post) (key : Text) (a : ℕ) (mgr : Manager)
    (c : Challenge) (h : Handler)
    → get_elem? mgr.heap a ≡ some c
    → c.requester_id ≡ post.creator_id
    → c.origin_chat_id ≡ post.group_id
    → Requested key (prompt o read post key a c.id (record h { oob_manager = some mgr })) h
unfolding prompt release_pending store_authorize_meta drop_authorize_meta
prompt-Requested o read post key a mgr c h at who place = elim (Bool-cases o.posted) [
  | inl sent ↦
      accepted
        (record {
          challenge = a;
          challenge_id = c.id;
          chat_id = post.group_id;
          user_id = post.creator_id;
          key = key;
        })
        refl (ground arith) (ground arith) (λ mgr' on. (c, ground arith, who, place))
  | inr lost ↦ withdrawn (ground arith) (ground arith)
]

proceed-Requested :
    (o : Outside) (read : Option Client) (post : Post) (key : Text) (r : Manager × Issued)
    (h : Handler)
    → ((a : ℕ)
        → r.1 ≡ ok a
        → (c : Challenge) × (get_elem? r.0.heap a ≡ some c)
          × (c.requester_id ≡ post.creator_id)
          × (c.origin_chat_id ≡ post.group_id))
    → Requested key (proceed o read post key r h) h
unfolding proceed release_pending
proceed-Requested o read post key (mgr, fail err) h found = withdrawn refl refl
proceed-Requested o read post key (mgr, ok a) h found =
    let (c, at, who, place) = found a refl in
    rw (proceed, at) (prompt-Requested o read post key a mgr c h at who place)

request-Requested :
    (o : Outside) (read : Option Client) (post : Post) (key : Text) (mgr : Manager) (h : Handler)
    → Requested key (request o read post key mgr h) h
unfolding request
request-Requested o read post key mgr h =
    let r =
      issue o.random post.creator_id (intent_of post) post.group_id h.owner_dm_chat_id
        (options_of read) mgr in
    proceed-Requested o read post key r h (
      issue-found o.random post.creator_id (intent_of post) post.group_id h.owner_dm_chat_id
        (options_of read) mgr)

Requested-Change :
    (key : Text) (g r h : Handler)
    → flag key h.pending_authorize ≡ false
    → r.waiting ≡ h.waiting
    → r.pending_authorize ≡ insert key true h.pending_authorize
    → Requested key g r
    → Change key g h
Requested-Change key g r h free a b (accepted w named c d asked) =
    opened w free named (cc (a, c)) (cc (b, d)) asked
Requested-Change key g r h free a b (withdrawn c d) =
    reverted free (cc (a, c)) (d ∙ ap (remove key) b)

in_authorize_cooldown_same :
    (now : Time) (key : Text) (h : Handler) → SameWaits (in_authorize_cooldown now key h).0 h
unfolding in_authorize_cooldown
in_authorize_cooldown_same now key h = ground arith

reserve-Change :
    (o : Outside) (read : Option Client) (post : Post) (key : Text) (mgr : Manager) (s h : Handler)
    → SameWaits s h
    → Change key
        (let (reserved, mine) = try_reserve_pending key s in
          if mine then request o read post key mgr reserved else reserved)
        h
unfolding try_reserve_pending
reserve-Change o read post key mgr s h (a, b) = elim (Bool-cases (flag key s.pending_authorize)) [
  | inl taken ↦ rw taken (kept (a, b))
  | inr free ↦
      let r = record s { pending_authorize = insert key true s.pending_authorize } in
      rw free (
        Requested-Change key (request o read post key mgr r) r h (rw (sym b) free) a
          (ap (insert key true) b) (request-Requested o read post key mgr r))
]

pub ask-Change :
    (o : Outside) (read : Option Client) (post : Post) (key : Text) (mgr : Manager) (h : Handler)
    → Change key (ask o read post key mgr h) h
unfolding ask
ask-Change o read post key mgr h =
    let same = in_authorize_cooldown_same mgr.now key h in
    let swept = (in_authorize_cooldown mgr.now key h).0 in
    elim (Bool-cases (in_authorize_cooldown mgr.now key h).1) [
      | inl silent ↦ rw silent (kept same)
      | inr heard ↦ rw heard (reserve-Change o read post key mgr swept h same)
    ]

-- A mention is refused at once, or goes on to the cooldown.
pub authorize_mention_cases :
    (o : Outside) (read : Option Client) (post : Post) (h : Handler)
    → (authorize_mention o read post h ≡ h)
      ⊎ ((mgr : Manager) × (h.oob_manager ≡ some mgr)
          × (authorize_mention o read post h
              ≡ ask o read post (authorize_pending_key post.group_id post.creator_id) mgr h))
unfolding authorize_mention
authorize_mention_cases o read post h = elim (Option-cases h.oob_manager) [
  | inl off ↦ inl (ground arith)
  | inr (mgr, on) ↦
      elim (Bool-cases (
        is_empty h.owner_dm_chat_id
        || is_empty (trim_space post.group_id)
        || is_empty (trim_space post.creator_id)
        || (not (is_empty (trim_space (owner_of read)))
            && text_eq (trim_space (owner_of read)) (trim_space post.creator_id)))) [
              | inl bad ↦ inl (ground arith)
              | inr good ↦ inr (mgr, on, ground arith)
            ]
]
