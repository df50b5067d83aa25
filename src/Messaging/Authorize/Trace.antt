-- ===== src/Messaging/Authorize/Trace.antt =====
-- The calls on the challenges' manager that a schedule of the flow comes to.
use ringclaw.Prelude.{
  ℕ, ◌∙◌, ap, sym, ◌≡◌, ◌⊎◌, inl, inr, refl, Bool, true, false, Bool-cases, Option, none, some,
  List, [], ◌∷◌, ◌++◌, arith, if◌then◌else◌, get_elem?,
}
use ringclaw.Prelude.Text.{Text}
use ringclaw.Prelude.Assoc.{flag, insert}
use ringclaw.Prelude.Time.{Time}
use ringclaw.Oob.Challenge
use ringclaw.Oob.Challenge.{
  Challenge, Manager, Error, challenge_expired, Wake, wait, Issued, ok, fail, IssueOptions, issue,
  deny, Call, issues, denies,
}
use ringclaw.Oob.Challenge.Approval.{ApprovedIn, run-append, ApprovedIn-append}
use ringclaw.Oob.Challenge.Issuing.{issue-found, step-issues, step-denies, step-wakes}
use ringclaw.Ringcentral.{Client, Post}
use ringclaw.Messaging.{Waiter, Handler}
use ringclaw.Messaging.Senders.{add_chat_user_allow}
use ringclaw.Messaging.Authorize.{
  authorize_pending_key, Outside, authorize_mention, in_authorize_cooldown, try_reserve_pending,
  intent_of, options_of, proceed, request, ask, prompt, settle, finish, tell, commit,
  apply_authorize, record_authorize_cooldown, clear_authorize_cooldown, store_authorize_meta,
  release_pending, drop_authorize_meta, wake_at, Event, mention, wakes, calls, step, run,
}
use ringclaw.Messaging.Authorize.Effects.{authorize_mention_cases}
use ringclaw.Messaging.Authorize.Waking.{wake_at_cases}

-- The event is a call that approves the challenge in time.
abbrev pub ApprovesNow : ℕ → Event → Handler → Type 0
ApprovesNow a (mention o read post) h = ⊥
ApprovesNow a (wakes n wake) h = ⊥
ApprovesNow a (calls c) h = (mgr : Manager) × (h.oob_manager ≡ some mgr) × ApprovedIn a (c ∷ []) mgr

-- Somewhere in the schedule, an identifier that stands for the challenge is approved before the
-- challenge's end.
abbrev pub ApprovedBy : ℕ → List Event → Handler → Type 0
ApprovedBy a [] h = ⊥
ApprovedBy a (e ∷ es) h = ApprovesNow a e h ⊎ ApprovedBy a es (step e h)

-- The manager has gone through calls of which none approves a challenge.
abbrev Quietly : Manager → Handler → Type 0
Quietly mgr g =
    (cs : List Call) × (g.oob_manager ≡ some (Challenge.run cs mgr))
    × ((a : ℕ) → ¬ ApprovedIn a cs mgr)

settle_manager :
    (w : Waiter) (now : Time) (approved : Bool) (err : Option Error) (h : Handler)
    → (settle w now approved err h).oob_manager ≡ h.oob_manager
unfolding settle apply_authorize commit add_chat_user_allow tell record_authorize_cooldown
    clear_authorize_cooldown
settle_manager w now approved (some challenge_expired) h = ground arith
settle_manager w now approved (some _) h = refl
settle_manager w now false none h = ground arith
settle_manager w now true none h = ground arith

no_calls : (mgr : Manager) (g : Handler) → g.oob_manager ≡ some mgr → Quietly mgr g
unfolding Challenge.run
no_calls mgr g e = ([], e, λ a h. h)

prompt_manager :
    (o : Outside) (read : Option Client) (post : Post) (key : Text) (a : ℕ) (id : Text)
    (m : Manager) (h : Handler)
    → let g = prompt o read post key a id (record h { oob_manager = some m }) in
      (g.oob_manager ≡ some m) ⊎ (g.oob_manager ≡ some (deny id m).0)
unfolding prompt release_pending store_authorize_meta drop_authorize_meta
prompt_manager o read post key a id m h = elim (Bool-cases o.posted) [
  | inl sent ↦ inl (ground arith)
  | inr lost ↦ inr (ground arith)
]

proceed_manager :
    (o : Outside) (read : Option Client) (post : Post) (key : Text) (r : Manager × Issued)
    (h : Handler)
    → ((a : ℕ) → r.1 ≡ ok a → (c : Challenge) × (get_elem? r.0.heap a ≡ some c))
    → let g = proceed o read post key r h in
      (g.oob_manager ≡ some r.0) ⊎ ((id : Text) × (g.oob_manager ≡ some (deny id r.0).0))
unfolding proceed release_pending
proceed_manager o read post key (mgr, fail err) h found = inl refl
proceed_manager o read post key (mgr, ok a) h found =
    let (c, at) = found a refl in
    elim (prompt_manager o read post key a c.id mgr h) [
      | inl e ↦ rw (proceed, at) (inl e)
      | inr e ↦ rw (proceed, at) (inr (c.id, e))
    ]

request-Quietly :
    (o : Outside) (read : Option Client) (post : Post) (key : Text) (mgr : Manager) (h : Handler)
    → Quietly mgr (request o read post key mgr h)
unfolding request Challenge.run
request-Quietly o read post key mgr h =
    let r =
      issue o.random post.creator_id (intent_of post) post.group_id h.owner_dm_chat_id
        (options_of read) mgr in
    let first =
      issues o.random post.creator_id (intent_of post) post.group_id h.owner_dm_chat_id
        (options_of read) in
    let stepped =
      step-issues o.random post.creator_id (intent_of post) post.group_id h.owner_dm_chat_id
        (options_of read) mgr in
    elim (proceed_manager o read post key r h (λ a e.
      let (c, at, who, where_asked) =
        issue-found o.random post.creator_id (intent_of post) post.group_id h.owner_dm_chat_id
          (options_of read) mgr a e in
      (c, at))) [
        | inl e ↦ (first ∷ [], e ∙ ap some (sym stepped), λ a h. elim h [ inl x ↦ x | inr x ↦ x ])
        | inr (id, e) ↦ (
          first ∷ denies id ∷ [],
          e
              ∙ ap some (
                  sym
                    (step-denies id (Challenge.step first mgr) ∙ ap (λ m. (deny id m).0) stepped)),
          λ a h. elim h [ inl x ↦ x | inr (inl x) ↦ x | inr (inr x) ↦ x ],
        )
      ]

in_authorize_cooldown_manager :
    (now : Time) (key : Text) (h : Handler)
    → (in_authorize_cooldown now key h).0.oob_manager ≡ h.oob_manager
unfolding in_authorize_cooldown
in_authorize_cooldown_manager now key h = ground arith

reserve-Quietly :
    (o : Outside) (read : Option Client) (post : Post) (key : Text) (mgr : Manager) (s : Handler)
    → s.oob_manager ≡ some mgr
    → Quietly mgr (
        let (reserved, mine) = try_reserve_pending key s in
        if mine then request o read post key mgr reserved else reserved)
unfolding try_reserve_pending
reserve-Quietly o read post key mgr s on = elim (Bool-cases (flag key s.pending_authorize)) [
  | inl taken ↦ rw taken (no_calls mgr s on)
  | inr free ↦ rw free (
      request-Quietly o read post key mgr
        (record s { pending_authorize = insert key true s.pending_authorize }))
]

ask-Quietly :
    (o : Outside) (read : Option Client) (post : Post) (key : Text) (mgr : Manager) (h : Handler)
    → h.oob_manager ≡ some mgr
    → Quietly mgr (ask o read post key mgr h)
unfolding ask
ask-Quietly o read post key mgr h on =
    let swept = (in_authorize_cooldown mgr.now key h).0 in
    let same = in_authorize_cooldown_manager mgr.now key h ∙ on in
    elim (Bool-cases (in_authorize_cooldown mgr.now key h).1) [
      | inl silent ↦ rw silent (no_calls mgr swept same)
      | inr heard ↦ rw heard (reserve-Quietly o read post key mgr swept same)
    ]

authorize_mention-Quietly :
    (o : Outside) (read : Option Client) (post : Post) (h : Handler) (mgr : Manager)
    → h.oob_manager ≡ some mgr
    → Quietly mgr (authorize_mention o read post h)
authorize_mention-Quietly o read post h mgr on = elim (authorize_mention_cases o read post h) [
  | inl same ↦ rw same (no_calls mgr h on)
  | inr (mgr', on', asked) ↦
      let same : mgr' ≡ mgr = cc (on, on') in
      rw (asked, same)
        (ask-Quietly o read post (authorize_pending_key post.group_id post.creator_id) mgr h on)
]

wake_at-Quietly :
    (n : ℕ) (wake : Wake) (h : Handler) (mgr : Manager)
    → h.oob_manager ≡ some mgr
    → Quietly mgr (wake_at n wake h)
unfolding finish release_pending drop_authorize_meta Challenge.run
wake_at-Quietly n wake h mgr on = elim (wake_at_cases n wake h) [
  | inl same ↦ rw same (no_calls mgr h on)
  | inr (inl (w, at, e)) ↦ rw e ([], on, λ a h. h)
  | inr (inr (w, mgr0, mgr', approved, err, at, on', over, e)) ↦
      let same : mgr0 ≡ mgr = cc (on, on') in
      rw e (
        Call.wakes w.challenge wake ∷ [],
        settle_manager w mgr'.now approved err (record h { oob_manager = some mgr' })
            ∙ ap some (
                sym (
                  ap (Challenge.step (Call.wakes w.challenge wake)) (sym same)
                  ∙ step-wakes w.challenge wake mgr0 mgr' over)),
        λ a h. elim h [ inl x ↦ x | inr x ↦ x ],
      )
]

-- The manager after a schedule is what some calls make of the first one, and whichever challenge
-- they approve in time, an event of the schedule approves.
abbrev pub Led : List Event → Handler → Manager → Handler → Type 0
Led es h mgr g =
    (cs : List Call) × (g.oob_manager ≡ some (Challenge.run cs mgr))
    × ((a : ℕ) → ApprovedIn a cs mgr → ApprovedBy a es h)

pub step-Led :
    (e : Event) (h : Handler) (mgr : Manager)
    → h.oob_manager ≡ some mgr
    → Led (e ∷ []) h mgr (step e h)
unfolding step Challenge.run
step-Led (mention o read post) h mgr on =
    let (cs, e, quiet) = authorize_mention-Quietly o read post h mgr on in
    (cs, e, λ a p. absurd (quiet a p))
step-Led (wakes n wake) h mgr on =
    let (cs, e, quiet) = wake_at-Quietly n wake h mgr on in (cs, e, λ a p. absurd (quiet a p))
step-Led (calls c) h mgr on = (c ∷ [], rw on refl, λ a p. inl (mgr, on, p))

pub run-Led :
    (es : List Event) (h : Handler) (mgr : Manager)
    → h.oob_manager ≡ some mgr
    → Led es h mgr (run es h)
unfolding run Challenge.run
run-Led [] h mgr on = ([], on, λ a p. p)
run-Led (e ∷ es) h mgr on =
    let (cs, here, why) = step-Led e h mgr on in
    let (ds, later, why') = run-Led es (step e h) (Challenge.run cs mgr) here in
    (
      cs ++ ds,
      later ∙ ap some (sym (run-append cs ds mgr)),
      λ a p. elim (ApprovedIn-append cs ds mgr a p) [
        | inl x ↦ elim (why a x) [ inl y ↦ inl y | inr y ↦ absurd y ]
        | inr x ↦ inr (why' a x)
      ],
    )
