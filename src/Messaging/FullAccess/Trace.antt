-- ===== src/Messaging/FullAccess/Trace.antt =====
-- The calls on the challenges' manager that a schedule of the command comes to.
use ringclaw.Prelude.{
  ℕ, Bool, true, false, not, ◌||◌, Option, none, some, List, [], ◌∷◌, ◌++◌, get_elem?, if_intro,
  ◌≡◌, refl, sym, ap, ◌∙◌, ◌⊎◌, inl, inr, arith, Option-cases,
}
use ringclaw.Prelude.Text.{Text, codes, text_eq, trim_prefix, trim_space, to_lower, is_empty}
use ringclaw.Prelude.Time.{Duration}
use ringclaw.Oob.Challenge
use ringclaw.Oob.Challenge.{
  Manager, Error, challenge_expired, Issued, ok, fail, IssueOptions, issue, deny, Wake, wait,
  default_challenge_ttl, Call, issues,
}
use ringclaw.Oob.Challenge.Approval.{ApprovedIn, run-append, ApprovedIn-append}
use ringclaw.Oob.Challenge.Issuing.{step-issues, step-denies, step-wakes}
use ringclaw.Oob.FullAccess.{full_access_active}
use ringclaw.Messaging.FullAccess.{
  Waiter, Bot, reply, parse_grant_duration, Outside, intent, prompt, issued,
  start_full_access_grant, grant_for, format_full_access_status, subcommand, split_first_word,
  handle_full_access, settle, await_full_access_grant, drop_at, wake_at, Event, command, wakes,
  approves, denies, pass, reads, callback, fire, step, run,
}

-- The event is an approval of the challenge in time.
abbrev pub ApprovesNow : ℕ → Event → Bot → Type 0
ApprovesNow a (approves id) b = ApprovedIn a (Challenge.approves id ∷ []) b.challenges
ApprovesNow a _ b = ⊥

-- Somewhere in the schedule, an identifier that stands for the challenge is approved before the
-- challenge's end.
abbrev pub ApprovedBy : ℕ → List Event → Bot → Type 0
ApprovedBy a [] b = ⊥
ApprovedBy a (e ∷ es) b = ApprovesNow a e b ⊎ ApprovedBy a es (step e b)

-- The manager has gone through calls of which none approves a challenge.
abbrev Quietly : Manager → Bot → Type 0
Quietly m c =
    (cs : List Call) × (c.challenges ≡ Challenge.run cs m) × ((a : ℕ) → ¬ ApprovedIn a cs m)

-- How a grant that is asked for leaves the manager that has issued its challenge.
Settled : Manager → Bot → Type 0
Settled m c = (c.challenges ≡ m) ⊎ ((id : Text) × (c.challenges ≡ (deny id m).0))

issued-Settled :
    (o : Outside) (chat_id : Text) (dur : Duration) (r : Manager × Issued) (b : Bot)
    → Settled r.0 (issued o chat_id dur r b)
unfolding issued prompt reply Settled
issued-Settled o chat_id dur (m, fail err) b = inl refl
issued-Settled o chat_id dur (m, ok a) b =
    elim (get_elem? m.heap a)
      as (λ c. Settled m (elim c as (λ _. Bot) [
        | none ↦ record b { challenges = m }
        | some c ↦ prompt o a c.id chat_id dur (record b { challenges = m })
      ])) [
        | none ↦ inl refl
        | some c ↦ if_intro (Settled m) o.posted (λ _. inl refl) (λ _. inr (c.id, refl))
      ]

start-Quietly :
    (o : Outside) (chat_id requester_id : Text) (dur : Duration) (b : Bot)
    → Quietly b.challenges (start_full_access_grant o chat_id requester_id dur b)
unfolding start_full_access_grant Challenge.run Settled
start-Quietly o chat_id requester_id dur b =
    let opts : IssueOptions = record { ttl = default_challenge_ttl; owner_id = [] } in
    let first = issues o.random requester_id intent chat_id chat_id opts in
    let stepped = step-issues o.random requester_id intent chat_id chat_id opts b.challenges in
    elim (issued-Settled o chat_id dur
      (issue o.random requester_id intent chat_id chat_id opts b.challenges) b) [
        | inl e ↦ (first ∷ [], e ∙ sym stepped, λ a h. elim h [ inl x ↦ x | inr x ↦ x ])
        | inr (id, e) ↦ (
          first ∷ Challenge.denies id ∷ [],
          e
              ∙ sym (
                  step-denies id (Challenge.step first b.challenges)
                  ∙ ap (λ m. (deny id m).0) stepped),
          λ a h. elim h [ inl x ↦ x | inr (inl x) ↦ x | inr (inr x) ↦ x ],
        )
      ]

grant_for-Quietly :
    (o : Outside) (chat_id requester_id : Text) (d : Option Duration) (b : Bot)
    → Quietly b.challenges (grant_for o chat_id requester_id d b)
unfolding grant_for reply Challenge.run
grant_for-Quietly o chat_id requester_id none b = ([], refl, λ a h. h)
grant_for-Quietly o chat_id requester_id (some dur) b = start-Quietly o chat_id requester_id dur b

subcommand-Quietly :
    (o : Outside) (chat_id requester_id sub rest : Text) (b : Bot)
    → Quietly b.challenges (subcommand o chat_id requester_id sub rest b)
unfolding subcommand reply format_full_access_status Challenge.run
subcommand-Quietly o chat_id requester_id sub rest b =
    let Q = Quietly b.challenges in
    if_intro Q (is_empty sub || text_eq sub (codes "status"))
      (λ _.
        if_intro Q (full_access_active b.grant).1 (λ _. ([], refl, λ a h. h))
          (λ _. ([], refl, λ a h. h)))
      (λ _.
        if_intro Q
          (text_eq sub (codes "revoke") || text_eq sub (codes "off") || text_eq sub (codes "lock"))
          (λ _. ([], refl, λ a h. h))
          (λ _.
            if_intro Q
              (text_eq sub (codes "grant")
                || text_eq sub (codes "on")
                || text_eq sub (codes "unlock"))
              (λ _.
                grant_for-Quietly o chat_id requester_id
                  (parse_grant_duration o.parse_duration rest) b)
              (λ _. ([], refl, λ a h. h))))

handle-Quietly :
    (o : Outside) (chat_id requester_id text : Text) (b : Bot)
    → Quietly b.challenges (handle_full_access o chat_id requester_id text b)
unfolding handle_full_access reply Challenge.run
handle-Quietly o chat_id requester_id text b =
    let Q = Quietly b.challenges in
    if_intro Q (not b.configured) (λ _. ([], refl, λ a h. h))
      (λ _.
        if_intro Q (is_empty b.owner_dm_chat_id || not (text_eq chat_id b.owner_dm_chat_id))
          (λ _. ([], refl, λ a h. h))
          (λ _. subcommand-Quietly o chat_id requester_id (to_lower words.0) words.1 b))
  where
    words : Text × Text
    words = split_first_word (trim_space (trim_prefix (trim_space text) (codes "/full-access")))

settle_manager :
    (w : Waiter) (approved : Bool) (err : Option Error) (b : Bot)
    → (settle w approved err b).challenges ≡ b.challenges
unfolding settle reply
settle_manager w approved (some challenge_expired) b = refl
settle_manager w approved (some _) b = refl
settle_manager w false none b = refl
settle_manager w true none b = refl

-- What waking a goroutine comes to.
abbrev pub Woken : ℕ → Wake → Bot → Type 0
Woken n wake b =
    (wake_at n wake b ≡ b)
    ⊎ ((w : Waiter) × (m : Manager) × (approved : Bool) × (err : Option Error) × (get_elem?
            b.waiting n
          ≡ some w)
        × (wait w.challenge wake b.challenges ≡ some (m, approved, err))
        × (let c = settle w approved err (record b { challenges = m }) in
            wake_at n wake b ≡ record c { waiting = drop_at n c.waiting }))

pub wake_at-Woken : (n : ℕ) (wake : Wake) (b : Bot) → Woken n wake b
unfolding wake_at await_full_access_grant
wake_at-Woken n wake b = elim (Option-cases (get_elem? b.waiting n)) [
  | inl e ↦ inl (ground arith)
  | inr (w, e) ↦ elim (Option-cases (wait w.challenge wake b.challenges)) [
    | inl f ↦ inl (ground arith)
    | inr ((m, approved, err), f) ↦ inr (w, m, approved, err, e, f, ground arith)
  ]
]

wake_at-Quietly : (n : ℕ) (wake : Wake) (b : Bot) → Quietly b.challenges (wake_at n wake b)
unfolding Challenge.run
wake_at-Quietly n wake b = elim (wake_at-Woken n wake b) [
  | inl same ↦ rw same ([], refl, λ a h. h)
  | inr (w, m, approved, err, e, over, to) ↦ rw to (
    Challenge.wakes w.challenge wake ∷ [],
    settle_manager w approved err (record b { challenges = m })
        ∙ sym (step-wakes w.challenge wake b.challenges m over),
    λ a h. elim h [ inl x ↦ x | inr x ↦ x ],
  )
]

-- The manager after a schedule is what some calls make of the first one, and whichever challenge
-- they approve in time, an event of the schedule approves.
abbrev pub Led : List Event → Bot → Bot → Type 0
Led es b c =
    (cs : List Call) × (c.challenges ≡ Challenge.run cs b.challenges)
    × ((a : ℕ) → ApprovedIn a cs b.challenges → ApprovedBy a es b)

quiet-Led : (e : Event) (b : Bot) → Quietly b.challenges (step e b) → Led (e ∷ []) b (step e b)
quiet-Led e b (cs, to, quiet) = (cs, to, λ a p. absurd (quiet a p))

step-Led : (e : Event) (b : Bot) → Led (e ∷ []) b (step e b)
unfolding step Challenge.run
step-Led (command o chat_id requester_id text) b =
    quiet-Led (command o chat_id requester_id text) b (handle-Quietly o chat_id requester_id text b)
step-Led (wakes n wake) b = quiet-Led (wakes n wake) b (wake_at-Quietly n wake b)
step-Led (approves id) b = (Challenge.approves id ∷ [], refl, λ a p. inl p)
step-Led (denies id) b =
    quiet-Led (denies id) b
      (Challenge.denies id ∷ [], refl, λ a h. elim h [ inl x ↦ x | inr x ↦ x ])
step-Led (pass d) b =
    quiet-Led (pass d) b (Challenge.pass d ∷ [], refl, λ a h. elim h [ inl x ↦ x | inr x ↦ x ])
step-Led reads b = ([], refl, λ a p. absurd p)
step-Led callback b = ([], refl, λ a p. absurd p)
step-Led (fire id) b = ([], refl, λ a p. absurd p)

pub run-Led : (es : List Event) (b : Bot) → Led es b (run es b)
unfolding run Challenge.run step
run-Led [] b = ([], refl, λ a p. p)
run-Led (e ∷ es) b =
    let (cs, here, why) = step-Led e b in
    let (ds, later, why') = run-Led es (step e b) in
    (
      cs ++ ds,
      later ∙ ap (Challenge.run ds) here ∙ sym (run-append cs ds b.challenges),
      λ a p. elim (ApprovedIn-append cs ds b.challenges a p) [
        | inl x ↦ elim (why a x) [ inl y ↦ inl y | inr y ↦ absurd y ]
        | inr x ↦ inr (why' a (simp here x))
      ],
    )
