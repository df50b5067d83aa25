-- ===== src/Oob/Challenge/Effects.antt =====
-- What one call does to the challenge at one address.
use ringclaw.Prelude.{
  ℕ, ap, leb, ◌∙◌, ◌≤◌, ◌==◌, ◌≡◌, refl, true, false, Bool-cases, Option-cases, Option, none, some,
  List, [], ◌∷◌, ◌++◌, inl, inr, ◌⊎◌, length, get_elem?, get_elem?-set, get_elem?-append, arith,
  if◌then◌else◌,
}
use ringclaw.Prelude.Text.{Text, trim_space, is_empty}
use ringclaw.Prelude.Assoc.{lookup, insert}
use ringclaw.Prelude.Time.{after}
use ringclaw.Oob.Reply.{new_challenge_id}
use ringclaw.Oob.Challenge.{
  Error, Challenge, IssueOptions, Manager, Wake, by_context, by_deadline, by_result, Call, issues,
  approves, denies, wakes, pass, new_challenge, issue, approve, deny, wait, send_once, update_at,
  or_same, step,
}

-- The call approves the challenge at this address, by an identifier that names it and in time.
abbrev pub Approves : ℕ → Call → Manager → Type 0
Approves a (approves id) m =
    (c : Challenge) × (lookup id m.challenges ≡ some a)
    × (get_elem? m.heap a ≡ some c)
    × (m.now ≤ c.expires_at)
Approves a _ m = ⊥

pub data Effect (a : ℕ) (call : Call) (m : Manager) (c d : Challenge) : Type 0 where
  stay : d ≡ c → Effect a call m c d
  close : (err : Option Error) → d ≡ send_once false err c → Effect a call m c d
  confirm : Approves a call m → d ≡ send_once true none c → Effect a call m c d
  receive : call ≡ wakes a by_result → d ≡ record c { result_ch = none } → Effect a call m c d

abbrev Becomes : ℕ → Call → Manager → Challenge → Manager → Type 0
Becomes a call m c m' = (d : Challenge) × (get_elem? m'.heap a ≡ some d) × Effect a call m c d

get-update_at :
    (b a : ℕ) (f : Challenge → Challenge) (m : Manager) (c : Challenge)
    → get_elem? m.heap a ≡ some c
    → get_elem? (update_at b f m).heap a ≡ some (if b == a then f c else c)
unfolding update_at
get-update_at b a f m c h = elim (Option-cases (get_elem? m.heap b)) [
  | inl e ↦ ground arith
  | inr (c', e) ↦ ground (arith, get_elem?-set m.heap b a (f c'))
]

-- A call that touches the challenge at `b` by `f` and may then shrink the map.
touch :
    (b a : ℕ) (f : Challenge → Challenge) (call : Call) (m m' : Manager) (c : Challenge)
    → get_elem? m.heap a ≡ some c
    → m'.heap ≡ (update_at b f m).heap
    → (b ≡ a → Effect a call m c (f c))
    → Becomes a call m c m'
touch b a f call m m' c h e here = elim (Bool-cases (b == a)) [
  | inl same ↦ (f c, rw e (get-update_at b a f m c h ∙ rw same refl), here (ground arith))
  | inr other ↦ (c, rw e (get-update_at b a f m c h ∙ rw other refl), stay refl)
]

same_heap :
    (a : ℕ) (call : Call) (m m' : Manager) (c : Challenge)
    → get_elem? m.heap a ≡ some c
    → m'.heap ≡ m.heap
    → Becomes a call m c m'
same_heap a call m m' c h e = (c, rw e h, stay refl)

-- `Issue` fails and changes nothing, or adds one challenge and its entry.
pub issue_cases :
    (random : Option (List ℕ)) (r i o d : Text) (opts : IssueOptions) (m : Manager)
    → ((issue random r i o d opts m).0 ≡ m)
      ⊎ ((id : Text) × ((issue random r i o d opts m).0 ≡ record m {
        challenges = insert id (length m.heap) m.challenges;
        heap = m.heap ++ new_challenge id r i o d opts m.now ∷ [];
      }))
unfolding issue
issue_cases random r i o d opts m = elim (Bool-cases (is_empty (trim_space r))) [
  | inl bad ↦ inl (ground arith)
  | inr good ↦ elim (Bool-cases (is_empty (trim_space i))) [
    | inl bad ↦ inl (ground arith)
    | inr fine ↦ elim (Option-cases (new_challenge_id random)) [
      | inl e ↦ inl (ground arith)
      | inr (id, e) ↦ inr (id, ground arith)
    ]
  ]
]

module _ (a : ℕ) (m : Manager) (c : Challenge) (at : get_elem? m.heap a ≡ some c) where
  issue-Effect :
      (random : Option (List ℕ)) (r i o d : Text) (opts : IssueOptions)
      → Becomes a (issues random r i o d opts) m c (issue random r i o d opts m).0
  unfolding issue
  issue-Effect random r i o d opts = elim (Option-cases (new_challenge_id random)) [
    | inl e ↦ (c, ground arith, stay refl)
    | inr (id, e) ↦ (
      c,
      ground (arith, get_elem?-append m.heap (new_challenge id r i o d opts m.now ∷ []) a at),
      stay refl,
    )
  ]

  approve-Effect : (id : Text) → Becomes a (approves id) m c (approve id m).0
  unfolding approve
  approve-Effect id = elim (Option-cases (lookup id m.challenges)) [
    | inl e ↦ same_heap a (approves id) m (approve id m).0 c at (ground arith)
    | inr (b, e) ↦ elim (Option-cases (get_elem? m.heap b)) [
      | inl f ↦ same_heap a (approves id) m (approve id m).0 c at (ground arith)
      | inr (c', f) ↦ elim (Bool-cases (after m.now c'.expires_at)) [
        | inl late ↦
            touch b a (send_once false (some Error.challenge_expired)) (approves id) m
              (approve id m).0 c at (ground arith)
              (λ same. close (some Error.challenge_expired) refl)
        | inr timely ↦
            touch b a (send_once true none) (approves id) m (approve id m).0 c at (ground arith)
              (λ same. confirm (c', ground arith, ground arith, ground arith) refl)
      ]
    ]
  ]

  deny-Effect : (id : Text) → Becomes a (denies id) m c (deny id m).0
  unfolding deny
  deny-Effect id = elim (Option-cases (lookup id m.challenges)) [
    | inl e ↦ same_heap a (denies id) m (deny id m).0 c at (ground arith)
    | inr (b, e) ↦ elim (Option-cases (get_elem? m.heap b)) [
      | inl f ↦ same_heap a (denies id) m (deny id m).0 c at (ground arith)
      | inr (c', f) ↦
          touch b a (send_once false none) (denies id) m (deny id m).0 c at (ground arith)
            (λ same. close none refl)
    ]
  ]

  wait-Effect : (b : ℕ) (w : Wake) → Becomes a (wakes b w) m c (or_same m (wait b w m))
  unfolding wait
  wait-Effect b by_context = elim (Option-cases (get_elem? m.heap b)) [
    | inl f ↦ same_heap a _ m (or_same m (wait b by_context m)) c at (ground arith)
    | inr (c', f) ↦
        touch b a (send_once false (some Error.canceled)) (wakes b by_context) m
          (or_same m (wait b by_context m)) c at (ground arith)
          (λ same. close (some Error.canceled) refl)
  ]
  wait-Effect b by_deadline = elim (Option-cases (get_elem? m.heap b)) [
    | inl f ↦ same_heap a _ m (or_same m (wait b by_deadline m)) c at (ground arith)
    | inr (c', f) ↦ elim (Bool-cases (leb c'.expires_at m.now)) [
      | inl due ↦
          touch b a (send_once false (some Error.challenge_expired)) (wakes b by_deadline) m
            (or_same m (wait b by_deadline m)) c at (ground arith)
            (λ same. close (some Error.challenge_expired) refl)
      | inr early ↦ same_heap a _ m (or_same m (wait b by_deadline m)) c at (ground arith)
    ]
  ]
  wait-Effect b by_result = elim (Option-cases (get_elem? m.heap b)) [
    | inl f ↦ same_heap a _ m (or_same m (wait b by_result m)) c at (ground arith)
    | inr (c', f) ↦ elim (Option-cases c'.result_ch) [
      | inl g ↦ same_heap a _ m (or_same m (wait b by_result m)) c at (ground arith)
      | inr (r, g) ↦
          touch b a (λ d. record d { result_ch = none }) (wakes b by_result) m
            (or_same m (wait b by_result m)) c at (ground arith)
            (λ same. receive (ap (λ x. wakes x by_result) same) refl)
    ]
  ]

  -- Every call leaves the challenge, closes it once without approval, approves it once in time, or
  -- receives from its channel.
  pub step-Effect : (call : Call) → Becomes a call m c (step call m)
  unfolding step
  step-Effect (issues random r i o d opts) = issue-Effect random r i o d opts
  step-Effect (approves id) = approve-Effect id
  step-Effect (denies id) = deny-Effect id
  step-Effect (wakes b w) = wait-Effect b w
  step-Effect (pass d) = (c, at, stay refl)
