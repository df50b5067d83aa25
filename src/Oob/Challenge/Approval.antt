-- ===== src/Oob/Challenge/Approval.antt =====
-- What an approval rests on.
use ringclaw.Prelude.{
  ℕ, ◌≡◌, ◌∙◌, refl, ◌⊎◌, inl, inr, Bool, true, false, Bool-cases, Option-cases, Option, none, some,
  List, [], ◌∷◌, ◌++◌, length, get_elem?, get_elem?-length, arith,
}
use ringclaw.Prelude.Text.{Text, text_eq, text_eq_iff}
use ringclaw.Prelude.Assoc.{lookup, lookup-insert, lookup-remove}
use ringclaw.Prelude.Time.{Time}
use ringclaw.Oob.Challenge.{
  Error, Challenge, Manager, Wake, by_context, by_deadline, by_result, Call, issues, approves,
  denies, wakes, pass, new, new_challenge, wait, send_once, step, run,
}
use ringclaw.Oob.Challenge.Effects.{
  Approves, Effect, stay, close, confirm, receive, step-Effect, issue_cases,
}
use ringclaw.Oob.Challenge.Once.{step-fresh}

-- Somewhere in the schedule, an identifier that stands for the challenge is approved before the
-- challenge's end.
abbrev pub ApprovedIn : ℕ → List Call → Manager → Type 0
ApprovedIn a [] m = ⊥
ApprovedIn a (call ∷ cs) m = Approves a call m ⊎ ApprovedIn a cs (step call m)

pub run-append : (cs ds : List Call) (m : Manager) → run (cs ++ ds) m ≡ run ds (run cs m)
unfolding run
run-append [] ds m = refl
run-append (c ∷ cs) ds m = run-append cs ds (step c m)

pub ApprovedIn-append :
    (cs ds : List Call) (m : Manager) (a : ℕ)
    → ApprovedIn a (cs ++ ds) m
    → ApprovedIn a cs m ⊎ ApprovedIn a ds (run cs m)
unfolding run
ApprovedIn-append [] ds m a p = inr p
ApprovedIn-append (c ∷ cs) ds m a (inl now) = inl (inl now)
ApprovedIn-append (c ∷ cs) ds m a (inr later) = elim (ApprovedIn-append cs ds (step c m) a later) [
  | inl x ↦ inl (inr x)
  | inr x ↦ inr x
]

abbrev holds_approval : Option Challenge → Bool
holds_approval none = false
holds_approval (some c) = elim c.result_ch [ none ↦ false | some r ↦ r.approved ]

Effect-holds_approval :
    (a : ℕ) (call : Call) (m : Manager) (c d : Challenge)
    → Effect a call m c d
    → holds_approval (some c) ≡ false
    → (holds_approval (some d) ≡ false) ⊎ Approves a call m
unfolding send_once
Effect-holds_approval a call m c d (stay e) h = inl (ground arith)
Effect-holds_approval a call m c d (close err e) h = inl (ground arith)
Effect-holds_approval a call m c d (confirm p e) h = inr p
Effect-holds_approval a call m c d (receive p e) h = inl (ground arith)

step-holds_approval :
    (a : ℕ) (call : Call) (m : Manager)
    → holds_approval (get_elem? m.heap a) ≡ false
    → (holds_approval (get_elem? (step call m).heap a) ≡ false) ⊎ Approves a call m
step-holds_approval a call m h = elim (Option-cases (get_elem? m.heap a)) [
  | inr (c, at) ↦
      let (d, at', e) = step-Effect a m c at call in
      elim (Effect-holds_approval a call m c d e (ground arith)) [
        | inl quiet ↦ inl (rw at' quiet)
        | inr p ↦ inr p
      ]
  | inl free ↦ inl (elim (Option-cases (get_elem? (step call m).heap a)) [
    | inl gone ↦ rw gone refl
    | inr (d, at') ↦ let (o, empty) = step-fresh call a m d free at' in rw at' (ground arith)
  ])
]

run-ApprovedIn :
    (cs : List Call) (a : ℕ) (m : Manager)
    → holds_approval (get_elem? m.heap a) ≡ false
    → holds_approval (get_elem? (run cs m).heap a) ≡ true
    → ApprovedIn a cs m
unfolding run
run-ApprovedIn [] a m no_yet now_yes = cc
run-ApprovedIn (call ∷ cs) a m no_yet now_yes = elim (step-holds_approval a call m no_yet) [
  | inr p ↦ inl p
  | inl quiet ↦ inr (run-ApprovedIn cs a (step call m) quiet now_yes)
]

wait-holds_approval :
    (a : ℕ) (w : Wake) (m m' : Manager) {err : Option Error}
    → wait a w m ≡ some (m', true, err)
    → holds_approval (get_elem? m.heap a) ≡ true
unfolding wait
wait-holds_approval a by_context m m' e = ground arith
wait-holds_approval a by_deadline m m' e = ground arith
wait-holds_approval a by_result m m' e = ground arith

-- Fail closed: from a fresh manager, after any calls, a wait reports "approved" only if `Approve`
-- was called among them with an identifier that stood for this very challenge, and no later than
-- the challenge's end.
pub wait-ApprovedIn :
    (start : Time) (cs : List Call) (a : ℕ) (w : Wake) (m' : Manager) {err : Option Error}
    → wait a w (run cs (new start)) ≡ some (m', true, err)
    → ApprovedIn a cs (new start)
wait-ApprovedIn start cs a w m' e =
    run-ApprovedIn cs a (new start) (unfold new in refl)
      (wait-holds_approval a w (run cs (new start)) m' e)

-- The map's entries.
abbrev pub IsNamed : Manager → Type 0
IsNamed m =
    (id : Text) (a : ℕ)
    → lookup id m.challenges ≡ some a
    → (c : Challenge) × (get_elem? m.heap a ≡ some c) × (c.id ≡ id)

Effect-id :
    (a : ℕ) (call : Call) (m : Manager) (c d : Challenge) → Effect a call m c d → d.id ≡ c.id
unfolding send_once
Effect-id a call m c d (stay e) = ground arith
Effect-id a call m c d (close err e) = ground arith
Effect-id a call m c d (confirm p e) = ground arith
Effect-id a call m c d (receive p e) = ground arith

-- A call adds no entry to the map but that of a new challenge.
step-lookup :
    (call : Call) (m : Manager) (id : Text) (a : ℕ)
    → lookup id (step call m).challenges ≡ some a
    → (lookup id m.challenges ≡ some a)
      ⊎ ((c : Challenge) × (get_elem? (step call m).heap a ≡ some c) × (c.id ≡ id))
unfolding step
step-lookup (issues random r i o dm opts) m id a e = elim (issue_cases random r i o dm opts m) [
  | inl same ↦ inl (ground arith)
  | inr (fresh, grown) ↦ elim (Bool-cases (text_eq fresh id)) [
    | inl named ↦
        let c = new_challenge fresh r i o dm opts m.now in
        inr (
          c,
          ground (
            arith,
            get_elem?-length m.heap c,
            lookup-insert fresh id (length m.heap) m.challenges,
          ),
          ground (arith, text_eq_iff fresh id),
        )
    | inr other ↦ inl (ground (arith, lookup-insert fresh id (length m.heap) m.challenges))
  ]
]
step-lookup (approves id') m id a e = inl (grind arith)
step-lookup (denies id') m id a e = inl (grind arith)
step-lookup (wakes b w) m id a e = inl (grind (arith, lookup-remove))
step-lookup (pass n) m id a e = inl e

step-IsNamed : (call : Call) (m : Manager) → IsNamed m → IsNamed (step call m)
step-IsNamed call m h id a e = elim (step-lookup call m id a e) [
  | inr issued ↦ issued
  | inl old ↦
      let (c, at, named) = h id a old in
      let (d, at', eff) = step-Effect a m c at call in (d, at', Effect-id a call m c d eff ∙ named)
]

run-IsNamed' : (cs : List Call) (m : Manager) → IsNamed m → IsNamed (run cs m)
unfolding run
run-IsNamed' [] m h = h
run-IsNamed' (call ∷ cs) m h = run-IsNamed' cs (step call m) (step-IsNamed call m h)

-- After any calls, an identifier of the manager's map leads to a challenge that was issued under
-- that very identifier: `/approval <id>` cannot reach another request.
run-IsNamed :
    (start : Time) (cs : List Call) (id : Text) (a : ℕ)
    → lookup id (run cs (new start)).challenges ≡ some a
    → (c : Challenge) × (get_elem? (run cs (new start)).heap a ≡ some c) × (c.id ≡ id)
run-IsNamed start cs id a =
    run-IsNamed' cs (new start) (unfold new in λ j b e. absurd (nothing_at j b e)) id a
  where
    nothing_at : (j : Text) (b : ℕ) → lookup j (new start).challenges ≡ some b → ⊥
    nothing_at j b e = unfold new lookup in cc
