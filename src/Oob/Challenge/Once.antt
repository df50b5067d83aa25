-- ===== src/Oob/Challenge/Once.antt =====
-- A challenge resolves once.
use mathlib.Core.Path.{subst}
use ringclaw.Prelude.{
  ℕ, zero, suc, ◌≡◌, ◌⊎◌, inl, inr, Bool, true, false, Option-cases, Option, none, some, List, [],
  ◌∷◌, ◌++◌, get_elem?, get_elem?-set, arith,
}
use ringclaw.Prelude.Time.{Time}
use ringclaw.Oob.Reply.{new_challenge_id}
use ringclaw.Oob.Challenge.{
  Error, ChallengeResult, Challenge, Manager, by_result, Call, issues, approves, denies, wakes,
  pass, new, new_challenge, wait, send_once, update_at, step, run,
}
use ringclaw.Oob.Challenge.Effects.{Effect, stay, close, confirm, receive, step-Effect}

-- The challenge at the address was resolved by `r`: the channel holds `r`, or it was received.
abbrev Resolved : ℕ → ChallengeResult → Manager → Type 0
Resolved a r m =
    (c : Challenge) × (get_elem? m.heap a ≡ some c)
    × (c.once ≡ true)
    × ((c.result_ch ≡ some r) ⊎ (c.result_ch ≡ none))

Effect-Resolved :
    (a : ℕ) (call : Call) (m : Manager) (c d : Challenge) (r : ChallengeResult)
    → Effect a call m c d
    → c.once ≡ true
    → (c.result_ch ≡ some r) ⊎ (c.result_ch ≡ none)
    → (d.once ≡ true) × ((d.result_ch ≡ some r) ⊎ (d.result_ch ≡ none))
unfolding send_once
Effect-Resolved a call m c d r (stay e) o h = ground arith
Effect-Resolved a call m c d r (close err e) o h = ground arith
Effect-Resolved a call m c d r (confirm p e) o h = ground arith
Effect-Resolved a call m c d r (receive p e) o h = ground arith

run-Resolved :
    (cs : List Call) (a : ℕ) (r : ChallengeResult) (m : Manager)
    → Resolved a r m
    → Resolved a r (run cs m)
unfolding run
run-Resolved [] a r m h = h
run-Resolved (call ∷ cs) a r m h =
    let (c, at, o, held) = h in
    let (d, at', e) = step-Effect a m c at call in
    let (o', held') = Effect-Resolved a call m c d r e o held in
    run-Resolved cs a r (step call m) (d, at', o', held')

wait_result :
    (a : ℕ) (r : ChallengeResult) (m m' : Manager) {approved : Bool} {err : Option Error}
    → Resolved a r m
    → wait a by_result m ≡ some (m', approved, err)
    → (approved ≡ r.approved) × (err ≡ r.err)
unfolding wait
wait_result a r m m' h e = let (c, at, o, held) = h in ground arith

-- The first resolution stands: once a challenge holds a result, whatever calls follow (approvals,
-- denials, expiries, waits, in any order), a waiter that receives gets that result.
pub first_result_wins :
    (cs : List Call) (a : ℕ) (m m' : Manager) (c : Challenge) (r : ChallengeResult)
    {approved : Bool} {err : Option Error}
    → get_elem? m.heap a ≡ some c
    → c.once ≡ true
    → c.result_ch ≡ some r
    → wait a by_result (run cs m) ≡ some (m', approved, err)
    → (approved ≡ r.approved) × (err ≡ r.err)
first_result_wins cs a m m' c r at o held e =
    wait_result a r (run cs m) m' (run-Resolved cs a r m (c, at, o, inl held)) e

-- The one send of a challenge finds its channel empty.
abbrev CanSend : Challenge → Type 0
CanSend c = c.once ≡ false → c.result_ch ≡ none

Effect-CanSend :
    (a : ℕ) (call : Call) (m : Manager) (c d : Challenge)
    → Effect a call m c d
    → CanSend c
    → CanSend d
unfolding send_once
Effect-CanSend a call m c d (stay e) h = ground arith
Effect-CanSend a call m c d (close err e) h = ground arith
Effect-CanSend a call m c d (confirm p e) h = ground arith
Effect-CanSend a call m c d (receive p e) h = ground arith

get-snoc :
    {A : Type 0} (xs : List A) (y : A) (a : ℕ) {d : A}
    → get_elem? xs a ≡ none
    → get_elem? (xs ++ y ∷ []) a ≡ some d
    → d ≡ y
get-snoc [] y zero h e = cc
get-snoc [] y (suc a) h e = cc
get-snoc (x ∷ xs) y zero h e = cc
get-snoc (x ∷ xs) y (suc a) h e = get-snoc xs y a h e

-- An address that was free holds a fresh challenge after a call, if it holds one at all.
pub step-fresh :
    (call : Call) (a : ℕ) (m : Manager) (d : Challenge)
    → get_elem? m.heap a ≡ none
    → get_elem? (step call m).heap a ≡ some d
    → (d.once ≡ false) × (d.result_ch ≡ none)
unfolding step update_at
step-fresh (issues random r i o dm opts) a m d free e =
    elim (Option-cases (new_challenge_id random)) [
      | inl f ↦ ground arith
      | inr (id, f) ↦
          ground (arith, get-snoc m.heap (new_challenge id r i o dm opts m.now) a {d = d})
    ]
step-fresh (approves id) a m d free e = grind (arith, get_elem?-set)
step-fresh (denies id) a m d free e = grind (arith, get_elem?-set)
step-fresh (wakes b w) a m d free e = grind (arith, get_elem?-set)
step-fresh (pass n) a m d free e = ground arith

AllCanSend : Manager → Type 0
AllCanSend m = (a : ℕ) (c : Challenge) → get_elem? m.heap a ≡ some c → CanSend c

step-AllCanSend : (call : Call) (m : Manager) → AllCanSend m → AllCanSend (step call m)
unfolding AllCanSend
step-AllCanSend call m h a d e = elim (Option-cases (get_elem? m.heap a)) [
  | inl free ↦ let (o, empty) = step-fresh call a m d free e in λ _. empty
  | inr (c, at) ↦
      let (d', at', eff) = step-Effect a m c at call in
      let same : d' ≡ d = cc in subst CanSend same (Effect-CanSend a call m c d' eff (h a c at))
]

run-AllCanSend : (cs : List Call) (m : Manager) → AllCanSend m → AllCanSend (run cs m)
unfolding run
run-AllCanSend [] m h = h
run-AllCanSend (call ∷ cs) m h = run-AllCanSend cs (step call m) (step-AllCanSend call m h)

-- In every state that calls lead to, a challenge that has not resolved yet has an empty channel: the
-- send of `resolve`, made under `once.Do`, never blocks.
resolve-never_blocks :
    (start : Time) (cs : List Call) (a : ℕ) (c : Challenge)
    → get_elem? (run cs (new start)).heap a ≡ some c
    → c.once ≡ false
    → c.result_ch ≡ none
unfolding AllCanSend
resolve-never_blocks start cs a c = run-AllCanSend cs (new start) (unfold new in λ b d e. cc) a c
