-- ===== src/Oob/Challenge/Issuing.antt =====
-- What a flow that asks the owner may use of the challenges' calls.
use ringclaw.Prelude.{
  ℕ, ◌≡◌, ◌∙◌, refl, [], ◌∷◌, inl, inr, Bool, Option-cases, Option, some, List, get_elem?,
  get_elem?-length, arith,
}
use ringclaw.Prelude.Text.{Text}
use ringclaw.Oob.Reply.{new_challenge_id}
use ringclaw.Oob.Challenge.Effects.{Effect, stay, close, confirm, receive, step-Effect}
use ringclaw.Oob.Challenge.{
  Call, Error, Challenge, IssueOptions, Manager, ok, new_challenge, issue, deny, Wake, wait, issues,
  denies, wakes, step, run, send_once,
}

-- The new challenge stands at the address that is returned, for that requester and chat.
pub issue-found :
    (random : Option (List ℕ)) (r i o d : Text) (opts : IssueOptions) (m : Manager) (a : ℕ)
    → (issue random r i o d opts m).1 ≡ ok a
    → (c : Challenge) × (get_elem? (issue random r i o d opts m).0.heap a ≡ some c)
      × (c.requester_id ≡ r)
      × (c.origin_chat_id ≡ o)
unfolding issue new_challenge
issue-found random r i o d opts m a e = elim (Option-cases (new_challenge_id random)) [
  | inl short ↦ absurd (ground arith)
  | inr (id, got) ↦
      let c = new_challenge id r i o d opts m.now in
      (c, ground (arith, get_elem?-length m.heap c), refl, refl)
]

pub step-issues :
    (random : Option (List ℕ)) (r i o d : Text) (opts : IssueOptions) (m : Manager)
    → step (issues random r i o d opts) m ≡ (issue random r i o d opts m).0
unfolding step
step-issues random r i o d opts m = refl

pub step-denies : (id : Text) (m : Manager) → step (denies id) m ≡ (deny id m).0
unfolding step
step-denies id m = refl

pub step-wakes :
    (a : ℕ) (w : Wake) (m m' : Manager) {approved : Bool} {err : Option Error}
    → wait a w m ≡ some (m', approved, err)
    → step (wakes a w) m ≡ m'
unfolding step
step-wakes a w m m' e = rw e refl

-- A challenge keeps its requester and its chat, whatever is called.
Effect-asked :
    (a : ℕ) (call : Call) (m : Manager) (c d : Challenge)
    → Effect a call m c d
    → (d.requester_id ≡ c.requester_id) × (d.origin_chat_id ≡ c.origin_chat_id)
unfolding send_once
Effect-asked a call m c d (stay e) = ground arith
Effect-asked a call m c d (close err e) = ground arith
Effect-asked a call m c d (confirm p e) = ground arith
Effect-asked a call m c d (receive p e) = ground arith

pub run_asked :
    (cs : List Call) (m : Manager) (a : ℕ) (c : Challenge)
    → get_elem? m.heap a ≡ some c
    → (d : Challenge) × (get_elem? (run cs m).heap a ≡ some d)
      × (d.requester_id ≡ c.requester_id)
      × (d.origin_chat_id ≡ c.origin_chat_id)
unfolding run
run_asked [] m a c at = (c, at, refl, refl)
run_asked (call ∷ cs) m a c at =
    let (d, at', e) = step-Effect a m c at call in
    let (who, place) = Effect-asked a call m c d e in
    let (d', at'', who', place') = run_asked cs (step call m) a d at' in
    (d', at'', who' ∙ who, place' ∙ place)
