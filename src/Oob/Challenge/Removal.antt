-- ===== src/Oob/Challenge/Removal.antt =====
-- What the calls of a challenge report, and what they leave behind.
use ringclaw.Prelude.{
  ℕ, ◌≤◌, ◌<◌, ◌≡◌, ◌∙◌, refl, if◌then◌else◌, Bool, true, false, Option, none, some, get_elem?,
  get_elem?-set, arith,
}
use ringclaw.Prelude.Text.{Text, text_eq, text_eq_refl}
use ringclaw.Prelude.Assoc.{lookup, lookup-remove}
use ringclaw.Oob.Challenge.{
  remove_challenge, send_once, ChallengeResult, Error, challenge_not_found, challenge_expired,
  Challenge, Manager, Wake, by_context, by_deadline, by_result, approve, deny, wait, update_at,
}

wait-challenges :
    (a : ℕ) (w : Wake) (m m' : Manager) (c : Challenge) {approved : Bool} {err : Option Error}
    (id : Text)
    → get_elem? m.heap a ≡ some c
    → wait a w m ≡ some (m', approved, err)
    → lookup id m'.challenges ≡ (if text_eq c.id id then none else lookup id m.challenges)
unfolding wait
wait-challenges a by_context m m' c id at e = ground (arith, lookup-remove c.id id m.challenges)
wait-challenges a by_deadline m m' c id at e = ground (arith, lookup-remove c.id id m.challenges)
wait-challenges a by_result m m' c id at e = ground (arith, lookup-remove c.id id m.challenges)

approve-unknown :
    (id : Text) (m : Manager)
    → lookup id m.challenges ≡ none
    → approve id m ≡ (m, false, some challenge_not_found)
unfolding approve
approve-unknown id m e = ground arith

deny-unknown : (id : Text) (m : Manager) → lookup id m.challenges ≡ none → deny id m ≡ (m, false)
unfolding deny
deny-unknown id m e = ground arith

-- On whatever path a wait returns (answer, deadline, or context), its identifier is spent: approving
-- it fails with "not found" and changes nothing, denying it fails, and every other identifier leads
-- where it led before.
wait-spends_id :
    (a : ℕ) (w : Wake) (m m' : Manager) (c : Challenge) {approved : Bool} {err : Option Error}
    → get_elem? m.heap a ≡ some c
    → wait a w m ≡ some (m', approved, err)
    → (approve c.id m' ≡ (m', false, some challenge_not_found))
      × (deny c.id m' ≡ (m', false))
      × ((id : Text) → text_eq c.id id ≡ false → lookup id m'.challenges ≡ lookup id m.challenges)
wait-spends_id a w m m' c at e =
    let gone : lookup c.id m'.challenges ≡ none =
      wait-challenges a w m m' c c.id at e ∙ rw (text_eq_refl c.id) refl in
    (
      approve-unknown c.id m' gone,
      deny-unknown c.id m' gone,
      λ id other. wait-challenges a w m m' c id at e ∙ rw other refl,
    )

wait-result :
    (a : ℕ) (m : Manager) (c : Challenge) (r : ChallengeResult)
    → get_elem? m.heap a ≡ some c
    → c.result_ch ≡ some r
    → (m' : Manager) × (wait a by_result m ≡ some (m', r.approved, r.err))
unfolding wait
wait-result a m c r at held =
    (remove_challenge c.id (update_at a (λ d. record d { result_ch = none }) m), ground arith)

module _ (id : Text) (a : ℕ) (m : Manager) (c : Challenge) (named : lookup id m.challenges ≡ some a)
    (at : get_elem? m.heap a ≡ some c) (open_still : c.once ≡ false) where
  approved_at :
      m.now ≤ c.expires_at → get_elem? (approve id m).0.heap a ≡ some (send_once true none c)
  unfolding approve
  approved_at timely = ground (arith, get_elem?-set m.heap a a (send_once true none c))

  expired_at :
      c.expires_at < m.now
      → get_elem? (approve id m).0.heap a ≡ some (send_once false (some challenge_expired) c)
  unfolding approve
  expired_at late =
      ground (arith, get_elem?-set m.heap a a (send_once false (some challenge_expired) c))

  denied_at : get_elem? (deny id m).0.heap a ≡ some (send_once false none c)
  unfolding deny
  denied_at = ground (arith, get_elem?-set m.heap a a (send_once false none c))

  denied_unchanged : ((deny id m).0.now ≡ m.now) × ((deny id m).0.challenges ≡ m.challenges)
  unfolding deny
  denied_unchanged = ground arith

  -- An open challenge that is approved by its identifier before its end: the call reports
  -- success, and the waiter receives "approved" with no error.
  approve-wait :
      m.now ≤ c.expires_at
      → ((approve id m).1 ≡ true)
        × ((approve id m).2 ≡ none)
        × ((m' : Manager) × (wait a by_result (approve id m).0 ≡ some (m', true, none)))
  unfolding approve send_once
  approve-wait timely = (
    ground arith,
    ground arith,
    wait-result a (approve id m).0 (send_once true none c) (record { approved = true; err = none })
        (approved_at timely) (ground arith),
  )

  -- Approved after its end, the call reports "expired", and so does the waiter that receives.
  approve_late-wait :
      c.expires_at < m.now
      → ((approve id m).1 ≡ false)
        × ((approve id m).2 ≡ some challenge_expired)
        × ((m' : Manager) × (wait a by_result (approve id m).0
              ≡ some (m', false, some challenge_expired)))
  unfolding approve send_once
  approve_late-wait late = (
    ground arith,
    ground arith,
    wait-result a (approve id m).0 (send_once false (some challenge_expired) c)
        (record { approved = false; err = some challenge_expired }) (expired_at late)
        (ground arith),
  )

-- Approving a challenge that has resolved, and not expired, reports success and changes nothing
-- in it.
approve-resolved :
    (id : Text) (a : ℕ) (m : Manager) (c : Challenge)
    → lookup id m.challenges ≡ some a
    → get_elem? m.heap a ≡ some c
    → c.once ≡ true
    → m.now ≤ c.expires_at
    → ((approve id m).1 ≡ true)
      × ((approve id m).2 ≡ none)
      × (get_elem? (approve id m).0.heap a ≡ some c)
unfolding approve
approve-resolved id a m c named at spent timely =
    (ground arith, ground arith, ground (arith, get_elem?-set m.heap a a (send_once true none c)))

-- An open challenge is denied, and then approved in time, before its waiter has woken: the approval
-- is reported as a success, while the waiter still receives the denial.
pub approve_after_deny-reports_success :
    (id : Text) (a : ℕ) (m : Manager) (c : Challenge)
    → lookup id m.challenges ≡ some a
    → get_elem? m.heap a ≡ some c
    → c.once ≡ false
    → m.now ≤ c.expires_at
    → ((approve id (deny id m).0).1 ≡ true)
      × ((approve id (deny id m).0).2 ≡ none)
      × ((m' : Manager) × (wait a by_result (approve id (deny id m).0).0 ≡ some (m', false, none)))
unfolding send_once
approve_after_deny-reports_success id a m c named at fresh timely =
    let d = send_once false none c in
    let (same_now, same_map) = denied_unchanged id a m c named at fresh in
    let (yes', ok, kept) =
      approve-resolved id a (deny id m).0 d (same_map' same_map) (denied_at id a m c named at fresh)
        (ground arith) (ground arith) in
    (
      yes',
      ok,
      wait-result a (approve id (deny id m).0).0 d (record { approved = false; err = none }) kept
          (ground arith),
    )
  where
    same_map' :
        (deny id m).0.challenges ≡ m.challenges → lookup id (deny id m).0.challenges ≡ some a
    same_map' e = rw e named
