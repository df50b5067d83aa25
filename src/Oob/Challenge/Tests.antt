-- ===== src/Oob/Challenge/Tests.antt =====
-- One challenge's life, and the theorems at it.
use ringclaw.Prelude.{◌≡◌, refl, true, false, Option, none, some, List, [], ◌∷◌, get_elem?, arith}
use ringclaw.Prelude.Text.{Text, codes, text_eq, trim_space}
use ringclaw.Prelude.Assoc.{lookup, insert, remove}
use ringclaw.Prelude.Time.{pos}
use ringclaw.Oob.Reply.{new_challenge_id}
use ringclaw.Oob.Challenge.{
  Error, ChallengeResult, Challenge, IssueOptions, Manager, by_result, Call, issues, approves,
  denies, wakes, pass, new, new_challenge, approve, deny, wait, step, run, send_once,
}
use ringclaw.Oob.Challenge.Once.{first_result_wins}
use ringclaw.Oob.Challenge.Approval.{ApprovedIn, wait-ApprovedIn}
use ringclaw.Oob.Challenge.Removal.{approve_after_deny-reports_success}

abbrev options : IssueOptions
options = record { ttl = pos 100; owner_id = codes "7" }

abbrev asked : Call
asked =
    issues (some (0 ∷ 255 ∷ 161 ∷ 178 ∷ [])) (codes "42") (codes "full access") (codes "c1")
      (codes "dm") options

abbrev id : Text
id = codes "00ffa1b2"

abbrev challenge : Challenge
challenge = new_challenge id (codes "42") (codes "full access") (codes "c1") (codes "dm") options 5

abbrev waiting : Manager
waiting = run (asked ∷ pass 60 ∷ []) (new 5)

waiting_named : lookup id waiting.challenges ≡ some 0
unfolding run step new new_challenge_id trim_space lookup insert text_eq
waiting_named = refl

waiting_at : get_elem? waiting.heap 0 ≡ some challenge
unfolding run step new new_challenge_id trim_space insert text_eq
waiting_at = refl

waiting_now : waiting.now ≡ 65
unfolding run step new new_challenge_id trim_space insert text_eq
waiting_now = refl

-- The same, after its end.
abbrev late : Manager
late = run (asked ∷ pass 101 ∷ []) (new 5)

late_facts :
    (lookup id late.challenges ≡ some 0)
    × (get_elem? late.heap 0 ≡ some challenge)
    × (late.now ≡ 106)
unfolding run step new new_challenge_id trim_space lookup insert text_eq
late_facts = (refl, refl, refl)

approve_after_deny-reports_success_example :
    ((approve id (deny id waiting).0).1 ≡ true)
    × ((approve id (deny id waiting).0).2 ≡ none)
    × ((m' : Manager) × (wait 0 by_result (approve id (deny id waiting).0).0
          ≡ some (m', false, none)))
unfolding new_challenge
approve_after_deny-reports_success_example =
    approve_after_deny-reports_success id 0 waiting challenge waiting_named waiting_at refl
      (omega (arith, waiting_now))

-- Denied, then approved; the deadline comes before the waiter receives.
abbrev contested : List Call
contested = denies id ∷ approves id ∷ pass 1000 ∷ []

abbrev denied : ChallengeResult
denied = record { approved = false; err = none }

abbrev refused : Manager
refused = run (asked ∷ denies id ∷ []) (new 5)

received : Manager
received = run (asked ∷ denies id ∷ approves id ∷ pass 1000 ∷ wakes 0 by_result ∷ []) (new 5)

received_denial :
    wait 0 by_result (run (approves id ∷ pass 1000 ∷ []) refused) ≡ some (received, false, none)
unfolding received run step new new_challenge_id trim_space lookup insert remove text_eq
received_denial = refl

first_result_wins_example : (false ≡ denied.approved) × (◌≡◌ {A = Option Error} none denied.err)
first_result_wins_example =
    first_result_wins (approves id ∷ pass 1000 ∷ []) 0 refused received
      (send_once false none challenge) denied refused_at (unfold send_once new_challenge in refl)
      (unfold send_once new_challenge in refl) received_denial
  where
    refused_at : get_elem? refused.heap 0 ≡ some (send_once false none challenge)
    refused_at = unfold run step new new_challenge_id trim_space lookup insert text_eq in refl

abbrev approving : List Call
approving = asked ∷ pass 60 ∷ approves id ∷ []

confirmed : Manager
confirmed = run (asked ∷ pass 60 ∷ approves id ∷ wakes 0 by_result ∷ []) (new 5)

confirms : wait 0 by_result (run approving (new 5)) ≡ some (confirmed, true, none)
unfolding confirmed run step new new_challenge_id trim_space lookup insert remove text_eq
confirms = refl

wait-ApprovedIn_example : ApprovedIn 0 approving (new 5)
wait-ApprovedIn_example = wait-ApprovedIn 5 approving 0 by_result confirmed confirms
