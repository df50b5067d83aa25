-- ===== src/Messaging/Actions/Approved/Tests.antt =====
-- The approval of an action in another chat, checked.
use ringclaw.Prelude.{◌≡◌, refl, true, none, some, List, [], ◌∷◌, ◌⊎◌}
use ringclaw.Prelude.Text.{codes, text_eq, trim_space, trim_left, trim_right, is_space}
use ringclaw.Prelude.Assoc.{lookup, insert, remove}
use ringclaw.Oob.Challenge
use ringclaw.Oob.Challenge.{
  Manager, Call, issues, approves, pass, wakes, by_result, wait, default_challenge_ttl,
}
use ringclaw.Oob.Challenge.Approval.{ApprovedIn}
use ringclaw.Oob.Reply.{new_challenge_id}
use ringclaw.Messaging.Actions.{Pending, Outside, Effect, Board, sent_message, kind_of, effect}
use ringclaw.Messaging.Actions.Approved.{
  await_cross_chat_oob, settled, settle, carry_out, approve_message, call_approved,
}
use ringclaw.Messaging.Actions.Approved.Safety.{Writes, await_cross_chat_oob-ApprovedIn}

abbrev calls : List Call
calls =
    issues (some (1 ∷ 2 ∷ 3 ∷ 4 ∷ [])) (codes "1") (codes "cross-chat") (codes "here") (codes "dm")
      (record { ttl = default_challenge_ttl; owner_id = codes "9" })
    ∷ pass 60
    ∷ approves (codes "01020304")
    ∷ []

abbrev held_action : Pending
held_action = record {
  challenge = 0;
  action = record { type = codes "MESSAGE"; params = []; body = codes "hello" };
  target = codes "there";
}

abbrev answers : Outside
answers = record {
  resolve_chat = λ s. some s;
  resolve_assignee = λ _. none;
  delivered = true;
  accepted = true;
  valid_json = true;
  random = none;
  posted = true;
}

abbrev board : Manager → List Effect → Board
board m effects = record { challenges = m; waiting = []; effects = effects; results = [] }

behind : Manager
behind = Challenge.run (wakes 0 by_result ∷ []) (Challenge.run calls (Challenge.new 5))

carried_out :
    await_cross_chat_oob held_action answers by_result
      (board (Challenge.run calls (Challenge.new 5)) [])
    ≡ some (board behind (sent_message (codes "there") (codes "hello") ∷ []))
unfolding await_cross_chat_oob settled settle carry_out approve_message call_approved kind_of effect
    behind Challenge.run Challenge.step Challenge.new wait new_challenge_id trim_space trim_left
    trim_right is_space lookup insert remove text_eq
carried_out = refl

await_cross_chat_oob-ApprovedIn_example :
    (◌≡◌ {A = List Effect} (sent_message (codes "there") (codes "hello") ∷ []) [])
    ⊎ (ApprovedIn 0 calls (Challenge.new 5)
        × Writes (codes "there") [] (sent_message (codes "there") (codes "hello") ∷ []))
await_cross_chat_oob-ApprovedIn_example =
    await_cross_chat_oob-ApprovedIn 5 calls held_action answers by_result
      (board (Challenge.run calls (Challenge.new 5)) [])
      (board behind (sent_message (codes "there") (codes "hello") ∷ [])) refl carried_out
