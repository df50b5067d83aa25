-- ===== src/Messaging/FullAccess/Tests.antt =====
-- The command /full-access, checked.
use ringclaw.Prelude.{
  ℕ, ◌+◌, ◌*◌, ◌≡◌, ◌<◌, refl, true, none, some, List, [], ◌∷◌, arith, get_elem?,
}
use ringclaw.Prelude.Text.{codes, text_eq, has_prefix, trim_prefix, trim_space, to_lower}
use ringclaw.Prelude.Assoc.{lookup, insert, remove}
use ringclaw.Prelude.Time.{pos, hour}
use ringclaw.Oob.Challenge
use ringclaw.Oob.Challenge.{Wake, by_result, issue, approve, wait, new_challenge}
use ringclaw.Oob.Reply.{new_challenge_id}
use ringclaw.Oob.FullAccess
use ringclaw.Oob.FullAccess.{grant_full_access, full_access_expires_at}
use ringclaw.Messaging.FullAccess.{
  Waiter, Bot, reply, parse_grant_duration, cap, checked, Outside, handle_full_access, subcommand,
  split_first_word, split_word, start_full_access_grant, grant_for, issued, prompt, settle,
  await_full_access_grant, drop_at, wake_at, Event, command, wakes, approves, pass, step, run,
  full_access_max_grant,
}
use ringclaw.Messaging.FullAccess.Bounds.{Limited, run-Limited}
use ringclaw.Messaging.FullAccess.Trace.{ApprovedBy}
use ringclaw.Messaging.FullAccess.Approval.{run-ApprovedBy}

abbrev bot : Bot
bot = record {
  configured = true;
  challenges = Challenge.new 100;
  grant = record {
    now = 100;
    full_access_until = 0;
    expiry_timer = none;
    revoke_hook = none;
    timers = [];
    next_timer = 0;
    callbacks = 0;
    launched = [];
  };
  owner_dm_chat_id = codes "dm";
  waiting = [];
  replies = [];
}

-- A year is asked for.
abbrev outside : Outside
outside = record {
  parse_duration = λ s. some (pos (365 * (24 * hour)));
  random = some (1 ∷ 2 ∷ 3 ∷ 4 ∷ []);
  posted = true;
}

abbrev events : List Event
events =
    command outside (codes "dm") (codes "1") (codes "/full-access grant 8760h")
    ∷ pass 50
    ∷ approves (codes "01020304")
    ∷ []

bot-Limited : Limited bot
bot-Limited = record { capped = omega arith; within = tt }

run-Limited_example : Limited (run events bot)
run-Limited_example = run-Limited events bot bot-Limited

until_is_capped :
    (step (wakes 0 by_result) (run events bot)).grant.full_access_until
    ≡ 150 + full_access_max_grant
unfolding run step Challenge.new Challenge.step FullAccess.step new_challenge_id trim_space lookup
    insert remove text_eq has_prefix trim_prefix to_lower issue approve wait new_challenge
    handle_full_access subcommand split_first_word split_word grant_for start_full_access_grant
    issued prompt reply parse_grant_duration cap checked settle await_full_access_grant drop_at
    wake_at grant_full_access full_access_expires_at
until_is_capped = refl

opens :
    (run events bot).grant.full_access_until
    < (step (wakes 0 by_result) (run events bot)).grant.full_access_until
unfolding run step FullAccess.step text_eq to_lower trim_prefix parse_grant_duration issue
    new_challenge_id Challenge.new
opens = omega (arith, before, until_is_capped)
  where
    before : (run events bot).grant.full_access_until ≡ 0
    before = refl

run-ApprovedBy_example :
    (n : ℕ) × (wake : Wake) × (w : Waiter) × (wakes 0 by_result ≡ wakes n wake)
    × (get_elem? (run events bot).waiting n ≡ some w)
    × ApprovedBy w.challenge events bot
run-ApprovedBy_example = run-ApprovedBy events (wakes 0 by_result) bot 100 refl opens
