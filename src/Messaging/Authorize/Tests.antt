-- ===== src/Messaging/Authorize/Tests.antt =====
-- One request, from the mention to the grant.
use ringclaw.Prelude.{ℕ, ◌≡◌, refl, true, false, Option, none, some, List, [], ◌∷◌, ◌++◌, get_elem?}
use ringclaw.Prelude.Text.{codes, text_eq, trim_space}
use ringclaw.Prelude.Assoc.{lookup, insert, remove}
use ringclaw.Oob.Challenge
use ringclaw.Oob.Challenge.{Manager, by_result, by_deadline, Wake, Error, wait, Call}
use ringclaw.Ringcentral.{Post}
use ringclaw.Messaging.{Waiter, Handler}
use ringclaw.Oob.Reply.{new_challenge_id}
use ringclaw.Ringcentral.Monitor.{allow_in, is_allowed_in}
use ringclaw.Messaging.Senders.{add_chat_user_allow, is_chat_user_allowed}
use ringclaw.Messaging.Authorize.{
  authorize_pending_key, Outside, Event, mention, wakes, calls, authorize_mention, step, run,
}
use ringclaw.Messaging.Authorize.Pending.{OneEach, run-OneEach}
use ringclaw.Messaging.Authorize.Grants.{About, run_access-ApprovedBy}
use ringclaw.Messaging.Authorize.Trace.{ApprovedBy}
use ringclaw.Messaging.Authorize.Ownership.{OwnEach, run-OwnEach}

abbrev with_manager : Option Manager → Handler
with_manager mgr = record {
  allow_all_senders = false;
  trusted_senders = [];
  chat_user_allow = [];
  oob_manager = mgr;
  owner_dm_chat_id = codes "dm";
  persists = true;
  authorize_monitor = none;
  pending_authorize = [];
  authorize_meta = [];
  authorize_cooldown = [];
  waiting = [];
  persisted = [];
  notices = [];
}

abbrev handler : Handler
handler = with_manager (some (Challenge.new 5))

abbrev post : Post
post = record {
  id = codes "p";
  group_id = codes "g";
  type = codes "TextMessage";
  text = codes "hi";
  creator_id = codes "42";
  mentions = [];
  event_type = codes "PostAdded";
  parent_post_id = [];
  thread_id = [];
}

abbrev outside : Outside
outside = record {
  random = some (0 ∷ 255 ∷ 161 ∷ 178 ∷ []);
  meta = record { email = codes "a@b.c"; display_name = []; chat_name = [] };
  posted = true;
}

abbrev events : List Event
events =
    mention outside none post
    ∷ mention outside none post
    ∷ calls (Call.approves (codes "00ffa1b2"))
    ∷ wakes 0 by_result
    ∷ []

one_each : OneEach handler
unfolding lookup
one_each key = refl

run-OneEach_example : OneEach (run events handler)
run-OneEach_example = run-OneEach events handler one_each

-- A pair that was denied at time 5.
abbrev silenced : Handler
silenced = record handler {
  authorize_cooldown = (authorize_pending_key (codes "g") (codes "42"), 5) ∷ [];
}

-- The whole story: the second mention is a duplicate, and the approval is collected.
granted : is_chat_user_allowed (codes "g") (codes "42") (run events handler) ≡ true
unfolding run step Challenge.step Challenge.new Challenge.issue Challenge.approve Challenge.wait
    authorize_mention new_challenge_id is_chat_user_allowed allow_in is_allowed_in lookup insert
    remove text_eq trim_space authorize_pending_key add_chat_user_allow
granted = refl

run_access-ApprovedBy_example :
    (early : List Event) × (late : List Event) × (n : ℕ) × (wake : Wake) × (w : Waiter) × (events
      ≡ early ++ wakes n wake ∷ late)
    × (get_elem? (run early handler).waiting n ≡ some w)
    × About w (codes "g") (codes "42")
    × ApprovedBy w.challenge early handler
run_access-ApprovedBy_example =
    run_access-ApprovedBy 5 events handler (codes "g") (codes "42") refl
      (unfold is_chat_user_allowed is_allowed_in lookup in refl) granted

-- The same request, denied, and its waiter.
abbrev denied : Manager
denied =
    Challenge.run
      (Call.issues (some (0 ∷ 255 ∷ 161 ∷ 178 ∷ [])) (codes "42") (codes "authorize") (codes "g")
          (codes "dm") (record { ttl = Challenge.default_challenge_ttl; owner_id = [] })
        ∷ Call.denies (codes "00ffa1b2")
        ∷ [])
      (Challenge.new 5)

abbrev collected : Manager
collected = Challenge.step (Call.wakes 0 by_result) denied

abbrev waiter : Waiter
waiter = record {
  challenge = 0;
  challenge_id = codes "00ffa1b2";
  chat_id = codes "g";
  user_id = codes "42";
  key = codes "g|42";
}

told : wait 0 by_result denied ≡ some (collected, false, none)
unfolding Challenge.run Challenge.step Challenge.new Challenge.issue Challenge.wait Challenge.deny
    new_challenge_id lookup insert remove text_eq trim_space
told = refl

run-OwnEach_example : OwnEach (run events handler)
run-OwnEach_example = run-OwnEach events handler (Challenge.new 5, refl, tt)
