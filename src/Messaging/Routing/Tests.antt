-- ===== src/Messaging/Routing/Tests.antt =====
-- Routing and commands, checked.
use ringclaw.Prelude.{◌≡◌, refl, true, false, none, some, List, [], ◌∷◌, ◌*◌, ◌||◌, arith, Option}
use ringclaw.Prelude.Text.{
  Text, codes, text_eq, has_prefix, trim_prefix, trim_space, to_lower, equal_fold,
}
use ringclaw.Prelude.Assoc.{lookup, insert}
use ringclaw.Prelude.Time.{minute}
use ringclaw.Oob.Challenge.{Manager}
use ringclaw.Oob.Reply.{parse_approval_reply, parse_arguments, split_first_field, is_challenge_id}
use ringclaw.Ringcentral.{is_bot_dm}
use ringclaw.Ringcentral.Monitor.{is_allowed_in}
use ringclaw.Messaging.{Handler}
use ringclaw.Messaging.Senders.{accepts_sender, is_chat_user_allowed}
use ringclaw.Messaging.Commands.{
  is_privileged_command, is_full_access_command, is_mem_command, mem_subcommand,
  is_summarize_command, strip_forwarded_prefix,
}
use ringclaw.Messaging.Router.{
  Router, Incoming, is_bot_group, by_owner, reload, enrich, text_of, mark_seen,
}
use ringclaw.Messaging.Routing.{
  route_oob_approval_reply, refusal, built_in, dispatch, route, handle_message, Step, handles,
  cleans, pass, run,
}
use ringclaw.Messaging.Routing.Owner.{handle_message-owner}
use ringclaw.Messaging.Routing.Refusals.{is_consumed, is_approval, handle_message-approval}
use ringclaw.Messaging.Routing.Seen.{is_repeat, run-handled_once}
use ringclaw.Messaging.Routing.Count.{Counted, run-Counted}

abbrev handler : Option Manager → Handler
handler manager = record {
  allow_all_senders = false;
  trusted_senders = (codes "1", true) ∷ [];
  chat_user_allow = [];
  oob_manager = manager;
  owner_dm_chat_id = codes "dm";
  persists = false;
  authorize_monitor = none;
  pending_authorize = [];
  authorize_meta = [];
  authorize_cooldown = [];
  waiting = [];
  persisted = [];
  notices = [];
}

abbrev router : Router
router = record {
  handler = handler (some (record { now = 0; challenges = []; heap = [] }));
  custom_aliases = [];
  agents = codes "claude" ∷ [];
  agent_metas = codes "codex" ∷ [];
  has_cron_store = false;
  thread_reply = false;
  now = 7;
  seen_msgs = [];
  seen_msg_count = 0;
  cleaners = 0;
}

abbrev says : Text → Text → Incoming
says creator text = record {
  client = record { is_bot = true; dm_chat_id = codes "dm"; owner_id = codes "bot" };
  private_app = some (record { is_bot = false; dm_chat_id = []; owner_id = codes "1" });
  post = record {
    id = codes "p";
    group_id = codes "g";
    type = codes "TextMessage";
    text = text;
    creator_id = creator;
    mentions = [];
    event_type = codes "PostAdded";
    parent_post_id = [];
    thread_id = [];
  };
  has_audio = false;
  fresh = none;
  reply = none;
}

reload_is_led : (handle_message (says (codes "1") (codes "/reload")) router).1 ≡ reload
unfolding handle_message enrich mark_seen lookup insert route text_of strip_forwarded_prefix
    trim_space has_prefix trim_prefix accepts_sender is_chat_user_allowed route_oob_approval_reply
    refusal is_privileged_command is_summarize_command is_full_access_command is_mem_command
    mem_subcommand dispatch built_in text_eq is_bot_dm to_lower parse_approval_reply parse_arguments
    split_first_field equal_fold
reload_is_led = refl

handle_message-owner_example : by_owner (says (codes "1") (codes "/reload")) ≡ true
unfolding is_bot_dm text_eq
handle_message-owner_example =
    handle_message-owner (says (codes "1") (codes "/reload")) router group (rw reload_is_led refl)
  where
    group : is_bot_group (says (codes "1") (codes "/reload")) || true ≡ true
    group = refl

stranger_is_untrusted :
    accepts_sender (says (codes "2") (codes "/reload")).post router.handler ≡ false
unfolding accepts_sender is_chat_user_allowed text_eq lookup is_allowed_in
stranger_is_untrusted = refl

abbrev approval : Incoming
approval = says (codes "1") (codes "/approval 0a1b2c3d")

approval_is_read : is_approval (text_of approval) ≡ true
unfolding text_of strip_forwarded_prefix trim_space has_prefix trim_prefix parse_approval_reply
    parse_arguments split_first_field is_challenge_id equal_fold to_lower
approval_is_read = refl

handle_message-approval_example :
    is_consumed approval router (handle_message approval router).1 ≡ true
handle_message-approval_example = handle_message-approval approval router refl approval_is_read

abbrev between : List Step
between = cleans ∷ handles (says (codes "2") (codes "hi")) ∷ pass (4 * minute) ∷ cleans ∷ []

run-handled_once_example :
    is_repeat
      (handle_message approval
        (run between (handle_message (says (codes "1") (codes "/reload")) router).0)).1
    ≡ true
run-handled_once_example =
    run-handled_once (says (codes "1") (codes "/reload")) approval between router (cc) refl
      (rw reload_is_led refl) (omega arith)

run-Counted_example : Counted (run (handles approval ∷ between) router)
run-Counted_example = run-Counted (handles approval ∷ between) router refl
