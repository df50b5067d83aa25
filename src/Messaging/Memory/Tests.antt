-- ===== src/Messaging/Memory/Tests.antt =====
-- The command /mem, checked.
use ringclaw.Prelude.{◌≡◌, ◌≢◌, refl, true, false, none, some, [], ◌∷◌}
use ringclaw.Prelude.Int.{pos}
use ringclaw.Prelude.Text.{
  Text, codes, text_eq, has_prefix, trim_prefix, trim_space, trim_left, trim_right, is_space,
  to_lower, equal_fold, fields,
}
use ringclaw.Prelude.Text.Bytes.{Bytes}
use ringclaw.Prelude.Assoc.{Assoc, lookup, insert}
use ringclaw.Oob.Reply.{parse_approval_reply, parse_arguments, split_first_field}
use ringclaw.Ringcentral.{is_bot_dm}
use ringclaw.Ringcentral.Monitor.{is_allowed_in}
use ringclaw.Messaging.{Handler}
use ringclaw.Messaging.Senders.{accepts_sender, is_chat_user_allowed}
use ringclaw.Messaging.Commands.{
  is_privileged_command, is_full_access_command, is_mem_command, mem_subcommand, second_field,
  is_summarize_command, strip_forwarded_prefix,
}
use ringclaw.Messaging.Router.{Router, Incoming, by_owner, mem, enrich, text_of, mark_seen}
use ringclaw.Messaging.Routing.{
  route_oob_approval_reply, refusal, built_in, dispatch, route, handle_message,
}
use ringclaw.Messaging.Persona.{ResolvedConfig, memory_file_path}
use ringclaw.Messaging.Memory.{System, parse_mem_command, memory_id_for_scope, handle_mem_command}
use ringclaw.Messaging.Memory.Writes.{
  asks_change, handle_mem_command-one_file, handle_mem_command-owner,
}

abbrev cfg : ResolvedConfig
cfg = record {
  memory_dir = codes "/m";
  max_global_memory_chars = pos 100;
  max_user_memory_chars = pos 100;
  max_chat_memory_chars = pos 100;
}

abbrev sys : System
sys = record { timestamp = codes "t1"; writable = true }

abbrev files : Assoc Bytes
files = (codes "global.md", codes "old") ∷ []

-- A colleague whom the bot answers, but who is not its owner.
abbrev asks : Text → Incoming
asks text = record {
  client = record { is_bot = true; dm_chat_id = codes "dm"; owner_id = codes "bot" };
  private_app = some (record { is_bot = false; dm_chat_id = []; owner_id = codes "9" });
  post = record {
    id = codes "p";
    group_id = codes "g";
    type = codes "TextMessage";
    text = text;
    creator_id = codes "1";
    mentions = [];
    event_type = codes "PostAdded";
    parent_post_id = [];
    thread_id = [];
  };
  has_audio = false;
  fresh = none;
  reply = none;
}

abbrev handler : Handler
handler = record {
  allow_all_senders = false;
  trusted_senders = (codes "1", true) ∷ [];
  chat_user_allow = [];
  oob_manager = none;
  owner_dm_chat_id = codes "dm";
  persists = false;
  authorize_monitor = none;
  pending_authorize = [];
  authorize_meta = [];
  authorize_cooldown = [];
  waiting = [];
  persisted = [];
  notices = [];
}

abbrev router : Router
router = record {
  handler = handler;
  custom_aliases = [];
  agents = codes "claude" ∷ [];
  agent_metas = [];
  has_cron_store = false;
  thread_reply = false;
  now = 7;
  seen_msgs = [];
  seen_msg_count = 0;
  cleaners = 0;
}

show_is_led : (handle_message (asks (codes "/mem show")) router).1 ≡ mem (codes "/mem show") false
unfolding handle_message enrich mark_seen lookup insert route text_of strip_forwarded_prefix
    trim_space trim_left trim_right is_space has_prefix trim_prefix accepts_sender
    is_chat_user_allowed route_oob_approval_reply refusal is_privileged_command is_summarize_command
    is_full_access_command is_mem_command mem_subcommand second_field fields dispatch built_in
    text_eq is_bot_dm to_lower parse_approval_reply parse_arguments split_first_field equal_fold
    is_allowed_in
show_is_led = refl

not_by_owner : by_owner (asks (codes "/mem show")) ≡ false
unfolding text_eq
not_by_owner = refl

handle_mem_command-owner_example :
    (handle_mem_command (some cfg) sys (codes "/mem show") (codes "g") (codes "1") false files).0
    ≡ files
unfolding is_bot_dm text_eq
handle_mem_command-owner_example =
    handle_mem_command-owner (asks (codes "/mem show")) router (codes "/mem show") (codes "g")
      (codes "1") false (some cfg) sys files refl show_is_led not_by_owner

handle_mem_command-one_file_example :
    let text = codes "/mem add user tea" in
    let next = (handle_mem_command (some cfg) sys text (codes "g") (codes "1") false files).0 in
    let args = parse_mem_command text in
    ((p : Text)
      → memory_file_path cfg args.scope (memory_id_for_scope args.scope (codes "g") (codes "1"))
        ≢ some p
      → lookup p next ≡ lookup p files)
    × (asks_change args ≡ false → next ≡ files)
handle_mem_command-one_file_example =
    handle_mem_command-one_file cfg sys (codes "/mem add user tea") (codes "g") (codes "1") false
      files
