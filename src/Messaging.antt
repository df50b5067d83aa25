-- ===== src/Messaging.antt =====
-- The message handler of messaging/handler.go: the fields that decide who may drive an agent, and
-- those of the authorization flow. The fields for agents, cron, personas and deduplication are not
-- kept here.
pub mod Senders
pub mod Authorize
pub mod Conversation
pub mod Cron
pub mod Commands
pub mod Router
pub mod Routing
pub mod FullAccess
pub mod Persona
pub mod Memory
pub mod Heartbeat
pub mod Actions
use ringclaw.Prelude.{ℕ, Bool, Option, List}
use ringclaw.Prelude.Text.{Text}
use ringclaw.Prelude.Assoc.{Assoc}
use ringclaw.Prelude.Time.{Time}
use ringclaw.Oob.Challenge.{Manager}
use ringclaw.Ringcentral.Monitor.{Monitor}

-- `authorizeMeta`
pub record AuthorizeMeta : Type 0 where
  pub email : Text
  pub display_name : Text
  pub chat_name : Text

-- A goroutine of `awaitAuthorizeMention` that has not returned: its arguments.
pub record Waiter : Type 0 where
  pub challenge : ℕ  -- the address of the challenge
  pub challenge_id : Text
  pub chat_id : Text
  pub user_id : Text
  pub key : Text

-- What the owner is told once a request is settled.
pub data Notice : Type 0 where
  expired : Text → Text → Notice
  denied : Text → Text → Notice
  authorized : Text → Text → Notice  -- the identifier and the chat

pub record Handler : Type 0 where
  pub allow_all_senders : Bool
  pub trusted_senders : Assoc Bool
  pub chat_user_allow : Assoc (Assoc Bool)
  pub oob_manager : Option Manager
  pub owner_dm_chat_id : Text
  pub persists : Bool  -- whether `authorizePersist` is installed
  pub authorize_monitor : Option Monitor
  pub pending_authorize : Assoc Bool
  pub authorize_meta : Assoc AuthorizeMeta
  pub authorize_cooldown : Assoc Time
  pub waiting : List Waiter
  pub persisted : List (Text × Text)  -- the calls of `authorizePersist`, the latest first
  pub notices : List Notice  -- the latest first
