-- ===== src/Agent.antt =====
-- The layer between the bridge and an ACP agent process: agent/origin.go, agent/acp_gate.go,
-- agent/restricted_modes.go, and the sessions of agent/acp_agent.go.
pub mod RestrictedModes
pub mod Session
pub mod Terminal
pub mod Files
use ringclaw.Prelude.{Bool, true, Option, none, some}
use ringclaw.Prelude.Text.{Text, codes}

-- Who drives a prompt.
pub record Origin : Type 0 where
  pub is_owner : Bool
  pub sender_id : Text
  pub reason : Text

-- What a context carries: `WithOrigin` attaches, `OriginFromContext` reads, with its default.
unfoldable pub origin_from_context : Option Origin → Origin
origin_from_context none = record {
  is_owner = true;
  sender_id = codes "";
  reason = codes "default";
}
origin_from_context (some origin) = origin

pub record SessionMode : Type 0 where
  pub id : Text
  pub name : Text
