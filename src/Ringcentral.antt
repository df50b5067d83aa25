-- ===== src/Ringcentral.antt =====
-- The RingCentral client's identity and the posts that it receives: ringcentral/client.go and
-- ringcentral/types.go. Only the fields that the modelled code reads are kept.
pub mod Monitor
use ringclaw.Prelude.{Bool, List, ◌&&◌, not}
use ringclaw.Prelude.Text.{Text, text_eq, is_empty}

pub record Client : Type 0 where
  pub is_bot : Bool
  pub dm_chat_id : Text
  pub owner_id : Text

unfoldable pub is_bot_dm : Client → Text → Bool
is_bot_dm c chat_id = c.is_bot && not (is_empty c.dm_chat_id) && text_eq chat_id c.dm_chat_id

pub record Mention : Type 0 where
  pub id : Text

pub record Post : Type 0 where
  pub id : Text
  pub group_id : Text
  pub type : Text
  pub text : Text
  pub creator_id : Text
  pub mentions : List Mention
  pub event_type : Text
  pub parent_post_id : Text
  pub thread_id : Text
