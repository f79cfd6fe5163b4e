-- ===== src/Session.antt =====
-- clients/packages/harness-protocol/src/reducer.ts: the session that a client shows, rebuilt from a
-- snapshot and a stream of events. This file has the state; the operations are in the modules below.
mod Tests
pub mod Stream
pub mod Names
pub mod Pending
pub mod Caps
pub mod Asked
pub mod Answered
pub mod Bodies
pub mod Ids
pub mod Events
pub mod Snapshot
pub mod Nameless
use msclaude_connector.Prelude.{ℕ, Bool, false, List, [], Option, none, Text, codes}
use msclaude_connector.Prelude.Maps.{Map}
use msclaude_connector.Value.{Value, Fields, null}

pub record PromptItem : Type 0 where
  pub id : Text
  pub seq : ℕ
  pub ts : Value
  pub text : Text
  pub by_device : Text

pub record AssistantItem : Type 0 where
  pub id : Text
  pub seq : ℕ
  pub ts : Value
  pub text : Text
  pub is_sealed : Bool

pub record ToolItem : Type 0 where
  pub id : Text
  pub seq : ℕ
  pub ts : Value
  pub name : Text
  pub input : Option Text
  pub output : Option Text
  pub is_done : Bool

pub record Resolution : Type 0 where
  pub allow : Bool
  pub by_device : Text
  pub by_name : Text

pub record PermissionItem : Type 0 where
  pub id : Text
  pub seq : ℕ
  pub ts : Value
  pub request_id : Text
  pub permission_kind : Text
  pub summary : Text
  pub resolved : Option Resolution

pub record Answer : Type 0 where
  pub text : Text
  pub by_device : Text
  pub by_name : Text

pub record QuestionItem : Type 0 where
  pub id : Text
  pub seq : ℕ
  pub ts : Value
  pub question_id : Text
  pub text : Text
  pub resolved : Option Answer

pub data Level : Type 0 where
  info error : Level

pub record NoticeItem : Type 0 where
  pub id : Text
  pub seq : ℕ
  pub ts : Value
  pub text : Text
  pub level : Level

-- The discriminant `kind` is the constructor.
pub data Item : Type 0 where
  prompt : PromptItem → Item
  assistant : AssistantItem → Item
  tool : ToolItem → Item
  permission : PermissionItem → Item
  question : QuestionItem → Item
  notice : NoticeItem → Item

pub record DeviceView : Type 0 where
  pub device_id : Text
  pub name : Text

pub record Usage : Type 0 where
  pub input_tokens : ℕ
  pub output_tokens : ℕ

-- `session_id` is null until a snapshot sets it, unchecked. The pending views are kept as the records that were received: no reader has checked their fields.
pub record SessionState : Type 0 where
  pub session_id : Value
  pub status : Text
  pub mode : Text
  pub tip_seq : ℕ
  pub last_seq : ℕ
  pub items : List Item
  pub pending_permissions : List Fields
  pub pending_questions : List Fields
  pub devices : List DeviceView
  pub device_names : Map Text
  pub usage : Option Usage
  pub turn_active : Bool

-- `newSessionState`
abbrev pub new_session_state : SessionState
new_session_state = record {
  session_id = null;
  status = codes "idle";
  mode = [];
  tip_seq = 0;
  last_seq = 0;
  items = [];
  pending_permissions = [];
  pending_questions = [];
  devices = [];
  device_names = [];
  usage = none;
  turn_active = false;
}
