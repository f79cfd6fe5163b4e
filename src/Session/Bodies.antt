-- ===== src/Session/Bodies.antt =====
-- clients/packages/harness-protocol/src/types.ts: the bodies of events, which the host writes and the
-- reducer reads without a check.
-- types.ts has no type for the body of an `error` event, of which the reducer reads a message.
pub mod Reflects
pub mod Reflected
use msclaude_connector.Prelude.{String, Bool, [], Option, none, some, Text, codes}
use msclaude_connector.Value.{
  Value, Number, Fields, end, field, undefined, str, num, bool, get, as_string, as_number, as_bool,
  optional_string,
}
use msclaude_connector.Wire.{EventKind}
use msclaude_connector.Session.{SessionState, Usage}

pub record UserPromptBody : Type 0 where
  pub text : Text
  pub by_device : Text

pub record TextDeltaBody : Type 0 where
  pub content : Text

pub record ToolCallBody : Type 0 where
  pub name : Text
  pub input : Option Text
  pub output : Option Text

pub record PermissionRequestBody : Type 0 where
  pub request_id : Text
  pub kind : Text
  pub summary : Text

pub record QuestionBody : Type 0 where
  pub question_id : Text
  pub text : Text

pub record PermissionResolvedBody : Type 0 where
  pub request_id : Text
  pub allow : Bool
  pub by_device : Text

pub record QuestionResolvedBody : Type 0 where
  pub question_id : Text
  pub text : Text
  pub by_device : Text

pub record ModeChangedBody : Type 0 where
  pub mode : Text
  pub by_device : Text

pub record StatusChangeBody : Type 0 where
  pub status : Text

-- The body that an event of each kind has.
pub data Body : EventKind → Type 0 where
  user_prompt : UserPromptBody → Body EventKind.user_prompt
  text_delta : TextDeltaBody → Body EventKind.text_delta
  turn_complete : Body EventKind.turn_complete
  status_change : StatusChangeBody → Body EventKind.status_change
  mode_changed : ModeChangedBody → Body EventKind.mode_changed
  usage_update : Usage → Body EventKind.usage_update
  tool_call_start : ToolCallBody → Body EventKind.tool_call_start
  tool_call_end : ToolCallBody → Body EventKind.tool_call_end
  permission_request : PermissionRequestBody → Body EventKind.permission_request
  permission_resolved : PermissionResolvedBody → Body EventKind.permission_resolved
  question : QuestionBody → Body EventKind.question
  question_resolved : QuestionResolvedBody → Body EventKind.question_resolved
  error : (message : Text) → Body EventKind.error
  unknown : Body EventKind.unknown

-- A field that may be left out, which then reads as `undefined`.
abbrev optional_value : Option Text → Value
optional_value none = undefined
optional_value (some s) = str s

abbrev tool_fields : ToolCallBody → Fields
tool_fields b =
    field "name" (str b.name)
      (field "input" (optional_value b.input) (field "output" (optional_value b.output) end))

-- The JSON of a body.
unfoldable pub fields_of : {kind : EventKind} → Body kind → Fields
fields_of (user_prompt b) = field "text" (str b.text) (field "byDevice" (str b.by_device) end)
fields_of (text_delta b) = field "content" (str b.content) end
fields_of turn_complete = end
fields_of (status_change b) = field "status" (str b.status) end
fields_of (mode_changed b) = field "mode" (str b.mode) (field "byDevice" (str b.by_device) end)
fields_of (usage_update b) =
    field "inputTokens" (num (Number.finite b.input_tokens))
      (field "outputTokens" (num (Number.finite b.output_tokens)) end)
fields_of (tool_call_start b) = tool_fields b
fields_of (tool_call_end b) = tool_fields b
fields_of (permission_request b) =
    field "requestId" (str b.request_id)
      (field "kind" (str b.kind) (field "summary" (str b.summary) end))
fields_of (permission_resolved b) =
    field "requestId" (str b.request_id)
      (field "allow" (bool b.allow) (field "byDevice" (str b.by_device) end))
fields_of (question b) = field "questionId" (str b.question_id) (field "text" (str b.text) end)
fields_of (question_resolved b) =
    field "questionId" (str b.question_id)
      (field "text" (str b.text) (field "byDevice" (str b.by_device) end))
fields_of (error message) = field "message" (str message) end
fields_of unknown = end
