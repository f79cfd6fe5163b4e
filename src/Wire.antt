-- ===== src/Wire.antt =====
-- clients/packages/harness-protocol/src/types.ts: the messages. `parseEnvelope` only checks that a
-- part is a record; its cast is modelled by keeping the record, whose fields the readers look up.
use msclaude_connector.Prelude.{
  ℕ, Bool, List, [], ◌∷◌, Option, none, some, Text, codes, text_eq, any, if◌then◌else◌,
}
use msclaude_connector.Value.{Value, Fields, str, get, is_record, as_number}

-- `PROTOCOL_VERSION`
abbrev pub protocol_version : ℕ
protocol_version = 1

-- `EventKind`; `unknown` is any other value.
pub data EventKind : Type 0 where
  text_delta tool_call_start tool_call_end permission_request question : EventKind
  permission_resolved question_resolved mode_changed turn_complete : EventKind
  status_change usage_update error user_prompt unknown : EventKind

-- The strings that stand for the kinds.
abbrev pub kind_names : List (Text × EventKind)
kind_names =
    (codes "text_delta", text_delta)
    ∷ (codes "tool_call_start", tool_call_start)
    ∷ (codes "tool_call_end", tool_call_end)
    ∷ (codes "permission_request", permission_request)
    ∷ (codes "question", question)
    ∷ (codes "permission_resolved", permission_resolved)
    ∷ (codes "question_resolved", question_resolved)
    ∷ (codes "mode_changed", mode_changed)
    ∷ (codes "turn_complete", turn_complete)
    ∷ (codes "status_change", status_change)
    ∷ (codes "usage_update", usage_update)
    ∷ (codes "error", error)
    ∷ (codes "user_prompt", user_prompt)
    ∷ []

find_kind : Text → List (Text × EventKind) → EventKind
find_kind s [] = unknown
find_kind s ((name, kind) ∷ rest) = if text_eq s name then kind else find_kind s rest

unfoldable pub event_kind : Value → EventKind
unfolding find_kind
event_kind (str s) = find_kind s kind_names
event_kind _ = unknown

-- An event whose `seq` its reader has checked. `ts` is copied unread.
pub record EventPayload : Type 0 where
  pub seq : ℕ
  pub ts : Value
  pub kind : EventKind
  pub payload : Value

unfoldable pub event_of : ℕ → Fields → EventPayload
unfolding event_kind
event_of seq ev = record {
  seq = seq;
  ts = get "ts" ev;
  kind = event_kind (get "kind" ev);
  payload = get "payload" ev;
}

-- No field of a snapshot has been checked.
pub record SnapshotPayload : Type 0 where
  pub session_id : Value
  pub status : Value
  pub mode : Value
  pub last_seq : Value
  pub pending_permissions : Value
  pub pending_questions : Value
  pub devices : Value

unfoldable pub snapshot_of : Fields → SnapshotPayload
snapshot_of snap = record {
  session_id = get "sessionId" snap;
  status = get "status" snap;
  mode = get "mode" snap;
  last_seq = get "lastSeq" snap;
  pending_permissions = get "pendingPermissions" snap;
  pending_questions = get "pendingQuestions" snap;
  devices = get "devices" snap;
}

-- `device_id` and `credential` come from an identity, whose fields are unchecked.
pub record HelloPayload : Type 0 where
  pub device_id : Value
  pub last_seq : ℕ
  pub pairing_token : Option Text
  pub credential : Option Value

pub data CommandKind : Type 0 where
  send_prompt answer_permission answer_question interrupt set_mode : CommandKind

pub record CommandPayload : Type 0 where
  pub id : Text
  pub idempotency_key : Text
  pub kind : CommandKind
  pub payload : Value

-- What a client receives.
pub record Envelope : Type 0 where
  pub v : ℕ
  pub type : Text
  pub hello : Option Fields
  pub snapshot : Option Fields
  pub event : Option Fields
  pub command : Option Fields
  pub ack : Option Fields
  pub error : Option Fields
  pub paired : Option Fields

-- `parseEnvelope`, once the value is a record and its `type` is a string.
unfoldable pub envelope_of : Text → Fields → Envelope
envelope_of type raw = record {
  v = as_number (get "v" raw) protocol_version;
  type = type;
  hello = is_record (get "hello" raw);
  snapshot = is_record (get "snapshot" raw);
  event = is_record (get "event" raw);
  command = is_record (get "command" raw);
  ack = is_record (get "ack" raw);
  error = is_record (get "error" raw);
  paired = is_record (get "paired" raw);
}

unfoldable pub envelope_with : Value → Fields → Option Envelope
unfolding envelope_of
envelope_with (str type) raw = some (envelope_of type raw)
envelope_with _ raw = none

-- `parseEnvelope`
unfoldable pub parse_envelope : Value → Option Envelope
unfolding envelope_with
parse_envelope raw = elim (is_record raw) [
  | none ↦ none
  | some fs ↦ envelope_with (get "type" fs) fs
]

-- `TERMINAL_ERROR_CODES`
abbrev pub terminal_error_codes : List Text
terminal_error_codes =
    codes "auth_required"
    ∷ codes "pairing_denied"
    ∷ codes "device_mismatch"
    ∷ codes "unauthorized"
    ∷ []

-- `TERMINAL_ERROR_CODES.has(code)`
unfoldable pub is_terminal : Value → Bool
is_terminal (str code) = any (text_eq code) terminal_error_codes
is_terminal _ = Bool.false
