-- ===== src/Host/Commands.antt =====
-- internal/hub/hub.go, `handleCommand`: what the host does with a command, and what it remembers so
-- that a command that comes again is not done again.
-- The maps of pending requests are the lists of their keys, of which alone this handler reads.
mod Tests
pub mod Cases
pub mod Once
pub mod Resent
use msclaude_connector.Prelude.{
  ℕ, zero, suc, Bool, true, false, not, List, [], ◌∷◌, ◌++◌, Option, none, some, Text, codes,
  text_eq, is_empty, any, keep, if◌then◌else◌,
}
use msclaude_connector.Value.{Value, Fields, Number, end, field, str, num, bool, obj}
use msclaude_connector.Wire.{CommandKind, CommandPayload}
use msclaude_connector.Host.{
  Store, StoredEvent, Unmarshal, Frame, ack, error, append_event, text_field,
}

-- `CommandPayload` of types.go: the kind is any text.
pub record Command : Type 0 where
  pub id : Text
  pub idempotency_key : Text
  pub kind : Text
  pub payload : Value

pub record PermissionAnswer : Type 0 where
  pub request_id : Text
  pub allow : Bool
  pub allow_always : Bool

pub record QuestionAnswer : Type 0 where
  pub question_id : Text
  pub text : Text

-- `json.Unmarshal` of a payload into the body of each kind; `none` where it returns an error.
pub record Bodies : Type 0 where
  pub prompt : Value → Option Text
  pub permission : Value → Option PermissionAnswer
  pub question : Value → Option QuestionAnswer
  pub mode : Value → Option Text

-- What the adapter of the agent is given.
pub data AgentCommand : Type 0 where
  prompt mode : Text → AgentCommand
  permission : PermissionAnswer → AgentCommand
  question : QuestionAnswer → AgentCommand
  interrupt : AgentCommand

pub record Hub : Type 0 where
  pub store : Store
  pub idempotency : List Text
  pub pending : List Text
  pub pending_questions : List Text

-- During one command: whether the transaction commits, the error where it does not, the time, and
-- the error that the adapter returns, if it does.
pub record Attempt : Type 0 where
  pub commits : Bool
  pub store_error : Text
  pub ts : ℕ
  pub agent_error : Option Text

-- What a command leads to: messages to its sender, events to all clients, and what the agent gets.
pub record Outcome : Type 0 where
  pub hub : Hub
  pub replies : List Frame
  pub broadcasts : List StoredEvent
  pub agent : List AgentCommand

-- `ackEnvelope`: a number of 0 is left out.
abbrev pub seq_field : ℕ → Value
seq_field zero = Value.undefined
seq_field (suc n) = num (Number.finite (suc n))

abbrev pub ack_frame : Text → ℕ → Frame
ack_frame id seq = ack (field "commandId" (str id) (field "seq" (seq_field seq) end))

-- `errorEnvelope`
abbrev pub error_frame : Text → Text → Text → Frame
error_frame id code message = error (
    field "commandId" (text_field id) (field "code" (str code) (field "message" (str message) end)))

abbrev pub refuse : Text → Text → Text → Hub → Outcome
refuse id code message h = record {
  hub = h;
  replies = error_frame id code message ∷ [];
  broadcasts = [];
  agent = [];
}

-- The error of the adapter comes after the ack.
abbrev pub agent_replies : Text → Option Text → List Frame
agent_replies id none = []
agent_replies id (some message) = error_frame id (codes "agent_error") message ∷ []

-- The end of each case: `AppendEvent`, the ack, the broadcast, and the command to the agent.
unfoldable pub record_and_run :
    Unmarshal → Attempt → Text → (kind : Text) → Value → AgentCommand → Hub → Outcome
unfolding append_event
record_and_run u t id kind payload command h =
    let (store, appended) = append_event u t.commits t.ts kind payload h.store in
    elim appended [
      | none ↦ refuse id (codes "server_error") t.store_error h
      | some ev ↦ record {
        hub = record h { store = store };
        replies = ack_frame id ev.seq ∷ agent_replies id t.agent_error;
        broadcasts = ev ∷ [];
        agent = command ∷ [];
      }
    ]

-- `delete(pending, id)`
abbrev pub without : Text → List Text → List Text
without id = keep (λ i. not (text_eq i id))

abbrev pub prompt_payload : Text → Text → Value
prompt_payload text device = obj (field "text" (str text) (field "byDevice" (str device) end))

abbrev pub permission_payload : PermissionAnswer → Text → Value
permission_payload b device = obj (
    field "requestId" (str b.request_id)
      (field "allow" (bool b.allow) (field "byDevice" (str device) end)))

abbrev pub question_payload : QuestionAnswer → Text → Value
question_payload b device = obj (
    field "questionId" (str b.question_id)
      (field "text" (str b.text) (field "byDevice" (str device) end)))

abbrev pub mode_payload : Text → Text → Value
mode_payload m device = obj (field "mode" (str m) (field "byDevice" (str device) end))

-- `c.deviceID + ":" + cmd.IdempotencyKey`, where a key that is empty is the id.
abbrev pub idempotency_key_of : Text → Command → Text
idempotency_key_of device cmd =
    device ++ codes ":" ++ (if is_empty cmd.idempotency_key then cmd.id else cmd.idempotency_key)

module _ (u : Unmarshal) (bodies : Bodies) (t : Attempt) (device : Text) where
  unfoldable pub on_send_prompt : Command → Hub → Outcome
  unfolding record_and_run
  on_send_prompt cmd h = elim (bodies.prompt cmd.payload) [
    | none ↦ refuse cmd.id (codes "bad_request") (codes "invalid send_prompt payload") h
    | some text ↦
        record_and_run u t cmd.id (codes "user_prompt") (prompt_payload text device) (prompt text) h
  ]

  unfoldable pub on_answer_permission : Command → Hub → Outcome
  unfolding record_and_run
  on_answer_permission cmd h = elim (bodies.permission cmd.payload) [
    | none ↦ refuse cmd.id (codes "bad_request") (codes "invalid answer_permission payload") h
    | some b ↦
        if any (text_eq b.request_id) h.pending
        then record_and_run u t cmd.id (codes "permission_resolved") (permission_payload b device)
            (permission b) (record h { pending = without b.request_id h.pending })
        else refuse cmd.id (codes "already_resolved")
            (codes "permission request already resolved or unknown") h
  ]

  unfoldable pub on_answer_question : Command → Hub → Outcome
  unfolding record_and_run
  on_answer_question cmd h = elim (bodies.question cmd.payload) [
    | none ↦ refuse cmd.id (codes "bad_request") (codes "invalid answer_question payload") h
    | some b ↦
        if any (text_eq b.question_id) h.pending_questions
        then record_and_run u t cmd.id (codes "question_resolved") (question_payload b device)
            (question b)
            (record h { pending_questions = without b.question_id h.pending_questions })
        else refuse cmd.id (codes "already_resolved") (codes "question already resolved or unknown")
            h
  ]

  unfoldable pub on_set_mode : Command → Hub → Outcome
  unfolding record_and_run
  on_set_mode cmd h = elim (bodies.mode cmd.payload) [
    | none ↦ refuse cmd.id (codes "bad_request") (codes "invalid set_mode payload") h
    | some m ↦
        if is_empty m
        then refuse cmd.id (codes "bad_request") (codes "invalid set_mode payload") h
        else record_and_run u t cmd.id (codes "mode_changed") (mode_payload m device) (mode m) h
  ]

  unfoldable pub on_interrupt : Command → Hub → Outcome
  unfolding record_and_run
  on_interrupt cmd h =
      record_and_run u t cmd.id (codes "status_change")
        (obj (field "status" (str (codes "idle")) end)) interrupt h

  -- The switch over the kinds.
  unfoldable pub run_command : Command → Hub → Outcome
  run_command cmd h =
      if text_eq cmd.kind (codes "send_prompt")
      then on_send_prompt cmd h
      else if text_eq cmd.kind (codes "answer_permission")
      then on_answer_permission cmd h
      else if text_eq cmd.kind (codes "answer_question")
      then on_answer_question cmd h
      else if text_eq cmd.kind (codes "set_mode")
      then on_set_mode cmd h
      else if text_eq cmd.kind (codes "interrupt")
      then on_interrupt cmd h
      else refuse cmd.id (codes "unsupported_command") cmd.kind h

  -- `handleCommand`
  unfoldable pub handle_command : Command → Hub → Outcome
  unfolding run_command
  handle_command cmd h =
      let key = idempotency_key_of device cmd in
      if is_empty cmd.id
      then refuse [] (codes "bad_request") (codes "command id required") h
      else if any (text_eq key) h.idempotency
      then record { hub = h; replies = ack_frame cmd.id 0 ∷ []; broadcasts = []; agent = [] }
      else run_command cmd (record h { idempotency = key ∷ h.idempotency })

-- A command of a client of client.ts, as the host reads it.
abbrev pub kind_text : CommandKind → Text
kind_text CommandKind.send_prompt = codes "send_prompt"
kind_text CommandKind.answer_permission = codes "answer_permission"
kind_text CommandKind.answer_question = codes "answer_question"
kind_text CommandKind.interrupt = codes "interrupt"
kind_text CommandKind.set_mode = codes "set_mode"

abbrev pub command_of : CommandPayload → Command
command_of p = record {
  id = p.id;
  idempotency_key = p.idempotency_key;
  kind = kind_text p.kind;
  payload = p.payload;
}

-- Commands of any devices, one after the other.
pub record Call : Type 0 where
  pub attempt : Attempt
  pub device : Text
  pub command : Command

unfoldable pub handle_all : Unmarshal → Bodies → List Call → Hub → Hub
handle_all u bodies [] h = h
handle_all u bodies (call ∷ calls) h =
    handle_all u bodies calls (handle_command u bodies call.attempt call.device call.command h).hub
