-- ===== src/Host/Adapter.antt =====
-- internal/hub/hub.go, `New`, `ingestAdapterEvents` and `handleCommand`: the hub between its clients
-- and the adapter of the agent, from the start of the daemon.
-- Each command and each event of the agent is one step: what another goroutine reads in the middle of
-- one is left out.
mod Tests
pub mod Open
pub mod Answers
pub mod Lost
pub mod First
use msclaude_connector.Prelude.{
  ℕ, Bool, List, [], ◌∷◌, ◌++◌, none, some, Text, codes, text_eq, if◌then◌else◌,
}
use msclaude_connector.Value.{Value}
use msclaude_connector.Host.{Store, StoredEvent, Unmarshal, append_event}
use msclaude_connector.Host.Commands.{
  Bodies, AgentCommand, Hub, Outcome, Call, without, handle_command,
}

-- `permissionBodyFromEvent` and `questionBodyFromEvent`: the id in the body that `json.Unmarshal`
-- leaves, with its error ignored.
pub record Requests : Type 0 where
  pub permission : Value → Text
  pub question : Value → Text

-- An event of `adapter.Events()`, the time, and whether the transaction commits.
pub record Emitted : Type 0 where
  pub commits : Bool
  pub ts : ℕ
  pub kind : Text
  pub payload : Value

-- `New`
abbrev pub new_hub : Store → Hub
new_hub st = record { store = st; idempotency = []; pending = []; pending_questions = [] }

-- `pending[id] = view`
abbrev pub put : Text → List Text → List Text
put id ids = id ∷ without id ids

abbrev pub note_permission : Requests → StoredEvent → Hub → Hub
note_permission requests ev h =
    if text_eq ev.kind (codes "permission_request")
    then record h { pending = put (requests.permission ev.payload) h.pending }
    else h

abbrev pub note_question : Requests → StoredEvent → Hub → Hub
note_question requests ev h =
    if text_eq ev.kind (codes "question")
    then record h { pending_questions = put (requests.question ev.payload) h.pending_questions }
    else h

-- The body of the loop.
unfoldable pub ingest : Unmarshal → Requests → Emitted → Hub → Outcome
unfolding append_event
ingest u requests e h =
    let (store, appended) = append_event u e.commits e.ts e.kind e.payload h.store in
    elim appended [
      | none ↦ record { hub = h; replies = []; broadcasts = []; agent = [] }
      | some ev ↦ record {
        hub = note_question requests ev (note_permission requests ev (record h { store = store }));
        replies = [];
        broadcasts = ev ∷ [];
        agent = [];
      }
    ]

-- What the hub is given: a command of a device, or an event of the agent.
pub data Input : Type 0 where
  command : Call → Input
  emitted : Emitted → Input

module _ (u : Unmarshal) (bodies : Bodies) (requests : Requests) where
  abbrev pub on_input : Input → Hub → Outcome
  unfolding handle_command ingest
  on_input (command call) h = handle_command u bodies call.attempt call.device call.command h
  on_input (emitted e) h = ingest u requests e h

  -- All that the agent is given, in order.
  unfoldable pub agent_commands : List Input → Hub → List AgentCommand
  unfolding on_input
  agent_commands [] h = []
  agent_commands (i ∷ is) h = let o = on_input i h in o.agent ++ agent_commands is o.hub

  -- The hub after them.
  unfoldable pub hub_after : List Input → Hub → Hub
  unfolding on_input
  hub_after [] h = h
  hub_after (i ∷ is) h = hub_after is (on_input i h).hub
