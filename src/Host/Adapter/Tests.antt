-- ===== src/Host/Adapter/Tests.antt =====
-- A permission request that two devices answer.
use msclaude_connector.Prelude.{
  ◌≡◌, ◌≤◌, refl, true, false, List, [], ◌∷◌, Option, none, some, Text, codes, text_eq,
}
use msclaude_connector.Value.{Value, end, field, str, bool, obj, get, as_string, as_bool}
use msclaude_connector.Host.{Unmarshal, append_event}
use msclaude_connector.Host.System.{new_store}
use msclaude_connector.Host.Commands.{
  Command, PermissionAnswer, Bodies, Hub, Attempt, AgentCommand, error_frame, handle_command,
  run_command, on_answer_permission, record_and_run,
}
use msclaude_connector.Host.Adapter.{
  Requests, Input, command, emitted, new_hub, ingest, on_input, agent_commands, hub_after,
}
use msclaude_connector.Host.Adapter.Open.{permission, answers, asked}
use msclaude_connector.Host.Adapter.Answers.{answered_at_most_once}
use msclaude_connector.Host.Adapter.First.{first_answer_wins, rejected_with, already}
use msclaude_connector.Client.{Client, World, AuthMode}
use msclaude_connector.Client.Notify.{new_client}
use msclaude_connector.Client.Commands.{answer_permission, send_command, flush_outbox}
use msclaude_connector.Prelude.Maps.{lookup, insert}
use msclaude_connector.Host.Place.{deliver_all}
use msclaude_connector.Host.Adapter.Lost.{failed_answer_is_lost}

abbrev decode : Unmarshal
decode = record { status = λ v. none; mode = λ v. none }

abbrev answer_of : Value → Option PermissionAnswer
answer_of (obj fs) = some (record {
  request_id = as_string (get "requestId" fs) [];
  allow = as_bool (get "allow" fs) false;
  allow_always = false;
})
answer_of _ = none

abbrev bodies : Bodies
bodies = record {
  prompt = λ v. none;
  permission = answer_of;
  question = λ v. none;
  mode = λ v. none;
}

abbrev id_of : Value → Text
id_of (obj fs) = as_string (get "requestId" fs) []
id_of _ = []

abbrev requests : Requests
requests = record { permission = id_of; question = λ v. [] }

abbrev works : Attempt
works = record { commits = true; store_error = []; ts = 7; agent_error = none }

abbrev fails : Attempt
fails = record { commits = false; store_error = codes "disk full"; ts = 7; agent_error = none }

abbrev request : Input
request = emitted (record {
  commits = true;
  ts = 1;
  kind = codes "permission_request";
  payload = obj (field "requestId" (str (codes "r1")) end);
})

abbrev permission_answer : Text → Command
permission_answer id = record {
  id = id;
  idempotency_key = id;
  kind = codes "answer_permission";
  payload = obj (field "requestId" (str (codes "r1")) (field "allow" (bool true) end));
}

abbrev phone : Input
phone =
    command
      (record { attempt = works; device = codes "phone"; command = permission_answer (codes "c1") })

abbrev tablet : Input
tablet =
    command (record {
      attempt = works;
      device = codes "tablet";
      command = permission_answer (codes "c2");
    })

abbrev both : List Input
both = request ∷ phone ∷ tablet ∷ []

-- Of two answers the agent gets the first.
first_alone :
    agent_commands decode bodies requests both (new_hub (new_store (codes "s")))
    ≡ AgentCommand.permission
        (record { request_id = codes "r1"; allow = true; allow_always = false })
      ∷ []
unfolding agent_commands on_input ingest handle_command run_command on_answer_permission
    record_and_run append_event text_eq
first_alone = refl

answered_at_most_once_example :
    answers
      (permission (codes "r1"))
      (agent_commands decode bodies requests both (new_hub (new_store (codes "s"))))
    ≤ asked requests (permission (codes "r1")) both
answered_at_most_once_example =
    answered_at_most_once decode bodies requests (permission (codes "r1")) both
      (new_store (codes "s"))

abbrev waiting : Hub
waiting = record {
  store = new_store (codes "s");
  idempotency = [];
  pending = codes "r1" ∷ [];
  pending_questions = [];
}

failed_answer_is_lost_example :
    let failed =
      handle_command decode bodies fails (codes "phone") (permission_answer (codes "c1")) waiting in
    (failed.replies ≡ error_frame (codes "c1") (codes "server_error") (codes "disk full") ∷ [])
    × (failed.hub.store ≡ waiting.store)
    × (failed.agent ≡ [])
    × (answers
          (permission (codes "r1"))
          (agent_commands decode bodies requests (tablet ∷ []) failed.hub)
        ≡ 0)
unfolding text_eq
failed_answer_is_lost_example =
    failed_answer_is_lost decode bodies requests fails (codes "phone")
      (permission_answer (codes "c1"))
      (record { request_id = codes "r1"; allow = true; allow_always = false }) waiting (tablet ∷ [])
      refl refl refl refl refl refl refl

abbrev platform : World
platform = record {
  has_encoder = true;
  is_open = λ s. true;
  create_failure = none;
  random_num = 1;
  random_den = 2;
}

-- The tablet's client, which waits for what becomes of its answer.
abbrev tablet_client : Client
tablet_client =
    (answer_permission platform (codes "c2")
      (field "requestId" (str (codes "r1")) (field "allow" (bool true) end))
      (new_client (codes "ws://h") AuthMode.hello none none)).0

abbrev answered : List Input
answered = request ∷ phone ∷ []

first_answer_wins_example :
    let h = hub_after decode bodies requests answered (new_hub (new_store (codes "s"))) in
    let late =
      handle_command decode bodies works (codes "tablet") (permission_answer (codes "c2")) h in
    (late.hub.store ≡ h.store)
    × (late.broadcasts ≡ [])
    × (late.agent ≡ [])
    × (deliver_all platform 0 late.replies tablet_client
        ≡ rejected_with (codes "already_resolved") already (codes "c2") tablet_client)
unfolding agent_commands hub_after on_input ingest handle_command run_command on_answer_permission
    record_and_run append_event text_eq answer_permission send_command flush_outbox new_client
    lookup insert
first_answer_wins_example =
    first_answer_wins decode bodies requests answered (new_store (codes "s")) works (codes "tablet")
      (permission_answer (codes "c2"))
      (record { request_id = codes "r1"; allow = true; allow_always = false }) platform 0
      tablet_client refl refl refl refl refl refl refl
