-- ===== src/Host/Commands/Tests.antt =====
-- A prompt that is sent twice.
use msclaude_connector.Prelude.{
  ◌≡◌, refl, true, false, [], ◌∷◌, Option, none, some, Text, codes, text_eq,
}
use msclaude_connector.Prelude.Maps.{lookup, insert}
use msclaude_connector.Value.{Value, obj, get, optional_string}
use msclaude_connector.Wire.{CommandKind, CommandPayload}
use msclaude_connector.Client.{Client, World, AuthMode}
use msclaude_connector.Client.Notify.{new_client}
use msclaude_connector.Client.Commands.{send_prompt, prompt_body, send_command, flush_outbox}
use msclaude_connector.Host.{Unmarshal, append_event}
use msclaude_connector.Host.System.{new_store}
use msclaude_connector.Host.Place.{deliver_all}
use msclaude_connector.Host.Commands.{
  agent_replies, Bodies, Hub, Attempt, Outcome, ack_frame, error_frame, handle_command, handle_all,
  command_of, run_command, on_send_prompt, record_and_run,
}
use msclaude_connector.Host.Commands.Once.{acked, repeated_command_acks}
use msclaude_connector.Host.Commands.Resent.{
  resolved_with, resent_command_resolves, failed_prompt_is_acknowledged,
  late_agent_error_is_ignored,
}

abbrev platform : World
platform = record {
  has_encoder = true;
  is_open = λ s. true;
  create_failure = none;
  random_num = 1;
  random_den = 2;
}

abbrev decode : Unmarshal
decode = record { status = λ v. none; mode = λ v. none }

abbrev text_of : Value → Option Text
text_of (obj fs) = optional_string (get "text" fs)
text_of _ = none

abbrev bodies : Bodies
bodies = record { prompt = text_of; permission = λ v. none; question = λ v. none; mode = λ v. none }

abbrev hub : Hub
hub = record {
  store = new_store (codes "s");
  idempotency = [];
  pending = [];
  pending_questions = [];
}

abbrev works : Attempt
works = record { commits = true; store_error = []; ts = 7; agent_error = none }

abbrev fails : Attempt
fails = record {
  commits = false;
  store_error = codes "database is locked";
  ts = 7;
  agent_error = none;
}

abbrev sent : CommandPayload
sent = record {
  id = codes "c1";
  idempotency_key = codes "c1";
  kind = CommandKind.send_prompt;
  payload = prompt_body (codes "hi");
}

abbrev phone : Text
phone = codes "phone"

abbrev waiting : Client
waiting =
    (send_prompt platform (codes "c1") (codes "hi")
      (new_client (codes "ws://h") AuthMode.hello none none)).0

abbrev first : Outcome
first = handle_command decode bodies works phone (command_of sent) hub

-- The prompt is in the log once, and acknowledged with its number.
first_replies : first.replies ≡ ack_frame (codes "c1") 1 ∷ []
unfolding handle_command run_command on_send_prompt record_and_run append_event text_eq
first_replies = refl

repeated_command_acks_example :
    handle_command decode bodies fails phone
      (command_of sent)
      (handle_all decode bodies [] first.hub)
    ≡ acked (codes "c1") (handle_all decode bodies [] first.hub)
repeated_command_acks_example =
    repeated_command_acks decode bodies works fails phone (command_of sent) (command_of sent) [] hub
      refl refl refl

resent_command_resolves_example :
    let again =
      handle_command decode bodies works phone
        (command_of sent)
        (handle_all decode bodies [] first.hub) in
    (again.hub ≡ handle_all decode bodies [] first.hub)
    × (again.broadcasts ≡ [])
    × (again.agent ≡ [])
    × (deliver_all platform 0 again.replies waiting ≡ resolved_with 0 (codes "c1") waiting)
unfolding send_prompt send_command flush_outbox new_client lookup text_eq insert
resent_command_resolves_example =
    resent_command_resolves decode bodies works works phone sent [] hub platform 0 waiting refl refl
      refl

failed_prompt_is_acknowledged_example :
    let failed = handle_command decode bodies fails phone (command_of sent) hub in
    let again = handle_command decode bodies works phone (command_of sent) failed.hub in
    (failed.replies
      ≡ error_frame (codes "c1") (codes "server_error") (codes "database is locked") ∷ [])
    × (again.hub.store ≡ hub.store)
    × (failed.agent ≡ [])
    × (again.agent ≡ [])
    × (deliver_all platform 0 again.replies waiting ≡ resolved_with 0 (codes "c1") waiting)
unfolding send_prompt send_command flush_outbox new_client lookup text_eq insert
failed_prompt_is_acknowledged_example =
    failed_prompt_is_acknowledged decode bodies fails works phone (command_of sent) (codes "hi") hub
      platform 0 waiting refl refl refl refl refl refl refl

late_agent_error_is_ignored_example :
    deliver_all platform 0
      (ack_frame (codes "c1") 1 ∷ agent_replies (codes "c1") (some (codes "not running")))
      waiting
    ≡ resolved_with 1 (codes "c1") waiting
unfolding send_prompt send_command flush_outbox new_client lookup text_eq insert
late_agent_error_is_ignored_example =
    late_agent_error_is_ignored platform 0 (codes "c1") waiting 1 (codes "not running") refl refl
      refl
