-- ===== src/Session/Events.antt =====
-- `applyEvent` of reducer.ts. One function for each case of the switch, each from the state with
-- the new `lastSeq` on; `apply_event` is the whole switch.
use msclaude_connector.Prelude.{
  String, Bool, true, false, not, [], ◌∷◌, ◌++◌, none, some, map, Text, codes, text_eq, is_empty,
  any, keep, if◌then◌else◌, or_else,
}
use msclaude_connector.Value.{
  Fields, end, field, str, get, as_string, as_number, as_bool, optional_string, same_value,
  record_or_empty,
}
use msclaude_connector.Wire.{EventKind, EventPayload}
use msclaude_connector.Session.{
  SessionState, Item, Resolution, Answer, Level, prompt, tool, permission, question,
}
use msclaude_connector.Prelude.Decimal.{decimal}
use msclaude_connector.Session.Names.{name_for}
use msclaude_connector.Session.Pending.{add_pending}
use msclaude_connector.Session.Stream.{
  append_assistant, seal_open_assistant, finish_tool, push_notice,
}

unfoldable pub on_user_prompt : SessionState → EventPayload → Fields → SessionState
on_user_prompt next ev payload = record next {
  items =
      seal_open_assistant next.items
      ++ prompt (record {
        id = codes "prompt-" ++ decimal ev.seq;
        seq = ev.seq;
        ts = ev.ts;
        text = as_string (get "text" payload) [];
        by_device = as_string (get "byDevice" payload) [];
      })
        ∷ [];
  turn_active = true;
}

unfoldable pub on_text_delta : Bool → SessionState → EventPayload → Fields → SessionState
on_text_delta has_encoder next ev payload =
    let content = as_string (get "content" payload) [] in
    if is_empty content
    then next
    else record next { items = append_assistant has_encoder next.items ev.seq ev.ts content }

unfoldable pub on_turn_complete : SessionState → SessionState
on_turn_complete next = record next { items = seal_open_assistant next.items; turn_active = false }

unfoldable pub on_status_change : SessionState → Fields → SessionState
on_status_change next payload =
    let status = as_string (get "status" payload) next.status in
    record next { status = status; turn_active = text_eq status (codes "running") }

unfoldable pub on_mode_changed : SessionState → Fields → SessionState
on_mode_changed next payload = record next { mode = as_string (get "mode" payload) next.mode }

unfoldable pub on_usage_update : SessionState → Fields → SessionState
on_usage_update next payload = record next {
  usage = some (record {
    input_tokens = as_number (get "inputTokens" payload) 0;
    output_tokens = as_number (get "outputTokens" payload) 0;
  });
}

unfoldable pub on_tool_call_start : SessionState → EventPayload → Fields → SessionState
on_tool_call_start next ev payload = record next {
  items =
      next.items
      ++ tool (record {
        id = codes "tool-" ++ decimal ev.seq;
        seq = ev.seq;
        ts = ev.ts;
        name = as_string (get "name" payload) (codes "tool");
        input = optional_string (get "input" payload);
        output = none;
        is_done = false;
      })
        ∷ [];
}

unfoldable pub on_tool_call_end : SessionState → EventPayload → Fields → SessionState
on_tool_call_end next ev payload =
    let name = as_string (get "name" payload) (codes "tool") in
    let output = optional_string (get "output" payload) in
    record next {
      items = or_else (finish_tool next.items name output) (
          next.items
          ++ tool (record {
            id = codes "tool-" ++ decimal ev.seq;
            seq = ev.seq;
            ts = ev.ts;
            name = name;
            input = none;
            output = output;
            is_done = true;
          })
            ∷ []);
    }

-- `i.kind === 'permission' && i.requestId === requestId`
abbrev pub is_permission : Text → Item → Bool
is_permission request_id (permission p) = text_eq p.request_id request_id
is_permission request_id _ = false

unfoldable pub permission_view : Text → Text → Text → Fields
permission_view request_id kind summary =
    field "requestId" (str request_id) (field "kind" (str kind) (field "summary" (str summary) end))

unfoldable pub on_permission_request : SessionState → EventPayload → Fields → SessionState
unfolding permission_view
on_permission_request next ev payload =
    let request_id = as_string (get "requestId" payload) [] in
    let kind = as_string (get "kind" payload) (codes "permission") in
    let summary = as_string (get "summary" payload) [] in
    if is_empty request_id then next else record next {
      pending_permissions =
          add_pending "requestId" next.pending_permissions
            (permission_view request_id kind summary);
      items =
          if any (is_permission request_id) next.items
          then next.items
          else next.items
            ++ permission (record {
              id = codes "perm-" ++ request_id;
              seq = ev.seq;
              ts = ev.ts;
              request_id = request_id;
              permission_kind = kind;
              summary = summary;
              resolved = none;
            })
              ∷ [];
    }

-- `(p) => p[key] !== id`
abbrev pub is_not_for : String → Text → Fields → Bool
is_not_for key id view = not (same_value (get key view) (str id))

abbrev pub resolve_permission : Text → Resolution → Item → Item
resolve_permission request_id r (permission p) =
    if text_eq p.request_id request_id
    then permission (record p { resolved = some r })
    else permission p
resolve_permission request_id r item = item

unfoldable pub on_permission_resolved : SessionState → Fields → SessionState
on_permission_resolved next payload =
    let request_id = as_string (get "requestId" payload) [] in
    let by_device = as_string (get "byDevice" payload) [] in
    record next {
      pending_permissions = keep (is_not_for "requestId" request_id) next.pending_permissions;
      items =
          map
            (resolve_permission request_id (record {
              allow = as_bool (get "allow" payload) false;
              by_device = by_device;
              by_name = name_for next by_device;
            }))
            next.items;
    }

abbrev pub is_question : Text → Item → Bool
is_question question_id (question q) = text_eq q.question_id question_id
is_question question_id _ = false

unfoldable pub question_view : Text → Text → Fields
question_view question_id text = field "questionId" (str question_id) (field "text" (str text) end)

unfoldable pub on_question : SessionState → EventPayload → Fields → SessionState
unfolding question_view
on_question next ev payload =
    let question_id = as_string (get "questionId" payload) [] in
    let text = as_string (get "text" payload) [] in
    if is_empty question_id then next else record next {
      pending_questions =
          add_pending "questionId" next.pending_questions (question_view question_id text);
      items =
          if any (is_question question_id) next.items
          then next.items
          else next.items
            ++ question (record {
              id = codes "q-" ++ question_id;
              seq = ev.seq;
              ts = ev.ts;
              question_id = question_id;
              text = text;
              resolved = none;
            })
              ∷ [];
    }

abbrev pub resolve_question : Text → Answer → Item → Item
resolve_question question_id a (question q) =
    if text_eq q.question_id question_id
    then question (record q { resolved = some a })
    else question q
resolve_question question_id a item = item

unfoldable pub on_question_resolved : SessionState → Fields → SessionState
on_question_resolved next payload =
    let question_id = as_string (get "questionId" payload) [] in
    let by_device = as_string (get "byDevice" payload) [] in
    record next {
      pending_questions = keep (is_not_for "questionId" question_id) next.pending_questions;
      items =
          map
            (resolve_question question_id (record {
              text = as_string (get "text" payload) [];
              by_device = by_device;
              by_name = name_for next by_device;
            }))
            next.items;
    }

unfoldable pub on_error : SessionState → EventPayload → Fields → SessionState
on_error next ev payload = record next {
  items =
      push_notice next.items ev.seq ev.ts (as_string (get "message" payload) (codes "agent error"))
        Level.error;
}

unfoldable pub dispatch : Bool → EventKind → SessionState → EventPayload → Fields → SessionState
dispatch has_encoder EventKind.user_prompt next ev payload = on_user_prompt next ev payload
dispatch has_encoder EventKind.text_delta next ev payload =
    on_text_delta has_encoder next ev payload
dispatch has_encoder EventKind.turn_complete next ev payload = on_turn_complete next
dispatch has_encoder EventKind.status_change next ev payload = on_status_change next payload
dispatch has_encoder EventKind.mode_changed next ev payload = on_mode_changed next payload
dispatch has_encoder EventKind.usage_update next ev payload = on_usage_update next payload
dispatch has_encoder EventKind.tool_call_start next ev payload = on_tool_call_start next ev payload
dispatch has_encoder EventKind.tool_call_end next ev payload = on_tool_call_end next ev payload
dispatch has_encoder EventKind.permission_request next ev payload =
    on_permission_request next ev payload
dispatch has_encoder EventKind.permission_resolved next ev payload =
    on_permission_resolved next payload
dispatch has_encoder EventKind.question next ev payload = on_question next ev payload
dispatch has_encoder EventKind.question_resolved next ev payload = on_question_resolved next payload
dispatch has_encoder EventKind.error next ev payload = on_error next ev payload
dispatch has_encoder EventKind.unknown next ev payload = next

unfoldable pub apply_event : Bool → SessionState → EventPayload → SessionState
unfolding dispatch
apply_event has_encoder state ev =
    dispatch has_encoder ev.kind (record state { last_seq = ev.seq }) ev
      (record_or_empty ev.payload)
