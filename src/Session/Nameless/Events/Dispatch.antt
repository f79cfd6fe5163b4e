-- ===== src/Session/Nameless/Events/Dispatch.antt =====
-- `applyEvent` of reducer.ts in two sessions whose items differ in the names of devices.
use msclaude_connector.Prelude.{◌≡◌, refl, Bool, [], ◌++◌, none, arith, codes}
use msclaude_connector.Value.{Fields, get, as_string, record_or_empty}
use msclaude_connector.Wire.{EventKind, EventPayload}
use msclaude_connector.Session.{SessionState, Level, permission, question}
use msclaude_connector.Session.Stream.{append_assistant, seal_open_assistant, push_notice}
use msclaude_connector.Session.Nameless.{
  nameless, append_assistant-nameless, seal_open_assistant-nameless, push_notice-nameless,
}
use msclaude_connector.Session.Events.{
  apply_event, dispatch, on_user_prompt, on_text_delta, on_turn_complete, on_status_change,
  on_mode_changed, on_usage_update, on_tool_call_start, on_tool_call_end, on_permission_request,
  on_permission_resolved, on_question, on_question_resolved, on_error, is_permission, is_question,
}
use msclaude_connector.Session.Nameless.Events.{
  nameless-nameless, through, added, prompted, ended, is_permission-nameless, is_question-nameless,
  asked, allowed, answered,
}

-- Two sessions whose items differ in names, and the rest of which may differ in anything.
module _ (has_encoder : Bool) (s u : SessionState) (ev : EventPayload) (payload : Fields) where
  abbrev nameless_of : SessionState
  nameless_of = record u { items = nameless s.items }

  delta_nameless :
      nameless (on_text_delta has_encoder nameless_of ev payload).items
      ≡ nameless (on_text_delta has_encoder s ev payload).items
  unfolding on_text_delta
  delta_nameless =
      let content = as_string (get "content" payload) [] in
      ground (
        arith,
        nameless-nameless s.items,
        through (λ l. append_assistant has_encoder l ev.seq ev.ts content) s.items
            (append_assistant-nameless has_encoder s.items ev.seq ev.ts content),
      )

  request_nameless :
      nameless (on_permission_request nameless_of ev payload).items
      ≡ nameless (on_permission_request s ev payload).items
  unfolding on_permission_request
  request_nameless =
      let id = as_string (get "requestId" payload) [] in
      ground (
        arith,
        nameless-nameless s.items,
        asked (is_permission id) (is_permission-nameless id) s.items (
            permission (record {
              id = codes "perm-" ++ id;
              seq = ev.seq;
              ts = ev.ts;
              request_id = id;
              permission_kind = as_string (get "kind" payload) (codes "permission");
              summary = as_string (get "summary" payload) [];
              resolved = none;
            })),
      )

  question_nameless :
      nameless (on_question nameless_of ev payload).items
      ≡ nameless (on_question s ev payload).items
  unfolding on_question
  question_nameless =
      let id = as_string (get "questionId" payload) [] in
      ground (
        arith,
        nameless-nameless s.items,
        asked (is_question id) (is_question-nameless id) s.items (
            question (record {
              id = codes "q-" ++ id;
              seq = ev.seq;
              ts = ev.ts;
              question_id = id;
              text = as_string (get "text" payload) [];
              resolved = none;
            })),
      )

  dispatch-nameless :
      (kind : EventKind)
      → nameless (dispatch has_encoder kind nameless_of ev payload).items
        ≡ nameless (dispatch has_encoder kind s ev payload).items
  unfolding dispatch on_user_prompt on_turn_complete on_status_change on_mode_changed
      on_usage_update on_tool_call_start on_tool_call_end on_permission_resolved
      on_question_resolved on_error
  dispatch-nameless EventKind.user_prompt = prompted s.items _
  dispatch-nameless EventKind.text_delta = delta_nameless
  dispatch-nameless EventKind.turn_complete =
      through seal_open_assistant s.items (seal_open_assistant-nameless s.items)
  dispatch-nameless EventKind.status_change = nameless-nameless s.items
  dispatch-nameless EventKind.mode_changed = nameless-nameless s.items
  dispatch-nameless EventKind.usage_update = nameless-nameless s.items
  dispatch-nameless EventKind.tool_call_start = added s.items _
  dispatch-nameless EventKind.tool_call_end = ended s.items _ _ _
  dispatch-nameless EventKind.permission_request = request_nameless
  dispatch-nameless EventKind.permission_resolved = allowed _ _ _ refl s.items
  dispatch-nameless EventKind.question = question_nameless
  dispatch-nameless EventKind.question_resolved = answered _ _ _ refl s.items
  dispatch-nameless EventKind.error =
      through (λ l. push_notice l ev.seq ev.ts _ Level.error) s.items
        (push_notice-nameless s.items ev.seq ev.ts _ Level.error)
  dispatch-nameless EventKind.unknown = nameless-nameless s.items

-- Up to the names, the items after an event depend on the event and on the items before it, not on
-- the rest of the session.
pub apply_event-nameless :
    (has_encoder : Bool) (s u : SessionState) (ev : EventPayload)
    → nameless (apply_event has_encoder (record u { items = nameless s.items }) ev).items
      ≡ nameless (apply_event has_encoder s ev).items
unfolding apply_event
apply_event-nameless has_encoder s u ev =
    dispatch-nameless has_encoder (record s { last_seq = ev.seq }) (record u { last_seq = ev.seq })
      ev (record_or_empty ev.payload) ev.kind
