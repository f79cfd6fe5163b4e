-- ===== src/Session/Ids/Events.antt =====
-- The ids of the items under each case of `applyEvent` of reducer.ts.
use msclaude_connector.Prelude.{
  ℕ, ◌<◌, refl, inl, inr, Bool, [], arith, codes, is_empty, any, Bool-cases,
}
use msclaude_connector.Value.{Fields, get, as_string, optional_string, record_or_empty}
use msclaude_connector.Wire.{EventKind, EventPayload}
use msclaude_connector.Session.{SessionState}
use msclaude_connector.Session.Stream.Tools.{finish_tool-Finishes}
use msclaude_connector.Session.Events.{
  on_user_prompt, on_text_delta, on_turn_complete, on_status_change, on_mode_changed,
  on_usage_update, on_tool_call_start, on_tool_call_end, on_permission_request,
  on_permission_resolved, on_question, on_question_resolved, on_error, dispatch, apply_event,
  is_permission, is_question,
}
use msclaude_connector.Session.Ids.{
  HasUniqueIds, HasUniqueIds-mono, HasUniqueIds-append, permission-IsNew, question-IsNew, by_prompt,
  by_tool,
}
use msclaude_connector.Session.Ids.Kept.{
  seal_open_assistant-HasUniqueIds, push_notice-HasUniqueIds, append_assistant-HasUniqueIds,
  Finishes-HasUniqueIds, append_seq-HasUniqueIds, resolve_permission-HasUniqueIds,
  resolve_question-HasUniqueIds,
}

module _ (last : ℕ) (next : SessionState) (ev : EventPayload) (payload : Fields)
    (u : HasUniqueIds last next.items) (later : last < ev.seq) where
  abbrev Kept : SessionState → Type 0
  Kept s = HasUniqueIds ev.seq s.items

  same : Kept next
  same = HasUniqueIds-mono last ev.seq (omega arith) u

  on_user_prompt-Kept : Kept (on_user_prompt next ev payload)
  unfolding on_user_prompt
  on_user_prompt-Kept =
      append_seq-HasUniqueIds last _ (seal_open_assistant-HasUniqueIds last next.items u) by_prompt
        _ ev.seq refl (refl, omega arith) later

  on_text_delta-Kept : (has_encoder : Bool) → Kept (on_text_delta has_encoder next ev payload)
  unfolding on_text_delta
  on_text_delta-Kept has_encoder =
      elim (Bool-cases (is_empty (as_string (get "content" payload) []))) [
        | inl e ↦ rw e same
        | inr e ↦
            rw e (append_assistant-HasUniqueIds last next.items u has_encoder ev.seq ev.ts _ later)
      ]

  on_turn_complete-Kept : Kept (on_turn_complete next)
  unfolding on_turn_complete
  on_turn_complete-Kept =
      HasUniqueIds-mono last ev.seq (omega arith)
        (seal_open_assistant-HasUniqueIds last next.items u)

  on_tool_call_start-Kept : Kept (on_tool_call_start next ev payload)
  unfolding on_tool_call_start
  on_tool_call_start-Kept =
      append_seq-HasUniqueIds last next.items u by_tool _ ev.seq refl (refl, omega arith) later

  on_tool_call_end-Kept : Kept (on_tool_call_end next ev payload)
  unfolding on_tool_call_end
  on_tool_call_end-Kept =
      let name = as_string (get "name" payload) (codes "tool") in
      let output = optional_string (get "output" payload) in
      elim (finish_tool-Finishes next.items name output) [
        | inl (stuck, _) ↦ rw stuck (
            append_seq-HasUniqueIds last next.items u by_tool _ ev.seq refl (refl, omega arith)
              later)
        | inr (r, done, f) ↦ rw done (
            HasUniqueIds-mono last ev.seq (omega arith)
              (Finishes-HasUniqueIds last next.items u name output f))
      ]

  on_permission_request-Kept : Kept (on_permission_request next ev payload)
  unfolding on_permission_request
  on_permission_request-Kept =
      let request_id = as_string (get "requestId" payload) [] in
      elim (Bool-cases (is_empty request_id)) [
        | inl e ↦ rw e same
        | inr e ↦ elim (Bool-cases (any (is_permission request_id) next.items)) [
          | inl old ↦ rw (e, old) same
          | inr new ↦
              rw (e, new)
                (HasUniqueIds-append last ev.seq next.items _ (omega arith) u (refl, omega arith)
                  (permission-IsNew request_id next.items last u.marked new))
        ]
      ]

  on_question-Kept : Kept (on_question next ev payload)
  unfolding on_question
  on_question-Kept =
      let question_id = as_string (get "questionId" payload) [] in
      elim (Bool-cases (is_empty question_id)) [
        | inl e ↦ rw e same
        | inr e ↦ elim (Bool-cases (any (is_question question_id) next.items)) [
          | inl old ↦ rw (e, old) same
          | inr new ↦
              rw (e, new)
                (HasUniqueIds-append last ev.seq next.items _ (omega arith) u (refl, omega arith)
                  (question-IsNew question_id next.items last u.marked new))
        ]
      ]

  on_permission_resolved-Kept : Kept (on_permission_resolved next payload)
  unfolding on_permission_resolved
  on_permission_resolved-Kept =
      HasUniqueIds-mono last ev.seq (omega arith)
        (resolve_permission-HasUniqueIds last next.items u _ _)

  on_question_resolved-Kept : Kept (on_question_resolved next payload)
  unfolding on_question_resolved
  on_question_resolved-Kept =
      HasUniqueIds-mono last ev.seq (omega arith)
        (resolve_question-HasUniqueIds last next.items u _ _)

  on_error-Kept : Kept (on_error next ev payload)
  unfolding on_error
  on_error-Kept = push_notice-HasUniqueIds last next.items u ev.seq ev.ts _ _ later

  dispatch-Kept :
      (has_encoder : Bool) (kind : EventKind) → Kept (dispatch has_encoder kind next ev payload)
  unfolding dispatch on_status_change on_mode_changed on_usage_update
  dispatch-Kept has_encoder EventKind.user_prompt = on_user_prompt-Kept
  dispatch-Kept has_encoder EventKind.text_delta = on_text_delta-Kept has_encoder
  dispatch-Kept has_encoder EventKind.turn_complete = on_turn_complete-Kept
  dispatch-Kept has_encoder EventKind.tool_call_start = on_tool_call_start-Kept
  dispatch-Kept has_encoder EventKind.tool_call_end = on_tool_call_end-Kept
  dispatch-Kept has_encoder EventKind.permission_request = on_permission_request-Kept
  dispatch-Kept has_encoder EventKind.permission_resolved = on_permission_resolved-Kept
  dispatch-Kept has_encoder EventKind.question = on_question-Kept
  dispatch-Kept has_encoder EventKind.question_resolved = on_question_resolved-Kept
  dispatch-Kept has_encoder EventKind.error = on_error-Kept
  dispatch-Kept has_encoder _ = same

-- An event later than those of the items leaves each item with the id of its kind and number, and
-- no two items with one id: the keys of the rendered list stay distinct.
pub apply_event-HasUniqueIds :
    (has_encoder : Bool) (state : SessionState) (ev : EventPayload)
    → HasUniqueIds state.last_seq state.items
    → state.last_seq < ev.seq
    → HasUniqueIds ev.seq (apply_event has_encoder state ev).items
unfolding apply_event
apply_event-HasUniqueIds has_encoder state ev u later =
    dispatch-Kept state.last_seq (record state { last_seq = ev.seq }) ev
      (record_or_empty ev.payload) u later has_encoder ev.kind
