-- ===== src/Session/Bodies/Reflected.antt =====
-- reducer.ts against types.ts: after an event of each kind the session is as the body says.
use mathlib.Core.Path.{subst}
use msclaude_connector.Prelude.{
  ◌≡◌, ◌≢◌, refl, sym, ◌⊎◌, inl, inr, Bool, true, false, [], ◌∷◌, Option, none, some, arith, Text,
  codes, text_eq, text_eq→eq, text_eq_refl, any, Bool-cases,
}
use msclaude_connector.Value.{obj, record_or_empty, optional_string}
use msclaude_connector.Wire.{EventKind, EventPayload}
use msclaude_connector.Session.{SessionState, Level}
use msclaude_connector.Session.Stream.Assistant.{
  append_assistant-Appends, seal_open_assistant-Seals,
}
use msclaude_connector.Session.Stream.Notices.{push_notice_lem}
use msclaude_connector.Session.Stream.Tools.{finish_tool-Finishes}
use msclaude_connector.Session.Answered.{
  on_permission_resolved-IsAnswered, on_question_resolved-IsAnswered,
}
use msclaude_connector.Session.Asked.{on_permission_request-IsAsked, on_question-IsAsked}
use msclaude_connector.Session.Events.{
  dispatch, apply_event, is_permission, is_question, on_user_prompt, on_text_delta,
  on_turn_complete, on_status_change, on_mode_changed, on_usage_update, on_tool_call_start,
  on_tool_call_end, on_permission_request, on_question, on_error,
}
use msclaude_connector.Session.Bodies.{
  Body, user_prompt, text_delta, turn_complete, status_change, mode_changed, usage_update,
  tool_call_start, tool_call_end, permission_request, permission_resolved, question_resolved, error,
  unknown, optional_value, tool_fields, fields_of, ToolCallBody, TextDeltaBody,
  PermissionRequestBody, QuestionBody,
}
use msclaude_connector.Client.Replay.Views.{apply_event-last_seq}
use msclaude_connector.Session.Bodies.Reflects.{Reflects}

optional_lem : (o : Option Text) → optional_string (optional_value o) ≡ o
optional_lem none = refl
optional_lem (some s) = refl

delta-Reflects :
    (has_encoder : Bool) (ev : EventPayload) (next : SessionState) (content : Text)
    → let b : TextDeltaBody = record { content = content } in
      Reflects has_encoder ev next
        (text_delta b)
        (on_text_delta has_encoder next ev (fields_of (text_delta b)))
unfolding on_text_delta fields_of
delta-Reflects has_encoder ev next [] = inl (refl, refl)
delta-Reflects has_encoder ev next (x ∷ s) =
    inr ((λ e. cc), append_assistant-Appends has_encoder next.items ev.seq ev.ts (x ∷ s))

running_cases :
    (status : Text)
    → ((status ≡ codes "running") × (text_eq status (codes "running") ≡ true))
      ⊎ ((status ≢ codes "running") × (text_eq status (codes "running") ≡ false))
running_cases status = elim (Bool-cases (text_eq status (codes "running"))) [
  | inl yes_it_is ↦ inl (text_eq→eq status (codes "running") yes_it_is, yes_it_is)
  | inr other ↦
      inr ((λ e. absurd (ground (arith, other, e, text_eq_refl (codes "running")))), other)
]

end-Reflects :
    (has_encoder : Bool) (ev : EventPayload) (next : SessionState) (b : ToolCallBody)
    → Reflects has_encoder ev next (tool_call_end b) (on_tool_call_end next ev (tool_fields b))
unfolding on_tool_call_end
end-Reflects has_encoder ev next b =
    rw (optional_lem b.output) (elim (finish_tool-Finishes next.items b.name b.output) [
      | inl (stuck, none_there) ↦ inr (none_there, rw stuck refl)
      | inr (r, done, f) ↦ inl (rw done f)
    ])

permission-Reflects :
    (has_encoder : Bool) (ev : EventPayload) (next : SessionState) (id kind summary : Text)
    → let b : PermissionRequestBody = record { request_id = id; kind = kind; summary = summary } in
      Reflects has_encoder ev next
        (permission_request b)
        (on_permission_request next ev (fields_of (permission_request b)))
unfolding on_permission_request fields_of
permission-Reflects has_encoder ev next [] kind summary = inl (refl, refl)
permission-Reflects has_encoder ev next (x ∷ s) kind summary =
    let b : PermissionRequestBody = record { request_id = x ∷ s; kind = kind; summary = summary } in
    inr (
      (λ e. cc),
      on_permission_request-IsAsked next ev (fields_of (permission_request b)) refl,
      elim (Bool-cases (any (is_permission (x ∷ s)) next.items)) [
        | inl there ↦ inl (there, rw there refl)
        | inr new ↦ inr (new, rw new refl)
      ],
    )

question-Reflects :
    (has_encoder : Bool) (ev : EventPayload) (next : SessionState) (id text : Text)
    → let b : QuestionBody = record { question_id = id; text = text } in
      Reflects has_encoder ev next
        (Body.question b)
        (on_question next ev (fields_of (Body.question b)))
unfolding on_question fields_of
question-Reflects has_encoder ev next [] text = inl (refl, refl)
question-Reflects has_encoder ev next (x ∷ s) text =
    let b : QuestionBody = record { question_id = x ∷ s; text = text } in
    inr (
      (λ e. cc),
      on_question-IsAsked next ev (fields_of (Body.question b)) refl,
      elim (Bool-cases (any (is_question (x ∷ s)) next.items)) [
        | inl there ↦ inl (there, rw there refl)
        | inr new ↦ inr (new, rw new refl)
      ],
    )

dispatch-Reflects :
    (has_encoder : Bool) (ev : EventPayload) (next : SessionState) {kind : EventKind}
    (b : Body kind)
    → Reflects has_encoder ev next b (dispatch has_encoder kind next ev (fields_of b))
unfolding dispatch fields_of on_user_prompt on_text_delta on_turn_complete on_status_change
    on_mode_changed on_usage_update on_tool_call_start on_error
dispatch-Reflects has_encoder ev next (user_prompt b) =
    ((_, seal_open_assistant-Seals next.items, refl), refl)
dispatch-Reflects has_encoder ev next (text_delta b) = delta-Reflects has_encoder ev next b.content
dispatch-Reflects has_encoder ev next turn_complete = (seal_open_assistant-Seals next.items, refl)
dispatch-Reflects has_encoder ev next (status_change b) = (refl, running_cases b.status, refl)
dispatch-Reflects has_encoder ev next (mode_changed b) = (refl, refl)
dispatch-Reflects has_encoder ev next (usage_update b) = (refl, refl)
dispatch-Reflects has_encoder ev next (tool_call_start b) = rw (optional_lem b.input) refl
dispatch-Reflects has_encoder ev next (tool_call_end b) = end-Reflects has_encoder ev next b
dispatch-Reflects has_encoder ev next (permission_request b) =
    permission-Reflects has_encoder ev next b.request_id b.kind b.summary
dispatch-Reflects has_encoder ev next (permission_resolved b) =
    on_permission_resolved-IsAnswered next (fields_of (permission_resolved b))
dispatch-Reflects has_encoder ev next (Body.question b) =
    question-Reflects has_encoder ev next b.question_id b.text
dispatch-Reflects has_encoder ev next (question_resolved b) =
    on_question_resolved-IsAnswered next (fields_of (question_resolved b))
dispatch-Reflects has_encoder ev next (error message) =
    push_notice_lem next.items ev.seq ev.ts message Level.error
dispatch-Reflects has_encoder ev next unknown = refl

-- After an event whose payload is a body of the type for its kind, the last number is the event's. A
-- prompt is the last item, behind the others, of which the open assistant item is sealed, and the turn
-- is active. Text goes to the open assistant item, or to a new one; the end of a turn seals that item
-- and ends the turn. Status, mode and usage are those of the body, and the turn is active just in the
-- status `running`. A call of a tool is a new last item; its end finishes the last unfinished call of
-- its name, or adds one. A request with an id is pending and shown, by the item that was there or by a
-- new one; its answer takes it off and is on the items that ask for it. An error is a notice behind the
-- others, of which the oldest beyond fifty are dropped. Another kind, or a request without an id,
-- changes nothing else.
pub apply_event-Reflects :
    (has_encoder : Bool) (state : SessionState) (ev : EventPayload) (b : Body ev.kind)
    → ev.payload ≡ obj (fields_of b)
    → let after = apply_event has_encoder state ev in
      Reflects has_encoder ev (record state { last_seq = ev.seq }) b after
      × (after.last_seq ≡ ev.seq)
unfolding apply_event
apply_event-Reflects has_encoder state ev b written =
    let next = record state { last_seq = ev.seq } in
    (
      subst
          (λ v.
            Reflects has_encoder ev next b
              (dispatch has_encoder ev.kind next ev (record_or_empty v)))
          (sym written) (dispatch-Reflects has_encoder ev next b),
      apply_event-last_seq has_encoder state ev,
    )
