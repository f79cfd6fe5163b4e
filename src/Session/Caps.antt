-- ===== src/Session/Caps.antt =====
-- The number of notices under `applyEvent` of reducer.ts.
use mathlib.Core.Path.{subst}
use msclaude_connector.Prelude.{
  ℕ, zero, suc, ◌+◌, ◌-◌, ◌≤◌, ◌≡◌, refl, sym, ap, ◌∙◌, inl, inr, Bool, false, List, [], ◌∷◌, ◌++◌,
  Option, none, some, map, arith, Text, codes, is_empty, any, keep, length, length-append,
  length-drop, drop, leb, if_cases,
}
use msclaude_connector.Value.{Value, Fields, get, as_string, optional_string, record_or_empty}
use msclaude_connector.Wire.{EventKind, EventPayload}
use msclaude_connector.Session.{
  Item, SessionState, ToolItem, Resolution, Answer, Level, assistant, tool, permission, question,
}
use msclaude_connector.Session.Stream.{
  is_notice, max_notices, append_assistant, seal_open_assistant, trim_items, finish,
}
use msclaude_connector.Session.Stream.Assistant.{
  append_assistant-Appends, seal_open_assistant-Seals,
}
use msclaude_connector.Session.Stream.Notices.{push_notice_lem, keep-append}
use msclaude_connector.Session.Stream.Tools.{finish_tool-Finishes}
use msclaude_connector.Session.Events.{
  on_user_prompt, on_text_delta, on_turn_complete, on_status_change, on_mode_changed,
  on_usage_update, on_tool_call_start, on_tool_call_end, on_permission_request,
  on_permission_resolved, on_question, on_question_resolved, on_error, dispatch, apply_event,
  is_permission, is_question, resolve_permission, resolve_question,
}

abbrev pub notice_count : List Item → ℕ
notice_count items = length (keep is_notice items)

notice_count-append :
    (xs ys : List Item) → notice_count (xs ++ ys) ≡ notice_count xs + notice_count ys
notice_count-append xs ys =
    ap length (keep-append is_notice xs ys) ∙ length-append (keep is_notice xs) (keep is_notice ys)

-- An item that is no notice, in the place of another.
replace :
    (before : List Item) (x y : Item) (after : List Item)
    → is_notice x ≡ false
    → is_notice y ≡ false
    → notice_count (before ++ y ∷ after) ≡ notice_count (before ++ x ∷ after)
replace [] x y after p q = ground arith
replace (b ∷ before) x y after p q = ground (arith, replace before x y after p q)

seal_count : (items : List Item) → notice_count (seal_open_assistant items) ≡ notice_count items
seal_count items = elim (seal_open_assistant-Seals items) [
  | inl (_, e) ↦ ap notice_count e
  | inr (before, a, o, e) ↦
      ap notice_count e
      ∙ replace before (assistant a) _ [] refl refl
      ∙ ap notice_count (sym o.split)
]

append_count :
    (has_encoder : Bool) (items : List Item) (seq : ℕ) (ts : Value) (content : Text)
    → notice_count (append_assistant has_encoder items seq ts content) ≡ notice_count items
append_count has_encoder items seq ts content =
    elim (append_assistant-Appends has_encoder items seq ts content) [
      | inl (_, e) ↦ ap notice_count e ∙ notice_count-append items _ ∙ omega arith
      | inr (before, a, o, e) ↦
          ap notice_count e
          ∙ replace before (assistant a) _ [] refl refl
          ∙ ap notice_count (sym o.split)
    ]

finish-is_notice :
    (t : ToolItem) (output : Option Text) → is_notice (tool (finish t output)) ≡ false
finish-is_notice t none = refl
finish-is_notice t (some out) = refl

map_count :
    (f : Item → Item)
    → ((i : Item) → is_notice (f i) ≡ is_notice i)
    → (items : List Item) → notice_count (map f items) ≡ notice_count items
map_count f same [] = refl
map_count f same (i ∷ items) = ground (arith, same i, map_count f same items)

resolve_permission-is_notice :
    (id : Text) (r : Resolution) (i : Item) → is_notice (resolve_permission id r i) ≡ is_notice i
resolve_permission-is_notice id r (permission p) = ground arith
resolve_permission-is_notice id r _ = refl

resolve_question-is_notice :
    (id : Text) (a : Answer) (i : Item) → is_notice (resolve_question id a i) ≡ is_notice i
resolve_question-is_notice id a (question p) = ground arith
resolve_question-is_notice id a _ = refl

module _ (next : SessionState) (ev : EventPayload) (payload : Fields)
    (h : notice_count next.items ≤ max_notices) where
  abbrev Capped : SessionState → Type 0
  Capped s = notice_count s.items ≤ max_notices

  on_user_prompt-Capped : Capped (on_user_prompt next ev payload)
  unfolding on_user_prompt
  on_user_prompt-Capped =
      omega (arith, notice_count-append (seal_open_assistant next.items), seal_count next.items)

  on_text_delta-Capped : (has_encoder : Bool) → Capped (on_text_delta has_encoder next ev payload)
  unfolding on_text_delta
  on_text_delta-Capped has_encoder =
      if_cases Capped (is_empty (as_string (get "content" payload) [])) _ _ (λ _. h)
        (λ _. omega (
          arith,
          append_count has_encoder next.items ev.seq ev.ts (as_string (get "content" payload) []),
        ))

  on_turn_complete-Capped : Capped (on_turn_complete next)
  unfolding on_turn_complete
  on_turn_complete-Capped = omega (arith, seal_count next.items)

  on_tool_call_start-Capped : Capped (on_tool_call_start next ev payload)
  unfolding on_tool_call_start
  on_tool_call_start-Capped = omega (arith, notice_count-append next.items)

  on_tool_call_end-Capped : Capped (on_tool_call_end next ev payload)
  unfolding on_tool_call_end
  on_tool_call_end-Capped =
      let name = as_string (get "name" payload) (codes "tool") in
      let output = optional_string (get "output" payload) in
      elim (finish_tool-Finishes next.items name output) [
        | inl (stuck, _) ↦ rw stuck (omega (arith, notice_count-append next.items))
        | inr (r, done, f) ↦ rw done (
            omega (
              arith,
              ap notice_count f.replaced,
              ap notice_count f.found,
              replace f.before (tool f.call) (tool (finish f.call output)) f.after refl
                  (finish-is_notice f.call output),
            ))
      ]

  on_permission_request-Capped : Capped (on_permission_request next ev payload)
  unfolding on_permission_request
  on_permission_request-Capped =
      if_cases Capped (is_empty (as_string (get "requestId" payload) [])) _ _ (λ _. h)
        (λ _.
          if_cases (λ is. notice_count is ≤ max_notices)
            (any (is_permission (as_string (get "requestId" payload) [])) next.items) _ _ (λ _. h)
            (λ _. omega (arith, notice_count-append next.items)))

  on_question-Capped : Capped (on_question next ev payload)
  unfolding on_question
  on_question-Capped =
      if_cases Capped (is_empty (as_string (get "questionId" payload) [])) _ _ (λ _. h)
        (λ _.
          if_cases (λ is. notice_count is ≤ max_notices)
            (any (is_question (as_string (get "questionId" payload) [])) next.items) _ _ (λ _. h)
            (λ _. omega (arith, notice_count-append next.items)))

  on_permission_resolved-Capped : Capped (on_permission_resolved next payload)
  unfolding on_permission_resolved
  on_permission_resolved-Capped =
      subst (λ n. n ≤ max_notices) (sym (map_count _ (resolve_permission-is_notice _ _) next.items))
        h

  on_question_resolved-Capped : Capped (on_question_resolved next payload)
  unfolding on_question_resolved
  on_question_resolved-Capped =
      subst (λ n. n ≤ max_notices) (sym (map_count _ (resolve_question-is_notice _ _) next.items)) h

  on_error-Capped : Capped (on_error next ev payload)
  unfolding on_error
  on_error-Capped = omega (
    arith,
    ap length
        (push_notice_lem next.items ev.seq ev.ts
          (as_string (get "message" payload) (codes "agent error")) Level.error).0,
    length-drop {0},
    length-append {0},
  )

  dispatch-Capped :
      (has_encoder : Bool) (kind : EventKind) → Capped (dispatch has_encoder kind next ev payload)
  unfolding dispatch on_status_change on_mode_changed on_usage_update
  dispatch-Capped has_encoder EventKind.user_prompt = on_user_prompt-Capped
  dispatch-Capped has_encoder EventKind.text_delta = on_text_delta-Capped has_encoder
  dispatch-Capped has_encoder EventKind.turn_complete = on_turn_complete-Capped
  dispatch-Capped has_encoder EventKind.tool_call_start = on_tool_call_start-Capped
  dispatch-Capped has_encoder EventKind.tool_call_end = on_tool_call_end-Capped
  dispatch-Capped has_encoder EventKind.permission_request = on_permission_request-Capped
  dispatch-Capped has_encoder EventKind.permission_resolved = on_permission_resolved-Capped
  dispatch-Capped has_encoder EventKind.question = on_question-Capped
  dispatch-Capped has_encoder EventKind.question_resolved = on_question_resolved-Capped
  dispatch-Capped has_encoder EventKind.error = on_error-Capped
  dispatch-Capped has_encoder _ = h

-- A state with at most fifty notices has at most fifty after any event.
pub apply_event-notice_count :
    (has_encoder : Bool) (state : SessionState) (ev : EventPayload)
    → notice_count state.items ≤ max_notices
    → notice_count (apply_event has_encoder state ev).items ≤ max_notices
unfolding apply_event
apply_event-notice_count has_encoder state ev h =
    dispatch-Capped (record state { last_seq = ev.seq }) ev (record_or_empty ev.payload) h
      has_encoder ev.kind

drop_count : (n : ℕ) (items : List Item) → notice_count (drop n items) ≤ notice_count items
drop_count zero items = omega arith
drop_count (suc n) [] = omega arith
drop_count (suc n) (i ∷ items) = ground (arith, drop_count n items)

pub trim_items-notice_count :
    (items : List Item) (max : ℕ) → notice_count (trim_items items max) ≤ notice_count items
unfolding trim_items
trim_items-notice_count items max =
    if_cases (λ is. notice_count is ≤ notice_count items) (leb (length items) max) _ _
      (λ _. omega arith) (λ _. drop_count (length items - max) items)
