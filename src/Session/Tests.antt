-- ===== src/Session/Tests.antt =====
-- Runs of reducer.ts on small sessions, and the reducer's theorems at concrete items and events.
use Prim.Native.Nat.{zero, suc}
use msclaude_connector.Prelude.{
  ℕ, ◌+◌, ◌-◌, ◌≤◌, ◌<◌, ◌≡◌, refl, ◌≢◌, ◌⊎◌, Bool, true, false, List, [], ◌∷◌, ◌++◌, Option, none,
  some, arith, Text, codes, length, drop, keep, not, any, is_empty,
}
use msclaude_connector.Value.{Value, Fields, str, end, field, null}
use msclaude_connector.Wire.{EventKind, EventPayload}
use msclaude_connector.Session.{
  Item, SessionState, NoticeItem, ToolItem, Level, new_session_state, tool, assistant, notice,
  prompt,
}
use msclaude_connector.Session.Stream.{append_assistant, finish_tool}
use msclaude_connector.Session.Stream.Clamp.{clamp_text, text_byte_length, max_text_bytes}
use msclaude_connector.Session.Stream.Clamp.Bounds.{clamp_text_lem}
use msclaude_connector.Session.Stream.Tools.{Finishes, NoneUnfinished, finish_tool-Finishes}
use msclaude_connector.Session.Answered.Kept.{IsAnswered}
use msclaude_connector.Session.Answered.{resolution_of, on_permission_resolved-IsAnswered}
use msclaude_connector.Session.Names.{name_for}
use msclaude_connector.Session.Bodies.{Body, UserPromptBody, fields_of}
use msclaude_connector.Session.Bodies.Reflects.{Reflects}
use msclaude_connector.Session.Bodies.Reflected.{apply_event-Reflects}
use msclaude_connector.Session.Events.{
  apply_event, is_permission, is_question, on_permission_request, on_permission_resolved,
  on_question, on_question_resolved,
}

abbrev prompt_event : EventPayload
prompt_event = record {
  seq = 1;
  ts = null;
  kind = EventKind.user_prompt;
  payload = Value.obj (field "text" (str (codes "hi")) end);
}

abbrev delta_event : ℕ → Text → EventPayload
delta_event n content = record {
  seq = n;
  ts = null;
  kind = EventKind.text_delta;
  payload = Value.obj (field "content" (str content) end);
}

abbrev failure_event : EventPayload
failure_event = record { seq = 3; ts = null; kind = EventKind.error; payload = null }

abbrev running : ToolItem
running = record {
  id = codes "tool-1";
  seq = 1;
  ts = null;
  name = codes "Bash";
  input = some (codes "ls");
  output = none;
  is_done = false;
}

abbrev later_running : ToolItem
later_running = record running { id = codes "tool-2"; seq = 2 }

abbrev two_calls : List Item
two_calls = tool running ∷ tool later_running ∷ []

-- Two deltas in a row grow one item.
two_deltas :
    (apply_event true
      (apply_event true new_session_state (delta_event 1 (codes "a")))
      (delta_event 2 (codes "b"))).items
    ≡ assistant (record {
      id = codes "assistant-1";
      seq = 1;
      ts = null;
      text = codes "ab";
      is_sealed = false;
    })
      ∷ []
unfolding apply_event msclaude_connector.Session.Events.on_text_delta append_assistant
    msclaude_connector.Prelude.Decimal.decimal clamp_text text_byte_length
two_deltas = refl

-- The later of two calls of one name ends first.
later_first :
    finish_tool two_calls (codes "Bash") (some (codes "x"))
    ≡ some (
        tool running
        ∷ tool (record later_running { is_done = true; output = some (codes "x") })
        ∷ [])
unfolding finish_tool msclaude_connector.Prelude.text_eq
later_first = refl

abbrev talk : List Item
talk = append_assistant true two_calls 3 null (codes "a")

finish_tool-Finishes_example :
    ((finish_tool two_calls (codes "Bash") (some (codes "x")) ≡ none)
      × NoneUnfinished (codes "Bash") two_calls)
    ⊎ ((r : List Item) × (finish_tool two_calls (codes "Bash") (some (codes "x")) ≡ some r)
        × Finishes two_calls (codes "Bash") (some (codes "x")) r)
finish_tool-Finishes_example = finish_tool-Finishes two_calls (codes "Bash") (some (codes "x"))

unfoldable repeat : ℕ → ℕ → Text
repeat zero c = []
repeat (suc n) c = c ∷ repeat n c

-- A text beyond the limit.
abbrev long_text : Text
long_text = repeat 300000 b'a'

clamp_text_lem_example :
    (text_byte_length true (clamp_text true long_text) ≤ max_text_bytes)
    × (((text_byte_length true long_text ≤ max_text_bytes)
          × (clamp_text true long_text ≡ long_text))
        ⊎ ((max_text_bytes < text_byte_length true long_text)
            × ((rest : Text) × (rest ≢ []) × (long_text ≡ clamp_text true long_text ++ rest))))
clamp_text_lem_example = clamp_text_lem true long_text

abbrev permission_body : Fields
permission_body =
    field "requestId" (str (codes "r"))
      (field "byDevice" (str (codes "phone")) (field "allow" (Value.bool true) end))

abbrev question_body : Fields
question_body = field "questionId" (str (codes "r")) (field "text" (str (codes "why")) end)

-- A session in which the permission and the question wait for an answer.
abbrev waiting : SessionState
waiting =
    on_question (on_permission_request new_session_state prompt_event permission_body) prompt_event
      question_body

on_permission_resolved-IsAnswered_example :
    let after = on_permission_resolved waiting permission_body in
    IsAnswered "requestId"
      (codes "r")
      waiting.pending_permissions
      after.pending_permissions
      (is_permission (codes "r"))
      (λ i.
        resolution_of i
        ≡ some (record {
          allow = true;
          by_device = codes "phone";
          by_name = name_for waiting (codes "phone");
        }))
      waiting.items
      after.items
on_permission_resolved-IsAnswered_example =
    on_permission_resolved-IsAnswered waiting permission_body

abbrev typed_prompt : UserPromptBody
typed_prompt = record { text = codes "hi"; by_device = codes "phone" }

abbrev typed_event : EventPayload
typed_event = record {
  seq = 3;
  ts = null;
  kind = EventKind.user_prompt;
  payload = Value.obj (fields_of (Body.user_prompt typed_prompt));
}

apply_event-Reflects_example :
    let after = apply_event true new_session_state typed_event in
    Reflects true typed_event
      (record new_session_state { last_seq = 3 })
      (Body.user_prompt typed_prompt)
      after
    × (after.last_seq ≡ 3)
apply_event-Reflects_example =
    apply_event-Reflects true new_session_state typed_event (Body.user_prompt typed_prompt) refl
