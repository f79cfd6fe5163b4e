-- ===== src/Session/Bodies/Reflects.antt =====
-- types.ts: what a body of each kind says of the session after its event.
use msclaude_connector.Prelude.{
  ◌+◌, ◌-◌, ◌≡◌, ◌≢◌, ◌⊎◌, Bool, true, false, not, List, [], ◌∷◌, ◌++◌, none, some, codes, any,
  keep, drop, length,
}
use msclaude_connector.Prelude.Decimal.{decimal}
use msclaude_connector.Wire.{EventKind, EventPayload}
use msclaude_connector.Session.{SessionState, Item, Level, prompt, tool, permission, question}
use msclaude_connector.Session.Names.{name_for}
use msclaude_connector.Session.Stream.{is_notice, max_notices}
use msclaude_connector.Session.Stream.Assistant.{Appends, Seals}
use msclaude_connector.Session.Stream.Notices.{new_notice}
use msclaude_connector.Session.Stream.Tools.{NoneUnfinished, Finishes}
use msclaude_connector.Session.Answered.{resolution_of, answer_of}
use msclaude_connector.Session.Answered.Kept.{IsAnswered}
use msclaude_connector.Session.Asked.{IsAsked}
use msclaude_connector.Session.Events.{is_permission, is_question}
use msclaude_connector.Session.Bodies.{
  Body, user_prompt, text_delta, turn_complete, status_change, mode_changed, usage_update,
  tool_call_start, tool_call_end, permission_request, permission_resolved, question_resolved, error,
  unknown,
}

-- The items of `after` are those of `before`, and `item` behind them.
abbrev pub Adds : SessionState → Item → SessionState → Type 0
Adds before item after = after.items ≡ before.items ++ item ∷ []

abbrev pub Stays : SessionState → SessionState → Type 0
Stays before after = after.items ≡ before.items

-- A request is shown once: by the item that was there, or by a new one.
abbrev pub ShowsOnce : (Item → Bool) → SessionState → Item → SessionState → Type 0
ShowsOnce asks before item after =
    ((any asks before.items ≡ true) × Stays before after)
    ⊎ ((any asks before.items ≡ false) × Adds before item after)

-- What the body says, against the session before and after.
abbrev pub Reflects :
    Bool → EventPayload → SessionState → {kind : EventKind} → Body kind → SessionState → Type 0
Reflects has_encoder ev before (user_prompt b) after =
    ((sealed : List Item) × Seals before.items sealed
      × (after.items
          ≡ sealed
            ++ prompt (record {
              id = codes "prompt-" ++ decimal ev.seq;
              seq = ev.seq;
              ts = ev.ts;
              text = b.text;
              by_device = b.by_device;
            })
              ∷ []))
    × (after.turn_active ≡ true)
Reflects has_encoder ev before (text_delta b) after =
    ((b.content ≡ []) × Stays before after)
    ⊎ ((b.content ≢ []) × Appends has_encoder before.items ev.seq ev.ts b.content after.items)
Reflects has_encoder ev before turn_complete after =
    Seals before.items after.items × (after.turn_active ≡ false)
Reflects has_encoder ev before (status_change b) after =
    (after.status ≡ b.status)
    × (((b.status ≡ codes "running") × (after.turn_active ≡ true))
        ⊎ ((b.status ≢ codes "running") × (after.turn_active ≡ false)))
    × Stays before after
Reflects has_encoder ev before (mode_changed b) after = (after.mode ≡ b.mode) × Stays before after
Reflects has_encoder ev before (usage_update b) after = (after.usage ≡ some b) × Stays before after
Reflects has_encoder ev before (tool_call_start b) after =
    Adds before
      (tool (record {
        id = codes "tool-" ++ decimal ev.seq;
        seq = ev.seq;
        ts = ev.ts;
        name = b.name;
        input = b.input;
        output = none;
        is_done = false;
      }))
      after
Reflects has_encoder ev before (tool_call_end b) after =
    Finishes before.items b.name b.output after.items
    ⊎ (NoneUnfinished b.name before.items
        × Adds before
            (tool (record {
              id = codes "tool-" ++ decimal ev.seq;
              seq = ev.seq;
              ts = ev.ts;
              name = b.name;
              input = none;
              output = b.output;
              is_done = true;
            }))
            after)
Reflects has_encoder ev before (permission_request b) after =
    ((b.request_id ≡ []) × (after ≡ before))
    ⊎ ((b.request_id ≢ [])
        × IsAsked "requestId" b.request_id after.pending_permissions (is_permission b.request_id)
            after.items
        × ShowsOnce (is_permission b.request_id) before
            (permission (record {
              id = codes "perm-" ++ b.request_id;
              seq = ev.seq;
              ts = ev.ts;
              request_id = b.request_id;
              permission_kind = b.kind;
              summary = b.summary;
              resolved = none;
            }))
            after)
Reflects has_encoder ev before (permission_resolved b) after =
    IsAnswered "requestId" b.request_id before.pending_permissions after.pending_permissions
      (is_permission b.request_id)
      (λ i.
        resolution_of i
        ≡ some (record {
          allow = b.allow;
          by_device = b.by_device;
          by_name = name_for before b.by_device;
        }))
      before.items after.items
Reflects has_encoder ev before (Body.question b) after =
    ((b.question_id ≡ []) × (after ≡ before))
    ⊎ ((b.question_id ≢ [])
        × IsAsked "questionId" b.question_id after.pending_questions (is_question b.question_id)
            after.items
        × ShowsOnce (is_question b.question_id) before
            (question (record {
              id = codes "q-" ++ b.question_id;
              seq = ev.seq;
              ts = ev.ts;
              question_id = b.question_id;
              text = b.text;
              resolved = none;
            }))
            after)
Reflects has_encoder ev before (question_resolved b) after =
    IsAnswered "questionId" b.question_id before.pending_questions after.pending_questions
      (is_question b.question_id)
      (λ i.
        answer_of i
        ≡ some (record {
          text = b.text;
          by_device = b.by_device;
          by_name = name_for before b.by_device;
        }))
      before.items after.items
Reflects has_encoder ev before (error message) after =
    (keep is_notice after.items
      ≡ drop (length (keep is_notice before.items) + 1 - max_notices) (
          keep is_notice before.items
          ++ new_notice before.items ev.seq ev.ts message Level.error ∷ []))
    × (keep (λ i. not (is_notice i)) after.items ≡ keep (λ i. not (is_notice i)) before.items)
Reflects has_encoder ev before unknown after = after ≡ before
