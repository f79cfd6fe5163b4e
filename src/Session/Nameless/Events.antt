-- ===== src/Session/Nameless/Events.antt =====
-- `applyEvent` of reducer.ts on the items without device names: they depend on the event and on the
-- items only.
pub mod Dispatch
use msclaude_connector.Prelude.{
  ◌≡◌, refl, sym, ap, ◌∙◌, inl, inr, Bool, List, [], ◌∷◌, ◌++◌, Option, none, some, map, arith,
  Text, codes, any, Option-cases, or_else, if◌then◌else◌,
}
use msclaude_connector.Prelude.Mapped.{any-map}
use msclaude_connector.Value.{Fields, get, as_string, record_or_empty}
use msclaude_connector.Wire.{EventKind, EventPayload}
use msclaude_connector.Session.{
  SessionState, Item, Resolution, Answer, Level, prompt, assistant, tool, permission, question,
  notice,
}
use msclaude_connector.Session.Stream.{
  append_assistant, seal_open_assistant, finish_tool, push_notice,
}
use msclaude_connector.Session.Nameless.{
  nameless, nameless_item, nameless_resolution, nameless_answer, nameless-append,
  append_assistant-nameless, seal_open_assistant-nameless, finish_tool-nameless,
  push_notice-nameless,
}
use msclaude_connector.Session.Events.{
  apply_event, dispatch, on_user_prompt, on_text_delta, on_turn_complete, on_status_change,
  on_mode_changed, on_usage_update, on_tool_call_start, on_tool_call_end, on_permission_request,
  on_permission_resolved, on_question, on_question_resolved, on_error, is_permission, is_question,
  resolve_permission, resolve_question,
}

item-nameless : (x : Item) → nameless_item (nameless_item x) ≡ nameless_item x
item-nameless (prompt x) = refl
item-nameless (assistant x) = refl
item-nameless (tool x) = refl
item-nameless (permission p) =
    elim p.resolved
      as (λ r.
        nameless_item (permission (record p { resolved = nameless_resolution r }))
        ≡ permission (record p { resolved = nameless_resolution r })) [
          | none ↦ refl
          | some r ↦ refl
        ]
item-nameless (question q) =
    elim q.resolved
      as (λ r.
        nameless_item (question (record q { resolved = nameless_answer r }))
        ≡ question (record q { resolved = nameless_answer r })) [ none ↦ refl | some r ↦ refl ]
item-nameless (notice x) = refl

pub nameless-nameless : (items : List Item) → nameless (nameless items) ≡ nameless items
nameless-nameless [] = refl
nameless-nameless (x ∷ items) = rw (item-nameless x, nameless-nameless items)

-- A function on items that sees no names.
pub through :
    (f : List Item → List Item) (items : List Item)
    → f (nameless items) ≡ nameless (f items)
    → nameless (f (nameless items)) ≡ nameless (f items)
through f items e = ap nameless e ∙ nameless-nameless (f items)

pub added :
    (items : List Item) (x : Item)
    → nameless (nameless items ++ x ∷ []) ≡ nameless (items ++ x ∷ [])
added items x =
    nameless-append (nameless items) x
    ∙ ap (λ l. l ++ nameless_item x ∷ []) (nameless-nameless items)
    ∙ sym (nameless-append items x)

pub prompted :
    (items : List Item) (x : Item)
    → nameless (seal_open_assistant (nameless items) ++ x ∷ [])
      ≡ nameless (seal_open_assistant items ++ x ∷ [])
prompted items x =
    ap (λ l. nameless (l ++ x ∷ [])) (seal_open_assistant-nameless items)
    ∙ added (seal_open_assistant items) x

pub ended :
    (items : List Item) (name : Text) (output : Option Text) (x : Item)
    → nameless (or_else (finish_tool (nameless items) name output) (nameless items ++ x ∷ []))
      ≡ nameless (or_else (finish_tool items name output) (items ++ x ∷ []))
ended items name output x = elim (Option-cases (finish_tool items name output)) [
  | inl e ↦ rw (finish_tool-nameless items name output, e) (added items x)
  | inr (r, e) ↦ rw (finish_tool-nameless items name output, e) (nameless-nameless r)
]

pub is_permission-nameless :
    (id : Text) (x : Item) → is_permission id (nameless_item x) ≡ is_permission id x
is_permission-nameless id (prompt x) = refl
is_permission-nameless id (assistant x) = refl
is_permission-nameless id (tool x) = refl
is_permission-nameless id (permission x) = refl
is_permission-nameless id (question x) = refl
is_permission-nameless id (notice x) = refl

pub is_question-nameless :
    (id : Text) (x : Item) → is_question id (nameless_item x) ≡ is_question id x
is_question-nameless id (prompt x) = refl
is_question-nameless id (assistant x) = refl
is_question-nameless id (tool x) = refl
is_question-nameless id (permission x) = refl
is_question-nameless id (question x) = refl
is_question-nameless id (notice x) = refl

-- A card that is added where there is none like it yet.
pub asked :
    (p : Item → Bool)
    → ((x : Item) → p (nameless_item x) ≡ p x)
    → (items : List Item) (x : Item)
    → nameless (if any p (nameless items) then nameless items else nameless items ++ x ∷ [])
      ≡ nameless (if any p items then items else items ++ x ∷ [])
asked p same items x =
    rw (any-map nameless_item p p same items)
      (ground (arith, nameless-nameless items, added items x))

-- Two resolutions of a card that differ in the name.
pub allowed :
    (id : Text) (r r' : Resolution)
    → record r { by_name = [] } ≡ record r' { by_name = [] }
    → (items : List Item)
    → nameless (map (resolve_permission id r') (nameless items))
      ≡ nameless (map (resolve_permission id r) items)
allowed id r r' e [] = refl
allowed id r r' e (x ∷ items) = rw (one x, allowed id r r' e items)
  where
    one :
        (x : Item)
        → nameless_item (resolve_permission id r' (nameless_item x))
          ≡ nameless_item (resolve_permission id r x)
    one (prompt x) = refl
    one (assistant x) = refl
    one (tool x) = refl
    one (permission x) = ground (arith, e, item-nameless (permission x))
    one (question x) = item-nameless (question x)
    one (notice x) = refl

pub answered :
    (id : Text) (a a' : Answer)
    → record a { by_name = [] } ≡ record a' { by_name = [] }
    → (items : List Item)
    → nameless (map (resolve_question id a') (nameless items))
      ≡ nameless (map (resolve_question id a) items)
answered id a a' e [] = refl
answered id a a' e (x ∷ items) = rw (one x, answered id a a' e items)
  where
    one :
        (x : Item)
        → nameless_item (resolve_question id a' (nameless_item x))
          ≡ nameless_item (resolve_question id a x)
    one (prompt x) = refl
    one (assistant x) = refl
    one (tool x) = refl
    one (permission x) = item-nameless (permission x)
    one (question x) = ground (arith, e, item-nameless (question x))
    one (notice x) = refl
