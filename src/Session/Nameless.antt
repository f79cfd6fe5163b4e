-- ===== src/Session/Nameless.antt =====
-- reducer.ts: the items of a session without the device names that resolved cards were given, and
-- the operations on lists of items under that view.
-- A name comes from the snapshots that a client happened to see; all else comes from the events.
pub mod Events
use mathlib.Core.Option
use mathlib.Core.List.{map-append}
use msclaude_connector.Prelude.{
  ℕ, zero, suc, ◌+◌, ◌-◌, ◌≡◌, refl, sym, ap, ◌∙◌, inl, inr, Bool, List, [], ◌∷◌, ◌++◌, Option,
  none, some, map, Text, codes, length, take, drop, get_elem?, get_last?, drop_last, any, leb,
  if_cases, Option-cases, or_else, arith,
}
use msclaude_connector.Prelude.Mapped.{
  length-map, take-map, drop-map, get_elem?-map, get_last?-map, drop_last-map,
}
use msclaude_connector.Prelude.Decimal.{decimal}
use msclaude_connector.Value.{Value}
use msclaude_connector.Session.{
  Item, AssistantItem, ToolItem, Resolution, Answer, Level, prompt, assistant, tool, permission,
  question, notice,
}
use msclaude_connector.Session.Stream.{
  open_assistant, append_assistant, seal_open_assistant, unfinished, unfinished_at, finish,
  finish_below, finish_tool, is_notice, max_notices, notice_indexes, without_indexes, cap_notices,
  push_notice, trim_items,
}

abbrev pub nameless_resolution : Option Resolution → Option Resolution
nameless_resolution none = none
nameless_resolution (some r) = some (record r { by_name = [] })

abbrev pub nameless_answer : Option Answer → Option Answer
nameless_answer none = none
nameless_answer (some a) = some (record a { by_name = [] })

abbrev pub nameless_item : Item → Item
nameless_item (permission p) = permission (record p { resolved = nameless_resolution p.resolved })
nameless_item (question q) = question (record q { resolved = nameless_answer q.resolved })
nameless_item item = item

-- The items without the names.
abbrev pub nameless : List Item → List Item
nameless items = map nameless_item items

open_assistant-nameless :
    (last : Option Item) → open_assistant (Option.map nameless_item last) ≡ open_assistant last
open_assistant-nameless none = refl
open_assistant-nameless (some (prompt x)) = refl
open_assistant-nameless (some (assistant x)) = refl
open_assistant-nameless (some (tool x)) = refl
open_assistant-nameless (some (permission x)) = refl
open_assistant-nameless (some (question x)) = refl
open_assistant-nameless (some (notice x)) = refl

last_open-nameless :
    (items : List Item)
    → open_assistant (get_last? (nameless items)) ≡ open_assistant (get_last? items)
last_open-nameless items =
    ap open_assistant (get_last?-map nameless_item items)
    ∙ open_assistant-nameless (get_last? items)

pub nameless-append :
    (xs : List Item) (x : Item) → nameless (xs ++ x ∷ []) ≡ nameless xs ++ nameless_item x ∷ []
nameless-append xs x = map-append nameless_item xs (x ∷ [])

pub append_assistant-nameless :
    (has_encoder : Bool) (items : List Item) (seq : ℕ) (ts : Value) (content : Text)
    → append_assistant has_encoder (nameless items) seq ts content
      ≡ nameless (append_assistant has_encoder items seq ts content)
unfolding append_assistant
append_assistant-nameless has_encoder items seq ts content =
    elim (Option-cases (open_assistant (get_last? items))) [
      | inl e ↦ rw (last_open-nameless items, e, append_assistant) (sym (nameless-append items _))
      | inr (a, e) ↦
          rw (last_open-nameless items, e, append_assistant, drop_last-map nameless_item items)
            (sym (nameless-append (drop_last items) _))
    ]

pub seal_open_assistant-nameless :
    (items : List Item)
    → seal_open_assistant (nameless items) ≡ nameless (seal_open_assistant items)
unfolding seal_open_assistant
seal_open_assistant-nameless items = elim (Option-cases (open_assistant (get_last? items))) [
  | inl e ↦ rw (last_open-nameless items, e, seal_open_assistant) refl
  | inr (a, e) ↦
      rw (last_open-nameless items, e, seal_open_assistant, drop_last-map nameless_item items)
        (sym (nameless-append (drop_last items) _))
]

unfinished-nameless :
    (name : Text) (item : Option Item)
    → unfinished_at name (Option.map nameless_item item) ≡ unfinished_at name item
unfinished-nameless name none = refl
unfinished-nameless name (some (prompt x)) = refl
unfinished-nameless name (some (assistant x)) = refl
unfinished-nameless name (some (tool x)) = refl
unfinished-nameless name (some (permission x)) = refl
unfinished-nameless name (some (question x)) = refl
unfinished-nameless name (some (notice x)) = refl

module _ (items : List Item) (name : Text) (output : Option Text) where
  finish_below-nameless :
      (i : ℕ)
      → finish_below (nameless items) name output i
        ≡ Option.map nameless (finish_below items name output i)
  unfolding finish_below
  finish_below-nameless zero = refl
  finish_below-nameless (suc i) = elim (Option-cases (unfinished_at name (get_elem? items i))) [
    | inl e ↦
        rw
          (
            get_elem?-map nameless_item items i,
            unfinished-nameless name (get_elem? items i),
            e,
            finish_below,
          )
          (finish_below-nameless i)
    | inr (t, e) ↦
        rw
          (
            get_elem?-map nameless_item items i,
            unfinished-nameless name (get_elem? items i),
            e,
            take-map nameless_item i items,
            drop-map nameless_item (suc i) items,
            finish_below,
          )
          (ap some (sym (map-append nameless_item (take i items) _)))
  ]

  pub finish_tool-nameless :
      finish_tool (nameless items) name output ≡ Option.map nameless (finish_tool items name output)
  unfolding finish_tool
  finish_tool-nameless =
      ap (finish_below (nameless items) name output) (length-map nameless_item items)
      ∙ finish_below-nameless (length items)

is_notice-nameless : (item : Item) → is_notice (nameless_item item) ≡ is_notice item
is_notice-nameless (prompt x) = refl
is_notice-nameless (assistant x) = refl
is_notice-nameless (tool x) = refl
is_notice-nameless (permission x) = refl
is_notice-nameless (question x) = refl
is_notice-nameless (notice x) = refl

notice_indexes-nameless :
    (i : ℕ) (items : List Item) → notice_indexes i (nameless items) ≡ notice_indexes i items
unfolding notice_indexes
notice_indexes-nameless i [] = refl
notice_indexes-nameless i (x ∷ items) =
    rw (is_notice-nameless x, notice_indexes-nameless (i + 1) items)

without_indexes-nameless :
    (i : ℕ) (drops : List ℕ) (items : List Item)
    → without_indexes i drops (nameless items) ≡ nameless (without_indexes i drops items)
unfolding without_indexes
without_indexes-nameless i drops [] = refl
without_indexes-nameless i drops (x ∷ items) =
    ground (arith, without_indexes-nameless (i + 1) drops items)

cap_notices-nameless :
    (items : List Item) → cap_notices (nameless items) ≡ nameless (cap_notices items)
unfolding cap_notices
cap_notices-nameless items = rw (notice_indexes-nameless 0 items) (
    ground (
      arith,
      without_indexes-nameless 0
          (take (length (notice_indexes 0 items) - max_notices) (notice_indexes 0 items)) items,
    ))

pub push_notice-nameless :
    (items : List Item) (seq : ℕ) (ts : Value) (text : Text) (level : Level)
    → push_notice (nameless items) seq ts text level
      ≡ nameless (push_notice items seq ts text level)
unfolding push_notice
push_notice-nameless items seq ts text level =
    let item = notice (record {
      id = codes "notice-" ++ decimal seq;
      seq = seq;
      ts = ts;
      text = text;
      level = level;
    }) in
    ap cap_notices (sym (nameless-append items item)) ∙ cap_notices-nameless (items ++ item ∷ [])

pub trim_items-nameless :
    (items : List Item) (max : ℕ)
    → trim_items (nameless items) max ≡ nameless (trim_items items max)
unfolding trim_items
trim_items-nameless items max =
    rw (length-map nameless_item items)
      (ground (arith, drop-map nameless_item (length items - max) items))
