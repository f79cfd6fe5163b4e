-- ===== src/Session/Stream.antt =====
-- reducer.ts: the operations on the list of items. `has_encoder` says whether the platform has a
-- `TextEncoder`; where it has, the length of a text is that of its UTF-8 form.
pub mod Clamp
pub mod Tools
pub mod Notices
pub mod Assistant
use msclaude_connector.Prelude.{
  ℕ, zero, suc, ◌+◌, ◌-◌, Bool, true, false, ◌&&◌, not, ◌≡◌, List, [], ◌∷◌, ◌++◌, Option, none,
  some, Text, codes, text_eq, ltb, leb, ◌==◌, if◌then◌else◌, length, take, drop, any, get_elem?,
  get_last?, drop_last, or_else,
}
use msclaude_connector.Value.{Value}
use msclaude_connector.Session.{
  Item, AssistantItem, ToolItem, NoticeItem, Level, prompt, assistant, tool, permission, question,
  notice,
}
use msclaude_connector.Prelude.Decimal.{decimal}
use Clamp.{clamp_text}

abbrev pub max_notices : ℕ
max_notices = 50

-- `last && last.kind === 'assistant' && !last.sealed`
abbrev pub open_assistant : Option Item → Option AssistantItem
open_assistant (some (assistant a)) = if a.is_sealed then none else some a
open_assistant _ = none

-- `appendAssistant`
unfoldable pub append_assistant : Bool → List Item → ℕ → Value → Text → List Item
append_assistant has_encoder items seq ts content = elim (open_assistant (get_last? items)) [
  | some last ↦
      drop_last items
      ++ assistant (record last { text = clamp_text has_encoder (last.text ++ content) }) ∷ []
  | none ↦
      items
      ++ assistant (record {
        id = codes "assistant-" ++ decimal seq;
        seq = seq;
        ts = ts;
        text = clamp_text has_encoder content;
        is_sealed = false;
      })
        ∷ []
]

-- `sealOpenAssistant`
unfoldable pub seal_open_assistant : List Item → List Item
seal_open_assistant items = elim (open_assistant (get_last? items)) [
  | some last ↦ drop_last items ++ assistant (record last { is_sealed = true }) ∷ []
  | none ↦ items
]

-- `item.kind === 'tool' && !item.done && item.name === name`
abbrev pub unfinished : Text → Item → Option ToolItem
unfinished name (tool t) = if not t.is_done && text_eq t.name name then some t else none
unfinished name _ = none

-- The item that replaces it; `output` is kept where none is given.
abbrev pub finish : ToolItem → Option Text → ToolItem
finish t none = record t { is_done = true }
finish t (some out) = record t { is_done = true; output = some out }

abbrev pub unfinished_at : Text → Option Item → Option ToolItem
unfinished_at name none = none
unfinished_at name (some item) = unfinished name item

-- The loop of `finishTool`, with the positions below `i` left; `none` is `matched: false`.
unfoldable pub finish_below : List Item → Text → Option Text → ℕ → Option (List Item)
finish_below items name output zero = none
finish_below items name output (suc i) =
    let rest = finish_below items name output i in
    elim (unfinished_at name (get_elem? items i)) [
      | some t ↦ some (take i items ++ tool (finish t output) ∷ drop (suc i) items)
      | none ↦ rest
    ]

unfoldable pub finish_tool : List Item → Text → Option Text → Option (List Item)
unfolding finish_below
finish_tool items name output = finish_below items name output (length items)

abbrev pub is_notice : Item → Bool
is_notice (notice n) = true
is_notice _ = false

-- The positions, counted from `i`, of the notices.
unfoldable pub notice_indexes : ℕ → List Item → List ℕ
notice_indexes i [] = []
notice_indexes i (item ∷ items) =
    let rest = notice_indexes (i + 1) items in if is_notice item then i ∷ rest else rest

-- `items.filter((_, idx) => !drop.has(idx))`
unfoldable pub without_indexes : ℕ → List ℕ → List Item → List Item
without_indexes i drops [] = []
without_indexes i drops (item ∷ items) =
    let rest = without_indexes (i + 1) drops items in
    if any (λ k. k == i) drops then rest else item ∷ rest

-- `pushNotice`, from the list with the new notice on.
unfoldable pub cap_notices : List Item → List Item
unfolding notice_indexes without_indexes
cap_notices items =
    let indexes = notice_indexes 0 items in
    if leb (length indexes) max_notices
    then items
    else without_indexes 0 (take (length indexes - max_notices) indexes) items

unfoldable pub push_notice : List Item → ℕ → Value → Text → Level → List Item
unfolding cap_notices
push_notice items seq ts text level = cap_notices (
    items
    ++ notice (record {
      id = codes "notice-" ++ decimal seq;
      seq = seq;
      ts = ts;
      text = text;
      level = level;
    })
      ∷ [])

-- `trimItems`
unfoldable pub trim_items : List Item → ℕ → List Item
trim_items items max = if leb (length items) max then items else drop (length items - max) items
