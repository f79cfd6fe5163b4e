-- ===== src/Session/Stream/Assistant.antt =====
-- `appendAssistant` and `sealOpenAssistant` of reducer.ts: which item each of them touches.
use msclaude_connector.Prelude.{
  ℕ, ◌≡◌, ◌⊎◌, inl, inr, Bool, true, false, List, [], ◌∷◌, ◌++◌, Option, none, some, arith, Text,
  codes, get_last?, drop_last, drop_last-get_last?, Option-cases,
}
use msclaude_connector.Value.{Value}
use msclaude_connector.Session.{
  Item, AssistantItem, prompt, assistant, tool, permission, question, notice,
}
use msclaude_connector.Prelude.Decimal.{decimal}
use msclaude_connector.Session.Stream.{open_assistant, append_assistant, seal_open_assistant}
use msclaude_connector.Session.Stream.Clamp.{clamp_text}

open_assistant-some :
    (last : Option Item) (a : AssistantItem)
    → open_assistant last ≡ some a
    → (last ≡ some (assistant a)) × (a.is_sealed ≡ false)
open_assistant-some (some (assistant b)) a h = ground arith
open_assistant-some none a h = cc
open_assistant-some (some (prompt b)) a h = cc
open_assistant-some (some (tool b)) a h = cc
open_assistant-some (some (permission b)) a h = cc
open_assistant-some (some (question b)) a h = cc
open_assistant-some (some (notice b)) a h = cc

-- The last item is an assistant's that is not sealed.
pub record IsOpen (items : List Item) (before : List Item) (a : AssistantItem) : Type 0 where
  pub split : items ≡ before ++ assistant a ∷ []
  pub unsealed : a.is_sealed ≡ false

open_assistant-IsOpen :
    (items : List Item) (a : AssistantItem)
    → open_assistant (get_last? items) ≡ some a
    → IsOpen items (drop_last items) a
open_assistant-IsOpen items a h = record {
  split = drop_last-get_last? items (assistant a) (open_assistant-some (get_last? items) a h).0;
  unsealed = (open_assistant-some (get_last? items) a h).1;
}

abbrev pub new_assistant : Bool → ℕ → Value → Text → Item
new_assistant has_encoder seq ts content = assistant (record {
  id = codes "assistant-" ++ decimal seq;
  seq = seq;
  ts = ts;
  text = clamp_text has_encoder content;
  is_sealed = false;
})

abbrev pub extended : Bool → AssistantItem → Text → Item
extended has_encoder a content =
    assistant (record a { text = clamp_text has_encoder (a.text ++ content) })

-- What `append_assistant` may do.
abbrev pub Appends : Bool → List Item → ℕ → Value → Text → List Item → Type 0
Appends has_encoder items seq ts content result =
    ((open_assistant (get_last? items) ≡ none)
      × (result ≡ items ++ new_assistant has_encoder seq ts content ∷ []))
    ⊎ ((before : List Item) × (a : AssistantItem) × IsOpen items before a
        × (result ≡ before ++ extended has_encoder a content ∷ []))

-- New text goes to the last item where that is an assistant's and not sealed, and becomes a new item
-- behind the others where it is not; either text is clamped, and no other item changes.
pub append_assistant-Appends :
    (has_encoder : Bool) (items : List Item) (seq : ℕ) (ts : Value) (content : Text)
    → Appends has_encoder items seq ts content (append_assistant has_encoder items seq ts content)
unfolding append_assistant
append_assistant-Appends has_encoder items seq ts content =
    elim (Option-cases (open_assistant (get_last? items))) [
      | inl e ↦ inl (e, rw (e, append_assistant))
      | inr (a, e) ↦
          inr (drop_last items, a, open_assistant-IsOpen items a e, rw (e, append_assistant))
    ]

abbrev pub sealed_item : AssistantItem → Item
sealed_item a = assistant (record a { is_sealed = true })

-- What `seal_open_assistant` may do.
abbrev pub Seals : List Item → List Item → Type 0
Seals items result =
    ((open_assistant (get_last? items) ≡ none) × (result ≡ items))
    ⊎ ((before : List Item) × (a : AssistantItem) × IsOpen items before a
        × (result ≡ before ++ sealed_item a ∷ []))

-- The last item is sealed where it is an assistant's and not sealed yet, with its text and all other
-- items as they were; otherwise the items stay.
pub seal_open_assistant-Seals : (items : List Item) → Seals items (seal_open_assistant items)
unfolding seal_open_assistant
seal_open_assistant-Seals items = elim (Option-cases (open_assistant (get_last? items))) [
  | inl e ↦ inl (e, rw (e, seal_open_assistant))
  | inr (a, e) ↦
      inr (drop_last items, a, open_assistant-IsOpen items a e, rw (e, seal_open_assistant))
]
