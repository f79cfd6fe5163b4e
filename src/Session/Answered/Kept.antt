-- ===== src/Session/Answered/Kept.antt =====
-- reducer.ts: what an answer leaves of the pending views and of the items, for either kind of request.
use msclaude_connector.Prelude.{
  String, ◌≡◌, refl, sym, ◌∙◌, Bool, true, false, not, List, [], ◌∷◌, map, arith, Text, text_eq,
  text_eq_iff, length, any, keep, All, if◌then◌else◌, if_cases, inl, inr, Bool-cases,
}
use msclaude_connector.Value.{Value, Fields, obj, str, get, same_value}
use msclaude_connector.Session.{Item}
use msclaude_connector.Session.Pending.Distinct.{has_key, same_text}
use msclaude_connector.Session.Events.{is_not_for}

same_value-str : (id : Text) (v : Value) → same_value v (str id) ≡ same_value (str id) v
same_value-str id (str s) = ground (arith, text_eq_iff id s, text_eq_iff s id)
same_value-str id Value.undefined = refl
same_value-str id Value.null = refl
same_value-str id (Value.bool b) = refl
same_value-str id (Value.num n) = refl
same_value-str id (Value.arr vs) = refl
same_value-str id (obj fs) = refl

answered_keys :
    (key : String) (id : Text) (pending : List Fields) (j : Text)
    → any (has_key key j) (keep (is_not_for key id) pending)
      ≡ (if text_eq id j then false else any (has_key key j) pending)
answered_keys key id [] j = ground arith
answered_keys key id (f ∷ fs) j = elim (Bool-cases (is_not_for key id f)) [
  | inl other ↦
      ground
        (arith, other, answered_keys key id fs j, same_value-str id (get key f), text_eq_iff id j)
  | inr same ↦ ground (
    arith,
    same,
    answered_keys key id fs j,
    same_value-str id (get key f),
    same_text id (get key f),
    text_eq_iff j id,
    text_eq_iff id j,
  )
]

-- What an answer to the request `id` does: no pending view has its id, the views of any other id
-- stay, the items that ask for it are as many and have `Got` the answer, and all others stay.
pub record IsAnswered (key : String) (id : Text) (before after : List Fields) (asks : Item → Bool)
    (Got : Item → Type 0) (items items' : List Item) : Type 0 where
  pub keys :
      (j : Text)
      → any (has_key key j) after ≡ (if text_eq id j then false else any (has_key key j) before)
  pub answered : All Got (keep asks items')
  pub as_many : length (keep asks items') ≡ length (keep asks items)
  pub others : keep (λ i. not (asks i)) items' ≡ keep (λ i. not (asks i)) items

module _ (asks : Item → Bool) (Got : Item → Type 0) (f : Item → Item)
    (same_ask : (i : Item) → asks (f i) ≡ asks i) (gets : (i : Item) → asks i ≡ true → Got (f i))
    (stays : (i : Item) → asks i ≡ false → f i ≡ i) where
  map_answered : (items : List Item) → All Got (keep asks (map f items))
  map_answered [] = tt
  map_answered (i ∷ items) =
      if_cases (All Got) (asks (f i)) _ _ (λ h. (gets i (sym (same_ask i) ∙ h), map_answered items))
        (λ _. map_answered items)

  map_as_many : (items : List Item) → length (keep asks (map f items)) ≡ length (keep asks items)
  map_as_many [] = refl
  map_as_many (i ∷ items) = ground (arith, same_ask i, map_as_many items)

  map_others :
      (items : List Item) → keep (λ i. not (asks i)) (map f items) ≡ keep (λ i. not (asks i)) items
  map_others [] = refl
  map_others (i ∷ items) = elim (Bool-cases (asks i)) [
    | inl h ↦ rw (same_ask i, h) (map_others items)
    | inr h ↦ rw (same_ask i, h) (ground (arith, stays i h, map_others items))
  ]

  pub map-IsAnswered :
      (key : String) (id : Text) (pending : List Fields) (items : List Item)
      → IsAnswered key id pending (keep (is_not_for key id) pending) asks Got items (map f items)
  map-IsAnswered key id pending items = record {
    keys = answered_keys key id pending;
    answered = map_answered items;
    as_many = map_as_many items;
    others = map_others items;
  }
