-- ===== src/Session/Pending/Distinct.antt =====
-- `dedupeBy` of reducer.ts: the keys of its result, against those of the items.
use msclaude_connector.Prelude.{
  String, ◌≡◌, refl, Bool, true, false, ◌||◌, List, [], ◌∷◌, arith, Text, text_eq_iff, any, All,
  if_cases, option_cases, inl, inr, Bool-cases,
}
use msclaude_connector.Value.{Value, Fields, obj, str, get, is_record, same_value}
use msclaude_connector.Session.Pending.{has_value, dedupe_from, dedupe_by}

-- No key is that of an earlier view.
abbrev pub DistinctBy : String → List Fields → Type 0
DistinctBy key [] = Unit
DistinctBy key (f ∷ fs) =
    All (λ g. same_value (get key g) (get key f) ≡ false) fs × DistinctBy key fs

-- Whether a view has the text `id` as its key.
abbrev pub has_key : String → Text → Fields → Bool
has_key key id f = same_value (str id) (get key f)

abbrev pub item_has_key : String → Text → Value → Bool
item_has_key key id (obj f) = has_key key id f
item_has_key key id _ = false

-- The keys of `fs` are distinct, and none is in `seen`.
record Fresh (key : String) (seen : List Value) (fs : List Fields) : Type 0 where
  distinct : DistinctBy key fs
  unseen : All (λ g. has_value (get key g) seen ≡ false) fs

unseen_tail :
    (key : String) (v : Value) (seen : List Value) (fs : List Fields)
    → All (λ g. has_value (get key g) (v ∷ seen) ≡ false) fs
    → All (λ g. has_value (get key g) seen ≡ false) fs
unseen_tail key v seen [] h = tt
unseen_tail key v seen (f ∷ fs) h = (ground (arith, h.0), unseen_tail key v seen fs h.1)

unseen_head :
    (key : String) (v : Value) (seen : List Value) (fs : List Fields)
    → All (λ g. has_value (get key g) (v ∷ seen) ≡ false) fs
    → All (λ g. same_value (get key g) v ≡ false) fs
unseen_head key v seen [] h = tt
unseen_head key v seen (f ∷ fs) h = (ground (arith, h.0), unseen_head key v seen fs h.1)

dedupe_from-Fresh :
    (key : String) (seen items : List Value) → Fresh key seen (dedupe_from key seen items)
unfolding dedupe_from
dedupe_from-Fresh key seen [] = record { distinct = tt; unseen = tt }
dedupe_from-Fresh key seen (item ∷ items) =
    let skip = dedupe_from-Fresh key seen items in
    let push = λ (f : Fields). dedupe_from-Fresh key (get key f ∷ seen) items in
    option_cases (Fresh key seen) (is_record item) _ _ (λ _. skip)
      λ f _.
        if_cases (Fresh key seen) (has_value (get key f) seen) _ _ (λ _. skip)
          λ new. record {
            distinct = (unseen_head key (get key f) seen _ (push f).unseen, (push f).distinct);
            unseen = (new, unseen_tail key (get key f) seen _ (push f).unseen);
          }

pub same_text : (id : Text) (v : Value) → same_value (str id) v ≡ true → v ≡ str id
same_text id (str s) h = ground (arith, text_eq_iff id s, h)
same_text id Value.undefined h = cc
same_text id Value.null h = cc
same_text id (Value.bool b) h = cc
same_text id (Value.num n) h = cc
same_text id (Value.arr vs) h = cc
same_text id (obj fs) h = cc

-- A key is in the result or among those seen just where it is in the items or among those seen.
dedupe_from_keys :
    (key : String) (id : Text) (seen items : List Value)
    → (any (has_key key id) (dedupe_from key seen items) || has_value (str id) seen)
      ≡ (any (item_has_key key id) items || has_value (str id) seen)
unfolding dedupe_from
dedupe_from_keys key id seen [] = refl
dedupe_from_keys key id seen (obj f ∷ items) =
    let skip = dedupe_from_keys key id seen items in
    let push = dedupe_from_keys key id (get key f ∷ seen) items in
    elim (Bool-cases (has_value (get key f) seen)) [
      | inr new ↦ ground (arith, new, push)
      | inl old ↦ elim (Bool-cases (has_key key id f)) [
        | inl same ↦ ground (arith, old, same, same_text id (get key f) same, skip)
        | inr other ↦ ground (arith, old, other, skip)
      ]
    ]
dedupe_from_keys key id seen (str s ∷ items) = dedupe_from_keys key id seen items
dedupe_from_keys key id seen (Value.undefined ∷ items) = dedupe_from_keys key id seen items
dedupe_from_keys key id seen (Value.null ∷ items) = dedupe_from_keys key id seen items
dedupe_from_keys key id seen (Value.bool b ∷ items) = dedupe_from_keys key id seen items
dedupe_from_keys key id seen (Value.num n ∷ items) = dedupe_from_keys key id seen items
dedupe_from_keys key id seen (Value.arr vs ∷ items) = dedupe_from_keys key id seen items

-- No two views of the result have the same key, and a text is the key of a view of the result just
-- where it is the key of a record of the items.
pub dedupe_by_lem :
    (key : String) (items : List Value)
    → DistinctBy key (dedupe_by key items)
      × ((id : Text) → any (has_key key id) (dedupe_by key items) ≡ any (item_has_key key id) items)
unfolding dedupe_by
dedupe_by_lem key items = (
  (dedupe_from-Fresh key [] items).distinct,
  λ id. ground (arith, dedupe_from_keys key id [] items),
)
