-- ===== src/Session/Ids/Kept.antt =====
-- The ids of the items under the list operations of `applyEvent` and `trimItems` of reducer.ts.
use mathlib.Core.List.{Sublist}
use mathlib.Core.List.Sublist
use mathlib.Core.List.Nodup
use msclaude_connector.Prelude.{
  ℕ, zero, suc, ◌<◌, ◌≡◌, refl, inl, inr, Bool, List, [], ◌∷◌, ◌++◌, Option, none, some, map, arith,
  Text, text_eq, All, drop, leb, length, Bool-cases,
}
use msclaude_connector.Value.{Value}
use msclaude_connector.Session.{
  Item, ToolItem, Resolution, Answer, Level, assistant, tool, permission, question,
}
use msclaude_connector.Prelude.Decimal.{decimal}
use msclaude_connector.Session.Stream.{
  finish, is_notice, append_assistant, seal_open_assistant, push_notice, trim_items,
}
use msclaude_connector.Session.Stream.Assistant.{
  append_assistant-Appends, seal_open_assistant-Seals,
}
use msclaude_connector.Session.Stream.Notices.{skip_notices, push_notice-skip_notices, new_notice}
use msclaude_connector.Session.Stream.Tools.{Finishes}
use msclaude_connector.Session.Events.{resolve_permission, resolve_question}
use msclaude_connector.Session.Ids.{
  id_of, HasId, HasUniqueIds, HasUniqueIds-mono, HasUniqueIds-append, HasUniqueIds-replace,
  HasUniqueIds-same, later-IsNew, SeqKind, prefix, by_assistant, by_notice,
}

-- A list of some of the items, in their order.
data Part : List Item → List Item → Type 0 where
  nothing : Part [] []
  skip : (x : Item) {xs ys : List Item} → Part xs ys → Part xs (x ∷ ys)
  take_in : (x : Item) {xs ys : List Item} → Part xs ys → Part (x ∷ xs) (x ∷ ys)

Part-all : (xs : List Item) → Part xs xs
Part-all [] = nothing
Part-all (x ∷ xs) = take_in x (Part-all xs)

Part-ids : {xs ys : List Item} → Part xs ys → Sublist (map id_of xs) (map id_of ys)
Part-ids nothing = Sublist.refl []
Part-ids (skip x p) = Sublist.cons (id_of x) (Part-ids p)
Part-ids (take_in x p) = Sublist.cons-cons (id_of x) (Part-ids p)

Part-All {κ} : (P : Item → Type κ) {xs ys : List Item} → Part xs ys → All P ys → All P xs
Part-All P nothing h = tt
Part-All P (skip x p) h = Part-All P p h.1
Part-All P (take_in x p) h = (h.0, Part-All P p h.1)

HasUniqueIds-sublist :
    (last : ℕ) {xs ys : List Item} → Part xs ys → HasUniqueIds last ys → HasUniqueIds last xs
HasUniqueIds-sublist last p u = record {
  unique = Nodup.sublist (Part-ids p) u.unique;
  marked = Part-All (HasId last) p u.marked;
}

Part-drop : (n : ℕ) (xs : List Item) → Part (drop n xs) xs
Part-drop zero xs = Part-all xs
Part-drop (suc n) [] = nothing
Part-drop (suc n) (x ∷ xs) = skip x (Part-drop n xs)

Part-skip_notices : (k : ℕ) (xs : List Item) → Part (skip_notices k xs) xs
unfolding skip_notices
Part-skip_notices zero [] = nothing
Part-skip_notices (suc k) [] = nothing
Part-skip_notices zero (x ∷ xs) = Part-all (x ∷ xs)
Part-skip_notices (suc k) (x ∷ xs) = elim (Bool-cases (is_notice x)) [
  | inl e ↦ rw e (skip x (Part-skip_notices k xs))
  | inr e ↦ rw e (take_in x (Part-skip_notices (suc k) xs))
]

finish-id : (t : ToolItem) (output : Option Text) → id_of (tool (finish t output)) ≡ t.id
finish-id t none = refl
finish-id t (some out) = refl

finish-HasId :
    (last : ℕ) (t : ToolItem) (output : Option Text)
    → HasId last (tool t)
    → HasId last (tool (finish t output))
finish-HasId last t none h = h
finish-HasId last t (some out) h = h

resolve_permission-same :
    (last : ℕ) (request_id : Text) (r : Resolution) (item : Item)
    → (id_of (resolve_permission request_id r item) ≡ id_of item)
      × (HasId last item → HasId last (resolve_permission request_id r item))
resolve_permission-same last request_id r (permission p) =
    elim (Bool-cases (text_eq p.request_id request_id)) [
      | inl e ↦ rw e (refl, λ h. h)
      | inr e ↦ rw e (refl, λ h. h)
    ]
resolve_permission-same last request_id r _ = (refl, λ h. h)

resolve_question-same :
    (last : ℕ) (question_id : Text) (a : Answer) (item : Item)
    → (id_of (resolve_question question_id a item) ≡ id_of item)
      × (HasId last item → HasId last (resolve_question question_id a item))
resolve_question-same last question_id a (question q) =
    elim (Bool-cases (text_eq q.question_id question_id)) [
      | inl e ↦ rw e (refl, λ h. h)
      | inr e ↦ rw e (refl, λ h. h)
    ]
resolve_question-same last question_id a _ = (refl, λ h. h)

-- A change of each item that keeps its id.
map-HasUniqueIds :
    (last : ℕ) (f : Item → Item)
    → ((item : Item) → (id_of (f item) ≡ id_of item) × (HasId last item → HasId last (f item)))
    → (items : List Item) → HasUniqueIds last items
    → HasUniqueIds last (map f items)
map-HasUniqueIds last f same items u = HasUniqueIds-same last (ids items) (marks items u.marked) u
  where
    ids : (xs : List Item) → map id_of (map f xs) ≡ map id_of xs
    ids [] = refl
    ids (x ∷ xs) = cc ((same x).0, ids xs)

    marks : (xs : List Item) → All (HasId last) xs → All (HasId last) (map f xs)
    marks [] h = tt
    marks (x ∷ xs) h = ((same x).1 h.0, marks xs h.1)

module _ (last : ℕ) (items : List Item) (u : HasUniqueIds last items) where
  pub trim_items-HasUniqueIds : (max : ℕ) → HasUniqueIds last (trim_items items max)
  unfolding trim_items
  trim_items-HasUniqueIds max = elim (Bool-cases (leb (length items) max)) [
    | inl e ↦ rw e u
    | inr e ↦ rw e (HasUniqueIds-sublist last (Part-drop _ items) u)
  ]

  pub seal_open_assistant-HasUniqueIds : HasUniqueIds last (seal_open_assistant items)
  seal_open_assistant-HasUniqueIds = elim (seal_open_assistant-Seals items) [
    | inl (_, e) ↦ rw e u
    | inr (before, a, o, e) ↦
        rw e (HasUniqueIds-replace last before (assistant a) _ [] refl (λ h. h) (rw o.split at u))
  ]

  pub push_notice-HasUniqueIds :
      (seq : ℕ) (ts : Value) (text : Text) (level : Level)
      → last < seq
      → HasUniqueIds seq (push_notice items seq ts text level)
  push_notice-HasUniqueIds seq ts text level h = rw push_notice-skip_notices (
      HasUniqueIds-sublist seq (Part-skip_notices _ _) (
        HasUniqueIds-append last seq items (new_notice items seq ts text level) (omega arith) u
          (refl, omega arith) (later-IsNew by_notice items last seq u.marked h)))

  pub append_assistant-HasUniqueIds :
      (has_encoder : Bool) (seq : ℕ) (ts : Value) (content : Text)
      → last < seq
      → HasUniqueIds seq (append_assistant has_encoder items seq ts content)
  append_assistant-HasUniqueIds has_encoder seq ts content h =
      elim (append_assistant-Appends has_encoder items seq ts content) [
        | inl (_, e) ↦ rw e (
            HasUniqueIds-append last seq items _ (omega arith) u (refl, omega arith)
              (later-IsNew by_assistant items last seq u.marked h))
        | inr (before, a, o, e) ↦ rw e (
            HasUniqueIds-replace seq before (assistant a) _ [] refl (λ w. w)
              (HasUniqueIds-mono last seq (omega arith) (rw o.split at u)))
      ]

  pub Finishes-HasUniqueIds :
      (name : Text) (output : Option Text) {r : List Item}
      → Finishes items name output r
      → HasUniqueIds last r
  Finishes-HasUniqueIds name output f = rw f.replaced (
      HasUniqueIds-replace last f.before (tool f.call) _ f.after (finish-id f.call output)
        (finish-HasId last f.call output) (rw f.found at u))

  -- A new item with an id of its own, from the event `seq`.
  pub append_seq-HasUniqueIds :
      (kind : SeqKind) (item : Item) (seq : ℕ)
      → id_of item ≡ prefix kind ++ decimal seq
      → HasId seq item
      → last < seq
      → HasUniqueIds seq (items ++ item ∷ [])
  append_seq-HasUniqueIds kind item seq e own h =
      HasUniqueIds-append last seq items item (omega arith) u own
        (rw e (later-IsNew kind items last seq u.marked h))

  pub resolve_permission-HasUniqueIds :
      (request_id : Text) (r : Resolution)
      → HasUniqueIds last (map (resolve_permission request_id r) items)
  resolve_permission-HasUniqueIds request_id r =
      map-HasUniqueIds last _ (resolve_permission-same last request_id r) items u

  pub resolve_question-HasUniqueIds :
      (question_id : Text) (a : Answer)
      → HasUniqueIds last (map (resolve_question question_id a) items)
  resolve_question-HasUniqueIds question_id a =
      map-HasUniqueIds last _ (resolve_question-same last question_id a) items u
