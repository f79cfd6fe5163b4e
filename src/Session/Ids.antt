-- ===== src/Session/Ids.antt =====
-- The ids of the items of reducer.ts, which the views use as keys.
pub mod Kept
pub mod Events
use mathlib.Core.List.{Mem, Nodup, Nodup-append, Nodup-cons, Nodup-nil, mem-cons, not-mem-nil}
use mathlib.Core.Logic.Or
use mathlib.Core.List.{map-append}
use mathlib.Core.Path.{subst}
use mathlib.Core.HLevel.{⊥_prop}
use msclaude_connector.Prelude.{
  ℕ, ◌+◌, ◌≤◌, ◌<◌, ◌≡◌, refl, sym, ap, ◌∙◌, ◌≢◌, Bool, false, List, [], ◌∷◌, ◌++◌, map, arith,
  Text, codes, text_eq, text_eq_iff, All, All-append, any, drop, ◌||◌,
}
use msclaude_connector.Session.{
  Item, PromptItem, prompt, assistant, tool, permission, question, notice,
}
use msclaude_connector.Session.Events.{is_permission, is_question}
use msclaude_connector.Prelude.Decimal.{decimal, decimal-injective}

abbrev pub id_of : Item → Text
id_of (prompt i) = i.id
id_of (assistant i) = i.id
id_of (tool i) = i.id
id_of (permission i) = i.id
id_of (question i) = i.id
id_of (notice i) = i.id

-- The kinds of item whose id is made from the number of the event.
pub data SeqKind : Type 0 where
  by_prompt by_assistant by_tool by_notice : SeqKind

abbrev pub prefix : SeqKind → Text
prefix by_prompt = codes "prompt-"
prefix by_assistant = codes "assistant-"
prefix by_tool = codes "tool-"
prefix by_notice = codes "notice-"

-- The item has the id that the reducer gives it, from an event up to number `last`.
abbrev pub HasId : ℕ → Item → Type 0
HasId last (prompt i) = (i.id ≡ codes "prompt-" ++ decimal i.seq) × (i.seq ≤ last)
HasId last (assistant i) = (i.id ≡ codes "assistant-" ++ decimal i.seq) × (i.seq ≤ last)
HasId last (tool i) = (i.id ≡ codes "tool-" ++ decimal i.seq) × (i.seq ≤ last)
HasId last (permission i) = (i.id ≡ codes "perm-" ++ i.request_id) × (i.seq ≤ last)
HasId last (question i) = (i.id ≡ codes "q-" ++ i.question_id) × (i.seq ≤ last)
HasId last (notice i) = (i.id ≡ codes "notice-" ++ decimal i.seq) × (i.seq ≤ last)

HasId-mono : (m n : ℕ) (item : Item) → m ≤ n → HasId m item → HasId n item
HasId-mono m n (prompt i) h w = (w.0, omega arith)
HasId-mono m n (assistant i) h w = (w.0, omega arith)
HasId-mono m n (tool i) h w = (w.0, omega arith)
HasId-mono m n (permission i) h w = (w.0, omega arith)
HasId-mono m n (question i) h w = (w.0, omega arith)
HasId-mono m n (notice i) h w = (w.0, omega arith)

pub All-HasId-mono :
    (m n : ℕ) (items : List Item) → m ≤ n → All (HasId m) items → All (HasId n) items
All-HasId-mono m n [] h w = tt
All-HasId-mono m n (item ∷ items) h w = (HasId-mono m n item h w.0, All-HasId-mono m n items h w.1)

same_seq :
    (k : ℕ) (p id : Text) (i n last : ℕ)
    → ((s t : Text) → drop k (p ++ s) ≡ s)
    → id ≡ p ++ decimal i
    → id ≡ p ++ decimal n
    → i ≤ last
    → ¬ (last < n)
same_seq k p id i n last strip a b below h = absurd (
    omega (
      arith,
      decimal-injective i n
          (sym (strip (decimal i) []) ∙ ap (drop k) (sym a ∙ b) ∙ strip (decimal n) []),
    ))

-- The id made from a later event's number is new.
id-ne_later :
    (kind : SeqKind) (item : Item) (last n : ℕ)
    → HasId last item
    → last < n
    → id_of item ≢ prefix kind ++ decimal n
id-ne_later by_prompt (prompt i) last n w h e =
    same_seq 7 (codes "prompt-") i.id i.seq n last (λ s t. refl) w.0 e w.1 h
id-ne_later by_assistant (assistant i) last n w h e =
    same_seq 10 (codes "assistant-") i.id i.seq n last (λ s t. refl) w.0 e w.1 h
id-ne_later by_tool (tool i) last n w h e =
    same_seq 5 (codes "tool-") i.id i.seq n last (λ s t. refl) w.0 e w.1 h
id-ne_later by_notice (notice i) last n w h e =
    same_seq 7 (codes "notice-") i.id i.seq n last (λ s t. refl) w.0 e w.1 h
id-ne_later _ _ last n w h e = ground arith

id-ne_permission :
    (request_id : Text) (item : Item) (last : ℕ)
    → HasId last item
    → is_permission request_id item ≡ false
    → id_of item ≢ codes "perm-" ++ request_id
id-ne_permission request_id (permission i) last w miss e =
    cc (miss, (text_eq_iff i.request_id request_id).1 (ap (drop 5) (sym w.0 ∙ e)))
id-ne_permission request_id _ last w miss e = ground arith

id-ne_question :
    (question_id : Text) (item : Item) (last : ℕ)
    → HasId last item
    → is_question question_id item ≡ false
    → id_of item ≢ codes "q-" ++ question_id
id-ne_question question_id (question i) last w miss e =
    cc (miss, (text_eq_iff i.question_id question_id).1 (ap (drop 2) (sym w.0 ∙ e)))
id-ne_question question_id _ last w miss e = ground arith

-- No item has the id.
abbrev pub IsNew : Text → List Item → Type 0
IsNew id = All (λ item. id_of item ≢ id)

pub later-IsNew :
    (kind : SeqKind) (items : List Item) (last n : ℕ)
    → All (HasId last) items
    → last < n
    → IsNew (prefix kind ++ decimal n) items
later-IsNew kind [] last n w h = tt
later-IsNew kind (item ∷ items) last n w h =
    (id-ne_later kind item last n w.0 h, later-IsNew kind items last n w.1 h)

pub permission-IsNew :
    (request_id : Text) (items : List Item) (last : ℕ)
    → All (HasId last) items
    → any (is_permission request_id) items ≡ false
    → IsNew (codes "perm-" ++ request_id) items
permission-IsNew request_id [] last w h = tt
permission-IsNew request_id (item ∷ items) last w h = (
  id-ne_permission request_id item last w.0 (ground arith),
  permission-IsNew request_id items last w.1 (ground arith),
)

pub question-IsNew :
    (question_id : Text) (items : List Item) (last : ℕ)
    → All (HasId last) items
    → any (is_question question_id) items ≡ false
    → IsNew (codes "q-" ++ question_id) items
question-IsNew question_id [] last w h = tt
question-IsNew question_id (item ∷ items) last w h = (
  id-ne_question question_id item last w.0 (ground arith),
  question-IsNew question_id items last w.1 (ground arith),
)

not-mem_of_new : (id : Text) (items : List Item) → IsNew id items → ¬ Mem id (map id_of items)
not-mem_of_new id [] h m = not-mem-nil m
not-mem_of_new id (item ∷ items) h m =
    Or.elim ⊥_prop (mem-cons.0 m) (λ e. h.0 (sym e)) (not-mem_of_new id items h.1)

apart :
    (id : Text) (items : List Item)
    → IsNew id items
    → (a : Text) → Mem a (map id_of items)
    → Mem a (id ∷ [])
    → ⊥
apart id items new a held own =
    Or.elim ⊥_prop (mem-cons.0 own)
      (λ e. not-mem_of_new id items new (subst (λ x. Mem x (map id_of items)) e held)) not-mem-nil

-- Every item has the id of its kind, and no two have the same.
pub record HasUniqueIds (last : ℕ) (items : List Item) : Type 0 where
  pub unique : Nodup (map id_of items)
  pub marked : All (HasId last) items

pub HasUniqueIds-mono :
    (m n : ℕ) {items : List Item} → m ≤ n → HasUniqueIds m items → HasUniqueIds n items
HasUniqueIds-mono m n {items} h u = record {
  unique = u.unique;
  marked = All-HasId-mono m n items h u.marked;
}

pub HasUniqueIds-append :
    (m n : ℕ) (items : List Item) (item : Item)
    → m ≤ n
    → HasUniqueIds m items
    → HasId n item
    → IsNew (id_of item) items
    → HasUniqueIds n (items ++ item ∷ [])
HasUniqueIds-append m n items item h u own new = record {
  unique = rw map-append (
      Nodup-append.1
        (u.unique, Nodup-cons.1 (not-mem-nil, Nodup-nil), apart (id_of item) items new));
  marked = All-append (HasId n) items (item ∷ []) (All-HasId-mono m n items h u.marked) (own, tt);
}

-- The new list has the ids of the old one, in the same places.
pub HasUniqueIds-same :
    (last : ℕ) {items items' : List Item}
    → map id_of items' ≡ map id_of items
    → All (HasId last) items'
    → HasUniqueIds last items
    → HasUniqueIds last items'
HasUniqueIds-same last e w u = record { unique = rw e u.unique; marked = w }

All-replace {ℓ κ} :
    {A : Type ℓ} (P : A → Type κ) (before : List A) (x y : A) (after : List A)
    → (P x → P y)
    → All P (before ++ x ∷ after)
    → All P (before ++ y ∷ after)
All-replace P [] x y after f h = (f h.0, h.1)
All-replace P (b ∷ before) x y after f h = (h.0, All-replace P before x y after f h.1)

-- One item gives way to another with its id.
pub HasUniqueIds-replace :
    (last : ℕ) (before : List Item) (x y : Item) (after : List Item)
    → id_of y ≡ id_of x
    → (HasId last x → HasId last y)
    → HasUniqueIds last (before ++ x ∷ after)
    → HasUniqueIds last (before ++ y ∷ after)
HasUniqueIds-replace last before x y after e f u = record {
  unique = rw (map-append, e) (rw map-append at u.unique);
  marked = All-replace (HasId last) before x y after f u.marked;
}
