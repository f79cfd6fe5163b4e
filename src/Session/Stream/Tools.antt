-- ===== src/Session/Stream/Tools.antt =====
-- `finishTool` of reducer.ts: which tool call it ends.
use mathlib.Core.List.{append_assoc, append-nil}
use msclaude_connector.Prelude.{
  ℕ, zero, suc, ◌≤◌, ◌≡◌, refl, sym, ap, ◌∙◌, ◌⊎◌, inl, inr, false, List, [], ◌∷◌, ◌++◌, Option,
  none, some, arith, Text, text_eq_iff, All, All-append, length, take, drop, get_elem?,
  get_elem?_of_lt, take-suc, drop-get_elem?, take-length, drop-length, Option-cases,
}
use msclaude_connector.Session.{
  Item, ToolItem, prompt, assistant, tool, permission, question, notice,
}
use msclaude_connector.Session.Stream.{unfinished, finish, finish_below, finish_tool}

-- No item is an unfinished call of `name`.
abbrev pub NoneUnfinished : Text → List Item → Type 0
NoneUnfinished name = All (λ item. unfinished name item ≡ none)

-- `items` is split at the last unfinished call of `name`, and `result` has that call finished.
pub record Finishes (items : List Item) (name : Text) (output : Option Text) (result : List Item)
    : Type 0 where
  pub before : List Item
  pub call : ToolItem
  pub after : List Item
  pub found : items ≡ before ++ tool call ∷ after
  pub open_call : (call.is_done ≡ false) × (call.name ≡ name)
  pub is_last : NoneUnfinished name after
  pub replaced : result ≡ before ++ tool (finish call output) ∷ after

unfinished-some :
    (name : Text) (item : Item) (t : ToolItem)
    → unfinished name item ≡ some t
    → (item ≡ tool t) × (t.is_done ≡ false) × (t.name ≡ name)
unfinished-some name (tool u) t h = ground (arith, text_eq_iff u.name name)
unfinished-some name (prompt x) t h = cc
unfinished-some name (assistant x) t h = cc
unfinished-some name (permission x) t h = cc
unfinished-some name (question x) t h = cc
unfinished-some name (notice x) t h = cc

module _ (items : List Item) (name : Text) (output : Option Text) where
  -- What the loop has found once the positions below `i` are left.
  abbrev Outcome : ℕ → Type 0
  Outcome i =
      ((finish_below items name output i ≡ none) × NoneUnfinished name (take i items))
      ⊎ ((r : List Item) × (finish_below items name output i ≡ some (r ++ drop i items))
          × Finishes (take i items) name output r)

  extend :
      (i : ℕ) (item : Item) (r : List Item)
      → get_elem? items i ≡ some item
      → unfinished name item ≡ none
      → Finishes (take i items) name output r
      → Finishes (take (suc i) items) name output (r ++ item ∷ [])
  extend i item r at miss f = record {
    before = f.before;
    call = f.call;
    after = f.after ++ item ∷ [];
    found =
        take-suc items i item at
        ∙ ap (λ l. l ++ item ∷ []) f.found
        ∙ append_assoc f.before (tool f.call ∷ f.after) (item ∷ []);
    open_call = f.open_call;
    is_last = All-append _ f.after (item ∷ []) f.is_last (miss, tt);
    replaced =
        ap (λ l. l ++ item ∷ []) f.replaced
        ∙ append_assoc f.before (tool (finish f.call output) ∷ f.after) (item ∷ []);
  }

  hit :
      (i : ℕ) (item : Item) (t : ToolItem)
      → get_elem? items i ≡ some item
      → unfinished name item ≡ some t
      → Finishes (take (suc i) items) name output (take i items ++ tool (finish t output) ∷ [])
  hit i item t at fits = record {
    before = take i items;
    call = t;
    after = [];
    found =
        take-suc items i item at
        ∙ ap (λ x. take i items ++ x ∷ []) (unfinished-some name item t fits).0;
    open_call = ((unfinished-some name item t fits).1, (unfinished-some name item t fits).2);
    is_last = tt;
    replaced = refl;
  }

  -- One round of the loop, at a position that holds `item`.
  round : (i : ℕ) (item : Item) → get_elem? items i ≡ some item → Outcome i → Outcome (suc i)
  unfolding finish_below
  round i item at below = elim (Option-cases (unfinished name item)) [
    | inr (t, fits) ↦ inr (
      take i items ++ tool (finish t output) ∷ [],
      rw (at, fits, finish_below)
          (ap some (sym (append_assoc (take i items) (tool (finish t output) ∷ []) _))),
      hit i item t at fits,
    )
    | inl miss ↦ elim below [
      | inl (stuck, none_below) ↦ inl (
        rw (at, miss, finish_below) stuck,
        rw (take-suc items i item at)
            (All-append _ (take i items) (item ∷ []) none_below (miss, tt)),
      )
      | inr (r, done, f) ↦ inr (
        r ++ item ∷ [],
        rw (at, miss, finish_below)
            (done
              ∙ ap (λ l. some (r ++ l)) (drop-get_elem? items i item at)
              ∙ ap some (sym (append_assoc r (item ∷ []) _))),
        extend i item r at miss f,
      )
    ]
  ]

  finish_below-Outcome : (i : ℕ) → i ≤ length items → Outcome i
  unfolding finish_below
  finish_below-Outcome zero h = inl (refl, tt)
  finish_below-Outcome (suc i) h =
      let (item, at) = get_elem?_of_lt items i (omega arith) in
      round i item at (finish_below-Outcome i (omega arith))

  -- The search for the tool call that has ended either fails, with no unfinished call of that name
  -- among the items, or finishes the last such call and leaves all other items as they were.
  pub finish_tool-Finishes :
      ((finish_tool items name output ≡ none) × NoneUnfinished name items)
      ⊎ ((r : List Item) × (finish_tool items name output ≡ some r) × Finishes items name output r)
  unfolding finish_tool
  finish_tool-Finishes = elim (finish_below-Outcome (length items) (omega arith)) [
    | inl (stuck, none_at_all) ↦ inl (stuck, rw (take-length items) at none_at_all)
    | inr (r, done, f) ↦ inr (
      r,
      done ∙ ap (λ l. some (r ++ l)) (drop-length items) ∙ ap some (append-nil r),
      rw (take-length items) at f,
    )
  ]
