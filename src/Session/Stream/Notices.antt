-- ===== src/Session/Stream/Notices.antt =====
-- `pushNotice` of reducer.ts: the cap on notices, against a list without positions.
use mathlib.Core.List.{append-nil}
use msclaude_connector.Prelude.{
  codes, ℕ, zero, suc, ◌+◌, ◌-◌, ◌<◌, ◌≡◌, refl, sym, ap, ◌∙◌, inl, inr, Bool, false, not, List, [],
  ◌∷◌, ◌++◌, arith, Text, ◌==◌, leb, if◌then◌else◌, length, length-append, take, drop, any, keep,
  Bool-cases,
}
use msclaude_connector.Value.{Value}
use msclaude_connector.Session.{Item, Level, notice}
use msclaude_connector.Prelude.Decimal.{decimal}
use msclaude_connector.Session.Stream.{
  max_notices, is_notice, notice_indexes, without_indexes, cap_notices, push_notice,
}

-- The list without its first `k` notices.
unfoldable pub skip_notices : ℕ → List Item → List Item
skip_notices k [] = []
skip_notices zero (item ∷ items) = item ∷ items
skip_notices (suc k) (item ∷ items) =
    let here = skip_notices k items in
    let later = item ∷ skip_notices (suc k) items in if is_notice item then here else later

without_indexes-nil : (i : ℕ) (items : List Item) → without_indexes i [] items ≡ items
unfolding without_indexes
without_indexes-nil i [] = refl
without_indexes-nil i (item ∷ items) = ap (λ l. item ∷ l) (without_indexes-nil (i + 1) items)

-- A position that has been passed takes nothing away.
without_indexes_passed :
    (i d : ℕ) (drops : List ℕ) (items : List Item)
    → d < i
    → without_indexes i (d ∷ drops) items ≡ without_indexes i drops items
unfolding without_indexes
without_indexes_passed i d drops [] h = refl
without_indexes_passed i d drops (item ∷ items) h =
    ground (arith, without_indexes_passed (i + 1) d drops items)

not_among :
    (i j k : ℕ) (items : List Item)
    → i < j
    → any (λ d. d == i) (take k (notice_indexes j items)) ≡ false
unfolding notice_indexes
not_among i j zero items h = refl
not_among i j (suc k) [] h = refl
not_among i j (suc k) (item ∷ items) h = elim (Bool-cases (is_notice item)) [
  | inl e ↦ rw e (ground (arith, not_among i (j + 1) k items))
  | inr e ↦ rw e (not_among i (j + 1) (suc k) items (omega arith))
]

without_indexes-skip_notices :
    (i k : ℕ) (items : List Item)
    → without_indexes i (take k (notice_indexes i items)) items ≡ skip_notices k items
unfolding skip_notices without_indexes notice_indexes
without_indexes-skip_notices i zero [] = refl
without_indexes-skip_notices i zero (item ∷ items) = without_indexes-nil i (item ∷ items)
without_indexes-skip_notices i (suc k) [] = refl
without_indexes-skip_notices i (suc k) (item ∷ items) = ground (
  arith,
  not_among i (i + 1) (suc k) items,
  without_indexes_passed (i + 1) i (take k (notice_indexes (i + 1) items)) items,
  without_indexes-skip_notices (i + 1) k items,
  without_indexes-skip_notices (i + 1) (suc k) items,
)

length-notice_indexes :
    (i : ℕ) (items : List Item) → length (notice_indexes i items) ≡ length (keep is_notice items)
unfolding notice_indexes
length-notice_indexes i [] = refl
length-notice_indexes i (item ∷ items) = ground (arith, length-notice_indexes (i + 1) items)

skip_notices_nil : (items : List Item) → skip_notices 0 items ≡ items
unfolding skip_notices
skip_notices_nil [] = refl
skip_notices_nil (item ∷ items) = refl

keep-skip_notices :
    (k : ℕ) (items : List Item)
    → keep is_notice (skip_notices k items) ≡ drop k (keep is_notice items)
unfolding skip_notices
keep-skip_notices zero [] = refl
keep-skip_notices zero (item ∷ items) = refl
keep-skip_notices (suc k) [] = refl
keep-skip_notices (suc k) (item ∷ items) =
    ground (arith, keep-skip_notices k items, keep-skip_notices (suc k) items)

others-skip_notices :
    (k : ℕ) (items : List Item)
    → keep (λ i. not (is_notice i)) (skip_notices k items) ≡ keep (λ i. not (is_notice i)) items
unfolding skip_notices
others-skip_notices zero [] = refl
others-skip_notices zero (item ∷ items) = refl
others-skip_notices (suc k) [] = refl
others-skip_notices (suc k) (item ∷ items) =
    ground (arith, others-skip_notices k items, others-skip_notices (suc k) items)

-- The positions and the set of `pushNotice` amount to leaving out the oldest notices over the cap.
cap_notices-skip_notices :
    (items : List Item)
    → cap_notices items ≡ skip_notices (length (keep is_notice items) - max_notices) items
unfolding cap_notices
cap_notices-skip_notices items =
    elim (Bool-cases (leb (length (notice_indexes 0 items)) max_notices)) [
      | inl e ↦ rw e (
          sym (skip_notices_nil items)
          ∙ ap (λ k. skip_notices k items) (ground (arith, length-notice_indexes 0 items)))
      | inr e ↦ rw e (
          without_indexes-skip_notices 0 _ items
          ∙ ap (λ k. skip_notices (k - max_notices) items) (length-notice_indexes 0 items))
    ]

pub keep-append {ℓ} :
    {A : Type ℓ} (p : A → Bool) (xs ys : List A) → keep p (xs ++ ys) ≡ keep p xs ++ keep p ys
keep-append p [] ys = refl
keep-append p (x ∷ xs) ys = ground (arith, keep-append p xs ys)

module _ (items : List Item) (seq : ℕ) (ts : Value) (text : Text) (level : Level) where
  abbrev pub new_notice : Item
  new_notice = notice (record {
    id = codes "notice-" ++ decimal seq;
    seq = seq;
    ts = ts;
    text = text;
    level = level;
  })

  pub push_notice-skip_notices :
      push_notice items seq ts text level
      ≡ skip_notices
          (length (keep is_notice (items ++ new_notice ∷ [])) - max_notices)
          (items ++ new_notice ∷ [])
  unfolding push_notice
  push_notice-skip_notices = cap_notices-skip_notices (items ++ new_notice ∷ [])

  -- A new notice goes behind the old ones, of which the oldest are dropped beyond fifty in all;
  -- every other item stays, in its order.
  pub push_notice_lem :
      (keep is_notice (push_notice items seq ts text level)
        ≡ drop
            (length (keep is_notice items) + 1 - max_notices)
            (keep is_notice items ++ new_notice ∷ []))
      × (keep (λ i. not (is_notice i)) (push_notice items seq ts text level)
          ≡ keep (λ i. not (is_notice i)) items)
  unfolding push_notice
  push_notice_lem = (
    rw (cap_notices-skip_notices (items ++ new_notice ∷ [])) (
        keep-skip_notices _ (items ++ new_notice ∷ [])
        ∙ rw (
          keep-append is_notice items (new_notice ∷ []),
          length-append (keep is_notice items) (new_notice ∷ []),
        )),
    rw (cap_notices-skip_notices (items ++ new_notice ∷ [])) (
        others-skip_notices _ (items ++ new_notice ∷ [])
        ∙ rw (keep-append (λ i. not (is_notice i)) items (new_notice ∷ [])) (append-nil _)),
  )
