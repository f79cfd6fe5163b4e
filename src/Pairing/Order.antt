-- ===== src/Pairing/Order.antt =====
-- `candidateUrls` of pairing.ts: the order of the hosts, and which URLs come out.
use msclaude_connector.Prelude.{
  ℕ, ◌≤◌, ◌≡◌, refl, sym, ap, ◌∙◌, Bool, true, false, ◌||◌, List, [], ◌∷◌, arith, Text, text_eq,
  text_eq_iff, any, keep, All, leb, leb→le, ◌==◌, if_cases, inl, inr, Bool-cases,
}
use msclaude_connector.Pairing.{
  PairingInfo, rank_host, insert_ranked, sort_ranked, url_of, urls_from, hosts_of, candidate_urls,
}

-- No host comes after one of a higher rank.
abbrev pub IsRanked : List Text → Type 0
IsRanked [] = Unit
IsRanked (h ∷ hs) = All (λ k. rank_host h ≤ rank_host k) hs × IsRanked hs

All-insert_ranked :
    (r : ℕ) (h : Text) (hs : List Text)
    → r ≤ rank_host h
    → All (λ k. r ≤ rank_host k) hs
    → All (λ k. r ≤ rank_host k) (insert_ranked h hs)
unfolding insert_ranked
All-insert_ranked r h [] low a = (low, tt)
All-insert_ranked r h (k ∷ hs) low a =
    if_cases (All (λ k. r ≤ rank_host k)) (leb (rank_host h) (rank_host k)) _ _ (λ _. (low, a))
      (λ _. (a.0, All-insert_ranked r h hs low a.1))

All-weaken :
    (m n : ℕ) (hs : List Text)
    → m ≤ n
    → All (λ k. n ≤ rank_host k) hs
    → All (λ k. m ≤ rank_host k) hs
All-weaken m n [] h a = tt
All-weaken m n (k ∷ hs) h a = (omega (arith, h, a.0), All-weaken m n hs h a.1)

insert_ranked-IsRanked : (h : Text) (hs : List Text) → IsRanked hs → IsRanked (insert_ranked h hs)
unfolding insert_ranked
insert_ranked-IsRanked h [] s = (tt, tt)
insert_ranked-IsRanked h (k ∷ hs) s =
    if_cases IsRanked (leb (rank_host h) (rank_host k)) _ _
      (λ e.
        let below = leb→le (rank_host h) (rank_host k) e in
        ((below, All-weaken (rank_host h) (rank_host k) hs below s.0), s))
      (λ e. (
        All-insert_ranked (rank_host k) h hs (ground (arith, e)) s.0,
        insert_ranked-IsRanked h hs s.1,
      ))

sort_ranked-IsRanked : (hs : List Text) → IsRanked (sort_ranked hs)
unfolding sort_ranked
sort_ranked-IsRanked [] = tt
sort_ranked-IsRanked (h ∷ hs) = insert_ranked-IsRanked h (sort_ranked hs) (sort_ranked-IsRanked hs)

keep-insert_ranked :
    (r : ℕ) (h : Text) (hs : List Text)
    → keep (λ k. rank_host k == r) (insert_ranked h hs) ≡ keep (λ k. rank_host k == r) (h ∷ hs)
unfolding insert_ranked
keep-insert_ranked r h [] = refl
keep-insert_ranked r h (k ∷ hs) = ground (arith, keep-insert_ranked r h hs)

keep-sort_ranked :
    (r : ℕ) (hs : List Text)
    → keep (λ k. rank_host k == r) (sort_ranked hs) ≡ keep (λ k. rank_host k == r) hs
unfolding sort_ranked
keep-sort_ranked r [] = refl
keep-sort_ranked r (h ∷ hs) =
    ground (arith, keep-insert_ranked r h (sort_ranked hs), keep-sort_ranked r hs)

-- The hosts are tried in the order of their ranks, and those of one rank in the order in which they
-- were given, none left out and none added.
pub sort_ranked_lem :
    (hs : List Text)
    → IsRanked (sort_ranked hs)
      × ((r : ℕ) → keep (λ k. rank_host k == r) (sort_ranked hs) ≡ keep (λ k. rank_host k == r) hs)
sort_ranked_lem hs = (sort_ranked-IsRanked hs, λ r. keep-sort_ranked r hs)

abbrev pub DistinctUrls : List Text → Type 0
DistinctUrls [] = Unit
DistinctUrls (u ∷ us) = All (λ v. text_eq v u ≡ false) us × DistinctUrls us

-- The URLs are distinct, and none is in `seen`.
record Fresh (seen us : List Text) : Type 0 where
  distinct : DistinctUrls us
  unseen : All (λ u. any (text_eq u) seen ≡ false) us

unseen_parts :
    (v : Text) (seen us : List Text)
    → All (λ u. any (text_eq u) (v ∷ seen) ≡ false) us
    → All (λ u. text_eq u v ≡ false) us × All (λ u. any (text_eq u) seen ≡ false) us
unseen_parts v seen [] h = (tt, tt)
unseen_parts v seen (u ∷ us) h =
    let (here, old) = unseen_parts v seen us h.1 in
    ((ground (arith, h.0), here), (ground (arith, h.0), old))

urls_from-Fresh : (url : Text → Text) (seen hs : List Text) → Fresh seen (urls_from url seen hs)
unfolding urls_from
urls_from-Fresh url seen [] = record { distinct = tt; unseen = tt }
urls_from-Fresh url seen (h ∷ hs) =
    let push = urls_from-Fresh url (url h ∷ seen) hs in
    if_cases (Fresh seen) (any (text_eq (url h)) seen) _ _ (λ _. urls_from-Fresh url seen hs)
      λ new.
        let (here, old) = unseen_parts (url h) seen _ push.unseen in
        record { distinct = (here, push.distinct); unseen = (new, old) }

any_same :
    (u v : Text) (seen : List Text)
    → text_eq u v ≡ true
    → any (text_eq v) seen ≡ any (text_eq u) seen
any_same u v seen h = ap (λ t. any (text_eq t) seen) (sym (ground (arith, text_eq_iff u v, h)))

urls_from_members :
    (url : Text → Text) (u : Text) (seen hs : List Text)
    → (any (text_eq u) (urls_from url seen hs) || any (text_eq u) seen)
      ≡ (any (λ h. text_eq u (url h)) hs || any (text_eq u) seen)
unfolding urls_from
urls_from_members url u seen [] = refl
urls_from_members url u seen (h ∷ hs) = elim (Bool-cases (any (text_eq (url h)) seen)) [
  | inr new ↦ ground (arith, new, urls_from_members url u (url h ∷ seen) hs)
  | inl old ↦ elim (Bool-cases (text_eq u (url h))) [
    | inl same ↦
        ground (arith, old, same, any_same u (url h) seen same, urls_from_members url u seen hs)
    | inr other ↦ ground (arith, old, other, urls_from_members url u seen hs)
  ]
]

any-insert_ranked :
    (p : Text → Bool) (h : Text) (hs : List Text) → any p (insert_ranked h hs) ≡ (p h || any p hs)
unfolding insert_ranked
any-insert_ranked p h [] = refl
any-insert_ranked p h (k ∷ hs) = ground (arith, any-insert_ranked p h hs)

any-sort_ranked : (p : Text → Bool) (hs : List Text) → any p (sort_ranked hs) ≡ any p hs
unfolding sort_ranked
any-sort_ranked p [] = refl
any-sort_ranked p (h ∷ hs) =
    any-insert_ranked p h (sort_ranked hs) ∙ ap (λ b. p h || b) (any-sort_ranked p hs)

-- The URLs to try are distinct, and they are just those of the given hosts (of `localhost`, where
-- none is given).
pub candidate_urls_lem :
    (info : PairingInfo) (path : Text)
    → DistinctUrls (candidate_urls info path)
      × ((u : Text)
          → any (text_eq u) (candidate_urls info path)
            ≡ any (λ h. text_eq u (url_of info path h)) (hosts_of info))
unfolding candidate_urls
candidate_urls_lem info path = (
  (urls_from-Fresh (url_of info path) [] (sort_ranked (hosts_of info))).distinct,
  λ u.
      ground (arith, urls_from_members (url_of info path) u [] (sort_ranked (hosts_of info)))
      ∙ any-sort_ranked (λ h. text_eq u (url_of info path h)) (hosts_of info),
)
