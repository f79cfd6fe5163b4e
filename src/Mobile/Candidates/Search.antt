-- ===== src/Mobile/Candidates/Search.antt =====
-- mobileClient.ts: `pairWithInfo` as a search for the first candidate that succeeds.
use mathlib.Core.List.{append_assoc}
use msclaude_connector.Prelude.{
  ◌≡◌, refl, sym, ap, ◌∙◌, List, [], ◌∷◌, ◌++◌, Option, none, some, arith, Text, codes, All,
}
use msclaude_connector.Client.{HarnessIdentity}
use msclaude_connector.Pairing.{PairingInfo, candidate_urls}
use msclaude_connector.Mobile.Candidates.{
  Trial, Turn, Failure, Act, Answer, turn, acts_of, try_urls, pair_with_info, succeeds, fails,
  found, threw,
}

turn_cases :
    {B : Type 0} (P : B → Type 0) (x : Turn) (f : HarnessIdentity → B) (g : Failure → B)
    → ((i : HarnessIdentity) → x ≡ succeeds i → P (f i))
    → ((e : Failure) → x ≡ fails e → P (g e))
    → P (elim x [ succeeds i ↦ f i | fails e ↦ g e ])
turn_cases P (succeeds i) f g p q = p i refl
turn_cases P (fails e) f g p q = q e refl

module _ (t : Trial) (info : PairingInfo) where
  -- The calls that trying the URLs makes.
  abbrev pub calls_of : List Text → List Act
  calls_of [] = []
  calls_of (url ∷ urls) = acts_of t info url ++ calls_of urls

  abbrev pub HasFailed : Text → Type 0
  HasFailed url = (e : Failure) × (turn t url ≡ fails e)

  -- The failure of the last URL, or `e` where there is no URL.
  abbrev pub last_failure : Option Failure → List Text → Option Failure
  last_failure e [] = e
  last_failure e (url ∷ urls) = elim (turn t url) [
    | succeeds i ↦ last_failure e urls
    | fails e' ↦ last_failure (some e') urls
  ]

  -- The first URL that succeeds, with the calls for it and the URLs before it.
  pub record IsFound (urls : List Text) (acts : List Act) (i : HarnessIdentity) : Type 0 where
    pub before : List Text
    pub url : Text
    pub after : List Text
    pub split : urls ≡ before ++ url ∷ after
    pub failed : All HasFailed before
    pub success : turn t url ≡ succeeds i
    pub calls : acts ≡ calls_of before ++ acts_of t info url

  -- No URL succeeds, and each was tried.
  pub record IsLost (last : Option Failure) (urls : List Text) (acts : List Act)
      (e : Option Failure) : Type 0 where
    pub failed : All HasFailed urls
    pub error : e ≡ last_failure last urls
    pub calls : acts ≡ calls_of urls

  -- How the search of the URLs ends.
  pub data Searched (last : Option Failure) (urls : List Text) (acts : List Act)
      : Answer → Type 0 where
    found_it : {i : HarnessIdentity} → IsFound urls acts i → Searched last urls acts (found i)
    lost_it : {e : Option Failure} → IsLost last urls acts e → Searched last urls acts (threw e)

  IsFound-later :
      (url : Text) (rest : List Text) (e : Failure) (acts : List Act) (i : HarnessIdentity)
      → turn t url ≡ fails e
      → IsFound rest acts i
      → IsFound (url ∷ rest) (acts_of t info url ++ acts) i
  IsFound-later url rest e acts i failure f = record {
    before = url ∷ f.before;
    url = f.url;
    after = f.after;
    split = ap (λ l. url ∷ l) f.split;
    failed = ((e, failure), f.failed);
    success = f.success;
    calls =
        ap (λ l. acts_of t info url ++ l) f.calls
        ∙ sym (append_assoc (acts_of t info url) (calls_of f.before) (acts_of t info f.url));
  }

  IsLost-later :
      (last : Option Failure) (url : Text) (rest : List Text) (e : Failure) (acts : List Act)
      (e' : Option Failure)
      → turn t url ≡ fails e
      → IsLost (some e) rest acts e'
      → IsLost last (url ∷ rest) (acts_of t info url ++ acts) e'
  IsLost-later last url rest e acts e' failure l = record {
    failed = ((e, failure), l.failed);
    error = ground (arith, l.error, failure);
    calls = ap (λ k. acts_of t info url ++ k) l.calls;
  }

  -- What the later URLs end with is what all end with, after a failure.
  Searched-later :
      (last : Option Failure) (url : Text) (rest : List Text) (e : Failure) (acts : List Act)
      (answer : Answer)
      → turn t url ≡ fails e
      → Searched (some e) rest acts answer
      → Searched last (url ∷ rest) (acts_of t info url ++ acts) answer
  Searched-later last url rest e acts (found i) failure (found_it f) =
      found_it (IsFound-later url rest e acts i failure f)
  Searched-later last url rest e acts (threw e') failure (lost_it l) =
      lost_it (IsLost-later last url rest e acts e' failure l)

  -- A result of the loop, as one thing.
  record IsSearched (last : Option Failure) (urls : List Text) (r : List Act × Answer)
      : Type 0 where
    ends : Searched last urls r.0 r.1

  try_urls-IsSearched :
      (last : Option Failure) (urls : List Text) → IsSearched last urls (try_urls t info last urls)
  unfolding try_urls
  try_urls-IsSearched last [] = record {
    ends = lost_it (record { failed = tt; error = refl; calls = refl });
  }
  try_urls-IsSearched last (url ∷ rest) =
      turn_cases (IsSearched last (url ∷ rest)) (turn t url) _ _
        (λ i works. record {
          ends = found_it (record {
            before = [];
            url = url;
            after = rest;
            split = refl;
            failed = tt;
            success = works;
            calls = refl;
          });
        })
        (λ e failure. record {
          ends =
              Searched-later last url rest e (try_urls t info (some e) rest).0
                (try_urls t info (some e) rest).1 failure (try_urls-IsSearched (some e) rest).ends;
        })

-- `pairWithInfo` tries the candidate URLs in their order up to the first one that succeeds, and returns
-- its identity; where none succeeds, it has tried each, and throws the failure of the last one.
pub pair_with_info_lem :
    (t : Trial) (info : PairingInfo)
    → let r = pair_with_info t info in
      Searched t info none (candidate_urls info (codes "/ws")) r.0 r.1
unfolding pair_with_info
pair_with_info_lem t info =
    (try_urls-IsSearched t info none (candidate_urls info (codes "/ws"))).ends
