-- ===== src/Mobile/Candidates.antt =====
-- mobileClient.ts: `pairWithInfo`, which tries the candidate URLs of a host in their order.
-- What comes of one candidate is the platform's, as a function of the URL: the URLs are distinct.
pub mod Search
use msclaude_connector.Prelude.{
  ltb, if◌then◌else◌, ℕ, ◌≡◌, refl, sym, ap, ◌∙◌, Bool, true, false, List, [], ◌∷◌, ◌++◌, Option,
  none, some, arith, Text, codes, All, option_cases,
}
use msclaude_connector.Value.{str}
use msclaude_connector.Client.{HarnessIdentity}
use msclaude_connector.Client.Pair.{Reason}
use msclaude_connector.Pairing.{PairingInfo, candidate_urls}

-- Why a candidate failed: `pair` was rejected, `withTimeout` ended first, or `saveIdentity` threw.
pub data Failure : Type 0 where
  refused : Reason → Failure
  timed_out : Failure
  not_saved : Text → Failure

-- What ends the race of `withTimeout`.
pub data Race : Type 0 where
  paired : HarnessIdentity → Race
  rejected : Reason → Race
  elapsed : Race

-- When and how a promise is settled, in milliseconds from the call.
pub data Settling : Type 0 where
  resolves : ℕ → HarnessIdentity → Settling
  rejects : ℕ → Reason → Settling
  hangs : Settling

-- `withTimeout`: a promise that is settled at the very end of the time counts as too late.
unfoldable pub with_timeout : Settling → ℕ → Race
with_timeout (resolves at i) ms = if ltb at ms then paired i else elapsed
with_timeout (rejects at reason) ms = if ltb at ms then rejected reason else elapsed
with_timeout hangs ms = elapsed

-- `CANDIDATE_TIMEOUT_MS`
abbrev pub candidate_timeout_ms : ℕ
candidate_timeout_ms = 3000

-- What the platform does: the promise of each call of `pair`, and what `saveIdentity` throws.
pub record Trial : Type 0 where
  pub promise : Text → Settling
  pub save_failure : HarnessIdentity → Option Text

-- The calls, in their order.
pub data Act : Type 0 where
  pins : Text → Text → Act
  pairs : Text → Text → Text → Act
  saves : HarnessIdentity → Act

-- What the promise of `pairWithInfo` ends with; `none` stands for `no reachable host`.
pub data Answer : Type 0 where
  found : HarnessIdentity → Answer
  threw : Option Failure → Answer

-- One turn of the loop: the identity that is returned, or `lastError`.
pub data Turn : Type 0 where
  succeeds : HarnessIdentity → Turn
  fails : Failure → Turn

module _ (t : Trial) where
  abbrev save_turn : HarnessIdentity → Turn
  save_turn i = elim (t.save_failure i) [
    | none ↦ succeeds i
    | some message ↦ fails (not_saved message)
  ]

  abbrev turn_of : Race → Turn
  turn_of (paired i) = save_turn i
  turn_of (rejected reason) = fails (refused reason)
  turn_of elapsed = fails timed_out

  abbrev saves_of : Race → List Act
  saves_of (paired i) = saves i ∷ []
  saves_of _ = []

  abbrev pub race : Text → Race
  unfolding with_timeout
  race url = with_timeout (t.promise url) candidate_timeout_ms

  abbrev pub turn : Text → Turn
  unfolding race
  turn url = turn_of (race url)

  abbrev pub acts_of : PairingInfo → Text → List Act
  acts_of info url = pins url info.spki ∷ pairs info.token url info.spki ∷ saves_of (race url)

  -- The loop over the URLs, with `lastError`: the calls, and how it ends.
  unfoldable pub try_urls : PairingInfo → Option Failure → List Text → List Act × Answer
  try_urls info last [] = ([], threw last)
  try_urls info last (url ∷ rest) = elim (turn url) [
    | succeeds i ↦ (acts_of info url, found i)
    | fails e ↦
        let (acts, answer) = try_urls info (some e) rest in (acts_of info url ++ acts, answer)
  ]

  -- `pairWithInfo`
  unfoldable pub pair_with_info : PairingInfo → List Act × Answer
  unfolding try_urls
  pair_with_info info = try_urls info none (candidate_urls info (codes "/ws"))
