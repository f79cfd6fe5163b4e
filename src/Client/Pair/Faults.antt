-- ===== src/Client/Pair/Faults.antt =====
-- client.ts: calls of `pair` that overlap, and calls that fail.
use mathlib.Core.Path.{subst}
use msclaude_connector.Prelude.{
  ℕ, ◌≡◌, refl, sym, true, List, [], ◌∷◌, ◌++◌, Option, none, some, arith, Text, ==_iff,
  option_cases, inl, inr, Bool-cases,
}
use msclaude_connector.Value.{Value, Fields}
use msclaude_connector.Client.{Client, World, ConnPhase, HarnessIdentity}
use msclaude_connector.Client.Notify.{publish, set_phase, build_state, device_id_of}
use msclaude_connector.Client.Sockets.{received, closed}
use msclaude_connector.Client.Pair.{
  Attempt, Pairing, pair, is_on, attempt_on, issued_by, pair_step, acts, fails, resolved,
}
use msclaude_connector.Client.Pair.Outcomes.{
  IsJoined, IsPaired, paired_resolves, socket_end_settles,
}

attempt_on-append :
    (s : ℕ) (l m : List Attempt) (a : Attempt)
    → attempt_on s l ≡ some a
    → attempt_on s (l ++ m) ≡ some a
attempt_on-append s [] m a h = cc
attempt_on-append s (b ∷ l) m a h = ground (arith, h, attempt_on-append s l m a)

-- What a call of `pair` does to the URL and to the older calls.
record IsAdded (url : Text) (s : ℕ) (a : Attempt) (q : Pairing) : Type 0 where
  address : q.client.url ≡ url
  older : attempt_on s q.attempts ≡ some a

pair-IsAdded :
    (w : World) (token url : Text) (spki : Option Text) (p : Pairing) (s : ℕ) (a : Attempt)
    → attempt_on s p.attempts ≡ some a
    → IsAdded url s a (pair w token (some url) spki p)
unfolding pair set_phase publish
pair-IsAdded w token url spki p s a h =
    option_cases (IsAdded url s a) w.create_failure _ _
      (λ _. record { address = refl; older = attempt_on-append s p.attempts _ a h })
      (λ message _. record { address = refl; older = attempt_on-append s p.attempts _ a h })

-- Where a call of `pair` has not ended when `pair` is called with another URL, and the host then
-- answers the first call, the identity that is issued has the URL of the second call, and the client
-- takes it and creates one socket, to that URL and with the headers of that identity, or sets a timer
-- where creating it throws.
pub late_reply_takes_later_url :
    (w w' : World) (s : ℕ) (a : Attempt) (token url : Text) (spki : Option Text) (p : Pairing)
    (v : Value) (paired : Fields)
    → attempt_on s p.attempts ≡ some a
    → a.outcome ≡ none
    → IsPaired v paired
    → let r = pair_step w' (acts (received s (some v))) (pair w token (some url) spki p) in
      let before = (pair w token (some url) spki p).client in
      (i : HarnessIdentity) × IsJoined w' i before r.client
      × (attempt_on s r.attempts ≡ some (record a { outcome = some (resolved i) }))
      × (i.url ≡ url)
unfolding issued_by
late_reply_takes_later_url w w' s a token url spki p v paired h unsettled reply =
    let q = pair w token (some url) spki p in
    let added = pair-IsAdded w token url spki p s a h in
    let (joined, settled) = paired_resolves w' s v paired q a added.older unsettled reply in
    (issued_by a paired q.client, joined, settled, added.address)

-- A client that is pairing, with the identity it had.
pub record IsPairing (identity : Option HarnessIdentity) (c : Client) : Type 0 where
  pub phase : c.phase ≡ ConnPhase.pairing
  pub shown : c.current.phase ≡ ConnPhase.pairing
  pub keeps : c.identity ≡ identity
  pub device : c.current.my_device_id ≡ device_id_of identity

own_attempt :
    (s : ℕ) (l : List Attempt) (a : Attempt)
    → is_on s a ≡ true
    → (b : Attempt) × (attempt_on s (l ++ a ∷ []) ≡ some b)
own_attempt s [] a h = (a, ground (arith, h))
own_attempt s (b ∷ l) a h = elim (Bool-cases (is_on s b)) [
  | inl on ↦ (b, ground (arith, on))
  | inr off ↦ let (c, e) = own_attempt s l a h in (c, ground (arith, off, e))
]

-- A call of `pair` whose socket is created, and what follows when the socket ends unanswered.
record IsStarted (identity : Option HarnessIdentity) (s : ℕ) (q : Pairing) : Type 0 where
  pairing : IsPairing identity q.client
  owner : Attempt
  owned : attempt_on s q.attempts ≡ some owner

pair-IsStarted :
    (w : World) (token : Text) (url spki : Option Text) (p : Pairing)
    → w.create_failure ≡ none
    → IsStarted p.client.identity p.client.sockets (pair w token url spki p)
unfolding pair set_phase publish build_state
pair-IsStarted w token url spki p works =
    option_cases (IsStarted p.client.identity p.client.sockets) w.create_failure _ _
      (λ _.
        let (b, e) =
          own_attempt p.client.sockets p.attempts _
            ((==_iff p.client.sockets p.client.sockets).1 refl) in
        record {
          pairing = record { phase = refl; shown = refl; keeps = refl; device = refl };
          owner = b;
          owned = e;
        })
      (λ message e. absurd (ground (arith, e, works)))

-- A call of `pair` whose socket ends before an answer leaves the client in the phase `pairing`, with
-- the identity that it had: nothing puts the old phase back.
pub failed_pairing_keeps_phase :
    (w w' : World) (token : Text) (url spki : Option Text) (code : Option ℕ) (p : Pairing)
    → w.create_failure ≡ none
    → let q = pair w token url spki p in
      IsPairing p.client.identity (pair_step w' (acts (closed p.client.sockets code)) q).client
      × IsPairing p.client.identity (pair_step w' (fails p.client.sockets) q).client
failed_pairing_keeps_phase w w' token url spki code p works =
    let q = pair w token url spki p in
    let started = pair-IsStarted w token url spki p works in
    let (closes, errs) =
      socket_end_settles w' p.client.sockets code q started.owner started.owned in
    (
      subst (IsPairing p.client.identity) (sym closes.0) started.pairing,
      subst (IsPairing p.client.identity) (sym errs.0) started.pairing,
    )
