-- ===== src/Client/Pair/Outcomes.antt =====
-- client.ts: how the promise of a call of `pair` ends.
use mathlib.Core.Path.{subst}
use msclaude_connector.Prelude.{
  ℕ, ◌≡◌, refl, sym, ap, ◌∙◌, true, false, List, [], ◌∷◌, Option, none, some, arith, codes, text_eq,
  or_else, if_cases, option_cases, inl, inr, Bool-cases,
}
use msclaude_connector.Value.{Value, Fields, str}
use msclaude_connector.Wire.{Envelope, parse_envelope}
use msclaude_connector.Client.{Client, World, HarnessIdentity, close_socket}
use msclaude_connector.Client.Dials.{Dials, connect-Dials, no_creation}
use msclaude_connector.Client.Reconnect.{emit, headers_for}
use msclaude_connector.Client.Setup.{connect-SameSetup}
use msclaude_connector.Client.Sockets.{received, closed}
use msclaude_connector.Client.Pair.{
  Attempt, Pairing, Outcome, Reason, is_on, attempt_on, settle_attempt, settle, on_paired,
  issued_by, resolve_pair, on_pair_envelope, on_pair_message, on_pair_end, client_step, by_owner,
  pair_step, acts, fails, closed_early, socket_error, resolved, rejected,
}

is_on-settle_attempt :
    (s : ℕ) (o : Outcome) (a : Attempt) → is_on s (settle_attempt o a) ≡ is_on s a
is_on-settle_attempt s o a =
    option_cases (λ (b : Attempt). is_on s b ≡ is_on s a) a.outcome _ _ (λ _. refl) (λ o' _. refl)

attempt_on-settle :
    (s : ℕ) (o : Outcome) (l : List Attempt) (a : Attempt)
    → attempt_on s l ≡ some a
    → attempt_on s (settle s o l) ≡ some (settle_attempt o a)
unfolding settle
attempt_on-settle s o [] a h = cc
attempt_on-settle s o (b ∷ l) a h = elim (Bool-cases (is_on s b)) [
  | inl on ↦ ground (arith, on, h, is_on-settle_attempt s o b)
  | inr off ↦ ground (arith, off, h, attempt_on-settle s o l a)
]

settle_attempt-outcome :
    (o : Outcome) (a : Attempt) → (settle_attempt o a).outcome ≡ some (or_else a.outcome o)
settle_attempt-outcome o a = ground arith

by_owner-some :
    (s : ℕ) (f : Attempt → Pairing → Pairing) (g : Pairing → Pairing) (p : Pairing) (a : Attempt)
    → attempt_on s p.attempts ≡ some a
    → by_owner s f g p ≡ f a p
by_owner-some s f g p a h =
    option_cases (λ q. q ≡ f a p) (attempt_on s p.attempts) _ _ (λ e. absurd (ground (arith, e, h)))
      (λ b e. ap (λ x. f x p) (ground (arith, e, h)))

on_pair_end_lem :
    (s : ℕ) (reason : Reason) (p q : Pairing) (a : Attempt)
    → attempt_on s p.attempts ≡ some a
    → q ≡ on_pair_end s reason p
    → (q.client ≡ p.client) × (attempt_on s q.attempts ≡ some (settle_attempt (rejected reason) a))
unfolding on_pair_end
on_pair_end_lem s reason p q a h e = (
  ap (λ (r : Pairing). r.client) e,
  ap (λ (r : Pairing). attempt_on s r.attempts) e
      ∙ attempt_on-settle s (rejected reason) p.attempts a h,
)

-- The end of a socket of `pair`, by a close or an error, settles its promise if it is not settled yet,
-- and does nothing to the client.
pub socket_end_settles :
    (w : World) (s : ℕ) (code : Option ℕ) (p : Pairing) (a : Attempt)
    → attempt_on s p.attempts ≡ some a
    → let q = pair_step w (acts (closed s code)) p in
      let r = pair_step w (fails s) p in
      ((q.client ≡ p.client)
        × (attempt_on s q.attempts ≡ some (settle_attempt (rejected closed_early) a)))
      × ((r.client ≡ p.client)
          × (attempt_on s r.attempts ≡ some (settle_attempt (rejected socket_error) a)))
unfolding pair_step
socket_end_settles w s code p a h = (
  on_pair_end_lem s closed_early p _ a h
      (by_owner-some s (λ b. on_pair_end s closed_early) (client_step w (closed s code)) p a h),
  on_pair_end_lem s socket_error p _ a h
      (by_owner-some s (λ b. on_pair_end s socket_error) (λ q. q) p a h),
)

-- The client `d`, which was `c`, has the identity, and dials the URL of it with its credential.
pub record IsJoined (w : World) (i : HarnessIdentity) (c d : Client) : Type 0 where
  pub identity : d.identity ≡ some i
  pub wanted : d.closed_by_user ≡ false
  pub dials : Dials w i.url (headers_for c.auth_mode (some i)) c d

on_paired-IsJoined :
    (w : World) (s : ℕ) (i : HarnessIdentity) (c : Client)
    → i.url ≡ c.url
    → IsJoined w i c (on_paired w s i c)
unfolding on_paired
on_paired-IsJoined w s i c same_url =
    let closing = close_socket s 1000 (str (codes "paired")) in
    let known = record (emit closing c) { identity = some i } in
    let same = connect-SameSetup w (some i) known in
    let dials = connect-Dials w (some i) known in
    record {
      identity = same.identity;
      wanted = same.wanted;
      dials = record {
        asked = dials.asked ∙ rw (no_creation closing c.effects refl refl, same_url) refl;
        begun = dials.begun;
      };
    }

-- The reply of the host: an envelope of type `paired`, with a body.
pub record IsPaired (v : Value) (paired : Fields) : Type 0 where
  pub env : Envelope
  pub parsed : parse_envelope v ≡ some env
  pub is_paired : text_eq env.type (codes "paired") ≡ true
  pub body : env.paired ≡ some paired

abbrev Resolved : World → ℕ → Fields → Pairing → Attempt → Pairing → Type 0
Resolved w s paired p a q =
    IsJoined w (issued_by a paired p.client) p.client q.client
    × (attempt_on s q.attempts
        ≡ some (record a { outcome = some (resolved (issued_by a paired p.client)) }))

resolve_pair_lem :
    (w : World) (s : ℕ) (paired : Fields) (p : Pairing) (a : Attempt)
    → attempt_on s p.attempts ≡ some a
    → a.outcome ≡ none
    → Resolved w s paired p a (resolve_pair w s a paired p)
unfolding resolve_pair issued_by
resolve_pair_lem w s paired p a on unsettled =
    option_cases (Resolved w s paired p a) a.outcome _ _
      (λ _. (
        on_paired-IsJoined w s (issued_by a paired p.client) p.client refl,
        attempt_on-settle s _ p.attempts a on ∙ ground (arith, unsettled),
      ))
      (λ o e. absurd (ground (arith, e, unsettled)))

message_resolves :
    (w : World) (s : ℕ) (v : Value) (paired : Fields) (p : Pairing) (a : Attempt)
    → attempt_on s p.attempts ≡ some a
    → a.outcome ≡ none
    → IsPaired v paired
    → Resolved w s paired p a (on_pair_message w s a (some v) p)
unfolding on_pair_message on_pair_envelope
message_resolves w s v paired p a on unsettled reply =
    option_cases (Resolved w s paired p a) (parse_envelope v) _ _
      (λ e. absurd (ground (arith, e, reply.parsed)))
      λ env e.
        let same : env ≡ reply.env = ground (arith, e, reply.parsed) in
        if_cases (Resolved w s paired p a) (text_eq env.type (codes "paired")) _ _
          (λ _.
            option_cases (Resolved w s paired p a) env.paired _ _
              (λ none_there.
                absurd
                  (ground (arith, none_there, ap (λ (x : Envelope). x.paired) same, reply.body)))
              (λ fs there.
                let body : paired ≡ fs =
                  ground (arith, there, ap (λ (x : Envelope). x.paired) same, reply.body) in
                subst (λ x. Resolved w s paired p a (resolve_pair w s a x p)) body
                  (resolve_pair_lem w s paired p a on unsettled)))
          (λ other. absurd (
            ground (
              arith,
              other,
              ap (λ (x : Envelope). text_eq x.type (codes "paired")) same,
              reply.is_paired,
            )))

-- A `paired` message on the socket of a call of `pair` that is not settled resolves its promise with
-- the issued identity, which the client takes. The client then creates one socket, to the URL and with
-- the headers of that identity, which is its connection; where creating it throws, a timer is set for
-- the next attempt.
pub paired_resolves :
    (w : World) (s : ℕ) (v : Value) (paired : Fields) (p : Pairing) (a : Attempt)
    → attempt_on s p.attempts ≡ some a
    → a.outcome ≡ none
    → IsPaired v paired
    → let q = pair_step w (acts (received s (some v))) p in
      let issued = issued_by a paired p.client in
      IsJoined w issued p.client q.client
      × (attempt_on s q.attempts ≡ some (record a { outcome = some (resolved issued) }))
unfolding pair_step on_paired
paired_resolves w s v paired p a on unsettled reply =
    let owned =
      by_owner-some s (λ b. on_pair_message w s b (some v)) (client_step w (received s (some v))) p
        a on in
    subst (Resolved w s paired p a) (sym owned)
      (message_resolves w s v paired p a on unsettled reply)
