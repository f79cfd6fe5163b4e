-- ===== src/Client/Silence/Pairing.antt =====
-- client.ts: the sockets and timers of a client that was closed, where `pair` has been called before.
use msclaude_connector.Prelude.{
  ℕ, ◌≡◌, refl, Bool, true, false, List, [], ◌∷◌, Option, none, some, arith, codes, text_eq, any,
  All, if◌then◌else◌, if_cases, option_cases, Bool-cases, inl, inr,
}
use msclaude_connector.Value.{Value}
use msclaude_connector.Wire.{Envelope, parse_envelope}
use msclaude_connector.Client.{World, send}
use msclaude_connector.Client.Sockets.{
  Step, connects, closes, resets, identifies, restores, commands, opened, received, closed, fired,
}
use msclaude_connector.Client.Pair.{
  Attempt, Pairing, Outcome, Reason, Event, is_on, attempt_on, settle, settle_on, on_pair_open,
  on_pair_envelope, on_pair_message, on_pair_end, resolve_pair, refuse_pair, socket_step, pair_step,
  pair_run, client_step, acts, pairs, fails, rejected, closed_early, socket_error,
}
use msclaude_connector.Client.Silence.{openings, IsSilent, emit-IsSilent}
use msclaude_connector.Client.Silence.History.{reopens, step-IsSilent}

-- The promise of the call has its outcome.
pub record IsOver (a : Attempt) : Type 0 where
  pub outcome : Outcome
  pub over : a.outcome ≡ some outcome

-- A call of `connect`, `reset` or `pair`.
abbrev pub asks : Event → Bool
asks (acts s) = reopens s
asks (pairs token url spki) = true
asks (fails s) = false

abbrev pub asks_in : List (World × Event) → Bool
asks_in h = any (λ p. asks p.1) h

settle_on-IsOver : (s : ℕ) (o : Outcome) (a : Attempt) → IsOver a → settle_on s o a ≡ a
settle_on-IsOver s o a h = if_cases (λ b. b ≡ a) (is_on s a) _ _ (λ _. rw h.over refl) (λ _. refl)

settle-IsOver : (s : ℕ) (o : Outcome) (l : List Attempt) → All IsOver l → settle s o l ≡ l
unfolding settle
settle-IsOver s o [] h = refl
settle-IsOver s o (a ∷ l) h = rw (settle_on-IsOver s o a h.0, settle-IsOver s o l h.1) refl

attempt_on-IsOver :
    (s : ℕ) (l : List Attempt) (a : Attempt) → All IsOver l → attempt_on s l ≡ some a → IsOver a
attempt_on-IsOver s [] a h e = cc
attempt_on-IsOver s (b ∷ l) a h e = elim (Bool-cases (is_on s b)) [
  | inl on ↦
      let same : b ≡ a = ground (arith, on, e) in
      record { outcome = h.0.outcome; over = rw same at h.0.over }
  | inr off ↦ attempt_on-IsOver s l a h.1 (ground (arith, off, e))
]

-- No call of `pair` waits, and the client is silent.
record IsDone (n : ℕ) (p : Pairing) : Type 0 where
  silent : IsSilent n p.client
  over : All IsOver p.attempts

-- A call whose promise has its outcome does nothing with a message.
module _ (w : World) (s : ℕ) (a : Attempt) (p : Pairing) (h : IsOver a) where
  refused-IsOver :
      (env : Envelope)
      → (if text_eq env.type (codes "error")
          then elim env.error [ none ↦ p | some err ↦ refuse_pair s a err p ]
          else p)
        ≡ p
  unfolding refuse_pair
  refused-IsOver env =
      if_cases (λ q. q ≡ p) (text_eq env.type (codes "error")) _ _
        (λ _. option_cases (λ q. q ≡ p) env.error _ _ (λ _. refl) (λ err _. rw h.over refl))
        (λ _. refl)

  on_pair_message-IsOver : (m : Option Value) → on_pair_message w s a m p ≡ p
  unfolding on_pair_message on_pair_envelope resolve_pair
  on_pair_message-IsOver none = refl
  on_pair_message-IsOver (some v) =
      option_cases (λ q. q ≡ p) (parse_envelope v) _ _ (λ _. refl)
        λ env _.
          if_cases (λ q. q ≡ p) (text_eq env.type (codes "paired")) _ _
            (λ _.
              option_cases (λ q. q ≡ p) env.paired _ _ (λ _. refused-IsOver env)
                (λ paired _. rw h.over refl))
            (λ _. refused-IsOver env)

module _ (n : ℕ) (p : Pairing) (d : IsDone n p) where
  same_client : (w : World) (s : Step) → reopens s ≡ false → IsDone n (client_step w s p)
  same_client w s h = record { silent = step-IsSilent n w s p.client h d.silent; over = d.over }

  ended : (s : ℕ) (reason : Reason) → IsDone n (on_pair_end s reason p)
  unfolding on_pair_end
  ended s reason = record {
    silent = d.silent;
    over = rw (settle-IsOver s (rejected reason) p.attempts d.over) d.over;
  }

  socket_step-IsDone : (w : World) (s : Step) → reopens s ≡ false → IsDone n (socket_step w s p)
  unfolding socket_step on_pair_open openings
  socket_step-IsDone w (opened s) h =
      option_cases (IsDone n) (attempt_on s p.attempts) _ _ (λ _. same_client w (opened s) h)
        (λ a _. record { silent = emit-IsSilent (send s _) p.client refl d.silent; over = d.over })
  socket_step-IsDone w (received s m) h =
      option_cases (IsDone n) (attempt_on s p.attempts) _ _ (λ _. same_client w (received s m) h)
        (λ a e. rw (on_pair_message-IsOver w s a p (attempt_on-IsOver s p.attempts a d.over e) m) d)
  socket_step-IsDone w (closed s code) h =
      option_cases (IsDone n) (attempt_on s p.attempts) _ _ (λ _. same_client w (closed s code) h)
        (λ a _. ended s closed_early)
  socket_step-IsDone w (connects i) h = cc
  socket_step-IsDone w closes h = same_client w closes h
  socket_step-IsDone w resets h = cc
  socket_step-IsDone w (identifies i) h = same_client w (identifies i) h
  socket_step-IsDone w (restores m) h = same_client w (restores m) h
  socket_step-IsDone w (commands id kind payload) h = same_client w (commands id kind payload) h
  socket_step-IsDone w fired h = same_client w fired h

  pair_step-IsDone : (w : World) (e : Event) → asks e ≡ false → IsDone n (pair_step w e p)
  unfolding pair_step
  pair_step-IsDone w (acts s) h = socket_step-IsDone w s h
  pair_step-IsDone w (pairs token url spki) h = cc
  pair_step-IsDone w (fails s) h =
      option_cases (IsDone n) (attempt_on s p.attempts) _ _ (λ _. d) (λ a _. ended s socket_error)

pair_run-IsDone :
    (n : ℕ) (p : Pairing) (h : List (World × Event))
    → asks_in h ≡ false
    → IsDone n p
    → IsDone n (pair_run p h)
unfolding pair_run
pair_run-IsDone n p [] q d = d
pair_run-IsDone n p ((w, e) ∷ h) q d =
    pair_run-IsDone n (pair_step w e p) h (ground (arith, q))
      (pair_step-IsDone n p d w e (ground (arith, q)))

-- A client that is closed (`closedByUser`), with no call of `pair` whose promise waits, creates no socket
-- and sets no timer in any history without a call of `connect`, `reset` or `pair`, and is closed at
-- its end. The events of the sockets of earlier calls of `pair` are among those of the history.
pub closed_until_asked :
    (p : Pairing) (h : List (World × Event))
    → p.client.closed_by_user ≡ true
    → All IsOver p.attempts
    → asks_in h ≡ false
    → let c = (pair_run p h).client in
      (openings c.effects ≡ openings p.client.effects) × (c.closed_by_user ≡ true)
closed_until_asked p h off over q =
    let n = openings p.client.effects in
    let d =
      pair_run-IsDone n p h q
        (record { silent = record { closed = off; so_far = refl }; over = over }) in
    (d.silent.so_far, d.silent.closed)
