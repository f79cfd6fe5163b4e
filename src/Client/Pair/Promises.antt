-- ===== src/Client/Pair/Promises.antt =====
-- client.ts: the promises that calls of `pair` return.
use msclaude_connector.Prelude.{
  ◌⊎◌, inl, inr, sym, option_cases, if_cases, ap, ◌∙◌, ℕ, ◌≡◌, refl, List, [], ◌∷◌, ◌++◌, Option,
  none, some, Text, codes, text_eq, if◌then◌else◌,
}
use msclaude_connector.Value.{Value}
use msclaude_connector.Wire.{Envelope, parse_envelope}
use msclaude_connector.Client.{Client, World}
use msclaude_connector.Client.Sockets.{
  Step, connects, closes, resets, identifies, restores, commands, opened, received, closed, fired,
}
use msclaude_connector.Client.Pair.{
  Attempt, Pairing, Outcome, Reason, Event, pair, is_on, attempt_on, settle, settle_on, refuse_pair,
  resolve_pair, on_pair_envelope, on_pair_message, on_pair_end, socket_step, pair_step, pair_run,
  acts, pairs, fails, closed_early, socket_error, rejected,
}

-- The attempts of `old` are the first ones of `new`, and those with an outcome have not changed.
abbrev pub Later : List Attempt → List Attempt → Type 0
Later [] new = Unit
Later (a ∷ old) [] = ⊥
Later (a ∷ old) (b ∷ new) = ((a.outcome ≡ none) ⊎ (b ≡ a)) × Later old new

Later-refl : (l : List Attempt) → Later l l
Later-refl [] = tt
Later-refl (a ∷ l) = (inr refl, Later-refl l)

kept_on :
    (a b c : Attempt)
    → (a.outcome ≡ none) ⊎ (b ≡ a)
    → (b.outcome ≡ none) ⊎ (c ≡ b)
    → (a.outcome ≡ none) ⊎ (c ≡ a)
kept_on a b c (inl e) q = inl e
kept_on a b c (inr e) (inl f) = inl (ap (λ (x : Attempt). x.outcome) (sym e) ∙ f)
kept_on a b c (inr e) (inr f) = inr (f ∙ e)

Later-trans : (l m n : List Attempt) → Later l m → Later m n → Later l n
Later-trans [] m n p q = tt
Later-trans (a ∷ l) (b ∷ m) (c ∷ n) p q = (kept_on a b c p.0 q.0, Later-trans l m n p.1 q.1)
Later-trans (a ∷ l) [] n p q = absurd p
Later-trans (a ∷ l) (b ∷ m) [] p q = absurd q

Later-append : (l m : List Attempt) → Later l (l ++ m)
Later-append [] m = tt
Later-append (a ∷ l) m = (inr refl, Later-append l m)

-- One attempt and what became of it.
record IsKept (a b : Attempt) : Type 0 where
  kept : (a.outcome ≡ none) ⊎ (b ≡ a)

settle_on-IsKept : (s : ℕ) (o : Outcome) (a : Attempt) → IsKept a (settle_on s o a)
settle_on-IsKept s o a =
    if_cases (IsKept a) (is_on s a) _ _
      (λ _.
        option_cases (IsKept a) a.outcome _ _ (λ open_still. record { kept = inl open_still })
          (λ o' _. record { kept = inr refl }))
      (λ _. record { kept = inr refl })

settle-Later : (s : ℕ) (o : Outcome) (l : List Attempt) → Later l (settle s o l)
unfolding settle
settle-Later s o [] = tt
settle-Later s o (a ∷ l) = ((settle_on-IsKept s o a).kept, settle-Later s o l)

-- The attempts of `q` come after those of `p`.
record Follows (p q : Pairing) : Type 0 where
  later : Later p.attempts q.attempts

module _ (p : Pairing) where
  alike : (c : Client) → Follows p (record p { client = c })
  alike c = record { later = Later-refl p.attempts }

  settled :
      (s : ℕ) (o : Outcome) (c : Client)
      → Follows p (record { client = c; attempts = settle s o p.attempts })
  settled s o c = record { later = settle-Later s o p.attempts }

  pair-Follows :
      (w : World) (token : Text) (url spki : Option Text) → Follows p (pair w token url spki p)
  unfolding pair
  pair-Follows w token url spki =
      option_cases (Follows p) w.create_failure _ _
        (λ _. record { later = Later-append p.attempts _ })
        (λ message _. record { later = Later-append p.attempts _ })

  on_pair_envelope-Follows :
      (w : World) (s : ℕ) (a : Attempt) (env : Envelope) → Follows p (on_pair_envelope w s a env p)
  unfolding on_pair_envelope resolve_pair refuse_pair
  on_pair_envelope-Follows w s a env =
      if_cases (Follows p) (text_eq env.type (codes "paired")) _ _
        (λ _.
          option_cases (Follows p) env.paired _ _ (λ _. refused)
            (λ paired _.
              option_cases (Follows p) a.outcome _ _ (λ _. settled s _ _) (λ o _. alike p.client)))
        (λ _. refused)
    where
      refused : Follows p (
          if text_eq env.type (codes "error")
          then elim env.error [ none ↦ p | some err ↦ refuse_pair s a err p ]
          else p)
      refused =
          if_cases (Follows p) (text_eq env.type (codes "error")) _ _
            (λ _.
              option_cases (Follows p) env.error _ _ (λ _. alike p.client)
                (λ err _.
                  option_cases (Follows p) a.outcome _ _ (λ _. settled s _ _)
                    (λ o _. alike p.client)))
            (λ _. alike p.client)

  on_pair_message-Follows :
      (w : World) (s : ℕ) (a : Attempt) (m : Option Value) → Follows p (on_pair_message w s a m p)
  unfolding on_pair_message
  on_pair_message-Follows w s a none = alike p.client
  on_pair_message-Follows w s a (some v) =
      option_cases (Follows p) (parse_envelope v) _ _ (λ _. alike p.client)
        (λ env _. on_pair_envelope-Follows w s a env)

  on_pair_end-Follows : (s : ℕ) (reason : Reason) → Follows p (on_pair_end s reason p)
  unfolding on_pair_end
  on_pair_end-Follows s reason = settled s (rejected reason) p.client

  socket_step-Follows : (w : World) (s : Step) → Follows p (socket_step w s p)
  unfolding socket_step
  socket_step-Follows w (opened s) =
      option_cases (Follows p) (attempt_on s p.attempts) _ _ (λ _. alike _) (λ a _. alike _)
  socket_step-Follows w (received s m) =
      option_cases (Follows p) (attempt_on s p.attempts) _ _ (λ _. alike _)
        (λ a _. on_pair_message-Follows w s a m)
  socket_step-Follows w (closed s code) =
      option_cases (Follows p) (attempt_on s p.attempts) _ _ (λ _. alike _)
        (λ a _. on_pair_end-Follows s closed_early)
  socket_step-Follows w (connects i) = alike _
  socket_step-Follows w closes = alike _
  socket_step-Follows w resets = alike _
  socket_step-Follows w (identifies i) = alike _
  socket_step-Follows w (restores n) = alike _
  socket_step-Follows w (commands id kind payload) = alike _
  socket_step-Follows w fired = alike _

  pair_step-Follows : (w : World) (e : Event) → Follows p (pair_step w e p)
  unfolding pair_step
  pair_step-Follows w (acts s) = socket_step-Follows w s
  pair_step-Follows w (pairs token url spki) = pair-Follows w token url spki
  pair_step-Follows w (fails s) =
      option_cases (Follows p) (attempt_on s p.attempts) _ _ (λ _. alike p.client)
        (λ a _. on_pair_end-Follows s socket_error)

-- In any history, a call of `pair` whose promise was resolved or rejected stays as it is, and calls
-- are only added behind the others.
pub pair_settles_once :
    (p : Pairing) (h : List (World × Event)) → Later p.attempts (pair_run p h).attempts
unfolding pair_run
pair_settles_once p [] = Later-refl p.attempts
pair_settles_once p ((w, e) ∷ h) =
    Later-trans p.attempts (pair_step w e p).attempts (pair_run (pair_step w e p) h).attempts
      (pair_step-Follows p w e).later (pair_settles_once (pair_step w e p) h)
