-- ===== src/Client/Pair/Moves.antt =====
-- client.ts: pairing moves a client as its own steps do, or in ways that the invariants do not see;
-- so the invariants of a client hold with pairing too.
use msclaude_connector.Prelude.{
  ℕ, ◌+◌, refl, inl, [], Option, none, some, Text, codes, text_eq, if◌then◌else◌, or_else, if_cases,
  option_cases,
}
use msclaude_connector.Value.{Value, Fields, str}
use msclaude_connector.Wire.{Envelope, parse_envelope}
use msclaude_connector.Client.{
  Client, World, ConnPhase, HarnessIdentity, ClientError, create_socket, close_socket,
}
use msclaude_connector.Client.Notify.{set_phase}
use msclaude_connector.Client.Reconnect.{emit}
use msclaude_connector.Client.Sockets.{
  Step, step, connects, closes, resets, identifies, restores, commands, opened, received, closed,
  fired,
}
use msclaude_connector.Client.Frame.{Keeps, Keeps-trans, set_phase-Keeps, emit-Keeps, settle_count}
use msclaude_connector.Client.Pair.{
  Attempt, Pairing, Reason, Event, pair, attempt_on, on_pair_open, on_paired, refuse_pair,
  resolve_pair, on_pair_envelope, on_pair_message, on_pair_end, client_step, socket_step, pair_step,
  acts, pairs, fails, closed_early, socket_error,
}

-- `c` comes to `c'` by steps and by changes that `Keeps` allows.
pub data Moves (c : Client) : Client → Type 0 where
  stays : Moves c c
  steps : {d : Client} → Moves c d → (w : World) (s : Step) → Moves c (step w s d)
  keeps : {d e : Client} → Moves c d → Keeps d e → Moves c e

-- What each step and `Keeps` preserve is preserved.
pub Moves-preserve {ℓ} :
    (P : Client → Type ℓ) {c c' : Client}
    → ((w : World) (s : Step) (d : Client) → P d → P (step w s d))
    → ((d e : Client) → Keeps d e → P d → P e)
    → Moves c c'
    → P c
    → P c'
Moves-preserve P by_step by_keeps stays p = p
Moves-preserve P by_step by_keeps (steps {d = d} m w s) p =
    by_step w s d (Moves-preserve P by_step by_keeps m p)
Moves-preserve P by_step by_keeps (keeps {d = d} {e = e} m k) p =
    by_keeps d e k (Moves-preserve P by_step by_keeps m p)

-- New values of the fields that only pairing writes.
abbrev pairing_change : Client → Text → Option HarnessIdentity → Option ClientError → ℕ → Client
pairing_change c url identity error sockets = record c {
  url = url;
  identity = identity;
  error = error;
  sockets = sockets;
}

pairing-Keeps :
    (c : Client) (url : Text) (identity : Option HarnessIdentity) (error : Option ClientError)
    (sockets : ℕ)
    → Keeps c (pairing_change c url identity error sockets)
pairing-Keeps c url identity error sockets = record {
  outbox = refl;
  pending = refl;
  gap_seq = refl;
  gap_count = refl;
  closed_by_user = refl;
  max_items = refl;
  session = inl refl;
  phase = inl refl;
  outcomes = λ id. refl;
}

-- The client of `q` comes after that of `p`.
pub record After (p q : Pairing) : Type 0 where
  pub moved : Moves p.client q.client

module _ (p : Pairing) where
  same : After p p
  same = record { moved = stays }

  pair-After :
      (w : World) (token : Text) (url spki : Option Text) → After p (pair w token url spki p)
  unfolding pair settle_count
  pair-After w token url spki =
      option_cases (After p) w.create_failure _ _
        (λ _. record {
          moved =
              keeps (keeps stays asked)
                (pairing-Keeps asked_client _ _ _ (asked_client.sockets + 1));
        })
        (λ message _. record { moved = keeps stays asked })
    where
      c : Client
      c = record p.client { url = or_else url p.client.url }

      entered_client : Client
      entered_client = record (set_phase ConnPhase.pairing c) { error = none }

      asked_client : Client
      asked_client = emit (create_socket entered_client.url []) entered_client

      asked : Keeps p.client asked_client
      asked = Keeps-trans (pairing-Keeps p.client (or_else url p.client.url) _ _ _) (
          Keeps-trans
            (Keeps-trans (set_phase-Keeps ConnPhase.pairing c refl)
              (pairing-Keeps (set_phase ConnPhase.pairing c) _ _ none _))
            (emit-Keeps (create_socket entered_client.url []) entered_client (λ id. refl)))

  client_step-After : (w : World) (s : Step) → After p (client_step w s p)
  client_step-After w s = record { moved = steps stays w s }

  on_paired-Moves :
      (w : World) (s : ℕ) (issued : HarnessIdentity) (c : Client) → Moves c (on_paired w s issued c)
  unfolding on_paired step settle_count
  on_paired-Moves w s issued c =
      let told = emit (close_socket s 1000 (str (codes "paired"))) c in
      steps
        (keeps
          (keeps stays (emit-Keeps (close_socket s 1000 (str (codes "paired"))) c (λ id. refl)))
          (pairing-Keeps told _ (some issued) _ _))
        w (connects (some issued))

  resolve_pair-After :
      (w : World) (s : ℕ) (a : Attempt) (paired : Fields) → After p (resolve_pair w s a paired p)
  unfolding resolve_pair
  resolve_pair-After w s a paired =
      option_cases (After p) a.outcome _ _ (λ _. record { moved = on_paired-Moves w s _ p.client })
        (λ o _. same)

  refuse_pair-After : (s : ℕ) (a : Attempt) (err : Fields) → After p (refuse_pair s a err p)
  unfolding refuse_pair settle_count
  refuse_pair-After s a err =
      option_cases (After p) a.outcome _ _
        (λ _. record {
          moved = keeps stays (
              emit-Keeps (close_socket s 1000 (str (codes "pairing failed"))) p.client
                (λ id. refl));
        })
        (λ o _. same)

  on_pair_envelope-After :
      (w : World) (s : ℕ) (a : Attempt) (env : Envelope) → After p (on_pair_envelope w s a env p)
  unfolding on_pair_envelope
  on_pair_envelope-After w s a env =
      if_cases (After p) (text_eq env.type (codes "paired")) _ _
        (λ _.
          option_cases (After p) env.paired _ _ (λ _. refused)
            (λ paired _. resolve_pair-After w s a paired))
        (λ _. refused)
    where
      refused : After p (
          if text_eq env.type (codes "error")
          then elim env.error [ none ↦ p | some err ↦ refuse_pair s a err p ]
          else p)
      refused =
          if_cases (After p) (text_eq env.type (codes "error")) _ _
            (λ _.
              option_cases (After p) env.error _ _ (λ _. same) (λ err _. refuse_pair-After s a err))
            (λ _. same)

  on_pair_message-After :
      (w : World) (s : ℕ) (a : Attempt) (m : Option Value) → After p (on_pair_message w s a m p)
  unfolding on_pair_message
  on_pair_message-After w s a none = same
  on_pair_message-After w s a (some v) =
      option_cases (After p) (parse_envelope v) _ _ (λ _. same)
        (λ env _. on_pair_envelope-After w s a env)

  on_pair_open-After :
      (s : ℕ) (a : Attempt) → After p (record p { client = on_pair_open s a p.client })
  unfolding on_pair_open settle_count
  on_pair_open-After s a = record { moved = keeps stays (emit-Keeps _ p.client (λ id. refl)) }

  on_pair_end-After : (s : ℕ) (reason : Reason) → After p (on_pair_end s reason p)
  unfolding on_pair_end
  on_pair_end-After s reason = record { moved = stays }

  socket_step-After : (w : World) (s : Step) → After p (socket_step w s p)
  unfolding socket_step
  socket_step-After w (opened s) =
      option_cases (After p) (attempt_on s p.attempts) _ _ (λ _. client_step-After w (opened s))
        (λ a _. on_pair_open-After s a)
  socket_step-After w (received s m) =
      option_cases (After p) (attempt_on s p.attempts) _ _ (λ _. client_step-After w (received s m))
        (λ a _. on_pair_message-After w s a m)
  socket_step-After w (closed s code) =
      option_cases (After p) (attempt_on s p.attempts) _ _
        (λ _. client_step-After w (closed s code)) (λ a _. on_pair_end-After s closed_early)
  socket_step-After w (connects i) = client_step-After w (connects i)
  socket_step-After w closes = client_step-After w closes
  socket_step-After w resets = client_step-After w resets
  socket_step-After w (identifies i) = client_step-After w (identifies i)
  socket_step-After w (restores n) = client_step-After w (restores n)
  socket_step-After w (commands id kind payload) = client_step-After w (commands id kind payload)
  socket_step-After w fired = client_step-After w fired

  pub pair_step-After : (w : World) (e : Event) → After p (pair_step w e p)
  unfolding pair_step
  pair_step-After w (acts s) = socket_step-After w s
  pair_step-After w (pairs token url spki) = pair-After w token url spki
  pair_step-After w (fails s) =
      option_cases (After p) (attempt_on s p.attempts) _ _ (λ _. same)
        (λ a _. on_pair_end-After s socket_error)
