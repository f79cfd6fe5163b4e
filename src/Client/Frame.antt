-- ===== src/Client/Frame.antt =====
-- client.ts: what leaves the outbox, the waiting promises and their outcomes alone.
pub mod Reconnect
use msclaude_connector.Prelude.{
  ℕ, suc, ◌+◌, ◌≡◌, refl, ◌∙◌, inl, inr, Bool, false, List, [], ◌∷◌, ◌++◌, Option, none, some,
  arith, Text, text_eq, ◌&&◌, ◌⊎◌, if◌then◌else◌, if_cases, option_cases,
}
use msclaude_connector.Prelude.Maps.{Map}
use msclaude_connector.Value.{Value, null, same_value}
use msclaude_connector.Session.{new_session_state}
use msclaude_connector.Wire.{CommandPayload}
use msclaude_connector.Client.{
  Client, ClientError, ClientState, World, Effect, ConnPhase, create_socket, close_socket,
  set_timer, clear_timer, resolve, reject, notify,
}
use msclaude_connector.Client.Backoff.{compute_backoff}
use msclaude_connector.Client.Notify.{build_state, publish, set_phase}
use msclaude_connector.Client.Reconnect.{
  emit, clear_if_set, start_timer, schedule_reconnect, resync, headers_for, close_if_set,
  socket_failure, create_normal_socket, open_normal_socket, timer_fired, detach_and_close,
  stop_timer,
}
use msclaude_connector.Client.Commands.{flush_outbox, send_all, is_live}

-- The promise of the command `id` gets its outcome.
abbrev pub settles : Text → Effect → Bool
settles id (resolve i ack) = text_eq i id
settles id (reject i err) = text_eq i id
settles id _ = false

-- How often it has got one.
unfoldable pub settle_count : Text → List Effect → ℕ
settle_count id [] = 0
settle_count id (e ∷ es) = let rest = settle_count id es in if settles id e then suc rest else rest

pub settle_count-append :
    (id : Text) (es fs : List Effect)
    → settle_count id (es ++ fs) ≡ settle_count id es + settle_count id fs
unfolding settle_count
settle_count-append id [] fs = omega arith
settle_count-append id (e ∷ es) fs = ground (arith, settle_count-append id es fs)

-- What reconnecting does to a client, of which the queues, the outcomes and the gap streak see
-- nothing: the session stays or starts anew, and the phase stays or is not live.
pub record Keeps (c c' : Client) : Type 0 where
  pub outbox : c'.outbox ≡ c.outbox
  pub pending : c'.pending ≡ c.pending
  pub gap_seq : c'.gap_seq ≡ c.gap_seq
  pub gap_count : c'.gap_count ≡ c.gap_count
  pub closed_by_user : c'.closed_by_user ≡ c.closed_by_user
  pub max_items : c'.max_items ≡ c.max_items
  pub session : (c'.session ≡ c.session) ⊎ (c'.session ≡ new_session_state)
  pub phase : (c'.phase ≡ c.phase) ⊎ (is_live c'.phase ≡ false)
  pub outcomes : (id : Text) → settle_count id c'.effects ≡ settle_count id c.effects

pub Keeps-refl : (c : Client) → Keeps c c
Keeps-refl c = record {
  outbox = refl;
  pending = refl;
  gap_seq = refl;
  gap_count = refl;
  closed_by_user = refl;
  max_items = refl;
  session = inl refl;
  phase = inl refl;
  outcomes = λ id. refl;
}

pub Keeps-trans : {a b c : Client} → Keeps a b → Keeps b c → Keeps a c
Keeps-trans k l = record {
  outbox = l.outbox ∙ k.outbox;
  pending = l.pending ∙ k.pending;
  gap_seq = l.gap_seq ∙ k.gap_seq;
  gap_count = l.gap_count ∙ k.gap_count;
  closed_by_user = l.closed_by_user ∙ k.closed_by_user;
  max_items = l.max_items ∙ k.max_items;
  session = ground (arith, k.session, l.session);
  phase = ground (arith, k.phase, l.phase);
  outcomes = λ id. l.outcomes id ∙ k.outcomes id;
}

-- New values of the fields that nothing above speaks of.
abbrev pub quiet_change :
    (c : Client) (error : Option ClientError) (retry_attempt : ℕ)
    (retry_in_ms timer socket : Option ℕ) (sockets timers : ℕ) (current : ClientState)
    (detached : List ℕ)
    → Client
quiet_change c error retry_attempt retry_in_ms timer socket sockets timers current detached =
    record c {
      error = error;
      retry_attempt = retry_attempt;
      retry_in_ms = retry_in_ms;
      reconnect_timer = timer;
      socket = socket;
      sockets = sockets;
      timers = timers;
      current = current;
      detached = detached;
    }

pub Keeps-quiet :
    (c : Client) (error : Option ClientError) (retry_attempt : ℕ)
    (retry_in_ms timer socket : Option ℕ) (sockets timers : ℕ) (current : ClientState)
    (detached : List ℕ)
    → Keeps c (
        quiet_change c error retry_attempt retry_in_ms timer socket sockets timers current detached)
Keeps-quiet c _ _ _ _ _ _ _ _ _ = record {
  outbox = refl;
  pending = refl;
  gap_seq = refl;
  gap_count = refl;
  closed_by_user = refl;
  max_items = refl;
  session = inl refl;
  phase = inl refl;
  outcomes = λ id. refl;
}

-- `es` settles nothing.
abbrev pub NoOutcome : List Effect → Type 0
NoOutcome es = (id : Text) → settle_count id es ≡ 0

pub Keeps-effects :
    (c : Client) (es : List Effect)
    → NoOutcome es
    → Keeps c (record c { effects = c.effects ++ es })
Keeps-effects c es quiet = record {
  outbox = refl;
  pending = refl;
  gap_seq = refl;
  gap_count = refl;
  closed_by_user = refl;
  max_items = refl;
  session = inl refl;
  phase = inl refl;
  outcomes = λ id. omega (arith, settle_count-append id c.effects es, quiet id);
}

pub emit-Keeps : (e : Effect) (c : Client) → NoOutcome (e ∷ []) → Keeps c (emit e c)
emit-Keeps e c quiet = Keeps-effects c (e ∷ []) quiet

pub publish-Keeps : (c : Client) → Keeps c (publish c)
unfolding publish settle_count
publish-Keeps c =
    Keeps-trans (emit-Keeps notify c (λ id. refl))
      (Keeps-quiet (emit notify c) _ _ _ _ _ _ _ (build_state c) _)

in_phase-Keeps : (p : ConnPhase) (c : Client) → is_live p ≡ false → Keeps c (record c { phase = p })
in_phase-Keeps p c h = record {
  outbox = refl;
  pending = refl;
  gap_seq = refl;
  gap_count = refl;
  closed_by_user = refl;
  max_items = refl;
  session = inl refl;
  phase = inr h;
  outcomes = λ id. refl;
}

pub set_phase-Keeps : (p : ConnPhase) (c : Client) → is_live p ≡ false → Keeps c (set_phase p c)
unfolding set_phase
set_phase-Keeps p c h = Keeps-trans (in_phase-Keeps p c h) (publish-Keeps (record c { phase = p }))
