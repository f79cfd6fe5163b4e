-- ===== src/Client/Queues/Outcomes.antt =====
-- client.ts: what a message from the host, and then any step, does to the waiting promises.
use msclaude_connector.Prelude.{
  ◌+◌, ◌≡◌, refl, true, false, [], ◌∷◌, some, arith, Text, text_eq, if◌then◌else◌, if_cases,
  option_cases,
}
use msclaude_connector.Prelude.Maps.{lookup, remove}
use msclaude_connector.Value.{Value, Fields, str, get}
use msclaude_connector.Wire.{is_terminal}
use msclaude_connector.Client.{Client, World, Effect, ConnPhase, resolve, reject}
use msclaude_connector.Client.Reconnect.{emit}
use msclaude_connector.Client.Commands.{
  pending_for, forget, handle_ack, handle_error, is_falsy, error_of,
}
use msclaude_connector.Client.Sockets.{
  Step, step, connects, closes, resets, identifies, restores, commands, opened, received, closed,
  fired,
}
use msclaude_connector.Client.Received.{on_message-kept}
use msclaude_connector.Client.Frame.{settles, settle_count, settle_count-append, publish-Keeps}
use msclaude_connector.Client.Frame.Reconnect.{timer_fired-Keeps, detach_and_close-Keeps}
use msclaude_connector.Client.Queues.{
  Settled, Settled-refl, Settled-trans, Keeps-Settled, queues_of, set_phase-Settled,
  connect-Settled, close-Settled, reset-Settled, set_identity-Settled, set_last_seq-Settled,
  on_open-Settled, on_close-Settled, handle_snapshot-Settled, handle_event-Settled,
}

-- One promise gets its outcome: both maps forget the command, which was waiting.
pub record Settles (id : Text) (c c' : Client) : Type 0 where
  pub waited : lookup id c.pending ≡ some false
  pub outbox : c'.outbox ≡ remove id c.outbox
  pub pending : c'.pending ≡ remove id c.pending
  pub outcomes :
      (j : Text)
      → settle_count j c'.effects ≡ settle_count j c.effects + (if text_eq id j then 1 else 0)

pending_for-some :
    (v : Value) (c : Client) (id : Text)
    → pending_for v c ≡ some id
    → lookup id c.pending ≡ some false
unfolding pending_for
pending_for-some (str s) c id h = ground arith
pending_for-some Value.undefined c id h = cc
pending_for-some Value.null c id h = cc
pending_for-some (Value.bool b) c id h = cc
pending_for-some (Value.num n) c id h = cc
pending_for-some (Value.arr vs) c id h = cc
pending_for-some (Value.obj fs) c id h = cc

emit-Settles :
    (id : Text) (e : Effect) (c : Client)
    → ((j : Text) → settles j e ≡ text_eq id j)
    → lookup id c.pending ≡ some false
    → Settles id c (emit e (forget id c))
unfolding forget settle_count
emit-Settles id e c own h = record {
  waited = h;
  outbox = refl;
  pending = refl;
  outcomes = λ j. ground (arith, settle_count-append j c.effects (e ∷ []), own j);
}

-- What a message from the host does to the queues.
pub data Outcome (c c' : Client) : Type 0 where
  routine : Settled c c' → Outcome c c'
  one : (id : Text) → Settles id c c' → Outcome c c'

handle_ack-Outcome : (ack : Fields) (c : Client) → Outcome c (handle_ack ack c)
unfolding handle_ack
handle_ack-Outcome ack c =
    option_cases (Outcome c) (pending_for (get "commandId" ack) c) _ _
      (λ _. routine (Settled-refl c))
      λ id e. one id (
        emit-Settles id (resolve id ack) c (λ j. refl)
          (pending_for-some (get "commandId" ack) c id e))

handle_error-Outcome : (err : Fields) (c : Client) → Outcome c (handle_error err c)
unfolding handle_error
handle_error-Outcome err c =
    if_cases (Outcome c) (is_falsy (get "commandId" err)) _ _
      (λ _. routine (
        if_cases (Settled c) (is_terminal (get "code" err)) _ _
          (λ _. Settled-trans (queues_of c denied refl refl refl) (
            Settled-trans (Keeps-Settled (detach_and_close-Keeps 1008 _ denied))
              (set_phase-Settled ConnPhase.unauthorized _)))
          (λ _.
            Settled-trans (queues_of c noted refl refl refl)
              (Keeps-Settled (publish-Keeps noted)))))
      (λ _.
        option_cases (Outcome c) (pending_for (get "commandId" err) c) _ _
          (λ _. routine (Settled-refl c))
          λ id e. one id (
            emit-Settles id (reject id (error_of err)) c (λ j. refl)
              (pending_for-some (get "commandId" err) c id e)))
  where
    denied : Client
    denied = record c { error = some (error_of err); closed_by_user = true }

    noted : Client
    noted = record c { error = some (error_of err) }

-- No command is sent in the step.
abbrev pub IsQuiet : Step → Type 0
IsQuiet (commands id kind payload) = ⊥
IsQuiet _ = Unit

-- Every step but a command leaves the queues and promises as they are, empties the outbox, or
-- settles one command.
pub step-Outcome : (w : World) (s : Step) (c : Client) → IsQuiet s → Outcome c (step w s c)
unfolding step
step-Outcome w (connects i) c q = routine (connect-Settled w i c)
step-Outcome w closes c q = routine (close-Settled c)
step-Outcome w resets c q = routine (reset-Settled c)
step-Outcome w (identifies i) c q = routine (set_identity-Settled i c)
step-Outcome w (restores n) c q = routine (set_last_seq-Settled n c)
step-Outcome w (commands id kind payload) c q = absurd q
step-Outcome w (opened s) c q = routine (on_open-Settled s c)
step-Outcome w (received s m) c q =
    on_message-kept (Outcome c) w c (routine (Settled-refl c))
      (λ snap. routine (handle_snapshot-Settled w snap c))
      (λ n ev. routine (handle_event-Settled w n ev c)) (λ ack. handle_ack-Outcome ack c)
      (λ err. handle_error-Outcome err c) s m
step-Outcome w (closed s code) c q = routine (on_close-Settled w s code c)
step-Outcome w fired c q = routine (Keeps-Settled (timer_fired-Keeps w c))
