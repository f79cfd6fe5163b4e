-- ===== src/Client/Outbox.antt =====
-- client.ts: the invariant of the outbox, over any history.
use msclaude_connector.Prelude.{
  ℕ, ◌≤◌, ◌≡◌, refl, ap, false, List, Option, none, arith, Text, leb, length, if_cases,
}
use msclaude_connector.Prelude.Maps.{
  lookup, insert, lookup-remove, lookup-insert, length-insert-le, length-remove-le,
}
use msclaude_connector.Value.{Value}
use msclaude_connector.Wire.{CommandKind, CommandPayload}
use msclaude_connector.Client.{Client, World, AuthMode, HarnessIdentity}
use msclaude_connector.Client.Notify.{new_client}
use msclaude_connector.Client.Commands.{max_outbox, send_command}
use msclaude_connector.Client.Sockets.{
  Step, step, run, connects, closes, resets, identifies, restores, commands, opened, received,
  closed, fired,
}
use msclaude_connector.Client.Frame.Reconnect.{flush_outbox-Keeps}
use msclaude_connector.Client.Received.{run-kept}
use msclaude_connector.Client.Queues.{Settled, Keeps-Settled}
use msclaude_connector.Client.Queues.Outcomes.{Settles, Outcome, routine, one, step-Outcome}

-- The outbox is within its limit, and each command of it has a promise that waits.
pub record IsQueued (c : Client) : Type 0 where
  pub bounded : length c.outbox ≤ max_outbox
  pub waits : (id : Text) → lookup id c.pending ≡ none → lookup id c.outbox ≡ none

pub Settled-IsQueued : {c c' : Client} → Settled c c' → IsQueued c → IsQueued c'
unfolding lookup
Settled-IsQueued {c} {c'} s q = record {
  bounded = ground (arith, s.outbox, q.bounded);
  waits = λ id h. ground (arith, s.outbox, s.pending, q.waits id);
}

Settles-IsQueued : (id : Text) {c c' : Client} → Settles id c c' → IsQueued c → IsQueued c'
Settles-IsQueued id {c} {c'} s q = record {
  bounded = omega (arith, ap length s.outbox, length-remove-le id c.outbox, q.bounded);
  waits = λ j h. ground (
    arith,
    s.outbox,
    s.pending,
    lookup-remove id j c.outbox,
    lookup-remove id j c.pending,
    ap (lookup j) s.outbox,
    ap (lookup j) s.pending,
    q.waits j,
  );
}

Outcome-IsQueued : {c c' : Client} → Outcome c c' → IsQueued c → IsQueued c'
Outcome-IsQueued (routine s) q = Settled-IsQueued s q
Outcome-IsQueued (one id s) q = Settles-IsQueued id s q

send_command-IsQueued :
    (w : World) (id : Text) (kind : CommandKind) (payload : Value) {c : Client}
    → IsQueued c
    → IsQueued (send_command w id kind payload c).0
unfolding send_command
send_command-IsQueued w id kind payload {c} q =
    if_cases {A = Client × Option Text} (λ r. IsQueued r.0) (leb max_outbox (length c.outbox)) _ _
      (λ _. q) λ room. Settled-IsQueued (Keeps-Settled (flush_outbox-Keeps w queued)) (added room)
  where
    body : CommandPayload
    body = record { id = id; idempotency_key = id; kind = kind; payload = payload }

    queued : Client
    queued = record c { outbox = insert id body c.outbox; pending = insert id false c.pending }

    added : leb max_outbox (length c.outbox) ≡ false → IsQueued queued
    added room = record {
      bounded = ground (arith, length-insert-le id body c.outbox);
      waits = λ j h.
          ground (
            arith,
            lookup-insert id j body c.outbox,
            lookup-insert id j false c.pending,
            q.waits j,
          );
    }

pub step-IsQueued : (w : World) (s : Step) {c : Client} → IsQueued c → IsQueued (step w s c)
step-IsQueued w (commands i kind payload) q =
    unfold step in send_command-IsQueued w i kind payload q
step-IsQueued w (connects i) {c} q = Outcome-IsQueued (step-Outcome w (connects i) c tt) q
step-IsQueued w closes {c} q = Outcome-IsQueued (step-Outcome w closes c tt) q
step-IsQueued w resets {c} q = Outcome-IsQueued (step-Outcome w resets c tt) q
step-IsQueued w (identifies i) {c} q = Outcome-IsQueued (step-Outcome w (identifies i) c tt) q
step-IsQueued w (restores n) {c} q = Outcome-IsQueued (step-Outcome w (restores n) c tt) q
step-IsQueued w (opened s) {c} q = Outcome-IsQueued (step-Outcome w (opened s) c tt) q
step-IsQueued w (received s m) {c} q = Outcome-IsQueued (step-Outcome w (received s m) c tt) q
step-IsQueued w (closed s n) {c} q = Outcome-IsQueued (step-Outcome w (closed s n) c tt) q
step-IsQueued w fired {c} q = Outcome-IsQueued (step-Outcome w fired c tt) q

-- Whatever happens to a new client, its outbox holds at most 32 commands, and every command in it
-- has a promise that waits for its outcome.
pub run-new_client-IsQueued :
    (url : Text) (mode : AuthMode) (identity : Option HarnessIdentity) (max : Option ℕ)
    (h : List (World × Step))
    → IsQueued (run (new_client url mode identity max) h)
unfolding new_client lookup
run-new_client-IsQueued url mode identity max h =
    run-kept IsQueued (λ w s c. step-IsQueued w s) _ h
      (record { bounded = omega arith; waits = λ id _. refl })
