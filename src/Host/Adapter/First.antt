-- ===== src/Host/Adapter/First.antt =====
-- hub.go and client.ts: an answer to a permission request that was answered before, from the host to
-- the client that sent it.
use msclaude_connector.Prelude.{
  ℕ, ◌≡◌, refl, ap, ◌∙◌, false, List, [], ◌∷◌, some, arith, Text, codes, text_eq, is_empty, any,
}
use msclaude_connector.Prelude.Maps.{lookup}
use msclaude_connector.Value.{str}
use msclaude_connector.Client.{Client, World, reject}
use msclaude_connector.Client.Reconnect.{emit}
use msclaude_connector.Client.Commands.{handle_error, forget}
use msclaude_connector.Client.Sockets.{is_detached}
use msclaude_connector.Host.{Store, Unmarshal}
use msclaude_connector.Host.Received.{handle_frame}
use msclaude_connector.Host.Place.{deliver_all, attached_step}
use msclaude_connector.Host.Commands.{
  Command, PermissionAnswer, Bodies, Hub, Attempt, Outcome, refuse, error_frame,
  on_answer_permission, run_command, idempotency_key_of, handle_command,
}
use msclaude_connector.Host.Commands.Resent.{pending_for-waits}
use msclaude_connector.Host.Adapter.{Requests, Input, new_hub, agent_commands, hub_after}
use msclaude_connector.Host.Adapter.Open.{permission, answers, asked, open_in}
use msclaude_connector.Host.Adapter.Answers.{answered_is_closed}

-- The promise of the command `id` is rejected, and the command is forgotten.
abbrev pub rejected_with : Text → Text → Text → Client → Client
rejected_with code message id c =
    emit (reject id (record { code = str code; message = str message })) (forget id c)

handle_error-rejects :
    (w : World) (id code message : Text) (c : Client)
    → is_empty id ≡ false
    → lookup id c.pending ≡ some false
    → handle_frame w (error_frame id code message) c ≡ rejected_with code message id c
unfolding handle_frame handle_error
handle_error-rejects w [] code message c has_id waits = absurd cc
handle_error-rejects w (x ∷ id) code message c has_id waits =
    rw (pending_for-waits (x ∷ id) c waits, handle_error) refl

not_open :
    (id : Text) (h : Hub) → open_in (permission id) h ≡ 0 → any (text_eq id) h.pending ≡ false
not_open id h closed = ground (arith, closed)

-- The text of the refusal.
abbrev pub already : Text
already = codes "permission request already resolved or unknown"

module _ (u : Unmarshal) (bodies : Bodies) where
  refused :
      (t : Attempt) (device : Text) (cmd : Command) (b : PermissionAnswer) (h : Hub)
      → is_empty cmd.id ≡ false
      → cmd.kind ≡ codes "answer_permission"
      → bodies.permission cmd.payload ≡ some b
      → any (text_eq (idempotency_key_of device cmd)) h.idempotency ≡ false
      → any (text_eq b.request_id) h.pending ≡ false
      → handle_command u bodies t device cmd h
        ≡ refuse cmd.id
            (codes "already_resolved")
            already
            (record h { idempotency = idempotency_key_of device cmd ∷ h.idempotency })
  unfolding handle_command run_command on_answer_permission text_eq
  refused t device cmd b h has_id kind body new gone =
      rw (has_id, new, kind, body, on_answer_permission, gone) refl

  -- From the start of the daemon on, when each recorded request of an id has had its answer, then a
  -- further answer to it, from any device, with an id and a new key, changes nothing in the log, is
  -- broadcast to nobody and does not reach the agent; and the host's reply, on a socket that the
  -- client listens to, rejects the promise of the command, which the client forgets.
  pub first_answer_wins :
      (requests : Requests) (is : List Input) (st : Store) (t : Attempt) (device : Text)
      (cmd : Command) (b : PermissionAnswer) (w : World) (s : ℕ) (c : Client)
      → answers (permission b.request_id) (agent_commands u bodies requests is (new_hub st))
        ≡ asked requests (permission b.request_id) is
      → is_empty cmd.id ≡ false
      → cmd.kind ≡ codes "answer_permission"
      → bodies.permission cmd.payload ≡ some b
      → any
          (text_eq (idempotency_key_of device cmd))
          (hub_after u bodies requests is (new_hub st)).idempotency
        ≡ false
      → lookup cmd.id c.pending ≡ some false
      → is_detached s c ≡ false
      → let h = hub_after u bodies requests is (new_hub st) in
        let late = handle_command u bodies t device cmd h in
        (late.hub.store ≡ h.store)
        × (late.broadcasts ≡ [])
        × (late.agent ≡ [])
        × (deliver_all w s late.replies c
            ≡ rejected_with (codes "already_resolved") already cmd.id c)
  unfolding deliver_all
  first_answer_wins requests is st t device cmd b w s c all has_id kind body new waits attached =
      let h = hub_after u bodies requests is (new_hub st) in
      let closed = answered_is_closed u bodies requests (permission b.request_id) is st all in
      let e = refused t device cmd b h has_id kind body new (not_open b.request_id h closed) in
      (
        ap (λ (o : Outcome). o.hub.store) e,
        ap (λ (o : Outcome). o.broadcasts) e,
        ap (λ (o : Outcome). o.agent) e,
        ap (λ (o : Outcome). deliver_all w s o.replies c) e
            ∙ attached_step w s 0 (error_frame cmd.id (codes "already_resolved") already) c attached
            ∙ handle_error-rejects w cmd.id (codes "already_resolved") already c has_id waits,
      )
