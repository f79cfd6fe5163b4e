-- ===== src/Host/Commands/Resent.antt =====
-- client.ts and hub.go: a command of a client that is sent again, from the first sending to the
-- outcome of its promise.
use msclaude_connector.Prelude.{
  ℕ, ◌≡◌, refl, ap, ◌∙◌, false, List, [], ◌∷◌, none, some, Text, codes, text_eq, text_eq_refl,
  is_empty, any,
}
use msclaude_connector.Prelude.Maps.{lookup, lookup-remove}
use msclaude_connector.Value.{Value, str, end, field}
use msclaude_connector.Wire.{CommandPayload}
use msclaude_connector.Client.{Client, World, resolve}
use msclaude_connector.Client.Reconnect.{emit}
use msclaude_connector.Client.Commands.{handle_ack, handle_error, pending_for, forget}
use msclaude_connector.Client.Sockets.{is_detached}
use msclaude_connector.Host.{Unmarshal, append_event}
use msclaude_connector.Host.Received.{handle_frame}
use msclaude_connector.Host.Place.{deliver_all, attached_step}
use msclaude_connector.Host.Commands.{
  agent_replies, Command, Bodies, Hub, Attempt, Outcome, Call, AgentCommand, refuse, prompt_payload,
  ack_frame, error_frame, seq_field, record_and_run, on_send_prompt, run_command,
  idempotency_key_of, handle_command, handle_all, command_of,
}
use msclaude_connector.Host.Commands.Once.{repeated_command_acks}

-- The promise of the command `id` is resolved with the ack, and the command is forgotten.
abbrev pub resolved_with : ℕ → Text → Client → Client
resolved_with seq id c =
    emit (resolve id (field "commandId" (str id) (field "seq" (seq_field seq) end))) (forget id c)

pub pending_for-waits :
    (id : Text) (c : Client) → lookup id c.pending ≡ some false → pending_for (str id) c ≡ some id
unfolding pending_for
pending_for-waits id c waits = rw (waits, pending_for) refl

pending_for-settled :
    (id : Text) (c : Client) → lookup id c.pending ≡ none → pending_for (str id) c ≡ none
unfolding pending_for
pending_for-settled id c gone = rw (gone, pending_for) refl

handle_ack-resolves :
    (w : World) (id : Text) (seq : ℕ) (c : Client)
    → lookup id c.pending ≡ some false
    → handle_frame w (ack_frame id seq) c ≡ resolved_with seq id c
unfolding handle_frame handle_ack
handle_ack-resolves w id seq c waits = rw (pending_for-waits id c waits, handle_ack) refl

deliver_ack :
    (w : World) (s : ℕ) (id : Text) (c : Client)
    → lookup id c.pending ≡ some false
    → is_detached s c ≡ false
    → deliver_all w s (ack_frame id 0 ∷ []) c ≡ resolved_with 0 id c
unfolding deliver_all
deliver_ack w s id c waits attached =
    attached_step w s 0 (ack_frame id 0) c attached ∙ handle_ack-resolves w id 0 c waits

module _ (u : Unmarshal) (bodies : Bodies) where
  -- A client has sent a command with an id, the host has handled it and then any others, and the
  -- client, which has seen no answer, sends it again: the host changes nothing, broadcasts nothing
  -- and gives the agent nothing, and its answer, on a socket that the client listens to, resolves
  -- the promise of the command and takes it off the outbox.
  pub resent_command_resolves :
      (t t' : Attempt) (device : Text) (p : CommandPayload) (calls : List Call) (h : Hub)
      (w : World) (s : ℕ) (c : Client)
      → is_empty p.id ≡ false
      → lookup p.id c.pending ≡ some false
      → is_detached s c ≡ false
      → let cmd = command_of p in
        let later = handle_all u bodies calls (handle_command u bodies t device cmd h).hub in
        let again = handle_command u bodies t' device cmd later in
        (again.hub ≡ later)
        × (again.broadcasts ≡ [])
        × (again.agent ≡ [])
        × (deliver_all w s again.replies c ≡ resolved_with 0 p.id c)
  resent_command_resolves t t' device p calls h w s c has_id waits attached =
      let cmd = command_of p in
      let later = handle_all u bodies calls (handle_command u bodies t device cmd h).hub in
      let e = repeated_command_acks u bodies t t' device cmd cmd calls h has_id has_id refl in
      (
        ap (λ (o : Outcome). o.hub) e,
        ap (λ (o : Outcome). o.broadcasts) e,
        ap (λ (o : Outcome). o.agent) e,
        ap (λ (o : Outcome). deliver_all w s o.replies c) e ∙ deliver_ack w s p.id c waits attached,
      )

  pub record_and_run-fails :
      (t : Attempt) (id kind : Text) (payload : Value) (a : AgentCommand) (h : Hub)
      → t.commits ≡ false
      → record_and_run u t id kind payload a h ≡ refuse id (codes "server_error") t.store_error h
  unfolding record_and_run append_event
  record_and_run-fails t id kind payload a h f = rw f refl

  first_fails :
      (t : Attempt) (device : Text) (cmd : Command) (text : Text) (h : Hub)
      → is_empty cmd.id ≡ false
      → cmd.kind ≡ codes "send_prompt"
      → bodies.prompt cmd.payload ≡ some text
      → any (text_eq (idempotency_key_of device cmd)) h.idempotency ≡ false
      → t.commits ≡ false
      → handle_command u bodies t device cmd h
        ≡ refuse cmd.id
            (codes "server_error")
            t.store_error
            (record h { idempotency = idempotency_key_of device cmd ∷ h.idempotency })
  unfolding handle_command run_command on_send_prompt text_eq
  first_fails t device cmd text h has_id kind body new fails =
      rw (has_id, new, kind, body, on_send_prompt)
        (record_and_run-fails t cmd.id (codes "user_prompt") (prompt_payload text device)
          (AgentCommand.prompt text) _ fails)

  -- A prompt with an id and a new key whose transaction does not commit leaves the log and the
  -- agent alone, and the host says so; but where that answer is lost and the client, which still
  -- waits, sends the prompt again, it is acknowledged and the promise is resolved, though the
  -- prompt is in no log and the agent never gets it.
  pub failed_prompt_is_acknowledged :
      (t t' : Attempt) (device : Text) (cmd : Command) (text : Text) (h : Hub) (w : World) (s : ℕ)
      (c : Client)
      → is_empty cmd.id ≡ false
      → cmd.kind ≡ codes "send_prompt"
      → bodies.prompt cmd.payload ≡ some text
      → any (text_eq (idempotency_key_of device cmd)) h.idempotency ≡ false
      → t.commits ≡ false
      → lookup cmd.id c.pending ≡ some false
      → is_detached s c ≡ false
      → let first = handle_command u bodies t device cmd h in
        let again = handle_command u bodies t' device cmd first.hub in
        (first.replies ≡ error_frame cmd.id (codes "server_error") t.store_error ∷ [])
        × (again.hub.store ≡ h.store)
        × (first.agent ≡ [])
        × (again.agent ≡ [])
        × (deliver_all w s again.replies c ≡ resolved_with 0 cmd.id c)
  unfolding handle_all
  failed_prompt_is_acknowledged t t' device cmd text h w s c has_id kind body new fails waits att =
      let e = first_fails t device cmd text h has_id kind body new fails in
      let e' = repeated_command_acks u bodies t t' device cmd cmd [] h has_id has_id refl in
      (
        ap (λ (o : Outcome). o.replies) e,
        ap (λ (o : Outcome). o.hub.store) e' ∙ ap (λ (o : Outcome). o.hub.store) e,
        ap (λ (o : Outcome). o.agent) e,
        ap (λ (o : Outcome). o.agent) e',
        ap (λ (o : Outcome). deliver_all w s o.replies c) e' ∙ deliver_ack w s cmd.id c waits att,
      )

settled_error :
    (w : World) (id code message : Text) (d : Client)
    → is_empty id ≡ false
    → lookup id d.pending ≡ none
    → handle_frame w (error_frame id code message) d ≡ d
unfolding handle_frame handle_error
settled_error w [] code message d has_id gone = absurd cc
settled_error w (x ∷ id) code message d has_id gone =
    rw (pending_for-settled (x ∷ id) d gone, handle_error) refl

resolved-settled :
    (seq : ℕ) (id : Text) (c : Client) → lookup id (resolved_with seq id c).pending ≡ none
unfolding forget
resolved-settled seq id c = lookup-remove id id c.pending ∙ rw (text_eq_refl id) refl

resolved-attached :
    (s seq : ℕ) (id : Text) (c : Client)
    → is_detached s c ≡ false
    → is_detached s (resolved_with seq id c) ≡ false
unfolding forget
resolved-attached s seq id c h = h

-- An error of the agent comes behind the ack of its command, on a socket that the client listens
-- to. The ack resolves the promise of the waiting command; the error then changes nothing in the
-- client, neither its error nor what its listeners see.
pub late_agent_error_is_ignored :
    (w : World) (s : ℕ) (id : Text) (c : Client) (seq : ℕ) (message : Text)
    → is_empty id ≡ false
    → lookup id c.pending ≡ some false
    → is_detached s c ≡ false
    → deliver_all w s (ack_frame id seq ∷ agent_replies id (some message)) c
      ≡ resolved_with seq id c
unfolding deliver_all
late_agent_error_is_ignored w s id c seq message has_id waits attached =
    let d = resolved_with seq id c in
    let late = error_frame id (codes "agent_error") message in
    ap (deliver_all w s (late ∷ []))
      (attached_step w s 0 (ack_frame id seq) c attached ∙ handle_ack-resolves w id seq c waits)
    ∙ attached_step w s 0 late d (resolved-attached s seq id c attached)
    ∙ settled_error w id (codes "agent_error") message d has_id (resolved-settled seq id c)
