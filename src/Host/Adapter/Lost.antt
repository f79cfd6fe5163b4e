-- ===== src/Host/Adapter/Lost.antt =====
-- hub.go: an answer to a permission request that cannot be recorded.
use msclaude_connector.Prelude.{
  ◌≡◌, refl, ap, true, false, List, [], ◌∷◌, some, arith, Text, codes, text_eq, is_empty, any,
}
use msclaude_connector.Host.{Unmarshal}
use msclaude_connector.Host.Commands.{
  Command, PermissionAnswer, Bodies, Hub, Attempt, Outcome, AgentCommand, refuse, error_frame,
  permission_payload, on_answer_permission, run_command, idempotency_key_of, handle_command,
  without,
}
use msclaude_connector.Host.Commands.Resent.{record_and_run-fails}
use msclaude_connector.Host.Adapter.{Requests, Input, agent_commands}
use msclaude_connector.Host.Adapter.Open.{permission, answers, asked, open_in, any-without}
use msclaude_connector.Host.Adapter.Answers.{agent_commands_bound}

module _ (u : Unmarshal) (bodies : Bodies) where
  answer_fails :
      (t : Attempt) (device : Text) (cmd : Command) (b : PermissionAnswer) (h : Hub)
      → is_empty cmd.id ≡ false
      → cmd.kind ≡ codes "answer_permission"
      → bodies.permission cmd.payload ≡ some b
      → any (text_eq (idempotency_key_of device cmd)) h.idempotency ≡ false
      → any (text_eq b.request_id) h.pending ≡ true
      → t.commits ≡ false
      → handle_command u bodies t device cmd h
        ≡ refuse cmd.id (codes "server_error") t.store_error (record h {
          idempotency = idempotency_key_of device cmd ∷ h.idempotency;
          pending = without b.request_id h.pending;
        })
  unfolding handle_command run_command on_answer_permission text_eq
  answer_fails t device cmd b h has_id kind body new given fails =
      rw (has_id, new, kind, body, on_answer_permission, given)
        (record_and_run-fails u bodies t cmd.id (codes "permission_resolved")
          (permission_payload b device) (AgentCommand.permission b) _ fails)

  -- An answer with an id and a new key to a pending permission request, whose transaction does not
  -- commit, changes nothing in the log, and the host
  -- says that it failed. But whatever commands and events come then, the agent gets no answer to
  -- the request, from any device, unless it makes a request of that id again.
  pub failed_answer_is_lost :
      (requests : Requests) (t : Attempt) (device : Text) (cmd : Command) (b : PermissionAnswer)
      (h : Hub) (is : List Input)
      → is_empty cmd.id ≡ false
      → cmd.kind ≡ codes "answer_permission"
      → bodies.permission cmd.payload ≡ some b
      → any (text_eq (idempotency_key_of device cmd)) h.idempotency ≡ false
      → any (text_eq b.request_id) h.pending ≡ true
      → t.commits ≡ false
      → asked requests (permission b.request_id) is ≡ 0
      → let failed = handle_command u bodies t device cmd h in
        (failed.replies ≡ error_frame cmd.id (codes "server_error") t.store_error ∷ [])
        × (failed.hub.store ≡ h.store)
        × (failed.agent ≡ [])
        × (answers (permission b.request_id) (agent_commands u bodies requests is failed.hub) ≡ 0)
  failed_answer_is_lost requests t device cmd b h is has_id kind body new given fails never =
      let e = answer_fails t device cmd b h has_id kind body new given fails in
      let r = permission b.request_id in
      let failed = handle_command u bodies t device cmd h in
      let closed : open_in r failed.hub ≡ 0 = rw e (rw (any-without b.request_id h.pending) refl) in
      (
        ap (λ (o : Outcome). o.replies) e,
        ap (λ (o : Outcome). o.hub.store) e,
        ap (λ (o : Outcome). o.agent) e,
        omega (arith, agent_commands_bound u bodies requests r is failed.hub, closed, never),
      )
