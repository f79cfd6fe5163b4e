-- ===== src/Host/Commands/Once.antt =====
-- hub.go and client.ts: a command that comes again, as after a reconnect.
use msclaude_connector.Prelude.{
  ◌≡◌, refl, Bool, true, false, List, [], ◌∷◌, arith, Text, text_eq, text_eq_refl, is_empty, any,
  if_cases, option_cases,
}
use msclaude_connector.Value.{Value}
use msclaude_connector.Host.{Unmarshal, append_event}
use msclaude_connector.Host.Commands.{
  Command, Bodies, Hub, Attempt, Outcome, Call, AgentCommand, ack_frame, record_and_run,
  on_send_prompt, on_answer_permission, on_answer_question, on_set_mode, on_interrupt, run_command,
  idempotency_key_of, handle_command, handle_all, without,
}
use msclaude_connector.Host.Commands.Cases.{run_command_cases}

-- The host remembers the keys `keys`.
record Remembers (keys : List Text) (o : Outcome) : Type 0 where
  same : o.hub.idempotency ≡ keys

-- An ack without a number, and nothing else.
abbrev pub acked : Text → Hub → Outcome
acked id h = record { hub = h; replies = ack_frame id 0 ∷ []; broadcasts = []; agent = [] }

module _ (u : Unmarshal) (bodies : Bodies) where
  record_and_run-Remembers :
      (t : Attempt) (id kind : Text) (payload : Value) (command : AgentCommand) (h : Hub)
      → Remembers h.idempotency (record_and_run u t id kind payload command h)
  unfolding record_and_run append_event
  record_and_run-Remembers t id kind payload command h = by_commit t.commits
    where
      by_commit :
          (b : Bool)
          → Remembers h.idempotency
              (record_and_run u (record t { commits = b }) id kind payload command h)
      by_commit true = record { same = refl }
      by_commit false = record { same = refl }

  module _ (t : Attempt) (device : Text) (cmd : Command) (h : Hub) where
    on_send_prompt-Remembers : Remembers h.idempotency (on_send_prompt u bodies t device cmd h)
    unfolding on_send_prompt
    on_send_prompt-Remembers =
        option_cases (Remembers h.idempotency) (bodies.prompt cmd.payload) _ _
          (λ _. record { same = refl }) (λ text _. record_and_run-Remembers t cmd.id _ _ _ h)

    on_answer_permission-Remembers :
        Remembers h.idempotency (on_answer_permission u bodies t device cmd h)
    unfolding on_answer_permission
    on_answer_permission-Remembers =
        option_cases (Remembers h.idempotency) (bodies.permission cmd.payload) _ _
          (λ _. record { same = refl })
          λ b _.
            if_cases (Remembers h.idempotency) (any (text_eq b.request_id) h.pending) _ _
              (λ _.
                record_and_run-Remembers t cmd.id _ _ _
                  (record h { pending = without b.request_id h.pending }))
              (λ _. record { same = refl })

    on_answer_question-Remembers :
        Remembers h.idempotency (on_answer_question u bodies t device cmd h)
    unfolding on_answer_question
    on_answer_question-Remembers =
        option_cases (Remembers h.idempotency) (bodies.question cmd.payload) _ _
          (λ _. record { same = refl })
          λ b _.
            if_cases (Remembers h.idempotency) (any (text_eq b.question_id) h.pending_questions) _ _
              (λ _.
                record_and_run-Remembers t cmd.id _ _ _
                  (record h { pending_questions = without b.question_id h.pending_questions }))
              (λ _. record { same = refl })

    on_set_mode-Remembers : Remembers h.idempotency (on_set_mode u bodies t device cmd h)
    unfolding on_set_mode
    on_set_mode-Remembers =
        option_cases (Remembers h.idempotency) (bodies.mode cmd.payload) _ _
          (λ _. record { same = refl })
          λ m _.
            if_cases (Remembers h.idempotency) (is_empty m) _ _ (λ _. record { same = refl })
              (λ _. record_and_run-Remembers t cmd.id _ _ _ h)

    run_command-Remembers : Remembers h.idempotency (run_command u bodies t device cmd h)
    unfolding on_interrupt
    run_command-Remembers =
        run_command_cases u bodies t device cmd h (Remembers h.idempotency) on_send_prompt-Remembers
          on_answer_permission-Remembers on_answer_question-Remembers on_set_mode-Remembers
          (record_and_run-Remembers t cmd.id _ _ _ h) (record { same = refl })

-- The host knows the key `key`.
record Knows (key : Text) (h : Hub) : Type 0 where
  known : any (text_eq key) h.idempotency ≡ true

module _ (u : Unmarshal) (bodies : Bodies) where
  handle_command-Knows :
      (key : Text) (t : Attempt) (device : Text) (cmd : Command) (h : Hub)
      → Knows key h
      → Knows key (handle_command u bodies t device cmd h).hub
  unfolding handle_command
  handle_command-Knows key t device cmd h k =
      if_cases (λ (o : Outcome). Knows key o.hub) (is_empty cmd.id) _ _ (λ _. k)
        λ _.
          if_cases (λ (o : Outcome). Knows key o.hub)
            (any (text_eq (idempotency_key_of device cmd)) h.idempotency) _ _ (λ _. k)
            λ _.
              let more = record h { idempotency = idempotency_key_of device cmd ∷ h.idempotency } in
              record {
                known =
                    rw (run_command-Remembers u bodies t device cmd more).same
                      (ground (arith, k.known));
              }

  handle_all-Knows :
      (key : Text) (calls : List Call) (h : Hub)
      → Knows key h
      → Knows key (handle_all u bodies calls h)
  unfolding handle_all
  handle_all-Knows key [] h k = k
  handle_all-Knows key (call ∷ calls) h k =
      handle_all-Knows key calls _
        (handle_command-Knows key call.attempt call.device call.command h k)

  -- A command with an id is known from then on.
  handled-Knows :
      (t : Attempt) (device : Text) (cmd : Command) (h : Hub)
      → is_empty cmd.id ≡ false
      → Knows (idempotency_key_of device cmd) (handle_command u bodies t device cmd h).hub
  unfolding handle_command
  handled-Knows t device cmd h has_id =
      let key = idempotency_key_of device cmd in
      if_cases (λ (o : Outcome). Knows key o.hub) (is_empty cmd.id) _ _
        (λ empty. absurd (ground (arith, empty, has_id)))
        λ _.
          if_cases (λ (o : Outcome). Knows key o.hub) (any (text_eq key) h.idempotency) _ _
            (λ seen. record { known = seen })
            λ _.
              let more = record h { idempotency = key ∷ h.idempotency } in
              record {
                known =
                    rw (run_command-Remembers u bodies t device cmd more).same
                      (ground (arith, text_eq_refl key));
              }

  known_again :
      (t : Attempt) (device : Text) (cmd : Command) (h : Hub)
      → is_empty cmd.id ≡ false
      → Knows (idempotency_key_of device cmd) h
      → handle_command u bodies t device cmd h ≡ acked cmd.id h
  unfolding handle_command
  known_again t device cmd h has_id k = rw (has_id, k.known) refl

  -- Once a command with an id has been handled, and whatever other commands have come since, one of
  -- the same device with its key is acknowledged, with no number, and does nothing else: the log,
  -- the pending requests and the agent see nothing of it.
  pub repeated_command_acks :
      (t t' : Attempt) (device : Text) (cmd cmd' : Command) (calls : List Call) (h : Hub)
      → is_empty cmd.id ≡ false
      → is_empty cmd'.id ≡ false
      → idempotency_key_of device cmd' ≡ idempotency_key_of device cmd
      → let later = handle_all u bodies calls (handle_command u bodies t device cmd h).hub in
        handle_command u bodies t' device cmd' later ≡ acked cmd'.id later
  repeated_command_acks t t' device cmd cmd' calls h has_id has_id' same =
      let k = handle_all-Knows _ calls _ (handled-Knows t device cmd h has_id) in
      known_again t' device cmd' _ has_id' (rw same k)
