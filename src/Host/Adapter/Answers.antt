-- ===== src/Host/Adapter/Answers.antt =====
-- hub.go: how many answers the agent gets to a request.
use msclaude_connector.Prelude.{
  ℕ, ◌+◌, ◌≤◌, ◌≡◌, refl, Bool, true, false, List, [], ◌∷◌, arith, Text, text_eq, is_empty, any,
  if_cases, option_cases,
}
use msclaude_connector.Value.{Value}
use msclaude_connector.Host.{Store, Unmarshal, append_event}
use msclaude_connector.Host.Commands.{
  Command, PermissionAnswer, QuestionAnswer, Bodies, Hub, Attempt, Outcome, AgentCommand,
  record_and_run, on_send_prompt, on_answer_permission, on_answer_question, on_set_mode,
  on_interrupt, run_command, idempotency_key_of, handle_command, without,
}
use msclaude_connector.Host.Commands.Cases.{run_command_cases}
use msclaude_connector.Host.Adapter.{
  Requests, Emitted, Input, command, emitted, new_hub, ingest, on_input, agent_commands, hub_after,
}
use msclaude_connector.Host.Adapter.Open.{
  AgentRequest, permission, question, open_in, answers_to, answers, asked_by, asked, answers-append,
  delete_one, put_one,
}

-- The step answers `r` at most as often as `n` allows, with one more answer to come where `r` is
-- pending after it.
record Fits (r : AgentRequest) (n : ℕ) (o : Outcome) : Type 0 where
  fits : answers r o.agent + open_in r o.hub ≤ n

module _ (r : AgentRequest) (n : ℕ) where
  refused-Fits : (o : Outcome) (h : Hub) → o.agent ≡ [] → o.hub ≡ h → open_in r h ≤ n → Fits r n o
  refused-Fits o h none_told same low = record { fits = rw (none_told, same) (omega (arith, low)) }

open_in_store :
    (r : AgentRequest) (h : Hub) (st : Store) → open_in r (record h { store = st }) ≡ open_in r h
open_in_store (permission id) h st = refl
open_in_store (question id) h st = refl

module _ (u : Unmarshal) (bodies : Bodies) (r : AgentRequest) where
  record_and_run-Fits :
      (n : ℕ) (t : Attempt) (id kind : Text) (payload : Value) (a : AgentCommand) (h : Hub)
      → answers_to r a + open_in r h ≤ n
      → Fits r n (record_and_run u t id kind payload a h)
  unfolding record_and_run append_event
  record_and_run-Fits n t id kind payload a h low = by_commit t.commits
    where
      by_commit :
          (b : Bool) → Fits r n (record_and_run u (record t { commits = b }) id kind payload a h)
      by_commit true = record { fits = omega (arith, low, open_in_store r h) }
      by_commit false = record { fits = omega (arith, low) }

  module _ (t : Attempt) (device : Text) (cmd : Command) (h : Hub) where
    on_send_prompt-Fits : Fits r (open_in r h) (on_send_prompt u bodies t device cmd h)
    unfolding on_send_prompt
    on_send_prompt-Fits =
        option_cases (Fits r (open_in r h)) (bodies.prompt cmd.payload) _ _
          (λ _. refused-Fits r _ _ h refl refl (omega arith))
          (λ text _. record_and_run-Fits _ t cmd.id _ _ _ h (omega arith))

    on_set_mode-Fits : Fits r (open_in r h) (on_set_mode u bodies t device cmd h)
    unfolding on_set_mode
    on_set_mode-Fits =
        option_cases (Fits r (open_in r h)) (bodies.mode cmd.payload) _ _
          (λ _. refused-Fits r _ _ h refl refl (omega arith))
          λ m _.
            if_cases (Fits r (open_in r h)) (is_empty m) _ _
              (λ _. refused-Fits r _ _ h refl refl (omega arith))
              (λ _. record_and_run-Fits _ t cmd.id _ _ _ h (omega arith))

    on_answer_permission-Fits : Fits r (open_in r h) (on_answer_permission u bodies t device cmd h)
    unfolding on_answer_permission
    on_answer_permission-Fits =
        option_cases (Fits r (open_in r h)) (bodies.permission cmd.payload) _ _
          (λ _. refused-Fits r _ _ h refl refl (omega arith))
          λ b _.
            if_cases (Fits r (open_in r h)) (any (text_eq b.request_id) h.pending) _ _
              (λ given.
                record_and_run-Fits _ t cmd.id _ _ _
                  (record h { pending = without b.request_id h.pending }) (deletes r b given))
              (λ _. refused-Fits r _ _ h refl refl (omega arith))
      where
        deletes :
            (r : AgentRequest) (b : PermissionAnswer)
            → any (text_eq b.request_id) h.pending ≡ true
            → answers_to r (AgentCommand.permission b)
                + open_in r (record h { pending = without b.request_id h.pending })
              ≤ open_in r h
        deletes (permission id) b given = delete_one id b.request_id h.pending given
        deletes (question id) b given = omega arith

    on_answer_question-Fits : Fits r (open_in r h) (on_answer_question u bodies t device cmd h)
    unfolding on_answer_question
    on_answer_question-Fits =
        option_cases (Fits r (open_in r h)) (bodies.question cmd.payload) _ _
          (λ _. refused-Fits r _ _ h refl refl (omega arith))
          λ b _.
            if_cases (Fits r (open_in r h)) (any (text_eq b.question_id) h.pending_questions) _ _
              (λ given.
                record_and_run-Fits _ t cmd.id _ _ _
                  (record h { pending_questions = without b.question_id h.pending_questions })
                  (deletes r b given))
              (λ _. refused-Fits r _ _ h refl refl (omega arith))
      where
        deletes :
            (r : AgentRequest) (b : QuestionAnswer)
            → any (text_eq b.question_id) h.pending_questions ≡ true
            → answers_to r (AgentCommand.question b)
                + open_in r
                    (record h { pending_questions = without b.question_id h.pending_questions })
              ≤ open_in r h
        deletes (permission id) b given = omega arith
        deletes (question id) b given = delete_one id b.question_id h.pending_questions given

    run_command-Fits : Fits r (open_in r h) (run_command u bodies t device cmd h)
    unfolding on_interrupt
    run_command-Fits =
        run_command_cases u bodies t device cmd h (Fits r (open_in r h)) on_send_prompt-Fits
          on_answer_permission-Fits on_answer_question-Fits on_set_mode-Fits
          (record_and_run-Fits _ t cmd.id _ _ _ h (omega arith))
          (refused-Fits r _ _ h refl refl (omega arith))

  handle_command-Fits :
      (t : Attempt) (device : Text) (cmd : Command) (h : Hub)
      → Fits r (open_in r h) (handle_command u bodies t device cmd h)
  unfolding handle_command
  handle_command-Fits t device cmd h =
      let key = idempotency_key_of device cmd in
      if_cases (Fits r (open_in r h)) (is_empty cmd.id) _ _
        (λ _. refused-Fits r _ _ h refl refl (omega arith))
        λ _.
          if_cases (Fits r (open_in r h)) (any (text_eq key) h.idempotency) _ _
            (λ _. refused-Fits r _ _ h refl refl (omega arith))
            (λ _.
              known_key r _
                (run_command-Fits t device cmd (record h { idempotency = key ∷ h.idempotency })))
    where
      known_key :
          (r : AgentRequest) (keys : List Text) {o : Outcome}
          → Fits r (open_in r (record h { idempotency = keys })) o
          → Fits r (open_in r h) o
      known_key (permission id) keys f = f
      known_key (question id) keys f = f

ingest-Fits :
    (u : Unmarshal) (requests : Requests) (r : AgentRequest) (e : Emitted) (h : Hub)
    → Fits r (open_in r h + asked_by requests r (emitted e)) (ingest u requests e h)
unfolding ingest append_event
ingest-Fits u requests r e h = by_commit r e.commits
  where
    by_commit :
        (r : AgentRequest) (b : Bool)
        → let e' : Emitted = record e { commits = b } in
          Fits r (open_in r h + asked_by requests r (emitted e')) (ingest u requests e' h)
    by_commit r false = record { fits = omega arith }
    by_commit (permission id) true = record {
      fits = ground (arith, put_one id (requests.permission e.payload) h.pending);
    }
    by_commit (question id) true = record {
      fits = ground (arith, put_one id (requests.question e.payload) h.pending_questions);
    }

module _ (u : Unmarshal) (bodies : Bodies) (requests : Requests) where
  on_input-Fits :
      (r : AgentRequest) (i : Input) (h : Hub)
      → Fits r (open_in r h + asked_by requests r i) (on_input u bodies requests i h)
  unfolding on_input
  on_input-Fits r (command call) h = record {
    fits =
        omega
          (arith, (handle_command-Fits u bodies r call.attempt call.device call.command h).fits);
  }
  on_input-Fits r (emitted e) h = ingest-Fits u requests r e h

  -- Each answer, and one more to come where the request is pending at the end, has its request.
  pub agent_commands_bound :
      (r : AgentRequest) (is : List Input) (h : Hub)
      → answers r (agent_commands u bodies requests is h)
          + open_in r (hub_after u bodies requests is h)
        ≤ open_in r h + asked requests r is
  unfolding agent_commands hub_after
  agent_commands_bound r [] h = omega arith
  agent_commands_bound r (i ∷ is) h = omega (
    arith,
    (on_input-Fits r i h).fits,
    agent_commands_bound r is (on_input u bodies requests i h).hub,
    answers-append r (on_input u bodies requests i h).agent
        (agent_commands u bodies requests is (on_input u bodies requests i h).hub),
  )

  none_open : (r : AgentRequest) (st : Store) → open_in r (new_hub st) ≡ 0
  none_open (permission id) st = refl
  none_open (question id) st = refl

  -- A request that has as many answers as it was made is pending no more.
  pub answered_is_closed :
      (r : AgentRequest) (is : List Input) (st : Store)
      → answers r (agent_commands u bodies requests is (new_hub st)) ≡ asked requests r is
      → open_in r (hub_after u bodies requests is (new_hub st)) ≡ 0
  answered_is_closed r is st all =
      omega (arith, agent_commands_bound r is (new_hub st), none_open r st, all)

  -- From the start of the daemon on, whatever commands the devices send and whatever events the
  -- agent emits, the agent gets at most as many answers to a permission request or a question as it
  -- has made recorded requests of that id.
  pub answered_at_most_once :
      (r : AgentRequest) (is : List Input) (st : Store)
      → answers r (agent_commands u bodies requests is (new_hub st)) ≤ asked requests r is
  answered_at_most_once r is st =
      omega (arith, agent_commands_bound r is (new_hub st), none_open r st)
