-- ===== src/Host/Commands/Cases.antt =====
-- hub.go, the switch of `handleCommand`: what its cases share.
use msclaude_connector.Prelude.{codes, text_eq, Text, if_cases}
use msclaude_connector.Host.{Unmarshal}
use msclaude_connector.Host.Commands.{
  Command, Bodies, Hub, Attempt, Outcome, on_send_prompt, on_answer_permission, on_answer_question,
  on_set_mode, on_interrupt, run_command, refuse,
}

module _ (u : Unmarshal) (bodies : Bodies) (t : Attempt) (device : Text) (cmd : Command)
    (h : Hub) where
  -- What holds of each case of the switch holds of the switch.
  pub run_command_cases {ℓ} :
      (P : Outcome → Type ℓ)
      → P (on_send_prompt u bodies t device cmd h)
      → P (on_answer_permission u bodies t device cmd h)
      → P (on_answer_question u bodies t device cmd h)
      → P (on_set_mode u bodies t device cmd h)
      → P (on_interrupt u bodies t device cmd h)
      → P (refuse cmd.id (codes "unsupported_command") cmd.kind h)
      → P (run_command u bodies t device cmd h)
  unfolding run_command
  run_command_cases P prompts permits answers sets interrupts unknown =
      if_cases P (text_eq cmd.kind (codes "send_prompt")) _ _ (λ _. prompts)
        λ _.
          if_cases P (text_eq cmd.kind (codes "answer_permission")) _ _ (λ _. permits)
            λ _.
              if_cases P (text_eq cmd.kind (codes "answer_question")) _ _ (λ _. answers)
                λ _.
                  if_cases P (text_eq cmd.kind (codes "set_mode")) _ _ (λ _. sets)
                    λ _.
                      if_cases P (text_eq cmd.kind (codes "interrupt")) _ _ (λ _. interrupts)
                        (λ _. unknown)
