-- ===== src/Client/Silence/History.antt =====
-- client.ts: the sockets and timers of a client that was closed, in each step.
use msclaude_connector.Prelude.{
  ℕ, ◌≡◌, refl, Bool, true, false, ◌||◌, Option, arith, Text, leb, length, if_cases,
}
use msclaude_connector.Value.{Value, Number}
use msclaude_connector.Wire.{CommandKind}
use msclaude_connector.Client.{Client, World, Message, send}
use msclaude_connector.Client.Reconnect.{set_identity, set_last_seq, timer_fired}
use msclaude_connector.Client.Commands.{max_outbox, send_command}
use msclaude_connector.Client.Sockets.{
  Step, step, connects, closes, resets, identifies, restores, commands, opened, received, closed,
  fired, on_open, on_close, is_detached, hello_for,
}
use msclaude_connector.Client.Silence.{
  openings, IsSilent, emit-IsSilent, publish-IsSilent, flush_outbox-IsSilent, close-IsSilent,
}
use msclaude_connector.Client.Silence.Received.{on_message-IsSilent}

module _ {n : ℕ} where
  on_close-IsSilent :
      (w : World) (s : ℕ) (code : Option ℕ) (c : Client)
      → IsSilent n c
      → IsSilent n (on_close w s code c)
  unfolding on_close
  on_close-IsSilent w s code c r =
      if_cases (IsSilent n) (is_detached s c || c.closed_by_user) _ _ (λ _. r)
        (λ e. absurd (ground (arith, e, r.closed)))

  timer_fired-IsSilent : (w : World) (c : Client) → IsSilent n c → IsSilent n (timer_fired w c)
  unfolding timer_fired
  timer_fired-IsSilent w c r =
      if_cases (IsSilent n) c.closed_by_user _ _
        (λ _. record { closed = r.closed; so_far = r.so_far })
        (λ e. absurd (ground (arith, e, r.closed)))

  send_command-IsSilent :
      (w : World) (id : Text) (kind : CommandKind) (payload : Value) (c : Client)
      → IsSilent n c
      → IsSilent n (send_command w id kind payload c).0
  unfolding send_command
  send_command-IsSilent w id kind payload c r =
      if_cases {A = Client × Option Text} (λ p. IsSilent n p.0) (leb max_outbox (length c.outbox)) _
        _ (λ _. r)
        (λ _. flush_outbox-IsSilent w _ (record { closed = r.closed; so_far = r.so_far }))

  set_last_seq-IsSilent :
      (seq : Number) (c : Client) → IsSilent n c → IsSilent n (set_last_seq seq c)
  unfolding set_last_seq
  set_last_seq-IsSilent Number.infinite c r = r
  set_last_seq-IsSilent (Number.finite seq) c r =
      if_cases (IsSilent n) (leb seq c.session.last_seq) _ _ (λ _. r)
        (λ _. publish-IsSilent _ (record { closed = r.closed; so_far = r.so_far }))

-- Steps that ask for a connection, or allow one again.
abbrev pub reopens : Step → Bool
reopens (connects identity) = true
reopens resets = true
reopens _ = false

pub step-IsSilent :
    (n : ℕ) (w : World) (s : Step) (c : Client)
    → reopens s ≡ false
    → IsSilent n c
    → IsSilent n (step w s c)
unfolding step set_identity on_open openings
step-IsSilent n w (connects i) c h r = cc
step-IsSilent n w closes c h r = close-IsSilent c r
step-IsSilent n w resets c h r = cc
step-IsSilent n w (identifies i) c h r =
    publish-IsSilent _ (record { closed = r.closed; so_far = r.so_far })
step-IsSilent n w (restores seq) c h r = set_last_seq-IsSilent seq c r
step-IsSilent n w (commands id kind payload) c h r = send_command-IsSilent w id kind payload c r
step-IsSilent n w (opened s) c h r = emit-IsSilent (send s (Message.hello (hello_for c))) c refl r
step-IsSilent n w (received s m) c h r = on_message-IsSilent w s m c r
step-IsSilent n w (closed s code) c h r = on_close-IsSilent w s code c r
step-IsSilent n w fired c h r = timer_fired-IsSilent w c r
