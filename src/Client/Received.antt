-- ===== src/Client/Received.antt =====
-- client.ts: what every message and every history keeps, from what the handlers and the steps keep.
use msclaude_connector.Prelude.{
  ℕ, List, [], ◌∷◌, Option, none, some, codes, text_eq, if_cases, option_cases,
}
use msclaude_connector.Value.{Value, Fields, Number, get}
use msclaude_connector.Wire.{Envelope, SnapshotPayload, parse_envelope, snapshot_of}
use msclaude_connector.Client.{Client, World}
use msclaude_connector.Client.Commands.{handle_ack, handle_error}
use msclaude_connector.Client.Messages.{
  handle_snapshot, handle_event_at, handle_event, handle_envelope, with_part, seq_of,
}
use msclaude_connector.Client.Sockets.{Step, on_message, is_detached, step, run}

-- What the four handlers give, for a client `c`, each message gives.
module _ (P : Client → Type 0) (w : World) (c : Client) (same : P c)
    (on_snapshot : (snap : SnapshotPayload) → P (handle_snapshot w snap c))
    (on_event : (n : Number) (ev : Fields) → P (handle_event_at w n ev c))
    (on_ack : (ack : Fields) → P (handle_ack ack c))
    (on_error : (err : Fields) → P (handle_error err c)) where
  with_part-kept :
      (part : Option Fields) (f : Fields → Client → Client)
      → ((fs : Fields) → P (f fs c))
      → P (with_part part f c)
  with_part-kept none f h = same
  with_part-kept (some fs) f h = h fs

  handle_envelope-kept : (env : Envelope) → P (handle_envelope w env c)
  unfolding handle_envelope handle_event
  handle_envelope-kept env =
      if_cases P (text_eq env.type (codes "snapshot")) _ _
        (λ _. with_part-kept env.snapshot _ (λ fs. on_snapshot (snapshot_of fs)))
        λ _.
          if_cases P (text_eq env.type (codes "event")) _ _
            (λ _. with_part-kept env.event _ (λ fs. on_event (seq_of (get "seq" fs)) fs))
            λ _.
              if_cases P (text_eq env.type (codes "ack")) _ _ (λ _. with_part-kept env.ack _ on_ack)
                λ _.
                  if_cases P (text_eq env.type (codes "error")) _ _
                    (λ _. with_part-kept env.error _ on_error) (λ _. same)

  pub on_message-kept : (s : ℕ) (m : Option Value) → P (on_message w s m c)
  unfolding on_message
  on_message-kept s none = same
  on_message-kept s (some v) =
      if_cases P (is_detached s c) _ _ (λ _. same)
        λ _. option_cases P (parse_envelope v) _ _ (λ _. same) (λ env _. handle_envelope-kept env)

-- What each step keeps, each history keeps.
module _ (P : Client → Type 0)
    (keeps : (w : World) (s : Step) (c : Client) → P c → P (step w s c)) where
  pub run-kept : (c : Client) (h : List (World × Step)) → P c → P (run c h)
  unfolding run
  run-kept c [] p = p
  run-kept c ((w, s) ∷ h) p = run-kept (step w s c) h (keeps w s c p)
