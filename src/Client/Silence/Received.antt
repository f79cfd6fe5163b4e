-- ===== src/Client/Silence/Received.antt =====
-- client.ts: the sockets and timers of a client that was closed, when a message comes.
use msclaude_connector.Prelude.{
  ℕ, ◌+◌, refl, Bool, true, false, Option, arith, codes, leb, ltb, if_cases, option_cases,
}
use msclaude_connector.Value.{Value, Fields, Number, str, get}
use msclaude_connector.Wire.{SnapshotPayload, is_terminal}
use msclaude_connector.Session.{SessionState}
use msclaude_connector.Session.Snapshot.{apply_snapshot}
use msclaude_connector.Client.{Client, World, ConnPhase, resolve, reject}
use msclaude_connector.Client.Reconnect.{detach_and_close}
use msclaude_connector.Client.Commands.{
  is_live, pending_for, forget, handle_ack, handle_error, is_falsy, error_of,
}
use msclaude_connector.Client.Messages.{
  handle_snapshot, clear_outbox_if, count_gap, decide_resync, same_gap, note_gap, after_event,
  accept_event, handle_event_at,
}
use msclaude_connector.Client.Received.{on_message-kept}
use msclaude_connector.Client.Sockets.{on_message}
use msclaude_connector.Client.Silence.{
  openings, IsSilent, emit-IsSilent, publish-IsSilent, set_phase-IsSilent, flush_outbox-IsSilent,
  detach_and_close-IsSilent,
}

module _ {n : ℕ} where
  handle_snapshot-IsSilent :
      (w : World) (snap : SnapshotPayload) (c : Client)
      → IsSilent n c
      → IsSilent n (handle_snapshot w snap c)
  unfolding handle_snapshot
  handle_snapshot-IsSilent w snap c r =
      if_cases (IsSilent n) (leb session.tip_seq session.last_seq) _ _
        (λ _. flush_outbox-IsSilent w _ (set_phase-IsSilent ConnPhase.live _ (seeded _)))
        (λ _. set_phase-IsSilent ConnPhase.syncing _ (seeded _))
    where
      session : SessionState
      session = apply_snapshot c.session snap

      seeded :
          (b : Bool)
          → IsSilent n (
              clear_outbox_if b
                (record c { session = session; sync_base = session.last_seq; retry_attempt = 0 }))
      seeded true = record { closed = r.closed; so_far = r.so_far }
      seeded false = record { closed = r.closed; so_far = r.so_far }

  count_gap-IsSilent : (seq : Number) (c : Client) → IsSilent n c → IsSilent n (count_gap seq c)
  unfolding count_gap
  count_gap-IsSilent seq c r =
      if_cases (IsSilent n) (same_gap c.gap_seq seq) _ _
        (λ _. record { closed = r.closed; so_far = r.so_far })
        (λ _. record { closed = r.closed; so_far = r.so_far })

  decide_resync-IsSilent : (c : Client) → IsSilent n c → IsSilent n (decide_resync c)
  unfolding decide_resync
  decide_resync-IsSilent c r =
      if_cases (IsSilent n) (leb 3 c.gap_count) _ _
        (λ _. record { closed = r.closed; so_far = r.so_far }) (λ _. r)

  note_gap-IsSilent :
      (w : World) (seq : Number) (c : Client) → IsSilent n c → IsSilent n (note_gap w seq c)
  unfolding note_gap
  note_gap-IsSilent w seq c r =
      let dropped =
        detach_and_close 1011 (str (codes "seq gap")) (decide_resync (count_gap seq c)) in
      let k =
        detach_and_close-IsSilent 1011 (str (codes "seq gap")) _
          (decide_resync-IsSilent _ (count_gap-IsSilent seq c r)) in
      if_cases (IsSilent n) dropped.closed_by_user _ _ (λ _. k)
        (λ e. absurd (ground (arith, e, k.closed)))

  after_event-IsSilent : (w : World) (c : Client) → IsSilent n c → IsSilent n (after_event w c)
  unfolding after_event
  after_event-IsSilent w c r =
      if_cases (IsSilent n) (leb c.session.tip_seq c.session.last_seq) _ _
        (λ _.
          if_cases (IsSilent n) (is_live c.phase) _ _ (λ _. publish-IsSilent c r)
            (λ _. flush_outbox-IsSilent w _ (set_phase-IsSilent ConnPhase.live c r)))
        (λ _. publish-IsSilent c r)

  handle_event_at-IsSilent :
      (w : World) (seq : Number) (ev : Fields) (c : Client)
      → IsSilent n c
      → IsSilent n (handle_event_at w seq ev c)
  unfolding handle_event_at accept_event
  handle_event_at-IsSilent w Number.infinite ev c r = note_gap-IsSilent w Number.infinite c r
  handle_event_at-IsSilent w (Number.finite seq) ev c r =
      if_cases (IsSilent n) (leb seq c.session.last_seq) _ _ (λ _. r)
        λ _.
          if_cases (IsSilent n) (ltb (c.session.last_seq + 1) seq) _ _
            (λ _. note_gap-IsSilent w (Number.finite seq) c r)
            (λ _. after_event-IsSilent w _ (record { closed = r.closed; so_far = r.so_far }))

  handle_ack-IsSilent : (ack : Fields) (c : Client) → IsSilent n c → IsSilent n (handle_ack ack c)
  unfolding handle_ack forget openings
  handle_ack-IsSilent ack c r =
      option_cases (IsSilent n) (pending_for (get "commandId" ack) c) _ _ (λ _. r)
        λ id _.
          emit-IsSilent (resolve id ack) _ refl (record { closed = r.closed; so_far = r.so_far })

  handle_error-IsSilent :
      (err : Fields) (c : Client) → IsSilent n c → IsSilent n (handle_error err c)
  unfolding handle_error forget openings
  handle_error-IsSilent err c r =
      if_cases (IsSilent n) (is_falsy (get "commandId" err)) _ _
        (λ _.
          if_cases (IsSilent n) (is_terminal (get "code" err)) _ _
            (λ _. set_phase-IsSilent ConnPhase.unauthorized _ (
              detach_and_close-IsSilent 1008 (get "code" err) _
                (record { closed = refl; so_far = r.so_far })))
            (λ _. publish-IsSilent _ (record { closed = r.closed; so_far = r.so_far })))
        λ _.
          option_cases (IsSilent n) (pending_for (get "commandId" err) c) _ _ (λ _. r)
            λ id _.
              emit-IsSilent (reject id (error_of err)) _ refl
                (record { closed = r.closed; so_far = r.so_far })

  pub on_message-IsSilent :
      (w : World) (s : ℕ) (m : Option Value) (c : Client)
      → IsSilent n c
      → IsSilent n (on_message w s m c)
  on_message-IsSilent w s m c r =
      on_message-kept (IsSilent n) w c r (λ snap. handle_snapshot-IsSilent w snap c r)
        (λ seq ev. handle_event_at-IsSilent w seq ev c r) (λ ack. handle_ack-IsSilent ack c r)
        (λ err. handle_error-IsSilent err c r) s m
