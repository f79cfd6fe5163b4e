-- ===== src/Client/Silence.antt =====
-- client.ts: the sockets and timers of a client that was closed, under the operations that change its
-- connection.
pub mod Received
pub mod History
pub mod Pairing
use msclaude_connector.Prelude.{
  ℕ, zero, suc, ◌+◌, ◌≡◌, refl, sym, ap, ◌∙◌, Bool, true, false, ◌&&◌, ◌||◌, List, [], ◌∷◌, ◌++◌,
  Option, none, some, arith, Text, codes, text_eq, any, leb, ltb, length, if◌then◌else◌, if_cases,
  option_cases,
}
use msclaude_connector.Prelude.Maps.{Map, insert}
use msclaude_connector.Value.{Value, Fields, Number, str, get}
use msclaude_connector.Wire.{
  Envelope, EventPayload, SnapshotPayload, CommandKind, CommandPayload, parse_envelope, snapshot_of,
  event_of, is_terminal,
}
use msclaude_connector.Session.{SessionState}
use msclaude_connector.Session.Snapshot.{apply_snapshot, is_other_session}
use msclaude_connector.Session.Events.{apply_event}
use msclaude_connector.Client.{
  Client, World, ConnPhase, Effect, Message, HarnessIdentity, create_socket, set_timer, notify,
  send, close_socket, clear_timer, resolve, reject,
}
use msclaude_connector.Client.Notify.{publish, set_phase}
use msclaude_connector.Client.Reconnect.{
  emit, close, close_if_set, stop_timer, set_identity, set_last_seq, with_last_seq,
  detach_and_close, timer_fired,
}
use msclaude_connector.Client.Commands.{
  max_outbox, send_all, flush_outbox, send_command, is_live, pending_for, forget, handle_ack,
  handle_error, is_falsy, error_of,
}
use msclaude_connector.Client.Messages.{
  handle_snapshot, clear_outbox_if, count_gap, decide_resync, same_gap, note_gap, bound_items,
  after_event, accept_event, handle_event_at, handle_event, handle_envelope, with_part, seq_of,
}
use msclaude_connector.Client.Sockets.{
  Step, step, connects, closes, resets, identifies, restores, commands, opened, received, closed,
  fired, on_open, on_message, run, on_close, is_detached, is_policy_close, has_given_up, hello_for,
}

-- A socket is created, or a timer is set.
abbrev pub is_opening : Effect → Bool
is_opening (create_socket url headers) = true
is_opening (set_timer t delay) = true
is_opening _ = false

unfoldable pub openings : List Effect → ℕ
openings [] = 0
openings (e ∷ es) = let rest = openings es in if is_opening e then suc rest else rest

added : (es fs : List Effect) {n : ℕ} → openings fs ≡ 0 → openings es ≡ n → openings (es ++ fs) ≡ n
unfolding openings
added [] fs q e = q ∙ e
added (d ∷ es) fs q e = ground (arith, added es fs q refl, e)

-- Closed, with `n` openings so far.
pub record IsSilent (n : ℕ) (c : Client) : Type 0 where
  pub closed : c.closed_by_user ≡ true
  pub so_far : openings c.effects ≡ n

send_all-openings : (s : ℕ) (m : Map CommandPayload) → openings (send_all s m) ≡ 0
unfolding openings
send_all-openings s [] = refl
send_all-openings s ((i, c) ∷ m) = send_all-openings s m

module _ {n : ℕ} where
  pub emit-IsSilent :
      (e : Effect) (c : Client) → openings (e ∷ []) ≡ 0 → IsSilent n c → IsSilent n (emit e c)
  emit-IsSilent e c q r = record { closed = r.closed; so_far = added c.effects (e ∷ []) q r.so_far }

  pub publish-IsSilent : (c : Client) → IsSilent n c → IsSilent n (publish c)
  unfolding publish openings
  publish-IsSilent c r = record {
    closed = r.closed;
    so_far = added c.effects (notify ∷ []) refl r.so_far;
  }

  pub set_phase-IsSilent : (p : ConnPhase) (c : Client) → IsSilent n c → IsSilent n (set_phase p c)
  unfolding set_phase
  set_phase-IsSilent p c r =
      publish-IsSilent (record c { phase = p }) (record { closed = r.closed; so_far = r.so_far })

  pub flush_outbox-IsSilent :
      (w : World) (c : Client) → IsSilent n c → IsSilent n (flush_outbox w c)
  unfolding flush_outbox
  flush_outbox-IsSilent w c r =
      option_cases (IsSilent n) c.socket _ _ (λ _. r)
        λ s _.
          if_cases (IsSilent n) (is_live c.phase && w.is_open s) _ _
            (λ _. record {
              closed = r.closed;
              so_far =
                  added c.effects (send_all s c.outbox) (send_all-openings s c.outbox) r.so_far;
            })
            (λ _. r)

  pub detach_and_close-IsSilent :
      (code : ℕ) (reason : Value) (c : Client)
      → IsSilent n c
      → IsSilent n (detach_and_close code reason c)
  unfolding detach_and_close openings
  detach_and_close-IsSilent code reason c r =
      option_cases (IsSilent n) c.socket _ _ (λ _. record { closed = r.closed; so_far = r.so_far })
        (λ s _.
          emit-IsSilent (close_socket s code reason) _ refl
            (record { closed = r.closed; so_far = r.so_far }))

  pub close-IsSilent : (c : Client) → IsSilent n c → IsSilent n (close c)
  unfolding close stop_timer openings
  close-IsSilent c r =
      option_cases
        (λ (d : Client).
          IsSilent n
            (set_phase ConnPhase.idle (record (close_if_set d.socket d) { socket = none })))
        c.reconnect_timer _ _
        (λ _. dropped c.socket _ (record { closed = refl; so_far = r.so_far }))
        (λ t _.
          dropped c.socket _
            (emit-IsSilent (clear_timer t) _ refl (record { closed = refl; so_far = r.so_far })))
    where
      dropped :
          (s : Option ℕ) (d : Client)
          → IsSilent n d
          → IsSilent n (set_phase ConnPhase.idle (record (close_if_set s d) { socket = none }))
      dropped none d q =
          set_phase-IsSilent ConnPhase.idle _ (record { closed = q.closed; so_far = q.so_far })
      dropped (some s) d q =
          let k = emit-IsSilent (close_socket s 1000 (str (codes "client closing"))) d refl q in
          set_phase-IsSilent ConnPhase.idle _ (record { closed = k.closed; so_far = k.so_far })
