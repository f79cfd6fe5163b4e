-- ===== src/Client/Frame/Reconnect.antt =====
-- client.ts: the methods that connect, reconnect and send leave the outbox, the waiting promises and
-- their outcomes alone.
use msclaude_connector.Prelude.{
  ℕ, ◌+◌, ◌≡◌, refl, inl, inr, false, [], ◌∷◌, Option, none, some, ◌&&◌, if_cases, option_cases,
}
use msclaude_connector.Prelude.Maps.{Map}
use msclaude_connector.Value.{Value, null, same_value}
use msclaude_connector.Session.{new_session_state}
use msclaude_connector.Wire.{CommandPayload}
use msclaude_connector.Client.{
  Client, World, ConnPhase, create_socket, close_socket, set_timer, clear_timer,
}
use msclaude_connector.Client.Backoff.{compute_backoff}
use msclaude_connector.Client.Notify.{set_phase}
use msclaude_connector.Client.Reconnect.{
  emit, clear_if_set, start_timer, schedule_reconnect, resync, headers_for, close_if_set,
  socket_failure, create_normal_socket, open_normal_socket, timer_fired, detach_and_close,
  stop_timer,
}
use msclaude_connector.Client.Commands.{flush_outbox, send_all, is_live}
use msclaude_connector.Client.Frame.{
  settle_count, Keeps, Keeps-refl, Keeps-trans, Keeps-quiet, NoOutcome, Keeps-effects, emit-Keeps,
  set_phase-Keeps,
}

send_all-NoOutcome : (s : ℕ) (m : Map CommandPayload) → NoOutcome (send_all s m)
unfolding settle_count
send_all-NoOutcome s [] id = refl
send_all-NoOutcome s ((i, c) ∷ m) id = send_all-NoOutcome s m id

pub flush_outbox-Keeps : (w : World) (c : Client) → Keeps c (flush_outbox w c)
unfolding flush_outbox
flush_outbox-Keeps w c =
    option_cases (Keeps c) c.socket _ _ (λ _. Keeps-refl c)
      λ s _.
        if_cases (Keeps c) (is_live c.phase && w.is_open s) _ _
          (λ _. Keeps-effects c (send_all s c.outbox) (send_all-NoOutcome s c.outbox))
          (λ _. Keeps-refl c)

clear_if_set-Keeps : (t : Option ℕ) (c : Client) → Keeps c (clear_if_set t c)
unfolding settle_count
clear_if_set-Keeps none c = Keeps-refl c
clear_if_set-Keeps (some t) c = emit-Keeps (clear_timer t) c (λ id. refl)

start_timer-Keeps : (delay : ℕ) (c : Client) → Keeps c (start_timer delay c)
unfolding start_timer settle_count
start_timer-Keeps delay c =
    Keeps-trans (emit-Keeps (set_timer c.timers delay) c (λ id. refl))
      (Keeps-quiet (emit (set_timer c.timers delay) c) _ _ _ _ _ _ _ _ _)

pub schedule_reconnect-Keeps : (w : World) (c : Client) → Keeps c (schedule_reconnect w c)
unfolding schedule_reconnect
schedule_reconnect-Keeps w c =
    if_cases (Keeps c) c.closed_by_user _ _ (λ _. Keeps-refl c)
      λ _.
        Keeps-trans
          (Keeps-trans
            (Keeps-trans (Keeps-quiet c _ _ _ _ _ _ _ _ _)
              (set_phase-Keeps ConnPhase.reconnecting waiting refl))
            (clear_if_set-Keeps _ (set_phase ConnPhase.reconnecting waiting)))
          (start_timer-Keeps _ _)
  where
    waiting : Client
    waiting = record c {
      retry_attempt = c.retry_attempt + 1;
      retry_in_ms = some (compute_backoff w c.retry_attempt);
    }

pub create_normal_socket-Keeps : (w : World) (c : Client) → Keeps c (create_normal_socket w c)
unfolding create_normal_socket settle_count
create_normal_socket-Keeps w c = Keeps-trans (emit-Keeps (create_socket c.url _) c (λ id. refl)) (
    option_cases (Keeps asked) w.create_failure _ _ (λ _. Keeps-quiet asked _ _ _ _ _ _ _ _ _)
      (λ message _.
        Keeps-trans (Keeps-quiet asked _ _ _ _ _ _ _ _ _)
          (schedule_reconnect-Keeps w (socket_failure message asked))))
  where
    asked : Client
    asked = emit (create_socket c.url (headers_for c.auth_mode c.identity)) c

resync-Keeps : (c : Client) → Keeps c (resync c)
unfolding resync
resync-Keeps c = if_cases (Keeps c) c.full_resync _ _ (λ _. afresh) (λ _. Keeps-refl c)
  where
    afresh : Keeps c (record c { session = new_session_state; full_resync = false })
    afresh = record {
      outbox = refl;
      pending = refl;
      gap_seq = refl;
      gap_count = refl;
      closed_by_user = refl;
      max_items = refl;
      session = inr refl;
      phase = inl refl;
      outcomes = λ id. refl;
    }

pub open_normal_socket-Keeps : (w : World) (c : Client) → Keeps c (open_normal_socket w c)
unfolding open_normal_socket
open_normal_socket-Keeps w c =
    Keeps-trans
      (Keeps-trans
        (set_phase-Keeps _ c (
          if_cases (λ p. is_live p ≡ false) (same_value c.session.session_id null) _ _ (λ _. refl)
            (λ _. refl)))
        (resync-Keeps _))
      (create_normal_socket-Keeps w _)

pub timer_fired-Keeps : (w : World) (c : Client) → Keeps c (timer_fired w c)
unfolding timer_fired
timer_fired-Keeps w c =
    if_cases (Keeps c) c.closed_by_user _ _ (λ _. Keeps-quiet c _ _ _ _ _ _ _ _ _)
      λ _. Keeps-trans (Keeps-quiet c _ _ _ _ _ _ _ _ _) (open_normal_socket-Keeps w _)

pub detach_and_close-Keeps :
    (code : ℕ) (reason : Value) (c : Client) → Keeps c (detach_and_close code reason c)
unfolding detach_and_close settle_count
detach_and_close-Keeps code reason c =
    option_cases (Keeps c) c.socket _ _ (λ _. Keeps-quiet c _ _ _ _ _ _ _ _ _)
      λ s _.
        Keeps-trans (Keeps-quiet c _ _ _ _ _ _ _ _ _)
          (emit-Keeps (close_socket s code reason) _ (λ id. refl))

pub stop_timer-Keeps : (c : Client) → Keeps c (stop_timer c)
unfolding stop_timer settle_count
stop_timer-Keeps c =
    option_cases (Keeps c) c.reconnect_timer _ _ (λ _. Keeps-refl c)
      λ t _.
        Keeps-trans (Keeps-quiet c _ _ _ _ _ _ _ _ _) (emit-Keeps (clear_timer t) _ (λ id. refl))

pub close_if_set-Keeps : (o : Option ℕ) (c : Client) → Keeps c (close_if_set o c)
unfolding settle_count
close_if_set-Keeps none c = Keeps-refl c
close_if_set-Keeps (some s) c = emit-Keeps (close_socket s 1000 _) c (λ id. refl)
