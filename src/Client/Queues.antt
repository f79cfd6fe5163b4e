-- ===== src/Client/Queues.antt =====
-- client.ts: what each step does to the outbox, the waiting promises and their outcomes.
pub mod Outcomes
use msclaude_connector.Prelude.{
  ℕ, ◌+◌, ◌≡◌, refl, ap, ◌∙◌, ◌⊎◌, inl, inr, Bool, true, false, ◌||◌, [], ◌∷◌, Option, none, some,
  arith, Text, text_eq, leb, ltb, if◌then◌else◌, if_cases, option_cases,
}
use msclaude_connector.Prelude.Maps.{lookup, remove}
use msclaude_connector.Value.{Value, Fields, Number, str, get}
use msclaude_connector.Wire.{SnapshotPayload, is_terminal}
use msclaude_connector.Session.Snapshot.{is_other_session}
use msclaude_connector.Client.{
  Client, World, Effect, ConnPhase, HarnessIdentity, Message, resolve, reject, send,
}
use msclaude_connector.Client.Notify.{set_phase}
use msclaude_connector.Client.Reconnect.{
  emit, connect, close, reset, set_identity, set_last_seq, restarted, stop_timer,
}
use msclaude_connector.Client.Commands.{
  pending_for, forget, handle_ack, handle_error, is_live, is_falsy, error_of,
}
use msclaude_connector.Client.Messages.{
  handle_snapshot, clear_outbox_if, count_gap, decide_resync, note_gap, after_event, accept_event,
  handle_event_at, same_gap,
}
use msclaude_connector.Client.Sockets.{
  Step, on_open, on_close, step, connects, closes, resets, identifies, restores, commands, opened,
  received, closed, fired, is_detached, is_policy_close, has_given_up, hello_for,
}
use msclaude_connector.Client.Received.{on_message-kept}
use msclaude_connector.Client.Frame.{
  Keeps, settles, settle_count, settle_count-append, publish-Keeps, emit-Keeps,
}
use msclaude_connector.Client.Frame.Reconnect.{
  stop_timer-Keeps, close_if_set-Keeps, flush_outbox-Keeps, schedule_reconnect-Keeps,
  open_normal_socket-Keeps, timer_fired-Keeps, detach_and_close-Keeps,
}

-- The outbox stays or is emptied; promises and outcomes stay as they are.
pub record Settled (c c' : Client) : Type 0 where
  pub outbox : (c'.outbox ≡ c.outbox) ⊎ (c'.outbox ≡ [])
  pub pending : c'.pending ≡ c.pending
  pub outcomes : (id : Text) → settle_count id c'.effects ≡ settle_count id c.effects

pub Settled-refl : (c : Client) → Settled c c
Settled-refl c = record { outbox = inl refl; pending = refl; outcomes = λ id. refl }

pub Settled-trans : {a b c : Client} → Settled a b → Settled b c → Settled a c
Settled-trans k l = record {
  outbox = ground (arith, k.outbox, l.outbox);
  pending = l.pending ∙ k.pending;
  outcomes = λ id. l.outcomes id ∙ k.outcomes id;
}

pub Keeps-Settled : {c c' : Client} → Keeps c c' → Settled c c'
Keeps-Settled k = record { outbox = inl k.outbox; pending = k.pending; outcomes = k.outcomes }

-- Any change of the fields that are no part of this.
pub queues_of :
    (c c' : Client)
    → c'.outbox ≡ c.outbox
    → c'.pending ≡ c.pending
    → c'.effects ≡ c.effects
    → Settled c c'
queues_of c c' o p e = record {
  outbox = inl o;
  pending = p;
  outcomes = λ id. ap (settle_count id) e;
}

pub set_phase-Settled : (p : ConnPhase) (c : Client) → Settled c (set_phase p c)
unfolding set_phase
set_phase-Settled p c =
    Settled-trans (queues_of c (record c { phase = p }) refl refl refl)
      (Keeps-Settled (publish-Keeps (record c { phase = p })))

pub connect-Settled :
    (w : World) (i : Option HarnessIdentity) (c : Client) → Settled c (connect w i c)
unfolding connect
connect-Settled w i c = Settled-trans (restarted-Settled i) (
    Settled-trans (Keeps-Settled (stop_timer-Keeps (restarted i c)))
      (Keeps-Settled (open_normal_socket-Keeps w (stop_timer (restarted i c)))))
  where
    restarted-Settled : (i : Option HarnessIdentity) → Settled c (restarted i c)
    restarted-Settled none = queues_of c (restarted none c) refl refl refl
    restarted-Settled (some i) = queues_of c (restarted (some i) c) refl refl refl

pub close-Settled : (c : Client) → Settled c (close c)
unfolding close
close-Settled c = Settled-trans (queues_of c (record c { closed_by_user = true }) refl refl refl) (
    Settled-trans (Keeps-Settled (stop_timer-Keeps (record c { closed_by_user = true }))) (
      Settled-trans (Keeps-Settled (close_if_set-Keeps _ _))
        (Settled-trans (queues_of _ _ refl refl refl) (set_phase-Settled ConnPhase.idle _))))

pub reset-Settled : (c : Client) → Settled c (reset c)
unfolding reset
reset-Settled c = queues_of c _ refl refl refl

pub set_identity-Settled : (i : Option HarnessIdentity) (c : Client) → Settled c (set_identity i c)
unfolding set_identity
set_identity-Settled i c =
    Settled-trans (queues_of c _ refl refl refl) (Keeps-Settled (publish-Keeps _))

pub set_last_seq-Settled : (n : Number) (c : Client) → Settled c (set_last_seq n c)
unfolding set_last_seq
set_last_seq-Settled Number.infinite c = Settled-refl c
set_last_seq-Settled (Number.finite n) c =
    if_cases (Settled c) (leb n c.session.last_seq) _ _ (λ _. Settled-refl c)
      λ _. Settled-trans (queues_of c _ refl refl refl) (Keeps-Settled (publish-Keeps _))

pub on_open-Settled : (s : ℕ) (c : Client) → Settled c (on_open s c)
unfolding on_open settle_count
on_open-Settled s c =
    Keeps-Settled (emit-Keeps (send s (Message.hello (hello_for c))) c (λ id. refl))

pub on_close-Settled :
    (w : World) (s : ℕ) (code : Option ℕ) (c : Client) → Settled c (on_close w s code c)
unfolding on_close
on_close-Settled w s code c =
    if_cases (Settled c) (is_detached s c || c.closed_by_user) _ _ (λ _. Settled-refl c)
      λ _.
        if_cases (Settled c) (is_policy_close code) _ _ (λ _. set_phase-Settled _ c)
          λ _.
            if_cases (Settled c) (has_given_up c.phase) _ _ (λ _. Settled-refl c)
              λ _. Keeps-Settled (schedule_reconnect-Keeps w c)

pub handle_snapshot-Settled :
    (w : World) (snap : SnapshotPayload) (c : Client) → Settled c (handle_snapshot w snap c)
unfolding handle_snapshot
handle_snapshot-Settled w snap c = Settled-trans (queues_of c _ refl refl refl) (
    Settled-trans (cleared (is_other_session c.session.session_id snap.session_id) _) (
      if_cases (Settled _) _ _ _
        (λ _.
          Settled-trans (set_phase-Settled ConnPhase.live _)
            (Keeps-Settled (flush_outbox-Keeps w _)))
        (λ _. set_phase-Settled ConnPhase.syncing _)))
  where
    cleared : (b : Bool) (d : Client) → Settled d (clear_outbox_if b d)
    cleared true d = record { outbox = inr refl; pending = refl; outcomes = λ id. refl }
    cleared false d = Settled-refl d

note_gap-Settled : (w : World) (n : Number) (c : Client) → Settled c (note_gap w n c)
unfolding note_gap
note_gap-Settled w n c = Settled-trans counted (
    Settled-trans decided (
      Settled-trans (Keeps-Settled (detach_and_close-Keeps 1011 _ _)) (
        if_cases (Settled _) _ _ _ (λ _. Settled-refl _)
          (λ _. Keeps-Settled (schedule_reconnect-Keeps w _)))))
  where
    counted : Settled c (count_gap n c)
    counted =
        if_cases (Settled c) (same_gap c.gap_seq n) _ _ (λ _. queues_of c _ refl refl refl)
          (λ _. queues_of c _ refl refl refl)

    decided : Settled (count_gap n c) (decide_resync (count_gap n c))
    decided =
        if_cases (Settled (count_gap n c)) (leb 3 (count_gap n c).gap_count) _ _
          (λ _. queues_of (count_gap n c) _ refl refl refl) (λ _. Settled-refl _)

after_event-Settled : (w : World) (c : Client) → Settled c (after_event w c)
unfolding after_event
after_event-Settled w c =
    if_cases (Settled c) (leb c.session.tip_seq c.session.last_seq) _ _
      (λ _.
        if_cases (Settled c) (is_live c.phase) _ _ (λ _. Keeps-Settled (publish-Keeps c))
          (λ _.
            Settled-trans (set_phase-Settled ConnPhase.live c)
              (Keeps-Settled (flush_outbox-Keeps w _))))
      (λ _. Keeps-Settled (publish-Keeps c))

pub handle_event-Settled :
    (w : World) (n : Number) (ev : Fields) (c : Client) → Settled c (handle_event_at w n ev c)
unfolding handle_event_at accept_event
handle_event-Settled w Number.infinite ev c = note_gap-Settled w Number.infinite c
handle_event-Settled w (Number.finite n) ev c =
    if_cases (Settled c) (leb n c.session.last_seq) _ _ (λ _. Settled-refl c)
      λ _.
        if_cases (Settled c) (ltb (c.session.last_seq + 1) n) _ _
          (λ _. note_gap-Settled w (Number.finite n) c)
          (λ _. Settled-trans (queues_of c _ refl refl refl) (after_event-Settled w _))
