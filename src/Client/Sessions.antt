-- ===== src/Client/Sessions.antt =====
-- client.ts: what a property of sessions that holds of the empty session needs for each method and
-- handler to keep it.
use mathlib.Core.Path.{subst}
use msclaude_connector.Prelude.{
  ℕ, suc, ◌+◌, ◌<◌, ◌≡◌, refl, sym, ◌∙◌, inl, inr, Bool, true, false, ◌||◌, Option, none, some,
  arith, Text, codes, leb, ltb, length, if_cases, option_cases,
}
use msclaude_connector.Value.{Value, Fields, Number, str, get}
use msclaude_connector.Wire.{SnapshotPayload, CommandKind, event_of, is_terminal}
use msclaude_connector.Session.{SessionState, new_session_state}
use msclaude_connector.Session.Events.{apply_event}
use msclaude_connector.Session.Snapshot.{apply_snapshot, is_other_session}
use msclaude_connector.Client.{Client, World, ConnPhase, HarnessIdentity}
use msclaude_connector.Client.Notify.{set_phase}
use msclaude_connector.Client.Reconnect.{
  connect, close, reset, set_identity, set_last_seq, restarted, with_last_seq, stop_timer,
  detach_and_close,
}
use msclaude_connector.Client.Commands.{
  pending_for, forget, handle_ack, handle_error, is_live, is_falsy, send_command, max_outbox,
}
use msclaude_connector.Client.Messages.{
  handle_snapshot, clear_outbox_if, count_gap, decide_resync, note_gap, bound_items, after_event,
  accept_event, handle_event_at, same_gap,
}
use msclaude_connector.Client.Sockets.{
  Step, on_open, on_close, step, connects, closes, resets, identifies, restores, commands, opened,
  received, closed, fired, is_detached, is_policy_close, has_given_up,
}
use msclaude_connector.Client.Frame.{Keeps, publish-Keeps}
use msclaude_connector.Client.Frame.Reconnect.{
  stop_timer-Keeps, close_if_set-Keeps, flush_outbox-Keeps, schedule_reconnect-Keeps,
  open_normal_socket-Keeps, timer_fired-Keeps, detach_and_close-Keeps,
}

-- The steps that neither receive a message nor set the last number.
abbrev pub is_local : Step → Bool
is_local (restores n) = false
is_local (received s m) = false
is_local _ = true

-- The session of a client has the property `Q`, and the bound on its items is `max`.
pub record Holds (max : Option ℕ) (Q : SessionState → Type 0) (c : Client) : Type 0 where
  pub bound : c.max_items ≡ max
  pub holds : Q c.session

module _ (max : Option ℕ) (Q : SessionState → Type 0) (new : Q new_session_state) where
  pub kept : {c c' : Client} → Keeps c c' → Holds max Q c → Holds max Q c'
  kept k h = elim k.session [
    | inl e ↦ record { bound = k.max_items ∙ h.bound; holds = subst Q (sym e) h.holds }
    | inr e ↦ record { bound = k.max_items ∙ h.bound; holds = subst Q (sym e) new }
  ]

  set_phase-Holds : (p : ConnPhase) (c : Client) → Holds max Q c → Holds max Q (set_phase p c)
  unfolding set_phase
  set_phase-Holds p c h =
      kept (publish-Keeps (record c { phase = p })) (record { bound = h.bound; holds = h.holds })

  connect-Holds :
      (w : World) (i : Option HarnessIdentity) (c : Client)
      → Holds max Q c
      → Holds max Q (connect w i c)
  unfolding connect
  connect-Holds w i c h =
      kept (open_normal_socket-Keeps w _) (kept (stop_timer-Keeps (restarted i c)) (same i))
    where
      same : (i : Option HarnessIdentity) → Holds max Q (restarted i c)
      same none = record { bound = h.bound; holds = h.holds }
      same (some i) = record { bound = h.bound; holds = h.holds }

  close-Holds : (c : Client) → Holds max Q c → Holds max Q (close c)
  unfolding close
  close-Holds c h = set_phase-Holds ConnPhase.idle _ (
      unsocketed (
        kept (close_if_set-Keeps _ (stop_timer (record c { closed_by_user = true }))) (
          kept (stop_timer-Keeps (record c { closed_by_user = true }))
            (record { bound = h.bound; holds = h.holds }))))
    where
      unsocketed : {d : Client} → Holds max Q d → Holds max Q (record d { socket = none })
      unsocketed h = record { bound = h.bound; holds = h.holds }

  pub set_last_seq-Holds :
      (n : Number) (c : Client)
      → ((seq : ℕ)
          → n ≡ Number.finite seq
          → c.session.last_seq < seq
          → Q (record c.session { last_seq = seq }))
      → Holds max Q c
      → Holds max Q (set_last_seq n c)
  unfolding set_last_seq
  set_last_seq-Holds Number.infinite c later h = h
  set_last_seq-Holds (Number.finite n) c later h =
      if_cases (Holds max Q) (leb n c.session.last_seq) _ _ (λ _. h)
        λ after.
          kept (publish-Keeps (with_last_seq n c))
            (record { bound = h.bound; holds = later n refl (ground arith) })

  send_command-Holds :
      (w : World) (id : Text) (kind : CommandKind) (payload : Value) (c : Client)
      → Holds max Q c
      → Holds max Q (send_command w id kind payload c).0
  unfolding send_command
  send_command-Holds w id kind payload c h =
      if_cases {A = Client × Option Text} (λ o. Holds max Q o.0) (leb max_outbox (length c.outbox))
        _ _ (λ _. h)
        λ _. kept (flush_outbox-Keeps w _) (record { bound = h.bound; holds = h.holds })

  on_close-Holds :
      (w : World) (s : ℕ) (code : Option ℕ) (c : Client)
      → Holds max Q c
      → Holds max Q (on_close w s code c)
  unfolding on_close
  on_close-Holds w s code c h =
      if_cases (Holds max Q) (is_detached s c || c.closed_by_user) _ _ (λ _. h)
        λ _.
          if_cases (Holds max Q) (is_policy_close code) _ _ (λ _. set_phase-Holds _ c h)
            λ _.
              if_cases (Holds max Q) (has_given_up c.phase) _ _ (λ _. h)
                λ _. kept (schedule_reconnect-Keeps w c) h

  -- The steps other than messages and restored numbers ask for nothing.
  pub step-Holds :
      (w : World) (s : Step) (c : Client)
      → is_local s ≡ true
      → Holds max Q c
      → Holds max Q (step w s c)
  unfolding step reset set_identity on_open
  step-Holds w (connects i) c l h = connect-Holds w i c h
  step-Holds w closes c l h = close-Holds c h
  step-Holds w resets c l h = record { bound = h.bound; holds = new }
  step-Holds w (identifies i) c l h =
      kept (publish-Keeps _) (record { bound = h.bound; holds = h.holds })
  step-Holds w (restores n) c l h = absurd cc
  step-Holds w (commands id kind payload) c l h = send_command-Holds w id kind payload c h
  step-Holds w (opened s) c l h = record { bound = h.bound; holds = h.holds }
  step-Holds w (received s m) c l h = absurd cc
  step-Holds w (closed s code) c l h = on_close-Holds w s code c h
  step-Holds w fired c l h = kept (timer_fired-Keeps w c) h

  pub handle_snapshot-Holds :
      (w : World) (snap : SnapshotPayload) (c : Client)
      → Q (apply_snapshot c.session snap)
      → Holds max Q c
      → Holds max Q (handle_snapshot w snap c)
  unfolding handle_snapshot
  handle_snapshot-Holds w snap c q h =
      if_cases (Holds max Q) _ _ _
        (λ _. kept (flush_outbox-Keeps w _) (set_phase-Holds ConnPhase.live _ after))
        (λ _. set_phase-Holds ConnPhase.syncing _ after)
    where
      seen : Client
      seen = record c {
        session = apply_snapshot c.session snap;
        sync_base = (apply_snapshot c.session snap).last_seq;
        retry_attempt = 0;
      }

      cleared : (b : Bool) → Holds max Q (clear_outbox_if b seen)
      cleared true = record { bound = h.bound; holds = q }
      cleared false = record { bound = h.bound; holds = q }

      after :
          Holds max Q (clear_outbox_if (is_other_session c.session.session_id snap.session_id) seen)
      after = cleared _

  note_gap-Holds :
      (w : World) (n : Number) (c : Client) → Holds max Q c → Holds max Q (note_gap w n c)
  unfolding note_gap
  note_gap-Holds w n c h =
      if_cases (Holds max Q) _ _ _ (λ _. left) (λ _. kept (schedule_reconnect-Keeps w _) left)
    where
      counted : Holds max Q (count_gap n c)
      counted =
          if_cases (Holds max Q) (same_gap c.gap_seq n) _ _
            (λ _. record { bound = h.bound; holds = h.holds })
            (λ _. record { bound = h.bound; holds = h.holds })

      decided : Holds max Q (decide_resync (count_gap n c))
      decided =
          if_cases (Holds max Q) (leb 3 (count_gap n c).gap_count) _ _
            (λ _. record { bound = counted.bound; holds = counted.holds }) (λ _. counted)

      left :
          Holds max Q
            (detach_and_close 1011 (str (codes "seq gap")) (decide_resync (count_gap n c)))
      left = kept (detach_and_close-Keeps 1011 _ _) decided

  after_event-Holds : (w : World) (c : Client) → Holds max Q c → Holds max Q (after_event w c)
  unfolding after_event
  after_event-Holds w c h =
      if_cases (Holds max Q) (leb c.session.tip_seq c.session.last_seq) _ _
        (λ _.
          if_cases (Holds max Q) (is_live c.phase) _ _ (λ _. kept (publish-Keeps c) h)
            (λ _. kept (flush_outbox-Keeps w _) (set_phase-Holds ConnPhase.live c h)))
        (λ _. kept (publish-Keeps c) h)

  pub handle_event_at-Holds :
      (w : World) (n : Number) (ev : Fields) (c : Client)
      → ((seq : ℕ)
          → n ≡ Number.finite seq
          → seq ≡ suc c.session.last_seq
          → Q (bound_items max (apply_event w.has_encoder c.session (event_of seq ev))))
      → Holds max Q c
      → Holds max Q (handle_event_at w n ev c)
  unfolding handle_event_at accept_event
  handle_event_at-Holds w Number.infinite ev c q h = note_gap-Holds w Number.infinite c h
  handle_event_at-Holds w (Number.finite n) ev c q h =
      if_cases (Holds max Q) (leb n c.session.last_seq) _ _ (λ _. h)
        λ later.
          if_cases (Holds max Q) (ltb (c.session.last_seq + 1) n) _ _
            (λ _. note_gap-Holds w (Number.finite n) c h)
            λ next.
              after_event-Holds w _
                (record { bound = h.bound; holds = rw h.bound (q n refl (ground arith)) })

  pub handle_error-Holds :
      (err : Fields) (c : Client) → Holds max Q c → Holds max Q (handle_error err c)
  unfolding handle_error forget
  handle_error-Holds err c h =
      if_cases (Holds max Q) (is_falsy (get "commandId" err)) _ _
        (λ _.
          if_cases (Holds max Q) (is_terminal (get "code" err)) _ _
            (λ _. set_phase-Holds ConnPhase.unauthorized _ (
              kept (detach_and_close-Keeps 1008 _ _) (record { bound = h.bound; holds = h.holds })))
            (λ _. kept (publish-Keeps _) (record { bound = h.bound; holds = h.holds })))
        λ _.
          option_cases (Holds max Q) (pending_for (get "commandId" err) c) _ _ (λ _. h)
            λ id _. record { bound = h.bound; holds = h.holds }

  pub handle_ack-Holds :
      (ack : Fields) (c : Client) → Holds max Q c → Holds max Q (handle_ack ack c)
  unfolding handle_ack forget
  handle_ack-Holds ack c h =
      option_cases (Holds max Q) (pending_for (get "commandId" ack) c) _ _ (λ _. h)
        λ id _. record { bound = h.bound; holds = h.holds }
