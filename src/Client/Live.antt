-- ===== src/Client/Live.antt =====
-- client.ts: what each method makes of the phase `live` against the numbers of the session.
pub mod History
use msclaude_connector.Prelude.{
  ℕ, ◌+◌, ◌≤◌, ◌≡◌, refl, inl, inr, Bool, true, false, ◌||◌, List, Option, none, some, arith, Text,
  codes, leb, ltb, leb→le, length, if_cases, option_cases,
}
use msclaude_connector.Value.{Value, Fields, Number, str, get}
use msclaude_connector.Wire.{SnapshotPayload, CommandKind, event_of, is_terminal}
use msclaude_connector.Session.{SessionState, new_session_state}
use msclaude_connector.Session.Events.{apply_event}
use msclaude_connector.Client.Replay.Views.{apply_event-last_seq, apply_event-tip_seq}
use msclaude_connector.Session.Snapshot.{apply_snapshot}
use msclaude_connector.Client.{Client, World, ConnPhase, HarnessIdentity, AuthMode}
use msclaude_connector.Client.Notify.{set_phase, new_client}
use msclaude_connector.Client.Reconnect.{
  connect, close, reset, set_identity, set_last_seq, restarted, with_last_seq, detach_and_close,
}
use msclaude_connector.Client.Commands.{
  pending_for, forget, handle_ack, handle_error, is_live, is_falsy, send_command, max_outbox,
}
use msclaude_connector.Client.Messages.{
  handle_snapshot, clear_outbox_if, count_gap, decide_resync, note_gap, bound_items, after_event,
  accept_event, handle_event_at, same_gap,
}
use msclaude_connector.Client.Sockets.{
  Step, on_open, on_close, step, run, connects, closes, resets, identifies, restores, commands,
  opened, received, closed, fired, is_detached, is_policy_close, has_given_up,
}
use msclaude_connector.Client.Received.{on_message-kept, run-kept}
use msclaude_connector.Client.Frame.{Keeps, publish-Keeps}
use msclaude_connector.Client.Frame.Reconnect.{
  stop_timer-Keeps, flush_outbox-Keeps, schedule_reconnect-Keeps, open_normal_socket-Keeps,
  timer_fired-Keeps, detach_and_close-Keeps,
}

-- Live means that every event up to the tip of the last snapshot has been applied.
pub record IsCaughtUp (c : Client) : Type 0 where
  pub at_tip : is_live c.phase ≡ true → c.session.tip_seq ≤ c.session.last_seq

-- The session and the phase are those of another client.
again :
    {c : Client} (d : Client)
    → d.session ≡ c.session
    → d.phase ≡ c.phase
    → IsCaughtUp c
    → IsCaughtUp d
again {c} d e f r = record { at_tip = λ l. ground (arith, e, f, r.at_tip) }

not_live : (c : Client) → is_live c.phase ≡ false → IsCaughtUp c
not_live c h = record { at_tip = λ l. cc }

at_new : (c : Client) → c.session ≡ new_session_state → IsCaughtUp c
at_new c h = record { at_tip = λ l. rw h (omega arith) }

pub kept : {c c' : Client} → Keeps c c' → IsCaughtUp c → IsCaughtUp c'
kept {c} {c'} k r = elim k.session [
  | inr e ↦ at_new c' e
  | inl e ↦ elim k.phase [ inl f ↦ again c' e f r | inr off ↦ not_live c' off ]
]

pub set_phase-IsCaughtUp :
    (p : ConnPhase) (c : Client) → is_live p ≡ false → IsCaughtUp (set_phase p c)
unfolding set_phase
set_phase-IsCaughtUp p c h =
    kept (publish-Keeps (record c { phase = p })) (not_live (record c { phase = p }) h)

pub go_live-IsCaughtUp :
    (c : Client) → c.session.tip_seq ≤ c.session.last_seq → IsCaughtUp (set_phase ConnPhase.live c)
unfolding set_phase
go_live-IsCaughtUp c h =
    kept (publish-Keeps (record c { phase = ConnPhase.live })) (record { at_tip = λ l. h })

pub connect-IsCaughtUp :
    (w : World) (i : Option HarnessIdentity) (c : Client)
    → IsCaughtUp c
    → IsCaughtUp (connect w i c)
unfolding connect
connect-IsCaughtUp w i c r =
    kept (open_normal_socket-Keeps w _) (kept (stop_timer-Keeps (restarted i c)) (same i))
  where
    same : (i : Option HarnessIdentity) → IsCaughtUp (restarted i c)
    same none = record { at_tip = r.at_tip }
    same (some i) = record { at_tip = r.at_tip }

pub close-IsCaughtUp : (c : Client) → IsCaughtUp (close c)
unfolding close
close-IsCaughtUp c = set_phase-IsCaughtUp ConnPhase.idle _ refl

pub set_last_seq-IsCaughtUp :
    (n : Number) (c : Client) → IsCaughtUp c → IsCaughtUp (set_last_seq n c)
unfolding set_last_seq
set_last_seq-IsCaughtUp Number.infinite c r = r
set_last_seq-IsCaughtUp (Number.finite n) c r =
    if_cases IsCaughtUp (leb n c.session.last_seq) _ _ (λ _. r)
      λ later.
        kept (publish-Keeps (with_last_seq n c)) (record { at_tip = λ l. ground (arith, r.at_tip) })

pub send_command-IsCaughtUp :
    (w : World) (id : Text) (kind : CommandKind) (payload : Value) (c : Client)
    → IsCaughtUp c
    → IsCaughtUp (send_command w id kind payload c).0
unfolding send_command
send_command-IsCaughtUp w id kind payload c r =
    if_cases {A = Client × Option Text} (λ o. IsCaughtUp o.0) (leb max_outbox (length c.outbox)) _ _
      (λ _. r) λ _. kept (flush_outbox-Keeps w _) (record { at_tip = r.at_tip })

pub on_close-IsCaughtUp :
    (w : World) (s : ℕ) (code : Option ℕ) (c : Client)
    → IsCaughtUp c
    → IsCaughtUp (on_close w s code c)
unfolding on_close
on_close-IsCaughtUp w s code c r =
    if_cases IsCaughtUp (is_detached s c || c.closed_by_user) _ _ (λ _. r)
      λ _.
        if_cases IsCaughtUp (is_policy_close code) _ _
          (λ _. set_phase-IsCaughtUp ConnPhase.unauthorized c refl)
          λ _.
            if_cases IsCaughtUp (has_given_up c.phase) _ _ (λ _. r)
              λ _. kept (schedule_reconnect-Keeps w c) r

pub handle_snapshot-IsCaughtUp :
    (w : World) (snap : SnapshotPayload) (c : Client) → IsCaughtUp (handle_snapshot w snap c)
unfolding handle_snapshot
handle_snapshot-IsCaughtUp w snap c =
    if_cases IsCaughtUp (leb session.tip_seq session.last_seq) _ _
      (λ tip. kept (flush_outbox-Keeps w _) (go_live-IsCaughtUp _ (same _ (leb→le _ _ tip))))
      (λ _. set_phase-IsCaughtUp ConnPhase.syncing _ refl)
  where
    session : SessionState
    session = apply_snapshot c.session snap

    seen : Client
    seen = record c { session = session; sync_base = session.last_seq; retry_attempt = 0 }

    same :
        (b : Bool)
        → session.tip_seq ≤ session.last_seq
        → (clear_outbox_if b seen).session.tip_seq ≤ (clear_outbox_if b seen).session.last_seq
    same true h = h
    same false h = h

pub note_gap-IsCaughtUp :
    (w : World) (n : Number) (c : Client) → IsCaughtUp c → IsCaughtUp (note_gap w n c)
unfolding note_gap
note_gap-IsCaughtUp w n c r =
    if_cases IsCaughtUp _ _ _ (λ _. left) (λ _. kept (schedule_reconnect-Keeps w _) left)
  where
    counted : IsCaughtUp (count_gap n c)
    counted =
        if_cases IsCaughtUp (same_gap c.gap_seq n) _ _ (λ _. record { at_tip = r.at_tip })
          (λ _. record { at_tip = r.at_tip })

    decided : IsCaughtUp (decide_resync (count_gap n c))
    decided =
        if_cases IsCaughtUp (leb 3 (count_gap n c).gap_count) _ _
          (λ _. record { at_tip = counted.at_tip }) (λ _. counted)

    left :
        IsCaughtUp (detach_and_close 1011 (str (codes "seq gap")) (decide_resync (count_gap n c)))
    left = kept (detach_and_close-Keeps 1011 _ _) decided
