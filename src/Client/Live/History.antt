-- ===== src/Client/Live/History.antt =====
-- client.ts: over any history, whether a live client has come to the tip of its session.
use msclaude_connector.Prelude.{
  ℕ, ◌+◌, ◌≡◌, refl, List, Option, none, some, arith, Text, leb, ltb, leb→le, length, if_cases,
  option_cases,
}
use msclaude_connector.Value.{Fields, Number, get}
use msclaude_connector.Wire.{event_of, is_terminal}
use msclaude_connector.Session.{SessionState}
use msclaude_connector.Session.Events.{apply_event}
use msclaude_connector.Client.Replay.Views.{apply_event-last_seq, apply_event-tip_seq}
use msclaude_connector.Client.{Client, World, ConnPhase, HarnessIdentity, AuthMode}
use msclaude_connector.Client.Notify.{new_client}
use msclaude_connector.Client.Reconnect.{reset, set_identity}
use msclaude_connector.Client.Commands.{
  pending_for, forget, handle_ack, handle_error, is_live, is_falsy,
}
use msclaude_connector.Client.Messages.{bound_items, after_event, accept_event, handle_event_at}
use msclaude_connector.Client.Sockets.{
  Step, on_open, step, run, connects, closes, resets, identifies, restores, commands, opened,
  received, closed, fired,
}
use msclaude_connector.Client.Received.{on_message-kept, run-kept}
use msclaude_connector.Client.Frame.{publish-Keeps}
use msclaude_connector.Client.Frame.Reconnect.{flush_outbox-Keeps, timer_fired-Keeps}
use msclaude_connector.Client.Live.{
  IsCaughtUp, kept, set_phase-IsCaughtUp, go_live-IsCaughtUp, connect-IsCaughtUp, close-IsCaughtUp,
  set_last_seq-IsCaughtUp, send_command-IsCaughtUp, on_close-IsCaughtUp, handle_snapshot-IsCaughtUp,
  note_gap-IsCaughtUp,
}

-- A client that was live and has come further is still at the tip.
after_event-IsCaughtUp : (w : World) (c : Client) → IsCaughtUp c → IsCaughtUp (after_event w c)
unfolding after_event
after_event-IsCaughtUp w c r =
    if_cases IsCaughtUp (leb c.session.tip_seq c.session.last_seq) _ _
      (λ tip.
        if_cases IsCaughtUp (is_live c.phase) _ _ (λ _. kept (publish-Keeps c) r)
          (λ _. kept (flush_outbox-Keeps w _) (go_live-IsCaughtUp c (leb→le _ _ tip))))
      (λ _. kept (publish-Keeps c) r)

pub bound_items-seqs :
    (max : Option ℕ) (s : SessionState)
    → ((bound_items max s).last_seq ≡ s.last_seq) × ((bound_items max s).tip_seq ≡ s.tip_seq)
unfolding bound_items
bound_items-seqs none s = (refl, refl)
bound_items-seqs (some max) s =
    if_cases (λ (t : SessionState). (t.last_seq ≡ s.last_seq) × (t.tip_seq ≡ s.tip_seq))
      (ltb max (length s.items)) _ _ (λ _. (refl, refl)) (λ _. (refl, refl))

handle_event_at-IsCaughtUp :
    (w : World) (n : Number) (ev : Fields) (c : Client)
    → IsCaughtUp c
    → IsCaughtUp (handle_event_at w n ev c)
unfolding handle_event_at accept_event event_of
handle_event_at-IsCaughtUp w Number.infinite ev c r = note_gap-IsCaughtUp w Number.infinite c r
handle_event_at-IsCaughtUp w (Number.finite n) ev c r =
    if_cases IsCaughtUp (leb n c.session.last_seq) _ _ (λ _. r)
      λ later.
        if_cases IsCaughtUp (ltb (c.session.last_seq + 1) n) _ _
          (λ _. note_gap-IsCaughtUp w (Number.finite n) c r)
          λ next.
            after_event-IsCaughtUp w
              (record c {
                session =
                    bound_items c.max_items (apply_event w.has_encoder c.session (event_of n ev));
                gap_seq = none;
                gap_count = 0;
              })
              (record {
                at_tip = λ l. ground (
                  arith,
                  r.at_tip l,
                  bound_items-seqs c.max_items
                      (apply_event w.has_encoder c.session (event_of n ev)),
                  apply_event-last_seq w.has_encoder c.session (event_of n ev),
                  apply_event-tip_seq w.has_encoder c.session (event_of n ev),
                );
              })

handle_error-IsCaughtUp :
    (err : Fields) (c : Client) → IsCaughtUp c → IsCaughtUp (handle_error err c)
unfolding handle_error forget
handle_error-IsCaughtUp err c r =
    if_cases IsCaughtUp (is_falsy (get "commandId" err)) _ _
      (λ _.
        if_cases IsCaughtUp (is_terminal (get "code" err)) _ _
          (λ _. set_phase-IsCaughtUp ConnPhase.unauthorized _ refl)
          (λ _. kept (publish-Keeps _) (record { at_tip = r.at_tip })))
      λ _.
        option_cases IsCaughtUp (pending_for (get "commandId" err) c) _ _ (λ _. r)
          λ id _. record { at_tip = r.at_tip }

handle_ack-IsCaughtUp : (ack : Fields) (c : Client) → IsCaughtUp c → IsCaughtUp (handle_ack ack c)
unfolding handle_ack forget
handle_ack-IsCaughtUp ack c r =
    option_cases IsCaughtUp (pending_for (get "commandId" ack) c) _ _ (λ _. r)
      λ id _. record { at_tip = r.at_tip }

pub step-IsCaughtUp : (w : World) (s : Step) (c : Client) → IsCaughtUp c → IsCaughtUp (step w s c)
unfolding step reset set_identity on_open
step-IsCaughtUp w (connects i) c r = connect-IsCaughtUp w i c r
step-IsCaughtUp w closes c r = close-IsCaughtUp c
step-IsCaughtUp w resets c r = record { at_tip = λ l. omega arith }
step-IsCaughtUp w (identifies i) c r = kept (publish-Keeps _) (record { at_tip = r.at_tip })
step-IsCaughtUp w (restores n) c r = set_last_seq-IsCaughtUp n c r
step-IsCaughtUp w (commands id kind payload) c r = send_command-IsCaughtUp w id kind payload c r
step-IsCaughtUp w (opened s) c r = record { at_tip = r.at_tip }
step-IsCaughtUp w (received s m) c r =
    on_message-kept IsCaughtUp w c r (λ snap. handle_snapshot-IsCaughtUp w snap c)
      (λ n ev. handle_event_at-IsCaughtUp w n ev c r) (λ ack. handle_ack-IsCaughtUp ack c r)
      (λ err. handle_error-IsCaughtUp err c r) s m
step-IsCaughtUp w (closed s code) c r = on_close-IsCaughtUp w s code c r
step-IsCaughtUp w fired c r = kept (timer_fired-Keeps w c) r

-- Whatever happens to a new client, whenever its phase is live the last number that it has applied
-- is not below the tip of its session.
pub run-new_client-IsCaughtUp :
    (url : Text) (mode : AuthMode) (identity : Option HarnessIdentity) (max : Option ℕ)
    (h : List (World × Step))
    → IsCaughtUp (run (new_client url mode identity max) h)
unfolding new_client
run-new_client-IsCaughtUp url mode identity max h =
    run-kept IsCaughtUp step-IsCaughtUp _ h (record { at_tip = λ l. omega arith })
