-- ===== src/Client/Tests.antt =====
-- A run of client.ts, and the client's theorems at it.
use msclaude_connector.Prelude.{
  false, ℕ, ◌≤◌, ◌≡◌, refl, true, List, [], ◌∷◌, none, some, arith, Text, codes, length,
}
use msclaude_connector.Value.{Value, Fields, Number, str, num, obj, end, field, null}
use msclaude_connector.Wire.{CommandKind}
use msclaude_connector.Client.{Client, World, AuthMode, ConnPhase}
use msclaude_connector.Client.Notify.{new_client}
use msclaude_connector.Prelude.{text_eq}
use msclaude_connector.Prelude.Maps.{lookup, insert, remove}
use msclaude_connector.Wire.{
  parse_envelope, envelope_with, envelope_of, snapshot_of, event_of, event_kind,
}
use msclaude_connector.Prelude.Decimal.{decimal}
use msclaude_connector.Session.Pending.{dedupe_by, dedupe_from}
use msclaude_connector.Session.Stream.{seal_open_assistant, trim_items}
use msclaude_connector.Session.Events.{apply_event, dispatch, on_user_prompt}
use msclaude_connector.Session.Snapshot.{apply_snapshot, base_for, valid_devices, add_names}
use msclaude_connector.Client.Notify.{set_phase, publish, build_state, syncing_of}
use msclaude_connector.Client.Reconnect.{
  connect, open_normal_socket, create_normal_socket, resync, detach_and_close, schedule_reconnect,
  start_timer, stop_timer,
}
use msclaude_connector.Client.Commands.{send_command, flush_outbox, handle_ack, pending_for, forget}
use msclaude_connector.Client.Messages.{
  handle_envelope, handle_event, handle_event_at, handle_snapshot, note_gap, count_gap,
  decide_resync, accept_event, after_event, bound_items,
}
use msclaude_connector.Client.Sockets.{on_message, on_open, hello_for}
use msclaude_connector.Client.Backoff.{compute_backoff, raw_backoff}
use msclaude_connector.Client.Frame.{settle_count}
use msclaude_connector.Client.Sockets.{
  Step, step, run, closed, connects, fired, commands, opened, received,
}
use msclaude_connector.Client.Promises.{issued_in, settled_at_most_once}
use msclaude_connector.Wire.{SnapshotPayload}
use msclaude_connector.Session.{new_session_state}
use msclaude_connector.Client.Reconnect.{timer_fired}
use msclaude_connector.Client.Resync.{gap_round, third_gap_starts_afresh}
use msclaude_connector.Client.Orphans.{IsOrphaned, handle_snapshot-IsOrphaned}
use msclaude_connector.Wire.{CommandPayload}
use msclaude_connector.Client.{send, command}
use msclaude_connector.Client.Resend.{Emits, handle_snapshot-sends}
use msclaude_connector.Client.Replay.{IsReplayed, run-new_client-IsReplayed}
use msclaude_connector.Client.Replay.Views.{IsPresentable, run-new_client-IsPresentable}

-- A platform with open sockets, a `TextEncoder`, and the random number a half.
abbrev browser : World
browser = record {
  has_encoder = true;
  is_open = λ s. true;
  create_failure = none;
  random_num = 1;
  random_den = 2;
}

abbrev message : Text → Fields → Value
message type body = obj (
    field "type" (str type)
      (field "event" (obj body) (field "ack" (obj body) (field "snapshot" (obj body) end))))

abbrev snapshot : Value
snapshot =
    message (codes "snapshot")
      (field "sessionId" (str (codes "s")) (field "lastSeq" (num (Number.finite 1)) end))

abbrev prompt_event : ℕ → Value
prompt_event n =
    message (codes "event")
      (field "seq" (num (Number.finite n)) (field "kind" (str (codes "user_prompt")) end))

abbrev ack : Value
ack = message (codes "ack") (field "commandId" (str (codes "a")) end)

-- A connection that gets a snapshot and the event it lacks, twice; a command and two acks of it;
-- and then an event that does not follow.
abbrev history : List (World × Step)
history =
    (browser, connects none)
    ∷ (browser, opened 0)
    ∷ (browser, received 0 (some snapshot))
    ∷ (browser, received 0 (some (prompt_event 1)))
    ∷ (browser, received 0 (some (prompt_event 1)))
    ∷ (browser, commands (codes "a") CommandKind.interrupt (obj end))
    ∷ (browser, received 0 (some ack))
    ∷ (browser, received 0 (some ack))
    ∷ (browser, received 0 (some (prompt_event 3)))
    ∷ []

abbrev at_end : Client
unfolding new_client run step
at_end = run (new_client (codes "ws://h") AuthMode.hello none (some 10)) history

-- The repeated event and the second ack do nothing; the event that does not follow drops the socket.
what_happened :
    (at_end.session.last_seq ≡ 1)
    × (length at_end.session.items ≡ 1)
    × (settle_count (codes "a") at_end.effects ≡ 1)
    × (at_end.phase ≡ ConnPhase.reconnecting)
    × (at_end.socket ≡ none)
unfolding at_end settle_count on_message send_command on_open connect open_normal_socket
    create_normal_socket resync set_phase publish build_state syncing_of flush_outbox
    detach_and_close schedule_reconnect start_timer stop_timer compute_backoff raw_backoff
    handle_envelope handle_event handle_event_at handle_snapshot handle_ack pending_for forget
    note_gap count_gap decide_resync accept_event after_event bound_items apply_snapshot base_for
    valid_devices add_names dedupe_by dedupe_from parse_envelope envelope_with envelope_of
    snapshot_of event_of event_kind apply_event dispatch on_user_prompt seal_open_assistant
    trim_items decimal lookup insert remove text_eq hello_for
what_happened = (refl, refl, refl, refl, refl)

settled_at_most_once_example :
    settle_count
      (codes "a")
      (run (new_client (codes "ws://h") AuthMode.hello none (some 10)) history).effects
    ≤ issued_in (codes "a") history
settled_at_most_once_example =
    settled_at_most_once (codes "ws://h") AuthMode.hello none (some 10) history (codes "a")

run-new_client-IsReplayed_example :
    IsReplayed (run (new_client (codes "ws://h") AuthMode.hello none (some 10)) history)
run-new_client-IsReplayed_example =
    run-new_client-IsReplayed (codes "ws://h") AuthMode.hello none (some 10) history

run-new_client-IsPresentable_example :
    let c = run (new_client (codes "ws://h") AuthMode.hello none (some 10)) history in
    IsPresentable c.max_items c.session
run-new_client-IsPresentable_example =
    run-new_client-IsPresentable (codes "ws://h") AuthMode.hello none (some 10) history

abbrev fresh : Client
unfolding new_client
fresh = new_client (codes "ws://h") AuthMode.hello none (some 10)

abbrev seed : SnapshotPayload
seed = record {
  session_id = str (codes "s");
  status = null;
  mode = null;
  last_seq = num (Number.finite 9);
  pending_permissions = null;
  pending_questions = null;
  devices = null;
}

third_gap_starts_afresh_example :
    let d = gap_round browser 5 seed (gap_round browser 5 seed fresh) in
    let e = timer_fired browser (note_gap browser (Number.finite 5) d) in
    (e.session ≡ new_session_state) × ((hello_for e).last_seq ≡ 0)
unfolding fresh
third_gap_starts_afresh_example =
    third_gap_starts_afresh 5 browser browser browser seed seed fresh refl refl

abbrev elsewhere : Client
unfolding fresh
elsewhere = record fresh { session = record new_session_state { session_id = str (codes "t") } }

handle_snapshot-IsOrphaned_example : IsOrphaned elsewhere (handle_snapshot browser seed elsewhere)
unfolding elsewhere text_eq
handle_snapshot-IsOrphaned_example = handle_snapshot-IsOrphaned browser seed elsewhere refl

-- A client that was closed, and then meets the end of its socket, a late event and its timer.
abbrev closed_client : Client
unfolding fresh
closed_client = record fresh { closed_by_user = true; socket = some 0 }

abbrev aftermath : List (World × Step)
aftermath =
    (browser, closed 0 (some 1006))
    ∷ (browser, received 0 (some (prompt_event 7)))
    ∷ (browser, fired)
    ∷ []

abbrev queued_body : CommandPayload
queued_body = record {
  id = codes "a";
  idempotency_key = codes "a";
  kind = CommandKind.interrupt;
  payload = obj end;
}

-- A client that has caught up, is connected again, and has a command queued.
abbrev reconnected : Client
unfolding fresh
reconnected = record fresh {
  socket = some 1;
  outbox = (codes "a", queued_body) ∷ [];
  pending = (codes "a", false) ∷ [];
  session = record new_session_state { session_id = str (codes "s"); last_seq = 9 };
}

handle_snapshot-sends_example :
    Emits
      (send 1 (command queued_body))
      reconnected.effects
      (handle_snapshot browser seed reconnected).effects
unfolding reconnected apply_snapshot base_for lookup text_eq
handle_snapshot-sends_example =
    handle_snapshot-sends browser seed reconnected 1 (codes "a") queued_body refl refl refl
      (omega arith) refl
