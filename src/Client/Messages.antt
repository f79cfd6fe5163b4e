-- ===== src/Client/Messages.antt =====
-- client.ts: what a client does with a message: `handleEnvelope` and the handlers of snapshots and
-- events, with the check that the sequence numbers have no gap.
use msclaude_connector.Prelude.{
  ℕ, ◌+◌, Bool, true, false, [], Option, none, some, codes, text_eq, ltb, leb, length,
  if◌then◌else◌,
}
use msclaude_connector.Value.{Value, Fields, Number, num, str, get, same_number}
use msclaude_connector.Wire.{Envelope, EventPayload, SnapshotPayload, event_of, snapshot_of}
use msclaude_connector.Session.{SessionState}
use msclaude_connector.Session.Stream.{trim_items}
use msclaude_connector.Session.Events.{apply_event}
use msclaude_connector.Session.Snapshot.{apply_snapshot, is_other_session}
use msclaude_connector.Client.{Client, World, ConnPhase}
use msclaude_connector.Client.Notify.{publish, set_phase}
use msclaude_connector.Client.Reconnect.{schedule_reconnect, detach_and_close}
use msclaude_connector.Client.Commands.{flush_outbox, handle_ack, handle_error, is_live}

-- The outbox after a snapshot.
abbrev pub clear_outbox_if : Bool → Client → Client
clear_outbox_if true c = record c { outbox = [] }
clear_outbox_if false c = c

-- `handleSnapshot`
unfoldable pub handle_snapshot : World → SnapshotPayload → Client → Client
handle_snapshot w snap c =
    let session = apply_snapshot c.session snap in
    let c' =
      clear_outbox_if (is_other_session c.session.session_id snap.session_id)
        (record c { session = session; sync_base = session.last_seq; retry_attempt = 0 }) in
    if leb session.tip_seq session.last_seq
    then flush_outbox w (set_phase ConnPhase.live c')
    else set_phase ConnPhase.syncing c'

abbrev pub same_gap : Option Number → Number → Bool
same_gap none seq = false
same_gap (some gap) seq = same_number gap seq

-- The gap streak after a gap at `seq`.
unfoldable pub count_gap : Number → Client → Client
count_gap seq c =
    if same_gap c.gap_seq seq
    then record c { gap_count = c.gap_count + 1 }
    else record c { gap_seq = some seq; gap_count = 1 }

-- Three gaps in a row at one `seq` make the next connection a full resync.
unfoldable pub decide_resync : Client → Client
decide_resync c =
    if leb 3 c.gap_count then record c { full_resync = true; gap_count = 0; gap_seq = none } else c

-- `noteGap`
unfoldable pub note_gap : World → Number → Client → Client
unfolding count_gap decide_resync
note_gap w seq c =
    let c' = detach_and_close 1011 (str (codes "seq gap")) (decide_resync (count_gap seq c)) in
    if c'.closed_by_user then c' else schedule_reconnect w c'

-- The bound on the items, where the client has one.
unfoldable pub bound_items : Option ℕ → SessionState → SessionState
bound_items none session = session
bound_items (some max) session =
    if ltb max (length session.items)
    then record session { items = trim_items session.items max }
    else session

-- After an event: a client that has caught up goes live and sends its outbox.
unfoldable pub after_event : World → Client → Client
after_event w c =
    if leb c.session.tip_seq c.session.last_seq
    then if is_live c.phase then publish c else flush_outbox w (set_phase ConnPhase.live c)
    else publish c

-- `handleEvent`, for the event that is next in the sequence.
unfoldable pub accept_event : World → EventPayload → Client → Client
unfolding bound_items after_event
accept_event w ev c = after_event w (record c {
  session = bound_items c.max_items (apply_event w.has_encoder c.session ev);
  gap_seq = none;
  gap_count = 0;
})

-- `typeof ev.seq === 'number' ? ev.seq : 0`
abbrev pub seq_of : Value → Number
seq_of (num n) = n
seq_of _ = Number.finite 0

unfoldable pub handle_event_at : World → Number → Fields → Client → Client
handle_event_at w Number.infinite ev c = note_gap w Number.infinite c
handle_event_at w (Number.finite seq) ev c =
    if leb seq c.session.last_seq
    then c
    else if ltb (c.session.last_seq + 1) seq
    then note_gap w (Number.finite seq) c
    else accept_event w (event_of seq ev) c

-- `handleEvent`
unfoldable pub handle_event : World → Fields → Client → Client
unfolding handle_event_at
handle_event w ev c = handle_event_at w (seq_of (get "seq" ev)) ev c

abbrev pub with_part : Option Fields → (Fields → Client → Client) → Client → Client
with_part none handler c = c
with_part (some part) handler c = handler part c

-- `handleEnvelope`
unfoldable pub handle_envelope : World → Envelope → Client → Client
handle_envelope w env c =
    if text_eq env.type (codes "snapshot")
    then with_part env.snapshot (λ snap. handle_snapshot w (snapshot_of snap)) c
    else if text_eq env.type (codes "event")
    then with_part env.event (handle_event w) c
    else if text_eq env.type (codes "ack")
    then with_part env.ack handle_ack c
    else if text_eq env.type (codes "error")
    then with_part env.error handle_error c
    else c
