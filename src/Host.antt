-- ===== src/Host.antt =====
-- internal/store/store.go, internal/protocol/types.go and internal/hub/hub.go: the part of the host
-- that a client sees: the event log of the session and the messages that are made from it.
-- Of the database, the rows of the one session that the hub serves are kept; `int64` numbers are
-- natural numbers. `encoding/json` decodes the body of an event (`Unmarshal`).
mod Tests
pub mod Log
pub mod Received
pub mod System
pub mod Shown
pub mod Shows
pub mod Follows
pub mod Place
pub mod CatchUp
pub mod Agree
pub mod Commands
pub mod Adapter
use msclaude_connector.Prelude.{
  ℕ, suc, Bool, List, [], ◌∷◌, ◌++◌, Option, none, some, map, Text, codes, text_eq, is_empty, ltb,
  leb, length, get_last?, take, keep, if◌then◌else◌, or_else,
}
use msclaude_connector.Value.{Value, Fields, Number, end, field, str, num, obj}

-- `json.Unmarshal` of a payload into a `StatusChangeBody` and into a `ModeChangedBody`: the field of
-- the body, and `none` where it returns an error and leaves the field empty.
pub record Unmarshal : Type 0 where
  pub status : Value → Option Text
  pub mode : Value → Option Text

-- A row of `events`, as the `EventPayload` that it is read into. The payload is the value that the
-- stored JSON stands for.
pub record StoredEvent : Type 0 where
  pub seq : ℕ
  pub ts : ℕ
  pub kind : Text
  pub payload : Value

-- The session's row of `sessions`, and its rows of `events` in the order of their numbers.
pub record Store : Type 0 where
  pub session_id : Text
  pub status : Text
  pub last_seq : ℕ
  pub events : List StoredEvent

-- `sessions.status` after an event.
abbrev pub status_after : Unmarshal → Text → Value → Text → Text
status_after u kind payload status =
    if text_eq kind (codes "status_change") then or_else (u.status payload) status else status

-- `AppendEvent` at the time `ts`; a transaction that does not commit changes nothing.
unfoldable pub append_event :
    Unmarshal → (commits : Bool) → ℕ → Text → Value → Store → Store × Option StoredEvent
append_event u commits ts kind payload st =
    let ev : StoredEvent = record {
      seq = suc st.last_seq;
      ts = ts;
      kind = kind;
      payload = payload;
    } in
    if commits
    then (
      record st {
        status = status_after u kind payload st.status;
        last_seq = ev.seq;
        events = st.events ++ ev ∷ [];
      },
      some ev,
    )
    else (st, none)

-- `GetEventsSince`: a limit of 0 is none.
unfoldable pub get_events_since : ℕ → ℕ → Store → List StoredEvent
get_events_since since_seq limit st =
    let later = keep (λ (ev : StoredEvent). ltb since_seq ev.seq) st.events in
    if ltb 0 limit then take limit later else later

-- `Snapshot`, with what the hub adds to it. The lists are values: their JSON, `undefined` where it is
-- left out.
pub record Snapshot : Type 0 where
  pub session_id : Text
  pub status : Text
  pub mode : Text
  pub last_seq : ℕ
  pub pending_permissions : Value
  pub pending_questions : Value
  pub devices : Value

-- The loop of `GetSnapshot` on the fields that are single values.
unfoldable pub fold_events : Unmarshal → List StoredEvent → Snapshot → Snapshot
fold_events u [] snap = snap
fold_events u (ev ∷ evs) snap =
    let snap' : Snapshot = record snap {
      last_seq = ev.seq;
      status =
          if text_eq ev.kind (codes "status_change")
          then or_else (u.status ev.payload) []
          else snap.status;
      mode =
          if text_eq ev.kind (codes "mode_changed")
          then or_else (u.mode ev.payload) []
          else snap.mode;
    } in
    fold_events u evs snap'

-- `GetSnapshot` and `snapshotToPayload`. The pending lists, which the host reads from maps in no
-- fixed order, and the devices are arguments.
unfoldable pub get_snapshot : Unmarshal → (permissions questions devices : Value) → Store → Snapshot
unfolding fold_events
get_snapshot u permissions questions devices st = fold_events u st.events (record {
  session_id = st.session_id;
  status = st.status;
  mode = [];
  last_seq = st.last_seq;
  pending_permissions = permissions;
  pending_questions = questions;
  devices = devices;
})

-- `Envelope`, by its `type`: the messages that the hub sends.
pub data Frame : Type 0 where
  snapshot : Snapshot → Frame
  event : StoredEvent → Frame
  -- the JSON of an `AckPayload`, of an `ErrorPayload`, of a `PairedPayload`
  ack : Fields → Frame
  error : Fields → Frame
  paired : Fields → Frame

-- `omitempty`
abbrev pub text_field : Text → Value
text_field [] = Value.undefined
text_field (c ∷ cs) = str (c ∷ cs)

-- The JSON of a `SnapshotPayload`; a field that is left out reads as `undefined`.
abbrev pub snapshot_fields : Snapshot → Fields
snapshot_fields s = field "sessionId" (str s.session_id) (
    field "status" (str s.status) (
      field "mode" (text_field s.mode) (
        field "lastSeq" (num (Number.finite s.last_seq)) (
          field "pendingPermissions" s.pending_permissions
            (field "pendingQuestions" s.pending_questions (field "devices" s.devices end))))))

-- The JSON of an `EventPayload`.
abbrev pub event_fields : StoredEvent → Fields
event_fields ev = field "seq" (num (Number.finite ev.seq)) (
    field "ts" (num (Number.finite ev.ts))
      (field "kind" (str ev.kind) (field "payload" ev.payload end)))

-- The value of the text that is sent, as `JSON.parse` gives it to the client.
unfoldable pub frame_value : Frame → Value
frame_value f = obj (
    field "v" (num (Number.finite 1)) (elim f [
      | snapshot s ↦
          field "type" (str (codes "snapshot")) (field "snapshot" (obj (snapshot_fields s)) end)
      | event ev ↦ field "type" (str (codes "event")) (field "event" (obj (event_fields ev)) end)
      | ack fs ↦ field "type" (str (codes "ack")) (field "ack" (obj fs) end)
      | error fs ↦ field "type" (str (codes "error")) (field "error" (obj fs) end)
      | paired fs ↦ field "type" (str (codes "paired")) (field "paired" (obj fs) end)
    ]))

-- What `serveAuthenticated` puts into the queue of a client that has said `hello`: a snapshot, then
-- the events after the number of the `hello`.
unfoldable pub hello_frames : ℕ → Snapshot → Store → List Frame
unfolding get_events_since
hello_frames last_seq snap st = snapshot snap ∷ map event (get_events_since last_seq 0 st)
