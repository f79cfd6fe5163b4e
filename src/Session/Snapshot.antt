-- ===== src/Session/Snapshot.antt =====
-- `applySnapshot` of reducer.ts: seeds the state from a snapshot, and starts a new one where the
-- snapshot is of another session.
use msclaude_connector.Prelude.{
  Bool, ◌&&◌, not, List, [], ◌∷◌, Option, none, some, Text, if◌then◌else◌,
}
use msclaude_connector.Prelude.Maps.{Map, insert}
use msclaude_connector.Value.{
  Value, obj, get, as_string, as_number, as_array, optional_string, null, same_value,
}
use msclaude_connector.Wire.{SnapshotPayload}
use msclaude_connector.Session.{SessionState, DeviceView, new_session_state}
use msclaude_connector.Session.Pending.{dedupe_by}

-- The filter on `devices`, with the two fields that it checks.
abbrev pub device_view : Value → Option DeviceView
device_view (obj fs) = elim (optional_string (get "deviceId" fs)) [
  | none ↦ none
  | some device_id ↦ elim (optional_string (get "name" fs)) [
    | none ↦ none
    | some name ↦ some (record { device_id = device_id; name = name })
  ]
]
device_view _ = none

unfoldable pub valid_devices : List Value → List DeviceView
valid_devices [] = []
valid_devices (v ∷ vs) =
    let rest = valid_devices vs in elim (device_view v) [ none ↦ rest | some d ↦ d ∷ rest ]

-- `for (const d of devices) deviceNames[d.deviceId] = d.name`
unfoldable pub add_names : List DeviceView → Map Text → Map Text
add_names [] names = names
add_names (d ∷ ds) names = add_names ds (insert d.device_id d.name names)

-- `state.sessionId !== null && snap.sessionId !== state.sessionId`
abbrev pub is_other_session : Value → Value → Bool
is_other_session current session_id =
    not (same_value current null) && not (same_value session_id current)

unfoldable pub base_for : SessionState → SnapshotPayload → SessionState
base_for state snap =
    if is_other_session state.session_id snap.session_id then new_session_state else state

unfoldable pub apply_snapshot : SessionState → SnapshotPayload → SessionState
unfolding base_for valid_devices add_names
apply_snapshot state snap =
    let base = base_for state snap in
    let devices = valid_devices (as_array snap.devices) in
    record base {
      session_id = snap.session_id;
      status = as_string snap.status base.status;
      mode = as_string snap.mode base.mode;
      tip_seq = as_number snap.last_seq 0;
      pending_permissions = dedupe_by "requestId" (as_array snap.pending_permissions);
      pending_questions = dedupe_by "questionId" (as_array snap.pending_questions);
      devices = devices;
      device_names = add_names devices base.device_names;
    }
