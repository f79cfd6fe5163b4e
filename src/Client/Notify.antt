-- ===== src/Client/Notify.antt =====
-- `buildState`, `notify` and `setPhase` of client.ts, and the constructor.
use msclaude_connector.Prelude.{
  ℕ, ◌-◌, false, [], ◌∷◌, ◌++◌, Option, none, some, Text, ltb, if◌then◌else◌,
}
use msclaude_connector.Value.{Value, null, or_value}
use msclaude_connector.Session.{SessionState, new_session_state}
use msclaude_connector.Client.{
  Client, ClientState, ConnPhase, HarnessIdentity, AuthMode, Progress, notify,
}

unfoldable pub syncing_of : SessionState → ℕ → Option Progress
syncing_of session sync_base =
    if ltb session.last_seq session.tip_seq
    then some
        (record { applied = session.last_seq - sync_base; total = session.tip_seq - sync_base })
    else none

-- `identity?.deviceId ?? null`
abbrev pub device_id_of : Option HarnessIdentity → Value
device_id_of none = null
device_id_of (some identity) = or_value identity.device_id null

-- `buildState`; `Math.max(0, a - b)` is the subtraction that stops at 0.
unfoldable pub build_state : Client → ClientState
unfolding syncing_of
build_state c = record {
  phase = c.phase;
  session = c.session;
  my_device_id = device_id_of c.identity;
  retry_attempt = c.retry_attempt;
  retry_in_ms = c.retry_in_ms;
  syncing = syncing_of c.session c.sync_base;
  error = c.error;
}

-- `notify`
unfoldable pub publish : Client → Client
unfolding build_state
publish c = record c { current = build_state c; effects = c.effects ++ notify ∷ [] }

-- `setPhase`
unfoldable pub set_phase : ConnPhase → Client → Client
unfolding publish
set_phase phase c = publish (record c { phase = phase })

abbrev first_state : Option HarnessIdentity → ClientState
first_state identity = record {
  phase = ConnPhase.idle;
  session = new_session_state;
  my_device_id = device_id_of identity;
  retry_attempt = 0;
  retry_in_ms = none;
  syncing = none;
  error = none;
}

-- `new HarnessClient({ url, authMode, identity, maxItems })`
unfoldable pub new_client : Text → AuthMode → Option HarnessIdentity → Option ℕ → Client
new_client url auth_mode identity max_items = record {
  url = url;
  auth_mode = auth_mode;
  identity = identity;
  socket = none;
  max_items = max_items;
  session = new_session_state;
  phase = ConnPhase.idle;
  error = none;
  retry_attempt = 0;
  retry_in_ms = none;
  reconnect_timer = none;
  sync_base = 0;
  gap_seq = none;
  gap_count = 0;
  full_resync = false;
  closed_by_user = false;
  outbox = [];
  pending = [];
  current = first_state identity;
  sockets = 0;
  timers = 0;
  detached = [];
  effects = [];
}
