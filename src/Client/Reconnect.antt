-- ===== src/Client/Reconnect.antt =====
-- client.ts: opening a socket, scheduling a reconnect, dropping a socket, and the lifecycle methods
-- `connect`, `close`, `reset`, `setIdentity`, `setLastSeq`.
use msclaude_connector.Prelude.{
  ℕ, ◌+◌, true, false, [], ◌∷◌, ◌++◌, Option, none, some, Text, codes, leb, if◌then◌else◌,
}
use msclaude_connector.Prelude.Maps.{Map}
use msclaude_connector.Value.{Value, Number, str, null, same_value}
use msclaude_connector.Value.Template.{to_text}
use msclaude_connector.Session.{new_session_state}
use msclaude_connector.Client.{
  Client, World, Effect, HarnessIdentity, AuthMode, ConnPhase, create_socket, close_socket,
  set_timer, clear_timer,
}
use msclaude_connector.Client.Backoff.{compute_backoff}
use msclaude_connector.Client.Notify.{publish, set_phase}

abbrev pub emit : Effect → Client → Client
emit e c = record c { effects = c.effects ++ e ∷ [] }

abbrev pub clear_if_set : Option ℕ → Client → Client
clear_if_set none c = c
clear_if_set (some t) c = emit (clear_timer t) c

-- `this.reconnectTimer = this.setTimer(…, delay)`
unfoldable pub start_timer : ℕ → Client → Client
start_timer delay c =
    emit (set_timer c.timers delay)
      (record c { reconnect_timer = some c.timers; timers = c.timers + 1 })

-- `scheduleReconnect`
unfoldable pub schedule_reconnect : World → Client → Client
unfolding start_timer
schedule_reconnect w c =
    let delay = compute_backoff w c.retry_attempt in
    let c' =
      set_phase ConnPhase.reconnecting
        (record c { retry_attempt = c.retry_attempt + 1; retry_in_ms = some delay }) in
    if c.closed_by_user then c else start_timer delay (clear_if_set c'.reconnect_timer c')

-- `Authorization: Bearer …`, in header mode with an identity
abbrev pub headers_for : AuthMode → Option HarnessIdentity → Map Text
headers_for AuthMode.header (some identity) =
    (codes "Authorization", codes "Bearer " ++ to_text identity.credential) ∷ []
headers_for _ _ = []

-- A full resync, where one is due, starts from an empty session.
unfoldable pub resync : Client → Client
resync c =
    if c.full_resync then record c { session = new_session_state; full_resync = false } else c

abbrev pub socket_failure : Text → Client → Client
socket_failure message c = record c {
  error = some (record { code = str (codes "socket_error"); message = str message });
}

-- The `try` around `createSocket`: on success the handlers of `attachNormal` go on.
unfoldable pub create_normal_socket : World → Client → Client
create_normal_socket w c =
    let c' = emit (create_socket c.url (headers_for c.auth_mode c.identity)) c in
    elim w.create_failure [
      | some message ↦ schedule_reconnect w (socket_failure message c')
      | none ↦ record c' { socket = some c'.sockets; sockets = c'.sockets + 1 }
    ]

-- `openNormalSocket`
unfoldable pub open_normal_socket : World → Client → Client
unfolding resync create_normal_socket
open_normal_socket w c =
    let phase =
      if same_value c.session.session_id null
      then ConnPhase.connecting
      else ConnPhase.reconnecting in
    create_normal_socket w (resync (set_phase phase c))

-- The callback of the timer.
unfoldable pub timer_fired : World → Client → Client
timer_fired w c =
    let c' = record c { reconnect_timer = none; retry_in_ms = none } in
    if c'.closed_by_user then c' else open_normal_socket w c'

-- `detachAndClose`; an error that `close` throws is swallowed.
unfoldable pub detach_and_close : ℕ → Value → Client → Client
detach_and_close code reason c = elim c.socket [
  | none ↦ record c { socket = none }
  | some s ↦
      emit (close_socket s code reason) (record c { socket = none; detached = s ∷ c.detached })
]

unfoldable pub stop_timer : Client → Client
stop_timer c = elim c.reconnect_timer [
  | none ↦ c
  | some t ↦ emit (clear_timer t) (record c { reconnect_timer = none })
]

abbrev pub with_identity : Option HarnessIdentity → Client → Client
with_identity none c = c
with_identity (some identity) c = record c { identity = some identity }

-- A connection asked for by the user starts with no retries and no gap streak.
abbrev pub restarted : Option HarnessIdentity → Client → Client
restarted identity c = record (with_identity identity c) {
  closed_by_user = false;
  gap_count = 0;
  retry_attempt = 0;
  retry_in_ms = none;
}

-- `connect`
unfoldable pub connect : World → Option HarnessIdentity → Client → Client
unfolding stop_timer
connect w identity c = open_normal_socket w (stop_timer (restarted identity c))

abbrev pub close_if_set : Option ℕ → Client → Client
close_if_set none c = c
close_if_set (some s) c = emit (close_socket s 1000 (str (codes "client closing"))) c

-- `close`: the handlers of the socket stay on.
unfoldable pub close : Client → Client
unfolding stop_timer
close c =
    let c' = stop_timer (record c { closed_by_user = true }) in
    set_phase ConnPhase.idle (record (close_if_set c'.socket c') { socket = none })

-- `reset`
unfoldable pub reset : Client → Client
reset c = record c {
  closed_by_user = false;
  session = new_session_state;
  error = none;
  gap_count = 0;
  gap_seq = none;
  full_resync = false;
}

-- `setIdentity`
unfoldable pub set_identity : Option HarnessIdentity → Client → Client
set_identity identity c = publish (record c { identity = identity })

abbrev pub with_last_seq : ℕ → Client → Client
with_last_seq seq c = record c { session = record c.session { last_seq = seq } }

-- `setLastSeq`
unfoldable pub set_last_seq : Number → Client → Client
set_last_seq Number.infinite c = c
set_last_seq (Number.finite seq) c =
    if leb seq c.session.last_seq then c else publish (with_last_seq seq c)
