-- ===== src/Client.antt =====
-- clients/packages/harness-protocol/src/client.ts: the state of `HarnessClient`. The operations are
-- in the modules below.
-- Sockets and timers are numbered in the order in which they are created. What a method does to the
-- platform is appended to `effects`, oldest first; `detached` lists the sockets whose close, error
-- and message handlers were taken off.
mod Tests
pub mod Dials
pub mod Backoff
pub mod Notify
pub mod Reconnect
pub mod Commands
pub mod Messages
pub mod Sockets
pub mod Frame
pub mod Queues
pub mod Promises
pub mod Live
pub mod Resync
pub mod Orphans
pub mod Silence
pub mod Resend
pub mod Setup
pub mod Dropped
pub mod Received
pub mod Sessions
pub mod Listeners
pub mod Pair
pub mod Replay
pub mod Outbox
use msclaude_connector.Prelude.{ℕ, Bool, List, [], Option, none, Text}
use msclaude_connector.Prelude.Maps.{Map}
use msclaude_connector.Value.{Value, Fields, Number}
use msclaude_connector.Wire.{HelloPayload, CommandPayload}
use msclaude_connector.Session.{SessionState}

pub data AuthMode : Type 0 where
  hello header : AuthMode

pub data ConnPhase : Type 0 where
  idle connecting pairing syncing live reconnecting unauthorized error : ConnPhase

-- Only `url` has been checked, when an identity comes from a store or from the host.
pub record HarnessIdentity : Type 0 where
  pub device_id : Value
  pub credential : Value
  pub url : Text
  pub spki : Value
  pub name : Value

-- `{ code, message }` of a failure; the fields of a received error are unchecked.
pub record ClientError : Type 0 where
  pub code : Value
  pub message : Value

-- Catching up: events applied, of those to apply.
pub record Progress : Type 0 where
  pub applied : ℕ
  pub total : ℕ

pub record ClientState : Type 0 where
  pub phase : ConnPhase
  pub session : SessionState
  pub my_device_id : Value
  pub retry_attempt : ℕ
  pub retry_in_ms : Option ℕ
  pub syncing : Option Progress
  pub error : Option ClientError

-- The body of an envelope that the client sends.
pub data Message : Type 0 where
  hello : HelloPayload → Message
  command : CommandPayload → Message

pub data Effect : Type 0 where
  -- `createSocket(url, headers)`, also where it throws
  create_socket : Text → Map Text → Effect
  send : ℕ → Message → Effect
  -- `close(code, reason)`
  close_socket : ℕ → ℕ → Value → Effect
  set_timer : ℕ → ℕ → Effect
  clear_timer : ℕ → Effect
  -- the promise of a command is resolved with its ack, or rejected with `${code}: ${message}`
  resolve : Text → Fields → Effect
  reject : Text → ClientError → Effect
  -- the listeners are called
  notify : Effect

-- What the platform answers during one step: the platform's `TextEncoder`, which sockets are open
-- (`readyState === 1`), the error that `createSocket` throws (if it does), and `random()`, as the
-- fraction `random_num / random_den`.
pub record World : Type 0 where
  pub has_encoder : Bool
  pub is_open : ℕ → Bool
  pub create_failure : Option Text
  pub random_num : ℕ
  pub random_den : ℕ

pub record Client : Type 0 where
  pub url : Text
  pub auth_mode : AuthMode
  pub identity : Option HarnessIdentity
  pub socket : Option ℕ
  pub max_items : Option ℕ
  pub session : SessionState
  pub phase : ConnPhase
  pub error : Option ClientError
  pub retry_attempt : ℕ
  pub retry_in_ms : Option ℕ
  pub reconnect_timer : Option ℕ
  pub sync_base : ℕ
  pub gap_seq : Option Number
  pub gap_count : ℕ
  pub full_resync : Bool
  pub closed_by_user : Bool
  pub outbox : Map CommandPayload
  -- the flag `settled` of each command that waits for its ack
  pub pending : Map Bool
  pub current : ClientState
  pub sockets : ℕ
  pub timers : ℕ
  pub detached : List ℕ
  pub effects : List Effect
