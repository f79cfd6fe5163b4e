-- ===== src/Client/Pair.antt =====
-- client.ts: `pair`, with the socket of its own that each call opens and the promise that it returns.
-- A client that is pairing is a client and the calls of `pair` so far, oldest first. What follows the
-- `await` in `pair` runs before any other event, in the step that resolves the promise.
mod Tests
pub mod Moves
pub mod Invariants
pub mod Faults
pub mod Outcomes
pub mod Promises
use msclaude_connector.Prelude.{
  ℕ, ◌+◌, Bool, true, false, List, [], ◌∷◌, ◌++◌, Option, none, some, map, Text, codes, text_eq,
  is_empty, ◌==◌, if◌then◌else◌, or_else,
}
use msclaude_connector.Value.{Value, Fields, str, undefined, get}
use msclaude_connector.Value.Template.{to_text}
use msclaude_connector.Wire.{Envelope, HelloPayload, parse_envelope}
use msclaude_connector.Client.{
  Client, World, ConnPhase, HarnessIdentity, Message, create_socket, close_socket, send,
}
use msclaude_connector.Client.Notify.{set_phase}
use msclaude_connector.Client.Reconnect.{emit, connect}
use msclaude_connector.Client.Sockets.{Step, step, opened, received, closed}

-- Why the promise is rejected: what `createSocket` threw, the code and message that the host sent, or
-- the end of the socket.
pub data Reason : Type 0 where
  thrown answered : Text → Reason
  socket_error closed_early : Reason

pub data Outcome : Type 0 where
  resolved : HarnessIdentity → Outcome
  rejected : Reason → Outcome

-- One call of `pair`; `settled` is that there is an outcome.
pub record Attempt : Type 0 where
  pub socket : Option ℕ
  pub token : Text
  pub spki : Option Text
  pub outcome : Option Outcome

pub record Pairing : Type 0 where
  pub client : Client
  pub attempts : List Attempt

-- `pair`, up to the handlers on its socket.
unfoldable pub pair : World → Text → Option Text → Option Text → Pairing → Pairing
pair w token url spki p =
    let c = record p.client { url = or_else url p.client.url } in
    let c' = record (set_phase ConnPhase.pairing c) { error = none } in
    let asked = emit (create_socket c'.url []) c' in
    elim w.create_failure [
      | some message ↦ record {
        client = asked;
        attempts =
            p.attempts
            ++ record {
              socket = none;
              token = token;
              spki = spki;
              outcome = some (rejected (thrown message));
            }
              ∷ [];
      }
      | none ↦ record {
        client = record asked { sockets = asked.sockets + 1 };
        attempts =
            p.attempts
            ++ record { socket = some asked.sockets; token = token; spki = spki; outcome = none }
              ∷ [];
      }
    ]

abbrev pub is_on : ℕ → Attempt → Bool
is_on s a = elim a.socket [ none ↦ false | some t ↦ t == s ]

-- The attempt that owns the socket.
abbrev pub attempt_on : ℕ → List Attempt → Option Attempt
attempt_on s [] = none
attempt_on s (a ∷ rest) = if is_on s a then some a else attempt_on s rest

abbrev pub settle_attempt : Outcome → Attempt → Attempt
settle_attempt o a = elim a.outcome [ none ↦ record a { outcome = some o } | some o' ↦ a ]

abbrev pub settle_on : ℕ → Outcome → Attempt → Attempt
settle_on s o a = if is_on s a then settle_attempt o a else a

-- `finish`: only the first outcome counts.
unfoldable pub settle : ℕ → Outcome → List Attempt → List Attempt
settle s o = map (settle_on s o)

-- `socket.onopen`
unfoldable pub on_pair_open : ℕ → Attempt → Client → Client
on_pair_open s a c =
    emit
      (send s (
        Message.hello (record {
          device_id = str [];
          last_seq = 0;
          pairing_token = some a.token;
          credential = none;
        })))
      c

abbrev pub pin_of : Option Text → Value
pin_of none = undefined
pin_of (some spki) = if is_empty spki then undefined else str spki

-- The identity that the host issues, with the URL that the client has by then.
unfoldable pub issued_by : Attempt → Fields → Client → HarnessIdentity
issued_by a paired c = record {
  device_id = get "deviceId" paired;
  credential = get "credential" paired;
  name = get "name" paired;
  url = c.url;
  spki = pin_of a.spki;
}

-- The `paired` message, and the `connect` that follows it.
unfoldable pub on_paired : World → ℕ → HarnessIdentity → Client → Client
on_paired w s issued c =
    connect w (some issued)
      (record (emit (close_socket s 1000 (str (codes "paired"))) c) { identity = some issued })

-- `${code}: ${message}`
unfoldable pub refusal : Fields → Text
refusal err = to_text (get "code" err) ++ (codes ": " ++ to_text (get "message" err))

unfoldable pub resolve_pair : World → ℕ → Attempt → Fields → Pairing → Pairing
unfolding issued_by on_paired settle
resolve_pair w s a paired p =
    let issued = issued_by a paired p.client in
    elim a.outcome [
      | some o ↦ p
      | none ↦ record {
        client = on_paired w s issued p.client;
        attempts = settle s (resolved issued) p.attempts;
      }
    ]

unfoldable pub refuse_pair : ℕ → Attempt → Fields → Pairing → Pairing
unfolding refusal settle
refuse_pair s a err p = elim a.outcome [
  | some o ↦ p
  | none ↦ record {
    client = emit (close_socket s 1000 (str (codes "pairing failed"))) p.client;
    attempts = settle s (rejected (answered (refusal err))) p.attempts;
  }
]

unfoldable pub on_pair_envelope : World → ℕ → Attempt → Envelope → Pairing → Pairing
unfolding resolve_pair refuse_pair
on_pair_envelope w s a env p =
    let refused =
      if text_eq env.type (codes "error")
      then elim env.error [ none ↦ p | some err ↦ refuse_pair s a err p ]
      else p in
    if text_eq env.type (codes "paired")
    then elim env.paired [ none ↦ refused | some paired ↦ resolve_pair w s a paired p ]
    else refused

-- `socket.onmessage`, with what `JSON.parse` makes of the text.
unfoldable pub on_pair_message : World → ℕ → Attempt → Option Value → Pairing → Pairing
unfolding on_pair_envelope
on_pair_message w s a none p = p
on_pair_message w s a (some value) p = elim (parse_envelope value) [
  | none ↦ p
  | some env ↦ on_pair_envelope w s a env p
]

-- `socket.onerror` and `socket.onclose`
unfoldable pub on_pair_end : ℕ → Reason → Pairing → Pairing
unfolding settle
on_pair_end s reason p = record p { attempts = settle s (rejected reason) p.attempts }

-- What can happen: what can happen to a client, a call of `pair`, and an error of a socket.
pub data Event : Type 0 where
  acts : Step → Event
  pairs : Text → Option Text → Option Text → Event
  fails : ℕ → Event

abbrev pub client_step : World → Step → Pairing → Pairing
client_step w s p = record p { client = step w s p.client }

-- An event of a socket goes to the handlers of the attempt that owns it, if there is one.
abbrev pub by_owner : ℕ → (Attempt → Pairing → Pairing) → (Pairing → Pairing) → Pairing → Pairing
by_owner s pairing other p = elim (attempt_on s p.attempts) [
  | none ↦ other p
  | some a ↦ pairing a p
]

unfoldable pub socket_step : World → Step → Pairing → Pairing
unfolding on_pair_open on_pair_message on_pair_end
socket_step w (opened s) =
    by_owner s (λ a p. record p { client = on_pair_open s a p.client }) (client_step w (opened s))
socket_step w (received s value) =
    by_owner s (λ a. on_pair_message w s a value) (client_step w (received s value))
socket_step w (closed s code) =
    by_owner s (λ a. on_pair_end s closed_early) (client_step w (closed s code))
socket_step w other = client_step w other

unfoldable pub pair_step : World → Event → Pairing → Pairing
unfolding socket_step pair on_pair_end
pair_step w (acts s) p = socket_step w s p
pair_step w (pairs token url spki) p = pair w token url spki p
pair_step w (fails s) p = by_owner s (λ a. on_pair_end s socket_error) (λ q. q) p

unfoldable pub pair_run : Pairing → List (World × Event) → Pairing
pair_run p [] = p
pair_run p ((w, e) ∷ rest) = pair_run (pair_step w e p) rest
