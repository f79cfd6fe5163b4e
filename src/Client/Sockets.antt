-- ===== src/Client/Sockets.antt =====
-- client.ts: the handlers that `attachNormal` sets on a socket, and all that can happen to a client
-- as one type of steps.
use msclaude_connector.Prelude.{
  ℕ, Bool, true, false, ◌||◌, List, [], ◌∷◌, Option, none, some, Text, ◌==◌, any, if◌then◌else◌,
}
use msclaude_connector.Value.{Value, Number, str, or_value}
use msclaude_connector.Wire.{CommandKind, HelloPayload, parse_envelope}
use msclaude_connector.Client.{Client, World, AuthMode, ConnPhase, HarnessIdentity, Message, send}
use msclaude_connector.Client.Notify.{set_phase}
use msclaude_connector.Client.Reconnect.{
  emit, schedule_reconnect, timer_fired, connect, close, reset, set_identity, set_last_seq,
}
use msclaude_connector.Client.Commands.{send_command}
use msclaude_connector.Client.Messages.{handle_envelope}

-- The `hello` that opens a connection: the credential goes along in hello mode only.
unfoldable pub hello_for : Client → HelloPayload
hello_for c = elim c.identity [
  | none ↦ record {
    device_id = str [];
    last_seq = c.session.last_seq;
    pairing_token = none;
    credential = none;
  }
  | some identity ↦ record {
    device_id = or_value identity.device_id (str []);
    last_seq = c.session.last_seq;
    pairing_token = none;
    credential = elim c.auth_mode [
      | AuthMode.hello ↦ some identity.credential
      | AuthMode.header ↦ none
    ];
  }
]

-- `socket.onopen`: `detachAndClose` leaves it on.
unfoldable pub on_open : ℕ → Client → Client
unfolding hello_for
on_open s c = emit (send s (Message.hello (hello_for c))) c

abbrev pub is_detached : ℕ → Client → Bool
is_detached s c = any (λ d. d == s) c.detached

-- `socket.onmessage`, with what `JSON.parse` makes of the text; `none` where it throws.
unfoldable pub on_message : World → ℕ → Option Value → Client → Client
on_message w s none c = c
on_message w s (some value) c =
    if is_detached s c
    then c
    else elim (parse_envelope value) [ none ↦ c | some env ↦ handle_envelope w env c ]

abbrev pub is_policy_close : Option ℕ → Bool
is_policy_close none = false
is_policy_close (some code) = code == 1008 || code == 4001

abbrev pub has_given_up : ConnPhase → Bool
has_given_up ConnPhase.unauthorized = true
has_given_up ConnPhase.error = true
has_given_up _ = false

-- `socket.onclose`
unfoldable pub on_close : World → ℕ → Option ℕ → Client → Client
on_close w s code c =
    if is_detached s c || c.closed_by_user
    then c
    else if is_policy_close code
    then set_phase ConnPhase.unauthorized c
    else if has_given_up c.phase
    then c
    else schedule_reconnect w c

-- What can happen, with the platform's answers: the methods, the socket handlers and the timer.
pub data Step : Type 0 where
  connects : Option HarnessIdentity → Step
  closes resets : Step
  identifies : Option HarnessIdentity → Step
  restores : Number → Step
  commands : Text → CommandKind → Value → Step
  opened : ℕ → Step
  received : ℕ → Option Value → Step
  closed : ℕ → Option ℕ → Step
  fired : Step

unfoldable pub step : World → Step → Client → Client
step w (connects identity) c = connect w identity c
step w closes c = close c
step w resets c = reset c
step w (identifies identity) c = set_identity identity c
step w (restores seq) c = set_last_seq seq c
step w (commands id kind payload) c = (send_command w id kind payload c).0
step w (opened s) c = on_open s c
step w (received s value) c = on_message w s value c
step w (closed s code) c = on_close w s code c
step w fired c = timer_fired w c

-- A history: steps, each with the platform's answers during it.
unfoldable pub run : Client → List (World × Step) → Client
run c [] = c
run c ((w, s) ∷ rest) = run (step w s c) rest
