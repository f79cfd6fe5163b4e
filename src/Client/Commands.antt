-- ===== src/Client/Commands.antt =====
-- client.ts: the outbox of commands, which are sent when the client is live and settled by an ack
-- or an error.
use msclaude_connector.Prelude.{
  ℕ, zero, Bool, true, false, ◌&&◌, List, [], ◌∷◌, ◌++◌, Option, none, some, Text, leb, length,
  if◌then◌else◌,
}
use msclaude_connector.Prelude.Maps.{Map, lookup, insert, remove}
use msclaude_connector.Value.{
  Value, Fields, Number, undefined, null, bool, num, str, end, field, get,
}
use msclaude_connector.Wire.{CommandKind, CommandPayload, is_terminal}
use msclaude_connector.Client.{
  Client, ClientError, World, ConnPhase, Effect, command, send, resolve, reject,
}
use msclaude_connector.Client.Notify.{publish, set_phase}
use msclaude_connector.Client.Reconnect.{emit, detach_and_close}

-- `MAX_OUTBOX`
abbrev pub max_outbox : ℕ
max_outbox = 32

-- One `sendEnvelope` for each command of the outbox.
abbrev pub send_all : ℕ → Map CommandPayload → List Effect
send_all s [] = []
send_all s ((id, c) ∷ rest) = send s (command c) ∷ send_all s rest

abbrev pub is_live : ConnPhase → Bool
is_live ConnPhase.live = true
is_live _ = false

-- `flushOutbox`
unfoldable pub flush_outbox : World → Client → Client
flush_outbox w c = elim c.socket [
  | none ↦ c
  | some s ↦
      if is_live c.phase && w.is_open s
      then record c { effects = c.effects ++ send_all s c.outbox }
      else c
]

-- `sendCommand`, with the value of `uuid()` as `id`. The result is the promise that it returns: by
-- its id, or `none` for the one rejected at once with `offline_queue_full`.
unfoldable pub send_command : World → Text → CommandKind → Value → Client → Client × Option Text
send_command w id kind payload c =
    let body : CommandPayload = record {
      id = id;
      idempotency_key = id;
      kind = kind;
      payload = payload;
    } in
    if leb max_outbox (length c.outbox) then (c, none) else (
      flush_outbox w
          (record c { outbox = insert id body c.outbox; pending = insert id false c.pending }),
      some id,
    )

-- `pending.get(id)`, for an id that may be any value: the keys are strings.
unfoldable pub pending_for : Value → Client → Option Text
pending_for (str id) c = elim (lookup id c.pending) [
  | none ↦ none
  | some settled ↦ if settled then none else some id
]
pending_for _ c = none

-- Both maps forget the command.
unfoldable pub forget : Text → Client → Client
forget id c = record c { pending = remove id c.pending; outbox = remove id c.outbox }

-- `handleAck`
unfoldable pub handle_ack : Fields → Client → Client
unfolding pending_for forget
handle_ack ack c = elim (pending_for (get "commandId" ack) c) [
  | none ↦ c
  | some id ↦ emit (resolve id ack) (forget id c)
]

-- `!value`
abbrev pub is_falsy : Value → Bool
is_falsy undefined = true
is_falsy null = true
is_falsy (bool false) = true
is_falsy (num (Number.finite zero)) = true
is_falsy (str []) = true
is_falsy _ = false

abbrev pub error_of : Fields → ClientError
error_of err = record { code = get "code" err; message = get "message" err }

-- `handleError`
unfoldable pub handle_error : Fields → Client → Client
unfolding pending_for forget
handle_error err c =
    if is_falsy (get "commandId" err)
    then if is_terminal (get "code" err)
      then set_phase ConnPhase.unauthorized (
          detach_and_close 1008 (get "code" err)
            (record c { error = some (error_of err); closed_by_user = true }))
      else publish (record c { error = some (error_of err) })
    else elim (pending_for (get "commandId" err) c) [
      | none ↦ c
      | some id ↦ emit (reject id (error_of err)) (forget id c)
    ]

-- The bodies of `sendPrompt`, `answerPermission`, `answerQuestion`, `setMode` and `interrupt`.
abbrev pub prompt_body : Text → Value
prompt_body text = Value.obj (field "text" (str text) end)

abbrev pub mode_body : Text → Value
mode_body mode = Value.obj (field "mode" (str mode) end)

unfoldable pub send_prompt : World → Text → Text → Client → Client × Option Text
send_prompt w id text = send_command w id CommandKind.send_prompt (prompt_body text)

unfoldable pub answer_permission : World → Text → Fields → Client → Client × Option Text
answer_permission w id body = send_command w id CommandKind.answer_permission (Value.obj body)

unfoldable pub answer_question : World → Text → Fields → Client → Client × Option Text
answer_question w id body = send_command w id CommandKind.answer_question (Value.obj body)

unfoldable pub set_mode : World → Text → Text → Client → Client × Option Text
set_mode w id mode = send_command w id CommandKind.set_mode (mode_body mode)

unfoldable pub interrupt : World → Text → Client → Client × Option Text
interrupt w id = send_command w id CommandKind.interrupt (Value.obj end)
