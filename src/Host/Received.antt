-- ===== src/Host/Received.antt =====
-- What a client makes of the host's messages: types.go against `parseEnvelope` and `handleEnvelope`.
use msclaude_connector.Prelude.{ℕ, ◌≡◌, refl, some, text_eq, if◌then◌else◌}
use msclaude_connector.Value.{Number}
use msclaude_connector.Wire.{parse_envelope, envelope_with, envelope_of, snapshot_of}
use msclaude_connector.Client.{Client, World}
use msclaude_connector.Client.Commands.{handle_ack, handle_error}
use msclaude_connector.Client.Messages.{
  handle_snapshot, handle_event_at, handle_event, handle_envelope,
}
use msclaude_connector.Client.Sockets.{on_message, is_detached}
use msclaude_connector.Host.{
  Frame, snapshot, event, ack, error, paired, frame_value, snapshot_fields, event_fields,
}

-- The handler that the message of a frame reaches.
unfoldable pub handle_frame : World → Frame → Client → Client
handle_frame w (snapshot s) c = handle_snapshot w (snapshot_of (snapshot_fields s)) c
handle_frame w (event ev) c = handle_event_at w (Number.finite ev.seq) (event_fields ev) c
handle_frame w (ack fs) c = handle_ack fs c
handle_frame w (error fs) c = handle_error fs c
handle_frame w (paired fs) c = c

-- Each message of the host is parsed and handled by the handler for its type, with the fields that
-- the host has written, unless the socket is detached, where it is ignored.
pub on_message-frame_value :
    (w : World) (s : ℕ) (f : Frame) (c : Client)
    → on_message w s (some (frame_value f)) c ≡ (if is_detached s c then c else handle_frame w f c)
unfolding on_message frame_value parse_envelope envelope_with envelope_of handle_envelope
    handle_event handle_frame text_eq
on_message-frame_value w s (snapshot snap) c = refl
on_message-frame_value w s (event ev) c = refl
on_message-frame_value w s (ack fs) c = refl
on_message-frame_value w s (error fs) c = refl
on_message-frame_value w s (paired fs) c = refl
