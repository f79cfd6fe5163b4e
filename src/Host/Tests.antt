-- ===== src/Host/Tests.antt =====
-- A session with its host and two clients, and the theorems on it.
use msclaude_connector.Prelude.{
  ◌≡◌, refl, sym, ◌∙◌, true, [], ◌∷◌, ◌++◌, none, some, arith, codes, map,
}
use msclaude_connector.Value.{Value, field, end, str, get, optional_string, undefined, obj}
use msclaude_connector.Session.Nameless.{nameless}
use msclaude_connector.Client.{World, AuthMode}
use msclaude_connector.Client.Notify.{new_client}
use msclaude_connector.Client.Sockets.{step, connects, received}
use msclaude_connector.Prelude.{text_eq}
use msclaude_connector.Wire.{parse_envelope, event_of, snapshot_of}
use msclaude_connector.Session.Events.{apply_event, on_user_prompt}
use msclaude_connector.Session.Snapshot.{apply_snapshot}
use msclaude_connector.Client.Commands.{flush_outbox}
use msclaude_connector.Client.Notify.{set_phase}
use msclaude_connector.Client.Reconnect.{connect, open_normal_socket}
use msclaude_connector.Client.Messages.{
  handle_envelope, handle_event, accept_event, handle_snapshot,
}
use msclaude_connector.Client.Sockets.{on_message}
use msclaude_connector.Host.{
  Snapshot, Unmarshal, snapshot, event, get_events_since, get_snapshot, frame_value, hello_frames,
  append_event,
}
use msclaude_connector.Host.System.{
  System, Reaches, appends, snapshots, replays, acts, delivers, starts, moves, new_store,
  append_and_broadcast,
}
use msclaude_connector.Host.Shows.{Shows}
use msclaude_connector.Host.Place.{deliver_all}
use msclaude_connector.Host.CatchUp.{IsUpToDate, hello_frames-IsUpToDate}
use msclaude_connector.Host.Agree.{Reaches-Shows, same_last_seq-same_items}

abbrev browser : World
browser = record {
  has_encoder = true;
  is_open = λ s. true;
  create_failure = none;
  random_num = 1;
  random_den = 2;
}

abbrev text_of : Value → Value
text_of (obj fs) = get "status" fs
text_of _ = undefined

abbrev decode : Unmarshal
decode = record { status = λ v. optional_string (text_of v); mode = λ v. none }

abbrev prompt : Value
prompt = obj (field "text" (str (codes "hi")) end)

abbrev begun : System
begun = record {
  store = new_store (codes "s");
  made = [];
  client = new_client (codes "u") AuthMode.hello none none;
}

abbrev prompted : System
prompted = append_and_broadcast decode true 7 (codes "user_prompt") prompt begun

abbrev connected : System
connected = record prompted { client = step browser (connects none) prompted.client }

abbrev connected_Reaches : Reaches decode true 0 none connected
connected_Reaches =
    moves
      (moves (starts (codes "s") (codes "u") AuthMode.hello none)
        (appends true 7 (codes "user_prompt") prompt))
      (acts browser (connects none) refl)

-- The event is broadcast to a client that has had no snapshot.
abbrev told : System
told = record connected {
  client =
      step browser
        (received 0 (
          some (
            frame_value
              (event (record { seq = 1; ts = 7; kind = codes "user_prompt"; payload = prompt })))))
        connected.client;
}

abbrev told_Reaches : Reaches decode true 0 none told
unfolding append_and_broadcast append_event
told_Reaches = moves connected_Reaches (delivers browser 0 0 _ refl refl)

abbrev snap : Snapshot
snap = get_snapshot decode undefined undefined undefined connected.store

-- Another client of the session has its event from the answer to its `hello`.
abbrev asked : System
asked = record connected {
  made = (connected.made ++ snapshot snap ∷ []) ++ map event (get_events_since 0 0 connected.store);
}

abbrev answered : System
answered = record asked {
  client =
      step browser
        (received 0 (
          some (
            frame_value
              (event (record { seq = 1; ts = 7; kind = codes "user_prompt"; payload = prompt })))))
        (step browser (received 0 (some (frame_value (snapshot snap)))) asked.client);
}

abbrev answered_Reaches : Reaches decode true 0 none answered
unfolding append_and_broadcast append_event get_events_since
answered_Reaches =
    moves
      (moves (moves (moves connected_Reaches (snapshots undefined undefined undefined)) (replays 0))
        (delivers browser 0 1 (snapshot snap) refl refl))
      (delivers browser 0 2 _ refl refl)

Reaches-Shows_example : Shows true none 0 answered.store answered.client.session
Reaches-Shows_example = Reaches-Shows decode true none 0 answered answered_Reaches

told_last : told.client.session.last_seq ≡ 1
unfolding step append_and_broadcast on_message connect open_normal_socket new_client set_phase
    parse_envelope frame_value handle_envelope text_eq handle_event accept_event apply_event
    event_of on_user_prompt flush_outbox
told_last = refl

answered_last : answered.client.session.last_seq ≡ 1
unfolding step append_and_broadcast on_message connect open_normal_socket new_client set_phase
    parse_envelope frame_value handle_envelope text_eq handle_event accept_event apply_event
    event_of on_user_prompt flush_outbox handle_snapshot apply_snapshot snapshot_of get_snapshot
answered_last = refl

same_last_seq-same_items_example :
    nameless told.client.session.items ≡ nameless answered.client.session.items
same_last_seq-same_items_example =
    same_last_seq-same_items decode true none told answered told_Reaches answered_Reaches refl
      (told_last ∙ sym answered_last)

hello_frames-IsUpToDate_example :
    IsUpToDate true none 0 connected.store
      (deliver_all browser 0 (hello_frames 0 snap connected.store) connected.client)
unfolding step connect open_normal_socket set_phase append_and_broadcast new_client get_snapshot
hello_frames-IsUpToDate_example =
    hello_frames-IsUpToDate decode true none 0 connected browser 0 snap connected_Reaches refl refl
      refl (omega arith)
