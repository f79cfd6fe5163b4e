-- ===== src/Mobile/Tests.antt =====
-- `forgetDevice` of mobileClient.ts on a connected client.
use msclaude_connector.Prelude.{
  zero, suc, ◌≡◌, String, Bool, false, List, [], ◌∷◌, ◌++◌, Option, none, some, Text, codes,
  text_eq, text_eq_refl, length, take, drop, refl, ap, arith, if◌then◌else◌,
}
use msclaude_connector.Prelude.Decimal.{decimal, read, read-decimal}
use msclaude_connector.Prelude.Maps.{Map, lookup, insert, remove, lookup-insert, lookup-remove}
use msclaude_connector.Value.{Value, Fields, Number, str, obj, field, end, undefined, num}
use msclaude_connector.Client.{Client, World, AuthMode}
use msclaude_connector.Client.Notify.{new_client, set_phase}
use msclaude_connector.Client.Sockets.{on_close}
use msclaude_connector.Mobile.{forget_device}
use msclaude_connector.Client.{HarnessIdentity}
use msclaude_connector.Mobile.Storage.{
  KeyStore, Codec, identity_fields, identity_key, last_seq_key, save_identity, save_last_seq,
}
use msclaude_connector.Mobile.Storage.Laws.{
  IsKeyStore, IsCodec, cleaned, cleaned_items, cleaned_fields,
}
use msclaude_connector.Mobile.Storage.RoundTrip.{IsStorable, kept_by_json}
use msclaude_connector.Wire.{SnapshotPayload, snapshot_of}
use msclaude_connector.Session.{new_session_state}
use msclaude_connector.Client.Messages.{handle_snapshot, handle_event}
use msclaude_connector.Pairing.{PairingInfo, candidate_urls}
use msclaude_connector.Client.Commands.{is_live}
use msclaude_connector.Client.Reconnect.{connect, open_normal_socket, set_last_seq}
use msclaude_connector.Host.{Store, Snapshot, hello_frames}
use msclaude_connector.Host.Place.{deliver_all}
use msclaude_connector.Mobile.Restart.{restart_shows_nothing}
use msclaude_connector.Mobile.Boot.{started, bootstrap, IsResumed, bootstrap_resumes}
use msclaude_connector.Mobile.Saver.{notified, elapsed, ticks, new_saver, IsRising, ticks-IsRising}
use msclaude_connector.Mobile.Stale.{IsLiveAt, high_number_hides_events}
use msclaude_connector.Mobile.Candidates.{Trial, Settling, resolves, pair_with_info}
use msclaude_connector.Mobile.Candidates.Search.{Searched, pair_with_info_lem}
use msclaude_connector.Client.Dropped.{IsReconnecting}
use msclaude_connector.Mobile.Forget.{forget_device-IsReconnecting}

abbrev phone : World
phone = record {
  has_encoder = false;
  is_open = λ s. Bool.true;
  create_failure = none;
  random_num = 0;
  random_den = 1;
}

abbrev client : Client
unfolding new_client
client = record (new_client (codes "wss://h") AuthMode.header none (some 2000)) {
  socket = some 0;
  sockets = 1;
}

forget_device-IsReconnecting_example :
    IsReconnecting (on_close phone 0 (some 1000) (forget_device client))
unfolding client
forget_device-IsReconnecting_example =
    forget_device-IsReconnecting phone 0 (some 1000) client refl refl

-- A store in memory.
abbrev memory : KeyStore (Map Text)
memory = record {
  get_item = λ k s. some (lookup k s);
  set_item = λ k v s. some (insert k v s);
  delete_item = λ k s. some (remove k s);
}

memory-IsKeyStore : IsKeyStore memory
memory-IsKeyStore = record {
  get-set = λ k v s t h. ground (arith, h, lookup-insert k k v s, text_eq_refl k);
  get-delete = λ k s t h. ground (arith, h, lookup-remove k k s, text_eq_refl k);
}

-- A form of the text that is enough for an identity of texts: each property is its length and value.
packed : Value → Text
packed (str s) = suc (length s) ∷ s
packed _ = zero ∷ []

packed_fields : Fields → Text
unfolding packed
packed_fields end = []
packed_fields (field k v fs) = packed v ++ packed_fields fs

unpacked : List String → Text → Fields
unpacked [] s = end
unpacked (k ∷ ks) [] = end
unpacked (k ∷ ks) (zero ∷ s) = unpacked ks s
unpacked (k ∷ ks) (suc n ∷ s) = field k (str (take n s)) (unpacked ks (drop n s))

abbrev names : List String
names = "deviceId" ∷ "credential" ∷ "name" ∷ "url" ∷ "spki" ∷ []

unpack : Text → Option Value
unfolding unpacked
unpack [] = none
unpack (c ∷ s) = some (obj (unpacked names (c ∷ s)))

pack : Value → Text
unfolding packed_fields
pack (obj fs) = packed_fields fs
pack _ = []

number : Text → Number
number s = Number.finite (read 0 s)

abbrev text_codec : Codec
text_codec = record { parse_json = unpack; stringify = pack; number_of = number }

abbrev identity : HarnessIdentity
identity = record {
  device_id = str (codes "d");
  credential = str (codes "c");
  url = codes "wss://h:7432/ws";
  spki = undefined;
  name = str (codes "n");
}

text_codec-IsCodec : IsCodec text_codec (identity_fields identity)
unfolding unpack pack number read cleaned cleaned_items cleaned_fields
text_codec-IsCodec = record {
  parse-stringify = refl;
  parse-empty = refl;
  number-decimal = λ n small. ap Number.finite (read-decimal n);
  number-empty = refl;
}

identity-IsStorable : IsStorable identity
unfolding kept_by_json cleaned
identity-IsStorable = record {
  secret = codes "c";
  is_text = refl;
  device_id = refl;
  name = refl;
  spki = refl;
}

stored_identity : Map Text
unfolding insert packed packed_fields pack
stored_identity = insert identity_key (pack (obj (identity_fields identity))) []

stored_number : Map Text
unfolding insert decimal
stored_number = insert last_seq_key (decimal 42) []

bootstrap_resumes_example :
    IsResumed phone identity 42
      (bootstrap memory memory text_codec phone stored_identity stored_number)
unfolding stored_identity stored_number save_identity save_last_seq
bootstrap_resumes_example =
    bootstrap_resumes memory memory text_codec phone identity 42 [] stored_identity [] stored_number
      memory-IsKeyStore memory-IsKeyStore text_codec-IsCodec identity-IsStorable (omega arith) refl
      refl

ticks-IsRising_example :
    IsRising 7 (ticks (new_saver 7) (notified 9 ∷ notified 8 ∷ elapsed ∷ notified 1 ∷ elapsed ∷ []))
ticks-IsRising_example =
    ticks-IsRising 7 (notified 9 ∷ notified 8 ∷ elapsed ∷ notified 1 ∷ elapsed ∷ [])

-- A network where only the host `b` answers in time.
abbrev network : Trial
network = record {
  promise =
      λ url. if text_eq url (codes "wss://b:1/ws") then resolves 2999 identity else Settling.hangs;
  save_failure = λ i. none;
}

abbrev host : PairingInfo
host = record {
  addrs = codes "a" ∷ codes "b" ∷ [];
  port = 1;
  token = codes "t";
  spki = codes "s";
  code = none;
  scheme = none;
  ws = none;
}

pair_with_info_lem_example :
    let r = pair_with_info network host in
    Searched network host none (candidate_urls host (codes "/ws")) r.0 r.1
pair_with_info_lem_example = pair_with_info_lem network host

-- The client of a device that was at number 9 of another session.
abbrev restored : Client
restored = record client { session = record new_session_state { last_seq = 9 } }

abbrev new_session : SnapshotPayload
unfolding snapshot_of
new_session =
    snapshot_of (field "sessionId" (str (codes "s")) (field "lastSeq" (num (Number.finite 3)) end))

abbrev old_event : Fields
old_event = field "seq" (num (Number.finite 4)) end

high_number_hides_events_example :
    let d = handle_snapshot phone new_session restored in
    IsLiveAt 9 d × (handle_event phone old_event d ≡ d)
unfolding client new_session
high_number_hides_events_example =
    high_number_hides_events phone new_session 9 restored old_event 4 refl refl (omega arith) refl
      (omega arith)

-- A log with one event, which the application had seen before it ended.
abbrev seen_log : Store
seen_log = record {
  session_id = codes "s";
  status = codes "idle";
  last_seq = 1;
  events = record { seq = 1; ts = 7; kind = codes "text_delta"; payload = undefined } ∷ [];
}

abbrev seen_snapshot : Snapshot
seen_snapshot = record {
  session_id = codes "s";
  status = codes "idle";
  mode = [];
  last_seq = 1;
  pending_permissions = undefined;
  pending_questions = undefined;
  devices = undefined;
}

restart_shows_nothing_example :
    let c =
      deliver_all phone 0
        (hello_frames 1 seen_snapshot seen_log)
        (started phone (some identity) 1) in
    (is_live c.phase ≡ Bool.true) × (c.session.last_seq ≡ 1) × (c.session.items ≡ [])
unfolding started connect open_normal_socket set_phase set_last_seq new_client
restart_shows_nothing_example =
    restart_shows_nothing phone phone 0 identity seen_snapshot seen_log
      (record { numbered = (refl, tt); tip = refl }) refl (omega arith) refl
