-- ===== src/Host/System.antt =====
-- The host of internal/hub/hub.go and a client of clients/packages/harness-protocol/src/client.ts, as
-- one system with a network between them.
-- Every message that the host has ever made stays deliverable, on any socket: what a real network
-- delivers, with its losses, delays and broken connections, is among the histories of this one, and
-- so are duplicated and reordered messages.
use msclaude_connector.Prelude.{
  ℕ, ◌≤◌, ◌≡◌, Bool, true, false, List, [], ◌∷◌, ◌++◌, Option, none, some, map, Text, codes,
  get_elem?,
}
use msclaude_connector.Value.{Value, Number}
use msclaude_connector.Session.{new_session_state}
use msclaude_connector.Client.{Client, World, AuthMode, HarnessIdentity}
use msclaude_connector.Client.Notify.{new_client}
use msclaude_connector.Client.Sessions.{is_local}
use msclaude_connector.Client.Sockets.{Step, step, restores, received}
use msclaude_connector.Host.{
  StoredEvent, Store, Unmarshal, Frame, event, snapshot, append_event, get_events_since,
  get_snapshot, frame_value,
}

-- `made` are the messages that the host has made so far.
pub record System : Type 0 where
  pub store : Store
  pub made : List Frame
  pub client : Client

-- The answers to a command and to a pairing.
abbrev pub is_reply : Frame → Bool
is_reply (snapshot s) = false
is_reply (event ev) = false
is_reply _ = true

-- `broadcast`, of the event that an append returns.
abbrev pub broadcast : Option StoredEvent → List Frame
broadcast none = []
broadcast (some ev) = event ev ∷ []

-- `AppendEvent` and `broadcast`, in `ingestAdapterEvents` and in `handleCommand`. The hub's maps of
-- pending requests, which no message shows, are left out.
unfoldable pub append_and_broadcast :
    Unmarshal → (commits : Bool) → ℕ → Text → Value → System → System
unfolding append_event
append_and_broadcast u commits ts kind payload sys =
    let (store, ev) = append_event u commits ts kind payload sys.store in
    record sys { store = store; made = sys.made ++ broadcast ev }

-- A store for a new session (`CreateSession`).
abbrev pub new_store : Text → Store
new_store session_id = record {
  session_id = session_id;
  status = codes "idle";
  last_seq = 0;
  events = [];
}

-- The client's platform has a `TextEncoder` or not, and the device has kept the number `kept` of an
-- earlier run of the application, 0 where it has none.
module _ (u : Unmarshal) (has_encoder : Bool) (kept : ℕ) where
  -- What can happen.
  pub data Move : System → System → Type 0 where
    appends :
        {sys : System}
        → (commits : Bool) (ts : ℕ) (kind : Text) (payload : Value)
        → Move sys (append_and_broadcast u commits ts kind payload sys)
    -- `serveAuthenticated` reads the snapshot and the events for a `hello`, one after the other
    snapshots :
        {sys : System}
        → (permissions questions devices : Value)
        → Move sys (record sys {
          made = sys.made ++ snapshot (get_snapshot u permissions questions devices sys.store) ∷ [];
        })
    replays :
        {sys : System}
        → (last_seq : ℕ)
        → Move sys
            (record sys { made = sys.made ++ map event (get_events_since last_seq 0 sys.store) })
    replies :
        {sys : System}
        → (f : Frame) → is_reply f ≡ true
        → Move sys (record sys { made = sys.made ++ f ∷ [] })
    -- a method, a timer or a handler of the client other than the handler of messages
    acts :
        {sys : System}
        → (w : World) (s : Step) → is_local s ≡ true
        → Move sys (record sys { client = step w s sys.client })
    -- the number that the device has kept is restored before anything is shown
    restored :
        {sys : System}
        → (w : World) → kept ≤ sys.store.last_seq
        → sys.client.session ≡ new_session_state
        → Move sys (record sys { client = step w (restores (Number.finite kept)) sys.client })
    delivers :
        {sys : System}
        → (w : World) (s i : ℕ) (f : Frame) → w.has_encoder ≡ has_encoder
        → get_elem? sys.made i ≡ some f
        → Move sys (record sys { client = step w (received s (some (frame_value f))) sys.client })

  -- The systems that a new session and a new client can come to.
  pub data Reaches (max : Option ℕ) : System → Type 0 where
    starts :
        (session_id url : Text) (mode : AuthMode) (identity : Option HarnessIdentity)
        → Reaches max (record {
          store = new_store session_id;
          made = [];
          client = new_client url mode identity max;
        })
    moves : {a b : System} → Reaches max a → Move a b → Reaches max b
