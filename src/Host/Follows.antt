-- ===== src/Host/Follows.antt =====
-- The client of client.ts as an implementation of a view of the host's log: what its session shows
-- in any history of the two.
use mathlib.Core.Path.{subst}
use msclaude_connector.Prelude.{
  ℕ, zero, suc, ◌≤◌, ◌≡◌, refl, sym, ◌∙◌, Bool, true, false, List, [], ◌∷◌, ◌++◌, Option, some, map,
  arith, Text, All, All-append, length, get_elem?, if_cases,
}
use msclaude_connector.Value.{Value, Number}
use msclaude_connector.Wire.{snapshot_of, event_of}
use msclaude_connector.Session.{SessionState}
use msclaude_connector.Session.Events.{apply_event}
use msclaude_connector.Client.{Client, World}
use msclaude_connector.Client.Notify.{new_client}
use msclaude_connector.Client.Messages.{bound_items}
use msclaude_connector.Client.Sockets.{step, restores, received, is_detached}
use msclaude_connector.Client.Sessions.{
  Holds, step-Holds, handle_snapshot-Holds, handle_event_at-Holds, handle_ack-Holds,
  handle_error-Holds,
}
use msclaude_connector.Host.{
  StoredEvent, Store, Snapshot, Unmarshal, Frame, snapshot, event, ack, error, paired, append_event,
  get_events_since, get_snapshot, frame_value, snapshot_fields, event_fields,
}
use msclaude_connector.Host.Log.{
  IsLog, InLog, InLog-Grows, Grows, append_event-IsLog, append_event-Grows, append_event-InLog,
  get_events_since-InLog, get_snapshot-last_seq, length-Grows,
}
use msclaude_connector.Host.Received.{handle_frame, on_message-frame_value}
use msclaude_connector.Host.System.{
  System, Move, Reaches, appends, snapshots, replays, replies, acts, restored, delivers, starts,
  moves, is_reply, broadcast, append_and_broadcast,
}
use msclaude_connector.Host.Shown.{wire_event}
use msclaude_connector.Host.Shows.{
  Shows, finite_eq, shows_new, shows_grown, shows_seeded, shows_advanced, restored-Holds,
}

-- What a message may say: a snapshot is one of the session and not ahead of the log, and an event is
-- one of the log.
pub data Sent (st : Store) : Frame → Type 0 where
  sent_snapshot :
      (snap : Snapshot)
      → snap.session_id ≡ st.session_id
      → snap.last_seq ≤ length st.events
      → Sent st (snapshot snap)
  sent_event : (ev : StoredEvent) → InLog st ev → Sent st (event ev)
  sent_reply : (f : Frame) → is_reply f ≡ true → Sent st f

module _ (has_encoder : Bool) (max : Option ℕ) (kept : ℕ) where
  advanced_at :
      (w : World) (st : Store) (s : SessionState) (ev : StoredEvent) (seq : ℕ)
      → w.has_encoder ≡ has_encoder
      → InLog st ev
      → ev.seq ≡ seq
      → seq ≡ suc s.last_seq
      → Shows has_encoder max kept st s
      → Shows has_encoder max kept st
          (bound_items max (apply_event w.has_encoder s (event_of seq (event_fields ev))))
  unfolding wire_event
  advanced_at w st s ev seq enc at e next h =
      subst
        (λ n.
          Shows has_encoder max kept st
            (bound_items max (apply_event w.has_encoder s (event_of n (event_fields ev)))))
        e (rw enc (shows_advanced has_encoder max kept st s ev at (e ∙ next) h))

  -- A message that may be sent, at the handler that it reaches.
  handle_frame-Holds :
      (w : World) (st : Store) (f : Frame) (c : Client)
      → w.has_encoder ≡ has_encoder
      → Sent st f
      → Holds max (Shows has_encoder max kept st) c
      → Holds max (Shows has_encoder max kept st) (handle_frame w f c)
  unfolding handle_frame
  handle_frame-Holds w st _ c enc (sent_snapshot snap id le) h =
      handle_snapshot-Holds max _ (shows_new has_encoder max kept st) w
        (snapshot_of (snapshot_fields snap)) c
        (shows_seeded has_encoder max kept st c.session snap id le h.holds) h
  handle_frame-Holds w st _ c enc (sent_event ev at) h =
      handle_event_at-Holds max _ (shows_new has_encoder max kept st) w (Number.finite ev.seq)
        (event_fields ev) c
        (λ seq e next.
          advanced_at w st c.session ev seq enc at (finite_eq ev.seq seq e) next h.holds)
        h
  handle_frame-Holds w st (ack fs) c enc (sent_reply _ r) h =
      handle_ack-Holds max _ (shows_new has_encoder max kept st) fs c h
  handle_frame-Holds w st (error fs) c enc (sent_reply _ r) h =
      handle_error-Holds max _ (shows_new has_encoder max kept st) fs c h
  handle_frame-Holds w st (paired fs) c enc (sent_reply _ r) h = h
  handle_frame-Holds w st (snapshot snap) c enc (sent_reply _ r) h = absurd cc
  handle_frame-Holds w st (event ev) c enc (sent_reply _ r) h = absurd cc

  pub received-Holds :
      (w : World) (s : ℕ) (st : Store) (f : Frame) (c : Client)
      → w.has_encoder ≡ has_encoder
      → Sent st f
      → Holds max (Shows has_encoder max kept st) c
      → Holds max (Shows has_encoder max kept st) (step w (received s (some (frame_value f))) c)
  unfolding step
  received-Holds w s st f c enc sent h = rw (on_message-frame_value w s f c) (
      if_cases (Holds max (Shows has_encoder max kept st)) (is_detached s c) _ _ (λ _. h)
        (λ _. handle_frame-Holds w st f c enc sent h))

-- The host's log is in order, all its messages say what they may, and the client shows the log.
pub record Follows (has_encoder : Bool) (max : Option ℕ) (kept : ℕ) (sys : System) : Type 0 where
  pub log : IsLog sys.store
  pub sent : All (Sent sys.store) sys.made
  pub client : Holds max (Shows has_encoder max kept sys.store) sys.client

Sent-Grows : {st st' : Store} {f : Frame} → Grows st st' → Sent st f → Sent st' f
Sent-Grows g (sent_snapshot snap id le) =
    sent_snapshot snap (id ∙ sym g.session) (omega (arith, le, length-Grows g))
Sent-Grows g (sent_event ev at) = sent_event ev (InLog-Grows g at)
Sent-Grows g (sent_reply f r) = sent_reply f r

All-Sent-Grows :
    {st st' : Store} (fs : List Frame) → Grows st st' → All (Sent st) fs → All (Sent st') fs
All-Sent-Grows [] g h = tt
All-Sent-Grows (f ∷ fs) g h = (Sent-Grows g h.0, All-Sent-Grows fs g h.1)

All-get_elem? :
    (P : Frame → Type 0) (fs : List Frame) (i : ℕ) (f : Frame)
    → All P fs
    → get_elem? fs i ≡ some f
    → P f
All-get_elem? P [] i f h e = absurd cc
All-get_elem? P (x ∷ fs) zero f h e = subst P (ground (arith, e)) h.0
All-get_elem? P (x ∷ fs) (suc i) f h e = All-get_elem? P fs i f h.1 e

pub All-event :
    (st : Store) (evs : List StoredEvent) → All (InLog st) evs → All (Sent st) (map event evs)
All-event st [] h = tt
All-event st (ev ∷ evs) h = (sent_event ev h.0, All-event st evs h.1)

module _ (u : Unmarshal) (has_encoder : Bool) (max : Option ℕ) (kept : ℕ) where
  -- More messages, from the same store.
  made_more :
      (sys : System) (fs : List Frame)
      → All (Sent sys.store) fs
      → Follows has_encoder max kept sys
      → Follows has_encoder max kept (record sys { made = sys.made ++ fs })
  made_more sys fs all h = record {
    log = h.log;
    sent = All-append (Sent sys.store) sys.made fs h.sent all;
    client = h.client;
  }

  acted :
      (sys : System) (c : Client)
      → Holds max (Shows has_encoder max kept sys.store) c
      → Follows has_encoder max kept sys
      → Follows has_encoder max kept (record sys { client = c })
  acted sys c held h = record { log = h.log; sent = h.sent; client = held }

  appended :
      (sys : System) (commits : Bool) (ts : ℕ) (kind : Text) (payload : Value)
      → Follows has_encoder max kept sys
      → Follows has_encoder max kept (append_and_broadcast u commits ts kind payload sys)
  unfolding append_and_broadcast
  appended sys commits ts kind payload h =
      let g = append_event-Grows u commits ts kind payload sys.store in
      record {
        log = append_event-IsLog u commits ts kind payload sys.store h.log;
        sent = All-append _ sys.made _ (All-Sent-Grows sys.made g h.sent) (news commits);
        client = record {
          bound = h.client.bound;
          holds = shows_grown has_encoder max kept g h.client.holds;
        };
      }
    where
      news :
          (b : Bool)
          → let (store, ev) = append_event u b ts kind payload sys.store in
            All (Sent store) (broadcast ev)
      news true = (sent_event _ (append_event-InLog u ts kind payload sys.store _ h.log refl), tt)
      news false = tt

  Move-Follows :
      {a b : System}
      → Move u has_encoder kept a b
      → Follows has_encoder max kept a
      → Follows has_encoder max kept b
  Move-Follows (appends {sys} commits ts kind payload) h = appended sys commits ts kind payload h
  Move-Follows (snapshots {sys} p q d) h =
      let snap = get_snapshot-last_seq u p q d sys.store h.log in
      made_more sys (snapshot (get_snapshot u p q d sys.store) ∷ [])
        (sent_snapshot (get_snapshot u p q d sys.store) snap.1 (omega (arith, snap.0)), tt) h
  Move-Follows (replays {sys} last_seq) h =
      made_more sys (map event (get_events_since last_seq 0 sys.store))
        (All-event sys.store _ (get_events_since-InLog last_seq sys.store h.log)) h
  Move-Follows (replies {sys} f r) h = made_more sys (f ∷ []) (sent_reply f r, tt) h
  Move-Follows (acts {sys} w s local) h =
      acted sys (step w s sys.client)
        (step-Holds max _ (shows_new has_encoder max kept sys.store) w s sys.client local h.client)
        h
  Move-Follows (restored {sys} w le new) h =
      acted sys (step w (restores (Number.finite kept)) sys.client)
        (restored-Holds has_encoder max kept w sys.store sys.client (omega (arith, le, h.log.tip))
          new h.client)
        h
  Move-Follows (delivers {sys} w s i f enc at) h =
      acted sys (step w (received s (some (frame_value f))) sys.client)
        (received-Holds has_encoder max kept w s sys.store f sys.client enc
          (All-get_elem? (Sent sys.store) sys.made i f h.sent at) h.client)
        h

  pub Reaches-Follows :
      {sys : System} → Reaches u has_encoder kept max sys → Follows has_encoder max kept sys
  unfolding new_client
  Reaches-Follows (starts session_id url mode identity) = record {
    log = record { numbered = tt; tip = refl };
    sent = tt;
    client = record { bound = refl; holds = shows_new has_encoder max kept _ };
  }
  Reaches-Follows (moves r m) = Move-Follows m (Reaches-Follows r)
