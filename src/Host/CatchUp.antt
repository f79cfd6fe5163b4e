-- ===== src/Host/CatchUp.antt =====
-- hub.go `serveAuthenticated` and client.ts: a client that receives all that the host sends after a
-- `hello`, in its order.
use mathlib.Core.Path.{subst}
use msclaude_connector.Prelude.{
  ℕ, zero, suc, ◌+◌, ◌≤◌, ◌≡◌, sym, ap, ◌∙◌, ◌⊎◌, Bool, true, false, List, [], ◌∷◌, Option, map,
  arith, All, length, take, drop, take-length, length-drop,
}
use msclaude_connector.Wire.{snapshot_of}
use msclaude_connector.Session.Nameless.{nameless}
use msclaude_connector.Client.{Client, World}
use msclaude_connector.Client.Commands.{is_live}
use msclaude_connector.Client.Sockets.{is_detached}
use msclaude_connector.Client.Sessions.{Holds}
use msclaude_connector.Host.{
  StoredEvent, Store, Snapshot, Unmarshal, Frame, snapshot, event, hello_frames, get_events_since,
  snapshot_fields,
}
use msclaude_connector.Host.Log.{IsLog, Numbered, get_events_since-drop, get_events_since-InLog}
use msclaude_connector.Host.Shown.{shown}
use msclaude_connector.Host.Shows.{Shows, seeded_new, shows_seeded_base}
use msclaude_connector.Host.Follows.{
  Sent, sent_snapshot, received-Holds, All-event, Reaches-Follows,
}
use msclaude_connector.Host.System.{System, Reaches}
use msclaude_connector.Host.Received.{handle_frame}
use msclaude_connector.Host.Place.{
  deliver_all, IsAt, handle_snapshot-IsAt, attached_step, all_events-IsAt,
}

Numbered-drop :
    (n k m : ℕ) (evs : List StoredEvent) → n + k ≡ m → Numbered n evs → Numbered m (drop k evs)
Numbered-drop n zero m evs e h = subst (λ x. Numbered x evs) (omega (arith, e)) h
Numbered-drop n (suc k) m [] e h = tt
Numbered-drop n (suc k) m (ev ∷ evs) e h = Numbered-drop (suc n) k m evs (omega (arith, e)) h.1

module _ (has_encoder : Bool) (max : Option ℕ) (kept : ℕ) where
  deliver_all-Holds :
      (w : World) (s : ℕ) (st : Store) (fs : List Frame) (c : Client)
      → w.has_encoder ≡ has_encoder
      → All (Sent st) fs
      → Holds max (Shows has_encoder max kept st) c
      → Holds max (Shows has_encoder max kept st) (deliver_all w s fs c)
  unfolding deliver_all
  deliver_all-Holds w s st [] c enc sent h = h
  deliver_all-Holds w s st (f ∷ fs) c enc sent h =
      deliver_all-Holds w s st fs _ enc sent.1
        (received-Holds has_encoder max kept w s st f c enc sent.0 h)

  hello_frames-Sent :
      (k : ℕ) (snap : Snapshot) (st : Store)
      → IsLog st
      → Sent st (snapshot snap)
      → All (Sent st) (hello_frames k snap st)
  unfolding hello_frames
  hello_frames-Sent k snap st log sent =
      (sent, All-event st (get_events_since k 0 st) (get_events_since-InLog k st log))

  -- What is left to deliver, once the snapshot has been handled.
  pub deliver_all-hello_frames :
      (w : World) (s k : ℕ) (snap : Snapshot) (st : Store) (c : Client)
      → IsLog st
      → is_detached s c ≡ false
      → deliver_all w s (hello_frames k snap st) c
        ≡ deliver_all w s (map event (drop k st.events)) (handle_frame w (snapshot snap) c)
  unfolding hello_frames deliver_all
  deliver_all-hello_frames w s k snap st c log attached =
      ap (λ d. deliver_all w s (map event (get_events_since k 0 st)) d)
        (attached_step w s snap.last_seq (snapshot snap) c attached)
      ∙ ap (λ evs. deliver_all w s (map event evs) (handle_frame w (snapshot snap) c))
          (get_events_since-drop k 0 st log)

  pub hello_frames-IsAt :
      (w : World) (s : ℕ) (snap : Snapshot) (st : Store) (c : Client)
      → IsLog st
      → snap.session_id ≡ st.session_id
      → is_detached s c ≡ false
      → Shows has_encoder max kept st c.session
      → IsAt s
          (length st.events)
          snap.last_seq
          (deliver_all w s (hello_frames c.session.last_seq snap st) c)
  unfolding handle_frame
  hello_frames-IsAt w s snap st c log id attached h =
      let k = c.session.last_seq in
      let evs = drop k st.events in
      let first =
        handle_snapshot-IsAt s k snap.last_seq w (snapshot_of (snapshot_fields snap)) c attached
          (shows_seeded_base has_encoder max kept st c.session snap id h)
          (seeded_new has_encoder max kept c.session snap).1 in
      let all =
        all_events-IsAt w s snap.last_seq k evs _
          (Numbered-drop 0 k k st.events (omega arith) log.numbered) first in
      subst (IsAt s (length st.events) snap.last_seq)
        (sym (deliver_all-hello_frames w s k snap st c log attached))
        (subst
          (λ m.
            IsAt s m snap.last_seq
              (deliver_all w s (map event evs) (handle_frame w (snapshot snap) c)))
          (omega (arith, length-drop k st.events, h.last_le)) all)

-- What a client has that shows the whole of a log.
pub record IsUpToDate (has_encoder : Bool) (max : Option ℕ) (kept : ℕ) (st : Store) (c : Client)
    : Type 0 where
  pub live : is_live c.phase ≡ true
  pub last : c.session.last_seq ≡ st.last_seq
  pub from : ℕ
  pub start : (from ≡ 0) ⊎ (from ≡ kept)
  pub items : nameless c.session.items ≡ shown has_encoder max (drop from st.events)

-- In any history of a session, its host and a client: when the client receives, on a socket that it
-- listens to, a snapshot of the session that is not ahead of the log and then, in their order, the
-- events after its last number, it is live, its last number is that of the log, and its items,
-- without names, are those of the whole log, from the first event on or from the number kept.
pub hello_frames-IsUpToDate :
    (u : Unmarshal) (has_encoder : Bool) (max : Option ℕ) (kept : ℕ) (sys : System) (w : World)
    (s : ℕ) (snap : Snapshot)
    → Reaches u has_encoder kept max sys
    → w.has_encoder ≡ has_encoder
    → is_detached s sys.client ≡ false
    → snap.session_id ≡ sys.store.session_id
    → snap.last_seq ≤ sys.store.last_seq
    → IsUpToDate has_encoder max kept sys.store
        (deliver_all w s (hello_frames sys.client.session.last_seq snap sys.store) sys.client)
hello_frames-IsUpToDate u has_encoder max kept sys w s snap reached enc attached id le =
    let h = Reaches-Follows u has_encoder max kept reached in
    let c = sys.client in
    let fs = hello_frames c.session.last_seq snap sys.store in
    let low : snap.last_seq ≤ length sys.store.events = omega (arith, le, h.log.tip) in
    let at =
      hello_frames-IsAt has_encoder max kept w s snap sys.store c h.log id attached
        h.client.holds in
    let sent =
      hello_frames-Sent has_encoder max kept c.session.last_seq snap sys.store h.log
        (sent_snapshot snap id low) in
    let held = deliver_all-Holds has_encoder max kept w s sys.store fs c enc sent h.client in
    let shows = held.holds in
    record {
      live = ground (arith, at.phase, low);
      last = at.last ∙ sym h.log.tip;
      from = shows.from;
      start = shows.start;
      items =
          shows.items
          ∙ ap (λ n. shown has_encoder max (drop shows.from (take n sys.store.events))) at.last
          ∙ ap (λ l. shown has_encoder max (drop shows.from l)) (take-length sys.store.events);
    }
