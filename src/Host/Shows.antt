-- ===== src/Host/Shows.antt =====
-- client.ts and reducer.ts against the host's log: a session at a place of the log, and what keeps
-- it at one.
use mathlib.Core.Path.{subst}
use msclaude_connector.Prelude.{
  ℕ, zero, suc, ◌≤◌, ◌<◌, ◌≡◌, refl, sym, ap, ◌∙◌, ◌⊎◌, inl, inr, Bool, false, List, [], ◌∷◌,
  Option, none, some, arith, text_eq_refl, length, take, drop, get_elem?, length-take,
}
use msclaude_connector.Value.{Value, Number, str, null}
use msclaude_connector.Wire.{SnapshotPayload, snapshot_of, event_of}
use msclaude_connector.Session.{SessionState, new_session_state}
use msclaude_connector.Session.Events.{apply_event}
use msclaude_connector.Session.Snapshot.{apply_snapshot, base_for, is_other_session}
use msclaude_connector.Session.Nameless.{nameless}
use msclaude_connector.Client.{Client, World}
use msclaude_connector.Client.Messages.{bound_items}
use msclaude_connector.Client.Live.History.{bound_items-seqs}
use msclaude_connector.Client.Replay.Views.{
  apply_event-last_seq, apply_event-tip_seq, apply_event-session_id,
}
use msclaude_connector.Client.Sockets.{step, restores}
use msclaude_connector.Client.Sessions.{Holds, set_last_seq-Holds}
use msclaude_connector.Host.{StoredEvent, Store, Snapshot, snapshot_fields}
use msclaude_connector.Host.Log.{InLog, Grows, take-Grows, length-Grows}
use msclaude_connector.Host.Shown.{
  shown, shown_from, shown-suc, wire_event, items_after, bound_items-items_after,
}

-- The session is at a place of the log: apart from the names, its items show the events up to its
-- `lastSeq`, from the first one on, or from the number that the device has kept.
pub record Shows (has_encoder : Bool) (max : Option ℕ) (kept : ℕ) (st : Store) (s : SessionState)
    : Type 0 where
  pub from : ℕ
  pub start : (from ≡ 0) ⊎ (from ≡ kept)
  pub start_le : from ≤ s.last_seq
  pub last_le : s.last_seq ≤ length st.events
  pub tip_le : s.tip_seq ≤ length st.events
  pub session : (s.session_id ≡ null) ⊎ (s.session_id ≡ str st.session_id)
  pub items : nameless s.items ≡ shown has_encoder max (drop from (take s.last_seq st.events))

get_elem?-lt :
    (xs : List StoredEvent) (i : ℕ) (x : StoredEvent) → get_elem? xs i ≡ some x → i < length xs
get_elem?-lt [] i x h = cc
get_elem?-lt (y ∷ xs) zero x h = omega arith
get_elem?-lt (y ∷ xs) (suc i) x h = omega (arith, get_elem?-lt xs i x h)

drop-take : (n : ℕ) (xs : List StoredEvent) → drop n (take n xs) ≡ []
drop-take zero xs = refl
drop-take (suc n) [] = refl
drop-take (suc n) (x ∷ xs) = drop-take n xs

pub finite_eq : (m n : ℕ) → Number.finite m ≡ Number.finite n → m ≡ n
finite_eq m n e = ground (arith, e)

module _ (has_encoder : Bool) (max : Option ℕ) (kept : ℕ) where
  pub shows_new : (st : Store) → Shows has_encoder max kept st new_session_state
  unfolding shown_from
  shows_new st = record {
    from = 0;
    start = inl refl;
    start_le = omega arith;
    last_le = omega arith;
    tip_le = omega arith;
    session = inl refl;
    items = refl;
  }

  pub shows_grown :
      {st st' : Store} {s : SessionState}
      → Grows st st'
      → Shows has_encoder max kept st s
      → Shows has_encoder max kept st' s
  shows_grown {st} {st'} {s} g h = record {
    from = h.from;
    start = h.start;
    start_le = h.start_le;
    last_le = omega (arith, h.last_le, length-Grows g);
    tip_le = omega (arith, h.tip_le, length-Grows g);
    session = rw g.session h.session;
    items = rw (take-Grows g s.last_seq h.last_le) h.items;
  }

  same_session :
      (st : Store) (id : Value)
      → (id ≡ null) ⊎ (id ≡ str st.session_id)
      → is_other_session id (str st.session_id) ≡ false
  same_session st id (inl e) = ground (arith, e)
  same_session st id (inr e) = ground (arith, e, text_eq_refl st.session_id)

  -- A snapshot of the same session leaves the items and the last number.
  seeded_base :
      (s : SessionState) (snap : SnapshotPayload)
      → is_other_session s.session_id snap.session_id ≡ false
      → ((apply_snapshot s snap).last_seq ≡ s.last_seq) × ((apply_snapshot s snap).items ≡ s.items)
  unfolding apply_snapshot base_for
  seeded_base s snap h = (ground (arith, h), ground (arith, h))

  pub seeded_new :
      (s : SessionState) (snap : Snapshot)
      → let t = apply_snapshot s (snapshot_of (snapshot_fields snap)) in
        (t.session_id ≡ str snap.session_id) × (t.tip_seq ≡ snap.last_seq)
  unfolding apply_snapshot snapshot_of
  seeded_new s snap = (refl, refl)

  -- A snapshot of the session leaves the last number of one that is at a place of its log.
  pub shows_seeded_base :
      (st : Store) (s : SessionState) (snap : Snapshot)
      → snap.session_id ≡ st.session_id
      → Shows has_encoder max kept st s
      → (apply_snapshot s (snapshot_of (snapshot_fields snap))).last_seq ≡ s.last_seq
  unfolding snapshot_of
  shows_seeded_base st s snap id h =
      let own : is_other_session s.session_id (str snap.session_id) ≡ false =
        rw id (same_session st s.session_id h.session) in
      (seeded_base s (snapshot_of (snapshot_fields snap)) own).0

  pub shows_seeded :
      (st : Store) (s : SessionState) (snap : Snapshot)
      → snap.session_id ≡ st.session_id
      → snap.last_seq ≤ length st.events
      → Shows has_encoder max kept st s
      → Shows has_encoder max kept st (apply_snapshot s (snapshot_of (snapshot_fields snap)))
  unfolding snapshot_of
  shows_seeded st s snap id le h =
      let own : is_other_session s.session_id (str snap.session_id) ≡ false =
        rw id (same_session st s.session_id h.session) in
      let same = seeded_base s (snapshot_of (snapshot_fields snap)) own in
      let new = seeded_new s snap in
      record {
        from = h.from;
        start = h.start;
        start_le = omega (arith, same.0, h.start_le);
        last_le = omega (arith, same.0, h.last_le);
        tip_le = omega (arith, new.1, le);
        session = inr (new.0 ∙ ap str id);
        items = rw (same.0, same.1) h.items;
      }

  bounded_session_id : (s : SessionState) → (bound_items max s).session_id ≡ s.session_id
  unfolding bound_items
  bounded_session_id s = session_id_of max
    where
      session_id_of : (m : Option ℕ) → (bound_items m s).session_id ≡ s.session_id
      session_id_of none = refl
      session_id_of (some m) = ground arith

  pub shows_advanced :
      (st : Store) (s : SessionState) (ev : StoredEvent)
      → InLog st ev
      → ev.seq ≡ suc s.last_seq
      → Shows has_encoder max kept st s
      → Shows has_encoder max kept st (bound_items max (apply_event has_encoder s (wire_event ev)))
  unfolding wire_event event_of
  shows_advanced st s ev at next h =
      let t = apply_event has_encoder s (wire_event ev) in
      let seqs = bound_items-seqs max t in
      let last = seqs.0 ∙ apply_event-last_seq has_encoder s (wire_event ev) ∙ next in
      let found : get_elem? st.events s.last_seq ≡ some ev =
        subst (λ k. get_elem? st.events k ≡ some ev) (omega (arith, at.number, next)) at.found in
      let reached : s.last_seq < length st.events = get_elem?-lt st.events s.last_seq ev found in
      let covered : h.from ≤ length (take s.last_seq st.events) =
        omega (arith, length-take s.last_seq st.events, h.start_le, h.last_le) in
      record {
        from = h.from;
        start = h.start;
        start_le = omega (arith, last, h.start_le);
        last_le = omega (arith, last, reached);
        tip_le = omega (arith, seqs.1, apply_event-tip_seq has_encoder s (wire_event ev), h.tip_le);
        session =
            rw (bounded_session_id t, apply_event-session_id has_encoder s (wire_event ev))
              h.session;
        items = rw last (
            bound_items-items_after has_encoder max s ev
            ∙ ap (λ l. items_after has_encoder max l ev) h.items
            ∙ sym (shown-suc has_encoder max h.from s.last_seq st.events ev found covered));
      }

  -- A number is restored before anything is shown: what is shown starts behind it.
  pub shows_restored :
      (st : Store) (s : SessionState) (seq : ℕ)
      → kept ≤ length st.events
      → s ≡ new_session_state
      → kept ≡ seq
      → Shows has_encoder max kept st (record s { last_seq = seq })
  unfolding shown_from
  shows_restored st s seq le new e =
      rw (new, ← e)
        record {
          from = kept;
          start = inr refl;
          start_le = omega arith;
          last_le = le;
          tip_le = omega arith;
          session = inl refl;
          items = rw (drop-take kept st.events) refl;
        }

  pub restored-Holds :
      (w : World) (st : Store) (c : Client)
      → kept ≤ length st.events
      → c.session ≡ new_session_state
      → Holds max (Shows has_encoder max kept st) c
      → Holds max (Shows has_encoder max kept st) (step w (restores (Number.finite kept)) c)
  unfolding step
  restored-Holds w st c le new h =
      set_last_seq-Holds max _ (shows_new st) (Number.finite kept) c
        (λ seq e _. shows_restored st c.session seq le new (finite_eq kept seq e)) h
