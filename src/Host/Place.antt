-- ===== src/Host/Place.antt =====
-- client.ts: the place of a client in the log of its session, and what the handlers of snapshots and
-- events make of it.
use mathlib.Core.Path.{subst}
use msclaude_connector.Prelude.{
  ℕ, suc, ◌+◌, ◌<◌, ◌≡◌, refl, ◌∙◌, ◌⊎◌, inl, inr, Bool, true, false, List, [], ◌∷◌, ◌&&◌, none,
  some, map, arith, length, leb, ltb, if_cases, option_cases,
}
use msclaude_connector.Wire.{SnapshotPayload, event_of}
use msclaude_connector.Session.Events.{apply_event}
use msclaude_connector.Session.Snapshot.{apply_snapshot, is_other_session}
use msclaude_connector.Client.{Client, World, ConnPhase}
use msclaude_connector.Client.Notify.{publish, set_phase}
use msclaude_connector.Client.Commands.{flush_outbox, is_live}
use msclaude_connector.Client.Messages.{
  handle_snapshot, handle_event_at, accept_event, after_event, bound_items, clear_outbox_if,
}
use msclaude_connector.Client.Live.History.{bound_items-seqs}
use msclaude_connector.Client.Replay.Views.{apply_event-last_seq, apply_event-tip_seq}
use msclaude_connector.Client.Sockets.{step, received, is_detached}
use msclaude_connector.Host.{StoredEvent, Frame, event, frame_value, event_fields}
use msclaude_connector.Host.Log.{Numbered}
use msclaude_connector.Host.Received.{handle_frame, on_message-frame_value}

-- The messages `fs` arrive on the socket `s`, in their order.
unfoldable pub deliver_all : World → ℕ → List Frame → Client → Client
unfolding step
deliver_all w s [] c = c
deliver_all w s (f ∷ fs) c = deliver_all w s fs (step w (received s (some (frame_value f))) c)

-- A client that listens to the socket `s`, has applied the events up to `k` and knows of `tip`; it is
-- live if it has come that far.
pub record IsAt (s k tip : ℕ) (c : Client) : Type 0 where
  pub attached : is_detached s c ≡ false
  pub last : c.session.last_seq ≡ k
  pub tip_seq : c.session.tip_seq ≡ tip
  pub phase : (is_live c.phase ≡ true) ⊎ (k < tip)

module _ (s k tip : ℕ) where
  publish-IsAt : (c : Client) → IsAt s k tip c → IsAt s k tip (publish c)
  unfolding publish
  publish-IsAt c h = record {
    attached = h.attached;
    last = h.last;
    tip_seq = h.tip_seq;
    phase = h.phase;
  }

  flush_outbox-IsAt : (w : World) (c : Client) → IsAt s k tip c → IsAt s k tip (flush_outbox w c)
  unfolding flush_outbox
  flush_outbox-IsAt w c h =
      option_cases (IsAt s k tip) c.socket _ _ (λ _. h)
        λ t _.
          if_cases (IsAt s k tip) (is_live c.phase && w.is_open t) _ _
            (λ _. record {
              attached = h.attached;
              last = h.last;
              tip_seq = h.tip_seq;
              phase = h.phase;
            })
            (λ _. h)

  go_live-IsAt :
      (c : Client)
      → is_detached s c ≡ false
      → c.session.last_seq ≡ k
      → c.session.tip_seq ≡ tip
      → IsAt s k tip (set_phase ConnPhase.live c)
  unfolding set_phase publish
  go_live-IsAt c a l t = record { attached = a; last = l; tip_seq = t; phase = inl refl }

  -- Once the session is at its new place, the handlers of events see to the phase.
  after_event-IsAt :
      (w : World) (c : Client)
      → is_detached s c ≡ false
      → c.session.last_seq ≡ k
      → c.session.tip_seq ≡ tip
      → IsAt s k tip (after_event w c)
  unfolding after_event
  after_event-IsAt w c a l t =
      if_cases (IsAt s k tip) (leb c.session.tip_seq c.session.last_seq) _ _
        (λ _.
          if_cases (IsAt s k tip) (is_live c.phase) _ _
            (λ live.
              publish-IsAt c (record { attached = a; last = l; tip_seq = t; phase = inl live }))
            (λ _. flush_outbox-IsAt w _ (go_live-IsAt c a l t)))
        (λ behind. publish-IsAt c (record {
          attached = a;
          last = l;
          tip_seq = t;
          phase = inr (ground (arith, behind, l, t));
        }))

  pub handle_snapshot-IsAt :
      (w : World) (snap : SnapshotPayload) (c : Client)
      → is_detached s c ≡ false
      → (apply_snapshot c.session snap).last_seq ≡ k
      → (apply_snapshot c.session snap).tip_seq ≡ tip
      → IsAt s k tip (handle_snapshot w snap c)
  unfolding handle_snapshot set_phase publish
  handle_snapshot-IsAt w snap c a l t =
      let session = apply_snapshot c.session snap in
      let seen : Client = record c {
        session = session;
        sync_base = session.last_seq;
        retry_attempt = 0;
      } in
      let other = is_other_session c.session.session_id snap.session_id in
      if_cases (IsAt s k tip) (leb session.tip_seq session.last_seq) _ _
        (λ _. flush_outbox-IsAt w _ (live other seen a l t))
        (λ behind. syncing other seen a l t (ground (arith, behind, l, t)))
    where
      live :
          (b : Bool) (d : Client)
          → is_detached s d ≡ false
          → d.session.last_seq ≡ k
          → d.session.tip_seq ≡ tip
          → IsAt s k tip (set_phase ConnPhase.live (clear_outbox_if b d))
      live true d a l t = record { attached = a; last = l; tip_seq = t; phase = inl refl }
      live false d a l t = record { attached = a; last = l; tip_seq = t; phase = inl refl }

      syncing :
          (b : Bool) (d : Client)
          → is_detached s d ≡ false
          → d.session.last_seq ≡ k
          → d.session.tip_seq ≡ tip
          → k < tip
          → IsAt s k tip (set_phase ConnPhase.syncing (clear_outbox_if b d))
      syncing true d a l t lt = record { attached = a; last = l; tip_seq = t; phase = inr lt }
      syncing false d a l t lt = record { attached = a; last = l; tip_seq = t; phase = inr lt }

module _ (w : World) (s tip : ℕ) where
  next_event-IsAt :
      (k : ℕ) (ev : StoredEvent) (c : Client)
      → ev.seq ≡ suc k
      → IsAt s k tip c
      → IsAt s (suc k) tip (handle_frame w (event ev) c)
  unfolding handle_frame handle_event_at accept_event event_of
  next_event-IsAt k ev c n h =
      if_cases (IsAt s (suc k) tip) (leb ev.seq c.session.last_seq) _ _
        (λ old. absurd (ground (arith, old, n, h.last)))
        λ _.
          if_cases (IsAt s (suc k) tip) (ltb (c.session.last_seq + 1) ev.seq) _ _
            (λ gap. absurd (ground (arith, gap, n, h.last)))
            λ _.
              let e = event_of ev.seq (event_fields ev) in
              let t = apply_event w.has_encoder c.session e in
              let seqs = bound_items-seqs c.max_items t in
              after_event-IsAt s (suc k) tip w
                (record c { session = bound_items c.max_items t; gap_seq = none; gap_count = 0 })
                h.attached (seqs.0 ∙ apply_event-last_seq w.has_encoder c.session e ∙ n)
                (seqs.1 ∙ apply_event-tip_seq w.has_encoder c.session e ∙ h.tip_seq)

  pub attached_step :
      (f : Frame) (c : Client)
      → is_detached s c ≡ false
      → step w (received s (some (frame_value f))) c ≡ handle_frame w f c
  unfolding step
  attached_step f c a = on_message-frame_value w s f c ∙ rw a refl

  pub all_events-IsAt :
      (k : ℕ) (evs : List StoredEvent) (c : Client)
      → Numbered k evs
      → IsAt s k tip c
      → IsAt s (k + length evs) tip (deliver_all w s (map event evs) c)
  unfolding deliver_all
  all_events-IsAt k [] c n h = subst (λ m. IsAt s m tip c) (omega arith) h
  all_events-IsAt k (ev ∷ evs) c n h =
      let here = next_event-IsAt k ev c n.0 h in
      rw (attached_step (event ev) c h.attached, deliver_all)
        (subst (λ m. IsAt s m tip (deliver_all w s (map event evs) (handle_frame w (event ev) c)))
          (omega arith) (all_events-IsAt (suc k) evs _ n.1 here))
