-- ===== src/Mobile/Stale.antt =====
-- mobileClient.ts with client.ts: a saved number that is larger than those of the host's session.
use msclaude_connector.Prelude.{
  ℕ, ◌≤◌, ◌≡◌, refl, ◌∙◌, Bool, false, ◌&&◌, arith, leb, if_cases, option_cases,
}
use msclaude_connector.Value.{Fields, Number, as_number, get}
use msclaude_connector.Wire.{SnapshotPayload}
use msclaude_connector.Session.{SessionState}
use msclaude_connector.Session.Snapshot.{apply_snapshot, base_for, is_other_session}
use msclaude_connector.Client.{Client, World, ConnPhase}
use msclaude_connector.Client.Notify.{publish, set_phase}
use msclaude_connector.Client.Commands.{flush_outbox, is_live}
use msclaude_connector.Client.Messages.{
  handle_snapshot, handle_event, handle_event_at, seq_of, clear_outbox_if,
}

-- A live client at number `n`.
pub record IsLiveAt (n : ℕ) (c : Client) : Type 0 where
  pub phase : c.phase ≡ ConnPhase.live
  pub last_seq : c.session.last_seq ≡ n

flush_outbox-IsLiveAt :
    (n : ℕ) (w : World) (c : Client) → IsLiveAt n c → IsLiveAt n (flush_outbox w c)
unfolding flush_outbox
flush_outbox-IsLiveAt n w c h =
    option_cases (IsLiveAt n) c.socket _ _ (λ _. h)
      λ s _.
        if_cases (IsLiveAt n) (is_live c.phase && w.is_open s) _ _
          (λ _. record { phase = h.phase; last_seq = h.last_seq }) (λ _. h)

set_live-IsLiveAt :
    (n : ℕ) (b : Bool) (c : Client)
    → c.session.last_seq ≡ n
    → IsLiveAt n (set_phase ConnPhase.live (clear_outbox_if b c))
unfolding set_phase publish
set_live-IsLiveAt n Bool.true c h = record { phase = refl; last_seq = h }
set_live-IsLiveAt n false c h = record { phase = refl; last_seq = h }

apply_snapshot-last_seq :
    (s : SessionState) (snap : SnapshotPayload)
    → is_other_session s.session_id snap.session_id ≡ false
    → (apply_snapshot s snap).last_seq ≡ s.last_seq
unfolding apply_snapshot base_for
apply_snapshot-last_seq s snap h = ground (arith, h)

handle_event-old :
    (w : World) (ev : Fields) (m : ℕ) (c : Client)
    → seq_of (get "seq" ev) ≡ Number.finite m
    → m ≤ c.session.last_seq
    → handle_event w ev c ≡ c
unfolding handle_event handle_event_at
handle_event-old w ev m c e h =
    rw (e, handle_event)
      (if_cases (λ d. d ≡ c) (leb m c.session.last_seq) _ _ (λ _. refl)
        (λ off. absurd (ground (arith, off, h))))

handle_snapshot-IsLiveAt :
    (w : World) (snap : SnapshotPayload) (n : ℕ) (c : Client)
    → c.session.last_seq ≡ n
    → is_other_session c.session.session_id snap.session_id ≡ false
    → as_number snap.last_seq 0 ≤ n
    → IsLiveAt n (handle_snapshot w snap c)
unfolding handle_snapshot apply_snapshot
handle_snapshot-IsLiveAt w snap n c h same low =
    let at_n = apply_snapshot-last_seq c.session snap same ∙ h in
    let session = apply_snapshot c.session snap in
    if_cases (IsLiveAt n) (leb session.tip_seq session.last_seq) _ _
      (λ _. flush_outbox-IsLiveAt n w _ (
        set_live-IsLiveAt n (is_other_session c.session.session_id snap.session_id)
          (record c { session = session; sync_base = session.last_seq; retry_attempt = 0 }) at_n))
      (λ off. absurd (ground (arith, off, at_n, low)))

small_enough : (m : ℕ) (c : Client) (n : ℕ) → m ≤ n → IsLiveAt n c → m ≤ c.session.last_seq
small_enough m c n h live = omega (arith, h, live.last_seq)

-- A client whose number `n` is at least the tip of the session that it joins, as after a number of
-- another session was restored, is live at once at that number, and each event of the session up
-- to number `n` then changes nothing.
pub high_number_hides_events :
    (w : World) (snap : SnapshotPayload) (n : ℕ) (c : Client) (ev : Fields) (m : ℕ)
    → c.session.last_seq ≡ n
    → is_other_session c.session.session_id snap.session_id ≡ false
    → as_number snap.last_seq 0 ≤ n
    → seq_of (get "seq" ev) ≡ Number.finite m
    → m ≤ n
    → let d = handle_snapshot w snap c in IsLiveAt n d × (handle_event w ev d ≡ d)
high_number_hides_events w snap n c ev m h same low e small =
    let live = handle_snapshot-IsLiveAt w snap n c h same low in
    (live, handle_event-old w ev m _ e (small_enough m _ n small live))
