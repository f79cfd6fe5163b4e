-- ===== src/Client/Resync.antt =====
-- client.ts: the streak of gaps, and the session that the next connection starts from.
use msclaude_connector.Prelude.{
  ℕ, ◌≡◌, refl, ap, ◌∙◌, inl, inr, Bool, true, false, Option, none, some, arith, codes, leb,
  if_cases, option_cases,
}
use msclaude_connector.Value.{Value, Number, str}
use msclaude_connector.Wire.{SnapshotPayload, HelloPayload}
use msclaude_connector.Session.{SessionState, new_session_state}
use msclaude_connector.Session.Snapshot.{apply_snapshot}
use msclaude_connector.Client.{Client, World, ConnPhase}
use msclaude_connector.Client.Notify.{publish, set_phase}
use msclaude_connector.Client.Reconnect.{
  start_timer, clear_if_set, schedule_reconnect, resync, open_normal_socket, timer_fired,
  detach_and_close,
}
use msclaude_connector.Client.Messages.{
  handle_snapshot, clear_outbox_if, count_gap, decide_resync, note_gap,
}
use msclaude_connector.Client.Sockets.{hello_for}
use msclaude_connector.Client.Frame.{Keeps, Keeps-trans, publish-Keeps}
use msclaude_connector.Client.Frame.Reconnect.{
  flush_outbox-Keeps, schedule_reconnect-Keeps, timer_fired-Keeps, detach_and_close-Keeps,
  create_normal_socket-Keeps,
}

-- A client that wants a connection and has seen `k` gaps in a row at `n`.
pub record Streak (n k : ℕ) (c : Client) : Type 0 where
  pub gap_at : c.gap_seq ≡ some (Number.finite n)
  pub gaps : c.gap_count ≡ k
  pub wanted : c.closed_by_user ≡ false

carry : {n k : ℕ} {c c' : Client} → Keeps c c' → Streak n k c → Streak n k c'
carry l s = record {
  gap_at = l.gap_seq ∙ s.gap_at;
  gaps = l.gap_count ∙ s.gaps;
  wanted = l.closed_by_user ∙ s.wanted;
}

-- What a client does between two gaps: the gap drops the socket, the timer opens another, and the
-- host answers with a snapshot.
unfoldable pub gap_round : World → ℕ → SnapshotPayload → Client → Client
gap_round w n snap c = handle_snapshot w snap (timer_fired w (note_gap w (Number.finite n) c))

note_gap-Keeps :
    (w : World) (seq : Number) (c : Client)
    → Keeps (decide_resync (count_gap seq c)) (note_gap w seq c)
unfolding note_gap
note_gap-Keeps w seq c =
    let dropped = detach_and_close 1011 (str (codes "seq gap")) (decide_resync (count_gap seq c)) in
    let k = detach_and_close-Keeps 1011 (str (codes "seq gap")) (decide_resync (count_gap seq c)) in
    if_cases (Keeps (decide_resync (count_gap seq c))) dropped.closed_by_user _ _ (λ _. k)
      (λ _. Keeps-trans k (schedule_reconnect-Keeps w dropped))

handle_snapshot-Streak :
    (w : World) (snap : SnapshotPayload) {n k : ℕ} (c : Client)
    → Streak n k c
    → Streak n k (handle_snapshot w snap c)
unfolding handle_snapshot set_phase
handle_snapshot-Streak w snap {n} {k} c s =
    if_cases (Streak n k) (leb session.tip_seq session.last_seq) _ _
      (λ _.
        carry (Keeps-trans (publish-Keeps _) (flush_outbox-Keeps w _)) (seeded _ ConnPhase.live))
      (λ _. carry (publish-Keeps _) (seeded _ ConnPhase.syncing))
  where
    session : SessionState
    session = apply_snapshot c.session snap

    seeded :
        (b : Bool) (p : ConnPhase)
        → Streak n k
            (record (clear_outbox_if b
              (record c { session = session; sync_base = session.last_seq; retry_attempt = 0 })) {
                phase = p;
              })
    seeded true p = record { gap_at = s.gap_at; gaps = s.gaps; wanted = s.wanted }
    seeded false p = record { gap_at = s.gap_at; gaps = s.gaps; wanted = s.wanted }

first_gap :
    (n : ℕ) (c : Client)
    → c.gap_count ≡ 0
    → c.closed_by_user ≡ false
    → Streak n 1 (decide_resync (count_gap (Number.finite n) c))
unfolding count_gap decide_resync
first_gap n c none_yet wanted = record {
  gap_at = ground (arith, none_yet, wanted);
  gaps = ground (arith, none_yet, wanted);
  wanted = ground (arith, none_yet, wanted);
}

second_gap :
    (n : ℕ) (c : Client) → Streak n 1 c → Streak n 2 (decide_resync (count_gap (Number.finite n) c))
unfolding count_gap decide_resync
second_gap n c s = record {
  gap_at = ground (arith, s.gap_at, s.gaps, s.wanted);
  gaps = ground (arith, s.gap_at, s.gaps, s.wanted);
  wanted = ground (arith, s.gap_at, s.gaps, s.wanted);
}

third_gap :
    (n : ℕ) (c : Client)
    → Streak n 2 c
    → ((decide_resync (count_gap (Number.finite n) c)).full_resync ≡ true)
      × ((decide_resync (count_gap (Number.finite n) c)).closed_by_user ≡ false)
unfolding count_gap decide_resync
third_gap n c s =
    (ground (arith, s.gap_at, s.gaps, s.wanted), ground (arith, s.gap_at, s.gaps, s.wanted))

gap_round-Streak :
    (w : World) (n k : ℕ) (snap : SnapshotPayload) (c : Client)
    → Streak n k (decide_resync (count_gap (Number.finite n) c))
    → Streak n k (gap_round w n snap c)
unfolding gap_round
gap_round-Streak w n k snap c s =
    handle_snapshot-Streak w snap _
      (carry (Keeps-trans (note_gap-Keeps w (Number.finite n) c) (timer_fired-Keeps w _)) s)

-- Both flags of a client that is to start afresh.
record IsDue (c : Client) : Type 0 where
  due : c.full_resync ≡ true
  wanted : c.closed_by_user ≡ false

schedule_reconnect-IsDue : (w : World) (c : Client) → IsDue c → IsDue (schedule_reconnect w c)
unfolding schedule_reconnect start_timer set_phase publish
schedule_reconnect-IsDue w c d =
    if_cases IsDue c.closed_by_user _ _ (λ _. d) (λ _. timed c.reconnect_timer _ _ d.due d.wanted)
  where
    timed :
        (t : Option ℕ) (c : Client) (delay : ℕ)
        → c.full_resync ≡ true
        → c.closed_by_user ≡ false
        → IsDue (start_timer delay (clear_if_set t c))
    timed none c delay h k = record { due = h; wanted = k }
    timed (some t) c delay h k = record { due = h; wanted = k }

detach_and_close-IsDue :
    (code : ℕ) (reason : Value) (c : Client) → IsDue c → IsDue (detach_and_close code reason c)
unfolding detach_and_close
detach_and_close-IsDue code reason c d =
    option_cases IsDue c.socket _ _ (λ _. record { due = d.due; wanted = d.wanted })
      (λ s _. record { due = d.due; wanted = d.wanted })

third_note_gap-IsDue :
    (w : World) (n : ℕ) (c : Client) → Streak n 2 c → IsDue (note_gap w (Number.finite n) c)
unfolding note_gap
third_note_gap-IsDue w n c s =
    let (due, wanted) = third_gap n c s in
    let d =
      detach_and_close-IsDue 1011 (str (codes "seq gap")) _
        (record { due = due; wanted = wanted }) in
    if_cases IsDue _ _ _ (λ _. d) (λ _. schedule_reconnect-IsDue w _ d)

still_new :
    {c c' : Client} → Keeps c c' → c.session ≡ new_session_state → c'.session ≡ new_session_state
still_new k e = elim k.session [ inl same ↦ same ∙ e | inr new ↦ new ]

resync-session : (c : Client) → c.full_resync ≡ true → (resync c).session ≡ new_session_state
unfolding resync
resync-session c h = ground (arith, h)

timer_fired-session :
    (w : World) (c : Client) → IsDue c → (timer_fired w c).session ≡ new_session_state
unfolding timer_fired open_normal_socket set_phase publish
timer_fired-session w c d =
    if_cases (λ (a : Client). a.session ≡ new_session_state) c.closed_by_user _ _
      (λ closed. absurd (ground (arith, closed, d.wanted)))
      (λ _. still_new (create_normal_socket-Keeps w _) (resync-session _ d.due))

hello_for-last_seq : (c : Client) → (hello_for c).last_seq ≡ c.session.last_seq
unfolding hello_for
hello_for-last_seq c =
    option_cases (λ (h : HelloPayload). h.last_seq ≡ c.session.last_seq) c.identity _ _ (λ _. refl)
      (λ i _. refl)

-- A client that wants a connection and has no streak of gaps sees three gaps in a row at one number,
-- with the timer and any snapshot between them: when the timer fires again, its session is the empty
-- one, and the next `hello` asks for the events from the first on.
pub third_gap_starts_afresh :
    (n : ℕ) (first second third : World) (before after : SnapshotPayload) (c : Client)
    → c.gap_count ≡ 0
    → c.closed_by_user ≡ false
    → let d = gap_round second n after (gap_round first n before c) in
      let e = timer_fired third (note_gap third (Number.finite n) d) in
      (e.session ≡ new_session_state) × ((hello_for e).last_seq ≡ 0)
third_gap_starts_afresh n first second third before after c none_yet wanted =
    let one = gap_round-Streak first n 1 before c (first_gap n c none_yet wanted) in
    let two = gap_round-Streak second n 2 after _ (second_gap n _ one) in
    let new = timer_fired-session third _ (third_note_gap-IsDue third n _ two) in
    (new, hello_for-last_seq _ ∙ ap (λ (s : SessionState). s.last_seq) new)
