-- ===== src/Mobile/Restart.antt =====
-- mobileClient.ts with the host: an application that starts again while the log has nothing new.
use mathlib.Core.Path.{subst}
use msclaude_connector.Prelude.{
  ℕ, ◌≤◌, ◌≡◌, refl, sym, ap, ◌∙◌, false, true, [], none, some, arith, leb, length, map, drop,
  drop-length, if_cases,
}
use msclaude_connector.Wire.{SnapshotPayload, snapshot_of}
use msclaude_connector.Session.{SessionState, new_session_state}
use msclaude_connector.Session.Snapshot.{apply_snapshot, base_for, is_other_session}
use msclaude_connector.Client.{Client, World, HarnessIdentity}
use msclaude_connector.Client.Notify.{new_client, publish}
use msclaude_connector.Client.Commands.{is_live}
use msclaude_connector.Client.Reconnect.{set_last_seq}
use msclaude_connector.Client.Setup.{connect-SameSetup}
use msclaude_connector.Client.Sessions.{handle_snapshot-Holds}
use msclaude_connector.Client.Sockets.{is_detached}
use msclaude_connector.Host.{Store, Snapshot, snapshot, hello_frames, snapshot_fields, event}
use msclaude_connector.Host.Log.{IsLog}
use msclaude_connector.Host.Received.{handle_frame}
use msclaude_connector.Host.Shows.{Shows, shows_restored}
use msclaude_connector.Host.Place.{deliver_all, IsAt}
use msclaude_connector.Host.CatchUp.{deliver_all-hello_frames, hello_frames-IsAt}
use msclaude_connector.Mobile.Boot.{new_instance, started}

new_instance-session :
    (i : HarnessIdentity) (n : ℕ)
    → (new_instance (some i) n).session ≡ record new_session_state { last_seq = n }
unfolding new_instance set_last_seq new_client publish
new_instance-session i n =
    if_cases (λ (c : Client). c.session ≡ record new_session_state { last_seq = n }) (leb n 0) _ _
      (λ e.
        let zero : 0 ≡ n = ground (arith, e) in
        ap (λ m. record new_session_state { last_seq = m }) zero)
      (λ _. refl)

new_instance-resyncs : (i : HarnessIdentity) (n : ℕ) → (new_instance (some i) n).full_resync ≡ false
unfolding new_instance set_last_seq new_client publish
new_instance-resyncs i n =
    if_cases (λ (c : Client). c.full_resync ≡ false) (leb n 0) _ _ (λ _. refl) (λ _. refl)

-- The session that the application starts with: nothing but the number.
started-session :
    (w : World) (i : HarnessIdentity) (n : ℕ)
    → (started w (some i) n).session ≡ record new_session_state { last_seq = n }
unfolding started
started-session w i n =
    (connect-SameSetup w none (new_instance (some i) n)).session (new_instance-resyncs i n)
    ∙ new_instance-session i n

still_empty :
    (s : SessionState) (snap : SnapshotPayload) → s.items ≡ [] → (apply_snapshot s snap).items ≡ []
unfolding apply_snapshot base_for
still_empty s snap e =
    if_cases (λ (t : SessionState). t.items ≡ []) (is_other_session s.session_id snap.session_id) _
      _ (λ _. refl) (λ _. e)

module _ (w w' : World) (s : ℕ) (i : HarnessIdentity) (snap : Snapshot) (st : Store) where
  abbrev client : Client
  client = started w (some i) st.last_seq

  started-Shows : IsLog st → Shows w'.has_encoder none st.last_seq st client.session
  started-Shows log = rw (started-session w i st.last_seq) (
      shows_restored w'.has_encoder none st.last_seq st new_session_state st.last_seq
        (omega (arith, log.tip)) refl refl)

  greeted-items : IsLog st → (handle_frame w' (snapshot snap) client).session.items ≡ []
  unfolding handle_frame
  greeted-items log =
      let new = snapshot_of (snapshot_fields snap) in
      let none_yet : client.session.items ≡ [] =
        ap (λ (t : SessionState). t.items) (started-session w i st.last_seq) in
      let greeted =
        handle_snapshot-Holds client.max_items (λ t. t.items ≡ []) refl w' new client
          (still_empty client.session new none_yet) (record { bound = refl; holds = none_yet }) in
      greeted.holds

  -- There are no events to be sent.
  no_more_events : IsLog st → drop st.last_seq st.events ≡ []
  no_more_events log = ap (λ n. drop n st.events) log.tip ∙ drop-length st.events

  after_greeting :
      IsLog st
      → is_detached s client ≡ false
      → deliver_all w' s (hello_frames st.last_seq snap st) client
        ≡ handle_frame w' (snapshot snap) client
  unfolding deliver_all
  after_greeting log attached =
      deliver_all-hello_frames w'.has_encoder none st.last_seq w' s st.last_seq snap st client log
        attached
      ∙ ap (λ evs. deliver_all w' s (map event evs) (handle_frame w' (snapshot snap) client))
          (no_more_events log)

  -- An application that starts again with the number of the last event of the log, and then
  -- receives, on a socket that it listens to, the host's answer to its `hello` (a snapshot of the
  -- session that is not ahead of the log, and no event), is live at that number and shows no item,
  -- whatever the log has.
  pub restart_shows_nothing :
      IsLog st
      → snap.session_id ≡ st.session_id
      → snap.last_seq ≤ st.last_seq
      → is_detached s client ≡ false
      → let c = deliver_all w' s (hello_frames st.last_seq snap st) client in
        (is_live c.phase ≡ true) × (c.session.last_seq ≡ st.last_seq) × (c.session.items ≡ [])
  restart_shows_nothing log id le attached =
      let own = ap (λ (t : SessionState). t.last_seq) (started-session w i st.last_seq) in
      let at =
        subst
          (λ n.
            IsAt s (length st.events) snap.last_seq
              (deliver_all w' s (hello_frames n snap st) client))
          own
          (hello_frames-IsAt w'.has_encoder none st.last_seq w' s snap st client log id attached
            (started-Shows log)) in
      (
        ground (arith, at.phase, le, log.tip),
        at.last ∙ sym log.tip,
        ap (λ (c : Client). c.session.items) (after_greeting log attached) ∙ greeted-items log,
      )
