-- ===== src/Client/Setup.antt =====
-- client.ts: what a new connection leaves of a client's setup: how it is identified, where it
-- connects, and its session.
use msclaude_connector.Prelude.{
  ℕ, false, ◌≡◌, refl, ◌∙◌, Option, none, some, arith, if_cases, option_cases,
}
use msclaude_connector.Client.{Client, World, ConnPhase, HarnessIdentity}
use msclaude_connector.Client.Notify.{publish, set_phase}
use msclaude_connector.Client.Reconnect.{
  open_normal_socket, create_normal_socket, resync, schedule_reconnect, start_timer, clear_if_set,
  stop_timer, restarted, connect,
}

-- Two states of one client with the same setup. Only a full resync takes a session away.
pub record SameSetup (c d : Client) : Type 0 where
  pub url : d.url ≡ c.url
  pub mode : d.auth_mode ≡ c.auth_mode
  pub identity : d.identity ≡ c.identity
  pub wanted : d.closed_by_user ≡ c.closed_by_user
  pub resyncs : c.full_resync ≡ false → d.full_resync ≡ false
  pub session : c.full_resync ≡ false → d.session ≡ c.session

module _ (c : Client) where
  SameSetup-refl : SameSetup c c
  SameSetup-refl = record {
    url = refl;
    mode = refl;
    identity = refl;
    wanted = refl;
    resyncs = λ h. h;
    session = λ h. refl;
  }

  -- A change of fields that are no part of the setup.
  changed :
      (d d' : Client)
      → d'.url ≡ d.url
      → d'.auth_mode ≡ d.auth_mode
      → d'.identity ≡ d.identity
      → d'.closed_by_user ≡ d.closed_by_user
      → d'.full_resync ≡ d.full_resync
      → d'.session ≡ d.session
      → SameSetup c d
      → SameSetup c d'
  changed d d' u m i w f s k = record {
    url = u ∙ k.url;
    mode = m ∙ k.mode;
    identity = i ∙ k.identity;
    wanted = w ∙ k.wanted;
    resyncs = λ h. f ∙ k.resyncs h;
    session = λ h. s ∙ k.session h;
  }

  set_phase-SameSetup :
      (phase : ConnPhase) (d : Client) → SameSetup c d → SameSetup c (set_phase phase d)
  unfolding set_phase publish
  set_phase-SameSetup phase d = changed d (set_phase phase d) refl refl refl refl refl refl

  clear_if_set-SameSetup :
      (t : Option ℕ) (d : Client) → SameSetup c d → SameSetup c (clear_if_set t d)
  clear_if_set-SameSetup none d k = k
  clear_if_set-SameSetup (some t) d k =
      changed d (clear_if_set (some t) d) refl refl refl refl refl refl k

  schedule_reconnect-SameSetup :
      (w : World) (d : Client) → SameSetup c d → SameSetup c (schedule_reconnect w d)
  unfolding schedule_reconnect start_timer
  schedule_reconnect-SameSetup w d k =
      if_cases (SameSetup c) d.closed_by_user _ _ (λ _. k)
        λ _.
          let waiting = set_phase ConnPhase.reconnecting _ in
          changed (clear_if_set waiting.reconnect_timer waiting) _ refl refl refl refl refl refl (
            clear_if_set-SameSetup waiting.reconnect_timer waiting (
              set_phase-SameSetup ConnPhase.reconnecting _
                (changed d _ refl refl refl refl refl refl k)))

  create_normal_socket-SameSetup :
      (w : World) (d : Client) → SameSetup c d → SameSetup c (create_normal_socket w d)
  unfolding create_normal_socket
  create_normal_socket-SameSetup w d k =
      option_cases (SameSetup c) w.create_failure _ _
        (λ _. changed d _ refl refl refl refl refl refl k)
        (λ message _.
          schedule_reconnect-SameSetup w _ (changed d _ refl refl refl refl refl refl k))

  resync-SameSetup : (d : Client) → SameSetup c d → SameSetup c (resync d)
  unfolding resync
  resync-SameSetup d k =
      if_cases (SameSetup c) d.full_resync _ _
        (λ e. record {
          url = k.url;
          mode = k.mode;
          identity = k.identity;
          wanted = k.wanted;
          resyncs = λ h. refl;
          session = λ h. absurd (ground (arith, e, k.resyncs h));
        })
        (λ _. k)

  stop_timer-SameSetup : (d : Client) → SameSetup c d → SameSetup c (stop_timer d)
  unfolding stop_timer
  stop_timer-SameSetup d k =
      option_cases (SameSetup c) d.reconnect_timer _ _ (λ _. k)
        (λ t _. changed d _ refl refl refl refl refl refl k)

-- `connect` changes no more of the setup than its argument and the wish to connect.
pub connect-SameSetup :
    (w : World) (identity : Option HarnessIdentity) (c : Client)
    → SameSetup (restarted identity c) (connect w identity c)
unfolding connect open_normal_socket
connect-SameSetup w identity c =
    let start = restarted identity c in
    create_normal_socket-SameSetup start w _ (
      resync-SameSetup start _
        (set_phase-SameSetup start _ _ (stop_timer-SameSetup start start (SameSetup-refl start))))
