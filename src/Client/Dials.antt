-- ===== src/Client/Dials.antt =====
-- client.ts: the socket that `connect` creates.
use msclaude_connector.Prelude.{
  ℕ, ◌+◌, ◌≡◌, refl, sym, ap, ◌∙◌, ◌⊎◌, inl, inr, false, List, [], ◌∷◌, ◌++◌, Option, none, some,
  arith, Text, if_cases, option_cases,
}
use mathlib.Core.List.{append-nil, append_assoc}
use msclaude_connector.Prelude.Maps.{Map}
use msclaude_connector.Client.{
  Client, World, Effect, ConnPhase, HarnessIdentity, create_socket, set_timer, clear_timer, notify,
}
use msclaude_connector.Client.Backoff.{compute_backoff}
use msclaude_connector.Client.Notify.{publish, set_phase}
use msclaude_connector.Client.Reconnect.{
  emit, headers_for, open_normal_socket, create_normal_socket, resync, schedule_reconnect,
  start_timer, clear_if_set, stop_timer, restarted, connect, socket_failure,
}

abbrev pub created : Effect → List (Text × Map Text)
created (create_socket url headers) = (url, headers) ∷ []
created _ = []

-- The sockets that were created, each by its URL and headers, in their order.
unfoldable pub creations : List Effect → List (Text × Map Text)
creations [] = []
creations (e ∷ es) = created e ++ creations es

pub creations-append : (es fs : List Effect) → creations (es ++ fs) ≡ creations es ++ creations fs
unfolding creations
creations-append [] fs = refl
creations-append (e ∷ es) fs =
    ap (λ l. created e ++ l) (creations-append es fs)
    ∙ sym (append_assoc (created e) (creations es) (creations fs))

-- From `c` to `d` one socket is created, to the URL and with the headers. It is the client's, or,
-- where creating it throws, a timer is set for the next attempt.
pub record Dials (w : World) (url : Text) (headers : Map Text) (c d : Client) : Type 0 where
  pub asked : creations d.effects ≡ creations c.effects ++ (url, headers) ∷ []
  pub begun :
      ((w.create_failure ≡ none) × (d.socket ≡ some c.sockets))
      ⊎ ((message : Text) × (w.create_failure ≡ some message) × (d.reconnect_timer ≡ some c.timers))

-- `d` has come from `c` without a socket or a timer, and wants a connection to the URL with the
-- headers.
pub record IsReady (url : Text) (headers : Map Text) (c d : Client) : Type 0 where
  pub address : d.url ≡ url
  pub authority : headers_for d.auth_mode d.identity ≡ headers
  pub quiet : creations d.effects ≡ creations c.effects
  pub sockets : d.sockets ≡ c.sockets
  pub timers : d.timers ≡ c.timers
  pub wanted : d.closed_by_user ≡ false

-- An effect other than a new socket.
pub no_creation :
    (e : Effect) (es : List Effect) {l : List (Text × Map Text)}
    → created e ≡ []
    → creations es ≡ l
    → creations (es ++ e ∷ []) ≡ l
unfolding creations
no_creation e es none_there h =
    creations-append es (e ∷ [])
    ∙ ap (λ l. creations es ++ (l ++ [])) none_there
    ∙ append-nil (creations es)
    ∙ h

module _ (url : Text) (headers : Map Text) (c : Client) where
  set_phase-IsReady :
      (p : ConnPhase) (d : Client) → IsReady url headers c d → IsReady url headers c (set_phase p d)
  unfolding set_phase publish
  set_phase-IsReady p d r = record {
    address = r.address;
    authority = r.authority;
    quiet = no_creation notify d.effects refl r.quiet;
    sockets = r.sockets;
    timers = r.timers;
    wanted = r.wanted;
  }

  resync-IsReady : (d : Client) → IsReady url headers c d → IsReady url headers c (resync d)
  unfolding resync
  resync-IsReady d r =
      if_cases (IsReady url headers c) d.full_resync _ _
        (λ _. record {
          address = r.address;
          authority = r.authority;
          quiet = r.quiet;
          sockets = r.sockets;
          timers = r.timers;
          wanted = r.wanted;
        })
        (λ _. r)

  stop_timer-IsReady : (d : Client) → IsReady url headers c d → IsReady url headers c (stop_timer d)
  unfolding stop_timer
  stop_timer-IsReady d r =
      option_cases (IsReady url headers c) d.reconnect_timer _ _ (λ _. r)
        (λ t _. record {
          address = r.address;
          authority = r.authority;
          quiet = no_creation (clear_timer t) d.effects refl r.quiet;
          sockets = r.sockets;
          timers = r.timers;
          wanted = r.wanted;
        })

restarted-IsReady :
    (i : Option HarnessIdentity) (c : Client)
    → IsReady c.url (headers_for c.auth_mode (restarted i c).identity) c (restarted i c)
restarted-IsReady none c = record {
  address = refl;
  authority = refl;
  quiet = refl;
  sockets = refl;
  timers = refl;
  wanted = refl;
}
restarted-IsReady (some i) c = record {
  address = refl;
  authority = refl;
  quiet = refl;
  sockets = refl;
  timers = refl;
  wanted = refl;
}

-- A timer is set, and no socket is created.
record Waits (d e : Client) : Type 0 where
  quiet : creations e.effects ≡ creations d.effects
  timer : e.reconnect_timer ≡ some d.timers

schedule_reconnect-Waits :
    (w : World) (d : Client) → d.closed_by_user ≡ false → Waits d (schedule_reconnect w d)
unfolding schedule_reconnect start_timer set_phase publish
schedule_reconnect-Waits w d open_still =
    if_cases (Waits d) d.closed_by_user _ _ (λ closed. absurd (ground (arith, closed, open_still)))
      (λ _.
        let delay = compute_backoff w d.retry_attempt in
        let phased =
          set_phase ConnPhase.reconnecting
            (record d { retry_attempt = d.retry_attempt + 1; retry_in_ms = some delay }) in
        started phased.reconnect_timer phased delay refl (no_creation notify d.effects refl refl))
  where
    started :
        (t : Option ℕ) (p : Client) (delay : ℕ)
        → p.timers ≡ d.timers
        → creations p.effects ≡ creations d.effects
        → Waits d (start_timer delay (clear_if_set t p))
    started none p delay same quiet = record {
      quiet = no_creation (set_timer p.timers delay) p.effects refl quiet;
      timer = ap some same;
    }
    started (some t) p delay same quiet = record {
      quiet =
          no_creation (set_timer p.timers delay) (p.effects ++ clear_timer t ∷ []) refl
            (no_creation (clear_timer t) p.effects refl quiet);
      timer = ap some same;
    }

create_normal_socket-Dials :
    (w : World) (url : Text) (headers : Map Text) (c d : Client)
    → IsReady url headers c d
    → Dials w url headers c (create_normal_socket w d)
unfolding create_normal_socket creations
create_normal_socket-Dials w url headers c d r =
    let asked = emit (create_socket d.url (headers_for d.auth_mode d.identity)) d in
    let one : creations asked.effects ≡ creations c.effects ++ (url, headers) ∷ [] =
      creations-append d.effects (create_socket d.url (headers_for d.auth_mode d.identity) ∷ [])
      ∙ rw (r.address, r.authority, r.quiet) refl in
    option_cases (Dials w url headers c) w.create_failure _ _
      (λ works. record { asked = one; begun = inl (works, ap some r.sockets) })
      (λ message fails.
        let later = schedule_reconnect-Waits w (socket_failure message asked) r.wanted in
        record {
          asked = later.quiet ∙ one;
          begun = inr (message, fails, later.timer ∙ ap some r.timers);
        })

-- `connect` dials the client's URL, with the headers of its identity.
pub connect-Dials :
    (w : World) (identity : Option HarnessIdentity) (c : Client)
    → Dials w c.url
        (headers_for c.auth_mode (restarted identity c).identity)
        c
        (connect w identity c)
unfolding connect open_normal_socket
connect-Dials w identity c =
    let url = c.url in
    let start = restarted identity c in
    let headers = headers_for c.auth_mode start.identity in
    create_normal_socket-Dials w url headers c _ (
      resync-IsReady url headers c _ (
        set_phase-IsReady url headers c _ _
          (stop_timer-IsReady url headers c start (restarted-IsReady identity c))))
