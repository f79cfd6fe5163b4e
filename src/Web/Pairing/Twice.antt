-- ===== src/Web/Pairing/Twice.antt =====
-- PairScreen.tsx with client.ts: `submit` calls `connect` after `pair`, which has called it already.
use msclaude_connector.Prelude.{
  ℕ, ◌+◌, ◌≡◌, refl, ap, ◌∙◌, Bool, true, false, List, Option, none, some, arith, codes, ◌==◌,
  if◌then◌else◌, if_cases, option_cases, any,
}
use msclaude_connector.Value.{str}
use msclaude_connector.Client.{Client, World, ConnPhase, HarnessIdentity, close_socket}
use msclaude_connector.Client.Notify.{publish, set_phase}
use msclaude_connector.Client.Reconnect.{
  emit, connect, open_normal_socket, create_normal_socket, resync, stop_timer, restarted,
}
use msclaude_connector.Client.Setup.{connect-SameSetup}
use msclaude_connector.Client.Sockets.{on_close, is_detached, is_policy_close, has_given_up}
use msclaude_connector.Client.Dropped.{IsReconnecting, on_close-IsReconnecting}
use msclaude_connector.Client.Pair.{on_paired}
use msclaude_connector.Web.Pairing.{Form, after_pair}

-- A client that has just opened the socket of number `s`, over others, with `detached` as it was.
record IsOpening (s : ℕ) (detached : List ℕ) (c : Client) : Type 0 where
  next : c.sockets ≡ s
  handlers : c.detached ≡ detached
  trying : has_given_up c.phase ≡ false

record IsFrom (s : ℕ) (detached : List ℕ) (c : Client) : Type 0 where
  next : c.sockets ≡ s
  handlers : c.detached ≡ detached

-- A client that waits for socket `s`.
pub record IsOn (s : ℕ) (detached : List ℕ) (c : Client) : Type 0 where
  pub socket : c.socket ≡ some s
  pub next : c.sockets ≡ s + 1
  pub handlers : c.detached ≡ detached
  pub trying : has_given_up c.phase ≡ false

create_normal_socket-IsOn :
    (w : World) (s : ℕ) (d : List ℕ) (c : Client)
    → w.create_failure ≡ none
    → IsOpening s d c
    → IsOn s d (create_normal_socket w c)
unfolding create_normal_socket
create_normal_socket-IsOn w s d c works h =
    option_cases (IsOn s d) w.create_failure _ _
      (λ _. record {
        socket = ap some h.next;
        next = ap (λ n. n + 1) h.next;
        handlers = h.handlers;
        trying = h.trying;
      })
      (λ message e. absurd (ground (arith, e, works)))

resync-IsOpening : (s : ℕ) (d : List ℕ) (c : Client) → IsOpening s d c → IsOpening s d (resync c)
unfolding resync
resync-IsOpening s d c h =
    if_cases (IsOpening s d) c.full_resync _ _
      (λ _. record { next = h.next; handlers = h.handlers; trying = h.trying }) (λ _. h)

stop_timer-IsFrom : (c : Client) → IsFrom c.sockets c.detached (stop_timer c)
unfolding stop_timer
stop_timer-IsFrom c =
    option_cases (IsFrom c.sockets c.detached) c.reconnect_timer _ _
      (λ _. record { next = refl; handlers = refl })
      (λ t _. record { next = refl; handlers = refl })

trying-IsOpening :
    (s : ℕ) (d : List ℕ) (b : Bool) (c : Client)
    → IsFrom s d c
    → IsOpening s d (set_phase (if b then ConnPhase.connecting else ConnPhase.reconnecting) c)
unfolding set_phase publish
trying-IsOpening s d true c h = record { next = h.next; handlers = h.handlers; trying = refl }
trying-IsOpening s d false c h = record { next = h.next; handlers = h.handlers; trying = refl }

-- The client of `on_paired` before it connects.
abbrev closing : ℕ → HarnessIdentity → Client → Client
closing s issued c = record (emit (close_socket s 1000 (str (codes "paired"))) c) {
  identity = some issued;
}

connect-IsOn :
    (w : World) (identity : Option HarnessIdentity) (c : Client)
    → w.create_failure ≡ none
    → IsOn c.sockets c.detached (connect w identity c)
unfolding connect open_normal_socket
connect-IsOn w none c works = create_normal_socket-IsOn w c.sockets c.detached _ works (
    resync-IsOpening c.sockets c.detached _
      (trying-IsOpening c.sockets c.detached _ _ (stop_timer-IsFrom (restarted none c))))
connect-IsOn w (some i) c works = create_normal_socket-IsOn w c.sockets c.detached _ works (
    resync-IsOpening c.sockets c.detached _
      (trying-IsOpening c.sockets c.detached _ _ (stop_timer-IsFrom (restarted (some i) c))))

-- After a pairing that succeeds the form connects once more, with no socket detached: of the two sockets
-- that the client then has created, the older one still has its handlers, and when it closes, with a
-- code that ends no client, the client connects again.
pub second_connect_keeps_first_socket :
    (w w' w'' : World) (s : ℕ) (issued : HarnessIdentity) (form : Form) (code : Option ℕ)
    (c : Client)
    → w.create_failure ≡ none
    → w'.create_failure ≡ none
    → is_detached c.sockets c ≡ false
    → is_policy_close code ≡ false
    → let paired = on_paired w s issued c in
      let d = (after_pair w' none form paired).1 in
      (paired.socket ≡ some c.sockets)
      × (d.socket ≡ some (c.sockets + 1))
      × (is_detached c.sockets d ≡ false)
      × IsReconnecting (on_close w'' c.sockets code d)
unfolding on_paired after_pair
second_connect_keeps_first_socket w w' w'' s issued form code c works works' fresh mild =
    let paired = on_paired w s issued c in
    let d = (after_pair w' none form paired).1 in
    let first = connect-IsOn w (some issued) (closing s issued c) works in
    let second = connect-IsOn w' none paired works' in
    let attached : is_detached c.sockets d ≡ false =
      ap (λ l. any (λ k. k == c.sockets) l) (second.handlers ∙ first.handlers) ∙ fresh in
    (
      first.socket,
      second.socket ∙ ap some first.next,
      attached,
      on_close-IsReconnecting w'' c.sockets code d attached
          (connect-SameSetup w' none paired).wanted mild second.trying,
    )
