-- ===== src/Mobile/Forget.antt =====
-- mobileClient.ts: the close event that follows `forgetDevice`.
use msclaude_connector.Prelude.{ℕ, ◌≡◌, refl, false, List, Option, none, some, arith, option_cases}
use msclaude_connector.Client.{Client, World, ConnPhase}
use msclaude_connector.Client.Notify.{publish, set_phase}
use msclaude_connector.Client.Reconnect.{close, reset, set_identity, close_if_set, stop_timer}
use msclaude_connector.Client.Sockets.{on_close, is_detached, is_policy_close}
use msclaude_connector.Client.Dropped.{IsReconnecting, on_close-IsReconnecting}
use msclaude_connector.Mobile.{forget_device}

-- A client that was closed: idle, with its handlers as they were.
record IsClosed (detached : List ℕ) (c : Client) : Type 0 where
  handlers : c.detached ≡ detached
  idle : c.phase ≡ ConnPhase.idle

close-IsClosed : (c : Client) → IsClosed c.detached (close c)
unfolding close stop_timer set_phase publish
close-IsClosed c =
    option_cases
      (λ (d : Client).
        IsClosed c.detached
          (set_phase ConnPhase.idle (record (close_if_set d.socket d) { socket = none })))
      c.reconnect_timer _ _ (λ _. dropped c.socket _ refl) (λ t _. dropped c.socket _ refl)
  where
    dropped :
        (s : Option ℕ) (d : Client)
        → d.detached ≡ c.detached
        → IsClosed c.detached
            (set_phase ConnPhase.idle (record (close_if_set s d) { socket = none }))
    dropped none d h = record { handlers = h; idle = refl }
    dropped (some s) d h = record { handlers = h; idle = refl }

-- After `forgetDevice` the close event of a socket that was not detached, with a code that is none of
-- the two that end a client, makes the client of the forgotten device connect again.
pub forget_device-IsReconnecting :
    (w : World) (s : ℕ) (code : Option ℕ) (c : Client)
    → is_detached s c ≡ false
    → is_policy_close code ≡ false
    → IsReconnecting (on_close w s code (forget_device c))
unfolding forget_device reset set_identity publish
forget_device-IsReconnecting w s code c on mild =
    let closed = close-IsClosed c in
    on_close-IsReconnecting w s code (forget_device c) (ground (arith, on, closed.handlers)) refl
      mild (ground (arith, closed.idle))
