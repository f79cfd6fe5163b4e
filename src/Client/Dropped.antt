-- ===== src/Client/Dropped.antt =====
-- client.ts: the close event of a socket that a client still listens to.
use msclaude_connector.Prelude.{ℕ, ◌≡◌, refl, false, ◌||◌, Option, none, some, arith, if_cases}
use msclaude_connector.Client.{Client, World, ConnPhase}
use msclaude_connector.Client.Notify.{publish, set_phase}
use msclaude_connector.Client.Reconnect.{schedule_reconnect, start_timer, clear_if_set}
use msclaude_connector.Client.Sockets.{on_close, is_detached, is_policy_close, has_given_up}

-- A client that waits for its timer to connect again.
pub record IsReconnecting (c : Client) : Type 0 where
  pub phase : c.phase ≡ ConnPhase.reconnecting
  pub timer : (t : ℕ) × (c.reconnect_timer ≡ some t)

schedule_reconnect-IsReconnecting :
    (w : World) (c : Client) → c.closed_by_user ≡ false → IsReconnecting (schedule_reconnect w c)
unfolding schedule_reconnect start_timer set_phase publish
schedule_reconnect-IsReconnecting w c h =
    if_cases IsReconnecting c.closed_by_user _ _ (λ closed. absurd (ground (arith, closed, h)))
      (λ _. started c.reconnect_timer _ _ refl)
  where
    started :
        (t : Option ℕ) (d : Client) (delay : ℕ)
        → d.phase ≡ ConnPhase.reconnecting
        → IsReconnecting (start_timer delay (clear_if_set t d))
    started none d delay p = record { phase = p; timer = (d.timers, refl) }
    started (some t) d delay p = record { phase = p; timer = (d.timers, refl) }

-- A socket that is not detached closes, with a code that ends no client, and the client has not given
-- up: it connects again.
pub on_close-IsReconnecting :
    (w : World) (s : ℕ) (code : Option ℕ) (c : Client)
    → is_detached s c ≡ false
    → c.closed_by_user ≡ false
    → is_policy_close code ≡ false
    → has_given_up c.phase ≡ false
    → IsReconnecting (on_close w s code c)
unfolding on_close
on_close-IsReconnecting w s code c on wanted mild trying =
    if_cases IsReconnecting (is_detached s c || c.closed_by_user) _ _
      (λ off. absurd (ground (arith, off, on, wanted)))
      λ _.
        if_cases IsReconnecting (is_policy_close code) _ _ (λ e. absurd (ground (arith, e, mild)))
          λ _.
            if_cases IsReconnecting (has_given_up c.phase) _ _
              (λ e. absurd (ground (arith, e, trying)))
              (λ _. schedule_reconnect-IsReconnecting w c wanted)
