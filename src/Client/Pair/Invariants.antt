-- ===== src/Client/Pair/Invariants.antt =====
-- client.ts: the invariants of a client, over histories with pairing.
use msclaude_connector.Prelude.{ℕ, refl, List, [], ◌∷◌, Option, arith, Text}
use msclaude_connector.Prelude.Maps.{lookup}
use msclaude_connector.Client.{Client, World, AuthMode, HarnessIdentity}
use msclaude_connector.Client.Notify.{new_client}
use msclaude_connector.Client.Sockets.{Step, step}
use msclaude_connector.Client.Frame.{Keeps}
use msclaude_connector.Client.Queues.{Keeps-Settled}
use msclaude_connector.Client.Replay.{IsReplayed, fresh, kept as kept-IsReplayed, step-IsReplayed}
use msclaude_connector.Client.Replay.Views.{IsPresentable, Replayed-IsPresentable}
use msclaude_connector.Client.Live.{IsCaughtUp, kept as kept-IsCaughtUp}
use msclaude_connector.Client.Live.History.{step-IsCaughtUp}
use msclaude_connector.Client.Outbox.{IsQueued, step-IsQueued, Settled-IsQueued}
use msclaude_connector.Client.Pair.{Pairing, Event, pair_step, pair_run}
use msclaude_connector.Client.Pair.Moves.{Moves-preserve, pair_step-After}

-- The invariants of a client, together.
pub record IsSound (c : Client) : Type 0 where
  pub replayed : IsReplayed c
  pub caught_up : IsCaughtUp c
  pub queued : IsQueued c

step-IsSound : (w : World) (s : Step) (c : Client) → IsSound c → IsSound (step w s c)
step-IsSound w s c h = record {
  replayed = step-IsReplayed w s c h.replayed;
  caught_up = step-IsCaughtUp w s c h.caught_up;
  queued = step-IsQueued w s h.queued;
}

Keeps-IsSound : (c d : Client) → Keeps c d → IsSound c → IsSound d
Keeps-IsSound c d k h = record {
  replayed = kept-IsReplayed k h.replayed;
  caught_up = kept-IsCaughtUp k h.caught_up;
  queued = Settled-IsQueued (Keeps-Settled k) h.queued;
}

pair_run-IsSound :
    (p : Pairing) (h : List (World × Event)) → IsSound p.client → IsSound (pair_run p h).client
unfolding pair_run
pair_run-IsSound p [] r = r
pair_run-IsSound p ((w, e) ∷ h) r =
    pair_run-IsSound (pair_step w e p) h
      (Moves-preserve IsSound step-IsSound Keeps-IsSound (pair_step-After p w e).moved r)

-- A new client that no call of `pair` was made on.
unfoldable pub unpaired : Text → AuthMode → Option HarnessIdentity → Option ℕ → Pairing
unpaired url mode identity max = record { client = new_client url mode identity max; attempts = [] }

-- Whatever happens to a new client, calls of `pair` and the events of their sockets included, its
-- session is one that the reducer builds and is fit to be shown, it has caught up with the tip when it
-- is live, and its outbox is within its limit and has only commands whose promises wait.
pub pairing_keeps_invariants :
    (url : Text) (mode : AuthMode) (identity : Option HarnessIdentity) (max : Option ℕ)
    (h : List (World × Event))
    → let c = (pair_run (unpaired url mode identity max) h).client in
      IsSound c × IsPresentable c.max_items c.session
unfolding unpaired new_client lookup
pairing_keeps_invariants url mode identity max h =
    let sound = pair_run-IsSound (unpaired url mode identity max) h (record {
      replayed = record { replay = fresh };
      caught_up = record { at_tip = λ l. omega arith };
      queued = record { bounded = omega arith; waits = λ id _. refl };
    }) in
    (sound, Replayed-IsPresentable sound.replayed.replay)
