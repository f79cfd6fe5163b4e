-- ===== src/Client/Replay.antt =====
-- client.ts against reducer.ts: over any history, which sessions a client can have.
pub mod Views
use mathlib.Core.Path.{subst}
use msclaude_connector.Prelude.{ℕ, suc, ◌<◌, ◌≡◌, refl, sym, Bool, List, Option, arith, Text}
use msclaude_connector.Wire.{EventPayload, SnapshotPayload, event_of}
use msclaude_connector.Session.{SessionState, new_session_state}
use msclaude_connector.Session.Events.{apply_event}
use msclaude_connector.Session.Snapshot.{apply_snapshot}
use msclaude_connector.Client.{Client, World, HarnessIdentity, AuthMode}
use msclaude_connector.Client.Notify.{new_client}
use msclaude_connector.Client.Messages.{bound_items}
use msclaude_connector.Client.Sockets.{
  Step, step, run, connects, closes, resets, identifies, restores, commands, opened, received,
  closed, fired,
}
use msclaude_connector.Client.Received.{on_message-kept, run-kept}
use msclaude_connector.Client.Frame.{Keeps}
use msclaude_connector.Client.Sessions.{
  Holds, kept as kept_Holds, step-Holds, set_last_seq-Holds, handle_snapshot-Holds,
  handle_event_at-Holds, handle_ack-Holds, handle_error-Holds,
}

-- The sessions that the reducer can build, with the items bounded by `max`.
pub data Replayed (max : Option ℕ) : SessionState → Type 0 where
  fresh : Replayed max new_session_state
  seeded :
      {s : SessionState}
      → Replayed max s
      → (snap : SnapshotPayload) → Replayed max (apply_snapshot s snap)
  advanced :
      {s : SessionState}
      → Replayed max s
      → (has_encoder : Bool) (ev : EventPayload) → ev.seq ≡ suc s.last_seq
      → Replayed max (bound_items max (apply_event has_encoder s ev))
  restored :
      {s : SessionState}
      → Replayed max s
      → (seq : ℕ) → s.last_seq < seq
      → Replayed max (record s { last_seq = seq })

pub record IsReplayed (c : Client) : Type 0 where
  pub replay : Replayed c.max_items c.session

to_Holds : {c : Client} → IsReplayed c → Holds c.max_items (Replayed c.max_items) c
to_Holds r = record { bound = refl; holds = r.replay }

from_Holds : {max : Option ℕ} {c : Client} → Holds max (Replayed max) c → IsReplayed c
from_Holds {max} {c} h = record { replay = subst (λ m. Replayed m c.session) (sym h.bound) h.holds }

pub kept : {c c' : Client} → Keeps c c' → IsReplayed c → IsReplayed c'
kept {c} k r = from_Holds (kept_Holds c.max_items (Replayed c.max_items) fresh k (to_Holds r))

-- What a message or a restored number may do is what `Replayed` allows.
pub step-IsReplayed : (w : World) (s : Step) (c : Client) → IsReplayed c → IsReplayed (step w s c)
unfolding step event_of
step-IsReplayed w (restores n) c r = from_Holds (
    set_last_seq-Holds c.max_items _ fresh n c (λ seq _ later. restored r.replay seq later)
      (to_Holds r))
step-IsReplayed w (received s m) c r =
    let max = c.max_items in
    let Q = Replayed c.max_items in
    let h = to_Holds r in
    from_Holds (
      on_message-kept (Holds max Q) w c h
        (λ snap. handle_snapshot-Holds max Q fresh w snap c (seeded r.replay snap) h)
        (λ n ev.
          handle_event_at-Holds max Q fresh w n ev c
            (λ seq _ next. advanced r.replay w.has_encoder (event_of seq ev) next) h)
        (λ ack. handle_ack-Holds max Q fresh ack c h)
        (λ err. handle_error-Holds max Q fresh err c h) s m)
step-IsReplayed w (connects i) c r =
    from_Holds (step-Holds c.max_items _ fresh w (connects i) c refl (to_Holds r))
step-IsReplayed w closes c r =
    from_Holds (step-Holds c.max_items _ fresh w closes c refl (to_Holds r))
step-IsReplayed w resets c r =
    from_Holds (step-Holds c.max_items _ fresh w resets c refl (to_Holds r))
step-IsReplayed w (identifies i) c r =
    from_Holds (step-Holds c.max_items _ fresh w (identifies i) c refl (to_Holds r))
step-IsReplayed w (commands id kind payload) c r =
    from_Holds (step-Holds c.max_items _ fresh w (commands id kind payload) c refl (to_Holds r))
step-IsReplayed w (opened s) c r =
    from_Holds (step-Holds c.max_items _ fresh w (opened s) c refl (to_Holds r))
step-IsReplayed w (closed s code) c r =
    from_Holds (step-Holds c.max_items _ fresh w (closed s code) c refl (to_Holds r))
step-IsReplayed w fired c r =
    from_Holds (step-Holds c.max_items _ fresh w fired c refl (to_Holds r))

-- Whatever happens to a new client (reconnects, gaps, duplicates, errors and closes included), its
-- session is one that the reducer builds: the empty session, changed by snapshots, by events each of
-- which has the number after the last one, and by a restored later `lastSeq`.
pub run-new_client-IsReplayed :
    (url : Text) (mode : AuthMode) (identity : Option HarnessIdentity) (max : Option ℕ)
    (h : List (World × Step))
    → IsReplayed (run (new_client url mode identity max) h)
unfolding new_client
run-new_client-IsReplayed url mode identity max h =
    run-kept IsReplayed step-IsReplayed _ h (record { replay = fresh })
