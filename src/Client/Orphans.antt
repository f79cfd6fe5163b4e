-- ===== src/Client/Orphans.antt =====
-- client.ts: what a snapshot of another session does to the commands that wait.
use msclaude_connector.Prelude.{◌≡◌, refl, ◌∙◌, Bool, true, false, [], Text, leb, if_cases}
use msclaude_connector.Wire.{SnapshotPayload}
use msclaude_connector.Session.{SessionState}
use msclaude_connector.Session.Snapshot.{apply_snapshot, is_other_session}
use msclaude_connector.Client.{Client, World, ConnPhase}
use msclaude_connector.Client.Notify.{set_phase}
use msclaude_connector.Client.Messages.{handle_snapshot, clear_outbox_if}
use msclaude_connector.Client.Frame.{Keeps, Keeps-trans, publish-Keeps, settle_count}
use msclaude_connector.Client.Frame.Reconnect.{flush_outbox-Keeps}

-- The outbox of `c` is dropped in `d`, and the promises of its commands wait as before.
pub record IsOrphaned (c d : Client) : Type 0 where
  pub dropped : d.outbox ≡ []
  pub waiting : d.pending ≡ c.pending
  pub unsettled : (id : Text) → settle_count id d.effects ≡ settle_count id c.effects

carry : {c d e : Client} → Keeps d e → IsOrphaned c d → IsOrphaned c e
carry k o = record {
  dropped = k.outbox ∙ o.dropped;
  waiting = k.pending ∙ o.waiting;
  unsettled = λ id. k.outcomes id ∙ o.unsettled id;
}

-- A snapshot of another session drops every command of the outbox, and neither resolves nor rejects
-- the promise of any of them.
pub handle_snapshot-IsOrphaned :
    (w : World) (snap : SnapshotPayload) (c : Client)
    → is_other_session c.session.session_id snap.session_id ≡ true
    → IsOrphaned c (handle_snapshot w snap c)
unfolding handle_snapshot set_phase
handle_snapshot-IsOrphaned w snap c other =
    if_cases (IsOrphaned c) (leb session.tip_seq session.last_seq) _ _
      (λ _.
        carry (Keeps-trans (publish-Keeps _) (flush_outbox-Keeps w _))
          (cleared _ ConnPhase.live other))
      (λ _. carry (publish-Keeps _) (cleared _ ConnPhase.syncing other))
  where
    session : SessionState
    session = apply_snapshot c.session snap

    cleared :
        (b : Bool) (p : ConnPhase)
        → b ≡ true
        → IsOrphaned c
            (record (clear_outbox_if b
              (record c { session = session; sync_base = session.last_seq; retry_attempt = 0 })) {
                phase = p;
              })
    cleared true p h = record { dropped = refl; waiting = refl; unsettled = λ id. refl }
    cleared false p h = cc
