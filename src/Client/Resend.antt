-- ===== src/Client/Resend.antt =====
-- client.ts: the queued commands after a reconnect.
use mathlib.Core.List.{append_assoc}
use msclaude_connector.Prelude.{
  ℕ, ◌≡◌, refl, ap, ◌∙◌, Bool, true, false, ◌&&◌, List, [], ◌∷◌, ◌++◌, some, arith, Text, text_eq,
  leb, ◌≤◌, if_cases, option_cases, inl, inr, Bool-cases,
}
use msclaude_connector.Prelude.Maps.{Map, lookup}
use msclaude_connector.Wire.{CommandPayload, SnapshotPayload}
use msclaude_connector.Session.{SessionState}
use msclaude_connector.Session.Snapshot.{apply_snapshot, is_other_session}
use msclaude_connector.Client.{Client, World, ConnPhase, Effect, send, command, notify}
use msclaude_connector.Client.Notify.{publish, set_phase}
use msclaude_connector.Client.Commands.{send_all, flush_outbox, is_live}
use msclaude_connector.Client.Messages.{handle_snapshot, clear_outbox_if}

-- The effect is among `effects`, behind those of `before`.
abbrev pub Emits : Effect → List Effect → List Effect → Type 0
Emits e before effects =
    (pre : List Effect) × (post : List Effect) × (effects ≡ before ++ (pre ++ e ∷ post))

send_all-sends :
    (s : ℕ) (m : Map CommandPayload) (id : Text) (body : CommandPayload)
    → lookup id m ≡ some body
    → Emits (send s (command body)) [] (send_all s m)
unfolding lookup
send_all-sends s [] id body h = cc
send_all-sends s ((j, b) ∷ m) id body h = elim (Bool-cases (text_eq j id)) [
  | inl same ↦ ([], send_all s m, ground (arith, same, h))
  | inr other ↦
      let (pre, post, e) = send_all-sends s m id body (ground (arith, other, h)) in
      (send s (command b) ∷ pre, post, ap (λ l. send s (command b) ∷ l) e)
]

flush_outbox-sends :
    (w : World) (s : ℕ) (c : Client) (id : Text) (body : CommandPayload)
    → c.socket ≡ some s
    → is_live c.phase ≡ true
    → w.is_open s ≡ true
    → lookup id c.outbox ≡ some body
    → Emits (send s (command body)) c.effects (flush_outbox w c).effects
unfolding flush_outbox
flush_outbox-sends w s c id body at live open_socket queued =
    let (pre, post, e) = send_all-sends s c.outbox id body queued in
    option_cases (λ (d : Client). Emits (send s (command body)) c.effects d.effects) c.socket _ _
      (λ gone. absurd (ground (arith, gone, at)))
      λ t here.
        if_cases (λ (d : Client). Emits (send s (command body)) c.effects d.effects)
          (is_live c.phase && w.is_open t) _ _
          (λ _.
            let same : t ≡ s = ground (arith, here, at) in
            (
              pre,
              post,
              ap (λ k. c.effects ++ send_all k c.outbox) same ∙ ap (λ l. c.effects ++ l) e,
            ))
          (λ off. absurd (ground (arith, off, here, at, live, open_socket)))

-- When the snapshot after a reconnect is of the same session and the client lacks no event, every
-- queued command is sent on the socket, if that is open.
pub handle_snapshot-sends :
    (w : World) (snap : SnapshotPayload) (c : Client) (s : ℕ) (id : Text) (body : CommandPayload)
    → c.socket ≡ some s
    → w.is_open s ≡ true
    → is_other_session c.session.session_id snap.session_id ≡ false
    → (apply_snapshot c.session snap).tip_seq ≤ (apply_snapshot c.session snap).last_seq
    → lookup id c.outbox ≡ some body
    → Emits (send s (command body)) c.effects (handle_snapshot w snap c).effects
unfolding handle_snapshot set_phase publish
handle_snapshot-sends w snap c s id body at open_socket same caught_up queued =
    if_cases (λ (d : Client). Emits (send s (command body)) c.effects d.effects)
      (leb session.tip_seq session.last_seq) _ _
      (λ _. live (is_other_session c.session.session_id snap.session_id) same)
      (λ behind. absurd (ground (arith, behind, caught_up)))
  where
    session : SessionState
    session = apply_snapshot c.session snap

    seeded : Bool → Client
    seeded b =
        clear_outbox_if b
          (record c { session = session; sync_base = session.last_seq; retry_attempt = 0 })

    live :
        (b : Bool)
        → b ≡ false
        → Emits
            (send s (command body))
            c.effects
            (flush_outbox w (set_phase ConnPhase.live (seeded b))).effects
    live true h = cc
    live false h =
        let (pre, post, e) =
          flush_outbox-sends w s (set_phase ConnPhase.live (seeded false)) id body at refl
            open_socket queued in
        (
          notify ∷ pre,
          post,
          e ∙ append_assoc c.effects (notify ∷ []) (pre ++ send s (command body) ∷ post),
        )
