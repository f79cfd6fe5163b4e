-- ===== src/Inputs/Prompts.antt =====
-- PromptInput with client.ts: what becomes of a text that the user sends.
use mathlib.Core.Path.{subst}
use msclaude_connector.Prelude.{
  ◌≤◌, ◌<◌, ◌≡◌, ◌≢◌, refl, sym, ap, ltb, ◌⊎◌, inl, inr, Bool-cases, ◌∙◌, true, false, ◌&&◌, [],
  ◌∷◌, Option, some, arith, Text, is_empty, leb, length, text_eq_refl, if_cases, option_cases,
}
use msclaude_connector.Prelude.Maps.{lookup, lookup-insert}
use msclaude_connector.Wire.{CommandKind}
use msclaude_connector.Client.{Client, World}
use msclaude_connector.Client.Commands.{
  send_prompt, send_command, flush_outbox, is_live, max_outbox, prompt_body,
}
use msclaude_connector.Inputs.{trim, prompt_send}

-- The text is a command in the outbox, and its promise waits.
pub record IsWaiting (id value : Text) (c : Client) : Type 0 where
  pub queued :
      lookup id c.outbox
      ≡ some (record {
        id = id;
        idempotency_key = id;
        kind = CommandKind.send_prompt;
        payload = prompt_body value;
      })
  pub waits : lookup id c.pending ≡ some false

flush_outbox-IsWaiting :
    (id value : Text) (w : World) (c : Client)
    → IsWaiting id value c
    → IsWaiting id value (flush_outbox w c)
unfolding flush_outbox
flush_outbox-IsWaiting id value w c h =
    option_cases (IsWaiting id value) c.socket _ _ (λ _. h)
      λ s _.
        if_cases (IsWaiting id value) (is_live c.phase && w.is_open s) _ _
          (λ _. record { queued = h.queued; waits = h.waits }) (λ _. h)

send_prompt-IsWaiting :
    (w : World) (id value : Text) (c : Client)
    → length c.outbox < max_outbox
    → IsWaiting id value (send_prompt w id value c).0
unfolding send_prompt send_command
send_prompt-IsWaiting w id value c room =
    if_cases (λ (r : Client × Option Text). IsWaiting id value r.0)
      (leb max_outbox (length c.outbox)) _ _ (λ full. absurd (ground (arith, full, room)))
      (λ _. flush_outbox-IsWaiting id value w _ (record {
        queued = lookup-insert id id _ c.outbox ∙ ground (arith, text_eq_refl id);
        waits = lookup-insert id id false c.pending ∙ ground (arith, text_eq_refl id);
      }))

send_prompt-full :
    (w : World) (id value : Text) (c : Client)
    → max_outbox ≤ length c.outbox
    → (send_prompt w id value c).0 ≡ c
unfolding send_prompt send_command
send_prompt-full w id value c full =
    if_cases (λ (r : Client × Option Text). r.0 ≡ c) (leb max_outbox (length c.outbox)) _ _
      (λ _. refl) (λ room. absurd (ground (arith, full, room)))

-- What a press of the button does to the field and the client, from `(text, c)` to `r`.
pub data Sent (text : Text) (c : Client) (id : Text) (r : Text × Client) : Type 0 where
  blank : trim text ≡ [] → r ≡ (text, c) → Sent text c id r
  kept :
      trim text ≢ []
      → length c.outbox < max_outbox
      → r.0 ≡ []
      → IsWaiting id (trim text) r.1
      → Sent text c id r
  dropped : trim text ≢ [] → max_outbox ≤ length c.outbox → r ≡ ([], c) → Sent text c id r

is_empty_cases : (s : Text) → ((is_empty s ≡ true) × (s ≡ [])) ⊎ ((is_empty s ≡ false) × (s ≢ []))
is_empty_cases [] = inl (refl, refl)
is_empty_cases (x ∷ s) = inr (refl, λ e. cc)

prompt_send-blank :
    (w : World) (id text : Text) (c : Client)
    → is_empty (trim text) ≡ true
    → prompt_send w id text c ≡ (text, c)
unfolding prompt_send
prompt_send-blank w id text c e = rw (e, prompt_send) refl

prompt_send-given :
    (w : World) (id text : Text) (c : Client)
    → is_empty (trim text) ≡ false
    → prompt_send w id text c ≡ ([], (send_prompt w id (trim text) c).0)
unfolding prompt_send
prompt_send-given w id text c e = rw (e, prompt_send) refl

-- A text of white space is not sent and stays in the field. Any other text leaves the field; without the
-- white space around it, it is then a command that waits in the outbox, if that has room, and is lost
-- without a trace, if it has none.
pub prompt_send-Sent :
    (w : World) (id text : Text) (c : Client) → Sent text c id (prompt_send w id text c)
prompt_send-Sent w id text c = elim (is_empty_cases (trim text)) [
  | inl (e, empty) ↦ Sent.blank empty (prompt_send-blank w id text c e)
  | inr (e, given) ↦
      let sent = prompt_send-given w id text c e in
      elim (Bool-cases (ltb (length c.outbox) max_outbox)) [
        | inl room ↦
            let below : length c.outbox < max_outbox = ground (arith, room) in
            Sent.kept given below (ap (λ (r : Text × Client). r.0) sent) (
              subst (λ (r : Text × Client). IsWaiting id (trim text) r.1) (sym sent)
                (send_prompt-IsWaiting w id (trim text) c below))
        | inr full ↦
            let at_limit : max_outbox ≤ length c.outbox = ground (arith, full) in
            Sent.dropped given at_limit
              (sent ∙ ap (λ d. ([], d)) (send_prompt-full w id (trim text) c at_limit))
      ]
]
