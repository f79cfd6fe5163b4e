-- ===== src/Client/Promises.antt =====
-- client.ts: over any history, how often the promise of a command is settled.
use msclaude_connector.Prelude.{
  ℕ, ◌+◌, ◌≤◌, ◌≡◌, ap, Bool, true, false, List, [], ◌∷◌, Option, none, some, arith, Text, text_eq,
  text_eq_iff, leb, length, if◌then◌else◌, if_cases,
}
use msclaude_connector.Prelude.Maps.{Map, lookup, remove, insert, lookup-remove, lookup-insert}
use msclaude_connector.Value.{Value}
use msclaude_connector.Wire.{CommandKind}
use msclaude_connector.Client.{Client, World, AuthMode, HarnessIdentity}
use msclaude_connector.Client.Notify.{new_client}
use msclaude_connector.Client.Commands.{max_outbox, send_command}
use msclaude_connector.Client.Sockets.{
  Step, step, run, connects, closes, resets, identifies, restores, commands, opened, received,
  closed, fired,
}
use msclaude_connector.Client.Frame.{settle_count}
use msclaude_connector.Client.Frame.Reconnect.{flush_outbox-Keeps}
use msclaude_connector.Client.Queues.{Settled, Keeps-Settled}
use msclaude_connector.Client.Queues.Outcomes.{Settles, Outcome, routine, one, step-Outcome}

-- 1 where the command `id` waits for its outcome.
abbrev pub waiting : Text → Map Bool → ℕ
waiting id m = elim (lookup id m) [ none ↦ 0 | some _ ↦ 1 ]

-- How often the step issues a command under the id `id`.
abbrev pub issued : Text → Step → ℕ
issued id (commands i kind payload) = if text_eq i id then 1 else 0
issued id _ = 0

pub issued_in : Text → List (World × Step) → ℕ
issued_in id [] = 0
issued_in id ((w, s) ∷ rest) = issued id s + issued_in id rest

-- The outcomes that `id` has got, and the one that it may still get.
pub due : Text → Client → ℕ
due id c = settle_count id c.effects + waiting id c.pending

due-Settled : (id : Text) {c c' : Client} → Settled c c' → due id c' ≡ due id c
unfolding due
due-Settled id s = rw (s.outcomes, s.pending)

waiting-remove :
    (id j : Text) (m : Map Bool)
    → waiting j (remove id m) ≡ (if text_eq id j then 0 else waiting j m)
waiting-remove id j m = ground (arith, lookup-remove id j m)

waiting-insert :
    (id j : Text) (b : Bool) (m : Map Bool)
    → waiting j (insert id b m) ≡ (if text_eq id j then 1 else waiting j m)
waiting-insert id j b m = ground (arith, lookup-insert id j b m)

due-Settles : (j id : Text) {c c' : Client} → Settles id c c' → due j c' ≡ due j c
unfolding due
due-Settles j id {c} {c'} s = ground (
  arith,
  s.outcomes j,
  waiting-remove id j c.pending,
  ap (waiting j) s.pending,
  text_eq_iff id j,
  s.waited,
)

due-Outcome : (id : Text) {c c' : Client} → Outcome c c' → due id c' ≡ due id c
due-Outcome id (routine s) = due-Settled id s
due-Outcome id (one i s) = due-Settles id i s

due-send_command :
    (w : World) (j id : Text) (kind : CommandKind) (payload : Value) (c : Client)
    → due j (send_command w id kind payload c).0 ≤ due j c + (if text_eq id j then 1 else 0)
unfolding send_command due
due-send_command w j id kind payload c =
    if_cases {A = Client × Option Text} (λ r. due j r.0 ≤ due j c + (if text_eq id j then 1 else 0))
      (leb max_outbox (length c.outbox)) _ _ (λ _. omega arith)
      λ _. omega (
        arith,
        due-Settled j (Keeps-Settled (flush_outbox-Keeps w queued)),
        waiting-insert id j false c.pending,
        one_more (text_eq id j),
      )
  where
    queued : Client
    queued = record c {
      outbox =
          insert id (record { id = id; idempotency_key = id; kind = kind; payload = payload })
            c.outbox;
      pending = insert id false c.pending;
    }

    one_more :
        (b : Bool)
        → (if b then 1 else waiting j c.pending) ≤ waiting j c.pending + (if b then 1 else 0)
    one_more true = omega arith
    one_more false = omega arith

due-step :
    (id : Text) (w : World) (s : Step) (c : Client) → due id (step w s c) ≤ due id c + issued id s
due-step id w (commands i kind payload) c = unfold step in due-send_command w id i kind payload c
due-step id w (connects i) c = omega (arith, due-Outcome id (step-Outcome w (connects i) c tt))
due-step id w closes c = omega (arith, due-Outcome id (step-Outcome w closes c tt))
due-step id w resets c = omega (arith, due-Outcome id (step-Outcome w resets c tt))
due-step id w (identifies i) c = omega (arith, due-Outcome id (step-Outcome w (identifies i) c tt))
due-step id w (restores n) c = omega (arith, due-Outcome id (step-Outcome w (restores n) c tt))
due-step id w (opened s) c = omega (arith, due-Outcome id (step-Outcome w (opened s) c tt))
due-step id w (received s m) c = omega (arith, due-Outcome id (step-Outcome w (received s m) c tt))
due-step id w (closed s n) c = omega (arith, due-Outcome id (step-Outcome w (closed s n) c tt))
due-step id w fired c = omega (arith, due-Outcome id (step-Outcome w fired c tt))

-- Over any history, from any client, the outcomes of a command's promise are no more than those it
-- had, the one it was waiting for, and one for each time that its id is issued.
due-run :
    (id : Text) (c : Client) (h : List (World × Step))
    → due id (run c h) ≤ due id c + issued_in id h
unfolding run issued_in
due-run id c [] = omega arith
due-run id c ((w, s) ∷ h) = omega (arith, due-step id w s c, due-run id (step w s c) h)

-- Whatever happens to a new client, the promise of a command is settled at most once for each time
-- that its id is issued.
pub settled_at_most_once :
    (url : Text) (mode : AuthMode) (identity : Option HarnessIdentity) (max : Option ℕ)
    (h : List (World × Step)) (id : Text)
    → settle_count id (run (new_client url mode identity max) h).effects ≤ issued_in id h
unfolding new_client settle_count due lookup
settled_at_most_once url mode identity max h id =
    omega (arith, due-run id (new_client url mode identity max) h)
