-- ===== src/Client/Pair/Tests.antt =====
-- Calls of `pair` of client.ts, and the theorems at them.
use msclaude_connector.Prelude.{Bool, true, ◌≡◌, refl, List, [], ◌∷◌, none, some, codes, text_eq}
use msclaude_connector.Value.{Value, Fields, str, obj, field, end}
use msclaude_connector.Wire.{Envelope, parse_envelope, envelope_with, envelope_of}
use msclaude_connector.Client.{World, AuthMode, HarnessIdentity}
use msclaude_connector.Client.Notify.{new_client}
use msclaude_connector.Client.Sockets.{received, closed, fired}
use msclaude_connector.Client.Replay.Views.{IsPresentable}
use msclaude_connector.Client.Pair.{
  Attempt, Pairing, Event, pair, attempt_on, issued_by, pair_step, pair_run, acts, pairs, fails,
  resolved,
}
use msclaude_connector.Client.Pair.Invariants.{IsSound, unpaired, pairing_keeps_invariants}
use msclaude_connector.Client.Pair.Promises.{Later, pair_settles_once}
use msclaude_connector.Client.Silence.{openings}
use msclaude_connector.Client.Silence.Pairing.{closed_until_asked}
use msclaude_connector.Client.Pair.Outcomes.{IsJoined, IsPaired, paired_resolves}
use msclaude_connector.Client.Pair.Faults.{late_reply_takes_later_url}

-- A platform that creates every socket.
abbrev platform : World
platform = record {
  has_encoder = true;
  is_open = λ s. Bool.true;
  create_failure = none;
  random_num = 0;
  random_den = 1;
}

-- A call that waits for the answer of the host.
abbrev waiting : Attempt
waiting = record { socket = some 0; token = codes "t"; spki = some (codes "ab"); outcome = none }

abbrev one_call : Pairing
unfolding new_client
one_call = record {
  client = record (new_client (codes "wss://a") AuthMode.header none none) { sockets = 1 };
  attempts = waiting ∷ [];
}

abbrev credentials : Fields
credentials = field "deviceId" (str (codes "d")) (field "credential" (str (codes "c")) end)

abbrev reply : Value
reply = obj (field "type" (str (codes "paired")) (field "paired" (obj credentials) end))

abbrev reply_envelope : Envelope
unfolding envelope_of
reply_envelope =
    envelope_of (codes "paired")
      (field "type" (str (codes "paired")) (field "paired" (obj credentials) end))

reply-IsPaired : IsPaired reply credentials
unfolding reply_envelope parse_envelope envelope_with envelope_of text_eq
reply-IsPaired = record { env = reply_envelope; parsed = refl; is_paired = refl; body = refl }

-- A pairing that the host answers, and its socket's end.
abbrev history : List (World × Event)
history =
    (platform, pairs (codes "t") (some (codes "wss://b")) none)
    ∷ (platform, acts (received 0 (some reply)))
    ∷ (platform, acts (closed 0 (some 1000)))
    ∷ (platform, fails 0)
    ∷ []

pairing_keeps_invariants_example :
    let c = (pair_run (unpaired (codes "wss://a") AuthMode.header none (some 5)) history).client in
    IsSound c × IsPresentable c.max_items c.session
pairing_keeps_invariants_example =
    pairing_keeps_invariants (codes "wss://a") AuthMode.header none (some 5) history

pair_settles_once_example : Later one_call.attempts (pair_run one_call history).attempts
pair_settles_once_example = pair_settles_once one_call history

paired_resolves_example :
    let q = pair_step platform (acts (received 0 (some reply))) one_call in
    let issued = issued_by waiting credentials one_call.client in
    IsJoined platform issued one_call.client q.client
    × (attempt_on 0 q.attempts ≡ some (record waiting { outcome = some (resolved issued) }))
unfolding one_call
paired_resolves_example =
    paired_resolves platform 0 reply credentials one_call waiting refl refl reply-IsPaired

late_reply_takes_later_url_example :
    let r =
      pair_step platform
        (acts (received 0 (some reply)))
        (pair platform (codes "t") (some (codes "wss://b")) none one_call) in
    let before = (pair platform (codes "t") (some (codes "wss://b")) none one_call).client in
    (i : HarnessIdentity) × IsJoined platform i before r.client
    × (attempt_on 0 r.attempts ≡ some (record waiting { outcome = some (resolved i) }))
    × (i.url ≡ codes "wss://b")
unfolding one_call
late_reply_takes_later_url_example =
    late_reply_takes_later_url platform platform 0 waiting (codes "t") (codes "wss://b") none
      one_call reply credentials refl refl reply-IsPaired

-- A client that has joined and was then closed, with the socket of `pair` still open.
abbrev done : Attempt
done = record waiting { outcome = some (resolved (issued_by waiting credentials one_call.client)) }

abbrev closed_after : Pairing
unfolding one_call
closed_after = record {
  client = record one_call.client { closed_by_user = true };
  attempts = done ∷ [];
}

abbrev aftermath : List (World × Event)
aftermath =
    (platform, acts (received 0 (some reply)))
    ∷ (platform, acts (closed 0 (some 1000)))
    ∷ (platform, acts fired)
    ∷ (platform, fails 0)
    ∷ []

closed_until_asked_example :
    let c = (pair_run closed_after aftermath).client in
    (openings c.effects ≡ openings closed_after.client.effects) × (c.closed_by_user ≡ true)
unfolding one_call
closed_until_asked_example =
    closed_until_asked closed_after aftermath refl (record { outcome = _; over = refl }, tt) refl
