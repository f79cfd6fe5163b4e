-- ===== src/Web/Form.antt =====
-- App.tsx with `pair`: the form for pairing, after an attempt that failed.
use msclaude_connector.Prelude.{ℕ, ◌≡◌, ap, false, Option, none, some, arith, Text}
use msclaude_connector.Value.{null, same_value}
use msclaude_connector.Client.{Client, World, HarnessIdentity}
use msclaude_connector.Client.Notify.{device_id_of}
use msclaude_connector.Client.Sockets.{closed}
use msclaude_connector.Client.Pair.{Pairing, pair, pair_step, acts, fails}
use msclaude_connector.Client.Pair.Faults.{IsPairing, failed_pairing_keeps_phase}
use msclaude_connector.Web.{needs_pairing}

hidden :
    (o : Option HarnessIdentity) (i : HarnessIdentity) (c : Client)
    → o ≡ some i
    → same_value (device_id_of (some i)) null ≡ false
    → IsPairing o c
    → needs_pairing c.current ≡ false
hidden o i c mine known p = ground (arith, known, p.shown, p.device, ap device_id_of mine)

-- A device with an identity, whose call of `pair` gets a socket that closes or fails before an answer,
-- is then shown the session and not the form for pairing, also where the host had refused it and the
-- form was shown before.
pub failed_pairing_hides_form :
    (w w' : World) (token : Text) (url spki : Option Text) (code : Option ℕ) (i : HarnessIdentity)
    (p : Pairing)
    → w.create_failure ≡ none
    → p.client.identity ≡ some i
    → same_value (device_id_of (some i)) null ≡ false
    → let q = pair w token url spki p in
      (needs_pairing (pair_step w' (acts (closed p.client.sockets code)) q).client.current ≡ false)
      × (needs_pairing (pair_step w' (fails p.client.sockets) q).client.current ≡ false)
failed_pairing_hides_form w w' token url spki code i p works mine known =
    let (closes, errs) = failed_pairing_keeps_phase w w' token url spki code p works in
    (hidden p.client.identity i _ mine known closes, hidden p.client.identity i _ mine known errs)
