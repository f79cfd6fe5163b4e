-- ===== src/Web/Tests.antt =====
-- The web application's pairing form.
use msclaude_connector.Prelude.{
  ◌+◌, ◌≡◌, ◌≢◌, ◌⊎◌, refl, Bool, true, false, [], ◌∷◌, none, some, codes, text_eq,
}
use msclaude_connector.Value.{str, undefined}
use msclaude_connector.Client.{Client, World, AuthMode, ConnPhase, HarnessIdentity}
use msclaude_connector.Client.Notify.{new_client}
use msclaude_connector.Client.Sockets.{on_close, is_detached, closed}
use msclaude_connector.Client.Dropped.{IsReconnecting}
use msclaude_connector.Client.Pair.{Pairing, on_paired, pair, pair_step, acts, fails}
use msclaude_connector.Pairing.{PairingInfo, url_of, is_ipv6}
use msclaude_connector.Web.Form.{failed_pairing_hides_form}
use msclaude_connector.Web.{ws_url, needs_pairing}
use msclaude_connector.Web.Pairing.{Form, url_for_info, after_pair}
use msclaude_connector.Web.Pairing.Address.{url_for_info_lem}
use msclaude_connector.Web.Pairing.Twice.{second_connect_keeps_first_socket}

abbrev page : World
page = record {
  has_encoder = true;
  is_open = λ s. Bool.true;
  create_failure = none;
  random_num = 0;
  random_den = 1;
}

dev_url :
    ws_url (record { protocol = codes "http:"; host = codes "a:5173" }) ≡ codes "ws://a:5173/ws"
unfolding ws_url text_eq
dev_url = refl

abbrev info : PairingInfo
info = record {
  addrs = codes "fe80::1" ∷ codes "b" ∷ [];
  port = 7432;
  token = codes "t";
  spki = codes "s";
  code = none;
  scheme = none;
  ws = none;
}

url_for_info_lem_example :
    ((is_ipv6 (codes "fe80::1") ≡ false)
      × (url_for_info [] info ≡ url_of info (codes "/ws") (codes "fe80::1")))
    ⊎ ((is_ipv6 (codes "fe80::1") ≡ true)
        × (url_for_info [] info ≢ url_of info (codes "/ws") (codes "fe80::1")))
url_for_info_lem_example = url_for_info_lem [] (codes "fe80::1") (codes "b" ∷ []) info refl

abbrev form : Form
form = record { url = codes "wss://h/ws"; token = codes "t"; error = none; busy = true }

-- A client whose call of `pair` has a socket, number 0.
abbrev client : Client
unfolding new_client
client = record (new_client (codes "wss://h/ws") AuthMode.hello none none) { sockets = 1 }

abbrev issued : HarnessIdentity
issued = record {
  device_id = str (codes "d");
  credential = str (codes "c");
  url = codes "wss://h/ws";
  spki = undefined;
  name = str (codes "n");
}

second_connect_keeps_first_socket_example :
    let paired = on_paired page 0 issued client in
    let d = (after_pair page none form paired).1 in
    (paired.socket ≡ some client.sockets)
    × (d.socket ≡ some (client.sockets + 1))
    × (is_detached client.sockets d ≡ false)
    × IsReconnecting (on_close page client.sockets (some 1006) d)
unfolding client
second_connect_keeps_first_socket_example =
    second_connect_keeps_first_socket page page page 0 issued form (some 1006) client refl refl refl
      refl

-- A client whose device the host has refused.
abbrev refused : Pairing
unfolding client
refused = record {
  client = record client { identity = some issued; phase = ConnPhase.unauthorized };
  attempts = [];
}

failed_pairing_hides_form_example :
    let q = pair page (codes "t") none none refused in
    (needs_pairing (pair_step page (acts (closed refused.client.sockets none)) q).client.current
      ≡ false)
    × (needs_pairing (pair_step page (fails refused.client.sockets) q).client.current ≡ false)
unfolding refused
failed_pairing_hides_form_example =
    failed_pairing_hides_form page page (codes "t") none none none issued refused refl refl refl
