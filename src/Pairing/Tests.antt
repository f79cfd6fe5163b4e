-- ===== src/Pairing/Tests.antt =====
-- pairing.ts on the addresses of one host, and its theorems there.
use msclaude_connector.Prelude.{◌≡◌, refl, [], ◌∷◌, Option, none, some, Text, codes, text_eq, any}
use msclaude_connector.Value.{Value, Number, str, num, obj, field, end}
use msclaude_connector.Prelude.Decimal.{decimal}
use msclaude_connector.Pairing.{
  PairingInfo, rank_host, split_dots, ipv4_parts, rank_ipv4, rank_ipv6, insert_ranked, sort_ranked,
  url_of, ws_scheme, urls_from, hosts_of, candidate_urls, pairing_code,
}
use msclaude_connector.Pairing.Order.{DistinctUrls, candidate_urls_lem}
use msclaude_connector.Pairing.Payload.{
  Url, ok, Parses, parse_pairing_payload, parse_trimmed, parse_json, parse_record, texts_of,
  trim_start, trim_end, parse_pairing_payload-Parses,
}

abbrev host_info : PairingInfo
host_info = record {
  addrs =
      codes "127.0.0.1"
      ∷ codes "10.0.0.2"
      ∷ codes "100.64.0.9"
      ∷ codes "fd00::1"
      ∷ codes "10.0.0.2"
      ∷ [];
  port = 7432;
  token = codes "ab12cd";
  spki = codes "00";
  code = none;
  scheme = none;
  ws = none;
}

-- The tailnet first, loopback last, and each address once.
tried :
    candidate_urls host_info (codes "/ws")
    ≡ codes "wss://100.64.0.9:7432/ws"
      ∷ codes "wss://10.0.0.2:7432/ws"
      ∷ codes "wss://[fd00::1]:7432/ws"
      ∷ codes "wss://127.0.0.1:7432/ws"
      ∷ []
unfolding candidate_urls url_of ws_scheme urls_from sort_ranked insert_ranked rank_host split_dots
    ipv4_parts rank_ipv4 rank_ipv6 decimal text_eq
tried = refl

candidate_urls_lem_example :
    DistinctUrls (candidate_urls host_info (codes "/ws"))
    × ((u : Text)
        → any (text_eq u) (candidate_urls host_info (codes "/ws"))
          ≡ any (λ h. text_eq u (url_of host_info (codes "/ws") h)) (hosts_of host_info))
candidate_urls_lem_example = candidate_urls_lem host_info (codes "/ws")

-- A JSON parser and a URL parser that know one text each.
abbrev json_of : Text → Option Value
json_of s = some (
    obj (
      field "port" (num (Number.finite 7432))
        (field "token" (str (codes "ab12cd")) (field "spki" (str (codes "00")) end))))

abbrev link_of : Text → Option Url
link_of s = none

accepted :
    parse_pairing_payload json_of link_of (codes " {}")
    ≡ ok (record {
      addrs = [];
      port = 7432;
      token = codes "ab12cd";
      spki = codes "00";
      code = some (codes "AB12");
      scheme = none;
      ws = none;
    })
unfolding parse_pairing_payload parse_trimmed parse_json parse_record texts_of trim_start trim_end
    pairing_code text_eq
accepted = refl

parse_pairing_payload-Parses_example : Parses (parse_pairing_payload json_of link_of (codes " {}"))
parse_pairing_payload-Parses_example = parse_pairing_payload-Parses json_of link_of (codes " {}")
