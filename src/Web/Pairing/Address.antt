-- ===== src/Web/Pairing/Address.antt =====
-- PairScreen.tsx against `candidateUrls` of pairing.ts: the URL that is made of an address.
use msclaude_connector.Prelude.{
  ◌+◌, ◌≡◌, ◌≢◌, refl, ap, ◌⊎◌, inl, inr, Bool-cases, true, false, List, ◌∷◌, ◌++◌, arith, Text,
  codes, length, length-append,
}
use msclaude_connector.Prelude.Decimal.{decimal}
use msclaude_connector.Pairing.{PairingInfo, url_of, ws_scheme, is_ipv6}
use msclaude_connector.Web.Pairing.{url_for_info}

-- A URL by its parts.
abbrev url_with : Text → Text → Text → Text
url_with scheme port host = scheme ++ codes "://" ++ host ++ codes ":" ++ port ++ codes "/ws"

length-url_with :
    (scheme port host : Text)
    → length (url_with scheme port host) ≡ length scheme + length host + length port + 7
length-url_with scheme port host =
    let start = scheme ++ codes "://" in
    omega (
      arith,
      length-append scheme (codes "://"),
      length-append start host,
      length-append (start ++ host) (codes ":"),
      length-append (start ++ host ++ codes ":") port,
      length-append (start ++ host ++ codes ":" ++ port) (codes "/ws"),
    )

abbrev in_brackets : Text → Text
in_brackets host = codes "[" ++ host ++ codes "]"

url_with-in_brackets :
    (scheme port host : Text) → url_with scheme port host ≢ url_with scheme port (in_brackets host)
url_with-in_brackets scheme port host e = omega (
  arith,
  ap length e,
  length-url_with scheme port host,
  length-url_with scheme port (in_brackets host),
  length-append (codes "[" ++ host) (codes "]"),
)

-- Of the first address the form makes the URL that `candidateUrls` makes of it, unless it is an IPv6
-- address: then it makes another one, without the brackets.
pub url_for_info_lem :
    (url addr : Text) (addrs : List Text) (info : PairingInfo)
    → info.addrs ≡ addr ∷ addrs
    → ((is_ipv6 addr ≡ false) × (url_for_info url info ≡ url_of info (codes "/ws") addr))
      ⊎ ((is_ipv6 addr ≡ true) × (url_for_info url info ≢ url_of info (codes "/ws") addr))
unfolding url_for_info url_of
url_for_info_lem url addr addrs info first = elim (Bool-cases (is_ipv6 addr)) [
  | inl six ↦ inr (
    six,
    rw (first, url_for_info, six, url_of)
        (url_with-in_brackets (ws_scheme info) (decimal info.port) addr),
  )
  | inr other ↦ inl (other, rw (first, url_for_info, other, url_of) refl)
]
