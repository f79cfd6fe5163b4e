-- ===== src/Pairing.antt =====
-- clients/packages/harness-protocol/src/pairing.ts: reading the payload of a pairing code, and the
-- order in which the addresses of a host are tried.
-- Upper and lower case are those of ASCII.
mod Tests
pub mod Order
pub mod Payload
use msclaude_connector.Prelude.{
  ℕ, ◌+◌, ◌-◌, ◌*◌, Bool, true, false, ◌&&◌, ◌||◌, not, List, [], ◌∷◌, ◌++◌, Option, none, some,
  map, Text, codes, text_eq, is_empty, any, take, length, ltb, leb, ◌==◌, if◌then◌else◌, or_else,
}
use msclaude_connector.Prelude.Decimal.{decimal}

pub record PairingInfo : Type 0 where
  pub addrs : List Text
  pub port : ℕ
  pub token : Text
  pub spki : Text
  pub code : Option Text
  pub scheme : Option Text
  pub ws : Option Text

abbrev pub upper_char : ℕ → ℕ
upper_char c = if leb b'a' c && leb c b'z' then c - 32 else c

abbrev pub lower_char : ℕ → ℕ
lower_char c = if leb b'A' c && leb c b'Z' then c + 32 else c

-- `pairingCode`
unfoldable pub pairing_code : Text → Text
pairing_code token = map upper_char (take 4 token)

abbrev pub is_digit : ℕ → Bool
is_digit c = leb b'0' c && leb c b'9'

-- `\d{1,3}`
abbrev pub is_octet : Text → Bool
is_octet part = leb 1 (length part) && leb (length part) 3 && not (any (λ c. not (is_digit c)) part)

-- The parts of `s.split('.')`: the first one, and the others.
unfoldable pub split_dots : Text → Text × List Text
split_dots [] = ([], [])
split_dots (c ∷ s) =
    let (part, parts) = split_dots s in if c == b'.' then ([], part ∷ parts) else (c ∷ part, parts)

abbrev pub number_from : ℕ → Text → ℕ
number_from n [] = n
number_from n (c ∷ s) = number_from (n * 10 + (c - b'0')) s

-- `isIPv4`, with the first two of the four numbers.
unfoldable pub ipv4_parts : Text × List Text → Option (ℕ × ℕ)
ipv4_parts (a, b ∷ c ∷ d ∷ []) =
    if is_octet a && is_octet b && is_octet c && is_octet d
    then some (number_from 0 a, number_from 0 b)
    else none
ipv4_parts _ = none

-- `isIPv6`
abbrev pub is_ipv6 : Text → Bool
is_ipv6 host = any (λ c. c == b':') host

unfoldable pub rank_ipv4 : ℕ → ℕ → ℕ
rank_ipv4 a b =
    if a == 100 && leb 64 b && leb b 127
    then 0
    else if a == 10
    then 1
    else if a == 172 && leb 16 b && leb b 31
    then 1
    else if a == 192 && b == 168
    then 1
    else if a == 127
    then 3
    else 2

unfoldable pub rank_ipv6 : Text → ℕ
rank_ipv6 lower =
    if text_eq lower (codes "::1")
    then 3
    else if text_eq (take 2 lower) (codes "fc") || text_eq (take 2 lower) (codes "fd")
    then 1
    else 2

-- `rankHost`
unfoldable pub rank_host : Text → ℕ
unfolding split_dots ipv4_parts rank_ipv4 rank_ipv6
rank_host host = elim (ipv4_parts (split_dots host)) [
  | some (a, b) ↦ rank_ipv4 a b
  | none ↦ if is_ipv6 host then rank_ipv6 (map lower_char host) else 1
]

-- `sort((a, b) => rankHost(a) - rankHost(b))`, which is stable.
unfoldable pub insert_ranked : Text → List Text → List Text
insert_ranked host [] = host ∷ []
insert_ranked host (h ∷ hs) =
    let rest = insert_ranked host hs in
    if leb (rank_host host) (rank_host h) then host ∷ h ∷ hs else h ∷ rest

unfoldable pub sort_ranked : List Text → List Text
unfolding insert_ranked
sort_ranked [] = []
sort_ranked (h ∷ hs) = insert_ranked h (sort_ranked hs)

-- The scheme of the URLs.
unfoldable pub ws_scheme : PairingInfo → Text
ws_scheme info =
    or_else info.ws
      (if text_eq (or_else info.scheme []) (codes "http") then codes "ws" else codes "wss")

unfoldable pub url_of : PairingInfo → Text → Text → Text
unfolding ws_scheme
url_of info path host =
    ws_scheme info
    ++ codes "://"
    ++ (if is_ipv6 host then codes "[" ++ host ++ codes "]" else host)
    ++ codes ":"
    ++ decimal info.port
    ++ path

-- The loop, with the set `seen`; `out` is the list that it returns.
unfoldable pub urls_from : (Text → Text) → List Text → List Text → List Text
urls_from url seen [] = []
urls_from url seen (h ∷ hs) =
    let skip = urls_from url seen hs in
    let push = url h ∷ urls_from url (url h ∷ seen) hs in
    if any (text_eq (url h)) seen then skip else push

abbrev pub hosts_of : PairingInfo → List Text
hosts_of info = if ltb 0 (length info.addrs) then info.addrs else codes "localhost" ∷ []

-- `candidateUrls`
unfoldable pub candidate_urls : PairingInfo → Text → List Text
unfolding url_of urls_from sort_ranked
candidate_urls info path = urls_from (url_of info path) [] (sort_ranked (hosts_of info))
