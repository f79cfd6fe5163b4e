-- ===== src/Pairing/Payload.antt =====
-- `parsePairingPayload` of pairing.ts. JSON.parse and the platform's URL parser are parameters: each
-- gives `none` where it throws.
use msclaude_connector.Prelude.{
  ℕ, ◌≡◌, ◌≢◌, refl, Bool, false, ◌&&◌, ◌||◌, List, [], ◌∷◌, Option, none, some, arith, Text, codes,
  text_eq, is_empty, any, take, ◌==◌, if◌then◌else◌, or_else, if_cases, option_cases,
}
use msclaude_connector.Value.{Value, Fields, get, is_record, as_string, as_number, as_array}
use msclaude_connector.Pairing.{PairingInfo, pairing_code, number_from}

-- The parts of a URL that the code reads; `none` is a parameter of the query that is not there.
pub record Url : Type 0 where
  pub hostname : Text
  pub port : Text
  pub token : Option Text
  pub spki : Option Text
  pub scheme : Option Text

-- What is thrown.
pub data Failure : Type 0 where
  empty_payload not_json not_object missing_token missing_spki missing_port : Failure
  invalid_url missing_token_or_spki unrecognized : Failure

pub data Parsed : Type 0 where
  ok : PairingInfo → Parsed
  failed : Failure → Parsed

-- White space and line terminators, which `trim` takes off.
abbrev pub is_space : ℕ → Bool
is_space c =
    any (λ d. c == d)
      (9 ∷ 10 ∷ 11 ∷ 12 ∷ 13 ∷ 32 ∷ 160 ∷ 0x1680 ∷ 0x2000 ∷ 0x2001 ∷ 0x2002 ∷ 0x2003 ∷ 0x2004
        ∷ 0x2005 ∷ 0x2006 ∷ 0x2007 ∷ 0x2008 ∷ 0x2009 ∷ 0x200a ∷ 0x2028 ∷ 0x2029 ∷ 0x202f ∷ 0x205f
        ∷ 0x3000 ∷ 0xfeff ∷ [])

unfoldable pub trim_start : Text → Text
trim_start [] = []
trim_start (c ∷ s) = let rest = trim_start s in if is_space c then rest else c ∷ s

unfoldable pub trim_end : Text → Text
trim_end [] = []
trim_end (c ∷ s) = let rest = trim_end s in if is_space c && is_empty rest then [] else c ∷ rest

-- `filter((a) => typeof a === 'string')`
unfoldable pub texts_of : List Value → List Text
texts_of [] = []
texts_of (Value.str s ∷ vs) = s ∷ texts_of vs
texts_of (_ ∷ vs) = texts_of vs

abbrev pub unless_empty : Text → Option Text
unless_empty [] = none
unless_empty (c ∷ s) = some (c ∷ s)

-- The JSON form, from the record on.
unfoldable pub parse_record : Fields → Parsed
unfolding texts_of
parse_record parsed =
    let port = as_number (get "port" parsed) 0 in
    let token = as_string (get "token" parsed) [] in
    let spki = as_string (get "spki" parsed) [] in
    if is_empty token
    then failed missing_token
    else if is_empty spki
    then failed missing_spki
    else if port == 0
    then failed missing_port
    else ok (record {
      addrs = texts_of (as_array (get "addrs" parsed));
      port = port;
      token = token;
      spki = spki;
      code = some (or_else (unless_empty (as_string (get "code" parsed) [])) (pairing_code token));
      scheme = unless_empty (as_string (get "scheme" parsed) []);
      ws = unless_empty (as_string (get "ws" parsed) []);
    })

-- The URL form, from the parsed URL on.
unfoldable pub parse_url : Url → Parsed
parse_url url =
    let token = or_else url.token [] in
    let spki = or_else url.spki [] in
    let scheme = or_else url.scheme (codes "https") in
    if is_empty token || is_empty spki
    then failed missing_token_or_spki
    else ok (record {
      addrs = if is_empty url.hostname then [] else url.hostname ∷ [];
      port = if is_empty url.port then 7432 else number_from 0 url.port;
      token = token;
      spki = spki;
      code = some (pairing_code token);
      scheme = some scheme;
      ws = some (if text_eq scheme (codes "http") then codes "ws" else codes "wss");
    })

module _ (json_of : Text → Option Value) (url_of : Text → Option Url) where
  unfoldable pub parse_json : Text → Parsed
  unfolding parse_record
  parse_json trimmed = elim (json_of trimmed) [
    | none ↦ failed not_json
    | some value ↦ elim (is_record value) [
      | none ↦ failed not_object
      | some parsed ↦ parse_record parsed
    ]
  ]

  unfoldable pub parse_link : Text → Parsed
  unfolding parse_url
  parse_link trimmed = elim (url_of trimmed) [
    | none ↦ failed invalid_url
    | some url ↦ parse_url url
  ]

  unfoldable pub parse_trimmed : Text → Parsed
  unfolding parse_json parse_link
  parse_trimmed trimmed =
      if is_empty trimmed
      then failed empty_payload
      else if text_eq (take 1 trimmed) (codes "{")
      then parse_json trimmed
      else if text_eq (take 10 trimmed) (codes "harness://")
      then parse_link trimmed
      else failed unrecognized

  -- `parsePairingPayload`
  unfoldable pub parse_pairing_payload : Text → Parsed
  unfolding parse_trimmed trim_start trim_end
  parse_pairing_payload raw = parse_trimmed (trim_end (trim_start raw))

-- What pairing needs: a token, a pin of the host's key, and a code to compare on both screens.
pub record IsUsable (info : PairingInfo) : Type 0 where
  pub token : info.token ≢ []
  pub spki : info.spki ≢ []
  pub code : (c : Text) × (info.code ≡ some c)

abbrev pub Parses : Parsed → Type 0
Parses (ok info) = IsUsable info
Parses (failed f) = Unit

nonempty : (s : Text) → is_empty s ≡ false → s ≢ []
nonempty s h e = ground (arith, h, e)

parse_record-Parses : (parsed : Fields) → Parses (parse_record parsed)
unfolding parse_record
parse_record-Parses parsed =
    if_cases Parses (is_empty (as_string (get "token" parsed) [])) _ _ (λ _. tt)
      λ token.
        if_cases Parses (is_empty (as_string (get "spki" parsed) [])) _ _ (λ _. tt)
          λ spki.
            if_cases Parses (as_number (get "port" parsed) 0 == 0) _ _ (λ _. tt)
              λ port. record { token = nonempty _ token; spki = nonempty _ spki; code = (_, refl) }

parse_url-Parses : (url : Url) → Parses (parse_url url)
unfolding parse_url
parse_url-Parses url =
    if_cases Parses (is_empty (or_else url.token []) || is_empty (or_else url.spki [])) _ _
      (λ _. tt)
      λ both. record {
        token = nonempty _ (ground (arith, both));
        spki = nonempty _ (ground (arith, both));
        code = (_, refl);
      }

-- Whatever the JSON and URL parsers do, a payload that is accepted has a token and a pin that are not
-- empty, and a code.
pub parse_pairing_payload-Parses :
    (json_of : Text → Option Value) (url_of : Text → Option Url) (raw : Text)
    → Parses (parse_pairing_payload json_of url_of raw)
unfolding parse_pairing_payload
parse_pairing_payload-Parses json_of url_of raw =
    let trimmed = trim_end (trim_start raw) in
    if_cases Parses (is_empty trimmed) _ _ (λ _. tt)
      λ _.
        if_cases Parses (text_eq (take 1 trimmed) (codes "{")) _ _
          (λ _.
            option_cases Parses (json_of trimmed) _ _ (λ _. tt)
              λ value _.
                option_cases Parses (is_record value) _ _ (λ _. tt)
                  λ parsed _. parse_record-Parses parsed)
          λ _.
            if_cases Parses (text_eq (take 10 trimmed) (codes "harness://")) _ _
              (λ _.
                option_cases Parses (url_of trimmed) _ _ (λ _. tt) λ url _. parse_url-Parses url)
              (λ _. tt)
