-- ===== src/Mobile/Storage.antt =====
-- clients/apps/mobile/src/storage.ts: the identity and the last sequence number that the device keeps.
-- `SecureStore`, `AsyncStorage`, `JSON` and `Number` are the platform's: parameters, with what is
-- documented of them as laws.
pub mod Laws
pub mod RoundTrip
use msclaude_connector.Prelude.{
  ℕ, String, Bool, [], Option, none, some, Text, codes, is_empty, if◌then◌else◌,
}
use msclaude_connector.Prelude.Decimal.{decimal}
use msclaude_connector.Value.{
  Value, Fields, Number, undefined, str, obj, end, field, get, record_or_empty,
}
use msclaude_connector.Client.{HarnessIdentity}

-- A store of the platform keeps texts under keys, in a state `S`; `none` is what is thrown.
pub record KeyStore (S : Type 0) : Type 0 where
  pub get_item : Text → S → Option (Option Text)
  pub set_item : Text → Text → S → Option S
  pub delete_item : Text → S → Option S

-- The conversions of the language that storage.ts uses.
pub record Codec : Type 0 where
  -- `JSON.parse`, and `JSON.stringify` of an object
  pub parse_json : Text → Option Value
  pub stringify : Value → Text
  -- `Number(text)`: a number that is not finite also stands for `NaN`
  pub number_of : Text → Number

abbrev pub identity_key : Text
identity_key = codes "harness.identity"

abbrev pub last_seq_key : Text
last_seq_key = codes "harness.lastSeq"

-- An identity as the object that the client made or read.
abbrev pub identity_fields : HarnessIdentity → Fields
identity_fields i = field "deviceId" i.device_id (
    field "credential" i.credential
      (field "name" i.name (field "url" (str i.url) (field "spki" i.spki end))))

-- The cast to `HarnessIdentity`, where `url` is the text that was found.
abbrev pub identity_of : Text → Fields → HarnessIdentity
identity_of url fs = record {
  device_id = get "deviceId" fs;
  credential = get "credential" fs;
  url = url;
  spki = get "spki" fs;
  name = get "name" fs;
}

-- The checks on what was parsed. Anything but an object has no `credential`.
unfoldable pub checked_identity : Value → Value → Fields → Option HarnessIdentity
checked_identity (str credential) (str url) fs = some (identity_of url fs)
checked_identity _ _ fs = none

abbrev pub read_identity : Value → Option HarnessIdentity
read_identity v =
    let fs = record_or_empty v in checked_identity (get "credential" fs) (get "url" fs) fs

-- `Number.isFinite(value) ? value : 0`
abbrev pub finite_or_zero : Number → ℕ
finite_or_zero (Number.finite n) = n
finite_or_zero Number.infinite = 0

module _ (codec : Codec) where
  abbrev pub parse_identity : Text → Option HarnessIdentity
  parse_identity raw =
      if is_empty raw
      then none
      else elim (codec.parse_json raw) [ none ↦ none | some v ↦ read_identity v ]

  abbrev pub parse_last_seq : Text → Number
  parse_last_seq raw = if is_empty raw then Number.finite 0 else codec.number_of raw

-- The identity is in `SecureStore`, the number in `AsyncStorage`.
module _ {S : Type 0} (store : KeyStore S) where
  -- `loadIdentity`
  unfoldable pub load_identity : Codec → S → Option HarnessIdentity
  load_identity codec s = elim (store.get_item identity_key s) [
    | none ↦ none
    | some none ↦ none
    | some (some raw) ↦ parse_identity codec raw
  ]

  -- `saveIdentity`
  unfoldable pub save_identity : Codec → HarnessIdentity → S → Option S
  save_identity codec i = store.set_item identity_key (codec.stringify (obj (identity_fields i)))

  -- `clearIdentity`
  unfoldable pub clear_identity : S → Option S
  clear_identity = store.delete_item identity_key

  -- `loadLastSeq`
  unfoldable pub load_last_seq : Codec → S → ℕ
  load_last_seq codec s = elim (store.get_item last_seq_key s) [
    | none ↦ 0
    | some none ↦ 0
    | some (some raw) ↦ finite_or_zero (parse_last_seq codec raw)
  ]

  -- `saveLastSeq`
  unfoldable pub save_last_seq : ℕ → S → Option S
  save_last_seq seq = store.set_item last_seq_key (decimal seq)
