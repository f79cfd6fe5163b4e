-- ===== src/Mobile/Storage/Laws.antt =====
-- What is documented of the platform that storage.ts uses.
use msclaude_connector.Prelude.{ℕ, ◌≤◌, ◌≡◌, [], none, some, Text}
use msclaude_connector.Prelude.Decimal.{decimal}
use msclaude_connector.Value.{
  Value, Fields, Items, Number, undefined, null, num, arr, obj, end, field, nil, cons,
}
use msclaude_connector.Mobile.Storage.{KeyStore, Codec}

-- What `JSON.parse` makes of the text that `JSON.stringify` writes of a value: properties that are
-- undefined are left out, elements that are undefined and numbers that are not finite become null.
unfoldable mutual
  pub cleaned : Value → Value
  cleaned undefined = null
  cleaned (num Number.infinite) = null
  cleaned (arr vs) = arr (cleaned_items vs)
  cleaned (obj fs) = obj (cleaned_fields fs)
  cleaned v = v

  pub cleaned_items : Items → Items
  cleaned_items nil = nil
  cleaned_items (cons v vs) = cons (cleaned v) (cleaned_items vs)

  pub cleaned_fields : Fields → Fields
  cleaned_fields end = end
  cleaned_fields (field k undefined fs) = cleaned_fields fs
  cleaned_fields (field k v fs) = field k (cleaned v) (cleaned_fields fs)

-- `Number.MAX_SAFE_INTEGER`
abbrev pub max_safe_integer : ℕ
max_safe_integer = 9007199254740991

-- A store returns what was set last, and has nothing under a deleted key.
pub record IsKeyStore {S : Type 0} (store : KeyStore S) : Type 0 where
  pub get-set :
      (k v : Text) (s t : S) → store.set_item k v s ≡ some t → store.get_item k t ≡ some (some v)
  pub get-delete :
      (k : Text) (s t : S) → store.delete_item k s ≡ some t → store.get_item k t ≡ some none

-- `JSON` reads back the object that it wrote, and `Number` the numbers; no JSON text is empty, and
-- `Number('')` is 0.
pub record IsCodec (codec : Codec) (fs : Fields) : Type 0 where
  pub parse-stringify : codec.parse_json (codec.stringify (obj fs)) ≡ some (obj (cleaned_fields fs))
  pub parse-empty : codec.parse_json [] ≡ none
  pub number-decimal :
      (n : ℕ) → n ≤ max_safe_integer → codec.number_of (decimal n) ≡ Number.finite n
  pub number-empty : codec.number_of [] ≡ Number.finite 0
