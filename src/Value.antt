-- ===== src/Value.antt =====
-- clients/packages/harness-protocol/src/types.ts: the values of `JSON.parse` and the tests and
-- conversions that every reader of an unknown value goes through.
-- A number is a natural number or is not finite (`1e999`); a field name is a native string, since
-- the code compares names with literals only.
pub mod Template
use text.Mathlib.Text.{◌==◌ as str_eq}
use msclaude_connector.Prelude.{
  ℕ, String, Bool, true, false, List, [], ◌∷◌, Option, none, some, Text, text_eq, ◌==◌,
  if◌then◌else◌,
}

pub data Number : Type 0 where
  finite : ℕ → Number
  infinite : Number

mutual
  pub data Value : Type 0 where
    undefined null : Value
    bool : Bool → Value
    num : Number → Value
    str : Text → Value
    arr : Items → Value
    obj : Fields → Value

  -- The own properties of a record.
  pub data Fields : Type 0 where
    end : Fields
    field : String → Value → Fields → Fields

  pub data Items : Type 0 where
    nil : Items
    cons : Value → Items → Items

-- `o.name`
abbrev pub get : String → Fields → Value
get k end = undefined
get k (field j v fs) = if str_eq j k then v else get k fs

abbrev to_list : Items → List Value
to_list nil = []
to_list (cons v vs) = v ∷ to_list vs

-- `isRecord`: an object that is neither null nor an array. The record is what the cast gives.
abbrev pub is_record : Value → Option Fields
is_record (obj fs) = some fs
is_record _ = none

-- `asString`
abbrev pub as_string : Value → Text → Text
as_string (str s) fallback = s
as_string _ fallback = fallback

-- `asNumber`
abbrev pub as_number : Value → ℕ → ℕ
as_number (num (Number.finite n)) fallback = n
as_number _ fallback = fallback

-- `asBool`
abbrev pub as_bool : Value → Bool → Bool
as_bool (bool b) fallback = b
as_bool _ fallback = fallback

-- `asArray`
abbrev pub as_array : Value → List Value
as_array (arr vs) = to_list vs
as_array _ = []

-- `optionalString` of reducer.ts
abbrev pub optional_string : Value → Option Text
optional_string (str s) = some s
optional_string _ = none

abbrev pub same_number : Number → Number → Bool
same_number (finite m) (finite n) = m == n
same_number (finite m) infinite = false
same_number infinite (finite n) = false
same_number infinite infinite = true

abbrev bool_eq : Bool → Bool → Bool
bool_eq true b = b
bool_eq false true = false
bool_eq false false = true

-- `v ?? w`
abbrev pub or_value : Value → Value → Value
or_value undefined w = w
or_value null w = w
or_value v w = v

-- `v === w` for values of different positions of parsed documents: arrays and objects are compared
-- by reference, and two positions never share one.
abbrev pub same_value : Value → Value → Bool
same_value undefined undefined = true
same_value null null = true
same_value (bool a) (bool b) = bool_eq a b
same_value (num m) (num n) = same_number m n
same_value (str s) (str t) = text_eq s t
same_value _ _ = false

-- `payload.f` where the payload may be anything: a value that is no record reads as `{}`.
abbrev pub record_or_empty : Value → Fields
record_or_empty (obj fs) = fs
record_or_empty _ = end
