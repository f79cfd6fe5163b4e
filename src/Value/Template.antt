-- ===== src/Value/Template.antt =====
-- A value inside a template literal, `${value}`.
use msclaude_connector.Prelude.{true, false, [], ◌∷◌, ◌++◌, Text, codes}
use msclaude_connector.Prelude.Decimal.{decimal}
use msclaude_connector.Value.{
  Value, Items, Number, undefined, null, bool, num, str, arr, obj, nil, cons,
}

abbrev pub text_of_number : Number → Text
text_of_number (Number.finite n) = decimal n
text_of_number Number.infinite = codes "Infinity"

-- `String(value)`. An array joins its elements by commas, and writes null and undefined as nothing.
unfoldable mutual
  pub to_text : Value → Text
  to_text undefined = codes "undefined"
  to_text null = codes "null"
  to_text (bool true) = codes "true"
  to_text (bool false) = codes "false"
  to_text (num n) = text_of_number n
  to_text (str s) = s
  to_text (arr vs) = join_items vs
  to_text (obj fs) = codes "[object Object]"

  pub element_text : Value → Text
  element_text undefined = []
  element_text null = []
  element_text (bool true) = codes "true"
  element_text (bool false) = codes "false"
  element_text (num n) = text_of_number n
  element_text (str s) = s
  element_text (arr vs) = join_items vs
  element_text (obj fs) = codes "[object Object]"

  pub join_items : Items → Text
  join_items nil = []
  join_items (cons v nil) = element_text v
  join_items (cons v (cons w vs)) = element_text v ++ b',' ∷ join_items (cons w vs)
