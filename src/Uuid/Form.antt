-- ===== src/Uuid/Form.antt =====
-- uuid.ts against RFC 4122: the form of an id of version 4.
use msclaude_connector.Prelude.{
  ℕ, zero, suc, ◌<◌, ◌≡◌, refl, ap, Bool, true, ◌&&◌, ◌||◌, [], ◌∷◌, Option, some, arith, Text,
  length, get_elem?, ◌==◌, ==_iff, ◌/◌,
}
use msclaude_connector.Uuid.{uuid, with_version, with_variant, hex_digit}

-- A test of all the numbers below `n`.
all_below : (ℕ → Bool) → ℕ → Bool
all_below p zero = true
all_below p (suc n) = p n && all_below p n

all_below-true : (p : ℕ → Bool) (n x : ℕ) → all_below p n ≡ true → x < n → p x ≡ true
unfolding all_below
all_below-true p zero x h lt = absurd (omega arith)
all_below-true p (suc n) x h lt = ground (arith, all_below-true p n x)

is_four : ℕ → Bool
is_four b = hex_digit (with_version b / 16) == b'4'

is_variant : ℕ → Bool
is_variant b =
    let d = hex_digit (with_variant b / 16) in d == b'8' || d == b'9' || d == b'a' || d == b'b'

version_table : all_below is_four 256 ≡ true
unfolding all_below is_four
version_table = refl

variant_table : all_below is_variant 256 ≡ true
unfolding all_below is_variant
variant_table = refl

-- The character of a variant of RFC 4122.
abbrev pub is_variant_char : Option ℕ → Bool
is_variant_char (some c) = c == b'8' || c == b'9' || c == b'a' || c == b'b'
is_variant_char _ = Bool.false

-- The positions that a text of this form has its dashes and its version at.
pub record IsVersion4 (s : Text) : Type 0 where
  pub size : length s ≡ 36
  pub dashes :
      (get_elem? s 8 ≡ some b'-')
      × (get_elem? s 13 ≡ some b'-')
      × (get_elem? s 18 ≡ some b'-')
      × (get_elem? s 23 ≡ some b'-')
  pub version : get_elem? s 14 ≡ some b'4'
  pub variant : is_variant_char (get_elem? s 19) ≡ true

-- Of any sixteen bytes, an id has the form of version 4: 36 characters, dashes at their places, the
-- version 4 and a variant of RFC 4122.
pub uuid-IsVersion4 :
    (b0 b1 b2 b3 b4 b5 b6 b7 b8 b9 b10 b11 b12 b13 b14 b15 : ℕ)
    → b6 < 256
    → b8 < 256
    → IsVersion4 (
        uuid (
          b0 ∷ b1 ∷ b2 ∷ b3 ∷ b4 ∷ b5 ∷ b6 ∷ b7 ∷ b8 ∷ b9 ∷ b10 ∷ b11 ∷ b12 ∷ b13 ∷ b14 ∷ b15 ∷ []))
unfolding uuid is_four is_variant
uuid-IsVersion4 b0 b1 b2 b3 b4 b5 b6 b7 b8 b9 b10 b11 b12 b13 b14 b15 h6 h8 = record {
  size = refl;
  dashes = (refl, refl, refl, refl);
  version = ap some ((==_iff _ _).0 (all_below-true is_four 256 b6 version_table h6));
  variant = all_below-true is_variant 256 b8 variant_table h8;
}
