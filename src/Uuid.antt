-- ===== src/Uuid.antt =====
-- clients/packages/harness-protocol/src/uuid.ts: the ids of commands. The sixteen bytes are the platform's
-- random ones, of `crypto` or of `Math.random`.
mod Tests
pub mod Form
use Prim.Native.Nat.{bit_and, bit_or}
use msclaude_connector.Prelude.{
  ℕ, zero, suc, ◌+◌, ◌-◌, ◌/◌, ◌%◌, Bool, ◌||◌, List, [], ◌∷◌, ◌++◌, Text, codes, ltb, ◌==◌,
  if◌then◌else◌,
}

-- A digit of `toString(16)`.
abbrev pub hex_digit : ℕ → ℕ
hex_digit n = if ltb n 10 then b'0' + n else b'a' + (n - 10)

-- `byte.toString(16).padStart(2, '0')`, of a byte
abbrev pub hex_byte : ℕ → Text
hex_byte b = hex_digit (b / 16) ∷ hex_digit (b % 16) ∷ []

-- `if (i === 3 || i === 5 || i === 7 || i === 9) out += '-'`
abbrev pub dash_after : ℕ → Text
dash_after i = if i == 3 || i == 5 || i == 7 || i == 9 then codes "-" else []

-- `hex`, from byte `i` on
unfoldable pub hex : ℕ → List ℕ → Text
hex i [] = []
hex i (b ∷ bytes) = hex_byte b ++ (dash_after i ++ hex (i + 1) bytes)

-- `bytes[i] = f(bytes[i])`
unfoldable pub set_byte : ℕ → (ℕ → ℕ) → List ℕ → List ℕ
set_byte i f [] = []
set_byte zero f (b ∷ bytes) = f b ∷ bytes
set_byte (suc i) f (b ∷ bytes) = b ∷ set_byte i f bytes

abbrev pub with_version : ℕ → ℕ
with_version b = bit_or (bit_and b 0x0f) 0x40

abbrev pub with_variant : ℕ → ℕ
with_variant b = bit_or (bit_and b 0x3f) 0x80

-- `uuid`, from the random bytes on
unfoldable pub uuid : List ℕ → Text
unfolding hex set_byte
uuid bytes = hex 0 (set_byte 8 with_variant (set_byte 6 with_version bytes))
