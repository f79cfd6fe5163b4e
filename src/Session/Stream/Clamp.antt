-- ===== src/Session/Stream/Clamp.antt =====
-- `textByteLength` and `clampText` of reducer.ts.
pub mod Bounds
use msclaude_connector.Prelude.{
  ℕ, zero, suc, ◌+◌, ◌-◌, ◌*◌, ◌/◌, ◌≤◌, ◌<◌, ◌≡◌, refl, Bool, true, false, ◌&&◌, [], ◌∷◌, arith,
  Text, ltb, leb, if◌then◌else◌, length, length-take, take, inl, inr, Bool-cases, leb→le,
}

-- `MAX_TEXT_BYTES`
abbrev pub max_text_bytes : ℕ
max_text_bytes = 256 * 1024

-- The bytes of one code unit that is not half of a pair; a lone half is encoded as U+FFFD.
abbrev unit_bytes : ℕ → ℕ
unit_bytes c = if ltb c 0x80 then 1 else if ltb c 0x800 then 2 else 3

abbrev is_high : ℕ → Bool
is_high c = leb 0xd800 c && leb c 0xdbff

abbrev is_low : ℕ → Bool
is_low c = leb 0xdc00 c && leb c 0xdfff

-- `new TextEncoder().encode(text).length`
unfoldable pub utf8_length : Text → ℕ
utf8_length [] = 0
utf8_length (c ∷ []) = unit_bytes c
utf8_length (c ∷ d ∷ s) =
    let pair = 4 + utf8_length s in
    let single = unit_bytes c + utf8_length (d ∷ s) in
    if is_high c && is_low d then pair else single

unfoldable pub text_byte_length : Bool → Text → ℕ
unfolding utf8_length
text_byte_length has_encoder text = if has_encoder then utf8_length text else length text

-- The loop: `out.slice(0, Math.floor(out.length * 0.9))` while `out` is too long. The fuel is the
-- length of the text, which each round makes smaller.
unfoldable pub clamp_loop : ℕ → Bool → Text → Text
clamp_loop zero has_encoder out = out
clamp_loop (suc fuel) has_encoder out =
    let next = clamp_loop fuel has_encoder (take (length out * 9 / 10) out) in
    if ltb 0 (length out) && ltb max_text_bytes (text_byte_length has_encoder out)
    then next
    else out

unfoldable pub clamp_text : Bool → Text → Text
unfolding clamp_loop
clamp_text has_encoder text =
    if leb (text_byte_length has_encoder text) max_text_bytes
    then text
    else clamp_loop (length text) has_encoder text
