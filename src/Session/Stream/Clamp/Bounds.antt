-- ===== src/Session/Stream/Clamp/Bounds.antt =====
-- `clampText` of reducer.ts: how long its result is, and which part of the text it is.
use mathlib.Core.Path.{subst}
use mathlib.Core.List.{append-nil, append_assoc}
use native.Mathlib.Decide.{dec_le}
use msclaude_connector.Prelude.{
  ℕ, zero, suc, ◌*◌, ◌/◌, ◌≤◌, ◌<◌, ◌≡◌, ◌⊎◌, inl, inr, Bool, true, false, ◌&&◌, [], ◌∷◌, arith,
  Text, ltb, length, length-take, take, Bool-cases, ap, ◌∙◌, sym, ◌++◌, ◌≢◌, take-append-drop, drop,
}
use msclaude_connector.Session.Stream.Clamp.{
  max_text_bytes, text_byte_length, clamp_loop, clamp_text,
}

empty_fits : (has_encoder : Bool) → text_byte_length has_encoder [] ≤ max_text_bytes
unfolding text_byte_length
empty_fits true = omega arith
empty_fits false = omega arith

-- Where the fuel is no less than the length, the loop has ended by its test.
clamp_loop_fits :
    (fuel : ℕ) (has_encoder : Bool) (out : Text)
    → length out ≤ fuel
    → text_byte_length has_encoder (clamp_loop fuel has_encoder out) ≤ max_text_bytes
unfolding clamp_loop
clamp_loop_fits zero has_encoder [] h = empty_fits has_encoder
clamp_loop_fits (suc fuel) has_encoder [] h = empty_fits has_encoder
clamp_loop_fits zero has_encoder (c ∷ out) h = absurd (omega arith)
clamp_loop_fits (suc fuel) has_encoder (c ∷ out) h = ground (
  arith,
  length-take (length (c ∷ out) * 9 / 10) (c ∷ out),
  clamp_loop_fits fuel has_encoder (take (length (c ∷ out) * 9 / 10) (c ∷ out)),
)

-- What the loop leaves is a front part of the text.
clamp_loop_front :
    (fuel : ℕ) (has_encoder : Bool) (out : Text)
    → (rest : Text) × (out ≡ clamp_loop fuel has_encoder out ++ rest)
unfolding clamp_loop
clamp_loop_front zero has_encoder out = ([], sym (append-nil out))
clamp_loop_front (suc fuel) has_encoder out =
    let n = length out * 9 / 10 in
    let (rest, e) = clamp_loop_front fuel has_encoder (take n out) in
    elim (Bool-cases
      (ltb 0 (length out) && ltb max_text_bytes (text_byte_length has_encoder out))) [
        | inl more ↦ (
          rest ++ drop n out,
          rw more (
              sym (take-append-drop n out)
              ∙ ap (λ l. l ++ drop n out) e
              ∙ append_assoc (clamp_loop fuel has_encoder (take n out)) rest (drop n out)),
        )
        | inr done ↦ ([], rw done (sym (append-nil out)))
      ]

-- The clamped text fits the limit, on either way to measure it, whatever the text.
clamp_text_fits :
    (has_encoder : Bool) (text : Text)
    → text_byte_length has_encoder (clamp_text has_encoder text) ≤ max_text_bytes
unfolding clamp_text
clamp_text_fits has_encoder text = ground (arith, clamp_loop_fits (length text) has_encoder text)

within :
    (has_encoder : Bool) (text : Text)
    → text_byte_length has_encoder text ≤ max_text_bytes
    → clamp_text has_encoder text ≡ text
unfolding clamp_text
within has_encoder text h = ground arith

beyond :
    (has_encoder : Bool) (text : Text)
    → max_text_bytes < text_byte_length has_encoder text
    → clamp_text has_encoder text ≡ clamp_loop (length text) has_encoder text
unfolding clamp_text
beyond has_encoder text h = ground arith

-- The text that clampText returns is within 256 KiB. It is the given text where that is within
-- 256 KiB, and a proper prefix of it where it is not.
pub clamp_text_lem :
    (has_encoder : Bool) (text : Text)
    → (text_byte_length has_encoder (clamp_text has_encoder text) ≤ max_text_bytes)
      × (((text_byte_length has_encoder text ≤ max_text_bytes)
            × (clamp_text has_encoder text ≡ text))
          ⊎ ((max_text_bytes < text_byte_length has_encoder text)
              × ((rest : Text) × (rest ≢ []) × (text ≡ clamp_text has_encoder text ++ rest))))
clamp_text_lem has_encoder text = (
  clamp_text_fits has_encoder text,
  elim (dec_le (text_byte_length has_encoder text) max_text_bytes) [
    | yes fits ↦ inl (fits, within has_encoder text fits)
    | no over ↦
        let (rest, e) = clamp_loop_front (length text) has_encoder text in
        let split : text ≡ clamp_text has_encoder text ++ rest =
          rw (beyond has_encoder text (omega arith)) e in
        inr (omega arith, (rest, (λ none_left. over (whole rest split none_left)), split))
  ],
)
  where
    whole :
        (rest : Text)
        → text ≡ clamp_text has_encoder text ++ rest
        → rest ≡ []
        → text_byte_length has_encoder text ≤ max_text_bytes
    whole rest split none_left =
        subst (λ t. text_byte_length has_encoder t ≤ max_text_bytes)
          (sym (split ∙ ap (λ r. clamp_text has_encoder text ++ r) none_left ∙ append-nil _))
          (clamp_text_fits has_encoder text)
