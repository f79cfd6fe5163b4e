-- ===== src/Prelude/Decimal.antt =====
-- `${n}` for a natural number: its decimal digits (the form that JavaScript uses below 10 ^ 21).
use msclaude_connector.Prelude.{
  ℕ, zero, suc, ◌+◌, ◌-◌, ◌*◌, ◌/◌, ◌%◌, ◌≤◌, ◌≡◌, sym, ap, ◌∙◌, [], ◌∷◌, arith, Text, ltb,
  if◌then◌else◌, inl, inr, Bool-cases,
}

emit : ℕ → ℕ → Text → Text
emit zero n out = out
emit (suc fuel) n out =
    let more = emit fuel (n / 10) ((b'0' + n % 10) ∷ out) in
    if ltb n 10 then (b'0' + n) ∷ out else more

unfoldable pub decimal : ℕ → Text
unfolding emit
decimal n = emit (suc n) n []

-- The number that decimal digits stand for, after those of `acc`.
unfoldable pub read : ℕ → Text → ℕ
read acc [] = acc
read acc (c ∷ s) = read (acc * 10 + (c - b'0')) s

read-emit : (fuel n : ℕ) (out : Text) → suc n ≤ fuel → read 0 (emit fuel n out) ≡ read n out
unfolding emit read
read-emit zero n out h = absurd (omega arith)
read-emit (suc fuel) n out h = elim (Bool-cases (ltb n 10)) [
  | inl e ↦ rw e (ap (λ k. read k out) (omega arith))
  | inr e ↦ rw e (
      read-emit fuel (n / 10) ((b'0' + n % 10) ∷ out) (ground arith)
      ∙ ap (λ k. read k out) (omega arith))
]

pub read-decimal : (n : ℕ) → read 0 (decimal n) ≡ n
unfolding decimal read
read-decimal n = read-emit (suc n) n [] (omega arith)

-- Two numbers with the same digits are the same number.
pub decimal-injective : (m n : ℕ) → decimal m ≡ decimal n → m ≡ n
decimal-injective m n h = sym (read-decimal m) ∙ ap (read 0) h ∙ read-decimal n
