-- ===== src/Errors/Format/Decimal.antt =====
-- Reading the digits of `%d` back.
use kube_drift.Common.{
  ℕ, zero, suc, ◌+◌, ◌-◌, ◌*◌, ◌/◌, ◌%◌, ◌≤◌, ◌<◌, ◌≡◌, sym, ap, ◌∙◌, [], ◌∷◌, Text, ltb, arith,
  All, Bool-cases, inl, inr,
}
use kube_drift.Errors.Format.{decimal_digits, decimal}

-- The number that digits spell behind a number.
abbrev pub read_digits : ℕ → Text → ℕ
read_digits n [] = n
read_digits n (c ∷ s) = read_digits (10 * n + (c - 48)) s

abbrev pub read_decimal : Text → ℕ
read_decimal s = read_digits 0 s

next_digit : (n : ℕ) → 10 * (n / 10) + (48 + n % 10 - 48) ≡ n
next_digit n = omega arith

read_digits-decimal_digits :
    (fuel n : ℕ) (acc : Text)
    → n < fuel
    → read_digits 0 (decimal_digits fuel n acc) ≡ read_digits n acc
unfolding decimal_digits
read_digits-decimal_digits zero n acc h = absurd (omega arith)
read_digits-decimal_digits (suc fuel) n acc h = elim (Bool-cases (ltb n 10)) [
  | inl low ↦ rw low (ap (λ k. read_digits k acc) (omega arith))
  | inr high ↦
      let big : 10 ≤ n = ground arith in
      let less : n / 10 < fuel = omega arith in
      rw high (
        read_digits-decimal_digits fuel (n / 10) _ less
        ∙ ap (λ k. read_digits k acc) (next_digit n))
]

pub read_decimal-decimal : (n : ℕ) → read_decimal (decimal n) ≡ n
unfolding decimal
read_decimal-decimal n = read_digits-decimal_digits (suc n) n [] (omega arith)

pub decimal_inj : (m n : ℕ) → decimal m ≡ decimal n → m ≡ n
decimal_inj m n e = sym (read_decimal-decimal m) ∙ ap read_decimal e ∙ read_decimal-decimal n

abbrev pub IsDigit : ℕ → Type 0
IsDigit c = (48 ≤ c) × (c ≤ 57)

-- A text of one or more digits.
abbrev pub IsNumeral : Text → Type 0
IsNumeral [] = ⊥
IsNumeral (c ∷ s) = IsDigit c × All IsDigit s

decimal_digits-IsNumeral :
    (fuel n : ℕ) (acc : Text) → n < fuel → All IsDigit acc → IsNumeral (decimal_digits fuel n acc)
unfolding decimal_digits
decimal_digits-IsNumeral zero n acc less h = absurd (omega arith)
decimal_digits-IsNumeral (suc fuel) n acc less h = elim (Bool-cases (ltb n 10)) [
  | inl low ↦ rw low (ground arith, h)
  | inr high ↦
      let big : 10 ≤ n = ground arith in
      rw high (decimal_digits-IsNumeral fuel (n / 10) _ (omega arith) (omega arith, h))
]

pub decimal-IsNumeral : (n : ℕ) → IsNumeral (decimal n)
unfolding decimal
decimal-IsNumeral n = decimal_digits-IsNumeral (suc n) n [] (omega arith) tt
