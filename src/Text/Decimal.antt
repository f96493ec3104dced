-- ===== src/Text/Decimal.antt =====
-- What the decimal digits of a number are, and that they tell the number.
use trading_ecosystem.Prelude.{
  ℕ, zero, suc, ◌+◌, ◌-◌, ◌*◌, ◌/◌, ◌≤◌, ◌<◌, ◌≡◌, sym, ap, ◌∙◌, [], ◌∷◌, leb, Bool-cases, inl, inr,
  arith,
}
use trading_ecosystem.Text.{Text, digit, put_digits, decimal}

-- The number that digits stand for, after those that stand for `n`.
abbrev value : Text → ℕ → ℕ
value [] n = n
value (c ∷ s) n = value s (n * 10 + (c - 48))

value-put_digits :
    (fuel n : ℕ) (out : Text) → n < fuel → value (put_digits fuel n out) 0 ≡ value out n
unfolding put_digits
value-put_digits zero n out h = absurd (omega arith)
value-put_digits (suc fuel) n out h = elim (Bool-cases (leb 10 n)) [
  | inl more ↦
      rw (more, put_digits)
        (value-put_digits fuel (n / 10) (digit n ∷ out) (ground arith)
          ∙ ap (value out) (omega arith))
  | inr last ↦ rw (last, put_digits) (ap (value out) (ground arith))
]

value-decimal : (n : ℕ) → value (decimal n) 0 ≡ n
unfolding decimal
value-decimal n = value-put_digits (suc n) n [] (omega arith)

pub decimal-injective : (m n : ℕ) → decimal m ≡ decimal n → m ≡ n
decimal-injective m n e = sym (value-decimal m) ∙ ap (λ t. value t 0) e ∙ value-decimal n

abbrev pub IsDigits : Text → Type 0
IsDigits [] = Unit
IsDigits (c ∷ s) = (48 ≤ c) × (c ≤ 57) × IsDigits s

put_digits-IsDigits : (fuel n : ℕ) (out : Text) → IsDigits out → IsDigits (put_digits fuel n out)
unfolding put_digits
put_digits-IsDigits zero n out h = h
put_digits-IsDigits (suc fuel) n out h = elim (Bool-cases (leb 10 n)) [
  | inl more ↦
      rw (more, put_digits)
        (put_digits-IsDigits fuel (n / 10) (digit n ∷ out) (omega arith, omega arith, h))
  | inr last ↦ rw (last, put_digits) (omega arith, omega arith, h)
]

pub decimal-IsDigits : (n : ℕ) → IsDigits (decimal n)
unfolding decimal
decimal-IsDigits n = put_digits-IsDigits (suc n) n [] tt
