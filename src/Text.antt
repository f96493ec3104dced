-- ===== src/Text.antt =====
-- Text as the list of the codes of its characters, and what the code uses of `std::to_string`, of string streams and of
-- the widths of `sprintf`.
pub mod Decimal
pub mod Words
use trading_ecosystem.Prelude.{
  ℕ, zero, suc, ◌+◌, ◌/◌, ◌%◌, ℤ, pos, negsuc, true, false, List, [], ◌∷◌, ◌++◌, leb, length, ◌-◌,
}
use Prim.Native.Char.{code}
use Prim.Native.String.{String}

abbrev pub Text : Type 0
Text = List ℕ

abbrev pub codes : String → Text
codes String.[] = []
codes (String.◌∷◌ c s) = code c ∷ codes s

abbrev pub space : ℕ
space = 32

abbrev pub minus : ℕ
minus = 45

abbrev pub digit : ℕ → ℕ
digit n = 48 + n % 10

-- The digits of `n`, the last one first, put before `out`; a number has fewer digits than its successor counts.
unfoldable pub put_digits : (fuel n : ℕ) → Text → Text
put_digits zero n out = out
put_digits (suc fuel) n out = elim (leb 10 n) [
  | true ↦ put_digits fuel (n / 10) (digit n ∷ out)
  | false ↦ digit n ∷ out
]

-- `std::to_string` of an unsigned number
unfoldable pub decimal : ℕ → Text
unfolding put_digits
decimal n = put_digits (suc n) n []

-- `std::to_string` of a signed number
unfoldable pub decimal_ℤ : ℤ → Text
unfolding decimal
decimal_ℤ (pos n) = decimal n
decimal_ℤ (negsuc n) = minus ∷ decimal (suc n)

abbrev pub spaces : ℕ → Text
spaces zero = []
spaces (suc n) = space ∷ spaces n

-- `%3s` and `%-3s` of `sprintf`, for any width
abbrev pub pad_left : ℕ → Text → Text
pad_left width t = spaces (width - length t) ++ t

abbrev pub pad_right : ℕ → Text → Text
pad_right width t = t ++ spaces (width - length t)

-- What a string stream holds after it was given these texts in their order.
abbrev pub stream : List Text → Text
stream [] = []
stream (t ∷ ts) = t ++ stream ts
