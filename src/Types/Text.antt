-- ===== src/Types/Text.antt =====
-- The conversions to text of low-latency-components/types.h.
use trading_ecosystem.Prelude.{ℕ, ℤ, ◌==◌, eq_ℤ, Bool, true, false}
use trading_ecosystem.Text.{Text, codes, decimal, decimal_ℤ}
use trading_ecosystem.Types.{
  order_id_invalid, ticker_id_invalid, client_id_invalid, price_invalid, qty_invalid,
  priority_invalid, Side,
}

abbrev pub or_invalid : Bool → Text → Text
or_invalid true t = codes "INVALID"
or_invalid false t = t

unfoldable pub order_id_to_string : ℕ → Text
order_id_to_string order_id = or_invalid (order_id == order_id_invalid) (decimal order_id)

unfoldable pub ticker_id_to_string : ℕ → Text
ticker_id_to_string ticker_id = or_invalid (ticker_id == ticker_id_invalid) (decimal ticker_id)

unfoldable pub client_id_to_string : ℕ → Text
client_id_to_string client_id = or_invalid (client_id == client_id_invalid) (decimal client_id)

unfoldable pub price_to_string : ℤ → Text
price_to_string price = or_invalid (eq_ℤ price price_invalid) (decimal_ℤ price)

unfoldable pub qty_to_string : ℕ → Text
qty_to_string qty = or_invalid (qty == qty_invalid) (decimal qty)

unfoldable pub priority_to_string : ℕ → Text
priority_to_string priority = or_invalid (priority == priority_invalid) (decimal priority)

unfoldable pub side_to_string : Side → Text
side_to_string Side.buy = codes "BUY"
side_to_string Side.sell = codes "SELL"
side_to_string Side.invalid = codes "INVALID"
side_to_string (Side.unnamed b) = codes "UNKNOWN"
