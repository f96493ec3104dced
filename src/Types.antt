-- ===== src/Types.antt =====
-- low-latency-components/types.h: identifiers, sentinels and limits. The unsigned types are plain
-- numbers whose wrap-around is written where the code can reach it; `Price` is an integer.
pub mod Text
pub mod Names
use trading_ecosystem.Prelude.{ℕ, ◌-◌, ◌*◌, ◌^◌, ℤ, pos, Bool, true, false}

abbrev pub order_id_mod : ℕ
order_id_mod = 2 ^ 64

abbrev pub qty_mod : ℕ
qty_mod = 2 ^ 32

abbrev pub priority_mod : ℕ
priority_mod = 2 ^ 64

-- Kept shut, so that no tactic computes with them: nothing depends on their values.
unfoldable pub order_id_invalid : ℕ
order_id_invalid = order_id_mod - 1

unfoldable pub ticker_id_invalid : ℕ
ticker_id_invalid = 2 ^ 32 - 1

unfoldable pub client_id_invalid : ℕ
client_id_invalid = 2 ^ 32 - 1

unfoldable pub price_invalid : ℤ
price_invalid = pos (2 ^ 63 - 1)

unfoldable pub qty_invalid : ℕ
qty_invalid = qty_mod - 1

unfoldable pub priority_invalid : ℕ
priority_invalid = priority_mod - 1

-- A byte that the enumeration does not name is a value of it in C++.
pub data Side : Type 0 where
  invalid buy sell : Side
  unnamed : ℕ → Side

abbrev pub is_buy : Side → Bool
is_buy Side.buy = true
is_buy _ = false

abbrev pub is_sell : Side → Bool
is_sell Side.sell = true
is_sell _ = false

abbrev pub me_max_tickers : ℕ
me_max_tickers = 8

abbrev pub me_max_num_clients : ℕ
me_max_num_clients = 256

abbrev pub me_max_price_levels : ℕ
me_max_price_levels = 256

abbrev pub me_max_order_ids : ℕ
me_max_order_ids = 1024 * 1024

abbrev pub me_max_client_updates : ℕ
me_max_client_updates = 256 * 1024
