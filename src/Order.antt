-- ===== src/Order.antt =====
-- exchange/matcher/me_order.h: the nodes of the book's two kinds of ring.
use trading_ecosystem.Prelude.{ℕ, ℤ, Ptr, none}
use trading_ecosystem.Types.{
  Side, order_id_invalid, ticker_id_invalid, client_id_invalid, price_invalid, qty_invalid,
  priority_invalid,
}

pub record MeOrder : Type 0 where
  pub ticker_id : ℕ
  pub client_id : ℕ
  pub client_order_id : ℕ
  pub market_order_id : ℕ
  pub side : Side
  pub price : ℤ
  pub qty : ℕ
  pub priority : ℕ
  pub prev_order : Ptr
  pub next_order : Ptr

-- `MEOrder()`
unfoldable pub default_order : MeOrder
default_order = record {
  ticker_id = ticker_id_invalid;
  client_id = client_id_invalid;
  client_order_id = order_id_invalid;
  market_order_id = order_id_invalid;
  side = Side.invalid;
  price = price_invalid;
  qty = qty_invalid;
  priority = priority_invalid;
  prev_order = none;
  next_order = none;
}

pub record MeOrdersAtPrice : Type 0 where
  pub side : Side
  pub price : ℤ
  pub first_me_order : Ptr
  pub prev_entry : Ptr
  pub next_entry : Ptr

-- `MEOrdersAtPrice()`
unfoldable pub default_orders_at_price : MeOrdersAtPrice
default_orders_at_price = record {
  side = Side.invalid;
  price = price_invalid;
  first_me_order = none;
  prev_entry = none;
  next_entry = none;
}
