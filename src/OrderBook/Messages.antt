-- ===== src/OrderBook/Messages.antt =====
-- The messages that me_order_book.cpp sends.
use trading_ecosystem.Prelude.{ℕ, ◌-◌, ℤ}
use trading_ecosystem.Types.{Side, order_id_invalid, price_invalid, qty_invalid, priority_invalid}
use trading_ecosystem.Order.{MeOrder}
use trading_ecosystem.Message.{
  ClientResponseType, MeClientResponse, MeMarketUpdateType, MeMarketUpdate,
}

-- The messages of `match`, in the order in which it sends them. `o` is the resting order before the fill.
abbrev pub fill_response :
    (ticker_id client_id : ℕ) (side : Side) (client_order_id market_order_id : ℕ) (o : MeOrder)
    (fill leaves : ℕ)
    → MeClientResponse
fill_response ticker client side client_order market_order o fill leaves = record {
  type = ClientResponseType.filled;
  client_id = client;
  ticker_id = ticker;
  client_order_id = client_order;
  market_order_id = market_order;
  side = side;
  price = o.price;
  exec_qty = fill;
  leaves_qty = leaves;
}

abbrev pub rest_response : (ticker_id : ℕ) (o : MeOrder) (fill : ℕ) → MeClientResponse
rest_response ticker o fill = record {
  type = ClientResponseType.filled;
  client_id = o.client_id;
  ticker_id = ticker;
  client_order_id = o.client_order_id;
  market_order_id = o.market_order_id;
  side = o.side;
  price = o.price;
  exec_qty = fill;
  leaves_qty = o.qty - fill;
}

abbrev pub trade_update : (ticker_id : ℕ) (side : Side) (o : MeOrder) (fill : ℕ) → MeMarketUpdate
trade_update ticker side o fill = record {
  type = MeMarketUpdateType.trade;
  order_id = order_id_invalid;
  ticker_id = ticker;
  side = side;
  price = o.price;
  qty = fill;
  priority = priority_invalid;
}

abbrev pub gone_update : (ticker_id : ℕ) (o : MeOrder) → MeMarketUpdate
gone_update ticker o = record {
  type = MeMarketUpdateType.cancel;
  order_id = o.market_order_id;
  ticker_id = ticker;
  side = o.side;
  price = o.price;
  qty = o.qty;
  priority = priority_invalid;
}

abbrev pub reduced_update : (ticker_id : ℕ) (o : MeOrder) (fill : ℕ) → MeMarketUpdate
reduced_update ticker o fill = record {
  type = MeMarketUpdateType.modify;
  order_id = o.market_order_id;
  ticker_id = ticker;
  side = o.side;
  price = o.price;
  qty = o.qty - fill;
  priority = o.priority;
}

abbrev pub accepted_response :
    (client_id client_order_id ticker_id : ℕ) (side : Side) (price : ℤ) (qty market_order_id : ℕ)
    → MeClientResponse
accepted_response client client_order ticker side price qty market_order = record {
  type = ClientResponseType.accepted;
  client_id = client;
  ticker_id = ticker;
  client_order_id = client_order;
  market_order_id = market_order;
  side = side;
  price = price;
  exec_qty = 0;
  leaves_qty = qty;
}

abbrev pub add_update :
    (ticker_id : ℕ) (side : Side) (price : ℤ) (qty market_order_id priority : ℕ) → MeMarketUpdate
add_update ticker side price qty market_order priority = record {
  type = MeMarketUpdateType.add;
  order_id = market_order;
  ticker_id = ticker;
  side = side;
  price = price;
  qty = qty;
  priority = priority;
}

abbrev pub cancel_rejected_response : (client_id order_id ticker_id : ℕ) → MeClientResponse
cancel_rejected_response client order ticker = record {
  type = ClientResponseType.cancel_rejected;
  client_id = client;
  ticker_id = ticker;
  client_order_id = order;
  market_order_id = order_id_invalid;
  side = Side.invalid;
  price = price_invalid;
  exec_qty = qty_invalid;
  leaves_qty = qty_invalid;
}

abbrev pub canceled_response : (client_id order_id ticker_id : ℕ) (o : MeOrder) → MeClientResponse
canceled_response client order ticker o = record {
  type = ClientResponseType.canceled;
  client_id = client;
  ticker_id = ticker;
  client_order_id = order;
  market_order_id = o.market_order_id;
  side = o.side;
  price = o.price;
  exec_qty = qty_invalid;
  leaves_qty = o.qty;
}

abbrev pub cancel_update : (ticker_id : ℕ) (o : MeOrder) → MeMarketUpdate
cancel_update ticker o = record {
  type = MeMarketUpdateType.cancel;
  order_id = o.market_order_id;
  ticker_id = ticker;
  side = o.side;
  price = o.price;
  qty = 0;
  priority = o.priority;
}
