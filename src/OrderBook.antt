-- ===== src/OrderBook.antt =====
-- exchange/matcher/me_order_book.h and me_order_book.cpp. The order book is a record; the engine that
-- it reports to is any type `E` with the operations of `Outbound`. `Book` is the state that a method runs on.
-- The children hold the methods, from the smallest to the whole operations.
pub mod Level
pub mod Resting
pub mod Ring
pub mod Messages
pub mod Matching
pub mod Aside
pub mod TimePriority
pub mod Leaving
pub mod Stable
pub mod StableMethods
pub mod Bids
pub mod Termination
pub mod Ends
pub mod Untouched
pub mod Used
pub mod Engine
pub mod Trades
pub mod Frame
pub mod Table
pub mod Indexed
pub mod Joining
pub mod Rested
pub mod Removing
pub mod Rungs
pub mod BestLevel
pub mod Emptying
pub mod Offers
pub mod Taking
pub mod Consuming
pub mod AskSide
pub mod AtRung
pub mod Sweeping
pub mod CancelAsk
pub mod Joined
pub mod JoinedAsk
pub mod AddAsk
pub mod Deals
pub mod Priority
pub mod Cancelling
pub mod AddAfter
pub mod Text
mod Tests
use trading_ecosystem.Prelude.{
  ℕ, ◌+◌, ◌-◌, ◌%◌, ◌^◌, ◌≡◌, ℤ, pos, negsuc, Ptr, none, some, update, ltb,
}
use trading_ecosystem.Run.{
  Cmd, ok, halt, null_deref, ◌>>=◌, ◌>>◌, gets, modify, zoom, require, pure, out_of_range,
}
use trading_ecosystem.MemPool.{MemPool, write_object, create}
use trading_ecosystem.Types.{
  Side, me_max_price_levels, me_max_order_ids, me_max_num_clients, order_id_mod,
}
use trading_ecosystem.Order.{MeOrder, MeOrdersAtPrice, default_order, default_orders_at_price}
use trading_ecosystem.Message.{MeClientResponse, MeMarketUpdate, Outbound}

-- `client_response_` and `market_update_` are scratch values, written whole just before they are sent: the
-- messages are passed on directly.
pub record MeOrderBook : Type 0 where
  pub ticker_id : ℕ
  pub cid_oid_to_order : ℕ → ℕ → Ptr
  pub orders_at_price_pool : MemPool MeOrdersAtPrice
  pub bids_at_price : Ptr
  pub asks_at_price : Ptr
  pub price_orders_at_price : ℕ → Ptr
  pub order_pool : MemPool MeOrder
  pub next_market_order_id : ℕ

-- The constructor.
unfoldable pub create_book : ℕ → MeOrderBook
unfolding create
create_book ticker = record {
  ticker_id = ticker;
  cid_oid_to_order = λ _ _. none;
  orders_at_price_pool = create default_orders_at_price me_max_price_levels;
  bids_at_price = none;
  asks_at_price = none;
  price_orders_at_price = λ _. none;
  order_pool = create default_order me_max_order_ids;
  next_market_order_id = 1;
}

-- `price % ME_MAX_PRICE_LEVELS`: the signed price is converted to the unsigned type of the limit.
unfoldable pub price_to_index : ℤ → ℕ
price_to_index (pos n) = n % me_max_price_levels
price_to_index (negsuc n) = (2 ^ 64 - 1 - n) % me_max_price_levels

-- An order book and the engine that it reports to.
pub record Book (E : Type 0) : Type 0 where
  pub book : MeOrderBook
  pub open book use *
  pub engine : E

module _ {E : Type 0} where
  -- `*p`, of an order and of a price level.
  unfoldable pub load_order : Ptr → Cmd (Book E) MeOrder
  load_order none = halt null_deref
  load_order (some i) = gets (λ w. (w.book.order_pool.store i).object)

  unfoldable pub load_level : Ptr → Cmd (Book E) MeOrdersAtPrice
  load_level none = halt null_deref
  load_level (some i) = gets (λ w. (w.book.orders_at_price_pool.store i).object)

  -- A write to fields of `*p`.
  unfoldable pub write_order : Ptr → (MeOrder → MeOrder) → Cmd (Book E) (Unit {0})
  write_order none f = halt null_deref
  write_order (some i) f =
      modify
        λ w. record w { book = record w.book { order_pool = write_object i f w.book.order_pool } }

  unfoldable pub write_level : Ptr → (MeOrdersAtPrice → MeOrdersAtPrice) → Cmd (Book E) (Unit {0})
  write_level none f = halt null_deref
  write_level (some i) f = modify λ w. record w {
    book = record w.book { orders_at_price_pool = write_object i f w.book.orders_at_price_pool };
  }

  abbrev pub set_prev_order : Ptr → Ptr → Cmd (Book E) (Unit {0})
  set_prev_order p q = write_order p (λ o. record o { prev_order = q })

  abbrev pub set_next_order : Ptr → Ptr → Cmd (Book E) (Unit {0})
  set_next_order p q = write_order p (λ o. record o { next_order = q })

  abbrev pub set_prev_entry : Ptr → Ptr → Cmd (Book E) (Unit {0})
  set_prev_entry p q = write_level p (λ l. record l { prev_entry = q })

  abbrev pub set_next_entry : Ptr → Ptr → Cmd (Book E) (Unit {0})
  set_next_entry p q = write_level p (λ l. record l { next_entry = q })

  -- The memory pools, as parts of the state.
  unfoldable pub on_order_pool : {A : Type 0} → Cmd (MemPool MeOrder) A → Cmd (Book E) A
  on_order_pool =
      zoom (λ w. w.book.order_pool) (λ p w. record w { book = record w.book { order_pool = p } })

  unfoldable pub on_level_pool : {A : Type 0} → Cmd (MemPool MeOrdersAtPrice) A → Cmd (Book E) A
  on_level_pool =
      zoom (λ w. w.book.orders_at_price_pool)
        (λ p w. record w { book = record w.book { orders_at_price_pool = p } })

  -- Writes to the arrays, once the index is known to be inside.
  unfoldable pub set_price_entry : ℕ → Ptr → Cmd (Book E) (Unit {0})
  set_price_entry i p = modify λ w. record w {
    book = record w.book { price_orders_at_price = update w.book.price_orders_at_price i p };
  }

  -- `cid_oid_to_order_.at(client_id).at(order_id) = p`
  unfoldable pub set_client_order : (client_id order_id : ℕ) → Ptr → Cmd (Book E) (Unit {0})
  set_client_order c o p = do
    require (ltb c me_max_num_clients) out_of_range
    require (ltb o me_max_order_ids) out_of_range
    modify λ w. record w {
      book = record w.book {
        cid_oid_to_order =
            update w.book.cid_oid_to_order c (update (w.book.cid_oid_to_order c) o p);
      };
    }

  -- `generateNewMarketOrderId`
  unfoldable pub generate_new_market_order_id : Cmd (Book E) ℕ
  generate_new_market_order_id = do
    id ← gets (λ w. w.book.next_market_order_id)
    modify λ w. record w { book = record w.book { next_market_order_id = (id + 1) % order_id_mod } }
    pure id

module _ {E : Type 0} (out : Outbound E) where
  unfoldable pub send_response : MeClientResponse → Cmd (Book E) (Unit {0})
  send_response r = modify (λ w. record w { engine = out.send_client_response r w.engine })

  unfoldable pub send_update : MeMarketUpdate → Cmd (Book E) (Unit {0})
  send_update u = modify (λ w. record w { engine = out.send_market_update u w.engine })
