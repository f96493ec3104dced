-- ===== src/OrderBook/Text.antt =====
-- The conversions to text of me_order.cpp, me_order.h and me_order_book.cpp, `toString` of a book with its check that the
-- levels are sorted. `fuel` bounds the rounds of each of the three loops, over the levels and over the orders of one.
pub mod Reads
pub mod Sorted
mod Tests
use trading_ecosystem.Prelude.{
  ℕ, zero, suc, ◌+◌, ◌-◌, ◌%◌, ◌^◌, Bool, true, false, ◌&&◌, ◌||◌, ℤ, negsuc, leb_ℤ, Ptr, none,
  some, ptr_eq, if◌then◌else◌, List, [], ◌∷◌, ◌++◌,
}
use trading_ecosystem.Run.{Cmd, ok, fault, halt, fatal, out_of_fuel, ◌>>=◌, ◌>>◌, pure, gets}
use trading_ecosystem.Text.{Text, codes, decimal, stream, pad_left, pad_right}
use trading_ecosystem.Types.{Side, is_buy, is_sell, order_id_invalid, price_invalid, qty_mod}
use trading_ecosystem.Types.Text.{
  order_id_to_string, ticker_id_to_string, client_id_to_string, price_to_string, qty_to_string,
  priority_to_string, side_to_string,
}
use trading_ecosystem.Order.{MeOrder, MeOrdersAtPrice}
use trading_ecosystem.OrderBook.{Book, load_order, load_level}

abbrev pub endl : Text
endl = 10 ∷ []

abbrev pub price_min : ℤ
price_min = negsuc (2 ^ 63 - 1)

module _ {E : Type 0} where
  -- `p ? p -> market_order_id_ : OrderId_INVALID`
  unfoldable pub neighbour_id : Ptr → Cmd (Book E) Text
  neighbour_id none = pure (order_id_to_string order_id_invalid)
  neighbour_id (some i) = do o ← load_order (some i); pure (order_id_to_string o.market_order_id)

  -- `MEOrder::toString`
  unfoldable pub order_to_string : MeOrder → Cmd (Book E) Text
  unfolding neighbour_id
  order_to_string o = do
    prev ← neighbour_id o.prev_order
    next ← neighbour_id o.next_order
    pure (
        stream (
          codes " MEOrder "
          ∷ codes " [ "
          ∷ codes " Ticker: "
          ∷ ticker_id_to_string o.ticker_id
          ∷ codes " Client_order_id: "
          ∷ client_id_to_string o.client_id
          ∷ codes " Order_Id: "
          ∷ order_id_to_string o.client_order_id
          ∷ codes " Market_order_id: "
          ∷ order_id_to_string o.market_order_id
          ∷ codes " Side: "
          ∷ side_to_string o.side
          ∷ codes " Price: "
          ∷ price_to_string o.price
          ∷ codes " Qty: "
          ∷ qty_to_string o.qty
          ∷ codes " Priority: "
          ∷ priority_to_string o.priority
          ∷ codes " Prev: "
          ∷ prev
          ∷ codes " Next: "
          ∷ next
          ∷ codes " ] "
          ∷ []))

  -- `p ? p -> price_ : Price_INVALID`
  unfoldable pub neighbour_price : Ptr → Cmd (Book E) Text
  neighbour_price none = pure (price_to_string price_invalid)
  neighbour_price (some i) = do l ← load_level (some i); pure (price_to_string l.price)

  unfoldable pub first_order_text : Ptr → Cmd (Book E) Text
  unfolding order_to_string
  first_order_text none = pure (codes "null")
  first_order_text (some i) = do o ← load_order (some i); order_to_string o

  -- `MEOrdersAtPrice::toString`
  unfoldable pub level_to_string : MeOrdersAtPrice → Cmd (Book E) Text
  unfolding first_order_text neighbour_price
  level_to_string l = do
    first ← first_order_text l.first_me_order
    prev ← neighbour_price l.prev_entry
    next ← neighbour_price l.next_entry
    pure (
        stream (
          codes "MEOrdersAtPrice: "
          ∷ codes " [ "
          ∷ codes " Side: "
          ∷ side_to_string l.side
          ∷ codes " Price: "
          ∷ price_to_string l.price
          ∷ codes " First ME Order: "
          ∷ first
          ∷ codes " Prev: "
          ∷ prev
          ∷ codes " Next: "
          ∷ next
          ∷ codes " ] "
          ∷ []))

  -- The first loop of `printer`: the quantity of a level, and the number of its orders.
  unfoldable pub count_orders :
      (fuel : ℕ) (first p : Ptr) (qty num_orders : ℕ) → Cmd (Book E) (ℕ × ℕ)
  count_orders zero first p qty num_orders = halt out_of_fuel
  count_orders (suc fuel) first p qty num_orders = do
    o ← load_order p
    let qty' = (qty + o.qty) % qty_mod
    let rest = count_orders fuel first o.next_order qty' (num_orders + 1)
    if ptr_eq o.next_order first then pure (qty', num_orders + 1) else rest

  unfoldable pub order_line : (detailed : Bool) → MeOrder → Cmd (Book E) Text
  unfolding neighbour_id
  order_line false o = pure []
  order_line true o = do
    prev ← neighbour_id o.prev_order
    next ← neighbour_id o.next_order
    pure (
        stream (
          codes "[oid:"
          ∷ order_id_to_string o.market_order_id
          ∷ codes " q:"
          ∷ qty_to_string o.qty
          ∷ codes " p:"
          ∷ prev
          ∷ codes " n:"
          ∷ next
          ∷ codes "] "
          ∷ []))

  -- The second loop of `printer`.
  unfoldable pub print_orders : (detailed : Bool) (fuel : ℕ) (first p : Ptr) → Cmd (Book E) Text
  unfolding order_line
  print_orders detailed zero first p = halt out_of_fuel
  print_orders detailed (suc fuel) first p = do
    o ← load_order p
    line ← order_line detailed o
    let rest = do more ← print_orders detailed fuel first o.next_order; pure (line ++ more)
    if ptr_eq o.next_order first then pure line else rest

  -- The test of `printer` that the prices go away from the best one; it gives the new `last_price`.
  unfoldable pub check_price :
      (side : Side) (last_price : ℤ) → MeOrdersAtPrice → (sanity_check : Bool) → Cmd (Book E) ℤ
  unfolding level_to_string
  check_price side last_price l false = pure last_price
  check_price side last_price l true =
      if (is_sell side && leb_ℤ l.price last_price) || (is_buy side && leb_ℤ last_price l.price)
      then (level_to_string l >>= λ message. halt fatal)
      else pure l.price

  -- `printer`: the text of a level, and the new `last_price`
  unfoldable pub print_level :
      (detailed : Bool) (fuel : ℕ) (itr : Ptr) (side : Side) (last_price : ℤ) (sanity_check : Bool)
      → Cmd (Book E) (Text × ℤ)
  unfolding count_orders print_orders check_price
  print_level detailed fuel itr side last_price sanity_check = do
    l ← load_level itr
    totals ← count_orders fuel l.first_me_order l.first_me_order 0 0
    prev ← load_level l.prev_entry
    next ← load_level l.next_entry
    let heading = stream (
        codes " <px:"
        ∷ pad_left 3 (price_to_string l.price)
        ∷ codes " p:"
        ∷ pad_left 3 (price_to_string prev.price)
        ∷ codes " n:"
        ∷ pad_left 3 (price_to_string next.price)
        ∷ codes "> "
        ∷ pad_right 3 (price_to_string l.price)
        ∷ codes " @ "
        ∷ pad_right 5 (qty_to_string totals.0)
        ∷ codes "("
        ∷ pad_right 4 (decimal totals.1)
        ∷ codes ")"
        ∷ [])
    orders ← print_orders detailed fuel l.first_me_order l.first_me_order
    last ← check_price side last_price l sanity_check
    pure (stream (heading ∷ orders ∷ endl ∷ []), last)

  -- The loop over the levels of a side, from the best one on.
  unfoldable pub print_levels :
      (label : Text) (side : Side) (detailed validity_check : Bool) (orders_fuel fuel count : ℕ)
      (best itr : Ptr) (last_price : ℤ)
      → Cmd (Book E) Text
  unfolding print_level
  print_levels label side detailed check orders_fuel fuel count best none last_price = pure []
  print_levels label side detailed check orders_fuel zero count best (some i) last_price =
      halt out_of_fuel
  print_levels label side detailed check orders_fuel (suc fuel) count best (some i) last_price = do
    l ← load_level (some i)
    let next = if ptr_eq l.next_entry best then none else l.next_entry
    printed ← print_level detailed orders_fuel (some i) side last_price check
    rest ← print_levels label side detailed check orders_fuel fuel (count + 1) best next printed.1
    pure (stream (label ∷ decimal count ∷ codes " => " ∷ printed.0 ∷ rest ∷ []))

  -- `MEOrderBook::toString`
  unfoldable pub to_string : (fuel : ℕ) (detailed validity_check : Bool) → Cmd (Book E) Text
  unfolding print_levels
  to_string fuel detailed validity_check = do
    w ← gets (λ w. w)
    let b = w.book
    asks ←
        print_levels (codes "ASKS L:") Side.sell detailed validity_check fuel fuel 0 b.asks_at_price
          b.asks_at_price price_min
    bids ←
        print_levels (codes "BIDS L:") Side.buy detailed validity_check fuel fuel 0 b.bids_at_price
          b.bids_at_price price_invalid
    pure (
        stream (
          codes "Ticker:"
          ∷ ticker_id_to_string b.ticker_id
          ∷ endl
          ∷ asks
          ∷ endl
          ∷ codes "                          X"
          ∷ endl
          ∷ endl
          ∷ bids
          ∷ []))
