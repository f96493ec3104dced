-- ===== src/OrderBook/Matching.antt =====
-- me_order_book.cpp: `match`, `checkForMatch`, `add` and `cancel`.
use trading_ecosystem.Prelude.{
  ℕ, zero, suc, ◌+◌, ◌-◌, ◌%◌, min, ℤ, ltb_ℤ, Ptr, none, some, ltb, ◌==◌, ◌≡◌, ◌||◌, Bool,
  if◌then◌else◌,
}
use trading_ecosystem.Run.{
  ok, Cmd, out_of_fuel, out_of_range, ◌>>=◌, ◌>>◌, gets, pure, halt, require,
}
use trading_ecosystem.MemPool.{allocate}
use trading_ecosystem.Types.{Side, is_buy, is_sell, qty_mod, me_max_num_clients, me_max_order_ids}
use trading_ecosystem.Order.{MeOrder}
use trading_ecosystem.Message.{Outbound}
use trading_ecosystem.OrderBook.Messages.{
  fill_response, rest_response, trade_update, gone_update, reduced_update, accepted_response,
  add_update, cancel_rejected_response, canceled_response, cancel_update,
}
use trading_ecosystem.OrderBook.{
  Book, create_book, load_order, load_level, write_order, on_order_pool,
  generate_new_market_order_id, send_response, send_update,
}
use trading_ecosystem.OrderBook.Level.{get_next_priority}
use trading_ecosystem.OrderBook.Resting.{add_order, remove_order}

-- The best level against which a side matches, and the test that ends its loop.
abbrev pub other_best : {E : Type 0} → Side → Book E → Ptr
other_best side w = if is_buy side then w.book.asks_at_price else w.book.bids_at_price

abbrev pub breaks_off : Side → (price level : ℤ) → Bool
breaks_off side price level = if is_buy side then ltb_ℤ price level else ltb_ℤ level price

-- The lookup of `cancel`: an unknown client has no order, and `at` refuses an order id out of range.
unfoldable pub find_client_order : {E : Type 0} → (client_id order_id : ℕ) → Cmd (Book E) Ptr
find_client_order client order =
    if ltb client me_max_num_clients
    then (require (ltb order me_max_order_ids) out_of_range
        >> gets (λ w. w.book.cid_oid_to_order client order))
    else pure none

module _ {E : Type 0} (out : Outbound E) where
  -- The end of `match`: the resting order is used up, or it keeps the rest.
  unfoldable pub settle :
      (ticker_id : ℕ) (o : MeOrder) (itr : Ptr) (fill : ℕ) → Cmd (Book E) (Unit {0})
  settle ticker o itr fill =
      if o.qty - fill == 0
      then send_update out (gone_update ticker o) >> remove_order itr
      else send_update out (reduced_update ticker o fill)

  -- `match`; the new value of `*leaves_qty` is the result.
  unfoldable pub match_order :
      (ticker_id client_id : ℕ) (side : Side) (client_order_id new_market_order_id : ℕ) (itr : Ptr)
      (leaves_qty : ℕ)
      → Cmd (Book E) ℕ
  unfolding settle
  match_order ticker client side client_order market_order itr leaves = do
    o ← load_order itr
    let fill = min leaves o.qty
    write_order itr (λ r. record r { qty = o.qty - fill })
    send_response out
        (fill_response ticker client side client_order market_order o fill (leaves - fill))
    send_response out (rest_response ticker o fill)
    send_update out (trade_update ticker side o fill)
    settle ticker o itr fill
    pure (leaves - fill)

  -- One round of a loop of `checkForMatch`, once there is something to match and a best level; `rest`
  -- is what follows.
  unfoldable pub match_round :
      (client_id client_order_id ticker_id : ℕ)
      → Side
      → ℤ
      → (market_order_id leaves_qty : ℕ) → (rest : ℕ → Cmd (Book E) ℕ) → (best : Ptr)
      → Cmd (Book E) ℕ
  match_round client client_order ticker side price market_order leaves rest none = pure leaves
  match_round client client_order ticker side price market_order leaves rest (some b) = do
    l ← load_level (some b)
    let itr = l.first_me_order
    o ← load_order itr
    let deal = match_order ticker client side client_order market_order itr leaves >>= rest
    if breaks_off side price o.price then pure leaves else deal

  -- The two loops of `checkForMatch`, which differ in the best level that they read and in the test
  -- that ends them; the rounds are bounded by `fuel`.
  unfoldable pub match_loop :
      (client_id client_order_id ticker_id : ℕ)
      → Side
      → ℤ
      → (market_order_id fuel leaves_qty : ℕ) → Cmd (Book E) ℕ
  unfolding match_round
  match_loop client client_order ticker side price market_order zero leaves = halt out_of_fuel
  match_loop client client_order ticker side price market_order (suc fuel) leaves =
      let rest =
        λ (left : ℕ). match_loop client client_order ticker side price market_order fuel left in
      let round =
        gets (other_best side)
        >>= match_round client client_order ticker side price market_order leaves rest in
      if leaves == 0 then pure leaves else round

  -- `checkForMatch`. Its last parameter is a `Qty`, so the market order id loses its upper half.
  unfoldable pub check_for_match :
      (client_id client_order_id ticker_id : ℕ)
      → Side
      → ℤ
      → (qty new_market_order_id : ℕ) → Cmd (Book E) ℕ
  unfolding match_loop
  check_for_match client client_order ticker side price qty market_order = do
    size ← gets (λ w. w.book.order_pool.size)
    let id = market_order % qty_mod
    let loop = match_loop client client_order ticker side price id (size + 2) qty
    if is_buy side || is_sell side then loop else pure qty

  -- What `add` does with a quantity that is left after matching.
  unfoldable pub rest_order :
      (client_id client_order_id ticker_id : ℕ)
      → Side
      → ℤ
      → (new_market_order_id leaves_qty : ℕ) → Cmd (Book E) (Unit {0})
  unfolding get_next_priority add_order
  rest_order client client_order ticker side price market_order leaves = do
    priority ← get_next_priority price
    order ← on_order_pool (
        allocate (record {
          ticker_id = ticker;
          client_id = client;
          client_order_id = client_order;
          market_order_id = market_order;
          side = side;
          price = price;
          qty = leaves;
          priority = priority;
          prev_order = none;
          next_order = none;
        }))
    add_order (some order)
    send_update out (add_update ticker side price leaves market_order priority)

  unfoldable pub add :
      (client_id client_order_id ticker_id : ℕ) → Side → ℤ → (qty : ℕ) → Cmd (Book E) (Unit {0})
  unfolding check_for_match rest_order
  add client client_order ticker side price qty = do
    id ← generate_new_market_order_id
    send_response out (accepted_response client client_order ticker side price qty id)
    leaves ← check_for_match client client_order ticker side price qty id
    if leaves == 0 then pure tt else rest_order client client_order ticker side price id leaves

  -- The two branches of `cancel` after the lookup.
  unfoldable pub cancel_found : (client_id order_id ticker_id : ℕ) → Ptr → Cmd (Book E) (Unit {0})
  unfolding remove_order
  cancel_found client order ticker none =
      send_response out (cancel_rejected_response client order ticker)
  cancel_found client order ticker (some i) = do
    o ← load_order (some i)
    remove_order (some i)
    send_update out (cancel_update ticker o)
    send_response out (canceled_response client order ticker o)

  unfoldable pub cancel : (client_id order_id ticker_id : ℕ) → Cmd (Book E) (Unit {0})
  unfolding find_client_order cancel_found
  cancel client order ticker = do
    found ← find_client_order client order
    cancel_found client order ticker found

  -- The books that come about from a new one by calls of `add` and `cancel` that return.
  pub data Reach (ticker : ℕ) (engine : E) : Book E → Type 0 where
    here : Reach ticker engine (record { book = create_book ticker; engine = engine })
    added :
        {w w' : Book E} (client client_order ticker_id : ℕ) (side : Side) (price : ℤ) (qty : ℕ)
        → Reach ticker engine w
        → add client client_order ticker_id side price qty w ≡ ok tt w'
        → Reach ticker engine w'
    cancelled :
        {w w' : Book E} (client order ticker_id : ℕ)
        → Reach ticker engine w
        → cancel client order ticker_id w ≡ ok tt w'
        → Reach ticker engine w'
