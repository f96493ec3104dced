-- ===== src/OrderBook/Tests/Rings.antt =====
-- The theorems on the orders of one level of me_order_book.h at concrete books.
use trading_ecosystem.Prelude.{
  zero, suc, ◌<◌, true, ℕ, ◌≡◌, ◌≢◌, refl, pos, some, List, [], ◌∷◌, arith, member, false,
}
use trading_ecosystem.Run.{ok, ◌>>◌}
use trading_ecosystem.MemPool.{create, allocate, deallocate}
use trading_ecosystem.Types.{Side}
use trading_ecosystem.Message.{Event, recorder}
use trading_ecosystem.OrderBook.{
  Book, generate_new_market_order_id, create_book, load_order, load_level, write_order, write_level,
  on_order_pool, on_level_pool, set_price_entry, set_client_order, send_response, send_update,
  price_to_index,
}
use trading_ecosystem.OrderBook.Matching.{add, cancel, rest_order, match_order, find_client_order}
use trading_ecosystem.OrderBook.Resting.{remove_order}
use trading_ecosystem.OrderBook.TimePriority.{HasQueue}
use trading_ecosystem.MemPool.Allocation.{IsValid}
use trading_ecosystem.OrderBook.Removing.{IsRemoved, remove_order_returns}
use trading_ecosystem.OrderBook.Rested.{rest_order_returns}
use trading_ecosystem.OrderBook.Joining.{IsBehind}
use trading_ecosystem.OrderBook.Offers.{amounts, IsOffer, IsOffered}
use trading_ecosystem.OrderBook.Consuming.{add-IsConsumed}
use trading_ecosystem.OrderBook.Tests.{empty_book, after}

-- Three sell orders of one price.
abbrev three_asks : Book (List Event)
three_asks = after (
    (add recorder 1 7 0 Side.sell (pos 100) 10
        >> (add recorder 2 8 0 Side.sell (pos 100) 4 >> add recorder 1 9 0 Side.sell (pos 100) 6))
      empty_book)

three_asks-HasQueue : HasQueue three_asks 0 (0 ∷ 1 ∷ 2 ∷ [])
unfolding generate_new_market_order_id create_book create load_order load_level write_order
    write_level on_order_pool on_level_pool set_price_entry set_client_order send_response
    send_update price_to_index add cancel match_order find_client_order allocate deallocate
three_asks-HasQueue =
    (refl, ((refl, refl), ((refl, refl), (refl, refl))), (refl, (refl, (refl, tt))))

three_asks-level :
    (three_asks.book.price_orders_at_price (price_to_index (pos 100)) ≡ some 0)
    × ((j : ℕ)
        → member j (0 ∷ 1 ∷ 2 ∷ []) ≡ true
        → (three_asks.book.order_pool.store j).is_free ≡ false)
unfolding generate_new_market_order_id create_book create load_order load_level write_order
    write_level on_order_pool on_level_pool set_price_entry set_client_order send_response
    send_update price_to_index add cancel match_order find_client_order allocate deallocate
three_asks-level = (refl, λ j m. ground arith)

-- The block after the free index is free too.
three_asks-pool :
    IsValid three_asks.book.order_pool
    × (4 < three_asks.book.order_pool.size)
    × (4 ≢ three_asks.book.order_pool.next_free_index)
    × ((three_asks.book.order_pool.store 4).is_free ≡ true)
unfolding generate_new_market_order_id create_book create load_order load_level write_order
    write_level on_order_pool on_level_pool set_price_entry set_client_order send_response
    send_update price_to_index add cancel match_order find_client_order allocate deallocate
three_asks-pool =
    (record { inside = omega arith; free = refl }, omega arith, (λ e. omega arith), refl)

rest_order_returns_example :
    (w : Book (List Event)) × (rest_order recorder 3 10 0 Side.sell (pos 100) 4 6 three_asks
      ≡ ok tt w)
    × IsBehind 3 10 0 Side.sell (pos 100) 4 6 0 0 (1 ∷ 2 ∷ []) 3 w
unfolding generate_new_market_order_id create_book create load_order load_level write_order
    write_level on_order_pool on_level_pool set_price_entry set_client_order send_response
    send_update price_to_index add cancel match_order find_client_order allocate deallocate
rest_order_returns_example =
    rest_order_returns recorder 3 10 0 Side.sell (pos 100) 4 6 0 0 4 (1 ∷ 2 ∷ []) three_asks
      three_asks-level.0 three_asks-HasQueue three_asks-level.1 three_asks-pool.0 three_asks-pool.1
      three_asks-pool.2 three_asks-pool.3 (omega arith) (omega arith)

-- The first of the three orders goes.
remove_order_returns_example :
    (w : Book (List Event)) × (remove_order (some 0) three_asks ≡ ok tt w)
    × IsRemoved 0 0 [] (1 ∷ 2 ∷ []) three_asks w
unfolding generate_new_market_order_id create_book create load_order load_level write_order
    write_level on_order_pool on_level_pool set_price_entry set_client_order send_response
    send_update price_to_index add cancel match_order find_client_order allocate deallocate
remove_order_returns_example =
    remove_order_returns 0 0 [] (1 ∷ 2 ∷ []) three_asks refl three_asks-HasQueue (ground arith)
      (omega arith) refl (omega arith) (omega arith)

three_asks-IsOffer : (z : ℕ) → member z (0 ∷ 1 ∷ 2 ∷ []) ≡ true → IsOffer (pos 100) three_asks z
unfolding generate_new_market_order_id create_book create load_order load_level write_order
    write_level on_order_pool on_level_pool set_price_entry set_client_order send_response
    send_update price_to_index add cancel match_order find_client_order allocate deallocate
three_asks-IsOffer zero m = record {
  inside = omega arith;
  in_use = refl;
  by_client = omega arith;
  by_order = omega arith;
  at_price = refl;
}
three_asks-IsOffer (suc zero) m = record {
  inside = omega arith;
  in_use = refl;
  by_client = omega arith;
  by_order = omega arith;
  at_price = refl;
}
three_asks-IsOffer (suc (suc zero)) m = record {
  inside = omega arith;
  in_use = refl;
  by_client = omega arith;
  by_order = omega arith;
  at_price = refl;
}
three_asks-IsOffer (suc (suc (suc z))) m = absurd (ground arith)

three_asks-IsOffered : IsOffered Side.buy (pos 100) 0 (0 ∷ 1 ∷ 2 ∷ []) three_asks
unfolding generate_new_market_order_id create_book create load_order load_level write_order
    write_level on_order_pool on_level_pool set_price_entry set_client_order send_response
    send_update price_to_index add cancel match_order find_client_order allocate deallocate
three_asks-IsOffered = record {
  best = refl;
  entry = refl;
  queue = three_asks-HasQueue;
  offers = three_asks-IsOffer;
}

-- A buy order of 12 takes the 10 of the first and 2 of the second.
add-IsConsumed_example :
    (w : Book (List Event)) × (rest : List ℕ) × (add recorder 5 30 0 Side.buy
        (pos 101)
        12
        three_asks
      ≡ ok tt w)
    × IsOffered Side.buy (pos 100) 0 rest w
    × (amounts w rest ≡ (1, 2) ∷ (2, 6) ∷ [])
unfolding generate_new_market_order_id create_book create load_order load_level write_order
    write_level on_order_pool on_level_pool set_price_entry set_client_order send_response
    send_update price_to_index add cancel match_order find_client_order allocate deallocate
add-IsConsumed_example =
    add-IsConsumed recorder 5 30 0 Side.buy (pos 101) (pos 100) 12 0 (0 ∷ 1 ∷ 2 ∷ []) three_asks
      refl three_asks-IsOffered refl (omega arith)
