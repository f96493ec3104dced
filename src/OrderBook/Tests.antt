-- ===== src/OrderBook/Tests.antt =====
-- Runs of the book, and the theorems at concrete books.
mod Rings
mod Levels
use trading_ecosystem.Prelude.{
  ◌<◌, true, sym, ℕ, ◌≡◌, ◌≢◌, refl, ℤ, pos, some, none, List, [], ◌∷◌, map, Ptr, update as put,
  arith, member, false,
}
use trading_ecosystem.Run.{Run, ok, fault, null_deref, out_of_fuel, out_of_range, ◌>>=◌, ◌>>◌}
use trading_ecosystem.Run.Ensures.{Ensures}
use trading_ecosystem.MemPool.{create, allocate, deallocate, block}
use trading_ecosystem.Types.{Side, order_id_invalid}
use trading_ecosystem.Order.{MeOrdersAtPrice, default_order, default_orders_at_price}
use trading_ecosystem.Message.{Event, response, update, recorder}
use trading_ecosystem.OrderBook.{
  Book, generate_new_market_order_id, create_book, load_order, load_level, write_order, write_level,
  on_order_pool, on_level_pool, set_price_entry, set_client_order, send_response, send_update,
  price_to_index,
}
use trading_ecosystem.OrderBook.Messages.{accepted_response}
use trading_ecosystem.OrderBook.Matching.{
  add, cancel, rest_order, match_order, find_client_order, check_for_match, Reach, added, here,
}
use trading_ecosystem.OrderBook.Trades.{Fair, check_for_match-Fair}
use trading_ecosystem.OrderBook.Termination.{check_for_match_ends}
use trading_ecosystem.OrderBook.Bids.{Reach-no_bids, add-sell}
use trading_ecosystem.OrderBook.Cancelling.{IsRejected, cancel-forgets}
use trading_ecosystem.OrderBook.AddAfter.{
  level_at, add_to_ring-unlinked, add_to_ring-null_deref, remove_orders_at_price-null_deref,
}
use trading_ecosystem.OrderBook.Resting.{remove_order}
use trading_ecosystem.OrderBook.TimePriority.{HasQueue}
use trading_ecosystem.OrderBook.Indexed.{IsIndexed, Reach-IsIndexed}
use trading_ecosystem.MemPool.Allocation.{IsValid}
use trading_ecosystem.OrderBook.Removing.{IsRemoved, remove_order_returns}
use trading_ecosystem.OrderBook.Rested.{rest_order_returns}
use trading_ecosystem.OrderBook.Joining.{IsBehind, rest_order-IsBehind}
use trading_ecosystem.OrderBook.Level.{add_to_ring, remove_orders_at_price}

abbrev pub empty_book : Book (List Event)
empty_book = record { book = create_book 0; engine = [] }

-- What each message says of quantities: those of a response; the order id and the quantity of an update.
abbrev summary : Event → ℕ × ℕ
summary (response r) = (r.exec_qty, r.leaves_qty)
summary (update u) = (u.order_id, u.qty)

abbrev seen : Run (Book (List Event)) (Unit {0}) → List (ℕ × ℕ)
seen (ok _ w) = map summary w.engine
seen (fault e) = []

-- The state in which a run returns.
abbrev pub after : Run (Book (List Event)) (Unit {0}) → Book (List Event)
after (ok _ w) = w
after (fault e) = empty_book

-- A buy order takes 4 of the 10 that a sell order offers.
partial_fill_test :
    seen (
      (add recorder 1 7 0 Side.sell (pos 100) 10 >> add recorder 2 8 0 Side.buy (pos 100) 4)
        empty_book)
    ≡ (1, 6) ∷ (order_id_invalid, 4) ∷ (4, 6) ∷ (4, 0) ∷ (0, 4) ∷ (1, 10) ∷ (0, 10) ∷ []
unfolding generate_new_market_order_id create_book create load_order load_level write_order
    write_level on_order_pool on_level_pool set_price_entry set_client_order send_response
    send_update price_to_index add cancel match_order find_client_order allocate deallocate
partial_fill_test = refl

-- The same two orders the other way round: nothing is traded.
no_fill_test :
    seen (
      (add recorder 2 8 0 Side.buy (pos 100) 4 >> add recorder 1 7 0 Side.sell (pos 90) 10)
        empty_book)
    ≡ (2, 10) ∷ (0, 10) ∷ (1, 4) ∷ (0, 4) ∷ []
unfolding generate_new_market_order_id create_book create load_order load_level write_order
    write_level on_order_pool on_level_pool set_price_entry set_client_order send_response
    send_update price_to_index add cancel match_order find_client_order allocate deallocate
no_fill_test = refl

-- A book with one ask.
abbrev one_ask : Book (List Event)
one_ask = after (add recorder 1 7 0 Side.sell (pos 100) 10 empty_book)

-- A book with one bid.
abbrev one_bid : Book (List Event)
one_bid = after (add recorder 1 7 0 Side.buy (pos 100) 10 empty_book)

one_bid-Reach : Reach recorder 0 [] one_bid
unfolding generate_new_market_order_id create_book create load_order load_level write_order
    write_level on_order_pool on_level_pool set_price_entry set_client_order send_response
    send_update price_to_index add cancel match_order find_client_order allocate deallocate
one_bid-Reach = added 1 7 0 Side.buy (pos 100) 10 here refl

check_for_match-Fair_example :
    Ensures
      (λ left w. Fair Side.buy (pos 100) one_ask.engine 4 left w.engine)
      (check_for_match recorder 2 8 0 Side.buy (pos 100) 4 2 one_ask)
check_for_match-Fair_example = check_for_match-Fair Side.buy (pos 100) 2 8 0 4 2 one_ask

check_for_match_ends_example :
    check_for_match recorder 2 8 0 Side.buy (pos 100) 4 2 one_ask ≢ fault out_of_fuel
check_for_match_ends_example = check_for_match_ends recorder 2 8 0 Side.buy (pos 100) 4 2 one_ask

Reach-no_bids_example : one_bid.book.bids_at_price ≡ none
Reach-no_bids_example = Reach-no_bids recorder one_bid-Reach

add-sell_example :
    add recorder 2 8 0 Side.sell (pos 90) 4 one_bid
    ≡ (do
      id ← generate_new_market_order_id
      send_response recorder (accepted_response 2 8 0 Side.sell (pos 90) 4 id)
      rest_order recorder 2 8 0 Side.sell (pos 90) id 4)
        one_bid
add-sell_example = add-sell recorder 2 8 0 (pos 90) 4 one_bid-Reach (omega arith)

ask_at : one_ask.book.cid_oid_to_order 1 7 ≡ some 0
unfolding generate_new_market_order_id create_book create load_order load_level write_order
    write_level on_order_pool on_level_pool set_price_entry set_client_order send_response
    send_update price_to_index add cancel match_order find_client_order allocate deallocate
ask_at = refl

ask_carries :
    ((one_ask.book.order_pool.store 0).object.client_id ≡ 1)
    × ((one_ask.book.order_pool.store 0).object.client_order_id ≡ 7)
unfolding generate_new_market_order_id create_book create load_order load_level write_order
    write_level on_order_pool on_level_pool set_price_entry set_client_order send_response
    send_update price_to_index add cancel match_order find_client_order allocate deallocate
ask_carries = (refl, refl)

cancel-forgets_example : Ensures (λ _. IsRejected recorder 1 7) (cancel recorder 1 7 0 one_ask)
cancel-forgets_example =
    cancel-forgets recorder 1 7 0 one_ask
      λ i e. let first : 0 ≡ i = cc (e, ask_at) in rw (sym first) ask_carries

abbrev ask_level : (price : ℤ) (prev next : Ptr) → MeOrdersAtPrice
ask_level price prev next = record {
  side = Side.sell;
  price = price;
  first_me_order = none;
  prev_entry = prev;
  next_entry = next;
}

-- A book in which the levels at 0 and 1 are taken.
abbrev with_levels : (first second : MeOrdersAtPrice) → Book (List Event)
with_levels first second = record {
  book = record {
    ticker_id = 0;
    cid_oid_to_order = λ _ _. none;
    orders_at_price_pool = record {
      store =
          put (put (λ _. block default_orders_at_price true) 1 (block second false)) 0
            (block first false);
      size = 256;
      next_free_index = 2;
    };
    bids_at_price = none;
    asks_at_price = some 0;
    price_orders_at_price = put (λ _. none) 101 (some 1);
    order_pool = record { store = λ _. block default_order true; size = 4; next_free_index = 0 };
    next_market_order_id = 3;
  };
  engine = [];
}

-- One ask level, at 100, and a new one that is not yet linked in.
abbrev one_level : Book (List Event)
one_level = with_levels (ask_level (pos 100) (some 0) (some 0)) (ask_level (pos 101) none none)

-- The same after the new one is linked in.
abbrev two_levels : Book (List Event)
two_levels = with_levels (ask_level (pos 100) (some 1) (some 1)) (ask_level (pos 101) (some 0) none)

add_to_ring-unlinked_example :
    (w : Book (List Event)) × (add_to_ring Side.sell (pos 101) (some 1) (some 0) one_level
      ≡ ok tt w)
    × ((level_at w 0).next_entry ≡ some 1)
    × ((level_at w 1).next_entry ≡ none)
add_to_ring-unlinked_example =
    add_to_ring-unlinked 0 1 (pos 101) one_level (omega arith) refl refl refl (omega arith)

add_to_ring-null_deref_example :
    add_to_ring Side.sell (pos 102) (some 2) (some 0) two_levels ≡ fault null_deref
add_to_ring-null_deref_example =
    add_to_ring-null_deref 0 1 (some 2) (pos 102) two_levels (omega arith) refl refl (omega arith)
      (omega arith)

at_101 : two_levels.book.price_orders_at_price (price_to_index (pos 101)) ≡ some 1
unfolding price_to_index
at_101 = refl

remove_orders_at_price-null_deref_example :
    remove_orders_at_price Side.sell (pos 101) two_levels ≡ fault null_deref
remove_orders_at_price-null_deref_example =
    remove_orders_at_price-null_deref 1 0 Side.sell (pos 101) two_levels at_101 refl refl

Reach-IsIndexed_example : IsIndexed one_bid
Reach-IsIndexed_example = Reach-IsIndexed recorder one_bid-Reach
