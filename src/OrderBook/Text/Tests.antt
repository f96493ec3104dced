-- ===== src/OrderBook/Text/Tests.antt =====
-- The text of a book of two levels, and the theorem at it.
use trading_ecosystem.Prelude.{true, ◌≡◌, refl, pos, some, none, List, [], ◌∷◌, ◌||◌, not, arith}
use trading_ecosystem.Run.{Run, ok, fault, ◌>>◌}
use trading_ecosystem.MemPool.{create, allocate, deallocate}
use trading_ecosystem.Types.{Side}
use trading_ecosystem.Message.{Event, recorder}
use trading_ecosystem.OrderBook.{
  Book, generate_new_market_order_id, create_book, load_order, load_level, write_order, write_level,
  on_order_pool, on_level_pool, set_price_entry, set_client_order, send_response, send_update,
  price_to_index,
}
use trading_ecosystem.OrderBook.Matching.{add, cancel, match_order, find_client_order}
use trading_ecosystem.OrderBook.Ring.{IsPath}
use trading_ecosystem.OrderBook.Text.{price_min, to_string}
use trading_ecosystem.OrderBook.Text.Reads.{next_entries, prev_entries}
use trading_ecosystem.OrderBook.Text.Sorted.{
  is_sorted, level_prices, HasOrders, Passes, to_string-Passes,
}

abbrev empty_book : Book (List Event)
empty_book = record { book = create_book 0; engine = [] }

abbrev after : Run (Book (List Event)) (Unit {0}) → Book (List Event)
after (ok _ w) = w
after (fault e) = empty_book

-- Two sell orders at 100 and, better, one at 90.
abbrev two_levels : Book (List Event)
two_levels = after (
    (add recorder 1 7 0 Side.sell (pos 100) 10
        >> (add recorder 2 8 0 Side.sell (pos 100) 4 >> add recorder 1 9 0 Side.sell (pos 90) 6))
      empty_book)

levels_are :
    (two_levels.book.bids_at_price ≡ none)
    × (two_levels.book.asks_at_price ≡ some 1)
    × IsPath (next_entries two_levels) (prev_entries two_levels) 1 (0 ∷ []) 1
unfolding generate_new_market_order_id create_book create load_order load_level write_order
    write_level on_order_pool on_level_pool set_price_entry set_client_order send_response
    send_update price_to_index add cancel match_order find_client_order allocate deallocate
levels_are = (refl, refl, ((refl, refl), (refl, refl)))

orders_are : HasOrders two_levels 4 (1 ∷ 0 ∷ [])
unfolding generate_new_market_order_id create_book create load_order load_level write_order
    write_level on_order_pool on_level_pool set_price_entry set_client_order send_response
    send_update price_to_index add cancel match_order find_client_order allocate deallocate
orders_are = (
  (2, [], (refl, (refl, refl), (refl, tt)), omega arith),
  ((0, 1 ∷ [], (refl, ((refl, refl), (refl, refl)), (refl, (refl, tt))), omega arith), tt),
)

to_string-Passes_example :
    Passes
      (not true || is_sorted Side.sell price_min (level_prices two_levels (1 ∷ 0 ∷ [])))
      two_levels
      (to_string 4 true true two_levels)
to_string-Passes_example =
    to_string-Passes 4 true true 1 (0 ∷ []) two_levels levels_are.0 levels_are.1 levels_are.2
      (refl, (refl, tt)) orders_are (omega arith)
