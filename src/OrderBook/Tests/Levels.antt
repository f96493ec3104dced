-- ===== src/OrderBook/Tests/Levels.antt =====
-- `checkForMatch` against a sell side of two levels.
use trading_ecosystem.Prelude.{zero, suc, ℕ, ◌≡◌, refl, pos, List, [], ◌∷◌, true, member, arith}
use trading_ecosystem.Run.{ok, ◌>>◌}
use trading_ecosystem.MemPool.{create, allocate, deallocate}
use trading_ecosystem.MemPool.Allocation.{IsValid}
use trading_ecosystem.Types.{Side}
use trading_ecosystem.Message.{Event, recorder}
use trading_ecosystem.OrderBook.{
  Book, create_book, load_order, load_level, write_order, write_level, on_order_pool, on_level_pool,
  set_price_entry, set_client_order, send_response, send_update, price_to_index,
  generate_new_market_order_id,
}
use trading_ecosystem.OrderBook.Matching.{
  add, cancel, match_order, find_client_order, check_for_match,
}
use trading_ecosystem.OrderBook.Offers.{IsOffer}
use trading_ecosystem.OrderBook.AskSide.{Rung, Levels, IsAskSide, view}
use trading_ecosystem.OrderBook.Sweeping.{rung_of}
use trading_ecosystem.OrderBook.CancelAsk.{IsWithout, cancel-IsWithout}
use trading_ecosystem.OrderBook.AddAsk.{IsJoined, add-IsJoined}
use trading_ecosystem.OrderBook.Priority.{check_for_match-IsSwept}
use trading_ecosystem.OrderBook.Tests.{empty_book, after}

-- Two sell orders at 100, then one at 90.
abbrev two_levels : Book (List Event)
two_levels = after (
    (add recorder 1 7 0 Side.sell (pos 100) 10
        >> (add recorder 2 8 0 Side.sell (pos 100) 4 >> add recorder 1 9 0 Side.sell (pos 90) 5))
      empty_book)

abbrev at_90 : Rung
at_90 = rung_of 1 (pos 90) (2 ∷ [])

abbrev at_100 : Rung
at_100 = rung_of 0 (pos 100) (0 ∷ 1 ∷ [])

IsOffer-at_90 : (z : ℕ) → member z (2 ∷ []) ≡ true → IsOffer (pos 90) two_levels z
unfolding generate_new_market_order_id create_book create load_order load_level write_order
    write_level on_order_pool on_level_pool set_price_entry set_client_order send_response
    send_update price_to_index add cancel match_order find_client_order allocate deallocate
IsOffer-at_90 zero m = absurd (ground arith)
IsOffer-at_90 (suc zero) m = absurd (ground arith)
IsOffer-at_90 (suc (suc zero)) m = record {
  inside = omega arith;
  in_use = refl;
  by_client = omega arith;
  by_order = omega arith;
  at_price = refl;
}
IsOffer-at_90 (suc (suc (suc z))) m = absurd (ground arith)

sells_at_90 :
    (z : ℕ)
    → member z (2 ∷ []) ≡ true
    → (two_levels.book.order_pool.store z).object.side ≡ Side.sell
unfolding generate_new_market_order_id create_book create load_order load_level write_order
    write_level on_order_pool on_level_pool set_price_entry set_client_order send_response
    send_update price_to_index add cancel match_order find_client_order allocate deallocate
sells_at_90 zero m = absurd (ground arith)
sells_at_90 (suc zero) m = absurd (ground arith)
sells_at_90 (suc (suc zero)) m = refl
sells_at_90 (suc (suc (suc z))) m = absurd (ground arith)

IsOffer-at_100 : (z : ℕ) → member z (0 ∷ 1 ∷ []) ≡ true → IsOffer (pos 100) two_levels z
unfolding generate_new_market_order_id create_book create load_order load_level write_order
    write_level on_order_pool on_level_pool set_price_entry set_client_order send_response
    send_update price_to_index add cancel match_order find_client_order allocate deallocate
IsOffer-at_100 zero m = record {
  inside = omega arith;
  in_use = refl;
  by_client = omega arith;
  by_order = omega arith;
  at_price = refl;
}
IsOffer-at_100 (suc zero) m = record {
  inside = omega arith;
  in_use = refl;
  by_client = omega arith;
  by_order = omega arith;
  at_price = refl;
}
IsOffer-at_100 (suc (suc z)) m = absurd (ground arith)

sells_at_100 :
    (z : ℕ)
    → member z (0 ∷ 1 ∷ []) ≡ true
    → (two_levels.book.order_pool.store z).object.side ≡ Side.sell
unfolding generate_new_market_order_id create_book create load_order load_level write_order
    write_level on_order_pool on_level_pool set_price_entry set_client_order send_response
    send_update price_to_index add cancel match_order find_client_order allocate deallocate
sells_at_100 zero m = refl
sells_at_100 (suc zero) m = refl
sells_at_100 (suc (suc z)) m = absurd (ground arith)

two_levels-IsAskSide : IsAskSide two_levels (at_90 ∷ at_100 ∷ [])
unfolding generate_new_market_order_id create_book create load_order load_level write_order
    write_level on_order_pool on_level_pool set_price_entry set_client_order send_response
    send_update price_to_index add cancel match_order find_client_order allocate deallocate
two_levels-IsAskSide = record {
  rungs = (refl, ((refl, refl), (refl, refl)), (refl, (refl, tt)));
  standing = (
    record {
      inside = omega arith;
      in_use = refl;
      entry = refl;
      queue = (refl, (refl, refl), (refl, tt));
      offers = IsOffer-at_90;
      sells = sells_at_90;
    },
    (
      record {
        inside = omega arith;
        in_use = refl;
        entry = refl;
        queue = (refl, ((refl, refl), (refl, refl)), (refl, (refl, tt)));
        offers = IsOffer-at_100;
        sells = sells_at_100;
      },
      tt,
    ),
  );
  unique = (refl, (refl, (refl, tt)));
}

-- A buy order of 12 with the limit 100 takes the 5 at 90, and then 7 of the 10 of the older order at 100.
check_for_match-IsSwept_example :
    (left : ℕ) × (w : Book (List Event)) × (rest : List Rung) × (check_for_match recorder 5 30 0
        Side.buy
        (pos 100)
        12
        4
        two_levels
      ≡ ok left w)
    × IsAskSide w rest
    × ◌≡◌ {A = ℕ × Levels} (left, view w rest) (0, (pos 100, (0, 3) ∷ (1, 4) ∷ []) ∷ [])
unfolding generate_new_market_order_id create_book create load_order load_level write_order
    write_level on_order_pool on_level_pool set_price_entry set_client_order send_response
    send_update price_to_index add cancel match_order find_client_order allocate deallocate
check_for_match-IsSwept_example =
    check_for_match-IsSwept recorder 5 30 0 (pos 100) 12 4 (at_90 ∷ at_100 ∷ []) two_levels
      two_levels-IsAskSide

-- The order at 100 that came second is cancelled.
cancel-IsWithout_example :
    (w : Book (List Event)) × (cancel recorder 2 8 0 two_levels ≡ ok tt w)
    × IsWithout (at_90 ∷ []) 0 (pos 100) [] (0 ∷ []) 1 [] two_levels w
unfolding generate_new_market_order_id create_book create load_order load_level write_order
    write_level on_order_pool on_level_pool set_price_entry set_client_order send_response
    send_update price_to_index add cancel match_order find_client_order allocate deallocate
cancel-IsWithout_example =
    cancel-IsWithout (at_90 ∷ []) 0 (pos 100) [] recorder 2 8 0 (0 ∷ []) 1 [] two_levels
      two_levels-IsAskSide (ground arith) (omega arith) (omega arith) refl

two_levels-IsValid : IsValid two_levels.book.order_pool
unfolding generate_new_market_order_id create_book create load_order load_level write_order
    write_level on_order_pool on_level_pool set_price_entry set_client_order send_response
    send_update price_to_index add cancel match_order find_client_order allocate deallocate
two_levels-IsValid = record { inside = omega arith; free = refl }

-- A third order comes to the level at 100.
add-IsJoined_example :
    (w : Book (List Event)) × (add recorder 3 10 0 Side.sell (pos 100) 6 two_levels ≡ ok tt w)
    × IsJoined (at_90 ∷ []) 0 (pos 100) [] 0 (1 ∷ []) 3 6 two_levels w
unfolding generate_new_market_order_id create_book create load_order load_level write_order
    write_level on_order_pool on_level_pool set_price_entry set_client_order send_response
    send_update price_to_index add cancel match_order find_client_order allocate deallocate
add-IsJoined_example =
    add-IsJoined (at_90 ∷ []) 0 (pos 100) [] recorder 3 10 0 6 0 4 (1 ∷ []) two_levels
      two_levels-IsAskSide refl (λ e. omega arith) two_levels-IsValid (omega arith)
      (λ e. omega arith) refl (omega arith) (omega arith)
