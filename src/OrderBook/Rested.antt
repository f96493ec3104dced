-- ===== src/OrderBook/Rested.antt =====
-- When `add` of me_order_book.cpp can put a quantity to rest at a price that has a level.
use trading_ecosystem.Prelude.{
  ℕ, ◌+◌, ◌%◌, ◌<◌, ◌≡◌, ◌≢◌, refl, sym, ap, ◌∙◌, true, false, Ptr, some, List, ◌∷◌, member, lt→ltb,
  update_self, ℤ, arith,
}
use mathlib.Core.Path.{subst}
use trading_ecosystem.Run.{ok, put_back, and_then}
use trading_ecosystem.Run.Ensures.{of_ok}
use trading_ecosystem.Run.Sequencing.{then_returns}
use trading_ecosystem.MemPool.{block}
use trading_ecosystem.MemPool.Allocation.{IsValid, allocate_returns, allocate-store}
use trading_ecosystem.Types.{Side, priority_mod, me_max_num_clients, me_max_order_ids}
use trading_ecosystem.Message.{Outbound}
use trading_ecosystem.OrderBook.{
  Book, load_order, price_to_index, send_update, on_order_pool, set_client_order,
}
use trading_ecosystem.OrderBook.Level.{get_orders_at_price}
use trading_ecosystem.OrderBook.Resting.{place, add_order}
use trading_ecosystem.OrderBook.Ring.{last_of}
use trading_ecosystem.OrderBook.TimePriority.{order_at, HasQueue, linked, linked-HasQueue}
use trading_ecosystem.OrderBook.Indexed.{written}
use trading_ecosystem.OrderBook.Joining.{
  get_next_priority-last, allocated-HasQueue, resting, IsBehind, rest_order-IsBehind,
}
use trading_ecosystem.OrderBook.Matching.{rest_order}

module _ {E : Type 0} where
  pub set_client_order_returns :
      (c o : ℕ) (p : Ptr) (w : Book E)
      → c < me_max_num_clients
      → o < me_max_order_ids
      → set_client_order c o p w ≡ ok tt (written c o p w)
  unfolding set_client_order
  set_client_order_returns c o p w hc ho = rw (lt→ltb c _ hc, lt→ltb o _ ho) refl

  pub add_order-linked :
      (i level x : ℕ) (xs : List ℕ) (w : Book E)
      → (order_at w i).client_id < me_max_num_clients
      → (order_at w i).client_order_id < me_max_order_ids
      → w.book.price_orders_at_price (price_to_index (order_at w i).price) ≡ some level
      → HasQueue w level (x ∷ xs)
      → member i (x ∷ xs) ≡ false
      → let o = order_at w i in
        add_order (some i) w
        ≡ ok tt (written o.client_id o.client_order_id (some i) (linked w x (last_of x xs) i))
  unfolding add_order place get_orders_at_price load_order
  add_order-linked i level x xs w by_client by_order at_price queue apart =
      let o = order_at w i in
      let joined = linked w x (last_of x xs) i in
      let joins = (linked-HasQueue i level x xs w queue apart).0 in
      let entered =
        set_client_order_returns o.client_id o.client_order_id (some i) joined by_client by_order in
      ap
        (λ p.
          and_then (place (some i) p w)
            (λ _. set_client_order o.client_id o.client_order_id (some i)))
        at_price
      ∙ then_returns _ joins entered

module _ {E : Type 0} (out : Outbound E) (client client_order ticker : ℕ) (side : Side) (price : ℤ)
    (market_order leaves : ℕ) where
  -- Let the entry of a price have a level whose orders, from `first_me_order_` on, are a ring of
  -- orders each once, in blocks in use, let the order pool be valid with another free block than
  -- the one at the free index, and let the client be one of the 256 and the order id below 1024 *
  -- 1024. Then what `add` does with a quantity that is left returns, and the new order stands
  -- behind the others of the level, with the priority after that of the order that was the last
  -- (modulo 2 ^ 64).
  pub rest_order_returns :
      (level x k : ℕ) (xs : List ℕ) (w : Book E)
      → w.book.price_orders_at_price (price_to_index price) ≡ some level
      → HasQueue w level (x ∷ xs)
      → ((j : ℕ) → member j (x ∷ xs) ≡ true → (w.book.order_pool.store j).is_free ≡ false)
      → IsValid w.book.order_pool
      → k < w.book.order_pool.size
      → k ≢ w.book.order_pool.next_free_index
      → (w.book.order_pool.store k).is_free ≡ true
      → client < me_max_num_clients
      → client_order < me_max_order_ids
      → (w' : Book E) × (rest_order out client client_order ticker side price market_order leaves w
          ≡ ok tt w')
        × IsBehind client client_order ticker side price market_order leaves level x xs
            (order_at w (last_of x xs)).priority
            w'
  unfolding rest_order on_order_pool send_update
  rest_order_returns level x k xs w at_price queue in_use valid inside other free by_client
        by_order =
      let new =
        resting client client_order ticker side price market_order leaves
          (((order_at w (last_of x xs)).priority + 1) % priority_mod) in
      let i = w.book.order_pool.next_free_index in
      let (q, given) = allocate_returns new w.book.order_pool k valid inside other free in
      let (was_free, stored) = of_ok (rw given at (allocate-store new w.book.order_pool)) in
      let w₁ : Book E = record w { book = record w.book { order_pool = q } } in
      let apart : member i (x ∷ xs) ≡ false = ground (arith, in_use i, was_free) in
      let holds : order_at w₁ i ≡ new =
        ap (λ s. (s i).object) stored
        ∙ ap (λ b. b.object) (update_self w.book.order_pool.store i (block new false)) in
      let queue' = allocated-HasQueue level x i xs new w w₁ queue apart refl stored in
      let at_price' : w₁.book.price_orders_at_price (price_to_index (order_at w₁ i).price)
          ≡ some level =
        ap (λ o. w₁.book.price_orders_at_price (price_to_index o.price)) holds ∙ at_price in
      let by_client' : (order_at w₁ i).client_id < me_max_num_clients =
        subst (λ o. o.client_id < me_max_num_clients) (sym holds) by_client in
      let by_order' : (order_at w₁ i).client_order_id < me_max_order_ids =
        subst (λ o. o.client_order_id < me_max_order_ids) (sym holds) by_order in
      let added = add_order-linked i level x xs w₁ by_client' by_order' at_price' queue' apart in
      let returns_it =
        then_returns _ (get_next_priority-last price level x xs w at_price queue)
          (then_returns _ (ap (put_back _) given) (then_returns _ added refl)) in
      let behind = of_ok (
        rw returns_it at (
          rest_order-IsBehind out client client_order ticker side price market_order leaves level x
            xs w at_price queue in_use)) in
      (_, returns_it, behind)
