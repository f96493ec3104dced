-- ===== src/OrderBook/Joining.antt =====
-- What `add` of me_order_book.cpp does with a quantity that is left, when the price has a level.
use trading_ecosystem.Prelude.{
  ℕ, ◌+◌, ◌%◌, ◌≡◌, ◌≢◌, refl, sym, ap, ◌∙◌, true, false, Bool-cases, inl, inr, none, some, List,
  [], ◌∷◌, ◌++◌, member, update, update_self, ◌==◌, ℤ, arith,
}
use mathlib.Core.Path.{subst}
use trading_ecosystem.Run.{ok, put_back}
use trading_ecosystem.Run.Ensures
use trading_ecosystem.Run.Ensures.{Ensures, returns, ends, mono, put_back_both}
use trading_ecosystem.MemPool.{block, allocate}
use trading_ecosystem.MemPool.Allocation.{allocate-store}
use trading_ecosystem.Types.{Side, priority_mod}
use trading_ecosystem.Order.{MeOrder}
use trading_ecosystem.Message.{Outbound}
use trading_ecosystem.OrderBook.{
  Book, load_order, load_level, price_to_index, send_update, on_order_pool,
}
use trading_ecosystem.OrderBook.Level.{get_orders_at_price, get_next_priority, priority_behind}
use trading_ecosystem.OrderBook.Resting.{place, add_order}
use trading_ecosystem.OrderBook.Ring.{last_of, IsPath-last, IsPath-apart, separate}
use trading_ecosystem.OrderBook.TimePriority.{
  order_at, nexts, prevs, first_at, HasQueue, with_link, linked, linked-HasQueue,
}
use trading_ecosystem.OrderBook.Indexed.{set_client_order-written}
use trading_ecosystem.OrderBook.Matching.{rest_order}

-- An order without its neighbours.
abbrev pub unlinked_order : MeOrder → MeOrder
unlinked_order o = record o { prev_order = none; next_order = none }

module _ {E : Type 0} where
  -- The priority after that of the last order of the level.
  pub get_next_priority-last :
      (price : ℤ) (level x : ℕ) (xs : List ℕ) (w : Book E)
      → w.book.price_orders_at_price (price_to_index price) ≡ some level
      → HasQueue w level (x ∷ xs)
      → get_next_priority price w ≡ ok (((order_at w (last_of x xs)).priority + 1) % priority_mod) w
  unfolding get_next_priority priority_behind get_orders_at_price load_level load_order
  get_next_priority-last price level x xs w at_price (first, path, unique) =
      let last = (IsPath-last (nexts w) (prevs w) x xs x path).1 in rw (at_price, first, last) refl

  with_link-order :
      (w : Book E) (j : ℕ) (f : MeOrder → MeOrder) (i : ℕ)
      → ((o : MeOrder) → unlinked_order (f o) ≡ unlinked_order o)
      → unlinked_order (order_at (with_link w j f) i) ≡ unlinked_order (order_at w i)
  with_link-order w j f i h = elim (Bool-cases (j == i)) [
    | inl here ↦
        let it_is : j ≡ i = ground arith in
        let e : (with_link w j f).book.order_pool.store i
            ≡ block (f (order_at w j)) (w.book.order_pool.store j).is_free =
          ground arith in
        ap (λ b. unlinked_order b.object) e
        ∙ h (order_at w j)
        ∙ ap (λ k. unlinked_order (order_at w k)) it_is
    | inr elsewhere ↦
        let e : (with_link w j f).book.order_pool.store i ≡ w.book.order_pool.store i =
          ground arith in
        ap (λ b. unlinked_order b.object) e
  ]

  linked-order :
      (w : Book E) (x l o i : ℕ)
      → unlinked_order (order_at (linked w x l o) i) ≡ unlinked_order (order_at w i)
  linked-order w x l o i =
      let w₁ = with_link w l (λ r. record r { next_order = some o }) in
      let w₂ = with_link w₁ o (λ r. record r { prev_order = some l }) in
      let w₃ = with_link w₂ o (λ r. record r { next_order = some x }) in
      with_link-order w₃ x (λ r. record r { prev_order = some o }) i (λ r. refl)
      ∙ with_link-order w₂ o (λ r. record r { next_order = some x }) i (λ r. refl)
      ∙ with_link-order w₁ o (λ r. record r { prev_order = some l }) i (λ r. refl)
      ∙ with_link-order w l (λ r. record r { next_order = some o }) i (λ r. refl)

  -- `addOrder` at a price that has a level.
  add_order-joins :
      (i level x : ℕ) (xs : List ℕ) (w : Book E)
      → w.book.price_orders_at_price (price_to_index (order_at w i).price) ≡ some level
      → HasQueue w level (x ∷ xs)
      → member i (x ∷ xs) ≡ false
      → Ensures
          (λ _ w'.
            HasQueue w' level (x ∷ (xs ++ (i ∷ [])))
            × (unlinked_order (order_at w' i) ≡ unlinked_order (order_at w i)))
          (add_order (some i) w)
  unfolding add_order place get_orders_at_price load_order
  add_order-joins i level x xs w at_price queue apart =
      let o = order_at w i in
      let (joins, queue') = linked-HasQueue i level x xs w queue apart in
      let after = linked w x (last_of x xs) i in
      rw (at_price, joins)
        (mono (set_client_order-written o.client_id o.client_order_id (some i) after)
          λ _ w' is_written.
            subst
              (λ v.
                HasQueue v level (x ∷ (xs ++ (i ∷ [])))
                × (unlinked_order (order_at v i) ≡ unlinked_order (order_at w i)))
              (sym is_written) (queue', linked-order w x (last_of x xs) i i))

  allocated :
      (level : ℕ) (o : MeOrder) (w : Book E)
      → Ensures
          (λ i w'.
            ((w.book.order_pool.store i).is_free ≡ true)
            × (first_at w' level ≡ first_at w level)
            × (w'.book.price_orders_at_price ≡ w.book.price_orders_at_price)
            × (w'.book.order_pool.store ≡ update w.book.order_pool.store i (block o false)))
          (put_back
            (λ p. record w { book = record w.book { order_pool = p } })
            (allocate o w.book.order_pool))
  allocated level o w = put_back_both _ (
      mono (allocate-store o w.book.order_pool)
        λ i q (was_free, stored). (was_free, refl, refl, stored))

  -- The queue survives the allocation of a block that is none of its orders.
  pub allocated-HasQueue :
      (level x i : ℕ) (xs : List ℕ) (o : MeOrder) (w w' : Book E)
      → HasQueue w level (x ∷ xs)
      → member i (x ∷ xs) ≡ false
      → first_at w' level ≡ first_at w level
      → w'.book.order_pool.store ≡ update w.book.order_pool.store i (block o false)
      → HasQueue w' level (x ∷ xs)
  allocated-HasQueue level x i xs o w w' (first, path, unique) apart same_first stored =
      let others : (j : ℕ) → j ≢ i → w'.book.order_pool.store j ≡ w.book.order_pool.store j =
        λ j ne. ap (λ s. s j) stored ∙ ground arith in
      (
        same_first ∙ first,
        IsPath-apart (nexts w) (prevs w) (nexts w') (prevs w') i x xs x
            (λ j ne. ap (λ b. b.object.next_order) (others j ne))
            (λ j ne. ap (λ b. b.object.prev_order) (others j ne)) apart
            (separate x i (x ∷ xs) (ground arith) apart) path,
        unique,
      )

module _ (client client_order ticker : ℕ) (side : Side) (price : ℤ) (market_order leaves : ℕ) where
  -- The order that `add` puts to rest, without its neighbours.
  abbrev pub resting : (priority : ℕ) → MeOrder
  resting priority = record {
    ticker_id = ticker;
    client_id = client;
    client_order_id = client_order;
    market_order_id = market_order;
    side = side;
    price = price;
    qty = leaves;
    priority = priority;
    prev_order = none;
    next_order = none;
  }

module _ {E : Type 0} (client client_order ticker : ℕ) (side : Side) (price : ℤ)
    (market_order leaves : ℕ) where
  -- The orders of the level are as before with a new one behind them, of the next priority.
  abbrev pub IsBehind : (level x : ℕ) → List ℕ → (priority : ℕ) → Book E → Type 0
  IsBehind level x xs last w =
      (o : ℕ) × HasQueue w level (x ∷ (xs ++ (o ∷ [])))
      × (unlinked_order (order_at w o)
          ≡ resting client client_order ticker side price market_order leaves
              ((last + 1) % priority_mod))

module _ {E : Type 0} (out : Outbound E) (client client_order ticker : ℕ) (side : Side) (price : ℤ)
    (market_order leaves : ℕ) where
  -- Let the entry of a price have a level whose orders, from `first_me_order_` on, are a ring of
  -- orders each once, in blocks in use. If what `add` does with a quantity that is left returns,
  -- the orders of the level are the same ones in the same order and behind them a new one, which
  -- has the client, the ids, the side, the price and the quantity that were given, and the priority
  -- after that of the order that was the last (modulo 2 ^ 64).
  pub rest_order-IsBehind :
      (level x : ℕ) (xs : List ℕ) (w : Book E)
      → w.book.price_orders_at_price (price_to_index price) ≡ some level
      → HasQueue w level (x ∷ xs)
      → ((j : ℕ) → member j (x ∷ xs) ≡ true → (w.book.order_pool.store j).is_free ≡ false)
      → Ensures
          (λ _.
            IsBehind client client_order ticker side price market_order leaves level x xs
              (order_at w (last_of x xs)).priority)
          (rest_order out client client_order ticker side price market_order leaves w)
  unfolding rest_order on_order_pool send_update
  rest_order-IsBehind level x xs w at_price queue in_use =
      let new =
        resting client client_order ticker side price market_order leaves
          (((order_at w (last_of x xs)).priority + 1) % priority_mod) in
      rw (get_next_priority-last price level x xs w at_price queue) (
        Ensures.bind (allocated level new w) λ i w₁ (was_free, same_first, same_table, stored).
          let apart : member i (x ∷ xs) ≡ false = ground (arith, in_use i, was_free) in
          let holds : order_at w₁ i ≡ new =
            ap (λ s. (s i).object) stored
            ∙ ap (λ b. b.object) (update_self w.book.order_pool.store i (block new false)) in
          let at_price' : w₁.book.price_orders_at_price (price_to_index (order_at w₁ i).price)
              ≡ some level =
            ap (λ o. w₁.book.price_orders_at_price (price_to_index o.price)) holds
            ∙ ap (λ t. t (price_to_index price)) same_table
            ∙ at_price in
          Ensures.bind
            (add_order-joins i level x xs w₁ at_price'
              (allocated-HasQueue level x i xs new w w₁ queue apart same_first stored) apart)
            λ _ w₂ (queue', same). returns (i, queue', same ∙ ap unlinked_order holds))
