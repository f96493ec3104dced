-- ===== src/OrderBook/Removing.antt =====
-- `removeOrder` of me_order_book.h, when the level keeps other orders.
use trading_ecosystem.Prelude.{
  ℕ, ◌<◌, ◌≡◌, ◌≢◌, refl, sym, ap, ◌∙◌, true, false, none, some, ptr_eq, List, [], ◌∷◌, ◌++◌,
  member, member-append, IsUnique, IsUnique-swap, update, update_self, update_other, if◌then◌else◌,
  arith,
}
use mathlib.Core.Path.{subst}
use trading_ecosystem.Run.{ok, and_then, put_back, ◌>>◌}
use trading_ecosystem.Run.Ensures.{of_ok}
use trading_ecosystem.Run.Sequencing.{then_returns}
use trading_ecosystem.MemPool.{block, deallocate}
use trading_ecosystem.MemPool.Allocation.{deallocate_lem}
use trading_ecosystem.Types.{me_max_num_clients, me_max_order_ids}
use trading_ecosystem.OrderBook.{Book, load_order, price_to_index, on_order_pool, set_client_order}
use trading_ecosystem.OrderBook.Level.{get_orders_at_price, remove_orders_at_price}
use trading_ecosystem.OrderBook.Resting.{leave_level, detach, deallocate_order, remove_order}
use trading_ecosystem.OrderBook.Ring.{
  last_of, member-last, separate, IsPath, IsPath-last, IsPath-apart, turn,
}
use trading_ecosystem.OrderBook.TimePriority.{order_at, nexts, prevs, HasQueue}
use trading_ecosystem.OrderBook.Leaving.{leave_level-remove}
use trading_ecosystem.OrderBook.Stable.{Keeps-leave_level, Linked-Rings}
use trading_ecosystem.OrderBook.Aside.{IsSteady, IsSteady-trans}
use trading_ecosystem.OrderBook.Untouched.{IsKept, IsKept-refl, IsKept-trans, IsKept-Rings}
use trading_ecosystem.OrderBook.Frame.{Same-refl, Same-Linked}
use trading_ecosystem.OrderBook.Cancelling.{update_twice}
use trading_ecosystem.OrderBook.Indexed.{written}
use trading_ecosystem.OrderBook.Rested.{set_client_order_returns}

pub not_left : (o : ℕ) (xs ys : List ℕ) → IsUnique (xs ++ (o ∷ ys)) → member o (xs ++ ys) ≡ false
not_left o xs ys unique =
    ground
      (arith, member-append o xs ys, member-append o ys xs, (IsUnique-swap xs (o ∷ ys) unique).0)

module _ {E : Type 0} where
  entered-ring :
      (w : Book E) (o n : ℕ) (ns : List ℕ)
      → IsPath (nexts w) (prevs w) o (n ∷ ns) o
      → IsUnique (o ∷ n ∷ ns)
      → ptr_eq (prevs w o) (some o) ≡ false
  entered-ring w o n ns path unique =
      let before = (IsPath-last (nexts w) (prevs w) o (n ∷ ns) o path).1 in
      let other : last_of n ns ≢ o = separate _ o (n ∷ ns) (member-last n ns) unique.0 in
      ap (λ p. ptr_eq p (some o)) before ∙ ground arith

  -- An order that is not alone is not its own neighbour.
  has_other :
      (o level : ℕ) (xs ys : List ℕ) (w : Book E)
      → HasQueue w level (xs ++ (o ∷ ys))
      → xs ++ ys ≢ []
      → ptr_eq (prevs w o) (some o) ≡ false
  has_other o level [] [] w queue some_left = absurd (some_left refl)
  has_other o level [] (n ∷ ns) w (first, path, unique) some_left =
      entered-ring w o n ns path unique
  has_other o level (x ∷ xs) [] w (first, path, unique) some_left =
      entered-ring w o x xs (turn (nexts w) (prevs w) x xs o [] path)
        (IsUnique-swap (x ∷ xs) (o ∷ []) unique)
  has_other o level (x ∷ xs) (n ∷ ns) w (first, path, unique) some_left =
      entered-ring w o n (ns ++ (x ∷ xs)) (turn (nexts w) (prevs w) x xs o (n ∷ ns) path)
        (IsUnique-swap (x ∷ xs) (o ∷ n ∷ ns) unique)

  unfoldable pub freed : (o : ℕ) → Book E → Book E
  freed o w = record w {
    book = record w.book {
      order_pool = record w.book.order_pool {
        store = update w.book.order_pool.store o (block (order_at w o) true);
      };
    };
  }

  pub deallocate_order_returns :
      (o : ℕ) (w : Book E)
      → o < w.book.order_pool.size
      → (w.book.order_pool.store o).is_free ≡ false
      → deallocate_order (some o) w ≡ ok tt (freed o w)
  unfolding deallocate_order on_order_pool freed
  deallocate_order_returns o w inside in_use =
      let given : deallocate o w.book.order_pool ≡ ok tt (freed o w).book.order_pool =
        ground (arith, deallocate_lem o w.book.order_pool) in
      ap (put_back _) given

  -- Other orders keep their links.
  freed-HasQueue :
      (o level : ℕ) (zs : List ℕ) (w : Book E)
      → HasQueue w level zs
      → member o zs ≡ false
      → HasQueue (freed o w) level zs
  unfolding freed
  freed-HasQueue o level [] w queue out = queue
  freed-HasQueue o level (z ∷ zs) w (first, path, unique) out = (
    first,
    IsPath-apart (nexts w) (prevs w) (nexts (freed o w)) (prevs (freed o w)) o z zs z
        (λ j ne. ground arith) (λ j ne. ground arith) out (separate z o (z ∷ zs) (ground arith) out)
        path,
    unique,
  )

  -- The entry of the table and the block of an order concern no other order.
  freed-IsKept :
      (o client client_order : ℕ) (w : Book E)
      → IsKept o w (freed o (written client client_order none w))
  unfolding freed
  freed-IsKept o client client_order w = record {
    prices = refl;
    asks = refl;
    bids = refl;
    size = refl;
    at_others = λ j ne. rw (update_other w.book.order_pool.store o j _ ne) refl;
  }

  freed-IsSteady :
      (o client client_order level : ℕ) (zs : List ℕ) (w : Book E)
      → member o zs ≡ true
      → IsSteady level zs w (freed o (written client client_order none w))
  unfolding freed
  freed-IsSteady o client client_order level zs w inside = record {
    prices = refl;
    asks = refl;
    size = refl;
    level_size = refl;
    rungs = λ m. refl;
    firsts = λ m ne. refl;
    blocks = λ z out.
        update_other w.book.order_pool.store o z _ (λ e. separate o z zs inside out (sym e));
  }

  pub HasQueue-IsUnique : (level : ℕ) (zs : List ℕ) (w : Book E) → HasQueue w level zs → IsUnique zs
  HasQueue-IsUnique level [] w queue = absurd queue
  HasQueue-IsUnique level (z ∷ zs) w (first, path, unique) = unique

  -- The level has the other orders, and the order is neither in use nor in the table.
  abbrev pub IsRemoved : (o level : ℕ) (xs ys : List ℕ) (before after : Book E) → Type 0
  IsRemoved o level xs ys before after =
      HasQueue after level (xs ++ ys)
      × ((after.book.order_pool.store o).is_free ≡ true)
      × (after.book.cid_oid_to_order (order_at before o).client_id
            (order_at before o).client_order_id
          ≡ none)
      × IsKept o before after
      × IsSteady level (xs ++ (o ∷ ys)) before after

  -- Let the orders of a level, from `first_me_order_` on, be a ring of orders each once, one of
  -- them not the only one, in use, with the level at the entry of its price, a client that is one
  -- of the 256 and an order id below 1024 * 1024. Then `removeOrder` of that order returns, the
  -- orders of the level are then a ring of the others in the same order, whether or not the one
  -- removed was the first, its block is free, the table of client orders has nothing under its
  -- client and id, and the table of prices, the best levels and the client, the id, the price and
  -- the quantity of every other block are as before.
  pub remove_order_returns :
      (o level : ℕ) (xs ys : List ℕ) (w : Book E)
      → w.book.price_orders_at_price (price_to_index (order_at w o).price) ≡ some level
      → HasQueue w level (xs ++ (o ∷ ys))
      → xs ++ ys ≢ []
      → o < w.book.order_pool.size
      → (w.book.order_pool.store o).is_free ≡ false
      → (order_at w o).client_id < me_max_num_clients
      → (order_at w o).client_order_id < me_max_order_ids
      → (w' : Book E) × (remove_order (some o) w ≡ ok tt w') × IsRemoved o level xs ys w w'
  unfolding remove_order detach get_orders_at_price load_order freed
  remove_order_returns o level xs ys w at_price queue some_left inside in_use by_client by_order =
      let r = order_at w o in
      let (w₁, left, queue₁, steady) = leave_level-remove o level xs ys w queue some_left in
      let same = of_ok (
        rw left at (
          (Keeps-leave_level (Linked-Rings (Same-Linked w)) (some o) (some level)).at w
            (Same-refl w))) in
      let kept = of_ok (
        rw left at
          ((Keeps-leave_level (IsKept-Rings o w) (some o) (some level)).at w (IsKept-refl o w))) in
      let w₂ = written r.client_id r.client_order_id none w₁ in
      let entered =
        set_client_order_returns r.client_id r.client_order_id none w₁ by_client by_order in
      let given =
        deallocate_order_returns o w₂ (subst (λ n. o < n) (sym same.size) inside)
          (ap (λ t. t.0) (same.tags o) ∙ in_use) in
      let detached : detach r (some o) (some level) w ≡ ok tt w₁ =
        ap
          (λ b.
            (if b then remove_orders_at_price r.side r.price else leave_level (some o) (some level))
              w)
          (has_other o level xs ys w queue some_left)
        ∙ left in
      let out = not_left o xs ys (HasQueue-IsUnique level (xs ++ (o ∷ ys)) w queue) in
      (
        freed o w₂,
        ap
              (λ p. and_then (detach r (some o) p w) (λ _.
                set_client_order r.client_id r.client_order_id none >> deallocate_order (some o)))
              at_price
            ∙ then_returns _ detached (then_returns _ entered given),
        (
          freed-HasQueue o level (xs ++ ys) w₂ queue₁ out,
          ap (λ b. b.is_free) (update_self w₂.book.order_pool.store o (block (order_at w₂ o) true)),
          update_twice w₁.book.cid_oid_to_order r.client_id r.client_order_id,
          IsKept-trans o w w₁ _ kept (freed-IsKept o r.client_id r.client_order_id w₁),
          IsSteady-trans level (xs ++ (o ∷ ys)) w w₁ _ steady (
              freed-IsSteady o r.client_id r.client_order_id level (xs ++ (o ∷ ys)) w₁
                (ground (arith, member-append o xs (o ∷ ys)))),
        ),
      )
