-- ===== src/OrderBook/Engine.antt =====
-- What `addOrder` and `removeOrder` leave of the engine, to which they send nothing.
use trading_ecosystem.Prelude.{ℕ, Ptr, none, some, ◌≡◌}
use trading_ecosystem.Run.{Cmd}
use trading_ecosystem.Run.Ensures.{
  Keeps, keeps_rules, Keeps-modify, Keeps-zoom_free, Keeps-if, Keeps-pure,
}
use trading_ecosystem.MemPool.{MemPool, allocate, deallocate}
use trading_ecosystem.Types.{Side}
use trading_ecosystem.Order.{MeOrder, MeOrdersAtPrice}
use trading_ecosystem.OrderBook.{
  Book, write_order, write_level, on_order_pool, on_level_pool, set_price_entry, set_client_order,
}
use trading_ecosystem.OrderBook.Level.{assign_best}
use trading_ecosystem.OrderBook.Stable.{Stable}

module _ {E : Type 0} (engine : E) where
  abbrev pub HasEngine : Book E → Type 0
  HasEngine w = w.engine ≡ engine

  pub order-HasEngine : (p : Ptr) (f : MeOrder → MeOrder) → Keeps HasEngine (write_order p f)
  unfolding write_order
  order-HasEngine none f = search keeps_rules
  order-HasEngine (some i) f = Keeps-modify _ (λ w h. h)

  level-HasEngine :
      (p : Ptr) (f : MeOrdersAtPrice → MeOrdersAtPrice) → Keeps HasEngine (write_level p f)
  unfolding write_level
  level-HasEngine none f = search keeps_rules
  level-HasEngine (some i) f = Keeps-modify _ (λ w h. h)

  pub orders-HasEngine :
      {A : Type 0} (m : Cmd (MemPool MeOrder) A) → Keeps HasEngine (on_order_pool m)
  unfolding on_order_pool
  orders-HasEngine m = Keeps-zoom_free _ _ m (λ p w h. h)

  levels-HasEngine :
      {A : Type 0} (m : Cmd (MemPool MeOrdersAtPrice) A) → Keeps HasEngine (on_level_pool m)
  unfolding on_level_pool
  levels-HasEngine m = Keeps-zoom_free _ _ m (λ p w h. h)

  assign-HasEngine : (side : Side) (p : Ptr) → Keeps HasEngine (assign_best side p)
  unfolding assign_best
  assign-HasEngine side p = Keeps-if _ _ _ (Keeps-pure _) (Keeps-modify _ (λ w h. h))

  client-HasEngine : (c o : ℕ) (p : Ptr) → Keeps HasEngine (set_client_order c o p)
  unfolding set_client_order
  client-HasEngine c o p = search (keeps_rules, Keeps-modify)

  pub engine-Stable : Stable HasEngine
  unfolding set_price_entry
  engine-Stable = record {
    at_order = order-HasEngine;
    at_level = level-HasEngine;
    at_asks = assign-HasEngine;
    at_price = λ i p. Keeps-modify _ (λ w h. h);
    at_client = client-HasEngine;
    new_level = λ l. levels-HasEngine (allocate l);
    free_level = λ i. levels-HasEngine (deallocate i);
    free_order = λ i. orders-HasEngine (deallocate i);
  }
