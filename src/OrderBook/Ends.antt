-- ===== src/OrderBook/Ends.antt =====
-- `removeOrder` and what it calls have no loop: lemmas on how they end.
use trading_ecosystem.Prelude.{ℕ, ℤ, Ptr, none, some}
use trading_ecosystem.Run.Fuel.{Ends, ends_rules}
use trading_ecosystem.MemPool.{deallocate}
use trading_ecosystem.Types.{Side}
use trading_ecosystem.Order.{MeOrder, MeOrdersAtPrice}
use trading_ecosystem.OrderBook.{
  load_order, load_level, write_order, write_level, on_order_pool, on_level_pool, set_price_entry,
  set_client_order,
}
use trading_ecosystem.OrderBook.Level.{
  assign_best, deallocate_level, unlink_level, remove_orders_at_price, get_orders_at_price,
  best_orders_by_price,
}
use trading_ecosystem.OrderBook.Resting.{
  deallocate_order, set_first_order, leave_level, detach, remove_order,
}

Ends-deallocate : {T : Type 0} (i : ℕ) → Ends (deallocate {T = T} i)
unfolding deallocate
Ends-deallocate i = search ends_rules depth 9

module _ {E : Type 0} where
  pub Ends-load_order : (p : Ptr) → Ends (load_order {E = E} p)
  unfolding load_order
  Ends-load_order none = search ends_rules
  Ends-load_order (some i) = search ends_rules

  pub Ends-load_level : (p : Ptr) → Ends (load_level {E = E} p)
  unfolding load_level
  Ends-load_level none = search ends_rules
  Ends-load_level (some i) = search ends_rules

  pub Ends-write_order : (p : Ptr) (f : MeOrder → MeOrder) → Ends (write_order {E = E} p f)
  unfolding write_order
  Ends-write_order none f = search ends_rules
  Ends-write_order (some i) f = search ends_rules

  Ends-write_level :
      (p : Ptr) (f : MeOrdersAtPrice → MeOrdersAtPrice) → Ends (write_level {E = E} p f)
  unfolding write_level
  Ends-write_level none f = search ends_rules
  Ends-write_level (some i) f = search ends_rules

  Ends-assign_best : (side : Side) (p : Ptr) → Ends (assign_best {E = E} side p)
  unfolding assign_best
  Ends-assign_best side p = search ends_rules

  Ends-set_price_entry : (i : ℕ) (p : Ptr) → Ends (set_price_entry {E = E} i p)
  unfolding set_price_entry
  Ends-set_price_entry i p = search ends_rules

  Ends-set_client_order : (c o : ℕ) (p : Ptr) → Ends (set_client_order {E = E} c o p)
  unfolding set_client_order
  Ends-set_client_order c o p = search ends_rules

  Ends-deallocate_level : (p : Ptr) → Ends (deallocate_level {E = E} p)
  unfolding deallocate_level on_level_pool
  Ends-deallocate_level none = search ends_rules
  Ends-deallocate_level (some i) = search (ends_rules, Ends-deallocate)

  Ends-deallocate_order : (p : Ptr) → Ends (deallocate_order {E = E} p)
  unfolding deallocate_order on_order_pool
  Ends-deallocate_order none = search ends_rules
  Ends-deallocate_order (some i) = search (ends_rules, Ends-deallocate)

  ruleset writes = (
    ends_rules, Ends-load_order, Ends-load_level, Ends-write_order, Ends-write_level,
    Ends-assign_best, Ends-set_price_entry, Ends-set_client_order, Ends-deallocate_level,
    Ends-deallocate_order,
  )

  Ends-unlink_level : (side : Side) (level best : Ptr) → Ends (unlink_level {E = E} side level best)
  unfolding unlink_level
  Ends-unlink_level side level best = search writes depth 12

  Ends-remove_orders_at_price :
      (side : Side) (price : ℤ) → Ends (remove_orders_at_price {E = E} side price)
  unfolding remove_orders_at_price best_orders_by_price get_orders_at_price
  Ends-remove_orders_at_price side price = search (writes, Ends-unlink_level) depth 9

  Ends-leave_level : (order level : Ptr) → Ends (leave_level {E = E} order level)
  unfolding leave_level set_first_order
  Ends-leave_level order level = search writes depth 12

  Ends-detach : (o : MeOrder) (order level : Ptr) → Ends (detach {E = E} o order level)
  unfolding detach
  Ends-detach o order level = search (writes, Ends-leave_level, Ends-remove_orders_at_price)

  pub Ends-remove_order : (order : Ptr) → Ends (remove_order {E = E} order)
  unfolding remove_order get_orders_at_price
  Ends-remove_order order = search (writes, Ends-detach) depth 9
