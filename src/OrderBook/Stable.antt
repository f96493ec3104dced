-- ===== src/OrderBook/Stable.antt =====
-- What the methods of the book keep: a predicate that survives each single write survives every
-- method that is made of such writes.
use trading_ecosystem.Prelude.{ℕ, zero, suc, ℤ, Ptr, none, some, Bool, true, false}
use trading_ecosystem.Run.Ensures.{
  Keeps, keeps_rules, Keeps-bind, Keeps-pure, Keeps-halt, Keeps-gets, Keeps-if,
}
use trading_ecosystem.MemPool.{allocate, deallocate}
use trading_ecosystem.Types.{Side}
use trading_ecosystem.Order.{MeOrder, MeOrdersAtPrice}
use trading_ecosystem.OrderBook.{
  Book, load_order, load_level, write_order, write_level, set_prev_order, set_next_order,
  on_order_pool, on_level_pool, set_price_entry, set_client_order,
}
use trading_ecosystem.OrderBook.Resting.{
  open_level, join_level, place, add_order, deallocate_order, set_first_order, leave_level, detach,
  remove_order,
}
use trading_ecosystem.OrderBook.Level.{
  find_target, link_after, make_best, replace_best, link_before, add_to_ring, second_test,
  first_of_side, add_behind, add_orders_at_price, deallocate_level, unlink_level,
  remove_orders_at_price, priority_behind, get_next_priority, get_orders_at_price,
  best_orders_by_price, assign_best,
}

module _ {E : Type 0} where
  -- The writes of `addOrder`, `removeOrder` and what they call, but for the allocation of orders.
  pub record Stable (P : Book E → Type 0) : Type 1 where
    pub at_order : (p : Ptr) (f : MeOrder → MeOrder) → Keeps P (write_order p f)
    pub at_level : (p : Ptr) (f : MeOrdersAtPrice → MeOrdersAtPrice) → Keeps P (write_level p f)
    pub at_asks : (side : Side) (p : Ptr) → Keeps P (assign_best side p)
    pub at_price : (i : ℕ) (p : Ptr) → Keeps P (set_price_entry i p)
    pub at_client : (c o : ℕ) (p : Ptr) → Keeps P (set_client_order c o p)
    pub new_level : (l : MeOrdersAtPrice) → Keeps P (on_level_pool (allocate l))
    pub free_level : (i : ℕ) → Keeps P (on_level_pool (deallocate i))
    pub free_order : (i : ℕ) → Keeps P (on_order_pool (deallocate i))

  -- Those of them that hang orders and levels in their rings, and the write of a quantity.
  pub record Linked (P : Book E → Type 0) : Type 1 where
    pub at_prev : (p q : Ptr) → Keeps P (set_prev_order p q)
    pub at_next : (p q : Ptr) → Keeps P (set_next_order p q)
    pub at_qty : (p : Ptr) (qty : ℕ) → Keeps P (write_order p (λ o. record o { qty = qty }))
    pub at_level : (p : Ptr) (f : MeOrdersAtPrice → MeOrdersAtPrice) → Keeps P (write_level p f)
    pub at_asks : (side : Side) (p : Ptr) → Keeps P (assign_best side p)
    pub at_price : (i : ℕ) (p : Ptr) → Keeps P (set_price_entry i p)
    pub new_level : (l : MeOrdersAtPrice) → Keeps P (on_level_pool (allocate l))
    pub free_level : (i : ℕ) → Keeps P (on_level_pool (deallocate i))

  -- The writes of `removeOrder` to a level that keeps other orders.
  pub record Rings (P : Book E → Type 0) : Type 1 where
    pub at_prev : (p q : Ptr) → Keeps P (set_prev_order p q)
    pub at_next : (p q : Ptr) → Keeps P (set_next_order p q)
    pub at_level : (p : Ptr) (f : MeOrdersAtPrice → MeOrdersAtPrice) → Keeps P (write_level p f)

  pub Linked-Rings : {P : Book E → Type 0} → Linked P → Rings P
  Linked-Rings links = record {
    at_prev = links.at_prev;
    at_next = links.at_next;
    at_level = links.at_level;
  }

  pub Stable-Linked : {P : Book E → Type 0} → Stable P → Linked P
  Stable-Linked stable = record {
    at_prev = λ p q. stable.at_order p _;
    at_next = λ p q. stable.at_order p _;
    at_qty = λ p qty. stable.at_order p _;
    at_level = stable.at_level;
    at_asks = stable.at_asks;
    at_price = stable.at_price;
    new_level = stable.new_level;
    free_level = stable.free_level;
  }

  module _ (P : Book E → Type 0) where
    pub Keeps-load_order : (p : Ptr) → Keeps P (load_order p)
    unfolding load_order
    Keeps-load_order none = search keeps_rules
    Keeps-load_order (some i) = search keeps_rules

    pub Keeps-load_level : (p : Ptr) → Keeps P (load_level p)
    unfolding load_level
    Keeps-load_level none = search keeps_rules
    Keeps-load_level (some i) = search keeps_rules

  pub ruleset reads = (keeps_rules, Keeps-load_order, Keeps-load_level)

  module _ {P : Book E → Type 0} (rings : Rings P) where
    open rings use {at_prev, at_next, at_level}

    pub Keeps-leave_level : (order level : Ptr) → Keeps P (leave_level order level)
    unfolding leave_level set_first_order
    Keeps-leave_level order level = search (reads, at_prev, at_next, at_level) depth 12

  module _ {P : Book E → Type 0} (links : Linked P) where
    open links use {at_prev, at_next, at_level, at_asks, at_price, new_level, free_level}

    Keeps-find_target :
        (fuel : ℕ) (side : Side) (price : ℤ) (best : Ptr) (add_after : Bool) (target : Ptr)
        → Keeps P (find_target fuel side price best add_after target)
    unfolding find_target
    Keeps-find_target zero side price best add_after target = search reads
    Keeps-find_target (suc fuel) side price best add_after target =
        Keeps-if _ _ _
          (Keeps-bind _ _ (Keeps-load_level P target)
            (λ l. Keeps-find_target fuel side price best _ _))
          (Keeps-pure _)

    Keeps-link_after : (new best target : Ptr) → Keeps P (link_after new best target)
    unfolding link_after
    Keeps-link_after new best target = search (reads, at_level)

    Keeps-make_best :
        (side : Side) (new best target : Ptr) → Keeps P (make_best side new best target)
    unfolding make_best
    Keeps-make_best side new best target = search (reads, at_level, at_asks)

    Keeps-replace_best :
        (side : Side) (price : ℤ) (new best target : Ptr)
        → Keeps P (replace_best side price new best target)
    unfolding replace_best
    Keeps-replace_best side price new best target = search (reads, Keeps-make_best)

    Keeps-link_before :
        (side : Side) (price : ℤ) (new best target : Ptr)
        → Keeps P (link_before side price new best target)
    unfolding link_before
    Keeps-link_before side price new best target =
        search (reads, at_level, Keeps-replace_best) depth 9

    Keeps-second_test :
        (side : Side) (price : ℤ) (behind_best : Bool) (target : Ptr)
        → Keeps P (second_test side price behind_best target)
    unfolding second_test
    Keeps-second_test side price false target = search reads
    Keeps-second_test side price true target = search reads

    Keeps-add_to_ring :
        (side : Side) (price : ℤ) (new best : Ptr) → Keeps P (add_to_ring side price new best)
    unfolding add_to_ring
    Keeps-add_to_ring side price new best =
        search (reads, Keeps-second_test, Keeps-find_target, Keeps-link_after, Keeps-link_before)
          depth 9

    Keeps-add_behind :
        (side : Side) (price : ℤ) (new best : Ptr) → Keeps P (add_behind side price new best)
    unfolding add_behind first_of_side
    Keeps-add_behind side price new none = search (reads, at_asks, at_level)
    Keeps-add_behind side price new (some b) = Keeps-add_to_ring side price new (some b)

    pub Keeps-add_orders_at_price : (new : Ptr) → Keeps P (add_orders_at_price new)
    unfolding add_orders_at_price best_orders_by_price
    Keeps-add_orders_at_price new = search (reads, at_price, Keeps-add_behind)

    Keeps-deallocate_level : (p : Ptr) → Keeps P (deallocate_level p)
    unfolding deallocate_level
    Keeps-deallocate_level none = search reads
    Keeps-deallocate_level (some i) = free_level i

    Keeps-unlink_level : (side : Side) (level best : Ptr) → Keeps P (unlink_level side level best)
    unfolding unlink_level
    Keeps-unlink_level side level best = search (reads, at_level, at_asks) depth 12

    pub Keeps-remove_orders_at_price :
        (side : Side) (price : ℤ) → Keeps P (remove_orders_at_price side price)
    unfolding remove_orders_at_price best_orders_by_price get_orders_at_price
    Keeps-remove_orders_at_price side price =
        search (reads, at_asks, at_price, Keeps-unlink_level, Keeps-deallocate_level) depth 9

    Keeps-priority_behind : (level : Ptr) → Keeps P (priority_behind level)
    unfolding priority_behind
    Keeps-priority_behind none = search reads
    Keeps-priority_behind (some i) = search reads

    pub Keeps-get_next_priority : (price : ℤ) → Keeps P (get_next_priority price)
    unfolding get_next_priority get_orders_at_price
    Keeps-get_next_priority price = search (reads, Keeps-priority_behind)

    Keeps-open_level : (order : Ptr) → Keeps P (open_level order)
    unfolding open_level
    Keeps-open_level order =
        search (reads, at_prev, at_next, new_level, Keeps-add_orders_at_price) depth 9

    Keeps-join_level : (order level : Ptr) → Keeps P (join_level order level)
    unfolding join_level
    Keeps-join_level order level = search (reads, at_prev, at_next) depth 9

    pub Keeps-place : (order level : Ptr) → Keeps P (place order level)
    unfolding place
    Keeps-place order none = Keeps-open_level order
    Keeps-place order (some l) = Keeps-join_level order (some l)

    pub Keeps-detach : (o : MeOrder) (order level : Ptr) → Keeps P (detach o order level)
    unfolding detach
    Keeps-detach o order level =
        search (reads, Keeps-leave_level (Linked-Rings links), Keeps-remove_orders_at_price)

  module _ {P : Book E → Type 0} (stable : Stable P) where
    open stable use {at_client, free_order}

    pub Keeps-add_order : (order : Ptr) → Keeps P (add_order order)
    unfolding add_order get_orders_at_price
    Keeps-add_order order = search (reads, at_client, Keeps-place (Stable-Linked stable))

    pub Keeps-deallocate_order : (p : Ptr) → Keeps P (deallocate_order p)
    unfolding deallocate_order
    Keeps-deallocate_order none = search reads
    Keeps-deallocate_order (some i) = free_order i

    pub Keeps-remove_order : (order : Ptr) → Keeps P (remove_order order)
    unfolding remove_order get_orders_at_price
    Keeps-remove_order order =
        search (reads, at_client, Keeps-detach (Stable-Linked stable), Keeps-deallocate_order) depth
          9
