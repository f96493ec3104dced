-- ===== src/OrderBook/Resting.antt =====
-- `addOrder` and `removeOrder` of me_order_book.h: the ring of orders of a price level.
use trading_ecosystem.Prelude.{Ptr, none, some, ptr_eq, if◌then◌else◌}
use trading_ecosystem.Run.{Cmd, assert_failed, ◌>>=◌, ◌>>◌, pure, halt}
use trading_ecosystem.MemPool.{allocate, deallocate}
use trading_ecosystem.Order.{MeOrder}
use trading_ecosystem.OrderBook.{
  Book, load_order, load_level, write_level, set_prev_order, set_next_order, on_order_pool,
  on_level_pool, set_client_order,
}
use trading_ecosystem.OrderBook.Level.{
  get_orders_at_price, add_orders_at_price, remove_orders_at_price,
}

module _ {E : Type 0} where
  -- The first order of a new level.
  unfoldable pub open_level : Ptr → Cmd (Book E) (Unit {0})
  unfolding add_orders_at_price
  open_level order = do
    set_prev_order order order
    set_next_order order order
    o ← load_order order
    new ← on_level_pool (
        allocate (record {
          side = o.side;
          price = o.price;
          first_me_order = order;
          prev_entry = none;
          next_entry = none;
        }))
    add_orders_at_price (some new)

  -- An order behind the last one of its level.
  unfoldable pub join_level : (order level : Ptr) → Cmd (Book E) (Unit {0})
  join_level order level = do
    l ← load_level level
    let first_order = l.first_me_order
    first ← load_order first_order
    set_next_order first.prev_order order
    first ← load_order first_order
    set_prev_order order first.prev_order
    set_next_order order first_order
    set_prev_order first_order order

  unfoldable pub place : (order level : Ptr) → Cmd (Book E) (Unit {0})
  unfolding open_level join_level
  place order none = open_level order
  place order (some l) = join_level order (some l)

  unfoldable pub add_order : Ptr → Cmd (Book E) (Unit {0})
  unfolding place get_orders_at_price
  add_order order = do
    o ← load_order order
    level ← get_orders_at_price o.price
    place order level
    set_client_order o.client_id o.client_order_id order

  -- `deallocate` takes an address, and refuses one that is not of a block of the pool.
  unfoldable pub deallocate_order : Ptr → Cmd (Book E) (Unit {0})
  deallocate_order none = halt assert_failed
  deallocate_order (some i) = on_order_pool (deallocate i)

  unfoldable pub set_first_order : (level first : Ptr) → Cmd (Book E) (Unit {0})
  set_first_order level first = write_level level (λ l. record l { first_me_order = first })

  unfoldable pub leave_level : (order level : Ptr) → Cmd (Book E) (Unit {0})
  unfolding set_first_order
  leave_level order level = do
    o ← load_order order
    set_next_order o.prev_order o.next_order
    set_prev_order o.next_order o.prev_order
    l ← load_level level
    if ptr_eq l.first_me_order order then set_first_order level o.next_order else pure tt
    set_next_order order none
    set_prev_order order none

  -- An order that is its own neighbour is the last of its level.
  unfoldable pub detach : MeOrder → (order level : Ptr) → Cmd (Book E) (Unit {0})
  unfolding leave_level remove_orders_at_price
  detach o order level =
      if ptr_eq o.prev_order order
      then remove_orders_at_price o.side o.price
      else leave_level order level

  unfoldable pub remove_order : Ptr → Cmd (Book E) (Unit {0})
  unfolding detach deallocate_order get_orders_at_price
  remove_order order = do
    o ← load_order order
    level ← get_orders_at_price o.price
    detach o order level
    set_client_order o.client_id o.client_order_id none
    deallocate_order order
