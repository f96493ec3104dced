-- ===== src/OrderBook/Level.antt =====
-- The price levels of me_order_book.h: a ring of levels for each side, from the best price on, and a
-- table that both sides share.
use trading_ecosystem.Prelude.{
  ℕ, zero, suc, ◌+◌, ◌%◌, ℤ, ltb_ℤ, Ptr, none, some, ptr_eq, Bool, true, false, ◌&&◌, ◌||◌, not,
  if◌then◌else◌,
}
use trading_ecosystem.Run.{Cmd, out_of_fuel, assert_failed, ◌>>=◌, ◌>>◌, gets, modify, pure, halt}
use trading_ecosystem.MemPool.{deallocate}
use trading_ecosystem.Types.{Side, is_buy, is_sell, priority_mod}
use trading_ecosystem.Order.{MeOrdersAtPrice}
use trading_ecosystem.OrderBook.{
  Book, price_to_index, load_order, load_level, set_prev_entry, set_next_entry, on_level_pool,
  set_price_entry,
}

-- A price that stands behind the price of a level in the level's ring, and one that stands before.
abbrev pub is_behind : Side → (price level : ℤ) → Bool
is_behind side price level = is_sell side && ltb_ℤ level price || is_buy side && ltb_ℤ price level

abbrev pub is_better : Side → (price level : ℤ) → Bool
is_better side price level = is_buy side && ltb_ℤ level price || is_sell side && ltb_ℤ price level

module _ {E : Type 0} where
  unfoldable pub get_orders_at_price : ℤ → Cmd (Book E) Ptr
  get_orders_at_price price = gets (λ w. w.book.price_orders_at_price (price_to_index price))

  -- `side == Side::BUY ? bids_at_price_ : asks_at_price_`, read.
  unfoldable pub best_orders_by_price : Side → Cmd (Book E) Ptr
  best_orders_by_price side =
      gets (λ w. if is_buy side then w.book.bids_at_price else w.book.asks_at_price)

  -- `side == Side::BUY ? bids_at_price_ : asks_at_price_ = p`. The language reads it as
  -- `side == Side::BUY ? bids_at_price_ : (asks_at_price_ = p)`: for BUY nothing is assigned.
  unfoldable pub assign_best : Side → Ptr → Cmd (Book E) (Unit {0})
  assign_best side p =
      if is_buy side
      then pure tt
      else modify (λ w. record w { book = record w.book { asks_at_price = p } })

  -- The `while` loop of `addOrdersAtPrice`; the rounds are bounded by `fuel`.
  unfoldable pub find_target :
      ℕ → Side → ℤ → (best : Ptr) → (add_after : Bool) → (target : Ptr) → Cmd (Book E) (Bool × Ptr)
  find_target zero side price best add_after target = halt out_of_fuel
  find_target (suc fuel) side price best add_after target =
      let again = λ (l : MeOrdersAtPrice).
        find_target fuel side price best (is_behind side price l.price)
          (if is_behind side price l.price then l.next_entry else target) in
      let round = load_level target >>= again in
      if add_after && not (ptr_eq target best) then round else pure (add_after, target)

  -- "add new_orders_at_price after target"
  unfoldable pub link_after : (new best target : Ptr) → Cmd (Book E) (Unit {0})
  link_after new best target = do
    b ← load_level best
    let target' = if ptr_eq target best then b.prev_entry else target
    set_prev_entry new target'
    t ← load_level target'
    set_prev_entry t.next_entry new
    set_next_entry target' new

  -- The last test of the other branch, and what it guards.
  unfoldable pub make_best : Side → (new best target : Ptr) → Cmd (Book E) (Unit {0})
  unfolding assign_best
  make_best side new best target = do
    t ← load_level target
    set_next_entry target (if ptr_eq t.next_entry best then new else t.next_entry)
    assign_best side new

  unfoldable pub replace_best : Side → ℤ → (new best target : Ptr) → Cmd (Book E) (Unit {0})
  unfolding make_best
  replace_best side price new best target = do
    b ← load_level best
    if is_better side price b.price then make_best side new best target else pure tt

  -- "add new_orders_at_price before target"
  unfoldable pub link_before : Side → ℤ → (new best target : Ptr) → Cmd (Book E) (Unit {0})
  unfolding replace_best
  link_before side price new best target = do
    t ← load_level target
    set_prev_entry new t.prev_entry
    set_next_entry new target
    set_next_entry t.prev_entry new
    set_prev_entry target new
    replace_best side price new best target

  -- The test against the second level, made if the new price stands behind the best.
  unfoldable pub second_test : Side → ℤ → (behind_best : Bool) → Ptr → Cmd (Book E) Bool
  second_test side price false target = pure false
  second_test side price true target = do t ← load_level target; pure (is_behind side price t.price)

  -- The branch of `addOrdersAtPrice` for a side that has a best level.
  unfoldable pub add_to_ring : Side → ℤ → (new best : Ptr) → Cmd (Book E) (Unit {0})
  unfolding second_test find_target link_after link_before
  add_to_ring side price new best = do
    b ← load_level best
    let behind_best = is_behind side price b.price
    let target = if behind_best then b.next_entry else best
    add_after ← second_test side price behind_best target
    size ← gets (λ w. w.book.orders_at_price_pool.size)
    (add_after', target') ← find_target (size + 2) side price best add_after target
    if add_after' then link_after new best target' else link_before side price new best target'

  -- The other branch.
  unfoldable pub first_of_side : Side → Ptr → Cmd (Book E) (Unit {0})
  first_of_side side new = do assign_best side new; set_next_entry new new; set_prev_entry new new

  unfoldable pub add_behind : Side → ℤ → (new best : Ptr) → Cmd (Book E) (Unit {0})
  unfolding first_of_side add_to_ring
  add_behind side price new none = first_of_side side new
  add_behind side price new (some b) = add_to_ring side price new (some b)

  unfoldable pub add_orders_at_price : Ptr → Cmd (Book E) (Unit {0})
  unfolding best_orders_by_price add_behind
  add_orders_at_price new = do
    l ← load_level new
    set_price_entry (price_to_index l.price) new
    best ← best_orders_by_price l.side
    add_behind l.side l.price new best

  -- `deallocate` takes an address, and refuses one that is not of a block of the pool.
  unfoldable pub deallocate_level : Ptr → Cmd (Book E) (Unit {0})
  deallocate_level none = halt assert_failed
  deallocate_level (some i) = on_level_pool (deallocate i)

  unfoldable pub unlink_level : Side → (level best : Ptr) → Cmd (Book E) (Unit {0})
  unfolding assign_best
  unlink_level side level best = do
    l ← load_level level
    set_next_entry l.prev_entry l.next_entry
    l ← load_level level
    set_prev_entry l.next_entry l.prev_entry
    l ← load_level level
    if ptr_eq level best then assign_best side l.next_entry else pure tt
    set_next_entry level none
    set_prev_entry level none

  unfoldable pub remove_orders_at_price : Side → ℤ → Cmd (Book E) (Unit {0})
  unfolding best_orders_by_price get_orders_at_price unlink_level deallocate_level
  remove_orders_at_price side price = do
    best ← best_orders_by_price side
    level ← get_orders_at_price price
    l ← load_level level
    if ptr_eq l.next_entry level then assign_best side none else unlink_level side level best
    set_price_entry (price_to_index price) none
    deallocate_level level

  unfoldable pub priority_behind : Ptr → Cmd (Book E) ℕ
  priority_behind none = pure 1
  priority_behind (some i) = do
    l ← load_level (some i)
    first ← load_order l.first_me_order
    last ← load_order first.prev_order
    pure ((last.priority + 1) % priority_mod)

  unfoldable pub get_next_priority : ℤ → Cmd (Book E) ℕ
  unfolding get_orders_at_price priority_behind
  get_next_priority price = do level ← get_orders_at_price price; priority_behind level
