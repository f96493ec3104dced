-- ===== src/OrderBook/AddAfter.antt =====
-- The branch "after target" of `addOrdersAtPrice` in me_order_book.h, which does not write the `next_entry_` of the new
-- level, and the operations that read it later.
use trading_ecosystem.Prelude.{
  Bool-cases, inl, inr, ℕ, ◌≡◌, ◌≢◌, refl, ℤ, ◌<ℤ◌, ltb_ℤ, Ptr, none, some, ptr_eq, true, false,
  arith, ◌==◌,
}
use native.Mathlib.Numerals.{add-two}
use trading_ecosystem.Run.{ok, fault, null_deref}
use trading_ecosystem.Types.{Side}
use trading_ecosystem.Order.{MeOrdersAtPrice}
use trading_ecosystem.OrderBook.{Book, load_level, write_level, price_to_index}
use trading_ecosystem.OrderBook.Level.{
  find_target, link_after, second_test, add_to_ring, unlink_level, remove_orders_at_price,
  get_orders_at_price, best_orders_by_price,
}

module _ {E : Type 0} where
  -- The level at an index of the pool.
  abbrev pub level_at : Book E → ℕ → MeOrdersAtPrice
  level_at w i = (w.book.orders_at_price_pool.store i).object

  -- If the best ask level is the only one of its ring, and a new level with a null `next_entry_`
  -- comes at a higher price, the new level is linked behind the best one, and its own `next_entry_`
  -- stays null.
  pub add_to_ring-unlinked :
      (b n : ℕ) (price : ℤ) (w : Book E)
      → n ≢ b
      → (level_at w b).next_entry ≡ some b
      → (level_at w b).prev_entry ≡ some b
      → (level_at w n).next_entry ≡ none
      → (level_at w b).price <ℤ price
      → (w' : Book E) × (add_to_ring Side.sell price (some n) (some b) w ≡ ok tt w')
        × ((level_at w' b).next_entry ≡ some n)
        × ((level_at w' n).next_entry ≡ none)
  unfolding add_to_ring second_test find_target link_after load_level write_level
  add_to_ring-unlinked b n price w ne next_b prev_b next_n worse =
      let h : ltb_ℤ (level_at w b).price price ≡ true = ground arith in
      let apart : (n == b) ≡ false = ground arith in
      let itself : (b == b) ≡ true = ground arith in
      let apart' : (b == n) ≡ false = ground arith in
      let n_itself : (n == n) ≡ true = ground arith in
      rw (h, next_b, h, add-two, itself, prev_b, itself, apart, next_b)
        (_, refl, ground arith, ground arith)

  -- If the level behind the best ask has a null `next_entry_`, adding an ask level at a price above
  -- both ends the process on that null pointer.
  pub add_to_ring-null_deref :
      (b n : ℕ) (new : Ptr) (price : ℤ) (w : Book E)
      → n ≢ b
      → (level_at w b).next_entry ≡ some n
      → (level_at w n).next_entry ≡ none
      → (level_at w b).price <ℤ price
      → (level_at w n).price <ℤ price
      → add_to_ring Side.sell price new (some b) w ≡ fault null_deref
  unfolding add_to_ring second_test find_target load_level
  add_to_ring-null_deref b n new price w ne next_b next_n worse_b worse_n =
      let h : ltb_ℤ (level_at w b).price price ≡ true = ground arith in
      let k : ltb_ℤ (level_at w n).price price ≡ true = ground arith in
      let apart : ptr_eq (some n) (some b) ≡ false = ground arith in
      rw (h, next_b, k, add-two, apart, k, next_n) refl

  -- Removing the level of a price ends the process on a null pointer, if its `next_entry_` is null
  -- and its `prev_entry_` is not.
  pub remove_orders_at_price-null_deref :
      (n b : ℕ) (side : Side) (price : ℤ) (w : Book E)
      → w.book.price_orders_at_price (price_to_index price) ≡ some n
      → (level_at w n).next_entry ≡ none
      → (level_at w n).prev_entry ≡ some b
      → remove_orders_at_price side price w ≡ fault null_deref
  unfolding remove_orders_at_price unlink_level best_orders_by_price get_orders_at_price load_level
      write_level
  remove_orders_at_price-null_deref n b side price w here next_n prev_n =
      elim (Bool-cases (b == n)) [
        | inl same ↦ rw (here, next_n, prev_n, same, next_n) refl
        | inr apart ↦ rw (here, next_n, prev_n, apart, next_n) refl
      ]
