-- ===== src/OrderBook/Emptying.antt =====
-- `removeOrder` of me_order_book.h with the only order of the best sell level.
use trading_ecosystem.Prelude.{
  ℕ, ◌<◌, ◌≡◌, sym, ap, ◌∙◌, true, false, none, some, List, [], ◌∷◌, ptr_eq, update_other,
  if◌then◌else◌, arith,
}
use mathlib.Core.Path.{subst}
use trading_ecosystem.Run.{ok, and_then, ◌>>◌}
use trading_ecosystem.Run.Sequencing.{then_returns}
use trading_ecosystem.Types.{Side, me_max_num_clients, me_max_order_ids}
use trading_ecosystem.OrderBook.{Book, load_order, set_client_order, price_to_index}
use trading_ecosystem.OrderBook.Level.{get_orders_at_price, remove_orders_at_price}
use trading_ecosystem.OrderBook.Resting.{leave_level, detach, deallocate_order, remove_order}
use trading_ecosystem.OrderBook.TimePriority.{order_at, prevs}
use trading_ecosystem.OrderBook.Indexed.{written}
use trading_ecosystem.OrderBook.Rested.{set_client_order_returns}
use trading_ecosystem.OrderBook.Removing.{freed, deallocate_order_returns}
use trading_ecosystem.OrderBook.Aside.{IsAside, order_block, level_block}
use trading_ecosystem.OrderBook.Rungs.{HasRungs}
use trading_ecosystem.OrderBook.BestLevel.{remove_best_returns}

module _ {E : Type 0} where
  freed-HasRungs :
      (x client client_order : ℕ) (ms : List ℕ) (w : Book E)
      → HasRungs w ms
      → HasRungs (freed x (written client client_order none w)) ms
  unfolding freed
  freed-HasRungs x client client_order [] w rungs = rungs
  freed-HasRungs x client client_order (m ∷ ms) w rungs = rungs

  freed-IsAside :
      (x client client_order level : ℕ) (w w₁ : Book E)
      → w₁.book.order_pool ≡ w.book.order_pool
      → IsAside level [] w w₁
      → IsAside level (x ∷ []) w (freed x (written client client_order none w₁))
  unfolding freed
  freed-IsAside x client client_order level w w₁ same h = record {
    entries = h.entries;
    size = h.size;
    level_size = h.level_size;
    frees = h.frees;
    firsts = h.firsts;
    blocks = λ z out.
        update_other w₁.book.order_pool.store x z _ (ground arith) ∙ ap (λ p. p.store z) same;
  }

  detach-only :
      (x level : ℕ) (w : Book E)
      → prevs w x ≡ some x
      → (order_at w x).side ≡ Side.sell
      → detach (order_at w x) (some x) (some level) w
        ≡ remove_orders_at_price Side.sell (order_at w x).price w
  unfolding detach
  detach-only x level w alone side =
      let r = order_at w x in
      let test : ptr_eq (prevs w x) (some x) ≡ true = rw alone (ground arith) in
      ap
        (λ b.
          (if b then remove_orders_at_price r.side r.price else leave_level (some x) (some level))
            w)
        test
      ∙ ap (λ s. remove_orders_at_price s r.price w) side

  -- The level goes with its only order, and the other levels stay.
  pub remove_last_returns :
      (x level : ℕ) (ms : List ℕ) (w : Book E)
      → HasRungs w (level ∷ ms)
      → w.book.price_orders_at_price (price_to_index (order_at w x).price) ≡ some level
      → level < w.book.orders_at_price_pool.size
      → (level_block w level).is_free ≡ false
      → prevs w x ≡ some x
      → (order_at w x).side ≡ Side.sell
      → x < w.book.order_pool.size
      → (order_block w x).is_free ≡ false
      → (order_at w x).client_id < me_max_num_clients
      → (order_at w x).client_order_id < me_max_order_ids
      → (w' : Book E) × (remove_order (some x) w ≡ ok tt w')
        × HasRungs w' ms
        × IsAside level (x ∷ []) w w'
  unfolding remove_order get_orders_at_price load_order freed
  remove_last_returns x level ms w rungs entry level_inside level_in_use alone side inside in_use
        by_client by_order =
      let r = order_at w x in
      let (w₁, cut_off, (rungs₁, same, aside)) =
        remove_best_returns r.price level ms w rungs entry level_inside level_in_use in
      let w₂ = written r.client_id r.client_order_id none w₁ in
      let entered =
        set_client_order_returns r.client_id r.client_order_id none w₁ by_client by_order in
      let given =
        deallocate_order_returns x w₂ (subst (λ p. x < p.size) (sym same) inside)
          (ap (λ p. (p.store x).is_free) same ∙ in_use) in
      (
        freed x w₂,
        ap
              (λ p. and_then (detach r (some x) p w) (λ _.
                set_client_order r.client_id r.client_order_id none >> deallocate_order (some x)))
              entry
            ∙ then_returns _ (detach-only x level w alone side ∙ cut_off)
                (then_returns _ entered given),
        freed-HasRungs x r.client_id r.client_order_id ms w₁ rungs₁,
        freed-IsAside x r.client_id r.client_order_id level w w₁ same aside,
      )
