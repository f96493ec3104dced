-- ===== src/OrderBook/BestLevel.antt =====
-- `removeOrdersAtPrice` of me_order_book.h, of the best sell level.
use trading_ecosystem.Prelude.{
  ℕ, ◌<◌, ℤ, ◌≡◌, ◌≢◌, refl, ap, ◌∙◌, true, false, Ptr, none, some, List, [], ◌∷◌, member, ptr_eq,
  update, update_other, if◌then◌else◌, arith,
}
use trading_ecosystem.Run.{Run, ok, put_back, ◌>>◌, ◌>>=◌}
use trading_ecosystem.Run.Sequencing.{then_returns}
use trading_ecosystem.MemPool.{block, deallocate}
use trading_ecosystem.MemPool.Allocation.{deallocate_lem}
use trading_ecosystem.Types.{Side}
use trading_ecosystem.OrderBook.{Book, load_level, set_price_entry, on_level_pool, price_to_index}
use trading_ecosystem.OrderBook.Level.{
  assign_best, unlink_level, deallocate_level, remove_orders_at_price, best_orders_by_price,
  get_orders_at_price,
}
use trading_ecosystem.OrderBook.Ring.{
  last_of, member-last, separate, IsPath-last, IsPath-apart, leave-IsPath,
}
use trading_ecosystem.OrderBook.Aside.{level_block, IsAside}
use trading_ecosystem.OrderBook.Rungs.{
  next_rungs, prev_rungs, HasRungs, with_asks, rung_out, unlink_level-rung_out, rung_out-IsLeft,
}

entries-dropped :
    (f : ℕ → Ptr) (index level : ℕ)
    → f index ≡ some level
    → (i : ℕ) → f i ≢ some level
    → update f index none i ≡ f i
entries-dropped f index level entry i ne = update_other f index i none (λ e. ne (ap f e ∙ entry))

module _ {E : Type 0} where
  -- Nothing is entered at the price, and the level is given back.
  abbrev dropped : Book E → (index level : ℕ) → Book E
  dropped w index level = record w {
    book = record w.book {
      price_orders_at_price = update w.book.price_orders_at_price index none;
      orders_at_price_pool = record w.book.orders_at_price_pool {
        store =
            update w.book.orders_at_price_pool.store level
              (block (level_block w level).object true);
      };
    };
  }

  drops :
      (index level : ℕ) (w : Book E)
      → level < w.book.orders_at_price_pool.size
      → (level_block w level).is_free ≡ false
      → (set_price_entry index none >> deallocate_level (some level)) w
        ≡ ok tt (dropped w index level)
  unfolding set_price_entry deallocate_level on_level_pool
  drops index level w inside in_use =
      let given : deallocate level w.book.orders_at_price_pool
          ≡ ok tt (dropped w index level).book.orders_at_price_pool =
        ground (arith, deallocate_lem level w.book.orders_at_price_pool) in
      ap (put_back _) given

  abbrev cut : (level : ℕ) → Book E → Run (Book E) (Unit {0})
  cut level w =
      (if ptr_eq (next_rungs w level) (some level)
          then assign_best Side.sell none
          else unlink_level Side.sell (some level) (some level))
        w

  remove_orders_at_price-drops :
      (price : ℤ) (level : ℕ) (w w₁ : Book E)
      → w.book.asks_at_price ≡ some level
      → w.book.price_orders_at_price (price_to_index price) ≡ some level
      → cut level w ≡ ok tt w₁
      → level < w₁.book.orders_at_price_pool.size
      → (level_block w₁ level).is_free ≡ false
      → remove_orders_at_price Side.sell price w ≡ ok tt (dropped w₁ (price_to_index price) level)
  unfolding remove_orders_at_price best_orders_by_price get_orders_at_price load_level
  remove_orders_at_price-drops price level w w₁ best entry cut_off inside in_use =
      let index = price_to_index price in
      let after = λ (p : Ptr). set_price_entry index none >> deallocate_level p in
      ap
        (λ p.
          (do
            l ← load_level (w.book.price_orders_at_price index)
            if ptr_eq l.next_entry (w.book.price_orders_at_price index)
                then assign_best Side.sell none
                else unlink_level Side.sell (w.book.price_orders_at_price index) p
            after (w.book.price_orders_at_price index))
            w)
        best
      ∙ ap
          (λ q.
            (do
              l ← load_level q
              if ptr_eq l.next_entry q
                  then assign_best Side.sell none
                  else unlink_level Side.sell q (some level)
              after q)
              w)
          entry
      ∙ then_returns _ cut_off (drops index level w₁ inside in_use)

  HasRungs-dropped :
      (index level : ℕ) (ms : List ℕ) (w : Book E)
      → HasRungs w ms
      → member level ms ≡ false
      → HasRungs (dropped w index level) ms
  HasRungs-dropped index level [] w rungs out = rungs
  HasRungs-dropped index level (m ∷ ms) w (best, path, unique) out = (
    best,
    IsPath-apart (next_rungs w) (prev_rungs w) (next_rungs (dropped w index level))
        (prev_rungs (dropped w index level)) level m ms m (λ i ne. ground arith)
        (λ i ne. ground arith) out (separate m level (m ∷ ms) (ground arith) out) path,
    unique,
  )

  -- `removeOrdersAtPrice` of the best sell level: the others are then the levels.
  abbrev IsLost : (level : ℕ) (ms : List ℕ) (w w' : Book E) → Type 0
  IsLost level ms w w' =
      HasRungs w' ms × (w'.book.order_pool ≡ w.book.order_pool) × IsAside level [] w w'

  pub remove_best_returns :
      (price : ℤ) (level : ℕ) (ms : List ℕ) (w : Book E)
      → HasRungs w (level ∷ ms)
      → w.book.price_orders_at_price (price_to_index price) ≡ some level
      → level < w.book.orders_at_price_pool.size
      → (level_block w level).is_free ≡ false
      → (w' : Book E) × (remove_orders_at_price Side.sell price w ≡ ok tt w') × IsLost level ms w w'
  unfolding assign_best
  remove_best_returns price level [] w (best, path, unique) entry inside in_use =
      let index = price_to_index price in
      let alone : ptr_eq (next_rungs w level) (some level) ≡ true = rw path.0 (ground arith) in
      let cut_off : cut level w ≡ ok tt (with_asks w none) =
        ap
          (λ b.
            (if b
                then assign_best Side.sell none
                else unlink_level Side.sell (some level) (some level))
              w)
          alone in
      (
        dropped (with_asks w none) index level,
        remove_orders_at_price-drops price level w (with_asks w none) best entry cut_off inside
            in_use,
        (
          refl,
          refl,
          record {
            entries = entries-dropped w.book.price_orders_at_price index level entry;
            size = refl;
            level_size = refl;
            frees = λ m ne. ground arith;
            firsts = λ m ne. ground arith;
            blocks = λ z out. refl;
          },
        ),
      )
  remove_best_returns price level (n ∷ ns) w (best, path, unique) entry inside in_use =
      let index = price_to_index price in
      let l = last_of n ns in
      let not_l = separate l level (n ∷ ns) (member-last n ns) unique.0 in
      let not_n = separate n level (n ∷ ns) (ground arith) unique.0 in
      let w₁ = rung_out w level l n in
      let others : ptr_eq (next_rungs w level) (some level) ≡ false = rw path.0.0 (ground arith) in
      let before = (IsPath-last (next_rungs w) (prev_rungs w) level (n ∷ ns) level path).1 in
      let cut_off : cut level w ≡ ok tt w₁ =
        ap
          (λ b.
            (if b
                then assign_best Side.sell none
                else unlink_level Side.sell (some level) (some level))
              w)
          others
        ∙ unlink_level-rung_out level l n w before path.0.0 not_l not_n in
      let rungs : HasRungs w₁ (n ∷ ns) = (
        refl,
        leave-IsPath (next_rungs w) (prev_rungs w) (next_rungs w₁) (prev_rungs w₁) level n ns path
            unique (rung_out-IsLeft w level l n not_l not_n),
        unique.1,
      ) in
      (
        dropped w₁ index level,
        remove_orders_at_price-drops price level w w₁ best entry cut_off inside (ground arith),
        (
          HasRungs-dropped index level (n ∷ ns) w₁ rungs unique.0,
          refl,
          record {
            entries = entries-dropped w.book.price_orders_at_price index level entry;
            size = refl;
            level_size = refl;
            frees = λ m ne. ground arith;
            firsts = λ m ne. ground arith;
            blocks = λ z out. refl;
          },
        ),
      )
