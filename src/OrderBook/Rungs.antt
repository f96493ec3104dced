-- ===== src/OrderBook/Rungs.antt =====
-- The price levels of the sell side of me_order_book.h as a list, and the best of several taken out of their ring.
use trading_ecosystem.Prelude.{
  ℕ, ◌≡◌, ◌≢◌, refl, ap, ◌∙◌, true, Ptr, none, some, List, [], ◌∷◌, IsUnique, ptr_eq, if◌then◌else◌,
  arith,
}
use trading_ecosystem.Run.{ok, pure}
use trading_ecosystem.Run.Sequencing.{then_returns}
use trading_ecosystem.MemPool.{write_object}
use trading_ecosystem.Types.{Side}
use trading_ecosystem.Order.{MeOrdersAtPrice}
use trading_ecosystem.OrderBook.{Book, load_level, write_level}
use trading_ecosystem.OrderBook.Level.{assign_best, unlink_level}
use trading_ecosystem.OrderBook.Ring.{IsPath, IsLeft}
use trading_ecosystem.OrderBook.Aside.{level_block}

abbrev rung_next : Ptr → MeOrdersAtPrice → MeOrdersAtPrice
rung_next p l = record l { next_entry = p }

abbrev rung_prev : Ptr → MeOrdersAtPrice → MeOrdersAtPrice
rung_prev p l = record l { prev_entry = p }

module _ {E : Type 0} where
  abbrev pub next_rungs : Book E → ℕ → Ptr
  next_rungs w m = (level_block w m).object.next_entry

  abbrev pub prev_rungs : Book E → ℕ → Ptr
  prev_rungs w m = (level_block w m).object.prev_entry

  -- From `asks_at_price_` on, the levels are these, each once, in a ring.
  abbrev pub HasRungs : Book E → List ℕ → Type 0
  HasRungs w [] = w.book.asks_at_price ≡ none
  HasRungs w (m ∷ ms) =
      (w.book.asks_at_price ≡ some m)
      × IsPath (next_rungs w) (prev_rungs w) m ms m
      × IsUnique (m ∷ ms)

  abbrev with_level : Book E → ℕ → (MeOrdersAtPrice → MeOrdersAtPrice) → Book E
  with_level w i f = record w {
    book = record w.book { orders_at_price_pool = write_object i f w.book.orders_at_price_pool };
  }

  abbrev pub with_asks : Book E → Ptr → Book E
  with_asks w p = record w { book = record w.book { asks_at_price = p } }

  -- The writes of the branch of `removeOrdersAtPrice` for the best of several levels.
  abbrev pub rung_out : Book E → (level l n : ℕ) → Book E
  rung_out w level l n =
      with_level
        (with_level
          (with_asks (with_level (with_level w l (rung_next (some n))) n (rung_prev (some l)))
            (some n))
          level (rung_next none))
        level (rung_prev none)

  pub unlink_level-rung_out :
      (level l n : ℕ) (w : Book E)
      → prev_rungs w level ≡ some l
      → next_rungs w level ≡ some n
      → l ≢ level
      → n ≢ level
      → unlink_level Side.sell (some level) (some level) w ≡ ok tt (rung_out w level l n)
  unfolding unlink_level load_level write_level assign_best
  unlink_level-rung_out level l n w before behind not_l not_n =
      let w₁ = with_level w l (rung_next (some n)) in
      let w₂ = with_level w₁ n (rung_prev (some l)) in
      let behind₁ : next_rungs w₁ level ≡ some n = ground arith in
      let before₁ : prev_rungs w₁ level ≡ some l = ground arith in
      let behind₂ : next_rungs w₂ level ≡ some n = ground arith in
      let test : ptr_eq (some level) (some level) ≡ true = ground arith in
      let first : write_level (prev_rungs w level) (rung_next (next_rungs w level)) w ≡ ok tt w₁ =
        ap (λ p. write_level p (rung_next (next_rungs w level)) w) before
        ∙ ap (λ q. ok tt (with_level w l (rung_next q))) behind in
      let second : write_level (next_rungs w₁ level) (rung_prev (prev_rungs w₁ level)) w₁
          ≡ ok tt w₂ =
        ap (λ p. write_level p (rung_prev (prev_rungs w₁ level)) w₁) behind₁
        ∙ ap (λ q. ok tt (with_level w₁ n (rung_prev q))) before₁ in
      let third : (if ptr_eq (some level) (some level)
              then assign_best Side.sell (next_rungs w₂ level)
              else pure tt)
            w₂
          ≡ ok tt (with_asks w₂ (some n)) =
        ap (λ b. (if b then assign_best Side.sell (next_rungs w₂ level) else pure tt) w₂) test
        ∙ ap (λ q. ok tt (with_asks w₂ q)) behind₂ in
      then_returns _ first (then_returns _ second (then_returns _ third refl))

  pub rung_out-IsLeft :
      (w : Book E) (level l n : ℕ)
      → l ≢ level
      → n ≢ level
      → IsLeft
          (next_rungs w)
          (prev_rungs w)
          (next_rungs (rung_out w level l n))
          (prev_rungs (rung_out w level l n))
          l
          level
          n
  rung_out-IsLeft w level l n not_l not_n = record {
    same_next = λ i a c. ground arith;
    before_next = ground arith;
    same_prev = λ i a c. ground arith;
    after_prev = ground arith;
  }
