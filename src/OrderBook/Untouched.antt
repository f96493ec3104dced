-- ===== src/OrderBook/Untouched.antt =====
-- What `removeOrder` of me_order_book.h leaves of the other orders of a level that is not left empty: their terms,
-- the table of prices and the best levels.
use trading_ecosystem.Prelude.{
  ℕ, ℤ, ◌≡◌, ◌≢◌, refl, ap, ◌∙◌, Ptr, none, some, Bool, Bool-cases, inl, inr, arith, ◌==◌,
}
use trading_ecosystem.Run.Ensures.{Keeps, keeps_rules, Keeps-modify}
use trading_ecosystem.MemPool.{MemPool, ObjectBlock, write_object}
use trading_ecosystem.Types.{Side}
use trading_ecosystem.Order.{MeOrder, MeOrdersAtPrice}
use trading_ecosystem.OrderBook.{Book, write_order, write_level}
use trading_ecosystem.OrderBook.Stable.{Rings}

-- Of a block: whether it is free, and the client, the id, the price, the quantity and the side of its order.
abbrev pub terms : ObjectBlock MeOrder → Bool × ℕ × ℕ × ℤ × ℕ × Side
terms b = (
  b.is_free, b.object.client_id, b.object.client_order_id, b.object.price, b.object.qty,
  b.object.side,
)

-- A write of a pointer of an order.
pub write-terms :
    (i : ℕ) (f : MeOrder → MeOrder) (p : MemPool MeOrder)
    → ((b : ObjectBlock MeOrder) → terms (record b { object = f b.object }) ≡ terms b)
    → (j : ℕ) → terms ((write_object i f p).store j) ≡ terms (p.store j)
write-terms i f p same j = elim (Bool-cases (i == j)) [
  | inl h ↦ rw h (same (p.store i) ∙ ap (λ k. terms (p.store k)) (ground arith))
  | inr h ↦ rw h refl
]

module _ {E : Type 0} where
  -- Everything but the links of the orders, the levels and the order `o` is as it was.
  pub record IsKept (o : ℕ) (w₀ w : Book E) : Type 0 where
    pub prices : w.book.price_orders_at_price ≡ w₀.book.price_orders_at_price
    pub asks : w.book.asks_at_price ≡ w₀.book.asks_at_price
    pub bids : w.book.bids_at_price ≡ w₀.book.bids_at_price
    pub size : w.book.order_pool.size ≡ w₀.book.order_pool.size
    pub at_others :
        (j : ℕ) → j ≢ o → terms (w.book.order_pool.store j) ≡ terms (w₀.book.order_pool.store j)

  pub IsKept-refl : (o : ℕ) (w : Book E) → IsKept o w w
  IsKept-refl o w = record {
    prices = refl;
    asks = refl;
    bids = refl;
    size = refl;
    at_others = λ j ne. refl;
  }

  pub IsKept-trans : (o : ℕ) (u v w : Book E) → IsKept o u v → IsKept o v w → IsKept o u w
  IsKept-trans o u v w h k = record {
    prices = k.prices ∙ h.prices;
    asks = k.asks ∙ h.asks;
    bids = k.bids ∙ h.bids;
    size = k.size ∙ h.size;
    at_others = λ j ne. k.at_others j ne ∙ h.at_others j ne;
  }

  module _ (o : ℕ) (w₀ : Book E) where
    order-IsKept :
        (p : Ptr) (f : MeOrder → MeOrder)
        → ((b : ObjectBlock MeOrder) → terms (record b { object = f b.object }) ≡ terms b)
        → Keeps (IsKept o w₀) (write_order p f)
    unfolding write_order
    order-IsKept none f same = search keeps_rules
    order-IsKept (some i) f same = Keeps-modify _ λ w h. record {
      prices = h.prices;
      asks = h.asks;
      bids = h.bids;
      size = h.size;
      at_others = λ j ne. write-terms i f w.book.order_pool same j ∙ h.at_others j ne;
    }

    level-IsKept :
        (p : Ptr) (f : MeOrdersAtPrice → MeOrdersAtPrice) → Keeps (IsKept o w₀) (write_level p f)
    unfolding write_level
    level-IsKept none f = search keeps_rules
    level-IsKept (some i) f = Keeps-modify _ λ w h. record {
      prices = h.prices;
      asks = h.asks;
      bids = h.bids;
      size = h.size;
      at_others = h.at_others;
    }

    pub IsKept-Rings : Rings (IsKept o w₀)
    IsKept-Rings = record {
      at_prev = λ p q. order-IsKept p _ (λ b. refl);
      at_next = λ p q. order-IsKept p _ (λ b. refl);
      at_level = level-IsKept;
    }
