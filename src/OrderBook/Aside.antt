-- ===== src/OrderBook/Aside.antt =====
-- What a change to one price level of me_order_book.h leaves of the other levels and of their orders.
use trading_ecosystem.Prelude.{
  ℕ, ◌≡◌, ◌≢◌, refl, sym, ap, ◌∙◌, Ptr, some, Bool, List, member, false,
}
use trading_ecosystem.MemPool.{ObjectBlock}
use trading_ecosystem.Order.{MeOrder, MeOrdersAtPrice}
use trading_ecosystem.OrderBook.{Book}

module _ {E : Type 0} where
  abbrev pub order_block : Book E → ℕ → ObjectBlock MeOrder
  order_block w z = w.book.order_pool.store z

  abbrev pub level_block : Book E → ℕ → ObjectBlock MeOrdersAtPrice
  level_block w m = w.book.orders_at_price_pool.store m

  -- The ring of levels, and whether a level is free.
  abbrev pub rung : Book E → ℕ → Ptr × Ptr × Bool
  rung w m = (
    (level_block w m).object.next_entry,
    (level_block w m).object.prev_entry,
    (level_block w m).is_free,
  )

  -- A change of the orders `zs` of a level that stays where it is.
  pub record IsSteady (level : ℕ) (zs : List ℕ) (w w' : Book E) : Type 0 where
    pub prices : w'.book.price_orders_at_price ≡ w.book.price_orders_at_price
    pub asks : w'.book.asks_at_price ≡ w.book.asks_at_price
    pub size : w'.book.order_pool.size ≡ w.book.order_pool.size
    pub level_size : w'.book.orders_at_price_pool.size ≡ w.book.orders_at_price_pool.size
    pub rungs : (m : ℕ) → rung w' m ≡ rung w m
    pub firsts :
        (m : ℕ)
        → m ≢ level
        → (level_block w' m).object.first_me_order ≡ (level_block w m).object.first_me_order
    pub blocks : (z : ℕ) → member z zs ≡ false → order_block w' z ≡ order_block w z

  -- A change of a level and of its orders `zs`, as the others see it.
  pub record IsAside (level : ℕ) (zs : List ℕ) (w w' : Book E) : Type 0 where
    pub entries :
        (i : ℕ)
        → w.book.price_orders_at_price i ≢ some level
        → w'.book.price_orders_at_price i ≡ w.book.price_orders_at_price i
    pub size : w'.book.order_pool.size ≡ w.book.order_pool.size
    pub level_size : w'.book.orders_at_price_pool.size ≡ w.book.orders_at_price_pool.size
    pub frees : (m : ℕ) → m ≢ level → (level_block w' m).is_free ≡ (level_block w m).is_free
    pub firsts :
        (m : ℕ)
        → m ≢ level
        → (level_block w' m).object.first_me_order ≡ (level_block w m).object.first_me_order
    pub blocks : (z : ℕ) → member z zs ≡ false → order_block w' z ≡ order_block w z

  pub IsSteady-IsAside :
      (level : ℕ) (zs : List ℕ) (w w' : Book E) → IsSteady level zs w w' → IsAside level zs w w'
  IsSteady-IsAside level zs w w' h = record {
    entries = λ i ne. ap (λ f. f i) h.prices;
    size = h.size;
    level_size = h.level_size;
    frees = λ m ne. ap (λ r. r.2) (h.rungs m);
    firsts = h.firsts;
    blocks = h.blocks;
  }

  pub IsSteady-refl : (level : ℕ) (zs : List ℕ) (w : Book E) → IsSteady level zs w w
  IsSteady-refl level zs w = record {
    prices = refl;
    asks = refl;
    size = refl;
    level_size = refl;
    rungs = λ m. refl;
    firsts = λ m ne. refl;
    blocks = λ z out. refl;
  }

  pub IsSteady-trans :
      (level : ℕ) (zs : List ℕ) (u v w : Book E)
      → IsSteady level zs u v
      → IsSteady level zs v w
      → IsSteady level zs u w
  IsSteady-trans level zs u v w h k = record {
    prices = k.prices ∙ h.prices;
    asks = k.asks ∙ h.asks;
    size = k.size ∙ h.size;
    level_size = k.level_size ∙ h.level_size;
    rungs = λ m. k.rungs m ∙ h.rungs m;
    firsts = λ m ne. k.firsts m ne ∙ h.firsts m ne;
    blocks = λ z out. k.blocks z out ∙ h.blocks z out;
  }

  pub IsAside-trans :
      (level : ℕ) (zs : List ℕ) (u v w : Book E)
      → IsSteady level zs u v
      → IsAside level zs v w
      → IsAside level zs u w
  IsAside-trans level zs u v w h k = record {
    entries =
        λ i ne. k.entries i (λ e. ne (sym (ap (λ f. f i) h.prices) ∙ e)) ∙ ap (λ f. f i) h.prices;
    size = k.size ∙ h.size;
    level_size = k.level_size ∙ h.level_size;
    frees = λ m ne. k.frees m ne ∙ ap (λ r. r.2) (h.rungs m);
    firsts = λ m ne. k.firsts m ne ∙ h.firsts m ne;
    blocks = λ z out. k.blocks z out ∙ h.blocks z out;
  }
