-- ===== src/OrderBook/Offers.antt =====
-- The orders of the best level of me_order_book.h as `checkForMatch` of me_order_book.cpp finds them, and what
-- an order that comes in is meant to leave of them: it takes from the first on, as much as it asks for.
use trading_ecosystem.Prelude.{
  ℕ, ◌+◌, ◌-◌, ◌<◌, ℤ, ◌≡◌, ◌≢◌, refl, sym, ap, ◌∙◌, true, false, Bool-cases, inl, inr, some, List,
  [], ◌∷◌, map, member, ltb, ◌==◌, if◌then◌else◌, update_other, arith,
}
use mathlib.Core.Path.{subst}
use trading_ecosystem.Run.{Run, ok}
use trading_ecosystem.Types.{Side, me_max_num_clients, me_max_order_ids}
use trading_ecosystem.OrderBook.{Book, price_to_index}
use trading_ecosystem.OrderBook.Matching.{other_best}
use trading_ecosystem.OrderBook.Ring.{separate, IsPath-same}
use trading_ecosystem.OrderBook.TimePriority.{order_at, nexts, prevs, HasQueue, with_link}
use trading_ecosystem.OrderBook.Aside.{IsSteady}
use trading_ecosystem.OrderBook.Untouched.{terms, IsKept}

-- What orders with these quantities, the oldest first, keep when `leaves` is taken from them.
abbrev pub remaining : (leaves : ℕ) → List (ℕ × ℕ) → List (ℕ × ℕ)
remaining leaves [] = []
remaining leaves ((z, qty) ∷ zs) =
    let rest = remaining (leaves - qty) zs in
    if leaves == 0 then (z, qty) ∷ zs else if ltb leaves qty then (z, qty - leaves) ∷ zs else rest

abbrev pub total : List (ℕ × ℕ) → ℕ
total [] = 0
total ((z, qty) ∷ zs) = qty + total zs

module _ {E : Type 0} where
  -- The orders with their quantities.
  abbrev pub amounts : Book E → List ℕ → List (ℕ × ℕ)
  amounts w = map (λ z. (z, (order_at w z).qty))

  -- A resting order at this price, with a client and an id of the table.
  pub record IsOffer (price : ℤ) (w : Book E) (z : ℕ) : Type 0 where
    pub inside : z < w.book.order_pool.size
    pub in_use : (w.book.order_pool.store z).is_free ≡ false
    pub by_client : (order_at w z).client_id < me_max_num_clients
    pub by_order : (order_at w z).client_order_id < me_max_order_ids
    pub at_price : (order_at w z).price ≡ price

  -- The best level on the other side is at this price, with these orders.
  pub record IsOffered (side : Side) (price : ℤ) (level : ℕ) (zs : List ℕ) (w : Book E)
      : Type 0 where
    pub best : other_best side w ≡ some level
    pub entry : w.book.price_orders_at_price (price_to_index price) ≡ some level
    pub queue : HasQueue w level zs
    pub offers : (z : ℕ) → member z zs ≡ true → IsOffer price w z

  -- What `checkForMatch` is meant to return, and to leave of the level, for an order of `qty`.
  abbrev pub IsConsumed :
      {A : Type 0}
      → Side
      → ℤ
      → (level qty : ℕ) (zs : List ℕ) (before : Book E) → A
      → Run (Book E) A
      → Type 0
  IsConsumed side price level qty zs before a r =
      (after : Book E) × (rest : List ℕ) × (r ≡ ok a after)
      × IsOffered side price level rest after
      × (amounts after rest ≡ remaining qty (amounts before zs))

  pub amounts-kept :
      (x : ℕ) (zs : List ℕ) (w w' : Book E)
      → IsKept x w w'
      → member x zs ≡ false
      → amounts w' zs ≡ amounts w zs
  amounts-kept x [] w w' kept out = refl
  amounts-kept x (z ∷ zs) w w' kept out =
      let same = kept.at_others z (separate z x (z ∷ zs) (ground arith) out) in
      ground (arith, ap (λ t. t.4) same, amounts-kept x zs w w' kept (ground arith))

  pub IsOffer-kept :
      (price : ℤ) (x z : ℕ) (w w' : Book E)
      → IsKept x w w'
      → z ≢ x
      → IsOffer price w z
      → IsOffer price w' z
  IsOffer-kept price x z w w' kept ne offer =
      let same = kept.at_others z ne in
      record {
        inside = rw kept.size offer.inside;
        in_use = ap (λ t. t.0) same ∙ offer.in_use;
        by_client = rw (ap (λ t. t.1) same) offer.by_client;
        by_order = rw (ap (λ t. t.2) same) offer.by_order;
        at_price = ap (λ t. t.3) same ∙ offer.at_price;
      }

  pub best-kept :
      (side : Side) (x : ℕ) (w w' : Book E) → IsKept x w w' → other_best side w' ≡ other_best side w
  best-kept side x w w' kept = rw (kept.asks, kept.bids) refl

  -- The book after an order has another quantity and messages were sent.
  abbrev pub dealt : Book E → (x qty : ℕ) → E → Book E
  dealt w x qty e = record (with_link w x (λ r. record r { qty = qty })) { engine = e }

  pub dealt-IsKept : (w : Book E) (x qty : ℕ) (e : E) → IsKept x w (dealt w x qty e)
  dealt-IsKept w x qty e = record {
    prices = refl;
    asks = refl;
    bids = refl;
    size = refl;
    at_others = λ j ne. ap terms (update_other w.book.order_pool.store x j _ ne);
  }

  pub dealt-IsSteady :
      (w : Book E) (x qty : ℕ) (e : E) (level : ℕ) (zs : List ℕ)
      → member x zs ≡ true
      → IsSteady level zs w (dealt w x qty e)
  dealt-IsSteady w x qty e level zs inside = record {
    prices = refl;
    asks = refl;
    size = refl;
    level_size = refl;
    rungs = λ m. refl;
    firsts = λ m ne. refl;
    blocks = λ z out.
        update_other w.book.order_pool.store x z _ (λ c. separate x z zs inside out (sym c));
  }

  pub dealt-HasQueue :
      (level x qty : ℕ) (e : E) (zs : List ℕ) (w : Book E)
      → HasQueue w level zs
      → HasQueue (dealt w x qty e) level zs
  dealt-HasQueue level x qty e [] w queue = queue
  dealt-HasQueue level x qty e (z ∷ zs) w (first, path, unique) = (
    first,
    IsPath-same (nexts w) (prevs w) (nexts (dealt w x qty e)) (prevs (dealt w x qty e)) z zs z
        (λ i. ground arith) (λ i. ground arith) path,
    unique,
  )

  pub IsOffer-dealt :
      (price : ℤ) (w : Book E) (x qty : ℕ) (e : E) (z : ℕ)
      → IsOffer price w z
      → IsOffer price (dealt w x qty e) z
  IsOffer-dealt price w x qty e z offer = elim (Bool-cases (x == z)) [
    | inl h ↦
        let same : x ≡ z = ground arith in
        let was = subst (IsOffer price w) (sym same) offer in
        record {
          inside = offer.inside;
          in_use = rw h was.in_use;
          by_client = rw (h, order_at) was.by_client;
          by_order = rw (h, order_at) was.by_order;
          at_price = rw (h, order_at) was.at_price;
        }
    | inr h ↦ record {
      inside = offer.inside;
      in_use = rw h offer.in_use;
      by_client = rw (h, order_at) offer.by_client;
      by_order = rw (h, order_at) offer.by_order;
      at_price = rw (h, order_at) offer.at_price;
    }
  ]
