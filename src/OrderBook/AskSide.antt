-- ===== src/OrderBook/AskSide.antt =====
-- The sell side of me_order_book.h as a list of price levels, the best first, each with its orders, the oldest first.
use trading_ecosystem.Prelude.{
  ℕ, ◌<◌, ◌-◌, ◌==◌, ◌||◌, ltb, ltb_ℤ, if◌then◌else◌, ℤ, ◌≡◌, ◌≢◌, refl, sym, ap, ◌∙◌, true, false,
  some, List, [], ◌∷◌, ◌++◌, map, member, member-append, IsUnique, arith,
}
use mathlib.Core.Option
use trading_ecosystem.Types.{Side}
use trading_ecosystem.OrderBook.{Book, price_to_index}
use trading_ecosystem.OrderBook.Ring.{IsPath-same, IsPath-within}
use trading_ecosystem.OrderBook.TimePriority.{order_at, nexts, prevs, HasQueue}
use trading_ecosystem.OrderBook.Aside.{IsSteady, IsAside, level_block}
use trading_ecosystem.OrderBook.Rungs.{next_rungs, prev_rungs, HasRungs}
use trading_ecosystem.OrderBook.Offers.{IsOffer, amounts}

-- A price level: its block, its price and its orders.
pub record Rung : Type 0 where
  pub level : ℕ
  pub price : ℤ
  pub orders : List ℕ

abbrev pub levels : List Rung → List ℕ
levels = map (λ r. r.level)

abbrev pub all_orders : List Rung → List ℕ
all_orders [] = []
all_orders (r ∷ rs) = r.orders ++ all_orders rs

module _ {E : Type 0} where
  -- A level in use that the entry of its price leads to, with the orders of the rung: sell orders at that price.
  pub record IsStanding (w : Book E) (r : Rung) : Type 0 where
    pub inside : r.level < w.book.orders_at_price_pool.size
    pub in_use : (level_block w r.level).is_free ≡ false
    pub entry : w.book.price_orders_at_price (price_to_index r.price) ≡ some r.level
    pub queue : HasQueue w r.level r.orders
    pub offers : (z : ℕ) → member z r.orders ≡ true → IsOffer r.price w z
    pub sells : (z : ℕ) → member z r.orders ≡ true → (order_at w z).side ≡ Side.sell

  abbrev pub AllStanding : Book E → List Rung → Type 0
  AllStanding w [] = Unit {0}
  AllStanding w (r ∷ rs) = IsStanding w r × AllStanding w rs

  -- The levels of the sell side are the rungs, and no order is in two of them.
  pub record IsAskSide (w : Book E) (rs : List Rung) : Type 0 where
    pub rungs : HasRungs w (levels rs)
    pub standing : AllStanding w rs
    pub unique : IsUnique (all_orders rs)

  -- The prices, with the quantities of the orders.
  abbrev pub view : Book E → List Rung → List (ℤ × List (ℕ × ℕ))
  view w = map (λ r. (r.price, amounts w r.orders))

  pub HasRungs-steady :
      (level : ℕ) (zs : List ℕ) (w w' : Book E) (ms : List ℕ)
      → IsSteady level zs w w'
      → HasRungs w ms
      → HasRungs w' ms
  HasRungs-steady level zs w w' [] h rungs = h.asks ∙ rungs
  HasRungs-steady level zs w w' (m ∷ ms) h (best, path, unique) = (
    h.asks ∙ best,
    IsPath-same (next_rungs w) (prev_rungs w) (next_rungs w') (prev_rungs w') m ms m
        (λ i. ap (λ r. r.0) (h.rungs i)) (λ i. ap (λ r. r.1) (h.rungs i)) path,
    unique,
  )

  module _ (level : ℕ) (zs : List ℕ) (w w' : Book E) (h : IsAside level zs w w') where
    HasQueue-aside :
        (m : ℕ) (ys : List ℕ)
        → m ≢ level
        → ((z : ℕ) → member z ys ≡ true → member z zs ≡ false)
        → HasQueue w m ys
        → HasQueue w' m ys
    HasQueue-aside m [] ne apart queue = queue
    HasQueue-aside m (y ∷ ys) ne apart (first, path, unique) = (
      h.firsts m ne ∙ first,
      IsPath-within (nexts w) (prevs w) (nexts w') (prevs w') y ys y
          (λ i k. ap (λ b. b.object.next_order) (h.blocks i (apart i k)))
          (λ i k. ap (λ b. b.object.prev_order) (h.blocks i (apart i (ground arith))))
          (ap (λ b. b.object.prev_order) (h.blocks y (apart y (ground arith)))) path,
      unique,
    )

    IsOffer-aside :
        (price : ℤ) (z : ℕ) → member z zs ≡ false → IsOffer price w z → IsOffer price w' z
    IsOffer-aside price z out offer =
        let same = h.blocks z out in
        record {
          inside = rw h.size offer.inside;
          in_use = ap (λ b. b.is_free) same ∙ offer.in_use;
          by_client = rw (ap (λ b. b.object.client_id) same) offer.by_client;
          by_order = rw (ap (λ b. b.object.client_order_id) same) offer.by_order;
          at_price = ap (λ b. b.object.price) same ∙ offer.at_price;
        }

    pub IsStanding-aside :
        (r : Rung)
        → r.level ≢ level
        → ((z : ℕ) → member z r.orders ≡ true → member z zs ≡ false)
        → IsStanding w r
        → IsStanding w' r
    IsStanding-aside r ne apart s = record {
      inside = rw h.level_size s.inside;
      in_use = h.frees r.level ne ∙ s.in_use;
      entry =
          h.entries (price_to_index r.price)
            (λ e. ne (Option.some-injective r.level level (sym s.entry ∙ e)))
          ∙ s.entry;
      queue = HasQueue-aside r.level r.orders ne apart s.queue;
      offers = λ z m. IsOffer-aside r.price z (apart z m) (s.offers z m);
      sells = λ z m. ap (λ b. b.object.side) (h.blocks z (apart z m)) ∙ s.sells z m;
    }

    -- The rungs that a change leaves aside stand as they did, and look as they did.
    pub AllStanding-aside :
        (rs : List Rung)
        → member level (levels rs) ≡ false
        → ((z : ℕ) → member z (all_orders rs) ≡ true → member z zs ≡ false)
        → AllStanding w rs
        → AllStanding w' rs
    AllStanding-aside [] ne apart s = tt
    AllStanding-aside (r ∷ rs) ne apart s = (
      IsStanding-aside r (ground arith)
          (λ z m. apart z (ground (arith, member-append z r.orders (all_orders rs)))) s.0,
      AllStanding-aside rs (ground arith)
          (λ z m. apart z (ground (arith, member-append z r.orders (all_orders rs)))) s.1,
    )

    amounts-aside :
        (ys : List ℕ)
        → ((z : ℕ) → member z ys ≡ true → member z zs ≡ false)
        → amounts w' ys ≡ amounts w ys
    amounts-aside [] apart = refl
    amounts-aside (y ∷ ys) apart =
        let same = ap (λ b. b.object.qty) (h.blocks y (apart y (ground arith))) in
        let others = amounts-aside ys (λ z m. apart z (ground arith)) in rw (same, others) refl

    pub view-aside :
        (rs : List Rung)
        → ((z : ℕ) → member z (all_orders rs) ≡ true → member z zs ≡ false)
        → view w' rs ≡ view w rs
    view-aside [] apart = refl
    view-aside (r ∷ rs) apart =
        let first =
          amounts-aside r.orders
            (λ z m. apart z (ground (arith, member-append z r.orders (all_orders rs)))) in
        let others =
          view-aside rs
            (λ z m. apart z (ground (arith, member-append z r.orders (all_orders rs)))) in
        rw (first, others) refl

abbrev pub Levels : Type 0
Levels = List (ℤ × List (ℕ × ℕ))

-- Taking `leaves` from the orders of one price, the first one first, as long as the price is within the limit; `next`
-- takes what is left from the further levels.
abbrev pub take_from :
    (limit price : ℤ)
    → (leaves : ℕ) → List (ℕ × ℕ)
    → (further : Levels) → (next : ℕ → ℕ × Levels) → ℕ × Levels
take_from limit price leaves [] further next = next leaves
take_from limit price leaves ((z, qty) ∷ zs) further next =
    let rest = take_from limit price (leaves - qty) zs further next in
    if (leaves == 0) || ltb_ℤ limit price
    then (leaves, (price, (z, qty) ∷ zs) ∷ further)
    else if ltb leaves qty
    then (0, (price, (z, qty - leaves) ∷ zs) ∷ further)
    else rest

-- What a buy order of `leaves` with this limit leaves of itself and of the sell side.
abbrev pub sweep : (limit : ℤ) → (leaves : ℕ) → Levels → ℕ × Levels
sweep limit leaves [] = (leaves, [])
sweep limit leaves ((price, zs) ∷ further) =
    take_from limit price leaves zs further (λ left. sweep limit left further)
