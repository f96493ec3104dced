-- ===== src/OrderBook/Deals.antt =====
-- One deal of `checkForMatch` of me_order_book.cpp with the first order of the sell side, against what is meant to be left.
use trading_ecosystem.Prelude.{
  ℕ, ◌-◌, ℤ, ◌≡◌, refl, sym, ap, ◌∙◌, true, false, Bool-cases, inl, inr, List, [], ◌∷◌, ◌==◌, ltb,
  ltb_ℤ, IsUnique-disjoint, arith,
}
use trading_ecosystem.Run.{ok}
use trading_ecosystem.Types.{Side}
use trading_ecosystem.Message.{Outbound}
use trading_ecosystem.OrderBook.{Book}
use trading_ecosystem.OrderBook.TimePriority.{order_at}
use trading_ecosystem.OrderBook.Aside.{IsAside, IsSteady-IsAside}
use trading_ecosystem.OrderBook.Offers.{
  amounts, IsOffered, amounts-kept, dealt, dealt-IsKept, dealt-IsSteady,
}
use trading_ecosystem.OrderBook.Taking.{match_order-part, match_order-whole}
use trading_ecosystem.OrderBook.AskSide.{
  Rung, Levels, all_orders, IsAskSide, view, view-aside, sweep,
}
use trading_ecosystem.OrderBook.Sweeping.{
  rung_of, part-IsAskSide, whole-IsAskSide, last-IsAskSide, match_first, match_order-last,
}

-- A first order that is used up takes no part in the rest of the sweep.
sweep-whole :
    (limit : ℤ) (leaves : ℕ) (price : ℤ) (x qty : ℕ) (zs zs' : List (ℕ × ℕ))
    (further further' : Levels)
    → (leaves == 0) ≡ false
    → ltb_ℤ limit price ≡ false
    → ltb leaves qty ≡ false
    → zs' ≡ zs
    → further' ≡ further
    → sweep limit leaves ((price, (x, qty) ∷ zs) ∷ further)
      ≡ sweep limit (leaves - qty) ((price, zs') ∷ further')
sweep-whole limit leaves price x qty zs zs' further further' more crosses whole e f =
    let rest = sweep limit (leaves - qty) ((price, zs) ∷ further) in
    let step : sweep limit leaves ((price, (x, qty) ∷ zs) ∷ further) ≡ rest =
      rw (more, crosses, whole) refl in
    step
    ∙ ap (λ o. sweep limit (leaves - qty) ((price, o) ∷ further)) (sym e)
    ∙ ap (λ l. sweep limit (leaves - qty) ((price, zs') ∷ l)) (sym f)

module _ {E : Type 0} where
  pub offered :
      (w : Book E) (level : ℕ) (price : ℤ) (zs : List ℕ) (rs : List Rung)
      → IsAskSide w (rung_of level price zs ∷ rs)
      → IsOffered Side.buy price level zs w
  offered w level price zs rs side = record {
    best = side.rungs.0;
    entry = side.standing.0.entry;
    queue = side.standing.0.queue;
    offers = side.standing.0.offers;
  }

  -- The further levels look as they did.
  pub further-steady :
      (level : ℕ) (price : ℤ) (zs : List ℕ) (rs : List Rung) (w w' : Book E)
      → IsAskSide w (rung_of level price zs ∷ rs)
      → IsAside level zs w w'
      → view w' rs ≡ view w rs
  further-steady level price zs rs w w' side aside =
      view-aside level zs w w' aside rs (IsUnique-disjoint zs (all_orders rs) side.unique)

module _ {E : Type 0} (out : Outbound E) (client client_order ticker : ℕ) (limit : ℤ)
    (market_order : ℕ) where
  -- One deal takes the first order; the rest of the sweep is that from there on.
  abbrev IsDeal : (x leaves : ℕ) → List Rung → Book E → Type 0
  IsDeal x leaves rs w =
      (left : ℕ) × (after : Book E) × (rest : List Rung) × (match_first out client client_order
          ticker market_order x leaves w
        ≡ ok left after)
      × IsAskSide after rest
      × (sweep limit leaves (view w rs) ≡ sweep limit left (view after rest))

  deal-part :
      (x leaves level : ℕ) (price : ℤ) (xs : List ℕ) (rs : List Rung) (w : Book E)
      → IsAskSide w (rung_of level price (x ∷ xs) ∷ rs)
      → (leaves == 0) ≡ false
      → ltb_ℤ limit price ≡ false
      → ltb leaves (order_at w x).qty ≡ true
      → IsDeal x leaves (rung_of level price (x ∷ xs) ∷ rs) w
  deal-part x leaves level price xs rs w side more crosses part =
      let kept = (order_at w x).qty - leaves in
      let (e, runs) =
        match_order-part out client client_order ticker Side.buy market_order x leaves w
          (ground arith) in
      let w' = dealt w x kept e in
      let first : (order_at w' x).qty ≡ kept = ground arith in
      let others = amounts-kept x xs w w' (dealt-IsKept w x kept e) side.standing.0.queue.2.0 in
      let further = further-steady level price (x ∷ xs) rs w w' side (
        IsSteady-IsAside level (x ∷ xs) w w'
          (dealt-IsSteady w x kept e level (x ∷ xs) (ground arith))) in
      (
        0,
        w',
        rung_of level price (x ∷ xs) ∷ rs,
        runs,
        part-IsAskSide w x kept e level price xs rs side,
        rw (more, crosses, part, others, further, first) refl,
      )

  deal-whole :
      (x leaves level : ℕ) (price : ℤ) (xs : List ℕ) (rs : List Rung) (w : Book E)
      → IsAskSide w (rung_of level price (x ∷ xs) ∷ rs)
      → (leaves == 0) ≡ false
      → ltb_ℤ limit price ≡ false
      → ltb leaves (order_at w x).qty ≡ false
      → IsDeal x leaves (rung_of level price (x ∷ xs) ∷ rs) w
  deal-whole x leaves level price [] rs w side more crosses whole =
      let (w', runs, rungs, aside) =
        match_order-last out client client_order ticker market_order x leaves level price rs w side
          (ground arith) in
      let further = further-steady level price (x ∷ []) rs w w' side aside in
      (
        leaves - (order_at w x).qty,
        w',
        rs,
        runs,
        last-IsAskSide w w' x level price rs side rungs aside,
        rw (more, crosses, whole, further) refl,
      )
  deal-whole x leaves level price (y ∷ ys) rs w side more crosses whole =
      let xs = y ∷ ys in
      let (w', runs, queue, kept, steady) =
        match_order-whole out client client_order ticker Side.buy market_order price level x leaves
          xs w (offered w level price (x ∷ xs) rs side) (λ nil. ground arith) (ground arith) in
      let others = amounts-kept x xs w w' kept side.standing.0.queue.2.0 in
      let further =
        further-steady level price (x ∷ xs) rs w w' side
          (IsSteady-IsAside level (x ∷ xs) w w' steady) in
      (
        leaves - (order_at w x).qty,
        w',
        rung_of level price xs ∷ rs,
        runs,
        whole-IsAskSide w w' x level price xs rs side queue kept steady,
        sweep-whole limit leaves price x (order_at w x).qty (amounts w xs) (amounts w' xs)
            (view w rs) (view w' rs) more crosses whole others further,
      )

  pub deal :
      (x leaves level : ℕ) (price : ℤ) (xs : List ℕ) (rs : List Rung) (w : Book E)
      → IsAskSide w (rung_of level price (x ∷ xs) ∷ rs)
      → (leaves == 0) ≡ false
      → ltb_ℤ limit price ≡ false
      → IsDeal x leaves (rung_of level price (x ∷ xs) ∷ rs) w
  deal x leaves level price xs rs w side more crosses =
      elim (Bool-cases (ltb leaves (order_at w x).qty)) [
        | inl part ↦ deal-part x leaves level price xs rs w side more crosses part
        | inr whole ↦ deal-whole x leaves level price xs rs w side more crosses whole
      ]
