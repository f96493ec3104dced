-- ===== src/OrderBook/Sweeping.antt =====
-- `match` of me_order_book.cpp with the first order of the sell side, for a buy order.
use trading_ecosystem.Prelude.{
  ℕ, ◌-◌, min, ◌≤◌, ℤ, ◌≡◌, ◌≢◌, refl, sym, ap, ◌∙◌, true, Bool-cases, inl, inr, some, List, [],
  ◌∷◌, ◌++◌, ◌==◌, member, IsUnique, IsUnique-disjoint, arith,
}
use mathlib.Core.Path.{subst}
use trading_ecosystem.Run.{Cmd, ok}
use trading_ecosystem.Run.Sequencing.{then_returns}
use trading_ecosystem.Types.{Side}
use trading_ecosystem.Message.{Outbound}
use trading_ecosystem.OrderBook.{Book, price_to_index}
use trading_ecosystem.OrderBook.Messages.{gone_update}
use trading_ecosystem.OrderBook.Matching.{match_order}
use trading_ecosystem.OrderBook.Ring.{separate}
use trading_ecosystem.OrderBook.TimePriority.{order_at, HasQueue}
use trading_ecosystem.OrderBook.Untouched.{IsKept}
use trading_ecosystem.OrderBook.Aside.{IsSteady, IsAside, IsAside-trans, IsSteady-IsAside}
use trading_ecosystem.OrderBook.Rungs.{HasRungs}
use trading_ecosystem.OrderBook.Emptying.{remove_last_returns}
use trading_ecosystem.OrderBook.Offers.{
  IsOffer-dealt, IsOffer-kept, dealt, dealt-IsSteady, dealt-HasQueue,
}
use trading_ecosystem.OrderBook.Taking.{settle-whole, match_order-settles}
use trading_ecosystem.OrderBook.AskSide.{
  Rung, levels, all_orders, IsStanding, IsAskSide, HasRungs-steady, AllStanding-aside,
}

abbrev pub rung_of : ℕ → ℤ → List ℕ → Rung
rung_of level price zs = record { level = level; price = price; orders = zs }

module _ {E : Type 0} where
  side-dealt :
      (w : Book E) (x qty : ℕ) (e : E) (z : ℕ)
      → (order_at w z).side ≡ Side.sell
      → (order_at (dealt w x qty e) z).side ≡ Side.sell
  side-dealt w x qty e z sells = elim (Bool-cases (x == z)) [
    | inl h ↦
        let same : x ≡ z = ground arith in
        let was = subst (λ i. (order_at w i).side ≡ Side.sell) (sym same) sells in
        rw (h, order_at) was
    | inr h ↦ rw (h, order_at) sells
  ]

  -- A first level that stays, with other levels that do not notice.
  again :
      (level : ℕ) (price : ℤ) (zs ys : List ℕ) (rs : List Rung) (w w' : Book E)
      → IsAskSide w (rung_of level price zs ∷ rs)
      → IsSteady level zs w w'
      → IsStanding w' (rung_of level price ys)
      → IsUnique (ys ++ all_orders rs)
      → IsAskSide w' (rung_of level price ys ∷ rs)
  again level price zs ys rs w w' side steady stands unique = record {
    rungs = HasRungs-steady level zs w w' (level ∷ levels rs) steady side.rungs;
    standing = (
      stands,
      AllStanding-aside level zs w w' (IsSteady-IsAside level zs w w' steady) rs side.rungs.2.0
          (IsUnique-disjoint zs (all_orders rs) side.unique) side.standing.1,
    );
    unique = unique;
  }

  dealt-IsStanding :
      (w : Book E) (x qty : ℕ) (e : E) (level : ℕ) (price : ℤ) (zs : List ℕ)
      → IsStanding w (rung_of level price zs)
      → IsStanding (dealt w x qty e) (rung_of level price zs)
  dealt-IsStanding w x qty e level price zs s = record {
    inside = s.inside;
    in_use = s.in_use;
    entry = s.entry;
    queue = dealt-HasQueue level x qty e zs w s.queue;
    offers = λ z m. IsOffer-dealt price w x qty e z (s.offers z m);
    sells = λ z m. side-dealt w x qty e z (s.sells z m);
  }

  -- The first order keeps a part.
  pub part-IsAskSide :
      (w : Book E) (x qty : ℕ) (e : E) (level : ℕ) (price : ℤ) (xs : List ℕ) (rs : List Rung)
      → IsAskSide w (rung_of level price (x ∷ xs) ∷ rs)
      → IsAskSide (dealt w x qty e) (rung_of level price (x ∷ xs) ∷ rs)
  part-IsAskSide w x qty e level price xs rs side =
      again level price (x ∷ xs) (x ∷ xs) rs w (dealt w x qty e) side
        (dealt-IsSteady w x qty e level (x ∷ xs) (ground arith))
        (dealt-IsStanding w x qty e level price (x ∷ xs) side.standing.0) side.unique

  -- Some of the orders stay as they are, and are the orders of the level.
  pub IsStanding-kept :
      (o level : ℕ) (price : ℤ) (zs ys : List ℕ) (w w' : Book E)
      → IsStanding w (rung_of level price zs)
      → HasQueue w' level ys
      → IsKept o w w'
      → IsSteady level zs w w'
      → ((z : ℕ) → member z ys ≡ true → (member z zs ≡ true) × (z ≢ o))
      → IsStanding w' (rung_of level price ys)
  IsStanding-kept o level price zs ys w w' s queue kept steady among = record {
    inside = rw steady.level_size s.inside;
    in_use = ap (λ r. r.2) (steady.rungs level) ∙ s.in_use;
    entry = rw steady.prices s.entry;
    queue = queue;
    offers = λ z m.
        let (was, other) = among z m in IsOffer-kept price o z w w' kept other (s.offers z was);
    sells = λ z m.
        let (was, other) = among z m in ap (λ t. t.5) (kept.at_others z other) ∙ s.sells z was;
  }

  -- The first order goes, and others of its level stay.
  pub whole-IsAskSide :
      (w w' : Book E) (x level : ℕ) (price : ℤ) (xs : List ℕ) (rs : List Rung)
      → IsAskSide w (rung_of level price (x ∷ xs) ∷ rs)
      → HasQueue w' level xs
      → IsKept x w w'
      → IsSteady level (x ∷ xs) w w'
      → IsAskSide w' (rung_of level price xs ∷ rs)
  whole-IsAskSide w w' x level price xs rs side queue kept steady =
      let s = side.standing.0 in
      again level price (x ∷ xs) xs rs w w' side steady
        (IsStanding-kept x level price (x ∷ xs) xs w w' s queue kept steady
          (λ z m. (ground arith, separate z x xs m s.queue.2.0)))
        side.unique.1

  -- The only order of the first level goes.
  pub last-IsAskSide :
      (w w' : Book E) (x level : ℕ) (price : ℤ) (rs : List Rung)
      → IsAskSide w (rung_of level price (x ∷ []) ∷ rs)
      → HasRungs w' (levels rs)
      → IsAside level (x ∷ []) w w'
      → IsAskSide w' rs
  last-IsAskSide w w' x level price rs side rungs aside = record {
    rungs = rungs;
    standing =
        AllStanding-aside level (x ∷ []) w w' aside rs side.rungs.2.0
          (IsUnique-disjoint (x ∷ []) (all_orders rs) side.unique) side.standing.1;
    unique = side.unique.1;
  }

module _ {E : Type 0} (out : Outbound E) (client client_order ticker market_order : ℕ) where
  abbrev pub match_first : (x leaves : ℕ) → Cmd (Book E) ℕ
  match_first x leaves =
      match_order out ticker client Side.buy client_order market_order (some x) leaves

  pub match_order-last :
      (x leaves level : ℕ) (price : ℤ) (rs : List Rung) (w : Book E)
      → IsAskSide w (rung_of level price (x ∷ []) ∷ rs)
      → (order_at w x).qty ≤ leaves
      → (w' : Book E) × (match_first x leaves w ≡ ok (leaves - (order_at w x).qty) w')
        × HasRungs w' (levels rs)
        × IsAside level (x ∷ []) w w'
  match_order-last x leaves level price rs w side less =
      let o = order_at w x in
      let s = side.standing.0 in
      let fill_is : min leaves o.qty ≡ o.qty = ground arith in
      let (e, runs) =
        match_order-settles out client client_order ticker Side.buy market_order x leaves w in
      let kept_qty = o.qty - min leaves o.qty in
      let e₁ = out.send_market_update (gone_update ticker o) e in
      let w₁ = dealt w x kept_qty e₁ in
      let steady = dealt-IsSteady w x kept_qty e₁ level (x ∷ []) (ground arith) in
      let offer = IsOffer-dealt price w x kept_qty e₁ x (s.offers x (ground arith)) in
      let (w', removed, rungs, aside) =
        remove_last_returns x level (levels rs) w₁
          (HasRungs-steady level (x ∷ []) w w₁ (level ∷ levels rs) steady side.rungs)
          (ap (λ p. w.book.price_orders_at_price (price_to_index p)) offer.at_price ∙ s.entry)
          s.inside s.in_use (dealt-HasQueue level x kept_qty e₁ (x ∷ []) w s.queue).1.1
          (side-dealt w x kept_qty e₁ x (s.sells x (ground arith))) offer.inside offer.in_use
          offer.by_client offer.by_order in
      (
        w',
        runs
            ∙ then_returns _
                (settle-whole out ticker x (min leaves o.qty) o (dealt w x kept_qty e) (omega arith)
                  ∙ removed)
                refl
            ∙ ap (λ fill. ok (leaves - fill) w') fill_is,
        rungs,
        IsAside-trans level (x ∷ []) w w₁ w' steady aside,
      )
