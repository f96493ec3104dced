-- ===== src/OrderBook/Priority.antt =====
-- `checkForMatch` of me_order_book.cpp for a buy order against the whole sell side: the best price first, and at a
-- price the oldest order first.
use trading_ecosystem.Prelude.{
  ℕ, zero, suc, ◌+◌, ◌%◌, ◌≤◌, ℤ, ◌≡◌, refl, sym, ◌∙◌, true, false, Bool-cases, inl, inr, none,
  List, [], ◌∷◌, ◌==◌, ltb_ℤ, ◌||◌, arith,
}
use trading_ecosystem.Run.{Run, Cmd, ok}
use trading_ecosystem.Run.Sequencing.{then_returns}
use trading_ecosystem.MemPool.Count.{used-le-size}
use trading_ecosystem.Types.{Side, qty_mod}
use trading_ecosystem.Message.{Outbound}
use trading_ecosystem.OrderBook.{Book, load_order, load_level}
use trading_ecosystem.OrderBook.Matching.{match_round, match_loop, check_for_match}
use trading_ecosystem.OrderBook.TimePriority.{HasQueue}
use trading_ecosystem.OrderBook.Used.{in_use}
use trading_ecosystem.OrderBook.Termination.{Enough, fewer_rounds}
use trading_ecosystem.OrderBook.Offers.{IsOffered}
use trading_ecosystem.OrderBook.Consuming.{loop-round, progress}
use trading_ecosystem.OrderBook.AskSide.{Rung, IsAskSide, view, sweep}
use trading_ecosystem.OrderBook.Sweeping.{rung_of}
use trading_ecosystem.OrderBook.Deals.{offered, deal}

module _ {E : Type 0} where
  -- The run returns what the sweep leaves of the order, and the sell side is what the sweep leaves of it.
  abbrev pub IsSwept : (limit : ℤ) → (leaves : ℕ) → List Rung → Book E → Run (Book E) ℕ → Type 0
  IsSwept limit leaves rs w r =
      (left : ℕ) × (after : Book E) × (rest : List Rung) × (r ≡ ok left after)
      × IsAskSide after rest
      × ((left, view after rest) ≡ sweep limit leaves (view w rs))

module _ {E : Type 0} (out : Outbound E) (client client_order ticker : ℕ) (limit : ℤ)
    (market_order : ℕ) where
  abbrev loop : (fuel leaves : ℕ) → Cmd (Book E) ℕ
  loop = match_loop out client client_order ticker Side.buy limit market_order

  first-stops :
      (leaves level : ℕ) (price : ℤ) (zs : List ℕ) (rs : List Rung) (w : Book E)
      → HasQueue w level zs
      → ((leaves == 0) || ltb_ℤ limit price) ≡ true
      → (leaves, view w (rung_of level price zs ∷ rs))
        ≡ sweep limit leaves (view w (rung_of level price zs ∷ rs))
  first-stops leaves level price [] rs w queue stop = absurd queue
  first-stops leaves level price (z ∷ zs) rs w queue stop = rw stop refl

  loop-done :
      (fuel leaves : ℕ) (w : Book E) → (leaves == 0) ≡ true → loop (suc fuel) leaves w ≡ ok leaves w
  unfolding match_loop
  loop-done fuel leaves w done = rw done refl

  loop-empty :
      (fuel leaves : ℕ) (w : Book E)
      → (leaves == 0) ≡ false
      → w.book.asks_at_price ≡ none
      → loop (suc fuel) leaves w ≡ ok leaves w
  unfolding match_loop match_round
  loop-empty fuel leaves w more empty = rw (more, empty) refl

  loop-broken :
      (fuel x leaves level : ℕ) (price : ℤ) (xs : List ℕ) (w : Book E)
      → IsOffered Side.buy price level (x ∷ xs) w
      → (leaves == 0) ≡ false
      → ltb_ℤ limit price ≡ true
      → loop (suc fuel) leaves w ≡ ok leaves w
  unfolding match_loop match_round load_level load_order
  loop-broken fuel x leaves level price xs w offers more broken =
      let at_price = (offers.offers x (ground arith)).at_price in
      rw (more, offers.best, offers.queue.0, at_price, broken) refl

  -- Rounds from a later state on.
  abbrev Further : (fuel : ℕ) → Type 0
  Further fuel =
      (n left : ℕ) (w : Book E) (rs : List Rung)
      → in_use w ≤ n
      → Enough out n left fuel
      → IsAskSide w rs
      → IsSwept limit left rs w (loop fuel left w)

  rung-IsSwept :
      (fuel n leaves level : ℕ) (price : ℤ) (zs : List ℕ) (rs : List Rung) (w : Book E)
      → in_use w ≤ n
      → Enough out n leaves (suc fuel)
      → IsAskSide w (rung_of level price zs ∷ rs)
      → (leaves == 0) ≡ false
      → Further fuel
      → IsSwept limit leaves (rung_of level price zs ∷ rs) w (loop (suc fuel) leaves w)
  rung-IsSwept fuel n leaves level price [] rs w used enough side more further =
      absurd side.standing.0.queue
  rung-IsSwept fuel n leaves level price (x ∷ xs) rs w used enough side more further =
      let offers = offered w level price (x ∷ xs) rs side in
      elim (Bool-cases (ltb_ℤ limit price)) [
        | inl broken ↦ (
          leaves,
          w,
          rung_of level price (x ∷ xs) ∷ rs,
          loop-broken fuel x leaves level price xs w offers more broken,
          side,
          first-stops leaves level price (x ∷ xs) rs w side.standing.0.queue
              (ground (arith, broken)),
        )
        | inr crosses ↦
            let (left, w', rs', runs, side', same) =
              deal out client client_order ticker limit market_order x leaves level price xs rs w
                side more crosses in
            let fewer =
              progress out client client_order ticker Side.buy market_order limit price level n
                leaves left x w w' used runs in
            let (left', after, rest, loops, side'', swept) =
              further (in_use w') left w' rs' (omega arith)
                (fewer_rounds out n leaves fuel left w' enough more fewer) side' in
            (
              left',
              after,
              rest,
              loop-round out client client_order ticker Side.buy market_order limit price level fuel
                    x leaves xs w offers crosses more
                  ∙ then_returns (loop fuel) runs loops,
              side'',
              swept ∙ sym same,
            )
      ]

  loop-IsSwept : (fuel : ℕ) → Further fuel
  loop-IsSwept zero n leaves w rs used enough side = absurd (omega arith)
  loop-IsSwept (suc fuel) n leaves w [] used enough side = elim (Bool-cases (leaves == 0)) [
    | inl done ↦ (leaves, w, [], loop-done fuel leaves w done, side, refl)
    | inr more ↦ (leaves, w, [], loop-empty fuel leaves w more side.rungs, side, refl)
  ]
  loop-IsSwept (suc fuel) n leaves w (r ∷ rs) used enough side = elim (Bool-cases (leaves == 0)) [
    | inl done ↦ (
      leaves,
      w,
      r ∷ rs,
      loop-done fuel leaves w done,
      side,
      first-stops leaves r.level r.price r.orders rs w side.standing.0.queue (ground (arith, done)),
    )
    | inr more ↦
        rung-IsSwept fuel n leaves r.level r.price r.orders rs w used enough side more
          (loop-IsSwept fuel)
  ]

module _ {E : Type 0} (out : Outbound E) where
  -- Let the levels of the sell side, from `asks_at_price_` on, be a ring of levels each once, in
  -- use, to each of which the entry of its price leads; let the orders of each, from
  -- `first_me_order_` on, be a ring of sell orders each once, in use, at the price of the level,
  -- with clients among the 256 and order ids below 1024 * 1024; and let no order be at two levels.
  -- Then `checkForMatch` of a buy order returns, the sell side is again so made up, and what it
  -- returns and the quantities that are left at each price are those of taking the quantity from
  -- the levels in their order while their price is within the limit, and at a level from the first
  -- order on: the orders and levels that are used up are gone, and the first order that is not
  -- keeps the rest.
  pub check_for_match-IsSwept :
      (client client_order ticker : ℕ) (limit : ℤ) (qty market_order : ℕ) (rs : List Rung)
      (w : Book E)
      → IsAskSide w rs
      → IsSwept limit qty rs w
          (check_for_match out client client_order ticker Side.buy limit qty market_order w)
  unfolding check_for_match
  check_for_match-IsSwept client client_order ticker limit qty market_order rs w side =
      loop-IsSwept out client client_order ticker limit (market_order % qty_mod)
        (w.book.order_pool.size + 2) w.book.order_pool.size qty w rs
        (used-le-size w.book.order_pool) (inl (omega arith)) side
