-- ===== src/OrderBook/Trades.antt =====
-- What `checkForMatch` of me_order_book.cpp trades, against the quantity and the limit price of the order.
use trading_ecosystem.Prelude.{
  leb_ℤ, ℕ, zero, suc, ◌+◌, ◌-◌, ◌%◌, min, ◌≡◌, refl, ap, ℤ, ◌||◌, Ptr, none, some, Bool, true,
  false, List, [], ◌∷◌, arith, ◌==◌, if◌then◌else◌, Bool-cases, inl, inr,
}
use trading_ecosystem.Run.{Cmd, pure, ◌>>=◌}
use trading_ecosystem.Run.Ensures
use trading_ecosystem.Run.Ensures.{Ensures, returns, ends, mono, branch_cmd, Keeps}
use trading_ecosystem.Types.{Side, is_buy, is_sell, qty_mod}
use trading_ecosystem.Order.{MeOrder}
use trading_ecosystem.Message.{
  MeMarketUpdateType, MeMarketUpdate, Event, response, update, recorder,
}
use trading_ecosystem.OrderBook.{
  Book, load_order, load_level, write_order, send_response, send_update,
}
use trading_ecosystem.OrderBook.Stable.{Keeps-remove_order}
use trading_ecosystem.OrderBook.Engine.{engine-Stable}
use trading_ecosystem.OrderBook.Messages.{trade_update, gone_update, reduced_update}
use trading_ecosystem.OrderBook.Matching.{
  settle, match_order, breaks_off, match_round, match_loop, check_for_match,
}

abbrev pub is_trade : MeMarketUpdateType → Bool
is_trade MeMarketUpdateType.trade = true
is_trade _ = false

-- The quantity that the recorded trades add up to.
pub traded : List Event → ℕ
traded [] = 0
traded (response r ∷ es) = traded es
traded (update u ∷ es) = (if is_trade u.type then u.qty else 0) + traded es

-- A price that the limit allows, for the two sides that trade.
abbrev pub is_allowed : Side → (limit price : ℤ) → Bool
is_allowed Side.buy limit price = leb_ℤ price limit
is_allowed Side.sell limit price = leb_ℤ limit price
is_allowed _ limit price = false

breaks_off-is_allowed :
    (side : Side) (limit price : ℤ)
    → (is_buy side || is_sell side) ≡ true
    → breaks_off side limit price ≡ false
    → is_allowed side limit price ≡ true
breaks_off-is_allowed Side.buy limit price h k = ground arith
breaks_off-is_allowed Side.sell limit price h k = ground arith
breaks_off-is_allowed Side.invalid limit price h k = cc h
breaks_off-is_allowed (Side.unnamed b) limit price h k = cc h

-- Every recorded trade keeps to the limit: a buyer pays no more than `price`, a seller gets no less.
abbrev pub WithinLimit : Side → ℤ → List Event → Type 0
WithinLimit side price [] = Unit {0}
WithinLimit side price (response r ∷ es) = WithinLimit side price es
WithinLimit side price (update u ∷ es) =
    (is_trade u.type ≡ true → is_allowed side price u.price ≡ true) × WithinLimit side price es

module _ (side : Side) (price : ℤ) where
  -- From the events `before` with `leaves` to match, to the events `es` with `left` to match.
  abbrev pub Fair : List Event → (leaves left : ℕ) → List Event → Type 0
  Fair before leaves left es =
      (traded es + left ≡ traded before + leaves)
      × (WithinLimit side price before → WithinLimit side price es)

  Fair-trans : (a b c : List Event) (x y z : ℕ) → Fair a x y b → Fair b y z c → Fair a x z c
  Fair-trans a b c x y z f g = (omega arith, λ h. g.1 (f.1 h))

  -- A trade, and an update that is none.
  Fair-deal :
      (before : List Event) (leaves ticker : ℕ) (o : MeOrder) (u : MeMarketUpdate)
      → is_trade u.type ≡ false
      → is_allowed side price o.price ≡ true
      → Fair before leaves
          (leaves - min leaves o.qty)
          (update u ∷ update (trade_update ticker side o (min leaves o.qty)) ∷ before)
  unfolding traded
  Fair-deal before leaves ticker o u other fair =
      (rw other (omega arith), λ h. (λ t. cc, (λ t. fair, h)))

  settle-Fair :
      (before : List Event) (leaves ticker : ℕ) (o : MeOrder) (itr : Ptr) (w : Book (List Event))
      → is_allowed side price o.price ≡ true
      → w.engine ≡ update (trade_update ticker side o (min leaves o.qty)) ∷ before
      → Ensures
          (λ _ w'. Fair before leaves (leaves - min leaves o.qty) w'.engine)
          (settle recorder ticker o itr (min leaves o.qty) w)
  unfolding settle send_update
  settle-Fair before leaves ticker o itr w fair e =
      elim (Bool-cases (o.qty - min leaves o.qty == 0)) [
        | inl gone ↦ rw gone (
            mono
              ((Keeps-remove_order (engine-Stable _) itr).at _
                (ap (λ es. update (gone_update ticker o) ∷ es) e))
              (λ _ w' same.
                rw same (Fair-deal before leaves ticker o (gone_update ticker o) refl fair)))
        | inr rest ↦
            rw (rest, e)
              (returns (
                Fair-deal before leaves ticker o (reduced_update ticker o (min leaves o.qty)) refl
                  fair))
      ]

  match_order-Fair :
      (ticker client client_order market_order i leaves : ℕ) (w : Book (List Event))
      → is_allowed side price (w.book.order_pool.store i).object.price ≡ true
      → Ensures
          (λ left w'. Fair w.engine leaves left w'.engine)
          (match_order recorder ticker client side client_order market_order (some i) leaves w)
  unfolding match_order load_order write_order send_response send_update traded
  match_order-Fair ticker client client_order market_order i leaves w fair =
      Ensures.bind
        (settle-Fair _ leaves ticker (w.book.order_pool.store i).object (some i) _ fair refl)
        λ _ w' f. returns f

  module _ (known : (is_buy side || is_sell side) ≡ true)
      (client client_order ticker market_order : ℕ) where
    -- The round after the level is read; `itr` is its first order.
    deal-Fair :
        (leaves : ℕ) (rest : ℕ → Cmd (Book (List Event)) ℕ) (itr : Ptr) (w : Book (List Event))
        → ((left : ℕ) (w' : Book (List Event))
            → Ensures (λ left' w''. Fair w'.engine left left' w''.engine) (rest left w'))
        → Ensures
            (λ left w'. Fair w.engine leaves left w'.engine)
            ((do
              o ← load_order itr
              let deal =
                  match_order recorder ticker client side client_order market_order itr leaves
                  >>= rest
              if breaks_off side price o.price then pure leaves else deal)
              w)
    unfolding load_order
    deal-Fair leaves rest none w next = ends
    deal-Fair leaves rest (some i) w next =
        branch_cmd (breaks_off side price (w.book.order_pool.store i).object.price) _ _
          (λ stop. returns (refl, λ h. h))
          (λ go.
            Ensures.bind
              (match_order-Fair ticker client client_order market_order i leaves w
                (breaks_off-is_allowed side price _ known go))
              λ left w' f.
                mono (next left w') (λ left' w'' g. Fair-trans _ _ _ leaves left left' f g))

    match_round-Fair :
        (leaves : ℕ) (rest : ℕ → Cmd (Book (List Event)) ℕ) (best : Ptr) (w : Book (List Event))
        → ((left : ℕ) (w' : Book (List Event))
            → Ensures (λ left' w''. Fair w'.engine left left' w''.engine) (rest left w'))
        → Ensures
            (λ left w'. Fair w.engine leaves left w'.engine)
            (match_round recorder client client_order ticker side price market_order leaves rest
              best w)
    unfolding match_round load_level
    match_round-Fair leaves rest none w next = returns (refl, λ h. h)
    match_round-Fair leaves rest (some b) w next =
        deal-Fair leaves rest (w.book.orders_at_price_pool.store b).object.first_me_order w next

    match_loop-Fair :
        (fuel leaves : ℕ) (w : Book (List Event))
        → Ensures
            (λ left w'. Fair w.engine leaves left w'.engine)
            (match_loop recorder client client_order ticker side price market_order fuel leaves w)
    unfolding match_loop
    match_loop-Fair zero leaves w = ends
    match_loop-Fair (suc fuel) leaves w =
        branch_cmd (leaves == 0) _ _ (λ done. returns (refl, λ h. h))
          (λ more. match_round-Fair leaves _ _ w (match_loop-Fair fuel))

  -- If `checkForMatch` returns, what it has traded and what it leaves add up to the quantity of the
  -- order; and if every trade recorded before keeps to the limit price of the order, so does every
  -- trade recorded after: its price is at most the limit for a buy order, and at least the limit
  -- for a sell order, and there is none for an order of neither side.
  pub check_for_match-Fair :
      (client client_order ticker qty market_order : ℕ) (w : Book (List Event))
      → Ensures
          (λ left w'. Fair w.engine qty left w'.engine)
          (check_for_match recorder client client_order ticker side price qty market_order w)
  unfolding check_for_match
  check_for_match-Fair client client_order ticker qty market_order w =
      branch_cmd (is_buy side || is_sell side) _ _
        (λ known.
          match_loop-Fair known client client_order ticker (market_order % qty_mod)
            (w.book.order_pool.size + 2) qty w)
        (λ unknown. returns (refl, λ h. h))
