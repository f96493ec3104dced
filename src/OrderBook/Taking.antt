-- ===== src/OrderBook/Taking.antt =====
-- `match` of me_order_book.cpp with the first order of a level that has several.
use trading_ecosystem.Prelude.{
  ℕ, ◌-◌, min, ◌<◌, ◌≤◌, ℤ, ◌≡◌, ◌≢◌, refl, ap, ◌∙◌, true, false, some, List, [], ◌∷◌, ◌==◌, arith,
}
use trading_ecosystem.Run.{ok, pure, and_then}
use trading_ecosystem.Run.Sequencing.{then_returns}
use trading_ecosystem.Types.{Side}
use trading_ecosystem.Order.{MeOrder}
use trading_ecosystem.Message.{Outbound}
use trading_ecosystem.OrderBook.{
  Book, price_to_index, load_order, write_order, send_response, send_update,
}
use trading_ecosystem.OrderBook.Messages.{gone_update, reduced_update}
use trading_ecosystem.OrderBook.Resting.{remove_order}
use trading_ecosystem.OrderBook.Matching.{settle, match_order}
use trading_ecosystem.OrderBook.TimePriority.{order_at, HasQueue}
use trading_ecosystem.OrderBook.Aside.{IsSteady, IsSteady-trans}
use trading_ecosystem.OrderBook.Untouched.{IsKept, IsKept-trans}
use trading_ecosystem.OrderBook.Removing.{remove_order_returns}
use trading_ecosystem.OrderBook.Offers.{
  IsOffered, IsOffer-dealt, dealt, dealt-IsKept, dealt-IsSteady, dealt-HasQueue,
}

module _ {E : Type 0} (out : Outbound E) where
  settle-part :
      (ticker x fill : ℕ) (o : MeOrder) (w : Book E)
      → fill < o.qty
      → settle out ticker o (some x) fill w
        ≡ ok tt
            (record w { engine = out.send_market_update (reduced_update ticker o fill) w.engine })
  unfolding settle send_update
  settle-part ticker x fill o w less =
      let more : (o.qty - fill == 0) ≡ false = ground arith in rw more refl

  pub settle-whole :
      (ticker x fill : ℕ) (o : MeOrder) (w : Book E)
      → o.qty ≤ fill
      → settle out ticker o (some x) fill w
        ≡ remove_order
            (some x)
            (record w { engine = out.send_market_update (gone_update ticker o) w.engine })
  unfolding settle send_update
  settle-whole ticker x fill o w less =
      let done : (o.qty - fill == 0) ≡ true = ground arith in rw done refl

  module _ (client client_order ticker : ℕ) (side : Side) (market_order : ℕ) where
    -- `match` up to its last test.
    pub match_order-settles :
        (x leaves : ℕ) (w : Book E)
        → let o = order_at w x in
          let fill = min leaves o.qty in
          (e : E) × (match_order out ticker client side client_order market_order (some x) leaves w
            ≡ and_then
                (settle out ticker o (some x) fill (dealt w x (o.qty - fill) e))
                (λ _. pure (leaves - fill)))
    unfolding match_order load_order write_order send_response send_update
    match_order-settles x leaves w = (_, refl)

    pub match_order-part :
        (x leaves : ℕ) (w : Book E)
        → leaves < (order_at w x).qty
        → (e : E) × (match_order out ticker client side client_order market_order (some x) leaves w
            ≡ ok 0 (dealt w x ((order_at w x).qty - leaves) e))
    match_order-part x leaves w less =
        let o = order_at w x in
        let fill_is : min leaves o.qty ≡ leaves = ground arith in
        let (e, runs) = match_order-settles x leaves w in
        let w₁ = dealt w x (o.qty - min leaves o.qty) e in
        let e₁ = out.send_market_update (reduced_update ticker o (min leaves o.qty)) e in
        (
          e₁,
          runs
              ∙ then_returns _ (settle-part ticker x (min leaves o.qty) o w₁ (omega arith)) refl
              ∙ ap (λ fill. ok (leaves - fill) (dealt w x (o.qty - fill) e₁)) fill_is
              ∙ ap (λ left. ok left (dealt w x (o.qty - leaves) e₁)) (omega arith),
        )

    -- The first of several orders is used up.
    pub match_order-whole :
        (price : ℤ) (level x leaves : ℕ) (xs : List ℕ) (w : Book E)
        → IsOffered side price level (x ∷ xs) w
        → xs ≢ []
        → (order_at w x).qty ≤ leaves
        → (w' : Book E) × (match_order out ticker client side client_order market_order
              (some x)
              leaves
              w
            ≡ ok (leaves - (order_at w x).qty) w')
          × HasQueue w' level xs
          × IsKept x w w'
          × IsSteady level (x ∷ xs) w w'
    match_order-whole price level x leaves xs w offered some_left less =
        let o = order_at w x in
        let fill_is : min leaves o.qty ≡ o.qty = ground arith in
        let (e, runs) = match_order-settles x leaves w in
        let kept_qty = o.qty - min leaves o.qty in
        let e₁ = out.send_market_update (gone_update ticker o) e in
        let w₁ = dealt w x kept_qty e₁ in
        let offer = IsOffer-dealt price w x kept_qty e₁ x (offered.offers x (ground arith)) in
        let (w', removed, gone) =
          remove_order_returns x level [] xs w₁
            (ap (λ p. w.book.price_orders_at_price (price_to_index p)) offer.at_price
              ∙ offered.entry)
            (dealt-HasQueue level x kept_qty e₁ (x ∷ xs) w offered.queue) some_left offer.inside
            offer.in_use offer.by_client offer.by_order in
        (
          w',
          runs
              ∙ then_returns _
                  (settle-whole ticker x (min leaves o.qty) o (dealt w x kept_qty e) (omega arith)
                    ∙ removed)
                  refl
              ∙ ap (λ fill. ok (leaves - fill) w') fill_is,
          gone.0,
          IsKept-trans x w w₁ w' (dealt-IsKept w x kept_qty e₁) gone.3,
          IsSteady-trans level (x ∷ xs) w w₁ w'
              (dealt-IsSteady w x kept_qty e₁ level (x ∷ xs) (ground arith)) gone.4,
        )
