-- ===== src/OrderBook/Termination.antt =====
-- The loops of `checkForMatch` of me_order_book.cpp, and how many rounds they go.
use trading_ecosystem.Prelude.{
  ℕ, zero, suc, ◌+◌, ◌%◌, ◌≤◌, ◌<◌, ◌⊎◌, ◌||◌, ◌≡◌, ◌≢◌, ℤ, Ptr, none, some, inl, inr, arith, ◌==◌,
  Bool-cases, false,
}
use trading_ecosystem.Run.{Cmd, fault, out_of_fuel}
use trading_ecosystem.Run.Fuel.{Ended, result, Ended-bind, Ended-ne, Ended-if, Ends, ends_rules}
use trading_ecosystem.MemPool.Count.{used-le-size}
use trading_ecosystem.Types.{Side, is_buy, is_sell, qty_mod}
use trading_ecosystem.Order.{MeOrder}
use trading_ecosystem.Message.{Outbound, MeClientResponse, MeMarketUpdate}
use trading_ecosystem.OrderBook.{Book, send_response, send_update}
use trading_ecosystem.OrderBook.Ends.{
  Ends-load_order, Ends-load_level, Ends-write_order, Ends-remove_order,
}
use trading_ecosystem.OrderBook.Stable.{Keeps-load_order, Keeps-load_level}
use trading_ecosystem.OrderBook.Used.{in_use, AtMost, Progress, match_order-Progress}
use trading_ecosystem.OrderBook.Matching.{
  settle, match_order, breaks_off, match_round, match_loop, check_for_match,
}

module _ {E : Type 0} (out : Outbound E) where
  Ends-send_response : (r : MeClientResponse) → Ends (send_response out r)
  unfolding send_response
  Ends-send_response r = search ends_rules

  Ends-send_update : (u : MeMarketUpdate) → Ends (send_update out u)
  unfolding send_update
  Ends-send_update u = search ends_rules

  Ends-settle :
      (ticker : ℕ) (o : MeOrder) (itr : Ptr) (fill : ℕ) → Ends (settle out ticker o itr fill)
  unfolding settle
  Ends-settle ticker o itr fill = search (ends_rules, Ends-send_update, Ends-remove_order)

  Ends-match_order :
      (ticker client : ℕ) (side : Side) (client_order market_order : ℕ) (itr : Ptr) (leaves : ℕ)
      → Ends (match_order out ticker client side client_order market_order itr leaves)
  unfolding match_order
  Ends-match_order ticker client side client_order market_order itr leaves =
      search
        (
          ends_rules, Ends-load_order, Ends-write_order, Ends-send_response, Ends-send_update,
          Ends-settle,
        )
        depth 9

  -- Rounds that are enough for `n` orders in use.
  abbrev pub Enough : ℕ → ℕ → ℕ → Type 0
  Enough n leaves fuel = (n + 1 < fuel) ⊎ ((leaves ≡ 0) × (0 < fuel))

  pub fewer_rounds :
      (n leaves fuel left : ℕ) (w : Book E)
      → Enough n leaves (suc fuel)
      → (leaves == 0) ≡ false
      → Progress n left w
      → Enough (in_use w) left fuel
  fewer_rounds n leaves fuel left w enough more p = ground arith

  module _ (client client_order ticker : ℕ) (side : Side) (price : ℤ) (market_order : ℕ) where
    match_round-Ended :
        (n leaves : ℕ) (rest : ℕ → Cmd (Book E) ℕ) (best : Ptr) (w : Book E)
        → in_use w ≤ n
        → ((left : ℕ) (w' : Book E) → Progress n left w' → Ended (rest left w'))
        → Ended
            (match_round out client client_order ticker side price market_order leaves rest best w)
    unfolding match_round
    match_round-Ended n leaves rest none w h next = result
    match_round-Ended n leaves rest (some b) w h next =
        Ended-bind ((Ends-load_level (some b)).at w) ((Keeps-load_level (AtMost n) (some b)).at w h)
          λ l w₁ h₁.
            Ended-bind ((Ends-load_order l.first_me_order).at w₁)
              ((Keeps-load_order (AtMost n) l.first_me_order).at w₁ h₁)
              λ o w₂ h₂. Ended-if (breaks_off side price o.price) _ _ result (
                Ended-bind
                  ((Ends-match_order ticker client side client_order market_order l.first_me_order
                      leaves).at
                    _)
                  (match_order-Progress out n ticker client side client_order market_order
                    l.first_me_order leaves _ h₂)
                  next)

    match_loop-Ended :
        (fuel n leaves : ℕ) (w : Book E)
        → in_use w ≤ n
        → Enough n leaves fuel
        → Ended (match_loop out client client_order ticker side price market_order fuel leaves w)
    unfolding match_loop
    match_loop-Ended zero n leaves w h enough = absurd (omega arith)
    match_loop-Ended (suc fuel) n leaves w h enough = elim (Bool-cases (leaves == 0)) [
      | inl done ↦ rw done result
      | inr more ↦ rw more (
          match_round-Ended n leaves _ _ w h λ left w' p.
            match_loop-Ended fuel (in_use w') left w' (omega arith)
              (fewer_rounds n leaves fuel left w' enough more p))
    ]

  -- From any book, even one whose rings are broken, `checkForMatch` never uses up the rounds that
  -- the model gives it, the size of the order pool and two more: it returns, or one of the code's
  -- own checks or a null pointer ends the process.
  pub check_for_match_ends :
      (client client_order ticker : ℕ) (side : Side) (price : ℤ) (qty market_order : ℕ) (w : Book E)
      → check_for_match out client client_order ticker side price qty market_order w
        ≢ fault out_of_fuel
  unfolding check_for_match
  check_for_match_ends client client_order ticker side price qty market_order w = Ended-ne (
      Ended-if (is_buy side || is_sell side) _ _
        (match_loop-Ended client client_order ticker side price (market_order % qty_mod)
          (w.book.order_pool.size + 2) w.book.order_pool.size qty w (used-le-size w.book.order_pool)
          (inl (omega arith)))
        result)
