-- ===== src/OrderBook/Bids.antt =====
-- The best level of the bids. In `side == Side::BUY ? bids_at_price_ : asks_at_price_ = p` of me_order_book.h the
-- assignment belongs to the last operand only.
use trading_ecosystem.Prelude.{
  ℕ, zero, suc, ◌+◌, ◌%◌, ◌<◌, ◌==◌, if◌then◌else◌, Bool-cases, false, inl, inr, ℤ, Ptr, none, some,
  ◌≡◌, ◌≢◌, refl, arith,
}
use trading_ecosystem.Run.{Cmd, ok, and_then, pure, ◌>>=◌, ◌>>◌}
use trading_ecosystem.Run.Ensures.{
  returns, of_ok, Keeps, keeps_rules, Keeps-modify, Keeps-zoom_free, Keeps-pure, Keeps-if,
}
use trading_ecosystem.MemPool.{MemPool, allocate, deallocate}
use trading_ecosystem.Types.{Side, qty_mod}
use trading_ecosystem.Order.{MeOrder, MeOrdersAtPrice}
use trading_ecosystem.Message.{MeClientResponse, MeMarketUpdate, Outbound}
use trading_ecosystem.OrderBook.{
  Book, create_book, write_order, write_level, on_order_pool, on_level_pool, set_price_entry,
  set_client_order, generate_new_market_order_id, send_response, send_update,
}
use trading_ecosystem.OrderBook.Level.{assign_best}
use trading_ecosystem.OrderBook.Stable.{Stable}
use trading_ecosystem.OrderBook.StableMethods.{Stable-add, Stable-cancel}
use trading_ecosystem.OrderBook.Messages.{accepted_response}
use trading_ecosystem.OrderBook.Matching.{
  add, cancel, Reach, here, added, cancelled, match_loop, match_round, check_for_match, rest_order,
}

module _ {E : Type 0} (bids : Ptr) where
  abbrev HasBids : Book E → Type 0
  HasBids w = w.book.bids_at_price ≡ bids

  order-HasBids : (p : Ptr) (f : MeOrder → MeOrder) → Keeps HasBids (write_order p f)
  unfolding write_order
  order-HasBids none f = search keeps_rules
  order-HasBids (some i) f = Keeps-modify _ (λ w h. h)

  level-HasBids :
      (p : Ptr) (f : MeOrdersAtPrice → MeOrdersAtPrice) → Keeps HasBids (write_level p f)
  unfolding write_level
  level-HasBids none f = search keeps_rules
  level-HasBids (some i) f = Keeps-modify _ (λ w h. h)

  orders-HasBids : {A : Type 0} (m : Cmd (MemPool MeOrder) A) → Keeps HasBids (on_order_pool m)
  unfolding on_order_pool
  orders-HasBids m = Keeps-zoom_free _ _ m (λ p w h. h)

  levels-HasBids :
      {A : Type 0} (m : Cmd (MemPool MeOrdersAtPrice) A) → Keeps HasBids (on_level_pool m)
  unfolding on_level_pool
  levels-HasBids m = Keeps-zoom_free _ _ m (λ p w h. h)

  assign-HasBids : (side : Side) (p : Ptr) → Keeps HasBids (assign_best side p)
  unfolding assign_best
  assign-HasBids side p = Keeps-if _ _ _ (Keeps-pure _) (Keeps-modify _ (λ w h. h))

  client-HasBids : (c o : ℕ) (p : Ptr) → Keeps HasBids (set_client_order c o p)
  unfolding set_client_order
  client-HasBids c o p = search (keeps_rules, Keeps-modify)

  bids-Stable : Stable HasBids
  unfolding set_price_entry
  bids-Stable = record {
    at_order = order-HasBids;
    at_level = level-HasBids;
    at_asks = assign-HasBids;
    at_price = λ i p. Keeps-modify _ (λ w h. h);
    at_client = client-HasBids;
    new_level = λ l. levels-HasBids (allocate l);
    free_level = λ i. levels-HasBids (deallocate i);
    free_order = λ i. orders-HasBids (deallocate i);
  }

  module _ (out : Outbound E) where
    response-HasBids : (r : MeClientResponse) → Keeps HasBids (send_response out r)
    unfolding send_response
    response-HasBids r = Keeps-modify _ (λ w h. h)

    update-HasBids : (u : MeMarketUpdate) → Keeps HasBids (send_update out u)
    unfolding send_update
    update-HasBids u = Keeps-modify _ (λ w h. h)

    next_id-HasBids : Keeps HasBids generate_new_market_order_id
    unfolding generate_new_market_order_id
    next_id-HasBids = record { at = λ w h. returns h }

    add-HasBids :
        (client client_order ticker : ℕ) (side : Side) (price : ℤ) (qty : ℕ)
        → Keeps HasBids (add out client client_order ticker side price qty)
    add-HasBids =
        Stable-add out bids-Stable response-HasBids update-HasBids
          (λ o. orders-HasBids (allocate o)) next_id-HasBids

    cancel-HasBids : (client order ticker : ℕ) → Keeps HasBids (cancel out client order ticker)
    cancel-HasBids = Stable-cancel out bids-Stable response-HasBids update-HasBids

module _ {E : Type 0} (out : Outbound E) where
  -- In every book that calls of `add` and `cancel` can produce, `bids_at_price_` is null.
  pub Reach-no_bids :
      {ticker : ℕ} {engine : E} {w : Book E}
      → Reach out ticker engine w
      → w.book.bids_at_price ≡ none
  unfolding create_book
  Reach-no_bids here = refl
  Reach-no_bids (added {w} client client_order ticker_id side price qty r e) = of_ok (
      rw e at (
        (add-HasBids none out client client_order ticker_id side price qty).at w (Reach-no_bids r)))
  Reach-no_bids (cancelled {w} client order ticker_id r e) =
      of_ok (rw e at ((cancel-HasBids none out client order ticker_id).at w (Reach-no_bids r)))

  match_loop-sell :
      (client client_order ticker : ℕ) (price : ℤ) (market_order fuel qty : ℕ) (w : Book E)
      → w.book.bids_at_price ≡ none
      → 0 < fuel
      → match_loop out client client_order ticker Side.sell price market_order fuel qty w ≡ ok qty w
  unfolding match_loop match_round
  match_loop-sell client client_order ticker price market_order zero qty w h enough =
      absurd (omega arith)
  match_loop-sell client client_order ticker price market_order (suc fuel) qty w h enough =
      elim (Bool-cases (qty == 0)) [ inl done ↦ rw done | inr more ↦ rw (more, h, match_round) ]

  -- A sell order finds nothing to match while `bids_at_price_` is null: `checkForMatch` returns the whole quantity,
  -- and neither changes the book nor sends anything.
  pub check_for_match-sell :
      (client client_order ticker : ℕ) (price : ℤ) (qty market_order : ℕ) (w : Book E)
      → w.book.bids_at_price ≡ none
      → check_for_match out client client_order ticker Side.sell price qty market_order w ≡ ok qty w
  unfolding check_for_match
  check_for_match-sell client client_order ticker price qty market_order w h =
      match_loop-sell client client_order ticker price (market_order % qty_mod)
        (w.book.order_pool.size + 2) qty w h (omega arith)

  pub sell_rests :
      (client client_order ticker : ℕ) (price : ℤ) (qty id : ℕ) (w : Book E)
      → w.book.bids_at_price ≡ none
      → qty ≢ 0
      → and_then
          (check_for_match out client client_order ticker Side.sell price qty id w)
          (λ leaves.
            if leaves == 0
            then pure tt
            else rest_order out client client_order ticker Side.sell price id leaves)
        ≡ rest_order out client client_order ticker Side.sell price id qty w
  sell_rests client client_order ticker price qty id w h ne =
      let some_qty : (qty == 0) ≡ false = ground arith in
      rw (check_for_match-sell client client_order ticker price qty id w h) (rw some_qty)

  -- In every book that calls of `add` and `cancel` can produce, whatever bids rest in it and
  -- whatever the limit price, `add` of a sell order of a quantity that is not 0 accepts the order
  -- and puts its whole quantity to rest: nothing is matched.
  pub add-sell :
      {ticker : ℕ} {engine : E} {w : Book E} (client client_order ticker_id : ℕ) (price : ℤ)
      (qty : ℕ)
      → Reach out ticker engine w
      → qty ≢ 0
      → add out client client_order ticker_id Side.sell price qty w
        ≡ (do
          id ← generate_new_market_order_id
          send_response out (accepted_response client client_order ticker_id Side.sell price qty id)
          rest_order out client client_order ticker_id Side.sell price id qty)
            w
  unfolding add generate_new_market_order_id send_response
  add-sell client client_order ticker_id price qty r ne =
      sell_rests client client_order ticker_id price qty _ _ (Reach-no_bids r) ne
