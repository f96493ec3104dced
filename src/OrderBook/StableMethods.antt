-- ===== src/OrderBook/StableMethods.antt =====
-- What `match`, `checkForMatch`, `add` and `cancel` keep.
use trading_ecosystem.Prelude.{ℕ, zero, suc, ℤ, Ptr, none, some}
use trading_ecosystem.Run.{Cmd}
use trading_ecosystem.Run.Ensures.{Keeps, Keeps-bind, Keeps-pure, Keeps-gets, Keeps-if}
use trading_ecosystem.MemPool.{allocate}
use trading_ecosystem.Types.{Side}
use trading_ecosystem.Order.{MeOrder}
use trading_ecosystem.Message.{MeClientResponse, MeMarketUpdate, Outbound}
use trading_ecosystem.OrderBook.{
  Book, on_order_pool, generate_new_market_order_id, send_response, send_update,
}
use trading_ecosystem.OrderBook.Stable.{
  Linked, Stable, Stable-Linked, reads, Keeps-get_next_priority, Keeps-add_order,
  Keeps-remove_order,
}
use trading_ecosystem.OrderBook.Resting.{remove_order}
use trading_ecosystem.OrderBook.Matching.{
  settle, match_order, match_round, match_loop, check_for_match, rest_order, add, find_client_order,
  cancel_found, cancel,
}

module _ {E : Type 0} (out : Outbound E) {P : Book E → Type 0} (links : Linked P)
    (removes : (order : Ptr) → Keeps P (remove_order order))
    (sends_response : (r : MeClientResponse) → Keeps P (send_response out r))
    (sends_update : (u : MeMarketUpdate) → Keeps P (send_update out u)) where
  open links use {at_qty}

  Keeps-settle :
      (ticker : ℕ) (o : MeOrder) (itr : Ptr) (fill : ℕ) → Keeps P (settle out ticker o itr fill)
  unfolding settle
  Keeps-settle ticker o itr fill = search (reads, sends_update, removes)

  pub Keeps-match_order :
      (ticker client : ℕ) (side : Side) (client_order market_order : ℕ) (itr : Ptr) (leaves : ℕ)
      → Keeps P (match_order out ticker client side client_order market_order itr leaves)
  unfolding match_order
  Keeps-match_order ticker client side client_order market_order itr leaves =
      search (reads, at_qty, sends_response, sends_update, Keeps-settle) depth 9

  module _ (client client_order ticker : ℕ) (side : Side) (price : ℤ) where
    Keeps-match_round :
        (market_order leaves : ℕ) (rest : ℕ → Cmd (Book E) ℕ)
        → ((left : ℕ) → Keeps P (rest left))
        → (best : Ptr)
        → Keeps P
            (match_round out client client_order ticker side price market_order leaves rest best)
    unfolding match_round
    Keeps-match_round market_order leaves rest keep none = search reads
    Keeps-match_round market_order leaves rest keep (some b) =
        search (reads, keep, Keeps-match_order) depth 9

    Keeps-match_loop :
        (market_order fuel leaves : ℕ)
        → Keeps P (match_loop out client client_order ticker side price market_order fuel leaves)
    unfolding match_loop
    Keeps-match_loop market_order zero leaves = search reads
    Keeps-match_loop market_order (suc fuel) leaves = Keeps-if _ _ _ (Keeps-pure _) (
        Keeps-bind _ _ (Keeps-gets _)
          (Keeps-match_round market_order leaves _ (Keeps-match_loop market_order fuel)))

    pub Keeps-check_for_match :
        (qty market_order : ℕ)
        → Keeps P (check_for_match out client client_order ticker side price qty market_order)
    unfolding check_for_match
    Keeps-check_for_match qty market_order = search (reads, Keeps-match_loop)

  Keeps-cancel_found :
      (client order ticker : ℕ) (p : Ptr) → Keeps P (cancel_found out client order ticker p)
  unfolding cancel_found
  Keeps-cancel_found client order ticker none = search (reads, sends_response)
  Keeps-cancel_found client order ticker (some i) =
      search (reads, sends_response, sends_update, removes)

  pub Keeps-cancel : (client order ticker : ℕ) → Keeps P (cancel out client order ticker)
  unfolding cancel find_client_order
  Keeps-cancel client order ticker = search (reads, Keeps-cancel_found) depth 9

  module _
      (rests : (client client_order ticker : ℕ) (side : Side) (price : ℤ) (market_order leaves : ℕ)
        → Keeps P (rest_order out client client_order ticker side price market_order leaves))
      (next_id : Keeps P generate_new_market_order_id) where
    pub Keeps-add :
        (client client_order ticker : ℕ) (side : Side) (price : ℤ) (qty : ℕ)
        → Keeps P (add out client client_order ticker side price qty)
    unfolding add
    Keeps-add client client_order ticker side price qty = Keeps-bind _ _ next_id λ id.
        Keeps-bind _ _ (sends_response _) λ _.
          Keeps-bind _ _ (Keeps-check_for_match client client_order ticker side price qty id)
            λ l. search (reads, rests)

-- What survives each write of an order survives `add` and `cancel`.
module _ {E : Type 0} (out : Outbound E) {P : Book E → Type 0} (stable : Stable P)
    (sends_response : (r : MeClientResponse) → Keeps P (send_response out r))
    (sends_update : (u : MeMarketUpdate) → Keeps P (send_update out u)) where
  pub Stable-cancel : (client order ticker : ℕ) → Keeps P (cancel out client order ticker)
  Stable-cancel =
      Keeps-cancel out (Stable-Linked stable) (Keeps-remove_order stable) sends_response
        sends_update

  module _ (new_order : (o : MeOrder) → Keeps P (on_order_pool (allocate o)))
      (next_id : Keeps P generate_new_market_order_id) where
    Stable-rest_order :
        (client client_order ticker : ℕ) (side : Side) (price : ℤ) (market_order leaves : ℕ)
        → Keeps P (rest_order out client client_order ticker side price market_order leaves)
    unfolding rest_order
    Stable-rest_order client client_order ticker side price market_order leaves =
        search
          (
            reads,
            sends_update,
            new_order,
            Keeps-add_order stable,
            Keeps-get_next_priority (Stable-Linked stable),
          )
          depth 9

    pub Stable-add :
        (client client_order ticker : ℕ) (side : Side) (price : ℤ) (qty : ℕ)
        → Keeps P (add out client client_order ticker side price qty)
    Stable-add =
        Keeps-add out (Stable-Linked stable) (Keeps-remove_order stable) sends_response sends_update
          Stable-rest_order next_id
