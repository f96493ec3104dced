-- ===== src/OrderBook/AddAsk.antt =====
-- `add` of me_order_book.cpp with a sell order at a price that has a level, anywhere on the sell side.
use trading_ecosystem.Prelude.{
  ℕ, ◌<◌, ℤ, ◌≡◌, ◌≢◌, refl, sym, ap, ◌∙◌, true, false, none, List, [], ◌∷◌, ◌++◌, member,
  member-append, IsUnique, arith,
}
use mathlib.Core.Path.{subst}
use trading_ecosystem.Run.{ok}
use trading_ecosystem.MemPool.Allocation.{IsValid}
use trading_ecosystem.Types.{Side, me_max_num_clients, me_max_order_ids}
use trading_ecosystem.Message.{Outbound}
use trading_ecosystem.OrderBook.{Book, generate_new_market_order_id, send_response}
use trading_ecosystem.OrderBook.Messages.{accepted_response}
use trading_ecosystem.OrderBook.Matching.{add, rest_order}
use trading_ecosystem.OrderBook.Bids.{sell_rests}
use trading_ecosystem.OrderBook.TimePriority.{order_at}
use trading_ecosystem.OrderBook.Consuming.{numbered}
use trading_ecosystem.OrderBook.AskSide.{Rung, all_orders, IsAskSide, view}
use trading_ecosystem.OrderBook.AtRung.{
  IsAskSide-same, rungs_with, all_orders-with, at_rung, IsStanding-at,
}
use trading_ecosystem.OrderBook.CancelAsk.{view-kept}
use trading_ecosystem.OrderBook.Joined.{
  joined, joined-IsSteady, joined-IsKept, joined-terms, resting_behind, rest_order-joins,
}
use trading_ecosystem.OrderBook.JoinedAsk.{
  free-apart, with-IsUnique, new_apart_from, joined-IsStanding,
}

module _ (rs₁ : List Rung) (level : ℕ) (price : ℤ) (rs₂ : List Rung) where
  -- The sell side has the order behind the others of the level, and otherwise is as it was.
  abbrev pub IsJoined : {E : Type 0} → (x : ℕ) (xs : List ℕ) (i qty : ℕ) (w w' : Book E) → Type 0
  IsJoined x xs i qty w w' =
      IsAskSide w' (rungs_with rs₁ level price rs₂ (x ∷ (xs ++ (i ∷ []))))
      × (view w' (rungs_with rs₁ level price rs₂ (x ∷ xs))
          ≡ view w (rungs_with rs₁ level price rs₂ (x ∷ xs)))
      × ((order_at w' i).qty ≡ qty)

  module _ {E : Type 0} (out : Outbound E) (client client_order ticker : ℕ) where
    rest_order-IsJoined :
        (id qty x k : ℕ) (xs : List ℕ) (w : Book E)
        → IsAskSide w (rungs_with rs₁ level price rs₂ (x ∷ xs))
        → IsValid w.book.order_pool
        → k < w.book.order_pool.size
        → k ≢ w.book.order_pool.next_free_index
        → (w.book.order_pool.store k).is_free ≡ true
        → client < me_max_num_clients
        → client_order < me_max_order_ids
        → (w' : Book E) × (rest_order out client client_order ticker Side.sell price id qty w
            ≡ ok tt w')
          × IsJoined x xs w.book.order_pool.next_free_index qty w w'
    rest_order-IsJoined id qty x k xs w side valid inside other free by_client by_order =
        let i = w.book.order_pool.next_free_index in
        let zs = x ∷ xs in
        let rs = rungs_with rs₁ level price rs₂ zs in
        let s = IsStanding-at rs₁ level price rs₂ zs w side in
        let apart = free-apart i rs w valid.free side.standing in
        let flat = all_orders-with rs₁ level price rs₂ in
        let out_of_all = subst (λ l. member i l ≡ false) (flat zs) apart in
        let own : member i zs ≡ false = ground (
          arith,
          member-append i (all_orders rs₁) (zs ++ all_orders rs₂),
          member-append i zs (all_orders rs₂),
        ) in
        let (q, e, handed, rests) =
          rest_order-joins out client client_order ticker Side.sell price id qty level x k xs w
            s.entry s.queue own valid inside other free by_client by_order in
        let new = resting_behind out client client_order ticker Side.sell price id qty w x xs in
        let unique = subst IsUnique (flat zs) side.unique in
        let others = new_apart_from (all_orders rs₁) zs i (all_orders rs₂) unique out_of_all in
        let w' = joined w q x xs i client client_order e in
        let behind =
          at_rung rs₁ level price rs₂ (i ∷ zs) zs (zs ++ (i ∷ [])) w w' side
            (joined-IsSteady new w i q handed x xs client client_order e level)
            (λ z m. others z (ground (arith, member-append z (all_orders rs₂) (all_orders rs₁), m)))
            (λ z m. others z (ground (arith, member-append z (all_orders rs₂) (all_orders rs₁), m)))
            (joined-IsStanding new w i q handed x xs e level price s own refl refl by_client
              by_order)
            (subst IsUnique (sym (flat (zs ++ (i ∷ []))))
              (with-IsUnique (all_orders rs₁) zs i (all_orders rs₂) unique out_of_all)) in
        (
          w',
          rests,
          (
            behind,
            view-kept i rs w w' (joined-IsKept new w i q handed x xs client client_order e) apart,
            ap (λ t. t.4) (joined-terms new w i q handed x xs client client_order e),
          ),
        )

    -- Let the sell side be made up of levels and orders as `checkForMatch` asks for it (a ring of
    -- levels, each with a ring of sell orders, none at two levels), let `bids_at_price_` be null,
    -- the order pool valid and with a free block beside the next one, the quantity not 0, the
    -- client one of the 256 and the order id below 1024 * 1024. Then `add` of a sell order at the
    -- price of any of the levels returns, and the sell side is so made up again, with the new order
    -- last at that level and with its whole quantity: all other levels and orders are in their
    -- places with their quantities.
    pub add-IsJoined :
        (qty x k : ℕ) (xs : List ℕ) (w : Book E)
        → IsAskSide w (rungs_with rs₁ level price rs₂ (x ∷ xs))
        → w.book.bids_at_price ≡ none
        → qty ≢ 0
        → IsValid w.book.order_pool
        → k < w.book.order_pool.size
        → k ≢ w.book.order_pool.next_free_index
        → (w.book.order_pool.store k).is_free ≡ true
        → client < me_max_num_clients
        → client_order < me_max_order_ids
        → (w' : Book E) × (add out client client_order ticker Side.sell price qty w ≡ ok tt w')
          × IsJoined x xs w.book.order_pool.next_free_index qty w w'
    unfolding add generate_new_market_order_id send_response
    add-IsJoined qty x k xs w side no_bids some_qty valid inside other free by_client by_order =
        let id = w.book.next_market_order_id in
        let accepted = accepted_response client client_order ticker Side.sell price qty id in
        let w₁ = numbered out w (out.send_client_response accepted w.engine) in
        let side₁ =
          IsAskSide-same w w₁ (rungs_with rs₁ level price rs₂ (x ∷ xs))
            (λ m. record {
              prices = refl;
              asks = refl;
              size = refl;
              level_size = refl;
              rungs = λ j. refl;
              firsts = λ j ne. refl;
              blocks = λ z apart. refl;
            })
            side in
        let (w', rests, standing) =
          rest_order-IsJoined id qty x k xs w₁ side₁ valid inside other free by_client by_order in
        let runs =
          sell_rests out client client_order ticker price qty id w₁ no_bids some_qty ∙ rests in
        (w', runs, standing)
