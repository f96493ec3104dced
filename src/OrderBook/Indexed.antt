-- ===== src/OrderBook/Indexed.antt =====
-- The table of client orders of me_order_book.h, and the orders that it points to.
use trading_ecosystem.Prelude.{
  ℕ, ◌≡◌, ◌≢◌, refl, sym, ap, ◌∙◌, true, false, Bool-cases, inl, inr, ◌&&◌, Ptr, none, some, update,
  update_self, ltb, not, ℤ, arith,
}
use mathlib.Core.Path.{subst}
use trading_ecosystem.Run.{Cmd, put_back}
use trading_ecosystem.Run.Ensures
use trading_ecosystem.Run.Ensures.{
  Ensures, returns, ends, mono, of_ok, self, branch, always, Keeps, Keeps-modify, put_back-Ensures,
  put_back_both,
}
use trading_ecosystem.MemPool.{block, allocate}
use trading_ecosystem.MemPool.Allocation.{deallocate_lem, allocate-store}
use trading_ecosystem.Types.{Side, me_max_num_clients, me_max_order_ids}
use trading_ecosystem.Order.{MeOrder}
use trading_ecosystem.Message.{MeClientResponse, MeMarketUpdate, Outbound}
use trading_ecosystem.OrderBook.{
  Book, create_book, load_order, set_client_order, on_order_pool, generate_new_market_order_id,
  send_response, send_update,
}
use trading_ecosystem.OrderBook.Level.{get_orders_at_price}
use trading_ecosystem.OrderBook.Resting.{add_order, deallocate_order, remove_order}
use trading_ecosystem.OrderBook.Stable.{Linked, Keeps-place, Keeps-detach, Keeps-get_next_priority}
use trading_ecosystem.OrderBook.StableMethods.{Keeps-add, Keeps-cancel}
use trading_ecosystem.OrderBook.Frame.{tag, Same, Same-refl, Same-Linked}
use trading_ecosystem.OrderBook.Matching.{add, cancel, rest_order, Reach, here, added, cancelled}
use trading_ecosystem.OrderBook.Table.{Indexes, entered, Indexes-remove, Indexes-insert}

module _ {E : Type 0} where
  abbrev pub IsIndexed : Book E → Type 0
  IsIndexed w = Indexes w.book.cid_oid_to_order (tag w.book.order_pool)

  Same-IsIndexed : {w w' : Book E} → Same w w' → IsIndexed w → IsIndexed w'
  Same-IsIndexed same h c o i e = same.tags i ∙ h c o i (ap (λ t. t c o) (sym same.table) ∙ e)

  abbrev pub written : (c o : ℕ) → Ptr → Book E → Book E
  written c o p w = record w {
    book = record w.book { cid_oid_to_order = entered w.book.cid_oid_to_order c o p };
  }

  pub set_client_order-written :
      (c o : ℕ) (p : Ptr) (w : Book E)
      → Ensures (λ _ w'. w' ≡ written c o p w) (set_client_order c o p w)
  unfolding set_client_order
  set_client_order-written c o p w = elim (Bool-cases (ltb c me_max_num_clients)) [
    | inl h ↦ elim (Bool-cases (ltb o me_max_order_ids)) [
      | inl k ↦ rw (h, k) (returns refl)
      | inr k ↦ rw (h, k) ends
    ]
    | inr h ↦ rw h ends
  ]

  -- Giving back a block: it is one in use, and it becomes free.
  deallocate_order-freed :
      (i : ℕ) (w : Book E)
      → Ensures
          (λ _ w'.
            (w'.book.cid_oid_to_order ≡ w.book.cid_oid_to_order)
            × ((j : ℕ) → j ≢ i → tag w'.book.order_pool j ≡ tag w.book.order_pool j))
          (deallocate_order (some i) w)
  unfolding deallocate_order on_order_pool
  deallocate_order-freed i w = put_back-Ensures _ (
      rw (deallocate_lem i w.book.order_pool) (
        branch (ltb i w.book.order_pool.size && not (w.book.order_pool.store i).is_free)
          (λ h. returns (refl, λ j ne. ground arith)) (λ h. ends)))

  remove_order-IsIndexed : (order : Ptr) → Keeps IsIndexed (remove_order order)
  unfolding remove_order load_order get_orders_at_price
  remove_order-IsIndexed none = record { at = λ w h. ends }
  remove_order-IsIndexed (some i) = record {
    at = λ w h.
        let o = (w.book.order_pool.store i).object in
        Ensures.bind ((Keeps-detach (Same-Linked w) o (some i) _).at w (Same-refl w)) λ _ w₁ same.
          Ensures.bind (set_client_order-written o.client_id o.client_order_id none w₁)
            λ _ w₂ is_written. mono (deallocate_order-freed i w₂) λ _ w₃ (table, others).
              subst (λ t. Indexes t (tag w₃.book.order_pool))
                (sym (
                  table
                  ∙ ap (λ v. v.book.cid_oid_to_order) is_written
                  ∙ ap (λ t. entered t o.client_id o.client_order_id none) same.table))
                (Indexes-remove w.book.cid_oid_to_order (tag w.book.order_pool)
                  (tag w₃.book.order_pool) i h
                  λ j ne. others j ne ∙ ap (λ v. tag v.book.order_pool j) is_written ∙ same.tags j);
  }

  -- What moves orders and levels in their rings only.
  Keeps-IsIndexed :
      {A : Type 0} (m : Cmd (Book E) A) → ((w : Book E) → Keeps (Same w) m) → Keeps IsIndexed m
  Keeps-IsIndexed m keeps = record {
    at = λ w h. mono ((keeps w).at w (Same-refl w)) (λ _ w' same. Same-IsIndexed same h);
  }

  IsIndexed-Linked : Linked IsIndexed
  IsIndexed-Linked = record {
    at_prev = λ p q. Keeps-IsIndexed _ (λ w. (Same-Linked w).at_prev p q);
    at_next = λ p q. Keeps-IsIndexed _ (λ w. (Same-Linked w).at_next p q);
    at_qty = λ p qty. Keeps-IsIndexed _ (λ w. (Same-Linked w).at_qty p qty);
    at_level = λ p f. Keeps-IsIndexed _ (λ w. (Same-Linked w).at_level p f);
    at_asks = λ side p. Keeps-IsIndexed _ (λ w. (Same-Linked w).at_asks side p);
    at_price = λ i p. Keeps-IsIndexed _ (λ w. (Same-Linked w).at_price i p);
    new_level = λ l. Keeps-IsIndexed _ (λ w. (Same-Linked w).new_level l);
    free_level = λ i. Keeps-IsIndexed _ (λ w. (Same-Linked w).free_level i);
  }

  -- An order that has just been given a block is hung in its level and entered in the table.
  add_order-IsIndexed :
      (i : ℕ) (o : MeOrder) (w w₀ : Book E)
      → IsIndexed w₀
      → (tag w₀.book.order_pool i).0 ≡ true
      → w.book.cid_oid_to_order ≡ w₀.book.cid_oid_to_order
      → w.book.order_pool.store ≡ update w₀.book.order_pool.store i (block o false)
      → Ensures (λ _. IsIndexed) (add_order (some i) w)
  unfolding add_order load_order get_orders_at_price
  add_order-IsIndexed i o w w₀ h was_free table stored =
      let o' = (w.book.order_pool.store i).object in
      Ensures.bind ((Keeps-place (Same-Linked w) (some i) _).at w (Same-refl w)) λ _ w₁ same.
        mono (set_client_order-written o'.client_id o'.client_order_id (some i) w₁)
          λ _ w₂ is_written.
            let in_use : (w.book.order_pool.store i).is_free ≡ false =
              ap (λ s. (s i).is_free) stored
              ∙ ap (λ b. b.is_free) (update_self w₀.book.order_pool.store i (block o false)) in
            let now : tag w.book.order_pool i ≡ (false, o'.client_id, o'.client_order_id) =
              λ k. (in_use k, o'.client_id, o'.client_order_id) in
            let kept : (j : ℕ) → tag w₂.book.order_pool j ≡ tag w.book.order_pool j =
              λ j. ap (λ v. tag v.book.order_pool j) is_written ∙ same.tags j in
            let others : (j : ℕ) → j ≢ i → w.book.order_pool.store j ≡ w₀.book.order_pool.store j =
              λ j ne. ap (λ s. s j) stored ∙ ground arith in
            subst (λ t. Indexes t (tag w₂.book.order_pool))
              (sym (
                ap (λ v. v.book.cid_oid_to_order) is_written
                ∙ ap (λ t. entered t o'.client_id o'.client_order_id (some i))
                    (same.table ∙ table)))
              (Indexes-insert w₀.book.cid_oid_to_order (tag w₀.book.order_pool)
                (tag w₂.book.order_pool) i o'.client_id o'.client_order_id h was_free (kept i ∙ now)
                λ j ne.
                  kept j
                  ∙ ap (λ b. (b.is_free, b.object.client_id, b.object.client_order_id))
                      (others j ne))

module _ {E : Type 0} (out : Outbound E) where
  response-IsIndexed : (r : MeClientResponse) → Keeps IsIndexed (send_response out r)
  unfolding send_response
  response-IsIndexed r = Keeps-modify _ (λ w h. h)

  update-IsIndexed : (u : MeMarketUpdate) → Keeps IsIndexed (send_update out u)
  unfolding send_update
  update-IsIndexed u = Keeps-modify _ (λ w h. h)

  rest_order-IsIndexed :
      (client client_order ticker : ℕ) (side : Side) (price : ℤ) (market_order leaves : ℕ)
      → Keeps IsIndexed (rest_order out client client_order ticker side price market_order leaves)
  unfolding rest_order on_order_pool
  rest_order-IsIndexed client client_order ticker side price market_order leaves = record {
    at = λ w h.
        Ensures.bind
          ((Keeps-IsIndexed _ (λ v. Keeps-get_next_priority (Same-Linked v) price)).at w h)
          λ priority w₁ h₁. Ensures.bind (allocated w₁ _) λ i w₂ (was_free, table, stored).
            Ensures.bind (add_order-IsIndexed i _ w₂ w₁ h₁ was_free table stored)
              λ _ w₃ h₃. (update-IsIndexed _).at w₃ h₃;
  }
    where
      allocated :
          (w : Book E) (o : MeOrder)
          → Ensures
              (λ i w'.
                ((w.book.order_pool.store i).is_free ≡ true)
                × (w'.book.cid_oid_to_order ≡ w.book.cid_oid_to_order)
                × (w'.book.order_pool.store ≡ update w.book.order_pool.store i (block o false)))
              (put_back
                (λ p. record w { book = record w.book { order_pool = p } })
                (allocate o w.book.order_pool))
      allocated w o = put_back_both _ (
          mono (allocate-store o w.book.order_pool)
            λ i q (was_free, stored). (was_free, refl, stored))

  add-IsIndexed :
      (client client_order ticker : ℕ) (side : Side) (price : ℤ) (qty : ℕ)
      → Keeps IsIndexed (add out client client_order ticker side price qty)
  unfolding generate_new_market_order_id
  add-IsIndexed =
      Keeps-add out IsIndexed-Linked remove_order-IsIndexed response-IsIndexed update-IsIndexed
        rest_order-IsIndexed (record { at = λ w h. returns h })

  cancel-IsIndexed : (client order ticker : ℕ) → Keeps IsIndexed (cancel out client order ticker)
  cancel-IsIndexed =
      Keeps-cancel out IsIndexed-Linked remove_order-IsIndexed response-IsIndexed update-IsIndexed

  -- In every book that calls of `add` and `cancel` can produce, whatever the table of client orders
  -- holds for a client and an order id is a block in use, whose order is of that client and has
  -- that id.
  pub Reach-IsIndexed :
      {ticker : ℕ} {engine : E} {w : Book E} → Reach out ticker engine w → IsIndexed w
  unfolding create_book
  Reach-IsIndexed here = λ c o i e. ground (arith, e)
  Reach-IsIndexed (added {w} client client_order ticker_id side price qty r e) = of_ok (
      rw e at
        ((add-IsIndexed client client_order ticker_id side price qty).at w (Reach-IsIndexed r)))
  Reach-IsIndexed (cancelled {w} client order ticker_id r e) =
      of_ok (rw e at ((cancel-IsIndexed client order ticker_id).at w (Reach-IsIndexed r)))
