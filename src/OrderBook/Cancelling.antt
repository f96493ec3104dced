-- ===== src/OrderBook/Cancelling.antt =====
-- `cancel` of me_order_book.cpp on every branch.
use trading_ecosystem.Prelude.{
  Bool, sym, ltb→lt, ap, update_self, Option-cases, ℕ, ◌≤◌, ◌<◌, ◌≡◌, Ptr, none, some, ltb, arith,
  false, true, ◌⊎◌, inl, inr, ◌∙◌, Bool-cases, update,
}
use trading_ecosystem.Run.{require, modify, out_of_range, ◌>>◌}
use trading_ecosystem.Run.Ensures
use trading_ecosystem.Run.Ensures.{
  Ensures, returns, ends, mono, branch_cmd, always, Keeps, keeps_rules, Keeps-zoom_free,
  put_back-Ensures,
}
use trading_ecosystem.MemPool.{deallocate}
use trading_ecosystem.Types.{me_max_num_clients, me_max_order_ids}
use trading_ecosystem.Message.{Outbound}
use trading_ecosystem.OrderBook.{
  Book, load_order, set_client_order, on_order_pool, send_response, send_update,
}
use trading_ecosystem.OrderBook.Level.{get_orders_at_price}
use trading_ecosystem.OrderBook.Resting.{detach, deallocate_order, remove_order}
use trading_ecosystem.OrderBook.Messages.{cancel_rejected_response}
use trading_ecosystem.OrderBook.Matching.{find_client_order, cancel_found, cancel}

module _ {E : Type 0} (out : Outbound E) where
  -- The order is unknown: the client is none, or none of its orders rests under the id.
  abbrev pub IsUnknown : (client order : ℕ) → Book E → Type 0
  IsUnknown client order w =
      (me_max_num_clients ≤ client)
      ⊎ ((client < me_max_num_clients)
          × (order < me_max_order_ids)
          × (w.book.cid_oid_to_order client order ≡ none))

  -- If the client is none of the 256, or the order id is below 1024 * 1024 and no order of the
  -- client rests under it, `cancel` sends one rejection and leaves the book as it is.
  pub cancel-unknown :
      (client order ticker : ℕ) (w : Book E)
      → IsUnknown client order w
      → cancel out client order ticker w
        ≡ send_response out (cancel_rejected_response client order ticker) w
  unfolding cancel
  cancel-unknown client order ticker w (inl outside) =
      let h : ltb client me_max_num_clients ≡ false = ground arith in rw h
  cancel-unknown client order ticker w (inr (inside, small, unknown)) =
      let h : ltb client me_max_num_clients ≡ true = ground arith in
      let k : ltb order me_max_order_ids ≡ true = ground arith in rw (h, k, unknown)

-- No order rests under the id.
abbrev IsForgotten : {E : Type 0} → (client order : ℕ) → Book E → Type 0
IsForgotten client order w = w.book.cid_oid_to_order client order ≡ none

pub update_twice : (f : ℕ → ℕ → Ptr) (c o : ℕ) → update f c (update (f c) o none) c o ≡ none
update_twice f c o =
    ap (λ g. g o) (update_self f c (update (f c) o none)) ∙ update_self (f c) o none

module _ {E : Type 0} where
  forgets : (c o : ℕ) (w : Book E) → Ensures (λ _. IsForgotten c o) (set_client_order c o none w)
  unfolding set_client_order
  forgets c o w = by_tests (ltb c me_max_num_clients) (ltb o me_max_order_ids)
    where
      by_tests :
          (inside small : Bool)
          → Ensures
              (λ _. IsForgotten c o)
              ((require inside out_of_range
                  >> (require small out_of_range
                      >> modify (λ w. record w {
                        book = record w.book {
                          cid_oid_to_order =
                              update w.book.cid_oid_to_order c
                                (update (w.book.cid_oid_to_order c) o none);
                        };
                      })))
                w)
      by_tests true true = returns (update_twice w.book.cid_oid_to_order c o)
      by_tests true false = ends
      by_tests false small = ends

  remove_order-IsForgotten :
      (i : ℕ) (w : Book E)
      → let o = (w.book.order_pool.store i).object in
        Ensures (λ _. IsForgotten o.client_id o.client_order_id) (remove_order (some i) w)
  unfolding remove_order load_order get_orders_at_price deallocate_order on_order_pool
  remove_order-IsForgotten i w =
      let o = (w.book.order_pool.store i).object in
      Ensures.bind (always {Q = λ _ _. Unit {0}} (detach o (some i) _ w) (λ _ _. tt)) λ _ w₁ _.
        Ensures.bind (forgets o.client_id o.client_order_id w₁)
          λ _ w₂ h. put_back-Ensures _ (always (deallocate i w₂.book.order_pool) λ _ _. h)

module _ {E : Type 0} (out : Outbound E) where
  -- The order that rests under an id carries that id.
  abbrev pub CarriesId : (client order : ℕ) → Book E → Type 0
  CarriesId client order w =
      (i : ℕ)
      → w.book.cid_oid_to_order client order ≡ some i
      → ((w.book.order_pool.store i).object.client_id ≡ client)
        × ((w.book.order_pool.store i).object.client_order_id ≡ order)

  found-IsForgotten :
      (client order ticker i : ℕ) (w : Book E)
      → Ensures
          (λ _.
            IsForgotten
              (w.book.order_pool.store i).object.client_id
              (w.book.order_pool.store i).object.client_order_id)
          (cancel_found out client order ticker (some i) w)
  unfolding cancel_found load_order send_update send_response
  found-IsForgotten client order ticker i w =
      Ensures.bind (remove_order-IsForgotten i w) λ _ w₁ h. returns h

  unfoldable pub IsRejected : (client order : ℕ) → Book E → Type 0
  IsRejected client order w =
      (ticker : ℕ)
      → cancel out client order ticker w
        ≡ send_response out (cancel_rejected_response client order ticker) w

  -- If the order that rests under an id carries that client and that id, then after any `cancel` of
  -- the id that returns, every further `cancel` of it sends one rejection and leaves the book as it
  -- is.
  pub cancel-forgets :
      (client order ticker : ℕ) (w : Book E)
      → CarriesId client order w
      → Ensures (λ _. IsRejected client order) (cancel out client order ticker w)
  unfolding cancel find_client_order IsRejected send_response
  cancel-forgets client order ticker w indexed = elim (Bool-cases (ltb client me_max_num_clients)) [
    | inl h ↦ elim (Bool-cases (ltb order me_max_order_ids)) [
      | inl k ↦
          let rejects = λ (w' : Book E) (unknown : IsForgotten client order w') (t : ℕ).
            cancel-unknown out client order t w'
              (inr (ltb→lt client _ h, ltb→lt order _ k, unknown)) in
          elim (Option-cases (w.book.cid_oid_to_order client order)) [
            | inl unknown ↦ rw (h, k, unknown) (returns (rejects _ unknown))
            | inr (i, known) ↦
                let (by_client, by_order) = indexed i known in
                rw (h, k, known)
                  (Ensures.mono (found-IsForgotten client order ticker i w)
                    λ _ w' forgotten. rejects w' (rw (sym by_client, sym by_order) forgotten))
          ]
      | inr k ↦ rw (h, k) ends
    ]
    | inr h ↦ rw h (returns λ t. cancel-unknown out client order t _ (inl (ground arith)))
  ]
