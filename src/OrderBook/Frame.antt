-- ===== src/OrderBook/Frame.antt =====
-- What the writes to the rings of me_order_book.h leave alone: the table of client orders, and whose order a block holds.
use trading_ecosystem.Prelude.{ℕ, ◌≡◌, refl, ◌∙◌, Ptr, none, some, Bool, arith}
use trading_ecosystem.Run.{Cmd}
use trading_ecosystem.Run.Ensures.{
  Keeps, keeps_rules, Keeps-modify, Keeps-zoom_free, Keeps-if, Keeps-pure,
}
use trading_ecosystem.MemPool.{MemPool, write_object, allocate, deallocate}
use trading_ecosystem.Types.{Side}
use trading_ecosystem.Order.{MeOrder, MeOrdersAtPrice}
use trading_ecosystem.OrderBook.{Book, write_order, write_level, on_level_pool, set_price_entry}
use trading_ecosystem.OrderBook.Level.{assign_best}
use trading_ecosystem.OrderBook.Stable.{Linked}

-- A block is free, and the client and the id of its order.
abbrev pub tag : MemPool MeOrder → ℕ → Bool × ℕ × ℕ
tag p j = ((p.store j).is_free, (p.store j).object.client_id, (p.store j).object.client_order_id)

-- A write to other fields of an order.
write-tags :
    (i : ℕ) (f : MeOrder → MeOrder) (p : MemPool MeOrder)
    → ((o : MeOrder) → (f o).client_id ≡ o.client_id)
    → ((o : MeOrder) → (f o).client_order_id ≡ o.client_order_id)
    → (j : ℕ) → tag (write_object i f p) j ≡ tag p j
write-tags i f p by_client by_order j =
    let free : ((write_object i f p).store j).is_free ≡ (p.store j).is_free = ground arith in
    let client : ((write_object i f p).store j).object.client_id ≡ (p.store j).object.client_id =
      ground (arith, by_client (p.store i).object) in
    let order : ((write_object i f p).store j).object.client_order_id
        ≡ (p.store j).object.client_order_id =
      ground (arith, by_order (p.store i).object) in
    λ k. (free k, client k, order k)

module _ {E : Type 0} where
  pub record Same (w₀ w : Book E) : Type 0 where
    pub table : w.book.cid_oid_to_order ≡ w₀.book.cid_oid_to_order
    pub size : w.book.order_pool.size ≡ w₀.book.order_pool.size
    pub tags : (j : ℕ) → tag w.book.order_pool j ≡ tag w₀.book.order_pool j

  pub Same-refl : (w : Book E) → Same w w
  Same-refl w = record { table = refl; size = refl; tags = λ j. refl }

  module _ (w₀ : Book E) where
    order-Same :
        (p : Ptr) (f : MeOrder → MeOrder)
        → ((o : MeOrder) → (f o).client_id ≡ o.client_id)
        → ((o : MeOrder) → (f o).client_order_id ≡ o.client_order_id)
        → Keeps (Same w₀) (write_order p f)
    unfolding write_order
    order-Same none f by_client by_order = search keeps_rules
    order-Same (some i) f by_client by_order = Keeps-modify _ λ w h. record {
      table = h.table;
      size = h.size;
      tags = λ j. write-tags i f w.book.order_pool by_client by_order j ∙ h.tags j;
    }

    level-Same :
        (p : Ptr) (f : MeOrdersAtPrice → MeOrdersAtPrice) → Keeps (Same w₀) (write_level p f)
    unfolding write_level
    level-Same none f = search keeps_rules
    level-Same (some i) f =
        Keeps-modify _ (λ w h. record { table = h.table; size = h.size; tags = h.tags })

    levels-Same :
        {A : Type 0} (m : Cmd (MemPool MeOrdersAtPrice) A) → Keeps (Same w₀) (on_level_pool m)
    unfolding on_level_pool
    levels-Same m =
        Keeps-zoom_free _ _ m (λ p w h. record { table = h.table; size = h.size; tags = h.tags })

    assign-Same : (side : Side) (p : Ptr) → Keeps (Same w₀) (assign_best side p)
    unfolding assign_best
    assign-Same side p =
        Keeps-if _ _ _ (Keeps-pure _)
          (Keeps-modify _ (λ w h. record { table = h.table; size = h.size; tags = h.tags }))

    pub Same-Linked : Linked (Same w₀)
    unfolding set_price_entry
    Same-Linked = record {
      at_prev = λ p q. order-Same p _ (λ o. refl) (λ o. refl);
      at_next = λ p q. order-Same p _ (λ o. refl) (λ o. refl);
      at_qty = λ p qty. order-Same p _ (λ o. refl) (λ o. refl);
      at_level = level-Same;
      at_asks = assign-Same;
      at_price =
          λ i p. Keeps-modify _ (λ w h. record { table = h.table; size = h.size; tags = h.tags });
      new_level = λ l. levels-Same (allocate l);
      free_level = λ i. levels-Same (deallocate i);
    }
