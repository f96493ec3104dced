-- ===== src/OrderBook/Used.antt =====
-- The number of orders in use, round by round of matching.
use trading_ecosystem.Prelude.{
  ℕ, suc, ◌-◌, ◌≤◌, ◌≡◌, Ptr, none, some, ◌⊎◌, inl, inr, arith, min, ◌==◌, Bool-cases,
}
use trading_ecosystem.Run.{Cmd}
use trading_ecosystem.Run.Ensures
use trading_ecosystem.Run.Ensures.{
  Ensures, returns, ends, mono, Keeps, keeps_rules, Keeps-modify, Keeps-zoom, put_back-Ensures,
  branch, Keeps-zoom_free, Keeps-if, Keeps-pure,
}
use trading_ecosystem.MemPool.{MemPool, allocate, deallocate}
use trading_ecosystem.MemPool.Count.{used, used-write_object, deallocate-used}
use trading_ecosystem.Types.{Side}
use trading_ecosystem.Order.{MeOrder, MeOrdersAtPrice}
use trading_ecosystem.Message.{Outbound}
use trading_ecosystem.OrderBook.{
  Book, write_order, write_level, on_order_pool, on_level_pool, set_price_entry, set_client_order,
  send_response, send_update,
}
use trading_ecosystem.OrderBook.Level.{assign_best, get_orders_at_price}
use trading_ecosystem.OrderBook.Resting.{deallocate_order, remove_order}
use trading_ecosystem.OrderBook.Matching.{match_order, settle}
use trading_ecosystem.OrderBook.Stable.{Stable, Stable-Linked, Keeps-load_order, Keeps-detach}

module _ {E : Type 0} where
  abbrev pub in_use : Book E → ℕ
  in_use w = used w.book.order_pool

  -- What a round of matching leaves: no quantity, or fewer orders in use.
  abbrev pub Progress : ℕ → ℕ → Book E → Type 0
  Progress n left w = (in_use w ≤ n) × ((left ≡ 0) ⊎ (suc (in_use w) ≤ n))

  module _ (n : ℕ) where
    abbrev pub AtMost : Book E → Type 0
    AtMost w = in_use w ≤ n

    order-AtMost : (p : Ptr) (f : MeOrder → MeOrder) → Keeps AtMost (write_order p f)
    unfolding write_order
    order-AtMost none f = search keeps_rules
    order-AtMost (some i) f =
        Keeps-modify _ (λ w h. omega (arith, used-write_object i f w.book.order_pool))

    level-AtMost :
        (p : Ptr) (f : MeOrdersAtPrice → MeOrdersAtPrice) → Keeps AtMost (write_level p f)
    unfolding write_level
    level-AtMost none f = search keeps_rules
    level-AtMost (some i) f = Keeps-modify _ (λ w h. h)

    levels-AtMost :
        {A : Type 0} (m : Cmd (MemPool MeOrdersAtPrice) A) → Keeps AtMost (on_level_pool m)
    unfolding on_level_pool
    levels-AtMost m = Keeps-zoom_free _ _ m (λ p w h. h)

    free-AtMost : (i : ℕ) → Keeps AtMost (on_order_pool (deallocate i))
    unfolding on_order_pool
    free-AtMost i =
        Keeps-zoom _ _ (deallocate i)
          λ w h. mono (deallocate-used i w.book.order_pool) (λ _ q less. omega arith)

    assign-AtMost : (side : Side) (p : Ptr) → Keeps AtMost (assign_best side p)
    unfolding assign_best
    assign-AtMost side p = Keeps-if _ _ _ (Keeps-pure _) (Keeps-modify _ (λ w h. h))

    client-AtMost : (c o : ℕ) (p : Ptr) → Keeps AtMost (set_client_order c o p)
    unfolding set_client_order
    client-AtMost c o p = search (keeps_rules, Keeps-modify)

    used-Stable : Stable AtMost
    unfolding set_price_entry
    used-Stable = record {
      at_order = order-AtMost;
      at_level = level-AtMost;
      at_asks = assign-AtMost;
      at_price = λ i p. Keeps-modify _ (λ w h. h);
      at_client = client-AtMost;
      new_level = λ l. levels-AtMost (allocate l);
      free_level = λ i. levels-AtMost (deallocate i);
      free_order = free-AtMost;
    }

  deallocate_order-in_use :
      (n : ℕ) (p : Ptr) (w : Book E)
      → in_use w ≤ n
      → Ensures (λ _ w'. suc (in_use w') ≤ n) (deallocate_order p w)
  unfolding deallocate_order on_order_pool
  deallocate_order-in_use n none w h = ends
  deallocate_order-in_use n (some i) w h =
      put_back-Ensures _ (mono (deallocate-used i w.book.order_pool) (λ _ q less. omega arith))

  -- `removeOrder` gives one block back.
  pub remove_order-in_use :
      (n : ℕ) (p : Ptr) (w : Book E)
      → in_use w ≤ n
      → Ensures (λ _ w'. suc (in_use w') ≤ n) (remove_order p w)
  unfolding remove_order get_orders_at_price
  remove_order-in_use n p w h = Ensures.bind ((Keeps-load_order (AtMost n) p).at w h) λ o w₁ h₁.
      Ensures.bind ((Keeps-detach (Stable-Linked (used-Stable n)) o p _).at w₁ h₁) λ _ w₂ h₂.
        Ensures.bind ((client-AtMost n o.client_id o.client_order_id none).at w₂ h₂)
          λ _ w₃ h₃. deallocate_order-in_use n p w₃ h₃

module _ {E : Type 0} (out : Outbound E) where
  settle-Progress :
      (n ticker : ℕ) (o : MeOrder) (itr : Ptr) (leaves : ℕ) (w : Book E)
      → in_use w ≤ n
      → Ensures
          (λ _ w'. Progress n (leaves - min leaves o.qty) w')
          (settle out ticker o itr (min leaves o.qty) w)
  unfolding settle send_update
  settle-Progress n ticker o itr leaves w h = elim (Bool-cases (o.qty - min leaves o.qty == 0)) [
    | inl gone ↦
        rw gone (mono (remove_order-in_use n itr _ h) (λ _ w' less. (omega arith, inr less)))
    | inr rest ↦ rw rest (returns (h, inl (ground arith)))
  ]

  pub match_order-Progress :
      (n ticker client : ℕ) (side : Side) (client_order market_order : ℕ) (itr : Ptr) (leaves : ℕ)
      (w : Book E)
      → in_use w ≤ n
      → Ensures
          (λ left w'. Progress n left w')
          (match_order out ticker client side client_order market_order itr leaves w)
  unfolding match_order send_response send_update
  match_order-Progress n ticker client side client_order market_order itr leaves w h =
      Ensures.bind ((Keeps-load_order (AtMost n) itr).at w h) λ o w₁ h₁.
        Ensures.bind ((order-AtMost n itr _).at w₁ h₁)
          λ _ w₂ h₂. Ensures.bind (settle-Progress n ticker o itr leaves _ h₂) λ _ w₃ h₃. returns h₃
