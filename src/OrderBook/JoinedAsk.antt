-- ===== src/OrderBook/JoinedAsk.antt =====
-- The order that `add` of me_order_book.cpp puts behind those of a level of the sell side: it stands there, and nowhere else.
use trading_ecosystem.Prelude.{
  ℕ, ◌<◌, ℤ, ◌≡◌, ◌≢◌, refl, sym, ap, ◌∙◌, true, false, Bool-cases, inl, inr, List, [], ◌∷◌, ◌++◌,
  ◌==◌, member, member-append, IsUnique, insert-IsUnique, arith,
}
use mathlib.Core.Path.{subst}
use mathlib.Core.List.{append_assoc}
use trading_ecosystem.MemPool.{MemPool}
use trading_ecosystem.MemPool.Allocation.{Handed}
use trading_ecosystem.OrderBook.Ring.{separate}
use trading_ecosystem.Types.{Side, me_max_num_clients, me_max_order_ids}
use trading_ecosystem.Order.{MeOrder}
use trading_ecosystem.OrderBook.{Book}
use trading_ecosystem.OrderBook.TimePriority.{order_at}
use trading_ecosystem.OrderBook.Aside.{order_block}
use trading_ecosystem.OrderBook.Offers.{IsOffer, IsOffer-kept}
use trading_ecosystem.OrderBook.AskSide.{Rung, all_orders, IsStanding, AllStanding}
use trading_ecosystem.OrderBook.Sweeping.{rung_of}
use trading_ecosystem.OrderBook.CancelAsk.{apart_from}
use trading_ecosystem.OrderBook.Joined.{
  joined, joined-IsSteady, joined-IsKept, joined-terms, joined-HasQueue,
}

module _ {E : Type 0} where
  -- A free block is no order of the sell side.
  pub free-apart :
      (i : ℕ) (rs : List Rung) (w : Book E)
      → (order_block w i).is_free ≡ true
      → AllStanding w rs
      → member i (all_orders rs) ≡ false
  free-apart i [] w free s = refl
  free-apart i (r ∷ rs) w free s = elim (Bool-cases (member i r.orders)) [
    | inl inside ↦
        let used = (s.0.offers i inside).in_use in
        let clash : true ≡ false = sym free ∙ used in absurd (ground arith)
    | inr out ↦
        ground (arith, member-append i r.orders (all_orders rs), out, free-apart i rs w free s.1)
  ]

-- One more order behind those of a level.
pub with-IsUnique :
    (before zs : List ℕ) (i : ℕ) (behind : List ℕ)
    → IsUnique (before ++ (zs ++ behind))
    → member i (before ++ (zs ++ behind)) ≡ false
    → IsUnique (before ++ ((zs ++ (i ∷ [])) ++ behind))
with-IsUnique before zs i behind unique out =
    let flat = sym (append_assoc before zs behind) in
    let split =
      ap (λ l. before ++ l) (append_assoc zs (i ∷ []) behind)
      ∙ sym (append_assoc before zs (i ∷ behind)) in
    subst IsUnique (sym split) (
      insert-IsUnique i (before ++ zs) behind (subst (λ l. member i l ≡ false) flat out)
        (subst IsUnique flat unique))

-- The new order and those of the level are not at the levels before it or behind it.
pub new_apart_from :
    (before zs : List ℕ) (i : ℕ) (behind : List ℕ)
    → IsUnique (before ++ (zs ++ behind))
    → member i (before ++ (zs ++ behind)) ≡ false
    → (z : ℕ) → member z (behind ++ before) ≡ true
    → member z (i ∷ zs) ≡ false
new_apart_from before zs i behind unique out z m =
    let away : member i (behind ++ before) ≡ false = ground (
      arith,
      member-append i before (zs ++ behind),
      member-append i zs behind,
      member-append i behind before,
    ) in
    let ne = separate z i (behind ++ before) m away in
    let apart = apart_from before zs behind unique z m in ground (arith, apart, ne)

split_last :
    (P : ℕ → Type 0) (i x : ℕ) (xs : List ℕ)
    → P i
    → ((z : ℕ) → member z (x ∷ xs) ≡ true → z ≢ i → P z)
    → (z : ℕ) → member z (x ∷ (xs ++ (i ∷ []))) ≡ true
    → P z
split_last P i x xs own others z m = elim (Bool-cases (z == i)) [
  | inl is ↦ let e : i ≡ z = ground arith in subst P e own
  | inr other ↦ others z (ground (arith, member-append z (x ∷ xs) (i ∷ []), m)) (ground arith)
]

module _ {E : Type 0} (new : MeOrder) (w : Book E) (i : ℕ) (q : MemPool MeOrder)
    (handed : Handed new w.book.order_pool i q) (x : ℕ) (xs : List ℕ) (e : E) where
  -- The book with the new order behind the others of the level.
  abbrev after : Book E
  after = joined w q x xs i new.client_id new.client_order_id e

  joined-IsOffer :
      (price : ℤ)
      → new.price ≡ price
      → new.client_id < me_max_num_clients
      → new.client_order_id < me_max_order_ids
      → IsOffer price after i
  joined-IsOffer price at_price by_client by_order =
      let same = joined-terms new w i q handed x xs new.client_id new.client_order_id e in
      let kept = joined-IsKept new w i q handed x xs new.client_id new.client_order_id e in
      record {
        inside = rw kept.size handed.0;
        in_use = ap (λ t. t.0) same;
        by_client = rw (ap (λ t. t.1) same) by_client;
        by_order = rw (ap (λ t. t.2) same) by_order;
        at_price = ap (λ t. t.3) same ∙ at_price;
      }

  pub joined-IsStanding :
      (level : ℕ) (price : ℤ)
      → IsStanding w (rung_of level price (x ∷ xs))
      → member i (x ∷ xs) ≡ false
      → new.price ≡ price
      → new.side ≡ Side.sell
      → new.client_id < me_max_num_clients
      → new.client_order_id < me_max_order_ids
      → IsStanding after (rung_of level price (x ∷ (xs ++ (i ∷ []))))
  joined-IsStanding level price s out at_price sells by_client by_order =
      let same = joined-terms new w i q handed x xs new.client_id new.client_order_id e in
      let kept = joined-IsKept new w i q handed x xs new.client_id new.client_order_id e in
      let steady =
        joined-IsSteady new w i q handed x xs new.client_id new.client_order_id e level in
      record {
        inside = s.inside;
        in_use = s.in_use;
        entry = s.entry;
        queue =
            joined-HasQueue new w i q handed x xs new.client_id new.client_order_id e level out
              s.queue;
        offers =
            split_last (IsOffer price after) i x xs
              (joined-IsOffer price at_price by_client by_order)
              (λ z m ne. IsOffer-kept price i z w after kept ne (s.offers z m));
        sells =
            split_last (λ z. (order_at after z).side ≡ Side.sell) i x xs
              (ap (λ t. t.5) same ∙ sells)
              (λ z m ne. ap (λ t. t.5) (kept.at_others z ne) ∙ s.sells z m);
      }
