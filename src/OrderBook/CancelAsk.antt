-- ===== src/OrderBook/CancelAsk.antt =====
-- `cancel` of me_order_book.cpp with a sell order of a level that keeps others, anywhere on the sell side.
use trading_ecosystem.Prelude.{
  ℕ, ◌<◌, ℤ, ◌≡◌, ◌≢◌, refl, sym, ap, ◌∙◌, true, false, some, List, [], ◌∷◌, ◌++◌, lt→ltb, member,
  member-append, IsUnique, IsUnique-swap, IsUnique-middle, IsUnique-disjoint, arith,
}
use mathlib.Core.Path.{subst}
use mathlib.Core.List.{append_assoc}
use trading_ecosystem.Run.{ok}
use trading_ecosystem.Run.Sequencing.{then_returns}
use trading_ecosystem.Types.{me_max_num_clients, me_max_order_ids}
use trading_ecosystem.Message.{Outbound}
use trading_ecosystem.OrderBook.{Book, load_order, send_response, send_update, price_to_index}
use trading_ecosystem.OrderBook.Messages.{cancel_update, canceled_response}
use trading_ecosystem.OrderBook.Resting.{remove_order}
use trading_ecosystem.OrderBook.Matching.{cancel}
use trading_ecosystem.OrderBook.Ring.{separate}
use trading_ecosystem.OrderBook.TimePriority.{order_at}
use trading_ecosystem.OrderBook.Untouched.{IsKept}
use trading_ecosystem.OrderBook.Removing.{HasQueue-IsUnique, not_left, remove_order_returns}
use trading_ecosystem.OrderBook.Offers.{amounts-kept}
use trading_ecosystem.OrderBook.AskSide.{Rung, all_orders, IsAskSide, view}
use trading_ecosystem.OrderBook.Sweeping.{IsStanding-kept}
use trading_ecosystem.OrderBook.AtRung.{
  IsAskSide-same, rungs_with, all_orders-with, at_rung, IsStanding-at,
}

module _ {E : Type 0} where
  pub view-kept :
      (o : ℕ) (rs : List Rung) (w w' : Book E)
      → IsKept o w w'
      → member o (all_orders rs) ≡ false
      → view w' rs ≡ view w rs
  view-kept o [] w w' kept out = refl
  view-kept o (r ∷ rs) w w' kept out =
      let first =
        amounts-kept o r.orders w w' kept
          (ground (arith, member-append o r.orders (all_orders rs), out)) in
      let others =
        view-kept o rs w w' kept (ground (arith, member-append o r.orders (all_orders rs), out)) in
      rw (first, others) refl

-- The orders of a level are not at the levels before it or behind it.
pub apart_from :
    (before zs behind : List ℕ)
    → IsUnique (before ++ (zs ++ behind))
    → (z : ℕ) → member z (behind ++ before) ≡ true
    → member z zs ≡ false
apart_from before zs behind unique =
    IsUnique-disjoint zs (behind ++ before)
      (subst IsUnique (append_assoc zs behind before) (IsUnique-swap before (zs ++ behind) unique))

-- One order taken out of the middle.
without-IsUnique :
    (before xs : List ℕ) (o : ℕ) (ys behind : List ℕ)
    → IsUnique (before ++ ((xs ++ (o ∷ ys)) ++ behind))
    → (member o (before ++ ((xs ++ ys) ++ behind)) ≡ false)
      × IsUnique (before ++ ((xs ++ ys) ++ behind))
without-IsUnique before xs o ys behind unique =
    let split = λ (mid : List ℕ).
      ap (λ l. before ++ l) (append_assoc xs mid behind)
      ∙ sym (append_assoc before xs (mid ++ behind)) in
    let at_o = subst IsUnique (split (o ∷ ys)) unique in
    let out = (IsUnique-swap (before ++ xs) (o ∷ (ys ++ behind)) at_o).0 in
    (
      subst (λ l. member o l ≡ false) (sym (split ys))
          (ground (
            arith,
            member-append o (ys ++ behind) (before ++ xs),
            member-append o (before ++ xs) (ys ++ behind),
            out,
          )),
      subst IsUnique (sym (split ys)) (IsUnique-middle (before ++ xs) o (ys ++ behind) at_o),
    )

module _ (rs₁ : List Rung) (level : ℕ) (price : ℤ) (rs₂ : List Rung) where
  module _ {E : Type 0} where
    -- The sell side is without the order, and otherwise as it was.
    abbrev pub IsWithout : (xs : List ℕ) (o : ℕ) (ys : List ℕ) (w w' : Book E) → Type 0
    IsWithout xs o ys w w' =
        IsAskSide w' (rungs_with rs₁ level price rs₂ (xs ++ ys))
        × (view w' (rungs_with rs₁ level price rs₂ (xs ++ ys))
            ≡ view w (rungs_with rs₁ level price rs₂ (xs ++ ys)))

    pub remove_order-IsWithout :
        (xs : List ℕ) (o : ℕ) (ys : List ℕ) (w : Book E)
        → IsAskSide w (rungs_with rs₁ level price rs₂ (xs ++ (o ∷ ys)))
        → xs ++ ys ≢ []
        → (w' : Book E) × (remove_order (some o) w ≡ ok tt w') × IsWithout xs o ys w w'
    remove_order-IsWithout xs o ys w side some_left =
        let zs = xs ++ (o ∷ ys) in
        let s = IsStanding-at rs₁ level price rs₂ zs w side in
        let inside : member o zs ≡ true = ground (arith, member-append o xs (o ∷ ys)) in
        let offer = s.offers o inside in
        let entry =
          ap (λ p. w.book.price_orders_at_price (price_to_index p)) offer.at_price ∙ s.entry in
        let (w', removed, gone) =
          remove_order_returns o level xs ys w entry s.queue some_left offer.inside offer.in_use
            offer.by_client offer.by_order in
        let unique = subst IsUnique (all_orders-with rs₁ level price rs₂ zs) side.unique in
        let (out, unique') = without-IsUnique (all_orders rs₁) xs o ys (all_orders rs₂) unique in
        let apart = apart_from (all_orders rs₁) zs (all_orders rs₂) unique in
        let own = HasQueue-IsUnique level zs w s.queue in
        let among : (z : ℕ) → member z (xs ++ ys) ≡ true → (member z zs ≡ true) × (z ≢ o) = λ z m. (
          ground (arith, member-append z xs ys, member-append z xs (o ∷ ys), m),
          separate z o (xs ++ ys) m (not_left o xs ys own),
        ) in
        let back = sym (all_orders-with rs₁ level price rs₂ (xs ++ ys)) in
        (
          w',
          removed,
          (
            at_rung rs₁ level price rs₂ zs zs (xs ++ ys) w w' side gone.4
                (λ z m.
                  apart z (ground (arith, member-append z (all_orders rs₂) (all_orders rs₁), m)))
                (λ z m.
                  apart z (ground (arith, member-append z (all_orders rs₂) (all_orders rs₁), m)))
                (IsStanding-kept o level price zs (xs ++ ys) w w' s gone.0 gone.3 gone.4 among)
                (subst IsUnique back unique'),
            view-kept o (rungs_with rs₁ level price rs₂ (xs ++ ys)) w w' gone.3
                (subst (λ l. member o l ≡ false) back out),
          ),
        )

    -- Let the sell side be made up of levels and orders as `checkForMatch` asks for it (a ring of
    -- levels, each with a ring of sell orders, none at two levels), let a level keep an order when
    -- one of its orders goes, and let the table of client orders have that order under a client
    -- that is one of the 256 and an id below 1024 * 1024. Then `cancel` of the id by that client
    -- returns, and the sell side is so made up again, without the order: all other levels and
    -- orders are in their places, and all quantities are as before.
    pub cancel-IsWithout :
        (out : Outbound E) (client client_order ticker : ℕ) (xs : List ℕ) (o : ℕ) (ys : List ℕ)
        (w : Book E)
        → IsAskSide w (rungs_with rs₁ level price rs₂ (xs ++ (o ∷ ys)))
        → xs ++ ys ≢ []
        → client < me_max_num_clients
        → client_order < me_max_order_ids
        → w.book.cid_oid_to_order client client_order ≡ some o
        → (w' : Book E) × (cancel out client client_order ticker w ≡ ok tt w')
          × IsWithout xs o ys w w'
    unfolding cancel load_order send_response send_update
    cancel-IsWithout out client client_order ticker xs o ys w side some_left by_client by_order
          found =
        let (w', removed, (side', same)) = remove_order-IsWithout xs o ys w side some_left in
        let h = lt→ltb client me_max_num_clients by_client in
        let k = lt→ltb client_order me_max_order_ids by_order in
        let o' = order_at w o in
        let gone = out.send_market_update (cancel_update ticker o') w'.engine in
        let w'' = record w' {
          engine = out.send_client_response (canceled_response client client_order ticker o') gone;
        } in
        let runs : cancel out client client_order ticker w ≡ ok tt w'' =
          rw (h, k, found) (then_returns _ removed refl) in
        (
          w'',
          runs,
          (
            IsAskSide-same w' w'' (rungs_with rs₁ level price rs₂ (xs ++ ys))
                (λ m. record {
                  prices = refl;
                  asks = refl;
                  size = refl;
                  level_size = refl;
                  rungs = λ i. refl;
                  firsts = λ i ne. refl;
                  blocks = λ z apart. refl;
                })
                side',
            same,
          ),
        )
