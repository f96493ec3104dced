-- ===== src/OrderBook/Consuming.antt =====
-- `match` and `checkForMatch` of me_order_book.cpp at a level that has more than the incoming order asks for.
use trading_ecosystem.Prelude.{
  ℕ, zero, suc, ◌+◌, ◌-◌, ◌%◌, ◌<◌, ◌≤◌, ℤ, ◌||◌, ◌≡◌, ◌≢◌, refl, ap, ◌∙◌, true, false, Bool-cases,
  inl, inr, some, List, [], ◌∷◌, ◌==◌, ltb, member, arith,
}
use trading_ecosystem.Run.{Cmd, ok, and_then}
use trading_ecosystem.Run.Ensures.{Ensures, of_ok}
use mathlib.Core.Path.{subst}
use mathlib.Core.List
use trading_ecosystem.MemPool.Count.{used-le-size}
use trading_ecosystem.Run.Sequencing.{then_returns}
use trading_ecosystem.Types.{Side, is_buy, is_sell, qty_mod, order_id_mod}
use trading_ecosystem.Message.{Outbound}
use trading_ecosystem.OrderBook.{
  Book, load_order, load_level, send_response, generate_new_market_order_id,
}
use trading_ecosystem.OrderBook.Messages.{accepted_response}
use trading_ecosystem.OrderBook.Matching.{
  other_best, breaks_off, match_order, match_round, match_loop, check_for_match, add,
}
use trading_ecosystem.OrderBook.TimePriority.{order_at, HasQueue}
use trading_ecosystem.OrderBook.Untouched.{IsKept}
use trading_ecosystem.OrderBook.Used.{in_use, Progress, match_order-Progress}
use trading_ecosystem.OrderBook.Taking.{match_order-part, match_order-whole}
use trading_ecosystem.OrderBook.Termination.{Enough, fewer_rounds}
use trading_ecosystem.OrderBook.Ring.{separate}
use trading_ecosystem.OrderBook.Offers.{
  remaining, total, amounts, IsOffered, IsConsumed, IsOffer-dealt, amounts-kept, IsOffer-kept,
  best-kept, dealt, dealt-IsKept, dealt-HasQueue,
}

module _ {E : Type 0} (out : Outbound E) where
  module _ (client client_order ticker : ℕ) (side : Side) (market_order : ℕ) where
    module _ (limit price : ℤ) (level : ℕ) where
      part-IsOffered :
          (x qty : ℕ) (e : E) (zs : List ℕ) (w : Book E)
          → IsOffered side price level zs w
          → IsOffered side price level zs (dealt w x qty e)
      part-IsOffered x qty e zs w offered = record {
        best = best-kept side x w (dealt w x qty e) (dealt-IsKept w x qty e) ∙ offered.best;
        entry = offered.entry;
        queue = dealt-HasQueue level x qty e zs w offered.queue;
        offers = λ z m. IsOffer-dealt price w x qty e z (offered.offers z m);
      }

      whole-IsOffered :
          (x : ℕ) (xs : List ℕ) (w w' : Book E)
          → IsOffered side price level (x ∷ xs) w
          → HasQueue w' level xs
          → IsKept x w w'
          → IsOffered side price level xs w'
      whole-IsOffered x xs w w' offered queue kept = record {
        best = best-kept side x w w' kept ∙ offered.best;
        entry = rw kept.prices offered.entry;
        queue = queue;
        offers = λ z m.
            IsOffer-kept price x z w w' kept (separate z x xs m offered.queue.2.0)
              (offered.offers z (ground arith));
      }

      -- A round reads the first order of the level.
      round-is :
          (x leaves : ℕ) (xs : List ℕ) (rest : ℕ → Cmd (Book E) ℕ) (w : Book E)
          → IsOffered side price level (x ∷ xs) w
          → breaks_off side limit price ≡ false
          → match_round out client client_order ticker side limit market_order leaves rest
              (other_best side w)
              w
            ≡ and_then
                (match_order out ticker client side client_order market_order (some x) leaves w)
                rest
      unfolding match_round load_level load_order
      round-is x leaves xs rest w offered crosses =
          let at_price = (offered.offers x (ground arith)).at_price in
          rw (offered.best, offered.queue.0, at_price, crosses) refl

      abbrev loop : (fuel leaves : ℕ) → Cmd (Book E) ℕ
      loop = match_loop out client client_order ticker side limit market_order

      nothing_left : (fuel : ℕ) (w : Book E) → 0 < fuel → loop fuel 0 w ≡ ok 0 w
      unfolding match_loop
      nothing_left zero w some_fuel = absurd (omega arith)
      nothing_left (suc fuel) w some_fuel = refl

      pub loop-round :
          (fuel x leaves : ℕ) (xs : List ℕ) (w : Book E)
          → IsOffered side price level (x ∷ xs) w
          → breaks_off side limit price ≡ false
          → (leaves == 0) ≡ false
          → loop (suc fuel) leaves w
            ≡ and_then
                (match_order out ticker client side client_order market_order (some x) leaves w)
                (loop fuel)
      unfolding match_loop
      loop-round fuel x leaves xs w offered crosses more =
          rw more (round-is x leaves xs (loop fuel) w offered crosses)

      amounts-part :
          (x leaves : ℕ) (e : E) (xs : List ℕ) (w : Book E)
          → member x xs ≡ false
          → (leaves == 0) ≡ false
          → ltb leaves (order_at w x).qty ≡ true
          → amounts (dealt w x ((order_at w x).qty - leaves) e) (x ∷ xs)
            ≡ remaining leaves (amounts w (x ∷ xs))
      amounts-part x leaves e xs w out_of more part =
          let w' = dealt w x ((order_at w x).qty - leaves) e in
          let others =
            amounts-kept x xs w w' (dealt-IsKept w x ((order_at w x).qty - leaves) e) out_of in
          let first : (order_at w' x).qty ≡ (order_at w x).qty - leaves = ground arith in
          rw (more, part, others, first) refl

      pub progress :
          (n leaves left x : ℕ) (w w' : Book E)
          → in_use w ≤ n
          → match_order out ticker client side client_order market_order (some x) leaves w
            ≡ ok left w'
          → Progress n left w'
      progress n leaves left x w w' used runs = of_ok (
          subst (Ensures (Progress n)) runs (
            match_order-Progress out n ticker client side client_order market_order (some x) leaves
              w used))

      some_left :
          (leaves x : ℕ) (xs : List ℕ) (w : Book E)
          → leaves < total (amounts w (x ∷ xs))
          → ltb leaves (order_at w x).qty ≡ false
          → xs ≢ []
      some_left leaves x [] w less whole nil = ground arith
      some_left leaves x (y ∷ ys) w less whole nil = absurd (List.cons≢nil nil)

      loop-IsConsumed :
          (fuel n leaves : ℕ) (zs : List ℕ) (w : Book E)
          → in_use w ≤ n
          → Enough out n leaves fuel
          → IsOffered side price level zs w
          → breaks_off side limit price ≡ false
          → leaves < total (amounts w zs)
          → IsConsumed side price level leaves zs w 0 (loop fuel leaves w)
      loop-IsConsumed zero n leaves zs w used enough offered crosses less = absurd (omega arith)
      loop-IsConsumed (suc fuel) n leaves [] w used enough offered crosses less =
          absurd offered.queue
      loop-IsConsumed (suc fuel) n leaves (x ∷ xs) w used enough offered crosses less =
          elim (Bool-cases (leaves == 0)) [
            | inl done ↦
                let none_left : leaves ≡ 0 = ground arith in
                (
                  w,
                  x ∷ xs,
                  ap (λ left. loop (suc fuel) left w) none_left
                      ∙ nothing_left (suc fuel) w (omega arith),
                  offered,
                  rw done refl,
                )
            | inr more ↦ elim (Bool-cases (ltb leaves (order_at w x).qty)) [
              | inl part ↦
                  let (e, runs) =
                    match_order-part out client client_order ticker side market_order x leaves w
                      (ground arith) in
                  (
                    dealt w x ((order_at w x).qty - leaves) e,
                    x ∷ xs,
                    loop-round fuel x leaves xs w offered crosses more
                        ∙ then_returns (loop fuel) runs (nothing_left fuel _ (ground arith)),
                    part-IsOffered x ((order_at w x).qty - leaves) e (x ∷ xs) w offered,
                    amounts-part x leaves e xs w offered.queue.2.0 more part,
                  )
              | inr whole ↦
                  let (w', runs, queue, kept, steady) =
                    match_order-whole out client client_order ticker side market_order price level x
                      leaves xs w offered (λ nil. some_left leaves x xs w less whole nil)
                      (ground arith) in
                  let others = amounts-kept x xs w w' kept offered.queue.2.0 in
                  let (after, rest, loops, offered', amounts_are) =
                    loop-IsConsumed fuel (in_use w') (leaves - (order_at w x).qty) xs w'
                      (omega arith)
                      (fewer_rounds out n leaves fuel _ w' enough more
                        (progress n leaves _ x w w' used runs))
                      (whole-IsOffered x xs w w' offered queue kept) crosses
                      (rw others (ground arith)) in
                  (
                    after,
                    rest,
                    loop-round fuel x leaves xs w offered crosses more
                        ∙ then_returns (loop fuel) runs loops,
                    offered',
                    amounts_are
                        ∙ ap (remaining (leaves - (order_at w x).qty)) others
                        ∙ rw (more, whole) refl,
                  )
            ]
          ]

  -- The same of `checkForMatch`, which then leaves nothing to rest.
  pub check_for_match-IsConsumed :
      (client client_order ticker : ℕ) (side : Side) (limit price : ℤ) (qty market_order level : ℕ)
      (zs : List ℕ) (w : Book E)
      → (is_buy side || is_sell side) ≡ true
      → IsOffered side price level zs w
      → breaks_off side limit price ≡ false
      → qty < total (amounts w zs)
      → IsConsumed side price level qty zs w 0
          (check_for_match out client client_order ticker side limit qty market_order w)
  unfolding check_for_match
  check_for_match-IsConsumed client client_order ticker side limit price qty market_order level zs w
        sided offered crosses less =
      rw sided (
        loop-IsConsumed client client_order ticker side (market_order % qty_mod) limit price level
          (w.book.order_pool.size + 2) w.book.order_pool.size qty zs w
          (used-le-size w.book.order_pool) (inl (omega arith)) offered crosses less)

  -- The book after an order id was given out and messages were sent.
  abbrev pub numbered : Book E → E → Book E
  numbered w e = record w {
    book = record w.book {
      next_market_order_id = (w.book.next_market_order_id + 1) % order_id_mod;
    };
    engine = e;
  }

  numbered-IsOffered :
      (side : Side) (price : ℤ) (level : ℕ) (zs : List ℕ) (w : Book E) (e : E)
      → IsOffered side price level zs w
      → IsOffered side price level zs (numbered w e)
  numbered-IsOffered side price level zs w e offered = record {
    best = offered.best;
    entry = offered.entry;
    queue = same_queue zs offered.queue;
    offers = λ z m.
        let offer = offered.offers z m in
        record {
          inside = offer.inside;
          in_use = offer.in_use;
          by_client = offer.by_client;
          by_order = offer.by_order;
          at_price = offer.at_price;
        };
  }
    where
      same_queue : (ys : List ℕ) → HasQueue w level ys → HasQueue (numbered w e) level ys
      same_queue [] queue = queue
      same_queue (y ∷ ys) queue = queue

  -- Let the best level of the other side, to which the entry of its price leads, have orders that
  -- are, from `first_me_order_` on, a ring of orders each once, in use, at that price, with clients
  -- among the 256 and order ids below 1024 * 1024; let the limit price not break off the matching
  -- there, the side be BUY or SELL, and the quantity be less than those orders have together. Then
  -- `add` returns, and the same level is the best of the other side and so made up again, of what
  -- remains when the quantity is taken from its orders one by one from the first on: the orders
  -- that are used up are gone, the next one keeps what is left of it, and those behind it keep
  -- their quantities and their places.
  pub add-IsConsumed :
      (client client_order ticker : ℕ) (side : Side) (limit price : ℤ) (qty level : ℕ) (zs : List ℕ)
      (w : Book E)
      → (is_buy side || is_sell side) ≡ true
      → IsOffered side price level zs w
      → breaks_off side limit price ≡ false
      → qty < total (amounts w zs)
      → IsConsumed side price level qty zs w tt
          (add out client client_order ticker side limit qty w)
  unfolding add generate_new_market_order_id send_response
  add-IsConsumed client client_order ticker side limit price qty level zs w sided offered crosses
        less =
      let id = w.book.next_market_order_id in
      let accepted = accepted_response client client_order ticker side limit qty id in
      let w₁ = numbered w (out.send_client_response accepted w.engine) in
      let (after, rest, runs, offered', amounts_are) =
        check_for_match-IsConsumed client client_order ticker side limit price qty id level zs w₁
          sided (numbered-IsOffered side price level zs w _ offered) crosses less in
      (after, rest, then_returns _ runs refl, offered', amounts_are)
