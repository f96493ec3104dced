-- ===== src/OrderBook/TimePriority.antt =====
-- The orders of a price level in me_order_book.h as a queue: the ring from `first_me_order_` on.
use trading_ecosystem.Prelude.{
  ℕ, ◌≡◌, ◌≢◌, refl, ap, List, [], ◌∷◌, ◌++◌, Ptr, some, arith, false, member, IsUnique,
  append-IsUnique,
}
use trading_ecosystem.Run.{ok}
use trading_ecosystem.MemPool.{write_object}
use trading_ecosystem.Order.{MeOrder}
use trading_ecosystem.OrderBook.{Book, load_order, load_level, write_order}
use trading_ecosystem.OrderBook.Ring.{
  separate, member-last, last_of, IsPath, IsPath-last, IsJoined, join-IsPath,
}
use trading_ecosystem.OrderBook.Resting.{join_level}

module _ {E : Type 0} where
  abbrev pub order_at : Book E → ℕ → MeOrder
  order_at w i = (w.book.order_pool.store i).object

  abbrev pub nexts : Book E → ℕ → Ptr
  nexts w i = (order_at w i).next_order

  abbrev pub prevs : Book E → ℕ → Ptr
  prevs w i = (order_at w i).prev_order

  abbrev pub first_at : Book E → ℕ → Ptr
  first_at w l = (w.book.orders_at_price_pool.store l).object.first_me_order

  -- From `first_me_order_` of the level on, the orders are these, each once, in a ring.
  abbrev pub HasQueue : Book E → ℕ → List ℕ → Type 0
  HasQueue w l [] = ⊥
  HasQueue w l (x ∷ xs) =
      (first_at w l ≡ some x) × IsPath (nexts w) (prevs w) x xs x × IsUnique (x ∷ xs)

  abbrev pub with_link : Book E → ℕ → (MeOrder → MeOrder) → Book E
  with_link w i f = record w {
    book = record w.book { order_pool = write_object i f w.book.order_pool };
  }

  -- The four writes of the branch of `addOrder` for a level that is there.
  abbrev pub linked : Book E → (x l o : ℕ) → Book E
  linked w x l o =
      with_link
        (with_link
          (with_link (with_link w l (λ r. record r { next_order = some o })) o
            (λ r. record r { prev_order = some l }))
          o (λ r. record r { next_order = some x }))
        x (λ r. record r { prev_order = some o })

  join_level-linked :
      (o level x l : ℕ) (w w' : Book E)
      → first_at w level ≡ some x
      → prevs w x ≡ some l
      → linked w x l o ≡ w'
      → join_level (some o) (some level) w ≡ ok tt w'
  unfolding join_level load_level load_order write_order
  join_level-linked o level x l w w' first last e =
      let again : prevs (with_link w l (λ r. record r { next_order = some o })) x ≡ some l =
        ground arith in
      rw (first, last, again) (ap (λ v. ok tt v) e)

  linked-IsJoined :
      (w : Book E) (x l o : ℕ)
      → l ≢ o
      → x ≢ o
      → IsJoined (nexts w) (prevs w) (nexts (linked w x l o)) (prevs (linked w x l o)) x l o
  linked-IsJoined w x l o lo xo = record {
    same_next = λ i a b. ground arith;
    last_next = ground arith;
    new_next = ground arith;
    same_prev = λ i a b. ground arith;
    first_prev = ground arith;
    new_prev = ground arith;
  }

  -- The new order stands behind the others, after the writes `linked`.
  pub linked-HasQueue :
      (o level x : ℕ) (xs : List ℕ) (w : Book E)
      → HasQueue w level (x ∷ xs)
      → member o (x ∷ xs) ≡ false
      → (join_level (some o) (some level) w ≡ ok tt (linked w x (last_of x xs) o))
        × HasQueue (linked w x (last_of x xs) o) level (x ∷ (xs ++ (o ∷ [])))
  linked-HasQueue o level x xs w (first, path, unique) out =
      let l = last_of x xs in
      let l_not_o = separate l o (x ∷ xs) (member-last x xs) out in
      let x_not_o = separate x o (x ∷ xs) (ground arith) out in
      let after = linked w x l o in
      (
        join_level-linked o level x l w after first (IsPath-last (nexts w) (prevs w) x xs x path).1
            refl,
        (
          first,
          join-IsPath (nexts w) (prevs w) (nexts after) (prevs after) x xs o path unique out
              (linked-IsJoined w x l o l_not_o x_not_o),
          append-IsUnique o (x ∷ xs) out unique,
        ),
      )

  -- If the orders of a level, from `first_me_order_` on, are a ring of orders each once, then the
  -- branch of `addOrder` for a level that is there, with an order that is not one of them, returns,
  -- and the orders of the level are then a ring of the same orders in the same order with the new
  -- one behind them.
  pub join_level-append :
      (o level x : ℕ) (xs : List ℕ) (w : Book E)
      → HasQueue w level (x ∷ xs)
      → member o (x ∷ xs) ≡ false
      → (w' : Book E) × (join_level (some o) (some level) w ≡ ok tt w')
        × HasQueue w' level (x ∷ (xs ++ (o ∷ [])))
  join_level-append o level x xs w queue out =
      let (returns_it, queue') = linked-HasQueue o level x xs w queue out in
      (linked w x (last_of x xs) o, returns_it, queue')
