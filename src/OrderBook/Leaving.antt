-- ===== src/OrderBook/Leaving.antt =====
-- `removeOrder` of me_order_book.h with an order of a level that keeps others: the writes of the branch, and what they leave.
use trading_ecosystem.Prelude.{
  update_other, sym, member-append, IsUnique-middle, IsUnique-swap, Bool, ℕ, ◌≡◌, ◌≢◌, refl, ap,
  List, [], ◌∷◌, ◌++◌, Ptr, none, some, arith, true, false, member, IsUnique, ptr_eq,
}
use mathlib.Core.List.{append-nil}
use trading_ecosystem.Run.{ok}
use trading_ecosystem.MemPool.{write_object}
use trading_ecosystem.Order.{MeOrder}
use trading_ecosystem.OrderBook.{Book, load_order, load_level, write_order, write_level}
use trading_ecosystem.OrderBook.Ring.{
  separate, member-last, last_of, IsPath, IsPath-last, IsLeft, leave-IsPath, turn,
}
use trading_ecosystem.OrderBook.Aside.{IsSteady, IsSteady-refl, IsSteady-trans, level_block}
use trading_ecosystem.OrderBook.TimePriority.{nexts, prevs, first_at, HasQueue, with_link}
use trading_ecosystem.OrderBook.Resting.{leave_level, set_first_order}

module _ {E : Type 0} where
  pub with_link-IsSteady :
      (level i : ℕ) (f : MeOrder → MeOrder) (zs : List ℕ) (w : Book E)
      → member i zs ≡ true
      → IsSteady level zs w (with_link w i f)
  with_link-IsSteady level i f zs w inside = record {
    prices = refl;
    asks = refl;
    size = refl;
    level_size = refl;
    rungs = λ m. refl;
    firsts = λ m ne. refl;
    blocks =
        λ z out. update_other w.book.order_pool.store i z _ λ e. separate i z zs inside out (sym e);
  }

  abbrev with_first : Bool → Book E → ℕ → Ptr → Book E
  with_first true w level p = record w {
    book = record w.book {
      orders_at_price_pool =
          write_object level (λ r. record r { first_me_order = p }) w.book.orders_at_price_pool;
    };
  }
  with_first false w level p = w

  -- The writes of the branch of `removeOrder` for a level that keeps other orders.
  abbrev unlinked : Bool → Book E → (level l o n : ℕ) → Book E
  unlinked b w level l o n =
      with_link
        (with_link
          (with_first b
            (with_link (with_link w l (λ r. record r { next_order = some n })) n
              (λ r. record r { prev_order = some l }))
            level (some n))
          o (λ r. record r { next_order = none }))
        o (λ r. record r { prev_order = none })

  leave_level-unlinked :
      (b : Bool) (o level l n : ℕ) (w w' : Book E)
      → prevs w o ≡ some l
      → nexts w o ≡ some n
      → ptr_eq (first_at w level) (some o) ≡ b
      → unlinked b w level l o n ≡ w'
      → leave_level (some o) (some level) w ≡ ok tt w'
  unfolding leave_level load_level load_order write_order set_first_order write_level
  leave_level-unlinked true o level l n w w' before behind test e =
      rw (before, behind, test) (ap (λ v. ok tt v) e)
  leave_level-unlinked false o level l n w w' before behind test e =
      rw (before, behind, test) (ap (λ v. ok tt v) e)

  unlinked-IsLeft :
      (b : Bool) (w : Book E) (level l o n : ℕ)
      → l ≢ o
      → n ≢ o
      → IsLeft
          (nexts w)
          (prevs w)
          (nexts (unlinked b w level l o n))
          (prevs (unlinked b w level l o n))
          l
          o
          n
  unlinked-IsLeft true w level l o n l_not_o n_not_o = record {
    same_next = λ i a c. ground arith;
    before_next = ground arith;
    same_prev = λ i a c. ground arith;
    after_prev = ground arith;
  }
  unlinked-IsLeft false w level l o n l_not_o n_not_o = record {
    same_next = λ i a c. ground arith;
    before_next = ground arith;
    same_prev = λ i a c. ground arith;
    after_prev = ground arith;
  }

  first_at-unlinked :
      (w : Book E) (level l o n : ℕ) → first_at (unlinked true w level l o n) level ≡ some n
  first_at-unlinked w level l o n = ground arith

  -- The order `o`, as the ring is entered at it: its neighbours are the last of the others and the first of them.
  unlinked-IsPath :
      (b : Bool) (w : Book E) (level o n : ℕ) (ns : List ℕ)
      → IsPath (nexts w) (prevs w) o (n ∷ ns) o
      → IsUnique (o ∷ n ∷ ns)
      → let w' = unlinked b w level (last_of n ns) o n in IsPath (nexts w') (prevs w') n ns n
  unlinked-IsPath b w level o n ns path unique =
      leave-IsPath (nexts w) (prevs w) _ _ o n ns path unique (
        unlinked-IsLeft b w level (last_of n ns) o n
          (separate _ o (n ∷ ns) (member-last n ns) unique.0)
          (separate n o (n ∷ ns) (ground arith) unique.0))

  leave-queue :
      (b : Bool) (w : Book E) (level o n : ℕ) (ns : List ℕ)
      → IsPath (nexts w) (prevs w) o (n ∷ ns) o
      → ptr_eq (first_at w level) (some o) ≡ b
      → leave_level (some o) (some level) w ≡ ok tt (unlinked b w level (last_of n ns) o n)
  leave-queue b w level o n ns path test =
      leave_level-unlinked b o level (last_of n ns) n w _
        (IsPath-last (nexts w) (prevs w) o (n ∷ ns) o path).1 path.0.0 test refl

  with_first-IsSteady :
      (b : Bool) (level : ℕ) (p : Ptr) (zs : List ℕ) (w : Book E)
      → IsSteady level zs w (with_first b w level p)
  with_first-IsSteady false level p zs w = IsSteady-refl level zs w
  with_first-IsSteady true level p zs w = record {
    prices = refl;
    asks = refl;
    size = refl;
    level_size = refl;
    rungs = λ m.
        let after = level_block (with_first true w level p) m in
        let before = level_block w m in
        let next : after.object.next_entry ≡ before.object.next_entry = ground arith in
        let prev : after.object.prev_entry ≡ before.object.prev_entry = ground arith in
        let free : after.is_free ≡ before.is_free = ground arith in λ k. (next k, prev k, free k);
    firsts = λ m ne. ground arith;
    blocks = λ z out. refl;
  }

  unlinked-IsSteady :
      (b : Bool) (w : Book E) (level l o n : ℕ) (zs : List ℕ)
      → member l zs ≡ true
      → member o zs ≡ true
      → member n zs ≡ true
      → IsSteady level zs w (unlinked b w level l o n)
  unlinked-IsSteady b w level l o n zs ml mo mn =
      let next = λ (p : Ptr) (r : MeOrder). record r { next_order = p } in
      let prev = λ (p : Ptr) (r : MeOrder). record r { prev_order = p } in
      let w₁ = with_link w l (next (some n)) in
      let w₂ = with_link w₁ n (prev (some l)) in
      let w₃ = with_first b w₂ level (some n) in
      let w₄ = with_link w₃ o (next none) in
      IsSteady-trans level zs w w₁ _ (with_link-IsSteady level l (next (some n)) zs w ml) (
        IsSteady-trans level zs w₁ w₂ _ (with_link-IsSteady level n (prev (some l)) zs w₁ mn) (
          IsSteady-trans level zs w₂ w₃ _ (with_first-IsSteady b level (some n) zs w₂) (
            IsSteady-trans level zs w₃ w₄ _ (with_link-IsSteady level o (next none) zs w₃ mo)
              (with_link-IsSteady level o (prev none) zs w₄ mo))))

  -- If the orders of a level, from `first_me_order_` on, are a ring of orders each once, and one of
  -- them is not the only one, then the branch of `removeOrder` for a level that keeps other orders,
  -- with that order, returns, and the orders of the level are then a ring of the others in the same
  -- order, whether or not the one removed was the first.
  pub leave_level-remove :
      (o level : ℕ) (xs ys : List ℕ) (w : Book E)
      → HasQueue w level (xs ++ (o ∷ ys))
      → xs ++ ys ≢ []
      → (w' : Book E) × (leave_level (some o) (some level) w ≡ ok tt w')
        × HasQueue w' level (xs ++ ys)
        × IsSteady level (xs ++ (o ∷ ys)) w w'
  leave_level-remove o level [] [] w (first, path, unique) some_left = absurd (some_left refl)
  leave_level-remove o level [] (n ∷ ns) w (first, path, unique) some_left =
      let test : ptr_eq (first_at w level) (some o) ≡ true = ground arith in
      (
        _,
        leave-queue true w level o n ns path test,
        (
          first_at-unlinked w level (last_of n ns) o n,
          unlinked-IsPath true w level o n ns path unique,
          unique.1,
        ),
        unlinked-IsSteady true w level (last_of n ns) o n (o ∷ n ∷ ns)
            (ground (arith, member-last n ns)) (ground arith) (ground arith),
      )
  leave_level-remove o level (x ∷ xs) [] w (first, path, unique) some_left =
      let x_not_o : x ≢ o = ground (arith, member-append x xs (o ∷ []), unique.0) in
      let turned = turn (nexts w) (prevs w) x xs o [] path in
      (
        _,
        leave-queue false w level o x xs turned (ground arith),
        rw (append-nil xs) (
          first,
          unlinked-IsPath false w level o x xs turned (IsUnique-swap (x ∷ xs) (o ∷ []) unique),
          rw⁻¹ (append-nil xs) (IsUnique-middle (x ∷ xs) o [] unique),
        ),
        unlinked-IsSteady false w level (last_of x xs) o x (x ∷ (xs ++ (o ∷ [])))
            (ground (arith, member-last x xs, member-append (last_of x xs) (x ∷ xs) (o ∷ [])))
            (ground (arith, member-append o (x ∷ xs) (o ∷ []))) (ground arith),
      )
  leave_level-remove o level (x ∷ xs) (n ∷ ns) w (first, path, unique) some_left =
      let x_not_o : x ≢ o = ground (arith, member-append x xs (o ∷ n ∷ ns), unique.0) in
      let turned = turn (nexts w) (prevs w) x xs o (n ∷ ns) path in
      let left =
        unlinked-IsPath false w level o n (ns ++ (x ∷ xs)) turned
          (IsUnique-swap (x ∷ xs) (o ∷ n ∷ ns) unique) in
      (
        _,
        leave-queue false w level o n (ns ++ (x ∷ xs)) turned (ground arith),
        (first, turn _ _ n ns x xs left, IsUnique-middle (x ∷ xs) o (n ∷ ns) unique),
        unlinked-IsSteady false w level (last_of n (ns ++ (x ∷ xs))) o n ((x ∷ xs) ++ (o ∷ n ∷ ns))
            (ground (
              arith,
              member-last n (ns ++ (x ∷ xs)),
              member-append (last_of n (ns ++ (x ∷ xs))) (n ∷ ns) (x ∷ xs),
              member-append (last_of n (ns ++ (x ∷ xs))) (x ∷ xs) (o ∷ n ∷ ns),
            ))
            (ground (arith, member-append o (x ∷ xs) (o ∷ n ∷ ns)))
            (ground (arith, member-append n (x ∷ xs) (o ∷ n ∷ ns))),
      )
