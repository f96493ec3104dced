-- ===== src/OrderBook/Text/Reads.antt =====
-- What `toString` of me_order_book.cpp and its parts read, on rings of orders.
use trading_ecosystem.Prelude.{
  ℕ, zero, suc, ◌+◌, ◌%◌, ◌<◌, ◌≡◌, refl, ap, ◌∙◌, Bool, true, false, ℤ, Ptr, none, some, ptr_eq,
  List, [], ◌∷◌, length, arith, member,
}
use trading_ecosystem.Run.{Run, Cmd, ok, and_then}
use trading_ecosystem.Text.{Text}
use trading_ecosystem.Types.{Side, qty_mod}
use trading_ecosystem.Order.{MeOrder, MeOrdersAtPrice}
use trading_ecosystem.OrderBook.{Book, load_order, load_level}
use trading_ecosystem.OrderBook.Ring.{IsPath}
use trading_ecosystem.OrderBook.TimePriority.{order_at, nexts, prevs, first_at, HasQueue}
use trading_ecosystem.OrderBook.Text.{
  neighbour_id, neighbour_price, first_order_text, order_to_string, level_to_string, count_orders,
  order_line, print_orders, check_price, print_level,
}

module _ {E : Type 0} where
  abbrev pub level_entry : Book E → ℕ → MeOrdersAtPrice
  level_entry w i = (w.book.orders_at_price_pool.store i).object

  abbrev pub next_entries : Book E → ℕ → Ptr
  next_entries w i = (level_entry w i).next_entry

  abbrev pub prev_entries : Book E → ℕ → Ptr
  prev_entries w i = (level_entry w i).prev_entry

  -- What only reads returns, with some result, in the state that it began in.
  abbrev pub Reads : {A : Type 0} → Book E → Run (Book E) A → Type 0
  Reads {A} w r = (a : A) × (r ≡ ok a w)

  -- A command goes on after one that only reads, to an outcome of any form.
  pub after_read :
      {A B C : Type 0} {w : Book E} (outcome : C → Run (Book E) B) (r : Run (Book E) A)
      (k : A → Cmd (Book E) B)
      → Reads w r
      → ((a : A) → (c : C) × (k a w ≡ outcome c))
      → (c : C) × (and_then r k ≡ outcome c)
  after_read outcome r k (a, e) h = let (c, f) = h a in (c, ap (λ x. and_then x k) e ∙ f)

  pub and_then-Reads :
      {A B : Type 0} {w : Book E} (r : Run (Book E) A) (k : A → Cmd (Book E) B)
      → Reads w r
      → ((a : A) → Reads w (k a w))
      → Reads w (and_then r k)
  and_then-Reads {w} r k = after_read (λ b. ok b w) r k

  neighbour_id-Reads : (p : Ptr) (w : Book E) → Reads w (neighbour_id p w)
  unfolding neighbour_id load_order
  neighbour_id-Reads none w = (_, refl)
  neighbour_id-Reads (some i) w = (_, refl)

  order_line-Reads :
      (detailed : Bool) (o : MeOrder) (w : Book E) → Reads w (order_line detailed o w)
  unfolding order_line
  order_line-Reads false o w = (_, refl)
  order_line-Reads true o w =
      and_then-Reads _ _ (neighbour_id-Reads o.prev_order w)
        λ prev. and_then-Reads _ _ (neighbour_id-Reads o.next_order w) λ next. (_, refl)

  order_to_string-Reads : (o : MeOrder) (w : Book E) → Reads w (order_to_string o w)
  unfolding order_to_string
  order_to_string-Reads o w =
      and_then-Reads _ _ (neighbour_id-Reads o.prev_order w)
        λ prev. and_then-Reads _ _ (neighbour_id-Reads o.next_order w) λ next. (_, refl)

  neighbour_price-Reads : (p : Ptr) (w : Book E) → Reads w (neighbour_price p w)
  unfolding neighbour_price load_level
  neighbour_price-Reads none w = (_, refl)
  neighbour_price-Reads (some i) w = (_, refl)

  first_order_text-Reads : (p : Ptr) (w : Book E) → Reads w (first_order_text p w)
  unfolding first_order_text load_order
  first_order_text-Reads none w = (_, refl)
  first_order_text-Reads (some i) w = order_to_string-Reads (order_at w i) w

  pub level_to_string-Reads : (l : MeOrdersAtPrice) (w : Book E) → Reads w (level_to_string l w)
  unfolding level_to_string
  level_to_string-Reads l w =
      and_then-Reads _ _ (first_order_text-Reads l.first_me_order w) λ first.
        and_then-Reads _ _ (neighbour_price-Reads l.prev_entry w)
          λ prev. and_then-Reads _ _ (neighbour_price-Reads l.next_entry w) λ next. (_, refl)

  -- Round the ring of orders once.
  count_orders-Reads :
      (fuel x first : ℕ) (xs : List ℕ) (qty num : ℕ) (w : Book E)
      → IsPath (nexts w) (prevs w) x xs first
      → member first xs ≡ false
      → length xs < fuel
      → Reads w (count_orders fuel (some first) (some x) qty num w)
  unfolding count_orders load_order
  count_orders-Reads zero x first xs qty num w path out enough = absurd (omega arith)
  count_orders-Reads (suc fuel) x first [] qty num w path out enough =
      let last : ptr_eq (nexts w x) (some first) ≡ true = ground arith in rw last (_, refl)
  count_orders-Reads (suc fuel) x first (b ∷ xs) qty num w path out enough =
      let further : ptr_eq (nexts w x) (some first) ≡ false = ground arith in
      rw (further, path.0.0)
        (count_orders-Reads fuel b first xs ((qty + (order_at w x).qty) % qty_mod) (num + 1) w
          path.1 (ground arith) (omega arith))

  print_orders-Reads :
      (detailed : Bool) (fuel x first : ℕ) (xs : List ℕ) (w : Book E)
      → IsPath (nexts w) (prevs w) x xs first
      → member first xs ≡ false
      → length xs < fuel
      → Reads w (print_orders detailed fuel (some first) (some x) w)
  unfolding print_orders load_order
  print_orders-Reads detailed zero x first xs w path out enough = absurd (omega arith)
  print_orders-Reads detailed (suc fuel) x first [] w path out enough =
      let last : ptr_eq (nexts w x) (some first) ≡ true = ground arith in
      and_then-Reads _ _ (order_line-Reads detailed (order_at w x) w) λ line. rw last (_, refl)
  print_orders-Reads detailed (suc fuel) x first (b ∷ xs) w path out enough =
      let further : ptr_eq (nexts w x) (some first) ≡ false = ground arith in
      let more =
        print_orders-Reads detailed fuel b first xs w path.1 (ground arith) (omega arith) in
      and_then-Reads _ _ (order_line-Reads detailed (order_at w x) w)
        λ line. rw (further, path.0.0) (and_then-Reads _ _ more λ text. (_, refl))

  -- The two loops and the neighbours of a level cannot fail: what is left of `printer` is its check.
  pub print_level-check :
      (detailed : Bool) (fuel i p n x : ℕ) (xs : List ℕ) (side : Side) (last : ℤ) (check : Bool)
      (w : Book E)
      → HasQueue w i (x ∷ xs)
      → length xs < fuel
      → prev_entries w i ≡ some p
      → next_entries w i ≡ some n
      → (t : Text) × (print_level detailed fuel (some i) side last check w
          ≡ and_then
              (check_price side last (level_entry w i) check w)
              (λ last' w'. ok (t, last') w'))
  unfolding print_level load_level
  print_level-check detailed fuel i p n x xs side last check w (first, path, unique) enough prev
        next =
      let counted : Reads w (count_orders fuel (first_at w i) (first_at w i) 0 0 w) =
        rw first (count_orders-Reads fuel x x xs 0 0 w path unique.0 enough) in
      let printed : Reads w (print_orders detailed fuel (first_at w i) (first_at w i) w) =
        rw first (print_orders-Reads detailed fuel x x xs w path unique.0 enough) in
      after_read _ _ _ counted λ totals.
        after_read _ _ _ (level_entry w p, ap (λ q. load_level q w) prev)
          λ before.
            after_read _ _ _ (level_entry w n, ap (λ q. load_level q w) next)
              λ behind. after_read _ _ _ printed λ orders. (_, refl)
