-- ===== src/OrderBook/Text/Sorted.antt =====
-- When `toString` of me_order_book.cpp finds the levels of a book sorted.
use trading_ecosystem.Prelude.{
  ℕ, zero, suc, ◌+◌, ◌<◌, ◌≡◌, refl, sym, ap, Bool, true, false, Bool-cases, ◌⊎◌, inl, inr, ◌&&◌,
  ◌||◌, not, ℤ, leb_ℤ, ltb_ℤ, Ptr, none, some, ptr_eq, if◌then◌else◌, List, [], ◌∷◌, length, map,
  arith, member, IsUnique,
}
use mathlib.Core.Path.{subst}
use trading_ecosystem.Run.{Run, Cmd, ok, fault, fatal, and_then}
use trading_ecosystem.Text.{Text, codes}
use trading_ecosystem.Types.{Side, price_invalid}
use trading_ecosystem.Order.{MeOrdersAtPrice}
use trading_ecosystem.OrderBook.{Book, load_level}
use trading_ecosystem.OrderBook.Ring.{IsPath, IsPath-last, last_of}
use trading_ecosystem.OrderBook.TimePriority.{HasQueue}
use trading_ecosystem.OrderBook.Text.Reads.{
  level_entry, next_entries, prev_entries, Reads, and_then-Reads, level_to_string-Reads,
  print_level-check,
}
use trading_ecosystem.OrderBook.Text.{price_min, check_price, print_levels, to_string}

-- The sellers' prices go up from the best one, and the buyers' down.
abbrev is_beyond : Side → ℤ → ℤ → Bool
is_beyond Side.sell last price = ltb_ℤ last price
is_beyond Side.buy last price = ltb_ℤ price last
is_beyond _ last price = true

abbrev pub is_sorted : Side → ℤ → List ℤ → Bool
is_sorted side last [] = true
is_sorted side last (price ∷ prices) = is_beyond side last price && is_sorted side price prices

module _ {E : Type 0} where
  abbrev pub level_prices : Book E → List ℕ → List ℤ
  level_prices w = map (λ i. (level_entry w i).price)

  -- A level has a queue of orders of at most so many.
  abbrev pub HasOrders : Book E → (most : ℕ) → List ℕ → Type 0
  HasOrders w most [] = Unit {0}
  HasOrders w most (i ∷ is) =
      ((x : ℕ) × (xs : List ℕ) × HasQueue w i (x ∷ xs) × (length xs < most)) × HasOrders w most is

  -- `toString` returns, or its check is fatal.
  abbrev pub Passes : {A : Type 0} → Bool → Book E → Run (Book E) A → Type 0
  Passes true w r = Reads w r
  Passes false w r = r ≡ fault fatal

  check_price-beyond :
      (side : Side) (last : ℤ) (l : MeOrdersAtPrice) (w : Book E)
      → is_beyond side last l.price ≡ true
      → check_price side last l true w ≡ ok l.price w
  unfolding check_price
  check_price-beyond Side.sell last l w h =
      let e : leb_ℤ l.price last ≡ false = ground arith in rw e refl
  check_price-beyond Side.buy last l w h =
      let e : leb_ℤ last l.price ≡ false = ground arith in rw e refl
  check_price-beyond Side.invalid last l w h = refl
  check_price-beyond (Side.unnamed b) last l w h = refl

  check_price-not :
      (side : Side) (last : ℤ) (l : MeOrdersAtPrice) (w : Book E)
      → is_beyond side last l.price ≡ false
      → check_price side last l true w ≡ fault fatal
  unfolding check_price
  check_price-not Side.sell last l w h =
      let e : leb_ℤ l.price last ≡ true = ground arith in rw (e, (level_to_string-Reads l w).1) refl
  check_price-not Side.buy last l w h =
      let e : leb_ℤ last l.price ≡ true = ground arith in rw (e, (level_to_string-Reads l w).1) refl
  check_price-not Side.invalid last l w h = ground arith
  check_price-not (Side.unnamed b) last l w h = ground arith

  Passes-and_then :
      {A B : Type 0} (b : Bool) (w : Book E) (r : Run (Book E) A) (k : A → Cmd (Book E) B)
      → Passes b w r
      → ((a : A) → Reads w (k a w))
      → Passes b w (and_then r k)
  Passes-and_then true w r k reads more = and_then-Reads r k reads more
  Passes-and_then false w r k e more = ap (λ x. and_then x k) e

  module _ (label : Text) (side : Side) (detailed check : Bool) (orders_fuel : ℕ) where
    abbrev levels : (fuel count : ℕ) (best itr : Ptr) (last : ℤ) (w : Book E) → Run (Book E) Text
    levels = print_levels label side detailed check orders_fuel

    -- One level and the loop on the ones behind it, when the price of the level is in order.
    levels-step :
        (b : Bool) (fuel count i p n : ℕ) (best next : Ptr) (last last' : ℤ) (w : Book E)
        → HasOrders w orders_fuel (i ∷ [])
        → prev_entries w i ≡ some p
        → next_entries w i ≡ some n
        → (if ptr_eq (next_entries w i) best then none else next_entries w i) ≡ next
        → check_price side last (level_entry w i) check w ≡ ok last' w
        → Passes b w (levels fuel (count + 1) best next last' w)
        → Passes b w (levels (suc fuel) count best (some i) last w)
    unfolding print_levels load_level
    levels-step b fuel count i p n best next last last' w ((x, xs, queue, enough), _) prev next_is
          goes checked rest =
        let (t, printed) =
          print_level-check detailed orders_fuel i p n x xs side last check w queue enough prev
            next_is in
        rw (printed, checked, goes) (Passes-and_then b w _ _ rest (λ text. (_, refl)))

    levels-fatal :
        (fuel count i p n : ℕ) (best : Ptr) (last : ℤ) (w : Book E)
        → HasOrders w orders_fuel (i ∷ [])
        → prev_entries w i ≡ some p
        → next_entries w i ≡ some n
        → check_price side last (level_entry w i) check w ≡ fault fatal
        → levels (suc fuel) count best (some i) last w ≡ fault fatal
    unfolding print_levels load_level
    levels-fatal fuel count i p n best last w ((x, xs, queue, enough), _) prev next_is checked =
        let (t, printed) =
          print_level-check detailed orders_fuel i p n x xs side last check w queue enough prev
            next_is in
        rw (printed, checked) refl

  -- What the check decides at a level, about all levels from it on.
  check_price-cases :
      (side : Side) (check : Bool) (last : ℤ) (l : MeOrdersAtPrice) (more : List ℤ) (w : Book E)
      → ((last' : ℤ) × (check_price side last l check w ≡ ok last' w)
          × ((not check || is_sorted side last (l.price ∷ more))
              ≡ (not check || is_sorted side last' more)))
        ⊎ ((check_price side last l check w ≡ fault fatal)
            × ((not check || is_sorted side last (l.price ∷ more)) ≡ false))
  unfolding check_price
  check_price-cases side false last l more w = inl (last, refl, refl)
  check_price-cases side true last l more w = elim (Bool-cases (is_beyond side last l.price)) [
    | inl h ↦ inl (l.price, check_price-beyond side last l w h, rw h refl)
    | inr h ↦ inr (check_price-not side last l w h, rw h refl)
  ]

  levels-none :
      (label : Text) (side : Side) (detailed check : Bool) (orders_fuel fuel count : ℕ) (best : Ptr)
      (last : ℤ) (w : Book E)
      → Passes
          (not check || true)
          w
          (print_levels label side detailed check orders_fuel fuel count best none last w)
  unfolding print_levels
  levels-none label side detailed true orders_fuel fuel count best last w = ([], refl)
  levels-none label side detailed false orders_fuel fuel count best last w = ([], refl)

  print_levels-Passes :
      (label : Text) (side : Side) (detailed check : Bool) (orders_fuel fuel count best i p : ℕ)
      (is : List ℕ) (last : ℤ) (w : Book E)
      → IsPath (next_entries w) (prev_entries w) i is best
      → member best is ≡ false
      → prev_entries w i ≡ some p
      → HasOrders w orders_fuel (i ∷ is)
      → length is < fuel
      → Passes (not check || is_sorted side last (level_prices w (i ∷ is))) w (
          print_levels label side detailed check orders_fuel fuel count (some best) (some i) last w)
  print_levels-Passes label side detailed check orders_fuel zero count best i p is last w path out
        prev orders enough =
      absurd (omega arith)
  print_levels-Passes label side detailed check orders_fuel (suc fuel) count best i p [] last w path
        out prev (queue, _) enough =
      elim (check_price-cases side check last (level_entry w i) [] w) [
        | inl c ↦ rw (c.2) (
            levels-step label side detailed check orders_fuel _ fuel count i p best (some best) none
              last c.0 w (queue, tt) prev path.0 (ground arith) c.1
              (levels-none label side detailed check orders_fuel fuel (count + 1) (some best) c.0
                w))
        | inr c ↦ rw (c.1) (
            levels-fatal label side detailed check orders_fuel fuel count i p best (some best) last
              w (queue, tt) prev path.0 c.0)
      ]
  print_levels-Passes label side detailed check orders_fuel (suc fuel) count best i p (n ∷ is) last
        w path out prev (queue, orders) enough =
      elim (check_price-cases side check last (level_entry w i) (level_prices w (n ∷ is)) w) [
        | inl c ↦ rw (c.2) (
            levels-step label side detailed check orders_fuel _ fuel count i p n (some best)
              (some n) last c.0 w (queue, tt) prev path.0.0 (ground arith) c.1
              (print_levels-Passes label side detailed check orders_fuel fuel (count + 1) best n i
                is c.0 w path.1 (ground arith) path.0.1 orders (omega arith)))
        | inr c ↦ rw (c.1) (
            levels-fatal label side detailed check orders_fuel fuel count i p n (some best) last w
              (queue, tt) prev path.0.0 c.0)
      ]

  -- Let `bids_at_price_` be null and the ask levels, from `asks_at_price_` on, be a ring of levels
  -- each once, each with a ring of orders each once, and let the loops have as many rounds as there
  -- are levels and as a level has orders. Then `toString`, detailed or not, returns and leaves the
  -- book as it is, if it makes no validity check or if the prices from the best level on go up
  -- strictly from the least value of `Price`; else its check is fatal.
  pub to_string-Passes :
      (fuel : ℕ) (detailed check : Bool) (i : ℕ) (is : List ℕ) (w : Book E)
      → w.book.bids_at_price ≡ none
      → w.book.asks_at_price ≡ some i
      → IsPath (next_entries w) (prev_entries w) i is i
      → IsUnique (i ∷ is)
      → HasOrders w fuel (i ∷ is)
      → length is < fuel
      → Passes
          (not check || is_sorted Side.sell price_min (level_prices w (i ∷ is)))
          w
          (to_string fuel detailed check w)
  unfolding to_string print_levels
  to_string-Passes fuel detailed check i is w no_bids asks path unique orders enough =
      let asks_printed =
        subst
          (λ p.
            Passes (not check || is_sorted Side.sell price_min (level_prices w (i ∷ is))) w
              (print_levels (codes "ASKS L:") Side.sell detailed check fuel fuel 0 p p price_min w))
          (sym asks)
          (print_levels-Passes (codes "ASKS L:") Side.sell detailed check fuel fuel 0 i i
            (last_of i is) is price_min w path unique.0
            (IsPath-last (next_entries w) (prev_entries w) i is i path).1 orders enough) in
      let bids_printed : Reads w (
          print_levels (codes "BIDS L:") Side.buy detailed check fuel fuel 0 w.book.bids_at_price
            w.book.bids_at_price price_invalid w) =
        subst
          (λ p. Reads w (
            print_levels (codes "BIDS L:") Side.buy detailed check fuel fuel 0 p p price_invalid w))
          (sym no_bids) ([], refl) in
      Passes-and_then _ w _ _ asks_printed λ asks. and_then-Reads _ _ bids_printed λ bids. (_, refl)
