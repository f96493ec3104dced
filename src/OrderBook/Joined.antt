-- ===== src/OrderBook/Joined.antt =====
-- The book after `add` of me_order_book.cpp has put an order to rest at a price that has a level.
use trading_ecosystem.Prelude.{
  ℕ, ◌+◌, ◌%◌, ◌<◌, ℤ, ◌≡◌, ◌≢◌, refl, sym, ap, ◌∙◌, true, false, Ptr, some, List, [], ◌∷◌, ◌++◌,
  member, arith,
}
use mathlib.Core.Path.{subst}
use trading_ecosystem.Run.{ok, put_back}
use trading_ecosystem.Run.Ensures.{of_ok}
use trading_ecosystem.Run.Sequencing.{then_returns}
use trading_ecosystem.MemPool.{MemPool}
use trading_ecosystem.MemPool.Allocation.{IsValid, Handed, allocate_returns, allocate-IsValid}
use trading_ecosystem.Types.{Side, priority_mod, me_max_num_clients, me_max_order_ids}
use trading_ecosystem.Order.{MeOrder}
use trading_ecosystem.Message.{Outbound}
use trading_ecosystem.OrderBook.{Book, price_to_index, send_update, on_order_pool}
use trading_ecosystem.OrderBook.Matching.{rest_order}
use trading_ecosystem.OrderBook.Ring.{last_of, member-last, separate, IsPath-apart}
use trading_ecosystem.OrderBook.TimePriority.{
  order_at, nexts, prevs, HasQueue, with_link, linked, linked-HasQueue,
}
use trading_ecosystem.OrderBook.Indexed.{written}
use trading_ecosystem.OrderBook.Untouched.{terms, write-terms, IsKept}
use trading_ecosystem.OrderBook.Aside.{IsSteady, IsSteady-trans, order_block}
use trading_ecosystem.OrderBook.Leaving.{with_link-IsSteady}
use trading_ecosystem.OrderBook.Joining.{get_next_priority-last, resting}
use trading_ecosystem.OrderBook.Rested.{add_order-linked}

abbrev order_next : Ptr → MeOrder → MeOrder
order_next p r = record r { next_order = p }

abbrev order_prev : Ptr → MeOrder → MeOrder
order_prev p r = record r { prev_order = p }

module _ {E : Type 0} where
  -- Only the order pool is another.
  abbrev pub with_orders : Book E → MemPool MeOrder → Book E
  with_orders w q = record w { book = record w.book { order_pool = q } }

  abbrev pub joined :
      Book E → MemPool MeOrder → (x : ℕ) → (xs : List ℕ) → (i client client_order : ℕ) → E → Book E
  joined w q x xs i client client_order e =
      record (written client client_order (some i) (linked (with_orders w q) x (last_of x xs) i)) {
        engine = e;
      }

  linked-terms :
      (w : Book E) (x l o j : ℕ) → terms (order_block (linked w x l o) j) ≡ terms (order_block w j)
  linked-terms w x l o j =
      let w₁ = with_link w l (order_next (some o)) in
      let w₂ = with_link w₁ o (order_prev (some l)) in
      let w₃ = with_link w₂ o (order_next (some x)) in
      write-terms x (order_prev (some o)) w₃.book.order_pool (λ b. refl) j
      ∙ write-terms o (order_next (some x)) w₂.book.order_pool (λ b. refl) j
      ∙ write-terms o (order_prev (some l)) w₁.book.order_pool (λ b. refl) j
      ∙ write-terms l (order_next (some o)) w.book.order_pool (λ b. refl) j

  linked-IsSteady :
      (w : Book E) (x l o level : ℕ) (zs : List ℕ)
      → member x zs ≡ true
      → member l zs ≡ true
      → member o zs ≡ true
      → IsSteady level zs w (linked w x l o)
  linked-IsSteady w x l o level zs mx ml mo =
      let w₁ = with_link w l (order_next (some o)) in
      let w₂ = with_link w₁ o (order_prev (some l)) in
      let w₃ = with_link w₂ o (order_next (some x)) in
      IsSteady-trans level zs w w₁ _ (with_link-IsSteady level l (order_next (some o)) zs w ml) (
        IsSteady-trans level zs w₁ w₂ _ (with_link-IsSteady level o (order_prev (some l)) zs w₁ mo)
          (IsSteady-trans level zs w₂ w₃ _
            (with_link-IsSteady level o (order_next (some x)) zs w₂ mo)
            (with_link-IsSteady level x (order_prev (some o)) zs w₃ mx)))

  module _ (new : MeOrder) (w : Book E) (i : ℕ) (q : MemPool MeOrder)
      (handed : Handed new w.book.order_pool i q) (x : ℕ) (xs : List ℕ) (client client_order : ℕ)
      (e : E) where
    pub joined-IsSteady :
        (level : ℕ) → IsSteady level (i ∷ x ∷ xs) w (joined w q x xs i client client_order e)
    joined-IsSteady level =
        let zs = i ∷ x ∷ xs in
        let steady =
          linked-IsSteady (with_orders w q) x (last_of x xs) i level zs (ground arith)
            (ground (arith, member-last x xs)) (ground arith) in
        record {
          prices = refl;
          asks = refl;
          size = steady.size ∙ handed.4;
          level_size = refl;
          rungs = λ m. refl;
          firsts = λ m ne. refl;
          blocks = λ z out. steady.blocks z out ∙ handed.3 z (ground arith);
        }

    pub joined-IsKept : IsKept i w (joined w q x xs i client client_order e)
    joined-IsKept = record {
      prices = refl;
      asks = refl;
      bids = refl;
      size = handed.4;
      at_others =
          λ j ne. linked-terms (with_orders w q) x (last_of x xs) i j ∙ ap terms (handed.3 j ne);
    }

    pub joined-terms :
        terms (order_block (joined w q x xs i client client_order e) i)
        ≡ (false, new.client_id, new.client_order_id, new.price, new.qty, new.side)
    joined-terms = linked-terms (with_orders w q) x (last_of x xs) i i ∙ ap terms handed.2

    given-HasQueue :
        (level : ℕ)
        → member i (x ∷ xs) ≡ false
        → HasQueue w level (x ∷ xs)
        → HasQueue (with_orders w q) level (x ∷ xs)
    given-HasQueue level apart (first, path, unique) = (
      first,
      IsPath-apart (nexts w) (prevs w) (nexts (with_orders w q)) (prevs (with_orders w q)) i x xs x
          (λ j ne. ap (λ b. b.object.next_order) (handed.3 j ne))
          (λ j ne. ap (λ b. b.object.prev_order) (handed.3 j ne)) apart
          (separate x i (x ∷ xs) (ground arith) apart) path,
      unique,
    )

    pub joined-HasQueue :
        (level : ℕ)
        → member i (x ∷ xs) ≡ false
        → HasQueue w level (x ∷ xs)
        → HasQueue (joined w q x xs i client client_order e) level (x ∷ (xs ++ (i ∷ [])))
    joined-HasQueue level apart queue =
        (linked-HasQueue i level x xs (with_orders w q) (given-HasQueue level apart queue) apart).1

module _ {E : Type 0} (out : Outbound E) (client client_order ticker : ℕ) (side : Side) (price : ℤ)
    (market_order leaves : ℕ) where
  abbrev pub resting_behind : Book E → (x : ℕ) → List ℕ → MeOrder
  resting_behind w x xs =
      resting client client_order ticker side price market_order leaves
        (((order_at w (last_of x xs)).priority + 1) % priority_mod)

  pub rest_order-joins :
      (level x k : ℕ) (xs : List ℕ) (w : Book E)
      → w.book.price_orders_at_price (price_to_index price) ≡ some level
      → HasQueue w level (x ∷ xs)
      → member w.book.order_pool.next_free_index (x ∷ xs) ≡ false
      → IsValid w.book.order_pool
      → k < w.book.order_pool.size
      → k ≢ w.book.order_pool.next_free_index
      → (w.book.order_pool.store k).is_free ≡ true
      → client < me_max_num_clients
      → client_order < me_max_order_ids
      → let i = w.book.order_pool.next_free_index in
        (q : MemPool MeOrder) × (e : E) × Handed (resting_behind w x xs) w.book.order_pool i q
        × (rest_order out client client_order ticker side price market_order leaves w
            ≡ ok tt (joined w q x xs i client client_order e))
  unfolding rest_order on_order_pool send_update
  rest_order-joins level x k xs w at_price queue apart valid inside other free by_client by_order =
      let new = resting_behind w x xs in
      let i = w.book.order_pool.next_free_index in
      let (q, given) = allocate_returns new w.book.order_pool k valid inside other free in
      let handed : Handed new w.book.order_pool i q =
        of_ok (rw given at (allocate-IsValid new w.book.order_pool valid)) in
      let w₁ = with_orders w q in
      let holds : order_at w₁ i ≡ new = ap (λ b. b.object) handed.2 in
      let added =
        add_order-linked i level x xs w₁
          (subst (λ o. o.client_id < me_max_num_clients) (sym holds) by_client)
          (subst (λ o. o.client_order_id < me_max_order_ids) (sym holds) by_order)
          (ap (λ o. w.book.price_orders_at_price (price_to_index o.price)) holds ∙ at_price)
          (given-HasQueue new w i q handed x xs client client_order w.engine level apart queue)
          apart in
      let named =
        ap
          (λ o.
            ok tt (written o.client_id o.client_order_id (some i) (linked w₁ x (last_of x xs) i)))
          holds in
      (
        q,
        _,
        handed,
        then_returns _ (get_next_priority-last price level x xs w at_price queue)
            (then_returns _ (ap (put_back _) given) (then_returns _ (added ∙ named) refl)),
      )
