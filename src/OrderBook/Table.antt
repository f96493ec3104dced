-- ===== src/OrderBook/Table.antt =====
-- A table from clients and order ids to blocks, as me_order_book.h has it, and the tags of the blocks.
use trading_ecosystem.Prelude.{
  ℕ, ◌≡◌, ◌≢◌, sym, ap, ◌∙◌, Bool, true, false, Bool-cases, inl, inr, ◌⊎◌, Ptr, none, some, update,
  ◌==◌, arith,
}

-- What a table points to is in use, and is an order of that client with that id.
abbrev pub Indexes : (ℕ → ℕ → Ptr) → (ℕ → Bool × ℕ × ℕ) → Type 0
Indexes t tags = (c o i : ℕ) → t c o ≡ some i → tags i ≡ (false, c, o)

-- The table with one entry written.
abbrev pub entered : (ℕ → ℕ → Ptr) → (c o : ℕ) → Ptr → ℕ → ℕ → Ptr
entered t c o p = update t c (update (t c) o p)

entered-cases :
    (t : ℕ → ℕ → Ptr) (c o : ℕ) (p : Ptr) (c' o' : ℕ)
    → ((c ≡ c') × (o ≡ o') × (entered t c o p c' o' ≡ p))
      ⊎ (((c ≡ c') × (o ≡ o') → ⊥) × (entered t c o p c' o' ≡ t c' o'))
entered-cases t c o p c' o' = elim (Bool-cases (c == c')) [
  | inl h ↦ elim (Bool-cases (o == o')) [
    | inl k ↦ inl (ground arith, ground arith, ground arith)
    | inr k ↦ inr (λ (e, f). ground arith, ground arith)
  ]
  | inr h ↦ inr (λ (e, f). ground arith, ground arith)
]

pub Indexes-remove :
    (t : ℕ → ℕ → Ptr) (tags tags' : ℕ → Bool × ℕ × ℕ) (i : ℕ)
    → Indexes t tags
    → ((j : ℕ) → j ≢ i → tags' j ≡ tags j)
    → Indexes (entered t (tags i).1 (tags i).2 none) tags'
Indexes-remove t tags tags' i h others c o j e =
    elim (entered-cases t (tags i).1 (tags i).2 none c o) [
      | inl (same, same', gone) ↦ ground (arith, gone, e)
      | inr (differ, kept) ↦
          let was = h c o j (sym kept ∙ e) in
          let elsewhere : j ≢ i = λ k. differ (
            ap (λ x. (tags x).1) (sym k) ∙ ap (λ x. x.1) was,
            ap (λ x. (tags x).2) (sym k) ∙ ap (λ x. x.2) was,
          ) in
          others j elsewhere ∙ was
    ]

pub Indexes-insert :
    (t : ℕ → ℕ → Ptr) (tags tags' : ℕ → Bool × ℕ × ℕ) (i c o : ℕ)
    → Indexes t tags
    → (tags i).0 ≡ true
    → tags' i ≡ (false, c, o)
    → ((j : ℕ) → j ≢ i → tags' j ≡ tags j)
    → Indexes (entered t c o (some i)) tags'
Indexes-insert t tags tags' i c o h was_free now others c' o' j e =
    elim (entered-cases t c o (some i) c' o') [
      | inl (same, same', put) ↦
          let it_is : i ≡ j = ground (arith, put, e) in
          let named : Path (Bool × ℕ × ℕ) (false, c, o) (false, c', o') =
            λ x. (false, same x, same' x) in
          ap tags' (sym it_is) ∙ now ∙ named
      | inr (differ, kept) ↦
          let was = h c' o' j (sym kept ∙ e) in
          let elsewhere : j ≢ i = λ k.
            let used : (tags i).0 ≡ false = ap (λ x. x.0) (ap tags (sym k) ∙ was) in
            ground (arith, used, was_free) in
          others j elsewhere ∙ was
    ]
