-- ===== src/OrderBook/AtRung.antt =====
-- A change of the orders of any one price level of the sell side of me_order_book.h.
use trading_ecosystem.Prelude.{
  ℕ, suc, ℤ, ◌≡◌, refl, sym, ap, ◌∙◌, true, false, List, [], ◌∷◌, ◌++◌, member, member-append,
  IsUnique, IsUnique-swap, arith,
}
use mathlib.Core.Path.{subst}
use mathlib.Core.List.{append_assoc}
use trading_ecosystem.OrderBook.{Book}
use trading_ecosystem.OrderBook.Aside.{IsSteady, IsSteady-IsAside}
use trading_ecosystem.OrderBook.Rungs.{HasRungs}
use trading_ecosystem.OrderBook.AskSide.{
  Rung, levels, all_orders, IsStanding, AllStanding, IsAskSide, HasRungs-steady, IsStanding-aside,
  AllStanding-aside,
}
use trading_ecosystem.OrderBook.Sweeping.{rung_of}

levels-append : (rs₁ rs₂ : List Rung) → levels (rs₁ ++ rs₂) ≡ levels rs₁ ++ levels rs₂
levels-append [] rs₂ = refl
levels-append (r ∷ rs₁) rs₂ = ap (λ ms. r.level ∷ ms) (levels-append rs₁ rs₂)

pub all_orders-append :
    (rs₁ rs₂ : List Rung) → all_orders (rs₁ ++ rs₂) ≡ all_orders rs₁ ++ all_orders rs₂
all_orders-append [] rs₂ = refl
all_orders-append (r ∷ rs₁) rs₂ =
    ap (λ zs. r.orders ++ zs) (all_orders-append rs₁ rs₂)
    ∙ sym (append_assoc r.orders (all_orders rs₁) (all_orders rs₂))

module _ {E : Type 0} where
  HasRungs-IsUnique : (w : Book E) (ms : List ℕ) → HasRungs w ms → IsUnique ms
  HasRungs-IsUnique w [] rungs = tt
  HasRungs-IsUnique w (m ∷ ms) (best, path, unique) = unique

  -- A change of nothing that the sell side is made of.
  pub IsAskSide-same :
      (w w' : Book E) (rs : List Rung)
      → ((m : ℕ) → IsSteady m [] w w')
      → IsAskSide w rs
      → IsAskSide w' rs
  IsAskSide-same w w' rs steady side = record {
    rungs = HasRungs-steady 0 [] w w' (levels rs) (steady 0) side.rungs;
    standing = go rs side.standing;
    unique = side.unique;
  }
    where
      go : (ss : List Rung) → AllStanding w ss → AllStanding w' ss
      go [] s = tt
      go (r ∷ ss) s = (
        IsStanding-aside (suc r.level) [] w w'
            (IsSteady-IsAside (suc r.level) [] w w' (steady (suc r.level))) r
            (λ e. absurd (omega arith)) (λ z m. refl) s.0,
        go ss s.1,
      )

  AllStanding-split :
      (w : Book E) (rs₁ rs₂ : List Rung)
      → AllStanding w (rs₁ ++ rs₂)
      → AllStanding w rs₁ × AllStanding w rs₂
  AllStanding-split w [] rs₂ s = (tt, s)
  AllStanding-split w (r ∷ rs₁) rs₂ s =
      let (front, back) = AllStanding-split w rs₁ rs₂ s.1 in ((s.0, front), back)

  AllStanding-join :
      (w : Book E) (rs₁ rs₂ : List Rung)
      → AllStanding w rs₁
      → AllStanding w rs₂
      → AllStanding w (rs₁ ++ rs₂)
  AllStanding-join w [] rs₂ front back = back
  AllStanding-join w (r ∷ rs₁) rs₂ front back = (front.0, AllStanding-join w rs₁ rs₂ front.1 back)

module _ (rs₁ : List Rung) (level : ℕ) (price : ℤ) (rs₂ : List Rung) where
  -- The rungs with these orders at the level.
  abbrev pub rungs_with : List ℕ → List Rung
  rungs_with zs = rs₁ ++ (rung_of level price zs ∷ rs₂)

  levels-with : (zs ys : List ℕ) → levels (rungs_with zs) ≡ levels (rungs_with ys)
  levels-with zs ys =
      levels-append rs₁ (rung_of level price zs ∷ rs₂)
      ∙ sym (levels-append rs₁ (rung_of level price ys ∷ rs₂))

  pub all_orders-with :
      (zs : List ℕ) → all_orders (rungs_with zs) ≡ all_orders rs₁ ++ (zs ++ all_orders rs₂)
  all_orders-with zs = all_orders-append rs₁ (rung_of level price zs ∷ rs₂)

  module _ {E : Type 0} where
    other_levels :
        (w : Book E) (zs : List ℕ)
        → IsAskSide w (rungs_with zs)
        → (member level (levels rs₁) ≡ false) × (member level (levels rs₂) ≡ false)
    other_levels w zs side =
        let unique =
          subst IsUnique (levels-append rs₁ (rung_of level price zs ∷ rs₂))
            (HasRungs-IsUnique w (levels (rungs_with zs)) side.rungs) in
        let out = (IsUnique-swap (levels rs₁) (level ∷ levels rs₂) unique).0 in
        (
          ground (arith, member-append level (levels rs₂) (levels rs₁), out),
          ground (arith, member-append level (levels rs₂) (levels rs₁), out),
        )

    -- A change of the orders `touched`, none of which is at another level.
    pub at_rung :
        (touched zs ys : List ℕ) (w w' : Book E)
        → IsAskSide w (rungs_with zs)
        → IsSteady level touched w w'
        → ((z : ℕ) → member z (all_orders rs₁) ≡ true → member z touched ≡ false)
        → ((z : ℕ) → member z (all_orders rs₂) ≡ true → member z touched ≡ false)
        → IsStanding w' (rung_of level price ys)
        → IsUnique (all_orders (rungs_with ys))
        → IsAskSide w' (rungs_with ys)
    at_rung touched zs ys w w' side steady apart₁ apart₂ stands unique =
        let (out₁, out₂) = other_levels w zs side in
        let (front, back) = AllStanding-split w rs₁ (rung_of level price zs ∷ rs₂) side.standing in
        let aside = IsSteady-IsAside level touched w w' steady in
        record {
          rungs =
              subst (HasRungs w') (levels-with zs ys)
                (HasRungs-steady level touched w w' (levels (rungs_with zs)) steady side.rungs);
          standing =
              AllStanding-join w' rs₁ (rung_of level price ys ∷ rs₂)
                (AllStanding-aside level touched w w' aside rs₁ out₁ apart₁ front)
                (stands, AllStanding-aside level touched w w' aside rs₂ out₂ apart₂ back.1);
          unique = unique;
        }

    pub IsStanding-at :
        (zs : List ℕ) (w : Book E)
        → IsAskSide w (rungs_with zs)
        → IsStanding w (rung_of level price zs)
    IsStanding-at zs w side =
        (AllStanding-split w rs₁ (rung_of level price zs ∷ rs₂) side.standing).1.0
