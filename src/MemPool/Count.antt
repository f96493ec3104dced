-- ===== src/MemPool/Count.antt =====
-- How many blocks of a pool are in use.
use trading_ecosystem.Prelude.{
  ℕ, zero, suc, ◌+◌, ◌≤◌, ◌<◌, ◌≡◌, refl, true, false, arith, ltb, ◌&&◌, not, update, if◌then◌else◌,
  ◌==◌, Bool-cases, inl, inr,
}
use trading_ecosystem.Run.Ensures.{Ensures, returns, ends, branch}
use trading_ecosystem.MemPool.{ObjectBlock, block, MemPool, deallocate, write_object}
use trading_ecosystem.MemPool.Allocation.{deallocate_lem}

module _ {T : Type 0} where
  pub count_used : (ℕ → ObjectBlock T) → ℕ → ℕ
  count_used store zero = 0
  count_used store (suc n) = (if (store n).is_free then 0 else 1) + count_used store n

  abbrev pub used : MemPool T → ℕ
  used p = count_used p.store p.size

  count_used-le : (store : ℕ → ObjectBlock T) (n : ℕ) → count_used store n ≤ n
  unfolding count_used
  count_used-le store zero = omega arith
  count_used-le store (suc n) = ground (arith, count_used-le store n)

  pub used-le-size : (p : MemPool T) → used p ≤ p.size
  used-le-size p = count_used-le p.store p.size

  count_used-write :
      (store : ℕ → ObjectBlock T) (n i : ℕ) (v : T)
      → count_used (update store i (block v (store i).is_free)) n ≡ count_used store n
  unfolding count_used
  count_used-write store zero i v = refl
  count_used-write store (suc n) i v = ground (arith, count_used-write store n i v)

  pub used-write_object : (i : ℕ) (f : T → T) (p : MemPool T) → used (write_object i f p) ≡ used p
  used-write_object i f p = count_used-write p.store p.size i (f (p.store i).object)

  count_used-outside :
      (store : ℕ → ObjectBlock T) (n i : ℕ) (b : ObjectBlock T)
      → n ≤ i
      → count_used (update store i b) n ≡ count_used store n
  unfolding count_used
  count_used-outside store zero i b h = refl
  count_used-outside store (suc n) i b h = ground (arith, count_used-outside store n i b)

  count_used-free :
      (store : ℕ → ObjectBlock T) (n i : ℕ) (v : T)
      → i < n
      → (store i).is_free ≡ false
      → suc (count_used (update store i (block v true)) n) ≡ count_used store n
  unfolding count_used
  count_used-free store zero i v h busy = absurd (omega arith)
  count_used-free store (suc n) i v h busy = elim (Bool-cases (i == n)) [
    | inl here ↦ ground (arith, count_used-outside store n i (block v true))
    | inr below ↦ ground (arith, count_used-free store n i v)
  ]

  -- A block given back is one block less in use.
  pub deallocate-used :
      (i : ℕ) (p : MemPool T) → Ensures (λ _ q. suc (used q) ≡ used p) (deallocate i p)
  deallocate-used i p = rw (deallocate_lem i p) (
      branch (ltb i p.size && not (p.store i).is_free)
        (λ h.
          returns
            (count_used-free p.store p.size i (p.store i).object (ground arith) (ground arith)))
        (λ h. ends))
