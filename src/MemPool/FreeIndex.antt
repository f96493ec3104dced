-- ===== src/MemPool/FreeIndex.antt =====
-- `updateNextFreeIndex` of mem_pool.h: the search for a free block.
use trading_ecosystem.Prelude.{
  ℕ, zero, suc, ◌-◌, ◌≤◌, ◌<◌, ◌≡◌, ◌⊎◌, inl, inr, true, false, arith, ◌==◌, leb, if◌then◌else◌,
  Bool-cases,
}
use trading_ecosystem.Run.{Run, ok, fault, assert_failed}
use trading_ecosystem.MemPool.{ObjectBlock, MemPool, following, free_from}

-- The rounds that are left until the search comes back to `initial`.
abbrev pub rounds : ℕ → ℕ → ℕ → ℕ
rounds size initial i = if leb initial i then size - (i - initial) else initial - i

-- The blocks from `i` on, round the end, up to `initial`.
abbrev pub Ahead : ℕ → ℕ → ℕ → Type 0
Ahead initial i j =
    ((initial ≤ i) × ((i ≤ j) ⊎ (j < initial))) ⊎ ((i < initial) × (i ≤ j) × (j < initial))

Ahead-following :
    (size initial i j : ℕ)
    → i < size
    → initial < size
    → j < size
    → (initial == following size i) ≡ false
    → Ahead initial i j
    → (j ≡ i) ⊎ Ahead initial (following size i) j
Ahead-following size initial i j hi hn hj more ahead = ground arith

Ahead-last :
    (size initial i j : ℕ)
    → i < size
    → initial < size
    → j < size
    → (initial == following size i) ≡ true
    → Ahead initial i j
    → j ≡ i
Ahead-last size initial i j hi hn hj back ahead = ground arith

following-lt : (size i : ℕ) → i < size → following size i < size
following-lt size i h = ground arith

rounds-following :
    (size initial i fuel : ℕ)
    → i < size
    → initial < size
    → (initial == following size i) ≡ false
    → rounds size initial i ≤ suc fuel
    → rounds size initial (following size i) ≤ fuel
rounds-following size initial i fuel hi hn more enough = ground arith

module _ {T : Type 0} (store : ℕ → ObjectBlock T) (size initial : ℕ) (p : MemPool T) where
  pub data Found (i : ℕ) : Run (MemPool T) ℕ → Type 0 where
    found : (j : ℕ) → j < size → (store j).is_free ≡ true → Found i (ok j p)
    exhausted :
        ((j : ℕ) → j < size → Ahead initial i j → (store j).is_free ≡ false)
        → Found i (fault assert_failed)

  Found-used :
      {r : Run (MemPool T) ℕ} (i : ℕ)
      → i < size
      → initial < size
      → (store i).is_free ≡ false
      → (initial == following size i) ≡ false
      → Found (following size i) r
      → Found i r
  Found-used i hi hn used more (found j hj free) = found j hj free
  Found-used i hi hn used more (exhausted all) = exhausted λ j hj ahead.
      elim (Ahead-following size initial i j hi hn hj more ahead) [
        | inl here ↦ rw here used
        | inr later ↦ all j hj later
      ]

  pub free_from-Found :
      (fuel i : ℕ)
      → i < size
      → initial < size
      → rounds size initial i ≤ fuel
      → Found i (free_from store size initial fuel i p)
  unfolding free_from
  free_from-Found zero i hi hn enough = absurd (ground arith)
  free_from-Found (suc fuel) i hi hn enough = elim (Bool-cases (store i).is_free) [
    | inl free ↦ rw free (found i hi free)
    | inr used ↦ elim (Bool-cases (initial == following size i)) [
      | inl back ↦
          rw (used, back)
            (exhausted λ j hj ahead. rw (Ahead-last size initial i j hi hn hj back ahead) used)
      | inr more ↦
          rw (used, more)
            (Found-used i hi hn used more (
              free_from-Found fuel (following size i) (following-lt size i hi) hn
                (rounds-following size initial i fuel hi hn more enough)))
    ]
  ]
