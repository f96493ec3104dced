-- ===== src/MemPool/Allocation.antt =====
-- What `allocate` and `deallocate` of the pool do, on every branch.
use trading_ecosystem.Prelude.{
  ℕ, ◌<◌, ◌≡◌, ◌≢◌, refl, true, false, arith, if◌then◌else◌, ltb, update, ◌&&◌, not, zero, suc,
  Bool-cases, inl, inr,
}
use trading_ecosystem.Run.{Run, ok, fault, assert_failed, and_then, modify, pure}
use trading_ecosystem.Run.Ensures.{
  Ensures, returns, ends, of_ok, bind, Keeps, Keeps-if, Keeps-pure, Keeps-halt, keeps_rules,
}
use trading_ecosystem.MemPool.{
  block, ObjectBlock, MemPool, following, free_from, update_next_free_index, allocate, deallocate,
}
use trading_ecosystem.MemPool.FreeIndex.{Found, found, exhausted, free_from-Found}

-- Between operations the free index points at a free block.
pub record IsValid {T : Type 0} (p : MemPool T) : Type 0 where
  pub inside : p.next_free_index < p.size
  pub free : (p.store p.next_free_index).is_free ≡ true

module _ {T : Type 0} where
  pub taken : T → MemPool T → MemPool T
  taken v p = record p { store = update p.store p.next_free_index (block v false) }

  -- The two ways in which an allocation ends.
  pub data Allocated (v : T) (p : MemPool T) : Run (MemPool T) ℕ → Type 0 where
    given :
        (j : ℕ)
        → j < p.size
        → j ≢ p.next_free_index
        → (p.store j).is_free ≡ true
        → Allocated v p (ok p.next_free_index (record (taken v p) { next_free_index = j }))
    full :
        ((j : ℕ) → j < p.size → j ≢ p.next_free_index → (p.store j).is_free ≡ false)
        → Allocated v p (fault assert_failed)

  -- `updateNextFreeIndex` and the return of `allocate`, after the search.
  finish : MemPool T → Run (MemPool T) ℕ → Run (MemPool T) ℕ
  finish p r =
      and_then (and_then r (λ j. modify (λ q. record q { next_free_index = j })))
        (λ _. pure p.next_free_index)

  Allocated-finish :
      (v : T) (p : MemPool T) {r : Run (MemPool T) ℕ}
      → Found (taken v p).store p.size p.next_free_index (taken v p) p.next_free_index r
      → Allocated v p (finish p r)
  unfolding finish taken
  Allocated-finish v p (found j hj free) = given j hj (ground arith) (ground arith)
  Allocated-finish v p (exhausted all) = full λ j hj ne. ground (arith, all j hj)

  allocate-Allocated : (v : T) (p : MemPool T) → IsValid p → Allocated v p (allocate v p)
  unfolding allocate update_next_free_index finish taken
  allocate-Allocated v p h = rw h.free (
      Allocated-finish v p (
        free_from-Found (taken v p).store p.size p.next_free_index (taken v p) p.size
          p.next_free_index h.inside h.inside (ground arith)))

  abbrev pub Handed : T → MemPool T → ℕ → MemPool T → Type 0
  Handed v p i q =
      (i < p.size)
      × ((p.store i).is_free ≡ true)
      × (q.store i ≡ block v false)
      × ((j : ℕ) → j ≢ i → q.store j ≡ p.store j)
      × (q.size ≡ p.size)
      × IsValid q

  -- If `allocate` returns from a valid pool, the block that it gives was a free block of the pool
  -- and now holds the new object and is in use, every other block and the size are as before, and
  -- the pool is valid.
  pub allocate-IsValid : (v : T) (p : MemPool T) → IsValid p → Ensures (Handed v p) (allocate v p)
  unfolding taken
  allocate-IsValid v p h = go (allocate-Allocated v p h)
    where
      go : {r : Run (MemPool T) ℕ} → Allocated v p r → Ensures (Handed v p) r
      go (given j hj ne free) = returns (
        h.inside,
        h.free,
        ground arith,
        λ k hk. ground arith,
        refl,
        record { inside = hj; free = ground arith },
      )
      go (full all) = ends

  -- From a valid pool in which another block than the one at the free index is free, `allocate`
  -- returns the one at the free index.
  pub allocate_returns :
      (v : T) (p : MemPool T) (k : ℕ)
      → IsValid p
      → k < p.size
      → k ≢ p.next_free_index
      → (p.store k).is_free ≡ true
      → (q : MemPool T) × (allocate v p ≡ ok p.next_free_index q)
  allocate_returns v p k h hk ne free = go (allocate-Allocated v p h)
    where
      go :
          {r : Run (MemPool T) ℕ} → Allocated v p r → (q : MemPool T) × (r ≡ ok p.next_free_index q)
      go (given j hj jne jfree) = (_, refl)
      go (full all) = absurd (ground (arith, all k hk ne))

  -- From a valid pool in which no other block than the one at the free index is free, `allocate`
  -- ends the process: the last free block cannot be had.
  pub allocate-last :
      (v : T) (p : MemPool T)
      → IsValid p
      → ((j : ℕ) → j < p.size → j ≢ p.next_free_index → (p.store j).is_free ≡ false)
      → allocate v p ≡ fault assert_failed
  allocate-last v p h used = go (allocate-Allocated v p h)
    where
      go : {r : Run (MemPool T) ℕ} → Allocated v p r → r ≡ fault assert_failed
      go (given j hj ne free) = absurd (ground (arith, used j hj ne))
      go (full all) = refl

  -- `deallocate` returns exactly on a block of the pool that is in use: then that block is free
  -- with its old object, and nothing else has changed. On any other index the process ends.
  pub deallocate_lem :
      (i : ℕ) (p : MemPool T)
      → deallocate i p ≡ (
          if ltb i p.size && not (p.store i).is_free
          then ok tt (record p { store = update p.store i (block (p.store i).object true) })
          else fault assert_failed)
  unfolding deallocate
  deallocate_lem i p = ground arith

  abbrev pub Restored : MemPool T → MemPool T → Type 0
  Restored p q = (j : ℕ) → (q.store j).is_free ≡ (p.store j).is_free

  -- If `allocate` returns a block from a valid pool, `deallocate` of that block returns, and
  -- afterwards the same blocks are free as at first.
  pub deallocate-allocate :
      (v : T) (p : MemPool T) {i : ℕ} {q : MemPool T}
      → IsValid p
      → allocate v p ≡ ok i q
      → (r : MemPool T) × (deallocate i q ≡ ok tt r) × Restored p r
  deallocate-allocate v p {i} {q} h e =
      let handed : Handed v p i q = of_ok (rw e at (allocate-IsValid v p h)) in
      (
        record q { store = update q.store i (block (q.store i).object true) },
        ground (arith, deallocate_lem i q),
        λ j. ground (arith, handed.3 j),
      )

  free_from-store :
      (s store : ℕ → ObjectBlock T) (size initial fuel i : ℕ)
      → Keeps (λ p. p.store ≡ s) (free_from store size initial fuel i)
  unfolding free_from
  free_from-store s store size initial zero i = search keeps_rules
  free_from-store s store size initial (suc fuel) i =
      Keeps-if _ _ _ (Keeps-pure _) (
        Keeps-if _ _ _ (Keeps-halt _)
          (free_from-store s store size initial fuel (following size i)))

  -- From any pool, an allocation that returns gives a block that was free, and writes only that one.
  pub allocate-store :
      (v : T) (p : MemPool T)
      → Ensures
          (λ i q. ((p.store i).is_free ≡ true) × (q.store ≡ update p.store i (block v false)))
          (allocate v p)
  unfolding allocate update_next_free_index
  allocate-store v p =
      let s = update p.store p.next_free_index (block v false) in
      elim (Bool-cases (p.store p.next_free_index).is_free) [
        | inl h ↦ rw h (
            bind
              (bind
                ((free_from-store s s p.size p.next_free_index p.size p.next_free_index).at _ refl)
                λ j q same. returns same)
              λ _ q same. returns (h, same))
        | inr h ↦ rw h ends
      ]
