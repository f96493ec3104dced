-- ===== src/MemPool.antt =====
-- low-latency-components/mem_pool.h: a pool of preallocated blocks with a rotating free index.
-- A pointer into the pool is the index of its block; a freed block keeps its old object.
pub mod Allocation
pub mod Count
pub mod FreeIndex
mod Tests
use trading_ecosystem.Prelude.{
  ℕ, zero, suc, ◌+◌, Bool, true, false, not, ◌==◌, ltb, if◌then◌else◌, update,
}
use trading_ecosystem.Run.{
  Run, Cmd, ok, fault, assert_failed, out_of_fuel, ◌>>=◌, ◌>>◌, assert, halt, pure, gets, modify,
}

pub record ObjectBlock (T : Type 0) : Type 0 where
  pub object : T
  pub is_free : Bool

abbrev pub block : {T : Type 0} → T → Bool → ObjectBlock T
block v free = record { object = v; is_free = free }

-- `size` stands for `store_.size()`; blocks from it on do not exist.
pub record MemPool (T : Type 0) : Type 0 where
  pub store : ℕ → ObjectBlock T
  pub size : ℕ
  pub next_free_index : ℕ

-- The index after `i`, going round at the end of the vector.
abbrev pub following : ℕ → ℕ → ℕ
following size i = if i + 1 == size then 0 else i + 1

module _ {T : Type 0} where
  -- The constructor: every block holds `T()` and is free.
  unfoldable pub create : T → ℕ → MemPool T
  create default num_elems = record {
    store = λ _. block default true;
    size = num_elems;
    next_free_index = 0;
  }

  -- The loop. Its rounds are bounded by the size, after which the index is back where it began.
  unfoldable pub free_from : (ℕ → ObjectBlock T) → (size initial fuel : ℕ) → ℕ → Cmd (MemPool T) ℕ
  free_from store size initial zero i = halt out_of_fuel
  free_from store size initial (suc fuel) i =
      let rest = free_from store size initial fuel (following size i) in
      if (store i).is_free
      then pure i
      else if initial == following size i
      then halt assert_failed
      else rest

  unfoldable pub update_next_free_index : Cmd (MemPool T) (Unit {0})
  unfolding free_from
  update_next_free_index p =
      (do
        i ← free_from p.store p.size p.next_free_index p.size p.next_free_index
        modify (λ q. record q { next_free_index = i }))
        p

  unfoldable pub allocate : T → Cmd (MemPool T) ℕ
  unfolding update_next_free_index
  allocate v = do
    i ← gets (λ p. p.next_free_index)
    was_free ← gets (λ p. (p.store i).is_free)
    assert was_free
    modify (λ p. record p { store = update p.store i (block v false) })
    update_next_free_index
    pure i

  unfoldable pub deallocate : ℕ → Cmd (MemPool T) (Unit {0})
  deallocate i = do
    inside ← gets (λ p. ltb i p.size)
    assert inside
    was_free ← gets (λ p. (p.store i).is_free)
    assert (not was_free)
    modify (λ p. record p { store = update p.store i (block (p.store i).object true) })

  -- A write through a pointer into the pool.
  abbrev pub write_object : ℕ → (T → T) → MemPool T → MemPool T
  write_object i f p = record p {
    store = update p.store i (block (f (p.store i).object) (p.store i).is_free);
  }
