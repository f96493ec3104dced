-- ===== src/MemPool/Tests.antt =====
-- Runs of a small pool, and the theorems at concrete pools.
use trading_ecosystem.Prelude.{ℕ, ◌≡◌, refl, true, false, update, arith}
use trading_ecosystem.Run.{ok, fault, assert_failed, ◌>>=◌}
use trading_ecosystem.Run.Ensures.{Ensures}
use trading_ecosystem.MemPool.{MemPool, block, create, allocate, deallocate}
use trading_ecosystem.MemPool.Allocation.{
  IsValid, Handed, allocate-IsValid, allocate_returns, allocate-last, Restored, deallocate-allocate,
}

abbrev three_blocks : MemPool ℕ
three_blocks = record { store = λ _. block 0 true; size = 3; next_free_index = 0 }

three_blocks-IsValid : IsValid three_blocks
three_blocks-IsValid = record { inside = omega arith; free = refl }

-- The same pool with the first block in use.
abbrev one_taken : MemPool ℕ
one_taken = record {
  store = update three_blocks.store 0 (block 7 false);
  size = 3;
  next_free_index = 1;
}

-- A pool of one block, free: it can give out nothing.
abbrev one_block : MemPool ℕ
one_block = record { store = λ _. block 0 true; size = 1; next_free_index = 0 }

one_block-IsValid : IsValid one_block
one_block-IsValid = record { inside = omega arith; free = refl }

create_test : create 0 3 ≡ three_blocks
unfolding create
create_test = refl

allocate_test : allocate 7 three_blocks ≡ ok 0 one_taken
unfolding allocate
allocate_test = refl

-- Three allocations from three blocks end the process.
exhausted_test :
    (allocate 7 >>= λ i. allocate 8 >>= λ j. allocate 9) three_blocks ≡ fault assert_failed
unfolding allocate
exhausted_test = refl

allocate-IsValid_example : Ensures (Handed 7 three_blocks) (allocate 7 three_blocks)
allocate-IsValid_example = allocate-IsValid 7 three_blocks three_blocks-IsValid

allocate_returns_example : (q : MemPool ℕ) × (allocate 7 three_blocks ≡ ok 0 q)
allocate_returns_example =
    allocate_returns 7 three_blocks 2 three_blocks-IsValid (omega arith) (omega arith) refl

allocate-last_example : allocate 7 one_block ≡ fault assert_failed
allocate-last_example = allocate-last 7 one_block one_block-IsValid (λ j h ne. absurd (omega arith))

deallocate-allocate_example :
    (r : MemPool ℕ) × (deallocate 0 one_taken ≡ ok tt r) × Restored three_blocks r
deallocate-allocate_example = deallocate-allocate 7 three_blocks three_blocks-IsValid allocate_test
