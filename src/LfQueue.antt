-- ===== src/LfQueue.antt =====
-- low-latency-components/lock_free_queue.h: a ring of elements between one writer and one reader.
pub mod Fifo
pub mod Threads
pub mod Safety
mod Tests
use trading_ecosystem.Prelude.{
  ℕ, ◌+◌, ◌-◌, ◌%◌, ◌^◌, Bool, not, Ptr, none, some, ◌==◌, if◌then◌else◌, update,
}
use trading_ecosystem.Run.{Cmd, ◌>>=◌, ◌>>◌, gets, modify, assert, assert_failed}

-- `size` stands for `store_.size()`; the three counters are atomic.
pub record LfQueue (T : Type 0) : Type 0 where
  pub store : ℕ → T
  pub size : ℕ
  pub next_write_index : ℕ
  pub next_read_index : ℕ
  pub num_elements : ℕ

abbrev pub size_mod : ℕ
size_mod = 2 ^ 64

module _ {T : Type 0} where
  unfoldable pub create : T → ℕ → LfQueue T
  create default num_elems = record {
    store = λ _. default;
    size = num_elems;
    next_write_index = 0;
    next_read_index = 0;
    num_elements = 0;
  }

  -- `*getNextToWriteTo() = v`: the writer fills the slot before it moves the index.
  unfoldable pub fill_slot : T → LfQueue T → LfQueue T
  fill_slot v q = record q { store = update q.store q.next_write_index v }

  -- The two writes of `updateWriteIndex`, which other threads can see one by one.
  unfoldable pub move_write_index : LfQueue T → LfQueue T
  move_write_index q = record q { next_write_index = (q.next_write_index + 1) % q.size }

  unfoldable pub count_up : LfQueue T → LfQueue T
  count_up q = record q { num_elements = (q.num_elements + 1) % size_mod }

  unfoldable pub update_write_index : LfQueue T → LfQueue T
  unfolding move_write_index count_up
  update_write_index q = count_up (move_write_index q)

  -- A whole write, as the code's callers make it.
  unfoldable pub write : T → LfQueue T → LfQueue T
  unfolding fill_slot update_write_index
  write v q = update_write_index (fill_slot v q)

  -- The index of the slot that `getNextToRead` points at, or `none` for null.
  unfoldable pub get_next_to_read : LfQueue T → Ptr
  get_next_to_read q =
      if q.next_read_index == q.next_write_index then none else some q.next_read_index

  -- The steps of `updateReadIndex`. The count is not 0 after the assertion.
  unfoldable pub move_read_index : LfQueue T → LfQueue T
  move_read_index q = record q { next_read_index = (q.next_read_index + 1) % q.size }

  unfoldable pub has_elements : LfQueue T → Bool
  has_elements q = not (q.num_elements == 0)

  unfoldable pub count_down : LfQueue T → LfQueue T
  count_down q = record q { num_elements = q.num_elements - 1 }

  unfoldable pub update_read_index : Cmd (LfQueue T) (Unit {0})
  unfolding move_read_index has_elements count_down
  update_read_index = do
    modify move_read_index
    some_left ← gets has_elements
    assert some_left
    modify count_down
