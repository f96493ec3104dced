-- ===== src/LfQueue/Threads.antt =====
-- The queue between a writer's and a reader's thread: every interleaving of their atomic steps.
use trading_ecosystem.Prelude.{ℕ, ◌+◌, ◌≤◌, ◌≡◌, ◌≢◌, refl, none, arith, false, true}
use native.Mathlib.Nat.{mod-eq_of_lt}
use trading_ecosystem.LfQueue.{
  LfQueue, create, fill_slot, move_write_index, count_up, get_next_to_read, move_read_index,
  has_elements, count_down,
}

-- How far each thread has come in a write or a read. `stopped` is a reader whose assertion has failed,
-- which ends the process.
pub data Writer : Type 0 where
  idle filled moved : Writer

pub data Reader : Type 0 where
  idle seen moved stopped : Reader

pub record Shared (T : Type 0) : Type 0 where
  pub queue : LfQueue T
  pub writer : Writer
  pub reader : Reader

module _ {T : Type 0} where
  pub data Step (s : Shared T) : Shared T → Type 0 where
    fill :
        (v : T)
        → s.writer ≡ Writer.idle
        → Step s (record s { queue = fill_slot v s.queue; writer = Writer.filled })
    move_write :
        s.writer ≡ Writer.filled
        → Step s (record s { queue = move_write_index s.queue; writer = Writer.moved })
    count_write :
        s.writer ≡ Writer.moved
        → Step s (record s { queue = count_up s.queue; writer = Writer.idle })
    see :
        s.reader ≡ Reader.idle
        → get_next_to_read s.queue ≢ none
        → Step s (record s { reader = Reader.seen })
    move_read :
        s.reader ≡ Reader.seen
        → Step s (record s { queue = move_read_index s.queue; reader = Reader.moved })
    count_read :
        s.reader ≡ Reader.moved
        → has_elements s.queue ≡ true
        → Step s (record s { queue = count_down s.queue; reader = Reader.idle })
    assert_read :
        s.reader ≡ Reader.moved
        → has_elements s.queue ≡ false
        → Step s (record s { reader = Reader.stopped })

  pub data Reach (s : Shared T) : Shared T → Type 0 where
    here : Reach s s
    next : {t u : Shared T} → Reach s t → Step t u → Reach s u

  abbrev pub start : T → ℕ → Shared T
  start default size = record {
    queue = create default size;
    writer = Writer.idle;
    reader = Reader.idle;
  }

  -- On every queue of two slots or more, some interleaving of the atomic steps of one writer and
  -- one reader, from the new queue on, fails the assertion of `updateReadIndex`: the reader comes
  -- between the two writes of `updateWriteIndex`, and finds the count still 0.
  pub reader_stops :
      (default v : T) (size : ℕ)
      → 2 ≤ size
      → (s : Shared T) × Reach (start default size) s × (s.reader ≡ Reader.stopped)
  unfolding create fill_slot move_write_index get_next_to_read move_read_index has_elements
  reader_stops default v size h = (
    _,
    next
        (next
          (next (next (next here (fill v refl)) (move_write refl))
            (see refl (λ e. ground (arith, mod-eq_of_lt {n = 0 + 1} {m = size}))))
          (move_read refl))
        (assert_read refl refl),
    refl,
  )
