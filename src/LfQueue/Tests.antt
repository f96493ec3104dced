-- ===== src/LfQueue/Tests.antt =====
-- The theorems at concrete queues.
use trading_ecosystem.Prelude.{some, List, ◌++◌, ℕ, ◌≡◌, refl, [], ◌∷◌, ◌++◌, none, arith, update}
use mathlib.Core.List.{head?}
use trading_ecosystem.Run.{ok}
use trading_ecosystem.LfQueue.{LfQueue, write, get_next_to_read, update_read_index}
use trading_ecosystem.LfQueue.Fifo.{
  IsValid, contents, contents-write, contents-update_read_index, write-full,
}
use trading_ecosystem.LfQueue.Safety.{Trace, begin, more, Trace-in_order}
use trading_ecosystem.LfQueue.{
  create, fill_slot, move_write_index, count_up, move_read_index, has_elements, count_down,
}
use trading_ecosystem.LfQueue.Threads.{
  Writer, fill, move_write, count_write, see, move_read, count_read, Shared, Reader, Reach, start,
  reader_stops,
}

-- Four slots; the two elements stand in the last slot and in the first.
abbrev wrapped : LfQueue ℕ
wrapped = record {
  store = update (λ _. 6) 3 5;
  size = 4;
  next_write_index = 1;
  next_read_index = 3;
  num_elements = 2;
}

wrapped-IsValid : IsValid wrapped
wrapped-IsValid = record {
  read_in = omega arith;
  room = omega arith;
  small = omega arith;
  write_at = refl;
}

-- Three elements in four slots.
abbrev almost_full : LfQueue ℕ
almost_full = record wrapped { next_write_index = 2; num_elements = 3 }

almost_full-IsValid : IsValid almost_full
almost_full-IsValid = record {
  read_in = omega arith;
  room = omega arith;
  small = omega arith;
  write_at = refl;
}

contents-write_example :
    IsValid (write 9 wrapped) × (contents (write 9 wrapped) ≡ contents wrapped ++ (9 ∷ []))
contents-write_example = contents-write 9 wrapped wrapped-IsValid (omega arith)

contents-update_read_index_example :
    (q : LfQueue ℕ) × (update_read_index wrapped ≡ ok tt q) × IsValid q × (contents q ≡ 6 ∷ [])
contents-update_read_index_example =
    contents-update_read_index wrapped 5 (6 ∷ []) wrapped-IsValid refl

write-full_example :
    (get_next_to_read (write 9 almost_full) ≡ none)
    × ((write 9 almost_full).num_elements ≡ almost_full.size)
write-full_example = write-full 9 almost_full almost_full-IsValid refl

reader_stops_example : (s : Shared ℕ) × Reach (start 0 8) s × (s.reader ≡ Reader.stopped)
reader_stops_example = reader_stops 0 5 8 (omega arith)

-- One value is written and read, and a second one is seen.
abbrev second_seen : Shared ℕ
second_seen = record {
  queue = record {
    store = update (update (λ _. 0) 0 5) 1 6;
    size = 8;
    next_write_index = 2;
    next_read_index = 1;
    num_elements = 0;
  };
  writer = Writer.moved;
  reader = Reader.seen;
}

two_written : Trace (start 0 8) second_seen (5 ∷ 6 ∷ []) (5 ∷ [])
unfolding create fill_slot move_write_index count_up get_next_to_read move_read_index has_elements
    count_down
two_written =
    more
      (more
        (more
          (more
            (more
              (more
                (more (more (more begin (fill 5 refl) (omega arith)) (move_write refl) tt)
                  (count_write refl) tt)
                (see refl (λ e. cc e)) tt)
              (move_read refl) tt)
            (count_read refl refl) tt)
          (fill 6 refl) (omega arith))
        (move_write refl) tt)
      (see refl (λ e. cc e)) tt

Trace-in_order_example :
    (rest : List ℕ) × (5 ∷ 6 ∷ [] ≡ (5 ∷ []) ++ rest)
    × (second_seen.reader ≡ Reader.seen → head? rest ≡ some (second_seen.queue.store 1))
Trace-in_order_example = Trace-in_order 0 8 (omega arith) two_written
