-- ===== src/Logger/Flush.antt =====
-- low-latency-components/logging.h: a pass of `flushQueue` over the queue of the logger, and what a line that was logged
-- is printed as.
use trading_ecosystem.Prelude.{
  false, ℕ, zero, suc, ◌<◌, ◌≡◌, refl, sym, ◌∙◌, List, [], ◌∷◌, ◌++◌, length, map, Ptr, none, some,
  ◌==◌, if◌then◌else◌, arith,
}
use mathlib.Core.List.{append-nil, append_assoc}
use trading_ecosystem.Run.{Cmd, ok, halt, out_of_fuel, ◌>>=◌, ◌>>◌, gets, modify, pure, zoom}
use trading_ecosystem.LfQueue.{get_next_to_read, update_read_index}
use trading_ecosystem.LfQueue.Fifo.{
  IsValid, contents, window, next-empty, next-first, contents-update_read_index,
}
use trading_ecosystem.Text.{Text, decimal, decimal_ℤ, stream}
use trading_ecosystem.Logger.{LogElement, LogQueue}

-- The logger's queue and what its file holds.
pub record LogFile : Type 0 where
  pub queue : LogQueue
  pub file : Text

counted :
    (q : LogQueue) (e : LogElement) (elements : List LogElement)
    → contents q ≡ e ∷ elements
    → (q.num_elements == 0) ≡ false
counted q e elements holds = by_count q.next_read_index q.num_elements holds
  where
    by_count : (r n : ℕ) → window q.store q.size r n ≡ e ∷ elements → (n == 0) ≡ false
    by_count r zero h = absurd (cc h)
    by_count r (suc n) h = ground arith

-- `float_text` and `double_text` are what a stream prints for the bits of a floating point number.
module _ (float_text double_text : ℕ → Text) where
  -- The `switch` on the type of an element.
  unfoldable pub print_element : LogElement → Text
  print_element (LogElement.char c) = c ∷ []
  print_element (LogElement.integer i) = decimal_ℤ i
  print_element (LogElement.long_integer i) = decimal_ℤ i
  print_element (LogElement.long_long_integer i) = decimal_ℤ i
  print_element (LogElement.unsigned_integer n) = decimal n
  print_element (LogElement.unsigned_long_integer n) = decimal n
  print_element (LogElement.unsigned_long_long_integer n) = decimal n
  print_element (LogElement.float bits) = float_text bits
  print_element (LogElement.double bits) = double_text bits

  -- The body of the loop over the queue, with the pointer that `getNextToRead` gave; `rest` is what follows.
  unfoldable pub flush_next : Ptr → Cmd LogFile (Unit {0}) → Cmd LogFile (Unit {0})
  flush_next none rest = pure tt
  flush_next (some i) rest = do
    l ← gets (λ l. l)
    let round = do
      modify (λ l. record l { file = l.file ++ print_element (l.queue.store i) })
      zoom (λ l. l.queue) (λ q l. record l { queue = q }) update_read_index
      rest
    if l.queue.num_elements == 0 then pure tt else round

  -- The loop over the queue in `flushQueue`.
  unfoldable pub flush_loop : (fuel : ℕ) → Cmd LogFile (Unit {0})
  unfolding flush_next
  flush_loop zero = halt out_of_fuel
  flush_loop (suc fuel) = do
    next ← gets (λ l. get_next_to_read l.queue)
    flush_next next (flush_loop fuel)

  flush_round :
      (fuel i : ℕ) (e : LogElement) (q' : LogQueue) (l : LogFile)
      → get_next_to_read l.queue ≡ some i
      → l.queue.store i ≡ e
      → (l.queue.num_elements == 0) ≡ false
      → update_read_index l.queue ≡ ok tt q'
      → flush_loop (suc fuel) l
        ≡ flush_loop fuel (record { queue = q'; file = l.file ++ print_element e })
  unfolding flush_loop flush_next
  flush_round fuel i e q' l here is_e some_left moved = rw (here, some_left, moved, is_e) refl

  -- With more rounds than the queue has elements the loop returns, the queue is empty, and the file has got the text of
  -- the elements in their order.
  pub flush_loop-prints :
      (fuel : ℕ) (elements : List LogElement) (l : LogFile)
      → IsValid l.queue
      → contents l.queue ≡ elements
      → length elements < fuel
      → (l' : LogFile) × (flush_loop fuel l ≡ ok tt l')
        × IsValid l'.queue
        × (contents l'.queue ≡ [])
        × (l'.file ≡ l.file ++ stream (map print_element elements))
  unfolding flush_loop flush_next
  flush_loop-prints zero elements l valid holds enough = absurd (omega arith)
  flush_loop-prints (suc fuel) [] l valid holds enough =
      (l, rw (next-empty l.queue valid holds) refl, valid, holds, sym (append-nil l.file))
  flush_loop-prints (suc fuel) (e ∷ elements) l valid holds enough =
      let (i, here, is_e) = next-first l.queue e elements valid holds in
      let (q', moved, valid', holds') = contents-update_read_index l.queue e elements valid holds in
      let l₁ : LogFile = record { queue = q'; file = l.file ++ print_element e } in
      let (l', returns_it, valid'', empty, printed) =
        flush_loop-prints fuel elements l₁ valid' holds' (omega arith) in
      (
        l',
        flush_round fuel i e q' l here is_e (counted l.queue e elements holds) moved ∙ returns_it,
        valid'',
        empty,
        printed ∙ append_assoc l.file (print_element e) (stream (map print_element elements)),
      )
