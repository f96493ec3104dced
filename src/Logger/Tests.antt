-- ===== src/Logger/Tests.antt =====
-- A line that is logged, and the theorem at it.
use trading_ecosystem.Prelude.{ℕ, ◌≡◌, ◌≢◌, refl, List, [], ◌∷◌, length, pos, ◌<◌, ◌+◌, arith}
use trading_ecosystem.Run.Ensures.{Ensures}
use trading_ecosystem.Run.{Run, ok, fault, fatal}
use trading_ecosystem.LfQueue.{write, get_next_to_read, update_read_index}
use trading_ecosystem.LfQueue.Fifo.{IsValid, contents}
use trading_ecosystem.Text.{codes, put_digits, decimal, decimal_ℤ}
use trading_ecosystem.Logger.Flush.{LogFile, print_element, flush_loop}
use trading_ecosystem.Logger.Line.{line, IsPrinted, log-IsPrinted}
use trading_ecosystem.Logger.{LogElement, LogArgument, LogQueue, push_value, log}
use trading_ecosystem.Logger.Format.{holes, log_lem}

abbrev empty_log : LogQueue
empty_log = record {
  store = λ _. LogElement.char 0;
  size = 16;
  next_write_index = 0;
  next_read_index = 0;
  num_elements = 0;
}

-- "a%%:%" with one argument
abbrev format : List ℕ
format = 97 ∷ 37 ∷ 37 ∷ 58 ∷ 37 ∷ []

abbrev arguments : List LogArgument
arguments = LogArgument.element (LogElement.integer (pos 5)) ∷ []

abbrev logged : Run LogQueue (Unit {0}) → List LogElement
logged (ok _ q) = contents q
logged (fault e) = []

log_test :
    logged (log format arguments empty_log)
    ≡ LogElement.char 97 ∷ LogElement.char 37 ∷ LogElement.char 58 ∷ LogElement.integer (pos 5) ∷ []
unfolding log push_value write
log_test = refl

log_lem_example :
    (holes format ≡ length arguments → (q : LogQueue) × (log format arguments empty_log ≡ ok tt q))
    × (holes format ≢ length arguments → log format arguments empty_log ≡ fault fatal)
log_lem_example = log_lem format arguments empty_log

empty_log-IsValid : IsValid empty_log
empty_log-IsValid = record {
  read_in = omega arith;
  room = omega arith;
  small = omega arith;
  write_at = refl;
}

line_is : 0 + length (line format arguments) < 16
unfolding line
line_is = omega arith

log-IsPrinted_example :
    Ensures
      (λ _. IsPrinted (λ _. []) (λ _. []) 16 (line format arguments) [])
      (log format arguments empty_log)
log-IsPrinted_example =
    log-IsPrinted (λ _. []) (λ _. []) 16 [] format arguments empty_log empty_log-IsValid line_is
      line_is

abbrev written : Run LogFile (Unit {0}) → List ℕ
written (ok _ l) = l.file
written (fault e) = []

abbrev queue_after : Run LogQueue (Unit {0}) → LogQueue
queue_after (ok _ q) = q
queue_after (fault e) = empty_log

flush_test :
    written (
      flush_loop
        (λ _. [])
        (λ _. [])
        16
        (record { queue = queue_after (log format arguments empty_log); file = codes "> " }))
    ≡ codes "> a%:5"
unfolding log push_value write flush_loop put_digits decimal decimal_ℤ get_next_to_read
    update_read_index print_element
flush_test = refl
