-- ===== src/Logger.antt =====
-- low-latency-components/logging.h: what `log` writes to the logger's queue. A character is its code, and a C string
-- the list of its characters before the one that ends it.
pub mod Format
pub mod Flush
pub mod Line
mod Tests
use trading_ecosystem.Prelude.{ℕ, ℤ, List, [], ◌∷◌, ◌==◌, if◌then◌else◌}
use trading_ecosystem.Run.{Cmd, fatal, ◌>>=◌, ◌>>◌, modify, halt, pure}
use trading_ecosystem.LfQueue
use trading_ecosystem.LfQueue.{LfQueue}

-- `LogType` and `LogElement`; a floating point number is given by its bits.
pub data LogElement : Type 0 where
  char : ℕ → LogElement
  integer long_integer long_long_integer : ℤ → LogElement
  unsigned_integer unsigned_long_integer unsigned_long_long_integer : ℕ → LogElement
  float double : ℕ → LogElement

-- An argument of `log`: a value that is one element, or a string.
pub data LogArgument : Type 0 where
  element : LogElement → LogArgument
  text : List ℕ → LogArgument

abbrev pub LogQueue : Type 0
LogQueue = LfQueue LogElement

-- `pushValue`
unfoldable pub push_text : List ℕ → LogQueue → LogQueue
push_text [] q = q
push_text (c ∷ cs) q = push_text cs (LfQueue.write (LogElement.char c) q)

unfoldable pub push_value : LogArgument → LogQueue → LogQueue
unfolding push_text
push_value (LogArgument.element e) q = LfQueue.write e q
push_value (LogArgument.text cs) q = push_text cs q

abbrev pub percent : ℕ
percent = 37

-- The end of the format: arguments that are left are fatal.
unfoldable pub finish : List LogArgument → Cmd LogQueue (Unit {0})
finish [] = pure tt
finish (a ∷ more) = halt fatal

-- A `%` that stands for an argument.
unfoldable pub at_hole :
    List LogArgument → (rest : List LogArgument → Cmd LogQueue (Unit {0})) → Cmd LogQueue (Unit {0})
at_hole [] rest = halt fatal
at_hole (a ∷ more) rest = modify (push_value a) >> rest more

unfoldable pub push_char : ℕ → Cmd LogQueue (Unit {0})
push_char c = modify (LfQueue.write (LogElement.char c))

-- Both overloads of `log`: with no argument left, the one that takes the format alone.
unfoldable pub log : List ℕ → List LogArgument → Cmd LogQueue (Unit {0})
unfolding finish at_hole push_char
log [] args = finish args
log (c ∷ []) args = if c == percent then at_hole args finish else (push_char c >> finish args)
log (c ∷ d ∷ s) args =
    let hole = at_hole args (log (d ∷ s)) in
    let escaped = push_char d >> log s args in
    let plain = push_char c >> log (d ∷ s) args in
    if c == percent then (if d == percent then escaped else hole) else plain
