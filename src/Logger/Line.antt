-- ===== src/Logger/Line.antt =====
-- What `log` of logging.h writes to the queue, as a list, and what is then printed of it.
use trading_ecosystem.Prelude.{
  ℕ, zero, suc, ◌+◌, ◌%◌, ◌<◌, ◌≡◌, refl, sym, ap, ◌∙◌, List, [], ◌∷◌, ◌++◌, length, length-append,
  map, ◌==◌, if◌then◌else◌, Bool-cases, inl, inr, arith,
}
use mathlib.Core.List.{append-nil, append_assoc}
use trading_ecosystem.Run.{Cmd, ok, ◌>>◌}
use trading_ecosystem.Run.Ensures.{Ensures, returns, ends, mono}
use trading_ecosystem.LfQueue.{write}
use trading_ecosystem.LfQueue.Fifo.{
  IsValid, contents, window, contents-write, num_elements-write, size-write,
}
use trading_ecosystem.Text.{Text, stream}
use trading_ecosystem.Logger.{
  LogElement, LogArgument, LogQueue, percent, push_text, push_value, finish, at_hole, push_char,
  log,
}
use trading_ecosystem.Logger.Flush.{LogFile, print_element, flush_loop, flush_loop-prints}

-- The elements of an argument, and of a line: `%%` is a character, and any other `%` the next argument.
abbrev pub elements_of : LogArgument → List LogElement
elements_of (LogArgument.element e) = e ∷ []
elements_of (LogArgument.text cs) = map LogElement.char cs

abbrev next_elements : List LogArgument → (List LogArgument → List LogElement) → List LogElement
next_elements [] rest = []
next_elements (a ∷ others) rest = elements_of a ++ rest others

unfoldable pub line : List ℕ → List LogArgument → List LogElement
line [] args = []
line (c ∷ []) args = if c == percent then next_elements args (λ _. []) else LogElement.char c ∷ []
line (c ∷ d ∷ s) args =
    let hole = next_elements args (line (d ∷ s)) in
    let escaped = LogElement.char d ∷ line s args in
    let plain = LogElement.char c ∷ line (d ∷ s) args in
    if c == percent then (if d == percent then escaped else hole) else plain

length-window : {T : Type 0} (store : ℕ → T) (size h n : ℕ) → length (window store size h n) ≡ n
length-window store size h zero = refl
length-window store size h (suc n) = ap suc (length-window store size ((h + 1) % size) n)

length-contents : (q : LogQueue) → length (contents q) ≡ q.num_elements
length-contents q = length-window q.store q.size q.next_read_index q.num_elements

-- These elements were written behind what a valid queue held.
record Wrote (es : List LogElement) (q q' : LogQueue) : Type 0 where
  valid : IsValid q'
  holds : contents q' ≡ contents q ++ es
  count : q'.num_elements ≡ q.num_elements + length es
  same_size : q'.size ≡ q.size

HasRoom : List LogElement → LogQueue → Type 0
HasRoom es q = q.num_elements + length es < q.size

Wrote-nil : (q : LogQueue) → IsValid q → Wrote [] q q
Wrote-nil q v = record {
  valid = v;
  holds = sym (append-nil _);
  count = omega arith;
  same_size = refl;
}

Wrote-append :
    {es fs : List LogElement} {q q' q'' : LogQueue}
    → Wrote es q q'
    → Wrote fs q' q''
    → Wrote (es ++ fs) q q''
Wrote-append {es} {fs} {q} a b = record {
  valid = b.valid;
  holds = b.holds ∙ ap (λ l. l ++ fs) a.holds ∙ append_assoc (contents q) es fs;
  count = omega (arith, a.count, b.count, length-append es fs);
  same_size = b.same_size ∙ a.same_size;
}

Wrote-write :
    (e : LogElement) (q : LogQueue) → IsValid q → HasRoom (e ∷ []) q → Wrote (e ∷ []) q (write e q)
unfolding HasRoom
Wrote-write e q v room =
    let (valid, holds) = contents-write e q v (omega arith) in
    record {
      valid = valid;
      holds = holds;
      count = num_elements-write e q v;
      same_size = size-write e q;
    }

-- One element, and more of them in the same way.
Wrote-cons :
    {e : LogElement} {es : List LogElement} {q q' : LogQueue}
    → IsValid q
    → HasRoom (e ∷ es) q
    → (IsValid (write e q) → HasRoom es (write e q) → Wrote es (write e q) q')
    → Wrote (e ∷ es) q q'
unfolding HasRoom
Wrote-cons {e} {es} {q} v room more =
    let first = Wrote-write e q v (omega arith) in
    Wrote-append first (more first.valid (omega (arith, first.count, first.same_size)))

push_text-Wrote :
    (cs : List ℕ) (q : LogQueue)
    → IsValid q
    → HasRoom (map LogElement.char cs) q
    → Wrote (map LogElement.char cs) q (push_text cs q)
unfolding push_text
push_text-Wrote [] q v room = Wrote-nil q v
push_text-Wrote (c ∷ cs) q v room =
    Wrote-cons v room (push_text-Wrote cs (write (LogElement.char c) q))

push_value-Wrote :
    (a : LogArgument) (q : LogQueue)
    → IsValid q
    → HasRoom (elements_of a) q
    → Wrote (elements_of a) q (push_value a q)
unfolding push_value
push_value-Wrote (LogArgument.element e) q v room = Wrote-write e q v room
push_value-Wrote (LogArgument.text cs) q v room = push_text-Wrote cs q v room

at_hole-Wrote :
    (args : List LogArgument) (rest : List LogArgument → Cmd LogQueue (Unit {0}))
    (f : List LogArgument → List LogElement) (q : LogQueue)
    → IsValid q
    → HasRoom (next_elements args f) q
    → ((others : List LogArgument) (q' : LogQueue)
        → IsValid q'
        → HasRoom (f others) q'
        → Ensures (λ _ q''. Wrote (f others) q' q'') (rest others q'))
    → Ensures (λ _ q'. Wrote (next_elements args f) q q') (at_hole args rest q)
unfolding at_hole HasRoom
at_hole-Wrote [] rest f q v room more = ends
at_hole-Wrote (a ∷ others) rest f q v room more =
    let first = push_value-Wrote a q v (omega (arith, length-append (elements_of a) (f others))) in
    mono
      (more others (push_value a q) first.valid
        (omega (arith, first.count, first.same_size, length-append (elements_of a) (f others))))
      λ _ q' wrote. Wrote-append first wrote

finish-Wrote :
    (args : List LogArgument) (q : LogQueue)
    → IsValid q
    → Ensures (λ _ q'. Wrote [] q q') (finish args q)
unfolding finish
finish-Wrote [] q v = returns (Wrote-nil q v)
finish-Wrote (a ∷ others) q v = ends

-- A character that stands for itself.
push_char-Wrote :
    (c : ℕ) (es : List LogElement) (m : Cmd LogQueue (Unit {0})) (q : LogQueue)
    → IsValid q
    → HasRoom (LogElement.char c ∷ es) q
    → ((q' : LogQueue) → IsValid q' → HasRoom es q' → Ensures (λ _ q''. Wrote es q' q'') (m q'))
    → Ensures (λ _ q'. Wrote (LogElement.char c ∷ es) q q') ((push_char c >> m) q)
unfolding push_char HasRoom
push_char-Wrote c es m q v room more =
    let first = Wrote-write (LogElement.char c) q v (omega arith) in
    mono
      (more (write (LogElement.char c) q) first.valid (omega (arith, first.count, first.same_size)))
      λ _ q' wrote. Wrote-append first wrote

log-Wrote :
    (s : List ℕ) (args : List LogArgument) (q : LogQueue)
    → IsValid q
    → HasRoom (line s args) q
    → Ensures (λ _ q'. Wrote (line s args) q q') (log s args q)
unfolding log line
log-Wrote [] args q v room = finish-Wrote args q v
log-Wrote (c ∷ []) args q v room = elim (Bool-cases (c == percent)) [
  | inl h ↦
      let room' : HasRoom (next_elements args (λ _. [])) q = rw h at room in
      rw h (
        at_hole-Wrote args finish (λ _. []) q v room' (λ others q' v' r. finish-Wrote others q' v'))
  | inr h ↦
      let room' : HasRoom (LogElement.char c ∷ []) q = rw h at room in
      rw h (push_char-Wrote c [] (finish args) q v room' (λ q' v' r. finish-Wrote args q' v'))
]
log-Wrote (c ∷ d ∷ s) args q v room = elim (Bool-cases (c == percent)) [
  | inl h ↦ elim (Bool-cases (d == percent)) [
    | inl k ↦
        let room' : HasRoom (LogElement.char d ∷ line s args) q = rw (h, k) at room in
        rw (h, k)
          (push_char-Wrote d (line s args) (log s args) q v room'
            (λ q' v' r. log-Wrote s args q' v' r))
    | inr k ↦
        let room' : HasRoom (next_elements args (line (d ∷ s))) q = rw (h, k) at room in
        rw (h, k)
          (at_hole-Wrote args (log (d ∷ s)) (line (d ∷ s)) q v room'
            (λ others q' v' r. log-Wrote (d ∷ s) others q' v' r))
  ]
  | inr h ↦
      let room' : HasRoom (LogElement.char c ∷ line (d ∷ s) args) q = rw h at room in
      rw h (
        push_char-Wrote c (line (d ∷ s) args) (log (d ∷ s) args) q v room'
          (λ q' v' r. log-Wrote (d ∷ s) args q' v' r))
]

module _ (float_text double_text : ℕ → Text) where
  -- What a pass of `flushQueue` makes of the line.
  abbrev pub IsPrinted : (fuel : ℕ) → List LogElement → (file : Text) → LogQueue → Type 0
  IsPrinted fuel es file q =
      (l : LogFile) × (flush_loop float_text double_text fuel (record { queue = q; file = file })
        ≡ ok tt l)
      × (contents l.queue ≡ [])
      × (l.file ≡ file ++ stream (map (print_element float_text double_text) es))

  -- On a valid queue that has room for the elements of a line and one more slot, if `log` of a
  -- format and its arguments returns (which `log_lem` decides), then a pass of `flushQueue`, given
  -- more rounds than the queue counts elements with them, returns, leaves the queue empty, and
  -- writes to the file what the queue held before and behind it the line: the format with the next
  -- argument at each `%`, and a `%` for each `%%`.
  pub log-IsPrinted :
      (fuel : ℕ) (file s : Text) (args : List LogArgument) (q : LogQueue)
      → IsValid q
      → q.num_elements + length (line s args) < q.size
      → q.num_elements + length (line s args) < fuel
      → Ensures (λ _. IsPrinted fuel (contents q ++ line s args) file) (log s args q)
  unfolding HasRoom
  log-IsPrinted fuel file s args q v room enough = mono (log-Wrote s args q v room) λ _ q' wrote.
      let (l, returns_it, valid, empty, printed) =
        flush_loop-prints float_text double_text fuel (contents q ++ line s args)
          (record { queue = q'; file = file }) wrote.valid wrote.holds
          (omega (arith, length-append (contents q) (line s args), length-contents q)) in
      (l, returns_it, empty, printed)
