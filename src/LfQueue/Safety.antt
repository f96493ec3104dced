-- ===== src/LfQueue/Safety.antt =====
-- The queue of lock_free_queue.h between two threads, as long as the writer finds a free slot beyond the one that it fills.
use trading_ecosystem.Prelude.{
  update_self, ℕ, zero, suc, ◌+◌, ◌%◌, ◌<◌, ◌≡◌, ◌≢◌, refl, sym, ap, ◌∙◌, List, [], ◌∷◌, ◌++◌,
  length, length-append, some, arith, update,
}
use mathlib.Core.Path.{ap₂}
use mathlib.Core.List.{head?, append-nil, append_assoc}
use native.Mathlib.Nat.{mod-add-mod}
use trading_ecosystem.LfQueue.{
  LfQueue, create, fill_slot, move_write_index, count_up, get_next_to_read, move_read_index,
  count_down,
}
use trading_ecosystem.LfQueue.Fifo.{window, start-mod, add-mod-ne}
use trading_ecosystem.LfQueue.Threads.{
  Writer, Reader, Shared, Step, start, fill, move_write, count_write, see, move_read, count_read,
  assert_read,
}

module _ {T : Type 0} where
  -- What a step adds to the values written so far, and to those read: the reader is done with the value when it moves the index.
  abbrev pub written_after : {s s' : Shared T} → Step s s' → List T → List T
  written_after (fill v e) written = written ++ (v ∷ [])
  written_after (move_write e) written = written
  written_after (count_write e) written = written
  written_after (see e n) written = written
  written_after (move_read e) written = written
  written_after (count_read e n) written = written
  written_after (assert_read e n) written = written

  abbrev pub read_after : {s s' : Shared T} → Step s s' → List T → List T
  read_after (fill v e) read = read
  read_after (move_write e) read = read
  read_after (count_write e) read = read
  read_after (see e n) read = read
  read_after {s} (move_read e) read = read ++ (s.queue.store s.queue.next_read_index ∷ [])
  read_after (count_read e n) read = read
  read_after (assert_read e n) read = read

  -- The writer fills a slot only while another one stays free.
  abbrev pub HasRoom : {s s' : Shared T} → Step s s' → (written read : List T) → Type 0
  HasRoom {s} (fill v e) written read = length written + 1 < length read + s.queue.size
  HasRoom (move_write e) written read = Unit
  HasRoom (count_write e) written read = Unit
  HasRoom (see e n) written read = Unit
  HasRoom (move_read e) written read = Unit
  HasRoom (count_read e n) written read = Unit
  HasRoom (assert_read e n) written read = Unit

  -- The runs from a state, with all values written and read.
  pub data Trace (s : Shared T) : Shared T → (written read : List T) → Type 0 where
    begin : Trace s s [] []
    more :
        {t u : Shared T} {written read : List T}
        → Trace s t written read
        → (step : Step t u) → HasRoom step written read
        → Trace s u (written_after step written) (read_after step read)

  -- A slot that is just past a window.
  window-frame :
      (store : ℕ → T) (size : ℕ) (v : T) (n h i : ℕ)
      → h < size
      → n < size
      → i ≡ (h + n) % size
      → window (update store i v) size h n ≡ window store size h n
  window-frame store size v zero h i hh hn e = refl
  window-frame store size v (suc n) h i hh hn e =
      let elsewhere : i ≢ h = omega (arith, add-mod-ne {size = size} {h = h} {k = n} hh hn) in
      ap₂ ◌∷◌ (ground arith)
        (window-frame store size v n ((h + 1) % size) i (ground arith) (omega arith) (e ∙ shift))
    where
      shift : (h + suc n) % size ≡ ((h + 1) % size + n) % size
      shift = rw mod-add-mod (ap (λ k. k % size) (omega arith))

  window-last :
      (store : ℕ → T) (size n h : ℕ)
      → h < size
      → window store size h (suc n) ≡ window store size h n ++ (store ((h + n) % size) ∷ [])
  window-last store size zero h hh = ap (λ i. store i ∷ []) (sym (start-mod hh))
  window-last store size (suc n) h hh =
      ap (λ l. store h ∷ l)
        (window-last store size n ((h + 1) % size) (ground arith)
          ∙ ap (λ i. window store size ((h + 1) % size) n ++ (store i ∷ [])) shift)
    where
      shift : ((h + 1) % size + n) % size ≡ (h + suc n) % size
      shift = rw mod-add-mod (ap (λ k. k % size) (omega arith))

  length-window : (store : ℕ → T) (size n h : ℕ) → length (window store size h n) ≡ n
  length-window store size zero h = refl
  length-window store size (suc n) h = ap suc (length-window store size n ((h + 1) % size))

  -- What the writer has put into its slot and not yet shown.
  abbrev held : Writer → T → List T
  held Writer.idle v = []
  held Writer.filled v = v ∷ []
  held Writer.moved v = []

  abbrev shown : LfQueue T → ℕ → List T
  shown q n = window q.store q.size q.next_read_index n

  -- `n` values are shown and not yet read.
  record IsTraced (s : Shared T) (written read : List T) (n : ℕ) : Type 0 where
    read_in : s.queue.next_read_index < s.queue.size
    write_at : s.queue.next_write_index ≡ (s.queue.next_read_index + n) % s.queue.size
    room : n + length (held s.writer (s.queue.store s.queue.next_write_index)) < s.queue.size
    account :
        written
        ≡ read ++ (shown s.queue n ++ held s.writer (s.queue.store s.queue.next_write_index))
    is_seen : s.reader ≡ Reader.seen → n ≢ 0

  length-account :
      {s : Shared T} {written read : List T} {n : ℕ}
      → IsTraced s written read n
      → length written
        ≡ length read + (n + length (held s.writer (s.queue.store s.queue.next_write_index)))
  length-account {s} {written} {read} {n} i =
      let h = held s.writer (s.queue.store s.queue.next_write_index) in
      omega (
        arith,
        ap length i.account,
        length-append read (shown s.queue n ++ h),
        length-append (shown s.queue n) h,
        length-window s.queue.store s.queue.size n s.queue.next_read_index,
      )

  Step-IsTraced :
      {s s' : Shared T} {written read : List T} {n : ℕ} (step : Step s s')
      → HasRoom step written read
      → IsTraced s written read n
      → (m : ℕ) × IsTraced s' (written_after step written) (read_after step read) m
  unfolding fill_slot move_write_index count_up get_next_to_read move_read_index count_down
  Step-IsTraced {s} {written = written} {read = read} {n = n} (fill v e) space i =
      let q = s.queue in
      let free : n + 1 < q.size = omega (arith, rw e at (length-account i), space) in
      let frame =
        window-frame q.store q.size v n q.next_read_index q.next_write_index i.read_in (omega arith)
          i.write_at in
      let before = rw e at i.account in
      (
        n,
        record {
          read_in = i.read_in;
          write_at = i.write_at;
          room = free;
          account =
              ap (λ l. l ++ (v ∷ [])) (before ∙ ap (λ l. read ++ l) (append-nil (shown q n)))
              ∙ append_assoc read (shown q n) (v ∷ [])
              ∙ ap₂ (λ l x. read ++ (l ++ (x ∷ []))) (sym frame)
                  (sym (update_self q.store q.next_write_index v));
          is_seen = i.is_seen;
        },
      )
  Step-IsTraced {s} {read = read} {n = n} (move_write e) space i =
      let q = s.queue in
      (
        suc n,
        record {
          read_in = i.read_in;
          write_at = rw (i.write_at, mod-add-mod) (ap (λ k. k % q.size) (omega arith));
          room = omega (arith, rw e at i.room);
          account =
              (rw e at i.account)
              ∙ ap (λ l. read ++ l)
                  (ap (λ k. shown q n ++ (q.store k ∷ [])) i.write_at
                    ∙ sym (window-last q.store q.size n q.next_read_index i.read_in)
                    ∙ sym (append-nil (shown q (suc n))));
          is_seen = λ _. omega arith;
        },
      )
  Step-IsTraced {s} {n = n} (count_write e) space i = (
    n,
    record {
      read_in = i.read_in;
      write_at = i.write_at;
      room = rw e at i.room;
      account = rw e at i.account;
      is_seen = i.is_seen;
    },
  )
  Step-IsTraced {s} {n = n} (see e there) space i = (
    n,
    record {
      read_in = i.read_in;
      write_at = i.write_at;
      room = i.room;
      account = i.account;
      is_seen = λ _ z. there (
          let same : s.queue.next_write_index ≡ s.queue.next_read_index =
            i.write_at
            ∙ ap (λ k. (s.queue.next_read_index + k) % s.queue.size) z
            ∙ start-mod i.read_in in
          ground arith);
    },
  )
  Step-IsTraced {s} {n = zero} (move_read e) space i = absurd (i.is_seen e refl)
  Step-IsTraced {s} {read = read} {n = suc n} (move_read e) space i =
      let q = s.queue in
      (
        n,
        record {
          read_in = ground (arith, i.read_in);
          write_at = i.write_at ∙ sym (rw mod-add-mod (ap (λ k. k % q.size) (omega arith)));
          room = omega (arith, i.room);
          account = i.account ∙ sym (append_assoc read (q.store q.next_read_index ∷ []) _);
          is_seen = λ never. absurd (cc never);
        },
      )
  Step-IsTraced {n = n} (count_read e some_left) space i = (
    n,
    record {
      read_in = i.read_in;
      write_at = i.write_at;
      room = i.room;
      account = i.account;
      is_seen = λ never. absurd (cc never);
    },
  )
  Step-IsTraced {n = n} (assert_read e none_left) space i = (
    n,
    record {
      read_in = i.read_in;
      write_at = i.write_at;
      room = i.room;
      account = i.account;
      is_seen = λ never. absurd (cc never);
    },
  )

  start-IsTraced : (default : T) (size : ℕ) → 0 < size → IsTraced (start default size) [] [] 0
  unfolding create
  start-IsTraced default size h = record {
    read_in = h;
    write_at = sym (start-mod h);
    room = h;
    account = refl;
    is_seen = λ never. absurd (cc never);
  }

  Trace-IsTraced :
      (default : T) (size : ℕ) {s : Shared T} {written read : List T}
      → 0 < size
      → Trace (start default size) s written read
      → (n : ℕ) × IsTraced s written read n
  Trace-IsTraced default size h begin = (0, start-IsTraced default size h)
  Trace-IsTraced default size h (more t step room) =
      let (n, i) = Trace-IsTraced default size h t in Step-IsTraced step room i

  head-window :
      (store : ℕ → T) (size h n : ℕ) (others : List T)
      → n ≢ 0
      → head? (window store size h n ++ others) ≡ some (store h)
  head-window store size h zero others ne = absurd (ne refl)
  head-window store size h (suc n) others ne = refl

  -- In every run of the atomic steps of one writer and one reader from a new queue of at least one
  -- slot, in which the writer fills a slot only while the values written and not read are at least
  -- two fewer than the slots, the values read are the first of those written, in their order; and
  -- when the reader has seen a slot, it holds the next of them.
  pub Trace-in_order :
      (default : T) (size : ℕ) {s : Shared T} {written read : List T}
      → 0 < size
      → Trace (start default size) s written read
      → (rest : List T) × (written ≡ read ++ rest)
        × (s.reader ≡ Reader.seen → head? rest ≡ some (s.queue.store s.queue.next_read_index))
  Trace-in_order default size {s = s} h t =
      let (n, i) = Trace-IsTraced default size h t in
      (
        _,
        i.account,
        λ e. head-window s.queue.store s.queue.size s.queue.next_read_index n _ (i.is_seen e),
      )
