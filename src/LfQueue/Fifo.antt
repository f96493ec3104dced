-- ===== src/LfQueue/Fifo.antt =====
-- The queue of lock_free_queue.h, used by one thread, against a list.
use trading_ecosystem.Prelude.{
  refl, ℕ, zero, suc, ◌+◌, ◌-◌, ◌%◌, ◌<◌, ◌≡◌, ◌≢◌, ap, ◌∙◌, List, [], ◌∷◌, ◌++◌, none, some, arith,
  update, Option, ◌==◌, if◌then◌else◌,
}
use mathlib.Core.Path.{ap₂}
use native.Mathlib.Nat.{add-mod_right, mod-add-mod, mod-eq_of_lt, mod-eq-sub-mod, add-zero}
use native.Mathlib.Numerals.{add-one, sub-one}
use mathlib.Core.Option
use mathlib.Core.List.{head?}
use native.Mathlib.Decide.{dec_lt}
use trading_ecosystem.Run.{ok}
use trading_ecosystem.LfQueue.{LfQueue, write, get_next_to_read, update_read_index, size_mod}

pub record IsValid {T : Type 0} (q : LfQueue T) : Type 0 where
  pub read_in : q.next_read_index < q.size
  pub room : q.num_elements < q.size
  pub small : q.size < size_mod
  pub write_at : q.next_write_index ≡ (q.next_read_index + q.num_elements) % q.size

module _ {T : Type 0} where
  -- The `n` slots from `h` on, going round.
  abbrev pub window : (ℕ → T) → (size h n : ℕ) → List T
  window store size h zero = []
  window store size h (suc n) = store h ∷ window store size ((h + 1) % size) n

  -- What the queue holds, oldest first.
  abbrev pub contents : LfQueue T → List T
  contents q = window q.store q.size q.next_read_index q.num_elements

pub start-mod : {size h : ℕ} → h < size → (h + 0) % size ≡ h
start-mod hh = rw add-zero (mod-eq_of_lt hh)

-- Fewer than `size` steps round the ring do not come back to the start.
pub add-mod-ne : {size h k : ℕ} → h < size → suc k < size → (h + suc k) % size ≢ h
add-mod-ne {size} {h} {k} hh hk = elim (dec_lt (h + suc k) size) [
  | yes p ↦ omega (arith, mod-eq_of_lt p)
  | no p ↦ omega (
    arith,
    mod-eq-sub-mod {n = h + suc k} {m = size} (omega arith),
    mod-eq_of_lt {n = h + suc k - size} {m = size} (omega arith),
  )
]

module _ {T : Type 0} where
  -- A write just past a window makes it longer by the value written.
  window-update :
      (store : ℕ → T) (size : ℕ) (v : T) (n h i : ℕ)
      → h < size
      → n < size
      → i ≡ (h + n) % size
      → window (update store i v) size h (suc n) ≡ window store size h n ++ (v ∷ [])
  window-update store size v zero h i hh hn e = let here : i ≡ h = e ∙ start-mod hh in ground arith
  window-update store size v (suc n) h i hh hn e =
      let elsewhere : i ≢ h = omega (arith, add-mod-ne {size = size} {h = h} {k = n} hh hn) in
      ap₂ ◌∷◌ (ground arith)
        (window-update store size v n ((h + 1) % size) i (ground arith) (omega arith) (e ∙ shift))
    where
      shift : (h + suc n) % size ≡ ((h + 1) % size + n) % size
      shift = rw mod-add-mod (ap (λ k. k % size) (omega arith))

  write-IsValid :
      (v : T) (q : LfQueue T) → IsValid q → q.num_elements + 1 < q.size → IsValid (write v q)
  unfolding write
  write-IsValid v q valid space = record {
    read_in = valid.read_in;
    room = ground arith;
    small = valid.small;
    write_at =
        rw
          (
            valid.write_at,
            mod-add-mod,
            mod-eq_of_lt {n = q.num_elements + 1} {m = size_mod} (omega arith),
          )
          (ap (λ k. k % q.size) (omega arith));
  }

  pub num_elements-write :
      (v : T) (q : LfQueue T) → IsValid q → (write v q).num_elements ≡ q.num_elements + 1
  unfolding write
  num_elements-write v q valid = mod-eq_of_lt (omega (arith, valid.room, valid.small))

  pub size-write : (v : T) (q : LfQueue T) → (write v q).size ≡ q.size
  unfolding write
  size-write v q = refl

  -- On a valid queue in which a slot stays free, a write puts the value behind the others and keeps
  -- the queue valid.
  pub contents-write :
      (v : T) (q : LfQueue T)
      → IsValid q
      → q.num_elements + 1 < q.size
      → IsValid (write v q) × (contents (write v q) ≡ contents q ++ (v ∷ []))
  unfolding write
  contents-write v q valid space = (
    write-IsValid v q valid space,
    rw (mod-eq_of_lt {n = q.num_elements + 1} {m = size_mod} (omega arith), add-one)
        (window-update q.store q.size v q.num_elements q.next_read_index q.next_write_index
          valid.read_in (omega arith) valid.write_at),
  )

  -- What a reader sees next.
  abbrev pub peek : LfQueue T → Option T
  peek q = Option.map q.store (get_next_to_read q)

  peek-window :
      (store : ℕ → T) (size r n w : ℕ)
      → r < size
      → n < size
      → w ≡ (r + n) % size
      → Option.map store (if r == w then none else some r) ≡ head? (window store size r n)
  peek-window store size r zero w hr hn e = let same : w ≡ r = e ∙ start-mod hr in ground arith
  peek-window store size r (suc n) w hr hn e =
      let other : w ≢ r = omega (arith, add-mod-ne {size = size} {h = r} {k = n} hr hn) in
      ground arith

  -- On a valid queue the reader sees the oldest element, and nothing if there is none.
  pub peek-contents : (q : LfQueue T) → IsValid q → peek q ≡ head? (contents q)
  unfolding get_next_to_read
  peek-contents q valid =
      peek-window q.store q.size q.next_read_index q.num_elements q.next_write_index valid.read_in
        valid.room valid.write_at

  popped : LfQueue T → LfQueue T
  popped q = record q {
    next_read_index = (q.next_read_index + 1) % q.size;
    num_elements = q.num_elements - 1;
  }

  popped-window :
      (store : ℕ → T) (size r n : ℕ) (x : T) (xs : List T)
      → window store size r n ≡ x ∷ xs
      → (n ≢ 0) × (window store size ((r + 1) % size) (n - 1) ≡ xs)
  popped-window store size r zero x xs e = absurd (cc e)
  popped-window store size r (suc n) x xs e = (ground arith, rw (sub-one) (cc e))

  popped-IsValid : (q : LfQueue T) → IsValid q → q.num_elements ≢ 0 → IsValid (popped q)
  unfolding popped
  popped-IsValid q valid ne = record {
    read_in = omega (arith, valid.read_in);
    room = omega (arith, valid.room);
    small = valid.small;
    write_at = rw (valid.write_at, mod-add-mod) (ap (λ k. k % q.size) (omega arith));
  }

  -- On a valid queue that holds `x` and then `xs`, `updateReadIndex` returns, and the queue is
  -- valid and holds `xs`.
  pub contents-update_read_index :
      (q : LfQueue T) (x : T) (xs : List T)
      → IsValid q
      → contents q ≡ x ∷ xs
      → (q' : LfQueue T) × (update_read_index q ≡ ok tt q') × IsValid q' × (contents q' ≡ xs)
  unfolding update_read_index popped
  contents-update_read_index q x xs valid e =
      let (ne, rest) = popped-window q.store q.size q.next_read_index q.num_elements x xs e in
      (popped q, ground arith, popped-IsValid q valid ne, rest)

  -- On a valid queue with one free slot, a write makes `getNextToRead` null, as on an empty queue,
  -- though `size()` is the number of slots.
  pub write-full :
      (v : T) (q : LfQueue T)
      → IsValid q
      → q.num_elements + 1 ≡ q.size
      → (get_next_to_read (write v q) ≡ none) × ((write v q).num_elements ≡ q.size)
  unfolding get_next_to_read write
  write-full v q valid last =
      let back : (q.next_write_index + 1) % q.size ≡ q.next_read_index =
        rw (valid.write_at, mod-add-mod)
          (ap (λ k. k % q.size) (omega arith) ∙ add-mod_right _ _ ∙ mod-eq_of_lt valid.read_in) in
      (ground arith, mod-eq_of_lt {n = q.num_elements + 1} {m = size_mod} (omega arith) ∙ last)

module _ {T : Type 0} where
  map-none : (f : ℕ → T) (p : Option ℕ) → Option.map f p ≡ none → p ≡ none
  map-none f none h = refl
  map-none f (some i) h = absurd (cc h)

  map-some :
      (f : ℕ → T) (p : Option ℕ) (x : T)
      → Option.map f p ≡ some x
      → (i : ℕ) × (p ≡ some i) × (f i ≡ x)
  map-some f none x h = absurd (cc h)
  map-some f (some i) x h = (i, refl, cc h)

  -- The slot that the reader is given, on an empty queue and on one that holds `x` first.
  pub next-empty : (q : LfQueue T) → IsValid q → contents q ≡ [] → get_next_to_read q ≡ none
  next-empty q valid e = map-none q.store _ (peek-contents q valid ∙ ap head? e)

  pub next-first :
      (q : LfQueue T) (x : T) (xs : List T)
      → IsValid q
      → contents q ≡ x ∷ xs
      → (i : ℕ) × (get_next_to_read q ≡ some i) × (q.store i ≡ x)
  next-first q x xs valid e = map-some q.store _ x (peek-contents q valid ∙ ap head? e)
