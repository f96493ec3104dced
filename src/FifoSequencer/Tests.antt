-- ===== src/FifoSequencer/Tests.antt =====
-- The theorems at a concrete sequencer.
use trading_ecosystem.Prelude.{
  ℕ, ◌≡◌, refl, pos, List, [], ◌∷◌, ltb, if◌then◌else◌, arith, Bool-cases, inl, inr, ◌≤◌,
}
use trading_ecosystem.LfQueue.Fifo.{IsValid, contents}
use trading_ecosystem.Types.{Side}
use trading_ecosystem.Message.{ClientRequestType, MeClientRequest}
use trading_ecosystem.FifoSequencer.{FifoSequencer, RecvTimeClientRequest, sequence_and_publish}
use mathlib.Core.List.{Perm}
use mathlib.Core.List.Perm
use trading_ecosystem.FifoSequencer.Order.{requests, InOrder, IsSort, sequence_and_publish-InOrder}

-- A sort by insertion, in the place of `std::sort`.
abbrev insert : RecvTimeClientRequest → List RecvTimeClientRequest → List RecvTimeClientRequest
insert x [] = x ∷ []
insert x (y ∷ ys) =
    let rest = insert x ys in if ltb y.recv_time x.recv_time then y ∷ rest else x ∷ y ∷ ys

abbrev sort : List RecvTimeClientRequest → List RecvTimeClientRequest
sort [] = []
sort (x ∷ xs) = insert x (sort xs)

insert-Perm :
    (x : RecvTimeClientRequest) (xs : List RecvTimeClientRequest) → Perm (insert x xs) (x ∷ xs)
insert-Perm x [] = Perm.rfl
insert-Perm x (y ∷ ys) = elim (Bool-cases (ltb y.recv_time x.recv_time)) [
  | inl h ↦ rw h (Perm.trans (Perm.cons y (insert-Perm x ys)) (Perm.swap x y ys))
  | inr h ↦ rw h Perm.rfl
]

sort-Perm : (xs : List RecvTimeClientRequest) → Perm (sort xs) xs
sort-Perm [] = Perm.rfl
sort-Perm (x ∷ xs) = Perm.trans (insert-Perm x (sort xs)) (Perm.cons x (sort-Perm xs))

InOrder-cons :
    (y x : RecvTimeClientRequest) (ys : List RecvTimeClientRequest)
    → y.recv_time ≤ x.recv_time
    → InOrder (y ∷ ys)
    → InOrder (insert x ys)
    → InOrder (y ∷ insert x ys)
InOrder-cons y x [] le h k = (le, k)
InOrder-cons y x (z ∷ zs) le h k = elim (Bool-cases (ltb z.recv_time x.recv_time)) [
  | inl b ↦ rw b (h.0, rw b at k)
  | inr b ↦ rw b (le, rw b at k)
]

insert-InOrder :
    (x : RecvTimeClientRequest) (xs : List RecvTimeClientRequest)
    → InOrder xs
    → InOrder (insert x xs)
insert-InOrder x [] h = tt
insert-InOrder x (y ∷ ys) h = elim (Bool-cases (ltb y.recv_time x.recv_time)) [
  | inl b ↦ rw b (InOrder-cons y x ys (ground arith) h (insert-InOrder x ys (tail y ys h)))
  | inr b ↦ rw b (ground arith, h)
]
  where
    tail :
        (y : RecvTimeClientRequest) (ys : List RecvTimeClientRequest)
        → InOrder (y ∷ ys)
        → InOrder ys
    tail y [] h = tt
    tail y (z ∷ zs) h = h.1

sort-InOrder : (xs : List RecvTimeClientRequest) → InOrder (sort xs)
sort-InOrder [] = tt
sort-InOrder (x ∷ xs) = insert-InOrder x (sort xs) (sort-InOrder xs)

sort-IsSort : IsSort sort
sort-IsSort = record { permutes = sort-Perm; puts_in_order = sort-InOrder }

abbrev request_of : (client : ℕ) → MeClientRequest
request_of client = record {
  type = ClientRequestType.new;
  client_id = client;
  ticker_id = 0;
  order_id = 1;
  side = Side.buy;
  price = pos 100;
  qty = 5;
}

abbrev came_at : (time client : ℕ) → RecvTimeClientRequest
came_at time client = record { recv_time = time; request = request_of client }

-- Two requests, the later one first, before a queue that holds a third.
abbrev two_pending : FifoSequencer
two_pending = record {
  incoming_requests = record {
    store = λ _. request_of 9;
    size = 8;
    next_write_index = 1;
    next_read_index = 0;
    num_elements = 1;
  };
  pending = came_at 20 2 ∷ came_at 10 1 ∷ [];
}

two_pending-IsValid : IsValid two_pending.incoming_requests
two_pending-IsValid = record {
  read_in = omega arith;
  room = omega arith;
  small = omega arith;
  write_at = refl;
}

sequence_and_publish-InOrder_example :
    let s = sequence_and_publish sort two_pending in
    (published : List RecvTimeClientRequest) × Perm published (came_at 20 2 ∷ came_at 10 1 ∷ [])
    × InOrder published
    × IsValid s.incoming_requests
    × (contents s.incoming_requests ≡ request_of 9 ∷ requests published)
    × (s.pending ≡ [])
sequence_and_publish-InOrder_example =
    sequence_and_publish-InOrder sort sort-IsSort two_pending two_pending-IsValid (omega arith)
