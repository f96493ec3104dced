-- ===== src/FifoSequencer/Order.antt =====
-- What `sequenceAndPublish` writes to the queue of the matching engine.
use trading_ecosystem.Prelude.{
  ℕ, suc, ◌+◌, ◌<◌, ◌≤◌, ◌≡◌, refl, sym, ap, ◌∙◌, List, [], ◌∷◌, ◌++◌, map, length, arith,
}
use mathlib.Core.List.{append-nil, append_assoc, Perm, Permᴰ}
use mathlib.Core.Logic.{∥∥₁_elim}
use trading_ecosystem.LfQueue.{LfQueue, write}
use trading_ecosystem.LfQueue.Fifo.{
  num_elements-write, size-write, IsValid, contents, contents-write,
}
use trading_ecosystem.Message.{MeClientRequest}
use trading_ecosystem.FifoSequencer.{
  FifoSequencer, RecvTimeClientRequest, publish, publish_pending, sequence_and_publish,
}

-- The queue has a free slot beyond `n` more elements.
abbrev pub HasRoom : ℕ → LfQueue MeClientRequest → Type 0
HasRoom n q = q.num_elements + n < q.size

abbrev pub requests : List RecvTimeClientRequest → List MeClientRequest
requests = map (λ x. x.request)

publish-contents :
    (xs : List RecvTimeClientRequest) (q : LfQueue MeClientRequest)
    → IsValid q
    → HasRoom (length xs) q
    → IsValid (publish xs q) × (contents (publish xs q) ≡ contents q ++ requests xs)
unfolding publish
publish-contents [] q valid room = (valid, sym (append-nil _))
publish-contents (x ∷ xs) q valid room =
    let (valid', written) = contents-write x.request q valid (omega arith) in
    let (valid'', all) =
      publish-contents xs (write x.request q) valid'
        (omega (arith, num_elements-write x.request q valid, size-write x.request q)) in
    (
      valid'',
      all
          ∙ ap (λ l. l ++ requests xs) written
          ∙ append_assoc (contents q) (x.request ∷ []) (requests xs),
    )

module _ (sort : List RecvTimeClientRequest → List RecvTimeClientRequest)
    (length-sort : (xs : List RecvTimeClientRequest) → length (sort xs) ≡ length xs) where
  sort_nothing : sort [] ≡ []
  sort_nothing = ground (arith, length-sort [])

  -- In the order in which `std::sort` puts them.
  pub sequence_and_publish-contents :
      (s : FifoSequencer)
      → IsValid s.incoming_requests
      → HasRoom (length s.pending) s.incoming_requests
      → let s' = sequence_and_publish sort s in
        IsValid s'.incoming_requests
        × (contents s'.incoming_requests
            ≡ contents s.incoming_requests ++ requests (sort s.pending))
        × (s'.pending ≡ [])
  unfolding sequence_and_publish publish_pending
  sequence_and_publish-contents s valid room = go s.pending refl
    where
      go :
          (xs : List RecvTimeClientRequest)
          → s.pending ≡ xs
          → let s' = publish_pending sort xs s in
            IsValid s'.incoming_requests
            × (contents s'.incoming_requests ≡ contents s.incoming_requests ++ requests (sort xs))
            × (s'.pending ≡ [])
      go [] e = (valid, rw sort_nothing (sym (append-nil _)), e)
      go (x ∷ xs) e =
          let (valid', all) =
            publish-contents (sort (x ∷ xs)) s.incoming_requests valid
              (omega (arith, length-sort (x ∷ xs), ap length e)) in
          (valid', all, refl)

-- Each came no later than those behind it.
abbrev pub InOrder : List RecvTimeClientRequest → Type 0
InOrder [] = Unit {0}
InOrder (x ∷ []) = Unit {0}
InOrder (x ∷ y ∷ xs) = (x.recv_time ≤ y.recv_time) × InOrder (y ∷ xs)

-- What `std::sort` promises of a list that `operator<` compares by the receive times.
pub record IsSort (sort : List RecvTimeClientRequest → List RecvTimeClientRequest) : Type 0 where
  pub permutes : (xs : List RecvTimeClientRequest) → Perm (sort xs) xs
  pub puts_in_order : (xs : List RecvTimeClientRequest) → InOrder (sort xs)

length-permuted : {xs ys : List RecvTimeClientRequest} → Perm xs ys → length xs ≡ length ys
length-permuted p = ∥∥₁_elim p (λ a b. hlevel) go
  where
    go : {xs ys : List RecvTimeClientRequest} → Permᴰ xs ys → length xs ≡ length ys
    go Permᴰ.nil = refl
    go (Permᴰ.cons e d) = ap suc (go d)
    go (Permᴰ.swap e f) = refl
    go (Permᴰ.trans d f) = go d ∙ go f

module _ (sort : List RecvTimeClientRequest → List RecvTimeClientRequest)
    (sorts : IsSort sort) where
  -- Let `std::sort` give a permutation of what it takes that no receive time breaks the order of.
  -- If the queue of the sequencer is valid and has room for the pending requests and a free slot
  -- beyond, `sequenceAndPublish` writes the requests of a permutation of the pending ones, each of
  -- which came no later than those behind it, behind what the queue holds, keeps the queue valid,
  -- and leaves none pending.
  pub sequence_and_publish-InOrder :
      (s : FifoSequencer)
      → IsValid s.incoming_requests
      → HasRoom (length s.pending) s.incoming_requests
      → let s' = sequence_and_publish sort s in
        (published : List RecvTimeClientRequest) × Perm published s.pending
        × InOrder published
        × IsValid s'.incoming_requests
        × (contents s'.incoming_requests ≡ contents s.incoming_requests ++ requests published)
        × (s'.pending ≡ [])
  sequence_and_publish-InOrder s valid room =
      let (valid', written, none_left) =
        sequence_and_publish-contents sort (λ xs. length-permuted (sorts.permutes xs)) s valid
          room in
      (
        sort s.pending,
        sorts.permutes s.pending,
        sorts.puts_in_order s.pending,
        valid',
        written,
        none_left,
      )
