-- ===== src/MatchingEngine/Rounds.antt =====
-- The loop of `run` in matching_engine.h over a whole queue of requests, against an exchange that handles a list of them.
use trading_ecosystem.Prelude.{
  ℕ, zero, suc, ◌≤◌, ◌≡◌, refl, ap, ◌∙◌, List, [], ◌∷◌, length, ltb, Bool-cases, inl, inr, none,
  some, update, arith,
}
use trading_ecosystem.Run.{
  Run, ok, fault, out_of_range, Cmd, ◌>>◌, pure, require, put_back, zoom, and_then,
}
use trading_ecosystem.Run.Ensures.{Ensures, returns, mono}
use trading_ecosystem.LfQueue.{LfQueue, get_next_to_read, update_read_index}
use trading_ecosystem.LfQueue.Fifo.{
  IsValid, contents, next-empty, next-first, contents-update_read_index,
}
use trading_ecosystem.Types.{me_max_tickers}
use trading_ecosystem.Message.{MeClientRequest, Outbound}
use trading_ecosystem.OrderBook.{MeOrderBook}
use trading_ecosystem.MatchingEngine.Requests.{process_client_request-IsOnly}
use trading_ecosystem.MatchingEngine.{
  MatchingEngine, on_book, dispatch, process_client_request, process_next, run_round,
}

-- The abstract exchange: the books and what was sent, with no queue of requests.
pub record Exchange (E : Type 0) : Type 0 where
  pub ticker_order_book : ℕ → MeOrderBook
  pub outgoing : E

abbrev pub view : {E : Type 0} → MatchingEngine E → Exchange E
view e = record { ticker_order_book = e.ticker_order_book; outgoing = e.outgoing }

module _ {E : Type 0} (out : Outbound E) where
  -- One request, on the book of its ticker.
  unfoldable pub handle : MeClientRequest → Cmd (Exchange E) (Unit {0})
  handle r = do
    require (ltb r.ticker_id me_max_tickers) out_of_range
    zoom (λ x. record { book = x.ticker_order_book r.ticker_id; engine = x.outgoing })
        (λ w x. record {
          ticker_order_book = update x.ticker_order_book r.ticker_id w.book;
          outgoing = w.engine;
        })
        (dispatch out r.type r)

  unfoldable pub handle_all : List MeClientRequest → Cmd (Exchange E) (Unit {0})
  handle_all [] = pure tt
  handle_all (r ∷ rs) = handle r >> handle_all rs

  -- Rounds of the loop in `run`, one after the other.
  unfoldable pub run_rounds : ℕ → Cmd (MatchingEngine E) (Unit {0})
  run_rounds zero = pure tt
  run_rounds (suc n) = run_round out >> run_rounds n

  put_back-put_back :
      {S T U : Type 0} (f : T → S) (g : S → U) (r : Run T (Unit {0}))
      → put_back g (put_back f r) ≡ put_back (λ t. g (f t)) r
  put_back-put_back f g (ok a t) = refl
  put_back-put_back f g (fault e) = refl

  process-view :
      (r : MeClientRequest) (e : MatchingEngine E)
      → put_back view (process_client_request out r e) ≡ handle r (view e)
  unfolding process_client_request handle on_book
  process-view r e = elim (Bool-cases (ltb r.ticker_id me_max_tickers)) [
    | inl inside ↦ rw inside (
        put_back-put_back _ view (
          dispatch out r.type r
            (record { book = e.ticker_order_book r.ticker_id; engine = e.outgoing })))
    | inr outside ↦ rw outside refl
  ]

  abbrev advance : Cmd (MatchingEngine E) (Unit {0})
  advance =
      zoom (λ e. e.incoming_requests) (λ q e. record e { incoming_requests = q }) update_read_index

  rounds-empty :
      (n : ℕ) (e : MatchingEngine E)
      → get_next_to_read e.incoming_requests ≡ none
      → run_rounds n e ≡ ok tt e
  unfolding run_rounds run_round process_next
  rounds-empty zero e h = refl
  rounds-empty (suc n) e h = rw h (rounds-empty n e h)

  -- What follows on the handling of a request, once the queue has moved on to `q`.
  after_request :
      (m : Cmd (MatchingEngine E) (Unit {0})) (next : Cmd (Exchange E) (Unit {0}))
      (q q' : LfQueue MeClientRequest) (r : Run (MatchingEngine E) (Unit {0}))
      → update_read_index q ≡ ok tt q'
      → Ensures (λ _ e. e.incoming_requests ≡ q) r
      → ((e : MatchingEngine E) → e.incoming_requests ≡ q' → put_back view (m e) ≡ next (view e))
      → put_back view (and_then (and_then r (λ _. advance)) (λ _. m))
        ≡ and_then (put_back view r) (λ _. next)
  after_request m next q q' (ok tt e) moved (returns same) more =
      rw (ap update_read_index same ∙ moved) (more (record e { incoming_requests = q' }) refl)
  after_request m next q q' (fault f) moved same more = refl

  round_step :
      (r : MeClientRequest) (i : ℕ) (e : MatchingEngine E)
      → get_next_to_read e.incoming_requests ≡ some i
      → e.incoming_requests.store i ≡ r
      → run_round out e ≡ and_then (process_client_request out r e) (λ _. advance)
  unfolding run_round process_next
  round_step r i e here is_r = rw (here, is_r) refl

  -- If the queue of requests is valid, as many rounds of the loop in `run` as it holds requests, or
  -- more, do to the books and to what is sent what handling the list of those requests one by one
  -- does, or end in the same fault.
  pub run_rounds-handle_all :
      (n : ℕ) (rs : List MeClientRequest) (e : MatchingEngine E)
      → IsValid e.incoming_requests
      → contents e.incoming_requests ≡ rs
      → length rs ≤ n
      → put_back view (run_rounds n e) ≡ handle_all rs (view e)
  unfolding handle_all run_rounds
  run_rounds-handle_all n [] e valid holds enough =
      rw (rounds-empty n e (next-empty e.incoming_requests valid holds)) refl
  run_rounds-handle_all zero (r ∷ rs) e valid holds enough = absurd (omega arith)
  run_rounds-handle_all (suc n) (r ∷ rs) e valid holds enough =
      let (i, here, is_r) = next-first e.incoming_requests r rs valid holds in
      let (q', moved, valid', holds') =
        contents-update_read_index e.incoming_requests r rs valid holds in
      ap (λ m. put_back view (and_then m (λ _. run_rounds n))) (round_step r i e here is_r)
      ∙ after_request (run_rounds n) (handle_all rs) e.incoming_requests q'
          (process_client_request out r e) moved
          (mono (process_client_request-IsOnly out r e) λ _ e' only. only.1)
          (λ e' same. run_rounds-handle_all n rs e' (rw same valid') (rw same holds') (omega arith))
      ∙ ap (λ x. and_then x (λ _. handle_all rs)) (process-view r e)
