-- ===== src/MatchingEngine/Requests.antt =====
-- `processClientRequest` and `run` of matching_engine.h: what a request changes in the engine.
use trading_ecosystem.Prelude.{ℕ, ◌≡◌, ◌≢◌, refl, ltb, arith, Bool-cases, inl, inr}
use trading_ecosystem.Run.{Cmd}
use trading_ecosystem.Run.Ensures.{Ensures, ends, always, put_back-Ensures}
use trading_ecosystem.Types.{me_max_tickers}
use trading_ecosystem.Message.{MeClientRequest, Outbound}
use trading_ecosystem.OrderBook.{Book}
use trading_ecosystem.MatchingEngine.{MatchingEngine, on_book, dispatch, process_client_request}

module _ {E : Type 0} (out : Outbound E) where
  -- Nothing but the book of one ticker, and the engine's output, has changed.
  abbrev pub IsOnly : (ticker : ℕ) (e e' : MatchingEngine E) → Type 0
  IsOnly ticker e e' =
      ((t : ℕ) → t ≢ ticker → e'.ticker_order_book t ≡ e.ticker_order_book t)
      × (e'.incoming_requests ≡ e.incoming_requests)
      × (e'.running ≡ e.running)

  on_book-IsOnly :
      (ticker : ℕ) (m : Cmd (Book E) (Unit {0})) (e : MatchingEngine E)
      → Ensures (λ _. IsOnly ticker e) (on_book ticker m e)
  unfolding on_book
  on_book-IsOnly ticker m e =
      put_back-Ensures _ (always (m _) λ _ w. ((λ t ne. ground arith), refl, refl))

  pub process_client_request-IsOnly :
      (r : MeClientRequest) (e : MatchingEngine E)
      → Ensures (λ _ e'. IsOnly r.ticker_id e e') (process_client_request out r e)
  unfolding process_client_request
  process_client_request-IsOnly r e = elim (Bool-cases (ltb r.ticker_id me_max_tickers)) [
    | inl inside ↦ rw inside (on_book-IsOnly r.ticker_id (dispatch out r.type r) e)
    | inr outside ↦ rw outside ends
  ]
