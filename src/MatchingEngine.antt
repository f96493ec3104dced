-- ===== src/MatchingEngine.antt =====
-- exchange/matcher/matching_engine.h and matching_engine.cpp: the order books of all tickers, between a queue
-- of requests and the queues of responses and market updates.
pub mod Requests
pub mod Rounds
mod Tests
use trading_ecosystem.Prelude.{
  ℕ, ℤ, ltb, ◌==◌, Ptr, none, some, Bool, true, false, if◌then◌else◌, update,
}
use trading_ecosystem.Run.{
  Run, Cmd, ok, fault, fatal, out_of_range, ◌>>=◌, ◌>>◌, gets, modify, halt, pure, require,
  put_back, zoom,
}
use trading_ecosystem.LfQueue
use trading_ecosystem.LfQueue.{LfQueue, get_next_to_read, update_read_index}
use trading_ecosystem.Types.{Side, me_max_tickers}
use trading_ecosystem.Message.{
  ClientRequestType, MeClientRequest, MeClientResponse, MeMarketUpdate, Outbound,
}
use trading_ecosystem.OrderBook.{MeOrderBook, Book, create_book}
use trading_ecosystem.OrderBook.Matching.{add, cancel}

-- The queues that the engine writes.
pub record Outgoing : Type 0 where
  pub outgoing_ogw_responses : LfQueue MeClientResponse
  pub outgoing_md_updates : LfQueue MeMarketUpdate

-- `sendClientResponse` and `sendMarketUpdate`, less the line that each logs.
unfoldable pub send_client_response : MeClientResponse → Outgoing → Outgoing
send_client_response r q = record q {
  outgoing_ogw_responses = LfQueue.write r q.outgoing_ogw_responses;
}

unfoldable pub send_market_update : MeMarketUpdate → Outgoing → Outgoing
send_market_update u q = record q { outgoing_md_updates = LfQueue.write u q.outgoing_md_updates }

abbrev pub queues : Outbound Outgoing
queues = record {
  send_client_response = send_client_response;
  send_market_update = send_market_update;
}

-- The books send to any engine `E`; the matching engine itself sends to `queues`.
pub record MatchingEngine (E : Type 0) : Type 0 where
  pub ticker_order_book : ℕ → MeOrderBook
  pub incoming_requests : LfQueue MeClientRequest
  pub outgoing : E
  pub running : Bool

module _ {E : Type 0} where
  -- The constructor: an empty book for each ticker.
  unfoldable pub create_engine : LfQueue MeClientRequest → E → MatchingEngine E
  create_engine requests outgoing = record {
    ticker_order_book = create_book;
    incoming_requests = requests;
    outgoing = outgoing;
    running = false;
  }

  -- `start` and `stop`, less the thread.
  unfoldable pub start : MatchingEngine E → MatchingEngine E
  start e = record e { running = true }

  unfoldable pub stop : MatchingEngine E → MatchingEngine E
  stop e = record e { running = false }

  -- A method of one ticker's book.
  unfoldable pub on_book : ℕ → Cmd (Book E) (Unit {0}) → Cmd (MatchingEngine E) (Unit {0})
  on_book ticker =
      zoom (λ e. record { book = e.ticker_order_book ticker; engine = e.outgoing })
        (λ w e. record e {
          ticker_order_book = update e.ticker_order_book ticker w.book;
          outgoing = w.engine;
        })

module _ {E : Type 0} (out : Outbound E) where
  -- The cases of `processClientRequest`, on the book that it has looked up.
  unfoldable pub dispatch : ClientRequestType → MeClientRequest → Cmd (Book E) (Unit {0})
  dispatch ClientRequestType.new r = add out r.client_id r.order_id r.ticker_id r.side r.price r.qty
  dispatch ClientRequestType.cancel r = cancel out r.client_id r.order_id r.ticker_id
  dispatch ClientRequestType.invalid r = halt fatal
  dispatch (ClientRequestType.unnamed b) r = halt fatal

  -- The code does not check `ticker_order_book_[ticker_id]`: an index out of range is undefined, which the model has as
  -- a fault.
  unfoldable pub process_client_request : MeClientRequest → Cmd (MatchingEngine E) (Unit {0})
  unfolding on_book dispatch
  process_client_request r = do
    require (ltb r.ticker_id me_max_tickers) out_of_range
    on_book r.ticker_id (dispatch r.type r)

  -- What a round of `run` does with what `getNextToRead` returns.
  unfoldable pub process_next : Ptr → Cmd (MatchingEngine E) (Unit {0})
  process_next none = pure tt
  process_next (some i) = do
    r ← gets (λ e. e.incoming_requests.store i)
    process_client_request r
    zoom (λ e. e.incoming_requests) (λ q e. record e { incoming_requests = q }) update_read_index

  -- One round of the loop in `run`.
  unfoldable pub run_round : Cmd (MatchingEngine E) (Unit {0})
  unfolding process_next
  run_round = do i ← gets (λ e. get_next_to_read e.incoming_requests); process_next i
