-- ===== src/MatchingEngine/Tests.antt =====
-- The theorems at concrete engines.
use trading_ecosystem.Prelude.{true, ℕ, ◌≡◌, refl, pos, List, [], ◌∷◌, some, arith}
use trading_ecosystem.Run.{put_back}
use trading_ecosystem.LfQueue.{LfQueue, get_next_to_read}
use trading_ecosystem.Types.{Side}
use trading_ecosystem.Message.{ClientRequestType, MeClientRequest, Event, recorder}
use trading_ecosystem.OrderBook.{create_book}
use trading_ecosystem.MatchingEngine.{MatchingEngine}
use trading_ecosystem.LfQueue.Fifo.{IsValid}
use trading_ecosystem.MatchingEngine.Rounds.{view, handle_all, run_rounds, run_rounds-handle_all}

abbrev new_order : MeClientRequest
new_order = record {
  type = ClientRequestType.new;
  client_id = 1;
  ticker_id = 2;
  order_id = 7;
  side = Side.buy;
  price = pos 100;
  qty = 5;
}

abbrev requests : (waiting : ℕ) → LfQueue MeClientRequest
requests waiting = record {
  store = λ _. new_order;
  size = 8;
  next_write_index = waiting;
  next_read_index = 0;
  num_elements = waiting;
}

abbrev engine : (waiting : ℕ) → MatchingEngine (List Event)
engine waiting = record {
  ticker_order_book = create_book;
  incoming_requests = requests waiting;
  outgoing = [];
  running = true;
}

one_request : get_next_to_read (requests 1) ≡ some 0
unfolding get_next_to_read
one_request = refl

two_requests-IsValid : IsValid (requests 2)
two_requests-IsValid = record {
  read_in = omega arith;
  room = omega arith;
  small = omega arith;
  write_at = refl;
}

run_rounds-handle_all_example :
    put_back view (run_rounds recorder 3 (engine 2))
    ≡ handle_all recorder (new_order ∷ new_order ∷ []) (view (engine 2))
run_rounds-handle_all_example =
    run_rounds-handle_all recorder 3 (new_order ∷ new_order ∷ []) (engine 2) two_requests-IsValid
      refl (omega arith)
