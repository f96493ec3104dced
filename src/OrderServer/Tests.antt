-- ===== src/OrderServer/Tests.antt =====
-- The theorems at concrete requests and servers.
use trading_ecosystem.Prelude.{
  refl, ◌+◌, ◌%◌, some, ◌≢◌, true, false, ℕ, ◌≡◌, ◌≤◌, ◌<◌, pos, negsuc, List, [], ◌∷◌, ◌++◌,
  length, none, arith,
}
use trading_ecosystem.Run.Ensures.{Ensures}
use trading_ecosystem.Types.{Side}
use trading_ecosystem.Message.{
  ClientRequestType, OmClientRequest, ClientResponseType, MeClientResponse,
}
use trading_ecosystem.OrderServer.{
  send_response, seq_mod, send_loop, OrderServer, handle_request, recv_loop,
}
use trading_ecosystem.OrderServer.Wire.{le_bytes, encode_response, decode_request, request_size}
use trading_ecosystem.Run.{fault, out_of_fuel, and_then}
use trading_ecosystem.OrderServer.Pieces.{recv_loop-append}
use trading_ecosystem.OrderServer.Outgoing.{send_response-appends}
use trading_ecosystem.OrderServer.Sending.{IsSent, send_loop_ends}
use trading_ecosystem.OrderServer.Running.{Serving, Round, run}
use trading_ecosystem.OrderServer.Rounds.{IsServed, run-IsServed}
use trading_ecosystem.OrderServer.Sequence.{Handled, handle_request-Handled, recv_loop-rest}

abbrev first_request : OmClientRequest
first_request = record {
  seq_num = 1;
  me_client_request = record {
    type = ClientRequestType.new;
    client_id = 3;
    ticker_id = 2;
    order_id = 7;
    side = Side.sell;
    price = negsuc 4;
    qty = 500;
  };
}

abbrev no_response : MeClientResponse
no_response = record {
  type = ClientResponseType.invalid;
  client_id = 0;
  ticker_id = 0;
  client_order_id = 0;
  market_order_id = 0;
  side = Side.invalid;
  price = pos 0;
  exec_qty = 0;
  leaves_qty = 0;
}

abbrev new_server : OrderServer
new_server = record {
  running = true;
  fifo_sequencer = record {
    incoming_requests = record {
      store = λ _. first_request.me_client_request;
      size = 8;
      next_write_index = 0;
      next_read_index = 0;
      num_elements = 0;
    };
    pending = [];
  };
  outgoing_responses = record {
    store = λ _. no_response;
    size = 8;
    next_write_index = 0;
    next_read_index = 0;
    num_elements = 0;
  };
  cid_next_exp_seq_num = λ _. 1;
  cid_tcp_socket = λ _. none;
  cid_next_outgoing_seq_num = λ _. 1;
  sockets = λ _. record {
    socket_fd = pos 4;
    socket_attrib = record { sin_addr = 0; sin_port = 0; sin_family = 0 };
    outbound_data = [];
    inbound_data = [];
    has_recv_callback = true;
  };
}

handle_request-Handled_example :
    Ensures
      (λ _ s. Handled new_server 5 1000 first_request s)
      (handle_request 5 1000 first_request new_server)
handle_request-Handled_example = handle_request-Handled 5 1000 first_request new_server

-- The bytes of `first_request` and two more.
abbrev forty_bytes : List ℕ
forty_bytes =
    1 ∷ 0 ∷ 0 ∷ 0 ∷ 0 ∷ 0 ∷ 0 ∷ 0 ∷ 1 ∷ 3 ∷ 0 ∷ 0 ∷ 0 ∷ 2 ∷ 0 ∷ 0 ∷ 0 ∷ 7 ∷ 0 ∷ 0 ∷ 0 ∷ 0 ∷ 0 ∷ 0
    ∷ 0 ∷ 255 ∷ 251 ∷ 255 ∷ 255 ∷ 255 ∷ 255 ∷ 255 ∷ 255 ∷ 255 ∷ 244 ∷ 1 ∷ 0 ∷ 0 ∷ 1 ∷ 0 ∷ []

decode_test : decode_request forty_bytes ≡ first_request
unfolding decode_request
decode_test = refl

forty : length forty_bytes ≤ 40
forty = omega arith

recv_loop-rest_example :
    Ensures (λ rest _. length rest < request_size) (recv_loop 5 1000 40 forty_bytes new_server)
recv_loop-rest_example = recv_loop-rest 5 1000 40 forty_bytes new_server forty

-- One response for client 0, which is tied to socket 5.
abbrev one_waiting : OrderServer
one_waiting = record new_server {
  outgoing_responses = record {
    store = λ _. no_response;
    size = 8;
    next_write_index = 1;
    next_read_index = 0;
    num_elements = 1;
  };
  cid_tcp_socket = λ _. some 5;
}

send_loop_ends_example :
    (send_loop 2 one_waiting ≢ fault out_of_fuel)
    × Ensures (λ _ s. IsSent s) (send_loop 2 one_waiting)
send_loop_ends_example = send_loop_ends 2 one_waiting (omega arith)

send_response-appends_example :
    Ensures
      (λ _ s.
        ((s.sockets 5).outbound_data
          ≡ (one_waiting.sockets 5).outbound_data ++ (le_bytes 8 1 ++ encode_response no_response))
        × (s.cid_next_outgoing_seq_num 0 ≡ (1 + 1) % seq_mod))
      (send_response no_response one_waiting)
send_response-appends_example = send_response-appends no_response 5 one_waiting refl

-- The first two bytes of a second request come with the first one.
second_piece : length forty_bytes + 3 ≤ 43
second_piece = omega arith

recv_loop-append_example :
    recv_loop 5 1000 43 (forty_bytes ++ (0 ∷ 0 ∷ 0 ∷ [])) new_server
    ≡ and_then
        (recv_loop 5 1000 40 forty_bytes new_server)
        (λ rest. recv_loop 5 1000 43 (rest ++ (0 ∷ 0 ∷ 0 ∷ [])))
recv_loop-append_example =
    recv_loop-append 5 1000 40 43 43 forty_bytes (0 ∷ 0 ∷ 0 ∷ []) new_server forty second_piece
      second_piece

-- The server with one response to send, and the socket of its client among those that are read.
abbrev serving : Serving
serving = record {
  order_server = one_waiting;
  tcp_server = record {
    epoll_fd = pos 3;
    listener_socket = 0;
    receive_sockets = 5 ∷ [];
    send_sockets = [];
    has_recv_callback = true;
  };
}

-- The socket can be read and written. The kernel hands over a request and two more bytes when it is read, and then
-- nothing when it is written.
abbrev busy_round : Round
busy_round = record {
  events = record { socket = 5; epollin = true; epollout = true; epollerr_or_hup = false } ∷ [];
  connections = [];
  first = λ _. record { bytes = forty_bytes; timestamp = some 1000; sender = none };
  second = λ _. record { bytes = []; timestamp = none; sender = none };
}

run-IsServed_example :
    (run (λ rs. rs) (busy_round ∷ busy_round ∷ []) serving ≢ fault out_of_fuel)
    × Ensures (λ _ s. IsServed 0 5 s) (run (λ rs. rs) (busy_round ∷ busy_round ∷ []) serving)
run-IsServed_example =
    run-IsServed (λ rs. rs) 0 5 busy_round (busy_round ∷ []) serving refl
      (record { receive = (refl, tt); send = tt })
