-- ===== src/OrderServer.antt =====
-- exchange/order_server/order_server.h and order_server.cpp: the connections of the clients, their sequence numbers, and the
-- way of requests to the sequencer and of responses to the sockets.
pub mod Wire
pub mod Sequence
pub mod Running
pub mod Ties
pub mod Rounds
pub mod Sending
pub mod Pieces
pub mod Outgoing
mod Tests
use trading_ecosystem.Prelude.{
  ℕ, zero, suc, ◌+◌, ◌-◌, ◌%◌, ◌^◌, List, [], ◌∷◌, ◌++◌, ltb, leb, ◌==◌, length, take, drop, Bool,
  true, false, ◌&&◌, not, if◌then◌else◌, Ptr, none, some, ptr_eq, update,
}
use trading_ecosystem.Run.{
  Cmd, out_of_range, out_of_fuel, null_deref, ◌>>=◌, ◌>>◌, gets, modify, assert, require, halt,
  pure, zoom,
}
use trading_ecosystem.Types.{me_max_num_clients}
use trading_ecosystem.Message.{MeClientRequest, OmClientRequest, MeClientResponse}
use trading_ecosystem.LfQueue.{LfQueue, get_next_to_read, update_read_index}
use trading_ecosystem.FifoSequencer.{
  RecvTimeClientRequest, FifoSequencer, add_client_request, sequence_and_publish,
}
use trading_ecosystem.TcpSocket
use trading_ecosystem.TcpServer
use trading_ecosystem.TcpServer.{TcpServer}
use trading_ecosystem.TcpSocket.{TcpSocket, Received}
use trading_ecosystem.OrderServer.Wire.{request_size, decode_request, encode_response, le_bytes}

abbrev pub seq_mod : ℕ
seq_mod = 2 ^ 64

-- The sockets stand in a store; a pointer to one is its index.
pub record OrderServer : Type 0 where
  pub running : Bool
  pub fifo_sequencer : FifoSequencer
  pub outgoing_responses : LfQueue MeClientResponse
  pub cid_next_exp_seq_num : ℕ → ℕ
  pub cid_tcp_socket : ℕ → Ptr
  pub cid_next_outgoing_seq_num : ℕ → ℕ
  pub sockets : ℕ → TcpSocket

-- The constructor; `port_` and `iface_` are only handed to `listen`.
unfoldable pub create_server :
    FifoSequencer → LfQueue MeClientResponse → (ℕ → TcpSocket) → OrderServer
create_server sequencer responses sockets = record {
  running = false;
  fifo_sequencer = sequencer;
  outgoing_responses = responses;
  cid_next_exp_seq_num = λ _. 1;
  cid_tcp_socket = λ _. none;
  cid_next_outgoing_seq_num = λ _. 1;
  sockets = sockets;
}

-- The first request of a client ties the client to its socket.
unfoldable pub tie_socket : (client socket : ℕ) → Cmd OrderServer (Unit {0})
tie_socket client socket = modify λ s. record s {
  cid_tcp_socket =
      if ptr_eq (s.cid_tcp_socket client) none
      then update s.cid_tcp_socket client (some socket)
      else s.cid_tcp_socket;
}

-- A request that has the expected number: the number goes up, and the sequencer takes the request.
unfoldable pub accept_request : (rx_time : ℕ) → OmClientRequest → Cmd OrderServer (Unit {0})
accept_request rx_time r = do
  let client = r.me_client_request.client_id
  modify λ s. record s {
    cid_next_exp_seq_num =
        update s.cid_next_exp_seq_num client ((s.cid_next_exp_seq_num client + 1) % seq_mod);
  }
  zoom (λ s. s.fifo_sequencer) (λ f s. record s { fifo_sequencer = f })
      (add_client_request rx_time r.me_client_request)

-- The body of the loop of `recvCallback`. The arrays are indexed by `operator[]`, with no check.
unfoldable pub handle_request : (socket rx_time : ℕ) → OmClientRequest → Cmd OrderServer (Unit {0})
unfolding tie_socket accept_request
handle_request socket rx_time r = do
  let client = r.me_client_request.client_id
  require (ltb client me_max_num_clients) out_of_range
  tie_socket client socket
  tied ← gets (λ s. s.cid_tcp_socket client)
  expected ← gets (λ s. s.cid_next_exp_seq_num client)
  if ptr_eq tied (some socket) && r.seq_num == expected then accept_request rx_time r else pure tt

-- The loop over the whole requests of the buffer; its result is what is left of the buffer. Each round takes bytes off, so
-- `fuel` is at most their number.
unfoldable pub recv_loop : (socket rx_time fuel : ℕ) → List ℕ → Cmd OrderServer (List ℕ)
unfolding handle_request
recv_loop socket rx_time zero bytes = pure bytes
recv_loop socket rx_time (suc fuel) bytes =
    let rest = recv_loop socket rx_time fuel (drop request_size bytes) in
    let round = handle_request socket rx_time (decode_request bytes) >> rest in
    if leb request_size (length bytes) then round else pure bytes

-- `recvCallback`
unfoldable pub recv_callback : (socket rx_time : ℕ) → Cmd OrderServer (Unit {0})
unfolding recv_loop
recv_callback socket rx_time = do
  bytes ← gets (λ s. (s.sockets socket).inbound_data)
  rest ← recv_loop socket rx_time (length bytes) bytes
  modify λ s. record s {
    sockets = update s.sockets socket (record (s.sockets socket) { inbound_data = rest });
  }

-- A socket's `send`.
unfoldable pub send_on : Ptr → List ℕ → Cmd OrderServer (Unit {0})
send_on none bytes = halt null_deref
send_on (some i) bytes =
    zoom (λ s. s.sockets i) (λ t s. record s { sockets = update s.sockets i t })
      (TcpSocket.send bytes)

-- The body of the loop over the responses in `run`.
unfoldable pub send_response : MeClientResponse → Cmd OrderServer (Unit {0})
unfolding send_on
send_response r = do
  require (ltb r.client_id me_max_num_clients) out_of_range
  socket ← gets (λ s. s.cid_tcp_socket r.client_id)
  number ← gets (λ s. s.cid_next_outgoing_seq_num r.client_id)
  assert (not (ptr_eq socket none))
  send_on socket (le_bytes 8 number)
  send_on socket (encode_response r)
  zoom (λ s. s.outgoing_responses) (λ q s. record s { outgoing_responses = q }) update_read_index
  modify λ s. record s {
    cid_next_outgoing_seq_num =
        update s.cid_next_outgoing_seq_num r.client_id ((number + 1) % seq_mod);
  }

-- The loop over the responses: it goes on while `size()` is not 0 and `getNextToRead` is not null.
unfoldable pub send_next :
    (rest : Cmd OrderServer (Unit {0})) → ℕ → Ptr → Cmd OrderServer (Unit {0})
unfolding send_response
send_next rest size none = pure tt
send_next rest zero (some i) = pure tt
send_next rest (suc size) (some i) = do
  r ← gets (λ s. s.outgoing_responses.store i)
  send_response r
  rest

unfoldable pub send_loop : ℕ → Cmd OrderServer (Unit {0})
unfolding send_next
send_loop zero = halt out_of_fuel
send_loop (suc fuel) = do
  size ← gets (λ s. s.outgoing_responses.num_elements)
  next ← gets (λ s. get_next_to_read s.outgoing_responses)
  send_next (send_loop fuel) size next

-- `start` and `stop`, less the thread.
unfoldable pub start : OrderServer → OrderServer
start s = record s { running = true }

unfoldable pub stop : OrderServer → OrderServer
stop s = record s { running = false }

-- The destructor, less the second that it waits.
unfoldable pub destroy : OrderServer → OrderServer
unfolding stop
destroy s = stop s

-- `recvFinishedCallBack`; the parameter is `std::sort`, as in FifoSequencer.
unfoldable pub recv_finished_callback :
    (List RecvTimeClientRequest → List RecvTimeClientRequest) → Cmd OrderServer (Unit {0})
recv_finished_callback sort =
    modify (λ s. record s { fifo_sequencer = sequence_and_publish sort s.fifo_sequencer })

-- `sendAndRecv` of one socket, with the callback of the constructor if the socket has one.
unfoldable pub run_socket : (answers : ℕ → Received) → ℕ → Cmd OrderServer Bool
unfolding recv_callback
run_socket answers i = do
  let run =
      TcpSocket.send_and_recv (λ s. s.sockets i)
        (λ t s. record s { sockets = update s.sockets i t })
  has_callback ← gets (λ s. (s.sockets i).has_recv_callback)
  (got, sent) ←
      if has_callback then run (some (recv_callback i)) (answers i) else run none (answers i)
  pure got

-- `tcp_server_.sendAndRecv()` in `run`. The kernel is asked once for each socket of the first list and once for each of
-- the second: `first` and `second` are its answers.
unfoldable pub serve :
    (List RecvTimeClientRequest → List RecvTimeClientRequest)
    → (first second : ℕ → Received) → TcpServer
    → Cmd OrderServer (Unit {0})
unfolding recv_finished_callback run_socket
serve sort first second server =
    TcpServer.send_and_recv run_socket (recv_finished_callback sort) first second server
