-- ===== src/OrderServer/Running.antt =====
-- `run` of order_server.h: the rounds of its loop, each with `poll` and `sendAndRecv` of tcp_server.h and the loop over
-- the responses.
use trading_ecosystem.Prelude.{true, ℕ, ◌+◌, List, [], ◌∷◌}
use trading_ecosystem.Run.{Cmd, ◌>>=◌, ◌>>◌, gets, pure, zoom}
use trading_ecosystem.FifoSequencer.{RecvTimeClientRequest}
use trading_ecosystem.TcpSocket.{Received}
use trading_ecosystem.TcpServer
use trading_ecosystem.TcpServer.{TcpServer, EpollEvent, Connection, poll}
use trading_ecosystem.FifoSequencer.{FifoSequencer}
use trading_ecosystem.LfQueue.{LfQueue}
use trading_ecosystem.Message.{MeClientResponse}
use trading_ecosystem.TcpSocket.{TcpSocket}
use trading_ecosystem.OrderServer.{create_server, OrderServer, send_loop, serve}

-- The order server with its `tcp_server_`.
pub record Serving : Type 0 where
  pub order_server : OrderServer
  pub tcp_server : TcpServer

-- What the kernel answers in one round: to `epoll_wait`, to `accept`, and to each socket of the list of those that are
-- read, and then of the list of those that are written.
pub record Round : Type 0 where
  pub events : List EpollEvent
  pub connections : List Connection
  pub first : ℕ → Received
  pub second : ℕ → Received

-- The constructor of the order server, which sets the callback of its `tcp_server_`.
unfoldable pub create_serving :
    FifoSequencer → LfQueue MeClientResponse → (ℕ → TcpSocket) → (listener_socket : ℕ) → Serving
unfolding create_server TcpServer.create
create_serving sequencer responses sockets listener = record {
  order_server = create_server sequencer responses sockets;
  tcp_server = record (TcpServer.create listener) { has_recv_callback = true };
}

-- The loop over the responses has a round for each response and one more.
unfoldable pub send_responses : Cmd OrderServer (Unit {0})
unfolding send_loop
send_responses = do size ← gets (λ s. s.outgoing_responses.num_elements); send_loop (size + 1)

module _ (sort : List RecvTimeClientRequest → List RecvTimeClientRequest) where
  -- The body of the loop.
  unfoldable pub run_round : Round → Cmd Serving (Unit {0})
  unfolding poll serve send_responses
  run_round k = do
    zoom (λ s. record { tcp_server = s.tcp_server; sockets = s.order_server.sockets })
        (λ p s. record s {
          order_server = record s.order_server { sockets = p.sockets };
          tcp_server = p.tcp_server;
        })
        (poll k.events k.connections)
    t ← gets (λ s. s.tcp_server)
    zoom (λ s. s.order_server) (λ o s. record s { order_server = o })
        (serve sort k.first k.second t)
    zoom (λ s. s.order_server) (λ o s. record s { order_server = o }) send_responses

  -- `run`, until `stop` ends it after these rounds.
  unfoldable pub run : List Round → Cmd Serving (Unit {0})
  unfolding run_round
  run [] = pure tt
  run (k ∷ ks) = run_round k >> run ks
