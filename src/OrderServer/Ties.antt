-- ===== src/OrderServer/Ties.antt =====
-- The socket of a client in order_server.h, over everything that `run` does.
use trading_ecosystem.Prelude.{ℕ, zero, suc, ◌≡◌, List, [], ◌∷◌, length, Ptr, none, some, arith}
use trading_ecosystem.Run.{Cmd}
use trading_ecosystem.Run.Ensures
use trading_ecosystem.Run.Ensures.{
  returns, Ensures, Keeps, keeps_rules, Keeps-bind, Keeps-pure, Keeps-modify, Keeps-zoom_free,
}
use trading_ecosystem.FifoSequencer.{RecvTimeClientRequest}
use trading_ecosystem.Message.{OmClientRequest, MeClientResponse}
use trading_ecosystem.TcpSocket
use trading_ecosystem.TcpSocket.{Received, TcpSocket}
use trading_ecosystem.TcpServer
use trading_ecosystem.TcpServer.{TcpServer}
use trading_ecosystem.OrderServer.{
  OrderServer, tie_socket, accept_request, handle_request, recv_loop, recv_callback, send_on,
  send_response, send_next, send_loop, recv_finished_callback, run_socket, serve,
}

module _ (client socket : ℕ) where
  -- The client is tied to the socket.
  abbrev pub IsTied : OrderServer → Type 0
  IsTied s = s.cid_tcp_socket client ≡ some socket

  tie_socket-IsTied : (c j : ℕ) → Keeps IsTied (tie_socket c j)
  unfolding tie_socket
  tie_socket-IsTied c j = Keeps-modify _ λ s h. ground arith

  accept_request-IsTied : (t : ℕ) (r : OmClientRequest) → Keeps IsTied (accept_request t r)
  unfolding accept_request
  accept_request-IsTied t r = search (keeps_rules, Keeps-modify, Keeps-zoom_free)

  handle_request-IsTied : (j t : ℕ) (r : OmClientRequest) → Keeps IsTied (handle_request j t r)
  unfolding handle_request
  handle_request-IsTied j t r =
      search (keeps_rules, tie_socket-IsTied, accept_request-IsTied) depth 14

  recv_loop-IsTied : (j t fuel : ℕ) (bytes : List ℕ) → Keeps IsTied (recv_loop j t fuel bytes)
  unfolding recv_loop
  recv_loop-IsTied j t zero bytes = search keeps_rules
  recv_loop-IsTied j t (suc fuel) bytes =
      search (keeps_rules, handle_request-IsTied, recv_loop-IsTied j t fuel) depth 10

  recv_callback-IsTied : (j t : ℕ) → Keeps IsTied (recv_callback j t)
  unfolding recv_callback
  recv_callback-IsTied j t = record {
    at = λ s h.
        Ensures.bind
          ((recv_loop-IsTied j t (length (s.sockets j).inbound_data) (s.sockets j).inbound_data).at
            s h)
          λ rest s' h'. returns h';
  }

  send_on-IsTied : (p : Ptr) (bytes : List ℕ) → Keeps IsTied (send_on p bytes)
  unfolding send_on
  send_on-IsTied none bytes = search keeps_rules
  send_on-IsTied (some i) bytes = Keeps-zoom_free _ _ (TcpSocket.send bytes) (λ t s h. h)

  send_response-IsTied : (r : MeClientResponse) → Keeps IsTied (send_response r)
  unfolding send_response
  send_response-IsTied r =
      search (keeps_rules, Keeps-modify, Keeps-zoom_free, send_on-IsTied) depth 20

  send_next-IsTied :
      (rest : Cmd OrderServer (Unit {0})) (size : ℕ) (p : Ptr)
      → Keeps IsTied rest
      → Keeps IsTied (send_next rest size p)
  unfolding send_next
  send_next-IsTied rest size none h = search keeps_rules
  send_next-IsTied rest zero (some i) h = search keeps_rules
  send_next-IsTied rest (suc size) (some i) h = search (keeps_rules, send_response-IsTied) depth 12

  pub send_loop-IsTied : (fuel : ℕ) → Keeps IsTied (send_loop fuel)
  unfolding send_loop
  send_loop-IsTied zero = search keeps_rules
  send_loop-IsTied (suc fuel) = record {
    at = λ s h. (send_next-IsTied (send_loop fuel) _ _ (send_loop-IsTied fuel)).at s h;
  }

  run_socket-IsTied : (answers : ℕ → Received) (i : ℕ) → Keeps IsTied (run_socket answers i)
  unfolding run_socket TcpSocket.send_and_recv TcpSocket.take_in TcpSocket.call_back
  run_socket-IsTied answers i = search (keeps_rules, Keeps-modify, recv_callback-IsTied) depth 16

  module _ (answers : ℕ → Received) where
    receive_all-IsTied : (is : List ℕ) → Keeps IsTied (TcpServer.receive_all run_socket answers is)
    unfolding TcpServer.receive_all
    receive_all-IsTied [] = search keeps_rules
    receive_all-IsTied (i ∷ is) =
        Keeps-bind _ _ (run_socket-IsTied answers i)
          λ got. Keeps-bind _ _ (receive_all-IsTied is) λ more. Keeps-pure _

    send_all-IsTied : (is : List ℕ) → Keeps IsTied (TcpServer.send_all run_socket answers is)
    unfolding TcpServer.send_all
    send_all-IsTied [] = search keeps_rules
    send_all-IsTied (i ∷ is) =
        Keeps-bind _ _ (run_socket-IsTied answers i) λ got. send_all-IsTied is

  pub serve-IsTied :
      (sort : List RecvTimeClientRequest → List RecvTimeClientRequest) (first second : ℕ → Received)
      (t : TcpServer)
      → Keeps IsTied (serve sort first second t)
  unfolding serve recv_finished_callback TcpServer.send_and_recv
  serve-IsTied sort first second t =
      search (keeps_rules, Keeps-modify, receive_all-IsTied, send_all-IsTied) depth 16
