-- ===== src/OrderServer/Rounds.antt =====
-- `run` of order_server.h over any number of rounds, whatever the kernel answers.
use trading_ecosystem.Prelude.{ℕ, zero, suc, ◌≢◌, List, [], ◌∷◌, arith}
use trading_ecosystem.Run.{assert_failed, fault, out_of_fuel}
use trading_ecosystem.Run.Ensures
use trading_ecosystem.Run.Ensures.{
  Ensures, returns, Keeps, keeps_rules, Keeps-bind, Keeps-pure, both, put_back-Ensures, mono,
}
use trading_ecosystem.Run.Fuel.{
  Ended-ne, Ends, ends_rules, Ends-bind, Ends-zoom, Ends-pure, Ends-modify, Ends-require,
  assert_failed_ne,
}
use trading_ecosystem.FifoSequencer.{RecvTimeClientRequest, add_client_request}
use trading_ecosystem.Message.{OmClientRequest}
use trading_ecosystem.TcpSocket
use trading_ecosystem.TcpSocket.{Received}
use trading_ecosystem.TcpServer
use trading_ecosystem.TcpServer.{
  TcpServer, accepted, listed, EpollEvent, Connection, poll, accept_all,
}
use trading_ecosystem.TcpServer.Sockets.{IsValid, poll-IsValid}
use trading_ecosystem.OrderServer.{
  OrderServer, tie_socket, accept_request, handle_request, recv_loop, recv_callback,
  recv_finished_callback, run_socket, serve,
}
use trading_ecosystem.OrderServer.Sending.{IsSent, send_loop-Ended, send_loop-IsSent}
use trading_ecosystem.OrderServer.Ties.{IsTied, serve-IsTied, send_loop-IsTied}
use trading_ecosystem.OrderServer.Running.{Serving, Round, run_round, run, send_responses}

Ends-accept_all : (cs : List Connection) → Ends (accept_all cs)
unfolding accept_all
Ends-accept_all [] = search ends_rules
Ends-accept_all (c ∷ cs) =
    Ends-bind _ _ (Ends-require c.is_set_up assert_failed assert_failed_ne) λ _.
      Ends-bind _ _ (Ends-modify (accepted c)) λ _.
        Ends-bind _ _ (Ends-require c.is_listed assert_failed assert_failed_ne)
          λ _. Ends-bind _ _ (Ends-modify (listed c)) λ _. Ends-accept_all cs

Ends-poll : (es : List EpollEvent) (cs : List Connection) → Ends (poll es cs)
unfolding poll
Ends-poll es cs = search (ends_rules, Ends-accept_all) depth 12

Ends-accept_request : (t : ℕ) (r : OmClientRequest) → Ends (accept_request t r)
unfolding accept_request add_client_request
Ends-accept_request t r = search (ends_rules, Ends-zoom) depth 12

Ends-handle_request : (j t : ℕ) (r : OmClientRequest) → Ends (handle_request j t r)
unfolding handle_request tie_socket
Ends-handle_request j t r = search (ends_rules, Ends-accept_request) depth 20

Ends-recv_loop : (j t fuel : ℕ) (bytes : List ℕ) → Ends (recv_loop j t fuel bytes)
unfolding recv_loop
Ends-recv_loop j t zero bytes = search ends_rules
Ends-recv_loop j t (suc fuel) bytes =
    search (ends_rules, Ends-handle_request, Ends-recv_loop j t fuel) depth 10

Ends-recv_callback : (j t : ℕ) → Ends (recv_callback j t)
unfolding recv_callback
Ends-recv_callback j t = search (ends_rules, Ends-recv_loop) depth 12

Ends-run_socket : (answers : ℕ → Received) (i : ℕ) → Ends (run_socket answers i)
unfolding run_socket TcpSocket.send_and_recv TcpSocket.take_in TcpSocket.call_back
Ends-run_socket answers i = search (ends_rules, Ends-recv_callback) depth 16

module _ (answers : ℕ → Received) where
  Ends-receive_all : (is : List ℕ) → Ends (TcpServer.receive_all run_socket answers is)
  unfolding TcpServer.receive_all
  Ends-receive_all [] = search ends_rules
  Ends-receive_all (i ∷ is) =
      Ends-bind _ _ (Ends-run_socket answers i)
        λ got. Ends-bind _ _ (Ends-receive_all is) λ more. Ends-pure _

  Ends-send_all : (is : List ℕ) → Ends (TcpServer.send_all run_socket answers is)
  unfolding TcpServer.send_all
  Ends-send_all [] = search ends_rules
  Ends-send_all (i ∷ is) = Ends-bind _ _ (Ends-run_socket answers i) λ got. Ends-send_all is

Ends-send_responses : Ends send_responses
unfolding send_responses
Ends-send_responses = record { at = λ o. send_loop-Ended _ o (omega arith) }

send_responses-IsSent :
    (client socket : ℕ) (o : OrderServer)
    → IsTied client socket o
    → Ensures (λ _ o'. IsTied client socket o' × IsSent o') (send_responses o)
unfolding send_responses
send_responses-IsSent client socket o tied =
    both ((send_loop-IsTied client socket _).at o tied) (send_loop-IsSent _ o)

module _ (client socket : ℕ) where
  abbrev IsKept : Serving → Type 0
  IsKept s = IsTied client socket s.order_server × IsValid s.tcp_server

  -- The client is tied to the socket, the lists have no socket twice, and no response is left to send.
  abbrev pub IsServed : Serving → Type 0
  IsServed s = IsTied client socket s.order_server × IsValid s.tcp_server × IsSent s.order_server

module _ (sort : List RecvTimeClientRequest → List RecvTimeClientRequest) where
  Ends-serve : (first second : ℕ → Received) (t : TcpServer) → Ends (serve sort first second t)
  unfolding serve recv_finished_callback TcpServer.send_and_recv
  Ends-serve first second t = search (ends_rules, Ends-receive_all, Ends-send_all) depth 16

  Ends-run_round : (k : Round) → Ends (run_round sort k)
  unfolding run_round
  Ends-run_round k = search (ends_rules, Ends-poll, Ends-serve, Ends-send_responses) depth 12

  Ends-run : (ks : List Round) → Ends (run sort ks)
  unfolding run
  Ends-run [] = search ends_rules
  Ends-run (k ∷ ks) = Ends-bind _ _ (Ends-run_round k) λ _. Ends-run ks

  module _ (client socket : ℕ) where
    run_round-IsServed :
        (k : Round) (s : Serving)
        → IsTied client socket s.order_server
        → IsValid s.tcp_server
        → Ensures (λ _ s'. IsServed client socket s') (run_round sort k s)
    unfolding run_round
    run_round-IsServed k s tied valid =
        Ensures.bind
          (put_back-Ensures {P = IsKept client socket} _
            (mono (poll-IsValid k.events k.connections _ valid) (λ _ t v. (tied, v))))
          λ _ s₁ h₁.
            Ensures.bind
              (put_back-Ensures {P = IsKept client socket} _ (
                mono
                  ((serve-IsTied client socket sort k.first k.second s₁.tcp_server).at
                    s₁.order_server h₁.0)
                  (λ _ o h. (h, h₁.1))))
              λ _ s₂ h₂. put_back-Ensures {P = IsServed client socket} _ (
                mono (send_responses-IsSent client socket s₂.order_server h₂.0)
                  (λ _ o h. (h.0, h₂.1, h.1)))

    run-IsServed-rounds : (ks : List Round) → Keeps (IsServed client socket) (run sort ks)
    unfolding run
    run-IsServed-rounds [] = search keeps_rules
    run-IsServed-rounds (k ∷ ks) =
        Keeps-bind _ _ (record { at = λ s h. run_round-IsServed k s h.0 h.1 })
          λ _. run-IsServed-rounds ks

    -- Let a client be tied to a socket, and let no socket stand twice in the list of those that are
    -- read nor in the list of those that are written. Then one round of `run` or more, whatever
    -- events and connections the kernel reports, whatever bytes it hands over for a socket of the
    -- one list and then for a socket of the other, be it the same or not, and however `std::sort`
    -- sorts, does not use up the rounds that the loop over the responses is given, one for each
    -- response and one more; and if it returns, the client is still tied to that socket, still no
    -- socket stands twice in either list, and the queue of responses counts no element or the
    -- reader sees none.
    pub run-IsServed :
        (k : Round) (ks : List Round) (s : Serving)
        → IsTied client socket s.order_server
        → IsValid s.tcp_server
        → (run sort (k ∷ ks) s ≢ fault out_of_fuel)
          × Ensures (λ _ s'. IsServed client socket s') (run sort (k ∷ ks) s)
    unfolding run
    run-IsServed k ks s tied valid = (
      Ended-ne ((Ends-run (k ∷ ks)).at s),
      Ensures.bind (run_round-IsServed k s tied valid) λ _ s' h. (run-IsServed-rounds ks).at s' h,
    )
