-- ===== src/OrderServer/Sequence.antt =====
-- `recvCallback` of order_server.h: which requests reach the sequencer, and what stays in the buffer.
use trading_ecosystem.Prelude.{
  ℕ, zero, suc, ◌+◌, ◌%◌, ◌≤◌, ◌<◌, ◌≡◌, refl, List, [], ◌∷◌, ◌++◌, ltb, leb, ◌==◌, length, drop,
  length-drop, Bool, true, ◌&&◌, if◌then◌else◌, Ptr, none, some, ptr_eq, update, arith, ◌⊎◌, inl,
  inr, Bool-cases,
}
use trading_ecosystem.Run.Ensures
use trading_ecosystem.Run.Ensures.{Ensures, returns, ends, mono, always, branch, branch_cmd}
use trading_ecosystem.Types.{me_max_num_clients}
use trading_ecosystem.Message.{OmClientRequest}
use trading_ecosystem.FifoSequencer.{me_max_pending_requests, add_client_request}
use trading_ecosystem.OrderServer.{
  OrderServer, seq_mod, tie_socket, accept_request, handle_request, recv_loop,
}
use trading_ecosystem.OrderServer.Wire.{request_size, decode_request}

-- What a request of `client` over `socket` meets: the socket that the client is tied to, if it is tied.
abbrev pub tied_socket : OrderServer → (client socket : ℕ) → Ptr
tied_socket s client socket =
    if ptr_eq (s.cid_tcp_socket client) none then some socket else s.cid_tcp_socket client

abbrev pub Passes : OrderServer → (socket : ℕ) → OmClientRequest → Type 0
Passes s socket r =
    (tied_socket s r.me_client_request.client_id socket ≡ some socket)
    × (r.seq_num ≡ s.cid_next_exp_seq_num r.me_client_request.client_id)

-- The request went to the sequencer, at the end, and the client's number went up; or nothing of this changed.
abbrev pub Handled : OrderServer → (socket rx_time : ℕ) → OmClientRequest → OrderServer → Type 0
Handled s socket rx_time r s' =
    let c = r.me_client_request.client_id in
    (Passes s socket r
      × (s'.fifo_sequencer.pending
          ≡ s.fifo_sequencer.pending
            ++ (record { recv_time = rx_time; request = r.me_client_request } ∷ []))
      × (s'.cid_next_exp_seq_num c ≡ (s.cid_next_exp_seq_num c + 1) % seq_mod))
    ⊎ ((¬ Passes s socket r)
        × (s'.fifo_sequencer ≡ s.fifo_sequencer)
        × (s'.cid_next_exp_seq_num c ≡ s.cid_next_exp_seq_num c))

abbrev Accepted : OrderServer → (rx_time : ℕ) → OmClientRequest → OrderServer → Type 0
Accepted s rx_time r s' =
    let c = r.me_client_request.client_id in
    (s'.fifo_sequencer.pending
      ≡ s.fifo_sequencer.pending
        ++ (record { recv_time = rx_time; request = r.me_client_request } ∷ []))
    × (s'.cid_next_exp_seq_num c ≡ (s.cid_next_exp_seq_num c + 1) % seq_mod)

accept_request-Accepted :
    (rx_time : ℕ) (r : OmClientRequest) (s : OrderServer)
    → Ensures (λ _ s'. Accepted s rx_time r s') (accept_request rx_time r s)
unfolding accept_request add_client_request
accept_request-Accepted rx_time r s =
    elim (Bool-cases (ltb (length s.fifo_sequencer.pending) me_max_pending_requests)) [
      | inl room ↦ rw room (returns (refl, ground arith))
      | inr full ↦ rw full ends
    ]

abbrev after_tie : OrderServer → (socket : ℕ) → OmClientRequest → OrderServer
after_tie s socket r =
    let c = r.me_client_request.client_id in
    record s {
      cid_tcp_socket =
          if ptr_eq (s.cid_tcp_socket c) none
          then update s.cid_tcp_socket c (some socket)
          else s.cid_tcp_socket;
    }

-- The test of `handle_request`, after the client is tied.
abbrev is_next : OrderServer → (socket : ℕ) → OmClientRequest → Bool
is_next s socket r =
    let c = r.me_client_request.client_id in
    ptr_eq
      ((if ptr_eq (s.cid_tcp_socket c) none
          then update s.cid_tcp_socket c (some socket)
          else s.cid_tcp_socket)
        c)
      (some socket)
    && r.seq_num == s.cid_next_exp_seq_num c

is_next→Passes :
    (s : OrderServer) (socket : ℕ) (r : OmClientRequest)
    → is_next s socket r ≡ true
    → Passes s socket r
is_next→Passes s socket r h = ground arith

Passes→is_next :
    (s : OrderServer) (socket : ℕ) (r : OmClientRequest)
    → Passes s socket r
    → is_next s socket r ≡ true
Passes→is_next s socket r h = ground arith

-- If the handling of a request returns: the request stands at the end of the pending ones and the
-- number expected of its client has gone up by one (modulo 2 ^ 64), and it came over the socket
-- that its client is tied to, or is now tied to, with the expected number; or it did not, and
-- neither the sequencer nor the expected number has changed.
pub handle_request-Handled :
    (socket rx_time : ℕ) (r : OmClientRequest) (s : OrderServer)
    → Ensures (λ _ s'. Handled s socket rx_time r s') (handle_request socket rx_time r s)
unfolding handle_request tie_socket
handle_request-Handled socket rx_time r s =
    elim (Bool-cases (ltb r.me_client_request.client_id me_max_num_clients)) [
      | inr outside ↦ rw outside ends
      | inl inside ↦ rw inside (
          branch_cmd (is_next s socket r) _ _
            (λ h.
              mono (accept_request-Accepted rx_time r (after_tie s socket r))
                (λ _ s' a. inl (is_next→Passes s socket r h, a.0, a.1)))
            (λ h. returns (inr ((λ p. cc (Passes→is_next s socket r p)), refl, refl))))
    ]

-- If the loop of `recvCallback` returns, given as many rounds as there are bytes or more, what it
-- leaves in the buffer is less than one request.
pub recv_loop-rest :
    (socket rx_time fuel : ℕ) (bytes : List ℕ) (s : OrderServer)
    → length bytes ≤ fuel
    → Ensures (λ rest _. length rest < request_size) (recv_loop socket rx_time fuel bytes s)
unfolding recv_loop
recv_loop-rest socket rx_time zero bytes s h = returns (omega arith)
recv_loop-rest socket rx_time (suc fuel) bytes s h =
    branch_cmd (leb request_size (length bytes)) _ _
      (λ more.
        Ensures.bind
          (always {Q = λ _ _. Unit {0}} (handle_request socket rx_time (decode_request bytes) s)
            (λ _ _. tt))
          λ _ s' _.
            recv_loop-rest socket rx_time fuel (drop request_size bytes) s'
              (omega (arith, length-drop request_size bytes)))
      (λ stop. returns (ground arith))
