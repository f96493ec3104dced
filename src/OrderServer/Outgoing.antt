-- ===== src/OrderServer/Outgoing.antt =====
-- The body of the loop over the responses in `run` of order_server.h: what goes to the client's socket.
use trading_ecosystem.Prelude.{
  ℕ, ◌+◌, ◌%◌, ◌≡◌, refl, ap, ◌∙◌, List, ◌++◌, Ptr, none, some, ptr_eq, ltb, leb, not, length,
  Bool-cases, inl, inr, update_self,
}
use mathlib.Core.List.{append_assoc}
use trading_ecosystem.Run.{assert_failed, out_of_range}
use trading_ecosystem.Run.Ensures
use trading_ecosystem.Run.Ensures.{
  Ensures, returns, ends, mono, always, Keeps-require, put_back-Ensures,
}
use trading_ecosystem.Types.{me_max_num_clients}
use trading_ecosystem.LfQueue.{update_read_index}
use trading_ecosystem.Message.{MeClientResponse}
use trading_ecosystem.TcpSocket
use trading_ecosystem.TcpSocket.{TcpSocket, tcp_buffer_size}
use trading_ecosystem.OrderServer.{OrderServer, seq_mod, send_on, send_response}
use trading_ecosystem.OrderServer.Wire.{le_bytes, encode_response}

send-appends :
    (bytes : List ℕ) (t : TcpSocket)
    → Ensures (λ _ t'. t'.outbound_data ≡ t.outbound_data ++ bytes) (TcpSocket.send bytes t)
unfolding TcpSocket.send
send-appends bytes t =
    elim (Bool-cases (leb (length t.outbound_data + length bytes) tcp_buffer_size)) [
      | inl fits ↦ rw fits (returns refl)
      | inr over ↦ rw over ends
    ]

module _ (s : OrderServer) (client i : ℕ) where
  -- The socket `i` has these bytes to send, and the numbers and ties of the clients are those of `s`.
  record Holds (sent : List ℕ) (s' : OrderServer) : Type 0 where
    outbound : (s'.sockets i).outbound_data ≡ sent
    numbers : s'.cid_next_outgoing_seq_num ≡ s.cid_next_outgoing_seq_num
    ties : s'.cid_tcp_socket ≡ s.cid_tcp_socket

  send_on-Holds :
      (sent bytes : List ℕ) (p : Ptr) (s' : OrderServer)
      → p ≡ some i
      → Holds sent s'
      → Ensures (λ _. Holds (sent ++ bytes)) (send_on p bytes s')
  unfolding send_on
  send_on-Holds sent bytes p s' e h = rw e (
      put_back-Ensures _ (
        mono (send-appends bytes (s'.sockets i)) λ _ t g. record {
          outbound =
              ap (λ u. u.outbound_data) (update_self s'.sockets i t)
              ∙ g
              ∙ ap (λ l. l ++ bytes) h.outbound;
          numbers = h.numbers;
          ties = h.ties;
        }))

-- If the client of a response is tied to a socket, and the body of the loop over the responses
-- returns, the socket has the client's outgoing sequence number and the bytes of the response to
-- send, behind what it had, and that number has gone up by one (modulo 2 ^ 64).
pub send_response-appends :
    (r : MeClientResponse) (i : ℕ) (s : OrderServer)
    → s.cid_tcp_socket r.client_id ≡ some i
    → Ensures
        (λ _ s'.
          ((s'.sockets i).outbound_data
            ≡ (s.sockets i).outbound_data
              ++ (le_bytes 8 (s.cid_next_outgoing_seq_num r.client_id) ++ encode_response r))
          × (s'.cid_next_outgoing_seq_num r.client_id
              ≡ (s.cid_next_outgoing_seq_num r.client_id + 1) % seq_mod))
        (send_response r s)
unfolding send_response
send_response-appends r i s tied =
    let c = r.client_id in
    let sent = (s.sockets i).outbound_data in
    let H = Holds s c i in
    let start : H sent s = record { outbound = refl; numbers = refl; ties = refl } in
    Ensures.bind ((Keeps-require {P = H sent} (ltb c me_max_num_clients) out_of_range).at s start)
      λ _ s₁ h₁.
        let number = s₁.cid_next_outgoing_seq_num c in
        let socket = s₁.cid_tcp_socket c in
        let at_i : socket ≡ some i = ap (λ f. f c) h₁.ties ∙ tied in
        Ensures.bind
          ((Keeps-require {P = H sent} (not (ptr_eq socket none)) assert_failed).at s₁ h₁)
          λ _ s₂ h₂.
            Ensures.bind (send_on-Holds s c i sent (le_bytes 8 number) socket s₂ at_i h₂) λ _ s₃ h₃.
              Ensures.bind
                (send_on-Holds s c i (sent ++ le_bytes 8 number) (encode_response r) socket s₃ at_i
                  h₃)
                λ _ s₄ h₄.
                  Ensures.bind
                    (put_back-Ensures {P = H ((sent ++ le_bytes 8 number) ++ encode_response r)} _ (
                      always (update_read_index s₄.outgoing_responses) λ _ q. record {
                        outbound = h₄.outbound;
                        numbers = h₄.numbers;
                        ties = h₄.ties;
                      }))
                    λ _ s₅ h₅. returns (
                      (h₅.outbound ∙ append_assoc sent (le_bytes 8 number) (encode_response r))
                          ∙ ap (λ n. sent ++ (le_bytes 8 n ++ encode_response r))
                              (ap (λ f. f c) h₁.numbers),
                      update_self s₅.cid_next_outgoing_seq_num c _
                          ∙ ap (λ n. (n + 1) % seq_mod) (ap (λ f. f c) h₁.numbers),
                    )
