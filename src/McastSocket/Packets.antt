-- ===== src/McastSocket/Packets.antt =====
-- Packets that are given to the socket of mcast_socket.h one after the other, and then sent.
use trading_ecosystem.Prelude.{
  ℕ, ◌+◌, ◌<◌, ◌≡◌, refl, sym, ap, ◌∙◌, List, [], ◌∷◌, ◌++◌, length, length-append, leb, lt→ltb,
  false, true, Option, arith,
}
use mathlib.Core.List.{append-nil, append_assoc}
use trading_ecosystem.Run.{Cmd, ok, ◌>>◌, pure}
use trading_ecosystem.Run.Sequencing.{then_returns}
use trading_ecosystem.Text.{stream}
use trading_ecosystem.McastSocket.{McastSocket, mcast_buffer_size, send, take_in, send_and_recv}

unfoldable pub send_packets : List (List ℕ) → Cmd McastSocket (Unit {0})
send_packets [] = pure tt
send_packets (p ∷ ps) = send p >> send_packets ps

abbrev pub with_outbound : List ℕ → McastSocket → McastSocket
with_outbound bytes s = record s { outbound_data = bytes }

send-appends :
    (bytes : List ℕ) (s : McastSocket)
    → length s.outbound_data + length bytes < mcast_buffer_size
    → send bytes s ≡ ok tt (with_outbound (s.outbound_data ++ bytes) s)
unfolding send
send-appends bytes s room =
    let inside : leb (length s.outbound_data + length bytes) mcast_buffer_size ≡ true =
      ground arith in
    rw (inside, lt→ltb _ mcast_buffer_size room) refl

send_packets-appends :
    (ps : List (List ℕ)) (s : McastSocket)
    → length s.outbound_data + length (stream ps) < mcast_buffer_size
    → send_packets ps s ≡ ok tt (with_outbound (s.outbound_data ++ stream ps) s)
unfolding send_packets
send_packets-appends [] s room =
    ap (λ b. ok tt (with_outbound b s)) (sym (append-nil s.outbound_data))
send_packets-appends (p ∷ ps) s room =
    then_returns _ (send-appends p s (omega (arith, length-append p (stream ps)))) (
      send_packets-appends ps (with_outbound (s.outbound_data ++ p) s)
        (omega (arith, length-append p (stream ps), length-append s.outbound_data p))
      ∙ ap (λ b. ok tt (with_outbound b s)) (append_assoc s.outbound_data p (stream ps)))

-- If what a multicast socket has to send and some packets are together fewer bytes than its buffer,
-- then to give it the packets one after the other and to call `sendAndRecv` while nothing comes in
-- returns, hands all these bytes to the kernel in their order, and leaves nothing to send.
pub send_packets-send_and_recv :
    (callback : Option (Cmd McastSocket (Unit {0}))) (ps : List (List ℕ)) (s : McastSocket)
    → length s.outbound_data + length (stream ps) < mcast_buffer_size
    → (send_packets ps >> send_and_recv callback []) s
      ≡ ok (false, s.outbound_data ++ stream ps) (with_outbound [] s)
unfolding send_and_recv take_in
send_packets-send_and_recv callback ps s room = then_returns _ (send_packets-appends ps s room) refl
