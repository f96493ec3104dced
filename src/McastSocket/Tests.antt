-- ===== src/McastSocket/Tests.antt =====
-- A multicast socket that is given two packets.
use trading_ecosystem.Prelude.{◌≡◌, refl, pos, [], ◌∷◌, none, false, arith}
use trading_ecosystem.Run.{ok, ◌>>◌}
use trading_ecosystem.SocketUtils.Tests.{counting}
use trading_ecosystem.McastSocket.{McastSocket, create_socket, leave, send_and_recv}
use trading_ecosystem.McastSocket.Packets.{send_packets, with_outbound, send_packets-send_and_recv}

-- One byte is waiting.
abbrev joined : McastSocket
joined = record { socket_fd = pos 5; outbound_data = 9 ∷ []; inbound_data = [] }

leave_test : leave counting (record joined { outbound_data = [] }) 3 ≡ ok create_socket 3
unfolding leave create_socket
leave_test = refl

send_packets-send_and_recv_example :
    (send_packets ((1 ∷ 2 ∷ []) ∷ (3 ∷ []) ∷ []) >> send_and_recv none []) joined
    ≡ ok (false, 9 ∷ 1 ∷ 2 ∷ 3 ∷ []) (with_outbound [] joined)
send_packets-send_and_recv_example =
    send_packets-send_and_recv none ((1 ∷ 2 ∷ []) ∷ (3 ∷ []) ∷ []) joined (omega arith)
