-- ===== src/TcpServer/Tests.antt =====
-- Polls of a small server.
use trading_ecosystem.Prelude.{ℕ, pos, ◌≡◌, refl, List, [], ◌∷◌, ◌*◌, ◌+◌, true, false, update}
use trading_ecosystem.Run.{ok}
use trading_ecosystem.Text.{codes}
use trading_ecosystem.SocketUtils.{create_socket}
use trading_ecosystem.SocketUtils.Tests.{counting}
use trading_ecosystem.TcpSocket
use trading_ecosystem.TcpSocket.{TcpSocket, connect, htons}
use trading_ecosystem.TcpServer.{
  TcpServer, WithSockets, EpollEvent, Connection, push_new, poll, listen, create,
}

abbrev server : List ℕ → TcpServer
server receive = record {
  epoll_fd = pos 3;
  listener_socket = 0;
  receive_sockets = receive;
  send_sockets = [];
  has_recv_callback = true;
}

abbrev readable : ℕ → EpollEvent
readable i = record { socket = i; epollin = true; epollout = false; epollerr_or_hup = true }

abbrev connection : ℕ → Connection
connection i = record { fd = pos 9; socket = i; is_set_up = true; is_listed = true }

-- The socket of the connection has the descriptor and the callback.
abbrev new_socket : TcpSocket
new_socket = record {
  socket_fd = pos 9;
  socket_attrib = record { sin_addr = 0; sin_port = 0; sin_family = 0 };
  outbound_data = [];
  inbound_data = [];
  has_recv_callback = true;
}

abbrev with_sockets : TcpServer → (ℕ → TcpSocket) → WithSockets
with_sockets t sockets = record { tcp_server = t; sockets = sockets }

poll_test :
    (sockets : ℕ → TcpSocket)
    → poll
        (readable 4 ∷ readable 0 ∷ readable 5 ∷ [])
        (connection 6 ∷ [])
        (with_sockets (server (4 ∷ [])) sockets)
      ≡ ok tt (with_sockets (server (4 ∷ 5 ∷ 6 ∷ [])) (update sockets 6 new_socket))
unfolding poll push_new TcpSocket.create
poll_test sockets = refl

-- The port 12345 is 48 * 256 + 57.
listen_test :
    listen counting (codes "lo") (pos 12345) TcpSocket.create (create 0) 3
    ≡ ok
        (
          record (create 0) { epoll_fd = pos 3 },
          record TcpSocket.create {
            socket_fd = pos 4;
            socket_attrib = record { sin_addr = 0; sin_port = 57 * 256 + 48; sin_family = 2 };
          },
        )
        5
unfolding listen connect create_socket htons
listen_test = refl
