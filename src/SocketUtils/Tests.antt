-- ===== src/SocketUtils/Tests.antt =====
-- A kernel that counts its sockets, and sockets made with it.
use trading_ecosystem.Prelude.{ℕ, suc, pos, ◌≡◌, refl, true, false, none, some, [], ◌∷◌}
use trading_ecosystem.Run.{ok}
use trading_ecosystem.Text.{codes, decimal_ℤ}
use trading_ecosystem.SocketUtils.{
  Kernel, SocketCfg, AddrInfo, minus_one, socket_cfg_to_string, create_socket,
}
use trading_ecosystem.SocketUtils.Opening.{answering, create_socket-ignored}

abbrev one_address : AddrInfo
one_address = record {
  ai_family = pos 2;
  ai_socktype = pos 1;
  ai_protocol = pos 6;
  ai_addr = 127 ∷ 0 ∷ 0 ∷ 1 ∷ [];
}

abbrev pub counting : Kernel ℕ
counting = record {
  getifaddrs = λ n. (none, n);
  get_flags = λ fd n. (some 2, n);
  set_flags = λ fd flags n. (pos 0, n);
  setsockopt = λ fd option n. (pos 0, n);
  getaddrinfo = λ ip port hints n. (some (one_address ∷ []), n);
  socket = λ rp n. (pos n, suc n);
  connect_to = λ fd rp n. (pos 0, n);
  bind = λ fd to n. (pos 0, n);
  listen_on = λ fd backlog n. (pos 0, n);
  close = λ fd n. (pos 0, n);
  epoll_create = λ n. (pos n, suc n);
  epoll_add = λ epoll_fd fd n. (pos 0, n);
}

abbrev to_local : SocketCfg
to_local = record {
  ip = codes "127.0.0.1";
  iface = codes "lo";
  port = pos 12345;
  is_udp = false;
  is_listening = false;
  needs_so_timestamp = true;
}

cfg_test :
    socket_cfg_to_string to_local
    ≡ codes
        "SocketCfg [  ip: 127.0.0.1 iface: lo port: 12345 is_udp: 0 is_listening: 0 needs_SO_timestamp: 1 ] "
unfolding socket_cfg_to_string decimal_ℤ
cfg_test = refl

create_socket_test : create_socket counting to_local 4 ≡ ok (pos 4) 5
unfolding create_socket
create_socket_test = refl

-- A connection that is refused is not noticed.
create_socket-ignored_example :
    create_socket (answering counting (λ fd rp n. minus_one)) to_local 4
    ≡ create_socket counting to_local 4
create_socket-ignored_example =
    create_socket-ignored counting to_local (λ fd rp n. minus_one) (λ fd rp n. refl)
      (λ fd rp n. refl) 4
