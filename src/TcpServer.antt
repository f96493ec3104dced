-- ===== src/TcpServer.antt =====
-- low-latency-components/tcp_server.h: which sockets are read and written. A socket is its place in a store; what the kernel
-- answers to `epoll_wait`, `accept` and the calls that set up a connection is a parameter.
pub mod Sockets
mod Tests
use trading_ecosystem.Prelude.{
  member, update, ℕ, zero, ℤ, pos, negsuc, eq_ℤ, leb_ℤ, List, [], ◌∷◌, ◌++◌, ◌==◌, Bool, true,
  false, ◌&&◌, ◌||◌, not, if◌then◌else◌,
}
use trading_ecosystem.Text.{Text}
use trading_ecosystem.SocketUtils.{Kernel, call}
use trading_ecosystem.TcpSocket
use trading_ecosystem.TcpSocket.{TcpSocket}
use trading_ecosystem.Run.{Cmd, ◌>>=◌, ◌>>◌, modify, gets, assert, pure}

pub record TcpServer : Type 0 where
  pub epoll_fd : ℤ
  pub listener_socket : ℕ
  pub receive_sockets : List ℕ
  pub send_sockets : List ℕ
  pub has_recv_callback : Bool

-- The constructor; the listener is the socket of that index.
unfoldable pub create : (listener_socket : ℕ) → TcpServer
create listener = record {
  epoll_fd = negsuc zero;
  listener_socket = listener;
  receive_sockets = [];
  send_sockets = [];
  has_recv_callback = false;
}

-- The server with the store that its sockets stand in.
pub record WithSockets : Type 0 where
  pub tcp_server : TcpServer
  pub sockets : ℕ → TcpSocket

-- `addToEpollList` and `listen`, with the kernel as the state; `listener` is the listener's socket.
module _ {K : Type 0} (k : Kernel K) where
  unfoldable pub add_to_epoll_list : TcpServer → TcpSocket → Cmd K Bool
  add_to_epoll_list t socket = do
    r ← call k (k.epoll_add t.epoll_fd socket.socket_fd)
    pure (eq_ℤ r (pos 0))

  unfoldable pub listen :
      (iface : Text) (port : ℤ) (listener : TcpSocket) → TcpServer → Cmd K (TcpServer × TcpSocket)
  unfolding add_to_epoll_list
  listen iface port listener t = do
    epoll_fd ← call k k.epoll_create
    assert (leb_ℤ (pos 0) epoll_fd)
    (fd, listener') ← TcpSocket.connect k [] iface port true listener
    assert (leb_ℤ (pos 0) fd)
    added ← add_to_epoll_list (record t { epoll_fd = epoll_fd }) listener'
    assert added
    pure (record t { epoll_fd = epoll_fd }, listener')

-- One event of `epoll_wait`: its socket and the bits that the code tests.
pub record EpollEvent : Type 0 where
  pub socket : ℕ
  pub epollin : Bool
  pub epollout : Bool
  pub epollerr_or_hup : Bool

-- A connection that `accept` returns: its descriptor, the place that `new` gives its socket, and what the calls that
-- set it up return.
pub record Connection : Type 0 where
  pub fd : ℤ
  pub socket : ℕ
  pub is_set_up : Bool
  pub is_listed : Bool

-- `push_back`, unless `std::find` meets the socket there.
unfoldable pub push_new : ℕ → List ℕ → List ℕ
push_new i js = if member i js then js else js ++ (i ∷ [])

abbrev pub receiving : ℕ → TcpServer → TcpServer
receiving i t = record t { receive_sockets = push_new i t.receive_sockets }

abbrev pub sending : ℕ → TcpServer → TcpServer
sending i t = record t { send_sockets = push_new i t.send_sockets }

-- The tests of the loop over the events, after the test for the listener.
unfoldable pub note_event : EpollEvent → TcpServer → TcpServer
note_event e t =
    let t₁ = if e.epollin then receiving e.socket t else t in
    let t₂ = if e.epollout then sending e.socket t₁ else t₁ in
    if e.epollerr_or_hup then receiving e.socket t₂ else t₂

-- The loop: the new lists, and `have_new_connection`.
unfoldable pub note_events : List EpollEvent → TcpServer → TcpServer × Bool
unfolding note_event
note_events [] t = (t, false)
note_events (e ∷ es) t =
    let is_connection = e.epollin && (e.socket == t.listener_socket) in
    let rest = note_events es (if is_connection then t else note_event e t) in
    (rest.0, is_connection || rest.1)

-- The new socket of a connection, with the server's callback.
unfoldable pub accepted : Connection → WithSockets → WithSockets
unfolding TcpSocket.create
accepted c p = record p {
  sockets = update p.sockets c.socket (record TcpSocket.create {
    socket_fd = c.fd;
    has_recv_callback = p.tcp_server.has_recv_callback;
  });
}

abbrev pub listed : Connection → WithSockets → WithSockets
listed c p = record p { tcp_server = receiving c.socket p.tcp_server }

-- The loop that accepts, until `accept` fails.
unfoldable pub accept_all : List Connection → Cmd WithSockets (Unit {0})
unfolding accepted
accept_all [] = pure tt
accept_all (c ∷ cs) = do
  assert c.is_set_up
  modify (accepted c)
  assert c.is_listed
  modify (listed c)
  accept_all cs

unfoldable pub poll : List EpollEvent → List Connection → Cmd WithSockets (Unit {0})
unfolding note_events accept_all
poll events connections = do
  have_new_connection ← gets (λ p. (note_events events p.tcp_server).1)
  modify (λ p. record p { tcp_server = (note_events events p.tcp_server).0 })
  if have_new_connection then accept_all connections else pure tt

-- `sendAndRecv`, over the state `S` that holds the sockets; `run_socket` is `sendAndRecv` of one of them. A socket of
-- both lists is run twice: `A` is what the kernel answers to the first runs, or to the second ones.
module _ {S A : Type 0} (run_socket : A → ℕ → Cmd S Bool) where
  unfoldable pub receive_all : A → List ℕ → Cmd S Bool
  receive_all answers [] = pure false
  receive_all answers (i ∷ is) = do
    got ← run_socket answers i
    more ← receive_all answers is
    pure (got || more)

  unfoldable pub send_all : A → List ℕ → Cmd S (Unit {0})
  send_all answers [] = pure tt
  send_all answers (i ∷ is) = do _ ← run_socket answers i; send_all answers is

  unfoldable pub send_and_recv :
      (recv_finished_callback : Cmd S (Unit {0}))
      → (first second : A) → TcpServer
      → Cmd S (Unit {0})
  unfolding receive_all send_all
  send_and_recv finished first second t = do
    recv ← receive_all first t.receive_sockets
    if recv then finished else pure tt
    send_all second t.send_sockets
