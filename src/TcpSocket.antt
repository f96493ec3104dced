-- ===== src/TcpSocket.antt =====
-- low-latency-components/tcp_socket.h: the two buffers of a connection and its address. A buffer is the list of its valid bytes,
-- whose length is the valid index. What the kernel does in `recvmsg` and `send` is a parameter.
use trading_ecosystem.Prelude.{
  if◌then◌else◌, ℕ, zero, ℤ, pos, negsuc, ◌+◌, ◌-◌, ◌*◌, ◌/◌, ◌%◌, List, [], ◌∷◌, ◌++◌, leb, length,
  Bool, true, false, Option, none, some,
}
use trading_ecosystem.Text.{Text}
use trading_ecosystem.SocketUtils.{Kernel, create_socket}
use trading_ecosystem.Run.{pure, Cmd, out_of_range, ◌>>=◌, ◌>>◌, gets, modify, require}

abbrev pub tcp_buffer_size : ℕ
tcp_buffer_size = 64 * 1024 * 1024

-- `sockaddr_in`: an address, a port in the order of the network, and a family.
pub record SockAddr : Type 0 where
  pub sin_addr : ℕ
  pub sin_port : ℕ
  pub sin_family : ℕ

-- `recv_callback_` is there or not; what it does is the server's.
pub record TcpSocket : Type 0 where
  pub socket_fd : ℤ
  pub socket_attrib : SockAddr
  pub outbound_data : List ℕ
  pub inbound_data : List ℕ
  pub has_recv_callback : Bool

-- The constructor: no socket yet, nothing in the buffers, and no callback.
unfoldable pub create : TcpSocket
create = record {
  socket_fd = negsuc zero;
  socket_attrib = record { sin_addr = 0; sin_port = 0; sin_family = 0 };
  outbound_data = [];
  inbound_data = [];
  has_recv_callback = false;
}

-- `htons` of an `int`, which becomes a `uint16_t`, on a little-endian machine.
unfoldable pub htons : ℤ → ℕ
htons (pos n) = n % 256 * 256 + n / 256 % 256
htons (negsuc n) = (255 - n % 256) * 256 + (255 - n / 256 % 256)

-- INADDR_ANY and AF_INET as Linux has them.
abbrev pub inaddr_any : ℕ
inaddr_any = 0

abbrev pub af_inet : ℕ
af_inet = 2

-- `connect`, with the kernel as the state.
unfoldable pub connect :
    {K : Type 0}
    → Kernel K
    → (ip iface : Text) (port : ℤ) (is_listening : Bool) → TcpSocket
    → Cmd K (ℤ × TcpSocket)
unfolding htons
connect k ip iface port is_listening s = do
  fd ← create_socket k (record {
    ip = ip;
    iface = iface;
    port = port;
    is_udp = false;
    is_listening = is_listening;
    needs_so_timestamp = true;
  })
  pure (
    fd,
    record s {
      socket_fd = fd;
      socket_attrib = record { sin_addr = inaddr_any; sin_port = htons port; sin_family = af_inet };
    },
  )

-- `send` copies into the buffer with no check of the room.
unfoldable pub send : List ℕ → Cmd TcpSocket (Unit {0})
send bytes = do
  used ← gets (λ s. length s.outbound_data)
  require (leb (used + length bytes) tcp_buffer_size) out_of_range
  modify (λ s. record s { outbound_data = s.outbound_data ++ bytes })

-- What the kernel hands over: the bytes of one `recvmsg`, with the time of the first SCM_TIMESTAMP header and the
-- address of the sender, if there are such. No bytes stand for a result that is not positive.
pub record Received : Type 0 where
  pub bytes : List ℕ
  pub timestamp : Option ℕ
  pub sender : Option SockAddr

-- `msg_name`: the address of the sender, if the kernel gives one, comes to `socket_attrib_`.
abbrev pub named_by : Option SockAddr → SockAddr → SockAddr
named_by none a = a
named_by (some sender) a = sender

-- The receiving half of `sendAndRecv`, up to the callback: whether something came, and its time (0 if the kernel gives none).
abbrev pub kernel_time : Option ℕ → ℕ
kernel_time none = 0
kernel_time (some t) = t

abbrev pub received_some : List ℕ → Bool
received_some [] = false
received_some (b ∷ bs) = true

unfoldable pub receive : Received → TcpSocket → TcpSocket
receive r s = record s {
  socket_attrib = named_by r.sender s.socket_attrib;
  inbound_data = s.inbound_data ++ r.bytes;
}

-- The sending half: the buffer goes to the kernel and is empty afterwards, whatever part of it the kernel took.
unfoldable pub flush : TcpSocket → TcpSocket
flush s = record s { outbound_data = [] }

-- A socket that is part of a state `S`, which its callback may change. `none` is a callback that is not set.
module _ {S : Type 0} (get : S → TcpSocket) (set : TcpSocket → S → S) where
  unfoldable pub call_back : Option (ℕ → Cmd S (Unit {0})) → ℕ → Cmd S (Unit {0})
  call_back none time = pure tt
  call_back (some callback) time = callback time

  unfoldable pub take_in : Option (ℕ → Cmd S (Unit {0})) → Received → Cmd S (Unit {0})
  unfolding receive call_back
  take_in callback r =
      let taken =
        modify (λ s. set (receive r (get s)) s) >> call_back callback (kernel_time r.timestamp) in
      if received_some r.bytes then taken else pure tt

  -- `sendAndRecv`: whether something came, and the bytes that were handed to the kernel.
  unfoldable pub send_and_recv : Option (ℕ → Cmd S (Unit {0})) → Received → Cmd S (Bool × List ℕ)
  unfolding take_in flush
  send_and_recv callback r = do
    take_in callback r
    sent ← gets (λ s. (get s).outbound_data)
    modify (λ s. set (flush (get s)) s)
    pure (received_some r.bytes, sent)
