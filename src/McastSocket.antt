-- ===== src/McastSocket.antt =====
-- low-latency-components/mcast_socket.h: the two buffers of a multicast socket. A buffer is the list of its valid bytes,
-- whose length is the valid index. What the kernel does in `recv` and `send` is a parameter.
pub mod Packets
mod Tests
use trading_ecosystem.Prelude.{
  ℕ, zero, ◌+◌, ◌*◌, ℤ, negsuc, List, [], ◌∷◌, ◌++◌, length, leb, ltb, Bool, true, false, Option,
  none, some, if◌then◌else◌,
}
use trading_ecosystem.Text.{Text}
use trading_ecosystem.SocketUtils
use trading_ecosystem.SocketUtils.{Kernel, call}
use trading_ecosystem.Run.{
  Cmd, ok, halt, out_of_range, null_deref, ◌>>=◌, ◌>>◌, gets, modify, pure, require, assert,
}

abbrev pub mcast_buffer_size : ℕ
mcast_buffer_size = 64 * 1024 * 1024

pub record McastSocket : Type 0 where
  pub socket_fd : ℤ
  pub outbound_data : List ℕ
  pub inbound_data : List ℕ

-- The constructor: no socket yet, and nothing in the buffers.
unfoldable pub create_socket : McastSocket
create_socket = record { socket_fd = negsuc zero; outbound_data = []; inbound_data = [] }

-- `init`, `join` and `leave`, with the kernel as the state.
module _ {K : Type 0} (k : Kernel K) where
  unfoldable pub init :
      (ip iface : Text) (port : ℤ) (is_listening : Bool) → McastSocket → Cmd K (ℤ × McastSocket)
  init ip iface port is_listening s = do
    fd ← SocketUtils.create_socket k (record {
      ip = ip;
      iface = iface;
      port = port;
      is_udp = true;
      is_listening = is_listening;
      needs_so_timestamp = false;
    })
    pure (fd, record s { socket_fd = fd })

  -- `leave`; its two parameters are not used, nor is what `close` answers.
  unfoldable pub leave : McastSocket → Cmd K McastSocket
  leave s = do _ ← call k (k.close s.socket_fd); pure (record s { socket_fd = negsuc zero })

  unfoldable pub join : (ip : Text) → McastSocket → Cmd K Bool
  join ip s = SocketUtils.join k s.socket_fd ip

-- `send`: the copy comes first, and then the test that the buffer is not full.
unfoldable pub send : List ℕ → Cmd McastSocket (Unit {0})
send bytes = do
  used ← gets (λ s. length s.outbound_data)
  require (leb (used + length bytes) mcast_buffer_size) out_of_range
  modify (λ s. record s { outbound_data = s.outbound_data ++ bytes })
  assert (ltb (used + length bytes) mcast_buffer_size)

-- The call of `recv_callback_`, a command on the socket; that of an empty `std::function` throws, and ends the process.
unfoldable pub call_back : Option (Cmd McastSocket (Unit {0})) → Cmd McastSocket (Unit {0})
call_back none = halt null_deref
call_back (some callback) = callback

-- The receiving half of `sendAndRecv`: the bytes of one `recv`, none for a result that is not positive.
unfoldable pub take_in : Option (Cmd McastSocket (Unit {0})) → List ℕ → Cmd McastSocket Bool
unfolding call_back
take_in callback [] = pure false
take_in callback (b ∷ bytes) = do
  modify (λ s. record s { inbound_data = s.inbound_data ++ (b ∷ bytes) })
  call_back callback
  pure true

-- `sendAndRecv`: whether something came, and the bytes that were handed to the kernel, whatever part of them it took.
unfoldable pub send_and_recv :
    Option (Cmd McastSocket (Unit {0})) → (received : List ℕ) → Cmd McastSocket (Bool × List ℕ)
unfolding take_in
send_and_recv callback received = do
  came ← take_in callback received
  sent ← gets (λ s. s.outbound_data)
  modify (λ s. record s { outbound_data = [] })
  pure (came, sent)
