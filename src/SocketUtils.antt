-- ===== src/SocketUtils.antt =====
-- low-latency-components/socket_utils.h: how sockets are made. The kernel and the resolver are parameters: what they
-- answer to each call, and how they change.
pub mod Opening
pub mod Tests
use trading_ecosystem.Prelude.{
  ℕ, zero, ◌+◌, ◌*◌, ◌/◌, ◌%◌, ◌==◌, ℤ, pos, negsuc, eq_ℤ, List, [], ◌∷◌, Bool, true, false, ◌&&◌,
  ◌||◌, not, Option, none, some, if◌then◌else◌,
}
use trading_ecosystem.Run.{Cmd, ok, ◌>>=◌, ◌>>◌, pure, assert}
use trading_ecosystem.Text.{Text, codes, decimal_ℤ, stream}

abbrev pub max_tcp_server_backlog : ℕ
max_tcp_server_backlog = 1024

pub record SocketCfg : Type 0 where
  pub ip : Text
  pub iface : Text
  pub port : ℤ
  pub is_udp : Bool
  pub is_listening : Bool
  pub needs_so_timestamp : Bool

-- What a stream prints for a `bool`.
abbrev pub flag : Bool → Text
flag b = if b then codes "1" else codes "0"

unfoldable pub socket_cfg_to_string : SocketCfg → Text
socket_cfg_to_string c = stream (
    codes "SocketCfg [ "
    ∷ codes " ip: "
    ∷ c.ip
    ∷ codes " iface: "
    ∷ c.iface
    ∷ codes " port: "
    ∷ decimal_ℤ c.port
    ∷ codes " is_udp: "
    ∷ flag c.is_udp
    ∷ codes " is_listening: "
    ∷ flag c.is_listening
    ∷ codes " needs_SO_timestamp: "
    ∷ flag c.needs_so_timestamp
    ∷ codes " ] "
    ∷ [])

-- An entry of `getifaddrs`: its name, whether it has an address of AF_INET, and the text that `getnameinfo` gives for it.
pub record IfAddr : Type 0 where
  pub ifa_name : Text
  pub is_inet : Bool
  pub numeric_host : Text

-- An answer of `getaddrinfo`; the address is its bytes.
pub record AddrInfo : Type 0 where
  pub ai_family : ℤ
  pub ai_socktype : ℤ
  pub ai_protocol : ℤ
  pub ai_addr : List ℕ

-- What the hints say beyond AF_INET, AI_NUMERICHOST and AI_NUMERICSERV: AI_PASSIVE, and SOCK_DGRAM with IPPROTO_UDP in
-- the place of SOCK_STREAM with IPPROTO_TCP.
pub record Hints : Type 0 where
  pub passive : Bool
  pub datagram : Bool

pub data SocketOption : Type 0 where
  tcp_nodelay : ℤ → SocketOption
  so_timestamp : ℤ → SocketOption
  so_reuseaddr : ℤ → SocketOption
  ip_multicast_ttl : ℤ → SocketOption
  ip_ttl : ℤ → SocketOption
  ip_add_membership : Text → SocketOption

-- What `bind` is given: any address with the port, which `htons` brings to two bytes, or the address found.
pub data BindTo : Type 0 where
  any_address : ℤ → BindTo
  found : AddrInfo → BindTo

-- The calls of the kernel and of the resolver, over what they keep. -1 is an error; so is `none`.
pub record Kernel (K : Type 0) : Type 0 where
  pub getifaddrs : K → Option (List IfAddr) × K
  pub get_flags : (fd : ℤ) → K → Option ℕ × K
  pub set_flags : (fd : ℤ) (flags : ℕ) → K → ℤ × K
  pub setsockopt : (fd : ℤ) → SocketOption → K → ℤ × K
  pub getaddrinfo : (ip port : Text) → Hints → K → Option (List AddrInfo) × K
  pub socket : AddrInfo → K → ℤ × K
  pub connect_to : (fd : ℤ) → AddrInfo → K → ℤ × K
  pub bind : (fd : ℤ) → BindTo → K → ℤ × K
  pub listen_on : (fd : ℤ) (backlog : ℕ) → K → ℤ × K
  pub close : (fd : ℤ) → K → ℤ × K
  pub epoll_create : K → ℤ × K
  pub epoll_add : (epoll_fd fd : ℤ) → K → ℤ × K

abbrev pub minus_one : ℤ
minus_one = negsuc zero

-- O_NONBLOCK, EWOULDBLOCK and EINPROGRESS as Linux has them.
abbrev pub o_nonblock : ℕ
o_nonblock = 2048

abbrev pub ewouldblock : ℤ
ewouldblock = pos 11

abbrev pub einprogress : ℤ
einprogress = pos 115

-- `flags & O_NONBLOCK`, which is one bit, and `flags | O_NONBLOCK` where the bit is not set.
abbrev pub is_nonblock : ℕ → Bool
is_nonblock flags = (flags / o_nonblock) % 2 == 1

unfoldable pub would_block : (errno : ℤ) → Bool
would_block errno = eq_ℤ errno ewouldblock || eq_ℤ errno einprogress

-- `==` of strings.
unfoldable pub same_text : Text → Text → Bool
same_text [] [] = true
same_text [] (d ∷ ds) = false
same_text (c ∷ cs) [] = false
same_text (c ∷ cs) (d ∷ ds) = (c == d) && same_text cs ds

-- The loop of `getIfaceIP` ends at the first entry of AF_INET with that name.
unfoldable pub first_match : (iface : Text) → List IfAddr → Text
unfolding same_text
first_match iface [] = []
first_match iface (a ∷ addrs) =
    let rest = first_match iface addrs in
    if a.is_inet && same_text iface a.ifa_name then a.numeric_host else rest

unfoldable pub host_of : (iface : Text) → Option (List IfAddr) → Text
unfolding first_match
host_of iface none = []
host_of iface (some addrs) = first_match iface addrs

module _ {K : Type 0} (k : Kernel K) where
  abbrev pub call : {A : Type 0} → (K → A × K) → Cmd K A
  call f s = ok (f s).0 (f s).1

  -- A call of `setsockopt` that is compared with -1.
  abbrev pub set_option : (fd : ℤ) → SocketOption → Cmd K Bool
  set_option fd option = do r ← call (k.setsockopt fd option); pure (not (eq_ℤ r minus_one))

  unfoldable pub get_iface_ip : (iface : Text) → Cmd K Text
  unfolding host_of
  get_iface_ip iface = do answer ← call k.getifaddrs; pure (host_of iface answer)

  unfoldable pub add_nonblock : (fd : ℤ) → Option ℕ → Cmd K Bool
  add_nonblock fd none = pure false
  add_nonblock fd (some flags) =
      let set = call (k.set_flags fd (flags + o_nonblock)) >>= λ r. pure (not (eq_ℤ r minus_one)) in
      if is_nonblock flags then pure true else set

  unfoldable pub set_non_blocking : (fd : ℤ) → Cmd K Bool
  unfolding add_nonblock
  set_non_blocking fd = do flags ← call (k.get_flags fd); add_nonblock fd flags

  unfoldable pub set_no_delay : (fd : ℤ) → Cmd K Bool
  set_no_delay fd = set_option fd (SocketOption.tcp_nodelay (pos 1))

  unfoldable pub set_so_timestamp : (fd : ℤ) → Cmd K Bool
  set_so_timestamp fd = set_option fd (SocketOption.so_timestamp (pos 1))

  unfoldable pub set_mcast_ttl : (fd mcast_ttl : ℤ) → Cmd K Bool
  set_mcast_ttl fd mcast_ttl = set_option fd (SocketOption.ip_multicast_ttl mcast_ttl)

  unfoldable pub set_ttl : (fd ttl : ℤ) → Cmd K Bool
  set_ttl fd ttl = set_option fd (SocketOption.ip_ttl ttl)

  unfoldable pub disable_nagle : (fd : ℤ) → Cmd K Bool
  disable_nagle fd = set_option fd (SocketOption.tcp_nodelay (pos 1))

  unfoldable pub join : (fd : ℤ) → (ip : Text) → Cmd K Bool
  join fd ip = set_option fd (SocketOption.ip_add_membership ip)

  -- A call that must answer 0, and one that must hold, where the configuration asks for it.
  abbrev pub must_be_zero : Bool → (K → ℤ × K) → Cmd K (Unit {0})
  must_be_zero asked f = if asked then (do r ← call f; assert (eq_ℤ r (pos 0))) else pure tt

  abbrev pub must_hold : Bool → Cmd K Bool → Cmd K (Unit {0})
  must_hold asked m = if asked then m >>= assert else pure tt

  -- The test of `connect` is for 1.
  unfoldable pub connect_unless_listening : SocketCfg → (fd : ℤ) → AddrInfo → Cmd K (Unit {0})
  connect_unless_listening cfg fd rp =
      let connect = call (k.connect_to fd rp) >>= λ r. assert (not (eq_ℤ r (pos 1))) in
      if cfg.is_listening then pure tt else connect

  -- The calls of `CreateSocket` that a listening socket needs, and the time stamps.
  unfoldable pub bind_and_listen : SocketCfg → AddrInfo → (fd : ℤ) → Cmd K (Unit {0})
  unfolding set_so_timestamp
  bind_and_listen cfg rp fd = do
    must_be_zero cfg.is_listening (k.setsockopt fd (SocketOption.so_reuseaddr (pos 1)))
    must_be_zero cfg.is_listening
        (k.bind fd (if cfg.is_udp then BindTo.any_address cfg.port else BindTo.found rp))
    must_be_zero (not cfg.is_udp && cfg.is_listening) (k.listen_on fd max_tcp_server_backlog)
    must_hold cfg.needs_so_timestamp (set_so_timestamp fd)

  -- Its calls for a socket that it has got.
  unfoldable pub set_up : SocketCfg → AddrInfo → (fd : ℤ) → Cmd K (Unit {0})
  unfolding set_non_blocking disable_nagle connect_unless_listening bind_and_listen
  set_up cfg rp fd = do
    must_hold true (set_non_blocking fd)
    must_hold (not cfg.is_udp) (disable_nagle fd)
    connect_unless_listening cfg fd rp
    bind_and_listen cfg rp fd

  -- One round of its loop over the addresses.
  unfoldable pub open_one : SocketCfg → AddrInfo → Cmd K ℤ
  unfolding set_up
  open_one cfg rp = do
    fd ← call (k.socket rp)
    assert (not (eq_ℤ fd minus_one))
    set_up cfg rp fd
    pure fd

  -- The loop; its result is the socket of the last address.
  unfoldable pub open_all : SocketCfg → List AddrInfo → (socket_fd : ℤ) → Cmd K ℤ
  unfolding open_one
  open_all cfg [] socket_fd = pure socket_fd
  open_all cfg (rp ∷ rps) socket_fd = do fd ← open_one cfg rp; open_all cfg rps fd

  unfoldable pub ip_of : SocketCfg → Text → Cmd K Text
  unfolding get_iface_ip
  ip_of cfg [] = get_iface_ip cfg.iface
  ip_of cfg (c ∷ cs) = pure (c ∷ cs)

  unfoldable pub open_found : SocketCfg → Option (List AddrInfo) → Cmd K ℤ
  unfolding open_all
  open_found cfg none = do assert false; pure minus_one
  open_found cfg (some rps) = open_all cfg rps minus_one

  -- `CreateSocket`
  unfoldable pub create_socket : SocketCfg → Cmd K ℤ
  unfolding ip_of open_found
  create_socket cfg = do
    ip ← ip_of cfg cfg.ip
    answer ← call (
        k.getaddrinfo ip (decimal_ℤ cfg.port)
          (record { passive = cfg.is_listening; datagram = cfg.is_udp }))
    open_found cfg answer
