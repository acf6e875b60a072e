-- ===== src/Net/Socket.antt =====
-- src/network/socket.c: descriptors over the sockets of udp.c and the connections of tcp.c. -1 is
-- none; a descriptor is a number, so that a negative one is none of the model's. An address is in
-- network order.
pub mod Calls
pub mod Leak
pub mod Text
use cgos.Base.{
  ℕ, ◌+◌, ◌-◌, ◌^◌, Bool, true, false, not, ◌&&◌, ◌||◌, List, [], ◌∷◌, ltb, ◌==◌, if◌then◌else◌,
  set, get_or, replicate, length, Option, none, some,
}
use cgos.Net.Route.{Interface}
use cgos.Net.Address.{parse, combine, ip_addr_to_str}
use cgos.Net.Checksum.{bswap16}
use cgos.Net.Ip.{bswap32}
use cgos.Net.Udp.{
  Udp, NetResult, success, Sent, udp_create_socket, udp_bind, udp_connect, udp_send, udp_sendto,
  udp_close,
}
use cgos.Net.Tcp.{Tcp, Segment}
use cgos.Net.Tcp.Table.{
  Result, handed, tcp_create_connection, tcp_listen, tcp_connect, tcp_send, tcp_close,
}

-- SOCK_STREAM, SOCK_DGRAM, AF_INET, MAX_SOCKETS
abbrev pub sock_stream : ℕ
sock_stream = 1

abbrev pub sock_dgram : ℕ
sock_dgram = 2

abbrev pub af_inet : ℕ
af_inet = 2

abbrev pub max_descriptors : ℕ
max_descriptors = 64

-- `socket_t`; the union holds a UDP socket or a TCP connection, as the type says.
pub record Descriptor : Type 0 where
  pub type : ℕ
  pub protocol : ℕ
  pub bound : Bool
  pub connected : Bool
  pub listening : Bool
  pub bound_port : ℕ
  pub impl : ℕ

-- The statics, and those of the two protocols.
pub record Sockets : Type 0 where
  pub sockets : List Descriptor
  pub socket_used : List Bool
  pub udp : Udp
  pub tcp : Tcp

-- `sockaddr_in_t`
pub record SockAddr : Type 0 where
  pub sin_port : ℕ
  pub sin_addr : ℕ

abbrev pub sockaddr_len : ℕ
sockaddr_len = 16

abbrev pub zeroed : Descriptor
zeroed = record {
  type = 0;
  protocol = 0;
  bound = false;
  connected = false;
  listening = false;
  bound_port = 0;
  impl = 0;
}

-- The loop over the descriptors.
unfoldable pub first_unused : List Bool → ℕ → Option ℕ
first_unused [] i = none
first_unused (b ∷ bs) i = let rest = first_unused bs (i + 1) in if b then rest else some i

abbrev pub mark_used : Option ℕ → Sockets → Option ℕ × Sockets
mark_used none s = (none, s)
mark_used (some i) s = (some i, record s { socket_used = set s.socket_used i true })

unfoldable pub allocate_socket_fd : Sockets → Option ℕ × Sockets
unfolding first_unused
allocate_socket_fd s = mark_used (first_unused s.socket_used 0) s

unfoldable pub free_socket_fd : ℕ → Sockets → Sockets
free_socket_fd sockfd s =
    if ltb sockfd max_descriptors
    then record s {
      socket_used = set s.socket_used sockfd false;
      sockets = set s.sockets sockfd zeroed;
    }
    else s

unfoldable pub get_socket : Sockets → ℕ → Option Descriptor
get_socket s sockfd =
    if ltb sockfd max_descriptors && get_or s.socket_used sockfd false
    then some (get_or s.sockets sockfd zeroed)
    else none

abbrev pub put_socket : Sockets → ℕ → Descriptor → Sockets
put_socket s sockfd d = record s { sockets = set s.sockets sockfd d }

-- The fields that socket_create stores.
abbrev pub opened : Descriptor → ℕ → ℕ → Descriptor
opened d type protocol = record d {
  type = type;
  protocol = protocol;
  bound = false;
  connected = false;
  listening = false;
}

abbrev pub with_udp : Option ℕ × Udp → ℕ → Descriptor → Sockets → Option ℕ × Sockets
unfolding free_socket_fd
with_udp (none, u) sockfd d s = (none, free_socket_fd sockfd (record s { udp = u }))
with_udp (some i, u) sockfd d s =
    (some sockfd, put_socket (record s { udp = u }) sockfd (record d { impl = i }))

abbrev pub with_tcp : Option ℕ × Tcp → ℕ → Descriptor → Sockets → Option ℕ × Sockets
unfolding free_socket_fd
with_tcp (none, t) sockfd d s = (none, free_socket_fd sockfd (record s { tcp = t }))
with_tcp (some i, t) sockfd d s =
    (some sockfd, put_socket (record s { tcp = t }) sockfd (record d { impl = i }))

unfoldable pub create_at : Option ℕ × Sockets → ℕ → ℕ → Option ℕ × Sockets
unfolding with_udp with_tcp udp_create_socket tcp_create_connection
create_at (none, s) type protocol = (none, s)
create_at (some sockfd, s) type protocol =
    let d : Descriptor = opened (get_or s.sockets sockfd zeroed) type protocol in
    if type == sock_dgram
    then with_udp (udp_create_socket s.udp) sockfd d s
    else if type == sock_stream
    then with_tcp (tcp_create_connection s.tcp) sockfd d s
    else (none, free_socket_fd sockfd s)

unfoldable pub socket_create : ℕ → ℕ → ℕ → Sockets → Option ℕ × Sockets
unfolding allocate_socket_fd create_at
socket_create domain type protocol s =
    if not (domain == af_inet) then (none, s) else create_at (allocate_socket_fd s) type protocol
