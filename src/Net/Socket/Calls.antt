-- ===== src/Net/Socket/Calls.antt =====
-- The calls of src/network/socket.c on a descriptor, and its conversions.
use cgos.Base.{
  ℕ, Bool, true, false, not, ◌&&◌, ◌||◌, List, [], ◌∷◌, ltb, ◌==◌, if◌then◌else◌, length, Option,
  none, some,
}
use cgos.Net.Route.{Interface}
use cgos.Net.Address.{parse, combine, ip_addr_to_str}
use cgos.Net.Checksum.{bswap16}
use cgos.Net.Ip.{bswap32}
use cgos.Net.Udp.{
  Udp, NetResult, success, Sent, udp_bind, udp_connect, udp_send, udp_sendto, udp_close,
}
use cgos.Net.Tcp.{Tcp, Segment}
use cgos.Net.Tcp.Table.{Result, handed, tcp_listen, tcp_connect, tcp_send, tcp_close}
use cgos.Net.Socket.{
  sock_stream, sock_dgram, Descriptor, Sockets, SockAddr, sockaddr_len, free_socket_fd, get_socket,
  put_socket,
}

unfoldable pub htons : ℕ → ℕ
htons hostshort = bswap16 hostshort

unfoldable pub ntohs : ℕ → ℕ
ntohs netshort = bswap16 netshort

unfoldable pub htonl : ℕ → ℕ
unfolding bswap32
htonl hostlong = bswap32 hostlong

unfoldable pub ntohl : ℕ → ℕ
unfolding bswap32
ntohl netlong = bswap32 netlong

abbrev pub is_success : NetResult → Bool
is_success r = elim r [ success ↦ true | _ ↦ false ]

-- `return 0` or `return -1`
abbrev pub bound_udp : NetResult × Udp → ℕ → Descriptor → Sockets → Bool × Sockets
bound_udp (r, u) sockfd d s =
    if is_success r
    then (true, put_socket (record s { udp = u }) sockfd (record d { bound = true }))
    else (false, record s { udp = u })

abbrev pub bind_at : Option Descriptor → ℕ → ℕ → Sockets → Bool × Sockets
unfolding udp_bind
bind_at none sockfd port s = (false, s)
bind_at (some d) sockfd port s =
    if d.type == sock_dgram
    then bound_udp (udp_bind s.udp d.impl port) sockfd d s
    else if d.type == sock_stream
    then (true, put_socket s sockfd (record d { bound_port = port; bound = true }))
    else (false, s)

unfoldable pub socket_bind : ℕ → SockAddr → ℕ → Sockets → Bool × Sockets
unfolding get_socket bind_at ntohs
socket_bind sockfd addr addrlen s =
    if ltb addrlen sockaddr_len
    then (false, s)
    else bind_at (get_socket s sockfd) sockfd (ntohs addr.sin_port) s

abbrev pub listening_tcp : Bool × Tcp → ℕ → Descriptor → Sockets → Bool × Sockets
listening_tcp (b, t) sockfd d s =
    if b
    then (true, put_socket (record s { tcp = t }) sockfd (record d { listening = true }))
    else (false, record s { tcp = t })

abbrev pub listen_at : Option Descriptor → ℕ → Sockets → Bool × Sockets
unfolding tcp_listen
listen_at none sockfd s = (false, s)
listen_at (some d) sockfd s =
    if not (d.type == sock_stream) || not d.bound
    then (false, s)
    else listening_tcp (tcp_listen s.tcp d.bound_port) sockfd d s

unfoldable pub socket_listen : ℕ → Sockets → Bool × Sockets
unfolding get_socket listen_at
socket_listen sockfd s = listen_at (get_socket s sockfd) sockfd s

-- It has no case that does not return -1.
unfoldable pub socket_accept : ℕ → Sockets → Option ℕ
socket_accept sockfd s = none

abbrev pub connected_udp : NetResult × Udp → ℕ → Descriptor → Sockets → Bool × Sockets
connected_udp (r, u) sockfd d s =
    if is_success r
    then (true, put_socket (record s { udp = u }) sockfd (record d { connected = true }))
    else (false, record s { udp = u })

-- tcp_connect returns what ip_send_packet returns; `accepted` is whether it takes a segment.
abbrev pub is_taken : (Segment → Bool) → Result → Bool
is_taken accepted (handed p) = accepted p
is_taken accepted _ = false

abbrev pub connected_tcp :
    (Segment → Bool) → Result × Tcp → ℕ → Descriptor → Sockets → Bool × Sockets
connected_tcp accepted (r, t) sockfd d s =
    if is_taken accepted r
    then (true, put_socket (record s { tcp = t }) sockfd (record d { connected = true }))
    else (false, record s { tcp = t })

abbrev pub connect_at :
    List Interface → (Segment → Bool) → Option Descriptor → ℕ → ℕ → ℕ → Sockets → Bool × Sockets
unfolding udp_connect tcp_connect
connect_at interfaces accepted none sockfd ip port s = (false, s)
connect_at interfaces accepted (some d) sockfd ip port s =
    if d.type == sock_dgram
    then connected_udp (udp_connect s.udp d.impl ip port) sockfd d s
    else if d.type == sock_stream
    then connected_tcp accepted (tcp_connect interfaces s.tcp d.impl ip port) sockfd d s
    else (false, s)

unfoldable pub socket_connect :
    List Interface → (Segment → Bool) → ℕ → SockAddr → ℕ → Sockets → Bool × Sockets
unfolding get_socket connect_at ntohs ntohl
socket_connect interfaces accepted sockfd addr addrlen s =
    if ltb addrlen sockaddr_len
    then (false, s)
    else connect_at interfaces accepted (get_socket s sockfd) sockfd (ntohl addr.sin_addr)
        (ntohs addr.sin_port) s

-- `return -1`, or what a sender of the protocol does.
pub data Passed : Type 0 where
  refused : Passed
  to_udp : Sent → Passed
  to_tcp : Result → Passed

abbrev pub sent_tcp : Result × Tcp → Sockets → Passed × Sockets
sent_tcp (r, t) s = (to_tcp r, record s { tcp = t })

abbrev pub send_at :
    List Interface → (Segment → Bool) → Option Descriptor → List ℕ → Sockets → Passed × Sockets
unfolding udp_send tcp_send
send_at interfaces accepted none buf s = (refused, s)
send_at interfaces accepted (some d) buf s =
    if not d.connected
    then (refused, s)
    else if d.type == sock_dgram
    then (to_udp (udp_send interfaces s.udp d.impl buf), s)
    else if d.type == sock_stream
    then sent_tcp (tcp_send interfaces accepted s.tcp d.impl buf) s
    else (refused, s)

unfoldable pub socket_send :
    List Interface → (Segment → Bool) → ℕ → List ℕ → Sockets → Passed × Sockets
unfolding get_socket send_at
socket_send interfaces accepted sockfd buf s =
    if length buf == 0
    then (refused, s)
    else send_at interfaces accepted (get_socket s sockfd) buf s

-- The number of bytes that are received, of at most `len`.
abbrev pub recv_at : Option Descriptor → Option ℕ
recv_at none = none
recv_at (some d) = if d.type == sock_stream && d.connected then some 0 else none

unfoldable pub socket_recv : ℕ → ℕ → Sockets → Option ℕ
unfolding get_socket
socket_recv sockfd len s = if len == 0 then none else recv_at (get_socket s sockfd)

abbrev pub sendto_at : List Interface → Option Descriptor → List ℕ → ℕ → ℕ → Sockets → Passed
unfolding udp_sendto
sendto_at interfaces none buf ip port s = refused
sendto_at interfaces (some d) buf ip port s =
    if d.type == sock_dgram
    then to_udp (udp_sendto interfaces s.udp d.impl buf ip port)
    else refused

unfoldable pub socket_sendto : List Interface → ℕ → List ℕ → SockAddr → ℕ → Sockets → Passed
unfolding get_socket sendto_at ntohs ntohl
socket_sendto interfaces sockfd buf dest_addr addrlen s =
    if length buf == 0 || ltb addrlen sockaddr_len
    then refused
    else sendto_at interfaces (get_socket s sockfd) buf (ntohl dest_addr.sin_addr)
        (ntohs dest_addr.sin_port) s

-- It has no case that does not return -1.
unfoldable pub socket_recvfrom : ℕ → ℕ → Sockets → Option ℕ
socket_recvfrom sockfd len s = none

abbrev pub closed_tcp : List Segment × Tcp → Sockets → List Segment × Sockets
closed_tcp (segments, t) s = (segments, record s { tcp = t })

abbrev pub close_impl : List Interface → Descriptor → Sockets → List Segment × Sockets
unfolding udp_close tcp_close
close_impl interfaces d s =
    if d.type == sock_dgram
    then ([], record s { udp = udp_close s.udp d.impl })
    else if d.type == sock_stream
    then closed_tcp (tcp_close interfaces s.tcp d.impl) s
    else ([], s)

-- none stands for -1; else the segments that tcp_close sends are returned.
abbrev pub close_at :
    List Interface → Option Descriptor → ℕ → Sockets → Option (List Segment) × Sockets
unfolding close_impl free_socket_fd
close_at interfaces none sockfd s = (none, s)
close_at interfaces (some d) sockfd s =
    let r = close_impl interfaces d s in (some r.0, free_socket_fd sockfd r.1)

unfoldable pub socket_close : List Interface → ℕ → Sockets → Option (List Segment) × Sockets
unfolding get_socket close_at
socket_close interfaces sockfd s = close_at interfaces (get_socket s sockfd) sockfd s

-- INADDR_NONE stands for every error.
unfoldable pub combine_net : Option (List ℕ × (ℕ × ℕ)) → ℕ
unfolding combine htonl
combine_net none = 0xFFFFFFFF
combine_net (some (octets, (octet_idx, current))) =
    if octet_idx == 3 then htonl (combine (some (octets, (octet_idx, current)))) else 0xFFFFFFFF

unfoldable pub inet_addr : List ℕ → ℕ
unfolding parse combine_net
inet_addr cp = combine_net (parse cp (0 ∷ 0 ∷ 0 ∷ 0 ∷ []) 0 0)

unfoldable pub inet_ntoa : ℕ → List ℕ
unfolding ip_addr_to_str ntohl
inet_ntoa addr = ip_addr_to_str (ntohl addr)
