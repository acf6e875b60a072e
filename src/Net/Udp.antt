-- ===== src/Net/Udp.antt =====
-- src/network/udp.c: the socket table, the sockets' operations and the delivery of datagrams. A
-- socket is named by its index in the table, and a callback by its number. Datagrams hold their
-- header in host order. The DHCP client (dhcp.c) is an argument: whether the interface has one.
pub mod Deliver
use cgos.Base.{
  ℕ, ◌+◌, ◌-◌, Bool, true, false, not, ◌&&◌, ◌||◌, List, [], ◌∷◌, ltb, leb, ◌==◌, if◌then◌else◌,
  set, get_or, replicate, length, Option, none, some,
}
use cgos.Net.Route.{Interface, network_find_route}

-- MAX_SOCKETS, UDP_HEADER_LEN, UDP_MAX_PAYLOAD
abbrev pub max_sockets : ℕ
max_sockets = 64

abbrev pub udp_header_len : ℕ
udp_header_len = 8

abbrev pub udp_max_payload : ℕ
udp_max_payload = 1500 - 20 - udp_header_len

-- `udp_socket_t`
pub record Socket : Type 0 where
  pub local_port : ℕ
  pub remote_ip : ℕ
  pub remote_port : ℕ
  pub bound : Bool
  pub connected : Bool
  pub receive_callback : Option ℕ

pub record Udp : Type 0 where
  pub sockets : List Socket
  pub socket_count : ℕ

-- `udp_packet_t`, with the bytes from its payload on
pub record Datagram : Type 0 where
  pub src_port : ℕ
  pub dest_port : ℕ
  pub length_field : ℕ
  pub payload : List ℕ

-- NET_SUCCESS, NET_ERROR, NET_INVALID_PARAM
pub data NetResult : Type 0 where
  success error invalid_param : NetResult

-- Where a datagram goes: to the DHCP client, to the callback of a socket with the length of the
-- payload and the sender, or nowhere.
pub data Delivery : Type 0 where
  to_dhcp : List ℕ → ℕ → Delivery
  to_callback : (socket callback : ℕ) (payload : List ℕ) (len src_ip src_port : ℕ) → Delivery
  nowhere : Delivery

abbrev pub blank : Socket
blank = record {
  local_port = 0;
  remote_ip = 0;
  remote_port = 0;
  bound = false;
  connected = false;
  receive_callback = none;
}

abbrev pub socket_at : Udp → ℕ → Socket
socket_at u i = get_or u.sockets i blank

abbrev pub with_socket : Udp → ℕ → Socket → Udp
with_socket u i s = record u { sockets = set u.sockets i s }

unfoldable pub udp_init : Udp
udp_init = record { sockets = replicate max_sockets blank; socket_count = 0 }

-- The search for the socket bound to a port.
abbrev pub is_bound_to : ℕ → Socket → Bool
is_bound_to port s = s.bound && (s.local_port == port)

unfoldable pub find_bound : List Socket → ℕ → ℕ → Option ℕ
find_bound [] port i = none
find_bound (s ∷ ss) port i =
    let rest = find_bound ss port (i + 1) in if is_bound_to port s then some i else rest

abbrev pub call_back : Option ℕ → ℕ → Datagram → ℕ → Delivery
call_back none i d src_ip = nowhere
call_back (some f) i d src_ip =
    to_callback i f d.payload (d.length_field - udp_header_len) src_ip d.src_port

abbrev pub deliver_to : Option ℕ → Udp → Datagram → ℕ → Delivery
deliver_to none u d src_ip = nowhere
deliver_to (some i) u d src_ip = call_back (socket_at u i).receive_callback i d src_ip

unfoldable pub udp_process_packet : Bool → Udp → ℕ → Datagram → Delivery
unfolding find_bound
udp_process_packet has_dhcp_client u src_ip d =
    if ltb d.length_field udp_header_len
    then nowhere
    else if d.dest_port == 68 && (d.src_port == 67)
    then (if has_dhcp_client then to_dhcp d.payload (d.length_field - udp_header_len) else nowhere)
    else deliver_to (find_bound u.sockets d.dest_port 0) u d src_ip

-- none stands for the null pointer.
unfoldable pub udp_create_socket : Udp → Option ℕ × Udp
udp_create_socket u = if leb max_sockets u.socket_count then (none, u) else (
  some u.socket_count,
  record { sockets = set u.sockets u.socket_count blank; socket_count = u.socket_count + 1 },
)

abbrev pub bind_free : Option ℕ → Udp → ℕ → ℕ → NetResult × Udp
bind_free (some j) u i port = (error, u)
bind_free none u i port =
    (success, with_socket u i (record (socket_at u i) { local_port = port; bound = true }))

unfoldable pub udp_bind : Udp → ℕ → ℕ → NetResult × Udp
unfolding find_bound
udp_bind u i port =
    if port == 0 then (invalid_param, u) else bind_free (find_bound u.sockets port 0) u i port

unfoldable pub udp_connect : Udp → ℕ → ℕ → ℕ → NetResult × Udp
udp_connect u i remote_ip remote_port =
    if remote_ip == 0 || (remote_port == 0) then (invalid_param, u) else (
      success,
      with_socket u i (record (socket_at u i) {
        remote_ip = remote_ip;
        remote_port = remote_port;
        connected = true;
      }),
    )

unfoldable pub udp_close : Udp → ℕ → Udp
udp_close u i = with_socket u i blank

-- What a sender hands to ip_send_packet, or its error.
pub data Sent : Type 0 where
  refused : NetResult → Sent
  handed : Interface → ℕ → Datagram → Sent

unfoldable pub udp_send_packet : Interface → ℕ → ℕ → ℕ → List ℕ → Sent
udp_send_packet iface dest_ip src_port dest_port payload =
    if length payload == 0
    then refused invalid_param
    else if ltb udp_max_payload (length payload)
    then refused error
    else handed iface dest_ip record {
      src_port = src_port;
      dest_port = dest_port;
      length_field = udp_header_len + length payload;
      payload = payload;
    }

abbrev pub send_through : Option Interface → ℕ → ℕ → ℕ → List ℕ → Sent
unfolding udp_send_packet
send_through none dest_ip src_port dest_port bytes = refused error
send_through (some iface) dest_ip src_port dest_port bytes =
    udp_send_packet iface dest_ip src_port dest_port bytes

unfoldable pub udp_sendto : List Interface → Udp → ℕ → List ℕ → ℕ → ℕ → Sent
unfolding send_through
udp_sendto interfaces u i bytes dest_ip dest_port =
    if length bytes == 0 || dest_ip == 0 || dest_port == 0 || not (socket_at u i).bound
    then refused invalid_param
    else send_through (network_find_route interfaces dest_ip) dest_ip (socket_at u i).local_port
        dest_port bytes

unfoldable pub udp_send : List Interface → Udp → ℕ → List ℕ → Sent
unfolding udp_sendto
udp_send interfaces u i bytes =
    let s = socket_at u i in
    if length bytes == 0 || not s.connected
    then refused invalid_param
    else udp_sendto interfaces u i bytes s.remote_ip s.remote_port
