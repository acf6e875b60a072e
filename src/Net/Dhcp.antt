-- ===== src/Net/Dhcp.antt =====
-- The DHCP client of src/network/dhcp.c. A client holds the fields of its interface, which are those
-- that the pointer leads to. timer_get_seconds is an argument, and so is whether udp_send_packet
-- takes a packet.
pub mod Receive
pub mod Lease
pub mod Handle
pub mod Offer
use cgos.Base.{
  ℕ, zero, suc, ◌+◌, ◌-◌, ◌*◌, ◌/◌, ◌%◌, ◌^◌, Bool, true, false, not, ◌&&◌, ◌||◌, List, [], ◌∷◌,
  ◌++◌, ltb, leb, ◌==◌, if◌then◌else◌, length, get_or, take, drop, replicate, Option, none, some,
}
use cgos.Net.Route.{Interface}
use cgos.Net.Ip.{stored16, stored32}
use cgos.Net.Udp.{Sent, udp_send_packet}
use cgos.Net.Socket.Calls.{htons, htonl, ntohl}

-- `dhcp_state_t`
pub data DhcpState : Type 0 where
  init selecting requesting bound renewing rebinding init_reboot : DhcpState

-- `dhcp_client_t`
pub record Client : Type 0 where
  pub iface : Interface
  pub state : DhcpState
  pub transaction_id : ℕ
  pub server_ip : ℕ
  pub offered_ip : ℕ
  pub subnet_mask : ℕ
  pub gateway : ℕ
  pub dns_server : ℕ
  pub lease_time : ℕ
  pub renewal_time : ℕ
  pub rebinding_time : ℕ
  pub lease_start_time : ℕ
  pub active : Bool

-- DHCP_DISCOVER, DHCP_OFFER, DHCP_REQUEST, DHCP_ACK, DHCP_NAK, DHCP_RELEASE
abbrev pub msg_discover : ℕ
msg_discover = 1

abbrev pub msg_offer : ℕ
msg_offer = 2

abbrev pub msg_request : ℕ
msg_request = 3

abbrev pub msg_ack : ℕ
msg_ack = 5

abbrev pub msg_nak : ℕ
msg_nak = 6

abbrev pub msg_release : ℕ
msg_release = 7

-- The DHCP_OPTION numbers.
abbrev pub option_pad : ℕ
option_pad = 0

abbrev pub option_subnet_mask : ℕ
option_subnet_mask = 1

abbrev pub option_router : ℕ
option_router = 3

abbrev pub option_dns_server : ℕ
option_dns_server = 6

abbrev pub option_requested_ip : ℕ
option_requested_ip = 50

abbrev pub option_lease_time : ℕ
option_lease_time = 51

abbrev pub option_msg_type : ℕ
option_msg_type = 53

abbrev pub option_server_id : ℕ
option_server_id = 54

abbrev pub option_param_request : ℕ
option_param_request = 55

abbrev pub option_renewal_time : ℕ
option_renewal_time = 58

abbrev pub option_rebinding_time : ℕ
option_rebinding_time = 59

abbrev pub option_client_id : ℕ
option_client_id = 61

abbrev pub option_end : ℕ
option_end = 255

-- DHCP_MAGIC_COOKIE, and the size of the options.
abbrev pub magic_cookie : ℕ
magic_cookie = 0x63825363

abbrev pub options_len : ℕ
options_len = 312

-- The two numbers that the code keeps for all clients.
unfoldable pub dhcp_generate_xid : ℕ → ℕ × ℕ
dhcp_generate_xid dhcp_xid_counter = (dhcp_xid_counter, (dhcp_xid_counter + 1) % 2 ^ 32)

-- The client that dhcp_client_init makes, where one of the MAX_NETWORK_INTERFACES is left.
unfoldable pub dhcp_client_init : List Client → Interface → ℕ → Option (List Client × ℕ)
unfolding dhcp_generate_xid
dhcp_client_init clients iface dhcp_xid_counter =
    let (xid, next) = dhcp_generate_xid dhcp_xid_counter in
    let client : Client = record {
      iface = iface;
      state = init;
      transaction_id = xid;
      server_ip = 0;
      offered_ip = 0;
      subnet_mask = 0;
      gateway = 0;
      dns_server = 0;
      lease_time = 0;
      renewal_time = 0;
      rebinding_time = 0;
      lease_start_time = 0;
      active = false;
    } in
    if leb 4 (length clients) then none else some (clients ++ (client ∷ []), next)

-- The options that are written so far are a list; an option that does not fit is left out.
unfoldable pub dhcp_add_option : List ℕ → ℕ → List ℕ → List ℕ
dhcp_add_option options type bytes =
    if leb options_len (length options + 2 + length bytes)
    then options
    else options ++ (type ∷ length bytes ∷ bytes)

-- The bytes of `dhcp_packet_t` before its options.
unfoldable pub header_of : Client → (flags ciaddr : ℕ) → List ℕ
unfolding htonl
header_of client flags ciaddr =
    1
    ∷ 1
    ∷ 6
    ∷ 0
    ∷ stored32 (htonl client.transaction_id) (
        stored16 0 (
          stored16 flags (
            stored32 ciaddr (
              replicate 12 0
              ++ take 6 client.iface.mac_address
              ++ replicate 10 0
              ++ replicate 192 0
              ++ stored32 (htonl magic_cookie) []))))

-- An address in network order, as the bytes of an option.
abbrev pub address_bytes : ℕ → List ℕ
address_bytes a = stored32 (htonl a) []

abbrev pub client_id : Client → List ℕ
client_id client = 1 ∷ take 6 client.iface.mac_address

unfoldable pub discover_options : Client → List ℕ
unfolding dhcp_add_option
discover_options client =
    let typed = dhcp_add_option [] option_msg_type (msg_discover ∷ []) in
    let asked = dhcp_add_option typed option_param_request (1 ∷ 3 ∷ 6 ∷ 15 ∷ 28 ∷ []) in
    let named = dhcp_add_option asked option_client_id (client_id client) in
    dhcp_add_option named option_end []

unfoldable pub request_options : Client → List ℕ
unfolding dhcp_add_option htonl
request_options client =
    let typed = dhcp_add_option [] option_msg_type (msg_request ∷ []) in
    let asked = dhcp_add_option typed option_requested_ip (address_bytes client.offered_ip) in
    let served = dhcp_add_option asked option_server_id (address_bytes client.server_ip) in
    let named = dhcp_add_option served option_client_id (client_id client) in
    dhcp_add_option named option_end []

unfoldable pub release_options : Client → List ℕ
unfolding dhcp_add_option htonl
release_options client =
    let typed = dhcp_add_option [] option_msg_type (msg_release ∷ []) in
    let served = dhcp_add_option typed option_server_id (address_bytes client.server_ip) in
    dhcp_add_option served option_end []

-- The packet goes out with one byte behind the options.
abbrev pub send_to : Client → ℕ → List ℕ → List ℕ → Sent
send_to client dest_ip header options =
    udp_send_packet client.iface dest_ip 68 67 (header ++ options ++ (0 ∷ []))

-- A call returns whether it returns 0, and what it hands to udp_send_packet.
unfoldable pub dhcp_client_discover : Bool → Client → (Bool × List Sent) × Client
unfolding header_of discover_options udp_send_packet htons
dhcp_client_discover accepted client =
    let packet =
      send_to client 0xFFFFFFFF (header_of client (htons 0x8000) 0) (discover_options client) in
    if accepted
    then ((true, packet ∷ []), record client { state = selecting })
    else ((false, packet ∷ []), client)

unfoldable pub dhcp_client_request : Bool → Client → (Bool × List Sent) × Client
unfolding header_of request_options udp_send_packet htons
dhcp_client_request accepted client =
    let packet =
      send_to client 0xFFFFFFFF (header_of client (htons 0x8000) 0) (request_options client) in
    if client.offered_ip == 0
    then ((false, []), client)
    else if accepted
    then ((true, packet ∷ []), record client { state = requesting })
    else ((false, packet ∷ []), client)

unfoldable pub dhcp_client_start : Bool → Client → ℕ → ((Bool × List Sent) × Client) × ℕ
unfolding dhcp_generate_xid dhcp_client_discover
dhcp_client_start accepted client dhcp_xid_counter =
    let (xid, next) = dhcp_generate_xid dhcp_xid_counter in
    (dhcp_client_discover accepted (record client { state = init; transaction_id = xid }), next)

unfoldable pub dhcp_client_release : Client → (Bool × List Sent) × Client
unfolding header_of release_options udp_send_packet htonl
dhcp_client_release client =
    let packet =
      send_to client client.server_ip (header_of client 0 (htonl client.iface.ip_address))
        (release_options client) in
    if not client.active then ((false, []), client) else (
      (true, packet ∷ []),
      record client {
        iface = record (client.iface) { ip_address = 0; subnet_mask = 0; gateway = 0 };
        state = init;
        active = false;
      },
    )
