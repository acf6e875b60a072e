-- ===== src/Net/Dhcp/Receive.antt =====
-- The received packets of src/network/dhcp.c and the times of the lease.
use cgos.Base.{
  ℕ, zero, suc, ◌+◌, ◌-◌, ◌*◌, ◌/◌, ◌%◌, ◌^◌, Bool, true, false, not, List, [], ◌∷◌, ltb, leb, ◌==◌,
  if◌then◌else◌, length, get_or, drop,
}
use cgos.Net.Udp.{Sent}
use cgos.Net.Socket.Calls.{ntohl}
use cgos.Net.Dhcp.{
  DhcpState, Client, msg_offer, msg_ack, msg_nak, option_pad, option_subnet_mask, option_router,
  option_dns_server, option_lease_time, option_msg_type, option_server_id, option_renewal_time,
  option_rebinding_time, option_end, magic_cookie, dhcp_client_request, dhcp_client_start, init,
  selecting, requesting, bound, renewing, rebinding,
}

-- Four bytes of an option, the first one highest.
abbrev pub big32 : List ℕ → ℕ
big32 bytes =
    (get_or bytes 0 0 * 2 ^ 24
      + get_or bytes 1 0 * 2 ^ 16
      + get_or bytes 2 0 * 2 ^ 8
      + get_or bytes 3 0)
    % 2 ^ 32

-- One option, whose bytes are the first `len` of the rest.
unfoldable pub take_option : ℕ → ℕ → List ℕ → Client → ℕ → Client × ℕ
take_option type len bytes client msg_type =
    if type == option_msg_type
    then (client, if len == 1 then get_or bytes 0 0 else msg_type)
    else if type == option_subnet_mask
    then ((if len == 4 then record client { subnet_mask = big32 bytes } else client), msg_type)
    else if type == option_router
    then ((if leb 4 len then record client { gateway = big32 bytes } else client), msg_type)
    else if type == option_dns_server
    then ((if leb 4 len then record client { dns_server = big32 bytes } else client), msg_type)
    else if type == option_lease_time
    then ((if len == 4 then record client { lease_time = big32 bytes } else client), msg_type)
    else if type == option_server_id
    then ((if len == 4 then record client { server_ip = big32 bytes } else client), msg_type)
    else if type == option_renewal_time
    then ((if len == 4 then record client { renewal_time = big32 bytes } else client), msg_type)
    else if type == option_rebinding_time
    then ((if len == 4 then record client { rebinding_time = big32 bytes } else client), msg_type)
    else (client, msg_type)

-- The loop, over the bytes from the index on, with fuel.
unfoldable pub parse_from : ℕ → List ℕ → Client → ℕ → Client × ℕ
unfolding take_option
parse_from zero bytes client msg_type = (client, msg_type)
parse_from (suc fuel) [] client msg_type = (client, msg_type)
parse_from (suc fuel) (type ∷ []) client msg_type = (client, msg_type)
parse_from (suc fuel) (type ∷ len ∷ rest) client msg_type =
    let padded = parse_from fuel (len ∷ rest) client msg_type in
    let (client', msg_type') = take_option type len rest client msg_type in
    let further = parse_from fuel (drop len rest) client' msg_type' in
    if type == option_pad
    then padded
    else if type == option_end
    then (client, msg_type)
    else if ltb (length rest) len
    then (client, msg_type)
    else further

-- Each round takes a byte at least.
unfoldable pub dhcp_parse_options : List ℕ → Client → Client × ℕ
unfolding parse_from
dhcp_parse_options options client = parse_from (length options) options client 0

-- The fields of a received `dhcp_packet_t` that are read, as they lie in memory, with all bytes of
-- its options.
pub record Reply : Type 0 where
  pub xid : ℕ
  pub yiaddr : ℕ
  pub magic : ℕ
  pub options : List ℕ

-- DHCP_ACK: the interface is configured at the time `now`.
unfoldable pub configured : ℕ → Client → Client
configured now client = record client {
  iface = record (client.iface) {
    ip_address = client.offered_ip;
    subnet_mask = client.subnet_mask;
    gateway = client.gateway;
  };
  state = bound;
  lease_start_time = now;
  active = true;
  renewal_time = if client.renewal_time == 0 then client.lease_time / 2 else client.renewal_time;
  rebinding_time =
      if client.rebinding_time == 0
      then client.lease_time * 7 % 2 ^ 32 / 8
      else client.rebinding_time;
}

unfoldable pub handle_type : Bool → ℕ → DhcpState → ℕ → ℕ → Client → List Sent × Client
unfolding dhcp_client_request configured
handle_type accepted now selecting msg_type offered_ip client =
    let asked = dhcp_client_request accepted (record client { offered_ip = offered_ip }) in
    if msg_type == msg_offer then (asked.0.1, asked.1) else ([], client)
handle_type accepted now requesting msg_type offered_ip client =
    if msg_type == msg_ack
    then ([], configured now client)
    else if msg_type == msg_nak
    then ([], record client { state = init; offered_ip = 0; server_ip = 0 })
    else ([], client)
handle_type accepted now _ msg_type offered_ip client = ([], client)

unfoldable pub dhcp_client_process_packet : Bool → ℕ → Client → Reply → ℕ → List Sent × Client
unfolding dhcp_parse_options handle_type ntohl
dhcp_client_process_packet accepted now client packet packet_len =
    let parsed = dhcp_parse_options packet.options client in
    if ltb packet_len 240
    then ([], client)
    else if not (ntohl packet.magic == magic_cookie)
    then ([], client)
    else if not (ntohl packet.xid == client.transaction_id)
    then ([], client)
    else handle_type accepted now parsed.0.state parsed.1 (ntohl packet.yiaddr) parsed.0

-- dhcp_client_update, with the count of the transactions for a new start.
unfoldable pub update_state : Bool → ℕ → DhcpState → Client → ℕ → (List Sent × Client) × ℕ
unfolding dhcp_client_request dhcp_client_start
update_state accepted elapsed bound client xids =
    let asked = dhcp_client_request accepted (record client { state = renewing }) in
    if leb client.renewal_time elapsed then ((asked.0.1, asked.1), xids) else (([], client), xids)
update_state accepted elapsed renewing client xids =
    let asked = dhcp_client_request accepted (record client { state = rebinding }) in
    if leb client.rebinding_time elapsed then ((asked.0.1, asked.1), xids) else (([], client), xids)
update_state accepted elapsed rebinding client xids =
    let again =
      dhcp_client_start accepted
        (record client {
          state = init;
          active = false;
          iface = record (client.iface) { ip_address = 0 };
        })
        xids in
    if leb client.lease_time elapsed
    then ((again.0.0.1, again.0.1), again.1)
    else (([], client), xids)
update_state accepted elapsed _ client xids = (([], client), xids)

unfoldable pub dhcp_client_update : Bool → ℕ → Client → ℕ → (List Sent × Client) × ℕ
unfolding update_state
dhcp_client_update accepted now client xids =
    let elapsed : ℕ = (now + 2 ^ 32 - client.lease_start_time) % 2 ^ 32 in
    if not client.active
    then (([], client), xids)
    else update_state accepted elapsed client.state client xids
