-- ===== src/Net/Ip.antt =====
-- The packets of src/network/ip.c. The header keeps its fields as they lie in memory: fields of more
-- than one byte are swapped to network order, and a little-endian machine stores their low byte
-- first. The payload is the list of the bytes behind the header.

pub mod Valid
use cgos.Base.{
  ℕ, ◌+◌, ◌-◌, ◌*◌, ◌/◌, ◌%◌, ◌^◌, Bool, true, false, not, ◌&&◌, ◌||◌, List, [], ◌∷◌, ◌++◌, ltb,
  ◌==◌, if◌then◌else◌, length, replicate, Option, none, some, bit_or, take, drop, get_or,
}
use cgos.Net.Route.{Interface}
use cgos.Net.Arp.{ArpTable, Packet, arp_lookup, arp_send_request}
use cgos.Net.Checksum.{bswap16, ip_checksum}

-- `ip_header_t`
pub record IpHeader : Type 0 where
  pub version_ihl : ℕ
  pub tos : ℕ
  pub total_length : ℕ
  pub identification : ℕ
  pub flags_fragment : ℕ
  pub ttl : ℕ
  pub protocol : ℕ
  pub checksum : ℕ
  pub src_ip : ℕ
  pub dest_ip : ℕ

-- IP_HEADER_LEN, IP_PACKET_SIZE
abbrev pub ip_header_len : ℕ
ip_header_len = 20

abbrev pub ip_packet_size : ℕ
ip_packet_size = 1500

-- IP_PROTOCOL_ICMP, IP_PROTOCOL_TCP, IP_PROTOCOL_UDP
abbrev pub protocol_icmp : ℕ
protocol_icmp = 1

abbrev pub protocol_tcp : ℕ
protocol_tcp = 6

abbrev pub protocol_udp : ℕ
protocol_udp = 17

-- __builtin_bswap32
unfoldable pub bswap32 : ℕ → ℕ
bswap32 x =
    x % 2 ^ 8 * 2 ^ 24
    + x / 2 ^ 8 % 2 ^ 8 * 2 ^ 16
    + x / 2 ^ 16 % 2 ^ 8 * 2 ^ 8
    + x / 2 ^ 24 % 2 ^ 8

-- A field of 16 or 32 bits in memory.
abbrev pub stored16 : ℕ → List ℕ → List ℕ
stored16 x rest = x % 2 ^ 8 ∷ x / 2 ^ 8 % 2 ^ 8 ∷ rest

abbrev pub stored32 : ℕ → List ℕ → List ℕ
stored32 x rest = stored16 (x % 2 ^ 16) (stored16 (x / 2 ^ 16) rest)

-- The twenty bytes of the header.
unfoldable pub header_bytes : IpHeader → List ℕ
header_bytes h =
    h.version_ihl
    ∷ h.tos
    ∷ stored16 h.total_length (
        stored16 h.identification (
          stored16 h.flags_fragment
            (h.ttl ∷ h.protocol ∷ stored16 h.checksum (stored32 h.src_ip (stored32 h.dest_ip [])))))

-- The pointer to a packet's bytes as one to `ip_packet_t`.
abbrev pub read16 : List ℕ → ℕ → ℕ
read16 bytes i = get_or bytes i 0 + get_or bytes (i + 1) 0 * 2 ^ 8

abbrev pub read32 : List ℕ → ℕ → ℕ
read32 bytes i = read16 bytes i + read16 bytes (i + 2) * 2 ^ 16

unfoldable pub read_packet : List ℕ → IpHeader × List ℕ
read_packet bytes = (
  record {
    version_ihl = get_or bytes 0 0;
    tos = get_or bytes 1 0;
    total_length = read16 bytes 2;
    identification = read16 bytes 4;
    flags_fragment = read16 bytes 6;
    ttl = get_or bytes 8 0;
    protocol = get_or bytes 9 0;
    checksum = read16 bytes 10;
    src_ip = read32 bytes 12;
    dest_ip = read32 bytes 16;
  },
  drop ip_header_len bytes,
)

abbrev pub without_checksum : IpHeader → IpHeader
without_checksum h = record h { checksum = 0 }

-- ip_checksum of a header whose checksum field is 0.
unfoldable pub header_checksum : IpHeader → ℕ
unfolding header_bytes ip_checksum
header_checksum h = ip_checksum (header_bytes (without_checksum h))

unfoldable pub ip_validate_checksum : IpHeader → Bool
unfolding header_checksum
ip_validate_checksum h = h.checksum == header_checksum h

-- What ip_send_packet does: it returns NET_INVALID_PARAM or NET_ERROR; it sends a request for the
-- hardware address and returns NET_TIMEOUT; or it hands the bytes of the packet to
-- ethernet_send_frame, with the hardware address.
pub data IpSent : Type 0 where
  invalid_param too_large : IpSent
  requested : List ℕ × Packet → IpSent
  handed : List ℕ → IpHeader → List ℕ → IpSent

-- The header that ip_send_packet builds.
unfoldable pub packet_header : Interface → ℕ → ℕ → ℕ → ℕ → IpHeader
unfolding bswap32 header_checksum
packet_header iface identification dest_ip protocol payload_len =
    let h : IpHeader = record {
      version_ihl = 4 * 2 ^ 4 + 20 / 4;
      tos = 0;
      total_length = bswap16 (ip_header_len + payload_len);
      identification = bswap16 identification;
      flags_fragment = bswap16 0x4000;
      ttl = 64;
      protocol = protocol;
      checksum = 0;
      src_ip = bswap32 iface.ip_address;
      dest_ip = bswap32 dest_ip;
    } in
    record h { checksum = header_checksum h }

abbrev pub broadcast_ip : ℕ
broadcast_ip = 0xFFFFFFFF

-- The hardware address: all ones for a broadcast, else that of the table.
abbrev pub resolve : ArpTable → ℕ → Option (List ℕ)
resolve t dest_ip = if dest_ip == broadcast_ip then some (replicate 6 255) else arp_lookup t dest_ip

abbrev pub hand_over : Option (List ℕ) → Interface → ℕ → IpHeader → List ℕ → IpSent
hand_over none iface dest_ip h payload = requested (arp_send_request iface dest_ip)
hand_over (some mac) iface dest_ip h payload = handed mac h payload

-- `identification` is ip_identification, of 16 bits, which the call counts up.
unfoldable pub ip_send_packet : Interface → ArpTable → ℕ → ℕ → ℕ → List ℕ → IpSent × ℕ
unfolding arp_lookup arp_send_request packet_header
ip_send_packet iface t identification dest_ip protocol payload =
    if length payload == 0
    then (invalid_param, identification)
    else if ltb (ip_packet_size - ip_header_len) (length payload)
    then (too_large, identification)
    else (
      hand_over (resolve t dest_ip) iface dest_ip
          (packet_header iface identification dest_ip protocol (length payload)) payload,
      (identification + 1) % 2 ^ 16,
    )

-- Where a received packet goes: to a protocol with the addresses and the payload, back to its sender
-- as unreachable with the bytes that icmp_send_dest_unreachable gets, or nowhere.
pub data Dispatch : Type 0 where
  to_icmp to_udp to_tcp : (src_ip dest_ip : ℕ) (payload : List ℕ) → Dispatch
  to_unreachable : (src_ip : ℕ) (original : List ℕ) → Dispatch
  dropped : Dispatch

unfoldable pub is_accepted : Interface → ℕ → Bool
is_accepted iface dest_ip =
    dest_ip == iface.ip_address
    || dest_ip == broadcast_ip
    || iface.ip_address == 0
    || (not (iface.subnet_mask == 0) && bit_or dest_ip iface.subnet_mask == broadcast_ip)

unfoldable pub by_protocol : ℕ → ℕ → IpHeader → List ℕ → Dispatch
unfolding header_bytes
by_protocol src_ip dest_ip h payload =
    if h.protocol == protocol_icmp
    then to_icmp src_ip dest_ip payload
    else if h.protocol == protocol_udp
    then to_udp src_ip dest_ip payload
    else if h.protocol == protocol_tcp
    then to_tcp src_ip dest_ip payload
    else to_unreachable src_ip (header_bytes h ++ take 8 payload)

unfoldable pub ip_process_packet : Interface → IpHeader → List ℕ → Dispatch
unfolding ip_validate_checksum is_accepted by_protocol bswap32
ip_process_packet iface h payload =
    if not (h.version_ihl / 2 ^ 4 % 2 ^ 4 == 4)
    then dropped
    else if not (ip_validate_checksum h)
    then dropped
    else if is_accepted iface (bswap32 h.dest_ip)
    then by_protocol (bswap32 h.src_ip) (bswap32 h.dest_ip) h payload
    else dropped
