-- ===== src/Net/Ethernet/Deliver.antt =====
-- An IP packet in an Ethernet frame, from ip_send_packet of one host to ip_process_packet of another.
use cgos.Base.{
  ℕ, ◌+◌, ◌-◌, ◌*◌, ◌/◌, ◌%◌, ◌^◌, ◌<◌, ◌≤◌, ◌≡◌, ◌≢◌, refl, ap, ◌∙◌, true, false, List, [], ◌∷◌,
  ◌++◌, ltb, ◌==◌, length, Option, none, some, arith, ==_iff, replicate,
}
use cgos.Net.Route.{Interface}
use cgos.Net.Arp.{ArpTable, arp_lookup}
use cgos.Net.Checksum.{bswap16, complement, ip_checksum}
use cgos.Net.Ip.{
  IpHeader, IpSent, handed, Dispatch, to_icmp, to_tcp, to_udp, dropped, header_bytes, read_packet,
  header_checksum, ip_validate_checksum, packet_header, without_checksum, bswap32, broadcast_ip,
  ip_send_packet, is_accepted, by_protocol, ip_process_packet,
}
use cgos.Net.Ethernet.{
  Frame, RawSent, invalid_param, sent, Handler, to_ip, same_mac, padding, network_send_raw,
  ethernet_send_frame, network_receive_raw, ethernet_receive_frame, ethernet_process_frame,
  eth_type_ip,
}

-- The fields have the widths of their types.
record IsWide (h : IpHeader) : Type 0 where
  words :
      (h.total_length < 2 ^ 16)
      × (h.identification < 2 ^ 16)
      × (h.flags_fragment < 2 ^ 16)
      × (h.checksum < 2 ^ 16)
  addresses : (h.src_ip < 2 ^ 32) × (h.dest_ip < 2 ^ 32)

word : (x : ℕ) → x < 2 ^ 16 → x % 2 ^ 8 + x / 2 ^ 8 % 2 ^ 8 * 2 ^ 8 ≡ x
word x small = omega arith

address :
    (x : ℕ)
    → x < 2 ^ 32
    → x % 2 ^ 16 % 2 ^ 8
        + x % 2 ^ 16 / 2 ^ 8 % 2 ^ 8 * 2 ^ 8
        + (x / 2 ^ 16 % 2 ^ 8 + x / 2 ^ 16 / 2 ^ 8 % 2 ^ 8 * 2 ^ 8) * 2 ^ 16
      ≡ x
address x small = omega arith

-- What is read from the bytes of a packet is the packet.
read_packet-bytes :
    (h : IpHeader) (payload : List ℕ)
    → IsWide h
    → read_packet (header_bytes h ++ payload) ≡ (h, payload)
unfolding read_packet header_bytes
read_packet-bytes h payload k =
    let (a, b, c, d) = k.words in
    let (e, f) = k.addresses in
    λ i. (
      record {
        version_ihl = h.version_ihl;
        tos = h.tos;
        total_length = word h.total_length a i;
        identification = word h.identification b i;
        flags_fragment = word h.flags_fragment c i;
        ttl = h.ttl;
        protocol = h.protocol;
        checksum = word h.checksum d i;
        src_ip = address h.src_ip e i;
        dest_ip = address h.dest_ip f i;
      },
      payload,
    )

bswap16_twice : (x : ℕ) → x < 2 ^ 16 → bswap16 (bswap16 x) ≡ x
bswap16_twice x small = omega arith

bswap32_twice : (x : ℕ) → x < 2 ^ 32 → bswap32 (bswap32 x) ≡ x
unfolding bswap32
bswap32_twice x small = omega arith

bswap32-lt : (x : ℕ) → bswap32 x < 2 ^ 32
unfolding bswap32
bswap32-lt x = omega arith

header_checksum-lt : (h : IpHeader) → header_checksum h < 2 ^ 16
unfolding header_checksum ip_checksum complement
header_checksum-lt h = omega arith

same_mac_refl : (m : List ℕ) → same_mac m m ≡ true
unfolding same_mac
same_mac_refl [] = refl
same_mac_refl (x ∷ xs) = rw ((==_iff x x).1 refl, same_mac_refl xs) refl

-- The frame that carries what ip_send_packet hands over.
abbrev pub transmit : Interface → IpSent → RawSent
transmit iface (handed mac h payload) =
    ethernet_send_frame true iface mac eth_type_ip (header_bytes h ++ payload)
transmit iface _ = invalid_param

-- What becomes of the frame at the interface that receives it.
abbrev pub handle : Interface → Handler → Dispatch
handle iface (to_ip bytes) =
    let (h, payload) = read_packet bytes in ip_process_packet iface h payload
handle iface _ = dropped

abbrev pub process : Interface → Option Frame → Dispatch
process iface none = dropped
process iface (some frame) = handle iface (ethernet_process_frame iface frame)

abbrev pub arrive : Interface → RawSent → Dispatch
arrive iface (sent frame) = process iface (ethernet_receive_frame true iface (some frame))
arrive iface _ = dropped

packet_header-IsWide :
    (iface : Interface) (identification dest_ip protocol len : ℕ)
    → IsWide (packet_header iface identification dest_ip protocol len)
unfolding packet_header
packet_header-IsWide iface identification dest_ip protocol len =
    let h : IpHeader = without_checksum (packet_header iface identification dest_ip protocol len) in
    record {
      words = (omega arith, omega arith, omega arith, header_checksum-lt h);
      addresses = (bswap32-lt iface.ip_address, bswap32-lt dest_ip);
    }

validate-packet_header :
    (iface : Interface) (identification dest_ip protocol len : ℕ)
    → ip_validate_checksum (packet_header iface identification dest_ip protocol len) ≡ true
unfolding packet_header ip_validate_checksum
validate-packet_header iface identification dest_ip protocol len =
    let h : IpHeader = without_checksum (packet_header iface identification dest_ip protocol len) in
    (==_iff (header_checksum h) (header_checksum h)).1 refl

-- The packet that a host has built is accepted by the host that it is for.
process-packet_header :
    (a b : Interface) (identification protocol len : ℕ) (bytes : List ℕ)
    → a.ip_address < 2 ^ 32
    → b.ip_address < 2 ^ 32
    → let h = packet_header a identification b.ip_address protocol len in
      ip_process_packet b h bytes ≡ by_protocol a.ip_address b.ip_address h bytes
unfolding packet_header ip_process_packet is_accepted
process-packet_header a b identification protocol len bytes wide_a wide_b =
    let valid = validate-packet_header a identification b.ip_address protocol len in
    rw
      (
        valid,
        bswap32_twice a.ip_address wide_a,
        bswap32_twice b.ip_address wide_b,
        (==_iff b.ip_address b.ip_address).1 refl,
      )
      refl

module _ (a b : Interface) (t : ArpTable) (active_a : a.active ≡ true)
    (active_b : b.active ≡ true) where
  abbrev frame_to : List ℕ → Frame
  frame_to bytes = record {
    dest_mac = b.mac_address;
    src_mac = a.mac_address;
    ethertype = bswap16 eth_type_ip;
    payload = bytes;
  }

  sends :
      (bytes : List ℕ)
      → 0 < length bytes
      → length bytes ≤ 1500
      → ethernet_send_frame true a b.mac_address eth_type_ip bytes
        ≡ sent (frame_to (bytes ++ padding (length bytes)))
  unfolding ethernet_send_frame network_send_raw
  sends bytes positive fits =
      let p : (length bytes == 0) ≡ false = ground arith in
      let f : ltb 1500 (length bytes) ≡ false = ground arith in rw (p, f, active_a) refl

  receives :
      (bytes : List ℕ)
      → process b (ethernet_receive_frame true b (some (frame_to bytes))) ≡ handle b (to_ip bytes)
  unfolding ethernet_receive_frame network_receive_raw ethernet_process_frame
  receives bytes = rw (active_b, same_mac_refl b.mac_address) refl

  -- The packet reaches the host's choice of the protocol.
  arrive-by_protocol :
      (identification protocol : ℕ) (payload : List ℕ)
      → arp_lookup t b.ip_address ≡ some b.mac_address
      → b.ip_address ≢ broadcast_ip
      → a.ip_address < 2 ^ 32
      → b.ip_address < 2 ^ 32
      → 0 < length payload
      → length payload ≤ 1480
      → arrive b (transmit a (ip_send_packet a t identification b.ip_address protocol payload).0)
        ≡ by_protocol a.ip_address b.ip_address
            (packet_header a identification b.ip_address protocol (length payload))
            (payload ++ padding (20 + length payload))
  unfolding ip_send_packet header_bytes
  arrive-by_protocol identification protocol payload known unicast wide_a wide_b positive fits =
      let h = packet_header a identification b.ip_address protocol (length payload) in
      let p : (length payload == 0) ≡ false = ground arith in
      let f : ltb 1480 (length payload) ≡ false = ground arith in
      let u : (b.ip_address == broadcast_ip) ≡ false = ground arith in
      let bytes = header_bytes h ++ payload in
      let long : length bytes ≡ 20 + length payload = omega arith in
      let pad = padding (20 + length payload) in
      let read =
        read_packet-bytes h (payload ++ pad)
          (packet_header-IsWide a identification b.ip_address protocol (length payload)) in
      rw (p, f, u, known)
        (ap (arrive b) (sends bytes (omega arith) (omega arith))
          ∙ ap (λ (n : ℕ). arrive b (sent (frame_to (bytes ++ padding n)))) long
          ∙ receives (bytes ++ pad)
          ∙ ap (λ x. ip_process_packet b x.0 x.1) read
          ∙ process-packet_header a b identification protocol (length payload) (payload ++ pad)
              wide_a wide_b)

  padding_of : (n : ℕ) → padding (20 + n) ≡ replicate (26 - n) 0
  unfolding padding
  padding_of n = ap (λ (m : ℕ). replicate m 0) (omega arith)

  -- A packet of 1 to 1480 bytes that ip_send_packet sends to a host whose hardware address is in the
  -- table, and that is not the broadcast address, arrives: between active interfaces with addresses
  -- of 32 bits, over a card, its frame passes the host's Ethernet layer and its IP layer, which hands
  -- a packet of protocol 1 to ICMP, one of protocol 6 to TCP and one of protocol 17 to UDP, with the
  -- addresses of both hosts and the payload, which is filled up with zeros to 26 bytes.
  pub arrive-transmit :
      (identification : ℕ) (payload : List ℕ)
      → arp_lookup t b.ip_address ≡ some b.mac_address
      → b.ip_address ≢ broadcast_ip
      → a.ip_address < 2 ^ 32
      → b.ip_address < 2 ^ 32
      → 0 < length payload
      → length payload ≤ 1480
      → let arrived : ℕ → Dispatch = λ protocol.
        arrive b (transmit a (ip_send_packet a t identification b.ip_address protocol payload).0) in
        let filled = payload ++ replicate (26 - length payload) 0 in
        (arrived 1 ≡ to_icmp a.ip_address b.ip_address filled)
        × (arrived 6 ≡ to_tcp a.ip_address b.ip_address filled)
        × (arrived 17 ≡ to_udp a.ip_address b.ip_address filled)
  unfolding by_protocol packet_header
  arrive-transmit identification payload known unicast wide_a wide_b positive fits =
      let general = λ (protocol : ℕ).
        arrive-by_protocol identification protocol payload known unicast wide_a wide_b positive
          fits in
      let tail = padding_of (length payload) in
      (
        general 1 ∙ ap (λ l. to_icmp a.ip_address b.ip_address (payload ++ l)) tail,
        general 6 ∙ ap (λ l. to_tcp a.ip_address b.ip_address (payload ++ l)) tail,
        general 17 ∙ ap (λ l. to_udp a.ip_address b.ip_address (payload ++ l)) tail,
      )
