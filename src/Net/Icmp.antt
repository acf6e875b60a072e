-- ===== src/Net/Icmp.antt =====
-- src/network/icmp.c. A header keeps its fields as they lie in memory; the union of its last four
-- bytes is the identifier and the sequence number.
pub mod Echo
pub mod Reply
pub mod Statistics
pub mod Measure
use cgos.Base.{
  ℕ, zero, suc, ◌+◌, ◌-◌, ◌*◌, ◌/◌, ◌%◌, ◌^◌, Bool, true, false, not, ◌&&◌, List, [], ◌∷◌, ◌++◌,
  ltb, ◌==◌, if◌then◌else◌, length, Option, none, some, take,
}
use cgos.Net.Route.{Interface}
use cgos.Net.Arp.{ArpTable}
use cgos.Net.Checksum.{bswap16, add_words, add_carry, carry_rounds, complement}
use cgos.Net.Ip.{IpSent, handed, stored16, protocol_icmp, ip_send_packet}

-- `icmp_header_t`
pub record IcmpHeader : Type 0 where
  pub type : ℕ
  pub code : ℕ
  pub checksum : ℕ
  pub identifier : ℕ
  pub sequence : ℕ

-- ICMP_ECHO_REPLY, ICMP_DEST_UNREACHABLE, ICMP_ECHO_REQUEST
abbrev pub echo_reply : ℕ
echo_reply = 0

abbrev pub dest_unreachable : ℕ
dest_unreachable = 3

abbrev pub echo_request : ℕ
echo_request = 8

-- The size of the payload of `icmp_packet_t`.
abbrev pub max_payload : ℕ
max_payload = 1472

-- The eight bytes of a header.
unfoldable pub icmp_header_bytes : IcmpHeader → List ℕ
icmp_header_bytes h =
    h.type ∷ h.code ∷ stored16 h.checksum (stored16 h.identifier (stored16 h.sequence []))

unfoldable pub icmp_checksum : List ℕ → ℕ
unfolding add_words add_carry complement
icmp_checksum bytes = complement (add_carry carry_rounds (add_words bytes 0))

abbrev pub blank_checksum : IcmpHeader → IcmpHeader
blank_checksum h = record h { checksum = 0 }

-- The checksum of a header, whose own field is 0, and its payload is put into it.
unfoldable pub sealed : IcmpHeader → List ℕ → IcmpHeader
unfolding icmp_checksum icmp_header_bytes
sealed h payload = record h {
  checksum = icmp_checksum (icmp_header_bytes (blank_checksum h) ++ payload);
}

-- The header of an echo request or of its reply.
unfoldable pub echo_header : ℕ → ℕ → ℕ → List ℕ → IcmpHeader
unfolding sealed
echo_header type identifier sequence payload =
    sealed
      record {
        type = type;
        code = 0;
        checksum = 0;
        identifier = bswap16 identifier;
        sequence = bswap16 sequence;
      }
      payload

abbrev pub icmp_bytes : IcmpHeader → List ℕ → List ℕ
icmp_bytes h payload = icmp_header_bytes h ++ payload

-- The rest of the arguments is the table, the identification of the next IP packet, and the packet's
-- fields.
unfoldable pub icmp_send_echo_request : Interface → ArpTable → ℕ → ℕ → ℕ → ℕ → List ℕ → IpSent × ℕ
unfolding echo_header ip_send_packet icmp_header_bytes
icmp_send_echo_request iface t identification dest_ip identifier sequence bytes =
    let payload = take max_payload bytes in
    ip_send_packet iface t identification dest_ip protocol_icmp
      (icmp_bytes (echo_header echo_request identifier sequence payload) payload)

unfoldable pub icmp_send_echo_reply : Interface → ArpTable → ℕ → ℕ → ℕ → ℕ → List ℕ → IpSent × ℕ
unfolding echo_header ip_send_packet icmp_header_bytes
icmp_send_echo_reply iface t identification dest_ip identifier sequence bytes =
    let payload = take max_payload bytes in
    ip_send_packet iface t identification dest_ip protocol_icmp
      (icmp_bytes (echo_header echo_reply identifier sequence payload) payload)

unfoldable pub icmp_send_dest_unreachable : Interface → ArpTable → ℕ → ℕ → ℕ → List ℕ → IpSent × ℕ
unfolding sealed ip_send_packet icmp_header_bytes
icmp_send_dest_unreachable iface t identification dest_ip code original_packet =
    let payload = take max_payload original_packet in
    let h : IcmpHeader = record {
      type = dest_unreachable;
      code = code;
      checksum = 0;
      identifier = 0;
      sequence = 0;
    } in
    ip_send_packet iface t identification dest_ip protocol_icmp
      (icmp_bytes (sealed h payload) payload)

-- The statics that keep the last reply.
pub record Ping : Type 0 where
  pub ping_reply_received : Bool
  pub ping_reply_src_ip : ℕ
  pub ping_reply_seq : ℕ
  pub ping_send_time : ℕ
  pub ping_reply_time : ℕ

unfoldable pub icmp_init : Ping → Ping
icmp_init p = record p { ping_reply_received = false }

-- What a packet leads to: the reply that is sent, if any, the identification of the next IP packet
-- and the statics. `now` is timer_get_ticks. The checksum is computed over the header alone.
unfoldable pub icmp_process_packet :
    Interface → ArpTable → ℕ → ℕ → ℕ → IcmpHeader → Ping → (Option IpSent × ℕ) × Ping
unfolding icmp_checksum icmp_header_bytes icmp_send_echo_reply
icmp_process_packet iface t identification now src_ip h p =
    let reply : IpSent × ℕ =
      icmp_send_echo_reply iface t identification src_ip (bswap16 h.identifier) (bswap16 h.sequence)
        [] in
    if not (h.checksum == icmp_checksum (icmp_header_bytes (blank_checksum h)))
    then ((none, identification), p)
    else if h.type == echo_request
    then ((some reply.0, reply.1), p)
    else if h.type == echo_reply
    then (
      (none, identification),
      record p {
        ping_reply_received = true;
        ping_reply_src_ip = src_ip;
        ping_reply_seq = bswap16 h.sequence;
        ping_reply_time = now;
      },
    )
    else ((none, identification), p)
