-- ===== src/Net/Icmp/Reply.antt =====
-- The answer to an echo request without data of src/network/icmp.c, and the record of a reply.
use cgos.Base.{
  ℕ, ◌+◌, ◌/◌, ◌%◌, ◌^◌, ◌<◌, ◌≡◌, ◌≢◌, refl, sym, ap, subst, ◌∙◌, true, false, List, [], ◌∷◌, ◌++◌,
  ◌==◌, Option, none, some, arith,
}
use cgos.Net.Route.{Interface}
use cgos.Net.Arp.{ArpTable, arp_lookup}
use cgos.Net.Checksum.{bswap16, word_sum, complement}
use cgos.Net.Ip.{
  IpHeader, IpSent, handed, bswap32, broadcast_ip, stored16, packet_header, ip_send_packet,
}
use cgos.Net.Icmp.{
  IcmpHeader, Ping, echo_request, echo_reply, icmp_header_bytes, icmp_checksum, blank_checksum,
  sealed, echo_header, icmp_send_echo_reply, icmp_process_packet,
}
use cgos.Net.Icmp.Echo.{
  bswap16_back, header-IsBytes, icmp_checksum-complements, echo_header_valid, answers_request,
  records_reply,
}

-- The eight bytes of an echo reply, in network order.
abbrev pub reply_bytes : ℕ → ℕ → ℕ → List ℕ
reply_bytes checksum identifier sequence =
    0
    ∷ 0
    ∷ checksum % 256
    ∷ checksum / 256 % 256
    ∷ identifier / 256
    ∷ identifier % 256
    ∷ sequence / 256
    ∷ sequence % 256
    ∷ []

swapped :
    (x : ℕ) (rest : List ℕ) → x < 2 ^ 16 → stored16 (bswap16 x) rest ≡ x / 256 ∷ x % 256 ∷ rest
swapped x rest small =
    let low : bswap16 x % 256 ≡ x / 256 = omega arith in
    let high : bswap16 x / 256 % 256 ≡ x % 256 = omega arith in λ i. low i ∷ high i ∷ rest

reply-bytes :
    (identifier sequence : ℕ)
    → identifier < 2 ^ 16
    → sequence < 2 ^ 16
    → icmp_header_bytes (echo_header echo_reply identifier sequence [])
      ≡ reply_bytes (echo_header echo_reply identifier sequence []).checksum identifier sequence
unfolding echo_header sealed icmp_header_bytes
reply-bytes identifier sequence small small' =
    let c : ℕ = (echo_header echo_reply identifier sequence []).checksum in
    ap (λ l. 0 ∷ 0 ∷ c % 256 ∷ c / 256 % 256 ∷ l)
      (swapped identifier (stored16 (bswap16 sequence) []) small
        ∙ ap (λ l. identifier / 256 ∷ identifier % 256 ∷ l) (swapped sequence [] small'))

header_alone : (h : IcmpHeader) → icmp_header_bytes h ++ [] ≡ icmp_header_bytes h
unfolding icmp_header_bytes
header_alone h = refl

icmp_checksum-lt : (bytes : List ℕ) → icmp_checksum bytes < 2 ^ 16
unfolding icmp_checksum complement
icmp_checksum-lt bytes = omega arith

-- The words of the reply add up to a multiple of 2 ^ 16 - 1.
reply-balanced :
    (identifier sequence : ℕ)
    → word_sum (icmp_header_bytes (echo_header echo_reply identifier sequence [])) % 65535 ≡ 0
unfolding echo_header sealed icmp_header_bytes word_sum
reply-balanced identifier sequence =
    let h = blank_checksum (echo_header echo_reply identifier sequence []) in
    let bytes = icmp_header_bytes h in
    let whole =
      icmp_checksum-complements bytes (header-IsBytes h [] (omega arith) (omega arith) tt)
        (omega arith) in
    let small = icmp_checksum-lt bytes in omega (arith, whole, small)

module _ (iface : Interface) (t : ArpTable) (identification now src_ip : ℕ) (p : Ping) where
  -- One packet is sent to the sender of the request: the reply with these numbers.
  abbrev pub Answers : ℕ → ℕ → List ℕ → (Option IpSent × ℕ) × Ping → Type 0
  Answers identifier sequence mac r =
      (h : IpHeader) × (checksum : ℕ) × (r ≡ (
        (
          some (handed mac h (reply_bytes checksum identifier sequence)),
          (identification + 1) % 2 ^ 16,
        ),
        p,
      ))
      × (h.protocol ≡ 1)
      × (bswap32 h.dest_ip ≡ src_ip)
      × (word_sum (reply_bytes checksum identifier sequence) % 65535 ≡ 0)

  answer-Answers :
      (identifier sequence : ℕ) (mac : List ℕ)
      → identifier < 2 ^ 16
      → sequence < 2 ^ 16
      → src_ip < 2 ^ 32
      → src_ip ≢ broadcast_ip
      → arp_lookup t src_ip ≡ some mac
      → let answer = icmp_send_echo_reply iface t identification src_ip identifier sequence [] in
        Answers identifier sequence mac ((some answer.0, answer.1), p)
  unfolding icmp_send_echo_reply ip_send_packet packet_header bswap32
  answer-Answers identifier sequence mac small small' wide unicast known =
      let checksum : ℕ = (echo_header echo_reply identifier sequence []).checksum in
      let h : IpHeader = packet_header iface identification src_ip 1 8 in
      let e = reply-bytes identifier sequence small small' in
      let sent : ip_send_packet iface t identification src_ip 1
            (reply_bytes checksum identifier sequence)
          ≡ (
            handed mac h (reply_bytes checksum identifier sequence),
            (identification + 1) % 2 ^ 16,
          ) =
        (let u : (src_ip == broadcast_ip) ≡ false = ground arith in rw (u, known) refl) in
      (
        h,
        checksum,
        ap (λ l. let r = ip_send_packet iface t identification src_ip 1 l in ((some r.0, r.1), p))
              (header_alone (echo_header echo_reply identifier sequence []) ∙ e)
            ∙ ap (λ r. ((some r.0, r.1), p)) sent,
        refl,
        omega arith,
        subst (λ l. word_sum l % 65535 ≡ 0) e (reply-balanced identifier sequence),
      )

  -- An echo request without data, from a 32-bit address that has a hardware address in the table and
  -- is not the broadcast address, is answered with one packet of protocol 1 to that address: the eight
  -- bytes of an echo reply with the identifier and the sequence number of the request and a checksum
  -- that makes their words add up to a multiple of 2 ^ 16 - 1. A reply without data is recorded with
  -- its sender, its sequence number and the time. Both numbers have 16 bits.
  pub process_packet-echo_header :
      (identifier sequence : ℕ) (mac : List ℕ)
      → identifier < 2 ^ 16
      → sequence < 2 ^ 16
      → src_ip < 2 ^ 32
      → src_ip ≢ broadcast_ip
      → arp_lookup t src_ip ≡ some mac
      → let request = echo_header echo_request identifier sequence [] in
        let reply = echo_header echo_reply identifier sequence [] in
        Answers identifier sequence mac
          (icmp_process_packet iface t identification now src_ip request p)
        × (icmp_process_packet iface t identification now src_ip reply p ≡ (
          (none, identification),
          record p {
            ping_reply_received = true;
            ping_reply_src_ip = src_ip;
            ping_reply_seq = sequence;
            ping_reply_time = now;
          },
        ))
  unfolding echo_header sealed
  process_packet-echo_header identifier sequence mac small small' wide unicast known =
      let request = echo_header echo_request identifier sequence [] in
      let reply = echo_header echo_reply identifier sequence [] in
      let back = bswap16_back identifier small in
      let back' = bswap16_back sequence small' in
      let answer = λ (x y : ℕ). icmp_send_echo_reply iface t identification src_ip x y [] in
      (
        subst (Answers identifier sequence mac)
            (sym (
              answers_request iface t identification now src_ip p request
                (echo_header_valid echo_request identifier sequence) refl
              ∙ λ i. ((some (answer (back i) (back' i)).0, (answer (back i) (back' i)).1), p)))
            (answer-Answers identifier sequence mac small small' wide unicast known),
        records_reply iface t identification now src_ip p reply
              (echo_header_valid echo_reply identifier sequence) refl refl
            ∙ λ i. (
              (none, identification),
              record p {
                ping_reply_received = true;
                ping_reply_src_ip = src_ip;
                ping_reply_seq = back' i;
                ping_reply_time = now;
              },
            ),
      )
