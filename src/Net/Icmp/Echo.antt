-- ===== src/Net/Icmp/Echo.antt =====
-- The answer to an echo request of src/network/icmp.c, and the record of the answer.
use cgos.Base.{
  ℕ, ◌+◌, ◌%◌, ◌^◌, ◌<◌, ◌≤◌, ◌≡◌, ◌≢◌, inl, inr, refl, sym, ap, ◌∙◌, Bool, true, false, List, [],
  ◌++◌, ◌==◌, length, none, some, arith, ==_iff, Bool-cases,
}
use cgos.Net.Route.{Interface}
use cgos.Net.Arp.{ArpTable}
use cgos.Net.Checksum.{
  bswap16, word_sum, IsBytes, add_carry, carry_rounds, complement, add_words-exact,
  complement-folds, word_sum-le,
}
use cgos.Net.Icmp.{
  IcmpHeader, Ping, echo_request, echo_reply, icmp_header_bytes, icmp_checksum, blank_checksum,
  sealed, echo_header, icmp_send_echo_reply, icmp_process_packet,
}

pub bswap16_back : (x : ℕ) → x < 2 ^ 16 → bswap16 (bswap16 x) ≡ x
bswap16_back x small = omega arith

-- The test of the checksum in icmp_process_packet.
abbrev valid : IcmpHeader → Bool
valid h = h.checksum == icmp_checksum (icmp_header_bytes (blank_checksum h))

pub echo_header_valid :
    (type identifier sequence : ℕ) → valid (echo_header type identifier sequence []) ≡ true
unfolding echo_header sealed icmp_header_bytes
echo_header_valid type identifier sequence =
    let h = blank_checksum (echo_header type identifier sequence []) in
    (==_iff (icmp_checksum (icmp_header_bytes h)) (icmp_checksum (icmp_header_bytes h))).1 refl

pub icmp_checksum-complements :
    (bytes : List ℕ)
    → IsBytes bytes
    → length bytes < 65000
    → (icmp_checksum bytes + word_sum bytes) % 65535 ≡ 0
unfolding icmp_checksum
icmp_checksum-complements bytes h small =
    let bound = word_sum-le bytes h in
    let alone : 0 + word_sum bytes ≡ word_sum bytes = omega arith in
    let exact = add_words-exact bytes 0 h (omega arith) ∙ alone in
    ap (λ (n : ℕ). (complement (add_carry carry_rounds n) + word_sum bytes) % 65535) exact
    ∙ complement-folds (word_sum bytes) (omega arith)

add_tail : (a b c d e : ℕ) → a + (b + (c + (d + e))) ≡ a + (b + (c + (d + 0))) + e
add_tail a b c d e = omega arith

word_sum-header :
    (h : IcmpHeader) (payload : List ℕ)
    → word_sum (icmp_header_bytes h ++ payload) ≡ word_sum (icmp_header_bytes h) + word_sum payload
unfolding icmp_header_bytes word_sum
word_sum-header h payload = add_tail _ _ _ _ (word_sum payload)

pub header-IsBytes :
    (h : IcmpHeader) (payload : List ℕ)
    → h.type < 256
    → h.code < 256
    → IsBytes payload
    → IsBytes (icmp_header_bytes h ++ payload)
unfolding icmp_header_bytes
header-IsBytes h payload t c k = (t, (c, (b _, (b _, (b _, (b _, (b _, (b _, k))))))))
  where
    b : (x : ℕ) → x % 2 ^ 8 < 256
    b x = omega arith

-- Data whose words do not add up to a multiple of 2 ^ 16 - 1 make the header's checksum another one
-- than that of the header alone.
echo_header_invalid :
    (type identifier sequence : ℕ) (payload : List ℕ)
    → type < 256
    → IsBytes payload
    → length payload ≤ 1472
    → word_sum payload % 65535 ≢ 0
    → valid (echo_header type identifier sequence payload) ≡ false
unfolding echo_header sealed icmp_header_bytes
echo_header_invalid type identifier sequence payload byte k fits holds =
    let h = blank_checksum (echo_header type identifier sequence payload) in
    let bytes = icmp_header_bytes h in
    let split = word_sum-header h payload in
    let whole =
      icmp_checksum-complements (bytes ++ payload) (header-IsBytes h payload byte (omega arith) k)
        (omega arith) in
    let alone =
      icmp_checksum-complements bytes (header-IsBytes h [] byte (omega arith) tt) (omega arith) in
    differ (icmp_checksum (bytes ++ payload)) (icmp_checksum bytes) (word_sum bytes)
      (word_sum payload)
      (ap (λ (n : ℕ). (icmp_checksum (bytes ++ payload) + n) % 65535) (sym split) ∙ whole) alone
      holds
  where
    differ :
        (c d a b : ℕ)
        → (c + (a + b)) % 65535 ≡ 0
        → (d + a) % 65535 ≡ 0
        → b % 65535 ≢ 0
        → (c == d) ≡ false
    differ c d a b whole alone holds = elim (Bool-cases (c == d)) [
      | inr n ↦ n
      | inl e ↦ absurd (holds (let same = (==_iff c d).0 e in omega arith))
    ]

module _ (iface : Interface) (t : ArpTable) (identification now src_ip : ℕ) (p : Ping) where
  pub answers_request :
      (h : IcmpHeader)
      → valid h ≡ true
      → (h.type == echo_request) ≡ true
      → let answer =
          icmp_send_echo_reply iface t identification src_ip
            (bswap16 h.identifier)
            (bswap16 h.sequence)
            [] in
        icmp_process_packet iface t identification now src_ip h p ≡ ((some answer.0, answer.1), p)
  unfolding icmp_process_packet
  answers_request h v e = rw (v, e) refl

  pub records_reply :
      (h : IcmpHeader)
      → valid h ≡ true
      → (h.type == echo_request) ≡ false
      → (h.type == echo_reply) ≡ true
      → icmp_process_packet iface t identification now src_ip h p ≡ (
        (none, identification),
        record p {
          ping_reply_received = true;
          ping_reply_src_ip = src_ip;
          ping_reply_seq = bswap16 h.sequence;
          ping_reply_time = now;
        },
      )
  unfolding icmp_process_packet
  records_reply h v n e = rw (v, n, e) refl

  drops_invalid :
      (h : IcmpHeader)
      → valid h ≡ false
      → icmp_process_packet iface t identification now src_ip h p ≡ ((none, identification), p)
  unfolding icmp_process_packet
  drops_invalid h v = rw v refl

  -- An echo request or a reply with at most 1472 bytes of data, whose words do not add up to a
  -- multiple of 2 ^ 16 - 1, is dropped: nothing is sent and nothing is recorded.
  pub process_packet-drops_data :
      (type identifier sequence : ℕ) (payload : List ℕ)
      → type < 256
      → IsBytes payload
      → length payload ≤ 1472
      → word_sum payload % 65535 ≢ 0
      → icmp_process_packet iface t identification now src_ip
          (echo_header type identifier sequence payload)
          p
        ≡ ((none, identification), p)
  process_packet-drops_data type identifier sequence payload byte k fits holds =
      drops_invalid (echo_header type identifier sequence payload)
        (echo_header_invalid type identifier sequence payload byte k fits holds)
