-- ===== src/Net/Ip/Valid.antt =====
-- ip_validate_checksum of src/network/ip.c against the sum of the words of a header.
use cgos.Base.{ℕ, ◌+◌, ◌-◌, ◌*◌, ◌/◌, ◌%◌, ◌^◌, ◌<◌, ◌≡◌, ◌↔◌, ap, ◌∙◌, true, ◌==◌, arith, ==_iff}
use cgos.Net.Checksum.{
  ip_checksum, add_carry, complement, carry_rounds, word_sum, IsBytes, add_words-exact,
  add_carry-folds, add_carry-positive, word_sum-le,
}
use cgos.Net.Ip.{IpHeader, header_bytes, header_checksum, without_checksum, ip_validate_checksum}

-- The fields have the widths of their types, and the version is not 0.
pub record IsHeader (h : IpHeader) : Type 0 where
  pub version : (0 < h.version_ihl) × (h.version_ihl < 2 ^ 8)
  pub bytes : (h.tos < 2 ^ 8) × (h.ttl < 2 ^ 8) × (h.protocol < 2 ^ 8)
  pub checksum_word : h.checksum < 2 ^ 16

header_bytes-IsBytes : (h : IpHeader) → IsHeader h → IsBytes (header_bytes h)
unfolding header_bytes
header_bytes-IsBytes h k =
    let (_, v) = k.version in
    let (t, l, p) = k.bytes in
    (
      v,
      (
        t,
        (
          b _,
          (
            b _,
            (
              b _,
              (
                b _,
                (
                  b _,
                  (
                    b _,
                    (
                      l,
                      (p, (b _, (b _, (b _, (b _, (b _, (b _, (b _, (b _, (b _, (b _, tt))))))))))),
                    ),
                  ),
                ),
              ),
            ),
          ),
        ),
      ),
    )
  where
    b : (x : ℕ) → x % 2 ^ 8 < 256
    b x = omega arith

version_counts : (h : IpHeader) → IsHeader h → 0 < word_sum (header_bytes (without_checksum h))
unfolding header_bytes word_sum
version_counts h k = let (v, _) = k.version in omega arith

add_word :
    (a b c d e x f : ℕ)
    → x < 2 ^ 16
    → a + (b + (c + (d + (e + (x % 2 ^ 8 + x / 2 ^ 8 % 2 ^ 8 * 2 ^ 8 + f)))))
      ≡ a + (b + (c + (d + (e + (0 + f))))) + x
add_word a b c d e x f small = omega arith

-- The checksum is one of the words of the header.
word_sum-checksum :
    (h : IpHeader)
    → IsHeader h
    → word_sum (header_bytes h) ≡ word_sum (header_bytes (without_checksum h)) + h.checksum
unfolding header_bytes word_sum
word_sum-checksum h k = add_word _ _ _ _ _ h.checksum _ k.checksum_word

module _ (h : IpHeader) (k : IsHeader h) where
  abbrev sum : ℕ
  sum = word_sum (header_bytes (without_checksum h))

  plain-IsHeader : IsHeader (without_checksum h)
  plain-IsHeader = record { version = k.version; bytes = k.bytes; checksum_word = omega arith }

  sum-lt : sum < 2 ^ 32
  unfolding header_bytes
  sum-lt = omega (
    arith,
    word_sum-le (header_bytes (without_checksum h))
        (header_bytes-IsBytes (without_checksum h) plain-IsHeader),
  )

  header_checksum-sum : header_checksum h ≡ complement (add_carry carry_rounds sum)
  unfolding header_checksum ip_checksum header_bytes
  header_checksum-sum =
      let alone : 0 + sum ≡ sum = omega arith in
      ap (λ (n : ℕ). complement (add_carry carry_rounds n))
        (add_words-exact (header_bytes (without_checksum h)) 0
            (header_bytes-IsBytes (without_checksum h) plain-IsHeader) (omega arith)
          ∙ alone)

  balanced :
      (f c : ℕ)
      → 0 < f
      → f < 2 ^ 16
      → f % 65535 ≡ sum % 65535
      → ((c == 2 ^ 16 - 1 - f % 2 ^ 16) ≡ true) ↔ (((sum + c) % 65535 ≡ 0) × (c < 65535))
  balanced f c positive small same = (
    λ e. let d = (==_iff c (2 ^ 16 - 1 - f % 2 ^ 16)).0 e in (omega arith, omega arith),
    λ (e, lt). (==_iff c (2 ^ 16 - 1 - f % 2 ^ 16)).1 (omega arith),
  )

  -- ip_validate_checksum accepts a header exactly when its ten words add up to a multiple of
  -- 2 ^ 16 - 1 and its checksum is not 0xFFFF, if the fields have their widths and the version field
  -- is not 0.
  pub validate_checksum-balanced :
      (ip_validate_checksum h ≡ true)
      ↔ ((word_sum (header_bytes h) % 65535 ≡ 0) × (h.checksum < 65535))
  unfolding ip_validate_checksum complement
  validate_checksum-balanced =
      let (small, same) = add_carry-folds sum sum-lt in
      rw (word_sum-checksum h k, header_checksum-sum)
        (balanced (add_carry carry_rounds sum) h.checksum
          (add_carry-positive carry_rounds sum (version_counts h k)) small same)
