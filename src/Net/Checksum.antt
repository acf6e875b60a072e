-- ===== src/Net/Checksum.antt =====
-- The checksums of src/network/ip.c, udp.c and tcp.c. A datagram is the list of its bytes, which a
-- little-endian machine reads in words of 16 bits.
use cgos.Base.{
  ℕ, zero, suc, ◌+◌, ◌-◌, ◌*◌, ◌/◌, ◌%◌, ◌^◌, ◌<◌, ◌≤◌, ◌≡◌, refl, ap, ◌∙◌, List, [], ◌∷◌, arith,
  ◌==◌, if◌then◌else◌, length, dec_lt,
}

-- __builtin_bswap16
abbrev pub bswap16 : ℕ → ℕ
bswap16 x = x % 2 ^ 8 * 2 ^ 8 + x / 2 ^ 8 % 2 ^ 8

-- The loop over the words of a datagram, and its odd byte.
unfoldable pub add_words : List ℕ → ℕ → ℕ
add_words [] sum = sum
add_words (b ∷ []) sum = (sum + b * 2 ^ 8) % 2 ^ 32
add_words (a ∷ b ∷ rest) sum = add_words rest ((sum + (a + b * 2 ^ 8)) % 2 ^ 32)

-- The loop that adds the carry, with a bound on its rounds.
unfoldable pub add_carry : ℕ → ℕ → ℕ
add_carry zero sum = sum
add_carry (suc n) sum =
    let rest = add_carry n (sum % 2 ^ 16 + sum / 2 ^ 16) in if sum / 2 ^ 16 == 0 then sum else rest

-- Three rounds are enough for a sum of 32 bits.
abbrev pub carry_rounds : ℕ
carry_rounds = 3

-- `return ~sum`
unfoldable pub complement : ℕ → ℕ
complement sum = 2 ^ 16 - 1 - sum % 2 ^ 16

unfoldable pub pseudo_header : ℕ → ℕ → ℕ → ℕ → ℕ
pseudo_header src_ip dest_ip protocol len =
    src_ip / 2 ^ 16 % 2 ^ 16
    + src_ip % 2 ^ 16
    + dest_ip / 2 ^ 16 % 2 ^ 16
    + dest_ip % 2 ^ 16
    + bswap16 protocol
    + bswap16 (len % 2 ^ 16)

unfoldable pub ip_checksum : List ℕ → ℕ
unfolding add_words add_carry complement
ip_checksum header = complement (add_carry carry_rounds (add_words header 0))

unfoldable pub udp_checksum : List ℕ → ℕ → ℕ → ℕ
unfolding add_words add_carry complement pseudo_header
udp_checksum bytes src_ip dest_ip =
    complement
      (add_carry carry_rounds (add_words bytes (pseudo_header src_ip dest_ip 17 (length bytes))))

unfoldable pub tcp_checksum : List ℕ → ℕ → ℕ → ℕ
unfolding add_words add_carry complement pseudo_header
tcp_checksum bytes src_ip dest_ip =
    complement
      (add_carry carry_rounds (add_words bytes (pseudo_header src_ip dest_ip 6 (length bytes))))

-- The exact sum of the words.
unfoldable pub word_sum : List ℕ → ℕ
word_sum [] = 0
word_sum (b ∷ []) = b * 2 ^ 8
word_sum (a ∷ b ∷ rest) = a + b * 2 ^ 8 + word_sum rest

abbrev pub IsBytes : List ℕ → Type 0
IsBytes [] = Unit
IsBytes (b ∷ bs) = (b < 256) × IsBytes bs

-- A datagram of fewer than 2 ^ 16 bytes does not overflow the sum.
pub add_words-exact :
    (bytes : List ℕ) (sum : ℕ)
    → IsBytes bytes
    → sum + length bytes * 2 ^ 16 < 2 ^ 32
    → add_words bytes sum ≡ sum + word_sum bytes
unfolding add_words word_sum
add_words-exact [] sum h small = omega arith
add_words-exact (b ∷ []) sum h small = let k = h.0 in omega arith
add_words-exact (a ∷ b ∷ rest) sum h small =
    let ka = h.0 in
    let kb = h.1.0 in
    let step : (sum + (a + b * 2 ^ 8)) % 2 ^ 32 ≡ sum + (a + b * 2 ^ 8) = omega arith in
    omega (
      arith,
      ap (λ (n : ℕ). add_words rest n) step,
      add_words-exact rest (sum + (a + b * 2 ^ 8)) h.1.1 (omega arith),
    )

carry_step :
    (n sum : ℕ) → 2 ^ 16 ≤ sum → add_carry (suc n) sum ≡ add_carry n (sum % 2 ^ 16 + sum / 2 ^ 16)
unfolding add_carry
carry_step n sum h = ground arith

carry_done : (n sum : ℕ) → sum < 2 ^ 16 → add_carry n sum ≡ sum
unfolding add_carry
carry_done zero sum h = refl
carry_done (suc n) sum h = ground arith

-- The sum of a positive number stays positive.
pub add_carry-positive : (n sum : ℕ) → 0 < sum → 0 < add_carry n sum
unfolding add_carry
add_carry-positive zero sum h = h
add_carry-positive (suc n) sum h =
    let more = add_carry-positive n (sum % 2 ^ 16 + sum / 2 ^ 16) (omega arith) in ground arith

fold_mod : (s : ℕ) → (s % 2 ^ 16 + s / 2 ^ 16) % 65535 ≡ s % 65535
fold_mod s = omega arith

-- Three rounds leave no carry, and keep the sum modulo 2 ^ 16 - 1.
pub add_carry-folds :
    (sum : ℕ)
    → sum < 2 ^ 32
    → (add_carry carry_rounds sum < 2 ^ 16) × (add_carry carry_rounds sum % 65535 ≡ sum % 65535)
add_carry-folds sum h =
    let once = sum % 2 ^ 16 + sum / 2 ^ 16 in
    let twice = once % 2 ^ 16 + once / 2 ^ 16 in
    elim (dec_lt sum (2 ^ 16)) [
      | yes small ↦
          let e = carry_done 3 sum small in (omega (arith, e), ap (λ (n : ℕ). n % 65535) e)
      | no big ↦ elim (dec_lt once (2 ^ 16)) [
        | yes small ↦
            let e = carry_step 2 sum (omega arith) ∙ carry_done 2 once small in
            (omega (arith, e), ap (λ (n : ℕ). n % 65535) e ∙ fold_mod sum)
        | no big' ↦
            let e =
              carry_step 2 sum (omega arith)
              ∙ carry_step 1 once (omega arith)
              ∙ carry_done 1 twice (omega arith) in
            (omega (arith, e), ap (λ (n : ℕ). n % 65535) e ∙ fold_mod once ∙ fold_mod sum)
      ]
    ]

pub complement-folds :
    (sum : ℕ) → sum < 2 ^ 32 → (complement (add_carry carry_rounds sum) + sum) % 65535 ≡ 0
unfolding complement
complement-folds sum h = let f = add_carry-folds sum h in go (add_carry carry_rounds sum) f.0 f.1
  where
    go :
        (c : ℕ) → c < 2 ^ 16 → c % 65535 ≡ sum % 65535 → (2 ^ 16 - 1 - c % 2 ^ 16 + sum) % 65535 ≡ 0
    go c small e = omega arith

pub word_sum-le : (bytes : List ℕ) → IsBytes bytes → word_sum bytes ≤ length bytes * 2 ^ 16
unfolding word_sum
word_sum-le [] h = omega arith
word_sum-le (b ∷ []) h = let k = h.0 in omega arith
word_sum-le (a ∷ b ∷ rest) h =
    let ka = h.0 in let kb = h.1.0 in omega (arith, word_sum-le rest h.1.1)

pseudo_header-lt :
    (src dest protocol len : ℕ) → protocol < 2 ^ 8 → pseudo_header src dest protocol len < 2 ^ 20
unfolding pseudo_header
pseudo_header-lt src dest protocol len h = omega arith

module _ (bytes : List ℕ) (src dest protocol : ℕ) (h : IsBytes bytes) (small : length bytes < 65000)
    (byte : protocol < 2 ^ 8) where
  abbrev total : ℕ
  total = pseudo_header src dest protocol (length bytes)

  checksum-complements :
      (complement (add_carry carry_rounds (add_words bytes total)) + (total + word_sum bytes))
        % 65535
      ≡ 0
  checksum-complements =
      let p = pseudo_header-lt src dest protocol (length bytes) byte in
      let w = word_sum-le bytes h in
      let exact = add_words-exact bytes total h (omega arith) in
      ap (λ (n : ℕ). (complement (add_carry carry_rounds n) + (total + word_sum bytes)) % 65535)
        exact
      ∙ complement-folds (total + word_sum bytes) (omega arith)

-- The checksum of a UDP datagram and of a TCP segment of fewer than 65,000 bytes, added to the sum
-- of its words and of its pseudo header, gives a multiple of 2 ^ 16 - 1, which is 0 in one's
-- complement arithmetic.
pub checksums-complement :
    (bytes : List ℕ) (src_ip dest_ip : ℕ)
    → IsBytes bytes
    → length bytes < 65000
    → ((udp_checksum bytes src_ip dest_ip
            + (pseudo_header src_ip dest_ip 17 (length bytes) + word_sum bytes))
          % 65535
        ≡ 0)
      × ((tcp_checksum bytes src_ip dest_ip
              + (pseudo_header src_ip dest_ip 6 (length bytes) + word_sum bytes))
            % 65535
          ≡ 0)
unfolding udp_checksum tcp_checksum
checksums-complement bytes src dest h small = (
  checksum-complements bytes src dest 17 h small (omega arith),
  checksum-complements bytes src dest 6 h small (omega arith),
)
