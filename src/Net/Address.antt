-- ===== src/Net/Address.antt =====
-- ip_str_to_addr and ip_addr_to_str of src/network/ip.c. A string is the list of its characters
-- before the terminator.
use cgos.Base.{
  ℕ, ◌+◌, ◌-◌, ◌*◌, ◌/◌, ◌%◌, ◌^◌, ◌<◌, ◌≡◌, inl, inr, sym, ap, ◌∙◌, ◌&&◌, List, [], ◌∷◌, ◌++◌,
  arith, ltb, leb, ◌==◌, if◌then◌else◌, Option, none, some, bit_or, get_or, set, Bool-cases, tests,
}
use mathlib.Core.List.{append-nil}
use cgos.Base.Or.{shl, bit_or-shl}

-- The digits of one octet.
unfoldable pub print_octet : ℕ → List ℕ
print_octet val =
    if leb 100 val
    then (48 + val / 100) ∷ (48 + val % 100 / 10) ∷ (48 + val % 100 % 10) ∷ []
    else if leb 10 val
    then (48 + val / 10) ∷ (48 + val % 10) ∷ []
    else (48 + val) ∷ []

unfoldable pub ip_addr_to_str : ℕ → List ℕ
unfolding print_octet
ip_addr_to_str ip_addr =
    print_octet (ip_addr / 2 ^ 24 % 256)
    ++ (46
        ∷ (print_octet (ip_addr / 2 ^ 16 % 256)
            ++ (46 ∷ (print_octet (ip_addr / 2 ^ 8 % 256) ++ (46 ∷ print_octet (ip_addr % 256))))))

-- The loop over the characters. It ends at the fourth octet even if characters are left; none
-- stands for its return of 0.
unfoldable pub parse : List ℕ → List ℕ → ℕ → ℕ → Option (List ℕ × (ℕ × ℕ))
parse [] octets octet_idx current = some (octets, (octet_idx, current))
parse (p ∷ ps) octets octet_idx current =
    let value : ℕ = (current * 10 + (p - 48)) % 2 ^ 32 in
    let digit = parse ps octets octet_idx value in
    let dot = parse ps (set octets octet_idx current) (octet_idx + 1) 0 in
    if ltb octet_idx 4
    then (if leb 48 p && leb p 57
        then (if ltb 255 value then none else digit)
        else if p == 46
        then dot
        else none)
    else some (octets, (octet_idx, current))

-- The number of the four octets, after the last one is stored.
unfoldable pub combine : Option (List ℕ × (ℕ × ℕ)) → ℕ
combine none = 0
combine (some (octets, (octet_idx, current))) =
    let stored : List ℕ = if ltb octet_idx 4 then set octets octet_idx current else octets in
    if octet_idx == 3
    then bit_or (shl (get_or stored 0 0) 24 % 2 ^ 32) (
        bit_or (shl (get_or stored 1 0) 16 % 2 ^ 32)
          (bit_or (shl (get_or stored 2 0) 8 % 2 ^ 32) (get_or stored 3 0)))
    else 0

unfoldable pub ip_str_to_addr : List ℕ → ℕ
unfolding parse combine
ip_str_to_addr ip_str = combine (parse ip_str (0 ∷ 0 ∷ 0 ∷ 0 ∷ []) 0 0)

-- One digit read.
parse_digit :
    (d : ℕ) (ps octets : List ℕ) (i c : ℕ)
    → i < 4
    → d < 10
    → c * 10 + d < 256
    → parse ((48 + d) ∷ ps) octets i c ≡ parse ps octets i (c * 10 + d)
unfolding parse
parse_digit d ps octets i c hi hd hc =
    let v : (c * 10 + (48 + d - 48)) % 2 ^ 32 ≡ c * 10 + d = omega arith in rw v (ground arith)

parse_dot :
    (ps octets : List ℕ) (i c : ℕ)
    → i < 4
    → parse (46 ∷ ps) octets i c ≡ parse ps (set octets i c) (i + 1) 0
unfolding parse
parse_dot ps octets i c hi = ground arith

parse_octet :
    (v : ℕ) (ps octets : List ℕ) (i : ℕ)
    → i < 4
    → v < 256
    → parse (print_octet v ++ ps) octets i 0 ≡ parse ps octets i v
unfolding print_octet
parse_octet v ps octets i hi hv = elim (Bool-cases (leb 100 v)) [
  | inl a ↦ rw a (
      parse_digit (v / 100) _ octets i 0 hi (omega (tests, a)) (omega arith)
      ∙ parse_digit (v % 100 / 10) _ octets i (0 * 10 + v / 100) hi (omega arith) (omega arith)
      ∙ parse_digit (v % 100 % 10) ps octets i ((0 * 10 + v / 100) * 10 + v % 100 / 10) hi
          (omega arith) (omega arith)
      ∙ ap (λ (n : ℕ). parse ps octets i n) (omega arith))
  | inr a ↦ elim (Bool-cases (leb 10 v)) [
    | inl b ↦
        let s : v < 100 = ground arith in
        rw (a, b)
          (parse_digit (v / 10) _ octets i 0 hi (omega arith) (omega arith)
            ∙ parse_digit (v % 10) ps octets i (0 * 10 + v / 10) hi (omega arith) (omega arith)
            ∙ ap (λ (n : ℕ). parse ps octets i n) (omega arith))
    | inr b ↦
        let s : v < 10 = ground arith in
        rw (a, b)
          (parse_digit v ps octets i 0 hi s (omega arith)
            ∙ ap (λ (n : ℕ). parse ps octets i n) (omega arith))
  ]
]

-- The text of an octet at the end of the string.
parse_last :
    (v : ℕ) (octets : List ℕ) (i : ℕ)
    → i < 4
    → v < 256
    → parse (print_octet v) octets i 0 ≡ some (octets, (i, v))
unfolding parse
parse_last v octets i hi hv =
    ap (λ l. parse l octets i 0) (sym (append-nil (print_octet v)))
    ∙ parse_octet v [] octets i hi hv

module _ (a b c d : ℕ) (ha : a < 256) (hb : b < 256) (hc : c < 256) (hd : d < 256) where
  pub parse_four :
      parse
        (print_octet a ++ (46 ∷ (print_octet b ++ (46 ∷ (print_octet c ++ (46 ∷ print_octet d))))))
        (0 ∷ 0 ∷ 0 ∷ 0 ∷ [])
        0
        0
      ≡ some (a ∷ b ∷ c ∷ 0 ∷ [], (3, d))
  parse_four =
      parse_octet a _ (0 ∷ 0 ∷ 0 ∷ 0 ∷ []) 0 (omega arith) ha
      ∙ parse_dot _ (0 ∷ 0 ∷ 0 ∷ 0 ∷ []) 0 a (omega arith)
      ∙ parse_octet b _ (a ∷ 0 ∷ 0 ∷ 0 ∷ []) 1 (omega arith) hb
      ∙ parse_dot _ (a ∷ 0 ∷ 0 ∷ 0 ∷ []) 1 b (omega arith)
      ∙ parse_octet c _ (a ∷ b ∷ 0 ∷ 0 ∷ []) 2 (omega arith) hc
      ∙ parse_dot _ (a ∷ b ∷ 0 ∷ 0 ∷ []) 2 c (omega arith)
      ∙ parse_last d (a ∷ b ∷ c ∷ 0 ∷ []) 3 (omega arith) hd

  pub combine_four :
      combine (some (a ∷ b ∷ c ∷ 0 ∷ [], (3, d))) ≡ a * 2 ^ 24 + b * 2 ^ 16 + c * 2 ^ 8 + d
  unfolding combine
  combine_four =
      let x = bit_or-shl 8 c d (omega arith) in
      let y = bit_or-shl 16 b (c * 2 ^ 8 + d) (omega arith) in
      let z = bit_or-shl 24 a (b * 2 ^ 16 + (c * 2 ^ 8 + d)) (omega arith) in
      let sa : shl a 24 % 2 ^ 32 ≡ shl a 24 = omega arith in
      let sb : shl b 16 % 2 ^ 32 ≡ shl b 16 = omega arith in
      let sc : shl c 8 % 2 ^ 32 ≡ shl c 8 = omega arith in
      let x' : bit_or (shl c 8) d ≡ c * 2 ^ 8 + d = omega (arith, x) in
      let y' : bit_or (shl b 16) (c * 2 ^ 8 + d) ≡ b * 2 ^ 16 + (c * 2 ^ 8 + d) =
        omega (arith, y) in
      let z' : bit_or (shl a 24) (b * 2 ^ 16 + (c * 2 ^ 8 + d))
          ≡ a * 2 ^ 24 + b * 2 ^ 16 + c * 2 ^ 8 + d =
        omega (arith, z) in
      rw (sa, sb, sc, x', y') z'

-- An address printed and read back is the same address.
pub str_to_addr-addr_to_str : (a : ℕ) → a < 2 ^ 32 → ip_str_to_addr (ip_addr_to_str a) ≡ a
unfolding ip_str_to_addr ip_addr_to_str
str_to_addr-addr_to_str a h =
    let w = a / 2 ^ 24 % 256 in
    let x = a / 2 ^ 16 % 256 in
    let y = a / 2 ^ 8 % 256 in
    let z = a % 256 in
    ap combine (parse_four w x y z (omega arith) (omega arith) (omega arith) (omega arith))
    ∙ combine_four w x y z (omega arith) (omega arith) (omega arith) (omega arith)
    ∙ omega arith
