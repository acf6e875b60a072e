-- ===== src/Net/Socket/Text.antt =====
-- inet_addr and inet_ntoa of src/network/socket.c.
use cgos.Base.{ℕ, ◌+◌, ◌*◌, ◌/◌, ◌%◌, ◌^◌, ◌<◌, ◌≡◌, ap, ◌∙◌, arith}
use cgos.Net.Address.{ip_addr_to_str, parse_four, combine_four}
use cgos.Net.Ip.{bswap32}
use cgos.Net.Socket.Calls.{htonl, ntohl, combine_net, inet_addr, inet_ntoa}

-- A 32-bit address in network order that inet_ntoa prints is read back by inet_addr.
pub inet_addr-inet_ntoa : (addr : ℕ) → addr < 2 ^ 32 → inet_addr (inet_ntoa addr) ≡ addr
unfolding inet_addr inet_ntoa ip_addr_to_str combine_net ntohl htonl bswap32
inet_addr-inet_ntoa addr h =
    let a = bswap32 addr in
    let w = a / 2 ^ 24 % 256 in
    let x = a / 2 ^ 16 % 256 in
    let y = a / 2 ^ 8 % 256 in
    let z = a % 256 in
    ap combine_net (parse_four w x y z (omega arith) (omega arith) (omega arith) (omega arith))
    ∙ ap (λ (n : ℕ). bswap32 n)
        (combine_four w x y z (omega arith) (omega arith) (omega arith) (omega arith))
    ∙ back addr h
  where
    back :
        (n : ℕ)
        → n < 2 ^ 32
        → bswap32 (
            bswap32 n / 2 ^ 24 % 256 * 2 ^ 24
            + bswap32 n / 2 ^ 16 % 256 * 2 ^ 16
            + bswap32 n / 2 ^ 8 % 256 * 2 ^ 8
            + bswap32 n % 256)
          ≡ n
    back n small = omega arith
