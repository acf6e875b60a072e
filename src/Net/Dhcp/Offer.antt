-- ===== src/Net/Dhcp/Offer.antt =====
-- The options of src/network/dhcp.c, as dhcp_add_option writes them and dhcp_parse_options reads
-- them.
use cgos.Base.{
  ℕ, zero, suc, ◌^◌, ◌<◌, ◌≤◌, ◌≡◌, refl, ◌∙◌, false, List, [], ◌∷◌, ◌++◌, ltb, ◌==◌, if◌then◌else◌,
  length, drop, arith,
}
use cgos.Net.Ip.{bswap32}
use cgos.Net.Socket.Calls.{htonl}
use cgos.Net.Dhcp.{
  Client, option_pad, option_end, option_msg_type, option_subnet_mask, option_router,
  option_lease_time, option_server_id, address_bytes, dhcp_add_option,
}
use cgos.Net.Dhcp.Receive.{big32, take_option, parse_from, dhcp_parse_options}

length-drop : (n : ℕ) (xs : List ℕ) → length (drop n xs) ≤ length xs
length-drop zero xs = omega arith
length-drop (suc n) [] = omega arith
length-drop (suc n) (x ∷ xs) = omega (arith, length-drop n xs)

-- As much fuel as there are bytes is enough: more of it changes nothing.
pub parse_from-enough :
    (f g : ℕ) (bytes : List ℕ) (client : Client) (m : ℕ)
    → length bytes ≤ f
    → length bytes ≤ g
    → parse_from f bytes client m ≡ parse_from g bytes client m
unfolding parse_from
parse_from-enough zero zero bytes client m a b = refl
parse_from-enough zero (suc g) [] client m a b = refl
parse_from-enough zero (suc g) (x ∷ xs) client m a b = absurd (omega arith)
parse_from-enough (suc f) zero [] client m a b = refl
parse_from-enough (suc f) zero (x ∷ xs) client m a b = absurd (omega arith)
parse_from-enough (suc f) (suc g) [] client m a b = refl
parse_from-enough (suc f) (suc g) (type ∷ []) client m a b = refl
parse_from-enough (suc f) (suc g) (type ∷ len ∷ rest) client m a b =
    let r = take_option type len rest client m in
    let short = length-drop len rest in
    let padded = parse_from-enough f g (len ∷ rest) client m (omega arith) (omega arith) in
    let further = parse_from-enough f g (drop len rest) r.0 r.1 (omega arith) (omega arith) in
    λ i.
      if type == option_pad
      then padded i
      else if type == option_end
      then (client, m)
      else if ltb (length rest) len
      then (client, m)
      else further i

-- The loop with as much fuel as there are bytes.
abbrev parsed : List ℕ → Client → ℕ → Client × ℕ
parsed bytes client m = parse_from (length bytes) bytes client m

-- One option of four bytes.
read_four :
    (type a b c d : ℕ) (rest : List ℕ) (client : Client) (m : ℕ)
    → (type == option_pad) ≡ false
    → (type == option_end) ≡ false
    → let r = take_option type 4 (a ∷ b ∷ c ∷ d ∷ rest) client m in
      parsed (type ∷ 4 ∷ a ∷ b ∷ c ∷ d ∷ rest) client m ≡ parsed rest r.0 r.1
unfolding parse_from
read_four type a b c d rest client m not_pad not_end =
    let r = take_option type 4 (a ∷ b ∷ c ∷ d ∷ rest) client m in
    let long : ltb (suc (suc (suc (suc (length rest))))) 4 ≡ false = ground arith in
    let less =
      parse_from-enough (suc (suc (suc (suc (suc (length rest)))))) (length rest) rest r.0 r.1
        (omega arith) (omega arith) in
    rw (not_pad, not_end, long) less

read_type :
    (t : ℕ) (rest : List ℕ) (client : Client) (m : ℕ)
    → parsed (option_msg_type ∷ 1 ∷ t ∷ rest) client m ≡ parsed rest client t
unfolding parse_from take_option
read_type t rest client m =
    let long : ltb (suc (length rest)) 1 ≡ false = ground arith in
    let less =
      parse_from-enough (suc (suc (length rest))) (length rest) rest client t (omega arith)
        (omega arith) in
    rw long less

read_end :
    (n : ℕ) (rest : List ℕ) (client : Client) (m : ℕ)
    → parsed (option_end ∷ n ∷ rest) client m ≡ (client, m)
unfolding parse_from
read_end n rest client m = refl

-- An option that holds an address.
read_address :
    (type a : ℕ) (rest : List ℕ) (client : Client) (m : ℕ)
    → (type == option_pad) ≡ false
    → (type == option_end) ≡ false
    → let r = take_option type 4 (address_bytes a ++ rest) client m in
      parsed (type ∷ 4 ∷ (address_bytes a ++ rest)) client m ≡ parsed rest r.0 r.1
read_address type a rest client m not_pad not_end =
    read_four type _ _ _ _ rest client m not_pad not_end

address_back : (a : ℕ) (rest : List ℕ) → a < 2 ^ 32 → big32 (address_bytes a ++ rest) ≡ a
unfolding htonl bswap32
address_back a rest small = omega arith

-- The options of an answer: its type, the server, the subnet mask, the router, the time of the
-- lease, and the end.
abbrev pub answer_options : ℕ → ℕ → ℕ → ℕ → ℕ → List ℕ
unfolding dhcp_add_option htonl
answer_options type server mask router lease =
    let typed = dhcp_add_option [] option_msg_type (type ∷ []) in
    let served = dhcp_add_option typed option_server_id (address_bytes server) in
    let masked = dhcp_add_option served option_subnet_mask (address_bytes mask) in
    let routed = dhcp_add_option masked option_router (address_bytes router) in
    let leased = dhcp_add_option routed option_lease_time (address_bytes lease) in
    dhcp_add_option leased option_end []

-- The options of an answer that dhcp_add_option writes, whatever bytes stand behind them, are read
-- by dhcp_parse_options as the type of the answer and the fields that it holds, if these have 32
-- bits; the other fields of the client stay.
pub parse_options-answer_options :
    (type server mask router lease : ℕ) (behind : List ℕ) (client : Client)
    → server < 2 ^ 32
    → mask < 2 ^ 32
    → router < 2 ^ 32
    → lease < 2 ^ 32
    → dhcp_parse_options (answer_options type server mask router lease ++ behind) client ≡ (
      record client {
        server_ip = server;
        subnet_mask = mask;
        gateway = router;
        lease_time = lease;
      },
      type,
    )
unfolding dhcp_parse_options dhcp_add_option take_option answer_options
parse_options-answer_options type server mask router lease behind client s m r l =
    let ended = option_end ∷ 0 ∷ behind in
    let leased = option_lease_time ∷ 4 ∷ (address_bytes lease ++ ended) in
    let routed = option_router ∷ 4 ∷ (address_bytes router ++ leased) in
    let masked = option_subnet_mask ∷ 4 ∷ (address_bytes mask ++ routed) in
    let served = option_server_id ∷ 4 ∷ (address_bytes server ++ masked) in
    let c1 = record client { server_ip = big32 (address_bytes server ++ masked) } in
    let c2 = record c1 { subnet_mask = big32 (address_bytes mask ++ routed) } in
    let c3 = record c2 { gateway = big32 (address_bytes router ++ leased) } in
    let c4 = record c3 { lease_time = big32 (address_bytes lease ++ ended) } in
    read_type type served client 0
    ∙ read_address option_server_id server masked client type refl refl
    ∙ read_address option_subnet_mask mask routed c1 type refl refl
    ∙ read_address option_router router leased c2 type refl refl
    ∙ read_address option_lease_time lease ended c3 type refl refl
    ∙ read_end 0 behind c4 type
    ∙ λ i. (
      record client {
        server_ip = address_back server masked s i;
        subnet_mask = address_back mask routed m i;
        gateway = address_back router leased r i;
        lease_time = address_back lease ended l i;
      },
      type,
    )
