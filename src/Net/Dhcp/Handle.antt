-- ===== src/Net/Dhcp/Handle.antt =====
-- What the DHCP client of src/network/dhcp.c does with any packet.
use cgos.Base.{
  ℕ, zero, suc, ◌<◌, ◌≡◌, ◌≢◌, ◌⊎◌, inl, inr, refl, ◌∙◌, Bool, true, false, List, [], ◌∷◌, ltb,
  ◌==◌, length, drop, arith, Bool-cases,
}
use cgos.Net.Udp.{Sent}
use cgos.Net.Socket.Calls.{ntohl}
use cgos.Net.Dhcp.{
  DhcpState, init, selecting, requesting, bound, renewing, rebinding, init_reboot, Client,
  msg_offer, msg_ack, msg_nak, magic_cookie, option_pad, option_end, dhcp_client_request,
}
use cgos.Net.Dhcp.Receive.{
  Reply, take_option, parse_from, dhcp_parse_options, handle_type, configured,
  dhcp_client_process_packet,
}

-- What the parsing of options leaves alone.
abbrev pub Kept : Client → Client → Type 0
Kept old new = (new.state ≡ old.state) × (new.iface ≡ old.iface) × (new.offered_ip ≡ old.offered_ip)

take_option-Kept :
    (type len : ℕ) (bytes : List ℕ) (client : Client) (m : ℕ)
    → Kept client (take_option type len bytes client m).0
unfolding take_option
take_option-Kept type len bytes client m = ground arith

Kept-trans : (a b c : Client) → Kept a b → Kept b c → Kept a c
Kept-trans a b c (x, y, z) (x', y', z') = (x' ∙ x, y' ∙ y, z' ∙ z)

parse_from-Kept :
    (fuel : ℕ) (bytes : List ℕ) (client : Client) (m : ℕ)
    → Kept client (parse_from fuel bytes client m).0
unfolding parse_from
parse_from-Kept zero bytes client m = (refl, refl, refl)
parse_from-Kept (suc fuel) [] client m = (refl, refl, refl)
parse_from-Kept (suc fuel) (type ∷ []) client m = (refl, refl, refl)
parse_from-Kept (suc fuel) (type ∷ len ∷ rest) client m =
    let padded = parse_from-Kept fuel (len ∷ rest) client m in
    let r = take_option type len rest client m in
    let further =
      Kept-trans client r.0 (parse_from fuel (drop len rest) r.0 r.1).0
        (take_option-Kept type len rest client m) (parse_from-Kept fuel (drop len rest) r.0 r.1) in
    elim (Bool-cases (type == option_pad)) [
      | inl e ↦ rw e padded
      | inr e ↦ elim (Bool-cases (type == option_end)) [
        | inl f ↦ rw (e, f) (refl, refl, refl)
        | inr f ↦ elim (Bool-cases (ltb (length rest) len)) [
          | inl g ↦ rw (e, f, g) (refl, refl, refl)
          | inr g ↦ rw (e, f, g) further
        ]
      ]
    ]

-- What a packet with the right transaction does to the client `mid` that has read its options: `type`
-- is the message type of the options (2 for an offer, 5 for an acknowledgement, 6 for a refusal), and
-- `ip` the address that is offered.
pub data Acted (accepted : Bool) (now type ip : ℕ) (mid : Client) (r : List Sent × Client)
    : Type 0 where
  unanswered :
      (mid.state ≡ selecting → type ≢ 2)
      → (mid.state ≡ requesting → (type ≢ 5) × (type ≢ 6))
      → r ≡ ([], mid)
      → Acted accepted now type ip mid r
  offered :
      (packet : Sent)
      → mid.state ≡ selecting
      → type ≡ 2
      → ip ≢ 0
      → accepted ≡ true
      → r ≡ (packet ∷ [], record mid { offered_ip = ip; state = requesting })
      → Acted accepted now type ip mid r
  unsent :
      mid.state ≡ selecting
      → type ≡ 2
      → (ip ≡ 0) ⊎ (accepted ≡ false)
      → r.1 ≡ record mid { offered_ip = ip }
      → Acted accepted now type ip mid r
  acknowledged :
      mid.state ≡ requesting
      → type ≡ 5
      → r.0 ≡ []
      → r.1.state ≡ bound
      → r.1.active ≡ true
      → r.1.lease_start_time ≡ now
      → r.1.iface ≡ record (mid.iface) {
        ip_address = mid.offered_ip;
        subnet_mask = mid.subnet_mask;
        gateway = mid.gateway;
      }
      → Acted accepted now type ip mid r
  rejected :
      mid.state ≡ requesting
      → type ≡ 6
      → r ≡ ([], record mid { state = init; offered_ip = 0; server_ip = 0 })
      → Acted accepted now type ip mid r

-- What a packet does to a client: nothing, or else its options are read, which leaves the state, the
-- interface and the offered address alone, and its type decides.
pub data Handled (accepted : Bool) (now : ℕ) (old : Client) (packet : Reply) (packet_len : ℕ)
    (r : List Sent × Client) : Type 0 where
  ignored :
      (packet_len < 240)
        ⊎ (ntohl packet.magic ≢ magic_cookie)
        ⊎ (ntohl packet.xid ≢ old.transaction_id)
      → r ≡ ([], old)
      → Handled accepted now old packet packet_len r
  acted :
      (mid : Client) (type : ℕ)
      → ntohl packet.magic ≡ magic_cookie
      → ntohl packet.xid ≡ old.transaction_id
      → dhcp_parse_options packet.options old ≡ (mid, type)
      → Kept old mid
      → Acted accepted now type (ntohl packet.yiaddr) mid r
      → Handled accepted now old packet packet_len r

module _ (accepted : Bool) (now msg_type ip : ℕ) (client : Client) where
  abbrev Answered : DhcpState → Type 0
  Answered s =
      client.state ≡ s
      → Acted accepted now msg_type ip client (handle_type accepted now s msg_type ip client)

  requests : Answered selecting
  unfolding handle_type dhcp_client_request
  requests e = elim (Bool-cases (msg_type == msg_offer)) [
    | inr n ↦ rw n (unanswered (λ s. ground arith) (λ s. absurd (cc)) refl)
    | inl o ↦
        let offer : msg_type ≡ 2 = ground arith in
        elim (Bool-cases (ip == 0)) [
          | inl z ↦ rw (o, z) (unsent e offer (inl (ground arith)) refl)
          | inr z ↦ elim (Bool-cases accepted) [
            | inl a ↦ rw (o, z, a) (offered _ e offer (ground arith) refl refl)
            | inr a ↦ rw (o, z, a) (unsent e offer (inr refl) refl)
          ]
        ]
  ]

  answers : Answered requesting
  unfolding handle_type configured
  answers e = elim (Bool-cases (msg_type == msg_ack)) [
    | inl a ↦ rw a (acknowledged e (ground arith) refl refl refl refl refl)
    | inr a ↦ elim (Bool-cases (msg_type == msg_nak)) [
      | inl n ↦ rw (a, n) (rejected e (ground arith) refl)
      | inr n ↦ rw (a, n) (unanswered (λ s. absurd (cc)) (λ s. (ground arith, ground arith)) refl)
    ]
  ]

  handle_type-Acted : (s : DhcpState) → Answered s
  unfolding handle_type
  handle_type-Acted init e = unanswered (λ s. absurd (cc)) (λ s. absurd (cc)) refl
  handle_type-Acted selecting e = requests e
  handle_type-Acted requesting e = answers e
  handle_type-Acted bound e = unanswered (λ s. absurd (cc)) (λ s. absurd (cc)) refl
  handle_type-Acted renewing e = unanswered (λ s. absurd (cc)) (λ s. absurd (cc)) refl
  handle_type-Acted rebinding e = unanswered (λ s. absurd (cc)) (λ s. absurd (cc)) refl
  handle_type-Acted init_reboot e = unanswered (λ s. absurd (cc)) (λ s. absurd (cc)) refl

-- A packet of less than 240 bytes, with another magic number or of another transaction changes
-- nothing. Any other has its options read, which leaves the client's state, interface and offered
-- address alone, and then: an offer in the state SELECTING is answered with one packet and leads to
-- REQUESTING with its address as the offered one, and it sets only the offered address where that is
-- 0 or the packet is not accepted; an
-- acknowledgement in the state REQUESTING binds the client, configures the interface with the
-- offered address and starts the lease now; a refusal in that state starts over; anything else does
-- no more and sends nothing.
pub process_packet-Handled :
    (accepted : Bool) (now : ℕ) (client : Client) (packet : Reply) (packet_len : ℕ)
    → Handled accepted now client packet packet_len
        (dhcp_client_process_packet accepted now client packet packet_len)
unfolding dhcp_client_process_packet dhcp_parse_options
process_packet-Handled accepted now client packet packet_len =
    let parsed = dhcp_parse_options packet.options client in
    let kept : Kept client parsed.0 =
      parse_from-Kept (length packet.options) packet.options client 0 in
    let handled =
      handle_type-Acted accepted now parsed.1 (ntohl packet.yiaddr) parsed.0 parsed.0.state refl in
    elim (Bool-cases (ltb packet_len 240)) [
      | inl a ↦ rw a (ignored (inl (ground arith)) refl)
      | inr a ↦ elim (Bool-cases (ntohl packet.magic == magic_cookie)) [
        | inr b ↦ rw (a, b) (ignored (inr (inl (ground arith))) refl)
        | inl b ↦ elim (Bool-cases (ntohl packet.xid == client.transaction_id)) [
          | inr c ↦ rw (a, b, c) (ignored (inr (inr (ground arith))) refl)
          | inl c ↦
              rw (a, b, c) (acted parsed.0 parsed.1 (ground arith) (ground arith) refl kept handled)
        ]
      ]
    ]
