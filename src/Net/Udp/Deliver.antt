-- ===== src/Net/Udp/Deliver.antt =====
-- A port belongs to one socket, and gets the datagrams that are sent to it.
use cgos.Base.{
  ℕ, zero, suc, ◌+◌, ◌-◌, ◌<◌, ◌≤◌, ◌≡◌, ◌≢◌, ◌⊎◌, inl, inr, refl, sym, ap, subst, ◌∙◌, Bool, true,
  false, ◌&&◌, List, [], ◌∷◌, arith, ltb, ◌==◌, ==_iff, get_or, set, length, get_or-set_self, none,
  some, Bool-cases, Option-cases,
}
use cgos.Net.Route.{Interface}
use cgos.Net.Udp.{
  Socket, Udp, Datagram, NetResult, success, error, invalid_param, to_callback, handed, blank,
  socket_at, with_socket, is_bound_to, find_bound, udp_process_packet, udp_bind, udp_send_packet,
  udp_header_len, udp_max_payload,
}

find_bound-set :
    (ss : List Socket) (port i j : ℕ) (s : Socket)
    → find_bound ss port j ≡ none
    → i < length ss
    → is_bound_to port s ≡ true
    → find_bound (set ss i s) port j ≡ some (j + i)
unfolding find_bound
find_bound-set [] port i j s free lt e = absurd (omega arith)
find_bound-set (x ∷ ss) port zero j s free lt e = rw e (ap some (omega arith))
find_bound-set (x ∷ ss) port (suc i) j s free lt e = elim (Bool-cases (is_bound_to port x)) [
  | inl b ↦ absurd (let h : some j ≡ none = rw b at free in ground arith)
  | inr b ↦
      rw b
        (find_bound-set ss port i (j + 1) s (rw b at free) (omega arith) e ∙ ap some (omega arith))
]

-- What udp_bind does: it refuses port 0, and a port that a socket has; any other port goes to the
-- socket, which from then on is the one that is found for it.
pub data Bound (u : Udp) (i port : ℕ) (r : NetResult × Udp) : Type 0 where
  zero_port : port ≡ 0 → r ≡ (invalid_param, u) → Bound u i port r
  in_use : (j : ℕ) → find_bound u.sockets port 0 ≡ some j → r ≡ (error, u) → Bound u i port r
  taken :
      r.0 ≡ success
      → find_bound u.sockets port 0 ≡ none
      → find_bound r.1.sockets port 0 ≡ some i
      → (socket_at r.1 i).receive_callback ≡ (socket_at u i).receive_callback
      → Bound u i port r

bind_taken :
    (u : Udp) (i port : ℕ)
    → (port == 0) ≡ false
    → find_bound u.sockets port 0 ≡ none
    → udp_bind u i port
      ≡ (success, with_socket u i (record (socket_at u i) { local_port = port; bound = true }))
unfolding udp_bind
bind_taken u i port e free = rw (e, free) refl

-- udp_bind refuses port 0 and a port in use, and otherwise makes the socket the one of the port.
pub bind-Bound : (u : Udp) (i port : ℕ) → i < length u.sockets → Bound u i port (udp_bind u i port)
unfolding udp_bind
bind-Bound u i port lt = elim (Bool-cases (port == 0)) [
  | inl e ↦ zero_port (ground arith) (rw e refl)
  | inr e ↦ elim (Option-cases (find_bound u.sockets port 0)) [
    | inl free ↦
        let s : Socket = record (socket_at u i) { local_port = port; bound = true } in
        let same : (port == port) ≡ true = ground arith in
        subst (Bound u i port) (sym (bind_taken u i port e free)) (
          taken refl free (find_bound-set u.sockets port i 0 s free lt same ∙ ap some (omega arith))
            (ap (λ (x : Socket). x.receive_callback) (get_or-set_self u.sockets i s blank lt)))
    | inr (j, used) ↦ in_use j used (rw (e, used) refl)
  ]
]

-- The first bound socket of a port is the one that is found for it.
find_bound-first :
    (ss : List Socket) (port i j : ℕ)
    → i < length ss
    → (get_or ss i blank).bound ≡ true
    → (get_or ss i blank).local_port ≡ port
    → ((k : ℕ)
        → k < i
        → ((get_or ss k blank).bound ≡ false) ⊎ ((get_or ss k blank).local_port ≢ port))
    → find_bound ss port j ≡ some (j + i)
unfolding find_bound
find_bound-first [] port i j lt b p earlier = absurd (omega arith)
find_bound-first (x ∷ ss) port zero j lt b p earlier =
    let same : (x.local_port == port) ≡ true = (==_iff x.local_port port).1 p in
    rw (b, same) (ap some (omega arith))
find_bound-first (x ∷ ss) port (suc i) j lt b p earlier =
    let no : is_bound_to port x ≡ false = passed (earlier 0 (omega arith)) in
    rw no (
      find_bound-first ss port i (j + 1) (omega arith) b p (λ k l. earlier (suc k) (omega arith))
      ∙ ap some (omega arith))
  where
    passed : ((x.bound ≡ false) ⊎ (x.local_port ≢ port)) → is_bound_to port x ≡ false
    passed (inl e) = rw e refl
    passed (inr ne) =
        let other : (x.local_port == port) ≡ false = ground arith in rw other (ground arith)

-- A datagram of 1 to 1472 bytes that udp_send_packet builds on one host is handed by
-- udp_process_packet on the other to the callback of the first of its sockets that is bound and has
-- the datagram's destination port, if the socket has a callback: with the same payload, the length
-- of the payload, and the address and the port it came from. The exception is a datagram from port
-- 67 to port 68.
pub process_packet-send_packet :
    (u : Udp) (iface : Interface) (src_ip dest_ip src_port dest_port i f : ℕ) (bytes : List ℕ)
    (has_dhcp_client : Bool)
    → 0 < length bytes
    → length bytes ≤ udp_max_payload
    → dest_port == 68 && (src_port == 67) ≡ false
    → i < length u.sockets
    → (socket_at u i).bound ≡ true
    → (socket_at u i).local_port ≡ dest_port
    → ((k : ℕ) → k < i → ((socket_at u k).bound ≡ false) ⊎ ((socket_at u k).local_port ≢ dest_port))
    → (socket_at u i).receive_callback ≡ some f
    → (d : Datagram) × ((udp_send_packet iface dest_ip src_port dest_port bytes
          ≡ handed iface dest_ip d)
        × (udp_process_packet has_dhcp_client u src_ip d
            ≡ to_callback i f bytes (length bytes) src_ip src_port))
unfolding udp_send_packet udp_process_packet
process_packet-send_packet u iface src_ip dest_ip src_port dest_port i f bytes has pos small plain
      there is_bound at_port earlier set_callback =
    let found = find_bound-first u.sockets dest_port i 0 there is_bound at_port earlier in
    let start : 0 + i ≡ i = omega arith in
    let d : Datagram = record {
      src_port = src_port;
      dest_port = dest_port;
      length_field = udp_header_len + length bytes;
      payload = bytes;
    } in
    let nonempty : (length bytes == 0) ≡ false = ground arith in
    let fits : ltb udp_max_payload (length bytes) ≡ false = ground arith in
    let headed : ltb (udp_header_len + length bytes) udp_header_len ≡ false = ground arith in
    let len : udp_header_len + length bytes - udp_header_len ≡ length bytes = omega arith in
    (d, (rw (nonempty, fits) refl, rw (headed, plain, found, start, set_callback, len) refl))
