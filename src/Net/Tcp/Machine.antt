-- ===== src/Net/Tcp/Machine.antt =====
-- The state machine of a connection of src/network/tcp.c: its transitions, and the handshake.
use cgos.Base.{
  ℕ, zero, suc, ◌+◌, ◌≤◌, ◌≡◌, ◌≢◌, inl, inr, refl, sym, ap, subst, ◌∙◌, Bool, true, false, not,
  ◌&&◌, List, [], ◌∷◌, arith, ◌==◌, if◌then◌else◌, bit_and, bit_or, set, get_or, length,
  get_or-set_self, get_or-set_ne, Option, none, some, Bool-cases, ℕ_discrete, dec_lt,
}
use cgos.Net.Tcp.{
  TcpState, closed, listen, syn_sent, syn_received, established, fin_wait_1, fin_wait_2, close_wait,
  closing, last_ack, time_wait, Connection, Tcp, Segment, add32, has_flag, flag_fin, flag_syn,
  flag_psh, flag_ack, blank, control, is_peer, is_listener, find, receive, receive_data,
  receive_fin, receive_established,
}
use cgos.Net.Tcp.Table.{
  connection_at, reset, deliver, accept, dispatch, tcp_process_packet, tcp_create_connection,
  tcp_listen,
}
use cgos.Base.{leb}
use cgos.Net.Tcp.{max_connections}

-- The transitions that a segment can cause.
pub data Step : TcpState → TcpState → Type 0 where
  stay : (s : TcpState) → Step s s
  syn : Step listen syn_received
  syn_ack : Step syn_sent established
  ack : Step syn_received established
  fin : Step established close_wait

module _ (c : Connection) (p : Segment) (n : ℕ) where
  data_keeps : (receive_data c p).1.0.state ≡ c.state
  unfolding receive_data
  data_keeps = elim (Bool-cases (has_flag p.flags flag_psh)) [
    | inl e ↦ rw e refl
    | inr e ↦ rw e refl
  ]

  fin_steps : c.state ≡ established → Step established (receive_fin c p).1.0.state
  unfolding receive_fin
  fin_steps s = elim (Bool-cases (has_flag p.flags flag_fin)) [
    | inl e ↦ rw e fin
    | inr e ↦ rw e (subst (Step established) (sym s) (stay established))
  ]

receive-Step :
    (s : TcpState) (c : Connection) (p : Segment) (n : ℕ)
    → c.state ≡ s
    → Step s (receive s c p n).conn.state
unfolding receive receive_established
receive-Step closed c p n e = subst (Step closed) (sym e) (stay closed)
receive-Step listen c p n e = elim (Bool-cases (has_flag p.flags flag_syn)) [
  | inl f ↦ rw f syn
  | inr f ↦ rw f (subst (Step listen) (sym e) (stay listen))
]
receive-Step syn_sent c p n e =
    elim (Bool-cases (bit_and p.flags (bit_or flag_syn flag_ack) == bit_or flag_syn flag_ack)) [
      | inl f ↦ rw f syn_ack
      | inr f ↦ rw f (subst (Step syn_sent) (sym e) (stay syn_sent))
    ]
receive-Step syn_received c p n e = elim (Bool-cases (has_flag p.flags flag_ack)) [
  | inl f ↦ rw f ack
  | inr f ↦ rw f (subst (Step syn_received) (sym e) (stay syn_received))
]
receive-Step established c p n e = fin_steps (receive_data c p).1.0 p n (data_keeps c p n ∙ e)
receive-Step fin_wait_1 c p n e = subst (Step fin_wait_1) (sym e) (stay fin_wait_1)
receive-Step fin_wait_2 c p n e = subst (Step fin_wait_2) (sym e) (stay fin_wait_2)
receive-Step close_wait c p n e = subst (Step close_wait) (sym e) (stay close_wait)
receive-Step closing c p n e = subst (Step closing) (sym e) (stay closing)
receive-Step last_ack c p n e = subst (Step last_ack) (sym e) (stay last_ack)
receive-Step time_wait c p n e = subst (Step time_wait) (sym e) (stay time_wait)

set_outside : (xs : List Connection) (i : ℕ) (v : Connection) → length xs ≤ i → set xs i v ≡ xs
set_outside [] i v h = refl
set_outside (x ∷ xs) zero v h = absurd (omega arith)
set_outside (x ∷ xs) (suc i) v h = ap (λ l. x ∷ l) (set_outside xs i v (omega arith))

-- The steps of the whole table.
module _ (t : Tcp) (p : Segment) (j : ℕ) where
  abbrev Steps : Tcp → Type 0
  Steps t' = Step (connection_at t j).state (connection_at t' j).state

  deliver-Step :
      (i : ℕ) (c : Connection) → c.state ≡ (connection_at t i).state → Steps (deliver t i c p).0
  unfolding deliver
  deliver-Step i c same =
      let o = (receive c.state c p t.tcp_sequence_number).conn in
      let at : Connection → TcpState = λ x. x.state in
      elim (ℕ_discrete i j) [
        | yes e ↦ elim (dec_lt i (length t.connections)) [
          | yes lt ↦
              let now : connection_at (deliver t i c p).0 i ≡ o =
                get_or-set_self t.connections i o (blank 0 false) lt in
              subst
                (λ (k : ℕ).
                  Step (connection_at t k).state (connection_at (deliver t i c p).0 k).state)
                e
                (subst (λ (x : Connection). Step (connection_at t i).state x.state) (sym now)
                  (subst (λ s. Step s o.state) same
                    (receive-Step c.state c p t.tcp_sequence_number refl)))
          | no ge ↦
              subst
                (λ (cs : List Connection).
                  Step (connection_at t j).state (get_or cs j (blank 0 false)).state)
                (sym (set_outside t.connections i o (omega arith))) (stay (connection_at t j).state)
        ]
        | no ne ↦
            subst (λ (x : Connection). Step (connection_at t j).state x.state)
              (sym (get_or-set_ne t.connections i j o (blank 0 false) ne))
              (stay (connection_at t j).state)
      ]

  accept-Step : (r : Option ℕ) (src_ip : ℕ) → Steps (accept r t src_ip p).0
  unfolding accept
  accept-Step none src_ip = stay (connection_at t j).state
  accept-Step (some i) src_ip =
      deliver-Step i (record (connection_at t i) { remote_ip = src_ip; remote_port = p.src_port })
        refl

  dispatch-Step : (r : Option ℕ) (src_ip dest_ip : ℕ) → Steps (dispatch r t src_ip dest_ip p).0
  unfolding dispatch
  dispatch-Step none src_ip dest_ip =
      accept-Step
        (if has_flag p.flags flag_syn && not (has_flag p.flags flag_ack)
          then find (is_listener dest_ip p) t.connections 0
          else none)
        src_ip
  dispatch-Step (some i) src_ip dest_ip = deliver-Step i (connection_at t i) refl

  -- Whatever segment arrives, each connection stays in its state or takes one of the four
  -- transitions of `Step`.
  pub process_packet-Step : (src_ip dest_ip : ℕ) → Steps (tcp_process_packet t src_ip dest_ip p).0
  unfolding tcp_process_packet
  process_packet-Step src_ip dest_ip =
      dispatch-Step (find (is_peer src_ip dest_ip p) t.connections 0) src_ip dest_ip

-- A segment for an address that no active connection has.
abbrev pub Foreign : ℕ → List Connection → Type 0
Foreign dest_ip [] = Unit
Foreign dest_ip (c ∷ cs) = (c.active && (c.local_ip == dest_ip) ≡ false) × Foreign dest_ip cs

find-Foreign :
    (dest_ip : ℕ) (test : Connection → Bool)
    → ((c : Connection) → c.active && (c.local_ip == dest_ip) ≡ false → test c ≡ false)
    → (cs : List Connection) (i : ℕ) → Foreign dest_ip cs
    → find test cs i ≡ none
unfolding find
find-Foreign dest_ip test h [] i f = refl
find-Foreign dest_ip test h (c ∷ cs) i f = rw (h c f.0) (find-Foreign dest_ip test h cs (i + 1) f.1)

-- A segment to a local address that no active connection has stored is answered with a reset
-- alone, and changes nothing. A port that tcp_listen opened stores the address 0.
pub process_packet_reset :
    (t : Tcp) (src_ip dest_ip : ℕ) (p : Segment)
    → Foreign dest_ip t.connections
    → tcp_process_packet t src_ip dest_ip p ≡ (t, (reset p ∷ [], []))
unfolding tcp_process_packet dispatch accept
process_packet_reset t src_ip dest_ip p f =
    let no_peer =
      find-Foreign dest_ip (is_peer src_ip dest_ip p) (λ c h. ground arith) t.connections 0 f in
    let no_listener =
      find-Foreign dest_ip (is_listener dest_ip p) (λ c h. ground arith) t.connections 0 f in
    rw (no_peer, no_listener)
      (elim (Bool-cases (has_flag p.flags flag_syn && not (has_flag p.flags flag_ack))) [
        | inl e ↦ rw e refl
        | inr e ↦ rw e refl
      ])

set-Foreign :
    (dest_ip : ℕ) (cs : List Connection) (i : ℕ) (c : Connection)
    → Foreign dest_ip cs
    → c.active && (c.local_ip == dest_ip) ≡ false
    → Foreign dest_ip (set cs i c)
set-Foreign dest_ip [] i c f h = tt
set-Foreign dest_ip (x ∷ cs) zero c f h = (h, f.1)
set-Foreign dest_ip (x ∷ cs) (suc i) c f h = (f.0, set-Foreign dest_ip cs i c f.1 h)

get_or-Foreign :
    (dest_ip : ℕ) (cs : List Connection) (i : ℕ)
    → Foreign dest_ip cs
    → let c = get_or cs i (blank 0 false) in c.active && (c.local_ip == dest_ip) ≡ false
get_or-Foreign dest_ip [] i f = refl
get_or-Foreign dest_ip (x ∷ cs) zero f = f.0
get_or-Foreign dest_ip (x ∷ cs) (suc i) f = get_or-Foreign dest_ip cs i f.1

listen-Foreign :
    (t : Tcp) (port dest_ip : ℕ)
    → 0 ≢ dest_ip
    → Foreign dest_ip t.connections
    → Foreign dest_ip (tcp_listen t port).1.connections
unfolding tcp_listen tcp_create_connection
listen-Foreign t port dest_ip nonzero f =
    elim (Bool-cases (leb max_connections t.connection_count)) [
      | inl e ↦ rw e f
      | inr e ↦
          let k = t.connection_count in
          let fresh =
            set-Foreign dest_ip t.connections k (blank t.tcp_sequence_number true) f
              (ground arith) in
          rw e (
            set-Foreign dest_ip (set t.connections k (blank t.tcp_sequence_number true)) k _ fresh (
              get_or-Foreign dest_ip (set t.connections k (blank t.tcp_sequence_number true)) k
                fresh))
    ]

-- A port that tcp_listen opens is not reached at an address other than 0: it stores 0 as its local
-- address, so a segment for a destination address that is not 0 and that no active connection had
-- before, whatever its port and flags, is answered with a reset and changes nothing.
pub process_packet-tcp_listen :
    (t : Tcp) (port src_ip dest_ip : ℕ) (p : Segment)
    → 0 ≢ dest_ip
    → Foreign dest_ip t.connections
    → let t' : Tcp = (tcp_listen t port).1 in
      tcp_process_packet t' src_ip dest_ip p ≡ (t', (reset p ∷ [], []))
process_packet-tcp_listen t port src_ip dest_ip p nonzero f =
    process_packet_reset (tcp_listen t port).1 src_ip dest_ip p
      (listen-Foreign t port dest_ip nonzero f)

-- The handshake of a connecting client with a listener, segment by segment: the SYN of tcp_connect,
-- the answer to it, and the answer to that. Both ends are established, and each acknowledges the
-- sequence number of the other; the client's own sequence number still is that of its SYN.
pub handshake_lem :
    (c l : Connection) (next next' : ℕ)
    → let syn_out = control c.local_port c.remote_port c.seq_num 0 flag_syn in
      let server = receive listen l syn_out next in
      let syn_ack_out =
        control c.remote_port c.local_port next (add32 c.seq_num 1) (bit_or flag_syn flag_ack) in
      let client = receive syn_sent c syn_ack_out next' in
      let ack_out =
        control c.local_port c.remote_port (add32 c.seq_num 1) (add32 next 1) flag_ack in
      let server' = receive server.conn.state server.conn ack_out server.next_sequence in
      (server.sent ≡ syn_ack_out ∷ [])
      × (client.sent ≡ ack_out ∷ [])
      × (client.conn.state ≡ established)
      × (server'.conn.state ≡ established)
      × (client.conn.ack_num ≡ add32 next 1)
      × (server'.conn.ack_num ≡ add32 c.seq_num 1)
      × (client.conn.seq_num ≡ c.seq_num)
unfolding receive
handshake_lem c l next next' = (refl, refl, refl, refl, refl, refl, refl)
