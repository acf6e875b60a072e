-- ===== src/Net/Tcp/Table.antt =====
-- The operations of src/network/tcp.c on the connection table.
use cgos.Base.{
  ℕ, ◌+◌, ◌%◌, bit_or, Bool, true, false, not, ◌&&◌, ◌||◌, List, [], ◌∷◌, ltb, leb, ◌==◌,
  if◌then◌else◌, set, get_or, length, Option, none, some,
}
use cgos.Net.Route.{Interface, network_find_route}
use cgos.Net.Tcp.{
  max_connections, tcp_max_payload, flag_fin, flag_syn, flag_rst, flag_psh, flag_ack, TcpState,
  closed, listen, syn_sent, established, Connection, Tcp, Segment, Event, Outcome, add32, has_flag,
  blank, control, is_peer, is_listener, find, receive,
}

abbrev pub connection_at : Tcp → ℕ → Connection
connection_at t i = get_or t.connections i (blank 0 false)

abbrev pub with_connection : Tcp → ℕ → Connection → Tcp
with_connection t i c = record t { connections = set t.connections i c }

-- A segment that no connection takes is answered with a reset.
unfoldable pub reset : Segment → Segment
reset p = control p.dest_port p.src_port 0 (add32 p.seq 1) (bit_or flag_rst flag_ack)

unfoldable pub deliver : Tcp → ℕ → Connection → Segment → Tcp × (List Segment × List Event)
deliver t i c p =
    let o : Outcome = receive c.state c p t.tcp_sequence_number in
    (
      record t { connections = set t.connections i o.conn; tcp_sequence_number = o.next_sequence },
      (o.sent, o.events),
    )

-- The listener takes the address of the peer before it handles the segment.
unfoldable pub accept : Option ℕ → Tcp → ℕ → Segment → Tcp × (List Segment × List Event)
unfolding reset deliver
accept none t src_ip p = (t, (reset p ∷ [], []))
accept (some i) t src_ip p =
    deliver t i (record (connection_at t i) { remote_ip = src_ip; remote_port = p.src_port }) p

-- The connection of the segment, or its listener if it is a first SYN.
unfoldable pub dispatch : Option ℕ → Tcp → ℕ → ℕ → Segment → Tcp × (List Segment × List Event)
unfolding accept deliver find
dispatch none t src_ip dest_ip p =
    accept
      (if has_flag p.flags flag_syn && not (has_flag p.flags flag_ack)
        then find (is_listener dest_ip p) t.connections 0
        else none)
      t src_ip p
dispatch (some i) t src_ip dest_ip p = deliver t i (connection_at t i) p

unfoldable pub tcp_process_packet : Tcp → ℕ → ℕ → Segment → Tcp × (List Segment × List Event)
unfolding dispatch find
tcp_process_packet t src_ip dest_ip p =
    dispatch (find (is_peer src_ip dest_ip p) t.connections 0) t src_ip dest_ip p

-- none stands for the null pointer.
unfoldable pub tcp_create_connection : Tcp → Option ℕ × Tcp
tcp_create_connection t = if leb max_connections t.connection_count then (none, t) else (
  some t.connection_count,
  record {
    connections = set t.connections t.connection_count (blank t.tcp_sequence_number true);
    connection_count = t.connection_count + 1;
    tcp_sequence_number = add32 t.tcp_sequence_number 1;
  },
)

abbrev pub listen_on : ℕ → Option ℕ × Tcp → Bool × Tcp
listen_on port (none, t) = (false, t)
listen_on port (some i, t) =
    (true, with_connection t i (record (connection_at t i) { local_port = port; state = listen }))

unfoldable pub tcp_listen : Tcp → ℕ → Bool × Tcp
unfolding tcp_create_connection
tcp_listen t port = listen_on port (tcp_create_connection t)

-- The results of the senders: NET_INVALID_PARAM, NET_ERROR, or a segment handed to ip_send_packet.
pub data Result : Type 0 where
  invalid_param failed : Result
  handed : Segment → Result

abbrev pub connect_through : Option Interface → Tcp → ℕ → ℕ → ℕ → Result × Tcp
connect_through none t i remote_ip remote_port = (failed, t)
connect_through (some iface) t i remote_ip remote_port =
    let c = connection_at t i in
    let port : ℕ = 32768 + t.tcp_sequence_number % 32768 in
    (
      handed (control port remote_port c.seq_num 0 flag_syn),
      with_connection t i (record c {
        local_ip = iface.ip_address;
        local_port = port;
        remote_ip = remote_ip;
        remote_port = remote_port;
        state = syn_sent;
      }),
    )

unfoldable pub tcp_connect : List Interface → Tcp → ℕ → ℕ → ℕ → Result × Tcp
tcp_connect interfaces t i remote_ip remote_port =
    if remote_ip == 0 || (remote_port == 0)
    then (invalid_param, t)
    else connect_through (network_find_route interfaces remote_ip) t i remote_ip remote_port

unfoldable pub is_established : TcpState → Bool
is_established s = elim s [ established ↦ true | _ ↦ false ]

unfoldable pub is_closed : TcpState → Bool
is_closed s = elim s [ closed ↦ true | _ ↦ false ]

-- `accepted` is whether ip_send_packet returns NET_SUCCESS for the segment.
abbrev pub send_through : Option Interface → (Segment → Bool) → Tcp → ℕ → List ℕ → Result × Tcp
send_through none accepted t i bytes = (failed, t)
send_through (some iface) accepted t i bytes =
    let c = connection_at t i in
    let p : Segment = record {
      src_port = c.local_port;
      dest_port = c.remote_port;
      seq = c.seq_num;
      ack = c.ack_num;
      flags = bit_or flag_psh flag_ack;
      payload = bytes;
    } in
    if ltb tcp_max_payload (length bytes) then (failed, t) else (
      handed p,
      if accepted p
          then with_connection t i (record c { seq_num = add32 c.seq_num (length bytes) })
          else t,
    )

unfoldable pub tcp_send : List Interface → (Segment → Bool) → Tcp → ℕ → List ℕ → Result × Tcp
unfolding is_established
tcp_send interfaces accepted t i bytes =
    if length bytes == 0 || not (is_established (connection_at t i).state)
    then (invalid_param, t)
    else send_through (network_find_route interfaces (connection_at t i).remote_ip) accepted t i
        bytes

-- The segment with FIN goes out if there is a route and the connection is established.
abbrev pub farewell : Option Interface → Connection → List Segment
farewell none c = []
farewell (some iface) c =
    if is_established c.state
    then control c.local_port c.remote_port c.seq_num c.ack_num (bit_or flag_fin flag_ack) ∷ []
    else []

-- FIN_WAIT_1, which the code stores before it stores CLOSED, is never seen.
unfoldable pub tcp_close : List Interface → Tcp → ℕ → List Segment × Tcp
unfolding is_closed is_established
tcp_close interfaces t i =
    let c = connection_at t i in
    if is_closed c.state then ([], t) else (
      farewell (network_find_route interfaces c.remote_ip) c,
      with_connection t i (record c { active = false; state = closed }),
    )
