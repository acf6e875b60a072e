-- ===== src/Net/Tcp.antt =====
-- src/network/tcp.c: the connection table and the state machine of a connection. A connection is
-- named by its index in the table, and pointers are never null. Segments hold their fields in host
-- order. `ip_send_packet` is code of another part: its result is an argument where it is used.
pub mod Table
pub mod Machine
use cgos.Base.{
  ℕ, suc, ◌+◌, ◌-◌, ◌*◌, ◌/◌, ◌%◌, ◌^◌, bit_and, bit_or, Bool, true, false, not, ◌&&◌, ◌||◌, List,
  [], ◌∷◌, ◌++◌, ltb, leb, ◌==◌, if◌then◌else◌, set, get_or, replicate, length, Option, none, some,
}
use cgos.Net.Route.{Interface, network_find_route}

-- MAX_CONNECTIONS, TCP_WINDOW_SIZE, TCP_HEADER_LEN, TCP_MAX_PAYLOAD
abbrev pub max_connections : ℕ
max_connections = 32

abbrev pub tcp_window_size : ℕ
tcp_window_size = 65535

abbrev pub tcp_header_len : ℕ
tcp_header_len = 20

abbrev pub tcp_max_payload : ℕ
tcp_max_payload = 1500 - 20 - tcp_header_len

-- TCP_FLAG_FIN, TCP_FLAG_SYN, TCP_FLAG_RST, TCP_FLAG_PSH, TCP_FLAG_ACK
abbrev pub flag_fin : ℕ
flag_fin = 1

abbrev pub flag_syn : ℕ
flag_syn = 2

abbrev pub flag_rst : ℕ
flag_rst = 4

abbrev pub flag_psh : ℕ
flag_psh = 8

abbrev pub flag_ack : ℕ
flag_ack = 16

-- `tcp_state_t`
pub data TcpState : Type 0 where
  closed listen syn_sent syn_received established fin_wait_1 fin_wait_2 close_wait closing last_ack
        time_wait :
      TcpState

-- `tcp_connection_t`. A callback is the number of the function, or none.
pub record Connection : Type 0 where
  pub local_ip : ℕ
  pub local_port : ℕ
  pub remote_ip : ℕ
  pub remote_port : ℕ
  pub state : TcpState
  pub seq_num : ℕ
  pub ack_num : ℕ
  pub window_size : ℕ
  pub active : Bool
  pub on_connect : Option ℕ
  pub on_data : Option ℕ
  pub on_close : Option ℕ

pub record Tcp : Type 0 where
  pub connections : List Connection
  pub connection_count : ℕ
  pub tcp_sequence_number : ℕ

-- `tcp_packet_t` as it is sent to an address
pub record Segment : Type 0 where
  pub src_port : ℕ
  pub dest_port : ℕ
  pub seq : ℕ
  pub ack : ℕ
  pub flags : ℕ
  pub payload : List ℕ

-- A call of a callback with its connection.
pub data Event : Type 0 where
  connected : ℕ → Connection → Event
  received : ℕ → Connection → List ℕ → ℕ → Event
  closed_by_peer : ℕ → Connection → Event

-- What a segment makes of a connection: the connection, the next sequence number of the table, the
-- segments sent and the callbacks called, in their order.
pub record Outcome : Type 0 where
  pub conn : Connection
  pub next_sequence : ℕ
  pub sent : List Segment
  pub events : List Event

abbrev pub add32 : ℕ → ℕ → ℕ
add32 a b = (a + b) % 2 ^ 32

abbrev pub has_flag : ℕ → ℕ → Bool
has_flag flags flag = not (bit_and flags flag == 0)

-- A fresh entry of the table with its sequence number.
abbrev pub blank : ℕ → Bool → Connection
blank seq active = record {
  local_ip = 0;
  local_port = 0;
  remote_ip = 0;
  remote_port = 0;
  state = closed;
  seq_num = seq;
  ack_num = 0;
  window_size = tcp_window_size;
  active = active;
  on_connect = none;
  on_data = none;
  on_close = none;
}

unfoldable pub tcp_init : Tcp → Tcp
tcp_init t = record t {
  connections = replicate max_connections (blank 0 false);
  connection_count = 0;
}

-- A segment without data.
abbrev pub control : ℕ → ℕ → ℕ → ℕ → ℕ → Segment
control src_port dest_port seq ack flags = record {
  src_port = src_port;
  dest_port = dest_port;
  seq = seq;
  ack = ack;
  flags = flags;
  payload = [];
}

-- The two searches of tcp_process_packet.
abbrev pub is_peer : ℕ → ℕ → Segment → Connection → Bool
is_peer src_ip dest_ip p c =
    c.active
    && (c.local_ip == dest_ip)
    && (c.local_port == p.dest_port)
    && (c.remote_ip == src_ip)
    && (c.remote_port == p.src_port)

unfoldable pub is_listen : TcpState → Bool
is_listen closed = false
is_listen listen = true
is_listen syn_sent = false
is_listen syn_received = false
is_listen established = false
is_listen fin_wait_1 = false
is_listen fin_wait_2 = false
is_listen close_wait = false
is_listen closing = false
is_listen last_ack = false
is_listen time_wait = false

abbrev pub is_listener : ℕ → Segment → Connection → Bool
is_listener dest_ip p c =
    c.active && (c.local_ip == dest_ip) && (c.local_port == p.dest_port) && is_listen c.state

unfoldable pub find : (Connection → Bool) → List Connection → ℕ → Option ℕ
find test [] i = none
find test (c ∷ cs) i = let rest = find test cs (i + 1) in if test c then some i else rest

-- A call of a callback that is set.
abbrev pub call : Option ℕ → (ℕ → Event) → List Event
call none event = []
call (some f) event = event f ∷ []

-- The data branch of an established connection: it passes TCP_HEADER_LEN on for the length.
unfoldable pub receive_data : Connection → Segment → List Segment × (Connection × List Event)
receive_data c p =
    let data_len : ℕ = tcp_header_len in
    let c' : Connection = record c { ack_num = add32 p.seq data_len } in
    if has_flag p.flags flag_psh
    then (
      control p.dest_port p.src_port c'.seq_num c'.ack_num flag_ack ∷ [],
      (c', call c.on_data (λ f. received f c p.payload data_len)),
    )
    else ([], (c, []))

unfoldable pub receive_fin : Connection → Segment → List Segment × (Connection × List Event)
receive_fin c p =
    let c' : Connection = record c { ack_num = add32 p.seq 1; state = close_wait } in
    if has_flag p.flags flag_fin
    then (
      control p.dest_port p.src_port c'.seq_num c'.ack_num flag_ack ∷ [],
      (c', call c.on_close (λ f. closed_by_peer f c')),
    )
    else ([], (c, []))

unfoldable pub receive_established : Connection → Segment → ℕ → Outcome
unfolding receive_data receive_fin
receive_established c p next =
    let (sent, (c', events)) = receive_data c p in
    let (sent', (c'', events')) = receive_fin c' p in
    record { conn = c''; next_sequence = next; sent = sent ++ sent'; events = events ++ events' }

-- The switch over the state of the connection.
unfoldable pub receive : TcpState → Connection → Segment → ℕ → Outcome
unfolding receive_established
receive listen c p next =
    let c' : Connection = record c {
      ack_num = add32 p.seq 1;
      seq_num = next;
      state = syn_received;
    } in
    if has_flag p.flags flag_syn
    then record {
      conn = c';
      next_sequence = add32 next 1;
      sent = control p.dest_port p.src_port next (add32 p.seq 1) (bit_or flag_syn flag_ack) ∷ [];
      events = [];
    }
    else record { conn = c; next_sequence = next; sent = []; events = [] }
receive syn_sent c p next =
    let c' : Connection = record c { ack_num = add32 p.seq 1; state = established } in
    if bit_and p.flags (bit_or flag_syn flag_ack) == bit_or flag_syn flag_ack
    then record {
      conn = c';
      next_sequence = next;
      sent = control p.dest_port p.src_port (add32 c.seq_num 1) (add32 p.seq 1) flag_ack ∷ [];
      events = call c.on_connect (λ f. connected f c');
    }
    else record { conn = c; next_sequence = next; sent = []; events = [] }
receive syn_received c p next =
    let c' : Connection = record c { state = established } in
    if has_flag p.flags flag_ack
    then record {
      conn = c';
      next_sequence = next;
      sent = [];
      events = call c.on_connect (λ f. connected f c');
    }
    else record { conn = c; next_sequence = next; sent = []; events = [] }
receive established c p next = receive_established c p next
receive closed c p next = record { conn = c; next_sequence = next; sent = []; events = [] }
receive fin_wait_1 c p next = record { conn = c; next_sequence = next; sent = []; events = [] }
receive fin_wait_2 c p next = record { conn = c; next_sequence = next; sent = []; events = [] }
receive close_wait c p next = record { conn = c; next_sequence = next; sent = []; events = [] }
receive closing c p next = record { conn = c; next_sequence = next; sent = []; events = [] }
receive last_ack c p next = record { conn = c; next_sequence = next; sent = []; events = [] }
receive time_wait c p next = record { conn = c; next_sequence = next; sent = []; events = [] }
