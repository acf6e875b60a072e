-- ===== src/Net/TestPackets.antt =====
-- Concrete packets of the IP, ICMP and Ethernet layers.
use cgos.Base.{
  ℕ, List, ◌%◌, ◌<◌, ◌≡◌, ◌↔◌, refl, true, false, [], ◌∷◌, none, some, arith, replicate,
}
use cgos.Net.Route.{Interface}
use cgos.Net.Arp.{ArpTable, arp_lookup}
use cgos.Net.Checksum.{word_sum}
use cgos.Net.Ip.{
  header_bytes, packet_header, ip_validate_checksum, ip_send_packet, Dispatch, to_icmp, to_tcp,
  to_udp,
}
use cgos.Net.Ip.Valid.{IsHeader, validate_checksum-balanced}
use cgos.Net.Ethernet.Deliver.{arrive, transmit, arrive-transmit}
use cgos.Net.Icmp.{Ping, echo_request, echo_reply, echo_header, icmp_process_packet}
use cgos.Net.Icmp.Echo.{process_packet-drops_data}
use cgos.Net.Icmp.Reply.{Answers, process_packet-echo_header}
use cgos.Net.Icmp.Statistics.{Round, icmp_ping}
use cgos.Net.Icmp.Measure.{IsMeasured, sent_of, trips_of, icmp_ping-IsMeasured}
use cgos.Net.Udp.{Udp}
use cgos.Net.Tcp.{Tcp}
use cgos.Net.Socket.{Descriptor, af_inet, sock_dgram, socket_create}
use cgos.Net.Socket.Leak.{idle, cycles, socket_create-fails_after_cycles}

abbrev station : ℕ → Interface
station ip = record {
  mac_address = ip ∷ 2 ∷ 3 ∷ 4 ∷ 5 ∷ 6 ∷ [];
  ip_address = ip;
  subnet_mask = 4294967040;
  gateway = 0;
  active = true;
}

-- The table of a host that knows station 8.
abbrev knows_eight : ArpTable
knows_eight = record {
  arp_table =
      record {
        ip_address = 8;
        mac_address = 8 ∷ 2 ∷ 3 ∷ 4 ∷ 5 ∷ 6 ∷ [];
        timestamp = 5;
        valid = true;
      }
      ∷ [];
  arp_table_entries = 1;
}

abbrev quiet : Ping
quiet = record {
  ping_reply_received = false;
  ping_reply_src_ip = 0;
  ping_reply_seq = 0;
  ping_send_time = 0;
  ping_reply_time = 0;
}

lookup_eight : arp_lookup knows_eight 8 ≡ some (station 8).mac_address
unfolding arp_lookup cgos.Net.Arp.lookup_entry
lookup_eight = refl

packet-IsHeader : IsHeader (packet_header (station 7) 1 8 17 3)
unfolding packet_header cgos.Net.Ip.header_checksum cgos.Net.Checksum.ip_checksum
    cgos.Net.Checksum.complement
packet-IsHeader = record {
  version = (omega arith, omega arith);
  bytes = (omega arith, omega arith, omega arith);
  checksum_word = omega arith;
}

validate_checksum-balanced_example :
    (ip_validate_checksum (packet_header (station 7) 1 8 17 3) ≡ true) ↔ (
      (word_sum (header_bytes (packet_header (station 7) 1 8 17 3)) % 65535 ≡ 0)
      × ((packet_header (station 7) 1 8 17 3).checksum < 65535))
validate_checksum-balanced_example =
    validate_checksum-balanced (packet_header (station 7) 1 8 17 3) packet-IsHeader

arrive-transmit_example :
    let arrived : ℕ → Dispatch = λ protocol. arrive (station 8) (
      transmit
        (station 7)
        (ip_send_packet (station 7) knows_eight 1 8 protocol (1 ∷ 2 ∷ 3 ∷ [])).0) in
    let filled : List ℕ = 1 ∷ 2 ∷ 3 ∷ replicate 23 0 in
    (arrived 1 ≡ to_icmp 7 8 filled)
    × (arrived 6 ≡ to_tcp 7 8 filled)
    × (arrived 17 ≡ to_udp 7 8 filled)
arrive-transmit_example =
    arrive-transmit (station 7) (station 8) knows_eight refl refl 1 (1 ∷ 2 ∷ 3 ∷ []) lookup_eight
      (λ e. absurd (omega arith)) (omega arith) (omega arith) (omega arith) (omega arith)

process_packet-echo_header_example :
    Answers
      (station 7)
      knows_eight
      1
      50
      8
      quiet
      9
      300
      (station 8).mac_address
      (icmp_process_packet (station 7) knows_eight 1 50 8 (echo_header echo_request 9 300 []) quiet)
    × (icmp_process_packet (station 7) knows_eight 1 50 8 (echo_header echo_reply 9 300 []) quiet
        ≡ (
          (none, 1),
          record quiet {
            ping_reply_received = true;
            ping_reply_src_ip = 8;
            ping_reply_seq = 300;
            ping_reply_time = 50;
          },
        ))
process_packet-echo_header_example =
    process_packet-echo_header (station 7) knows_eight 1 50 8 quiet 9 300 (station 8).mac_address
      (omega arith) (omega arith) (omega arith) (λ e. absurd (omega arith)) lookup_eight

process_packet-drops_data_example :
    icmp_process_packet
      (station 8)
      knows_eight
      1
      50
      7
      (echo_header echo_request 9 0 (1 ∷ 2 ∷ []))
      quiet
    ≡ ((none, 1), quiet)
unfolding word_sum
process_packet-drops_data_example =
    process_packet-drops_data (station 8) knows_eight 1 50 7 quiet echo_request 9 0 (1 ∷ 2 ∷ [])
      (omega arith) (omega arith, (omega arith, tt)) (omega arith) (λ e. absurd (omega (arith, e)))

-- One reply after 30 ticks, and one request that is not sent.
abbrev two_rounds : List Round
two_rounds =
    record {
      ticks = 100;
      accepted = true;
      waits = λ p. record p {
        ping_reply_received = true;
        ping_reply_src_ip = 8;
        ping_reply_time = 130;
      };
      delays = λ p. p;
    }
    ∷ record { ticks = 700; accepted = false; waits = λ p. p; delays = λ p. p }
    ∷ []

icmp_ping-IsMeasured_example :
    IsMeasured
      (sent_of two_rounds)
      (trips_of 8 two_rounds quiet [])
      (icmp_ping 8 two_rounds quiet).1
icmp_ping-IsMeasured_example = icmp_ping-IsMeasured 8 two_rounds quiet (λ p. refl, (λ p. refl, tt))

abbrev fresh : Descriptor
fresh = record {
  type = 0;
  protocol = 0;
  bound = false;
  connected = false;
  listening = false;
  bound_port = 0;
  impl = 0;
}

abbrev nearly_full : Udp
nearly_full = record { sockets = []; socket_count = 62 }

abbrev no_connections : Tcp
no_connections = record { connections = []; connection_count = 0; tcp_sequence_number = 1 }

socket_create-fails_after_cycles_example :
    let s = cycles [] 0 2 (idle (false ∷ []) fresh [] nearly_full no_connections) in
    (s.socket_used ≡ false ∷ false ∷ []) × ((socket_create af_inet sock_dgram 0 s).0 ≡ none)
socket_create-fails_after_cycles_example =
    socket_create-fails_after_cycles [] 0 (false ∷ []) [] no_connections 2 fresh nearly_full
      (omega arith)
