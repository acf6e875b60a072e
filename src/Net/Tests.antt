-- ===== src/Net/Tests.antt =====
-- Concrete runs of the network parts.
use cgos.Base.{ℕ, zero, suc, ◌≡◌, refl, true, false, [], ◌∷◌, none, some, arith, replicate}
use cgos.Net.Route.{Interface}
use cgos.Net.Address.{ip_str_to_addr, ip_addr_to_str, str_to_addr-addr_to_str}
use cgos.Net.Arp.{
  ArpTable, arp_send_request, arp_send_reply, arp_process_packet, arp_update_entry, arp_lookup,
}
use cgos.Net.Arp.Slot.{Fresh}
use cgos.Net.Arp.Table.{IsUpdated, update_entry-IsUpdated}
use cgos.Net.Arp.Exchange.{exchange-learned}
use cgos.Net.Tcp.{Tcp, Segment, control, flag_syn, blank}
use cgos.Net.Tcp.Table.{connection_at, tcp_process_packet, tcp_listen, reset}
use cgos.Net.Tcp.Machine.{Foreign, Step, process_packet-Step, process_packet-tcp_listen}
use cgos.Net.Udp.{Udp, Datagram, udp_send_packet, udp_process_packet, handed, to_callback}
use cgos.Net.Udp.Deliver.{process_packet-send_packet}

abbrev host : ℕ → Interface
host ip = record {
  mac_address = ip ∷ 2 ∷ 3 ∷ 4 ∷ 5 ∷ 6 ∷ [];
  ip_address = ip;
  subnet_mask = 4294967040;
  gateway = 0;
  active = true;
}

str_to_addr-addr_to_str_example : ip_str_to_addr (ip_addr_to_str 3232235777) ≡ 3232235777
str_to_addr-addr_to_str_example = str_to_addr-addr_to_str 3232235777 (omega arith)

-- A table of two entries, one of them empty.
abbrev half : ArpTable
half = record {
  arp_table =
      record { ip_address = 9; mac_address = replicate 6 9; timestamp = 100; valid = true }
      ∷ record { ip_address = 0; mac_address = replicate 6 0; timestamp = 0; valid = false }
      ∷ [];
  arp_table_entries = 1;
}

half-not-Fresh : ¬ Fresh 90 half.arp_table
half-not-Fresh f = absurd (let h = f.2.0 in ground arith)

update_entry-IsUpdated_example :
    IsUpdated half 7 (replicate 6 7) 90 (arp_update_entry 7 (replicate 6 7) 90 91 half)
update_entry-IsUpdated_example = update_entry-IsUpdated 7 (replicate 6 7) 90 91 half

exchange-learned_example :
    let (reply, tb') = arp_process_packet (host 8) (arp_send_request (host 7) 8).1 90 91 half in
    let answer = arp_send_reply (host 8) 7 (host 7).mac_address in
    (reply ≡ some answer)
    × (answer.0 ≡ (host 7).mac_address)
    × (arp_lookup tb' 7 ≡ some (host 7).mac_address)
    × (arp_lookup (arp_process_packet (host 7) answer.1 90 91 half).1 8 ≡ some (host 8).mac_address)
    × ((arp_process_packet (host 7) answer.1 90 91 half).0 ≡ none)
exchange-learned_example =
    exchange-learned (host 7) (host 8) half half 90 91 half-not-Fresh half-not-Fresh

abbrev quiet : Tcp
quiet = record {
  connections = replicate 32 (blank 0 false);
  connection_count = 0;
  tcp_sequence_number = 1000;
}

abbrev syn_segment : Segment
syn_segment = control 40000 80 500 0 flag_syn

process_packet-Step_example :
    Step
      (connection_at (tcp_listen quiet 80).1 0).state
      (connection_at (tcp_process_packet (tcp_listen quiet 80).1 5 0 syn_segment).0 0).state
process_packet-Step_example = process_packet-Step (tcp_listen quiet 80).1 syn_segment 0 5 0

closed-Foreign : (n : ℕ) → Foreign 7 (replicate n (blank 0 false))
closed-Foreign zero = tt
closed-Foreign (suc n) = (refl, closed-Foreign n)

process_packet-tcp_listen_example :
    let t' : Tcp = (tcp_listen quiet 80).1 in
    tcp_process_packet t' 5 7 syn_segment ≡ (t', (reset syn_segment ∷ [], []))
process_packet-tcp_listen_example =
    process_packet-tcp_listen quiet 80 5 7 syn_segment (omega arith) (closed-Foreign 32)

-- Socket 0 has port 53 and callback 4.
abbrev served : Udp
served = record {
  sockets =
      record {
        local_port = 53;
        remote_ip = 0;
        remote_port = 0;
        bound = true;
        connected = false;
        receive_callback = some 4;
      }
      ∷ record {
        local_port = 0;
        remote_ip = 0;
        remote_port = 0;
        bound = false;
        connected = false;
        receive_callback = none;
      }
      ∷ [];
  socket_count = 2;
}

process_packet-send_packet_example :
    (d : Datagram) × ((udp_send_packet (host 7) 8 1234 53 (1 ∷ 2 ∷ []) ≡ handed (host 7) 8 d)
      × (udp_process_packet false served 7 d ≡ to_callback 0 4 (1 ∷ 2 ∷ []) 2 7 1234))
process_packet-send_packet_example =
    process_packet-send_packet served (host 7) 7 8 1234 53 0 4 (1 ∷ 2 ∷ []) false (omega arith)
      (omega arith) refl (omega arith) refl refl (λ k lt. absurd (omega arith)) refl
