-- ===== src/Net/TestLeases.antt =====
-- Concrete clients of the DHCP part.
use cgos.Base.{◌≡◌, refl, true, [], ◌∷◌, ◌++◌, arith}
use cgos.Net.Dhcp.{Client, bound, requesting, selecting}
use cgos.Net.Dhcp.Receive.{
  Reply, dhcp_client_update, dhcp_client_process_packet, dhcp_parse_options,
}
use cgos.Net.Dhcp.Lease.{updates, update-never_expires}
use cgos.Net.Dhcp.Handle.{Handled, process_packet-Handled}
use cgos.Net.Dhcp.Offer.{answer_options, parse_options-answer_options}

-- A client of one hour, bound at second 100.
abbrev leased : Client
leased = record {
  iface = record {
    mac_address = 1 ∷ 2 ∷ 3 ∷ 4 ∷ 5 ∷ 6 ∷ [];
    ip_address = 7;
    subnet_mask = 4294967040;
    gateway = 1;
    active = true;
  };
  state = bound;
  transaction_id = 1;
  server_ip = 1;
  offered_ip = 7;
  subnet_mask = 4294967040;
  gateway = 1;
  dns_server = 0;
  lease_time = 3600;
  renewal_time = 1800;
  rebinding_time = 3150;
  lease_start_time = 100;
  active = true;
}

update-never_expires_example :
    let later = updates (5000 ∷ 9000 ∷ []) (dhcp_client_update true 2000 leased 2).0.1 2 in
    (later.0 ≡ [])
    × (later.1.state ≡ requesting)
    × (later.1.active ≡ true)
    × (later.1.iface ≡ leased.iface)
update-never_expires_example =
    update-never_expires 2000 (5000 ∷ 9000 ∷ []) leased 2 2 refl refl (λ e. absurd (omega arith))
      (omega arith)

-- An offer for a client that waits for one.
abbrev offer : Reply
offer = record {
  xid = 16777216;
  yiaddr = 150994944;
  magic = 0x63538263;
  options = 53 ∷ 1 ∷ 2 ∷ 255 ∷ 0 ∷ [];
}

process_packet-Handled_example :
    Handled true 300
      (record leased { state = selecting })
      offer
      300
      (dhcp_client_process_packet true 300 (record leased { state = selecting }) offer 300)
process_packet-Handled_example =
    process_packet-Handled true 300 (record leased { state = selecting }) offer 300

parse_options-answer_options_example :
    dhcp_parse_options (answer_options 2 9 4294967040 9 7200 ++ (0 ∷ 0 ∷ [])) leased
    ≡ (record leased { server_ip = 9; subnet_mask = 4294967040; gateway = 9; lease_time = 7200 }, 2)
parse_options-answer_options_example =
    parse_options-answer_options 2 9 4294967040 9 7200 (0 ∷ 0 ∷ []) leased (omega arith)
      (omega arith) (omega arith) (omega arith)
