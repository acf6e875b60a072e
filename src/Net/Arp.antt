-- ===== src/Net/Arp.antt =====
-- src/network/arp.c: the table of known addresses, and the packets that fill it. Packets hold their
-- fields in host order, since every field is swapped on the way out and on the way in; the pointer
-- arguments are never null. `arp_get_time` is an argument.
pub mod Slot
pub mod Table
pub mod Exchange
use cgos.Base.{
  ℕ, ◌+◌, ◌<◌, Bool, true, false, not, ◌&&◌, List, [], ◌∷◌, ltb, leb, ◌==◌, if◌then◌else◌, set,
  replicate, Option, none, some,
}
use cgos.Net.Route.{Interface}

-- ARP_TABLE_SIZE
abbrev pub arp_table_size : ℕ
arp_table_size = 128

-- `arp_entry_t`
pub record Entry : Type 0 where
  pub ip_address : ℕ
  pub mac_address : List ℕ
  pub timestamp : ℕ
  pub valid : Bool

pub record ArpTable : Type 0 where
  pub arp_table : List Entry
  pub arp_table_entries : ℕ

-- `arp_header_t`
pub record Packet : Type 0 where
  pub hardware_type : ℕ
  pub protocol_type : ℕ
  pub hardware_len : ℕ
  pub protocol_len : ℕ
  pub operation : ℕ
  pub sender_mac : List ℕ
  pub sender_ip : ℕ
  pub target_mac : List ℕ
  pub target_ip : ℕ

-- ARP_REQUEST, ARP_REPLY
abbrev pub arp_request : ℕ
arp_request = 1

abbrev pub arp_reply : ℕ
arp_reply = 2

unfoldable pub arp_init : ArpTable
arp_init = record {
  arp_table =
      replicate arp_table_size
        record { ip_address = 0; mac_address = replicate 6 0; timestamp = 0; valid = false };
  arp_table_entries = 0;
}

-- The test of both searches.
abbrev pub matches : ℕ → Entry → Bool
matches ip e = e.valid && (e.ip_address == ip)

-- The search of arp_lookup.
unfoldable pub lookup_entry : List Entry → ℕ → Option (List ℕ)
lookup_entry [] ip = none
lookup_entry (e ∷ es) ip = if matches ip e then some e.mac_address else lookup_entry es ip

unfoldable pub arp_lookup : ArpTable → ℕ → Option (List ℕ)
unfolding lookup_entry
arp_lookup t ip = lookup_entry t.arp_table ip

-- The search for an empty slot, or the oldest entry before `oldest_time`.
unfoldable pub find_slot : List Entry → ℕ → Option ℕ → ℕ → Option ℕ
find_slot [] i slot oldest_time = slot
find_slot (e ∷ es) i slot oldest_time =
    let older : Bool = ltb e.timestamp oldest_time in
    let rest =
      find_slot es (i + 1) (if older then some i else slot)
        (if older then e.timestamp else oldest_time) in
    if not e.valid then some i else rest

-- The entry is stored in the slot; false stands for NET_ERROR. `now` and `later` are the times
-- that its two calls of arp_get_time return.
unfoldable pub store_entry : Option ℕ → ℕ → List ℕ → ℕ → ArpTable → Bool × ArpTable
store_entry none ip mac later t = (false, t)
store_entry (some slot) ip mac later t = (
  true,
  record {
    arp_table =
        set t.arp_table slot
          record { ip_address = ip; mac_address = mac; timestamp = later; valid = true };
    arp_table_entries = if leb t.arp_table_entries slot then slot + 1 else t.arp_table_entries;
  },
)

unfoldable pub arp_add_entry : ℕ → List ℕ → ℕ → ℕ → ArpTable → Bool × ArpTable
unfolding find_slot store_entry
arp_add_entry ip mac now later t = store_entry (find_slot t.arp_table 0 none now) ip mac later t

-- The entry for the address gets the hardware address and the time; none if there is no entry.
unfoldable pub refresh_entry : List Entry → ℕ → List ℕ → ℕ → Option (List Entry)
refresh_entry [] ip mac now = none
refresh_entry (e ∷ es) ip mac now =
    let rest = refresh_entry es ip mac now in
    if matches ip e
    then some (record e { mac_address = mac; timestamp = now } ∷ es)
    else elim rest [ none ↦ none | some es' ↦ some (e ∷ es') ]

unfoldable pub arp_update_entry : ℕ → List ℕ → ℕ → ℕ → ArpTable → ArpTable
unfolding refresh_entry arp_add_entry
arp_update_entry ip mac now later t = elim (refresh_entry t.arp_table ip mac now) [
  | some es ↦ record t { arp_table = es }
  | none ↦ (arp_add_entry ip mac now later t).1
]

-- The packets, with the hardware address that their frame goes to.
unfoldable pub arp_send_request : Interface → ℕ → List ℕ × Packet
arp_send_request iface target_ip = (
  replicate 6 255,
  record {
    hardware_type = 1;
    protocol_type = 0x0800;
    hardware_len = 6;
    protocol_len = 4;
    operation = arp_request;
    sender_mac = iface.mac_address;
    sender_ip = iface.ip_address;
    target_mac = replicate 6 0;
    target_ip = target_ip;
  },
)

unfoldable pub arp_send_reply : Interface → ℕ → List ℕ → List ℕ × Packet
arp_send_reply iface target_ip target_mac = (
  target_mac,
  record {
    hardware_type = 1;
    protocol_type = 0x0800;
    hardware_len = 6;
    protocol_len = 4;
    operation = arp_reply;
    sender_mac = iface.mac_address;
    sender_ip = iface.ip_address;
    target_mac = target_mac;
    target_ip = target_ip;
  },
)

-- The reply that is sent, if any, and the table.
unfoldable pub arp_process_packet :
    Interface → Packet → ℕ → ℕ → ArpTable → Option (List ℕ × Packet) × ArpTable
unfolding arp_update_entry arp_send_reply
arp_process_packet iface p now later t =
    let t' : ArpTable = arp_update_entry p.sender_ip p.sender_mac now later t in
    if p.target_ip == iface.ip_address
    then (if p.operation == arp_request
        then (some (arp_send_reply iface p.sender_ip p.sender_mac), t')
        else (none, t'))
    else (none, t')
