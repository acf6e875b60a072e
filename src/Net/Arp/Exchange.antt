-- ===== src/Net/Arp/Exchange.antt =====
-- A request and its reply: both hosts learn each other's hardware address.
use cgos.Base.{ℕ, ◌≡◌, refl, true, List, arith, ◌==◌, none, some}
use cgos.Net.Route.{Interface}
use cgos.Net.Arp.{
  ArpTable, arp_send_request, arp_send_reply, arp_process_packet, arp_update_entry, arp_lookup,
}
use cgos.Net.Arp.Slot.{Fresh}
use cgos.Net.Arp.Table.{IsUpdated, renewed, added, refused, update_entry-IsUpdated}

-- An update is not lost if some entry is older than now.
learned :
    (ip : ℕ) (mac : List ℕ) (now later : ℕ) (t : ArpTable)
    → ¬ Fresh now t.arp_table
    → arp_lookup (arp_update_entry ip mac now later t) ip ≡ some mac
learned ip mac now later t room = go (update_entry-IsUpdated ip mac now later t)
  where
    go : {r : ArpTable} → IsUpdated t ip mac now r → arp_lookup r ip ≡ some mac
    go (renewed self others) = self
    go (added s e at old none_there self others) = self
    go (refused fresh none_there same) = absurd (room fresh)

-- Host `a` asks for the address of host `b`, and `b`'s answer is handed to `a`: `b` answers to the
-- hardware address of `a`, and then each host finds the other's hardware address, if neither table
-- is full of fresh entries.
pub exchange-learned :
    (a b : Interface) (ta tb : ArpTable) (now later : ℕ)
    → ¬ Fresh now ta.arp_table
    → ¬ Fresh now tb.arp_table
    → let (reply, tb') = arp_process_packet b (arp_send_request a b.ip_address).1 now later tb in
      let answer = arp_send_reply b a.ip_address a.mac_address in
      (reply ≡ some answer)
      × (answer.0 ≡ a.mac_address)
      × (arp_lookup tb' a.ip_address ≡ some a.mac_address)
      × (arp_lookup (arp_process_packet a answer.1 now later ta).1 b.ip_address
          ≡ some b.mac_address)
      × ((arp_process_packet a answer.1 now later ta).0 ≡ none)
unfolding arp_process_packet arp_send_request arp_send_reply
exchange-learned a b ta tb now later fa fb =
    let own_a : (a.ip_address == a.ip_address) ≡ true = ground arith in
    let own_b : (b.ip_address == b.ip_address) ≡ true = ground arith in
    rw (own_a, own_b)
      (
        refl,
        refl,
        learned a.ip_address a.mac_address now later tb fb,
        learned b.ip_address b.mac_address now later ta fa,
        refl,
      )
