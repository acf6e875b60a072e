-- ===== src/Net/Dhcp/Lease.antt =====
-- What the DHCP client of src/network/dhcp.c does with its lease.
use cgos.Base.{
  ℕ, ◌+◌, ◌-◌, ◌%◌, ◌^◌, ◌≤◌, ◌≡◌, ◌≢◌, inl, inr, refl, ap, ◌∙◌, true, false, List, [], ◌∷◌, ◌++◌,
  leb, ◌==◌, arith, Bool-cases,
}
use cgos.Net.Udp.{Sent}
use cgos.Net.Dhcp.{requesting, bound, Client, dhcp_client_request}
use cgos.Net.Dhcp.Receive.{dhcp_client_update, update_state}

-- The updates of a client, one for each time, with all packets that they send.
abbrev pub updates : List ℕ → Client → ℕ → List Sent × Client
updates [] client xids = ([], client)
updates (now ∷ times) client xids =
    let r = dhcp_client_update true now client xids in
    let further = updates times r.0.1 r.1 in (r.0.0 ++ further.0, further.1)

-- A client that waits for the answer to its request is left as it is.
waits :
    (now : ℕ) (client : Client) (xids : ℕ)
    → dhcp_client_update true now (record client { state = requesting }) xids
      ≡ (([], record client { state = requesting }), xids)
unfolding dhcp_client_update update_state
waits now client xids = elim (Bool-cases client.active) [ inl e ↦ rw e refl | inr e ↦ rw e refl ]

waits_on :
    (times : List ℕ) (client : Client) (xids : ℕ)
    → updates times (record client { state = requesting }) xids
      ≡ ([], record client { state = requesting })
waits_on [] client xids = refl
waits_on (now ∷ times) client xids =
    ap (λ r. (r.0.0 ++ (updates times r.0.1 r.1).0, (updates times r.0.1 r.1).1))
      (waits now client xids)
    ∙ waits_on times client xids

-- The update that finds the renewal time over.
renews :
    (now : ℕ) (client : Client) (xids : ℕ)
    → client.offered_ip ≢ 0
    → client.renewal_time ≤ (now + 2 ^ 32 - client.lease_start_time) % 2 ^ 32
    → (dhcp_client_update true now (record client { state = bound; active = true }) xids).0.1
      ≡ record client { state = requesting; active = true }
unfolding dhcp_client_update update_state dhcp_client_request
renews now client xids offered over =
    let e : leb client.renewal_time ((now + 2 ^ 32 - client.lease_start_time) % 2 ^ 32) ≡ true =
      ground arith in
    let f : (client.offered_ip == 0) ≡ false = ground arith in rw (e, f) refl

-- An active bound client with an offered address, whose renewal time is over and whose request is
-- sent, waits for the answer without end: the later updates, whatever their times, send no packet,
-- the client stays active in the state REQUESTING, and its interface stays as it is.
pub update-never_expires :
    (now : ℕ) (times : List ℕ) (client : Client) (xids xids' : ℕ)
    → client.state ≡ bound
    → client.active ≡ true
    → client.offered_ip ≢ 0
    → client.renewal_time ≤ (now + 2 ^ 32 - client.lease_start_time) % 2 ^ 32
    → let later = updates times (dhcp_client_update true now client xids).0.1 xids' in
      (later.0 ≡ [])
      × (later.1.state ≡ requesting)
      × (later.1.active ≡ true)
      × (later.1.iface ≡ client.iface)
update-never_expires now times client xids xids' is_bound is_active offered over =
    let same : client ≡ record client { state = bound; active = true } =
      λ i. record client { state = is_bound i; active = is_active i } in
    let step =
      ap (λ c. (dhcp_client_update true now c xids).0.1) same
      ∙ renews now client xids offered over in
    let ends =
      ap (λ c. updates times c xids') step
      ∙ waits_on times (record client { active = true }) xids' in
    (
      ap (λ r. r.0) ends,
      ap (λ r. r.1.state) ends,
      ap (λ r. r.1.active) ends,
      ap (λ r. r.1.iface) ends,
    )
