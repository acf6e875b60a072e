-- ===== src/Net/Arp/Table.antt =====
-- What arp_lookup finds after arp_update_entry, both of src/network/arp.c.
use cgos.Base.{
  ℕ, zero, suc, ◌<◌, ◌≡◌, ◌≢◌, ◌⊎◌, inl, inr, refl, sym, ap, subst, ◌∙◌, true, false, List, [], ◌∷◌,
  arith, ◌==◌, if◌then◌else◌, set, get_elem?, length, Option, none, some, Bool-cases,
}
use cgos.Net.Arp.{
  Entry, ArpTable, matches, lookup_entry, arp_lookup, find_slot, store_entry, arp_add_entry,
  refresh_entry, arp_update_entry,
}
use cgos.Net.Arp.Slot.{Fresh, Full, Slot, empty, oldest, nowhere, find_slot-Slot}

module _ (ip : ℕ) (mac : List ℕ) (now : ℕ) where
  abbrev new : Entry
  new = record { ip_address = ip; mac_address = mac; timestamp = now; valid = true }

  lookup-set_self :
      (es : List Entry) (s : ℕ)
      → lookup_entry es ip ≡ none
      → s < length es
      → lookup_entry (set es s new) ip ≡ some mac
  unfolding lookup_entry
  lookup-set_self [] s h lt = absurd (omega arith)
  lookup-set_self (e ∷ es) zero h lt = ground arith
  lookup-set_self (e ∷ es) (suc s) h lt = elim (Bool-cases (matches ip e)) [
    | inl m ↦ absurd (let h' : some e.mac_address ≡ none = rw m at h in ground arith)
    | inr m ↦ rw m (lookup-set_self es s (rw m at h) (omega arith))
  ]

  lookup-set_other :
      (es : List Entry) (s : ℕ) (other : ℕ)
      → ip ≢ other
      → ((f : Entry) → get_elem? es s ≡ some f → matches other f ≡ false)
      → lookup_entry (set es s new) other ≡ lookup_entry es other
  unfolding lookup_entry
  lookup-set_other [] s other ne h = refl
  lookup-set_other (e ∷ es) zero other ne h =
      let m = h e refl in let n : (ip == other) ≡ false = ground arith in rw (m, n) refl
  lookup-set_other (e ∷ es) (suc s) other ne h = rw (lookup-set_other es s other ne h) refl

  -- What the search of arp_update_entry does: it renews the entry, or there is none.
  data Refreshed (es : List Entry) (o : Option (List Entry)) : Type 0 where
    known :
        (es' : List Entry)
        → o ≡ some es'
        → lookup_entry es' ip ≡ some mac
        → ((other : ℕ) → ip ≢ other → lookup_entry es' other ≡ lookup_entry es other)
        → Refreshed es o
    unknown : o ≡ none → lookup_entry es ip ≡ none → Refreshed es o

  abbrev keep : Entry → Option (List Entry) → Option (List Entry)
  keep e o = elim o [ none ↦ none | some es' ↦ some (e ∷ es') ]

  keep-Refreshed :
      (e : Entry) (es : List Entry) (o : Option (List Entry))
      → matches ip e ≡ false
      → Refreshed es o
      → Refreshed (e ∷ es) (keep e o)
  unfolding lookup_entry
  keep-Refreshed e es o m (known es' same self others) =
      known (e ∷ es') (ap (keep e) same) (rw m self) (λ other ne. rw (others other ne) refl)
  keep-Refreshed e es o m (unknown same none_there) = unknown (ap (keep e) same) (rw m none_there)

  refresh_entry-Refreshed : (es : List Entry) → Refreshed es (refresh_entry es ip mac now)
  unfolding refresh_entry lookup_entry
  refresh_entry-Refreshed [] = unknown refl refl
  refresh_entry-Refreshed (e ∷ es) = elim (Bool-cases (matches ip e)) [
    | inl m ↦
        subst
          (λ b. Refreshed (e ∷ es) (
            if b
            then some (record e { mac_address = mac; timestamp = now } ∷ es)
            else keep e (refresh_entry es ip mac now)))
          (sym m)
          (known (record e { mac_address = mac; timestamp = now } ∷ es) refl (rw m refl)
            (λ other ne. let n : matches other e ≡ false = ground arith in rw n refl))
    | inr m ↦
        rw m (keep-Refreshed e es (refresh_entry es ip mac now) m (refresh_entry-Refreshed es))
  ]

get_elem?-lt : (es : List Entry) (s : ℕ) (e : Entry) → get_elem? es s ≡ some e → s < length es
get_elem?-lt [] s e h = absurd (let h' : none ≡ some e = h in ground arith)
get_elem?-lt (x ∷ es) zero e h = omega arith
get_elem?-lt (x ∷ es) (suc s) e h = omega (arith, get_elem?-lt es s e h)

-- The entry that gives way to a new one: the first empty one, or, where none is empty, one that is
-- older than now and no younger than any other.
abbrev pub GivesWay : List Entry → ℕ → ℕ → Entry → Type 0
GivesWay es now s e = ((e.valid ≡ false) × Full s es) ⊎ ((e.timestamp < now) × Fresh e.timestamp es)

-- What an update does to the lookups: it renews the entry, or it adds one in the place of the entry
-- `e` that gives way, or the table is full of fresh entries and stays as it is.
pub data IsUpdated (t : ArpTable) (ip : ℕ) (mac : List ℕ) (now : ℕ) (t' : ArpTable) : Type 0 where
  renewed :
      arp_lookup t' ip ≡ some mac
      → ((other : ℕ) → ip ≢ other → arp_lookup t' other ≡ arp_lookup t other)
      → IsUpdated t ip mac now t'
  added :
      (s : ℕ) (e : Entry)
      → get_elem? t.arp_table s ≡ some e
      → GivesWay t.arp_table now s e
      → arp_lookup t ip ≡ none
      → arp_lookup t' ip ≡ some mac
      → ((other : ℕ)
          → ip ≢ other
          → matches other e ≡ false
          → arp_lookup t' other ≡ arp_lookup t other)
      → IsUpdated t ip mac now t'
  refused : Fresh now t.arp_table → arp_lookup t ip ≡ none → t' ≡ t → IsUpdated t ip mac now t'

module _ (ip : ℕ) (mac : List ℕ) (now later : ℕ) (t : ArpTable) where
  stored-IsUpdated :
      (s : ℕ) (e : Entry)
      → get_elem? t.arp_table s ≡ some e
      → GivesWay t.arp_table now s e
      → lookup_entry t.arp_table ip ≡ none
      → IsUpdated t ip mac now (store_entry (some s) ip mac later t).1
  unfolding store_entry arp_lookup
  stored-IsUpdated s e at way none_there =
      added s e at way none_there
        (lookup-set_self ip mac later t.arp_table s none_there (get_elem?-lt t.arp_table s e at))
        (λ other ne m. lookup-set_other ip mac later t.arp_table s other ne (λ f atf.
          subst (λ o. elim o [ none ↦ Unit | some g ↦ matches other g ≡ false ]) (sym at ∙ atf) m))

  add_entry-IsUpdated :
      (r : Option ℕ)
      → Slot t.arp_table 0 now none r
      → lookup_entry t.arp_table ip ≡ none
      → IsUpdated t ip mac now (store_entry r ip mac later t).1
  unfolding store_entry arp_lookup
  add_entry-IsUpdated r (empty s e same at free full) none_there =
      subst (λ o. IsUpdated t ip mac now (store_entry o ip mac later t).1)
        (sym (same ∙ ap some (omega arith))) (stored-IsUpdated s e at (inl (free, full)) none_there)
  add_entry-IsUpdated r (oldest s e same at lt fresh) none_there =
      subst (λ o. IsUpdated t ip mac now (store_entry o ip mac later t).1)
        (sym (same ∙ ap some (omega arith))) (stored-IsUpdated s e at (inr (lt, fresh)) none_there)
  add_entry-IsUpdated r (nowhere same fresh) none_there =
      subst (λ o. IsUpdated t ip mac now (store_entry o ip mac later t).1) (sym same)
        (refused fresh none_there refl)

  abbrev updated : Option (List Entry) → ArpTable
  updated o = elim o [
    | some es ↦ record t { arp_table = es }
    | none ↦ (arp_add_entry ip mac now later t).1
  ]

  -- An update makes the address known and changes the lookup of no other address, except that of the
  -- entry that gives way: the first empty one, or, where none is empty, one that is older than now
  -- and no younger than any other. Or the table is full of entries no older than now, and the update
  -- is lost.
  pub update_entry-IsUpdated : IsUpdated t ip mac now (arp_update_entry ip mac now later t)
  unfolding arp_update_entry arp_lookup arp_add_entry
  update_entry-IsUpdated = go (refresh_entry-Refreshed ip mac now t.arp_table)
    where
      go :
          Refreshed ip mac now t.arp_table (refresh_entry t.arp_table ip mac now)
          → IsUpdated t ip mac now (updated (refresh_entry t.arp_table ip mac now))
      go (known es' same self others) =
          subst (λ o. IsUpdated t ip mac now (updated o)) (sym same) (renewed self others)
      go (unknown same none_there) =
          subst (λ o. IsUpdated t ip mac now (updated o)) (sym same)
            (add_entry-IsUpdated (find_slot t.arp_table 0 none now)
              (find_slot-Slot t.arp_table 0 none now) none_there)
