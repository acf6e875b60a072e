-- ===== src/Memory/Pmm/Boot.antt =====
-- physical_memory_init: the largest usable region is found, and its manager is valid.
use cgos.Base.{
  ℕ, zero, suc, ◌/◌, ◌<◌, ◌+◌, ◌-◌, ◌≡◌, refl, sym, subst, ◌∙◌, Bool, true, arith, ◌==◌, leb, ◌||◌,
  Bool-cases, inl, inr, min, List, [], ◌∷◌, Option, none, some,
}
use cgos.Memory.Bitmap.{
  Manager, block_size, max_blocks, word_mod, wrap, bitmap_contains_address, bitmap_init,
  bitmap_alloc_block, bitmap_free_block, bitmap_address_to_block, bitmap_block_to_address, release,
}
use cgos.Memory.Bitmap.Bits.{IsBytes}
use cgos.Memory.Bitmap.Valid.{IsValid}
use cgos.Memory.Bitmap.Init.{init-IsValid}
use cgos.Memory.Pmm.{
  Pmm, Entry, Scan, scan_entries, reserve_entry, reserve_entries, reserve_blocks, reserve_round,
  physical_reserve_region, physical_memory_init,
}
use cgos.Memory.Pmm.Largest.{
  IsSound, HasUsable, UsableLe, HasRegion, IsFound, entries-IsFound, entries-largest, HasUsable-pos,
}
use cgos.Memory.Pmm.Reserve.{reserve_region-IsValid}

entry-IsValid :
    (chosen i : ℕ) (e : Entry) (m : Manager) → IsValid m → IsValid (reserve_entry chosen i e m)
unfolding reserve_entry
entry-IsValid chosen i e m v = elim (Bool-cases (i == chosen)) [
  | inl p ↦ rw p v
  | inr p ↦ elim (Bool-cases e.usable) [
    | inl u ↦ rw (p, u) v
    | inr u ↦
        elim (Bool-cases (
          bitmap_contains_address m e.base
          || bitmap_contains_address m (wrap (e.base + e.size + word_mod - 1)))) [
            | inl t ↦ rw (p, u, t) (reserve_region-IsValid m e.base e.size v)
            | inr t ↦ rw (p, u, t) v
          ]
  ]
]

entries-IsValid :
    (chosen i : ℕ) (es : List Entry) (m : Manager)
    → IsValid m
    → IsValid (reserve_entries chosen i es m)
unfolding reserve_entries
entries-IsValid chosen i [] m v = v
entries-IsValid chosen i (e ∷ es) m v =
    entries-IsValid chosen (i + 1) es _ (entry-IsValid chosen i e m v)

-- The manager is of the same region.
abbrev Same : Manager → Manager → Type 0
Same old new = (new.total_blocks ≡ old.total_blocks) × (new.memory_base ≡ old.memory_base)

Same-trans : {x y z u v w : ℕ} → (y ≡ x) × (v ≡ u) → (z ≡ y) × (w ≡ v) → (z ≡ x) × (w ≡ u)
Same-trans (p, q) (p', q') = (p' ∙ p, q' ∙ q)

alloc_block-Same : (m : Manager) → Same m (bitmap_alloc_block m).1
unfolding bitmap_alloc_block
alloc_block-Same m = (ground arith, ground arith)

free_block-Same : (m : Manager) (a : ℕ) → Same m (bitmap_free_block m a)
unfolding bitmap_free_block release
free_block-Same m a = (ground arith, ground arith)

reserve_round-Same : (m : Manager) (b : ℕ) → Same m (reserve_round m b)
unfolding reserve_round
reserve_round-Same m b =
    Same-trans (free_block-Same m (bitmap_block_to_address m b)) (alloc_block-Same _)

reserve_blocks-Same : (m : Manager) (b n : ℕ) → Same m (reserve_blocks m b n)
unfolding reserve_blocks
reserve_blocks-Same m b zero = (refl, refl)
reserve_blocks-Same m b (suc n) =
    Same-trans (reserve_round-Same m b) (reserve_blocks-Same (reserve_round m b) (b + 1) n)

reserve_region-Same : (m : Manager) (base size : ℕ) → Same m (physical_reserve_region m base size).1
unfolding physical_reserve_region
reserve_region-Same m base size =
    elim (Bool-cases (leb m.total_blocks (bitmap_address_to_block m base))) [
      | inl out ↦ rw out (refl, refl)
      | inr inside ↦ rw inside (reserve_blocks-Same m _ _)
    ]

reserve_entry-Same : (chosen i : ℕ) (e : Entry) (m : Manager) → Same m (reserve_entry chosen i e m)
unfolding reserve_entry
reserve_entry-Same chosen i e m =
    let same = reserve_region-Same m e.base e.size in
    (ground (arith, same.0), ground (arith, same.1))

reserve_entries-Same :
    (chosen i : ℕ) (es : List Entry) (m : Manager) → Same m (reserve_entries chosen i es m)
unfolding reserve_entries
reserve_entries-Same chosen i [] m = (refl, refl)
reserve_entries-Same chosen i (e ∷ es) m =
    Same-trans (reserve_entry-Same chosen i e m) (reserve_entries-Same chosen (i + 1) es _)

-- With the scan done: what the rest of physical_memory_init does.
module _ (storage : List ℕ) (at_addr bytes : ℕ) (es : List Entry) (p : Pmm)
    (hb : IsBytes storage) where
  abbrev scanned : Scan
  scanned = scan_entries 0 es (record {
    total = p.total_memory;
    reserved = p.reserved_memory;
    largest = none;
    largest_size = 0;
  })

  abbrev Booted : Bool × Pmm → Type 0
  Booted r =
      (r.0 ≡ true)
      × IsValid r.1.phys_mem
      × ((base : ℕ) × HasRegion es base scanned.largest_size
          × (r.1.phys_mem.memory_base ≡ base)
          × (r.1.phys_mem.total_blocks ≡ min max_blocks (scanned.largest_size / block_size)))

  booted :
      {i : ℕ} {ent : Entry} {m : Manager}
      → scanned.largest ≡ some (i, ent)
      → bitmap_init storage ent.base scanned.largest_size ≡ some m
      → physical_memory_init storage at_addr bytes es p ≡ (
        true,
        record p {
          total_memory = scanned.total;
          reserved_memory = scanned.reserved;
          phys_mem = (physical_reserve_region (reserve_entries i 0 es m) at_addr bytes).1;
        },
      )
  unfolding physical_memory_init
  booted e made = ground (arith, e, made)

  boot :
      (o : Option (ℕ × Entry))
      → scanned.largest ≡ o
      → IsFound es o scanned.largest_size
      → 0 < scanned.largest_size
      → Booted (physical_memory_init storage at_addr bytes es p)
  boot none e f pos = absurd (omega arith)
  boot (some (i, ent)) e f pos =
      let (m, made, v, b, t, fr) =
        init-IsValid storage ent.base scanned.largest_size hb (omega arith) (omega arith) in
      let reserved =
        Same-trans (reserve_entries-Same i 0 es m) (reserve_region-Same _ at_addr bytes) in
      rw (booted e made) (
        refl,
        reserve_region-IsValid _ at_addr bytes (entries-IsValid i 0 es m v),
        (ent.base, subst (HasRegion es ent.base) (sym f.0) f.3, reserved.1 ∙ b, reserved.0 ∙ t),
      )

-- Where the map has a usable region that is not empty, and none that reaches the end of the
-- address space, physical_memory_init succeeds: the bitmap is consistent, and it manages the
-- blocks from the base of a usable region of the map on, as many as the region has
-- (BITMAP_MAX_BLOCKS at most), and no usable region is larger.
pub memory_init-IsValid :
    (storage : List ℕ) (at_addr bytes : ℕ) (es : List Entry) (p : Pmm)
    → IsBytes storage
    → IsSound es
    → HasUsable es
    → let (done, p') = physical_memory_init storage at_addr bytes es p in
      (done ≡ true)
      × IsValid p'.phys_mem
      × ((size : ℕ) × UsableLe es size
          × ((base : ℕ) × HasRegion es base size
              × (p'.phys_mem.memory_base ≡ base)
              × (p'.phys_mem.total_blocks ≡ min max_blocks (size / block_size))))
memory_init-IsValid storage at_addr bytes es p hb sound has =
    let s = scanned storage at_addr bytes es p hb in
    let largest = entries-largest 0 es _ in
    let r =
      boot storage at_addr bytes es p hb _ refl (entries-IsFound es 0 es _ sound (λ b n h. h) refl)
        (HasUsable-pos es _ has largest) in
    (r.0, r.1, (s.largest_size, largest, r.2))
