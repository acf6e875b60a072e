-- ===== src/Memory/Pmm.antt =====
-- src/memory/pmm.c: the physical pages, one bitmap manager over the largest usable region.
pub mod Pages
pub mod Reserve
pub mod Boot
pub mod Largest
mod Tests
use cgos.Base.{
  ℕ, zero, suc, ◌+◌, ◌-◌, ◌*◌, Bool, true, false, ◌||◌, Option, none, some, List, [], ◌∷◌, ltb, leb,
  ◌==◌, if◌then◌else◌,
}
use cgos.Memory.Bitmap.{
  Manager, block_size, word_mod, wrap, bitmap_init, bitmap_alloc_block, bitmap_alloc_blocks,
  bitmap_free_block, bitmap_free_blocks, bitmap_get_free_blocks, bitmap_contains_address,
  bitmap_address_to_block, bitmap_block_to_address,
}

-- The statics `phys_mem`, `total_memory`, `reserved_memory` and `used_memory`.
pub record Pmm : Type 0 where
  pub phys_mem : Manager
  pub total_memory : ℕ
  pub reserved_memory : ℕ
  pub used_memory : ℕ

-- A Limine memory map entry; `usable` says that its type is LIMINE_MEMMAP_USABLE.
pub record Entry : Type 0 where
  pub base : ℕ
  pub size : ℕ
  pub usable : Bool

unfoldable pub physical_alloc_page : Pmm → ℕ × Pmm
physical_alloc_page p =
    let (page, m) = bitmap_alloc_block p.phys_mem in
    (
      page,
      if page == 0
          then record p { phys_mem = m }
          else record p { phys_mem = m; used_memory = wrap (p.used_memory + block_size) },
    )

unfoldable pub physical_alloc_pages : Pmm → ℕ → ℕ × Pmm
physical_alloc_pages p count =
    let (pages, m) = bitmap_alloc_blocks p.phys_mem count in
    (
      pages,
      if pages == 0 then record p { phys_mem = m } else record p {
        phys_mem = m;
        used_memory = wrap (p.used_memory + wrap (count * block_size));
      },
    )

-- `if (used_memory >= n) used_memory -= n;`
unfoldable pub less_used : ℕ → ℕ → ℕ
less_used used n = if leb n used then used - n else used

unfoldable pub physical_free_page : Pmm → ℕ → Pmm
physical_free_page p page =
    if bitmap_contains_address p.phys_mem page
    then record p {
      phys_mem = bitmap_free_block p.phys_mem page;
      used_memory = less_used p.used_memory block_size;
    }
    else p

unfoldable pub physical_free_pages : Pmm → ℕ → ℕ → Pmm
physical_free_pages p pages count =
    if bitmap_contains_address p.phys_mem pages
    then record p {
      phys_mem = bitmap_free_blocks p.phys_mem pages count;
      used_memory = less_used p.used_memory (wrap (count * block_size));
    }
    else p

-- One round of the loop of `physical_reserve_region`: the block is freed, then one is allocated.
unfoldable pub reserve_round : Manager → ℕ → Manager
reserve_round m block =
    (bitmap_alloc_block (bitmap_free_block m (bitmap_block_to_address m block))).1

-- The loop from `block` on, with `n` blocks to go.
unfoldable pub reserve_blocks : Manager → ℕ → ℕ → Manager
reserve_blocks m block zero = m
reserve_blocks m block (suc n) = reserve_blocks (reserve_round m block) (block + 1) n

-- The manager is the only state that it changes. The loop runs while `block <= end_block`.
unfoldable pub physical_reserve_region : Manager → ℕ → ℕ → Bool × Manager
physical_reserve_region m base size =
    let start : ℕ = bitmap_address_to_block m base in
    let last : ℕ = bitmap_address_to_block m (wrap (base + size + word_mod - 1)) in
    let end_block : ℕ = if leb m.total_blocks last then m.total_blocks - 1 else last in
    if leb m.total_blocks start
    then (false, m)
    else (true, reserve_blocks m start (end_block + 1 - start))

-- The locals of the first loop of `physical_memory_init`, and the two statics that it adds to;
-- `largest` is the index and the entry of `largest_region`.
pub record Scan : Type 0 where
  pub total : ℕ
  pub reserved : ℕ
  pub largest : Option (ℕ × Entry)
  pub largest_size : ℕ

unfoldable pub scan_entry : ℕ → Entry → Scan → Scan
scan_entry i e s =
    if e.usable
    then record s {
      total = wrap (s.total + e.size);
      largest = if ltb s.largest_size e.size then some (i, e) else s.largest;
      largest_size = if ltb s.largest_size e.size then e.size else s.largest_size;
    }
    else record s { reserved = wrap (s.reserved + e.size) }

unfoldable pub scan_entries : ℕ → List Entry → Scan → Scan
scan_entries i [] s = s
scan_entries i (e ∷ es) s = scan_entries (i + 1) es (scan_entry i e s)

-- The second loop: `chosen` is the index of `largest_region`.
unfoldable pub reserve_entry : ℕ → ℕ → Entry → Manager → Manager
reserve_entry chosen i e m =
    if i == chosen
    then m
    else if e.usable
    then m
    else if bitmap_contains_address m e.base
        || bitmap_contains_address m (wrap (e.base + e.size + word_mod - 1))
    then (physical_reserve_region m e.base e.size).1
    else m

unfoldable pub reserve_entries : ℕ → ℕ → List Entry → Manager → Manager
reserve_entries chosen i [] m = m
reserve_entries chosen i (e ∷ es) m = reserve_entries chosen (i + 1) es (reserve_entry chosen i e m)

-- `storage` is the static array `bitmap_storage`, of `storage_size` bytes at `storage_at`. The map
-- is not null. The result is that of the function, with the statics after it.
unfoldable pub physical_memory_init : List ℕ → ℕ → ℕ → List Entry → Pmm → Bool × Pmm
physical_memory_init storage storage_at storage_size memmap p =
    let s = scan_entries 0 memmap (record {
      total = p.total_memory;
      reserved = p.reserved_memory;
      largest = none;
      largest_size = 0;
    }) in
    let p' : Pmm = record p { total_memory = s.total; reserved_memory = s.reserved } in
    elim s.largest [
      | none ↦ (false, p')
      | some (chosen, e) ↦ elim (bitmap_init storage e.base s.largest_size) [
        | none ↦ (false, p')
        | some m ↦
            let m' = reserve_entries chosen 0 memmap m in
            (true, record p' { phys_mem = (physical_reserve_region m' storage_at storage_size).1 })
      ]
    ]

unfoldable pub physical_get_total_memory : Pmm → ℕ
physical_get_total_memory p = p.total_memory

unfoldable pub physical_get_used_memory : Pmm → ℕ
physical_get_used_memory p = wrap (p.used_memory + p.reserved_memory)

unfoldable pub physical_get_free_memory : Pmm → ℕ
physical_get_free_memory p = wrap (bitmap_get_free_blocks p.phys_mem * block_size)
