-- ===== src/Memory/Pmm/Tests.antt =====
-- Concrete runs of the physical memory manager.
use cgos.Base.{
  ℕ, zero, suc, ◌+◌, ◌*◌, ◌/◌, ◌<◌, ◌≤◌, ◌≡◌, ◌≢◌, refl, Bool, true, false, List, [], ◌∷◌, Option,
  some, arith, min, inl, inr,
}
use cgos.Memory.Bitmap.{Manager, block_size, max_blocks, bitmap_test_bit, bitmap_alloc_blocks}
use cgos.Memory.Bitmap.Valid.{IsValid, free_count}
use cgos.Memory.Bitmap.Alloc.{IsFirst}
use cgos.Memory.Pmm.{
  Pmm, Entry, physical_alloc_pages, physical_free_pages, physical_get_free_memory,
  physical_reserve_region, physical_memory_init,
}
use cgos.Memory.Pmm.Pages.{alloc_pages, perform, perform-IsValid, free_pages-alloc_pages}
use cgos.Memory.Pmm.Reserve.{reserve_region-takes_first}
use cgos.Memory.Pmm.Largest.{UsableLe, HasRegion}
use cgos.Memory.Pmm.Boot.{memory_init-IsValid}

-- Sixteen blocks, of which block 0 is used.
abbrev managed : Manager
managed = record {
  bitmap = 1 ∷ 0 ∷ [];
  memory_base = 16777216;
  total_blocks = 16;
  free_blocks = 15;
  bitmap_size = 2;
}

managed-IsValid : IsValid managed
unfolding free_count bitmap_test_bit cgos.Base.Bits.test
managed-IsValid = record {
  bytes = (omega arith, (omega arith, tt));
  stored = omega arith;
  sized = omega arith;
  few = omega arith;
  counted = refl;
  based = omega arith;
}

abbrev booted : Pmm
booted = record {
  phys_mem = managed;
  total_memory = 65536;
  reserved_memory = 0;
  used_memory = 4096;
}

alloc_three : (physical_alloc_pages booted 3).0 ≢ 0
unfolding physical_alloc_pages bitmap_alloc_blocks cgos.Memory.Bitmap.find_run bitmap_test_bit
    cgos.Base.Bits.test cgos.Memory.Bitmap.bitmap_block_to_address
alloc_three = omega arith

perform-IsValid_example : IsValid (perform (alloc_pages 3) booted).phys_mem
perform-IsValid_example = perform-IsValid booted (alloc_pages 3) managed-IsValid

free_pages-alloc_pages_example :
    let (a, p') = physical_alloc_pages booted 3 in
    let q : Pmm = physical_free_pages p' a 3 in
    (q.used_memory ≡ 4096)
    × (physical_get_free_memory q ≡ physical_get_free_memory booted)
    × (bitmap_test_bit q.phys_mem.bitmap 2 ≡ bitmap_test_bit managed.bitmap 2)
free_pages-alloc_pages_example =
    free_pages-alloc_pages booted 3 managed-IsValid (omega arith) (omega arith) (omega arith)
      alloc_three 2

one-IsFirst : IsFirst managed.bitmap 0 1
unfolding bitmap_test_bit cgos.Base.Bits.test
one-IsFirst = record { from = omega arith; free = refl; below = λ k lo hi. below_one k hi }
  where
    below_one : (k : ℕ) → k < 1 → bitmap_test_bit managed.bitmap k ≡ true
    below_one zero hi = refl
    below_one (suc k) hi = absurd (omega arith)

reserve_region-takes_first_example :
    let m' : Manager = (physical_reserve_region managed (16777216 + 6 * block_size) block_size).1 in
    (bitmap_test_bit m'.bitmap 6 ≡ false) × (bitmap_test_bit m'.bitmap 1 ≡ true)
reserve_region-takes_first_example =
    reserve_region-takes_first managed 6 1 managed-IsValid (omega arith) (omega arith) one-IsFirst

abbrev memory_map : List Entry
memory_map =
    record { base = 0; size = 4096; usable = false }
    ∷ record { base = 16777216; size = 65536; usable = true }
    ∷ []

memory_init-IsValid_example :
    let (done, p') = physical_memory_init (0 ∷ 0 ∷ []) 4096 2 memory_map booted in
    (done ≡ true)
    × IsValid p'.phys_mem
    × ((size : ℕ) × UsableLe memory_map size
        × ((base : ℕ) × HasRegion memory_map base size
            × (p'.phys_mem.memory_base ≡ base)
            × (p'.phys_mem.total_blocks ≡ min max_blocks (size / block_size))))
memory_init-IsValid_example =
    memory_init-IsValid (0 ∷ 0 ∷ []) 4096 2 memory_map booted (omega arith, (omega arith, tt))
      (omega arith, (omega arith, tt)) (inr (inl (refl, omega arith)))
