-- ===== src/Memory/Tests.antt =====
-- Concrete runs of the byte routines and of the heap.
use cgos.Base.{
  ℕ, ◌+◌, ◌-◌, ◌*◌, ◌≡◌, ◌≢◌, refl, Bool, true, false, not, ◌&&◌, ◌==◌, List, [], ◌∷◌, arith,
  if◌then◌else◌,
}
use cgos.Memory.Bitmap.{Manager, bitmap_test_bit, bitmap_alloc_blocks}
use cgos.Memory.Bitmap.Valid.{IsValid, free_count}
use cgos.Memory.Pmm.{physical_alloc_pages, physical_get_free_memory}
use cgos.Memory.Bytes.{memmove, within, memmove-moves}
use cgos.Memory.Heap.{Heap, allocation_magic, malloc, free, pages_needed}
use cgos.Memory.Heap.Undo.{free-malloc}

-- The byte at each address is the address; ten bytes move up by three.
memmove-moves_example :
    memmove (λ x. x) 103 100 10 108 ≡ (if within 103 10 108 then 100 + (108 - 103) else 108)
memmove-moves_example = memmove-moves (λ x. x) 103 100 10 108

abbrev pages : Manager
pages = record {
  bitmap = 1 ∷ 0 ∷ [];
  memory_base = 16777216;
  total_blocks = 16;
  free_blocks = 15;
  bitmap_size = 2;
}

pages-IsValid : IsValid pages
unfolding free_count bitmap_test_bit cgos.Base.Bits.test
pages-IsValid = record {
  bytes = (omega arith, (omega arith, tt));
  stored = omega arith;
  sized = omega arith;
  few = omega arith;
  counted = refl;
  based = omega arith;
}

-- A heap with one allocation, on the first page.
abbrev one_allocation : Heap
one_allocation = record {
  pmm = record { phys_mem = pages; total_memory = 65536; reserved_memory = 0; used_memory = 4096 };
  headers = λ a. record { size = 100; magic = allocation_magic; next = 0; prev = 0 };
  allocation_list = 16777216;
  total_allocated = 4096;
  allocation_count = 1;
}

free-malloc_example :
    let (ptr, h') = malloc one_allocation 5000 in
    let f : Heap = free h' ptr in
    (ptr ≢ 0)
    × (f.allocation_list ≡ 16777216)
    × ((x : ℕ)
        → x ≢ (physical_alloc_pages one_allocation.pmm 2).0
        → f.headers x ≡ (
            if not (16777216 == 0) && (x == 16777216)
            then record (one_allocation.headers x) { prev = 0 }
            else one_allocation.headers x))
    × (f.total_allocated ≡ 4096)
    × (f.allocation_count ≡ 1)
    × (f.pmm.used_memory ≡ 4096)
    × (physical_get_free_memory f.pmm ≡ physical_get_free_memory one_allocation.pmm)
unfolding pages_needed physical_alloc_pages bitmap_alloc_blocks cgos.Memory.Bitmap.find_run
    bitmap_test_bit cgos.Base.Bits.test cgos.Memory.Bitmap.bitmap_block_to_address
free-malloc_example =
    free-malloc one_allocation 5000 pages-IsValid (omega arith) (omega arith) (omega arith)
      (omega arith) (omega arith) (omega arith) (omega arith) (omega arith)
