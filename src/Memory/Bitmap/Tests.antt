-- ===== src/Memory/Bitmap/Tests.antt =====
-- Concrete runs of the bitmap allocator on a region of sixteen blocks at 16 MiB.
use cgos.Base.{
  ℕ, zero, suc, ◌+◌, ◌*◌, ◌/◌, ◌<◌, ◌≤◌, ◌≡◌, ◌≢◌, refl, Bool, true, false, List, [], ◌∷◌, Option,
  some, arith, if◌then◌else◌, min,
}
use cgos.Memory.Bitmap.{
  Manager, block_size, max_blocks, bitmap_test_bit, bitmap_init, bitmap_get_free_blocks,
  bitmap_contains_address, bitmap_address_to_block, bitmap_block_to_address, bitmap_alloc_block,
  bitmap_alloc_blocks, bitmap_free_block, bitmap_free_blocks,
}
use cgos.Memory.Bitmap.Valid.{IsValid, free_count}
use cgos.Memory.Bitmap.Taken.{Allocated, alloc_blocks-Allocated}
use cgos.Memory.Bitmap.Undo.{free_blocks-alloc_blocks}

-- Blocks 0, 1 and 3 are used.
abbrev sixteen : Manager
sixteen = record {
  bitmap = 11 ∷ 0 ∷ [];
  memory_base = 16777216;
  total_blocks = 16;
  free_blocks = 13;
  bitmap_size = 2;
}

sixteen-IsValid : IsValid sixteen
unfolding free_count bitmap_test_bit cgos.Base.Bits.test
sixteen-IsValid = record {
  bytes = (omega arith, (omega arith, tt));
  stored = omega arith;
  sized = omega arith;
  few = omega arith;
  counted = refl;
  based = omega arith;
}

-- A run of two blocks starts behind block 3.
alloc_two_nonzero : (bitmap_alloc_blocks sixteen 2).0 ≢ 0
unfolding bitmap_alloc_blocks cgos.Memory.Bitmap.find_run bitmap_test_bit cgos.Base.Bits.test
    cgos.Memory.Bitmap.bitmap_block_to_address
alloc_two_nonzero = omega arith

alloc_blocks-Allocated_example : Allocated sixteen 2 (bitmap_alloc_blocks sixteen 2)
alloc_blocks-Allocated_example = alloc_blocks-Allocated sixteen-IsValid 2 (omega arith)

free_blocks-alloc_blocks_example :
    let (a, m') = bitmap_alloc_blocks sixteen 2 in
    (bitmap_test_bit (bitmap_free_blocks m' a 2).bitmap 5 ≡ bitmap_test_bit sixteen.bitmap 5)
    × ((bitmap_free_blocks m' a 2).free_blocks ≡ 13)
free_blocks-alloc_blocks_example =
    free_blocks-alloc_blocks sixteen-IsValid 2 (omega arith) alloc_two_nonzero 5
