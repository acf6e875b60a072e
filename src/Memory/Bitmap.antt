-- ===== src/Memory/Bitmap.antt =====
-- src/memory/bitmap_mem.c and bitmap_mem.h: the block allocator over a bitmap.
-- Every caller passes `&phys_mem`, so the manager is never null; an operation takes its state and
-- returns the new one. An address is a number below 2 ^ 64, and 0 is NULL.
pub mod Bits
pub mod Valid
pub mod Init
pub mod Alloc
pub mod Run
pub mod Claim
pub mod Taken
pub mod Free
pub mod Undo
mod Tests
use cgos.Base.{
  ℕ, zero, suc, ◌+◌, ◌-◌, ◌*◌, ◌/◌, ◌%◌, ◌^◌, Bool, not, ◌&&◌, ◌||◌, Option, none, some, List, ◌++◌,
  ltb, leb, ◌==◌, if◌then◌else◌, get_or, set, drop, replicate,
}
use cgos.Base.Bits.{test, put, clear}

-- BITMAP_BLOCK_SIZE
abbrev pub block_size : ℕ
block_size = 4096

-- BITMAP_MAX_BLOCKS
abbrev pub max_blocks : ℕ
max_blocks = 32768

-- `size_t` and `uintptr_t` arithmetic wraps at 2 ^ 64.
abbrev pub word_mod : ℕ
word_mod = 2 ^ 64

abbrev pub wrap : ℕ → ℕ
wrap n = n % word_mod

-- `bitmap_memory_manager_t`; the storage that `bitmap` points to is its list of bytes.
pub record Manager : Type 0 where
  pub bitmap : List ℕ
  pub memory_base : ℕ
  pub total_blocks : ℕ
  pub free_blocks : ℕ
  pub bitmap_size : ℕ

-- BITMAP_TEST_BIT, and the function of that name.
unfoldable pub bitmap_test_bit : List ℕ → ℕ → Bool
bitmap_test_bit bitmap bit = test (get_or bitmap (bit / 8) 0) (bit % 8)

-- BITMAP_SET_BIT
unfoldable pub bitmap_set_bit : List ℕ → ℕ → List ℕ
bitmap_set_bit bitmap bit = set bitmap (bit / 8) (put (get_or bitmap (bit / 8) 0) (bit % 8))

-- BITMAP_CLEAR_BIT
unfoldable pub bitmap_clear_bit : List ℕ → ℕ → List ℕ
bitmap_clear_bit bitmap bit = set bitmap (bit / 8) (clear (get_or bitmap (bit / 8) 0) (bit % 8))

-- `none` is the result false. The storage pointer is a static array, never null; the manager
-- holds the whole of it, and `memset` clears its first `bitmap_size` bytes.
unfoldable pub bitmap_init : List ℕ → ℕ → ℕ → Option Manager
bitmap_init storage base size =
    let blocks : ℕ = size / block_size in
    let total : ℕ = if ltb max_blocks blocks then max_blocks else blocks in
    let bytes : ℕ = (total + 7) / 8 in
    if size == 0
    then none
    else some (record {
      bitmap = replicate bytes 0 ++ drop bytes storage;
      memory_base = base;
      total_blocks = total;
      free_blocks = total;
      bitmap_size = bytes;
    })

unfoldable pub bitmap_get_free_blocks : Manager → ℕ
bitmap_get_free_blocks m = m.free_blocks

unfoldable pub bitmap_contains_address : Manager → ℕ → Bool
bitmap_contains_address m addr =
    leb m.memory_base addr && ltb addr (wrap (m.memory_base + wrap (m.total_blocks * block_size)))

unfoldable pub bitmap_address_to_block : Manager → ℕ → ℕ
bitmap_address_to_block m addr = wrap (addr + word_mod - m.memory_base) / block_size

unfoldable pub bitmap_block_to_address : Manager → ℕ → ℕ
bitmap_block_to_address m block = wrap (m.memory_base + wrap (block * block_size))

-- The scan of `bitmap_alloc_block` from block `i`, with `n` blocks to go.
unfoldable pub first_free : List ℕ → ℕ → ℕ → Option ℕ
first_free bitmap zero i = none
first_free bitmap (suc n) i =
    let rest = first_free bitmap n (i + 1) in if bitmap_test_bit bitmap i then rest else some i

-- `manager->free_blocks--` runs only at a count that is not 0.
unfoldable pub bitmap_alloc_block : Manager → ℕ × Manager
bitmap_alloc_block m =
    if m.free_blocks == 0 then (0, m) else elim (first_free m.bitmap m.total_blocks 0) [
      | none ↦ (0, m)
      | some i ↦ (
        bitmap_block_to_address m i,
        record m { bitmap = bitmap_set_bit m.bitmap i; free_blocks = m.free_blocks - 1 },
      )
    ]

-- `for (j = 0; j < count; j++) BITMAP_SET_BIT(manager->bitmap, start_block + j)`
unfoldable pub set_blocks : List ℕ → ℕ → ℕ → List ℕ
set_blocks bitmap start zero = bitmap
set_blocks bitmap start (suc n) = set_blocks (bitmap_set_bit bitmap start) (start + 1) n

-- The scan of `bitmap_alloc_blocks` from block `i`, with `n` blocks to go: the start of the first
-- run of `count` free blocks.
unfoldable pub find_run : List ℕ → ℕ → ℕ → ℕ → ℕ → ℕ → Option ℕ
find_run bitmap count zero i start contiguous = none
find_run bitmap count (suc n) i start contiguous =
    let start' : ℕ = if contiguous == 0 then i else start in
    let used = find_run bitmap count n (i + 1) start 0 in
    let more = find_run bitmap count n (i + 1) start' (contiguous + 1) in
    if bitmap_test_bit bitmap i
    then used
    else if (contiguous + 1) == count
    then some start'
    else more

unfoldable pub bitmap_alloc_blocks : Manager → ℕ → ℕ × Manager
bitmap_alloc_blocks m count =
    if (count == 0) || ltb m.free_blocks count
    then (0, m)
    else if count == 1
    then bitmap_alloc_block m
    else elim (find_run m.bitmap count m.total_blocks 0 0 0) [
      | none ↦ (0, m)
      | some start ↦ (
        bitmap_block_to_address m start,
        record m { bitmap = set_blocks m.bitmap start count; free_blocks = m.free_blocks - count },
      )
    ]

-- Clear the block's bit if it is set, and count it.
unfoldable pub release : Manager → ℕ → Manager
release m block =
    if bitmap_test_bit m.bitmap block
    then record m {
      bitmap = bitmap_clear_bit m.bitmap block;
      free_blocks = wrap (m.free_blocks + 1);
    }
    else m

unfoldable pub bitmap_free_block : Manager → ℕ → Manager
bitmap_free_block m addr =
    if bitmap_contains_address m addr then release m (bitmap_address_to_block m addr) else m

-- The loop of `bitmap_free_blocks` from `block` on.
unfoldable pub release_blocks : Manager → ℕ → ℕ → Manager
release_blocks m block zero = m
release_blocks m block (suc n) = release_blocks (release m block) (block + 1) n

unfoldable pub bitmap_free_blocks : Manager → ℕ → ℕ → Manager
bitmap_free_blocks m addr count =
    let start : ℕ = bitmap_address_to_block m addr in
    let blocks : ℕ =
      if ltb m.total_blocks (wrap (start + count))
      then wrap (m.total_blocks + word_mod - start)
      else count in
    if bitmap_contains_address m addr && not (count == 0) then release_blocks m start blocks else m
