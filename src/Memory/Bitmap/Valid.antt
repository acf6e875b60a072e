-- ===== src/Memory/Bitmap/Valid.antt =====
-- What holds of a manager between two calls, and the count of its free blocks.
use cgos.Base.{
  ℕ, zero, suc, ◌*◌, ◌/◌, ◌<◌, ◌≤◌, ◌+◌, ◌-◌, ◌≡◌, refl, Bool, true, false, arith, ◌==◌,
  if◌then◌else◌, length, ℕ_discrete,
}
use cgos.Memory.Bitmap.{
  Manager, block_size, max_blocks, word_mod, bitmap_test_bit, bitmap_set_bit, bitmap_clear_bit,
  bitmap_contains_address, bitmap_address_to_block, bitmap_block_to_address,
}
use cgos.Memory.Bitmap.Bits.{
  IsBytes, test_bit-set_bit, test_bit-clear_bit, set_bit-IsBytes, clear_bit-IsBytes, length-set_bit,
  length-clear_bit,
}

abbrev pub cost : Bool → ℕ
cost used = if used then 0 else 1

-- How many of the first `n` blocks are free.
unfoldable pub free_count : (ℕ → Bool) → ℕ → ℕ
free_count used zero = 0
free_count used (suc n) = free_count used n + cost (used n)

pub free_count-le : (used : ℕ → Bool) (n : ℕ) → free_count used n ≤ n
unfolding free_count
free_count-le used zero = omega arith
free_count-le used (suc n) = ground (arith, free_count-le used n)

-- While a block is free, the count is positive.
pub free_count-pos : (used : ℕ → Bool) (n i : ℕ) → i < n → used i ≡ false → 0 < free_count used n
unfolding free_count
free_count-pos used zero i lt e = absurd (omega arith)
free_count-pos used (suc n) i lt e = elim (ℕ_discrete i n) [
  | yes last ↦ let e' : used n ≡ false = rw last at e in rw e' (omega arith)
  | no below ↦ let ih = free_count-pos used n i (omega arith) e in omega arith
]

-- One block changes: outside of the counted range, or inside.
module _ (used used' : ℕ → Bool) (i : ℕ) (b : Bool) where
  pub free_count-update_of_le :
      (n : ℕ)
      → n ≤ i
      → ((j : ℕ) → used' j ≡ (if i == j then b else used j))
      → free_count used' n ≡ free_count used n
  unfolding free_count
  free_count-update_of_le zero h eq = refl
  free_count-update_of_le (suc n) h eq =
      ground (arith, eq n, free_count-update_of_le n (omega arith) eq)

  pub free_count-update :
      (n : ℕ)
      → i < n
      → ((j : ℕ) → used' j ≡ (if i == j then b else used j))
      → free_count used' n + cost (used i) ≡ free_count used n + cost b
  unfolding free_count
  free_count-update zero h eq = absurd (omega arith)
  free_count-update (suc n) h eq = elim (ℕ_discrete i n) [
    | yes last ↦ rw (← last, free_count-update_of_le i (omega arith) eq) (ground (arith, eq i))
    | no below ↦ ground (arith, eq n, free_count-update n (omega arith) eq)
  ]

pub record IsValid (m : Manager) : Type 0 where
  pub bytes : IsBytes m.bitmap
  pub stored : m.bitmap_size ≤ length m.bitmap
  pub sized : m.bitmap_size ≡ (m.total_blocks + 7) / 8
  pub few : m.total_blocks ≤ max_blocks
  pub counted : m.free_blocks ≡ free_count (bitmap_test_bit m.bitmap) m.total_blocks
  pub based : m.memory_base + m.total_blocks * block_size < word_mod

module _ {m : Manager} (v : IsValid m) where
  open v use {bytes, stored, sized, few, counted, based}

  -- The bit of a managed block lies in the storage.
  pub in_storage : (i : ℕ) → i < m.total_blocks → i / 8 < length m.bitmap
  in_storage i lt = omega arith

  -- Marking one free block used, with the count.
  pub mark-IsValid :
      (i : ℕ)
      → i < m.total_blocks
      → bitmap_test_bit m.bitmap i ≡ false
      → IsValid (record m { bitmap = bitmap_set_bit m.bitmap i; free_blocks = m.free_blocks - 1 })
  mark-IsValid i lt free = record {
    bytes = set_bit-IsBytes m.bitmap i bytes (in_storage i lt);
    stored = omega (arith, length-set_bit m.bitmap i);
    sized = sized;
    few = few;
    counted = ground (
      arith,
      free,
      free_count-update (bitmap_test_bit m.bitmap) (bitmap_test_bit (bitmap_set_bit m.bitmap i)) i
          true m.total_blocks lt (test_bit-set_bit m.bitmap i bytes (in_storage i lt)),
    );
    based = based;
  }

  -- Marking one used block free, with the count.
  pub unmark-IsValid :
      (i : ℕ)
      → i < m.total_blocks
      → bitmap_test_bit m.bitmap i ≡ true
      → IsValid (record m { bitmap = bitmap_clear_bit m.bitmap i; free_blocks = m.free_blocks + 1 })
  unmark-IsValid i lt used = record {
    bytes = clear_bit-IsBytes m.bitmap i bytes (in_storage i lt);
    stored = omega (arith, length-clear_bit m.bitmap i);
    sized = sized;
    few = few;
    counted = ground (
      arith,
      used,
      free_count-update (bitmap_test_bit m.bitmap) (bitmap_test_bit (bitmap_clear_bit m.bitmap i)) i
          false m.total_blocks lt (test_bit-clear_bit m.bitmap i bytes (in_storage i lt)),
    );
    based = based;
  }

  -- Addresses of managed blocks, and back.
  pub address_of :
      (i : ℕ) → i < m.total_blocks → bitmap_block_to_address m i ≡ m.memory_base + i * block_size
  unfolding bitmap_block_to_address
  address_of i lt = omega arith

  pub address_to_block-block_to_address :
      (i : ℕ)
      → i < m.total_blocks
      → (bitmap_contains_address m (bitmap_block_to_address m i) ≡ true)
        × (bitmap_address_to_block m (bitmap_block_to_address m i) ≡ i)
  unfolding bitmap_block_to_address bitmap_contains_address bitmap_address_to_block
  address_to_block-block_to_address i lt = (ground arith, omega arith)

  -- The block of a managed address is a managed block, the one the address lies in.
  pub address_to_block-lt :
      (a : ℕ)
      → bitmap_contains_address m a ≡ true
      → (bitmap_address_to_block m a < m.total_blocks)
        × (bitmap_block_to_address m (bitmap_address_to_block m a) ≤ a)
        × (a < bitmap_block_to_address m (bitmap_address_to_block m a) + block_size)
  unfolding bitmap_block_to_address bitmap_contains_address bitmap_address_to_block
  address_to_block-lt a h = ground arith
