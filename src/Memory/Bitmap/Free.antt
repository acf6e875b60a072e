-- ===== src/Memory/Bitmap/Free.antt =====
-- bitmap_free_block and bitmap_free_blocks: what they give back, and that they undo an allocation.
use cgos.Base.{
  ℕ, zero, suc, ◌<◌, ◌≤◌, ◌+◌, ◌-◌, ◌≡◌, ◌∙◌, ◌^◌, inl, inr, refl, true, false, arith, ◌==◌,
  if◌then◌else◌, ℕ_discrete, Bool-cases, min,
}
use cgos.Memory.Bitmap.{
  Manager, word_mod, wrap, bitmap_test_bit, bitmap_set_bit, bitmap_clear_bit,
  bitmap_contains_address, bitmap_address_to_block, release, release_blocks, bitmap_free_block,
  bitmap_free_blocks, bitmap_alloc_block, bitmap_get_free_blocks,
}
use cgos.Memory.Bitmap.Bits.{test_bit-set_bit, test_bit-clear_bit, clear_bit-set_bit}
use cgos.Memory.Bitmap.Valid.{
  IsValid, free_count-le, mark-IsValid, unmark-IsValid, address_of, in_storage, address_to_block-lt,
  address_to_block-block_to_address,
}
use cgos.Memory.Bitmap.Alloc.{alloc_block-total}
use cgos.Memory.Bitmap.Claim.{in_run}

-- The manager with block `i` given back.
abbrev unmark : Manager → ℕ → Manager
unmark m i = record m { bitmap = bitmap_clear_bit m.bitmap i; free_blocks = m.free_blocks + 1 }

module _ {m : Manager} (v : IsValid m) (i : ℕ) (lt : i < m.total_blocks) where
  release-used : bitmap_test_bit m.bitmap i ≡ true → release m i ≡ unmark m i
  unfolding release
  release-used used =
      ground (arith, v.counted, v.few, free_count-le (bitmap_test_bit m.bitmap) m.total_blocks)

  release-free : bitmap_test_bit m.bitmap i ≡ false → release m i ≡ m
  unfolding release
  release-free free = ground arith

  pub release-IsValid : IsValid (release m i)
  release-IsValid = elim (Bool-cases (bitmap_test_bit m.bitmap i)) [
    | inl used ↦ rw (release-used used) (unmark-IsValid v i lt used)
    | inr free ↦ rw (release-free free) v
  ]

  pub test_bit-release :
      (j : ℕ)
      → bitmap_test_bit (release m i).bitmap j
        ≡ (if i == j then false else bitmap_test_bit m.bitmap j)
  test_bit-release j = elim (Bool-cases (bitmap_test_bit m.bitmap i)) [
    | inl used ↦
        rw (release-used used) (test_bit-clear_bit m.bitmap i v.bytes (in_storage v i lt) j)
    | inr free ↦ rw (release-free free) (same j free)
  ]
    where
      same :
          (j : ℕ)
          → bitmap_test_bit m.bitmap i ≡ false
          → bitmap_test_bit m.bitmap j ≡ (if i == j then false else bitmap_test_bit m.bitmap j)
      same j free = elim (ℕ_discrete i j) [
        | yes p ↦ rw (← p, free) (ground arith)
        | no p ↦ ground arith
      ]

pub total-release : (m : Manager) (i : ℕ) → (release m i).total_blocks ≡ m.total_blocks
unfolding release
total-release m i = ground arith

-- bitmap_free_block keeps the manager valid, whatever address it is given.
pub free_block-IsValid : {m : Manager} → IsValid m → (a : ℕ) → IsValid (bitmap_free_block m a)
unfolding bitmap_free_block
free_block-IsValid {m} v a = elim (Bool-cases (bitmap_contains_address m a)) [
  | inl inside ↦
      rw inside (release-IsValid v (bitmap_address_to_block m a) (address_to_block-lt v a inside).0)
  | inr outside ↦ rw outside v
]

-- Freeing the block that was allocated last gives the manager back as it was.
pub free_block-alloc_block :
    {m : Manager}
    → IsValid m
    → 0 < bitmap_get_free_blocks m
    → let (a, m') = bitmap_alloc_block m in bitmap_free_block m' a ≡ m
unfolding bitmap_free_block bitmap_get_free_blocks
free_block-alloc_block {m} v pos =
    let (i, lt, f, e) = alloc_block-total v pos in
    let v' = mark-IsValid v i lt f.free in
    let (inside, at_i) = address_to_block-block_to_address v' i lt in
    let here = address_of v' i lt in
    let used : bitmap_test_bit (bitmap_set_bit m.bitmap i) i ≡ true =
      ground (arith, test_bit-set_bit m.bitmap i v.bytes (in_storage v i lt) i) in
    let undone = clear_bit-set_bit m.bitmap i v.bytes (in_storage v i lt) f.free in
    rw (e, ← here, inside, at_i, release-used v' i lt used, undone) (ground arith)

pub release_blocks-IsValid :
    {m : Manager} (v : IsValid m) (i n : ℕ)
    → i + n ≤ m.total_blocks
    → IsValid (release_blocks m i n)
unfolding release_blocks
release_blocks-IsValid v i zero le = v
release_blocks-IsValid {m} v i (suc n) le =
    release_blocks-IsValid {m = release m i} (release-IsValid v i (omega arith)) (i + 1) n
      (omega (arith, total-release m i))

pub test_bit-release_blocks :
    {m : Manager} (v : IsValid m) (i n : ℕ)
    → i + n ≤ m.total_blocks
    → (j : ℕ)
    → bitmap_test_bit (release_blocks m i n).bitmap j
      ≡ (if in_run i n j then false else bitmap_test_bit m.bitmap j)
unfolding release_blocks
test_bit-release_blocks v i zero le j = ground arith
test_bit-release_blocks {m} v i (suc n) le j = ground (
  arith,
  test_bit-release_blocks {m = release m i} (release-IsValid v i (omega arith)) (i + 1) n
      (omega (arith, total-release m i)) j,
  test_bit-release v i (omega arith) j,
)

total-release_blocks :
    (m : Manager) (i n : ℕ) → (release_blocks m i n).total_blocks ≡ m.total_blocks
unfolding release_blocks
total-release_blocks m i zero = refl
total-release_blocks m i (suc n) = total-release_blocks (release m i) (i + 1) n ∙ total-release m i

-- The number of blocks that a call frees: the part of the request that is managed.
abbrev pub freed : Manager → ℕ → ℕ → ℕ
freed m start count = min count (m.total_blocks - start)

free_blocks-eq :
    {m : Manager} (v : IsValid m) (a count : ℕ)
    → bitmap_contains_address m a ≡ true
    → count < 2 ^ 63
    → bitmap_free_blocks m a count
      ≡ release_blocks m (bitmap_address_to_block m a) (freed m (bitmap_address_to_block m a) count)
unfolding bitmap_free_blocks release_blocks
free_blocks-eq {m} v a zero inside small = ground (arith)
free_blocks-eq {m} v a (suc n) inside small = ground (arith, address_to_block-lt v a inside, v.few)

free_blocks-outside :
    {m : Manager} (a count : ℕ)
    → bitmap_contains_address m a ≡ false
    → bitmap_free_blocks m a count ≡ m
unfolding bitmap_free_blocks
free_blocks-outside a count out = ground arith

-- bitmap_free_blocks keeps the manager valid, whatever address it is given, for a count below
-- 2 ^ 63.
pub free_blocks-IsValid :
    {m : Manager}
    → IsValid m
    → (a count : ℕ) → count < 2 ^ 63
    → IsValid (bitmap_free_blocks m a count)
free_blocks-IsValid {m} v a count small = elim (Bool-cases (bitmap_contains_address m a)) [
  | inl inside ↦
      rw (free_blocks-eq v a count inside small)
        (release_blocks-IsValid v _ _ (omega (arith, address_to_block-lt v a inside)))
  | inr outside ↦ rw (free_blocks-outside {m = m} a count outside) v
]

-- For an address in the region and a count below 2 ^ 63 bitmap_free_blocks frees the blocks from
-- the one the address lies in, up to the count or the end of the region, and no other.
pub test_bit-free_blocks :
    {m : Manager}
    → IsValid m
    → (a count : ℕ) → bitmap_contains_address m a ≡ true
    → count < 2 ^ 63
    → (j : ℕ)
    → bitmap_test_bit (bitmap_free_blocks m a count).bitmap j ≡ (
        let start : ℕ = bitmap_address_to_block m a in
        if in_run start (freed m start count) j then false else bitmap_test_bit m.bitmap j)
test_bit-free_blocks {m} v a count inside small j =
    rw (free_blocks-eq v a count inside small)
      (test_bit-release_blocks v _ _ (omega (arith, address_to_block-lt v a inside)) j)

pub total-free_blocks :
    (m : Manager) (a count : ℕ) → (bitmap_free_blocks m a count).total_blocks ≡ m.total_blocks
unfolding bitmap_free_blocks
total-free_blocks m a count = ground (
  arith,
  total-release_blocks m (bitmap_address_to_block m a) count,
  total-release_blocks m (bitmap_address_to_block m a)
      (wrap (m.total_blocks + word_mod - bitmap_address_to_block m a)),
)
