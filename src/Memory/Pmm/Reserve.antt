-- ===== src/Memory/Pmm/Reserve.antt =====
-- physical_reserve_region: it keeps the manager valid, and which block it really takes.
use cgos.Base.{
  ℕ, zero, suc, ◌*◌, ◌/◌, ◌<◌, ◌+◌, ◌-◌, ◌≡◌, ap, true, false, arith, leb, Bool-cases, inl, inr,
}
use cgos.Memory.Bitmap.{
  Manager, block_size, word_mod, wrap, bitmap_test_bit, bitmap_alloc_block, bitmap_free_block,
  release, bitmap_address_to_block, bitmap_block_to_address,
}
use cgos.Memory.Bitmap.Bits.{test_bit-set_bit}
use cgos.Memory.Bitmap.Valid.{IsValid, in_storage, address_to_block-block_to_address}
use cgos.Memory.Bitmap.Alloc.{IsFirst, alloc_block-IsValid, alloc_block-first}
use cgos.Memory.Bitmap.Free.{free_block-IsValid, release-IsValid, test_bit-release, total-release}
use cgos.Memory.Pmm.{physical_reserve_region, reserve_blocks, reserve_round}

reserve_round-IsValid : (m : Manager) (block : ℕ) → IsValid m → IsValid (reserve_round m block)
unfolding reserve_round
reserve_round-IsValid m block v =
    alloc_block-IsValid (free_block-IsValid v (bitmap_block_to_address m block))

pub reserve_blocks-IsValid :
    (m : Manager) (v : IsValid m) (block n : ℕ) → IsValid (reserve_blocks m block n)
unfolding reserve_blocks
reserve_blocks-IsValid m v block zero = v
reserve_blocks-IsValid m v block (suc n) =
    reserve_blocks-IsValid (reserve_round m block) (reserve_round-IsValid m block v) (block + 1) n

-- physical_reserve_region keeps the manager valid, for every region.
pub reserve_region-IsValid :
    (m : Manager) (base size : ℕ) → IsValid m → IsValid (physical_reserve_region m base size).1
unfolding physical_reserve_region
reserve_region-IsValid m base size v =
    elim (Bool-cases (leb m.total_blocks (bitmap_address_to_block m base))) [
      | inl out ↦ rw out v
      | inr inside ↦ rw inside (reserve_blocks-IsValid m v _ _)
    ]

module _ (m : Manager) (v : IsValid m) (b : ℕ) (lt : b < m.total_blocks) where
  one_round :
      physical_reserve_region m (m.memory_base + b * block_size) block_size
      ≡ (true, reserve_round m b)
  unfolding physical_reserve_region bitmap_address_to_block reserve_blocks
  one_round =
      let w = v.based in
      let few = v.few in
      let e1 : wrap (m.memory_base + b * block_size + word_mod - m.memory_base) / block_size ≡ b =
        omega arith in
      let e2 : wrap (
              wrap (m.memory_base + b * block_size + block_size + word_mod - 1)
              + word_mod
              - m.memory_base)
            / block_size
          ≡ b =
        omega arith in
      let out : leb m.total_blocks b ≡ false = ground arith in
      let n : b + 1 - b ≡ 1 = omega arith in rw (e1, e2, out, n)

  freed_here : bitmap_free_block m (bitmap_block_to_address m b) ≡ release m b
  unfolding bitmap_free_block
  freed_here = let (inside, at_b) = address_to_block-block_to_address v b lt in rw (inside, at_b)

  given_back : reserve_round m b ≡ (bitmap_alloc_block (release m b)).1
  unfolding reserve_round
  given_back = ap (λ m'. (bitmap_alloc_block m').1) freed_here

  IsFirst-after : (i : ℕ) → i < b → IsFirst m.bitmap 0 i → IsFirst (release m b).bitmap 0 i
  IsFirst-after i lo f = record {
    from = omega arith;
    free = rw (test_bit-release v b lt i) (ground (arith, f.free));
    below = λ k lo' hi. rw (test_bit-release v b lt k) (ground (arith, f.below k lo' hi));
  }

-- Reserving one page of the managed region does not reserve it if a block below it is free: the
-- block itself ends up free, also if it was in use before, and the first free block is taken in
-- its place.
pub reserve_region-takes_first :
    (m : Manager) (b i : ℕ)
    → IsValid m
    → b < m.total_blocks
    → i < b
    → IsFirst m.bitmap 0 i
    → let m' : Manager =
        (physical_reserve_region m (m.memory_base + b * block_size) block_size).1 in
      (bitmap_test_bit m'.bitmap b ≡ false) × (bitmap_test_bit m'.bitmap i ≡ true)
reserve_region-takes_first m b i v lt lo f =
    let v' = release-IsValid v b lt in
    let f' = IsFirst-after m v b lt i lo f in
    let lt' : i < (release m b).total_blocks = omega (arith, total-release m b) in
    let bit = test_bit-set_bit (release m b).bitmap i v'.bytes (in_storage v' i lt') in
    rw (one_round m v b lt, given_back m v b lt, alloc_block-first v' i lt' f')
      (rw (bit b, test_bit-release v b lt b) (ground arith), rw (bit i) (ground arith))
