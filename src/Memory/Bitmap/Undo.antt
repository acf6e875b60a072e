-- ===== src/Memory/Bitmap/Undo.antt =====
-- bitmap_free_blocks on what bitmap_alloc_blocks returned.
use cgos.Base.{
  ℕ, zero, suc, ◌*◌, ◌<◌, ◌≤◌, ◌+◌, ◌≡◌, ◌≢◌, refl, sym, ◌∙◌, ap, Bool, true, arith, Bool-cases,
  inl, inr,
}
use cgos.Memory.Bitmap.{
  Manager, block_size, bitmap_test_bit, bitmap_contains_address, bitmap_address_to_block,
  bitmap_free_blocks, bitmap_alloc_blocks,
}
use cgos.Memory.Bitmap.Valid.{IsValid, free_count, address_of, address_to_block-block_to_address}
use cgos.Memory.Bitmap.Run.{AllFree}
use cgos.Memory.Bitmap.Claim.{
  in_run, mark_run, mark_run-IsValid, test_bit-mark_run, Outcome, taken, refused,
  alloc_blocks-Outcome,
}
use cgos.Memory.Bitmap.Free.{test_bit-free_blocks, free_blocks-IsValid, total-free_blocks}

free_count-cong : (u w : ℕ → Bool) (n : ℕ) → ((j : ℕ) → u j ≡ w j) → free_count u n ≡ free_count w n
unfolding free_count
free_count-cong u w zero h = refl
free_count-cong u w (suc n) h = rw (free_count-cong u w n h, h n)

module _ {m : Manager} (v : IsValid m) (s count : ℕ) (pos : 0 < count)
    (le : s + count ≤ m.total_blocks) (free : AllFree m.bitmap s count) where
  abbrev held : Manager
  held = mark_run m s count

  held-IsValid : IsValid held
  held-IsValid = mark_run-IsValid v s count le free

  abbrev back : Manager
  back = bitmap_free_blocks held (m.memory_base + s * block_size) count

  here :
      (bitmap_contains_address held (m.memory_base + s * block_size) ≡ true)
      × (bitmap_address_to_block held (m.memory_base + s * block_size) ≡ s)
  here =
      rw (address_of held-IsValid s (omega arith)) at
        (address_to_block-block_to_address held-IsValid s (omega arith))

  pub test_bit-back : (j : ℕ) → bitmap_test_bit back.bitmap j ≡ bitmap_test_bit m.bitmap j
  test_bit-back j =
      rw
        (
          test_bit-free_blocks held-IsValid (m.memory_base + s * block_size) count here.0
              (omega (arith, v.few)) j,
          here.1,
        )
        (elim (Bool-cases (in_run s count j)) [
          | inl inside ↦ ground (arith, test_bit-mark_run v s count le free j, free j)
          | inr outside ↦ ground (arith, test_bit-mark_run v s count le free j)
        ])

  pub free_blocks-back : back.free_blocks ≡ m.free_blocks
  free_blocks-back =
      let vb =
        free_blocks-IsValid held-IsValid (m.memory_base + s * block_size) count
          (omega (arith, v.few)) in
      let same =
        free_count-cong (bitmap_test_bit back.bitmap) (bitmap_test_bit m.bitmap) m.total_blocks
          test_bit-back in
      let total : back.total_blocks ≡ m.total_blocks =
        total-free_blocks held (m.memory_base + s * block_size) count in
      let vc : back.free_blocks ≡ free_count (bitmap_test_bit back.bitmap) m.total_blocks =
        vb.counted ∙ ap (free_count (bitmap_test_bit back.bitmap)) total in
      vc ∙ same ∙ sym v.counted

-- Freeing a run of blocks that was just allocated gives every block and the count back.
pub free_blocks-alloc_blocks :
    {m : Manager} (v : IsValid m) (count : ℕ)
    → 0 < count
    → (bitmap_alloc_blocks m count).0 ≢ 0
    → (j : ℕ)
    → let (a, m') = bitmap_alloc_blocks m count in
      (bitmap_test_bit (bitmap_free_blocks m' a count).bitmap j ≡ bitmap_test_bit m.bitmap j)
      × ((bitmap_free_blocks m' a count).free_blocks ≡ m.free_blocks)
free_blocks-alloc_blocks {m} v count pos ne j = go (alloc_blocks-Outcome v count pos)
  where
    go :
        Outcome m count (bitmap_alloc_blocks m count)
        → let (a, m') = bitmap_alloc_blocks m count in
          (bitmap_test_bit (bitmap_free_blocks m' a count).bitmap j ≡ bitmap_test_bit m.bitmap j)
          × ((bitmap_free_blocks m' a count).free_blocks ≡ m.free_blocks)
    go (taken s le f e) =
        rw e (test_bit-back v s count pos le f.free j, free_blocks-back v s count pos le f.free)
    go (refused none e) = absurd (ne (rw e))
