-- ===== src/Memory/Pmm/Pages.antt =====
-- Pages are handed out and taken back with the count of used bytes.
use cgos.Base.{
  ℕ, ◌*◌, ◌%◌, ◌<◌, ◌≤◌, ◌+◌, ◌^◌, ◌≡◌, ◌≢◌, refl, ap, arith, ◌==◌, Bool-cases, inl, inr,
}
use cgos.Memory.Bitmap.{
  block_size, word_mod, bitmap_test_bit, bitmap_contains_address, bitmap_get_free_blocks,
  bitmap_alloc_block, bitmap_alloc_blocks, bitmap_free_blocks,
}
use cgos.Memory.Bitmap.Valid.{IsValid, free_count-le, address_of, address_to_block-block_to_address}
use cgos.Memory.Bitmap.Run.{IsFirstRun}
use cgos.Memory.Bitmap.Alloc.{alloc_block-IsValid}
use cgos.Memory.Bitmap.Claim.{
  alloc_blocks-IsValid, alloc_blocks-Outcome, Outcome, taken, refused, mark_run, mark_run-IsValid,
  free_count-run,
}
use cgos.Memory.Bitmap.Free.{free_block-IsValid, free_blocks-IsValid}
use cgos.Memory.Bitmap.Undo.{free_blocks-alloc_blocks}
use cgos.Memory.Pmm.{
  Pmm, physical_alloc_page, physical_alloc_pages, physical_free_page, physical_free_pages,
  less_used, physical_get_free_memory,
}

-- A call of the interface.
pub data Call : Type 0 where
  alloc_page : Call
  alloc_pages : ℕ → Call
  free_page : ℕ → Call
  free_pages : (pages count : ℕ) → count < 2 ^ 63 → Call

abbrev pub perform : Call → Pmm → Pmm
perform alloc_page p = (physical_alloc_page p).1
perform (alloc_pages count) p = (physical_alloc_pages p count).1
perform (free_page page) p = physical_free_page p page
perform (free_pages pages count _) p = physical_free_pages p pages count

-- Every call of the interface, with whatever arguments, leaves the bitmap and its count of free
-- blocks consistent (a count given to physical_free_pages lies below 2 ^ 63).
pub perform-IsValid : (p : Pmm) (c : Call) → IsValid p.phys_mem → IsValid (perform c p).phys_mem
unfolding physical_alloc_page physical_alloc_pages physical_free_page physical_free_pages
perform-IsValid p alloc_page v = elim (Bool-cases ((bitmap_alloc_block p.phys_mem).0 == 0)) [
  | inl e ↦ rw e (alloc_block-IsValid v)
  | inr e ↦ rw e (alloc_block-IsValid v)
]
perform-IsValid p (alloc_pages count) v =
    elim (Bool-cases ((bitmap_alloc_blocks p.phys_mem count).0 == 0)) [
      | inl e ↦ rw e (alloc_blocks-IsValid v count)
      | inr e ↦ rw e (alloc_blocks-IsValid v count)
    ]
perform-IsValid p (free_page page) v = elim (Bool-cases (bitmap_contains_address p.phys_mem page)) [
  | inl e ↦ rw e (free_block-IsValid v page)
  | inr e ↦ rw e v
]
perform-IsValid p (free_pages pages count small) v =
    elim (Bool-cases (bitmap_contains_address p.phys_mem pages)) [
      | inl e ↦ rw e (free_blocks-IsValid v pages count small)
      | inr e ↦ rw e v
    ]

module _ (p : Pmm) (v : IsValid p.phys_mem) (count : ℕ) (pos : 0 < count) where
  abbrev pub at_block : ℕ → ℕ
  at_block s = p.phys_mem.memory_base + s * block_size

  -- The state with the run of `count` blocks from `s` on taken.
  abbrev pub held : ℕ → Pmm
  held s = record p {
    phys_mem = mark_run p.phys_mem s count;
    used_memory = p.used_memory + count * block_size;
  }

  pub pages_taken :
      (s : ℕ)
      → 0 < p.phys_mem.memory_base
      → bitmap_alloc_blocks p.phys_mem count ≡ (at_block s, mark_run p.phys_mem s count)
      → p.used_memory + count * block_size < word_mod
      → physical_alloc_pages p count ≡ (at_block s, held s)
  unfolding physical_alloc_pages
  pages_taken s based e room = rw e (ground arith)

  pub pages_refused :
      bitmap_alloc_blocks p.phys_mem count ≡ (0, p.phys_mem) → physical_alloc_pages p count ≡ (0, p)
  unfolding physical_alloc_pages
  pages_refused e = rw e (ground arith)

  used-back :
      (s : ℕ)
      → s + count ≤ p.phys_mem.total_blocks
      → IsFirstRun p.phys_mem.bitmap count 0 s
      → p.used_memory + count * block_size < word_mod
      → (physical_free_pages (held s) (at_block s) count).used_memory ≡ p.used_memory
  unfolding physical_free_pages less_used
  used-back s le f room =
      let v' = mark_run-IsValid v s count le f.free in
      ground
        (arith, address_of v' s (omega arith), address_to_block-block_to_address v' s (omega arith))

  mem-back :
      (s : ℕ)
      → s + count ≤ p.phys_mem.total_blocks
      → IsFirstRun p.phys_mem.bitmap count 0 s
      → (physical_free_pages (held s) (at_block s) count).phys_mem
        ≡ bitmap_free_blocks (mark_run p.phys_mem s count) (at_block s) count
  unfolding physical_free_pages
  mem-back s le f =
      let v' = mark_run-IsValid v s count le f.free in
      ground
        (arith, address_of v' s (omega arith), address_to_block-block_to_address v' s (omega arith))

-- What physical_alloc_pages handed out, physical_free_pages takes back: the used and the free
-- memory, and each block's bit, are as before, if the region does not begin at address 0 and
-- the count of used bytes does not overflow.
pub free_pages-alloc_pages :
    (p : Pmm) (count : ℕ)
    → IsValid p.phys_mem
    → 0 < p.phys_mem.memory_base
    → 0 < count
    → p.used_memory + count * block_size < word_mod
    → (physical_alloc_pages p count).0 ≢ 0
    → (j : ℕ)
    → let (a, p') = physical_alloc_pages p count in
      let q : Pmm = physical_free_pages p' a count in
      (q.used_memory ≡ p.used_memory)
      × (physical_get_free_memory q ≡ physical_get_free_memory p)
      × (bitmap_test_bit q.phys_mem.bitmap j ≡ bitmap_test_bit p.phys_mem.bitmap j)
unfolding physical_get_free_memory bitmap_get_free_blocks
free_pages-alloc_pages p count v based pos room ne j = go (alloc_blocks-Outcome v count pos)
  where
    go :
        Outcome p.phys_mem count (bitmap_alloc_blocks p.phys_mem count)
        → let (a, p') = physical_alloc_pages p count in
          let q : Pmm = physical_free_pages p' a count in
          (q.used_memory ≡ p.used_memory)
          × (physical_get_free_memory q ≡ physical_get_free_memory p)
          × (bitmap_test_bit q.phys_mem.bitmap j ≡ bitmap_test_bit p.phys_mem.bitmap j)
    go (taken s le f e) =
        let back = free_blocks-alloc_blocks v count pos (rw e (omega arith)) j in
        let back' = rw e at back in
        rw (pages_taken p v count pos s based e room, mem-back p v count pos s le f)
          (
            used-back p v count pos s le f room,
            ap (λ (n : ℕ). n * block_size % word_mod) back'.1,
            back'.0,
          )
    go (refused no_run e) = absurd (ne (rw (pages_refused p v count pos e)))

-- A successful call for `count` pages takes exactly `count` pages of free memory and counts
-- them as used.
pub alloc_pages-accounts :
    (p : Pmm) (count : ℕ)
    → IsValid p.phys_mem
    → 0 < p.phys_mem.memory_base
    → 0 < count
    → p.used_memory + count * block_size < word_mod
    → (physical_alloc_pages p count).0 ≢ 0
    → let p' : Pmm = (physical_alloc_pages p count).1 in
      (p'.used_memory ≡ p.used_memory + count * block_size)
      × (physical_get_free_memory p' + count * block_size ≡ physical_get_free_memory p)
unfolding physical_get_free_memory bitmap_get_free_blocks
alloc_pages-accounts p count v based pos room ne = go (alloc_blocks-Outcome v count pos)
  where
    go :
        Outcome p.phys_mem count (bitmap_alloc_blocks p.phys_mem count)
        → let p' : Pmm = (physical_alloc_pages p count).1 in
          (p'.used_memory ≡ p.used_memory + count * block_size)
          × (physical_get_free_memory p' + count * block_size ≡ physical_get_free_memory p)
    go (taken s le f e) =
        let few =
          free_count-run (bitmap_test_bit p.phys_mem.bitmap) p.phys_mem.total_blocks s count le
            f.free in
        rw (pages_taken p v count pos s based e room) (
          refl,
          omega (
            arith,
            v.counted,
            v.few,
            few,
            free_count-le (bitmap_test_bit p.phys_mem.bitmap) p.phys_mem.total_blocks,
          ),
        )
    go (refused no_run e) = absurd (ne (rw (pages_refused p v count pos e)))
