-- ===== src/Memory/Bitmap/Taken.antt =====
-- bitmap_alloc_blocks, as bitmap_test_bit sees it.
use cgos.Base.{ℕ, ◌*◌, ◌<◌, ◌≤◌, ◌+◌, ◌-◌, ◌≡◌, ap, ◌∙◌, true, if◌then◌else◌}
use cgos.Memory.Bitmap.{Manager, block_size, bitmap_test_bit, bitmap_alloc_blocks}
use cgos.Memory.Bitmap.Valid.{IsValid}
use cgos.Memory.Bitmap.Run.{AllFree, IsFirstRun}
use cgos.Memory.Bitmap.Claim.{
  Outcome, taken as outcome_taken, refused as outcome_refused, alloc_blocks-Outcome, in_run,
  test_bit-mark_run,
}

-- What a call for `count` blocks returns, and every bit and field of the manager after it.
pub data Allocated (m : Manager) (count : ℕ) (r : ℕ × Manager) : Type 0 where
  taken :
      (s : ℕ)
      → s + count ≤ m.total_blocks
      → IsFirstRun m.bitmap count 0 s
      → r.0 ≡ m.memory_base + s * block_size
      → ((j : ℕ)
          → bitmap_test_bit r.1.bitmap j
            ≡ (if in_run s count j then true else bitmap_test_bit m.bitmap j))
      → r.1.free_blocks ≡ m.free_blocks - count
      → (r.1.memory_base ≡ m.memory_base) × (r.1.total_blocks ≡ m.total_blocks)
      → Allocated m count r
  refused :
      ((s : ℕ) → s + count ≤ m.total_blocks → ¬ AllFree m.bitmap s count)
      → r ≡ (0, m)
      → Allocated m count r

Outcome-Allocated :
    {m : Manager} (v : IsValid m) (count : ℕ) {r : ℕ × Manager}
    → Outcome m count r
    → Allocated m count r
Outcome-Allocated v count (outcome_refused no_run e) = refused no_run e
Outcome-Allocated v count (outcome_taken s le f e) =
    taken s le f (ap (λ r. r.0) e)
      (λ j. ap (λ r. bitmap_test_bit r.1.bitmap j) e ∙ test_bit-mark_run v s count le f.free j)
      (ap (λ r. r.1.free_blocks) e) (ap (λ r. r.1.memory_base) e, ap (λ r. r.1.total_blocks) e)

-- For a valid manager and a positive count bitmap_alloc_blocks takes the first run of that many free
-- blocks: it returns the run's address, afterwards bitmap_test_bit is true for the blocks of the run
-- and as before for every other block, and the count of free blocks is lower by `count`. It returns
-- NULL and changes nothing only where no such run exists.
pub alloc_blocks-Allocated :
    {m : Manager} (v : IsValid m) (count : ℕ)
    → 0 < count
    → Allocated m count (bitmap_alloc_blocks m count)
alloc_blocks-Allocated v count pos = Outcome-Allocated v count (alloc_blocks-Outcome v count pos)
