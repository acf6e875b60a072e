-- ===== src/Memory/Bitmap/Claim.antt =====
-- bitmap_alloc_blocks: which blocks it takes, and when it takes none.
use cgos.Base.{
  ℕ, zero, suc, ◌*◌, ◌<◌, ◌≤◌, ◌+◌, ◌-◌, ◌≡◌, ◌≢◌, inl, inr, refl, Bool, true, false, List, arith,
  leb, ltb, ◌&&◌, if◌then◌else◌, ℕ_discrete, dec_lt, dec_le, Option-cases,
}
use cgos.Memory.Bitmap.{
  Manager, block_size, bitmap_test_bit, find_run, set_blocks, bitmap_alloc_block,
  bitmap_alloc_blocks, bitmap_get_free_blocks,
}
use cgos.Memory.Bitmap.Bits.{test_bit-set_bit}
use cgos.Memory.Bitmap.Valid.{IsValid, free_count, mark-IsValid, address_of, in_storage}
use cgos.Memory.Bitmap.Alloc.{mark, IsFirst, alloc_block-total}
use cgos.Memory.Bitmap.Run.{AllFree, IsFirstRun, find_run-some, find_run-none, IsScan}

-- Block `j` is one of the `count` from `start` on.
abbrev pub in_run : ℕ → ℕ → ℕ → Bool
in_run start count j = leb start j && ltb j (start + count)

-- The manager with the blocks from `start` on taken.
abbrev pub mark_run : Manager → ℕ → ℕ → Manager
mark_run m start count = record m {
  bitmap = set_blocks m.bitmap start count;
  free_blocks = m.free_blocks - count;
}

AllFree-mark :
    {m : Manager} (v : IsValid m) (i n : ℕ)
    → i < m.total_blocks
    → AllFree m.bitmap i (suc n)
    → AllFree (mark m i).bitmap (i + 1) n
AllFree-mark {m} v i n lt free k lo hi =
    ground (arith, test_bit-set_bit m.bitmap i v.bytes (in_storage v i lt) k, free k)

pub mark_run-IsValid :
    {m : Manager} (v : IsValid m) (start n : ℕ)
    → start + n ≤ m.total_blocks
    → AllFree m.bitmap start n
    → IsValid (mark_run m start n)
unfolding set_blocks
mark_run-IsValid {m} v start zero le free =
    let e : m.free_blocks - 0 ≡ m.free_blocks = omega arith in rw e v
mark_run-IsValid {m} v start (suc n) le free =
    let v' = mark-IsValid v start (omega arith) (free start (omega arith) (omega arith)) in
    let e : m.free_blocks - suc n ≡ m.free_blocks - 1 - n = omega arith in
    rw e (
      mark_run-IsValid {m = mark m start} v' (start + 1) n (omega arith)
        (AllFree-mark v start n (omega arith) free))

pub test_bit-mark_run :
    {m : Manager} (v : IsValid m) (start n : ℕ)
    → start + n ≤ m.total_blocks
    → AllFree m.bitmap start n
    → (j : ℕ)
    → bitmap_test_bit (set_blocks m.bitmap start n) j
      ≡ (if in_run start n j then true else bitmap_test_bit m.bitmap j)
unfolding set_blocks
test_bit-mark_run v start zero le free j = ground arith
test_bit-mark_run {m} v start (suc n) le free j =
    let v' = mark-IsValid v start (omega arith) (free start (omega arith) (omega arith)) in
    ground (
      arith,
      test_bit-mark_run {m = mark m start} v' (start + 1) n (omega arith)
          (AllFree-mark v start n (omega arith) free) j,
      test_bit-set_bit m.bitmap start v.bytes (in_storage v start (omega arith)) j,
    )

-- A run of free blocks is counted.
pub free_count-run :
    (used : ℕ → Bool) (n r c : ℕ)
    → r + c ≤ n
    → ((k : ℕ) → r ≤ k → k < r + c → used k ≡ false)
    → c ≤ free_count used n
unfolding free_count
free_count-run used zero r c le free = omega arith
free_count-run used (suc n) r zero le free = omega arith
free_count-run used (suc n) r (suc c) le free = elim (dec_le (r + suc c) n) [
  | yes p ↦ let ih = free_count-run used n r (suc c) p free in omega arith
  | no p ↦
      let ih = free_count-run used n r c (omega arith) (λ k lo hi. free k lo (omega arith)) in
      let e : used n ≡ false = free n (omega arith) (omega arith) in rw e (omega arith)
]

-- What a call for `count` blocks does: the first run of free blocks is taken, or there is none.
pub data Outcome (m : Manager) (count : ℕ) (r : ℕ × Manager) : Type 0 where
  taken :
      (s : ℕ)
      → s + count ≤ m.total_blocks
      → IsFirstRun m.bitmap count 0 s
      → r ≡ (m.memory_base + s * block_size, mark_run m s count)
      → Outcome m count r
  refused :
      ((s : ℕ) → s + count ≤ m.total_blocks → ¬ AllFree m.bitmap s count)
      → r ≡ (0, m)
      → Outcome m count r

IsFirst→run : (bm : List ℕ) (i : ℕ) → IsFirst bm 0 i → IsFirstRun bm 1 0 i
IsFirst→run bm i f = record {
  from = omega arith;
  free = λ k lo hi. let e : i ≡ k = omega arith in rw (← e) f.free;
  below =
      λ r lo hi free. let u = f.below r lo hi in let u' = free r (omega arith) (omega arith) in cc;
}

module _ {m : Manager} (v : IsValid m) where
  IsScan-start : IsScan m.bitmap 0 0 0
  IsScan-start = record {
    within = omega arith;
    from = inl refl;
    free = λ k lo hi. absurd (omega arith);
  }

  one_block : 0 < m.free_blocks → Outcome m 1 (bitmap_alloc_block m)
  unfolding bitmap_get_free_blocks set_blocks
  one_block pos =
      let (i, lt, f, e) = alloc_block-total v pos in
      taken i (omega arith) (IsFirst→run m.bitmap i f) e

  many_blocks :
      (count : ℕ)
      → 0 < count
      → count ≤ m.free_blocks
      → count ≢ 1
      → Outcome m count (bitmap_alloc_blocks m count)
  unfolding bitmap_alloc_blocks
  many_blocks count pos le ne = elim (Option-cases (find_run m.bitmap count m.total_blocks 0 0 0)) [
    | inl e ↦
        refused
          (λ s le' free.
            find_run-none m.bitmap count m.total_blocks 0 0 0 pos IsScan-start e s (omega arith)
              (omega arith) free)
          (ground (arith, e))
    | inr (s, e) ↦
        let (f, le') = find_run-some m.bitmap count m.total_blocks 0 0 0 pos IsScan-start e in
        let f' : IsFirstRun m.bitmap count 0 s = f in
        taken s (omega arith) f' (ground (arith, e, address_of v s (omega arith)))
  ]

  few_blocks : (count : ℕ) → m.free_blocks < count → Outcome m count (bitmap_alloc_blocks m count)
  unfolding bitmap_alloc_blocks
  few_blocks count lt =
      refused
        (λ s le free. absurd (
          omega (
            arith,
            v.counted,
            free_count-run (bitmap_test_bit m.bitmap) m.total_blocks s count le free,
          )))
        (ground arith)

  alloc_blocks-one : 0 < m.free_blocks → bitmap_alloc_blocks m 1 ≡ bitmap_alloc_block m
  unfolding bitmap_alloc_blocks
  alloc_blocks-one pos = ground arith

  pub alloc_blocks-Outcome : (count : ℕ) → 0 < count → Outcome m count (bitmap_alloc_blocks m count)
  alloc_blocks-Outcome count pos = elim (dec_lt m.free_blocks count) [
    | yes few ↦ few_blocks count few
    | no enough ↦ elim (ℕ_discrete count 1) [
      | yes one ↦ rw (one, alloc_blocks-one (omega arith)) (one_block (omega arith))
      | no more ↦ many_blocks count pos (omega arith) more
    ]
  ]

  Outcome-IsValid : (count : ℕ) {r : ℕ × Manager} → Outcome m count r → IsValid r.1
  Outcome-IsValid count (taken s le f e) = rw e (mark_run-IsValid v s count le f.free)
  Outcome-IsValid count (refused no_run e) = rw e v

  alloc_blocks-zero : bitmap_alloc_blocks m 0 ≡ (0, m)
  unfolding bitmap_alloc_blocks
  alloc_blocks-zero = ground arith

  pub alloc_blocks-IsValid : (count : ℕ) → IsValid (bitmap_alloc_blocks m count).1
  alloc_blocks-IsValid zero = rw alloc_blocks-zero v
  alloc_blocks-IsValid (suc n) =
      Outcome-IsValid (suc n) (alloc_blocks-Outcome (suc n) (omega arith))
