-- ===== src/Memory/Bitmap/Alloc.antt =====
-- bitmap_alloc_block: the first free block.
use cgos.Base.{
  ℕ, zero, suc, ◌*◌, ◌<◌, ◌≤◌, ◌+◌, ◌-◌, ◌≡◌, refl, Bool, true, false, List, none, some, arith,
  ℕ_discrete, dec_lt, Option-cases, Bool-cases, inl, inr,
}
use cgos.Memory.Bitmap.{
  Manager, block_size, bitmap_test_bit, bitmap_set_bit, first_free, bitmap_alloc_block,
  bitmap_get_free_blocks,
}
use cgos.Memory.Bitmap.Valid.{IsValid, free_count, free_count-pos, mark-IsValid, address_of}

-- Block `j` is the first free one of `i`, `i + 1`, ….
pub record IsFirst (bitmap : List ℕ) (i j : ℕ) : Type 0 where
  pub from : i ≤ j
  pub free : bitmap_test_bit bitmap j ≡ false
  pub below : (k : ℕ) → i ≤ k → k < j → bitmap_test_bit bitmap k ≡ true

pub first_free-some :
    (bm : List ℕ) (n i : ℕ) {j : ℕ} → first_free bm n i ≡ some j → IsFirst bm i j × (j < i + n)
unfolding first_free
first_free-some bm zero i e = absurd (cc)
first_free-some bm (suc n) i {j} e = elim (Bool-cases (bitmap_test_bit bm i)) [
  | inl used ↦
      let e' : first_free bm n (i + 1) ≡ some j = rw used at e in
      let (f, lt) = first_free-some bm n (i + 1) e' in
      (
        record {
          from = omega arith;
          free = f.free;
          below = λ k lo hi. elim (ℕ_discrete i k) [
            | yes p ↦ rw (← p) used
            | no p ↦ f.below k (omega arith) hi
          ];
        },
        omega arith,
      )
  | inr free ↦
      let e' : some i ≡ some j = rw free at e in
      let ij : i ≡ j = cc in
      (
        record {
          from = omega arith;
          free = rw (← ij) free;
          below = λ k lo hi. absurd (omega arith);
        },
        omega arith,
      )
]

pub first_free-none :
    (bm : List ℕ) (n i : ℕ)
    → first_free bm n i ≡ none
    → (k : ℕ) → i ≤ k
    → k < i + n
    → bitmap_test_bit bm k ≡ true
unfolding first_free
first_free-none bm zero i e k lo hi = absurd (omega arith)
first_free-none bm (suc n) i e k lo hi = elim (Bool-cases (bitmap_test_bit bm i)) [
  | inl used ↦
      let e' : first_free bm n (i + 1) ≡ none = rw used at e in
      elim (ℕ_discrete i k) [
        | yes p ↦ rw (← p) used
        | no p ↦ first_free-none bm n (i + 1) e' k (omega arith) (omega arith)
      ]
  | inr free ↦ absurd (let e' : some i ≡ none = rw free at e in cc)
]

-- The scan finds the first free block.
pub first_free-eq :
    (bm : List ℕ) (n i j : ℕ) → IsFirst bm i j → j < i + n → first_free bm n i ≡ some j
unfolding first_free
first_free-eq bm zero i j f lt = absurd (omega (arith, f.from))
first_free-eq bm (suc n) i j f lt = elim (ℕ_discrete i j) [
  | yes p ↦ let free : bitmap_test_bit bm i ≡ false = rw p f.free in rw (free, p)
  | no p ↦ rw (f.below i (omega arith) (omega (arith, f.from))) (
      first_free-eq bm n (i + 1) j
        (record {
          from = omega (arith, f.from);
          free = f.free;
          below = λ k lo hi. f.below k (omega arith) hi;
        })
        (omega arith))
]

free_count-none :
    (used : ℕ → Bool) (n : ℕ) → ((k : ℕ) → k < n → used k ≡ true) → free_count used n ≡ 0
unfolding free_count
free_count-none used zero h = refl
free_count-none used (suc n) h =
    ground (arith, h n (omega arith), free_count-none used n (λ k lt. h k (omega arith)))

-- The manager with block `i` taken.
abbrev pub mark : Manager → ℕ → Manager
mark m i = record m { bitmap = bitmap_set_bit m.bitmap i; free_blocks = m.free_blocks - 1 }

-- With no block free NULL is returned, and nothing changes.
pub alloc_block_full : (m : Manager) → bitmap_get_free_blocks m ≡ 0 → bitmap_alloc_block m ≡ (0, m)
unfolding bitmap_alloc_block bitmap_get_free_blocks
alloc_block_full m e = ground arith

module _ {m : Manager} (v : IsValid m) where
  -- If `i` is the first free block, it is the one that is allocated: its address is returned, its
  -- bit is set, the count falls by one and nothing else changes.
  pub alloc_block-first :
      (i : ℕ)
      → i < m.total_blocks
      → IsFirst m.bitmap 0 i
      → bitmap_alloc_block m ≡ (m.memory_base + i * block_size, mark m i)
  unfolding bitmap_alloc_block
  alloc_block-first i lt f = rw (first_free-eq m.bitmap m.total_blocks 0 i f (omega arith)) (
      ground (
        arith,
        v.counted,
        address_of v i lt,
        free_count-pos (bitmap_test_bit m.bitmap) m.total_blocks i lt f.free,
      ))

  -- Where the count says that a block is free, one is: the first of them is returned.
  pub alloc_block-total :
      0 < bitmap_get_free_blocks m
      → (i : ℕ) × (i < m.total_blocks)
        × IsFirst m.bitmap 0 i
        × (bitmap_alloc_block m ≡ (m.memory_base + i * block_size, mark m i))
  unfolding bitmap_get_free_blocks
  alloc_block-total pos = elim (Option-cases (first_free m.bitmap m.total_blocks 0)) [
    | inl e ↦ absurd (
        omega (
          arith,
          v.counted,
          free_count-none (bitmap_test_bit m.bitmap) m.total_blocks
              (λ k lt. first_free-none m.bitmap m.total_blocks 0 e k (omega arith) (omega arith)),
        ))
    | inr (i, e) ↦
        let (f, lt) = first_free-some m.bitmap m.total_blocks 0 e in
        (i, omega arith, f, alloc_block-first i (omega arith) f)
  ]

  pub alloc_block-IsValid : IsValid (bitmap_alloc_block m).1
  alloc_block-IsValid = elim (dec_lt 0 (bitmap_get_free_blocks m)) [
    | yes pos ↦ let (i, lt, f, e) = alloc_block-total pos in rw e (mark-IsValid v i lt f.free)
    | no zero' ↦ rw (alloc_block_full m (omega arith)) v
  ]
