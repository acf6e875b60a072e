-- ===== src/Memory/Bitmap/Run.antt =====
-- bitmap_alloc_blocks: the first run of `count` free blocks.
use cgos.Base.{
  ℕ, zero, suc, ◌<◌, ◌≤◌, ◌+◌, ◌-◌, ◌≡◌, ◌⊎◌, inl, inr, refl, true, false, List, none, some, arith,
  ◌==◌, if◌then◌else◌, ℕ_discrete, dec_le, Bool-cases,
}
use cgos.Memory.Bitmap.{bitmap_test_bit, find_run}

-- The blocks from `start` on, `count` of them, are free.
abbrev pub AllFree : List ℕ → ℕ → ℕ → Type 0
AllFree bitmap start count =
    (k : ℕ) → start ≤ k → k < start + count → bitmap_test_bit bitmap k ≡ false

-- What the scan knows at block `i`: the last `contiguous` blocks are free, and `start` is the
-- first of them.
pub record IsScan (bitmap : List ℕ) (i start contiguous : ℕ) : Type 0 where
  pub within : contiguous ≤ i
  pub from : (contiguous ≡ 0) ⊎ (start + contiguous ≡ i)
  pub free : (k : ℕ) → i ≤ k + contiguous → k < i → bitmap_test_bit bitmap k ≡ false

pub IsScan-used : (bm : List ℕ) (i start : ℕ) → IsScan bm (i + 1) start 0
IsScan-used bm i start = record {
  within = omega arith;
  from = inl refl;
  free = λ k lo hi. absurd (omega arith);
}

pub IsScan-free :
    (bm : List ℕ) (i start c : ℕ)
    → IsScan bm i start c
    → bitmap_test_bit bm i ≡ false
    → IsScan bm (i + 1) (if c == 0 then i else start) (c + 1)
IsScan-free bm i start c s free = record {
  within = omega (arith, s.within);
  from = inr (ground (arith, s.from));
  free = λ k lo hi. elim (ℕ_discrete i k) [
    | yes p ↦ rw (← p) free
    | no p ↦ s.free k (omega arith) (omega arith)
  ];
}

-- Block `s` begins the first run of `count` free blocks that begins at `lo` or behind it.
pub record IsFirstRun (bitmap : List ℕ) (count lo s : ℕ) : Type 0 where
  pub from : lo ≤ s
  pub free : AllFree bitmap s count
  pub below : (r : ℕ) → lo ≤ r → r < s → ¬ AllFree bitmap r count

-- A used block at `i` ends every run that begins behind `lo` and reaches it.
used_ends :
    (bm : List ℕ) (count i r : ℕ)
    → bitmap_test_bit bm i ≡ true
    → r ≤ i
    → i < r + count
    → ¬ AllFree bm r count
used_ends bm count i r used lo hi free = let e = free i lo hi in cc

module _ (bm : List ℕ) (count : ℕ) where
  widen :
      (i c : ℕ) {s : ℕ}
      → c < count
      → bitmap_test_bit bm i ≡ true
      → IsFirstRun bm count (i + 1) s
      → IsFirstRun bm count (i - c) s
  widen i c lt used f = record {
    from = omega (arith, f.from);
    free = f.free;
    below = λ r lo hi. elim (dec_le r i) [
      | yes p ↦ used_ends bm count i r used p (omega arith)
      | no p ↦ f.below r (omega arith) hi
    ];
  }

  -- A start that the scan returns begins the first run.
  pub find_run-some :
      (n i start c : ℕ) {s : ℕ}
      → c < count
      → IsScan bm i start c
      → find_run bm count n i start c ≡ some s
      → IsFirstRun bm count (i - c) s × (s + count ≤ i + n)
  unfolding find_run
  find_run-some zero i start c lt inv e = absurd (cc)
  find_run-some (suc n) i start c {s} lt inv e = elim (Bool-cases (bitmap_test_bit bm i)) [
    | inl used ↦
        let e' : find_run bm count n (i + 1) start 0 ≡ some s = rw used at e in
        let (f, le) = find_run-some n (i + 1) start 0 (omega arith) (IsScan-used bm i start) e' in
        let e0 : i + 1 - 0 ≡ i + 1 = omega arith in
        let f' : IsFirstRun bm count (i + 1) s = rw e0 at f in (widen i c lt used f', omega arith)
    | inr free ↦ elim (ℕ_discrete (c + 1) count) [
      | yes full ↦
          let se : s ≡ (if c == 0 then i else start) = ground arith in
          let inv' = IsScan-free bm i start c inv free in
          let s_eq : s + c ≡ i = ground (arith, inv.from) in
          (
            record {
              from = omega arith;
              free = λ k lo hi. inv'.free k (omega arith) (omega arith);
              below = λ r lo hi. absurd (omega arith);
            },
            omega arith,
          )
      | no less ↦
          let start' : ℕ = if c == 0 then i else start in
          let e' : find_run bm count n (i + 1) start' (c + 1) ≡ some s = ground arith in
          let (f, le) =
            find_run-some n (i + 1) start' (c + 1) (omega arith) (IsScan-free bm i start c inv free)
              e' in
          (
            record {
              from = omega (arith, f.from);
              free = f.free;
              below = λ r lo hi. f.below r (omega arith) hi;
            },
            omega arith,
          )
    ]
  ]

  -- Where the scan returns nothing, no run lies in what it passed.
  pub find_run-none :
      (n i start c : ℕ)
      → c < count
      → IsScan bm i start c
      → find_run bm count n i start c ≡ none
      → (r : ℕ) → i ≤ r + c
      → r + count ≤ i + n
      → ¬ AllFree bm r count
  unfolding find_run
  find_run-none zero i start c lt inv e r lo hi = λ free. absurd (omega (arith, inv.within))
  find_run-none (suc n) i start c lt inv e r lo hi = elim (Bool-cases (bitmap_test_bit bm i)) [
    | inl used ↦
        let e' : find_run bm count n (i + 1) start 0 ≡ none = rw used at e in
        elim (dec_le r i) [
          | yes p ↦ used_ends bm count i r used p (omega arith)
          | no p ↦
              find_run-none n (i + 1) start 0 (omega arith) (IsScan-used bm i start) e' r
                (omega arith) (omega arith)
        ]
    | inr free ↦ elim (ℕ_discrete (c + 1) count) [
      | yes full ↦ absurd (ground arith)
      | no less ↦
          let start' : ℕ = if c == 0 then i else start in
          let e' : find_run bm count n (i + 1) start' (c + 1) ≡ none = ground arith in
          find_run-none n (i + 1) start' (c + 1) (omega arith) (IsScan-free bm i start c inv free)
            e' r (omega arith) (omega arith)
    ]
  ]
