-- ===== src/Memory/Bitmap/Bits.antt =====
-- BITMAP_TEST_BIT, BITMAP_SET_BIT and BITMAP_CLEAR_BIT as reads and writes of single bits.
use cgos.Base.{
  ℕ, zero, suc, ◌/◌, ◌%◌, ◌<◌, ◌≡◌, true, false, List, [], ◌∷◌, arith, ◌==◌, if◌then◌else◌, length,
  get_or, set, length-set, get_or-set_self, get_or-set_ne, set-set, set-get_or, ℕ_discrete,
}
use cgos.Base.Bits.{put, clear, test-put, test-clear, put-lt, clear-lt, clear-put}
use cgos.Memory.Bitmap.{bitmap_test_bit, bitmap_set_bit, bitmap_clear_bit}

-- Each element of the storage is a `uint8_t`.
abbrev pub IsBytes : List ℕ → Type 0
IsBytes [] = Unit
IsBytes (x ∷ xs) = (x < 256) × IsBytes xs

pub get_or-lt : (xs : List ℕ) (i : ℕ) → IsBytes xs → get_or xs i 0 < 256
get_or-lt [] i h = omega arith
get_or-lt (x ∷ xs) zero h = h.0
get_or-lt (x ∷ xs) (suc i) h = get_or-lt xs i h.1

pub set-IsBytes : (xs : List ℕ) (i v : ℕ) → IsBytes xs → v < 256 → IsBytes (set xs i v)
set-IsBytes [] i v h hv = tt
set-IsBytes (x ∷ xs) zero v h hv = (hv, h.1)
set-IsBytes (x ∷ xs) (suc i) v h hv = (h.0, set-IsBytes xs i v h.1 hv)

module _ (bm : List ℕ) (i : ℕ) (hb : IsBytes bm) (hi : i / 8 < length bm) where
  abbrev byte : ℕ
  byte = get_or bm (i / 8) 0

  pub test_bit-set_bit :
      (j : ℕ)
      → bitmap_test_bit (bitmap_set_bit bm i) j ≡ (if i == j then true else bitmap_test_bit bm j)
  unfolding bitmap_test_bit bitmap_set_bit
  test_bit-set_bit j = elim (ℕ_discrete (i / 8) (j / 8)) [
    | yes e ↦
        rw
          (
            ← e,
            get_or-set_self bm (i / 8) (put byte (i % 8)) 0 hi,
            test-put byte (i % 8) (get_or-lt bm (i / 8) hb) (omega arith) (j % 8) (omega arith),
          )
          (ground arith)
    | no ne ↦ rw (get_or-set_ne bm (i / 8) (j / 8) (put byte (i % 8)) 0 ne) (ground arith)
  ]

  pub test_bit-clear_bit :
      (j : ℕ)
      → bitmap_test_bit (bitmap_clear_bit bm i) j ≡ (if i == j then false else bitmap_test_bit bm j)
  unfolding bitmap_test_bit bitmap_clear_bit
  test_bit-clear_bit j = elim (ℕ_discrete (i / 8) (j / 8)) [
    | yes e ↦
        rw
          (
            ← e,
            get_or-set_self bm (i / 8) (clear byte (i % 8)) 0 hi,
            test-clear byte (i % 8) (get_or-lt bm (i / 8) hb) (omega arith) (j % 8) (omega arith),
          )
          (ground arith)
    | no ne ↦ rw (get_or-set_ne bm (i / 8) (j / 8) (clear byte (i % 8)) 0 ne) (ground arith)
  ]

  pub set_bit-IsBytes : IsBytes (bitmap_set_bit bm i)
  unfolding bitmap_set_bit
  set_bit-IsBytes =
      set-IsBytes bm (i / 8) _ hb (put-lt byte (i % 8) (get_or-lt bm (i / 8) hb) (omega arith))

  pub clear_bit-IsBytes : IsBytes (bitmap_clear_bit bm i)
  unfolding bitmap_clear_bit
  clear_bit-IsBytes =
      set-IsBytes bm (i / 8) _ hb (clear-lt byte (i % 8) (get_or-lt bm (i / 8) hb) (omega arith))

  -- Clearing a bit that was set last gives the bitmap back.
  pub clear_bit-set_bit :
      bitmap_test_bit bm i ≡ false → bitmap_clear_bit (bitmap_set_bit bm i) i ≡ bm
  unfolding bitmap_test_bit bitmap_clear_bit bitmap_set_bit
  clear_bit-set_bit free =
      rw
        (
          get_or-set_self bm (i / 8) (put byte (i % 8)) 0 hi,
          clear-put byte (i % 8) (get_or-lt bm (i / 8) hb) (omega arith) free,
          set-set bm (i / 8) (put byte (i % 8)) byte,
        )
        (set-get_or bm (i / 8) 0)

pub length-set_bit : (bm : List ℕ) (i : ℕ) → length (bitmap_set_bit bm i) ≡ length bm
unfolding bitmap_set_bit
length-set_bit bm i = length-set bm (i / 8) _

pub length-clear_bit : (bm : List ℕ) (i : ℕ) → length (bitmap_clear_bit bm i) ≡ length bm
unfolding bitmap_clear_bit
length-clear_bit bm i = length-set bm (i / 8) _
