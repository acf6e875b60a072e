-- ===== src/Base/Bits.antt =====
-- The bits of a byte: `x & (1 << k)`, `x |= 1 << k`, `x &= ~(1 << k)`, with their laws by tables.
use Prim.Native.Nat.{ℕ, zero, suc, ◌-◌, ◌^◌, ◌<◌, bit_and, bit_or}
use mathlib.Core.Path.{◌≡◌, refl}
use mathlib.Core.Bool.{Bool, true, false, not, ◌&&◌}
use native.Mathlib.Omega.{arith}
use cgos.Base.Tests.{ltb, ◌==◌, if◌then◌else◌}

-- `x & (1 << k)`, as a condition.
unfoldable pub test : ℕ → ℕ → Bool
test x k = not (bit_and x (2 ^ k) == 0)

-- `x |= 1 << k` on a byte.
unfoldable pub put : ℕ → ℕ → ℕ
put x k = bit_or x (2 ^ k)

-- `x &= ~(1 << k)` on a byte: the mask is cut to 8 bits by the store.
unfoldable pub clear : ℕ → ℕ → ℕ
clear x k = bit_and x (255 - 2 ^ k)

unfoldable pub holds_below : ℕ → (ℕ → Bool) → Bool
holds_below zero row = true
holds_below (suc n) row = row n && holds_below n row

pub holds_below-lt :
    (n : ℕ) (row : ℕ → Bool) (x : ℕ) → holds_below n row ≡ true → x < n → row x ≡ true
unfolding holds_below
holds_below-lt zero row x checked small = absurd (omega arith)
holds_below-lt (suc n) row x checked small =
    let rest = holds_below-lt n row x in ground (arith, rest)

same : Bool → Bool → Bool
same true b = b
same false b = not b

same→eq : (a b : Bool) → same a b ≡ true → a ≡ b
unfolding same
same→eq a b h = ground arith

-- One row of the tables: byte `x`, bits `k` and `j`.
put_row : ℕ → ℕ → ℕ → Bool
unfolding test put same
put_row x k j = same (test (put x k) j) (if k == j then true else test x j)

clear_row : ℕ → ℕ → ℕ → Bool
unfolding test clear same
clear_row x k j = same (test (clear x k) j) (if k == j then false else test x j)

size_row : ℕ → ℕ → Bool
unfolding test put clear
size_row x k = ltb (put x k) 256 && ltb (clear x k) 256

undo_row : ℕ → ℕ → Bool
unfolding test put clear
undo_row x k = if test x k then true else clear (put x k) k == x

put_table : holds_below 256 (λ x. holds_below 8 (λ k. holds_below 8 (λ j. put_row x k j))) ≡ true
unfolding holds_below put_row
put_table = refl

clear_table :
    holds_below 256 (λ x. holds_below 8 (λ k. holds_below 8 (λ j. clear_row x k j))) ≡ true
unfolding holds_below clear_row
clear_table = refl

size_table : holds_below 256 (λ x. holds_below 8 (λ k. size_row x k)) ≡ true
unfolding holds_below size_row
size_table = refl

undo_table : holds_below 256 (λ x. holds_below 8 (λ k. undo_row x k)) ≡ true
unfolding holds_below undo_row
undo_table = refl

module _ (x k : ℕ) (hx : x < 256) (hk : k < 8) where
  pub test-put : (j : ℕ) → j < 8 → test (put x k) j ≡ (if k == j then true else test x j)
  unfolding put_row
  test-put j hj =
      same→eq _ _
        (holds_below-lt 8 _ j (holds_below-lt 8 _ k (holds_below-lt 256 _ x put_table hx) hk) hj)

  pub test-clear : (j : ℕ) → j < 8 → test (clear x k) j ≡ (if k == j then false else test x j)
  unfolding clear_row
  test-clear j hj =
      same→eq _ _
        (holds_below-lt 8 _ j (holds_below-lt 8 _ k (holds_below-lt 256 _ x clear_table hx) hk) hj)

  size_row_lem : size_row x k ≡ true
  size_row_lem = holds_below-lt 8 _ k (holds_below-lt 256 _ x size_table hx) hk

  undo_row_lem : undo_row x k ≡ true
  undo_row_lem = holds_below-lt 8 _ k (holds_below-lt 256 _ x undo_table hx) hk

  pub put-lt : put x k < 256
  unfolding size_row
  put-lt = let h : size_row x k ≡ true = size_row_lem in ground (arith)

  pub clear-lt : clear x k < 256
  unfolding size_row
  clear-lt = let h : size_row x k ≡ true = size_row_lem in ground (arith)

  pub clear-put : test x k ≡ false → clear (put x k) k ≡ x
  unfolding undo_row
  clear-put e = let h : undo_row x k ≡ true = undo_row_lem in ground arith
