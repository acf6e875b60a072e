-- ===== src/Base/Or.antt =====
-- The bitwise or of a shifted number and a smaller one is their sum.
use Prim.Native.Nat.{ℕ, zero, suc, ◌+◌, ◌*◌, ◌/◌, ◌≤◌, ◌<◌, max, bit_or, digits, bit_or-bitwise}
use mathlib.Core.Path.{◌≡◌, refl, ap, ◌∙◌}
use native.Mathlib.Omega.{arith}

-- `a << k`
abbrev pub shl : ℕ → ℕ → ℕ
shl a zero = a
shl a (suc k) = shl a k * 2

-- The or with at most `n` digits to go.
abbrev merge : ℕ → ℕ → ℕ → ℕ
merge = digits (λ rest. rest) max

merge-zero : (n a : ℕ) → a ≤ n → merge n a 0 ≡ a
merge-zero zero zero small = refl
merge-zero (suc n) zero small = refl
merge-zero zero (suc a) small = absurd (omega arith)
merge-zero (suc n) (suc a) small =
    let half = merge-zero n (suc a / 2) (omega arith) in omega (arith, half)

merge-shl : (k n a b x : ℕ) → x ≡ shl a k → x ≤ n → b < shl 1 k → merge n x b ≡ x + b
merge-shl zero n a b x e small lt =
    let none_left : b ≡ 0 = omega arith in
    ap (λ (y : ℕ). merge n x y) none_left ∙ omega (arith, merge-zero n x small)
merge-shl (suc k) zero a b zero e small lt = omega arith
merge-shl (suc k) (suc n) a b zero e small lt = omega arith
merge-shl (suc k) zero a b (suc x) e small lt = absurd (omega arith)
merge-shl (suc k) (suc n) a b (suc x) e small lt =
    let half = merge-shl k n a (b / 2) (suc x / 2) (omega (arith, e)) (omega arith) (omega arith) in
    omega (arith, e, half)

pub bit_or-shl : (k a b : ℕ) → b < shl 1 k → bit_or (shl a k) b ≡ shl a k + b
bit_or-shl k a b lt =
    omega
      (arith, bit_or-bitwise (shl a k) b, merge-shl k (shl a k) a b (shl a k) refl (omega arith) lt)
