-- ===== src/Memory/Bitmap/Init.antt =====
-- bitmap_init: the manager that it sets up is valid, and all of its blocks are free.
use cgos.Base.{
  ℕ, zero, suc, ◌/◌, ◌<◌, ◌≤◌, ◌+◌, ◌%◌, ◌≡◌, ◌≢◌, refl, sym, min, Bool, false, List, [], ◌∷◌, ◌++◌,
  some, arith, ltb, if◌then◌else◌, length, get_or, drop, replicate, length-append, length-replicate,
}
use cgos.Base.Bits.{test}
use cgos.Memory.Bitmap.{Manager, block_size, max_blocks, word_mod, bitmap_test_bit, bitmap_init}
use cgos.Memory.Bitmap.Bits.{IsBytes}
use cgos.Memory.Bitmap.Valid.{IsValid, free_count}

free_count-all :
    (used : ℕ → Bool) (n : ℕ) → ((i : ℕ) → i < n → used i ≡ false) → free_count used n ≡ n
unfolding free_count
free_count-all used zero h = refl
free_count-all used (suc n) h =
    ground (arith, h n (omega arith), free_count-all used n (λ i lt. h i (omega arith)))

drop-IsBytes : (n : ℕ) (xs : List ℕ) → IsBytes xs → IsBytes (drop n xs)
drop-IsBytes zero xs h = h
drop-IsBytes (suc n) [] h = tt
drop-IsBytes (suc n) (x ∷ xs) h = drop-IsBytes n xs h.1

cleared-IsBytes : (n : ℕ) (xs : List ℕ) → IsBytes xs → IsBytes (replicate n 0 ++ xs)
cleared-IsBytes zero xs h = h
cleared-IsBytes (suc n) xs h = (omega arith, cleared-IsBytes n xs h)

get_or-cleared : (n i : ℕ) (xs : List ℕ) → i < n → get_or (replicate n 0 ++ xs) i 0 ≡ 0
get_or-cleared zero i xs lt = absurd (omega arith)
get_or-cleared (suc n) zero xs lt = refl
get_or-cleared (suc n) (suc i) xs lt = get_or-cleared n i xs (omega arith)

test-zero : (k : ℕ) → k < 8 → test 0 k ≡ false
unfolding test
test-zero zero h = refl
test-zero (suc zero) h = refl
test-zero (suc (suc zero)) h = refl
test-zero (suc (suc (suc zero))) h = refl
test-zero (suc (suc (suc (suc zero)))) h = refl
test-zero (suc (suc (suc (suc (suc zero))))) h = refl
test-zero (suc (suc (suc (suc (suc (suc zero)))))) h = refl
test-zero (suc (suc (suc (suc (suc (suc (suc zero))))))) h = refl
test-zero (suc (suc (suc (suc (suc (suc (suc (suc k)))))))) h = absurd (omega arith)

test_bit-cleared :
    (n i : ℕ) (xs : List ℕ) → i / 8 < n → bitmap_test_bit (replicate n 0 ++ xs) i ≡ false
unfolding bitmap_test_bit
test_bit-cleared n i xs lt = rw (get_or-cleared n (i / 8) xs lt) (test-zero (i % 8) (omega arith))

abbrev blocks_of : ℕ → ℕ
blocks_of size = if ltb max_blocks (size / block_size) then max_blocks else size / block_size

-- The manager of `total` blocks, all free.
abbrev fresh : List ℕ → ℕ → ℕ → Manager
fresh storage base total =
    let bytes : ℕ = (total + 7) / 8 in
    record {
      bitmap = replicate bytes 0 ++ drop bytes storage;
      memory_base = base;
      total_blocks = total;
      free_blocks = total;
      bitmap_size = bytes;
    }

fresh-length : (storage : List ℕ) (b : ℕ) → b ≤ length (replicate {A = ℕ} b 0 ++ drop b storage)
fresh-length storage b = omega (
  arith,
  length-append {0} (replicate {A = ℕ} b 0) (drop b storage),
  length-replicate {0} {A = ℕ} b 0,
)

fresh-IsValid :
    (storage : List ℕ) (base size t : ℕ)
    → IsBytes storage
    → base + size < word_mod
    → t ≤ size / block_size
    → t ≤ max_blocks
    → IsValid (fresh storage base t)
fresh-IsValid storage base size t hb hw few few' = record {
  bytes = cleared-IsBytes ((t + 7) / 8) _ (drop-IsBytes ((t + 7) / 8) storage hb);
  stored = fresh-length storage ((t + 7) / 8);
  sized = refl;
  few = few';
  counted = sym (
      free_count-all _ t
        (λ i lt. test_bit-cleared ((t + 7) / 8) i (drop ((t + 7) / 8) storage) (omega arith)));
  based = omega arith;
}

bitmap_init-eq :
    (storage : List ℕ) (base size : ℕ)
    → size ≢ 0
    → bitmap_init storage base size ≡ some (fresh storage base (blocks_of size))
unfolding bitmap_init
bitmap_init-eq storage base size ne = ground arith

-- For a region that is not empty and ends below 2 ^ 64 bitmap_init succeeds: the manager is valid,
-- manages the blocks of the region from its base on, at most BITMAP_MAX_BLOCKS of them, and all of
-- them are free.
pub init-IsValid :
    (storage : List ℕ) (base size : ℕ)
    → IsBytes storage
    → base + size < word_mod
    → size ≢ 0
    → (m : Manager) × (bitmap_init storage base size ≡ some m)
      × IsValid m
      × (m.memory_base ≡ base)
      × (m.total_blocks ≡ min max_blocks (size / block_size))
      × (m.free_blocks ≡ m.total_blocks)
init-IsValid storage base size hb hw ne = (
  fresh storage base (blocks_of size),
  bitmap_init-eq storage base size ne,
  fresh-IsValid storage base size (blocks_of size) hb hw (ground arith) (ground arith),
  refl,
  ground arith,
  refl,
)
