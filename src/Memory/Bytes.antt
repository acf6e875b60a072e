-- ===== src/Memory/Bytes.antt =====
-- The byte routines of src/memory/memory.c, on a memory that maps addresses to bytes.
use cgos.Base.{
  ℕ, zero, suc, ◌+◌, ◌-◌, ◌%◌, ◌<◌, ◌≤◌, ◌≡◌, refl, ap, ◌∙◌, Bool, true, false, ◌&&◌, arith, ltb,
  leb, ◌==◌, if◌then◌else◌, Bool-cases, dec_lt, inl, inr, ℕ_discrete,
}

abbrev pub write : (ℕ → ℕ) → ℕ → ℕ → ℕ → ℕ
write mem a v x = if a == x then v else mem x

-- The loop from the byte `i` on, with `n` bytes to go.
unfoldable pub copy_up : (ℕ → ℕ) → ℕ → ℕ → ℕ → ℕ → ℕ → ℕ
copy_up mem dest src i zero = mem
copy_up mem dest src i (suc n) = copy_up (write mem (dest + i) (mem (src + i))) dest src (i + 1) n

-- The loop from the last byte down.
unfoldable pub copy_down : (ℕ → ℕ) → ℕ → ℕ → ℕ → ℕ → ℕ
copy_down mem dest src zero = mem
copy_down mem dest src (suc i) = copy_down (write mem (dest + i) (mem (src + i))) dest src i

unfoldable pub memcpy : (ℕ → ℕ) → ℕ → ℕ → ℕ → ℕ → ℕ
unfolding copy_up
memcpy mem dest src n = copy_up mem dest src 0 n

unfoldable pub memmove : (ℕ → ℕ) → ℕ → ℕ → ℕ → ℕ → ℕ
unfolding copy_up copy_down
memmove mem dest src n =
    if ltb dest src
    then copy_up mem dest src 0 n
    else if ltb src dest
    then copy_down mem dest src n
    else mem

-- The loop of memset from the byte `i` on.
unfoldable pub fill : (ℕ → ℕ) → ℕ → ℕ → ℕ → ℕ → ℕ → ℕ
fill mem dest val i zero = mem
fill mem dest val i (suc n) = fill (write mem (dest + i) val) dest val (i + 1) n

unfoldable pub memset : (ℕ → ℕ) → ℕ → ℕ → ℕ → ℕ → ℕ
unfolding fill
memset mem dest value count = fill mem dest (value % 256) 0 count

-- The results -1, 0 and 1 of memcmp.
pub data Order : Type 0 where
  less same greater : Order

unfoldable pub memcmp : (ℕ → ℕ) → ℕ → ℕ → ℕ → Order
memcmp mem s1 s2 zero = same
memcmp mem s1 s2 (suc n) =
    let rest = memcmp mem (s1 + 1) (s2 + 1) n in
    if mem s1 == mem s2 then rest else if ltb (mem s1) (mem s2) then less else greater

-- Whether an address lies among the `n` from `a` on.
abbrev pub within : ℕ → ℕ → ℕ → Bool
within a n x = leb a x && ltb x (a + n)

-- A byte that a loop has written is not read again: its next reads lie beyond it.
module _ (mem : ℕ → ℕ) (dest src i x : ℕ) where
  abbrev moved : ℕ → ℕ
  moved = write mem (dest + i) (mem (src + i))

  moved_here : dest + i ≡ x → moved x ≡ mem (src + (x - dest))
  moved_here e =
      let at : src + i ≡ src + (x - dest) = omega arith in
      let hit : (dest + i == x) ≡ true = ground arith in rw hit (ap mem at)

  moved_away : (y : ℕ) → ¬ (dest + i ≡ y) → moved y ≡ mem y
  moved_away y ne = let miss : (dest + i == y) ≡ false = ground arith in rw miss refl

copy_up_lem :
    (mem : ℕ → ℕ) (dest src i n x : ℕ)
    → dest < src
    → copy_up mem dest src i n x ≡ (if within (dest + i) n x then mem (src + (x - dest)) else mem x)
unfolding copy_up
copy_up_lem mem dest src i zero x lt = ground arith
copy_up_lem mem dest src i (suc n) x lt =
    let rest = copy_up_lem (moved mem dest src i x) dest src (i + 1) n x lt in
    elim (ℕ_discrete (dest + i) x) [
      | yes e ↦
          let out : within (dest + (i + 1)) n x ≡ false = ground arith in
          let in_range : within (dest + i) (suc n) x ≡ true = ground arith in
          rest ∙ rw (out, in_range) (moved_here mem dest src i x e)
      | no ne ↦
          let same : within (dest + i) (suc n) x ≡ within (dest + (i + 1)) n x = ground arith in
          elim (Bool-cases (within (dest + (i + 1)) n x)) [
            | inl b ↦
                let far : ¬ (dest + i ≡ src + (x - dest)) =
                  λ z. (let lo : dest + (i + 1) ≤ x = ground arith in omega arith) in
                rest ∙ rw (same, b) (moved_away mem dest src i x (src + (x - dest)) far)
            | inr b ↦ rest ∙ rw (same, b) (moved_away mem dest src i x x ne)
          ]
    ]

copy_down_lem :
    (mem : ℕ → ℕ) (dest src i x : ℕ)
    → src < dest
    → copy_down mem dest src i x ≡ (if within dest i x then mem (src + (x - dest)) else mem x)
unfolding copy_down
copy_down_lem mem dest src zero x lt = ground arith
copy_down_lem mem dest src (suc i) x lt =
    let rest = copy_down_lem (moved mem dest src i x) dest src i x lt in
    elim (ℕ_discrete (dest + i) x) [
      | yes e ↦
          let out : within dest i x ≡ false = ground arith in
          let in_range : within dest (suc i) x ≡ true = ground arith in
          rest ∙ rw (out, in_range) (moved_here mem dest src i x e)
      | no ne ↦
          let same : within dest (suc i) x ≡ within dest i x = ground arith in
          elim (Bool-cases (within dest i x)) [
            | inl b ↦
                let far : ¬ (dest + i ≡ src + (x - dest)) = λ z.
                  (let lo : dest ≤ x = ground arith in
                    let hi : x < dest + i = ground arith in omega arith) in
                rest ∙ rw (same, b) (moved_away mem dest src i x (src + (x - dest)) far)
            | inr b ↦ rest ∙ rw (same, b) (moved_away mem dest src i x x ne)
          ]
    ]

stays_put :
    (mem : ℕ → ℕ) (dest src n x : ℕ)
    → dest ≡ src
    → mem x ≡ (if within dest n x then mem (src + (x - dest)) else mem x)
stays_put mem dest src n x e = elim (Bool-cases (within dest n x)) [
  | inl b ↦
      let lo : dest ≤ x = ground arith in
      let at : x ≡ src + (x - dest) = omega arith in rw b (ap mem at)
  | inr b ↦ rw b refl
]

-- memmove copies also where the two ranges overlap: afterwards each byte of the destination is what
-- the corresponding byte of the source was before, and no other byte has changed.
pub memmove-moves :
    (mem : ℕ → ℕ) (dest src n x : ℕ)
    → memmove mem dest src n x ≡ (if within dest n x then mem (src + (x - dest)) else mem x)
unfolding memmove
memmove-moves mem dest src n x = elim (dec_lt dest src) [
  | yes up ↦
      let t : ltb dest src ≡ true = ground arith in
      let z : dest + 0 ≡ dest = omega arith in
      rw t (
        copy_up_lem mem dest src 0 n x up
        ∙ ap (λ (a : ℕ). if within a n x then mem (src + (x - dest)) else mem x) z)
  | no not_up ↦
      let t : ltb dest src ≡ false = ground arith in
      elim (dec_lt src dest) [
        | yes down ↦
            let u : ltb src dest ≡ true = ground arith in
            rw (t, u) (copy_down_lem mem dest src n x down)
        | no not_down ↦
            let u : ltb src dest ≡ false = ground arith in
            rw (t, u) (stays_put mem dest src n x (omega arith))
      ]
]
