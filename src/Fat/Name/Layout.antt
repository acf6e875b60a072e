-- ===== src/Fat/Name/Layout.antt =====
-- What name_to_83 of src/fs/fat16.c writes, and what a loop over the bytes of an entry reads.
use cgos.Base.{
  ℕ, zero, suc, ◌+◌, ◌-◌, ◌%◌, ◌<◌, ◌≤◌, ◌≡◌, refl, sym, ap, ◌∙◌, ◌≢◌, false, List, [], ◌∷◌, ◌++◌,
  map, ◌==◌, replicate, length, length-append, length-map, length-replicate, arith, set,
}
use mathlib.Core.List.{append_assoc, append-nil}
use cgos.Fat.Disk.{get8, put8}
use cgos.Fat.Name.{
  upper, trimmed, copy_base, skip_to_dot, skip_dot, copy_ext, finish_83, name_to_83,
}

-- A character that a name may have: a byte that is no space and no dot.
abbrev pub IsNameChar : ℕ → Type 0
IsNameChar c = (0 < c) × (c < 256) × (c ≢ b' ') × (c ≢ b'.')

abbrev pub All : (ℕ → Type 0) → List ℕ → Type 0
All P [] = Unit
All P (x ∷ xs) = P x × All P xs

pub upper-IsNameChar : (c : ℕ) → IsNameChar c → IsNameChar (upper c)
unfolding upper
upper-IsNameChar c h = (ground arith, ground arith, λ e. ground arith, λ e. ground arith)

pub map-upper-All : (cs : List ℕ) → All IsNameChar cs → All IsNameChar (map upper cs)
map-upper-All [] h = tt
map-upper-All (c ∷ cs) h = (upper-IsNameChar c h.0, map-upper-All cs h.1)

-- A byte written behind a prefix, and read there.
pub get_or-append : (pre : List ℕ) (b : ℕ) (tail : List ℕ) → get8 (pre ++ b ∷ tail) (length pre) ≡ b
get_or-append [] b tail = refl
get_or-append (x ∷ pre) b tail = get_or-append pre b tail

pub set-append :
    (pre : List ℕ) (a b : ℕ) (tail : List ℕ)
    → set (pre ++ a ∷ tail) (length pre) b ≡ pre ++ b ∷ tail
set-append [] a b tail = refl
set-append (x ∷ pre) a b tail = ap (λ l. x ∷ l) (set-append pre a b tail)

length-snoc : (pre : List ℕ) (b : ℕ) → length pre + 1 ≡ length (pre ++ b ∷ [])
length-snoc pre b = omega (arith, length-append {0} pre (b ∷ []))

snoc : (pre : List ℕ) (b : ℕ) (tail : List ℕ) → pre ++ b ∷ tail ≡ (pre ++ b ∷ []) ++ tail
snoc pre b tail = sym (append_assoc pre (b ∷ []) tail)

abbrev pub spaces : ℕ → List ℕ
spaces n = replicate n b' '

-- One byte is written behind the prefix, which grows by it.
put8-append :
    (pre : List ℕ) (c n : ℕ) (tail : List ℕ)
    → IsNameChar c
    → put8 (pre ++ (spaces (suc n) ++ tail)) (length pre) (upper c)
      ≡ (pre ++ upper c ∷ []) ++ (spaces n ++ tail)
put8-append pre c n tail h =
    let byte : upper c % 256 ≡ upper c = omega (arith, (upper-IsNameChar c h).1) in
    rw byte
      (set-append pre b' ' (upper c) (spaces n ++ tail) ∙ snoc pre (upper c) (spaces n ++ tail))

copy_ext_end : (n at : ℕ) (out : List ℕ) → copy_ext n [] at out ≡ out
unfolding copy_ext
copy_ext_end zero at out = refl
copy_ext_end (suc n) at out = refl

-- What the two loops write behind a prefix.
pub copy_ext_lem :
    (cs : List ℕ) (n m : ℕ) (pre tail : List ℕ)
    → All IsNameChar cs
    → length cs + m ≡ n
    → copy_ext n cs (length pre) (pre ++ (spaces n ++ tail))
      ≡ pre ++ (map upper cs ++ (spaces m ++ tail))
unfolding copy_ext
copy_ext_lem [] n m pre tail h e =
    let same : n ≡ m = omega (arith, e) in
    copy_ext_end n (length pre) (pre ++ (spaces n ++ tail))
    ∙ ap (λ (k : ℕ). pre ++ (spaces k ++ tail)) same
copy_ext_lem (c ∷ cs) zero m pre tail h e = absurd (omega (arith, e))
copy_ext_lem (c ∷ cs) (suc n) m pre tail h e =
    rw (put8-append pre c n tail h.0, length-snoc pre (upper c))
      (copy_ext_lem cs n m (pre ++ upper c ∷ []) tail h.1 (omega (arith, e))
        ∙ sym (snoc pre (upper c) (map upper cs ++ (spaces m ++ tail))))

-- Whether the name part ends here.
abbrev pub EndsBase : List ℕ → Type 0
EndsBase [] = Unit
EndsBase (c ∷ cs) = c ≡ b'.'

copy_base_end :
    (n at : ℕ) (rest out : List ℕ) → EndsBase rest → copy_base n rest at out ≡ (rest, out)
unfolding copy_base
copy_base_end zero at rest out h = refl
copy_base_end (suc n) at [] out h = refl
copy_base_end (suc n) at (c ∷ cs) out h = ground arith

pub copy_base_lem :
    (cs rest : List ℕ) (n m : ℕ) (pre tail : List ℕ)
    → All IsNameChar cs
    → EndsBase rest
    → length cs + m ≡ n
    → copy_base n (cs ++ rest) (length pre) (pre ++ (spaces n ++ tail))
      ≡ (rest, pre ++ (map upper cs ++ (spaces m ++ tail)))
unfolding copy_base
copy_base_lem [] rest n m pre tail h stop e =
    let same : n ≡ m = omega (arith, e) in
    copy_base_end n (length pre) rest (pre ++ (spaces n ++ tail)) stop
    ∙ ap (λ (k : ℕ). (rest, pre ++ (spaces k ++ tail))) same
copy_base_lem (c ∷ cs) rest zero m pre tail h stop e = absurd (omega (arith, e))
copy_base_lem (c ∷ cs) rest (suc n) m pre tail h stop e =
    let no_dot : (c == b'.') ≡ false = ground arith in
    rw (no_dot, put8-append pre c n tail h.0, length-snoc pre (upper c))
      (copy_base_lem cs rest n m (pre ++ upper c ∷ []) tail h.1 stop (omega (arith, e))
        ∙ ap (λ out. (rest, out)) (sym (snoc pre (upper c) (map upper cs ++ (spaces m ++ tail)))))

-- A loop over the bytes reads the characters up to the spaces.
trimmed_end : (m : ℕ) (pre tail : List ℕ) → trimmed m (pre ++ (spaces m ++ tail)) (length pre) ≡ []
unfolding trimmed
trimmed_end zero pre tail = refl
trimmed_end (suc m) pre tail = rw (get_or-append pre b' ' (spaces m ++ tail))

pub trimmed_lem :
    (cs : List ℕ) (n m : ℕ) (pre tail : List ℕ)
    → All IsNameChar cs
    → length cs + m ≡ n
    → trimmed n (pre ++ (cs ++ (spaces m ++ tail))) (length pre) ≡ cs
unfolding trimmed
trimmed_lem [] n m pre tail h e =
    let same : n ≡ m = omega (arith, e) in
    ap (λ (k : ℕ). trimmed k (pre ++ (spaces m ++ tail)) (length pre)) same ∙ trimmed_end m pre tail
trimmed_lem (c ∷ cs) zero m pre tail h e = absurd (omega (arith, e))
trimmed_lem (c ∷ cs) (suc n) m pre tail h e =
    let no_space : (c == b' ') ≡ false = ground arith in
    rw
      (
        get_or-append pre c (cs ++ (spaces m ++ tail)),
        no_space,
        snoc pre c (cs ++ (spaces m ++ tail)),
        length-snoc pre c,
      )
      (ap (λ l. c ∷ l) (trimmed_lem cs n m (pre ++ c ∷ []) tail h.1 (omega (arith, e))))

-- A name of at most eight characters with an extension of at most three, and the text of it.
pub record IsName (base ext : List ℕ) : Type 0 where
  pub base_chars : All IsNameChar base
  pub ext_chars : All IsNameChar ext
  pub base_fits : length base ≤ 8
  pub ext_fits : length ext ≤ 3

abbrev pub dotted : List ℕ → List ℕ
dotted [] = []
dotted (c ∷ cs) = b'.' ∷ c ∷ cs

abbrev pub name_text : List ℕ → List ℕ → List ℕ
name_text base ext = base ++ dotted ext

-- The eleven bytes that the name should have.
abbrev pub laid_out : List ℕ → List ℕ → List ℕ
laid_out base ext =
    map upper base ++ (spaces (8 - length base) ++ (map upper ext ++ spaces (3 - length ext)))

pub length-name_part :
    (base : List ℕ) → length base ≤ 8 → length (map upper base ++ spaces (8 - length base)) ≡ 8
length-name_part base fits = omega (
  arith,
  length-append {0} (map upper base) (spaces (8 - length base)),
  length-map {0, 0} base upper,
  length-replicate {0} {A = ℕ} (8 - length base) b' ',
)

skip_to_ext : (ext : List ℕ) → All IsNameChar ext → skip_dot (skip_to_dot (dotted ext)) ≡ ext
unfolding skip_to_dot skip_dot
skip_to_ext [] h = refl
skip_to_ext (c ∷ cs) h = refl

write_ext :
    (base ext : List ℕ)
    → IsName base ext
    → copy_ext 3 ext 8 (map upper base ++ (spaces (8 - length base) ++ spaces 3))
      ≡ laid_out base ext
write_ext base ext h =
    let pad = spaces (8 - length base) in
    let pre = map upper base ++ pad in
    let shape : map upper base ++ (pad ++ spaces 3) ≡ pre ++ (spaces 3 ++ []) =
      sym (append_assoc (map upper base) pad (spaces 3)) in
    let at = sym (length-name_part base h.base_fits) in
    (λ i. copy_ext 3 ext (at i) (shape i))
    ∙ copy_ext_lem ext 3 (3 - length ext) pre [] h.ext_chars (omega (arith, h.ext_fits))
    ∙ simp (append_assoc, append-nil)

dotted-EndsBase : (ext : List ℕ) → EndsBase (dotted ext)
dotted-EndsBase [] = tt
dotted-EndsBase (c ∷ cs) = refl

pub name_to_83_lem :
    (base ext : List ℕ) → IsName base ext → name_to_83 (name_text base ext) ≡ laid_out base ext
unfolding name_to_83
name_to_83_lem base ext h =
    ap finish_83 (
      copy_base_lem base (dotted ext) 8 (8 - length base) [] (spaces 3) h.base_chars
        (dotted-EndsBase ext) (omega (arith, h.base_fits)))
    ∙ ap (λ l. copy_ext 3 l 8 (map upper base ++ (spaces (8 - length base) ++ spaces 3)))
        (skip_to_ext ext h.ext_chars)
    ∙ write_ext base ext h
