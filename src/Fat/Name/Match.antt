-- ===== src/Fat/Name/Match.antt =====
-- The entry that name_to_83 of src/fs/fat16.c writes for a name is matched by name_matches, and by
-- the names alone that differ from it in small letters and capitals.
use cgos.Base.{
  ℕ, ◌-◌, ◌<◌, ◌≤◌, ◌≡◌, refl, sym, ap, ◌∙◌, true, false, List, [], ◌∷◌, ◌++◌, map, ◌==◌,
  if◌then◌else◌, length, length-map, arith, Bool-cases, inl, inr, ◌↔◌, ==_iff,
}
use mathlib.Core.List.{append_assoc, map-append}
use cgos.Fat.Disk.{get8}
use cgos.Fat.Name.{upper, trimmed, entry_name, same_text, name_matches, name_to_83}
use cgos.Fat.Name.Layout.{
  IsNameChar, All, map-upper-All, upper-IsNameChar, get_or-append, trimmed_lem, IsName, dotted,
  name_text, laid_out, name_to_83_lem, length-name_part, spaces,
}

-- The text of the entry is the name in capitals.
read_ext :
    (ext pre tail : List ℕ)
    → All IsNameChar ext
    → length ext ≤ 3
    → (if get8 (pre ++ (map upper ext ++ (spaces (3 - length ext) ++ tail))) (length pre) == b' '
        then []
        else b'.'
          ∷ trimmed 3 (pre ++ (map upper ext ++ (spaces (3 - length ext) ++ tail))) (length pre))
      ≡ dotted (map upper ext)
read_ext [] pre tail h fits = rw (get_or-append pre b' ' (b' ' ∷ b' ' ∷ tail))
read_ext (c ∷ cs) pre tail h fits =
    let rest = map upper cs ++ (spaces (3 - length (c ∷ cs)) ++ tail) in
    let big = upper-IsNameChar c h.0 in
    let no_space : (upper c == b' ') ≡ false = ground arith in
    rw (get_or-append pre (upper c) rest, no_space)
      (ap (λ l. b'.' ∷ l)
        (trimmed_lem (map upper (c ∷ cs)) 3 (3 - length (c ∷ cs)) pre tail
          (map-upper-All (c ∷ cs) h) (omega (arith, fits, length-map {0, 0} cs upper))))

entry_name-laid_out :
    (base ext tail : List ℕ)
    → IsName base ext
    → entry_name (laid_out base ext ++ tail) ≡ name_text (map upper base) (map upper ext)
unfolding entry_name
entry_name-laid_out base ext tail h =
    let pad = spaces (8 - length base) in
    let pre = map upper base ++ pad in
    let rest = map upper ext ++ (spaces (3 - length ext) ++ tail) in
    let name_first : laid_out base ext ++ tail ≡ map upper base ++ (pad ++ rest) =
      simp append_assoc in
    let ext_first : laid_out base ext ++ tail ≡ pre ++ rest = simp append_assoc in
    let at = sym (length-name_part base h.base_fits) in
    let a : trimmed 8 (laid_out base ext ++ tail) 0 ≡ map upper base =
      ap (λ l. trimmed 8 l 0) name_first
      ∙ trimmed_lem (map upper base) 8 (8 - length base) [] rest (map-upper-All base h.base_chars)
          (omega (arith, h.base_fits, length-map {0, 0} base upper)) in
    (λ i.
      a i
      ++ (if get8 (ext_first i) (at i) == b' ' then [] else b'.' ∷ trimmed 3 (ext_first i) (at i)))
    ∙ ap (λ l. map upper base ++ l) (read_ext ext pre tail h.ext_chars h.ext_fits)

-- No character of a text is the terminator.
abbrev pub IsText : List ℕ → Type 0
IsText cs = All (λ c. 0 < c) cs

pub upper_idem : (c : ℕ) → upper (upper c) ≡ upper c
unfolding upper
upper_idem c = ground arith

upper_pos : (c : ℕ) → 0 < c → 0 < upper c
unfolding upper
upper_pos c h = ground arith

map-upper_idem : (cs : List ℕ) → map upper (map upper cs) ≡ map upper cs
map-upper_idem [] = refl
map-upper_idem (c ∷ cs) = cc (upper_idem c, map-upper_idem cs)

map-upper-IsText : (cs : List ℕ) → IsText cs → IsText (map upper cs)
map-upper-IsText [] h = tt
map-upper-IsText (c ∷ cs) h = (upper_pos c h.0, map-upper-IsText cs h.1)

same_text→eq :
    (xs ys : List ℕ) → IsText xs → IsText ys → same_text xs ys ≡ true → map upper xs ≡ map upper ys
unfolding same_text
same_text→eq [] [] h k e = refl
same_text→eq [] (y ∷ ys) h k e = absurd (ground arith)
same_text→eq (x ∷ xs) [] h k e = absurd (ground arith)
same_text→eq (x ∷ xs) (y ∷ ys) h k e = elim (Bool-cases (upper x == upper y)) [
  | inl same ↦
      let rest : same_text xs ys ≡ true = ground arith in
      cc ((==_iff _ _).0 same, same_text→eq xs ys h.1 k.1 rest)
  | inr other ↦ absurd (ground arith)
]

eq→same_text :
    (xs ys : List ℕ) → IsText xs → IsText ys → map upper xs ≡ map upper ys → same_text xs ys ≡ true
unfolding same_text
eq→same_text [] [] h k e = refl
eq→same_text [] (y ∷ ys) h k e = absurd (cc)
eq→same_text (x ∷ xs) [] h k e = absurd (cc)
eq→same_text (x ∷ xs) (y ∷ ys) h k e =
    let head : upper x ≡ upper y = cc in
    let tail : map upper xs ≡ map upper ys = cc in ground (arith, eq→same_text xs ys h.1 k.1 tail)

pub name_text-IsText : (base ext : List ℕ) → IsName base ext → IsText (name_text base ext)
name_text-IsText base ext h =
    IsText-append base (dotted ext) (IsText-chars base h.base_chars) (dot_first ext h.ext_chars)
  where
    IsText-chars : (cs : List ℕ) → All IsNameChar cs → IsText cs
    IsText-chars [] h = tt
    IsText-chars (c ∷ cs) h = (h.0.0, IsText-chars cs h.1)

    dot_first : (cs : List ℕ) → All IsNameChar cs → IsText (dotted cs)
    dot_first [] h = tt
    dot_first (c ∷ cs) h = (omega arith, IsText-chars (c ∷ cs) h)

    IsText-append : (xs ys : List ℕ) → IsText xs → IsText ys → IsText (xs ++ ys)
    IsText-append [] ys h k = k
    IsText-append (x ∷ xs) ys h k = (h.0, IsText-append xs ys h.1 k)

map-upper-dotted : (cs : List ℕ) → map upper (dotted cs) ≡ dotted (map upper cs)
unfolding upper
map-upper-dotted [] = refl
map-upper-dotted (c ∷ cs) = refl

-- For a name of at most eight characters with an extension of at most three, none of them a space
-- or a dot, the bytes that name_to_83 writes at the start of an entry match a text exactly when the
-- text is the name, up to small letters and capitals.
pub name_matches-name_to_83 :
    (base ext tail other : List ℕ)
    → IsName base ext
    → IsText other
    → (name_matches (name_to_83 (name_text base ext) ++ tail) other ≡ true)
      ↔ (map upper (name_text base ext) ≡ map upper other)
unfolding name_matches
name_matches-name_to_83 base ext tail other h k =
    let shown : entry_name (name_to_83 (name_text base ext) ++ tail)
        ≡ map upper (name_text base ext) =
      ap (λ l. entry_name (l ++ tail)) (name_to_83_lem base ext h)
      ∙ entry_name-laid_out base ext tail h
      ∙ simp (map-append, map-upper-dotted) in
    let text = map-upper-IsText (name_text base ext) (name_text-IsText base ext h) in
    let idem = map-upper_idem (name_text base ext) in
    (
      λ e.
          sym idem
          ∙ same_text→eq (map upper (name_text base ext)) other text k
              (ap (λ l. same_text l other) (sym shown) ∙ e),
      λ e.
          ap (λ l. same_text l other) shown
          ∙ eq→same_text (map upper (name_text base ext)) other text k (idem ∙ e),
    )
