-- ===== src/Fat/Directory/Fresh.antt =====
-- The entry of a new file of src/fs/fat16.c: its bytes, and how the search reads them.
use cgos.Base.{
  ℕ, zero, suc, ◌+◌, ◌-◌, ◌%◌, ◌<◌, ◌≡◌, refl, sym, ap, ◌∙◌, ◌≢◌, true, false, List, [], ◌∷◌, ◌++◌,
  map, ◌==◌, length, arith, length-append, length-map, length-replicate, replicate, set,
}
use cgos.Base.Bits.{test}
use mathlib.Core.List.{append_assoc}
use cgos.Fat.Disk.{put_bytes, put8, get8}
use cgos.Fat.Name.{upper, name_matches}
use cgos.Fat.Name.Layout.{
  IsNameChar, All, map-upper-All, IsName, name_text, laid_out, name_to_83_lem, set-append, spaces,
  upper-IsNameChar, get_or-append,
}
use cgos.Fat.Name.Match.{name_matches-name_to_83, name_text-IsText}
use cgos.Fat.Directory.{pick, seek, new_entry}

-- memcpy of as many bytes as stand behind a prefix.
abbrev pub AreBytes : List ℕ → Type 0
AreBytes bs = All (λ b. b < 256) bs

put_bytes-append :
    (bs xs pre ys : List ℕ)
    → AreBytes bs
    → length xs ≡ length bs
    → put_bytes (pre ++ (xs ++ ys)) (length pre) bs ≡ pre ++ (bs ++ ys)
unfolding put_bytes
put_bytes-append [] [] pre ys h e = refl
put_bytes-append [] (x ∷ xs) pre ys h e = absurd (omega (arith, e))
put_bytes-append (b ∷ bs) [] pre ys h e = absurd (omega (arith, e))
put_bytes-append (b ∷ bs) (x ∷ xs) pre ys h e =
    let byte : b % 256 ≡ b = omega (arith, h.0) in
    let grown : length pre + 1 ≡ length (pre ++ b ∷ []) =
      omega (arith, length-append {0} pre (b ∷ [])) in
    rw (byte, set-append pre x b (xs ++ ys), sym (append_assoc pre (b ∷ []) (xs ++ ys)), grown)
      (put_bytes-append bs xs (pre ++ b ∷ []) ys h.1 (omega (arith, e))
        ∙ append_assoc pre (b ∷ []) (bs ++ ys))

chars-AreBytes : (cs : List ℕ) → All IsNameChar cs → AreBytes cs
chars-AreBytes [] h = tt
chars-AreBytes (c ∷ cs) h = (h.0.1, chars-AreBytes cs h.1)

spaces-AreBytes : (n : ℕ) → AreBytes (spaces n)
spaces-AreBytes zero = tt
spaces-AreBytes (suc n) = (omega arith, spaces-AreBytes n)

AreBytes-append : (xs ys : List ℕ) → AreBytes xs → AreBytes ys → AreBytes (xs ++ ys)
AreBytes-append [] ys h k = k
AreBytes-append (x ∷ xs) ys h k = (h.0, AreBytes-append xs ys h.1 k)

first_of : (xs ys : List ℕ) → 0 < length xs → get8 (xs ++ ys) 0 ≡ get8 xs 0
first_of [] ys h = absurd (omega arith)
first_of (x ∷ xs) ys h = refl

first_pos : (base ext : List ℕ) → All IsNameChar base → 0 < get8 (laid_out base ext) 0
first_pos [] ext h = omega arith
first_pos (c ∷ cs) ext h = (upper-IsNameChar c h.0).0

-- The last 21 bytes of a new entry.
abbrev new_tail : List ℕ
new_tail = 0x20 ∷ replicate 20 0

module _ (base ext : List ℕ) (h : IsName base ext) where
  laid_out-AreBytes : AreBytes (laid_out base ext)
  laid_out-AreBytes =
      AreBytes-append (map upper base) _ (chars-AreBytes _ (map-upper-All base h.base_chars)) (
        AreBytes-append (spaces _) _ (spaces-AreBytes _) (
          AreBytes-append (map upper ext) _ (chars-AreBytes _ (map-upper-All ext h.ext_chars))
            (spaces-AreBytes _)))

  length-laid_out : length (laid_out base ext) ≡ 11
  length-laid_out =
      let name_pad = spaces (8 - length base) in
      let ext_pad = spaces (3 - length ext) in
      omega (
        arith,
        h.base_fits,
        h.ext_fits,
        length-append {0} (map upper base) (name_pad ++ (map upper ext ++ ext_pad)),
        length-append {0} name_pad (map upper ext ++ ext_pad),
        length-append {0} (map upper ext) ext_pad,
        length-map {0, 0} base upper,
        length-map {0, 0} ext upper,
        length-replicate {0} {A = ℕ} (8 - length base) b' ',
        length-replicate {0} {A = ℕ} (3 - length ext) b' ',
      )

  new_entry-eq : new_entry (name_text base ext) ≡ laid_out base ext ++ new_tail
  unfolding new_entry
  new_entry-eq =
      let lo = laid_out base ext in
      let copied =
        put_bytes-append lo (replicate 11 0) [] (replicate 21 0) laid_out-AreBytes
          (sym length-laid_out) in
      ap (λ l. put8 (put_bytes (replicate 32 0) 0 l) 11 0x20) (name_to_83_lem base ext h)
      ∙ (λ i. set (copied i) (sym length-laid_out i) 0x20)
      ∙ set-append lo 0 0x20 (replicate 20 0)

  pub length-new_entry : length (new_entry (name_text base ext)) ≡ 32
  length-new_entry =
      ap length new_entry-eq
      ∙ omega (arith, length-laid_out, length-append {0} (laid_out base ext) new_tail)

  matched : name_matches (new_entry (name_text base ext)) (name_text base ext) ≡ true
  matched =
      ap (λ l. name_matches l (name_text base ext))
        (new_entry-eq ∙ ap (λ l. l ++ new_tail) (sym (name_to_83_lem base ext h)))
      ∙ (name_matches-name_to_83 base ext new_tail (name_text base ext) h
            (name_text-IsText base ext h)).1
          refl

  attr_new : get8 (new_entry (name_text base ext)) 11 ≡ 0x20
  attr_new =
      (λ i. get8 (new_entry-eq i) (sym length-laid_out i))
      ∙ get_or-append (laid_out base ext) 0x20 (replicate 20 0)

  first_new : get8 (new_entry (name_text base ext)) 0 ≡ get8 (laid_out base ext) 0
  first_new =
      ap (λ l. get8 l 0) new_entry-eq
      ∙ first_of (laid_out base ext) new_tail (omega (arith, length-laid_out))

  -- The search for the name takes the new entry, unless its first byte marks a deleted one.
  pub seek-new_entry :
      get8 (laid_out base ext) 0 ≢ 0xE5
      → seek (name_text base ext) (new_entry (name_text base ext)) ≡ pick
  unfolding seek test
  seek-new_entry first =
      let used : (get8 (laid_out base ext) 0 == 0) ≡ false =
        ground (arith, first_pos base ext h.base_chars) in
      let kept : (get8 (laid_out base ext) 0 == 0xE5) ≡ false = ground arith in
      rw (first_new, attr_new, used, kept, matched)
