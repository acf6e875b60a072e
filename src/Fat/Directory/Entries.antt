-- ===== src/Fat/Directory/Entries.antt =====
-- An entry that is put into a sector of the root directory of src/fs/fat16.c, and the search after it.
use cgos.Base.{
  ℕ, zero, suc, ◌+◌, ◌*◌, ◌<◌, ◌≤◌, ◌≡◌, refl, sym, ap, ◌∙◌, ◌≢◌, List, [], ◌∷◌, ◌++◌, take, drop,
  length, Option, some, none, arith, ltb, Bool-cases, inl, inr, length-take, length-append,
  length-drop,
}
use cgos.Fat.Directory.{
  entry_at, with_entry, Verdict, stop, skip, pick, Hit, ended, at, none_here, scan_sector,
}
use cgos.Fat.Directory.Scan.{
  Skips, Ends, scan_sector-Ends, scan_sector-at, scan_sector-none, next_of, find_in,
}

take-take_append :
    (n b : ℕ) (xs ys : List ℕ) → n ≤ b → b ≤ length xs → take n (take b xs ++ ys) ≡ take n xs
take-take_append zero b xs ys p q = refl
take-take_append (suc n) zero xs ys p q = absurd (omega arith)
take-take_append (suc n) (suc b) [] ys p q = absurd (omega arith)
take-take_append (suc n) (suc b) (x ∷ xs) ys p q =
    ap (λ l. x ∷ l) (take-take_append n b xs ys (omega arith) (omega arith))

-- What stands before a cut is kept.
take-drop_append :
    (n a b : ℕ) (xs ys : List ℕ)
    → a + n ≤ b
    → b ≤ length xs
    → take n (drop a (take b xs ++ ys)) ≡ take n (drop a xs)
take-drop_append n zero b xs ys p q = take-take_append n b xs ys (omega arith) q
take-drop_append n (suc a) zero xs ys p q = absurd (omega arith)
take-drop_append n (suc a) (suc b) [] ys p q = absurd (omega arith)
take-drop_append n (suc a) (suc b) (x ∷ xs) ys p q =
    take-drop_append n a b xs ys (omega arith) (omega arith)

drop-take_append : (b : ℕ) (xs ys : List ℕ) → b ≤ length xs → drop b (take b xs ++ ys) ≡ ys
drop-take_append zero xs ys q = refl
drop-take_append (suc b) [] ys q = absurd (omega arith)
drop-take_append (suc b) (x ∷ xs) ys q = drop-take_append b xs ys (omega arith)

take-append : (n : ℕ) (xs ys : List ℕ) → length xs ≡ n → take n (xs ++ ys) ≡ xs
take-append zero [] ys e = refl
take-append zero (x ∷ xs) ys e = absurd (omega (arith, e))
take-append (suc n) [] ys e = absurd (omega (arith, e))
take-append (suc n) (x ∷ xs) ys e = ap (λ l. x ∷ l) (take-append n xs ys (omega (arith, e)))

module _ (bytes entry : List ℕ) (j : ℕ) (sized : length bytes ≡ 512) (fits : length entry ≡ 32)
    (in_sector : j < 16) where
  pub entry_at-with_entry : entry_at (with_entry bytes j entry) j ≡ entry
  unfolding entry_at with_entry
  entry_at-with_entry =
      ap (take 32)
        (drop-take_append (32 * j) bytes (entry ++ drop (32 * j + 32) bytes) (omega (arith, sized)))
      ∙ take-append 32 entry (drop (32 * j + 32) bytes) fits

  pub entry_at-with_entry_lt :
      (m : ℕ) → m < j → entry_at (with_entry bytes j entry) m ≡ entry_at bytes m
  unfolding entry_at with_entry
  entry_at-with_entry_lt m below =
      take-drop_append 32 (32 * m) (32 * j) bytes (entry ++ drop (32 * j + 32) bytes) (omega arith)
        (omega (arith, sized))

  pub length-with_entry : length (with_entry bytes j entry) ≡ 512
  unfolding with_entry
  length-with_entry = omega (
    arith,
    sized,
    fits,
    length-append {0} (take (32 * j) bytes) (entry ++ drop (32 * j + 32) bytes),
    length-append {0} entry (drop (32 * j + 32) bytes),
    length-take {0} (32 * j) bytes,
    length-drop {0} (32 * j + 32) bytes,
  )

-- Two ways to judge: what the first passes over, the second does not stop at.
module _ (free seek : List ℕ → Verdict) (agrees : (e : List ℕ) → free e ≡ skip → seek e ≢ stop)
    (never : (e : List ℕ) → free e ≢ stop) where
  by_end :
      (bytes : List ℕ) (j : ℕ) (hit : Hit)
      → j ≤ 16
      → Skips free bytes 0 j
      → ((k : ℕ) → hit ≢ at k)
      → Ends seek bytes 0 16 hit
      → Skips seek bytes 0 j
  by_end bytes j ended room skipped missing (k, _, _, stops, rest) m p q =
      elim (Bool-cases (ltb m k)) [
        | inl before ↦ rest m p (ground arith)
        | inr after ↦
            absurd (agrees (entry_at bytes k) (skipped k (omega arith) (ground arith)) stops)
      ]
  by_end bytes j (at k) room skipped missing h m p q = absurd (missing k refl)
  by_end bytes j none_here room skipped missing h m p q = h m p (omega arith)

  -- Before the first free entry the search either has found something or has passed over all.
  seek-Skips :
      (bytes : List ℕ) (j : ℕ)
      → j ≤ 16
      → Skips free bytes 0 j
      → ((k : ℕ) → scan_sector seek 16 0 bytes ≢ at k)
      → Skips seek bytes 0 j
  seek-Skips bytes j room skipped missing =
      by_end bytes j (scan_sector seek 16 0 bytes) room skipped missing
        (scan_sector-Ends seek bytes 16 0)

  -- The directory with a new entry in the place of the first free one.
  module _ (dir after : ℕ → List ℕ) (k j : ℕ) (entry : List ℕ)
      (sized : (i : ℕ) → length (dir i) ≡ 512) (fits : length entry ≡ 32)
      (changed : after k ≡ with_entry (dir k) j entry) (others : (i : ℕ) → i ≢ k → after i ≡ dir i)
      (picks : seek entry ≡ pick) where
    found_here :
        (i : ℕ)
        → j < 16
        → i ≡ k
        → Skips free (dir i) 0 j
        → ((m : ℕ) → scan_sector seek 16 0 (dir i) ≢ at m)
        → scan_sector seek 16 0 (after i) ≡ at j
    found_here i small e skipped missing =
        let before = seek-Skips (dir i) j (omega arith) skipped missing in
        let same : after i ≡ with_entry (dir i) j entry =
          ap after e ∙ changed ∙ ap (λ x. with_entry (dir x) j entry) (sym e) in
        rw same (
          scan_sector-at seek (with_entry (dir i) j entry) 16 0 j (omega arith) small
            (ap seek (entry_at-with_entry (dir i) entry j (sized i) fits small) ∙ picks)
            (λ m a b.
              ap seek (entry_at-with_entry_lt (dir i) entry j (sized i) fits small m b)
              ∙ before m a b))

    find_in-ge : (n i : ℕ) → find_in free n i dir ≡ some (k, j) → i ≤ k
    unfolding find_in
    find_in-ge zero i e = absurd (cc)
    find_in-ge (suc n) i e = by_hit (scan_sector free 16 0 (dir i)) (find_in-ge n (i + 1)) e
      where
        by_hit :
            (hit : Hit)
            → (find_in free n (i + 1) dir ≡ some (k, j) → i + 1 ≤ k)
            → next_of hit i (find_in free n (i + 1) dir) ≡ some (k, j)
            → i ≤ k
        by_hit ended ih e = absurd (cc)
        by_hit (at m) ih e = let same : i ≡ k = cc in omega (arith, same)
        by_hit none_here ih e = omega (arith, ih e)

    not_at :
        (i : ℕ) (hit : Hit) (rest : Option (ℕ × ℕ))
        → next_of hit i rest ≡ none
        → (m : ℕ) → hit ≢ at m
    not_at i hit rest e m same = absurd (cc (ap (λ h. next_of h i rest) same))

    in_sector_hit :
        (n i : ℕ) (hit : Hit)
        → Ends free (dir i) 0 16 hit
        → next_of hit i (find_in free n (i + 1) dir) ≡ some (k, j)
        → find_in seek (suc n) i dir ≡ none
        → (find_in free n (i + 1) dir ≡ some (k, j)
            → find_in seek n (i + 1) dir ≡ none
            → find_in seek n (i + 1) after ≡ some (k, j))
        → find_in seek (suc n) i after ≡ some (k, j)
    unfolding find_in
    in_sector_hit n i ended (m, _, _, stops, _) e missing ih =
        absurd (never (entry_at (dir i) m) stops)
    in_sector_hit n i (at m) (_, small, _, skipped) e missing ih =
        let here : i ≡ k = cc in
        let there : m ≡ j = cc in
        let nowhere =
          not_at i (scan_sector seek 16 0 (dir i)) (find_in seek n (i + 1) dir) missing in
        rw (
          found_here i (omega (arith, there)) here (λ x a b. skipped x a (omega (arith, there)))
              nowhere,
          here,
        )
    in_sector_hit n i none_here skipped e missing ih =
        let nowhere =
          not_at i (scan_sector seek 16 0 (dir i)) (find_in seek n (i + 1) dir) missing in
        let passed =
          scan_sector-none seek (dir i) 16 0
            (seek-Skips (dir i) 16 (omega arith) skipped nowhere) in
        let beyond = find_in-ge n (i + 1) e in
        let same : after i ≡ dir i = others i (λ x. omega (arith, x, beyond)) in
        rw (same, passed) (ih e (rw passed at missing))

    pub find_in-created :
        (n i : ℕ)
        → find_in free n i dir ≡ some (k, j)
        → find_in seek n i dir ≡ none
        → find_in seek n i after ≡ some (k, j)
    unfolding find_in
    find_in-created zero i e missing = absurd (cc)
    find_in-created (suc n) i e missing =
        in_sector_hit n i (scan_sector free 16 0 (dir i)) (scan_sector-Ends free (dir i) 16 0) e
          missing (find_in-created n (i + 1))

-- The entry that a search finds lies in one of the sectors.
pub find_in-bounds :
    (judge : List ℕ → Verdict) (n i : ℕ) (dir : ℕ → List ℕ) (k j : ℕ)
    → find_in judge n i dir ≡ some (k, j)
    → (k < i + n) × (j < 16)
unfolding find_in
find_in-bounds judge zero i dir k j e = absurd (cc)
find_in-bounds judge (suc n) i dir k j e =
    by_hit (scan_sector judge 16 0 (dir i)) (scan_sector-Ends judge (dir i) 16 0)
      (find_in-bounds judge n (i + 1) dir k j) e
  where
    by_hit :
        (hit : Hit)
        → Ends judge (dir i) 0 16 hit
        → (find_in judge n (i + 1) dir ≡ some (k, j) → (k < i + 1 + n) × (j < 16))
        → next_of hit i (find_in judge n (i + 1) dir) ≡ some (k, j)
        → (k < i + suc n) × (j < 16)
    by_hit ended h ih e = absurd (cc)
    by_hit (at m) h ih e =
        let here : i ≡ k = cc in
        let there : m ≡ j = cc in (omega (arith, here), omega (arith, there, h.1))
    by_hit none_here h ih e = (omega (arith, (ih e).0), (ih e).1)
