-- ===== src/Memory/Pmm/Largest.antt =====
-- The scan of the memory map in src/memory/pmm.c finds the largest usable region.
use cgos.Base.{
  ℕ, ◌<◌, ◌≤◌, ◌+◌, ◌≡◌, ◌⊎◌, refl, true, false, arith, ltb, dec_lt, Bool-cases, inl, inr, List, [],
  ◌∷◌, Option, none, some,
}
use cgos.Memory.Bitmap.{word_mod}
use cgos.Memory.Pmm.{Entry, Scan, scan_entry, scan_entries}

-- No region of the map reaches the end of the address space.
abbrev pub IsSound : List Entry → Type 0
IsSound [] = Unit
IsSound (e ∷ es) = (e.base + e.size < word_mod) × IsSound es

-- Some region is usable and not empty.
abbrev pub HasUsable : List Entry → Type 0
HasUsable [] = ⊥
HasUsable (e ∷ es) = ((e.usable ≡ true) × (0 < e.size)) ⊎ HasUsable es

-- No usable region has more than `n` bytes.
abbrev pub UsableLe : List Entry → ℕ → Type 0
UsableLe [] n = Unit
UsableLe (e ∷ es) n = ((e.usable ≡ false) ⊎ (e.size ≤ n)) × UsableLe es n

-- The map has a usable region of the base and the size.
abbrev pub HasRegion : List Entry → ℕ → ℕ → Type 0
HasRegion [] base size = ⊥
HasRegion (e ∷ es) base size =
    ((e.usable ≡ true) × (e.base ≡ base) × (e.size ≡ size)) ⊎ HasRegion es base size

-- What the scan has found in the map `all` is one of its usable regions.
abbrev pub IsFound : List Entry → Option (ℕ × Entry) → ℕ → Type 0
IsFound all none n = n ≡ 0
IsFound all (some (i, e)) n =
    (n ≡ e.size) × (0 < n) × (e.base + e.size < word_mod) × HasRegion all e.base e.size

entry-IsFound :
    (all : List Entry) (i : ℕ) (e : Entry) (s : Scan)
    → e.base + e.size < word_mod
    → (e.usable ≡ true → HasRegion all e.base e.size)
    → IsFound all s.largest s.largest_size
    → IsFound all (scan_entry i e s).largest (scan_entry i e s).largest_size
unfolding scan_entry
entry-IsFound all i e s sound own f = elim (Bool-cases e.usable) [
  | inl u ↦ elim (dec_lt s.largest_size e.size) [
    | yes p ↦
        let t : ltb s.largest_size e.size ≡ true = ground arith in
        rw (u, t) (refl, omega arith, sound, own u)
    | no p ↦ let t : ltb s.largest_size e.size ≡ false = ground arith in rw (u, t) f
  ]
  | inr u ↦ rw u f
]

entry-grows :
    (i : ℕ) (e : Entry) (s : Scan)
    → (s.largest_size ≤ (scan_entry i e s).largest_size)
      × ((e.usable ≡ false) ⊎ (e.size ≤ (scan_entry i e s).largest_size))
unfolding scan_entry
entry-grows i e s =
    (ground arith, elim (Bool-cases e.usable) [ inl u ↦ inr (ground arith) | inr u ↦ inl u ])

pub entries-IsFound :
    (all : List Entry) (i : ℕ) (es : List Entry) (s : Scan)
    → IsSound es
    → ((base size : ℕ) → HasRegion es base size → HasRegion all base size)
    → IsFound all s.largest s.largest_size
    → IsFound all (scan_entries i es s).largest (scan_entries i es s).largest_size
unfolding scan_entries
entries-IsFound all i [] s sound part f = f
entries-IsFound all i (e ∷ es) s sound part f =
    entries-IsFound all (i + 1) es (scan_entry i e s) sound.1 (λ b n h. part b n (inr h))
      (entry-IsFound all i e s sound.0 (λ u. part e.base e.size (inl (u, refl, refl))) f)

entries-grow :
    (i : ℕ) (es : List Entry) (s : Scan) → s.largest_size ≤ (scan_entries i es s).largest_size
unfolding scan_entries
entries-grow i [] s = omega arith
entries-grow i (e ∷ es) s =
    omega (arith, entries-grow (i + 1) es (scan_entry i e s), entry-grows i e s)

UsableLe_mono :
    (n : ℕ) (e : Entry) {k : ℕ}
    → (e.usable ≡ false) ⊎ (e.size ≤ k)
    → k ≤ n
    → (e.usable ≡ false) ⊎ (e.size ≤ n)
UsableLe_mono n e (inl u) le = inl u
UsableLe_mono n e (inr h) le = inr (omega arith)

pub entries-largest :
    (i : ℕ) (es : List Entry) (s : Scan) → UsableLe es (scan_entries i es s).largest_size
unfolding scan_entries
entries-largest i [] s = tt
entries-largest i (e ∷ es) s = (
  UsableLe_mono _ e ((entry-grows i e s).1) (entries-grow (i + 1) es (scan_entry i e s)),
  entries-largest (i + 1) es (scan_entry i e s),
)

pub HasUsable-pos : (es : List Entry) (n : ℕ) → HasUsable es → UsableLe es n → 0 < n
HasUsable-pos [] n h u = absurd h
HasUsable-pos (e ∷ es) n (inl h) u = ground (arith, u.0)
HasUsable-pos (e ∷ es) n (inr h) u = HasUsable-pos es n h u.1
