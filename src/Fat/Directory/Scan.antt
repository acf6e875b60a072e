-- ===== src/Fat/Directory/Scan.antt =====
-- The loops over the root directory in src/fs/fat16.c as searches of a function from sectors to
-- their bytes.
use cgos.Base.{
  ℕ, zero, suc, ◌+◌, ◌<◌, ◌≤◌, ◌≡◌, refl, sym, ap, ◌∙◌, List, ◌==◌, Option, some, none, arith,
  Bool-cases, inl, inr, ◌⊎◌,
}
use cgos.Fat.Disk.{Fat, done, Call, ata_drive_present}
use cgos.Fat.Disk.Sectors.{sector, Answers, load_buffer-done}
use cgos.Fat.Directory.{
  entry_at, Verdict, stop, skip, pick, Hit, ended, at, none_here, scan_sector, scan_next, scan_root,
}

-- The entries from `j` up to `k` are passed over.
abbrev pub Skips : (List ℕ → Verdict) → List ℕ → ℕ → ℕ → Type 0
Skips judge bytes j k = (m : ℕ) → j ≤ m → m < k → judge (entry_at bytes m) ≡ skip

-- How a loop over a sector ends, as a statement of its entries.
abbrev pub Ends : (List ℕ → Verdict) → List ℕ → ℕ → ℕ → Hit → Type 0
Ends judge bytes j n ended =
    (k : ℕ) × (j ≤ k) × (k < j + n) × (judge (entry_at bytes k) ≡ stop) × Skips judge bytes j k
Ends judge bytes j n (at k) =
    (j ≤ k) × (k < j + n) × (judge (entry_at bytes k) ≡ pick) × Skips judge bytes j k
Ends judge bytes j n none_here = Skips judge bytes j (j + n)

pub Verdict-cases : (v : Verdict) → (v ≡ stop) ⊎ (v ≡ skip) ⊎ (v ≡ pick)
Verdict-cases stop = inl refl
Verdict-cases skip = inr (inl refl)
Verdict-cases pick = inr (inr refl)

module _ (judge : List ℕ → Verdict) (bytes : List ℕ) where
  Skips-cons :
      (j k : ℕ)
      → judge (entry_at bytes j) ≡ skip
      → Skips judge bytes (j + 1) k
      → Skips judge bytes j k
  Skips-cons j k e rest m p q = elim (Bool-cases (m == j)) [
    | inl here ↦
        let same : m ≡ j = ground arith in ap (λ (x : ℕ). judge (entry_at bytes x)) same ∙ e
    | inr later ↦ rest m (ground arith) q
  ]

  Ends-skip :
      (j n : ℕ) (h : Hit)
      → judge (entry_at bytes j) ≡ skip
      → Ends judge bytes (j + 1) n h
      → Ends judge bytes j (suc n) h
  Ends-skip j n ended e (k, p, q, v, rest) = (k, omega arith, omega arith, v, Skips-cons j k e rest)
  Ends-skip j n (at k) e (p, q, v, rest) = (omega arith, omega arith, v, Skips-cons j k e rest)
  Ends-skip j n none_here e rest = λ m p q. Skips-cons j (j + 1 + n) e rest m p (omega arith)

  pub scan_sector-Ends : (n j : ℕ) → Ends judge bytes j n (scan_sector judge n j bytes)
  unfolding scan_sector
  scan_sector-Ends zero j = λ m p q. absurd (omega arith)
  scan_sector-Ends (suc n) j = elim (Verdict-cases (judge (entry_at bytes j))) [
    | inl e ↦ rw e (j, omega arith, omega arith, e, λ m p q. absurd (omega arith))
    | inr (inl e) ↦
        rw e (Ends-skip j n (scan_sector judge n (j + 1) bytes) e (scan_sector-Ends n (j + 1)))
    | inr (inr e) ↦ rw e (omega arith, omega arith, e, λ m p q. absurd (omega arith))
  ]

  -- The statement determines the end.
  pub scan_sector-at :
      (n j k : ℕ)
      → j ≤ k
      → k < j + n
      → judge (entry_at bytes k) ≡ pick
      → Skips judge bytes j k
      → scan_sector judge n j bytes ≡ at k
  unfolding scan_sector
  scan_sector-at zero j k p q v rest = absurd (omega arith)
  scan_sector-at (suc n) j k p q v rest = elim (Bool-cases (k == j)) [
    | inl here ↦
        let same : k ≡ j = ground arith in
        let v' : judge (entry_at bytes j) ≡ pick =
          ap (λ (x : ℕ). judge (entry_at bytes x)) (sym same) ∙ v in
        rw (v', same)
    | inr later ↦ rw (rest j (omega arith) (ground arith)) (
        scan_sector-at n (j + 1) k (ground arith) (omega arith) v (λ m a b. rest m (omega arith) b))
  ]

  pub scan_sector-none :
      (n j : ℕ) → Skips judge bytes j (j + n) → scan_sector judge n j bytes ≡ none_here
  unfolding scan_sector
  scan_sector-none zero j rest = refl
  scan_sector-none (suc n) j rest =
      rw (rest j (omega arith) (omega arith))
        (scan_sector-none n (j + 1) (λ m a b. rest m (omega arith) (omega arith)))

-- The search of a directory that is given by the bytes of its sectors.
abbrev pub next_of : Hit → ℕ → Option (ℕ × ℕ) → Option (ℕ × ℕ)
next_of ended i rest = none
next_of (at j) i rest = some (i, j)
next_of none_here i rest = rest

unfoldable pub find_in : (List ℕ → Verdict) → ℕ → ℕ → (ℕ → List ℕ) → Option (ℕ × ℕ)
find_in judge zero i dir = none
find_in judge (suc n) i dir =
    next_of (scan_sector judge 16 0 (dir i)) i (find_in judge n (i + 1) dir)

-- The sector that is read last.
abbrev pub buffer_of : Hit → List ℕ → List ℕ → List ℕ
buffer_of none_here here rest = rest
buffer_of ended here rest = here
buffer_of (at j) here rest = here

unfoldable pub last_read : (List ℕ → Verdict) → ℕ → ℕ → (ℕ → List ℕ) → List ℕ → List ℕ
last_read judge zero i dir buffer = buffer
last_read judge (suc n) i dir buffer =
    buffer_of (scan_sector judge 16 0 (dir i)) (dir i) (last_read judge n (i + 1) dir (dir i))

abbrev pub root_dir : Fat → ℕ → List ℕ
root_dir s i = sector s (s.fs.root_dir_start + i)

scan_next-done :
    (hit : Hit) (i : ℕ) (s : Fat) (rest : Call (Option (ℕ × ℕ))) (later : Option (ℕ × ℕ))
    (buffer : List ℕ)
    → rest s ≡ (done later, record s { sector_buffer = buffer })
    → scan_next hit i rest s ≡ (
      done (next_of hit i later),
      record s { sector_buffer = buffer_of hit s.sector_buffer buffer },
    )
scan_next-done ended i s rest later buffer h = refl
scan_next-done (at j) i s rest later buffer h = refl
scan_next-done none_here i s rest later buffer h = h

pub scan_root-done :
    (judge : List ℕ → Verdict) (n i : ℕ) (s : Fat)
    → Answers s
    → scan_root judge n i s ≡ (
      done (find_in judge n i (root_dir s)),
      record s { sector_buffer = last_read judge n i (root_dir s) s.sector_buffer },
    )
unfolding scan_root find_in last_read ata_drive_present
scan_root-done judge zero i s h = refl
scan_root-done judge (suc n) i s h =
    let s' = record s { sector_buffer = root_dir s i } in
    rw (load_buffer-done s (s.fs.root_dir_start + i) h) (
      scan_next-done (scan_sector judge 16 0 (root_dir s i)) i s' (scan_root judge n (i + 1))
        (find_in judge n (i + 1) (root_dir s))
        (last_read judge n (i + 1) (root_dir s) (root_dir s i))
        (scan_root-done judge n (i + 1) s' h))

-- The buffer holds the sector of the entry that was found.
pub last_read-some :
    (judge : List ℕ → Verdict) (n i : ℕ) (dir : ℕ → List ℕ) (buffer : List ℕ) (k j : ℕ)
    → find_in judge n i dir ≡ some (k, j)
    → last_read judge n i dir buffer ≡ dir k
unfolding find_in last_read
last_read-some judge zero i dir buffer k j e = absurd (cc)
last_read-some judge (suc n) i dir buffer k j e =
    by_hit (scan_sector judge 16 0 (dir i)) (last_read-some judge n (i + 1) dir (dir i) k j) e
  where
    by_hit :
        (hit : Hit)
        → (find_in judge n (i + 1) dir ≡ some (k, j)
            → last_read judge n (i + 1) dir (dir i) ≡ dir k)
        → next_of hit i (find_in judge n (i + 1) dir) ≡ some (k, j)
        → buffer_of hit (dir i) (last_read judge n (i + 1) dir (dir i)) ≡ dir k
    by_hit ended ih e = absurd (cc)
    by_hit (at m) ih e = ap dir (cc)
    by_hit none_here ih e = ih e
