-- ===== src/Fat/Table/Chain.antt =====
-- The chains of clusters of src/fs/fat16.c, and what freeing one cluster does to them.
use cgos.Base.{
  ℕ, zero, suc, ◌+◌, ◌*◌, ◌<◌, ◌≤◌, ◌≡◌, refl, ◌∙◌, ap, ◌≢◌, true, ◌==◌, arith, ◌⊎◌, inl, inr,
  Bool-cases, ==_iff, subst, sym, if◌then◌else◌,
}
use cgos.Fat.Disk.{Fat}
use cgos.Fat.Disk.Sectors.{sector}
use cgos.Fat.Table.{in_chain}
use cgos.Fat.Table.Entries.{
  IsSound, InTable, entry, recalled, recalled-IsSound, entry-recalled, written, sector_no,
  sector-written, buffer-written,
}
use cgos.Fat.Table.Write.{written-IsSound, entry-written, InTable-written, sector-written_far}

-- The clusters that a chain reaches from its first one.
pub data OnChain (s : Fat) : ℕ → ℕ → Type 0 where
  here : {c : ℕ} → in_chain c ≡ true → OnChain s c c
  next : {c d : ℕ} → in_chain c ≡ true → OnChain s (entry s c) d → OnChain s c d

-- Every entry that names a cluster names one of the table.
abbrev pub IsClosed : Fat → Type 0
IsClosed s = (d : ℕ) → InTable s d → in_chain (entry s d) ≡ true → InTable s (entry s d)

pub OnChain-starts : {s : Fat} {c d : ℕ} → OnChain s c d → in_chain c ≡ true
OnChain-starts (here chained) = chained
OnChain-starts (next chained rest) = chained

-- The entries in use below a cluster.
abbrev pub used : (ℕ → ℕ) → ℕ → ℕ
used f zero = 0
used f (suc n) = (if f n == 0 then 0 else 1) + used f n

used-le : (f g : ℕ → ℕ) (n : ℕ) → ((d : ℕ) → d < n → (g d ≡ 0) ⊎ (g d ≡ f d)) → used g n ≤ used f n
used-le f g zero h = omega arith
used-le f g (suc n) h = ground (arith, used-le f g n (λ d p. h d (omega arith)), h n (omega arith))

pub used-lt :
    (f g : ℕ → ℕ) (n c : ℕ)
    → ((d : ℕ) → d < n → (g d ≡ 0) ⊎ (g d ≡ f d))
    → c < n
    → g c ≡ 0
    → f c ≢ 0
    → used g n < used f n
used-lt f g zero c h below z nz = absurd (omega arith)
used-lt f g (suc n) c h below z nz = elim (Bool-cases (c == n)) [
  | inl last ↦ ground (
    arith,
    used-le f g n (λ d p. h d (omega arith)),
    ap f ((==_iff c n).0 last),
    ap g ((==_iff c n).0 last),
  )
  | inr before ↦ ground (arith, used-lt f g n c (λ d p. h d (omega arith)), h n (omega arith))
]

-- The first sector behind the tables.
abbrev pub tables_end : Fat → ℕ
tables_end s = s.fs.fat_start_sector + s.fs.num_fats * s.fs.fat_size

-- The state after one round of the loop.
abbrev pub freed : Fat → ℕ → Fat
freed s c = written (recalled s c) c 0

module _ (s : Fat) (c : ℕ) (h : IsSound s) (k : InTable s c) where
  kept_size : (recalled s c).fs.fat_size ≡ s.fs.fat_size
  unfolding recalled
  kept_size = refl

  pub in_recalled : (d : ℕ) → InTable s d → InTable (recalled s c) d
  in_recalled d l = omega (arith, kept_size)

  pub freed-IsSound : IsSound (freed s c)
  freed-IsSound = written-IsSound (recalled s c) c 0 (recalled-IsSound s c h)

  pub InTable-freed : (d : ℕ) → InTable s d → InTable (freed s c) d
  InTable-freed d l = InTable-written (recalled s c) c 0 d (in_recalled d l)

  pub entry-freed : (d : ℕ) → InTable s d → entry (freed s c) d ≡ (if d == c then 0 else entry s d)
  entry-freed d l =
      entry-written (recalled s c) c 0 d (recalled-IsSound s c h) (in_recalled c k)
        (in_recalled d l) (omega arith)
      ∙ ap (λ (v : ℕ). if d == c then 0 else v) (entry-recalled s c d)

  one_more :
      {d : ℕ} (x : ℕ)
      → InTable s x
      → in_chain x ≡ true
      → (d ≡ c)
        ⊎ OnChain (freed s c) (entry s c) d
        ⊎ ((entry s x ≢ c) × OnChain (freed s c) (entry s x) d)
      → (d ≡ c) ⊎ OnChain (freed s c) (entry s c) d ⊎ ((x ≢ c) × OnChain (freed s c) x d)
  one_more x l chained (inl last) = inl last
  one_more x l chained (inr (inl after)) = inr (inl after)
  one_more {d} x l chained (inr (inr (far, rest))) = elim (Bool-cases (x == c)) [
    | inl same ↦
        inr (inl (subst (λ y. OnChain (freed s c) (entry s y) d) ((==_iff x c).0 same) rest))
    | inr other ↦
        let z : entry (freed s c) x ≡ entry s x = entry-freed x l ∙ rw other in
        inr (
          inr (λ e. ground arith, next chained (subst (λ y. OnChain (freed s c) y d) (sym z) rest)))
  ]

  -- A chain of the table before is one of the table after, up to the freed cluster.
  pub OnChain-freed :
      {x d : ℕ}
      → IsClosed s
      → InTable s x
      → OnChain s x d
      → (d ≡ c) ⊎ OnChain (freed s c) (entry s c) d ⊎ ((x ≢ c) × OnChain (freed s c) x d)
  OnChain-freed {x} closed l (here chained) = elim (Bool-cases (x == c)) [
    | inl same ↦ inl ((==_iff x c).0 same)
    | inr other ↦ inr (inr (λ e. ground arith, here chained))
  ]
  OnChain-freed {x} closed l (next chained rest) =
      one_more x l chained (OnChain-freed closed (closed x l (OnChain-starts rest)) rest)

  next_kept :
      (x : ℕ)
      → InTable s x
      → in_chain (entry (freed s c) x) ≡ true
      → entry (freed s c) x ≡ entry s x
  next_kept x l chained = elim (Bool-cases (x == c)) [
    | inl same ↦
        let z : entry (freed s c) x ≡ 0 = entry-freed x l ∙ rw same in
        absurd (cc (subst (λ y. in_chain y ≡ true) z chained))
    | inr other ↦ entry-freed x l ∙ rw other
  ]

  next_InTable :
      IsClosed s
      → (x : ℕ) → InTable s x
      → in_chain (entry (freed s c) x) ≡ true
      → InTable s (entry (freed s c) x)
  next_InTable closed x l chained =
      let z = next_kept x l chained in
      subst (λ y. InTable s y) (sym z) (closed x l (subst (λ y. in_chain y ≡ true) z chained))

  -- A chain of the table after is one of the table before.
  pub freed-OnChain : {x d : ℕ} → IsClosed s → InTable s x → OnChain (freed s c) x d → OnChain s x d
  freed-OnChain {x} closed l (here chained) = here chained
  freed-OnChain {x} {d} closed l (next chained rest) =
      let e = OnChain-starts rest in
      next chained (
        subst (λ y. OnChain s y d) (next_kept x l e)
          (freed-OnChain closed (next_InTable closed x l e) rest))

  pub freed_fs : (freed s c).fs ≡ s.fs
  unfolding written recalled
  freed_fs = refl

  pub same_span : 256 * s.fs.fat_size ≡ 256 * (freed s c).fs.fat_size
  unfolding written recalled
  same_span = refl

  pub same_end : tables_end s ≡ tables_end (freed s c)
  unfolding written recalled
  same_end = refl

  pub same_no : (d : ℕ) → sector_no (freed s c) d ≡ sector_no s d
  unfolding written recalled
  same_no d = refl

  pub far-freed : (x : ℕ) → tables_end s ≤ x → sector (freed s c) x ≡ sector s x
  unfolding recalled
  far-freed x p =
      sector-written_far (recalled s c) c 0 x (recalled-IsSound s c h) (in_recalled c k) p

  -- The buffer holds the table's sector that was written.
  pub buffer-freed : (freed s c).sector_buffer ≡ sector (freed s c) (sector_no s c)
  unfolding recalled
  buffer-freed =
      buffer-written (recalled s c) c 0
      ∙ sym (
          sector-written (recalled s c) c 0 (sector_no s c) (recalled-IsSound s c h)
            (in_recalled c k) (omega arith)
          ∙ rw ((==_iff (sector_no s c) (sector_no s c)).1 refl))

  pub from_freed : (d : ℕ) → InTable (freed s c) d → InTable s d
  unfolding written recalled
  from_freed d l = l

  pub freed-IsClosed : IsClosed s → IsClosed (freed s c)
  freed-IsClosed closed x l chained =
      InTable-freed (entry (freed s c) x) (next_InTable closed x (from_freed x l) chained)
