-- ===== src/Fat/Table/Search.antt =====
-- The search for a free cluster, fat_find_free_cluster of src/fs/fat16.c.
use cgos.Base.{
  ℕ, zero, suc, ◌+◌, ◌-◌, ◌*◌, ◌%◌, ◌^◌, ◌<◌, ◌≤◌, ◌≡◌, refl, ◌∙◌, ap, ◌≢◌, ◌==◌, arith, ◌⊎◌, inl,
  inr, Bool-cases, ==_iff, sym,
}
use cgos.Fat.Disk.{Fat, done}
use cgos.Fat.Table.{find_free_from, fat_find_free_cluster}
use cgos.Fat.Table.Entries.{
  IsSound, entry, recalled, recalled-IsSound, read_entry-done, entry-recalled,
}

-- A state that differs in the cached table sector alone.
pub record Kept (s t : Fat) : Type 0 where
  pub same_fs : t.fs ≡ s.fs
  pub same_drives : t.drives ≡ s.drives
  pub same_buffer : t.sector_buffer ≡ s.sector_buffer

-- The first free cluster from `c` on among `n`, or 0 where none is free.
abbrev pub IsFirstFree : Fat → ℕ → ℕ → ℕ → Type 0
IsFirstFree s n c r =
    ((r ≡ 0) × ((d : ℕ) → c ≤ d → d < c + n → entry s d ≢ 0))
    ⊎ ((c ≤ r) × (r < c + n) × (entry s r ≡ 0) × ((d : ℕ) → c ≤ d → d < r → entry s d ≢ 0))

-- The whole of what the search does.
pub record IsSearched (s : Fat) (n c r : ℕ) (t : Fat) : Type 0 where
  pub kept : Kept s t
  pub sound : IsSound t
  pub first : IsFirstFree s n c r

pub recalled-Kept : (s : Fat) (c : ℕ) → Kept s (recalled s c)
unfolding recalled
recalled-Kept s c = record { same_fs = refl; same_drives = refl; same_buffer = refl }

pub Kept-trans : {s t u : Fat} → Kept s t → Kept t u → Kept s u
Kept-trans p q = record {
  same_fs = q.same_fs ∙ p.same_fs;
  same_drives = q.same_drives ∙ p.same_drives;
  same_buffer = q.same_buffer ∙ p.same_buffer;
}

IsFirstFree-step :
    (s : Fat) (n c r : ℕ)
    → entry s c ≢ 0
    → IsFirstFree (recalled s c) n (c + 1) r
    → IsFirstFree s (suc n) c r
IsFirstFree-step s n c r used (inl (e, all)) = inl (
  e,
  λ d p q. elim (Bool-cases (d == c)) [
    | inl here ↦ λ z. used (ap (entry s) (sym ((==_iff d c).0 here)) ∙ z)
    | inr there ↦ λ z. all d (ground arith) (omega arith) (entry-recalled s c d ∙ z)
  ],
)
IsFirstFree-step s n c r used (inr (p, q, z, all)) = inr (
  omega arith,
  omega arith,
  sym (entry-recalled s c r) ∙ z,
  λ d a b. elim (Bool-cases (d == c)) [
    | inl here ↦ λ z'. used (ap (entry s) (sym ((==_iff d c).0 here)) ∙ z')
    | inr there ↦ λ z'. all d (ground arith) b (entry-recalled s c d ∙ z')
  ],
)

same_size : (s : Fat) (c : ℕ) → (recalled s c).fs.fat_size ≡ s.fs.fat_size
unfolding recalled
same_size s c = refl

pub find_free_from-IsSearched :
    (n c : ℕ) (s : Fat)
    → IsSound s
    → c + n ≤ 256 * s.fs.fat_size
    → c + n < 2 ^ 16
    → (r : ℕ) × (t : Fat) × (find_free_from n c s ≡ (done r, t)) × IsSearched s n c r t
unfolding find_free_from
find_free_from-IsSearched zero c s h room small = (
  0,
  s,
  refl,
  record {
    kept = record { same_fs = refl; same_drives = refl; same_buffer = refl };
    sound = h;
    first = inl (refl, λ d p q. absurd (omega arith));
  },
)
find_free_from-IsSearched (suc n) c s h room small =
    let step = read_entry-done s c h (omega arith) in
    let later =
      find_free_from-IsSearched n (c + 1) (recalled s c) (recalled-IsSound s c h)
        (omega (arith, same_size s c)) (omega arith) in
    let no_wrap : (c + 1) % 2 ^ 16 ≡ c + 1 = omega arith in
    elim (Bool-cases (entry s c == 0)) [
      | inl free ↦ (
        c,
        recalled s c,
        rw (step, free),
        record {
          kept = recalled-Kept s c;
          sound = recalled-IsSound s c h;
          first =
              inr (omega arith, omega arith, (==_iff _ _).0 free, λ d p q. absurd (omega arith));
        },
      )
      | inr used ↦ (
        later.0,
        later.1,
        rw (step, used, no_wrap) later.2,
        record {
          kept = Kept-trans (recalled-Kept s c) later.3.kept;
          sound = later.3.sound;
          first = IsFirstFree-step s n c later.0 (λ z. ground arith) later.3.first;
        },
      )
    ]

-- On a sound volume, whose drive answers, of fewer than 65525 clusters and a table with an entry for
-- each of them, the search ends with the first free cluster, or with 0 where every cluster is in use.
-- The fields of the volume, the drives and the sector buffer stay as they are, and the cached table
-- sector stays a copy of its sector.
pub find_free_cluster-IsSearched :
    (s : Fat)
    → IsSound s
    → s.fs.total_clusters + 2 ≤ 256 * s.fs.fat_size
    → s.fs.total_clusters < 65525
    → (r : ℕ) × (t : Fat) × (fat_find_free_cluster s ≡ (done r, t))
      × IsSearched s s.fs.total_clusters 2 r t
unfolding fat_find_free_cluster
find_free_cluster-IsSearched s h room small =
    let rounds : (s.fs.total_clusters + 2) % 2 ^ 32 - 2 ≡ s.fs.total_clusters = omega arith in
    rw rounds (find_free_from-IsSearched s.fs.total_clusters 2 s h (omega arith) (omega arith))
