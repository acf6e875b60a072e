-- ===== src/Fat/Table/Entries.antt =====
-- The table of a volume as a function from clusters to entries: what fat_read_entry and
-- fat_write_entry of src/fs/fat16.c do to it.
use cgos.Base.{
  ℕ, zero, suc, ◌+◌, ◌*◌, ◌/◌, ◌%◌, ◌^◌, ◌<◌, ◌≤◌, ◌≡◌, refl, sym, ap, ◌∙◌, ◌≢◌, ◌==◌,
  if◌then◌else◌, arith, inl, inr, Bool-cases, ==_iff,
}
use cgos.Fat.Disk.{Fat, ata_drive_present, Outcome, done, Drive, get16, put16}
use cgos.Fat.Disk.Sectors.{
  sector, put_sector, Answers, AreSized, read_sector-done, load_buffer-done, store_buffer-done,
  sector-put_sector, Answers-put_sector,
}
use cgos.Fat.Table.{
  no_sector, fat_sector, entry_offset, refill, fat_read_entry, write_copies, fat_write_entry,
}

-- A mounted volume on a disk that answers: its tables lie below the last sector number, and the
-- cache holds the sector that it claims to hold.
pub record IsSound (s : Fat) : Type 0 where
  pub answers : Answers s
  pub sized : AreSized s
  pub has_table : 1 ≤ s.fs.num_fats
  pub fits : s.fs.fat_start_sector + s.fs.num_fats * s.fs.fat_size < no_sector
  pub coherent : s.fat_cache_sector ≢ no_sector → s.fat_cache ≡ sector s s.fat_cache_sector

-- Whether the first table has an entry for the cluster.
abbrev pub InTable : Fat → ℕ → Type 0
InTable s c = c < 256 * s.fs.fat_size

-- The entry in the first table.
unfoldable pub entry : Fat → ℕ → ℕ
entry s c = get16 (sector s (s.fs.fat_start_sector + c * 2 / 512)) (entry_offset c)

abbrev pub sector_no : Fat → ℕ → ℕ
sector_no s c = s.fs.fat_start_sector + c * 2 / 512

-- The state after the entry is read.
unfoldable pub recalled : Fat → ℕ → Fat
recalled s c = record s { fat_cache = sector s (sector_no s c); fat_cache_sector = sector_no s c }

table_fits : (s : Fat) → IsSound s → s.fs.fat_start_sector + s.fs.fat_size < no_sector
table_fits s h = grind (arith, h.has_table, h.fits)

pub fat_sector-eq : (s : Fat) (c : ℕ) → IsSound s → InTable s c → fat_sector s c ≡ sector_no s c
fat_sector-eq s c h k = omega (arith, table_fits s h)

refill-recalls :
    (s : Fat) (c : ℕ)
    → Answers s
    → refill (sector_no s c) (entry_offset c) (done (sector s (sector_no s c)), s)
      ≡ (done (entry s c), recalled s c)
unfolding refill entry recalled
refill-recalls s c h = refl

held_hit :
    (s : Fat) (c : ℕ)
    → IsSound s
    → InTable s c
    → sector_no s c ≡ s.fat_cache_sector
    → ◌≡◌ {A = Outcome ℕ × Fat}
        (done (get16 s.fat_cache (entry_offset c)), s)
        (done (entry s c), recalled s c)
unfolding entry recalled
held_hit s c h k e =
    let held : s.fat_cache ≡ sector s (sector_no s c) =
      h.coherent (λ none_held. omega (arith, e, none_held, fat_sector-eq s c h k, table_fits s h))
      ∙ ap (sector s) (sym e) in
    λ i. (
      done (get16 (held i) (entry_offset c)),
      record s { fat_cache = held i; fat_cache_sector = sym e i },
    )

pub read_entry-done :
    (s : Fat) (c : ℕ)
    → IsSound s
    → InTable s c
    → fat_read_entry c s ≡ (done (entry s c), recalled s c)
unfolding fat_read_entry
read_entry-done s c h k = elim (Bool-cases (sector_no s c == s.fat_cache_sector)) [
  | inl hit ↦ rw (fat_sector-eq s c h k, hit) (held_hit s c h k ((==_iff _ _).0 hit))
  | inr miss ↦
      rw (fat_sector-eq s c h k, miss, read_sector-done s (sector_no s c) h.answers)
        (refill-recalls s c h.answers)
]

pub recalled-IsSound : (s : Fat) (c : ℕ) → IsSound s → IsSound (recalled s c)
unfolding recalled ata_drive_present
recalled-IsSound s c h = record {
  answers = h.answers;
  sized = h.sized;
  has_table = h.has_table;
  fits = h.fits;
  coherent = λ _. refl;
}

pub entry-recalled : (s : Fat) (c d : ℕ) → entry (recalled s c) d ≡ entry s d
unfolding entry recalled
entry-recalled s c d = refl

-- The drives after the copies of the table from copy `i` on are written.
unfoldable pub copied : ℕ → ℕ → ℕ → Fat → ℕ → Drive
copied zero i lba s = s.drives
copied (suc n) i lba s =
    copied n (i + 1) lba (put_sector s ((lba + i * s.fs.fat_size) % 2 ^ 32) s.sector_buffer)

pub write_copies-done :
    (n i lba : ℕ) (s : Fat)
    → Answers s
    → write_copies n i lba s ≡ (done tt, record s { drives = copied n i lba s })
unfolding write_copies copied put_sector
write_copies-done zero i lba s h = refl
write_copies-done (suc n) i lba s h =
    let at = (lba + i * s.fs.fat_size) % 2 ^ 32 in
    rw (store_buffer-done s at h) (
      write_copies-done n (i + 1) lba (put_sector s at s.sector_buffer)
        (Answers-put_sector s at s.sector_buffer h))

-- Sectors that no copy goes to keep their bytes.
pub sector-copied :
    (n i lba : ℕ) (s : Fat) (x : ℕ)
    → ((j : ℕ) → i ≤ j → j < i + n → x ≢ (lba + j * s.fs.fat_size) % 2 ^ 32)
    → sector (record s { drives = copied n i lba s }) x ≡ sector s x
unfolding copied put_sector
sector-copied zero i lba s x apart = refl
sector-copied (suc n) i lba s x apart =
    let at = (lba + i * s.fs.fat_size) % 2 ^ 32 in
    let s' = put_sector s at s.sector_buffer in
    sector-copied n (i + 1) lba s' x (λ j p q. apart j (omega arith) (omega arith))
    ∙ sector-put_sector s at s.sector_buffer x
    ∙ ground (arith, apart i (omega arith) (omega arith))

copy_bounds : (j n f : ℕ) → 1 ≤ j → j < 1 + n → (f ≤ j * f) × (j * f ≤ n * f)
copy_bounds j n f p q = (grind arith, grind arith)

-- The first copy goes to the sector itself.
sector-copied_first :
    (n lba : ℕ) (s : Fat) (x : ℕ)
    → 1 ≤ n
    → lba + n * s.fs.fat_size < 2 ^ 32 + s.fs.fat_size
    → x < lba + s.fs.fat_size
    → sector (record s { drives = copied n 0 lba s }) x
      ≡ (if x == lba then s.sector_buffer else sector s x)
unfolding copied put_sector
sector-copied_first zero lba s x some_copy room below = absurd (omega arith)
sector-copied_first (suc n) lba s x some_copy room below =
    let at = (lba + 0 * s.fs.fat_size) % 2 ^ 32 in
    let here : at ≡ lba = omega arith in
    sector-copied n 1 lba (put_sector s at s.sector_buffer) x
      (λ j p q e. omega (arith, e, copy_bounds j n s.fs.fat_size p q))
    ∙ sector-put_sector s at s.sector_buffer x
    ∙ rw here

-- The state after an entry is written.
abbrev pub edited : Fat → ℕ → ℕ → Fat
edited s c v = record s { sector_buffer = put16 (sector s (sector_no s c)) (entry_offset c) v }

unfoldable pub written : Fat → ℕ → ℕ → Fat
written s c v = record (edited s c v) {
  drives = copied s.fs.num_fats 0 (sector_no s c) (edited s c v);
  fat_cache_sector = no_sector;
}

pub write_entry-done :
    (s : Fat) (c v : ℕ) → IsSound s → InTable s c → fat_write_entry c v s ≡ (done tt, written s c v)
unfolding fat_write_entry written ata_drive_present
write_entry-done s c v h k = rw (
  fat_sector-eq s c h k,
  load_buffer-done s (sector_no s c) h.answers,
  write_copies-done s.fs.num_fats 0 (sector_no s c) (edited s c v) h.answers,
)

-- What the sectors of the first table hold then.
pub sector-written :
    (s : Fat) (c v x : ℕ)
    → IsSound s
    → InTable s c
    → x < s.fs.fat_start_sector + s.fs.fat_size
    → sector (written s c v) x ≡ (
        if x == sector_no s c
        then put16 (sector s (sector_no s c)) (entry_offset c) v
        else sector s x)
unfolding written
sector-written s c v x h k below =
    sector-copied_first s.fs.num_fats (sector_no s c) (edited s c v) x h.has_table
      (omega (arith, h.fits)) (omega arith)

pub buffer-written :
    (s : Fat) (c v : ℕ)
    → (written s c v).sector_buffer ≡ put16 (sector s (sector_no s c)) (entry_offset c) v
unfolding written
buffer-written s c v = refl
