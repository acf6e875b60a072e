-- ===== src/Fat/Table/Write.antt =====
-- An entry that fat_write_entry of src/fs/fat16.c has written is the entry that fat_read_entry
-- reads, and no other entry and no sector behind the tables is changed.
use cgos.Base.{
  ℕ, zero, suc, ◌+◌, ◌*◌, ◌/◌, ◌%◌, ◌^◌, ◌<◌, ◌≤◌, ◌≡◌, refl, sym, ap, ◌∙◌, true, false, List, ◌==◌,
  if◌then◌else◌, length, arith, ltb, tests, ◌⊎◌, inl, inr, Bool-cases, ==_iff,
}
use cgos.Fat.Disk.{Fat, ata_drive_present, done, get16, put16, Call, ◌>>◌}
use cgos.Fat.Disk.Sectors.{
  sector, put_sector, Answers, AreSized, Answers-put_sector, AreSized-put_sector, length-put16,
  get16-put16_self, get16-put16_ne,
}
use cgos.Fat.Table.{entry_offset, fat_read_entry, fat_write_entry}
use cgos.Fat.Table.Entries.{
  IsSound, InTable, entry, sector_no, read_entry-done, copied, edited, written, write_entry-done,
  sector-written, sector-copied,
}

Answers-copied :
    (n i lba : ℕ) (s : Fat) → Answers s → Answers (record s { drives = copied n i lba s })
unfolding copied put_sector ata_drive_present
Answers-copied zero i lba s h = h
Answers-copied (suc n) i lba s h =
    let at = (lba + i * s.fs.fat_size) % 2 ^ 32 in
    Answers-copied n (i + 1) lba (put_sector s at s.sector_buffer)
      (Answers-put_sector s at s.sector_buffer h)

AreSized-copied :
    (n i lba : ℕ) (s : Fat)
    → length s.sector_buffer ≡ 512
    → AreSized s
    → AreSized (record s { drives = copied n i lba s })
unfolding copied put_sector
AreSized-copied zero i lba s e h = h
AreSized-copied (suc n) i lba s e h =
    let at = (lba + i * s.fs.fat_size) % 2 ^ 32 in
    AreSized-copied n (i + 1) lba (put_sector s at s.sector_buffer) e
      (AreSized-put_sector s at s.sector_buffer e h)

pub written-IsSound : (s : Fat) (c v : ℕ) → IsSound s → IsSound (written s c v)
unfolding written ata_drive_present
written-IsSound s c v h = record {
  answers = Answers-copied s.fs.num_fats 0 (sector_no s c) (edited s c v) h.answers;
  sized =
      AreSized-copied s.fs.num_fats 0 (sector_no s c) (edited s c v)
        (length-put16 (sector s (sector_no s c)) (entry_offset c) v ∙ h.sized (sector_no s c))
        h.sized;
  has_table = h.has_table;
  fits = h.fits;
  coherent = λ n. absurd (n refl);
}

offsets_apart :
    (c d : ℕ)
    → c * 2 / 512 ≡ d * 2 / 512
    → (d == c) ≡ false
    → (entry_offset d + 1 < entry_offset c) ⊎ (entry_offset c + 1 < entry_offset d)
offsets_apart c d near other = elim (Bool-cases (ltb d c)) [
  | inl below ↦ inl (omega (tests, below))
  | inr above ↦ let less : c < d = ground arith in inr (omega arith)
]

-- The entry itself.
entry-put16 :
    (bytes : List ℕ) (c v d : ℕ)
    → length bytes ≡ 512
    → v < 2 ^ 16
    → c * 2 / 512 ≡ d * 2 / 512
    → get16 (put16 bytes (entry_offset c) v) (entry_offset d)
      ≡ (if d == c then v else get16 bytes (entry_offset d))
entry-put16 bytes c v d e small near = elim (Bool-cases (d == c)) [
  | inl same ↦
      rw (same, (==_iff d c).0 same)
        (get16-put16_self bytes (entry_offset c) v (omega (arith, e)) small)
  | inr other ↦
      rw other
        (get16-put16_ne bytes (entry_offset c) v (entry_offset d) (offsets_apart c d near other))
]

pub entry-written :
    (s : Fat) (c v d : ℕ)
    → IsSound s
    → InTable s c
    → InTable s d
    → v < 2 ^ 16
    → entry (written s c v) d ≡ (if d == c then v else entry s d)
unfolding entry written
entry-written s c v d h k l small =
    ap (λ bytes. get16 bytes (entry_offset d))
      (sector-written s c v (sector_no s d) h k (omega arith))
    ∙ split (Bool-cases (sector_no s d == sector_no s c))
  where
    split :
        ((sector_no s d == sector_no s c) ≡ true) ⊎ ((sector_no s d == sector_no s c) ≡ false)
        → get16
            (if sector_no s d == sector_no s c
              then put16 (sector s (sector_no s c)) (entry_offset c) v
              else sector s (sector_no s d))
            (entry_offset d)
          ≡ (if d == c then v else get16 (sector s (sector_no s d)) (entry_offset d))
    split (inl near) = rw near (
        entry-put16 (sector s (sector_no s c)) c v d (h.sized (sector_no s c)) small
          (omega (arith, (==_iff _ _).0 near))
        ∙ ap (λ (n : ℕ). if d == c then v else get16 (sector s n) (entry_offset d))
            (sym ((==_iff _ _).0 near)))
    split (inr far) = let distinct : (d == c) ≡ false = ground arith in rw (far, distinct)

copy_below : (j n f : ℕ) → j < 0 + n → j * f + f ≤ n * f
copy_below j n f q = grind arith

-- Sectors behind the tables keep their bytes.
pub sector-written_far :
    (s : Fat) (c v x : ℕ)
    → IsSound s
    → InTable s c
    → s.fs.fat_start_sector + s.fs.num_fats * s.fs.fat_size ≤ x
    → sector (written s c v) x ≡ sector s x
unfolding written
sector-written_far s c v x h k far =
    sector-copied s.fs.num_fats 0 (sector_no s c) (edited s c v) x
      (λ j p q e. omega (arith, e, h.fits, copy_below j s.fs.num_fats s.fs.fat_size q))

pub InTable-written : (s : Fat) (c v d : ℕ) → InTable s d → InTable (written s c v) d
unfolding written
InTable-written s c v d l = l

-- One cluster's entry is written, and the entry of a cluster is read next.
abbrev pub write_then_read : ℕ → ℕ → ℕ → Call ℕ
write_then_read c v d = do fat_write_entry c v; fat_read_entry d

-- On a sound volume, fat_write_entry of a 16-bit value to a cluster of the table succeeds; the next
-- fat_read_entry of a cluster of the table gives what was written, or, for another cluster, what it
-- would have given before.
pub read_entry-write_entry :
    (s : Fat) (c v d : ℕ)
    → IsSound s
    → InTable s c
    → InTable s d
    → v < 2 ^ 16
    → ((fat_write_entry c v s).0 ≡ done tt)
      × ((write_then_read c v d s).0 ≡ (if d == c then done v else (fat_read_entry d s).0))
read_entry-write_entry s c v d h k l small =
    let wrote = write_entry-done s c v h k in
    let read_back =
      read_entry-done (written s c v) d (written-IsSound s c v h) (InTable-written s c v d l) in
    rw (wrote, read_back, read_entry-done s d h l, entry-written s c v d h k l small)
      (refl, ground arith)
