-- ===== src/Fat/Volume/Format.antt =====
-- What fat16_format of src/fs/fat16.c writes, and fat16_mount of the volume that it has made.
use cgos.Base.{
  ℕ, zero, suc, ◌+◌, ◌-◌, ◌*◌, ◌^◌, ◌<◌, ◌≤◌, ◌≡◌, refl, ◌∙◌, Bool, true, ◌&&◌, List, ltb, leb,
  ◌==◌, if◌then◌else◌, Option, some, none, arith, ==_iff,
}
use cgos.Fat.Disk.{
  Fat, done, sector_of, reaches, with_sector, ata_drive_present, ata_write_sector, put16,
}
use cgos.Fat.Directory.Find.{with_buffer}
use cgos.Fat.Volume.{
  store_to, fill_sectors, format_fats, format_label, fat16_format, format_fat_size, format_clusters,
  boot_sector, zero_sector, is_fat16, label_entry,
}

-- Whether all sectors of a drive answer.
abbrev pub DriveAnswers : Fat → ℕ → Type 0
DriveAnswers s d = (lba : ℕ) → reaches s d lba ≡ true

unfoldable pub stored : Fat → ℕ → ℕ → Fat
stored s d lba = record s { drives = with_sector s.drives d lba s.sector_buffer }

store_to-done :
    (d lba : ℕ) (s : Fat) → DriveAnswers s d → store_to d lba s ≡ (done tt, stored s d lba)
unfolding ata_write_sector stored
store_to-done d lba s h = rw (h lba)

-- The drive after writes from sector `from` on.
record Wrote (d from : ℕ) (s t : Fat) : Type 0 where
  pub same_fs : t.fs ≡ s.fs
  pub same_buffer : t.sector_buffer ≡ s.sector_buffer
  pub answers : DriveAnswers t d
  pub below : (x : ℕ) → x < from → sector_of t d x ≡ sector_of s d x

sector_of-stored :
    (s : Fat) (d lba x : ℕ)
    → sector_of (stored s d lba) d x ≡ (if x == lba then s.sector_buffer else sector_of s d x)
unfolding stored with_sector
sector_of-stored s d lba x = ground arith

stored-answers : (s : Fat) (d lba : ℕ) → DriveAnswers s d → DriveAnswers (stored s d lba) d
unfolding stored with_sector ata_drive_present
stored-answers s d lba h x = rw ((==_iff d d).1 refl) (h x)

stored-Wrote :
    (s : Fat) (d lba from : ℕ) → DriveAnswers s d → from ≤ lba → Wrote d from s (stored s d lba)
unfolding stored
stored-Wrote s d lba from h p = record {
  same_fs = refl;
  same_buffer = refl;
  answers = stored-answers s d lba h;
  below = λ x q. sector_of-stored s d lba x ∙ ground arith;
}

Wrote-trans : {d from : ℕ} {s t u : Fat} → Wrote d from s t → Wrote d from t u → Wrote d from s u
Wrote-trans p q = record {
  same_fs = q.same_fs ∙ p.same_fs;
  same_buffer = q.same_buffer ∙ p.same_buffer;
  answers = q.answers;
  below = λ x l. q.below x l ∙ p.below x l;
}

Wrote-refl : (d from : ℕ) (s : Fat) → DriveAnswers s d → Wrote d from s s
Wrote-refl d from s h = record {
  same_fs = refl;
  same_buffer = refl;
  answers = h;
  below = λ x l. refl;
}

-- The loops that fill sectors with the buffer.
fill_sectors-Wrote :
    (n d lba from : ℕ) (s : Fat)
    → DriveAnswers s d
    → from ≤ lba
    → (t : Fat) × (fill_sectors n d lba s ≡ (done tt, t)) × Wrote d from s t
unfolding fill_sectors
fill_sectors-Wrote zero d lba from s h p = (s, refl, Wrote-refl d from s h)
fill_sectors-Wrote (suc n) d lba from s h p =
    let s' = stored s d lba in
    let (t, e, w) =
      fill_sectors-Wrote n d (lba + 1) from s' (stored-answers s d lba h) (omega arith) in
    (t, rw (store_to-done d lba s h) e, Wrote-trans (stored-Wrote s d lba from h p) w)

-- The two tables: the first sector of the first one, and that of the second, which is empty.
record Tables (d fat_size : ℕ) (s t : Fat) : Type 0 where
  pub same_fs : t.fs ≡ s.fs
  pub answers : DriveAnswers t d
  pub boot : sector_of t d 0 ≡ sector_of s d 0
  pub first : sector_of t d 1 ≡ s.sector_buffer
  pub second : sector_of t d (1 + fat_size) ≡ zero_sector

buffered :
    (s : Fat) (d : ℕ) (bytes : List ℕ) → DriveAnswers s d → DriveAnswers (with_buffer s bytes) d
unfolding ata_drive_present
buffered s d bytes h = h

-- One copy: the buffer goes to its first sector, and zeros go to the others.
format_copy :
    (d lba n : ℕ) (s : Fat)
    → DriveAnswers s d
    → (t : Fat) × (fill_sectors n d (lba + 1) (with_buffer (stored s d lba) zero_sector)
        ≡ (done tt, t))
      × Wrote d (lba + 1) (with_buffer (stored s d lba) zero_sector) t
format_copy d lba n s h =
    fill_sectors-Wrote n d (lba + 1) (lba + 1) (with_buffer (stored s d lba) zero_sector)
      (buffered (stored s d lba) d zero_sector (stored-answers s d lba h)) (omega arith)

module _ (d lba x : ℕ) (s t : Fat)
    (w : Wrote d (lba + 1) (with_buffer (stored s d lba) zero_sector) t) where
  kept_at : x ≡ lba → sector_of t d x ≡ s.sector_buffer
  kept_at e = w.below x (omega (arith, e)) ∙ sector_of-stored s d lba x ∙ ground arith

  kept_ne : x < lba → sector_of t d x ≡ sector_of s d x
  kept_ne p = w.below x (omega arith) ∙ sector_of-stored s d lba x ∙ ground arith

module _ (d fat_size : ℕ) (s : Fat) (h : DriveAnswers s d) (some_size : 0 < fat_size) where
  lba0 : ℕ
  lba0 = 1 + 0 * fat_size

  lba1 : ℕ
  lba1 = 1 + (0 + 1) * fat_size

  format_fats-Tables :
      (t : Fat) × (format_fats 2 0 d fat_size s ≡ (done tt, t)) × Tables d fat_size s t
  unfolding format_fats lba0 lba1 stored
  format_fats-Tables =
      let (t, e, w) = format_copy d lba0 (fat_size - 1) s h in
      let (u, e', w') = format_copy d lba1 (fat_size - 1) t w.answers in
      (
        u,
        rw (store_to-done d lba0 s h, e, store_to-done d lba1 t w.answers, e'),
        record {
          same_fs = w'.same_fs ∙ w.same_fs;
          answers = w'.answers;
          boot = kept_ne d lba1 0 t u w' (omega arith) ∙ kept_ne d lba0 0 s t w (omega arith);
          first = kept_ne d lba1 1 t u w' (omega arith) ∙ kept_at d lba0 1 s t w (omega arith);
          second = kept_at d lba1 (1 + fat_size) t u w' (omega arith) ∙ w.same_buffer;
        },
      )

left_true : (a b : Bool) → (a && b) ≡ true → a ≡ true
left_true a b e = ground arith

pub is_present : (s : Fat) (d : ℕ) → DriveAnswers s d → ata_drive_present s d ≡ true
unfolding ata_drive_present
is_present s d h =
    left_true (ltb d 2 && (s.drives d).present && (s.drives d).is_ata) ((s.drives d).answers 0)
      (h 0)

room_test : (n : ℕ) → 8192 ≤ n → leb 8192 n ≡ true
room_test n h = ground arith

-- The volume that the call leaves.
pub record Formatted (d total_sectors : ℕ) (label : Option (List ℕ)) (s t : Fat) : Type 0 where
  pub same_fs : t.fs ≡ s.fs
  pub answers : DriveAnswers t d
  pub boot : sector_of t d 0 ≡ boot_sector total_sectors (format_fat_size total_sectors) label
  pub first : sector_of t d 1 ≡ put16 (put16 zero_sector 0 0xFFF8) 2 0xFFFF
  pub second : sector_of t d (1 + format_fat_size total_sectors) ≡ zero_sector

format_label-Wrote :
    (label : Option (List ℕ)) (d lba : ℕ) (s : Fat)
    → DriveAnswers s d
    → (t : Fat) × (format_label label d lba s ≡ (done tt, t))
      × (t.fs ≡ s.fs)
      × DriveAnswers t d
      × ((x : ℕ) → x < lba → sector_of t d x ≡ sector_of s d x)
unfolding stored
format_label-Wrote none d lba s h = (s, refl, refl, h, λ x p. refl)
format_label-Wrote (some label) d lba s h =
    let s' = with_buffer s (label_entry label s.sector_buffer) in
    let h' = buffered s d (label_entry label s.sector_buffer) h in
    (
      stored s' d lba,
      store_to-done d lba s' h',
      refl,
      stored-answers s' d lba h',
      λ x p. sector_of-stored s' d lba x ∙ ground arith,
    )

module _ (d : ℕ) (label : Option (List ℕ)) (s : Fat) (h : DriveAnswers s d)
    (room : 8192 ≤ (s.drives d).size_sectors) (wide : (s.drives d).size_sectors < 2 ^ 32)
    (is16 : is_fat16 (format_clusters (s.drives d).size_sectors) ≡ true) where
  abbrev total : ℕ
  total = (s.drives d).size_sectors

  abbrev size : ℕ
  size = format_fat_size total

  some_table : 0 < size
  unfolding format_fat_size format_clusters
  some_table = ground arith

  pub format-Formatted :
      (t : Fat) × (fat16_format d label s ≡ (done tt, t)) × Formatted d total label s t
  unfolding fat16_format stored
  format-Formatted =
      let s1 = with_buffer s (boot_sector total size label) in
      let h1 = buffered s d (boot_sector total size label) h in
      let table = put16 (put16 zero_sector 0 0xFFF8) 2 0xFFFF in
      let s3 = with_buffer (stored s1 d 0) table in
      let h3 = buffered (stored s1 d 0) d table (stored-answers s1 d 0 h1) in
      let (s4, e4, tables) = format_fats-Tables d size s3 h3 some_table in
      let s5 = with_buffer s4 zero_sector in
      let h5 = buffered s4 d zero_sector tables.answers in
      let (s6, e6, w6) =
        fill_sectors-Wrote 32 d (1 + 2 * size) (1 + 2 * size) s5 h5 (omega arith) in
      let (s7, e7, same7, h7, below7) = format_label-Wrote label d (1 + 2 * size) s6 w6.answers in
      let keep : (x : ℕ) → x < 1 + 2 * size → sector_of s7 d x ≡ sector_of s4 d x =
        λ x p. below7 x p ∙ w6.below x p in
      (
        s7,
        rw (is_present s d h, room_test total room, is16, store_to-done d 0 s1 h1, e4, e6, e7),
        record {
          same_fs = same7 ∙ w6.same_fs ∙ tables.same_fs;
          answers = h7;
          boot = keep 0 (omega arith) ∙ tables.boot ∙ sector_of-stored s1 d 0 0;
          first = keep 1 (omega (arith, some_table)) ∙ tables.first;
          second = keep (1 + size) (omega (arith, some_table)) ∙ tables.second;
        },
      )
