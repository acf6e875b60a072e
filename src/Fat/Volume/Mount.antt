-- ===== src/Fat/Volume/Mount.antt =====
-- fat16_mount of a volume that fat16_format of src/fs/fat16.c has made.
use cgos.Base.{
  ℕ, ◌+◌, ◌*◌, ◌^◌, ◌<◌, ◌≤◌, ◌≡◌, refl, ◌∙◌, Bool, true, false, List, if◌then◌else◌, Option, arith,
}
use cgos.Fat.Disk.{Fs, Fat, done, sector_of, ata_drive_present, put16}
use cgos.Fat.Disk.Sectors.{load_buffer-done}
use cgos.Fat.Table.{no_sector}
use cgos.Fat.Volume.{
  fat16_unmount, mount_from, fat16_format, fat16_mount, format_fat_size, format_clusters,
  boot_sector, zero_sector, is_fat16, clusters_of,
}
use cgos.Fat.Volume.Boot.{laid_out, geometry-boot, signature, fixed}
use cgos.Fat.Volume.Format.{DriveAnswers, format-Formatted, is_present}

abbrev with_drive : Fat → ℕ → Fat
with_drive s d = record s { fs = record s.fs { drive = d } }

-- The state after the boot sector is read and found good.
abbrev mounted_fs : Fs → ℕ → Fs
mounted_fs fs total = record (laid_out fs total (format_fat_size total)) {
  total_clusters = format_clusters total;
  mounted = true;
}

abbrev mounted_fat : Fat → ℕ → ℕ → List ℕ → Fat
mounted_fat s d total boot = record s {
  fs = mounted_fs (with_drive s d).fs total;
  sector_buffer = boot;
  fat_cache_sector = no_sector;
}

fat_size_small : (total : ℕ) → format_fat_size total < 2 ^ 16
unfolding format_fat_size
fat_size_small total = omega arith

mount_from-done :
    (d total : ℕ) (label : Option (List ℕ)) (s : Fat)
    → DriveAnswers s d
    → sector_of s d 0 ≡ boot_sector total (format_fat_size total) label
    → total < 2 ^ 32
    → is_fat16 (format_clusters total) ≡ true
    → mount_from d s
      ≡ (done tt, mounted_fat s d total (boot_sector total (format_fat_size total) label))
unfolding ata_drive_present clusters_of format_clusters
mount_from-done d total label s h boot wide is16 =
    let (low, high) = signature total (format_fat_size total) label in
    let size = (fixed total (format_fat_size total) label).0 in
    rw (
      load_buffer-done (with_drive s d) 0 h,
      boot,
      low,
      high,
      size,
      geometry-boot (with_drive s d).fs total (format_fat_size total) label wide
          (fat_size_small total),
      is16,
    )

-- The unmount that comes first leaves the drives.
abbrev unmounted : Bool → Fat → Fat
unmounted b s = if b then fat16_unmount s else s

unmounted-answers : (b : Bool) (s : Fat) (d : ℕ) → DriveAnswers s d → DriveAnswers (unmounted b s) d
unfolding fat16_unmount ata_drive_present
unmounted-answers true s d h = h
unmounted-answers false s d h = h

unmounted-sector : (b : Bool) (s : Fat) (d x : ℕ) → sector_of (unmounted b s) d x ≡ sector_of s d x
unfolding fat16_unmount
unmounted-sector true s d x = refl
unmounted-sector false s d x = refl

fat16_range : (n : ℕ) → is_fat16 n ≡ true → (4085 ≤ n) × (n < 65525)
fat16_range n h = (ground arith, ground arith)

clusters_covered :
    (total : ℕ)
    → total < 2 ^ 32
    → is_fat16 (format_clusters total) ≡ true
    → 8192 ≤ total
    → (format_clusters total + 2 ≤ 256 * format_fat_size total)
      × (1 + 2 * format_fat_size total + 32 + 4 * format_clusters total ≤ total)
unfolding format_clusters format_fat_size
clusters_covered total wide is16 room =
    let (least, most) = fat16_range (format_clusters total) is16 in (omega arith, omega arith)

-- A volume of the layout that fat16_format computes, with its two tables.
pub record Mounted (d total_sectors : ℕ) (t : Fat) : Type 0 where
  pub mounted : t.fs.mounted ≡ true
  pub drive : t.fs.drive ≡ d
  pub clusters : t.fs.total_clusters ≡ format_clusters total_sectors
  pub table_starts : t.fs.fat_start_sector ≡ 1
  pub tables : (t.fs.num_fats ≡ 2) × (t.fs.fat_size ≡ format_fat_size total_sectors)
  pub clusters_of_four : t.fs.sectors_per_cluster ≡ 4
  pub sector_size : t.fs.bytes_per_sector ≡ 512
  pub reserved : t.fs.reserved_sectors ≡ 1
  pub size : t.fs.total_sectors ≡ total_sectors
  pub root : (t.fs.root_entry_count ≡ 512) × (t.fs.root_dir_sectors ≡ 32)
  pub root_behind_tables : t.fs.root_dir_start ≡ 1 + 2 * t.fs.fat_size
  pub data_behind_root : t.fs.data_start_sector ≡ t.fs.root_dir_start + 32
  pub covered : t.fs.total_clusters + 2 ≤ 256 * t.fs.fat_size
  pub first_table :
      sector_of t d t.fs.fat_start_sector ≡ put16 (put16 zero_sector 0 0xFFF8) 2 0xFFFF
  pub second_table : sector_of t d (t.fs.fat_start_sector + t.fs.fat_size) ≡ zero_sector
  pub fits : t.fs.data_start_sector + 4 * t.fs.total_clusters ≤ total_sectors

-- A drive that answers, of at least 8192 and fewer than 2 ^ 32 sectors and of a count of clusters that
-- makes it a FAT16 volume, is formatted, and fat16_mount accepts the result: the fields are those of
-- the layout, with one reserved sector, two tables, 32 sectors of the root directory behind them and
-- then the clusters of four sectors; the table has an entry for each cluster and the clusters lie on
-- the drive. The first sector of the first table holds the two reserved entries; that of the second
-- one is empty.
pub mount-format :
    (d : ℕ) (label : Option (List ℕ)) (s : Fat)
    → DriveAnswers s d
    → 8192 ≤ (s.drives d).size_sectors
    → (s.drives d).size_sectors < 2 ^ 32
    → is_fat16 (format_clusters (s.drives d).size_sectors) ≡ true
    → (t : Fat) × (u : Fat) × (fat16_format d label s ≡ (done tt, t))
      × (fat16_mount d t ≡ (done tt, u))
      × Mounted d (s.drives d).size_sectors u
unfolding fat16_mount
mount-format d label s h room wide is16 =
    let total = (s.drives d).size_sectors in
    let (t, formats, made) = format-Formatted d label s h room wide is16 in
    let t' = unmounted t.fs.mounted t in
    let h' = unmounted-answers t.fs.mounted t d made.answers in
    let boot = unmounted-sector t.fs.mounted t d 0 ∙ made.boot in
    let (covered, fits) = clusters_covered total wide is16 room in
    (
      t,
      mounted_fat t' d total (boot_sector total (format_fat_size total) label),
      formats,
      rw (is_present t' d h') (mount_from-done d total label t' h' boot wide is16),
      record {
        mounted = refl;
        drive = refl;
        clusters = refl;
        table_starts = refl;
        tables = (refl, refl);
        clusters_of_four = refl;
        sector_size = refl;
        reserved = refl;
        size = refl;
        root = (refl, refl);
        root_behind_tables = omega arith;
        data_behind_root = refl;
        covered = covered;
        first_table = unmounted-sector t.fs.mounted t d 1 ∙ made.first;
        second_table = unmounted-sector t.fs.mounted t d (1 + format_fat_size total) ∙ made.second;
        fits = fits;
      },
    )
