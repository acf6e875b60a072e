-- ===== src/Fat/Tests.antt =====
-- The theorems on src/fs/fat16.c at concrete volumes, and runs of its functions.
use cgos.Base.{
  ℕ, ◌≡◌, refl, Bool, true, not, ◌||◌, List, [], ◌∷◌, ◌++◌, length, ltb, ◌==◌, if◌then◌else◌, none,
  arith, replicate, map, ◌↔◌, Bool-cases, inl, inr,
}
use cgos.Base.Bits.{holds_below, holds_below-lt, test}
use cgos.Fat.Disk.{Drive, Fat, done, get16, put16, put_bytes, put8, ata_drive_present}
use cgos.Fat.Disk.Sectors.{sector}
use cgos.Fat.Table.{
  in_chain, fat_read_entry, fat_write_entry, fat_find_free_cluster, free_chain, no_sector,
}
use cgos.Fat.Table.Entries.{IsSound, entry, sector_no}
use cgos.Fat.Table.Write.{read_entry-write_entry, write_then_read}
use cgos.Fat.Table.Search.{IsSearched, find_free_cluster-IsSearched}
use cgos.Fat.Table.Free.{IsFreed, free_chain-IsFreed}
use cgos.Fat.Table.Chain.{IsClosed, OnChain}
use cgos.Fat.Name.{name_matches, name_to_83, upper}
use cgos.Fat.Name.Layout.{IsName}
use cgos.Fat.Name.Match.{name_matches-name_to_83}
use cgos.Fat.Directory.{fat16_find_file, with_entry, new_entry, fat16_list_root}
use cgos.Fat.Directory.Scan.{root_dir}
use cgos.Fat.File.{fat16_delete_file}
use cgos.Fat.File.Delete.{delete_file-overwrites}
use cgos.Fat.Volume.{fat16_format, fat16_mount, format_clusters}
use cgos.Fat.Volume.Mount.{Mounted, mount-format}

abbrev blank : List ℕ
blank = replicate 512 0

-- A table whose clusters 2 and 3 form a cycle.
abbrev table : List ℕ
unfolding put16
table = put16 (put16 blank 4 3) 6 2

-- A directory with the file A.TXT at cluster 2.
abbrev a_txt : List ℕ
a_txt = b'a' ∷ b'.' ∷ b't' ∷ []

abbrev directory : List ℕ
directory =
    put_bytes (put16 blank 26 2) 0 (b'A' ∷ replicate 7 b' ' ++ (b'T' ∷ b' ' ∷ b' ' ∷ 0x20 ∷ []))

abbrev disk : Drive
disk = record {
  present = true;
  is_ata = true;
  size_sectors = 20000;
  sectors = λ lba. if lba == 1 then table else if lba == 3 then directory else blank;
  answers = λ lba. true;
}

abbrev volume : Fat
volume = record {
  fs = record {
    mounted = true;
    drive = 0;
    bytes_per_sector = 512;
    sectors_per_cluster = 1;
    reserved_sectors = 1;
    num_fats = 2;
    root_entry_count = 16;
    fat_size = 1;
    total_sectors = 204;
    fat_start_sector = 1;
    root_dir_start = 3;
    root_dir_sectors = 1;
    data_start_sector = 4;
    total_clusters = 200;
  };
  sector_buffer = blank;
  fat_cache = blank;
  fat_cache_sector = no_sector;
  drives = λ d. disk;
}

volume-IsSound : IsSound volume
unfolding ata_drive_present put16 put_bytes
volume-IsSound = record {
  answers = λ lba. refl;
  sized = sized;
  has_table = omega arith;
  fits = omega arith;
  coherent = λ n. absurd (n refl);
}
  where
    sized : (lba : ℕ) → length (disk.sectors lba) ≡ 512
    sized lba = elim (Bool-cases (lba == 1)) [
      | inl e ↦ rw e
      | inr e ↦ elim (Bool-cases (lba == 3)) [ inl e' ↦ rw (e, e') | inr e' ↦ rw (e, e') ]
    ]

-- Every entry names a cluster of the table, by evaluation.
closed_row : ℕ → Bool
unfolding entry
closed_row d = not (in_chain (entry volume d)) || ltb (entry volume d) 256

closed_rows : holds_below 256 closed_row ≡ true
unfolding holds_below closed_row entry get16 put16
closed_rows = refl

volume-IsClosed : IsClosed volume
unfolding closed_row
volume-IsClosed d l chained =
    let row = holds_below-lt 256 closed_row d closed_rows l in ground (arith)

read_entry-write_entry_example :
    ((fat_write_entry 5 0xFFF8 volume).0 ≡ done tt)
    × ((write_then_read 5 0xFFF8 2 volume).0
        ≡ (if 2 == 5 then done 0xFFF8 else (fat_read_entry 2 volume).0))
read_entry-write_entry_example =
    read_entry-write_entry volume 5 0xFFF8 2 volume-IsSound (omega arith) (omega arith)
      (omega arith)

find_free_cluster-IsSearched_example :
    (r : ℕ) × (t : Fat) × (fat_find_free_cluster volume ≡ (done r, t)) × IsSearched volume 200 2 r t
find_free_cluster-IsSearched_example =
    find_free_cluster-IsSearched volume volume-IsSound (omega arith) (omega arith)

free_chain-IsFreed_example : (t : Fat) × (free_chain 5 2 volume ≡ (done tt, t)) × IsFreed volume 2 t
unfolding entry get16 put16
free_chain-IsFreed_example =
    free_chain-IsFreed 5 2 volume volume-IsSound volume-IsClosed (λ _. omega arith) (omega arith)

short-IsName : IsName (b'a' ∷ []) (b't' ∷ [])
short-IsName = record {
  base_chars = ((omega arith, omega arith, omega arith, omega arith), tt);
  ext_chars = ((omega arith, omega arith, omega arith, omega arith), tt);
  base_fits = omega arith;
  ext_fits = omega arith;
}

name_matches-name_to_83_example :
    (name_matches (name_to_83 (b'a' ∷ b'.' ∷ b't' ∷ []) ++ []) (b'A' ∷ b'.' ∷ b'T' ∷ []) ≡ true)
    ↔ (map upper (b'a' ∷ b'.' ∷ b't' ∷ []) ≡ map upper (b'A' ∷ b'.' ∷ b'T' ∷ []))
name_matches-name_to_83_example =
    name_matches-name_to_83 (b'a' ∷ []) (b't' ∷ []) [] (b'A' ∷ b'.' ∷ b'T' ∷ []) short-IsName
      (omega arith, (omega arith, (omega arith, tt)))

delete_file-overwrites_example :
    (t : Fat) × (d : ℕ) × (fat16_delete_file a_txt volume ≡ (done tt, t))
    × OnChain volume 2 d
    × (root_dir t 0 ≡ put8 (sector t (sector_no volume d)) 0 0xE5)
unfolding cgos.Fat.Directory.Scan.find_in cgos.Fat.Directory.scan_sector cgos.Fat.Directory.entry_at
    cgos.Fat.Directory.seek_deleted name_matches cgos.Fat.Name.trimmed get16 put16 put_bytes test
delete_file-overwrites_example =
    delete_file-overwrites volume volume-IsSound volume-IsClosed (omega arith) refl (omega arith)
      a_txt 0 0 refl refl (omega arith)

mount-format_example :
    (t : Fat) × (u : Fat) × (fat16_format 0 none volume ≡ (done tt, t))
    × (fat16_mount 0 t ≡ (done tt, u))
    × Mounted 0 20000 u
mount-format_example =
    mount-format 0 none volume volume-IsSound.answers (omega arith) (omega arith)
      (unfold format_clusters in refl)
