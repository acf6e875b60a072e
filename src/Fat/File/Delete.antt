-- ===== src/Fat/File/Delete.antt =====
-- fat16_delete_file of src/fs/fat16.c: the loop that frees the clusters uses the buffer in which the
-- directory's sector is held.
use cgos.Base.{
  ℕ, ◌+◌, ◌*◌, ◌<◌, ◌≤◌, ◌≡◌, refl, sym, ap, ◌∙◌, true, false, List, ◌==◌, some, arith, ==_iff,
}
use cgos.Fat.Disk.{Fat, done, get16, put8, ata_drive_present, store_buffer}
use cgos.Fat.Disk.Sectors.{sector, put_sector, sector-put_sector, store_buffer-done}
use cgos.Fat.Table.{in_chain, free_chain}
use cgos.Fat.Table.Entries.{IsSound, InTable, sector_no, entry}
use cgos.Fat.Table.Free.{IsFreed, free_chain-IsFreed, used_bound}
use cgos.Fat.Table.Chain.{OnChain, here, next, IsClosed, tables_end}
use cgos.Fat.Directory.{entry_at, seek_deleted}
use cgos.Fat.Directory.Scan.{find_in, root_dir, last_read-some}
use cgos.Fat.Directory.Find.{search_root-done, with_buffer}
use cgos.Fat.File.{chain_fuel, cluster_lo_at, fat16_delete_file}

abbrev first_cluster : Fat → ℕ → ℕ → ℕ
first_cluster s k j = get16 (entry_at (root_dir s k) j) cluster_lo_at

held-IsSound : (s : Fat) (bytes : List ℕ) → IsSound s → IsSound (with_buffer s bytes)
unfolding ata_drive_present
held-IsSound s bytes h = record {
  answers = h.answers;
  sized = h.sized;
  has_table = h.has_table;
  fits = h.fits;
  coherent = h.coherent;
}

-- A chain is that of the state with another buffer.
held-OnChain :
    (s : Fat) (bytes : List ℕ) {c d : ℕ} → OnChain (with_buffer s bytes) c d → OnChain s c d
unfolding entry
held-OnChain s bytes (here chained) = here chained
held-OnChain s bytes (next chained rest) = next chained (held-OnChain s bytes rest)

one_table : (n f : ℕ) → 1 ≤ n → f ≤ n * f
one_table n f p = grind arith

below_lba :
    (s : Fat) (d k : ℕ)
    → IsSound s
    → InTable s d
    → tables_end s ≤ s.fs.root_dir_start
    → sector_no s d < s.fs.root_dir_start + k
below_lba s d k h l behind = omega (arith, one_table s.fs.num_fats s.fs.fat_size h.has_table)

module _ (s : Fat) (h : IsSound s) (closed : IsClosed s) (small : s.fs.fat_size ≤ 256) where
  pub held_free :
      (bytes : List ℕ) (c : ℕ)
      → (in_chain c ≡ true → InTable s c)
      → (t : Fat) × (free_chain chain_fuel c (with_buffer s bytes) ≡ (done tt, t))
        × IsFreed (with_buffer s bytes) c t
  unfolding entry chain_fuel
  held_free bytes c l =
      free_chain-IsFreed 0x10002 c (with_buffer s bytes) (held-IsSound s bytes h) closed l
        (omega (arith, used_bound (entry s) (256 * s.fs.fat_size)))

  module _ (mounted : s.fs.mounted ≡ true) (behind : tables_end s ≤ s.fs.root_dir_start)
      (name : List ℕ) (k j : ℕ)
      (found : find_in (seek_deleted name) s.fs.root_dir_sectors 0 (root_dir s) ≡ some (k, j)) where
    abbrev c : ℕ
    c = first_cluster s k j

    delete_found-eq :
        (u : Fat)
        → free_chain chain_fuel c (with_buffer s (root_dir s k)) ≡ (done tt, u)
        → fat16_delete_file name s
          ≡ store_buffer
              (u.fs.root_dir_start + k)
              (with_buffer u (put8 u.sector_buffer (32 * j) 0xE5))
    unfolding fat16_delete_file
    delete_found-eq u freed = rw (
      search_root-done (seek_deleted name) s h.answers mounted,
      found,
      last_read-some (seek_deleted name) s.fs.root_dir_sectors 0 (root_dir s) s.sector_buffer k j
          found,
      freed,
    )

    written_back : Fat → Fat
    written_back u =
        put_sector (with_buffer u (put8 u.sector_buffer (32 * j) 0xE5)) (s.fs.root_dir_start + k)
          (put8 u.sector_buffer (32 * j) 0xE5)

    back_at :
        (u : Fat) (d : ℕ)
        → u.fs.root_dir_start ≡ s.fs.root_dir_start
        → InTable s d
        → u.sector_buffer ≡ sector u (sector_no s d)
        → root_dir (written_back u) k ≡ put8 (sector (written_back u) (sector_no s d)) (32 * j) 0xE5
    unfolding written_back put_sector
    back_at u d start l holds =
        let bytes = put8 u.sector_buffer (32 * j) 0xE5 in
        let u' = with_buffer u bytes in
        let lba = s.fs.root_dir_start + k in
        let n = sector_no s d in
        let apart : (n == lba) ≡ false = ground (arith, below_lba s d k h l behind) in
        let there = sector-put_sector u' lba bytes lba ∙ rw ((==_iff lba lba).1 refl) in
        let table = sector-put_sector u' lba bytes n ∙ rw apart in
        ap (λ (m : ℕ). sector (written_back u) (m + k)) start
        ∙ there
        ∙ ap (λ b. put8 b (32 * j) 0xE5) (holds ∙ sym table)

    -- On a sound mounted volume, whose table has at most 256 sectors, whose entries that go on a chain
    -- all name clusters of the table, and whose tables end before its root directory: deleting a file
    -- that is found, and whose first cluster goes on a chain and has an entry in the table, succeeds,
    -- but its directory sector is overwritten by a sector of the table, that of a cluster of its chain,
    -- with the mark of a deleted entry in one of its bytes.
    pub delete_file-overwrites :
        in_chain c ≡ true
        → InTable s c
        → (t : Fat) × (d : ℕ) × (fat16_delete_file name s ≡ (done tt, t))
          × OnChain s c d
          × (root_dir t k ≡ put8 (sector t (sector_no s d)) (32 * j) 0xE5)
    unfolding written_back put_sector
    delete_file-overwrites chained l =
        let (u, freed, after_free) = held_free (root_dir s k) c (λ _. l) in
        let (d, chain, in_table, holds) = after_free.buffer chained in
        let bytes = put8 u.sector_buffer (32 * j) 0xE5 in
        let u' = with_buffer u bytes in
        let start : u.fs.root_dir_start ≡ s.fs.root_dir_start =
          ap (λ f. f.root_dir_start) after_free.same_fs in
        let lba = s.fs.root_dir_start + k in
        let stored = store_buffer-done u' lba (held-IsSound u bytes after_free.sound).answers in
        (
          written_back u,
          d,
          delete_found-eq u freed ∙ ap (λ (n : ℕ). store_buffer (n + k) u') start ∙ stored,
          held-OnChain s (root_dir s k) chain,
          back_at u d start in_table holds,
        )
