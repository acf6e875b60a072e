-- ===== src/Fat/File.antt =====
-- Files in src/fs/fat16.c: fat16_read_file, fat16_write_file and fat16_delete_file. A buffer that a
-- caller hands in is the list of its bytes; a read returns the size and the bytes that it has copied.
pub mod Delete
use cgos.Base.{
  ℕ, zero, suc, ◌+◌, ◌-◌, ◌*◌, ◌%◌, ◌^◌, Bool, true, false, ◌&&◌, List, [], ◌∷◌, ◌++◌, ltb, leb,
  ◌==◌, if◌then◌else◌, take, drop, length, replicate, Option, some, none,
}
use cgos.Base.Bits.{test}
use cgos.Fat.Disk.{
  Fat, Call, pure, fail, lost, ignoring, after, ◌>>=◌, ◌>>◌, asks, modify, guard, get16, get32,
  put8, put16, put32, load_buffer, store_buffer, edit_buffer, write_sector,
}
use cgos.Fat.Table.{
  fat16_free, fat16_end_of_chain, in_chain, cluster_to_sector, fat_read_entry, fat_write_entry,
  fat_find_free_cluster, free_chain,
}
use cgos.Fat.Directory.{
  attr, directory_bit, entry_at, seek, seek_deleted, search_root, fat16_find_file,
}

-- More rounds than a table of 2 ^ 16 clusters has entries.
unfoldable pub chain_fuel : ℕ
chain_fuel = 0x10002

-- `cluster_lo` and `file_size` of a directory entry
abbrev pub cluster_lo_at : ℕ
cluster_lo_at = 26

abbrev pub file_size_at : ℕ
file_size_at = 28

-- `remaining > 512 ? 512 : remaining`
abbrev pub chunk : ℕ → ℕ
chunk remaining = if ltb 512 remaining then 512 else remaining

-- The loop over the sectors of a cluster from sector `i` on, with `n` to go: the bytes, and how many
-- are still to be read.
unfoldable pub read_sectors : ℕ → ℕ → ℕ → ℕ → Call (List ℕ × ℕ)
read_sectors zero i sector remaining = pure ([], remaining)
read_sectors (suc n) i sector remaining =
    let step : Call (List ℕ × ℕ) = do
      load_buffer ((sector + i) % 2 ^ 32)
      bytes ← asks (λ s. s.sector_buffer)
      (more, left) ← read_sectors n (i + 1) sector (remaining - chunk remaining)
      pure (take (chunk remaining) bytes ++ more, left)
    in if remaining == 0 then pure ([], 0) else step

-- The loop over the clusters of a file.
unfoldable pub read_chain : ℕ → ℕ → ℕ → Call (List ℕ)
unfolding read_sectors
read_chain zero remaining cluster = lost
read_chain (suc fuel) remaining cluster =
    let step : Call (List ℕ) = do
      count ← asks (λ s. s.fs.sectors_per_cluster)
      sector ← asks (λ s. cluster_to_sector s cluster)
      (part, left) ← read_sectors count 0 sector remaining
      next ← fat_read_entry cluster
      rest ← read_chain fuel left next
      pure (part ++ rest)
    in if ltb 0 remaining && in_chain cluster then step else pure []

abbrev pub read_entry : List ℕ → ℕ → Call (ℕ × List ℕ)
unfolding read_chain
read_entry entry max_size =
    let size : ℕ =
      if ltb max_size (get32 entry file_size_at) then max_size else get32 entry file_size_at in
    if test (attr entry) directory_bit
    then fail
    else do bytes ← read_chain (suc size) size (get16 entry cluster_lo_at); pure (size, bytes)

unfoldable pub fat16_read_file : List ℕ → ℕ → Call (ℕ × List ℕ)
fat16_read_file name max_size = do
  mounted ← asks (λ s. s.fs.mounted)
  guard mounted
  entry ← fat16_find_file name
  read_entry entry max_size

-- memset and memcpy of at most a sector
abbrev pub padded : List ℕ → List ℕ
padded bytes = take 512 bytes ++ replicate (512 - length (take 512 bytes)) 0

-- The loop over the sectors of a new cluster: the bytes that are left.
unfoldable pub write_sectors : ℕ → ℕ → ℕ → List ℕ → Call (List ℕ)
write_sectors zero i sector bytes = pure bytes
write_sectors (suc n) i sector bytes =
    let step : Call (List ℕ) = do
      edit_buffer (λ _. padded bytes)
      store_buffer ((sector + i) % 2 ^ 32)
      write_sectors n (i + 1) sector (drop 512 bytes)
    in if length bytes == 0 then pure [] else step

-- One round: a cluster is chained behind the last one, and its sectors are written.
abbrev pub add_cluster : ℕ → ℕ → List ℕ → Call (List ℕ)
unfolding write_sectors
add_cluster prev_cluster cluster bytes =
    let link : Call (Unit {0}) = ignoring (fat_write_entry prev_cluster cluster) in
    do
      if prev_cluster == 0 then pure tt else link
      ignoring (fat_write_entry cluster fat16_end_of_chain)
      count ← asks (λ s. s.fs.sectors_per_cluster)
      sector ← asks (λ s. cluster_to_sector s cluster)
      write_sectors count 0 sector bytes

-- The loop over the bytes that are left: the first cluster.
unfoldable pub write_clusters : ℕ → ℕ → ℕ → List ℕ → Call ℕ
write_clusters zero first_cluster prev_cluster bytes = lost
write_clusters (suc fuel) first_cluster prev_cluster bytes =
    let step : Call ℕ = do
      cluster ← fat_find_free_cluster
      guard (ltb 0 cluster)
      rest ← add_cluster prev_cluster cluster bytes
      write_clusters fuel (if first_cluster == 0 then cluster else first_cluster) cluster rest
    in if length bytes == 0 then pure first_cluster else step

-- The file's entry is given its first cluster and its size.
abbrev pub set_file : ℕ → ℕ → ℕ → List ℕ → List ℕ
set_file j first_cluster size bytes =
    put32 (put16 bytes (32 * j + cluster_lo_at) first_cluster) (32 * j + file_size_at) size

abbrev pub write_found : List ℕ → Option (ℕ × ℕ) → Call ℕ
write_found bytes none = fail
write_found bytes (some (i, j)) = do
  entry ← asks (λ s. entry_at s.sector_buffer j)
  free_chain chain_fuel (get16 entry cluster_lo_at)
  first_cluster ← write_clusters (suc (length bytes)) 0 0 bytes
  start ← asks (λ s. s.fs.root_dir_start)
  load_buffer (start + i)
  edit_buffer (set_file j first_cluster (length bytes))
  store_buffer (start + i)
  pure (length bytes)

unfoldable pub fat16_write_file : List ℕ → List ℕ → Call ℕ
fat16_write_file name bytes = search_root (seek name) >>= write_found bytes

abbrev pub delete_found : Option (ℕ × ℕ) → Call (Unit {0})
delete_found none = fail
delete_found (some (i, j)) = do
  entry ← asks (λ s. entry_at s.sector_buffer j)
  free_chain chain_fuel (get16 entry cluster_lo_at)
  edit_buffer (λ bytes. put8 bytes (32 * j) 0xE5)
  start ← asks (λ s. s.fs.root_dir_start)
  store_buffer (start + i)

unfoldable pub fat16_delete_file : List ℕ → Call (Unit {0})
fat16_delete_file name = search_root (seek_deleted name) >>= delete_found
