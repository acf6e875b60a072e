-- ===== src/Fat/Table.antt =====
-- The file allocation table: the functions of src/fs/fat16.c on the entries of clusters.
pub mod Entries
pub mod Chain
pub mod Free
pub mod Search
pub mod Write
use cgos.Base.{
  Bool, ℕ, zero, suc, ◌+◌, ◌-◌, ◌*◌, ◌/◌, ◌%◌, ◌^◌, ◌&&◌, List, ltb, leb, ◌==◌, if◌then◌else◌,
}
use cgos.Fat.Disk.{
  Fat, Outcome, done, Call, lost, ignoring, pure, ◌>>=◌, ◌>>◌, after, asks, modify, get16, put16,
  read_sector, write_sector, load_buffer, store_buffer, edit_buffer,
}

abbrev pub fat16_free : ℕ
fat16_free = 0

abbrev pub fat16_bad_cluster : ℕ
fat16_bad_cluster = 0xFFF7

abbrev pub fat16_end_of_chain : ℕ
fat16_end_of_chain = 0xFFF8

abbrev pub no_sector : ℕ
no_sector = 0xFFFFFFFF

unfoldable pub cluster_to_sector : Fat → ℕ → ℕ
cluster_to_sector s cluster =
    (s.fs.data_start_sector + (cluster + 2 ^ 32 - 2) * s.fs.sectors_per_cluster) % 2 ^ 32

-- The sector of the first table that holds the entry, and the entry's byte in it.
abbrev pub fat_sector : Fat → ℕ → ℕ
fat_sector s cluster = (s.fs.fat_start_sector + cluster * 2 / 512) % 2 ^ 32

abbrev pub entry_offset : ℕ → ℕ
entry_offset cluster = cluster * 2 % 512 / 2 * 2

-- The cache and the entry in it, after a read of the sector. An error gives a bad cluster.
unfoldable pub refill : ℕ → ℕ → Outcome (List ℕ) × Fat → Outcome ℕ × Fat
refill lba offset (done bytes, s) =
    (done (get16 bytes offset), record s { fat_cache = bytes; fat_cache_sector = lba })
refill lba offset (o, s) = (done fat16_bad_cluster, s)

unfoldable pub fat_read_entry : ℕ → Call ℕ
unfolding refill
fat_read_entry cluster s =
    let lba = fat_sector s cluster in
    if lba == s.fat_cache_sector
    then (done (get16 s.fat_cache (entry_offset cluster)), s)
    else refill lba (entry_offset cluster) (read_sector lba s)

-- The loop over the copies of the table, from copy `i` on.
unfoldable pub write_copies : ℕ → ℕ → ℕ → Call (Unit {0})
write_copies zero i lba = pure tt
write_copies (suc n) i lba = do
  fat_size ← asks (λ s. s.fs.fat_size)
  store_buffer ((lba + i * fat_size) % 2 ^ 32)
  write_copies n (i + 1) lba

unfoldable pub fat_write_entry : ℕ → ℕ → Call (Unit {0})
unfolding write_copies
fat_write_entry cluster value = do
  lba ← asks (λ s. fat_sector s cluster)
  load_buffer lba
  edit_buffer (λ bytes. put16 bytes (entry_offset cluster) value)
  num_fats ← asks (λ s. s.fs.num_fats)
  write_copies num_fats 0 lba
  modify (λ s. record s { fat_cache_sector = no_sector })

-- The search from a cluster on, with `n` to go.
unfoldable pub find_free_from : ℕ → ℕ → Call ℕ
find_free_from zero cluster = pure 0
find_free_from (suc n) cluster = do
  entry ← fat_read_entry cluster
  if entry == fat16_free then pure cluster else find_free_from n ((cluster + 1) % 2 ^ 16)

unfoldable pub fat_find_free_cluster : Call ℕ
unfolding find_free_from
fat_find_free_cluster = do
  total_clusters ← asks (λ s. s.fs.total_clusters)
  find_free_from ((total_clusters + 2) % 2 ^ 32 - 2) 2

-- The test of the loops over a chain.
abbrev pub in_chain : ℕ → Bool
in_chain cluster = leb 2 cluster && ltb cluster fat16_end_of_chain

-- The loop that frees a chain of clusters. Errors of the writes are not looked at.
unfoldable pub free_chain : ℕ → ℕ → Call (Unit {0})
free_chain zero cluster = lost
free_chain (suc fuel) cluster =
    let walk : Call (Unit {0}) = do
      next ← fat_read_entry cluster
      ignoring (fat_write_entry cluster fat16_free)
      free_chain fuel next
    in if in_chain cluster then walk else pure tt
