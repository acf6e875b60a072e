-- ===== src/Fat/Directory.antt =====
-- The root directory of src/fs/fat16.c: the search for an entry, fat16_list_root, fat16_find_file
-- and fat16_create_file. A name is the list of its characters.
pub mod Fresh
pub mod Free
pub mod Create
pub mod Find
pub mod Entries
pub mod Scan
use cgos.Base.{
  ℕ, zero, suc, ◌+◌, ◌*◌, Bool, true, false, not, ◌||◌, List, [], ◌∷◌, ◌++◌, ◌==◌, if◌then◌else◌,
  take, drop, replicate, Option, some, none,
}
use cgos.Base.Bits.{test}
use cgos.Fat.Disk.{
  Fat, Outcome, done, failed, crash, out_of_fuel, Call, pure, fail, after, ◌>>=◌, ◌>>◌, asks, guard,
  get8, get32, put8, put_bytes, load_buffer, store_buffer, edit_buffer,
}
use cgos.Fat.Name.{entry_name, name_matches, name_to_83}

-- FAT_ATTR_LFN, FAT_ATTR_ARCHIVE, and the bits of FAT_ATTR_VOLUME_ID and FAT_ATTR_DIRECTORY
abbrev pub fat_attr_lfn : ℕ
fat_attr_lfn = 0x0F

abbrev pub fat_attr_archive : ℕ
fat_attr_archive = 0x20

abbrev pub volume_id_bit : ℕ
volume_id_bit = 3

abbrev pub directory_bit : ℕ
directory_bit = 4

abbrev pub attr : List ℕ → ℕ
attr entry = get8 entry 11

-- Entry `j` of a sector, and the sector with another one there.
unfoldable pub entry_at : List ℕ → ℕ → List ℕ
entry_at bytes j = take 32 (drop (32 * j) bytes)

unfoldable pub with_entry : List ℕ → ℕ → List ℕ → List ℕ
with_entry bytes j entry = take (32 * j) bytes ++ (entry ++ drop (32 * j + 32) bytes)

-- What a loop does at an entry: stop, go on, or take it.
pub data Verdict : Type 0 where
  stop skip pick : Verdict

-- How the loop over a sector ends.
pub data Hit : Type 0 where
  ended : Hit
  at : ℕ → Hit
  none_here : Hit

-- The tests that the loops share.
abbrev pub is_end : List ℕ → Bool
is_end entry = get8 entry 0 == 0

abbrev pub is_deleted : List ℕ → Bool
is_deleted entry = get8 entry 0 == 0xE5

abbrev pub is_hidden : List ℕ → Bool
is_hidden entry = attr entry == fat_attr_lfn || test (attr entry) volume_id_bit

-- fat16_find_file and fat16_write_file
unfoldable pub seek : List ℕ → List ℕ → Verdict
seek name entry =
    if is_end entry
    then stop
    else if is_deleted entry || is_hidden entry
    then skip
    else if name_matches entry name
    then pick
    else skip

-- fat16_delete_file, which does not skip volume labels
unfoldable pub seek_deleted : List ℕ → List ℕ → Verdict
seek_deleted name entry =
    if is_end entry
    then stop
    else if is_deleted entry || attr entry == fat_attr_lfn
    then skip
    else if name_matches entry name
    then pick
    else skip

-- fat16_create_file
unfoldable pub seek_free : List ℕ → Verdict
seek_free entry = if is_end entry || is_deleted entry then pick else skip

abbrev pub hit_of : Verdict → ℕ → Hit → Hit
hit_of stop j rest = ended
hit_of skip j rest = rest
hit_of pick j rest = at j

-- The loop over the entries of a sector from entry `j` on, with `n` to go.
unfoldable pub scan_sector : (List ℕ → Verdict) → ℕ → ℕ → List ℕ → Hit
scan_sector judge zero j bytes = none_here
scan_sector judge (suc n) j bytes =
    hit_of (judge (entry_at bytes j)) j (scan_sector judge n (j + 1) bytes)

-- The sector and the index of the entry that was picked, or none at the end of the directory.
abbrev pub scan_next : Hit → ℕ → Call (Option (ℕ × ℕ)) → Call (Option (ℕ × ℕ))
scan_next ended i rest = pure none
scan_next (at j) i rest = pure (some (i, j))
scan_next none_here i rest = rest

-- The loop over the sectors from sector `i` on, with `n` to go.
unfoldable pub scan_root : (List ℕ → Verdict) → ℕ → ℕ → Call (Option (ℕ × ℕ))
scan_root judge zero i = pure none
scan_root judge (suc n) i = do
  start ← asks (λ s. s.fs.root_dir_start)
  load_buffer (start + i)
  bytes ← asks (λ s. s.sector_buffer)
  scan_next (scan_sector judge 16 0 bytes) i (scan_root judge n (i + 1))

abbrev pub search_root : (List ℕ → Verdict) → Call (Option (ℕ × ℕ))
search_root judge = do
  mounted ← asks (λ s. s.fs.mounted)
  guard mounted
  sectors ← asks (λ s. s.fs.root_dir_sectors)
  scan_root judge sectors 0

abbrev pub found_entry : Option (ℕ × ℕ) → Call (List ℕ)
found_entry none = fail
found_entry (some (i, j)) = asks (λ s. entry_at s.sector_buffer j)

unfoldable pub fat16_find_file : List ℕ → Call (List ℕ)
fat16_find_file name = search_root (seek name) >>= found_entry

-- The entry of a new file.
unfoldable pub new_entry : List ℕ → List ℕ
new_entry name = put8 (put_bytes (replicate 32 0) 0 (name_to_83 name)) 11 fat_attr_archive

abbrev pub fill_entry : List ℕ → Option (ℕ × ℕ) → Call (Unit {0})
fill_entry name none = fail
fill_entry name (some (i, j)) = do
  edit_buffer (λ bytes. with_entry bytes j (new_entry name))
  start ← asks (λ s. s.fs.root_dir_start)
  store_buffer (start + i)

-- The call goes on where the search has failed.
abbrev pub where_missing : Outcome (List ℕ) × Fat → Call (Unit {0}) → Outcome (Unit {0}) × Fat
where_missing (done entry, s) k = (failed, s)
where_missing (failed, s) k = k s
where_missing (crash, s) k = (crash, s)
where_missing (out_of_fuel, s) k = (out_of_fuel, s)

unfoldable pub fat16_create_file : List ℕ → Call (Unit {0})
fat16_create_file name s =
    if s.fs.mounted
    then where_missing (fat16_find_file name s) (search_root seek_free >>= fill_entry name)
    else (failed, s)

-- What fat16_list_root hands to its callback for an entry: the name, the size, and whether it is a
-- directory.
pub record Listed : Type 0 where
  pub name : List ℕ
  pub size : ℕ
  pub is_dir : Bool

abbrev pub listed : List ℕ → Listed
listed entry = record {
  name = entry_name entry;
  size = get32 entry 28;
  is_dir = test (attr entry) directory_bit;
}

-- The calls that a sector gives, and whether the directory goes on behind it.
unfoldable pub list_sector : ℕ → ℕ → List ℕ → List Listed × Bool
list_sector zero j bytes = ([], true)
list_sector (suc n) j bytes =
    let entry = entry_at bytes j in
    let (calls, more) = list_sector n (j + 1) bytes in
    if is_end entry
    then ([], false)
    else if is_deleted entry || is_hidden entry
    then (calls, more)
    else (listed entry ∷ calls, more)

abbrev pub list_next : List Listed × Bool → Call (List Listed) → Call (List Listed)
list_next (calls, false) rest = pure calls
list_next (calls, true) rest = do later ← rest; pure (calls ++ later)

unfoldable pub list_from : ℕ → ℕ → Call (List Listed)
list_from zero i = pure []
list_from (suc n) i = do
  start ← asks (λ s. s.fs.root_dir_start)
  load_buffer (start + i)
  bytes ← asks (λ s. s.sector_buffer)
  list_next (list_sector 16 0 bytes) (list_from n (i + 1))

unfoldable pub fat16_list_root : Call (List Listed)
fat16_list_root = do
  mounted ← asks (λ s. s.fs.mounted)
  guard mounted
  sectors ← asks (λ s. s.fs.root_dir_sectors)
  list_from sectors 0
