-- ===== src/Fat/Volume.antt =====
-- fat16_mount, fat16_unmount and fat16_format of src/fs/fat16.c. A text is the list of its characters.
pub mod Boot
pub mod Format
pub mod Mount
use cgos.Base.{
  ℕ, zero, suc, ◌+◌, ◌-◌, ◌*◌, ◌/◌, ◌%◌, ◌^◌, Bool, true, false, not, ◌&&◌, ◌||◌, List, [], ◌∷◌,
  ◌++◌, map, ltb, leb, ◌==◌, if◌then◌else◌, take, length, replicate, Option, some, none,
}
use cgos.Fat.Disk.{
  Fs, Fat, Outcome, crash, Call, pure, fail, after, ◌>>=◌, ◌>>◌, asks, modify, guard, get8, get16,
  get32, put8, put16, put32, put_bytes, load_buffer, edit_buffer, ata_drive_present,
  ata_write_sector,
}
use cgos.Fat.Table.{no_sector}
use cgos.Fat.Name.{upper}

unfoldable pub fat16_unmount : Fat → Fat
fat16_unmount s = record s { fs = record s.fs { mounted = false }; fat_cache_sector = no_sector }

unfoldable pub fat16_is_mounted : Fat → Bool
fat16_is_mounted s = s.fs.mounted

-- Where the fields of `fat16_bpb_t` stand in the boot sector.
abbrev pub sectors_per_cluster_at : ℕ
sectors_per_cluster_at = 13

abbrev pub fat_size_at : ℕ
fat_size_at = 22

-- The values of the boot sector, and those that follow from them but for the count of clusters.
unfoldable pub geometry : List ℕ → Fs → Fs
geometry bpb fs =
    let root_dir_start : ℕ = get16 bpb 14 + get8 bpb 16 * get16 bpb fat_size_at in
    let root_dir_sectors : ℕ = (get16 bpb 17 * 32 + 511) / 512 in
    record fs {
      bytes_per_sector = get16 bpb 11;
      sectors_per_cluster = get8 bpb sectors_per_cluster_at;
      reserved_sectors = get16 bpb 14;
      num_fats = get8 bpb 16;
      root_entry_count = get16 bpb 17;
      fat_size = get16 bpb fat_size_at;
      total_sectors = if get16 bpb 19 == 0 then get32 bpb 32 else get16 bpb 19;
      fat_start_sector = get16 bpb 14;
      root_dir_start = root_dir_start;
      root_dir_sectors = root_dir_sectors;
      data_start_sector = root_dir_start + root_dir_sectors;
    }

-- The count of clusters; the division is by a number that the boot sector gives.
unfoldable pub clusters_of : Fs → ℕ
clusters_of fs =
    (fs.total_sectors + 2 ^ 32 - fs.data_start_sector) % 2 ^ 32 / fs.sectors_per_cluster

abbrev pub is_fat16 : ℕ → Bool
is_fat16 clusters = not (ltb clusters 4085 || leb 65525 clusters)

abbrev pub divide : Call (Unit {0})
divide s =
    if s.fs.sectors_per_cluster == 0
    then (crash, s)
    else pure tt (record s { fs = record s.fs { total_clusters = clusters_of s.fs } })

abbrev pub mount_from : ℕ → Call (Unit {0})
mount_from drive = do
  modify (λ s. record s { fs = record s.fs { drive = drive } })
  load_buffer 0
  bpb ← asks (λ s. s.sector_buffer)
  guard (get8 bpb 510 == 0x55 && get8 bpb 511 == 0xAA)
  guard (get16 bpb 11 == 512)
  modify (λ s. record s { fs = geometry bpb s.fs })
  divide
  clusters ← asks (λ s. s.fs.total_clusters)
  guard (is_fat16 clusters)
  modify (λ s. record s { fs = record s.fs { mounted = true }; fat_cache_sector = no_sector })

unfoldable pub fat16_mount : ℕ → Call (Unit {0})
fat16_mount drive = do
  modify (λ s. if s.fs.mounted then fat16_unmount s else s)
  present ← asks (λ s. ata_drive_present s drive)
  guard present
  mount_from drive

-- The constants of fat16_format.
abbrev pub format_sectors_per_cluster : ℕ
format_sectors_per_cluster = 4

abbrev pub format_reserved_sectors : ℕ
format_reserved_sectors = 1

abbrev pub format_num_fats : ℕ
format_num_fats = 2

abbrev pub format_root_entry_count : ℕ
format_root_entry_count = 512

abbrev pub format_root_dir_sectors : ℕ
format_root_dir_sectors = (format_root_entry_count * 32 + 511) / 512

-- The size of a table, which leaves no room for the tables themselves out, and the count of clusters.
unfoldable pub format_fat_size : ℕ → ℕ
format_fat_size total_sectors =
    let data_sectors : ℕ = total_sectors - format_reserved_sectors - format_root_dir_sectors in
    (data_sectors / format_sectors_per_cluster * 2 + 511) / 512 % 2 ^ 16

unfoldable pub format_clusters : ℕ → ℕ
unfolding format_fat_size
format_clusters total_sectors =
    let used : ℕ =
      format_reserved_sectors
      + format_num_fats * format_fat_size total_sectors
      + format_root_dir_sectors in
    (total_sectors + 2 ^ 32 - used) % 2 ^ 32 / format_sectors_per_cluster

abbrev pub spaces : ℕ → List ℕ
spaces n = replicate n b' '

-- The characters of a label that are copied.
abbrev pub label_chars : List ℕ → List ℕ
label_chars label = map upper (take 11 label)

abbrev pub label_bytes : Option (List ℕ) → List ℕ
label_bytes none = b'N' ∷ b'O' ∷ b' ' ∷ b'N' ∷ b'A' ∷ b'M' ∷ b'E' ∷ b' ' ∷ b' ' ∷ b' ' ∷ b' ' ∷ []
label_bytes (some label) = label_chars label ++ spaces (11 - length (label_chars label))

abbrev pub zero_sector : List ℕ
zero_sector = replicate 512 0

-- The numbers of the boot sector of a new volume, in the order in which they are stored.
unfoldable pub bpb_numbers : ℕ → ℕ → List ℕ
bpb_numbers total_sectors fat_size =
    let jump = put_bytes zero_sector 0 (0xEB ∷ 0x3C ∷ 0x90 ∷ []) in
    let oem = put_bytes jump 3 (b'C' ∷ b'G' ∷ b'O' ∷ b'S' ∷ b' ' ∷ b' ' ∷ b' ' ∷ b' ' ∷ []) in
    let a = put8 (put16 oem 11 512) sectors_per_cluster_at format_sectors_per_cluster in
    let b = put8 (put16 a 14 format_reserved_sectors) 16 format_num_fats in
    let c = put16 b 17 format_root_entry_count in
    let d = put16 c 19 (if leb total_sectors 65535 then total_sectors else 0) in
    let e = put32 d 32 (if ltb 65535 total_sectors then total_sectors else 0) in
    let f = put16 (put8 e 21 0xF8) fat_size_at fat_size in
    let g = put32 (put16 (put16 f 24 63) 26 16) 28 0 in
    put32 (put8 (put8 g 36 0x80) 38 0x29) 39 0x12345678

-- The boot sector: the numbers, the label, the type and the signature.
unfoldable pub boot_sector : ℕ → ℕ → Option (List ℕ) → List ℕ
boot_sector total_sectors fat_size label =
    let named = put_bytes (bpb_numbers total_sectors fat_size) 43 (label_bytes label) in
    let typed = put_bytes named 54 (b'F' ∷ b'A' ∷ b'T' ∷ b'1' ∷ b'6' ∷ b' ' ∷ b' ' ∷ b' ' ∷ []) in
    put8 (put8 typed 510 0x55) 511 0xAA

-- A write of `sector_buffer` to the drive that is formatted.
abbrev pub store_to : ℕ → ℕ → Call (Unit {0})
store_to drive lba = do bytes ← asks (λ s. s.sector_buffer); ata_write_sector drive lba bytes

-- The loops that write the buffer to `n` sectors from one on.
unfoldable pub fill_sectors : ℕ → ℕ → ℕ → Call (Unit {0})
fill_sectors zero drive lba = pure tt
fill_sectors (suc n) drive lba = store_to drive lba >> fill_sectors n drive (lba + 1)

-- The loop over the copies of the table, from copy `f` on.
unfoldable pub format_fats : ℕ → ℕ → ℕ → ℕ → Call (Unit {0})
format_fats zero f drive fat_size = pure tt
format_fats (suc n) f drive fat_size = do
  store_to drive (format_reserved_sectors + f * fat_size)
  edit_buffer (λ _. zero_sector)
  fill_sectors (fat_size - 1) drive (format_reserved_sectors + f * fat_size + 1)
  format_fats n (f + 1) drive fat_size

-- The directory entry of the label: three spaces go over what the label has put into the extension.
abbrev pub label_entry : List ℕ → List ℕ → List ℕ
label_entry label bytes =
    let chars = label_chars label in
    let blank = put_bytes bytes 0 (replicate 32 0) in
    let named = put_bytes (put_bytes blank 0 chars) (length chars) (spaces (8 - length chars)) in
    put8 (put_bytes named 8 (spaces 3)) 11 0x08

abbrev pub format_label : Option (List ℕ) → ℕ → ℕ → Call (Unit {0})
format_label none drive root_start = pure tt
format_label (some label) drive root_start =
    edit_buffer (label_entry label) >> store_to drive root_start

unfoldable pub fat16_format : ℕ → Option (List ℕ) → Call (Unit {0})
fat16_format drive label = do
  present ← asks (λ s. ata_drive_present s drive)
  guard present
  total_sectors ← asks (λ s. (s.drives drive).size_sectors)
  guard (leb 8192 total_sectors && is_fat16 (format_clusters total_sectors))
  edit_buffer (λ _. boot_sector total_sectors (format_fat_size total_sectors) label)
  store_to drive 0
  edit_buffer (λ _. put16 (put16 zero_sector 0 0xFFF8) 2 0xFFFF)
  format_fats format_num_fats 0 drive (format_fat_size total_sectors)
  edit_buffer (λ _. zero_sector)
  fill_sectors format_root_dir_sectors drive
      (format_reserved_sectors + format_num_fats * format_fat_size total_sectors)
  format_label label drive
      (format_reserved_sectors + format_num_fats * format_fat_size total_sectors)
