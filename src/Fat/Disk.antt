-- ===== src/Fat/Disk.antt =====
-- The state of src/fs/fat16.c, and the sectors that it reads and writes through src/drivers/ata.c.
-- A sector is the list of its bytes; a word is stored with its low byte first.
pub mod Sectors
use cgos.Base.{
  ℕ, zero, suc, ◌+◌, ◌*◌, ◌/◌, ◌%◌, ◌^◌, Bool, true, false, ◌&&◌, List, [], ◌∷◌, ltb, ◌==◌,
  if◌then◌else◌, get_or, set,
}

-- `fat16_fs_t`
pub record Fs : Type 0 where
  pub mounted : Bool
  pub drive : ℕ
  pub bytes_per_sector : ℕ
  pub sectors_per_cluster : ℕ
  pub reserved_sectors : ℕ
  pub num_fats : ℕ
  pub root_entry_count : ℕ
  pub fat_size : ℕ
  pub total_sectors : ℕ
  pub fat_start_sector : ℕ
  pub root_dir_start : ℕ
  pub root_dir_sectors : ℕ
  pub data_start_sector : ℕ
  pub total_clusters : ℕ

-- A disk: what `ata_drive_t` tells, what its sectors hold, and for which sectors the waits for it
-- end before their time is over. A transfer that is not answered leaves all as it was.
pub record Drive : Type 0 where
  pub present : Bool
  pub is_ata : Bool
  pub size_sectors : ℕ
  pub sectors : ℕ → List ℕ
  pub answers : ℕ → Bool

-- The statics of fat16.c, and the drives.
pub record Fat : Type 0 where
  pub fs : Fs
  pub sector_buffer : List ℕ
  pub fat_cache : List ℕ
  pub fat_cache_sector : ℕ
  pub drives : ℕ → Drive

-- A call ends with a result, or returns -1; it may divide by zero, and a loop run out of fuel.
pub data Outcome {ℓ} (A : Type ℓ) : Type ℓ where
  done : A → Outcome A
  failed : Outcome A
  crash : Outcome A
  out_of_fuel : Outcome A

abbrev pub Call {ℓ} : Type ℓ → Type ℓ
Call A = Fat → Outcome A × Fat

abbrev pub pure {ℓ} : {A : Type ℓ} → A → Call A
pure a s = (done a, s)

-- `return -1`
abbrev pub fail {ℓ} : {A : Type ℓ} → Call A
fail s = (failed, s)

-- The fuel of a loop is used up.
abbrev pub lost {ℓ} : {A : Type ℓ} → Call A
lost s = (out_of_fuel, s)

abbrev pub after {ℓ κ} :
    {A : Type ℓ} {B : Type κ} → Outcome A × Fat → (A → Call B) → Outcome B × Fat
after (done a, s) k = k a s
after (failed, s) k = (failed, s)
after (crash, s) k = (crash, s)
after (out_of_fuel, s) k = (out_of_fuel, s)

infixl 5 ◌>>=◌ ◌>>◌
abbrev pub ◌>>=◌ {ℓ κ} : {A : Type ℓ} {B : Type κ} → Call A → (A → Call B) → Call B
◌>>=◌ m k s = after (m s) k

abbrev pub ◌>>◌ {ℓ} : {B : Type ℓ} → Call (Unit {0}) → Call B → Call B
m >> k = m >>= λ _. k

-- A call whose error the caller does not look at.
abbrev pub settle : Outcome (Unit {0}) × Fat → Outcome (Unit {0}) × Fat
settle (failed, s) = (done tt, s)
settle (done a, s) = (done a, s)
settle (crash, s) = (crash, s)
settle (out_of_fuel, s) = (out_of_fuel, s)

abbrev pub ignoring : Call (Unit {0}) → Call (Unit {0})
ignoring m s = settle (m s)

abbrev pub asks {ℓ} : {A : Type ℓ} → (Fat → A) → Call A
asks f s = (done (f s), s)

abbrev pub modify : (Fat → Fat) → Call (Unit {0})
modify f s = (done tt, f s)

abbrev pub guard : Bool → Call (Unit {0})
guard true = pure tt
guard false = fail

-- `uint16_t` and `uint32_t` fields at a byte offset.
abbrev pub get8 : List ℕ → ℕ → ℕ
get8 bytes at = get_or bytes at 0

unfoldable pub get16 : List ℕ → ℕ → ℕ
get16 bytes at = get8 bytes at + 256 * get8 bytes (at + 1)

unfoldable pub get32 : List ℕ → ℕ → ℕ
unfolding get16
get32 bytes at = get16 bytes at + 2 ^ 16 * get16 bytes (at + 2)

abbrev pub put8 : List ℕ → ℕ → ℕ → List ℕ
put8 bytes at v = set bytes at (v % 256)

unfoldable pub put16 : List ℕ → ℕ → ℕ → List ℕ
put16 bytes at v = set (set bytes at (v % 256)) (at + 1) (v / 256 % 256)

unfoldable pub put32 : List ℕ → ℕ → ℕ → List ℕ
unfolding put16
put32 bytes at v = put16 (put16 bytes at v) (at + 2) (v / 2 ^ 16)

-- memcpy of bytes into a buffer
unfoldable pub put_bytes : List ℕ → ℕ → List ℕ → List ℕ
put_bytes bytes at [] = bytes
put_bytes bytes at (b ∷ bs) = put_bytes (put8 bytes at b) (at + 1) bs

unfoldable pub ata_drive_present : Fat → ℕ → Bool
ata_drive_present s drive = ltb drive 2 && (s.drives drive).present && (s.drives drive).is_ata

-- What a transfer of one sector needs.
abbrev pub reaches : Fat → ℕ → ℕ → Bool
unfolding ata_drive_present
reaches s drive lba = ata_drive_present s drive && (s.drives drive).answers lba

abbrev pub sector_of : Fat → ℕ → ℕ → List ℕ
sector_of s drive lba = (s.drives drive).sectors lba

unfoldable pub ata_read_sector : ℕ → ℕ → Call (List ℕ)
unfolding reaches
ata_read_sector drive lba s =
    if reaches s drive lba then (done (sector_of s drive lba), s) else (failed, s)

-- The drives after sector `lba` of one of them is written.
unfoldable pub with_sector : (ℕ → Drive) → ℕ → ℕ → List ℕ → ℕ → Drive
with_sector drives drive lba bytes d =
    if d == drive
    then record (drives d) { sectors = λ x. if x == lba then bytes else (drives d).sectors x }
    else drives d

unfoldable pub ata_write_sector : ℕ → ℕ → List ℕ → Call (Unit {0})
unfolding reaches with_sector
ata_write_sector drive lba bytes s =
    if reaches s drive lba
    then (done tt, record s { drives = with_sector s.drives drive lba bytes })
    else (failed, s)

unfoldable pub read_sector : ℕ → Call (List ℕ)
unfolding ata_read_sector
read_sector lba s = ata_read_sector s.fs.drive lba s

unfoldable pub write_sector : ℕ → List ℕ → Call (Unit {0})
unfolding ata_write_sector
write_sector lba bytes s = ata_write_sector s.fs.drive lba bytes s

-- Reads and writes by way of `sector_buffer`.
abbrev pub load_buffer : ℕ → Call (Unit {0})
load_buffer lba = do bytes ← read_sector lba; modify (λ s. record s { sector_buffer = bytes })

abbrev pub store_buffer : ℕ → Call (Unit {0})
store_buffer lba = do bytes ← asks (λ s. s.sector_buffer); write_sector lba bytes

abbrev pub edit_buffer : (List ℕ → List ℕ) → Call (Unit {0})
edit_buffer f = modify (λ s. record s { sector_buffer = f s.sector_buffer })
