-- ===== src/Fat/Volume/Boot.antt =====
-- The boot sector that fat16_format of src/fs/fat16.c builds, as fat16_mount reads it.
use cgos.Base.{
  ℕ, ◌+◌, ◌*◌, ◌/◌, ◌%◌, ◌^◌, ◌<◌, ◌≡◌, refl, ◌∙◌, List, [], ◌∷◌, ltb, leb, ◌==◌, if◌then◌else◌,
  length, Option, arith, set, get_or-set_ne, get_or-set_self, length-set,
}
use cgos.Fat.Disk.{Fs, get8, get16, get32, put8, put16, put32, put_bytes}
use cgos.Fat.Volume.{geometry, boot_sector, bpb_numbers, label_bytes}

put_bytes-below :
    (bs bytes : List ℕ) (at i : ℕ) → i < at → get8 (put_bytes bytes at bs) i ≡ get8 bytes i
unfolding put_bytes
put_bytes-below [] bytes at i h = refl
put_bytes-below (b ∷ bs) bytes at i h =
    put_bytes-below bs (put8 bytes at b) (at + 1) i (omega arith)
    ∙ get_or-set_ne bytes at i (b % 256) 0 (λ e. omega (arith, e))

length-put_bytes : (bs bytes : List ℕ) (at : ℕ) → length (put_bytes bytes at bs) ≡ length bytes
unfolding put_bytes
length-put_bytes [] bytes at = refl
length-put_bytes (b ∷ bs) bytes at =
    length-put_bytes bs (put8 bytes at b) (at + 1) ∙ length-set bytes at (b % 256)

word : (v : ℕ) → v < 2 ^ 16 → v % 256 + 256 * (v / 256 % 256) ≡ v
word v h = omega arith

long_word :
    (v : ℕ)
    → v < 2 ^ 32
    → v % 256 + 256 * (v / 256 % 256) + 2 ^ 16 * (v / 2 ^ 16 % 256 + 256 * (v / 2 ^ 16 / 256 % 256))
      ≡ v
long_word v h = omega arith

module _ (total_sectors fat_size : ℕ) (label : Option (List ℕ)) where
  abbrev boot : List ℕ
  boot = boot_sector total_sectors fat_size label

  -- The label, the type and the signature stand behind the numbers.
  boot-below : (i : ℕ) → i < 43 → get8 boot i ≡ get8 (bpb_numbers total_sectors fat_size) i
  unfolding boot_sector
  boot-below i h =
      get_or-set_ne _ 511 i 0xAA 0 (λ e. omega (arith, e))
      ∙ get_or-set_ne _ 510 i 0x55 0 (λ e. omega (arith, e))
      ∙ put_bytes-below _ _ 54 i (omega arith)
      ∙ put_bytes-below (label_bytes label) (bpb_numbers total_sectors fat_size) 43 i h

  length-numbers : length (bpb_numbers total_sectors fat_size) ≡ 512
  unfolding bpb_numbers put16 put32 put_bytes
  length-numbers = refl

  -- A word of the boot sector is that of the numbers.
  boot16 : (i : ℕ) → i < 42 → get16 boot i ≡ get16 (bpb_numbers total_sectors fat_size) i
  unfolding get16
  boot16 i h = rw (boot-below i (omega arith), boot-below (i + 1) (omega arith))

  boot32 : get32 boot 32 ≡ get32 (bpb_numbers total_sectors fat_size) 32
  unfolding get32
  boot32 = rw (boot16 32 (omega arith), boot16 34 (omega arith))

  pub signature : (get8 boot 510 ≡ 0x55) × (get8 boot 511 ≡ 0xAA)
  unfolding boot_sector
  signature =
      let named = put_bytes (bpb_numbers total_sectors fat_size) 43 (label_bytes label) in
      let fs_type = b'F' ∷ b'A' ∷ b'T' ∷ b'1' ∷ b'6' ∷ b' ' ∷ b' ' ∷ b' ' ∷ [] in
      let typed = put_bytes named 54 fs_type in
      let long : length typed ≡ 512 =
        length-put_bytes fs_type named 54
        ∙ length-put_bytes (label_bytes label) (bpb_numbers total_sectors fat_size) 43
        ∙ length-numbers in
      (
        get_or-set_ne (set typed 510 0x55) 511 510 0xAA 0 (λ e. omega (arith, e))
            ∙ get_or-set_self typed 510 0x55 0 (omega (arith, long)),
        get_or-set_self (set typed 510 0x55) 511 0xAA 0
            (omega (arith, long, length-set typed 510 0x55)),
      )

  pub fixed :
      (get16 boot 11 ≡ 512)
      × (get8 boot 13 ≡ 4)
      × (get16 boot 14 ≡ 1)
      × (get8 boot 16 ≡ 2)
      × (get16 boot 17 ≡ 512)
  unfolding bpb_numbers put16 put32 put_bytes get16
  fixed = (
    boot16 11 (omega arith),
    boot-below 13 (omega arith),
    boot16 14 (omega arith),
    boot-below 16 (omega arith),
    boot16 17 (omega arith),
  )

  module _ (wide : total_sectors < 2 ^ 32) (narrow : fat_size < 2 ^ 16) where
    boot_fat_size : get16 boot 22 ≡ fat_size
    unfolding bpb_numbers put16 put32 put_bytes get16
    boot_fat_size = boot16 22 (omega arith) ∙ omega arith

    small_total : get16 boot 19 ≡ (if leb total_sectors 65535 then total_sectors else 0)
    unfolding bpb_numbers put16 put32 put_bytes get16
    small_total =
        boot16 19 (omega arith)
        ∙ word (if leb total_sectors 65535 then total_sectors else 0) (ground arith)

    large_total : get32 boot 32 ≡ (if ltb 65535 total_sectors then total_sectors else 0)
    unfolding bpb_numbers put16 put32 put_bytes get16 get32
    large_total =
        boot32 ∙ long_word (if ltb 65535 total_sectors then total_sectors else 0) (ground arith)

    boot_total : (if get16 boot 19 == 0 then get32 boot 32 else get16 boot 19) ≡ total_sectors
    boot_total = rw (small_total, large_total) (ground arith)

-- The state's fields for a volume of that size.
abbrev pub laid_out : Fs → ℕ → ℕ → Fs
laid_out fs total_sectors fat_size = record fs {
  bytes_per_sector = 512;
  sectors_per_cluster = 4;
  reserved_sectors = 1;
  num_fats = 2;
  root_entry_count = 512;
  fat_size = fat_size;
  total_sectors = total_sectors;
  fat_start_sector = 1;
  root_dir_start = 1 + 2 * fat_size;
  root_dir_sectors = 32;
  data_start_sector = 1 + 2 * fat_size + 32;
}

pub geometry-boot :
    (fs : Fs) (total_sectors fat_size : ℕ) (label : Option (List ℕ))
    → total_sectors < 2 ^ 32
    → fat_size < 2 ^ 16
    → geometry (boot_sector total_sectors fat_size label) fs ≡ laid_out fs total_sectors fat_size
unfolding geometry
geometry-boot fs total fat_size label wide narrow = rw (
  boot_fat_size total fat_size label wide narrow,
  boot_total total fat_size label wide narrow,
  (fixed total fat_size label).0,
  (fixed total fat_size label).1,
  (fixed total fat_size label).2,
  (fixed total fat_size label).3,
  (fixed total fat_size label).4,
)
