-- ===== src/Fat/Disk/Sectors.antt =====
-- What transfers do on a disk that answers, and words in a buffer.
use cgos.Base.{
  ℕ, ◌+◌, ◌/◌, ◌%◌, ◌^◌, ◌<◌, ◌≡◌, refl, ◌∙◌, ◌≢◌, true, List, ◌==◌, if◌then◌else◌, get_or, set,
  length, arith, length-set, get_or-set_self, get_or-set_ne, ◌⊎◌, inl, inr, Bool-cases, ==_iff,
}
use cgos.Fat.Disk.{
  Fat, done, sector_of, reaches, with_sector, ata_drive_present, read_sector, write_sector, get16,
  put16, load_buffer, store_buffer,
}

-- Sector `lba` of the mounted drive.
abbrev pub sector : Fat → ℕ → List ℕ
sector s lba = sector_of s s.fs.drive lba

-- The state with other bytes in a sector of the mounted drive.
unfoldable pub put_sector : Fat → ℕ → List ℕ → Fat
put_sector s lba bytes = record s { drives = with_sector s.drives s.fs.drive lba bytes }

-- Whether every sector of the mounted drive answers.
abbrev pub Answers : Fat → Type 0
Answers s = (lba : ℕ) → reaches s s.fs.drive lba ≡ true

-- Whether every sector of the mounted drive has 512 bytes.
abbrev pub AreSized : Fat → Type 0
AreSized s = (lba : ℕ) → length (sector s lba) ≡ 512

pub read_sector-done :
    (s : Fat) (lba : ℕ) → Answers s → read_sector lba s ≡ (done (sector s lba), s)
unfolding read_sector
read_sector-done s lba h = rw (h lba)

pub write_sector-done :
    (s : Fat) (lba : ℕ) (bytes : List ℕ)
    → Answers s
    → write_sector lba bytes s ≡ (done tt, put_sector s lba bytes)
unfolding write_sector put_sector
write_sector-done s lba bytes h = rw (h lba)

pub load_buffer-done :
    (s : Fat) (lba : ℕ)
    → Answers s
    → load_buffer lba s ≡ (done tt, record s { sector_buffer = sector s lba })
load_buffer-done s lba h = rw (read_sector-done s lba h)

pub store_buffer-done :
    (s : Fat) (lba : ℕ)
    → Answers s
    → store_buffer lba s ≡ (done tt, put_sector s lba s.sector_buffer)
store_buffer-done s lba h = write_sector-done s lba s.sector_buffer h

pub sector-put_sector :
    (s : Fat) (lba : ℕ) (bytes : List ℕ) (x : ℕ)
    → sector (put_sector s lba bytes) x ≡ (if x == lba then bytes else sector s x)
unfolding put_sector with_sector
sector-put_sector s lba bytes x = ground arith

pub Answers-put_sector :
    (s : Fat) (lba : ℕ) (bytes : List ℕ) → Answers s → Answers (put_sector s lba bytes)
unfolding put_sector with_sector ata_drive_present
Answers-put_sector s lba bytes h x = rw ((==_iff s.fs.drive s.fs.drive).1 refl) (h x)

pub AreSized-put_sector :
    (s : Fat) (lba : ℕ) (bytes : List ℕ)
    → length bytes ≡ 512
    → AreSized s
    → AreSized (put_sector s lba bytes)
AreSized-put_sector s lba bytes e h x = elim (Bool-cases (x == lba)) [
  | inl here ↦ rw (sector-put_sector s lba bytes x, here) e
  | inr there ↦ rw (sector-put_sector s lba bytes x, there) (h x)
]

-- Words in a buffer.
pub length-put16 : (bytes : List ℕ) (at v : ℕ) → length (put16 bytes at v) ≡ length bytes
unfolding put16
length-put16 bytes at v =
    length-set (set bytes at (v % 256)) (at + 1) (v / 256 % 256) ∙ length-set bytes at (v % 256)

pub get16-put16_self :
    (bytes : List ℕ) (at v : ℕ)
    → at + 1 < length bytes
    → v < 2 ^ 16
    → get16 (put16 bytes at v) at ≡ v
unfolding get16 put16
get16-put16_self bytes at v room small =
    let low = set bytes at (v % 256) in
    let long = length-set bytes at (v % 256) in
    let a =
      get_or-set_ne low (at + 1) at (v / 256 % 256) 0 (λ e. omega (arith, e))
      ∙ get_or-set_self bytes at (v % 256) 0 (omega arith) in
    let b = get_or-set_self low (at + 1) (v / 256 % 256) 0 (omega (arith, long)) in
    rw (a, b) (omega arith)

pub get16-put16_ne :
    (bytes : List ℕ) (at v x : ℕ)
    → (x + 1 < at) ⊎ (at + 1 < x)
    → get16 (put16 bytes at v) x ≡ get16 bytes x
unfolding get16 put16
get16-put16_ne bytes at v x apart =
    let low = set bytes at (v % 256) in
    let skip : (y : ℕ)
        → at ≢ y
        → at + 1 ≢ y
        → get_or (set low (at + 1) (v / 256 % 256)) y 0 ≡ get_or bytes y 0 =
      λ y p q.
        get_or-set_ne low (at + 1) y (v / 256 % 256) 0 q ∙ get_or-set_ne bytes at y (v % 256) 0 p in
    rw (
      skip x (λ e. ground arith) (λ e. ground arith),
      skip (x + 1) (λ e. ground arith) (λ e. ground arith),
    )
