-- ===== src/Fat/Directory/Create.antt =====
-- fat16_create_file and fat16_find_file of src/fs/fat16.c: a file that is created is found.
use cgos.Base.{ℕ, ◌+◌, ◌<◌, ◌≡◌, ◌≢◌, true, List, some, none, ◌⊎◌}
use cgos.Fat.Disk.{Fat, Outcome, done, failed, get8}
use cgos.Fat.Disk.Sectors.{put_sector, Answers, AreSized}
use cgos.Fat.Name.Layout.{IsName, name_text, laid_out}
use cgos.Fat.Directory.{entry_at, with_entry, seek, new_entry, fat16_find_file}
use cgos.Fat.Directory.Scan.{root_dir}
use cgos.Fat.Directory.Find.{find_name, find_free, with_buffer, buffer_after}
use cgos.Fat.Directory.Free.{IsFree}

-- The sector with the new entry, and the state with it.
abbrev pub new_sector : List ℕ → Fat → ℕ → ℕ → List ℕ
new_sector name s k j = with_entry (root_dir s k) j (new_entry name)

abbrev pub created : List ℕ → Fat → ℕ → ℕ → Fat
created name s k j =
    put_sector (with_buffer s (new_sector name s k j)) (s.fs.root_dir_start + k)
      (new_sector name s k j)

module _ (name : List ℕ) (s : Fat) (answers : Answers s) (mounted : s.fs.mounted ≡ true) where
  searched : Fat
  searched = with_buffer s (buffer_after s answers mounted (seek name))

module _ (base ext : List ℕ) (s : Fat) (h : IsName base ext)
    (first : get8 (laid_out base ext) 0 ≢ 0xE5) (answers : Answers s) (sized : AreSized s)
    (mounted : s.fs.mounted ≡ true) (k j : ℕ) (missing : find_name (name_text base ext) s ≡ none)
    (free : find_free s ≡ some (k, j)) where
  abbrev name : List ℕ
  name = name_text base ext

-- The three outcomes of fat16_create_file: the file is there, every entry of the directory is in
-- use, or the file is made in an entry that was free.
abbrev pub IsCreated : List ℕ → Fat → Outcome (Unit {0}) × Fat → Type 0
IsCreated name s r =
    ((e : List ℕ) × ((fat16_find_file name s).0 ≡ done e) × (r.0 ≡ failed))
    ⊎ (((fat16_find_file name s).0 ≡ failed)
        × ((k j : ℕ) → k < s.fs.root_dir_sectors → j < 16 → ¬ IsFree (entry_at (root_dir s k) j))
        × (r.0 ≡ failed))
    ⊎ ((k : ℕ) × (j : ℕ) × ((fat16_find_file name s).0 ≡ failed)
        × (k < s.fs.root_dir_sectors)
        × (j < 16)
        × IsFree (entry_at (root_dir s k) j)
        × (r.0 ≡ done tt)
        × ((fat16_find_file name r.1).0 ≡ done (new_entry name))
        × (root_dir r.1 k ≡ with_entry (root_dir s k) j (new_entry name))
        × ((i : ℕ) → i ≢ k → root_dir r.1 i ≡ root_dir s i))
