-- ===== src/Fat/Directory/Find.antt =====
-- fat16_find_file of src/fs/fat16.c as a search of the root directory.
use cgos.Base.{ℕ, ◌≡◌, refl, ap, ◌∙◌, true, List, Option, some, none}
use cgos.Fat.Disk.{Fat, Outcome, after, guard, done, failed}
use cgos.Fat.Disk.Sectors.{Answers}
use cgos.Fat.Directory.{
  entry_at, seek, seek_free, fat16_find_file, found_entry, Verdict, search_root, scan_root,
}
use cgos.Fat.Directory.Scan.{find_in, last_read, root_dir, scan_root-done, last_read-some}

-- fat16_find_file as a search of the directory.
abbrev pub outcome_of : (ℕ → List ℕ) → Option (ℕ × ℕ) → Outcome (List ℕ)
outcome_of dir none = failed
outcome_of dir (some (k, j)) = done (entry_at (dir k) j)

abbrev pub find_name : List ℕ → Fat → Option (ℕ × ℕ)
find_name name s = find_in (seek name) s.fs.root_dir_sectors 0 (root_dir s)

abbrev pub find_free : Fat → Option (ℕ × ℕ)
find_free s = find_in seek_free s.fs.root_dir_sectors 0 (root_dir s)

abbrev pub with_buffer : Fat → List ℕ → Fat
with_buffer s bytes = record s { sector_buffer = bytes }

found_step :
    (s : Fat) (r : Option (ℕ × ℕ)) (bytes : List ℕ)
    → ((k j : ℕ) → r ≡ some (k, j) → bytes ≡ root_dir s k)
    → found_entry r (with_buffer s bytes) ≡ (outcome_of (root_dir s) r, with_buffer s bytes)
found_step s none bytes h = refl
found_step s (some (k, j)) bytes h = λ i. (done (entry_at (h k j refl i) j), with_buffer s bytes)

-- The search of a mounted volume.
pub search_root-done :
    (judge : List ℕ → Verdict) (s : Fat)
    → Answers s
    → s.fs.mounted ≡ true
    → search_root judge s ≡ (
      done (find_in judge s.fs.root_dir_sectors 0 (root_dir s)),
      with_buffer s (last_read judge s.fs.root_dir_sectors 0 (root_dir s) s.sector_buffer),
    )
search_root-done judge s answers mounted =
    ap (λ b. after (guard b s) (λ _ s'. scan_root judge s'.fs.root_dir_sectors 0 s')) mounted
    ∙ scan_root-done judge s.fs.root_dir_sectors 0 s answers

module _ (s : Fat) (answers : Answers s) (mounted : s.fs.mounted ≡ true) where
  pub buffer_after : (List ℕ → Verdict) → List ℕ
  buffer_after judge = last_read judge s.fs.root_dir_sectors 0 (root_dir s) s.sector_buffer

  pub find_file-done :
      (name : List ℕ)
      → fat16_find_file name s
        ≡ (outcome_of (root_dir s) (find_name name s), with_buffer s (buffer_after (seek name)))
  unfolding fat16_find_file buffer_after
  find_file-done name = rw (search_root-done (seek name) s answers mounted) (
      found_step s (find_name name s) _
        (last_read-some (seek name) s.fs.root_dir_sectors 0 (root_dir s) s.sector_buffer))
