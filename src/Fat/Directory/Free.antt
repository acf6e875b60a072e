-- ===== src/Fat/Directory/Free.antt =====
-- What the search for a free entry in src/fs/fat16.c finds.
use cgos.Base.{
  ℕ, zero, suc, ◌+◌, ◌<◌, ◌≤◌, ◌≡◌, ap, ◌∙◌, ◌≢◌, List, ◌==◌, some, none, arith, Bool-cases, inl,
  inr, ◌⊎◌,
}
use cgos.Fat.Disk.{get8}
use cgos.Fat.Directory.{
  entry_at, Verdict, stop, skip, pick, Hit, ended, at, none_here, scan_sector, seek_free,
}
use cgos.Fat.Directory.Scan.{Ends, scan_sector-Ends, next_of, find_in}

-- An entry that was never used, or whose file was deleted.
abbrev pub IsFree : List ℕ → Type 0
IsFree entry = (get8 entry 0 ≡ 0) ⊎ (get8 entry 0 ≡ 0xE5)

pub seek_free-IsFree : (entry : List ℕ) → seek_free entry ≡ pick → IsFree entry
unfolding seek_free
seek_free-IsFree entry e = elim (Bool-cases (get8 entry 0 == 0)) [
  | inl z ↦ inl (ground arith)
  | inr z ↦ inr (ground arith)
]

pub seek_free-used : (entry : List ℕ) → seek_free entry ≡ skip → ¬ IsFree entry
unfolding seek_free
seek_free-used entry e (inl z) = ground arith
seek_free-used entry e (inr z) = ground arith

-- The entry that a search finds is one that it takes.
pub find_in-pick :
    (judge : List ℕ → Verdict) (n i : ℕ) (dir : ℕ → List ℕ) (k j : ℕ)
    → find_in judge n i dir ≡ some (k, j)
    → judge (entry_at (dir k) j) ≡ pick
unfolding find_in
find_in-pick judge zero i dir k j e = absurd (cc)
find_in-pick judge (suc n) i dir k j e =
    by_hit (scan_sector judge 16 0 (dir i)) (scan_sector-Ends judge (dir i) 16 0)
      (find_in-pick judge n (i + 1) dir k j) e
  where
    by_hit :
        (hit : Hit)
        → Ends judge (dir i) 0 16 hit
        → (find_in judge n (i + 1) dir ≡ some (k, j) → judge (entry_at (dir k) j) ≡ pick)
        → next_of hit i (find_in judge n (i + 1) dir) ≡ some (k, j)
        → judge (entry_at (dir k) j) ≡ pick
    by_hit ended h ih e = absurd (cc)
    by_hit (at m) h ih e = let here : i ≡ k = cc in let there : m ≡ j = cc in let picked = h.2 in cc
    by_hit none_here h ih e = ih e

-- A search that never stops early and finds nothing has passed over every entry.
pub find_in-skips :
    (judge : List ℕ → Verdict) (never : (e : List ℕ) → judge e ≢ stop) (n i : ℕ) (dir : ℕ → List ℕ)
    → find_in judge n i dir ≡ none
    → (k j : ℕ) → i ≤ k
    → k < i + n
    → j < 16
    → judge (entry_at (dir k) j) ≡ skip
unfolding find_in
find_in-skips judge never zero i dir e k j p q r = absurd (omega arith)
find_in-skips judge never (suc n) i dir e k j p q r =
    by_hit (scan_sector judge 16 0 (dir i)) (scan_sector-Ends judge (dir i) 16 0)
      (λ e' p'. find_in-skips judge never n (i + 1) dir e' k j p' (omega arith) r) e
  where
    by_hit :
        (hit : Hit)
        → Ends judge (dir i) 0 16 hit
        → (find_in judge n (i + 1) dir ≡ none → i + 1 ≤ k → judge (entry_at (dir k) j) ≡ skip)
        → next_of hit i (find_in judge n (i + 1) dir) ≡ none
        → judge (entry_at (dir k) j) ≡ skip
    by_hit ended (m, _, _, stops, _) ih e = absurd (never (entry_at (dir i) m) stops)
    by_hit (at m) h ih e = absurd (cc)
    by_hit none_here skipped ih e = elim (Bool-cases (k == i)) [
      | inl here ↦
          let same : k ≡ i = ground arith in
          ap (λ (x : ℕ). judge (entry_at (dir x) j)) same ∙ skipped j (omega arith) (omega arith)
      | inr later ↦ ih e (ground arith)
    ]
