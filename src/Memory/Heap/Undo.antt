-- ===== src/Memory/Heap/Undo.antt =====
-- free of a fresh allocation undoes malloc.
use cgos.Base.{
  ℕ, ◌+◌, ◌*◌, ◌^◌, ◌<◌, ◌≡◌, ◌≢◌, refl, ap, ◌∙◌, true, false, not, ◌&&◌, Bool-cases, inl, inr,
  arith, ltb, ◌==◌, ==_iff, if◌then◌else◌,
}
use cgos.Memory.Bitmap.{block_size, word_mod, wrap, bitmap_alloc_blocks}
use cgos.Memory.Bitmap.Valid.{IsValid}
use cgos.Memory.Bitmap.Claim.{Outcome, taken, refused, alloc_blocks-Outcome}
use cgos.Memory.Pmm.{
  Pmm, less_used, physical_alloc_pages, physical_free_pages, physical_get_free_memory,
}
use cgos.Memory.Pmm.Pages.{pages_taken, pages_refused, free_pages-alloc_pages}
use cgos.Memory.Heap.{
  Heap, Header, store, store_prev, allocation_magic, min_allocation_size, header_size, header_of,
  pages_needed, pages_for, link_header, unlink_header, malloc, free_at, free,
}

-- The size that malloc stores.
abbrev pub rounded : ℕ → ℕ
rounded size = if ltb size min_allocation_size then min_allocation_size else size

-- The heap after the header at `a` and its `n` pages are released.
freed : Heap → ℕ → ℕ → Heap
freed g a n =
    let h' : Heap = unlink_header g a in
    record h' {
      pmm = physical_free_pages h'.pmm a n;
      total_allocated = less_used h'.total_allocated (wrap (n * 4096));
      allocation_count = less_used h'.allocation_count 1;
    }

free_test :
    (g : Heap) (ptr : ℕ)
    → (ptr == 0) ≡ false
    → ((g.headers (header_of ptr)).magic == allocation_magic) ≡ true
    → free g ptr ≡ free_at g (header_of ptr)
unfolding free
free_test g ptr e m = rw (e, m) refl

free-freed :
    (g : Heap) (ptr a n : ℕ)
    → ptr ≢ 0
    → header_of ptr ≡ a
    → (g.headers a).magic ≡ allocation_magic
    → pages_for (g.headers a).size ≡ n
    → free g ptr ≡ freed g a n
unfolding free_at freed
free-freed g ptr a n ne at own pages =
    let nonzero : (ptr == 0) ≡ false = ground arith in
    let magic : (g.headers (header_of ptr)).magic ≡ allocation_magic =
      ap (λ (x : ℕ). (g.headers x).magic) at ∙ own in
    let m : ((g.headers (header_of ptr)).magic == allocation_magic) ≡ true = (==_iff _ _).1 magic in
    free_test g ptr nonzero m ∙ ap (free_at g) at ∙ ap (freed g a) pages

-- What a header that leaves the list at its head does to the others.
unlinked :
    (g : Heap) (a x : ℕ)
    → (g.headers a).prev ≡ 0
    → x ≢ a
    → (unlink_header g a).headers x ≡ store_prev g.headers (g.headers a).next 0 x
unfolding unlink_header
unlinked g a x e ne =
    let z : ((g.headers a).prev == 0) ≡ true = ground arith in
    let other : (a == x) ≡ false = ground arith in rw (z, other, e) refl

-- A header that is put before the list and taken off again.
relinked :
    (headers : ℕ → Header) (list a x : ℕ) (own : Header)
    → list ≢ a
    → x ≢ a
    → store_prev (store_prev (store headers a own) list a) list 0 x
      ≡ (if not (list == 0) && (x == list) then record (headers x) { prev = 0 } else headers x)
relinked headers list a x own other ne =
    let not_new : (a == x) ≡ false = ground arith in
    let not_list : (a == list) ≡ false = ground arith in
    elim (Bool-cases (list == 0)) [
      | inl z ↦ rw (z, not_new) refl
      | inr z ↦ elim (Bool-cases (list == x)) [
        | inl e ↦
            let same : (x == list) ≡ true = ground arith in
            let same' : x ≡ list = ground arith in
            rw (z, e, same, not_list, same', (==_iff list list).1 refl) refl
        | inr e ↦ let differ : (x == list) ≡ false = ground arith in rw (z, e, differ, not_new) refl
      ]
    ]

less_back : (t n : ℕ) → t + n < word_mod → less_used (wrap (t + wrap n)) (wrap n) ≡ t
unfolding less_used
less_back t n room =
    let small : wrap n ≡ n = omega arith in
    let fits : wrap (t + n) ≡ t + n = omega arith in rw (small, fits) (ground arith)

module _ (h : Heap) (size : ℕ) (v : IsValid h.pmm.phys_mem) (based : 0 < h.pmm.phys_mem.memory_base)
    (small : size < 2 ^ 62) where
  abbrev count : ℕ
  count = pages_for (rounded size)

  count-pos : 0 < count
  unfolding pages_needed
  count-pos = ground arith

  abbrev at_page : ℕ
  at_page = (physical_alloc_pages h.pmm count).0

  page_bound :
      h.pmm.used_memory + count * block_size < word_mod
      → at_page ≢ 0
      → at_page + header_size < word_mod
  page_bound room ne = go (alloc_blocks-Outcome v count count-pos)
    where
      go :
          Outcome h.pmm.phys_mem count (bitmap_alloc_blocks h.pmm.phys_mem count)
          → at_page + header_size < word_mod
      go (taken s le f e) =
          let p = ap (λ (r : ℕ × Pmm). r.0) (pages_taken h.pmm v count count-pos s based e room) in
          let b = v.based in let c = count-pos in omega (arith, p, b, c)
      go (refused no_run e) =
          absurd (ne (ap (λ (r : ℕ × Pmm). r.0) (pages_refused h.pmm v count count-pos e)))

  -- The state after malloc.
  abbrev allocated : Heap
  allocated = link_header h (physical_alloc_pages h.pmm count).1 at_page (rounded size)

  malloc_ok :
      0 < size
      → at_page ≢ 0
      → at_page + header_size < word_mod
      → malloc h size ≡ (at_page + header_size, allocated)
  unfolding malloc
  malloc_ok pos ne below =
      let n : (size == 0) ≡ false = ground arith in
      let m : (at_page == 0) ≡ false = ground arith in
      let w : wrap (at_page + header_size) ≡ at_page + header_size = omega arith in
      rw (n, m, w) refl

  header_back : at_page + header_size < word_mod → header_of (at_page + header_size) ≡ at_page
  header_back below = omega arith

  -- What free reads and writes there.
  own_header :
      h.allocation_list ≢ at_page
      → (((allocated.headers at_page).size ≡ rounded size)
          × ((allocated.headers at_page).magic ≡ allocation_magic))
        × (((allocated.headers at_page).prev ≡ 0)
            × ((allocated.headers at_page).next ≡ h.allocation_list))
  unfolding link_header
  own_header other = ((ground arith, ground arith), (ground arith, ground arith))

  pages_back : h.allocation_list ≢ at_page → pages_for (allocated.headers at_page).size ≡ count
  pages_back other = ap pages_for (own_header other).0.0

  free_ok :
      h.allocation_list ≢ at_page
      → at_page ≢ 0
      → at_page + header_size < word_mod
      → free allocated (at_page + header_size) ≡ freed allocated at_page count
  free_ok other ne below =
      free-freed allocated (at_page + header_size) at_page count (ground arith) (header_back below)
        (own_header other).0.1 (pages_back other)

  list_back :
      h.allocation_list ≢ at_page
      → (freed allocated at_page count).allocation_list ≡ h.allocation_list
  unfolding freed unlink_header
  list_back other = let own = (own_header other).1 in let p = own.0 in rw p own.1

  -- The headers elsewhere: the first of the list has lost its link to the one before it.
  headers_back :
      (x : ℕ)
      → h.allocation_list ≢ at_page
      → x ≢ at_page
      → (freed allocated at_page count).headers x ≡ (
          if not (h.allocation_list == 0) && (x == h.allocation_list)
          then record (h.headers x) { prev = 0 }
          else h.headers x)
  unfolding freed link_header
  headers_back x other ne =
      let own = (own_header other).1 in
      unlinked allocated at_page x own.0 ne
      ∙ ap (λ (l : ℕ). store_prev allocated.headers l 0 x) own.1
      ∙ relinked h.headers h.allocation_list at_page x _ other ne

  pmm_back :
      (freed allocated at_page count).pmm
      ≡ physical_free_pages (physical_alloc_pages h.pmm count).1 at_page count
  unfolding freed unlink_header link_header
  pmm_back = refl

  counts_back :
      h.total_allocated + count * 4096 < word_mod
      → h.allocation_count + 1 < word_mod
      → ((freed allocated at_page count).total_allocated ≡ h.total_allocated)
        × ((freed allocated at_page count).allocation_count ≡ h.allocation_count)
  unfolding freed unlink_header link_header
  counts_back room room' =
      (less_back h.total_allocated (count * 4096) room, less_back h.allocation_count 1 room')

-- free of what malloc has just returned gives the head of the list of allocations, the statistics,
-- the used and free memory, and every header but that of the new pages back as they were, except that
-- the first header of the list has no header before it afterwards; for a size from 1 to below 2 ^ 62,
-- if the region does not begin at address 0, the counts do not overflow, pages are found, and they do
-- not hold the first header of the list.
pub free-malloc :
    (h : Heap) (size : ℕ)
    → IsValid h.pmm.phys_mem
    → 0 < h.pmm.phys_mem.memory_base
    → 0 < size
    → size < 2 ^ 62
    → let n : ℕ = pages_for (rounded size) in
      h.pmm.used_memory + n * block_size < word_mod
      → h.total_allocated + n * 4096 < word_mod
      → h.allocation_count + 1 < word_mod
      → (physical_alloc_pages h.pmm n).0 ≢ 0
      → h.allocation_list ≢ (physical_alloc_pages h.pmm n).0
      → let (ptr, h') = malloc h size in
        let f : Heap = free h' ptr in
        (ptr ≢ 0)
        × (f.allocation_list ≡ h.allocation_list)
        × ((x : ℕ)
            → x ≢ (physical_alloc_pages h.pmm n).0
            → f.headers x ≡ (
                if not (h.allocation_list == 0) && (x == h.allocation_list)
                then record (h.headers x) { prev = 0 }
                else h.headers x))
        × (f.total_allocated ≡ h.total_allocated)
        × (f.allocation_count ≡ h.allocation_count)
        × (f.pmm.used_memory ≡ h.pmm.used_memory)
        × (physical_get_free_memory f.pmm ≡ physical_get_free_memory h.pmm)
free-malloc h size v based pos small room room' room'' ne other =
    let below = page_bound h size v based small room ne in
    let a = at_page h size v based small in
    let made = malloc_ok h size v based small pos ne below in
    let released = free_ok h size v based small other ne below in
    let whole = ap (λ (r : ℕ × Heap). free r.1 r.0) made ∙ released in
    let counts = counts_back h size v based small room' room'' in
    let memory =
      free_pages-alloc_pages h.pmm (count h size v based small) v based
        (count-pos h size v based small) room ne 0 in
    (
      λ z. absurd (let nonzero = ap (λ (r : ℕ × Heap). r.0) made in ground arith),
      ap (λ (f : Heap). f.allocation_list) whole ∙ list_back h size v based small other,
      λ x ne'. ap (λ (f : Heap). f.headers x) whole ∙ headers_back h size v based small x other ne',
      ap (λ (f : Heap). f.total_allocated) whole ∙ counts.0,
      ap (λ (f : Heap). f.allocation_count) whole ∙ counts.1,
      ap (λ (f : Heap). f.pmm.used_memory) whole
          ∙ ap (λ (p : Pmm). p.used_memory) (pmm_back h size v based small)
          ∙ memory.0,
      ap (λ (f : Heap). physical_get_free_memory f.pmm) whole
          ∙ ap physical_get_free_memory (pmm_back h size v based small)
          ∙ memory.1,
    )
