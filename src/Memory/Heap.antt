-- ===== src/Memory/Heap.antt =====
-- The kernel heap of src/memory/memory.c: malloc, free, calloc and realloc over the physical pages.
-- The store keeps the header of each allocation at the address of its first page; what programs
-- write to their memory is left out. Address 0 is the null pointer.
pub mod Undo
use cgos.Base.{
  ℕ, ◌+◌, ◌-◌, ◌*◌, ◌/◌, ◌%◌, ◌^◌, Bool, true, false, not, ltb, leb, ◌==◌, if◌then◌else◌, ◌&&◌,
}
use cgos.Memory.Bitmap.{wrap, word_mod}
use cgos.Memory.Pmm.{
  Pmm, less_used, physical_alloc_pages, physical_free_pages, physical_get_free_memory,
}

-- ALLOCATION_MAGIC, MIN_ALLOCATION_SIZE, HEADER_SIZE: eight bytes each for the size, the magic number
-- with its padding, and the two links.
abbrev pub allocation_magic : ℕ
allocation_magic = 0xDEADBEEF

abbrev pub min_allocation_size : ℕ
min_allocation_size = 16

abbrev pub header_size : ℕ
header_size = 32

-- `allocation_header_t`
pub record Header : Type 0 where
  pub size : ℕ
  pub magic : ℕ
  pub next : ℕ
  pub prev : ℕ

-- The statics, with the state of the page allocator and the headers by address.
pub record Heap : Type 0 where
  pub pmm : Pmm
  pub headers : ℕ → Header
  pub allocation_list : ℕ
  pub total_allocated : ℕ
  pub allocation_count : ℕ

abbrev pub store : (ℕ → Header) → ℕ → Header → ℕ → Header
store headers a v x = if a == x then v else headers x

-- `if (a) a->prev = v` and `if (a) a->next = v`
abbrev pub store_prev : (ℕ → Header) → ℕ → ℕ → ℕ → Header
store_prev headers a v =
    if a == 0 then headers else store headers a (record (headers a) { prev = v })

abbrev pub store_next : (ℕ → Header) → ℕ → ℕ → ℕ → Header
store_next headers a v =
    if a == 0 then headers else store headers a (record (headers a) { next = v })

unfoldable pub pages_needed : ℕ → ℕ
pages_needed size = wrap (size + header_size + 4095) / 4096

-- The number of pages for an allocation of the size.
abbrev pub pages_for : ℕ → ℕ
pages_for size = pages_needed (wrap (size + header_size))

-- The new header, in front of the list.
unfoldable pub link_header : Heap → Pmm → ℕ → ℕ → Heap
unfolding pages_needed
link_header h pmm pages size =
    let made =
      store h.headers pages
        record { size = size; magic = allocation_magic; next = h.allocation_list; prev = 0 } in
    record {
      pmm = pmm;
      headers = store_prev made h.allocation_list pages;
      allocation_list = pages;
      total_allocated = wrap (h.total_allocated + wrap (pages_for size * 4096));
      allocation_count = wrap (h.allocation_count + 1);
    }

unfoldable pub malloc : Heap → ℕ → ℕ × Heap
unfolding link_header pages_needed
malloc h size =
    let size' : ℕ = if ltb size min_allocation_size then min_allocation_size else size in
    let (pages, pmm) = physical_alloc_pages h.pmm (pages_for size') in
    if size == 0
    then (0, h)
    else if pages == 0
    then (0, record h { pmm = pmm })
    else (wrap (pages + header_size), link_header h pmm pages size')

-- The header at `a` leaves the list, and its magic number is cleared.
unfoldable pub unlink_header : Heap → ℕ → Heap
unlink_header h a =
    let prev : ℕ = (h.headers a).prev in
    let first = store_next h.headers prev (h.headers a).next in
    let second = store_prev first (first a).next (first a).prev in
    record h {
      allocation_list = if prev == 0 then (h.headers a).next else h.allocation_list;
      headers = store second a (record (second a) { magic = 0 });
    }

unfoldable pub free_at : Heap → ℕ → Heap
unfolding unlink_header pages_needed
free_at h a =
    let pages : ℕ = pages_for (h.headers a).size in
    let h' : Heap = unlink_header h a in
    record h' {
      pmm = physical_free_pages h'.pmm a pages;
      total_allocated = less_used h'.total_allocated (wrap (pages * 4096));
      allocation_count = less_used h'.allocation_count 1;
    }

abbrev pub header_of : ℕ → ℕ
header_of ptr = wrap (ptr + word_mod - header_size)

unfoldable pub free : Heap → ℕ → Heap
unfolding free_at
free h ptr =
    if ptr == 0
    then h
    else if (h.headers (header_of ptr)).magic == allocation_magic
    then free_at h (header_of ptr)
    else h

-- The memory that it clears is left out.
unfoldable pub calloc : Heap → ℕ → ℕ → ℕ × Heap
unfolding malloc
calloc h nmemb size =
    if not (nmemb == 0) && ltb ((word_mod - 1) / nmemb) size
    then (0, h)
    else malloc h (wrap (nmemb * size))

abbrev pub grow : ℕ × Heap → ℕ → ℕ × Heap
grow (new_ptr, h) ptr = if new_ptr == 0 then (0, h) else (new_ptr, free h ptr)

-- The bytes that it copies are left out.
unfoldable pub realloc : Heap → ℕ → ℕ → ℕ × Heap
unfolding malloc free
realloc h ptr size =
    let a : ℕ = header_of ptr in
    if ptr == 0
    then malloc h size
    else if size == 0
    then (0, free h ptr)
    else if not ((h.headers a).magic == allocation_magic)
    then (0, h)
    else if leb size (h.headers a).size
    then (ptr, record h { headers = store h.headers a (record (h.headers a) { size = size }) })
    else grow (malloc h size) ptr

unfoldable pub malloc_get_total_allocated : Heap → ℕ
malloc_get_total_allocated h = h.total_allocated

unfoldable pub malloc_get_free_memory : Heap → ℕ
malloc_get_free_memory h = physical_get_free_memory h.pmm
