-- ===== src/Memory/Paging.antt =====
-- src/memory/vmm.c: the page tables. A table is named by the number of its physical page, through
-- which the direct map reaches it; what the processor's translation buffer holds is not modelled.
pub mod Map
pub mod Walk
mod Tests
use cgos.Base.{
  ℕ, zero, suc, ◌+◌, ◌-◌, ◌*◌, ◌/◌, ◌%◌, ◌^◌, Bool, ltb, ◌==◌, if◌then◌else◌, Option, none, some,
  bit_and, bit_or,
}
use cgos.Memory.Pmm.{Pmm, physical_alloc_page}

-- PAGE_SIZE, the flags of an entry, and MMIO_VIRTUAL_BASE
abbrev pub page_size : ℕ
page_size = 4096

abbrev pub page_present : ℕ
page_present = 1

-- PAGE_WRITABLE | PAGE_USER | PAGE_PCD | PAGE_PWT
abbrev pub map_flags : ℕ
map_flags = 0x1E

-- PAGE_PRESENT | PAGE_WRITABLE | PAGE_PCD | PAGE_PWT
abbrev pub mmio_flags : ℕ
mmio_flags = 0x1B

abbrev pub mmio_virtual_base : ℕ
mmio_virtual_base = 0xFFFFFFFFC0000000

-- The statics of vmm.c with the memory that they reach: the tables by page and index, and the
-- physical pages. A context is its `cr3_value`.
pub record Vmm : Type 0 where
  pub tables : ℕ → ℕ → ℕ
  pub kernel_context : ℕ
  pub current_context : ℕ
  pub next_mmio_vaddr : ℕ
  pub hhdm_offset : ℕ
  pub pmm : Pmm

unfoldable pub vmm_get_hhdm_offset : Vmm → ℕ
vmm_get_hhdm_offset v = v.hhdm_offset

unfoldable pub vmm_set_hhdm_offset : Vmm → ℕ → Vmm
vmm_set_hhdm_offset v offset = record v { hhdm_offset = offset }

-- The kernel's context is the one that the boot loader has loaded; `cr3` is the register. The pointer
-- to the current context is that to the kernel's one where both have the same register value.
unfoldable pub vmm_init : Vmm → ℕ → Vmm
vmm_init v cr3 = record v {
  kernel_context = cr3;
  current_context = if v.current_context == v.kernel_context then cr3 else v.current_context;
}

-- PML4_INDEX, PDP_INDEX, PD_INDEX and PT_INDEX
abbrev pub pml4_index : ℕ → ℕ
pml4_index addr = addr / 2 ^ 39 % 512

abbrev pub pdp_index : ℕ → ℕ
pdp_index addr = addr / 2 ^ 30 % 512

abbrev pub pd_index : ℕ → ℕ
pd_index addr = addr / 2 ^ 21 % 512

abbrev pub pt_index : ℕ → ℕ
pt_index addr = addr / 2 ^ 12 % 512

-- `entry & PAGE_PRESENT`, and the page that `entry & ~PAGE_MASK` is the address of
abbrev pub present : ℕ → Bool
present entry = entry % 2 == page_present

abbrev pub page_of : ℕ → ℕ
page_of entry = entry / page_size

abbrev pub root : ℕ → ℕ
root cr3 = cr3 / page_size

-- `table->entries[index] = entry`
unfoldable pub put_entry : (ℕ → ℕ → ℕ) → ℕ → ℕ → ℕ → ℕ → ℕ → ℕ
put_entry tables page index entry p i =
    if p == page then (if i == index then entry else tables p i) else tables p i

-- `memset(table, 0, PAGE_SIZE)`
unfoldable pub clear_table : (ℕ → ℕ → ℕ) → ℕ → ℕ → ℕ → ℕ
clear_table tables page p i = if p == page then 0 else tables p i

-- PAGE_PRESENT | PAGE_WRITABLE
abbrev pub table_flags : ℕ
table_flags = 3

-- A call returns none for NULL, and the state either way.
abbrev pub Call : Type 0 → Type 0
Call A = Vmm → Option A × Vmm

abbrev pub after : {A B : Type 0} → Option A × Vmm → (A → Call B) → Option B × Vmm
after (none, v) k = (none, v)
after (some a, v) k = k a v

infixl 5 ◌>>=◌
abbrev pub ◌>>=◌ : {A B : Type 0} → Call A → (A → Call B) → Call B
◌>>=◌ m k v = after (m v) k

abbrev pub reading : {A : Type 0} → (Vmm → A) → Call A
reading f v = (some (f v), v)

abbrev pub finish : {A : Type 0} → A → (Vmm → Vmm) → Call A
finish a f v = (some a, f v)

-- The table is cleared before the parent's entry points to it.
abbrev pub new_table : ℕ → ℕ → ℕ × Pmm → Call ℕ
new_table parent index (new_page, pmm) v =
    if new_page == 0 then (none, record v { pmm = pmm }) else (
      some (page_of new_page),
      record v {
        tables =
            put_entry (clear_table v.tables (page_of new_page)) parent index
              (bit_or new_page table_flags);
        pmm = pmm;
      },
    )

-- Walk to a table, or create it.
unfoldable pub walk_or_create : ℕ → ℕ → Call ℕ
walk_or_create parent index v =
    if present (v.tables parent index)
    then (some (page_of (v.tables parent index)), v)
    else new_table parent index (physical_alloc_page v.pmm) v

-- The three levels of the walk: the last table.
unfoldable pub table_for : ℕ → Call ℕ
table_for virtual_addr = do
  pml4 ← reading (λ v. root v.kernel_context)
  pdp ← walk_or_create pml4 (pml4_index virtual_addr)
  pd ← walk_or_create pdp (pdp_index virtual_addr)
  walk_or_create pd (pd_index virtual_addr)

abbrev pub set_page : ℕ → ℕ → ℕ → Vmm → Vmm
set_page pt virtual_addr entry v = record v {
  tables = put_entry v.tables pt (pt_index virtual_addr) entry;
}

-- PAGE_PRESENT | (flags & (PAGE_WRITABLE | PAGE_USER | PAGE_PCD | PAGE_PWT))
abbrev pub page_flags : ℕ → ℕ
page_flags flags = bit_or page_present (bit_and flags map_flags)

abbrev pub map_through : ℕ → ℕ → ℕ → Call ℕ
map_through physical_addr virtual_addr flags = do
  pt ← table_for virtual_addr
  finish virtual_addr (set_page pt virtual_addr (bit_or physical_addr (page_flags flags)))

unfoldable pub vmm_map_page : ℕ → ℕ → ℕ → Call ℕ
vmm_map_page physical_addr virtual_addr flags v =
    if v.hhdm_offset == 0 then (none, v) else map_through physical_addr virtual_addr flags v

-- The loop of vmm_map_mmio over the pages from page `i` on.
unfoldable pub map_mmio_pages : ℕ → ℕ → ℕ → ℕ → Call ℕ
map_mmio_pages zero i physical_addr vaddr = finish vaddr (λ v. v)
map_mmio_pages (suc n) i physical_addr vaddr = do
  pt ← table_for ((vaddr + i * page_size) % 2 ^ 64)
  mapped ← finish vaddr (
      set_page pt ((vaddr + i * page_size) % 2 ^ 64)
        (bit_or ((physical_addr + i * page_size) % 2 ^ 64) mmio_flags))
  map_mmio_pages n (i + 1) physical_addr mapped

unfoldable pub vmm_map_mmio : ℕ → ℕ → Call ℕ
vmm_map_mmio physical_addr size v =
    let pages : ℕ = (size + page_size - 1) % 2 ^ 64 / page_size in
    if v.hhdm_offset == 0
    then (none, v)
    else map_mmio_pages pages 0 physical_addr v.next_mmio_vaddr
        (record v { next_mmio_vaddr = (v.next_mmio_vaddr + pages * page_size) % 2 ^ 64 })

-- The walk that creates nothing.
abbrev pub walk : (ℕ → ℕ → ℕ) → ℕ → ℕ → Option ℕ
walk tables page index =
    if present (tables page index) then some (page_of (tables page index)) else none

abbrev pub walk_on : Option ℕ → (ℕ → ℕ → ℕ) → ℕ → Option ℕ
walk_on none tables index = none
walk_on (some page) tables index = walk tables page index

unfoldable pub find_table : (ℕ → ℕ → ℕ) → ℕ → ℕ → Option ℕ
find_table tables page virtual_addr =
    walk_on (walk_on (walk tables page (pml4_index virtual_addr)) tables (pdp_index virtual_addr))
      tables (pd_index virtual_addr)

abbrev pub unmap_at : Vmm → ℕ → Option ℕ → Vmm
unmap_at v virtual_addr none = v
unmap_at v virtual_addr (some pt) = record v {
  tables = put_entry v.tables pt (pt_index virtual_addr) 0;
}

unfoldable pub vmm_unmap_page : Vmm → ℕ → Vmm
vmm_unmap_page v virtual_addr =
    if v.hhdm_offset == 0
    then v
    else unmap_at v virtual_addr (find_table v.tables (root v.current_context) virtual_addr)

-- The loop of vmm_unmap, with `n` pages to go.
unfoldable pub unmap_pages : ℕ → ℕ → Vmm → Vmm
unmap_pages zero vaddr v = v
unmap_pages (suc n) vaddr v = unmap_pages n (vaddr + page_size) (vmm_unmap_page v vaddr)

unfoldable pub vmm_unmap : Vmm → ℕ → ℕ → Vmm
vmm_unmap v virtual_addr size =
    let virt_start : ℕ = virtual_addr / page_size * page_size in
    let virt_end : ℕ = (virtual_addr + size + page_size - 1) % 2 ^ 64 / page_size * page_size in
    unmap_pages ((virt_end - virt_start) / page_size) virt_start v

abbrev pub translate_at : (ℕ → ℕ → ℕ) → ℕ → Option ℕ → ℕ
translate_at tables virtual_addr none = 0
translate_at tables virtual_addr (some pt) =
    let entry : ℕ = tables pt (pt_index virtual_addr) in
    if present entry then (page_of entry * page_size + virtual_addr % page_size) % 2 ^ 64 else 0

unfoldable pub vmm_get_physical_addr : Vmm → ℕ → ℕ
vmm_get_physical_addr v virtual_addr =
    if v.hhdm_offset == 0
    then 0
    else translate_at v.tables virtual_addr
        (find_table v.tables (root v.current_context) virtual_addr)

unfoldable pub vmm_get_current_context : Vmm → ℕ
vmm_get_current_context v = v.current_context

-- none stands for a null context.
unfoldable pub vmm_switch_context : Vmm → Option ℕ → Vmm
vmm_switch_context v none = v
vmm_switch_context v (some context) = record v { current_context = context }
