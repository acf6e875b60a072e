-- ===== src/Memory/Paging/Tests.antt =====
-- vmm_map_page of src/memory/vmm.c on empty tables.
use cgos.Base.{ℕ, ◌+◌, ◌≡◌, refl, ◌%◌, arith, List, [], ◌∷◌, some}
use cgos.Base.Bits.{test}
use cgos.Memory.Bitmap.{bitmap_test_bit, bitmap_alloc_block}
use cgos.Memory.Pmm.{physical_alloc_page}
use cgos.Memory.Paging.{
  Vmm, vmm_map_page, vmm_get_physical_addr, vmm_unmap_page, walk_or_create, put_entry, clear_table,
  mmio_virtual_base,
}
use cgos.Memory.Paging.Map.{IsPath, map_page-translates}

abbrev empty : Vmm
empty = record {
  tables = λ p i. 0;
  kernel_context = 4096;
  current_context = 4096;
  next_mmio_vaddr = mmio_virtual_base;
  hhdm_offset = 1;
  pmm = record {
    phys_mem = record {
      bitmap = 1 ∷ 0 ∷ [];
      memory_base = 16777216;
      total_blocks = 16;
      free_blocks = 15;
      bitmap_size = 2;
    };
    total_memory = 65536;
    reserved_memory = 0;
    used_memory = 4096;
  };
}

empty-IsPath : IsPath empty 8195 4097 4098 4099
unfolding walk_or_create put_entry clear_table physical_alloc_page bitmap_alloc_block
    bitmap_test_bit test cgos.Memory.Bitmap.first_free cgos.Memory.Bitmap.bitmap_block_to_address
    cgos.Memory.Bitmap.bitmap_set_bit cgos.Base.Bits.put
empty-IsPath = record {
  to_pdp = refl;
  to_pd = refl;
  to_pt = refl;
  root_apart = (omega arith, omega arith, omega arith);
  pdp_apart = (omega arith, omega arith);
  pd_apart = omega arith;
}

map_page-translates_example :
    ((vmm_map_page 12288 8195 2 empty).0 ≡ some 8195)
    × (vmm_get_physical_addr (vmm_map_page 12288 8195 2 empty).1 8195 ≡ 12288 + 8195 % 4096)
    × (vmm_get_physical_addr (vmm_unmap_page (vmm_map_page 12288 8195 2 empty).1 8195) 8195 ≡ 0)
map_page-translates_example =
    map_page-translates empty 8195 4097 4098 4099 refl empty-IsPath 12288 2 (omega arith) refl
      (omega arith) (omega arith) (omega arith)
