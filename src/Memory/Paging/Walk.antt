-- ===== src/Memory/Paging/Walk.antt =====
-- Walks over the page tables of src/memory/vmm.c after a table or an entry is written.
use cgos.Base.{
  ℕ, ◌+◌, ◌/◌, ◌%◌, ◌<◌, ◌≡◌, refl, sym, ap, subst, ◌∙◌, ◌≢◌, true, ◌==◌, none, some, bit_or, arith,
  Bool-cases, inl, inr,
}
use cgos.Base.Or.{shl, bit_or-shl}
use cgos.Memory.Bitmap.{Manager, bitmap_alloc_block, bitmap_block_to_address}
use cgos.Memory.Pmm.{Pmm, physical_alloc_page}
use cgos.Memory.Paging.{
  Vmm, present, page_of, put_entry, clear_table, new_table, walk_or_create, walk,
}

-- Whether the entry leads from one table to another.
abbrev pub Leads : (ℕ → ℕ → ℕ) → ℕ → ℕ → ℕ → Type 0
Leads tables p i q = (present (tables p i) ≡ true) × (page_of (tables p i) ≡ q)

pub walk-Leads : (tables : ℕ → ℕ → ℕ) (p i q : ℕ) → Leads tables p i q → walk tables p i ≡ some q
walk-Leads tables p i q (there, e) = rw there (ap some e)

-- The region of the physical pages begins at a page.
abbrev pub IsAligned : Vmm → Type 0
IsAligned v = v.pmm.phys_mem.memory_base % 4096 ≡ 0

block_aligned : (m : Manager) → m.memory_base % 4096 ≡ 0 → (bitmap_alloc_block m).0 % 4096 ≡ 0
unfolding bitmap_alloc_block bitmap_block_to_address
block_aligned m h = ground arith

base_kept : (m : Manager) → (bitmap_alloc_block m).1.memory_base ≡ m.memory_base
unfolding bitmap_alloc_block
base_kept m = ground arith

alloc_page-aligned :
    (p : Pmm)
    → p.phys_mem.memory_base % 4096 ≡ 0
    → ((physical_alloc_page p).0 % 4096 ≡ 0)
      × ((physical_alloc_page p).1.phys_mem.memory_base ≡ p.phys_mem.memory_base)
unfolding physical_alloc_page
alloc_page-aligned p h = (block_aligned p.phys_mem h, ground (arith, base_kept p.phys_mem))

-- A page's address with flags of its low twelve bits.
pub bit_or-page :
    (page flags : ℕ) → page % 4096 ≡ 0 → flags < 4096 → bit_or page flags ≡ page + flags
bit_or-page page flags h small =
    let e : shl (page / 4096) 12 ≡ page = omega arith in
    ap (λ (x : ℕ). bit_or x flags) (sym e)
    ∙ bit_or-shl 12 (page / 4096) flags (omega arith)
    ∙ omega arith

-- What a walk that creates the table if need be leaves behind.
pub record Stepped (v : Vmm) (parent index q : ℕ) (v' : Vmm) : Type 0 where
  pub leads : Leads v'.tables parent index q
  pub aligned : IsAligned v'
  pub others : (p i : ℕ) → p ≢ q → p ≢ parent → v'.tables p i ≡ v.tables p i
  pub same_kernel : v'.kernel_context ≡ v.kernel_context
  pub same_current : v'.current_context ≡ v.current_context
  pub same_hhdm : v'.hhdm_offset ≡ v.hhdm_offset

some-inj : {a b : ℕ} → some a ≡ some b → a ≡ b
some-inj e = cc

pub put_entry_self : (tables : ℕ → ℕ → ℕ) (p i entry : ℕ) → put_entry tables p i entry p i ≡ entry
unfolding put_entry
put_entry_self tables p i entry = ground arith

pub put_entry_other :
    (tables : ℕ → ℕ → ℕ) (p i entry q j : ℕ) → q ≢ p → put_entry tables p i entry q j ≡ tables q j
unfolding put_entry
put_entry_other tables p i entry q j ne = ground arith

clear_table_other : (tables : ℕ → ℕ → ℕ) (p q j : ℕ) → q ≢ p → clear_table tables p q j ≡ tables q j
unfolding clear_table
clear_table_other tables p q j ne = ground arith

none-ne-some : {a : ℕ} → none ≡ some a → ⊥
none-ne-some e = cc

-- The state with a new table.
abbrev made : Vmm → ℕ → ℕ → ℕ → Pmm → Vmm
made v parent index page pmm = record v {
  tables = put_entry (clear_table v.tables (page_of page)) parent index (bit_or page 3);
  pmm = pmm;
}

made-Stepped :
    (v : Vmm) (parent index page : ℕ) (pmm : Pmm)
    → page % 4096 ≡ 0
    → pmm.phys_mem.memory_base % 4096 ≡ 0
    → Stepped v parent index (page_of page) (made v parent index page pmm)
made-Stepped v parent index page pmm ha hb =
    let cleared = clear_table v.tables (page_of page) in
    let entry =
      put_entry_self cleared parent index (bit_or page 3) ∙ bit_or-page page 3 ha (omega arith) in
    record {
      leads = rw entry (ground arith, omega arith);
      aligned = hb;
      others = λ p i a b.
          put_entry_other cleared parent index (bit_or page 3) p i b
          ∙ clear_table_other v.tables (page_of page) p i a;
      same_kernel = refl;
      same_current = refl;
      same_hhdm = refl;
    }

new_table-Stepped :
    (v : Vmm) (parent index q page : ℕ) (pmm : Pmm)
    → page % 4096 ≡ 0
    → pmm.phys_mem.memory_base % 4096 ≡ 0
    → (new_table parent index (page, pmm) v).0 ≡ some q
    → Stepped v parent index q (new_table parent index (page, pmm) v).1
new_table-Stepped v parent index q page pmm ha hb e = elim (Bool-cases (page == 0)) [
  | inl none_left ↦ absurd (none-ne-some (rw none_left at e))
  | inr some_page ↦
      let same : page_of page ≡ q = some-inj (rw some_page at e) in
      rw some_page (
        subst (λ x. Stepped v parent index x (made v parent index page pmm)) same
          (made-Stepped v parent index page pmm ha hb))
]

pub walk_or_create-Stepped :
    (v : Vmm) (parent index q : ℕ)
    → IsAligned v
    → (walk_or_create parent index v).0 ≡ some q
    → Stepped v parent index q (walk_or_create parent index v).1
unfolding walk_or_create
walk_or_create-Stepped v parent index q h e = elim (Bool-cases (present (v.tables parent index))) [
  | inl there ↦
      let same : page_of (v.tables parent index) ≡ q = some-inj (rw there at e) in
      rw there (record {
        leads = (there, same);
        aligned = h;
        others = λ p i a b. refl;
        same_kernel = refl;
        same_current = refl;
        same_hhdm = refl;
      })
  | inr missing ↦
      let (ha, hb) = alloc_page-aligned v.pmm h in
      let page = (physical_alloc_page v.pmm).0 in
      let pmm = (physical_alloc_page v.pmm).1 in
      rw missing (
        new_table-Stepped v parent index q page pmm ha (ap (λ (n : ℕ). n % 4096) hb ∙ h)
          (rw missing at e))
]
