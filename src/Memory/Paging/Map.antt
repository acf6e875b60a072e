-- ===== src/Memory/Paging/Map.antt =====
-- translate_at, unmap_at, vmm_map_page, vmm_get_physical_addr and vmm_unmap_page of src/memory/vmm.c: a page that is mapped is
-- translated to its frame, and to nothing once it is unmapped.
use cgos.Base.{
  ℕ, ◌+◌, ◌%◌, ◌^◌, ◌<◌, ◌≡◌, refl, fun_ext, sym, ap, ◌∙◌, ◌≢◌, Bool, true, false, ◌&&◌, ltb, ◌==◌,
  Option, some, bit_or, arith,
}
use cgos.Base.Bits.{holds_below, holds_below-lt}
use cgos.Memory.Paging.{
  Vmm, after, ◌>>=◌, present, page_of, root, put_entry, walk_or_create, walk_on, table_for,
  find_table, page_flags, set_page, pml4_index, pdp_index, pd_index, pt_index, translate_at,
  unmap_at, vmm_map_page, vmm_get_physical_addr, vmm_unmap_page,
}
use cgos.Memory.Paging.Walk.{
  Leads, walk-Leads, IsAligned, Stepped, walk_or_create-Stepped, put_entry_other, put_entry_self,
  bit_or-page,
}

-- The tables that the walk for an address goes through, each found or created, and no two the same.
pub record IsPath (v : Vmm) (addr pdp pd pt : ℕ) : Type 0 where
  pub to_pdp : (walk_or_create (root v.kernel_context) (pml4_index addr) v).0 ≡ some pdp
  pub to_pd :
      (walk_or_create pdp
        (pdp_index addr)
        (walk_or_create (root v.kernel_context) (pml4_index addr) v).1).0
      ≡ some pd
  pub to_pt :
      (walk_or_create pd
        (pd_index addr)
        (walk_or_create pdp
          (pdp_index addr)
          (walk_or_create (root v.kernel_context) (pml4_index addr) v).1).1).0
      ≡ some pt
  pub root_apart :
      (root v.kernel_context ≢ pdp) × (root v.kernel_context ≢ pd) × (root v.kernel_context ≢ pt)
  pub pdp_apart : (pdp ≢ pd) × (pdp ≢ pt)
  pub pd_apart : pd ≢ pt

flags_row : ℕ → Bool
flags_row flags = ltb (page_flags flags) 4096 && page_flags flags % 2 == 1

flags_rows : holds_below 512 flags_row ≡ true
unfolding holds_below flags_row
flags_rows = refl

page_flags_lem : (flags : ℕ) → flags < 512 → (page_flags flags < 4096) × (page_flags flags % 2 ≡ 1)
unfolding flags_row
page_flags_lem flags h =
    let row = holds_below-lt 512 flags_row flags flags_rows h in (ground arith, ground arith)

Leads-kept :
    {x y q : ℕ}
    → x ≡ y
    → (present y ≡ true) × (page_of y ≡ q)
    → (present x ≡ true) × (page_of x ≡ q)
Leads-kept e (there, to) = (ap (λ n. present n) e ∙ there, ap (λ n. page_of n) e ∙ to)

get-found :
    (w : Vmm) (addr pt : ℕ)
    → w.hhdm_offset ≢ 0
    → find_table w.tables (root w.current_context) addr ≡ some pt
    → vmm_get_physical_addr w addr ≡ translate_at w.tables addr (some pt)
unfolding vmm_get_physical_addr
get-found w addr pt hhdm found =
    let set_up : (w.hhdm_offset == 0) ≡ false = ground arith in
    rw set_up (ap (translate_at w.tables addr) found)

unmap-found :
    (w : Vmm) (addr pt : ℕ)
    → w.hhdm_offset ≢ 0
    → find_table w.tables (root w.current_context) addr ≡ some pt
    → vmm_unmap_page w addr ≡ unmap_at w addr (some pt)
unfolding vmm_unmap_page
unmap-found w addr pt hhdm found =
    let set_up : (w.hhdm_offset == 0) ≡ false = ground arith in
    rw set_up (ap (unmap_at w addr) found)

put_entry-put_entry :
    (tables : ℕ → ℕ → ℕ) (p i a b : ℕ)
    → put_entry (put_entry tables p i a) p i b ≡ put_entry tables p i b
unfolding put_entry
put_entry-put_entry tables p i a b = fun_ext (λ q. fun_ext (λ j. ground arith))

whole : (x : Option ℕ × Vmm) {a : ℕ} → x.0 ≡ some a → x ≡ (some a, x.1)
whole x e = λ i. (e i, x.1)

module _ (v : Vmm) (addr pdp pd pt : ℕ) (aligned : IsAligned v) (h : IsPath v addr pdp pd pt) where
  abbrev r : ℕ
  r = root v.kernel_context

  abbrev v1 : Vmm
  v1 = (walk_or_create r (pml4_index addr) v).1

  abbrev v2 : Vmm
  v2 = (walk_or_create pdp (pdp_index addr) v1).1

  abbrev v3 : Vmm
  v3 = (walk_or_create pd (pd_index addr) v2).1

  step1 : Stepped v r (pml4_index addr) pdp v1
  step1 = walk_or_create-Stepped v r (pml4_index addr) pdp aligned h.to_pdp

  step2 : Stepped v1 pdp (pdp_index addr) pd v2
  step2 = walk_or_create-Stepped v1 pdp (pdp_index addr) pd step1.aligned h.to_pd

  step3 : Stepped v2 pd (pd_index addr) pt v3
  step3 = walk_or_create-Stepped v2 pd (pd_index addr) pt step2.aligned h.to_pt

  -- The entries of the path are those that the walk has found or made.
  leads1 : Leads v3.tables r (pml4_index addr) pdp
  leads1 =
      Leads-kept
        (step3.others r (pml4_index addr) (h.root_apart.2) (h.root_apart.1)
          ∙ step2.others r (pml4_index addr) (h.root_apart.1) (h.root_apart.0))
        step1.leads

  leads2 : Leads v3.tables pdp (pdp_index addr) pd
  leads2 =
      Leads-kept (step3.others pdp (pdp_index addr) (h.pdp_apart.1) (h.pdp_apart.0)) step2.leads

  table_for-done : table_for addr v ≡ (some pt, v3)
  unfolding table_for
  table_for-done =
      ap
        (λ x.
          after x
            (λ a. walk_or_create a (pdp_index addr) >>= λ b. walk_or_create b (pd_index addr)))
        (whole (walk_or_create r (pml4_index addr) v) h.to_pdp)
      ∙ ap (λ x. after x (λ b. walk_or_create b (pd_index addr)))
          (whole (walk_or_create pdp (pdp_index addr) v1) h.to_pd)
      ∙ whole (walk_or_create pd (pd_index addr) v2) h.to_pt

  -- The walk after an entry of the last table is written.
  find_table-put :
      (entry : ℕ) → find_table (put_entry v3.tables pt (pt_index addr) entry) r addr ≡ some pt
  unfolding find_table
  find_table-put entry =
      let tables = put_entry v3.tables pt (pt_index addr) entry in
      let other =
        λ (q i : ℕ) (ne : q ≢ pt). put_entry_other v3.tables pt (pt_index addr) entry q i ne in
      let a =
        walk-Leads tables r (pml4_index addr) pdp
          (Leads-kept (other r (pml4_index addr) (h.root_apart.2)) leads1) in
      let b =
        walk-Leads tables pdp (pdp_index addr) pd
          (Leads-kept (other pdp (pdp_index addr) (h.pdp_apart.1)) leads2) in
      let c =
        walk-Leads tables pd (pd_index addr) pt
          (Leads-kept (other pd (pd_index addr) h.pd_apart) step3.leads) in
      ap (λ x. walk_on (walk_on x tables (pdp_index addr)) tables (pd_index addr)) a
      ∙ ap (λ x. walk_on x tables (pd_index addr)) b
      ∙ c

  abbrev mapped : ℕ → Vmm
  mapped entry = set_page pt addr entry v3

  map_page-done :
      (frame flags : ℕ)
      → v.hhdm_offset ≢ 0
      → vmm_map_page frame addr flags v ≡ (some addr, mapped (bit_or frame (page_flags flags)))
  unfolding vmm_map_page
  map_page-done frame flags hhdm =
      let set_up : (v.hhdm_offset == 0) ≡ false = ground arith in rw (set_up, table_for-done)

  mapped_hhdm : v.hhdm_offset ≢ 0 → v3.hhdm_offset ≢ 0
  mapped_hhdm hhdm e = hhdm (sym (step3.same_hhdm ∙ step2.same_hhdm ∙ step1.same_hhdm) ∙ e)

  mapped_root : v.current_context ≡ v.kernel_context → v3.current_context ≡ v.kernel_context
  mapped_root same = step3.same_current ∙ step2.same_current ∙ step1.same_current ∙ same

  mapped-found :
      (entry : ℕ)
      → v.current_context ≡ v.kernel_context
      → find_table (put_entry v3.tables pt (pt_index addr) entry) (root v3.current_context) addr
        ≡ some pt
  mapped-found entry same =
      ap (λ (c : ℕ). find_table (put_entry v3.tables pt (pt_index addr) entry) (root c) addr)
        (mapped_root same)
      ∙ find_table-put entry

  translated :
      (tables : ℕ → ℕ → ℕ) (page frame flags : ℕ)
      → tables page (pt_index addr) ≡ frame + flags
      → frame % 4096 ≡ 0
      → frame < 2 ^ 64
      → flags < 4096
      → flags % 2 ≡ 1
      → translate_at tables addr (some page) ≡ frame + addr % 4096
  translated tables page frame flags e whole_frame wide small odd =
      let there : present (frame + flags) ≡ true = ground arith in rw (e, there) (omega arith)

  -- Where the kernel's context is current, the direct map is set up, the managed memory begins at a
  -- page boundary, and the tables on the way to the address are found or created and are distinct,
  -- vmm_map_page of a page-aligned frame with flags below 512 succeeds; then the
  -- address is translated to the frame with its offset in the page, and after vmm_unmap_page to 0.
  pub map_page-translates :
      (frame flags : ℕ)
      → v.hhdm_offset ≢ 0
      → v.current_context ≡ v.kernel_context
      → frame % 4096 ≡ 0
      → frame < 2 ^ 64
      → flags < 512
      → ((vmm_map_page frame addr flags v).0 ≡ some addr)
        × (vmm_get_physical_addr (vmm_map_page frame addr flags v).1 addr ≡ frame + addr % 4096)
        × (vmm_get_physical_addr (vmm_unmap_page (vmm_map_page frame addr flags v).1 addr) addr ≡ 0)
  map_page-translates frame flags hhdm same whole_frame wide defined =
      let entry = bit_or frame (page_flags flags) in
      let done_map = map_page-done frame flags hhdm in
      let (small, odd) = page_flags_lem flags defined in
      let sum = bit_or-page frame (page_flags flags) whole_frame small in
      let here = put_entry_self v3.tables pt (pt_index addr) entry ∙ sum in
      (
        ap (λ x. x.0) done_map,
        ap (λ x. vmm_get_physical_addr x.1 addr) done_map
            ∙ get-found (mapped entry) addr pt (mapped_hhdm hhdm) (mapped-found entry same)
            ∙ translated (put_entry v3.tables pt (pt_index addr) entry) pt frame (page_flags flags)
                here whole_frame wide small odd,
        ap (λ x. vmm_get_physical_addr (vmm_unmap_page x.1 addr) addr) done_map
            ∙ ap (λ w. vmm_get_physical_addr w addr)
                (unmap-found (mapped entry) addr pt (mapped_hhdm hhdm) (mapped-found entry same))
            ∙ ap (λ t. vmm_get_physical_addr (record v3 { tables = t }) addr)
                (put_entry-put_entry v3.tables pt (pt_index addr) entry 0)
            ∙ get-found (mapped 0) addr pt (mapped_hhdm hhdm) (mapped-found 0 same)
            ∙ rw (put_entry_self v3.tables pt (pt_index addr) 0),
      )
