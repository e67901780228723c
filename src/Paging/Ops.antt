-- ===== src/Paging/Ops.antt =====
-- kernel/src/memory/vmm.c: walking, mapping and unmapping.
use yoix.Base.{
  ℕ, zero, suc, ◌+◌, bit_and, bit_or, Bool, true, false, Prog, pure, ◌>>=◌, ◌>>◌, ◌==◌,
  if◌then◌else◌,
}
use yoix.Buddy.State.{invalid_address}
use yoix.Buddy.Ops.{alloc_page, free_page}
use yoix.Paging.Machine.{
  Machine, page_present, page_writable, page_addr_mask, pml4_index, pdpt_index, pd_index, pt_index,
  phy_to_virt, read_cr3, invlpg_tlb, load, store, on_frames,
}

-- The loop of `Make_Page`, with the rounds left.
unfoldable pub clear_page : ℕ → ℕ → ℕ → Prog Machine (Unit {0})
clear_page zero i page = pure tt
clear_page (suc left) i page = do store page i 0; clear_page left (i + 1) page

unfoldable pub make_page : Prog Machine ℕ
make_page = do
  page_phy ← on_frames alloc_page
  if page_phy == invalid_address
      then pure invalid_address
      else (do page_virt ← phy_to_virt page_phy; clear_page 512 0 page_virt; pure page_phy)

unfoldable pub get_next_level : ℕ → ℕ → Prog Machine ℕ
get_next_level table index = do
  entry ← load table index
  if bit_and entry page_present == 0
      then (do
        new_table_phys ← make_page
        if new_table_phys == invalid_address then pure 0 else (do
          store table index (bit_or (bit_or new_table_phys page_present) page_writable)
          phy_to_virt new_table_phys))
      else phy_to_virt (bit_and entry page_addr_mask)

unfoldable pub get_existing_level : ℕ → ℕ → Prog Machine ℕ
get_existing_level table index = do
  entry ← load table index
  if bit_and entry page_present == 0 then pure 0 else phy_to_virt (bit_and entry page_addr_mask)

unfoldable pub root : Prog Machine ℕ
root = do cr3 ← read_cr3; phy_to_virt (bit_and cr3 page_addr_mask)

-- The tables on the way to the last level, NULL as soon as one is.
unfoldable pub next_levels : ℕ → Prog Machine ℕ
next_levels virt_addr = do
  pml4 ← root
  if pml4 == 0 then pure 0 else (do
    pdpt ← get_next_level pml4 (pml4_index virt_addr)
    if pdpt == 0 then pure 0 else (do
      pd ← get_next_level pdpt (pdpt_index virt_addr)
      if pd == 0 then pure 0 else get_next_level pd (pd_index virt_addr)))

unfoldable pub existing_levels : ℕ → Prog Machine ℕ
existing_levels virt_addr = do
  pml4 ← root
  if pml4 == 0 then pure 0 else (do
    pdpt ← get_existing_level pml4 (pml4_index virt_addr)
    if pdpt == 0 then pure 0 else (do
      pd ← get_existing_level pdpt (pdpt_index virt_addr)
      if pd == 0 then pure 0 else get_existing_level pd (pd_index virt_addr)))

unfoldable pub map : ℕ → ℕ → ℕ → Prog Machine Bool
map virt_addr phys_addr flags = do
  pt ← next_levels virt_addr
  if pt == 0 then pure false else (do
    store pt (pt_index virt_addr) (bit_or (bit_and phys_addr page_addr_mask) flags)
    invlpg_tlb virt_addr
    pure true)

unfoldable pub unmap : ℕ → Prog Machine Bool
unmap virt_addr = do
  pt ← existing_levels virt_addr
  if pt == 0 then pure false else (do
    old_entry ← load pt (pt_index virt_addr)
    if bit_and old_entry page_present == 0 then pure false else (do
      store pt (pt_index virt_addr) 0
      invlpg_tlb virt_addr
      on_frames (free_page (bit_and old_entry page_addr_mask))
      pure true))

unfoldable pub get_phys : ℕ → Prog Machine ℕ
get_phys virt_addr = do
  pt ← existing_levels virt_addr
  if pt == 0 then pure invalid_address else (do
    entry ← load pt (pt_index virt_addr)
    if bit_and entry page_present == 0
        then pure invalid_address
        else pure (bit_or (bit_and entry page_addr_mask) (bit_and virt_addr 0xFFF)))
