-- ===== src/Paging/Machine.antt =====
-- What kernel/src/memory/vmm.c works on: the memory that the page tables lie in, the page allocator,
-- the registers it touches and the boot loader's answer to `hhdm_request`.
use yoix.Base.{
  ℕ, ◌+◌, ◌*◌, ◌/◌, ◌^◌, bit_and, not, Option, none, some, List, ◌∷◌, Prog, check, ◌>>◌, ◌==◌,
  if◌then◌else◌,
}
use yoix.Buddy.State.{Buddy, u64}

-- `words` is indexed by the virtual address of a 64-bit word. `hhdm` is the offset in the response, or
-- nothing where the response is NULL. `flushed` lists the addresses given to `invlpg`, the last first.
pub record Machine : Type 0 where
  pub words : ℕ → ℕ
  pub frames : Buddy
  pub cr3 : ℕ
  pub hhdm : Option ℕ
  pub flushed : List ℕ

abbrev pub page_present : ℕ
page_present = 1

abbrev pub page_writable : ℕ
page_writable = 2

abbrev pub page_addr_mask : ℕ
page_addr_mask = 0x000FFFFFFFFFF000

abbrev pub pml4_index : ℕ → ℕ
pml4_index addr = bit_and (addr / 2 ^ 39) 0x1FF

abbrev pub pdpt_index : ℕ → ℕ
pdpt_index addr = bit_and (addr / 2 ^ 30) 0x1FF

abbrev pub pd_index : ℕ → ℕ
pd_index addr = bit_and (addr / 2 ^ 21) 0x1FF

abbrev pub pt_index : ℕ → ℕ
pt_index addr = bit_and (addr / 2 ^ 12) 0x1FF

-- The pointer is the address, and NULL is 0.
abbrev pub to_virt : Option ℕ → ℕ → ℕ
to_virt none phys = 0
to_virt (some offset) phys = u64 (phys + offset)

unfoldable pub phy_to_virt : ℕ → Prog Machine ℕ
phy_to_virt phys m = some (to_virt m.hhdm phys, m)

abbrev pub read_cr3 : Prog Machine ℕ
read_cr3 m = some (m.cr3, m)

abbrev pub invlpg_tlb : ℕ → Prog Machine (Unit {0})
invlpg_tlb addr m = some (tt, record m { flushed = addr ∷ m.flushed })

-- `table[index]` of a table of 64-bit words. A NULL table is a fault.
abbrev pub slot : ℕ → ℕ → ℕ
slot table index = u64 (table + 8 * index)

abbrev pub write_word : (ℕ → ℕ) → ℕ → ℕ → ℕ → ℕ
write_word f a v b = if b == a then v else f b

unfoldable pub load : ℕ → ℕ → Prog Machine ℕ
load table index = check (not (table == 0)) >> λ m. some (m.words (slot table index), m)

unfoldable pub store : ℕ → ℕ → ℕ → Prog Machine (Unit {0})
store table index v = check (not (table == 0)) >> λ m.
    some (tt, record m { words = write_word m.words (slot table index) v })

abbrev pub with_frames : {A : Type 0} → Machine → Option (A × Buddy) → Option (A × Machine)
with_frames m none = none
with_frames m (some (a, frames')) = some (a, record m { frames = frames' })

-- A call of the page allocator.
unfoldable pub on_frames : {A : Type 0} → Prog Buddy A → Prog Machine A
on_frames call m = with_frames m (call m.frames)
