-- ===== src/IoApic/Ops.antt =====
-- kernel/src/drivers/interrupt/APIC/ioapic.c: `FindEntries` and `Get_iso_gsi`, over a memory of bytes.
-- Addresses inside the table do not wrap.
use yoix.Base.{
  ℕ, zero, suc, ◌+◌, ◌-◌, Bool, true, false, ◌&&◌, Option, none, some, List, [], ◌∷◌, ltb, ◌==◌,
  if◌then◌else◌,
}
use yoix.Acpi.Ops.{Bytes, read_u32, table_length, header_size}

-- `sizeof(struct MADT_t)`.
abbrev pub madt_size : ℕ
madt_size = header_size + 8

abbrev pub keep : Bool → ℕ → Option (List ℕ) → Option (List ℕ)
keep true p (some ps) = some (p ∷ ps)
keep false p (some ps) = some ps
keep b p none = none

-- The loop of `FindEntries` from `ptr` on: what it adds to the array, which has room for `room`
-- more. Out of fuel is `none`.
unfoldable pub find_from : ℕ → Bytes → ℕ → ℕ → ℕ → ℕ → Option (List ℕ)
find_from zero m entries_end type ptr room = if ltb ptr entries_end then none else some []
find_from (suc fuel) m entries_end type ptr room =
    let taken = (m ptr == type) && ltb 0 room in
    let rest =
      find_from fuel m entries_end type (ptr + m (ptr + 1)) (if taken then room - 1 else room) in
    if ltb ptr entries_end
    then keep taken ptr (if m (ptr + 1) == 0 then some [] else rest)
    else some []

-- Every entry takes a byte at least. A NULL array has no room.
unfoldable pub find_entries : ℕ → ℕ → Bool → ℕ → Bytes → Option (List ℕ)
find_entries madt type array max_count m =
    find_from (table_length m madt) m (madt + table_length m madt) type (madt + madt_size)
      (if array then max_count else 0)

-- The fields of `struct IOAPIC_ISO`.
abbrev pub irq_source : Bytes → ℕ → ℕ
irq_source m iso = m (iso + 3)

abbrev pub gsi : Bytes → ℕ → ℕ
gsi m iso = read_u32 m (iso + 4)

-- `iso_entries` up to `iso_count` as a list.
unfoldable pub get_iso_gsi : List ℕ → ℕ → Bytes → ℕ
get_iso_gsi [] irq m = irq
get_iso_gsi (iso ∷ isos) irq m =
    let rest = get_iso_gsi isos irq m in if irq_source m iso == irq then gsi m iso else rest
