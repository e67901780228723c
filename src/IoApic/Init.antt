-- ===== src/IoApic/Init.antt =====
-- kernel/src/drivers/interrupt/APIC/ioapic.c: `init_IOAPIC`, over the machine of the page tables, the
-- bytes of the firmware's table and the I/O APICs.
use yoix.Base.{
  ℕ, ◌+◌, ◌^◌, ◌≡◌, refl, bit_or, Option, none, some, true, List, [], ◌∷◌, Prog, pure, fault, ◌>>=◌,
  ◌>>◌, ◌==◌, if◌then◌else◌, eq→==,
}
use yoix.Buddy.Ops.{alloc_page}
use yoix.Paging.Machine.{Machine, page_present, page_writable, phy_to_virt, on_frames}
use yoix.Paging.Ops.{map}
use yoix.Acpi.Ops.{Bytes, read_u32}
use yoix.IoApic.Ops.{find_entries}
use yoix.IoApic.Redirection.{IoApics, ioapic_read}

-- `ioapic_entries` up to `ioapic_count`, `phys_address`, `IOAPICVER` and `IOAPICID`, with what the other
-- parts keep.
pub record Setup : Type 0 where
  pub machine : Machine
  pub apics : IoApics
  pub ioapic_entries : List ℕ
  pub phys_address : ℕ → ℕ
  pub ioapic_version : ℕ
  pub ioapic_id : ℕ

abbrev pub page_pcd : ℕ
page_pcd = 2 ^ 4

-- The field `IOAPIC_Address` of `struct IOAPIC`.
abbrev pub ioapic_address : Bytes → ℕ → ℕ
ioapic_address m entry = read_u32 m (entry + 4)

module _ {A : Type 0} where
  abbrev pub with_machine : Setup → Option (A × Machine) → Option (A × Setup)
  with_machine s none = none
  with_machine s (some (a, machine')) = some (a, record s { machine = machine' })

  abbrev pub with_apics : Setup → Option (A × IoApics) → Option (A × Setup)
  with_apics s none = none
  with_apics s (some (a, apics')) = some (a, record s { apics = apics' })

  abbrev pub on_machine : Prog Machine A → Prog Setup A
  on_machine call s = with_machine s (call s.machine)

  abbrev pub on_apics : Prog IoApics A → Prog Setup A
  on_apics call s = with_apics s (call s.apics)

abbrev pub set_ioapic_entries : List ℕ → Prog Setup (Unit {0})
set_ioapic_entries entries s = some (tt, record s { ioapic_entries = entries })

abbrev pub set_iso_entries : List ℕ → Prog Setup (Unit {0})
set_iso_entries isos s = some (tt, record s { apics = record s.apics { iso_entries = isos } })

abbrev pub set_phys_address : ℕ → ℕ → Prog Setup (Unit {0})
set_phys_address i phys s =
    some (tt, record s { phys_address = λ j. if j == i then phys else s.phys_address j })

abbrev pub set_virt_address : ℕ → ℕ → Prog Setup (Unit {0})
set_virt_address i virt s = some (
  tt,
  record s {
    apics = record s.apics { virt_address = λ j. if j == i then virt else s.apics.virt_address j };
  },
)

abbrev pub phys_address_of : ℕ → Prog Setup ℕ
phys_address_of i s = some (s.phys_address i, s)

-- The loop over the physical addresses, from `i` on, by the entries left.
unfoldable pub put_phys : Bytes → ℕ → List ℕ → Prog Setup (Unit {0})
put_phys m i [] = pure tt
put_phys m i (entry ∷ entries) = do
  set_phys_address i (ioapic_address m entry)
  put_phys m (i + 1) entries

-- The loop that maps the windows, from `i` on, by the entries left.
unfoldable pub map_windows : ℕ → List ℕ → Prog Setup (Unit {0})
map_windows i [] = pure tt
map_windows i (entry ∷ entries) = do
  page ← on_machine (on_frames alloc_page)
  virt ← on_machine (phy_to_virt page)
  set_virt_address i virt
  phys ← phys_address_of i
  on_machine (map virt phys (bit_or (bit_or page_present page_writable) page_pcd))
  map_windows (i + 1) entries

abbrev pub set_ioapic_version : ℕ → Prog Setup (Unit {0})
set_ioapic_version v s = some (tt, record s { ioapic_version = v })

abbrev pub set_ioapic_id : ℕ → Prog Setup (Unit {0})
set_ioapic_id v s = some (tt, record s { ioapic_id = v })

-- Once the entries of both types are found.
unfoldable pub setup_with :
    Bytes → (List (ℕ × ℕ) → ℕ → ℕ) → Option (List ℕ) → Option (List ℕ) → Prog Setup (Unit {0})
setup_with m device (some entries) (some isos) = do
  set_ioapic_entries entries
  set_iso_entries isos
  put_phys m 0 entries
  map_windows 0 entries
  version ← on_apics (ioapic_read device 0x01 0)
  set_ioapic_version version
  id ← on_apics (ioapic_read device 0x00 0)
  set_ioapic_id id
setup_with m device _ _ = fault

unfoldable pub init_ioapic : Bytes → (List (ℕ × ℕ) → ℕ → ℕ) → ℕ → Prog Setup (Unit {0})
init_ioapic m device madt =
    setup_with m device (find_entries madt 1 true 16 m) (find_entries madt 2 true 256 m)

-- Without an I/O APIC in the table, and with the arrays zero as at the start, the versions are read
-- through a NULL window.
without_windows :
    (m : Bytes) (device : List (ℕ × ℕ) → ℕ → ℕ) (isos : List ℕ) (s : Setup)
    → s.apics.virt_address 0 ≡ 0
    → setup_with m device (some []) (some isos) s ≡ none
unfolding setup_with put_phys map_windows ioapic_read
without_windows m device isos s zeroed = rw (eq→== (s.apics.virt_address 0) 0 zeroed) refl
