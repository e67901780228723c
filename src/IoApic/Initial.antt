-- ===== src/IoApic/Initial.antt =====
-- `init_IOAPIC` of kernel/src/drivers/interrupt/APIC/ioapic.c as a whole, on tables that stand for an address
-- space.
use yoix.Base.{ℕ, ◌+◌, ◌%◌, ◌^◌, ◌<◌, ◌≡◌, List, [], ◌∷◌, ◌==◌, if◌then◌else◌}
use yoix.Paging.Machine.{Machine}
use yoix.Paging.Space.Refines.{AddressSpace, Represents}
use yoix.Acpi.Ops.{Bytes}
use yoix.IoApic.Redirection.{IoApics}
use yoix.IoApic.Init.{Setup, ioapic_address}
use yoix.IoApic.Windows.{Windows}

-- The physical addresses from `i` on are those of the entries.
abbrev pub addresses : Bytes → ℕ → List ℕ → (ℕ → ℕ) → ℕ → ℕ
addresses m i [] f = f
addresses m i (entry ∷ entries) f =
    addresses m (i + 1) entries (λ j. if j == i then ioapic_address m entry else f j)

-- The number of a register is written to the window of the first I/O APIC, which then answers.
abbrev asked : ℕ → IoApics → IoApics
asked register s = record s { written = ((s.virt_address 0 + 0) % 2 ^ 64, register) ∷ s.written }

abbrev pub Device : Type 0
Device = List (ℕ × ℕ) → ℕ → ℕ

abbrev answer : Device → IoApics → ℕ
answer device s = device s.written ((s.virt_address 0 + 0x10) % 2 ^ 64)

-- The state before the windows are mapped.
abbrev pub listed : Bytes → List ℕ → List ℕ → Setup → Setup
listed m entries isos s = record s {
  ioapic_entries = entries;
  apics = record s.apics { iso_entries = isos };
  phys_address = addresses m 0 entries s.phys_address;
}

-- What `init_IOAPIC` leaves: the I/O APICs and the overrides of the table, the addresses of the I/O APICs,
-- their windows in the address space, and what the first I/O APIC answers to the registers 1 and 0.
pub record Initialized (offset : ℕ) (m : Bytes) (device : Device) (entries isos : List ℕ)
    (s : Setup) (space : AddressSpace) (s' : Setup) : Type 0 where
  pub mapped : Setup
  pub space' : AddressSpace
  pub level : ℕ → ℕ
  pub windows : Windows offset 0 entries (listed m entries isos s) space mapped space'
  pub stands : Represents offset s'.machine level space'
  pub found : s'.ioapic_entries ≡ entries
  pub apics : s'.apics ≡ asked 0 (asked 1 mapped.apics)
  pub phys_address : s'.phys_address ≡ mapped.phys_address
  pub version : s'.ioapic_version ≡ answer device (asked 1 mapped.apics)
  pub id : s'.ioapic_id ≡ answer device (asked 0 (asked 1 mapped.apics))

module _ {offset : ℕ} (m : Bytes) (device : Device) (entry : ℕ) (entries isos : List ℕ) (s : Setup)
    {level : ℕ → ℕ} {space : AddressSpace} (rep : Represents offset s.machine level space)
    (lo : 1 < offset) (hi : offset < 2 ^ 64) where
  -- The state at the end, from that after the windows.
  abbrev ended : Setup → Setup
  ended mid = record mid {
    apics = asked 0 (asked 1 mid.apics);
    ioapic_version = answer device (asked 1 mid.apics);
    ioapic_id = answer device (asked 0 (asked 1 mid.apics));
  }
