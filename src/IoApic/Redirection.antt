-- ===== src/IoApic/Redirection.antt =====
-- kernel/src/drivers/interrupt/APIC/ioapic.c: the redirection entries and the registers of the I/O
-- APIC, over the words that are written to its window. ioapic.h: `union RedirectionEntry`.
use yoix.Base.{
  not, ◌&&◌, ◌==◌, ℕ, ◌+◌, ◌-◌, ◌*◌, ◌/◌, ◌%◌, ◌^◌, List, ◌∷◌, Prog, some, check, ◌>>◌, ltb,
}
use yoix.Acpi.Ops.{Bytes, read_u32}
use yoix.IoApic.Ops.{get_iso_gsi}

-- The bit fields, of 8, 3, 1, 1, 1, 1, 1, 1, 39 and 8 bits.
pub record RedirectionEntry : Type 0 where
  pub vector : ℕ
  pub delivery_mode : ℕ
  pub destination_mode : ℕ
  pub delivery_status : ℕ
  pub pin_polarity : ℕ
  pub remote_irr : ℕ
  pub trigger_mode : ℕ
  pub mask : ℕ
  pub reserved_bits : ℕ
  pub destination : ℕ

-- The two words that share the union with the fields.
unfoldable pub lower_dword : RedirectionEntry → ℕ
lower_dword e =
    e.vector
    + 2 ^ 8 * e.delivery_mode
    + 2 ^ 11 * e.destination_mode
    + 2 ^ 12 * e.delivery_status
    + 2 ^ 13 * e.pin_polarity
    + 2 ^ 14 * e.remote_irr
    + 2 ^ 15 * e.trigger_mode
    + 2 ^ 16 * e.mask
    + 2 ^ 17 * (e.reserved_bits % 2 ^ 15)

unfoldable pub upper_dword : RedirectionEntry → ℕ
upper_dword e = e.reserved_bits / 2 ^ 15 + 2 ^ 24 * e.destination

unfoldable pub write_redir : ℕ → ℕ → ℕ → ℕ → ℕ → ℕ → ℕ → RedirectionEntry → RedirectionEntry
write_redir vector delv_mode dest_mode polarity trigger mask dest redir = record redir {
  vector = vector % 2 ^ 8;
  delivery_mode = delv_mode % 2 ^ 3;
  destination_mode = dest_mode % 2;
  pin_polarity = polarity % 2;
  trigger_mode = trigger % 2;
  mask = mask % 2;
  destination = dest % 2 ^ 8;
}

-- `virt_Address` and `iso_entries` up to `iso_count`, and the words written to the windows, the last
-- first.
pub record IoApics : Type 0 where
  pub virt_address : ℕ → ℕ
  pub iso_entries : List ℕ
  pub written : List (ℕ × ℕ)

-- An index past the end of `virt_Address` is a fault, and so is a window that is NULL.
abbrev pub put : ℕ → ℕ → ℕ → Prog IoApics (Unit {0})
put index offset v s =
    (check (ltb index 16 && not (s.virt_address index == 0)) >> λ s.
    some (tt, record s { written = ((s.virt_address index + offset) % 2 ^ 64, v) ∷ s.written }))
      s

-- What the device answers is a function of the words written so far and the address.
unfoldable pub ioapic_read : (List (ℕ × ℕ) → ℕ → ℕ) → ℕ → ℕ → Prog IoApics ℕ
ioapic_read device reg_off index =
    put index 0 reg_off >> λ s. some (device s.written ((s.virt_address index + 0x10) % 2 ^ 64), s)

unfoldable pub ioapic_write : ℕ → ℕ → ℕ → Prog IoApics (Unit {0})
ioapic_write reg_off value index = do put index 0 reg_off; put index 0x10 value

unfoldable pub offset_lower : ℕ → ℕ
offset_lower pin = (0x10 + pin * 2) % 2 ^ 8

unfoldable pub offset_upper : ℕ → ℕ
offset_upper pin = (0x10 + pin * 2 + 1) % 2 ^ 8

-- The field `GSI_base` of `struct IOAPIC`.
abbrev pub gsi_base : Bytes → ℕ → ℕ
gsi_base m entry = read_u32 m (entry + 8)

unfoldable pub get_pin : Bytes → ℕ → ℕ → IoApics → ℕ
get_pin m entry irq s =
    (get_iso_gsi s.iso_entries irq m + 2 ^ 32 - gsi_base m entry) % 2 ^ 32 % 2 ^ 8

unfoldable pub load_redir : Bytes → RedirectionEntry → ℕ → ℕ → Prog IoApics (Unit {0})
load_redir m redir entry irq s =
    let pin = get_pin m entry irq s in
    (do
      ioapic_write (offset_lower pin) (lower_dword redir) 0
      ioapic_write (offset_upper pin) (upper_dword redir) 0)
      s

-- `Get_APICID`, on the value of the register of the local APIC.
unfoldable pub get_apicid : ℕ → ℕ
get_apicid register = register % 2 ^ 8 / 2 ^ 24
