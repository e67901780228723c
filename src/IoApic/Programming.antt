-- ===== src/IoApic/Programming.antt =====
-- What `writeRedir` and `loadRedir` program.
use yoix.Base.{refl, false, ◌==◌, ℕ, ◌+◌, ◌*◌, ◌/◌, ◌%◌, ◌^◌, ◌<◌, ◌≡◌, List, ◌∷◌, some, arith}
use yoix.Acpi.Ops.{Bytes}
use yoix.IoApic.Redirection.{
  RedirectionEntry, lower_dword, upper_dword, write_redir, IoApics, ioapic_write, offset_lower,
  offset_upper, get_pin, load_redir, get_apicid,
}

-- The two words are an entry as the I/O APIC reads it: the vector in bits 0 to 7, and on to the
-- destination in bits 56 to 63.
pub record Reads (vector delv_mode dest_mode polarity trigger mask dest lower upper : ℕ)
    : Type 0 where
  pub lower_word : lower < 2 ^ 32
  pub upper_word : upper < 2 ^ 32
  pub vector_bits : lower % 2 ^ 8 ≡ vector % 2 ^ 8
  pub delivery_bits : lower / 2 ^ 8 % 2 ^ 3 ≡ delv_mode % 2 ^ 3
  pub destination_mode_bit : lower / 2 ^ 11 % 2 ≡ dest_mode % 2
  pub polarity_bit : lower / 2 ^ 13 % 2 ≡ polarity % 2
  pub trigger_bit : lower / 2 ^ 15 % 2 ≡ trigger % 2
  pub mask_bit : lower / 2 ^ 16 % 2 ≡ mask % 2
  pub destination_bits : upper / 2 ^ 24 ≡ dest % 2 ^ 8

-- The bits that `writeRedir` leaves alone fit their fields.
pub record Fits (redir : RedirectionEntry) : Type 0 where
  pub delivery_status : redir.delivery_status < 2
  pub remote_irr : redir.remote_irr < 2
  pub reserved_bits : redir.reserved_bits < 2 ^ 39

write_redir-Reads :
    (vector delv_mode dest_mode polarity trigger mask dest : ℕ) (redir : RedirectionEntry)
    → Fits redir
    → Reads vector delv_mode dest_mode polarity trigger mask dest
        (lower_dword (write_redir vector delv_mode dest_mode polarity trigger mask dest redir))
        (upper_dword (write_redir vector delv_mode dest_mode polarity trigger mask dest redir))
unfolding lower_dword upper_dword write_redir
write_redir-Reads vector delv_mode dest_mode polarity trigger mask dest redir f = record {
  lower_word = omega (arith, f.delivery_status, f.remote_irr);
  upper_word = omega (arith, f.reserved_bits);
  vector_bits = omega (arith, f.delivery_status, f.remote_irr);
  delivery_bits = omega (arith, f.delivery_status, f.remote_irr);
  destination_mode_bit = omega (arith, f.delivery_status, f.remote_irr);
  polarity_bit = omega (arith, f.delivery_status, f.remote_irr);
  trigger_bit = omega (arith, f.delivery_status, f.remote_irr);
  mask_bit = omega (arith, f.delivery_status, f.remote_irr);
  destination_bits = omega (arith, f.reserved_bits);
}

-- A selected register and its value, written to the window at `base`.
abbrev pub select : ℕ → ℕ → ℕ → List (ℕ × ℕ) → List (ℕ × ℕ)
select base register v written =
    ((base + 0x10) % 2 ^ 64, v) ∷ ((base + 0) % 2 ^ 64, register) ∷ written

ioapic_write-run :
    (reg_off v : ℕ) (s : IoApics)
    → 0 < s.virt_address 0
    → ioapic_write reg_off v 0 s
      ≡ some (tt, record s { written = select (s.virt_address 0) reg_off v s.written })
unfolding ioapic_write
ioapic_write-run reg_off v s mapped = rw (real, real) refl
  where
    real : (s.virt_address 0 == 0) ≡ false
    real = ground (arith, mapped)

-- With a window of the first I/O APIC, the entry of `writeRedir`, loaded by `loadRedir`, goes to the two
-- registers of the pin, 0x10 + 2 pin and the next, as long as the pin is below 120. As two words it
-- has every argument in its field, cut to the width of the field.
pub load_redir-Reads :
    (vector delv_mode dest_mode polarity trigger mask dest : ℕ) (redir : RedirectionEntry)
    (m : Bytes) (entry irq : ℕ) (s : IoApics)
    → Fits redir
    → 0 < s.virt_address 0
    → get_pin m entry irq s < 120
    → (lower : ℕ) × (upper : ℕ) × (load_redir m
          (write_redir vector delv_mode dest_mode polarity trigger mask dest redir)
          entry
          irq
          s
        ≡ some (
          tt,
          record s {
            written =
                select
                  (s.virt_address 0)
                  (0x11 + 2 * get_pin m entry irq s)
                  upper
                  (select (s.virt_address 0) (0x10 + 2 * get_pin m entry irq s) lower s.written);
          },
        ))
      × Reads vector delv_mode dest_mode polarity trigger mask dest lower upper
unfolding load_redir offset_lower offset_upper
load_redir-Reads vector delv_mode dest_mode polarity trigger mask dest redir m entry irq s fits
      mapped small =
    let e : RedirectionEntry =
      write_redir vector delv_mode dest_mode polarity trigger mask dest redir in
    let pin : ℕ = get_pin m entry irq s in
    let first : (0x10 + pin * 2) % 2 ^ 8 ≡ 0x10 + 2 * pin = omega (arith, small) in
    let second : (0x10 + pin * 2 + 1) % 2 ^ 8 ≡ 0x11 + 2 * pin = omega (arith, small) in
    let selected : IoApics = record s {
      written = select (s.virt_address 0) (0x10 + 2 * pin) (lower_dword e) s.written;
    } in
    (
      lower_dword e,
      upper_dword e,
      rw (first, second, ioapic_write-run (0x10 + 2 * pin) (lower_dword e) s mapped)
          (ioapic_write-run (0x11 + 2 * pin) (upper_dword e) selected mapped),
      write_redir-Reads vector delv_mode dest_mode polarity trigger mask dest redir fits,
    )

-- The register's upper bits are cut off before they are shifted down.
get_apicid-zero : (register : ℕ) → get_apicid register ≡ 0
unfolding get_apicid
get_apicid-zero register = omega arith
