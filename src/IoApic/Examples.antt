-- ===== src/IoApic/Examples.antt =====
-- `FindEntries` on a concrete table, and a redirection entry.
use yoix.Base.{ℕ, ◌+◌, ◌*◌, arith, ◌≡◌, refl, true, some, List, [], ◌∷◌, ◌==◌, if◌then◌else◌}
use yoix.Acpi.Ops.{Bytes, table_length}
use yoix.IoApic.Ops.{find_from, find_entries, madt_size, get_iso_gsi}
use yoix.IoApic.Redirection.{RedirectionEntry, IoApics, write_redir, load_redir, get_pin}
use yoix.IoApic.Programming.{Reads, select, load_redir-Reads}
use yoix.IoApic.Init.{Setup}
use yoix.Paging.Examples.{machine}
use yoix.IoApic.Laws.{Found, find_entries-Found}

-- A table of 58 bytes at 0x100, with an entry of type 0 and 8 bytes, and one of type 2 and 6 bytes.
abbrev table : Bytes
table a =
    if a == 0x104
    then 58
    else if a == 0x12D
    then 8
    else if a == 0x134
    then 2
    else if a == 0x135
    then 6
    else if a == 0x137
    then 9
    else 0

find_entries_runs : find_entries 0x100 2 true 16 table ≡ some (0x134 ∷ [])
unfolding find_entries find_from
find_entries_runs = refl

get_iso_gsi_runs : get_iso_gsi (0x134 ∷ []) 9 table ≡ 0
unfolding get_iso_gsi
get_iso_gsi_runs = refl

find_entries-Found_example :
    (ps : List ℕ) × (find_entries 0x100 2 true 16 table ≡ some ps)
    × Found table (0x100 + table_length table 0x100) 2 (0x100 + madt_size) 16 ps
find_entries-Found_example = find_entries-Found 0x100 2 16 table

abbrev blank : RedirectionEntry
blank = record {
  vector = 0;
  delivery_mode = 0;
  destination_mode = 0;
  delivery_status = 0;
  pin_polarity = 0;
  remote_irr = 0;
  trigger_mode = 0;
  mask = 0;
  reserved_bits = 0;
  destination = 0;
}

abbrev window : IoApics
window = record { virt_address = λ index. 0xFEC00000; iso_entries = []; written = [] }

-- Line 9, at vector 0x29 of processor 1: pin 9, since the I/O APIC at 0x300 starts at 0.
load_redir-Reads_example :
    (lower : ℕ) × (upper : ℕ) × (load_redir
        (λ _. 0)
        (write_redir 0x29 0 0 0 1 0 1 blank)
        0x300
        9
        window
      ≡ some (
        tt,
        record window {
          written =
              select 0xFEC00000
                (0x11 + 2 * get_pin (λ _. 0) 0x300 9 window)
                upper
                (select 0xFEC00000 (0x10 + 2 * get_pin (λ _. 0) 0x300 9 window) lower []);
        },
      ))
    × Reads 0x29 0 0 0 1 0 1 lower upper
unfolding get_pin get_iso_gsi
load_redir-Reads_example =
    load_redir-Reads 0x29 0 0 0 1 0 1 blank (λ _. 0) 0x300 9 window
      (record {
        delivery_status = omega arith;
        remote_irr = omega arith;
        reserved_bits = omega arith;
      })
      (omega arith) (omega arith)

-- The table with an I/O APIC in front, whose registers lie at 0xFEC00000.
abbrev with_ioapic : Bytes
with_ioapic a =
    if a == 0x104
    then 62
    else if a == 0x12C
    then 1
    else if a == 0x12D
    then 12
    else if a == 0x132
    then 0xC0
    else if a == 0x133
    then 0xFE
    else if a == 0x138
    then 2
    else if a == 0x139
    then 6
    else 0

abbrev blank_setup : Setup
blank_setup = record {
  machine = machine;
  apics = record { virt_address = λ i. 0; iso_entries = []; written = [] };
  ioapic_entries = [];
  phys_address = λ i. 0;
  ioapic_version = 0;
  ioapic_id = 0;
}
