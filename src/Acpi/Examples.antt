-- ===== src/Acpi/Examples.antt =====
-- The tables of the firmware at a concrete memory.
use yoix.Base.{ℕ, ◌-◌, ◌≡◌, ◌↔◌, refl, true, some, arith, ◌==◌, if◌then◌else◌, leb, ltb}
use yoix.Acpi.Ops.{
  Bytes, strncmp, is_zero, difference, search_entries, find_table, get_xsdt, get_rsdt,
}
use yoix.Acpi.Laws.{Agree, strncmp-Agree, Search, search_entries-Search}

-- A root pointer of revision 0 at 0x100, its table of one entry at 0x200, that entry's table at 0x300
-- with the signature "APIC", and the same four bytes at 0x400.
abbrev signature : ℕ → ℕ
signature i =
    if i == 0 then 65 else if i == 1 then 80 else if i == 2 then 73 else if i == 3 then 67 else 0

abbrev firmware : Bytes
firmware a =
    if leb 0x400 a
    then signature (a - 0x400)
    else if leb 0x300 a
    then (if ltb a 0x304 then signature (a - 0x300) else 0)
    else if a == 0x225
    then 3
    else if a == 0x204
    then 40
    else if a == 0x111
    then 2
    else 0

find_table_runs : find_table (some 0) 0x100 0x400 firmware ≡ some 0x300
unfolding find_table get_xsdt get_rsdt search_entries strncmp difference
find_table_runs = refl

strncmp-Agree_example :
    (is_zero (strncmp 0x300 0x400 4 firmware) ≡ true) ↔ Agree 0x300 0x400 4 firmware
strncmp-Agree_example = strncmp-Agree 0x300 0x400 4 firmware

abbrev one_entry : ℕ → ℕ
one_entry i = 0x300

search_entries-Search_example :
    Search
      (some 0)
      one_entry
      0x400
      1
      0
      firmware
      (search_entries (some 0) one_entry 0x400 1 0 firmware)
search_entries-Search_example =
    search_entries-Search (some 0) one_entry 0x400 1 firmware 1 0 (omega arith)
