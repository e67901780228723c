-- ===== src/Acpi/Ops.antt =====
-- kernel/src/drivers/ACPI/acpi.c over a memory of bytes at virtual addresses, with what `phy_to_virt` of
-- kernel/src/memory/vmm.c makes of the boot loader's answer. Nothing here writes. Reading through a
-- NULL pointer is a fault, `none`. Addresses inside a table do not wrap.
use yoix.Base.{
  ℕ, zero, suc, ◌+◌, ◌-◌, ◌*◌, ◌/◌, ◌%◌, ◌^◌, Bool, not, ◌&&◌, ◌||◌, false, Option, none, some, leb,
  ◌==◌, if◌then◌else◌,
}
use yoix.Buddy.State.{u64}
use yoix.Paging.Machine.{to_virt}

abbrev pub Bytes : Type 0
Bytes = ℕ → ℕ

-- An int, as the difference of two bytes.
pub data ℤ : Type 0 where
  pos negsuc : ℕ → ℤ

unfoldable pub difference : ℕ → ℕ → ℤ
difference a b = if leb b a then pos (a - b) else negsuc (b - a - 1)

unfoldable pub strncmp : ℕ → ℕ → ℕ → Bytes → ℤ
strncmp s1 s2 zero m = pos 0
strncmp s1 s2 (suc n) m =
    let rest = strncmp (s1 + 1) (s2 + 1) n m in
    if not (m s1 == 0) && (m s1 == m s2) then rest else difference (m s1) (m s2)

-- Little-endian fields.
abbrev pub read_u32 : Bytes → ℕ → ℕ
read_u32 m a = m a + m (a + 1) * 2 ^ 8 + m (a + 2) * 2 ^ 16 + m (a + 3) * 2 ^ 24

abbrev pub read_u64 : Bytes → ℕ → ℕ
read_u64 m a = read_u32 m a + read_u32 m (a + 4) * 2 ^ 32

-- The offsets of `struct XSDP_t` and of `struct ACPISDTHeader`, and the size of the latter.
abbrev pub revision : Bytes → ℕ → ℕ
revision m xsdp = m (xsdp + 15)

abbrev pub rsdt_address : Bytes → ℕ → ℕ
rsdt_address m xsdp = read_u32 m (xsdp + 16)

abbrev pub xsdt_address : Bytes → ℕ → ℕ
xsdt_address m xsdp = read_u64 m (xsdp + 24)

abbrev pub table_length : Bytes → ℕ → ℕ
table_length m header = read_u32 m (header + 4)

abbrev pub header_size : ℕ
header_size = 36

-- The loop of `doChecksum`, with the rounds left.
unfoldable pub sum_bytes : ℕ → ℕ → ℕ → Bytes → ℕ
sum_bytes zero a sum m = sum
sum_bytes (suc left) a sum m = sum_bytes left (a + 1) ((sum + m a) % 2 ^ 8) m

unfoldable pub do_checksum : ℕ → Bytes → Bool
do_checksum header m = sum_bytes (table_length m header) header 0 m == 0

unfoldable pub get_xsdt : Option ℕ → ℕ → Bytes → ℕ
get_xsdt hhdm xsdp m =
    if not (revision m xsdp == 2) || (xsdt_address m xsdp == 0)
    then 0
    else to_virt hhdm (xsdt_address m xsdp)

unfoldable pub get_rsdt : Option ℕ → ℕ → Bytes → ℕ
get_rsdt hhdm rsdp m = to_virt hhdm (rsdt_address m rsdp)

-- `strncmp(h->Signature, Table_Sign, 4) == 0`.
abbrev pub is_zero : ℤ → Bool
is_zero (pos n) = n == 0
is_zero (negsuc n) = false

-- The loops of `findTable`, with the rounds left: entry `i` of a table is given by its address.
unfoldable pub search_entries : Option ℕ → (ℕ → ℕ) → ℕ → ℕ → ℕ → Bytes → Option ℕ
search_entries hhdm entry sign zero i m = some 0
search_entries hhdm entry sign (suc left) i m =
    let rest = search_entries hhdm entry sign left (i + 1) m in
    let h = to_virt hhdm (entry i) in
    if h == 0 then none else if is_zero (strncmp h sign 4 m) then some h else rest

abbrev pub entry_count : ℕ → ℕ → ℕ
entry_count length width = u64 (length + 2 ^ 64 - header_size) / width

unfoldable pub find_table : Option ℕ → ℕ → ℕ → Bytes → Option ℕ
find_table hhdm phy_address table_sign m =
    if phy_address == 0
    then none
    else let xsdt = get_xsdt hhdm phy_address m in
      let rsdt = get_rsdt hhdm phy_address m in
      if xsdt == 0
      then (if rsdt == 0
          then none
          else search_entries hhdm (λ i. read_u32 m (rsdt + header_size + 4 * i)) table_sign
              (entry_count (table_length m rsdt) 4) 0 m)
      else search_entries hhdm (λ i. read_u64 m (xsdt + header_size + 8 * i)) table_sign
          (entry_count (table_length m xsdt) 8) 0 m
