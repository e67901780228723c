-- ===== src/Segments/Ops.antt =====
-- kernel/src/memory/gdt.c: the encoding of descriptors and the table that `initGdt` builds.
use yoix.Base.{ℕ, ◌+◌, ◌-◌, ◌*◌, ◌/◌, ◌%◌, ◌^◌, bit_and, bit_or, List, [], ◌∷◌}

-- `GDT_t`.
pub record Descriptor : Type 0 where
  pub limit_low : ℕ
  pub base_low : ℕ
  pub base_middle : ℕ
  pub access : ℕ
  pub flags : ℕ
  pub base_high : ℕ

-- `GDT_TSS_t`.
pub record TssDescriptor : Type 0 where
  pub main : Descriptor
  pub base_tss : ℕ
  pub unused : ℕ

-- `flags << 4` is an int, and the field keeps its low byte.
unfoldable pub encode_gdt_entry : ℕ → ℕ → ℕ → ℕ → Descriptor
encode_gdt_entry base limit access_byte flags = record {
  limit_low = bit_and limit 0xFFFF;
  base_low = bit_and base 0xFFFF;
  base_middle = bit_and (base / 2 ^ 16) 0xFF;
  access = access_byte;
  flags = bit_or (bit_and (limit / 2 ^ 16) 0x0F) (flags * 2 ^ 4) % 2 ^ 8;
  base_high = bit_and (base / 2 ^ 24) 0xFF;
}

unfoldable pub encode_tss_entry : ℕ → ℕ → ℕ → ℕ → TssDescriptor
encode_tss_entry base limit access_byte flags = record {
  main = encode_gdt_entry base limit access_byte flags;
  base_tss = bit_and (base / 2 ^ 32) 0xFFFFFFFF;
  unused = 0;
}

abbrev pub kernel_code : ℕ
kernel_code = 0x9A

abbrev pub kernel_data : ℕ
kernel_data = 0x92

abbrev pub user_code : ℕ
user_code = 0xF2

abbrev pub user_data : ℕ
user_data = 0xFA

abbrev pub flag_data_64 : ℕ
flag_data_64 = 0xC

abbrev pub flag_code_64 : ℕ
flag_code_64 = 0xA

abbrev pub tss_access_byte : ℕ
tss_access_byte = 0x89

abbrev pub gdt_count : ℕ
gdt_count = 5

-- `sizeof(TSS_t)`, `sizeof(GDT_t)` and `sizeof(GDT_TSS_t)`: the structs are packed.
abbrev pub tss_size : ℕ
tss_size = 4 + 3 * 8 + 8 + 7 * 8 + 8 + 4 + 4

abbrev pub descriptor_size : ℕ
descriptor_size = 8

abbrev pub tss_descriptor_size : ℕ
tss_descriptor_size = 16

-- The descriptors, the task state (zeroed, one entry for each byte) and the operand of `lgdt`.
pub record Gdt : Type 0 where
  pub entry : List Descriptor
  pub entry_tss : TssDescriptor
  pub tss : ℕ → ℕ
  pub ptr_base : ℕ
  pub ptr_limit : ℕ

-- `initGdt` for a table whose `tss` and `entry` lie at the given addresses.
unfoldable pub init_gdt : ℕ → ℕ → Gdt
init_gdt tss_address entry_address = record {
  entry =
      encode_gdt_entry 0 0 0 0
      ∷ encode_gdt_entry 0 0xFFFFF kernel_code flag_code_64
      ∷ encode_gdt_entry 0 0xFFFFF kernel_data flag_data_64
      ∷ encode_gdt_entry 0 0xFFFFF user_data flag_data_64
      ∷ encode_gdt_entry 0 0xFFFFF user_code flag_code_64
      ∷ [];
  entry_tss = encode_tss_entry tss_address (tss_size - 1) tss_access_byte 0;
  tss = λ _. 0;
  ptr_base = entry_address;
  ptr_limit = (descriptor_size * gdt_count + tss_descriptor_size - 1) % 2 ^ 16;
}
