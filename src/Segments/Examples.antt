-- ===== src/Segments/Examples.antt =====
-- Descriptors of kernel/src/memory/gdt.c at concrete values.
use yoix.Base.{◌%◌, ◌^◌, ◌≡◌, refl, arith}
use yoix.Segments.Ops.{encode_gdt_entry, encode_tss_entry, init_gdt}
use yoix.Segments.Laws.{
  base_of, limit_of, flags_of, tss_base_of, Fits, encode_gdt_entry-decoded,
  encode_tss_entry-decoded,
}

table_limit : (init_gdt 0x1000 0x2000).ptr_limit ≡ 55
unfolding init_gdt
table_limit = refl

encode_gdt_entry-decoded_example :
    (base_of (encode_gdt_entry 0x12345678 0xFFFFF 0x9A 0xA) ≡ 0x12345678 % 2 ^ 32)
    × (limit_of (encode_gdt_entry 0x12345678 0xFFFFF 0x9A 0xA) ≡ 0xFFFFF % 2 ^ 20)
    × (flags_of (encode_gdt_entry 0x12345678 0xFFFFF 0x9A 0xA) ≡ 0xA % 2 ^ 4)
    × ((encode_gdt_entry 0x12345678 0xFFFFF 0x9A 0xA).access ≡ 0x9A)
    × Fits (encode_gdt_entry 0x12345678 0xFFFFF 0x9A 0xA)
encode_gdt_entry-decoded_example = encode_gdt_entry-decoded 0x12345678 0xFFFFF 0x9A 0xA

encode_tss_entry-decoded_example :
    (tss_base_of (encode_tss_entry 0xFFFF800000001000 115 0x89 0) ≡ 0xFFFF800000001000)
    × (limit_of (encode_tss_entry 0xFFFF800000001000 115 0x89 0).main ≡ 115 % 2 ^ 20)
encode_tss_entry-decoded_example =
    encode_tss_entry-decoded 0xFFFF800000001000 115 0x89 0 (omega arith)
