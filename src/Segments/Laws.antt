-- ===== src/Segments/Laws.antt =====
-- The descriptors of kernel/src/memory/gdt.c as the processor reads them.
use yoix.Base.{ℕ, ◌+◌, ◌*◌, ◌/◌, ◌%◌, ◌^◌, ◌<◌, ◌≡◌, refl, ap, ◌∙◌, bit_and, bit_or, arith}
use yoix.Base.Bits.{bit_and-mask, bit_or-onto}
use yoix.Segments.Ops.{Descriptor, TssDescriptor, encode_gdt_entry, encode_tss_entry}

-- The processor's reading of a descriptor.
abbrev pub base_of : Descriptor → ℕ
base_of d = d.base_low + d.base_middle * 2 ^ 16 + d.base_high * 2 ^ 24

abbrev pub limit_of : Descriptor → ℕ
limit_of d = d.limit_low + d.flags % 2 ^ 4 * 2 ^ 16

abbrev pub flags_of : Descriptor → ℕ
flags_of d = d.flags / 2 ^ 4

abbrev pub tss_base_of : TssDescriptor → ℕ
tss_base_of d = base_of d.main + d.base_tss * 2 ^ 32

-- Every field fits its width.
pub record Fits (d : Descriptor) : Type 0 where
  pub limit_low : d.limit_low < 2 ^ 16
  pub base_low : d.base_low < 2 ^ 16
  pub base_middle : d.base_middle < 2 ^ 8
  pub flags : d.flags < 2 ^ 8
  pub base_high : d.base_high < 2 ^ 8

flags_field :
    (limit flags : ℕ)
    → bit_or (bit_and (limit / 2 ^ 16) 0x0F) (flags * 2 ^ 4)
      ≡ flags * 2 ^ 4 + limit / 2 ^ 16 % 2 ^ 4
flags_field limit flags =
    ap (λ n. bit_or n (flags * 2 ^ 4)) (bit_and-mask 4 (limit / 2 ^ 16))
    ∙ bit_or-onto 4 flags (limit / 2 ^ 16 % 2 ^ 4) (omega arith)

-- A descriptor that `encodeGDTEntry` writes is read back as the low 32 bits of the base, the low 20 of
-- the limit, the low 4 of the flags and the access byte, and every field fits its width.
pub encode_gdt_entry-decoded :
    (base limit access_byte flags : ℕ)
    → (base_of (encode_gdt_entry base limit access_byte flags) ≡ base % 2 ^ 32)
      × (limit_of (encode_gdt_entry base limit access_byte flags) ≡ limit % 2 ^ 20)
      × (flags_of (encode_gdt_entry base limit access_byte flags) ≡ flags % 2 ^ 4)
      × ((encode_gdt_entry base limit access_byte flags).access ≡ access_byte)
      × Fits (encode_gdt_entry base limit access_byte flags)
unfolding encode_gdt_entry
encode_gdt_entry-decoded base limit access_byte flags =
    let low = bit_and-mask 16 base in
    let middle = bit_and-mask 8 (base / 2 ^ 16) in
    let high = bit_and-mask 8 (base / 2 ^ 24) in
    let limits = bit_and-mask 16 limit in
    let field = flags_field limit flags in
    (
      omega (arith, low, middle, high),
      omega (arith, limits, field),
      omega (arith, field),
      refl,
      record {
        limit_low = omega (arith, limits);
        base_low = omega (arith, low);
        base_middle = omega (arith, middle);
        flags = omega arith;
        base_high = omega (arith, high);
      },
    )

-- The descriptor of a task state is read back with its whole 64-bit base, and the low 20
-- bits of its limit.
pub encode_tss_entry-decoded :
    (base limit access_byte flags : ℕ)
    → base < 2 ^ 64
    → (tss_base_of (encode_tss_entry base limit access_byte flags) ≡ base)
      × (limit_of (encode_tss_entry base limit access_byte flags).main ≡ limit % 2 ^ 20)
unfolding encode_tss_entry
encode_tss_entry-decoded base limit access_byte flags h =
    let (low, limits, _, _, _) = encode_gdt_entry-decoded base limit access_byte flags in
    (omega (arith, low, bit_and-mask 32 (base / 2 ^ 32)), limits)
