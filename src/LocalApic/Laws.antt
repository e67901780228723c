-- ===== src/LocalApic/Laws.antt =====
-- The base address in its register, written and read.
use yoix.Base.{
  ℕ, ◌+◌, ◌*◌, ◌/◌, ◌%◌, ◌^◌, ◌<◌, ◌≡◌, ◌↔◌, ap, ap₂, ◌∙◌, bit_and, bit_or, some, arith, ◌==◌,
  if◌then◌else◌,
}
use yoix.Base.Digit.{bit_or-lt}
use yoix.Base.Bits.{bit_and-mask, bit_and-field, bit_or-shifted, bit_or-zero}
use yoix.Buddy.State.{u32}
use yoix.LocalApic.Ops.{LocalApic, ia32_apic_base_msr, cpu_set_apic_base, cpu_get_apic_base}

-- The low word and the high word that `cpu_set_apic_base` writes.
low_word : (apic : ℕ) → bit_or (bit_and apic 0xfffff000) 0x800 ≡ apic / 4096 % 2 ^ 20 * 4096 + 0x800
low_word apic =
    ap (λ n. bit_or n 0x800) (bit_and-field 20 12 apic)
    ∙ bit_or-shifted 12 (apic / 4096 % 2 ^ 20) 0x800 (omega arith)

module _ (wide : ℕ → ℕ) where
  -- The address that `cpu_get_apic_base` puts together from the two words.
  abbrev pub base_of : ℕ × ℕ → ℕ
  base_of words = bit_or (words.0 / 4096 % 2 ^ 20 * 4096) (u32 (wide (words.1 % 16)))

  pub get_apic_base-run :
      (s : LocalApic) → cpu_get_apic_base wide s ≡ some (base_of (s.msr ia32_apic_base_msr), s)
  unfolding cpu_get_apic_base
  get_apic_base-run s =
      ap₂ (λ a b. some (bit_or a (u32 (wide b)), s))
        (bit_and-field 20 12 (s.msr ia32_apic_base_msr).0)
        (bit_and-mask 4 (s.msr ia32_apic_base_msr).1)

-- The register of the base address holds the words, and nothing else has changed.
abbrev pub with_base : LocalApic → ℕ × ℕ → LocalApic
with_base s words = record s { msr = λ i. if i == ia32_apic_base_msr then words else s.msr i }

-- The words that stand for an address.
abbrev pub base_words : ℕ → ℕ × ℕ
base_words apic = (apic / 4096 % 2 ^ 20 * 4096 + 0x800, apic / 2 ^ 32 % 16)

pub set_apic_base-run :
    (apic : ℕ) (s : LocalApic) → cpu_set_apic_base apic s ≡ some (tt, with_base s (base_words apic))
unfolding cpu_set_apic_base
set_apic_base-run apic s =
    ap₂ (λ lo hi. some (tt, with_base s (lo, hi))) (low_word apic) (bit_and-mask 4 (apic / 2 ^ 32))

module _ (wide : ℕ → ℕ) (wide_zero : wide 0 ≡ 0) where
  -- Words whose high word has none of the digits that are shifted.
  pub base_of-low :
      (words : ℕ × ℕ) → words.1 % 16 ≡ 0 → base_of wide words ≡ words.0 / 4096 % 2 ^ 20 * 4096
  base_of-low words none_high =
      ap (bit_or (words.0 / 4096 % 2 ^ 20 * 4096))
        (ap (λ n. u32 (wide n)) none_high ∙ ap u32 wide_zero)
      ∙ bit_or-zero (words.0 / 4096 % 2 ^ 20 * 4096)

  base_of-lt : (words : ℕ × ℕ) → base_of wide words < 2 ^ 32
  base_of-lt words =
      bit_or-lt 32 (words.0 / 4096 % 2 ^ 20 * 4096) (u32 (wide (words.1 % 16))) (omega arith)
        (omega arith)

  -- With a shift by 32 that takes 0 to 0, the address of a page below 2 ^ 36 that
  -- `cpu_set_apic_base` writes is the address that `cpu_get_apic_base` then reads, exactly
  -- when it is below 2 ^ 32.
  pub set_apic_base-get_apic_base :
      (apic : ℕ) (s : LocalApic)
      → apic % 4096 ≡ 0
      → apic < 2 ^ 36
      → (s' : LocalApic) × (base : ℕ) × (cpu_set_apic_base apic s ≡ some (tt, s'))
        × (cpu_get_apic_base wide s' ≡ some (base, s'))
        × ((base ≡ apic) ↔ (apic < 2 ^ 32))
  set_apic_base-get_apic_base apic s aligned lt = (
    with_base s (base_words apic),
    base_of wide (base_words apic),
    set_apic_base-run apic s,
    get_apic_base-run wide (with_base s (base_words apic)),
    (
      (λ same. omega (arith, same, base_of-lt (base_words apic))),
      (λ low. base_of-low (base_words apic) (omega (arith, low)) ∙ omega (arith, low, aligned)),
    ),
  )
