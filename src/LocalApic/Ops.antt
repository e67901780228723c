-- ===== src/LocalApic/Ops.antt =====
-- kernel/src/system/interrupt/APIC/apic.c but for the writes of the handlers, and
-- kernel/src/system/cpu/msr.c, over the machine of the page tables.
use yoix.Base.{
  ℕ, ◌+◌, ◌-◌, ◌/◌, ◌%◌, ◌^◌, bit_and, bit_or, not, Bool, Option, none, some, List, ◌∷◌, Prog, pure,
  ◌>>=◌, ◌>>◌, ◌==◌, if◌then◌else◌,
}
use yoix.Buddy.State.{u32}
use yoix.Paging.Machine.{Machine, page_present, page_writable, phy_to_virt}
use yoix.Paging.Ops.{map}
use yoix.IoApic.Init.{page_pcd}

-- `msr` has the low and the high word of each model-specific register; `written` lists the words
-- written to the local APIC with their addresses, the last first.
pub record LocalApic : Type 0 where
  pub machine : Machine
  pub msr : ℕ → ℕ × ℕ
  pub g_virt_apic : ℕ
  pub written : List (ℕ × ℕ)

abbrev pub ia32_apic_base_msr : ℕ
ia32_apic_base_msr = 0x1B

abbrev pub ia32_apic_base_msr_enable : ℕ
ia32_apic_base_msr_enable = 0x800

abbrev pub cpuid_feat_edx_apic : ℕ
cpuid_feat_edx_apic = 2 ^ 9

abbrev pub cpuid_flag_msr : ℕ
cpuid_flag_msr = 2 ^ 5

-- The argument gives the words that `cpuid` leaves in eax and edx.
unfoldable pub cpu_has_msr : (ℕ → ℕ × ℕ) → Bool
cpu_has_msr cpuid = not (bit_and (cpuid 1).1 cpuid_flag_msr == 0)

unfoldable pub check_apic : (ℕ → ℕ × ℕ) → Bool
check_apic cpuid = not (bit_and (cpuid 1).1 cpuid_feat_edx_apic == 0)

abbrev pub cpu_get_msr : ℕ → Prog LocalApic (ℕ × ℕ)
cpu_get_msr msr s = some (s.msr msr, s)

abbrev pub cpu_set_msr : ℕ → ℕ → ℕ → Prog LocalApic (Unit {0})
cpu_set_msr msr lo hi s = some (tt, record s { msr = λ i. if i == msr then (lo, hi) else s.msr i })

unfoldable pub cpu_set_apic_base : ℕ → Prog LocalApic (Unit {0})
cpu_set_apic_base apic =
    cpu_set_msr ia32_apic_base_msr (bit_or (bit_and apic 0xfffff000) ia32_apic_base_msr_enable)
      (bit_and (apic / 2 ^ 32) 0x0f)

-- `wide` is what the compiler makes of the shift of a word of 32 bits by 32.
unfoldable pub cpu_get_apic_base : (ℕ → ℕ) → Prog LocalApic ℕ
cpu_get_apic_base wide = do
  words ← cpu_get_msr ia32_apic_base_msr
  pure (bit_or (bit_and words.0 0xfffff000) (u32 (wide (bit_and words.1 0x0f))))

module _ {A : Type 0} where
  abbrev with_machine : LocalApic → Option (A × Machine) → Option (A × LocalApic)
  with_machine s none = none
  with_machine s (some (a, machine')) = some (a, record s { machine = machine' })

  abbrev pub on_machine : Prog Machine A → Prog LocalApic A
  on_machine call s = with_machine s (call s.machine)

abbrev pub set_virt_apic : ℕ → Prog LocalApic (Unit {0})
set_virt_apic virt s = some (tt, record s { g_virt_apic = virt })

abbrev pub window_flags : ℕ
window_flags = bit_or (bit_or page_present page_writable) page_pcd

-- The address of the spurious interrupt vector register.
abbrev pub svr : ℕ → ℕ
svr virt = (virt + 0xF0) % 2 ^ 64

abbrev pub write_word_at : ℕ → ℕ → Prog LocalApic (Unit {0})
write_word_at address val s = some (tt, record s { written = (address, val) ∷ s.written })

unfoldable pub enable_apic : (ℕ → ℕ) → Prog LocalApic (Unit {0})
enable_apic wide = do
  base ← cpu_get_apic_base wide
  cpu_set_apic_base base
  apic_phys ← cpu_get_apic_base wide
  virt ← on_machine (phy_to_virt apic_phys)
  set_virt_apic virt
  on_machine (map virt apic_phys window_flags)
  write_word_at (svr virt) (bit_or 0x100 255)

-- What the local APIC answers at an address, after the words written to it.
abbrev pub Device : Type 0
Device = List (ℕ × ℕ) → ℕ → ℕ

unfoldable pub read_lapic_register : Device → ℕ → ℕ → Prog LocalApic ℕ
read_lapic_register device lapic_base offset s =
    some (device s.written ((lapic_base + offset) % 2 ^ 64), s)

unfoldable pub disable_apic : (ℕ → ℕ) → Device → Prog LocalApic (Unit {0})
disable_apic wide device = do
  apic_phys ← cpu_get_apic_base wide
  apic_virt ← on_machine (phy_to_virt apic_phys)
  on_machine (map apic_virt apic_phys window_flags)
  old ← read_lapic_register device apic_virt 0xF0
  write_word_at (svr apic_virt) (bit_and old (2 ^ 32 - 1 - 2 ^ 8))
