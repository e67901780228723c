-- ===== src/LocalApic/Examples.antt =====
-- The local APIC of kernel/src/system/interrupt/APIC/apic.c on the machine of the page tables.
use yoix.Base.{ℕ, ◌<◌, ◌^◌, ◌≡◌, ◌↔◌, refl, some, [], arith, true, false}
use yoix.Paging.Examples.{machine, machine-Represents, offset}
use yoix.Paging.Space.{translate}
use yoix.LocalApic.Ops.{
  LocalApic, check_apic, cpu_has_msr, cpu_set_apic_base, cpu_get_apic_base, enable_apic,
  disable_apic,
}
use yoix.LocalApic.Laws.{set_apic_base-get_apic_base}
use yoix.LocalApic.Switching.{Enabled, enable_apic-Enabled, Disabled, disable_apic-Disabled}

-- The registers lie at 0xFEE00000, and the processor is the first to start.
abbrev local_apic : LocalApic
local_apic = record { machine = machine; msr = λ i. (0xFEE00900, 0); g_virt_apic = 0; written = [] }

check_apic_runs : check_apic (λ leaf. (0, 0x200)) ≡ true
unfolding check_apic
check_apic_runs = refl

cpu_has_msr_runs : cpu_has_msr (λ leaf. (0, 0x200)) ≡ false
unfolding cpu_has_msr
cpu_has_msr_runs = refl

-- The shift by 32 as the processor does it, with the count modulo 32.
set_apic_base-get_apic_base_example :
    (s' : LocalApic) × (base : ℕ) × (cpu_set_apic_base 0xFEE00000 local_apic ≡ some (tt, s'))
    × (cpu_get_apic_base (λ n. n) s' ≡ some (base, s'))
    × ((base ≡ 0xFEE00000) ↔ (0xFEE00000 < 2 ^ 32))
set_apic_base-get_apic_base_example =
    set_apic_base-get_apic_base (λ n. n) refl 0xFEE00000 local_apic refl (omega arith)

enable_apic-Enabled_example :
    (s' : LocalApic) × (enable_apic (λ n. n) local_apic ≡ some (tt, s'))
    × Enabled offset (translate offset machine) local_apic s'
enable_apic-Enabled_example =
    enable_apic-Enabled (λ n. n) refl local_apic machine-Represents refl refl (omega arith)

disable_apic-Disabled_example :
    (s' : LocalApic) × (disable_apic (λ n. n) (λ writes address. 0x1FF) local_apic ≡ some (tt, s'))
    × Disabled offset (translate offset machine) (λ writes address. 0x1FF) local_apic s'
disable_apic-Disabled_example =
    disable_apic-Disabled (λ n. n) refl local_apic machine-Represents refl refl (omega arith)
      (λ writes address. 0x1FF)
