-- ===== src/Idt/Examples.antt =====
-- A table with its stubs 16 bytes apart, and a sequence of interrupts.
use yoix.Base.{◌-◌, ℕ, ◌+◌, ◌*◌, ◌%◌, ◌^◌, ◌≡◌, refl, false, none, [], ◌∷◌, List, arith}
use yoix.Idt.Ops.{
  Idt, idt_init, Handling, write_lapic_register, apic_eoi, irq_handler, interrupt_handler,
}
use yoix.Idt.Laws.Gates.{Filled, idt_init-Filled}
use yoix.Idt.Laws.Handler.{handle_all, Counted, handle_all-Counted}

abbrev stubs : ℕ → ℕ
stubs v = 0xFFFFFFFF80000000 + v % 256 * 16

abbrev empty_table : Idt
empty_table = record {
  idt = λ v. record {
    isr_low = 0;
    kernel_cs = 0;
    ist = 0;
    attributes = 0;
    isr_mid = 0;
    isr_high = 0;
    reserved = 0;
  };
  vectors = λ v. false;
  idtr = record { limit = 0; base = 0 };
  loaded = none;
  enabled = false;
}

idt_init-Filled_example : Filled stubs 0x200000 empty_table (idt_init stubs 0x200000 empty_table)
idt_init-Filled_example = idt_init-Filled stubs 0x200000 empty_table (λ v. omega arith)

abbrev running : Handling
running = record { tick = 2 ^ 64 - 1; g_virt_apic = 0xFEE00000; writes = []; hangs = false }

abbrev arrivals : List ℕ
arrivals = 0x20 ∷ 0x21 ∷ 0x30 ∷ 0x20 ∷ []

-- The tick wraps, and three of the four interrupts are acknowledged.
arrivals_run :
    handle_all arrivals running
    ≡ record running { tick = 1; writes = (0xFEE000B0, 0) ∷ (0xFEE000B0, 0) ∷ (0xFEE000B0, 0) ∷ [] }
unfolding interrupt_handler apic_eoi write_lapic_register irq_handler
arrivals_run = refl

handle_all-Counted_example : Counted arrivals running (handle_all arrivals running)
handle_all-Counted_example =
    handle_all-Counted arrivals running
      (omega arith, (omega arith, (omega arith, (omega arith, tt)))) (omega arith)
