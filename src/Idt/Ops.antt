-- ===== src/Idt/Ops.antt =====
-- kernel/src/system/interrupt/idt.c. The addresses of the assembly stubs, `isr_stub_table`, and of the
-- table itself are arguments.
use yoix.Base.{
  ℕ, zero, suc, ◌+◌, ◌-◌, ◌*◌, ◌/◌, ◌%◌, ◌^◌, bit_and, Bool, true, ◌&&◌, Option, some, List, ◌∷◌,
  ltb, ◌==◌, if◌then◌else◌,
}

-- A gate, `idt_entry_t`.
pub record IdtEntry : Type 0 where
  pub isr_low : ℕ
  pub kernel_cs : ℕ
  pub ist : ℕ
  pub attributes : ℕ
  pub isr_mid : ℕ
  pub isr_high : ℕ
  pub reserved : ℕ

-- `sizeof(idt_entry_t)`.
abbrev pub entry_size : ℕ
entry_size = 16

-- `idtr`.
pub record Idtr : Type 0 where
  pub limit : ℕ
  pub base : ℕ

-- `idt`, `vectors` and `idtr`; `loaded` is what the processor has from `lidt`, and `enabled` its
-- interrupt flag.
pub record Idt : Type 0 where
  pub idt : ℕ → IdtEntry
  pub vectors : ℕ → Bool
  pub idtr : Idtr
  pub loaded : Option Idtr
  pub enabled : Bool

unfoldable pub idt_set_descriptor : ℕ → ℕ → ℕ → Idt → Idt
idt_set_descriptor vector isr flags s = record s {
  idt = λ v.
      if v == vector
      then record {
        isr_low = bit_and isr 0xFFFF;
        kernel_cs = 0x08;
        ist = 0;
        attributes = flags;
        isr_mid = bit_and (isr / 2 ^ 16) 0xFFFF;
        isr_high = bit_and (isr / 2 ^ 32) 0xFFFFFFFF;
        reserved = 0;
      }
      else s.idt v;
}

-- A gate for the stub of a vector, marked in `vectors`.
unfoldable pub set_vector : (ℕ → ℕ) → ℕ → Idt → Idt
set_vector stubs vector s =
    let s' = idt_set_descriptor vector (stubs vector) 0x8E s in
    record s' { vectors = λ v. if v == vector then true else s'.vectors v }

-- The loop of `idt_init` from `vector` on, with the rounds left.
unfoldable pub set_vectors : (ℕ → ℕ) → ℕ → ℕ → Idt → Idt
set_vectors stubs zero vector s = s
set_vectors stubs (suc left) vector s =
    set_vectors stubs left (vector + 1) (set_vector stubs vector s)

unfoldable pub idt_init : (ℕ → ℕ) → ℕ → Idt → Idt
idt_init stubs table s =
    let s' = record s { idtr = record { base = table; limit = entry_size % 2 ^ 16 * 256 - 1 } } in
    let filled = set_vector stubs 255 (set_vectors stubs 49 0 s') in
    record filled { loaded = some filled.idtr; enabled = true }

-- What the handler works on: `tick`, `g_virt_apic`, the words written to the local APIC, the last first,
-- and whether the processor hangs.
pub record Handling : Type 0 where
  pub tick : ℕ
  pub g_virt_apic : ℕ
  pub writes : List (ℕ × ℕ)
  pub hangs : Bool

unfoldable pub write_lapic_register : ℕ → ℕ → ℕ → Handling → Handling
write_lapic_register lapic_base offset val s = record s {
  writes = ((lapic_base + offset) % 2 ^ 64, val) ∷ s.writes;
}

unfoldable pub apic_eoi : Handling → Handling
apic_eoi s = write_lapic_register s.g_virt_apic 0xB0 0 s

unfoldable pub irq_handler : ℕ → Handling → Handling
irq_handler vectors s = if vectors == 0x20 then record s { tick = (s.tick + 1) % 2 ^ 64 } else s

unfoldable pub interrupt_handler : ℕ → Handling → Handling
interrupt_handler vectors s =
    let handled =
      if ltb 31 vectors && ltb vectors 48 then apic_eoi (irq_handler vectors s) else s in
    if ltb vectors 32 then record handled { hangs = true } else handled
