-- ===== src/Idt/Laws/Handler.antt =====
-- The handler over a sequence of interrupts.
use yoix.Base.{
  ℕ, zero, suc, ◌+◌, ◌%◌, ◌^◌, ◌≤◌, ◌<◌, ◌≡◌, refl, ap, ◌∙◌, Bool, true, false, ◌&&◌, List, [], ◌∷◌,
  ltb, leb, ◌==◌, if◌then◌else◌, arith,
}
use yoix.Idt.Ops.{Handling, write_lapic_register, apic_eoi, irq_handler, interrupt_handler}

-- The interrupts one after the other.
abbrev pub handle_all : List ℕ → Handling → Handling
handle_all [] s = s
handle_all (vector ∷ vectors) s = handle_all vectors (interrupt_handler vector s)

-- None of the vectors is that of an exception.
abbrev pub Interrupts : List ℕ → Type 0
Interrupts [] = Unit {0}
Interrupts (vector ∷ vectors) = (32 ≤ vector) × Interrupts vectors

abbrev pub count : (ℕ → Bool) → List ℕ → ℕ
count test [] = 0
count test (vector ∷ vectors) = if test vector then suc (count test vectors) else count test vectors

-- A word written to the same register `n` times.
abbrev pub repeated : ℕ → ℕ × ℕ → List (ℕ × ℕ) → List (ℕ × ℕ)
repeated zero w writes = writes
repeated (suc n) w writes = w ∷ repeated n w writes

repeated-again :
    (n : ℕ) (w : ℕ × ℕ) (writes : List (ℕ × ℕ))
    → repeated n w (w ∷ writes) ≡ w ∷ repeated n w writes
repeated-again zero w writes = refl
repeated-again (suc n) w writes = ap (◌∷◌ w) (repeated-again n w writes)

abbrev pub is_timer : ℕ → Bool
is_timer vector = vector == 0x20

abbrev pub is_irq : ℕ → Bool
is_irq vector = leb 32 vector && ltb vector 48

-- The tick counts the timer's interrupts, and each of the 16 lines has one end of interrupt.
pub record Counted (vectors : List ℕ) (s s' : Handling) : Type 0 where
  pub tick : s'.tick ≡ (s.tick + count is_timer vectors) % 2 ^ 64
  pub writes :
      s'.writes ≡ repeated (count is_irq vectors) ((s.g_virt_apic + 0xB0) % 2 ^ 64, 0) s.writes
  pub g_virt_apic : s'.g_virt_apic ≡ s.g_virt_apic
  pub hangs : s'.hangs ≡ s.hangs

module _ (s : Handling) (vector : ℕ) (h : 32 ≤ vector) where
  handler-tick :
      (interrupt_handler vector s).tick
      ≡ (if is_timer vector then (s.tick + 1) % 2 ^ 64 else s.tick)
  unfolding interrupt_handler apic_eoi write_lapic_register irq_handler
  handler-tick = ground arith

  handler-writes :
      (interrupt_handler vector s).writes
      ≡ (if is_irq vector then ((s.g_virt_apic + 0xB0) % 2 ^ 64, 0) ∷ s.writes else s.writes)
  unfolding interrupt_handler apic_eoi write_lapic_register irq_handler
  handler-writes = ground arith

  handler-g_virt_apic : (interrupt_handler vector s).g_virt_apic ≡ s.g_virt_apic
  unfolding interrupt_handler apic_eoi write_lapic_register irq_handler
  handler-g_virt_apic = ground arith

  handler-hangs : (interrupt_handler vector s).hangs ≡ s.hangs
  unfolding interrupt_handler apic_eoi write_lapic_register irq_handler
  handler-hangs = ground arith

repeated_step :
    (b : Bool) (n : ℕ) (w : ℕ × ℕ) (writes : List (ℕ × ℕ))
    → repeated n w (if b then w ∷ writes else writes) ≡ repeated (if b then suc n else n) w writes
repeated_step true n w writes = repeated-again n w writes
repeated_step false n w writes = refl

-- Over a sequence of interrupts without exceptions the tick grows by one for each interrupt of the timer,
-- modulo 2^64, and every interrupt of the 16 lines, and no other, is acknowledged once at the local
-- APIC; the processor goes on.
pub handle_all-Counted :
    (vectors : List ℕ) (s : Handling)
    → Interrupts vectors
    → s.tick < 2 ^ 64
    → Counted vectors s (handle_all vectors s)
handle_all-Counted [] s interrupts word = record {
  tick = omega arith;
  writes = refl;
  g_virt_apic = refl;
  hangs = refl;
}
handle_all-Counted (vector ∷ vectors) s (h, later) word =
    let s' : Handling = interrupt_handler vector s in
    let rest = handle_all-Counted vectors s' later (ground (arith, handler-tick s vector h)) in
    let n : ℕ = count is_irq vectors in
    record {
      tick = rest.tick ∙ ground (arith, handler-tick s vector h);
      writes =
          rest.writes
          ∙ ap (λ (base : ℕ). repeated n ((base + 0xB0) % 2 ^ 64, 0) s'.writes)
              (handler-g_virt_apic s vector h)
          ∙ ap (repeated n ((s.g_virt_apic + 0xB0) % 2 ^ 64, 0)) (handler-writes s vector h)
          ∙ repeated_step (is_irq vector) n ((s.g_virt_apic + 0xB0) % 2 ^ 64, 0) s.writes;
      g_virt_apic = rest.g_virt_apic ∙ handler-g_virt_apic s vector h;
      hangs = rest.hangs ∙ handler-hangs s vector h;
    }
