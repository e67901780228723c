-- ===== src/Pic/Examples.antt =====
-- Two controllers whose registers keep what is written to them.
use yoix.Base.{
  List, [], ◌∷◌, Option, none, ℕ, ◌%◌, ◌^◌, ◌≡◌, refl, ap, ◌∙◌, some, arith, ◌==◌, if◌then◌else◌,
  eq→==, ne→not-==,
}
use yoix.Pic.Ops.{Ports, remap, irq_set_mask, irq_clear_mask}
use yoix.Pic.Laws.{Masks, Masked, irq_mask-Masked}

abbrev registers : Ports (ℕ → ℕ)
registers = record {
  out = λ port v d q. if q == port then v else d q;
  in_byte = λ port d. (d port % 2 ^ 8, d);
}

registers-Masks : Masks registers
registers-Masks = record {
  idle = λ d. Unit {0};
  mask = λ port d. d port % 2 ^ 8;
  byte = λ port d. omega arith;
  reads = λ port d _ _. refl;
  stays_idle = λ port v d _ _. tt;
  writes = λ port v d _ _ lt.
      ap (λ b. (if b then v else d port) % 2 ^ 8) (eq→== port port refl) ∙ omega arith;
  other = λ port q v d _ _ ne _. ap (λ b. (if b then v else d q) % 2 ^ 8) (ne→not-== q port ne);
}

abbrev all_masked : ℕ → ℕ
all_masked port = 0xFF

irq_mask-Masked_example :
    ((d' : ℕ → ℕ) × (irq_set_mask registers 10 all_masked ≡ some (tt, d'))
      × Masked registers registers-Masks 10 1 all_masked d')
    × ((d' : ℕ → ℕ) × (irq_clear_mask registers 10 all_masked ≡ some (tt, d'))
        × Masked registers registers-Masks 10 0 all_masked d')
unfolding registers-Masks
irq_mask-Masked_example = irq_mask-Masked registers registers-Masks 10 all_masked (omega arith) tt

-- Only the bytes that are written, the last first.
abbrev logged : Ports (List (ℕ × ℕ))
logged = record { out = λ port v d. (port, v) ∷ d; in_byte = λ port d. (0, d) }

-- Without the pauses at port 0x80.
abbrev unpaused : List (ℕ × ℕ) → List (ℕ × ℕ)
unpaused [] = []
unpaused ((port, v) ∷ d) = if port == 0x80 then unpaused d else (port, v) ∷ unpaused d

abbrev log_of : Option (Unit {0} × List (ℕ × ℕ)) → List (ℕ × ℕ)
log_of none = []
log_of (some (u, d)) = unpaused d

remap_runs :
    log_of (remap logged 0x20 0x28 [])
    ≡ (0xA1, 0)
      ∷ (0x21, 0)
      ∷ (0xA1, 1)
      ∷ (0x21, 1)
      ∷ (0xA1, 2)
      ∷ (0x21, 4)
      ∷ (0xA1, 0x28)
      ∷ (0x21, 0x20)
      ∷ (0xA0, 0x11)
      ∷ (0x20, 0x11)
      ∷ []
unfolding remap
remap_runs = refl
