-- ===== src/Idt/Laws/Gates.antt =====
-- The gates after `idt_init`.
use yoix.Base.{
  ℕ, zero, suc, ◌+◌, ◌-◌, ◌*◌, ◌/◌, ◌%◌, ◌^◌, ◌≤◌, ◌<◌, ◌≡◌, ◌≢◌, refl, sym, ap, ◌∙◌, subst, ◌⊎◌,
  inl, inr, bit_and, true, some, if◌then◌else◌, same-cases, ◌↔◌, arith, eq→==, ne→not-==,
}
use yoix.Base.Bits.{bit_and-mask}
use yoix.Idt.Ops.{
  IdtEntry, Idtr, Idt, entry_size, idt_set_descriptor, set_vector, set_vectors, idt_init,
}

-- The address that the processor takes from a gate.
abbrev pub target : IdtEntry → ℕ
target e = e.isr_low + 2 ^ 16 * e.isr_mid + 2 ^ 32 * e.isr_high

-- A gate of the kernel to `isr`, for interrupts, with every field in its width.
pub record Gate (isr : ℕ) (e : IdtEntry) : Type 0 where
  pub target_isr : target e ≡ isr
  pub low : e.isr_low < 2 ^ 16
  pub mid : e.isr_mid < 2 ^ 16
  pub high : e.isr_high < 2 ^ 32
  pub selector : e.kernel_cs ≡ 0x08
  pub own_stack : e.ist ≡ 0
  pub kind : e.attributes ≡ 0x8E

idt_set_descriptor-Gate :
    (isr : ℕ)
    → isr < 2 ^ 64
    → (vector : ℕ) (s : Idt) → Gate isr ((idt_set_descriptor vector isr 0x8E s).idt vector)
unfolding idt_set_descriptor
idt_set_descriptor-Gate isr lt vector s = rw (eq→== vector vector refl) (record {
  target_isr = omega (arith, low, mid, high);
  low = omega (arith, low);
  mid = omega (arith, mid);
  high = omega (arith, high);
  selector = refl;
  own_stack = refl;
  kind = refl;
})
  where
    low : bit_and isr 0xFFFF ≡ isr % 2 ^ 16
    low = bit_and-mask 16 isr

    mid : bit_and (isr / 2 ^ 16) 0xFFFF ≡ isr / 2 ^ 16 % 2 ^ 16
    mid = bit_and-mask 16 (isr / 2 ^ 16)

    high : bit_and (isr / 2 ^ 32) 0xFFFFFFFF ≡ isr / 2 ^ 32 % 2 ^ 32
    high = bit_and-mask 32 (isr / 2 ^ 32)

-- A vector has its gate.
pub record Set (stubs : ℕ → ℕ) (v : ℕ) (s : Idt) : Type 0 where
  pub gate : Gate (stubs v) (s.idt v)
  pub marked : s.vectors v ≡ true

-- A vector is as before.
pub record Kept (v : ℕ) (s s' : Idt) : Type 0 where
  pub gate : s'.idt v ≡ s.idt v
  pub mark : s'.vectors v ≡ s.vectors v

module _ (stubs : ℕ → ℕ) (words : (v : ℕ) → stubs v < 2 ^ 64) where
  set_vector-Set : (v : ℕ) (s : Idt) → Set stubs v (set_vector stubs v s)
  unfolding set_vector idt_set_descriptor
  set_vector-Set v s = record {
    gate = idt_set_descriptor-Gate (stubs v) (words v) v s;
    marked = ap (λ b. if b then true else s.vectors v) (eq→== v v refl);
  }

  set_vector-Kept : (vector v : ℕ) (s : Idt) → v ≢ vector → Kept v s (set_vector stubs vector s)
  unfolding set_vector idt_set_descriptor
  set_vector-Kept vector v s d = record {
    gate = rw (ne→not-== v vector d) refl;
    mark = rw (ne→not-== v vector d) refl;
  }

  Set-cong : {v : ℕ} {s s' : Idt} → Kept v s s' → Set stubs v s → Set stubs v s'
  Set-cong {v} k g = record {
    gate = subst (Gate (stubs v)) (sym k.gate) g.gate;
    marked = k.mark ∙ g.marked;
  }

  Kept-trans : {v : ℕ} {s s' s'' : Idt} → Kept v s s' → Kept v s' s'' → Kept v s s''
  Kept-trans k l = record { gate = l.gate ∙ k.gate; mark = l.mark ∙ k.mark }

  set_vectors-Kept :
      (left vector v : ℕ) (s : Idt)
      → (v < vector) ⊎ (vector + left ≤ v)
      → Kept v s (set_vectors stubs left vector s)
  unfolding set_vectors
  set_vectors-Kept zero vector v s out = record { gate = refl; mark = refl }
  set_vectors-Kept (suc left) vector v s out =
      Kept-trans (set_vector-Kept vector v s (ground (arith, out)))
        (set_vectors-Kept left (vector + 1) v (set_vector stubs vector s) (ground (arith, out)))

  set_vectors-Set :
      (left vector v : ℕ) (s : Idt)
      → vector ≤ v
      → v < vector + left
      → Set stubs v (set_vectors stubs left vector s)
  unfolding set_vectors
  set_vectors-Set zero vector v s lo hi = absurd (omega (arith, lo, hi))
  set_vectors-Set (suc left) vector v s lo hi = elim (same-cases v vector) [
    | inl e ↦
        Set-cong
          (set_vectors-Kept left (vector + 1) v (set_vector stubs vector s)
            (inl (omega (arith, e))))
          (subst (λ w. Set stubs v (set_vector stubs w s)) e (set_vector-Set v s))
    | inr d ↦
        set_vectors-Set left (vector + 1) v (set_vector stubs vector s) (omega (arith, lo, d))
          (omega (arith, hi))
  ]

  set_vectors-idtr : (left vector : ℕ) (s : Idt) → (set_vectors stubs left vector s).idtr ≡ s.idtr
  unfolding set_vectors set_vector idt_set_descriptor
  set_vectors-idtr zero vector s = refl
  set_vectors-idtr (suc left) vector s =
      set_vectors-idtr left (vector + 1) (set_vector stubs vector s)

-- The vectors that `idt_init` sets.
abbrev pub Installed : ℕ → Type 0
Installed v = (v < 49) ⊎ (v ≡ 255)

-- The table after `idt_init`.
pub record Filled (stubs : ℕ → ℕ) (table : ℕ) (s s' : Idt) : Type 0 where
  pub set : (v : ℕ) → Installed v → Set stubs v s'
  pub kept : (v : ℕ) → 49 ≤ v → v ≢ 255 → Kept v s s'
  pub loaded : s'.loaded ≡ some s'.idtr
  pub base : s'.idtr.base ≡ table
  pub limit : (v : ℕ) → (v < 256) ↔ (v * entry_size + (entry_size - 1) ≤ s'.idtr.limit)
  pub enabled : s'.enabled ≡ true

-- When the addresses of the stubs are words, `idt_init` gives the vectors below 49 and vector 255 a gate
-- of the kernel to their stub and marks them; the other vectors stay. The processor has the base and
-- the limit of a table of 256 gates, and takes interrupts.
pub idt_init-Filled :
    (stubs : ℕ → ℕ) (table : ℕ) (s : Idt)
    → ((v : ℕ) → stubs v < 2 ^ 64)
    → Filled stubs table s (idt_init stubs table s)
unfolding idt_init set_vector idt_set_descriptor
idt_init-Filled stubs table s words = record {
  set = λ v h. Set-cong stubs words (record { gate = refl; mark = refl }) (given v h);
  kept = λ v out d.
      let k =
        Kept-trans stubs words
          (set_vectors-Kept stubs words 49 0 v start (inr (omega (arith, out))))
          (set_vector-Kept stubs words 255 v table_filled d) in
      record { gate = k.gate; mark = k.mark };
  loaded = refl;
  base = ap (λ (t : Idtr). t.base) (set_vectors-idtr stubs words 49 0 start);
  limit = λ v.
      subst (λ (t : Idtr). (v < 256) ↔ (v * entry_size + (entry_size - 1) ≤ t.limit))
        (sym (set_vectors-idtr stubs words 49 0 start)) (omega arith);
  enabled = refl;
}
  where
    start : Idt
    start = record s { idtr = record { base = table; limit = entry_size % 2 ^ 16 * 256 - 1 } }

    table_filled : Idt
    table_filled = set_vectors stubs 49 0 start

    given : (v : ℕ) → Installed v → Set stubs v (set_vector stubs 255 table_filled)
    given v (inr e) =
        subst (λ w. Set stubs v (set_vector stubs w table_filled)) e
          (set_vector-Set stubs words v table_filled)
    given v (inl lt) =
        Set-cong stubs words (set_vector-Kept stubs words 255 v table_filled (omega (arith, lt)))
          (set_vectors-Set stubs words 49 0 v start (omega arith) (omega (arith, lt)))
