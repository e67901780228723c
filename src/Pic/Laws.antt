-- ===== src/Pic/Laws.antt =====
-- The masks of the 16 lines.
use yoix.Base.{
  ℕ, ◌-◌, ◌%◌, ◌^◌, ◌<◌, ◌≡◌, ◌≢◌, refl, sym, ap, ◌∙◌, subst, ◌⊎◌, inl, inr, bit_and, bit_or, true,
  some, ltb, arith, lt→ltb, le→not-ltb, le-cases,
}
use yoix.Base.Digit.{
  digit, digit-le, digit-bit_or, digit-pow, digit-pow_other, bit_or-lt, bit_and-lt, below_pow,
  digit_cleared, digit_cleared_other,
}
use yoix.Pic.Ops.{Ports, pic1_data, pic2_data, port_of, line_at, irq_set_mask, irq_clear_mask}

pub data IsData : ℕ → Type 0 where
  first : IsData pic1_data
  second : IsData pic2_data

-- What the data ports of two controllers do outside their initialization: they read and write the
-- interrupt mask registers, each its own, and reading changes nothing.
pub record Masks {D : Type 0} (ports : Ports D) : Type 1 where
  pub idle : D → Type 0
  pub mask : ℕ → D → ℕ
  pub byte : (port : ℕ) (d : D) → mask port d < 2 ^ 8
  pub reads : (port : ℕ) (d : D) → IsData port → idle d → ports.in_byte port d ≡ (mask port d, d)
  pub stays_idle : (port v : ℕ) (d : D) → IsData port → idle d → idle (ports.out port v d)
  pub writes :
      (port v : ℕ) (d : D) → IsData port → idle d → v < 2 ^ 8 → mask port (ports.out port v d) ≡ v
  pub other :
      (port q v : ℕ) (d : D)
      → IsData port
      → IsData q
      → q ≢ port
      → idle d
      → mask q (ports.out port v d) ≡ mask q d

-- One byte with a digit set.
set_digit : (j k b : ℕ) → k < 8 → (j ≢ k) → digit j (bit_or b (2 ^ k)) ≡ digit j b
set_digit j k b lt d = omega (arith, digit-bit_or j b (2 ^ k), digit-pow_other j k d)

set_digit_here : (k b : ℕ) → digit k (bit_or b (2 ^ k)) ≡ 1
set_digit_here k b = omega (arith, digit-bit_or k b (2 ^ k), digit-pow k, digit-le k b)

module _ {D : Type 0} (ports : Ports D) (masks : Masks ports) where
  -- The mask of a line: 1 when it is masked.
  abbrev pub mask_of : ℕ → D → ℕ
  mask_of line d = digit (line_at line) (masks.mask (port_of line) d)

  -- The mask of one line is `v` now, and that of every other line as before.
  pub record Masked (line v : ℕ) (d d' : D) : Type 0 where
    pub idle : masks.idle d'
    pub here : mask_of line d' ≡ v
    pub others : (j : ℕ) → j < 16 → j ≢ line → mask_of j d' ≡ mask_of j d

  line_at-lt : (line : ℕ) → line < 16 → line_at line < 8
  line_at-lt line lt = ground arith

  port_of-IsData : (line : ℕ) → IsData (port_of line)
  port_of-IsData line = elim (le-cases 8 line) [
    | inl le ↦ rw (le→not-ltb line 8 le) second
    | inr lt ↦ rw (lt→ltb line 8 lt) first
  ]

  -- Two lines differ in their controller or at it.
  two_lines :
      (j line : ℕ)
      → j < 16
      → line < 16
      → j ≢ line
      → (port_of j ≢ port_of line) ⊎ ((port_of j ≡ port_of line) × (line_at j ≢ line_at line))
  two_lines j line lt lt' d = elim (le-cases 8 j) [
    | inl le ↦ elim (le-cases 8 line) [
      | inl le' ↦ inr (ground arith, λ e. d (ground (arith, e)))
      | inr below ↦ inl (λ e. ground (arith, e))
    ]
    | inr below' ↦ elim (le-cases 8 line) [
      | inl le' ↦ inl (λ e. ground (arith, e))
      | inr below ↦ inr (ground arith, λ e. d (ground (arith, e)))
    ]
  ]

  -- The register of a line's controller is written with one digit changed.
  written :
      (line v b : ℕ) (d : D)
      → line < 16
      → masks.idle d
      → b < 2 ^ 8
      → digit (line_at line) b ≡ v
      → ((j : ℕ) → j < 8 → j ≢ line_at line → digit j b ≡ digit j (masks.mask (port_of line) d))
      → Masked line v d (ports.out (port_of line) (b % 2 ^ 8) d)
  written line v b d lt idle byte here others =
      let fits : b % 2 ^ 8 ≡ b = omega arith in
      subst (λ t. Masked line v d (ports.out (port_of line) t d)) (sym fits)
        (record {
          idle = masks.stays_idle (port_of line) b d (port_of-IsData line) idle;
          here =
              ap (digit (line_at line))
                (masks.writes (port_of line) b d (port_of-IsData line) idle byte)
              ∙ here;
          others = λ j lt' ne. elim (two_lines j line lt' lt ne) [
            | inl apart ↦ ap (digit (line_at j)) (
                masks.other (port_of line) (port_of j) b d (port_of-IsData line) (port_of-IsData j)
                  apart idle)
            | inr (same, differ) ↦
                ap (λ p. digit (line_at j) (masks.mask p (ports.out (port_of line) b d))) same
                ∙ ap (digit (line_at j))
                    (masks.writes (port_of line) b d (port_of-IsData line) idle byte)
                ∙ others (line_at j) (line_at-lt j lt') differ
                ∙ ap (λ p. digit (line_at j) (masks.mask p d)) (sym same)
          ];
        })

  module _ (line : ℕ) (d : D) (lt : line < 16) (idle : masks.idle d) where
    shift : ltb (line_at line) 31 ≡ true
    shift = lt→ltb (line_at line) 31 (omega (arith, line_at-lt line lt))

    register : ports.in_byte (port_of line) d ≡ (masks.mask (port_of line) d, d)
    register = masks.reads (port_of line) d (port_of-IsData line) idle

    set_run :
        irq_set_mask ports line d
        ≡ some (
          tt,
          ports.out
              (port_of line)
              (bit_or (masks.mask (port_of line) d) (2 ^ line_at line) % 2 ^ 8)
              d,
        )
    unfolding irq_set_mask
    set_run = rw (shift, register) refl

    clear_run :
        irq_clear_mask ports line d
        ≡ some (
          tt,
          ports.out
              (port_of line)
              (bit_and (masks.mask (port_of line) d) (2 ^ 32 - 1 - 2 ^ line_at line) % 2 ^ 8)
              d,
        )
    unfolding irq_clear_mask
    clear_run = rw (shift, register) refl

-- For each of the 16 lines, on ports whose data registers are the interrupt masks, `IRQ_set_mask` masks
-- the line and `IRQ_clear_mask` unmasks it, and both leave the masks of the 15 other lines as they are.
pub irq_mask-Masked :
    {D : Type 0} (ports : Ports D) (masks : Masks ports) (line : ℕ) (d : D)
    → line < 16
    → masks.idle d
    → ((d' : D) × (irq_set_mask ports line d ≡ some (tt, d')) × Masked ports masks line 1 d d')
      × ((d' : D) × (irq_clear_mask ports line d ≡ some (tt, d')) × Masked ports masks line 0 d d')
irq_mask-Masked ports masks line d lt idle =
    let b : ℕ = masks.mask (port_of line) d in
    let k : ℕ = line_at line in
    let lt' : k < 8 = line_at-lt ports masks line lt in
    let byte : b < 2 ^ 8 = masks.byte (port_of line) d in
    (
      (
        _,
        set_run ports masks line d lt idle,
        written ports masks line 1 (bit_or b (2 ^ k)) d lt idle
            (bit_or-lt 8 b (2 ^ k) byte (below_pow 8 k lt')) (set_digit_here k b)
            (λ j _ ne. set_digit j k b lt' ne),
      ),
      (
        _,
        clear_run ports masks line d lt idle,
        written ports masks line 0 (bit_and b (2 ^ 32 - 1 - 2 ^ k)) d lt idle
            (bit_and-lt 8 b (2 ^ 32 - 1 - 2 ^ k) byte) (digit_cleared 32 k b (omega (arith, lt')))
            (λ j lj ne. digit_cleared_other 32 j k b (omega (arith, lj)) (omega (arith, lt')) ne),
      ),
    )
