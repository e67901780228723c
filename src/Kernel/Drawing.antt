-- ===== src/Kernel/Drawing.antt =====
-- What the loops of `kmain` over the framebuffer draw.
use yoix.Base.{
  ℕ, zero, suc, ◌+◌, ◌*◌, ◌/◌, ◌%◌, ◌^◌, ◌≤◌, ◌<◌, ◌≡◌, ◌≢◌, refl, sym, ap, ◌∙◌, some, Bool, ◌&&◌,
  arith, ◌==◌, ltb, leb, if◌then◌else◌, inl, inr, same-cases, ne→not-==,
}
use yoix.Base.Bits.{bit_or-shifted}
use native.Mathlib.Nat.{
  div-lt_iff_lt-mul, div-eq_of_lt, mul-add-div_right, mul-add-mod_self_right, mul-le-mul_right,
  mod-eq_of_lt, add-mul,
}
use yoix.Buddy.State.{u32, u64}
use yoix.Kernel.Screen.{
  Framebuffer, Pixels, shade, pixel_index, put_pixel, draw_row, draw_rows, draw_pattern,
}

-- The lines of the framebuffer do not overlap, and it lies inside the address space.
pub record Fits (fb : Framebuffer) : Type 0 where
  pub address : fb.address ≢ 0
  pub lines : fb.width ≤ fb.pitch / 4
  pub columns : fb.width * 255 < 2 ^ 64
  pub rows : fb.height * 255 < 2 ^ 64
  pub size : fb.height * (fb.pitch / 4) ≤ 2 ^ 64

-- The word of the column `x` in the line `y`.
abbrev pub cell : Framebuffer → ℕ → ℕ → ℕ
cell fb y x = y * (fb.pitch / 4) + x

share-lt : (n total : ℕ) → n < total → n * 255 / total < 255
share-lt n total lt =
    (div-lt_iff_lt-mul {k = total} {x = n * 255} {y = 255} (omega (arith, lt))).1
      (omega (arith, lt))

module _ (fb : Framebuffer) where
  -- The colour of a pixel: in the low byte where its column lies between 0 and 254, and in the
  -- next where its line does.
  abbrev pub colour : ℕ → ℕ → ℕ
  colour y x = y * 255 / fb.height * 2 ^ 8 + x * 255 / fb.width

  -- The pixels of the lines from `y` on up to `end` are drawn, and no other word of a line.
  abbrev pub Drawn : ℕ → ℕ → Pixels → Pixels → Type 0
  Drawn y end px px' =
      (y' x' : ℕ)
      → x' < fb.pitch / 4
      → px' (cell fb y' x')
        ≡ (if leb y y' && ltb y' end && ltb x' fb.width then colour y' x' else px (cell fb y' x'))

module _ (fb : Framebuffer) (fits : Fits fb) where
  shade-colour : (y x : ℕ) → y < fb.height → x < fb.width → shade fb y x ≡ colour fb y x
  unfolding shade
  shade-colour y x lty ltx =
      let line : u64 (y * 255) ≡ y * 255 = omega (arith, lty, fits.rows) in
      let column : u64 (x * 255) ≡ x * 255 = omega (arith, ltx, fits.columns) in
      let green : u32 (u32 (y * 255 / fb.height) * 2 ^ 8) ≡ y * 255 / fb.height * 2 ^ 8 =
        omega (arith, share-lt y fb.height lty) in
      let blue : u32 (x * 255 / fb.width) ≡ x * 255 / fb.width =
        omega (arith, share-lt x fb.width ltx) in
      rw (line, column, green, blue)
        (bit_or-shifted 8 (y * 255 / fb.height) (x * 255 / fb.width)
          (omega (arith, share-lt x fb.width ltx)))

  -- The word of a pixel is its own.
  cell-line : (y x : ℕ) → x < fb.pitch / 4 → cell fb y x / (fb.pitch / 4) ≡ y
  cell-line y x lt = mul-add-div_right (omega (arith, lt)) y x ∙ omega (arith, div-eq_of_lt lt)

  cell-column : (y x : ℕ) → x < fb.pitch / 4 → cell fb y x % (fb.pitch / 4) ≡ x
  cell-column y x lt = mul-add-mod_self_right y (fb.pitch / 4) x ∙ mod-eq_of_lt lt

  cell-same :
      (y x y' x' : ℕ)
      → x < fb.pitch / 4
      → x' < fb.pitch / 4
      → (cell fb y' x' == cell fb y x) ≡ (y' == y && x' == x)
  cell-same y x y' x' lt lt' = elim (same-cases y' y) [
    | inl same ↦ let lines = ap (λ t. t * (fb.pitch / 4)) same in ground (arith, lines, same)
    | inr other ↦
        let apart : cell fb y' x' ≢ cell fb y x = λ e.
          other (sym (cell-line y' x' lt') ∙ ap (λ c. c / (fb.pitch / 4)) e ∙ cell-line y x lt) in
        rw (ne→not-== (cell fb y' x') (cell fb y x) apart, ne→not-== y' y other) refl
  ]

  index-run : (y x : ℕ) → y < fb.height → x < fb.width → pixel_index fb y x ≡ cell fb y x
  index-run y x lty ltx =
      let inside : (y + 1) * (fb.pitch / 4) ≤ fb.height * (fb.pitch / 4) =
        mul-le-mul_right {m = y + 1} (fb.pitch / 4) (omega (arith, lty)) in
      omega (arith, inside, ltx, fits.lines, fits.size, add-mul y 1 (fb.pitch / 4))

  put_pixel-run :
      (i v : ℕ) (px : Pixels) → put_pixel fb i v px ≡ some (tt, λ j. if j == i then v else px j)
  unfolding put_pixel
  put_pixel-run i v px = rw (ne→not-== fb.address 0 fits.address) refl

  -- The pixels of the line `y` from `x` on are drawn, and no other word of a line.
  abbrev RowDrawn : ℕ → ℕ → ℕ → Pixels → Pixels → Type 0
  RowDrawn y x end px px' =
      (y' x' : ℕ)
      → x' < fb.pitch / 4
      → px' (cell fb y' x')
        ≡ (if y' == y && (leb x x' && ltb x' end) then colour fb y' x' else px (cell fb y' x'))

  -- A pixel drawn before the others of its line.
  row_step :
      (y x left y' x' before : ℕ) {here : Bool}
      → here ≡ (y' == y && x' == x)
      → (if y' == y && (leb (x + 1) x' && ltb x' (x + 1 + left))
          then colour fb y' x'
          else if here
          then colour fb y x
          else before)
        ≡ (if y' == y && (leb x x' && ltb x' (x + suc left)) then colour fb y' x' else before)
  row_step y x left y' x' before e = elim (same-cases y' y) [
    | inr other ↦ rw (e, ne→not-== y' y other) refl
    | inl line ↦ elim (same-cases x' x) [
      | inl column ↦ rw (e, line, column) (ground arith)
      | inr other ↦ rw (e, ne→not-== x' x other) (ground (arith, other))
    ]
  ]

  draw_row-RowDrawn :
      (y left x : ℕ) (px : Pixels)
      → y < fb.height
      → x + left ≤ fb.width
      → (px' : Pixels) × (draw_row fb y left x px ≡ some (tt, px')) × RowDrawn y x (x + left) px px'
  unfolding draw_row
  draw_row-RowDrawn y zero x px lt le = (px, refl, λ y' x' lt'. ground arith)
  draw_row-RowDrawn y (suc left) x px lt le =
      let ltx : x < fb.width = omega arith in
      let i : ℕ = cell fb y x in
      let (px', run, rest) =
        draw_row-RowDrawn y left (x + 1) (λ j. if j == i then colour fb y x else px j) lt
          (omega arith) in
      (
        px',
        rw (index-run y x lt ltx, shade-colour y x lt ltx, put_pixel-run i (colour fb y x) px) run,
        λ y' x' lt'.
            rest y' x' lt'
            ∙ row_step y x left y' x' (px (cell fb y' x'))
                (cell-same y x y' x' (omega (arith, ltx, fits.lines)) lt'),
      )

  draw_rows-Drawn :
      (left y end : ℕ) (px : Pixels)
      → y + left ≡ end
      → end ≤ fb.height
      → (px' : Pixels) × (draw_rows fb left y px ≡ some (tt, px')) × Drawn fb y end px px'
  unfolding draw_rows
  draw_rows-Drawn zero y end px last le = (px, refl, λ y' x' lt'. ground (arith, last))
  draw_rows-Drawn (suc left) y end px last le =
      let (px₁, run, row) = draw_row-RowDrawn y fb.width 0 px (omega (arith, last)) (omega arith) in
      let (px₂, runs, rest) = draw_rows-Drawn left (y + 1) end px₁ (omega (arith, last)) le in
      (px₂, rw run runs, λ y' x' lt'. rest y' x' lt' ∙ rw (row y' x' lt') (ground (arith, last)))

  -- In a framebuffer whose lines do not overlap and that lies inside the address space, the loops
  -- of `kmain` return; each pixel inside the width and the height then has the colour of its line
  -- and column, and no other word of a line has changed.
  pub draw_pattern-Drawn :
      (px : Pixels)
      → (px' : Pixels) × (draw_pattern fb px ≡ some (tt, px')) × Drawn fb 0 fb.height px px'
  unfolding draw_pattern
  draw_pattern-Drawn px = draw_rows-Drawn fb.height 0 fb.height px (omega arith) (omega arith)
