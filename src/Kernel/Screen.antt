-- ===== src/Kernel/Screen.antt =====
-- kernel/src/main.c: the pattern that `kmain` draws, over the words of the framebuffer.
use yoix.Base.{
  ℕ, zero, suc, ◌+◌, ◌*◌, ◌/◌, ◌^◌, bit_or, not, some, Prog, pure, check, ◌>>◌, ◌==◌, if◌then◌else◌,
}
use yoix.Buddy.State.{u32, u64}

-- The fields of the boot loader's `struct limine_framebuffer` that the code reads.
pub record Framebuffer : Type 0 where
  pub address : ℕ
  pub width : ℕ
  pub height : ℕ
  pub pitch : ℕ

-- The words of 32 bits from `fb_ptr` on, by their index.
abbrev pub Pixels : Type 0
Pixels = ℕ → ℕ

-- `(nY << 8) | nX`.
unfoldable pub shade : Framebuffer → ℕ → ℕ → ℕ
shade framebuffer y x =
    let n_x = u32 (u64 (x * 255) / framebuffer.width) in
    let n_y = u32 (u64 (y * 255) / framebuffer.height) in bit_or (u32 (n_y * 2 ^ 8)) n_x

abbrev pub pixel_index : Framebuffer → ℕ → ℕ → ℕ
pixel_index framebuffer y x = u64 (y * (framebuffer.pitch / 4) + x)

-- `fb_ptr[index] = value`, a fault where the pointer is NULL.
unfoldable pub put_pixel : Framebuffer → ℕ → ℕ → Prog Pixels (Unit {0})
put_pixel framebuffer index value = check (not (framebuffer.address == 0)) >> λ pixels.
    some (tt, λ i. if i == index then value else pixels i)

-- The inner loop from `x` on, with the rounds left.
unfoldable pub draw_row : Framebuffer → ℕ → ℕ → ℕ → Prog Pixels (Unit {0})
draw_row framebuffer y zero x = pure tt
draw_row framebuffer y (suc left) x = do
  put_pixel framebuffer (pixel_index framebuffer y x) (shade framebuffer y x)
  draw_row framebuffer y left (x + 1)

-- The outer loop from `y` on, with the rounds left.
unfoldable pub draw_rows : Framebuffer → ℕ → ℕ → Prog Pixels (Unit {0})
draw_rows framebuffer zero y = pure tt
draw_rows framebuffer (suc left) y = do
  draw_row framebuffer y framebuffer.width 0
  draw_rows framebuffer left (y + 1)

unfoldable pub draw_pattern : Framebuffer → Prog Pixels (Unit {0})
draw_pattern framebuffer = draw_rows framebuffer framebuffer.height 0
