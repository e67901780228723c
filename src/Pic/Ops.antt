-- ===== src/Pic/Ops.antt =====
-- kernel/src/system/interrupt/PIC/pic.c, over the ports of a machine. Shifting a 1 past the bits of an
-- `int` is a fault.
use yoix.Base.{
  ℕ, ◌+◌, ◌-◌, ◌*◌, ◌%◌, ◌^◌, bit_and, bit_or, Prog, some, check, pure, ◌>>=◌, ◌>>◌, ltb, leb,
  if◌then◌else◌,
}

-- The instructions on the ports of a machine with the state `D`.
pub record Ports (D : Type 0) : Type 0 where
  pub out : ℕ → ℕ → D → D
  pub in_byte : ℕ → D → ℕ × D

abbrev pub pic1_command : ℕ
pic1_command = 0x20

abbrev pub pic1_data : ℕ
pic1_data = pic1_command + 1

abbrev pub pic2_command : ℕ
pic2_command = 0xA0

abbrev pub pic2_data : ℕ
pic2_data = pic2_command + 1

abbrev pub pic_eoi : ℕ
pic_eoi = 0x20

abbrev pub icw1_icw4 : ℕ
icw1_icw4 = 0x01

abbrev pub icw1_init : ℕ
icw1_init = 0x10

abbrev pub icw4_8086 : ℕ
icw4_8086 = 0x01

abbrev pub cascade_irq : ℕ
cascade_irq = 2

abbrev pub pic_read_irr : ℕ
pic_read_irr = 0x0A

abbrev pub pic_read_isr : ℕ
pic_read_isr = 0x0B

-- The port and the line at its controller.
abbrev pub port_of : ℕ → ℕ
port_of line = if ltb line 8 then pic1_data else pic2_data

abbrev pub line_at : ℕ → ℕ
line_at line = if ltb line 8 then line else line - 8

module _ {D : Type 0} (ports : Ports D) where
  abbrev pub outb : ℕ → ℕ → Prog D (Unit {0})
  outb port val d = some (tt, ports.out port (val % 2 ^ 8) d)

  abbrev pub inb : ℕ → Prog D ℕ
  inb port d = some (ports.in_byte port d)

  abbrev pub io_wait : Prog D (Unit {0})
  io_wait = outb 0x80 0

  unfoldable pub send_eoi : ℕ → Prog D (Unit {0})
  send_eoi irq =
      (if leb 8 irq then outb pic2_command pic_eoi else pure tt) >> outb pic1_command pic_eoi

  unfoldable pub remap : ℕ → ℕ → Prog D (Unit {0})
  remap offset1 offset2 = do
    outb pic1_command (bit_or icw1_init icw1_icw4)
    io_wait
    outb pic2_command (bit_or icw1_init icw1_icw4)
    io_wait
    outb pic1_data offset1
    io_wait
    outb pic2_data offset2
    io_wait
    outb pic1_data (2 ^ cascade_irq)
    io_wait
    outb pic2_data cascade_irq
    io_wait
    outb pic1_data icw4_8086
    io_wait
    outb pic2_data icw4_8086
    io_wait
    outb pic1_data 0
    outb pic2_data 0

  unfoldable pub disable : Prog D (Unit {0})
  disable = do outb pic1_data 0xFF; outb pic2_data 0xFF

  unfoldable pub irq_set_mask : ℕ → Prog D (Unit {0})
  irq_set_mask line =
      check (ltb (line_at line) 31)
      >> (do value ← inb (port_of line); outb (port_of line) (bit_or value (2 ^ line_at line)))

  unfoldable pub irq_clear_mask : ℕ → Prog D (Unit {0})
  irq_clear_mask line = check (ltb (line_at line) 31) >> (do
    value ← inb (port_of line)
    outb (port_of line) (bit_and value (2 ^ 32 - 1 - 2 ^ line_at line)))

  -- C leaves the order of the two reads open; here the second controller is read first.
  unfoldable pub get_irq_reg : ℕ → Prog D ℕ
  get_irq_reg ocw3 = do
    outb pic1_command ocw3
    outb pic2_command ocw3
    high ← inb pic2_command
    low ← inb pic1_command
    pure (bit_or (high * 2 ^ 8) low % 2 ^ 16)

  unfoldable pub get_irr : Prog D ℕ
  get_irr = get_irq_reg pic_read_irr

  unfoldable pub get_isr : Prog D ℕ
  get_isr = get_irq_reg pic_read_isr
