-- ===== src/Timer/Ops.antt =====
-- kernel/src/system/interrupt/irq/pit.c: `init_pit`, over the bytes that are written to ports.
use yoix.Base.{
  ℕ, ◌/◌, ◌%◌, ◌^◌, bit_and, List, ◌∷◌, Prog, some, fault, ◌>>◌, ltb, ◌==◌, if◌then◌else◌,
}

-- Port and byte of every `outb`, the last first.
abbrev pub Log : Type 0
Log = List (ℕ × ℕ)

abbrev pub outb : ℕ → ℕ → Prog Log (Unit {0})
outb port value log = some (tt, (port, value) ∷ log)

abbrev pub pit_channel0_data : ℕ
pit_channel0_data = 0x40

abbrev pub pit_command_reg : ℕ
pit_command_reg = 0x43

abbrev pub pit_base_freq : ℕ
pit_base_freq = 1193182

-- The divisor, once the frequency is not 0.
unfoldable pub divisor_of : ℕ → ℕ
divisor_of frequency_hz =
    let divisor = pit_base_freq / frequency_hz in
    let capped = if ltb 0xFFFF divisor then 0xFFFF else divisor in if capped == 0 then 1 else capped

-- Dividing by the frequency 0 is a fault.
unfoldable pub init_pit : ℕ → Prog Log (Unit {0})
init_pit frequency_hz = if frequency_hz == 0 then fault else (do
  outb pit_command_reg 0x36
  outb pit_channel0_data (bit_and (divisor_of frequency_hz) 0xFF % 2 ^ 8)
  outb pit_channel0_data (bit_and (divisor_of frequency_hz / 2 ^ 8) 0xFF % 2 ^ 8))
