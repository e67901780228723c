-- ===== src/Timer/Laws.antt =====
-- What `init_pit` programs.
use yoix.Base.{ℕ, ◌+◌, ◌*◌, ◌/◌, ◌^◌, ◌≤◌, ◌<◌, ◌≡◌, ◌∷◌}
use yoix.Timer.Ops.{Log, pit_channel0_data, pit_command_reg, pit_base_freq}

-- The two bytes at the channel are a divisor of 16 bits, low byte first.
pub record Programmed (frequency_hz : ℕ) (log log' : Log) : Type 0 where
  pub low : ℕ
  pub high : ℕ
  pub written :
      log' ≡ (pit_channel0_data, high) ∷ (pit_channel0_data, low) ∷ (pit_command_reg, 0x36) ∷ log
  pub low_byte : low < 2 ^ 8
  pub high_byte : high < 2 ^ 8
  pub positive : 0 < high * 2 ^ 8 + low
  pub exact :
      18 < frequency_hz
      → frequency_hz ≤ pit_base_freq
      → high * 2 ^ 8 + low ≡ pit_base_freq / frequency_hz
