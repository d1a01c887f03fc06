-- ===== src/Avr/Command.antt =====
-- A command received over I2C, AVR/MotorController/Command.h and Command.cpp.
pub mod RoundTrip
use ember_firmware.Prelude.{ℕ, ◌*◌, ◌^◌, bit_or}
use ember_firmware.Prelude.Int.{ℤ, pos, signed32}

pub record Command : Type 0 where
  pub register : ℕ  -- unsigned char
  pub action : ℕ  -- unsigned char
  pub parameter : ℤ  -- int32_t

abbrev pub no_command : Command
no_command = record { register = 0; action = 0; parameter = pos 0 }

unfoldable pub set_register : Command → ℕ → Command
set_register c value = record c { register = value }

unfoldable pub set_action : Command → ℕ → Command
set_action c value = record c { action = value }

-- `& ones` only widens a byte to int32_t; the shifts and `|` act on the 32-bit pattern.
abbrev pub assemble : ℕ → ℕ → ℕ → ℕ → ℤ
assemble b0 b1 b2 b3 =
    signed32 (bit_or (bit_or (bit_or b0 (b1 * 2 ^ 8)) (b2 * 2 ^ 16)) (b3 * 2 ^ 24))

unfoldable pub set_parameter_bytes : Command → ℕ → ℕ → ℕ → ℕ → Command
set_parameter_bytes c b0 b1 b2 b3 = record c { parameter = assemble b0 b1 b2 b3 }
