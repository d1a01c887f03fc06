-- ===== src/Smith/MotorCommand.antt =====
-- A command for the motor controller and how smith sends it, C++/MotorCommand.cpp and
-- C++/include/MotorCommand.h.
use ember_firmware.Prelude.{
  ℕ, zero, suc, Bool, true, false, List, [], ◌∷◌, ◌==◌, if◌then◌else◌, not, ◌&&◌, ◌||◌,
}
use ember_firmware.Prelude.Int.{ℤ, pos, negsuc, pattern32}
use ember_firmware.Avr.Codes.{general_reg, rot_settings_reg, z_settings_reg}
use ember_firmware.Avr.Command.RoundTrip.{byte_of}
use ember_firmware.Smith.I2cDevice.{
  Bus, Smith, zero_in_motor_command, negative_in_motor_command, write_byte, write_array,
}

-- `MAX_I2C_CMD_TRIES`
abbrev pub max_i2c_cmd_tries : ℕ
max_i2c_cmd_tries = 2

pub record MotorCommand : Type 0 where
  pub cmd_register : ℕ  -- unsigned char
  pub cmd : ℕ  -- unsigned char
  pub value : ℤ  -- int32_t

-- `_value == 0`
abbrev pub is_zero : ℤ → Bool
is_zero (pos n) = n == 0
is_zero (negsuc n) = false

-- `_value < 0`
abbrev pub is_negative : ℤ → Bool
is_negative (pos n) = false
is_negative (negsuc n) = true

-- The array that is written to the command register.
abbrev pub buf : MotorCommand → List ℕ
buf c =
    let w = pattern32 c.value in c.cmd ∷ byte_of w 0 ∷ byte_of w 1 ∷ byte_of w 2 ∷ byte_of w 3 ∷ []

module _ (bus : Bus) where
  -- `while (tries++ < MAX_I2C_CMD_TRIES)`: a write is tried that often, until it succeeds.
  unfoldable pub try_write :
      ℕ → (Smith bus.World → Bool × Smith bus.World) → Smith bus.World → Bool × Smith bus.World
  try_write zero write s = (false, s)
  try_write (suc tries) write s =
      let (ok, s') = write s in
      let rest = try_write tries write s' in if ok then (true, s') else rest

  unfoldable pub send : MotorCommand → Smith bus.World → Bool × Smith bus.World
  send c s =
      if not (c.cmd_register == general_reg) && is_zero c.value
      then (false, record s { errors = zero_in_motor_command ∷ s.errors })
      else if (c.cmd_register == rot_settings_reg || c.cmd_register == z_settings_reg)
          && is_negative c.value
      then (false, record s { errors = negative_in_motor_command ∷ s.errors })
      else if c.cmd_register == general_reg
      then try_write max_i2c_cmd_tries (write_byte bus c.cmd) s
      else try_write max_i2c_cmd_tries (write_array bus c.cmd_register (buf c)) s
