-- ===== src/Smith/Motor.antt =====
-- Sending a list of commands, C++/Motor.cpp.
pub mod Layer
use ember_firmware.Prelude.{Bool, true, false, List, [], ◌∷◌, if◌then◌else◌}
use ember_firmware.Smith.I2cDevice.{Bus, Smith}
use ember_firmware.Smith.MotorCommand.{MotorCommand, send}

module _ (bus : Bus) where
  -- `SendCommands`: the first failure ends it.
  unfoldable pub send_commands : List MotorCommand → Smith bus.World → Bool × Smith bus.World
  send_commands [] s = (true, s)
  send_commands (c ∷ cs) s =
      let (ok, s') = send bus c s in
      let rest = send_commands cs s' in if ok then rest else (false, s')
