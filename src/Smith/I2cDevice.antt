-- ===== src/Smith/I2cDevice.antt =====
-- Writing to an I2C device, C++/I2C_Device.cpp. The file descriptor's `write` is a parameter.
use ember_firmware.Prelude.{ℕ, Bool, true, false, List, [], ◌∷◌, if◌then◌else◌}

-- `write` on the opened device: whether it took all bytes, and what it did to the world.
pub record Bus : Type 1 where
  pub World : Type 0
  pub write : List ℕ → World → Bool × World

-- The codes of C++/include/ErrorMessage.h that this part logs.
pub data ErrorCode : Type 0 where
  i2c_write zero_in_motor_command negative_in_motor_command : ErrorCode

-- The world, and the errors logged so far, the newest first.
pub record Smith (World : Type 0) : Type 0 where
  pub world : World
  pub errors : List ErrorCode

module _ (bus : Bus) where
  open bus use {World, write}

  -- `write(…) != length`: a failure is logged.
  abbrev pub checked : Bool × World → Smith World → Bool × Smith World
  checked (ok, world') s =
      if ok
      then (true, record s { world = world' })
      else (false, record { world = world'; errors = i2c_write ∷ s.errors })

  -- `Write(data)`
  unfoldable pub write_byte : ℕ → Smith World → Bool × Smith World
  write_byte data' s = checked (write (data' ∷ []) s.world) s

  -- `Write(registerAddress, data, length)`
  unfoldable pub write_array : ℕ → List ℕ → Smith World → Bool × Smith World
  write_array register datas s = checked (write (register ∷ datas) s.world) s
