-- ===== src/Smith/Motor/Layer.antt =====
-- The motions of a layer, C++/Motor.cpp and `CurrentLayerSettings` of C++/include/LayerSettings.h.
-- An `int` is a ℤ; the theorems on the commands have the ranges in which no operation overflows.
pub mod Range
pub mod Accepted
use ember_firmware.Prelude.{
  ℕ, suc, ◌+◌, ◌-◌, ◌*◌, ◌/◌, Bool, true, false, List, [], ◌∷◌, if◌then◌else◌, ltb,
}
use ember_firmware.Prelude.Int.{ℤ, pos, negsuc}
use ember_firmware.Avr.Codes.{
  general_reg, rot_settings_reg, rot_action_reg, z_settings_reg, z_action_reg, jerk, speed,
}
use ember_firmware.Smith.I2cDevice.{Bus, Smith}
use ember_firmware.Smith.MotorCommand.{MotorCommand, is_zero}
use ember_firmware.Smith.Motor.{send_commands}

-- `MC_MOVE`, `MC_HOME`, `MC_INTERRUPT`
abbrev pub mc_move : ℕ
mc_move = 1

abbrev pub mc_home : ℕ
mc_home = 2

abbrev pub mc_interrupt : ℕ
mc_interrupt = 1

abbrev pub units_per_revolution : ℕ
units_per_revolution = 3600

abbrev pub z_speed_factor : ℕ
z_speed_factor = 60

-- The members that the motions use.
pub record CurrentLayerSettings : Type 0 where
  pub press_microns : ℤ
  pub press_microns_per_sec : ℤ
  pub unpress_microns_per_sec : ℤ
  pub separation_rot_jerk : ℤ
  pub separation_rpm : ℤ
  pub rotation_milli_degrees : ℤ
  pub separation_z_jerk : ℤ
  pub separation_microns_per_sec : ℤ
  pub z_lift_microns : ℤ
  pub approach_rot_jerk : ℤ
  pub approach_rpm : ℤ
  pub approach_z_jerk : ℤ
  pub approach_microns_per_sec : ℤ
  pub layer_thickness_microns : ℤ

-- `-z`
abbrev pub negated : ℤ → ℤ
negated (pos ℕ.zero) = pos 0
negated (pos (suc n)) = negsuc n
negated (negsuc n) = pos (suc n)

-- `k * z` for a positive constant `k`
abbrev pub times : ℕ → ℤ → ℤ
times k (pos n) = pos (k * n)
times k (negsuc n) = negated (pos (k * suc n))

-- `z / R_SCALE_FACTOR`, which C++ rounds towards 0
abbrev pub scaled_rotation : ℤ → ℤ
scaled_rotation (pos n) = pos (n / 100)
scaled_rotation (negsuc n) = negated (pos (suc n / 100))

abbrev difference : ℕ → ℕ → ℤ
difference m n = if ltb m n then negsuc (n - m - 1) else pos (m - n)

-- `y - z`
abbrev pub minus : ℤ → ℤ → ℤ
minus (pos m) (pos n) = difference m n
minus (pos m) (negsuc n) = pos (m + suc n)
minus (negsuc m) (pos n) = negsuc (m + n)
minus (negsuc m) (negsuc n) = difference (suc n) (suc m)

abbrev pub command : ℕ → ℕ → ℤ → MotorCommand
command register cmd value = record { cmd_register = register; cmd = cmd; value = value }

abbrev pub interrupt_command : MotorCommand
interrupt_command = command general_reg mc_interrupt (pos 0)

-- `if (amount != 0) commands.push_back(c)`, before the rest.
abbrev pub unless_zero : ℤ → MotorCommand → List MotorCommand → List MotorCommand
unless_zero amount c rest = if is_zero amount then rest else c ∷ rest

unfoldable pub separate_commands : CurrentLayerSettings → List MotorCommand
separate_commands cls =
    let rotation = scaled_rotation cls.rotation_milli_degrees in
    command rot_settings_reg jerk cls.separation_rot_jerk
    ∷ command rot_settings_reg speed (times units_per_revolution cls.separation_rpm)
    ∷ unless_zero rotation (command rot_action_reg mc_move (negated rotation)) (
        command z_settings_reg jerk cls.separation_z_jerk
        ∷ command z_settings_reg speed (times z_speed_factor cls.separation_microns_per_sec)
        ∷ unless_zero cls.z_lift_microns (command z_action_reg mc_move cls.z_lift_microns)
            (interrupt_command ∷ []))

unfoldable pub un_jam_commands : CurrentLayerSettings → Bool → List MotorCommand
un_jam_commands cls with_interrupt =
    let rotation = scaled_rotation cls.rotation_milli_degrees in
    command rot_action_reg mc_home (pos units_per_revolution)
    ∷ unless_zero rotation (command rot_action_reg mc_move (negated rotation))
        (if with_interrupt then interrupt_command ∷ [] else [])

-- The setting HOME_ON_APPROACH is a parameter.
unfoldable pub approach_commands : ℤ → CurrentLayerSettings → List MotorCommand
approach_commands home_on_approach cls =
    let rotation = scaled_rotation cls.rotation_milli_degrees in
    let delta_z = minus cls.layer_thickness_microns cls.z_lift_microns in
    command rot_settings_reg jerk cls.approach_rot_jerk
    ∷ command rot_settings_reg speed (times units_per_revolution cls.approach_rpm)
    ∷ unless_zero rotation
        (if is_zero home_on_approach
          then command rot_action_reg mc_move rotation
          else command rot_action_reg mc_home (times 2 rotation))
        (command z_settings_reg jerk cls.approach_z_jerk
          ∷ command z_settings_reg speed (times z_speed_factor cls.approach_microns_per_sec)
          ∷ unless_zero delta_z (command z_action_reg mc_move delta_z) (interrupt_command ∷ []))

unfoldable pub press_commands : CurrentLayerSettings → List MotorCommand
press_commands cls =
    command z_settings_reg speed (times z_speed_factor cls.press_microns_per_sec)
    ∷ unless_zero cls.press_microns (command z_action_reg mc_move (negated cls.press_microns))
        (interrupt_command ∷ [])

unfoldable pub unpress_commands : CurrentLayerSettings → List MotorCommand
unpress_commands cls =
    command z_settings_reg speed (times z_speed_factor cls.unpress_microns_per_sec)
    ∷ unless_zero cls.press_microns (command z_action_reg mc_move cls.press_microns)
        (interrupt_command ∷ [])

module _ (bus : Bus) where
  unfoldable pub separate : CurrentLayerSettings → Smith bus.World → Bool × Smith bus.World
  separate cls s = send_commands bus (separate_commands cls) s

  unfoldable pub un_jam : CurrentLayerSettings → Bool → Smith bus.World → Bool × Smith bus.World
  un_jam cls with_interrupt s = send_commands bus (un_jam_commands cls with_interrupt) s

  unfoldable pub approach :
      ℤ → CurrentLayerSettings → Bool → Smith bus.World → Bool × Smith bus.World
  approach home_on_approach cls un_jam_first s =
      if un_jam_first
      then (let (ok, s') = un_jam cls false s in
          if ok then send_commands bus (approach_commands home_on_approach cls) s' else (false, s'))
      else send_commands bus (approach_commands home_on_approach cls) s

  unfoldable pub press : CurrentLayerSettings → Smith bus.World → Bool × Smith bus.World
  press cls s = send_commands bus (press_commands cls) s

  unfoldable pub unpress : CurrentLayerSettings → Smith bus.World → Bool × Smith bus.World
  unpress cls s = send_commands bus (unpress_commands cls) s
