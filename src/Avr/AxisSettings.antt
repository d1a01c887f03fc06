-- ===== src/Avr/AxisSettings.antt =====
-- The settings of an axis, AVR/MotorController/AxisSettings.h and AxisSettings.cpp.
pub mod Validity
use ember_firmware.Prelude.{ℕ, ◌-◌, ◌*◌, ◌^◌, Bool, ltb, ◌==◌, ◌||◌, if◌then◌else◌}
use ember_firmware.Prelude.Int.{ℤ, pos, not_positive}
use ember_firmware.Avr.Codes.{
  Status, status_success, status_step_angle_setting_invalid,
  status_units_per_revolution_setting_invalid, status_max_jerk_setting_invalid,
  status_speed_setting_invalid, status_microstepping_mode_setting_invalid,
}
use ember_firmware.Avr.Platform.{Floats}

pub record AxisSettings (F : Type 0) : Type 0 where
  pub step_angle : F
  pub units_per_revolution : F
  pub max_jerk : F
  pub speed : F
  pub microstepping_factor : ℕ  -- uint8_t

module _ (floats : Floats) where
  open floats use {Float, of_int, mul, div, eq}

  -- The `AXIS_SETTINGS_DEFAULT_*` of the four `float` settings.
  abbrev pub unset : Float
  unset = of_int (pos 0)

  unfoldable pub default_settings : AxisSettings Float
  default_settings = record {
    step_angle = unset;
    units_per_revolution = unset;
    max_jerk = unset;
    speed = unset;
    microstepping_factor = 0;
  }

  unfoldable pub set_step_angle : AxisSettings Float → ℤ → Status × AxisSettings Float
  set_step_angle s value =
      if not_positive value
      then (status_step_angle_setting_invalid, s)
      else (status_success, record s { step_angle = div (of_int value) (of_int (pos 1000)) })

  unfoldable pub set_units_per_revolution : AxisSettings Float → ℤ → Status × AxisSettings Float
  set_units_per_revolution s value =
      if not_positive value
      then (status_units_per_revolution_setting_invalid, s)
      else (status_success, record s { units_per_revolution = of_int value })

  unfoldable pub set_max_jerk : AxisSettings Float → ℤ → Status × AxisSettings Float
  set_max_jerk s value =
      if not_positive value
      then (status_max_jerk_setting_invalid, s)
      else (status_success, record s { max_jerk = mul (of_int value) (of_int (pos 1000000)) })

  unfoldable pub set_speed : AxisSettings Float → ℤ → Status × AxisSettings Float
  set_speed s value =
      if not_positive value
      then (status_speed_setting_invalid, s)
      else (status_success, record s { speed = of_int value })

  -- `1 << (value - 1)`; the guard keeps the subtraction above 0 and the result below 64.
  unfoldable pub set_microstepping_mode : AxisSettings Float → ℕ → Status × AxisSettings Float
  set_microstepping_mode s value =
      if value == 0 || ltb 6 value
      then (status_microstepping_mode_setting_invalid, s)
      else (status_success, record s { microstepping_factor = 2 ^ (value - 1) })

  -- `360 * microsteppingFactor` is done in `int`, at most 360 * 32.
  unfoldable pub pulses_per_unit : AxisSettings Float → Float
  pulses_per_unit s =
      div (of_int (pos (360 * s.microstepping_factor))) (mul s.step_angle s.units_per_revolution)

  unfoldable pub validate : AxisSettings Float → Status
  validate s =
      if eq s.max_jerk unset
      then status_max_jerk_setting_invalid
      else if eq s.speed unset
      then status_speed_setting_invalid
      else if s.microstepping_factor == 0
      then status_microstepping_mode_setting_invalid
      else if eq s.units_per_revolution unset
      then status_units_per_revolution_setting_invalid
      else if eq s.step_angle unset
      then status_step_angle_setting_invalid
      else status_success
