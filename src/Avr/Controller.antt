-- ===== src/Avr/Controller.antt =====
-- The commands of the controller, AVR/MotorController/MotorController.cpp. A function returns the
-- new state, beside its status where it has one.
use ember_firmware.Prelude.{ℕ, suc, ◌%◌, Bool, true, false, ◌==◌, if◌then◌else◌}
use ember_firmware.Prelude.Int.{ℤ, pos, pattern32}
use ember_firmware.Avr.Codes.{
  EventData, Status, status_success, status_setting_command_unknown, step_angle, units_per_rev,
  microstepping, jerk, speed,
}
use ember_firmware.Avr.Platform.{Axis, z_axis, r_axis, PerAxis, Platform}
use ember_firmware.Avr.AxisSettings.{AxisSettings}
use ember_firmware.Avr.AxisSettings
use ember_firmware.Avr.Firmware.{McState, Pins, FirmwareOn}
use ember_firmware.Avr.Motors

-- `RETURN_ON_ERROR`
abbrev pub return_on_error : {S T : Type 0} → Status × S → T → (S → Status × T) → Status × T
return_on_error (status_success, s) failed go_on = go_on s
return_on_error (e, s) failed go_on = (e, failed)

module _ (platform : Platform) where
  open platform use {
    floats, Motion, motors_initialize, planner_initialize, pool_initialize, set_axis_position,
    set_pulses_per_unit, plan_acceleration_line, end_move,
  }
  open floats use {Float, of_int, lt, fabs}

  -- The axis' settings object in `mcState`.
  abbrev pub settings_of : Axis → McState Float → AxisSettings Float
  settings_of z_axis mc = mc.z_axis_settings
  settings_of r_axis mc = mc.r_axis_settings

  abbrev pub with_settings : Axis → McState Float → AxisSettings Float → McState Float
  with_settings z_axis mc s = record mc { z_axis_settings = s }
  with_settings r_axis mc s = record mc { r_axis_settings = s }

  -- The interrupt line high, the limit switch interrupts off, and the motion system initialized.
  unfoldable pub initialize : FirmwareOn platform → FirmwareOn platform
  initialize fw = record fw {
    pins = Motors.initialize_pins (record (fw.pins) {
      interrupt_high = true;
      z_limit_interrupt = false;
      r_limit_interrupt = false;
    });
    motion = pool_initialize (planner_initialize (motors_initialize fw.motion));
  }

  -- The line goes low for 50 ms and high again.
  unfoldable pub generate_interrupt : FirmwareOn platform → FirmwareOn platform
  generate_interrupt fw = record fw {
    pins = record (fw.pins) {
      interrupt_high = true;
      interrupt_pulses = suc fw.pins.interrupt_pulses;
    };
  }

  -- Accepted settings are stored; the pulses per unit that follow from them may be set too.
  unfoldable pub store :
      Axis → FirmwareOn platform → AxisSettings Float → Status × FirmwareOn platform
  store axis fw s = (status_success, record fw { mc = with_settings axis fw.mc s })

  unfoldable pub store_pulses :
      Axis → FirmwareOn platform → AxisSettings Float → Status × FirmwareOn platform
  store_pulses axis fw s = (
    status_success,
    record fw {
      mc = with_settings axis fw.mc s;
      motion = set_pulses_per_unit axis (AxisSettings.pulses_per_unit floats s) fw.motion;
    },
  )

  -- `static_cast<uint8_t>`
  abbrev pub low_byte : ℤ → ℕ
  low_byte z = pattern32 z % 256

  unfoldable pub update_settings :
      Axis → EventData → FirmwareOn platform → Status × FirmwareOn platform
  update_settings axis d fw =
      let s = settings_of axis fw.mc in
      let mode = low_byte d.parameter in
      if d.command == step_angle
      then return_on_error (AxisSettings.set_step_angle floats s d.parameter) fw
          (store_pulses axis fw)
      else if d.command == units_per_rev
      then return_on_error (AxisSettings.set_units_per_revolution floats s d.parameter) fw
          (store_pulses axis fw)
      else if d.command == microstepping
      then return_on_error (AxisSettings.set_microstepping_mode floats s mode) fw
          (store_pulses axis (record fw { pins = Motors.set_microstepping_mode fw.pins mode }))
      else if d.command == jerk
      then return_on_error (AxisSettings.set_max_jerk floats s d.parameter) fw (store axis fw)
      else if d.command == speed
      then return_on_error (AxisSettings.set_speed floats s d.parameter) fw (store axis fw)
      else (status_setting_command_unknown, fw)

  -- `distances[axis] < 0 ? 1 : 0`
  abbrev pub direction_of : Float → ℕ
  direction_of x = if lt x (of_int (pos 0)) then 1 else 0

  abbrev pub only_on : Axis → Float → PerAxis Float
  only_on z_axis x = record { on_z = x; on_r = of_int (pos 0) }
  only_on r_axis x = record { on_z = of_int (pos 0); on_r = x }

  -- Both axis positions become 0; the distance of the other axis is 0.
  unfoldable pub plan_move :
      Axis → ℤ → AxisSettings Float → FirmwareOn platform → Status × FirmwareOn platform
  plan_move axis distance s fw =
      let at_zero =
        set_axis_position r_axis (of_int (pos 0))
          (set_axis_position z_axis (of_int (pos 0)) fw.motion) in
      let distances = only_on axis (of_int distance) in
      let directions : PerAxis ℕ = record {
        on_z = direction_of distances.on_z;
        on_r = direction_of distances.on_r;
      } in
      let (status, motion') =
        plan_acceleration_line (only_on axis (fabs (of_int distance))) directions
          (AxisSettings.speed s) (AxisSettings.max_jerk s) at_zero in
      (status, record fw { motion = motion' })

  -- `Move`: the settings are validated first.
  unfoldable pub move :
      Axis → ℤ → AxisSettings Float → FirmwareOn platform → Status × FirmwareOn platform
  move axis distance s fw =
      return_on_error (AxisSettings.validate floats s, fw) fw (plan_move axis distance s)

  abbrev pub limit_hit : Axis → Pins → Bool
  limit_hit z_axis p = p.z_limit_hit
  limit_hit r_axis p = p.r_limit_hit

  abbrev pub enable_limit_interrupt : Axis → Pins → Pins
  enable_limit_interrupt z_axis p = record p { z_limit_interrupt = true }
  enable_limit_interrupt r_axis p = record p { r_limit_interrupt = true }

  -- `HomeZAxis` and `HomeRAxis`
  unfoldable pub home : Axis → ℤ → FirmwareOn platform → Status × FirmwareOn platform
  home axis distance fw =
      if limit_hit axis fw.pins
      then (status_success, record fw { mc = record (fw.mc) { axis_at_limit = true } })
      else move axis distance (settings_of axis fw.mc)
          (record fw { pins = enable_limit_interrupt axis fw.pins })

  unfoldable pub end_motion : FirmwareOn platform → FirmwareOn platform
  end_motion fw = record fw { motion = end_move (pool_initialize fw.motion) }
