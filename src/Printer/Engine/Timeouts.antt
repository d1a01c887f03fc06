-- ===== src/Printer/Engine/Timeouts.antt =====
-- The times that the print engine expects motions and layers to take, C++/PrintEngine.cpp.
use ember_firmware.Prelude.{Bool, if◌then◌else◌, suc, ℕ}
use ember_firmware.Prelude.Int.{negsuc, pos, ℤ}
use ember_firmware.Smith.Motor.Layer.{minus}
use ember_firmware.Printer.Codes.{
  LayerType, Setting, burn_in, burn_in_layers, first, inspection_height, layer_overhead,
  layer_thickness, min_motor_timeout_sec, model, motor_timeout_factor, r_homing_speed,
  r_start_print_angle, r_start_print_speed, z_homing_speed, z_start_print_position,
  z_start_print_speed,
}
use ember_firmware.Printer.Devices.{Devices}
use ember_firmware.Printer.Engine.{Engine}
use ember_firmware.Printer.Engine.LayerSettings.{
  LayerNames, is_burn_in_layer, is_first_layer, names_of, nonzero, plus,
}

-- `abs`
abbrev pub abs : ℤ → ℤ
abs (pos n) = pos n
abs (negsuc n) = pos (suc n)

module _ (devices : Devices) where
  open devices use {doubles, World, get_int, get_double}
  open doubles use {Double, of_int, add, sub, mul, div, to_int}

  abbrev pub num : ℕ → Double
  num n = of_int (pos n)

  abbrev int_setting : Setting → Engine devices → Double
  int_setting name m = of_int (get_int name m.world)

  -- `MILLIDEGREES_PER_REV`
  abbrev millidegrees_per_rev : Double
  millidegrees_per_rev = num 360000

  -- `(revs / rpm) * 60.0`
  abbrev rotation_time : Double → Double → Double
  rotation_time revs rpm = mul (div revs rpm) (num 60)

  unfoldable pub pad_timeout : Double → Engine devices → ℤ
  pad_timeout raw m = to_int (
      add (mul raw (get_double motor_timeout_factor m.world))
        (get_double min_motor_timeout_sec m.world))

  unfoldable pub get_homing_timeout_sec : Engine devices → ℤ
  get_homing_timeout_sec m =
      pad_timeout
        (add (div (num 1) (div (int_setting r_homing_speed m) (num 60))) (
          div (of_int (abs (get_int z_start_print_position m.world)))
            (int_setting z_homing_speed m)))
        m

  unfoldable pub get_start_position_timeout_sec : Engine devices → ℤ
  get_start_position_timeout_sec m = plus (get_homing_timeout_sec m) (
      pad_timeout
        (add
          (div (div (int_setting r_start_print_angle m) millidegrees_per_rev)
            (div (int_setting r_start_print_speed m) (num 60)))
          (div (of_int (abs (get_int z_start_print_position m.world)))
            (int_setting z_start_print_speed m)))
        m)

  abbrev revs_of : Engine devices → Double
  revs_of m = div (of_int (m.cls.motions.rotation_milli_degrees)) millidegrees_per_rev

  unfoldable pub get_pause_and_inspect_timeout_sec : Bool → Engine devices → ℤ
  get_pause_and_inspect_timeout_sec to_inspect m =
      let r_speed =
        if to_inspect then int_setting r_homing_speed m else int_setting r_start_print_speed m in
      let z_speed =
        if to_inspect then int_setting z_homing_speed m else int_setting z_start_print_speed m in
      pad_timeout
        (add (rotation_time (revs_of m) r_speed) (div (int_setting inspection_height m) z_speed)) m

  unfoldable pub get_unjamming_timeout_sec : Engine devices → ℤ
  get_unjamming_timeout_sec m =
      pad_timeout (rotation_time (mul (revs_of m) (num 3)) (of_int (m.cls.motions.separation_rpm)))
        m

  unfoldable pub get_press_timeout_sec : Engine devices → ℤ
  get_press_timeout_sec m =
      pad_timeout
        (div (of_int (m.cls.motions.press_microns)) (of_int (m.cls.motions.press_microns_per_sec)))
        m

  unfoldable pub get_unpress_timeout_sec : Engine devices → ℤ
  get_unpress_timeout_sec m =
      pad_timeout
        (div (of_int (m.cls.motions.press_microns))
          (of_int (m.cls.motions.unpress_microns_per_sec)))
        m

  unfoldable pub get_separation_timeout_sec : Engine devices → ℤ
  get_separation_timeout_sec m =
      pad_timeout
        (add (rotation_time (revs_of m) (of_int (m.cls.motions.separation_rpm))) (
          div (of_int (m.cls.motions.z_lift_microns))
            (of_int (m.cls.motions.separation_microns_per_sec))))
        m

  unfoldable pub get_approach_timeout_sec : Engine devices → ℤ
  get_approach_timeout_sec m =
      pad_timeout
        (add (rotation_time (revs_of m) (of_int (m.cls.motions.approach_rpm))) (
          div
            (of_int (minus (m.cls.motions.z_lift_microns) (m.cls.motions.layer_thickness_microns)))
            (of_int (m.cls.motions.approach_microns_per_sec))))
        m

  -- The time to press, wait and unpress, if a tray deflection is set.
  press_time : LayerNames → Engine devices → Double → Double
  press_time names m time =
      let press = int_setting (names.press_name) m in
      let pressed = add time (div press (int_setting (names.press_speed_name) m)) in
      let waited = add pressed (div (int_setting (names.press_wait_name) m) (num 1000)) in
      if nonzero (get_int (names.press_name) m.world)
      then add waited (div press (int_setting (names.unpress_speed_name) m))
      else time

  -- The three cases of the source differ in the settings that they read.
  unfoldable pub get_layer_time_sec : LayerType → Engine devices → Double
  unfolding press_time
  get_layer_time_sec type m =
      let names = names_of type in
      let height = int_setting layer_thickness m in
      let revs = div (int_setting (names.rotation_name) m) millidegrees_per_rev in
      let z_lift = int_setting (names.z_lift_name) m in
      let waited =
        add (get_double (names.exposure_name) m.world)
          (div (int_setting (names.approach_wait_name) m) (num 1000)) in
      let turned =
        add waited (rotation_time revs (int_setting (names.separation_r_speed_name) m)) in
      let lifted = add turned (div z_lift (int_setting (names.separation_z_speed_name) m)) in
      let returned =
        add lifted (rotation_time revs (int_setting (names.approach_r_speed_name) m)) in
      let lowered =
        add returned (div (sub z_lift height) (int_setting (names.approach_z_speed_name) m)) in
      add (press_time names m lowered) (get_double layer_overhead m.world)

  unfoldable pub set_estimated_print_time : Engine devices → Engine devices
  set_estimated_print_time m = record m {
    status = record m.status {
      estimated_seconds_remaining = to_int (add layer_times (div (num 1) (num 2)));
    };
  }
    where
      layers_left : Double
      layers_left =
          of_int (minus (pos m.status.num_layers) (minus (pos m.status.current_layer) (pos 1)))

      layers : Double
      layers = int_setting burn_in_layers m

      burn_in_time : Double
      burn_in_time = get_layer_time_sec burn_in m

      model_time : Double
      model_time = get_layer_time_sec model m

      burn_in_layers_left : Double
      burn_in_layers_left = sub layers (of_int (minus (pos m.status.current_layer) (pos 2)))

      layer_times : Double
      layer_times =
          if is_first_layer devices m
          then add (add (get_layer_time_sec first m) (mul layers burn_in_time))
              (mul (sub (num m.status.num_layers) (add layers (num 1))) model_time)
          else if is_burn_in_layer devices m
          then add (mul burn_in_layers_left burn_in_time)
              (mul (sub layers_left burn_in_layers_left) model_time)
          else mul layers_left model_time
