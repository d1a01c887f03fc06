-- ===== src/Printer/Engine/Motion.antt =====
-- What the print engine asks of the motors, and how a print is cleared: C++/PrintEngine.cpp, and
-- `SendMotorCommand` and `CancelPrint` of C++/PrinterStateMachine.cpp.
use ember_firmware.Prelude.{Bool, false, if◌then◌else◌, not, true, ℕ}
use ember_firmware.Prelude.Int.{pos, ℤ}
use ember_firmware.Printer.Codes.{
  HighLevelMotorCommand, approach, approach_after_jam, go_home, go_home_without_rotate_home,
  min_motor_timeout_sec, motor_error, move_to_start_position, pause_and_inspect, press,
  recover_from_jam, resume_from_inspect, separate, un_press,
}
use ember_firmware.Printer.Devices.{
  Devices, motor_clear_pending_commands, motor_command, motor_pause, motor_resume, motor_timeout,
}
use ember_firmware.Printer.Engine.{
  Engine, attempt, clear_delay_timer, clear_exposure_timer, clear_motor_timeout_timer,
  handle_fatal_error, positive, start_motor_timeout_timer, ◌▷◌,
}
use ember_firmware.Printer.Engine.LayerSettings.{plus}
use ember_firmware.Printer.Engine.Timeouts.{
  get_approach_timeout_sec, get_homing_timeout_sec, get_pause_and_inspect_timeout_sec,
  get_press_timeout_sec, get_separation_timeout_sec, get_start_position_timeout_sec,
  get_unjamming_timeout_sec, get_unpress_timeout_sec, num,
}

module _ (devices : Devices) where
  open devices use {doubles, World, call, remaining_time, get_double}
  open doubles use {Double, of_int, gt, to_int}

  timeout_sec : HighLevelMotorCommand → Engine devices → ℤ
  timeout_sec go_home m = get_homing_timeout_sec devices m
  timeout_sec go_home_without_rotate_home m = get_homing_timeout_sec devices m
  timeout_sec move_to_start_position m = get_start_position_timeout_sec devices m
  timeout_sec separate m = get_separation_timeout_sec devices m
  timeout_sec approach m = get_approach_timeout_sec devices m
  timeout_sec approach_after_jam m =
      plus (get_approach_timeout_sec devices m) (get_unjamming_timeout_sec devices m)
  timeout_sec press m = get_press_timeout_sec devices m
  timeout_sec un_press m = get_unpress_timeout_sec devices m
  timeout_sec pause_and_inspect m = get_pause_and_inspect_timeout_sec devices true m
  timeout_sec resume_from_inspect m = get_pause_and_inspect_timeout_sec devices false m
  timeout_sec recover_from_jam m = get_unjamming_timeout_sec devices m

  -- `_currentZPosition` after a command
  z_position_after : HighLevelMotorCommand → Engine devices → ℤ
  z_position_after move_to_start_position m = pos 0
  z_position_after approach m = plus m.current_z_position (m.cls.motions.layer_thickness_microns)
  z_position_after approach_after_jam m =
      plus m.current_z_position (m.cls.motions.layer_thickness_microns)
  z_position_after _ m = m.current_z_position

  -- `PrintEngine::SendMotorCommand`
  unfoldable pub engine_send_motor_command : HighLevelMotorCommand → Engine devices → Engine devices
  unfolding timeout_sec z_position_after
  engine_send_motor_command command m =
      let (ok, w) = call (motor_command command) m.world in
      let sent = record m { world = w; current_z_position = z_position_after command m } in
      let timed = start_motor_timeout_timer devices (timeout_sec command sent) sent in
      if ok then timed else handle_fatal_error devices motor_error timed

  -- `PrinterStateMachine::SendMotorCommand`
  unfoldable pub send_motor_command : HighLevelMotorCommand → Engine devices → Engine devices
  send_motor_command command m =
      engine_send_motor_command command (record m { motion_completed = false })

  unfoldable pub pause_movement : Engine devices → Engine devices
  pause_movement m =
      let paused = attempt devices motor_pause motor_error m in
      record paused { remaining_motor_timeout_sec = remaining_time motor_timeout paused.world }
      ▷ clear_motor_timeout_timer devices

  -- `(int) std::max(_remainingMotorTimeoutSec, 1.0)`
  abbrev resumed_timeout : Double → ℤ
  resumed_timeout x = to_int (if gt (num devices 1) x then num devices 1 else x)

  unfoldable pub resume_movement : Engine devices → Engine devices
  resume_movement m =
      let (ok, w) = call motor_resume m.world in
      let resumed = record m { world = w } in
      if not ok
      then handle_fatal_error devices motor_error resumed
      else if positive devices m.remaining_motor_timeout_sec
      then record (start_motor_timeout_timer devices (resumed_timeout m.remaining_motor_timeout_sec)
          resumed) { remaining_motor_timeout_sec = num devices 0 }
      else resumed

  unfoldable pub clear_pending_movement : Bool → Engine devices → Engine devices
  clear_pending_movement with_interrupt m =
      let cleared =
        record (clear_motor_timeout_timer devices
          (attempt devices (motor_clear_pending_commands with_interrupt) motor_error m)) {
            remaining_motor_timeout_sec = num devices 0;
          } in
      if with_interrupt
      then start_motor_timeout_timer devices
          (to_int (get_double min_motor_timeout_sec cleared.world)) cleared
      else cleared

  unfoldable pub set_num_layers : ℕ → Engine devices → Engine devices
  set_num_layers n m = record m { status = record m.status { num_layers = n; current_layer = 0 } }

  unfoldable pub clear_pending_exposure_info : Engine devices → Engine devices
  clear_pending_exposure_info m = record m { remaining_exposure_time_sec = num devices 0 }

  -- The temperature is logged in between.
  unfoldable pub clear_current_print : Bool → Engine devices → Engine devices
  clear_current_print with_interrupt m =
      let cleared =
        pause_movement m
        ▷ clear_pending_movement with_interrupt
        ▷ set_num_layers 0
        ▷ clear_delay_timer devices
        ▷ clear_exposure_timer devices
        ▷ clear_pending_exposure_info in
      record cleared {
        status = record cleared.status { estimated_seconds_remaining = pos 0 };
        inspection_requested = false;
      }

  unfoldable pub cancel_print : Engine devices → Engine devices
  cancel_print m = clear_current_print true (record m { motion_completed = false })
