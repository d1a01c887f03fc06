-- ===== src/Printer/Callbacks.antt =====
-- What the print engine does with the interrupts of the motor controller, the front panel and the door,
-- C++/PrintEngine.cpp, outside the processing of an event. `fuel` bounds the events that are posted.
pub mod Faulty
use ember_firmware.Prelude.{Bool, List, [], ◌∷◌, false, if◌then◌else◌, true, ℕ, ◌%◌, ◌==◌}
use ember_firmware.Printer.Codes.{
  ErrorCode, PrinterEvent, ev_door_closed, ev_door_opened, ev_error, ev_left_button,
  ev_left_button_hold, ev_right_button, ev_right_button_hold, failed, motor_controller_error,
  motor_timeout_timer,
}
use ember_firmware.Printer.Devices.{Devices, motor_timeout, timer_clear}
use ember_firmware.Printer.Engine.{set_can_load_print_data}
use ember_firmware.Printer.Chart.{Machine, Statechart, motion_completed_successfully, process_event}

-- The codes of C++/include/Hardware.h.
abbrev btn1_press : ℕ
btn1_press = 1

abbrev btn1_hold : ℕ
btn1_hold = 2

abbrev btn2_press : ℕ
btn2_press = 4

abbrev btn2_hold : ℕ
btn2_hold = 8

abbrev error_status : ℕ
error_status = 255

-- `MC_STATUS_SUCCESS`
abbrev mc_status_success : ℕ
mc_status_success = 0

abbrev none_left : List PrinterEvent → Bool
none_left [] = true
none_left (e ∷ es) = false

module _ (devices : Devices) (chart : Statechart devices) (fuel : ℕ) where
  open devices use {doubles, call}

  abbrev pub is_error_set : Bool → ErrorCode → Machine devices → Machine devices
  is_error_set flag code a = record a {
    printer = record a.printer {
      status = record a.printer.status { is_error = flag; error_code = code };
    };
  }

  -- The last line of `HandleError`, after `process_event`, which has not returned while posted events
  -- are left.
  abbrev pub lower_flag : Machine devices → Machine devices
  lower_flag done =
      if none_left done.printer.posted
      then is_error_set false done.printer.status.error_code done
      else done

  -- `HandleError` with `fatal`, when no event is being processed: the error is flagged until it has been.
  unfoldable pub handle_error_at_rest : ErrorCode → Machine devices → Machine devices
  handle_error_at_rest code a =
      let told = is_error_set true code a in
      let flagged = record told { printer = set_can_load_print_data devices false told.printer } in
      lower_flag (process_event devices chart fuel ev_error flagged)

  -- `ClearMotorTimeoutTimer`
  unfoldable pub clear_timeout_at_rest : Machine devices → Machine devices
  clear_timeout_at_rest a =
      let (ok, w) = call (timer_clear motor_timeout) a.printer.world in
      let cleared = record a { printer = record a.printer { world = w } } in
      let failed = handle_error_at_rest motor_timeout_timer cleared in
      if ok then cleared else failed

  unfoldable pub motor_callback : ℕ → Machine devices → Machine devices
  motor_callback status a =
      let cleared = clear_timeout_at_rest a in
      if status == mc_status_success
      then motion_completed_successfully devices chart fuel cleared
      -- `MotionCompleted(false)` does nothing more.
      else handle_error_at_rest motor_controller_error cleared

  -- Errors of the front panel are only logged, and the two buttons together are not used.
  unfoldable pub button_callback : ℕ → Machine devices → Machine devices
  button_callback status a =
      let masked = status % 16 in
      if masked == 0
      then a
      else if status == error_status
      then a
      else if masked == btn1_press
      then process_event devices chart fuel ev_left_button a
      else if masked == btn2_press
      then process_event devices chart fuel ev_right_button a
      else if masked == btn1_hold
      then process_event devices chart fuel ev_left_button_hold a
      else if masked == btn2_hold
      then process_event devices chart fuel ev_right_button_hold a
      else a

  -- The first argument is whether `data` is the character of a closed door.
  unfoldable pub door_callback : Bool → Machine devices → Machine devices
  door_callback is_closed a =
      if is_closed
      then process_event devices chart fuel ev_door_closed a
      else process_event devices chart fuel ev_door_opened a
