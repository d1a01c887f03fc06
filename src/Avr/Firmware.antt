-- ===== src/Avr/Firmware.antt =====
-- The state of the firmware: the global `mcState` (AVR/MotorController/MotorControllerState.h), the
-- event queue, the command buffer and the limit switch flag that stand beside it, the pins and
-- interrupt masks that the control code drives (AVR/MotorController/Hardware.h), and the motion
-- system.
use ember_firmware.Prelude.{ℕ, Bool, false}
use ember_firmware.Avr.Codes.{State, undefined, Event, no_event, EventData, Status, status_success}
use ember_firmware.Avr.EventQueue.{EventQueue, zero_data}
use ember_firmware.Avr.CommandBuffer.{CommandBuffer}
use ember_firmware.Avr.Platform.{Floats, Platform}
use ember_firmware.Avr.AxisSettings.{AxisSettings, default_settings}

-- `MotorControllerState`
pub record McState (F : Type 0) : Type 0 where
  pub sm_state : State
  pub z_axis_settings : AxisSettings F
  pub r_axis_settings : AxisSettings F
  pub motion_complete : Bool
  pub deceleration_started : Bool
  pub queued_event : Bool
  pub error : Bool
  pub reset : Bool
  pub axis_at_limit : Bool
  pub status : Status
  pub queued_event_data : EventData
  pub queued_event_code : Event

-- The outputs that the control code drives, and the two limit switches that it reads. A driver
-- enable pin that is high disables the drivers.
pub record Pins : Type 0 where
  pub interrupt_high : Bool
  pub interrupt_pulses : ℕ  -- how many 50 ms low pulses the interrupt line has had
  pub motor_enable_high : Bool
  pub motor_sleep_high : Bool
  pub motor_reset_high : Bool
  pub mode0 : Bool
  pub mode1 : Bool
  pub mode2 : Bool
  pub z_limit_interrupt : Bool
  pub r_limit_interrupt : Bool
  pub z_limit_hit : Bool
  pub r_limit_hit : Bool

pub record Firmware (F M : Type 0) : Type 0 where
  pub mc : McState F
  pub queue : EventQueue
  pub commands : CommandBuffer
  pub limit_switch_hit : Bool
  pub pins : Pins
  pub motion : M

-- `MotorController_t()`: all members 0, false or their initializers.
unfoldable pub initial_mc : (floats : Floats) → McState floats.Float
initial_mc floats = record {
  sm_state = undefined 0;
  z_axis_settings = default_settings floats;
  r_axis_settings = default_settings floats;
  motion_complete = false;
  deceleration_started = false;
  queued_event = false;
  error = false;
  reset = false;
  axis_at_limit = false;
  status = status_success;
  queued_event_data = zero_data;
  queued_event_code = no_event;
}

abbrev pub FirmwareOn : Platform → Type 0
FirmwareOn platform = Firmware platform.floats.Float platform.Motion
