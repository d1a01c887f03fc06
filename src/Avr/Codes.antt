-- ===== src/Avr/Codes.antt =====
-- The states and events of the controller's state machine
-- (AVR/MotorController/StateMachine_smdefs.h), the registers, actions and status codes that smith
-- and the controller share (C++/include/MotorController.h), and AVR/MotorController/EventData.h.
use ember_firmware.Prelude.{ℕ}
use ember_firmware.Prelude.Int.{ℤ}

-- A value of `sm_state`: one of the 22 states, or another code, such as the 0 of static storage.
pub data State : Type 0 where
  homing_z_axis error homing_z_axis_paused homing_r_axis decelerating_for_completion : State
  homing_r_axis_decelerating_for_resume moving_axis homing_r_axis_paused : State
  moving_axis_decelerating_for_resume moving_axis_paused : State
  homing_r_axis_decelerating_for_pause ready_for_action ready : State
  decelerating_for_sequence_pause waiting_for_interrupt_request : State
  homing_z_axis_decelerating_for_resume decelerating_after_clear disabled : State
  moving_axis_decelerating_for_pause homing_z_axis_decelerating_for_pause : State
  decelerating_for_sequence_resume sequence_paused : State
  undefined : ℕ → State

-- An event code; `no_event` is the code 0, which no event has.
pub data Event : Type 0 where
  no_event : Event
  reset_requested home_z_axis_requested home_r_axis_requested move_z_axis_requested : Event
  move_r_axis_requested disable_requested enable_requested set_z_axis_setting_requested : Event
  set_r_axis_setting_requested interrupt_requested axis_limit_reached motion_complete : Event
  pause_requested resume_requested clear_requested error_encountered : Event
  deceleration_started axis_at_limit : Event

pub record EventData : Type 0 where
  pub command : ℕ  -- uint8_t
  pub parameter : ℤ  -- int32_t

-- `MC_STATUS_*`
pub data Status : Type 0 where
  status_success status_error status_eagain status_noop status_complete : Status
  status_setting_command_unknown status_max_jerk_setting_invalid : Status
  status_speed_setting_invalid status_microstepping_mode_setting_invalid : Status
  status_units_per_revolution_setting_invalid status_step_angle_setting_invalid : Status
  status_planner_buffer_full status_command_buffer_full status_event_queue_full : Status
  status_command_unknown status_state_machine_error status_move_length_too_small : Status
  status_move_time_too_small status_block_skipped status_internal_error : Status

-- command register addresses
abbrev pub command_reg_low_fencepost : ℕ
command_reg_low_fencepost = 0xa0

abbrev pub general_reg : ℕ
general_reg = 0xa1

abbrev pub rot_settings_reg : ℕ
rot_settings_reg = 0xa2

abbrev pub rot_action_reg : ℕ
rot_action_reg = 0xa3

abbrev pub z_settings_reg : ℕ
z_settings_reg = 0xa4

abbrev pub z_action_reg : ℕ
z_action_reg = 0xa5

abbrev pub command_reg_high_fencepost : ℕ
command_reg_high_fencepost = 0xa6

-- status register address
abbrev pub status_reg : ℕ
status_reg = 0x30

-- general commands
abbrev pub general_low_fencepost : ℕ
general_low_fencepost = 0

abbrev pub general_high_fencepost : ℕ
general_high_fencepost = 8

-- settings commands
abbrev pub step_angle : ℕ
step_angle = 1

abbrev pub units_per_rev : ℕ
units_per_rev = 2

abbrev pub microstepping : ℕ
microstepping = 3

abbrev pub jerk : ℕ
jerk = 4

abbrev pub speed : ℕ
speed = 5

-- action commands
abbrev pub action_high_fencepost : ℕ
action_high_fencepost = 3
