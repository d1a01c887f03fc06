-- ===== src/Avr/StateMachine/Reaction.antt =====
-- What a state does on an event: the code segments of AVR/MotorController/StateMachine.cpp that it
-- runs, in order, after it has set the next state.
use ember_firmware.Prelude.{List}
use ember_firmware.Avr.Codes.{State}

pub data Action : Type 0 where
  set_reset_flag dequeue_event enqueue_event begin_hold end_hold end_motion : Action
  clear_event_queue disable_motor_drivers enable_motor_drivers generate_interrupt : Action
  home_z_axis home_r_axis move_z_axis move_r_axis set_z_axis_setting set_r_axis_setting : Action
  state_machine_error : Action

pub data Reaction : Type 0 where
  stay : List Action → Reaction
  go : State → List Action → Reaction
