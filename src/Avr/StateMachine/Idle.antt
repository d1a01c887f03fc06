-- ===== src/Avr/StateMachine/Idle.antt =====
-- The reactions of the controller's state machine, AVR/MotorController/StateMachine.cpp, in the states in which no axis moves.
-- The last clause of a state is its list of events that are ignored.
use ember_firmware.Prelude.{[], ◌∷◌}
use ember_firmware.Avr.Codes.{
  Event, reset_requested, home_z_axis_requested, home_r_axis_requested, move_z_axis_requested,
  move_r_axis_requested, disable_requested, enable_requested, set_z_axis_setting_requested,
  set_r_axis_setting_requested, interrupt_requested, resume_requested, clear_requested,
  error_encountered, homing_z_axis, error, homing_r_axis, moving_axis, ready_for_action, ready,
  waiting_for_interrupt_request, disabled,
}
use ember_firmware.Avr.StateMachine.Reaction.{
  Reaction, stay, go, set_reset_flag, dequeue_event, enqueue_event, clear_event_queue,
  disable_motor_drivers, enable_motor_drivers, generate_interrupt, home_z_axis, home_r_axis,
  move_z_axis, move_r_axis, set_z_axis_setting, set_r_axis_setting,
}

unfoldable pub error_reaction : Event → Reaction
error_reaction reset_requested = go disabled (set_reset_flag ∷ [])
error_reaction error_encountered = go error (disable_motor_drivers ∷ [])
error_reaction _ = stay []

unfoldable pub ready_for_action_reaction : Event → Reaction
ready_for_action_reaction reset_requested = go disabled (set_reset_flag ∷ [])
ready_for_action_reaction home_z_axis_requested = go homing_z_axis (home_z_axis ∷ [])
ready_for_action_reaction interrupt_requested = go ready (generate_interrupt ∷ dequeue_event ∷ [])
ready_for_action_reaction home_r_axis_requested = go homing_r_axis (home_r_axis ∷ [])
ready_for_action_reaction disable_requested = stay (enqueue_event ∷ [])
ready_for_action_reaction move_r_axis_requested = go moving_axis (move_r_axis ∷ [])
ready_for_action_reaction error_encountered = go error (disable_motor_drivers ∷ [])
ready_for_action_reaction set_z_axis_setting_requested =
    stay (set_z_axis_setting ∷ dequeue_event ∷ [])
ready_for_action_reaction move_z_axis_requested = go moving_axis (move_z_axis ∷ [])
ready_for_action_reaction set_r_axis_setting_requested =
    stay (set_r_axis_setting ∷ dequeue_event ∷ [])
ready_for_action_reaction _ = stay []

unfoldable pub ready_reaction : Event → Reaction
ready_reaction reset_requested = go disabled (set_reset_flag ∷ [])
ready_reaction home_r_axis_requested = go waiting_for_interrupt_request (enqueue_event ∷ [])
ready_reaction move_r_axis_requested = go waiting_for_interrupt_request (enqueue_event ∷ [])
ready_reaction move_z_axis_requested = go waiting_for_interrupt_request (enqueue_event ∷ [])
ready_reaction home_z_axis_requested = go waiting_for_interrupt_request (enqueue_event ∷ [])
ready_reaction interrupt_requested = stay (generate_interrupt ∷ dequeue_event ∷ [])
ready_reaction disable_requested = go disabled (disable_motor_drivers ∷ [])
ready_reaction error_encountered = go error (disable_motor_drivers ∷ [])
ready_reaction set_z_axis_setting_requested = stay (set_z_axis_setting ∷ dequeue_event ∷ [])
ready_reaction set_r_axis_setting_requested = stay (set_r_axis_setting ∷ dequeue_event ∷ [])
ready_reaction _ = stay []

unfoldable pub waiting_for_interrupt_request_reaction : Event → Reaction
waiting_for_interrupt_request_reaction reset_requested = go disabled (set_reset_flag ∷ [])
waiting_for_interrupt_request_reaction home_r_axis_requested = stay (enqueue_event ∷ [])
waiting_for_interrupt_request_reaction disable_requested = stay (enqueue_event ∷ [])
waiting_for_interrupt_request_reaction move_r_axis_requested = stay (enqueue_event ∷ [])
waiting_for_interrupt_request_reaction set_z_axis_setting_requested = stay (enqueue_event ∷ [])
waiting_for_interrupt_request_reaction move_z_axis_requested = stay (enqueue_event ∷ [])
waiting_for_interrupt_request_reaction set_r_axis_setting_requested = stay (enqueue_event ∷ [])
waiting_for_interrupt_request_reaction home_z_axis_requested = stay (enqueue_event ∷ [])
waiting_for_interrupt_request_reaction interrupt_requested =
    go ready_for_action (enqueue_event ∷ dequeue_event ∷ [])
waiting_for_interrupt_request_reaction error_encountered = go error (disable_motor_drivers ∷ [])
waiting_for_interrupt_request_reaction _ = stay []

unfoldable pub disabled_reaction : Event → Reaction
disabled_reaction enable_requested = go ready (enable_motor_drivers ∷ [])
disabled_reaction reset_requested = go disabled (set_reset_flag ∷ [])
disabled_reaction error_encountered = go error (disable_motor_drivers ∷ [])
disabled_reaction set_z_axis_setting_requested = stay (set_z_axis_setting ∷ [])
disabled_reaction set_r_axis_setting_requested = stay (set_r_axis_setting ∷ [])
disabled_reaction _ = stay []

unfoldable pub sequence_paused_reaction : Event → Reaction
sequence_paused_reaction resume_requested = go ready_for_action (dequeue_event ∷ [])
sequence_paused_reaction reset_requested = go disabled (set_reset_flag ∷ [])
sequence_paused_reaction interrupt_requested = stay (enqueue_event ∷ [])
sequence_paused_reaction home_r_axis_requested = stay (enqueue_event ∷ [])
sequence_paused_reaction disable_requested = stay (enqueue_event ∷ [])
sequence_paused_reaction move_r_axis_requested = stay (enqueue_event ∷ [])
sequence_paused_reaction set_z_axis_setting_requested = stay (enqueue_event ∷ [])
sequence_paused_reaction move_z_axis_requested = stay (enqueue_event ∷ [])
sequence_paused_reaction set_r_axis_setting_requested = stay (enqueue_event ∷ [])
sequence_paused_reaction home_z_axis_requested = stay (enqueue_event ∷ [])
sequence_paused_reaction clear_requested = go ready (clear_event_queue ∷ [])
sequence_paused_reaction error_encountered = go error (disable_motor_drivers ∷ [])
sequence_paused_reaction _ = stay []
