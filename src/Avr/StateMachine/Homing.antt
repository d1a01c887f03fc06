-- ===== src/Avr/StateMachine/Homing.antt =====
-- The reactions of the controller's state machine, AVR/MotorController/StateMachine.cpp, in the states in which an axis homes.
-- The last clause of a state is its list of events that are ignored.
use ember_firmware.Prelude.{[], ◌∷◌}
use ember_firmware.Avr.Codes.{
  Event, reset_requested, home_z_axis_requested, home_r_axis_requested, move_z_axis_requested,
  move_r_axis_requested, disable_requested, set_z_axis_setting_requested,
  set_r_axis_setting_requested, interrupt_requested, axis_limit_reached, motion_complete,
  pause_requested, resume_requested, clear_requested, error_encountered, deceleration_started,
  axis_at_limit, homing_z_axis, error, homing_z_axis_paused, homing_r_axis,
  decelerating_for_completion, homing_r_axis_decelerating_for_resume, homing_r_axis_paused,
  homing_r_axis_decelerating_for_pause, ready_for_action, ready,
  homing_z_axis_decelerating_for_resume, decelerating_after_clear, disabled,
  homing_z_axis_decelerating_for_pause,
}
use ember_firmware.Avr.StateMachine.Reaction.{
  Reaction, stay, go, set_reset_flag, dequeue_event, enqueue_event, begin_hold, end_hold,
  end_motion, clear_event_queue, disable_motor_drivers,
}

unfoldable pub homing_z_axis_reaction : Event → Reaction
homing_z_axis_reaction deceleration_started = go decelerating_for_completion []
homing_z_axis_reaction reset_requested = go disabled (set_reset_flag ∷ [])
homing_z_axis_reaction axis_at_limit = go ready_for_action (dequeue_event ∷ [])
homing_z_axis_reaction interrupt_requested = stay (enqueue_event ∷ [])
homing_z_axis_reaction home_r_axis_requested = stay (enqueue_event ∷ [])
homing_z_axis_reaction disable_requested = stay (enqueue_event ∷ [])
homing_z_axis_reaction move_r_axis_requested = stay (enqueue_event ∷ [])
homing_z_axis_reaction set_z_axis_setting_requested = stay (enqueue_event ∷ [])
homing_z_axis_reaction move_z_axis_requested = stay (enqueue_event ∷ [])
homing_z_axis_reaction set_r_axis_setting_requested = stay (enqueue_event ∷ [])
homing_z_axis_reaction home_z_axis_requested = stay (enqueue_event ∷ [])
homing_z_axis_reaction axis_limit_reached = go decelerating_for_completion (begin_hold ∷ [])
homing_z_axis_reaction pause_requested = go homing_z_axis_decelerating_for_pause (begin_hold ∷ [])
homing_z_axis_reaction error_encountered = go error (disable_motor_drivers ∷ [])
homing_z_axis_reaction _ = stay []

unfoldable pub homing_z_axis_paused_reaction : Event → Reaction
homing_z_axis_paused_reaction resume_requested = go homing_z_axis (end_hold ∷ [])
homing_z_axis_paused_reaction reset_requested = go disabled (set_reset_flag ∷ [])
homing_z_axis_paused_reaction interrupt_requested = stay (enqueue_event ∷ [])
homing_z_axis_paused_reaction home_r_axis_requested = stay (enqueue_event ∷ [])
homing_z_axis_paused_reaction disable_requested = stay (enqueue_event ∷ [])
homing_z_axis_paused_reaction move_r_axis_requested = stay (enqueue_event ∷ [])
homing_z_axis_paused_reaction set_z_axis_setting_requested = stay (enqueue_event ∷ [])
homing_z_axis_paused_reaction move_z_axis_requested = stay (enqueue_event ∷ [])
homing_z_axis_paused_reaction set_r_axis_setting_requested = stay (enqueue_event ∷ [])
homing_z_axis_paused_reaction home_z_axis_requested = stay (enqueue_event ∷ [])
homing_z_axis_paused_reaction clear_requested = go ready (end_motion ∷ clear_event_queue ∷ [])
homing_z_axis_paused_reaction error_encountered = go error (disable_motor_drivers ∷ [])
homing_z_axis_paused_reaction _ = stay []

unfoldable pub homing_r_axis_reaction : Event → Reaction
homing_r_axis_reaction deceleration_started = go decelerating_for_completion []
homing_r_axis_reaction reset_requested = go disabled (set_reset_flag ∷ [])
homing_r_axis_reaction axis_at_limit = go ready_for_action (dequeue_event ∷ [])
homing_r_axis_reaction interrupt_requested = stay (enqueue_event ∷ [])
homing_r_axis_reaction home_r_axis_requested = stay (enqueue_event ∷ [])
homing_r_axis_reaction disable_requested = stay (enqueue_event ∷ [])
homing_r_axis_reaction move_r_axis_requested = stay (enqueue_event ∷ [])
homing_r_axis_reaction set_z_axis_setting_requested = stay (enqueue_event ∷ [])
homing_r_axis_reaction move_z_axis_requested = stay (enqueue_event ∷ [])
homing_r_axis_reaction set_r_axis_setting_requested = stay (enqueue_event ∷ [])
homing_r_axis_reaction home_z_axis_requested = stay (enqueue_event ∷ [])
homing_r_axis_reaction axis_limit_reached = go decelerating_for_completion (begin_hold ∷ [])
homing_r_axis_reaction pause_requested = go homing_r_axis_decelerating_for_pause (begin_hold ∷ [])
homing_r_axis_reaction error_encountered = go error (disable_motor_drivers ∷ [])
homing_r_axis_reaction _ = stay []

unfoldable pub homing_r_axis_decelerating_for_resume_reaction : Event → Reaction
homing_r_axis_decelerating_for_resume_reaction reset_requested = go disabled (set_reset_flag ∷ [])
homing_r_axis_decelerating_for_resume_reaction interrupt_requested = stay (enqueue_event ∷ [])
homing_r_axis_decelerating_for_resume_reaction home_r_axis_requested = stay (enqueue_event ∷ [])
homing_r_axis_decelerating_for_resume_reaction disable_requested = stay (enqueue_event ∷ [])
homing_r_axis_decelerating_for_resume_reaction move_r_axis_requested = stay (enqueue_event ∷ [])
homing_r_axis_decelerating_for_resume_reaction set_z_axis_setting_requested =
    stay (enqueue_event ∷ [])
homing_r_axis_decelerating_for_resume_reaction move_z_axis_requested = stay (enqueue_event ∷ [])
homing_r_axis_decelerating_for_resume_reaction set_r_axis_setting_requested =
    stay (enqueue_event ∷ [])
homing_r_axis_decelerating_for_resume_reaction home_z_axis_requested = stay (enqueue_event ∷ [])
homing_r_axis_decelerating_for_resume_reaction motion_complete = go homing_r_axis (end_hold ∷ [])
homing_r_axis_decelerating_for_resume_reaction error_encountered =
    go error (disable_motor_drivers ∷ [])
homing_r_axis_decelerating_for_resume_reaction _ = stay []

unfoldable pub homing_r_axis_paused_reaction : Event → Reaction
homing_r_axis_paused_reaction resume_requested = go homing_r_axis (end_hold ∷ [])
homing_r_axis_paused_reaction reset_requested = go disabled (set_reset_flag ∷ [])
homing_r_axis_paused_reaction interrupt_requested = stay (enqueue_event ∷ [])
homing_r_axis_paused_reaction home_r_axis_requested = stay (enqueue_event ∷ [])
homing_r_axis_paused_reaction disable_requested = stay (enqueue_event ∷ [])
homing_r_axis_paused_reaction move_r_axis_requested = stay (enqueue_event ∷ [])
homing_r_axis_paused_reaction set_z_axis_setting_requested = stay (enqueue_event ∷ [])
homing_r_axis_paused_reaction move_z_axis_requested = stay (enqueue_event ∷ [])
homing_r_axis_paused_reaction set_r_axis_setting_requested = stay (enqueue_event ∷ [])
homing_r_axis_paused_reaction home_z_axis_requested = stay (enqueue_event ∷ [])
homing_r_axis_paused_reaction clear_requested = go ready (end_motion ∷ clear_event_queue ∷ [])
homing_r_axis_paused_reaction error_encountered = go error (disable_motor_drivers ∷ [])
homing_r_axis_paused_reaction _ = stay []

unfoldable pub homing_r_axis_decelerating_for_pause_reaction : Event → Reaction
homing_r_axis_decelerating_for_pause_reaction resume_requested =
    go homing_r_axis_decelerating_for_resume []
homing_r_axis_decelerating_for_pause_reaction reset_requested = go disabled (set_reset_flag ∷ [])
homing_r_axis_decelerating_for_pause_reaction interrupt_requested = stay (enqueue_event ∷ [])
homing_r_axis_decelerating_for_pause_reaction home_r_axis_requested = stay (enqueue_event ∷ [])
homing_r_axis_decelerating_for_pause_reaction disable_requested = stay (enqueue_event ∷ [])
homing_r_axis_decelerating_for_pause_reaction move_r_axis_requested = stay (enqueue_event ∷ [])
homing_r_axis_decelerating_for_pause_reaction set_z_axis_setting_requested =
    stay (enqueue_event ∷ [])
homing_r_axis_decelerating_for_pause_reaction move_z_axis_requested = stay (enqueue_event ∷ [])
homing_r_axis_decelerating_for_pause_reaction set_r_axis_setting_requested =
    stay (enqueue_event ∷ [])
homing_r_axis_decelerating_for_pause_reaction home_z_axis_requested = stay (enqueue_event ∷ [])
homing_r_axis_decelerating_for_pause_reaction motion_complete = go homing_r_axis_paused []
homing_r_axis_decelerating_for_pause_reaction clear_requested =
    go decelerating_after_clear (clear_event_queue ∷ [])
homing_r_axis_decelerating_for_pause_reaction error_encountered =
    go error (disable_motor_drivers ∷ [])
homing_r_axis_decelerating_for_pause_reaction _ = stay []

unfoldable pub homing_z_axis_decelerating_for_resume_reaction : Event → Reaction
homing_z_axis_decelerating_for_resume_reaction reset_requested = go disabled (set_reset_flag ∷ [])
homing_z_axis_decelerating_for_resume_reaction interrupt_requested = stay (enqueue_event ∷ [])
homing_z_axis_decelerating_for_resume_reaction home_r_axis_requested = stay (enqueue_event ∷ [])
homing_z_axis_decelerating_for_resume_reaction disable_requested = stay (enqueue_event ∷ [])
homing_z_axis_decelerating_for_resume_reaction move_r_axis_requested = stay (enqueue_event ∷ [])
homing_z_axis_decelerating_for_resume_reaction set_z_axis_setting_requested =
    stay (enqueue_event ∷ [])
homing_z_axis_decelerating_for_resume_reaction move_z_axis_requested = stay (enqueue_event ∷ [])
homing_z_axis_decelerating_for_resume_reaction set_r_axis_setting_requested =
    stay (enqueue_event ∷ [])
homing_z_axis_decelerating_for_resume_reaction home_z_axis_requested = stay (enqueue_event ∷ [])
homing_z_axis_decelerating_for_resume_reaction motion_complete = go homing_z_axis (end_hold ∷ [])
homing_z_axis_decelerating_for_resume_reaction error_encountered =
    go error (disable_motor_drivers ∷ [])
homing_z_axis_decelerating_for_resume_reaction _ = stay []

unfoldable pub homing_z_axis_decelerating_for_pause_reaction : Event → Reaction
homing_z_axis_decelerating_for_pause_reaction resume_requested =
    go homing_z_axis_decelerating_for_resume []
homing_z_axis_decelerating_for_pause_reaction reset_requested = go disabled (set_reset_flag ∷ [])
homing_z_axis_decelerating_for_pause_reaction interrupt_requested = stay (enqueue_event ∷ [])
homing_z_axis_decelerating_for_pause_reaction home_r_axis_requested = stay (enqueue_event ∷ [])
homing_z_axis_decelerating_for_pause_reaction disable_requested = stay (enqueue_event ∷ [])
homing_z_axis_decelerating_for_pause_reaction move_r_axis_requested = stay (enqueue_event ∷ [])
homing_z_axis_decelerating_for_pause_reaction set_z_axis_setting_requested =
    stay (enqueue_event ∷ [])
homing_z_axis_decelerating_for_pause_reaction move_z_axis_requested = stay (enqueue_event ∷ [])
homing_z_axis_decelerating_for_pause_reaction set_r_axis_setting_requested =
    stay (enqueue_event ∷ [])
homing_z_axis_decelerating_for_pause_reaction home_z_axis_requested = stay (enqueue_event ∷ [])
homing_z_axis_decelerating_for_pause_reaction motion_complete = go homing_z_axis_paused []
homing_z_axis_decelerating_for_pause_reaction clear_requested =
    go decelerating_after_clear (clear_event_queue ∷ [])
homing_z_axis_decelerating_for_pause_reaction error_encountered =
    go error (disable_motor_drivers ∷ [])
homing_z_axis_decelerating_for_pause_reaction _ = stay []
