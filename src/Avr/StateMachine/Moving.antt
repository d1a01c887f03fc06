-- ===== src/Avr/StateMachine/Moving.antt =====
-- The reactions of the controller's state machine, AVR/MotorController/StateMachine.cpp, in the states in which an axis moves, or decelerates to the end of its motion.
-- The last clause of a state is its list of events that are ignored.
use ember_firmware.Prelude.{[], ◌∷◌}
use ember_firmware.Avr.Codes.{
  Event, reset_requested, home_z_axis_requested, home_r_axis_requested, move_z_axis_requested,
  move_r_axis_requested, disable_requested, set_z_axis_setting_requested,
  set_r_axis_setting_requested, interrupt_requested, motion_complete, pause_requested,
  resume_requested, clear_requested, error_encountered, deceleration_started, error,
  decelerating_for_completion, moving_axis, moving_axis_decelerating_for_resume, moving_axis_paused,
  ready_for_action, ready, decelerating_for_sequence_pause, decelerating_after_clear, disabled,
  moving_axis_decelerating_for_pause, decelerating_for_sequence_resume, sequence_paused,
}
use ember_firmware.Avr.StateMachine.Reaction.{
  Reaction, stay, go, set_reset_flag, dequeue_event, enqueue_event, begin_hold, end_hold,
  end_motion, clear_event_queue, disable_motor_drivers,
}

unfoldable pub decelerating_for_completion_reaction : Event → Reaction
decelerating_for_completion_reaction reset_requested = go disabled (set_reset_flag ∷ [])
decelerating_for_completion_reaction interrupt_requested = stay (enqueue_event ∷ [])
decelerating_for_completion_reaction home_r_axis_requested = stay (enqueue_event ∷ [])
decelerating_for_completion_reaction disable_requested = stay (enqueue_event ∷ [])
decelerating_for_completion_reaction move_r_axis_requested = stay (enqueue_event ∷ [])
decelerating_for_completion_reaction set_z_axis_setting_requested = stay (enqueue_event ∷ [])
decelerating_for_completion_reaction move_z_axis_requested = stay (enqueue_event ∷ [])
decelerating_for_completion_reaction set_r_axis_setting_requested = stay (enqueue_event ∷ [])
decelerating_for_completion_reaction home_z_axis_requested = stay (enqueue_event ∷ [])
decelerating_for_completion_reaction motion_complete =
    go ready_for_action (end_motion ∷ dequeue_event ∷ [])
decelerating_for_completion_reaction pause_requested = go decelerating_for_sequence_pause []
decelerating_for_completion_reaction error_encountered = go error (disable_motor_drivers ∷ [])
decelerating_for_completion_reaction _ = stay []

unfoldable pub moving_axis_reaction : Event → Reaction
moving_axis_reaction deceleration_started = go decelerating_for_completion []
moving_axis_reaction reset_requested = go disabled (set_reset_flag ∷ [])
moving_axis_reaction interrupt_requested = stay (enqueue_event ∷ [])
moving_axis_reaction home_r_axis_requested = stay (enqueue_event ∷ [])
moving_axis_reaction disable_requested = stay (enqueue_event ∷ [])
moving_axis_reaction move_r_axis_requested = stay (enqueue_event ∷ [])
moving_axis_reaction set_z_axis_setting_requested = stay (enqueue_event ∷ [])
moving_axis_reaction move_z_axis_requested = stay (enqueue_event ∷ [])
moving_axis_reaction set_r_axis_setting_requested = stay (enqueue_event ∷ [])
moving_axis_reaction home_z_axis_requested = stay (enqueue_event ∷ [])
moving_axis_reaction pause_requested = go moving_axis_decelerating_for_pause (begin_hold ∷ [])
moving_axis_reaction error_encountered = go error (disable_motor_drivers ∷ [])
moving_axis_reaction _ = stay []

unfoldable pub moving_axis_decelerating_for_resume_reaction : Event → Reaction
moving_axis_decelerating_for_resume_reaction reset_requested = go disabled (set_reset_flag ∷ [])
moving_axis_decelerating_for_resume_reaction interrupt_requested = stay (enqueue_event ∷ [])
moving_axis_decelerating_for_resume_reaction home_r_axis_requested = stay (enqueue_event ∷ [])
moving_axis_decelerating_for_resume_reaction disable_requested = stay (enqueue_event ∷ [])
moving_axis_decelerating_for_resume_reaction move_r_axis_requested = stay (enqueue_event ∷ [])
moving_axis_decelerating_for_resume_reaction set_z_axis_setting_requested =
    stay (enqueue_event ∷ [])
moving_axis_decelerating_for_resume_reaction move_z_axis_requested = stay (enqueue_event ∷ [])
moving_axis_decelerating_for_resume_reaction set_r_axis_setting_requested =
    stay (enqueue_event ∷ [])
moving_axis_decelerating_for_resume_reaction home_z_axis_requested = stay (enqueue_event ∷ [])
moving_axis_decelerating_for_resume_reaction motion_complete = go moving_axis (end_hold ∷ [])
moving_axis_decelerating_for_resume_reaction error_encountered =
    go error (disable_motor_drivers ∷ [])
moving_axis_decelerating_for_resume_reaction _ = stay []

unfoldable pub moving_axis_paused_reaction : Event → Reaction
moving_axis_paused_reaction resume_requested = go moving_axis (end_hold ∷ [])
moving_axis_paused_reaction reset_requested = go disabled (set_reset_flag ∷ [])
moving_axis_paused_reaction interrupt_requested = stay (enqueue_event ∷ [])
moving_axis_paused_reaction home_r_axis_requested = stay (enqueue_event ∷ [])
moving_axis_paused_reaction disable_requested = stay (enqueue_event ∷ [])
moving_axis_paused_reaction move_r_axis_requested = stay (enqueue_event ∷ [])
moving_axis_paused_reaction set_z_axis_setting_requested = stay (enqueue_event ∷ [])
moving_axis_paused_reaction move_z_axis_requested = stay (enqueue_event ∷ [])
moving_axis_paused_reaction set_r_axis_setting_requested = stay (enqueue_event ∷ [])
moving_axis_paused_reaction home_z_axis_requested = stay (enqueue_event ∷ [])
moving_axis_paused_reaction clear_requested = go ready (end_motion ∷ clear_event_queue ∷ [])
moving_axis_paused_reaction error_encountered = go error (disable_motor_drivers ∷ [])
moving_axis_paused_reaction _ = stay []

unfoldable pub decelerating_for_sequence_pause_reaction : Event → Reaction
decelerating_for_sequence_pause_reaction resume_requested = go decelerating_for_sequence_resume []
decelerating_for_sequence_pause_reaction reset_requested = go disabled (set_reset_flag ∷ [])
decelerating_for_sequence_pause_reaction interrupt_requested = stay (enqueue_event ∷ [])
decelerating_for_sequence_pause_reaction home_r_axis_requested = stay (enqueue_event ∷ [])
decelerating_for_sequence_pause_reaction disable_requested = stay (enqueue_event ∷ [])
decelerating_for_sequence_pause_reaction move_r_axis_requested = stay (enqueue_event ∷ [])
decelerating_for_sequence_pause_reaction set_z_axis_setting_requested = stay (enqueue_event ∷ [])
decelerating_for_sequence_pause_reaction move_z_axis_requested = stay (enqueue_event ∷ [])
decelerating_for_sequence_pause_reaction set_r_axis_setting_requested = stay (enqueue_event ∷ [])
decelerating_for_sequence_pause_reaction home_z_axis_requested = stay (enqueue_event ∷ [])
decelerating_for_sequence_pause_reaction motion_complete = go sequence_paused (end_motion ∷ [])
decelerating_for_sequence_pause_reaction clear_requested =
    go decelerating_after_clear (clear_event_queue ∷ [])
decelerating_for_sequence_pause_reaction error_encountered = go error (disable_motor_drivers ∷ [])
decelerating_for_sequence_pause_reaction _ = stay []

unfoldable pub decelerating_after_clear_reaction : Event → Reaction
decelerating_after_clear_reaction reset_requested = go disabled (set_reset_flag ∷ [])
decelerating_after_clear_reaction interrupt_requested = stay (enqueue_event ∷ [])
decelerating_after_clear_reaction home_r_axis_requested = stay (enqueue_event ∷ [])
decelerating_after_clear_reaction disable_requested = stay (enqueue_event ∷ [])
decelerating_after_clear_reaction move_r_axis_requested = stay (enqueue_event ∷ [])
decelerating_after_clear_reaction set_z_axis_setting_requested = stay (enqueue_event ∷ [])
decelerating_after_clear_reaction move_z_axis_requested = stay (enqueue_event ∷ [])
decelerating_after_clear_reaction set_r_axis_setting_requested = stay (enqueue_event ∷ [])
decelerating_after_clear_reaction home_z_axis_requested = stay (enqueue_event ∷ [])
decelerating_after_clear_reaction motion_complete = go ready (end_motion ∷ dequeue_event ∷ [])
decelerating_after_clear_reaction error_encountered = go error (disable_motor_drivers ∷ [])
decelerating_after_clear_reaction _ = stay []

unfoldable pub moving_axis_decelerating_for_pause_reaction : Event → Reaction
moving_axis_decelerating_for_pause_reaction resume_requested =
    go moving_axis_decelerating_for_resume []
moving_axis_decelerating_for_pause_reaction reset_requested = go disabled (set_reset_flag ∷ [])
moving_axis_decelerating_for_pause_reaction interrupt_requested = stay (enqueue_event ∷ [])
moving_axis_decelerating_for_pause_reaction home_r_axis_requested = stay (enqueue_event ∷ [])
moving_axis_decelerating_for_pause_reaction disable_requested = stay (enqueue_event ∷ [])
moving_axis_decelerating_for_pause_reaction move_r_axis_requested = stay (enqueue_event ∷ [])
moving_axis_decelerating_for_pause_reaction set_z_axis_setting_requested = stay (enqueue_event ∷ [])
moving_axis_decelerating_for_pause_reaction move_z_axis_requested = stay (enqueue_event ∷ [])
moving_axis_decelerating_for_pause_reaction set_r_axis_setting_requested = stay (enqueue_event ∷ [])
moving_axis_decelerating_for_pause_reaction home_z_axis_requested = stay (enqueue_event ∷ [])
moving_axis_decelerating_for_pause_reaction motion_complete = go moving_axis_paused []
moving_axis_decelerating_for_pause_reaction clear_requested =
    go decelerating_after_clear (clear_event_queue ∷ [])
moving_axis_decelerating_for_pause_reaction error_encountered =
    go error (disable_motor_drivers ∷ [])
moving_axis_decelerating_for_pause_reaction _ = stay []

unfoldable pub decelerating_for_sequence_resume_reaction : Event → Reaction
decelerating_for_sequence_resume_reaction reset_requested = go disabled (set_reset_flag ∷ [])
decelerating_for_sequence_resume_reaction interrupt_requested = stay (enqueue_event ∷ [])
decelerating_for_sequence_resume_reaction home_r_axis_requested = stay (enqueue_event ∷ [])
decelerating_for_sequence_resume_reaction disable_requested = stay (enqueue_event ∷ [])
decelerating_for_sequence_resume_reaction move_r_axis_requested = stay (enqueue_event ∷ [])
decelerating_for_sequence_resume_reaction set_z_axis_setting_requested = stay (enqueue_event ∷ [])
decelerating_for_sequence_resume_reaction move_z_axis_requested = stay (enqueue_event ∷ [])
decelerating_for_sequence_resume_reaction set_r_axis_setting_requested = stay (enqueue_event ∷ [])
decelerating_for_sequence_resume_reaction home_z_axis_requested = stay (enqueue_event ∷ [])
decelerating_for_sequence_resume_reaction motion_complete = go ready_for_action (dequeue_event ∷ [])
decelerating_for_sequence_resume_reaction error_encountered = go error (disable_motor_drivers ∷ [])
decelerating_for_sequence_resume_reaction _ = stay []
