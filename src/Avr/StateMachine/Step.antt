-- ===== src/Avr/StateMachine/Step.antt =====
-- How the state machine handles an event, AVR/MotorController/StateMachine.cpp: the reaction of the
-- current state, and the code segments that a reaction names.
use ember_firmware.Prelude.{List, [], ◌∷◌, true, if◌then◌else◌}
use ember_firmware.Avr.Codes.{
  State, undefined, homing_z_axis, error, homing_z_axis_paused, homing_r_axis,
  decelerating_for_completion, homing_r_axis_decelerating_for_resume, moving_axis,
  homing_r_axis_paused, moving_axis_decelerating_for_resume, moving_axis_paused,
  homing_r_axis_decelerating_for_pause, ready_for_action, ready, decelerating_for_sequence_pause,
  waiting_for_interrupt_request, homing_z_axis_decelerating_for_resume, decelerating_after_clear,
  disabled, moving_axis_decelerating_for_pause, homing_z_axis_decelerating_for_pause,
  decelerating_for_sequence_resume, sequence_paused, Event, EventData, Status, status_success,
  status_state_machine_error,
}
use ember_firmware.Avr.EventQueue
use ember_firmware.Avr.Platform.{z_axis, r_axis, Platform}
use ember_firmware.Avr.Firmware.{McState, FirmwareOn}
use ember_firmware.Avr.Motors
use ember_firmware.Avr.Controller
use ember_firmware.Avr.StateMachine.Reaction.{
  Action, Reaction, stay, go, set_reset_flag, dequeue_event, enqueue_event, begin_hold, end_hold,
  end_motion, clear_event_queue, disable_motor_drivers, enable_motor_drivers, generate_interrupt,
  home_z_axis, home_r_axis, move_z_axis, move_r_axis, set_z_axis_setting, set_r_axis_setting,
  state_machine_error,
}
use ember_firmware.Avr.StateMachine.Homing.{
  homing_z_axis_reaction, homing_z_axis_paused_reaction, homing_r_axis_reaction,
  homing_r_axis_decelerating_for_resume_reaction, homing_r_axis_paused_reaction,
  homing_r_axis_decelerating_for_pause_reaction, homing_z_axis_decelerating_for_resume_reaction,
  homing_z_axis_decelerating_for_pause_reaction,
}
use ember_firmware.Avr.StateMachine.Moving.{
  decelerating_for_completion_reaction, moving_axis_reaction,
  moving_axis_decelerating_for_resume_reaction, moving_axis_paused_reaction,
  decelerating_for_sequence_pause_reaction, decelerating_after_clear_reaction,
  moving_axis_decelerating_for_pause_reaction, decelerating_for_sequence_resume_reaction,
}
use ember_firmware.Avr.StateMachine.Idle.{
  error_reaction, ready_for_action_reaction, ready_reaction, waiting_for_interrupt_request_reaction,
  disabled_reaction, sequence_paused_reaction,
}

-- The outer `switch`; its `default` is the state machine's error handler.
unfoldable pub react : State → Event → Reaction
unfolding homing_z_axis_reaction error_reaction homing_z_axis_paused_reaction homing_r_axis_reaction
    decelerating_for_completion_reaction homing_r_axis_decelerating_for_resume_reaction
    moving_axis_reaction homing_r_axis_paused_reaction moving_axis_decelerating_for_resume_reaction
    moving_axis_paused_reaction homing_r_axis_decelerating_for_pause_reaction
    ready_for_action_reaction ready_reaction decelerating_for_sequence_pause_reaction
    waiting_for_interrupt_request_reaction homing_z_axis_decelerating_for_resume_reaction
    decelerating_after_clear_reaction disabled_reaction moving_axis_decelerating_for_pause_reaction
    homing_z_axis_decelerating_for_pause_reaction decelerating_for_sequence_resume_reaction
    sequence_paused_reaction
react homing_z_axis e = homing_z_axis_reaction e
react error e = error_reaction e
react homing_z_axis_paused e = homing_z_axis_paused_reaction e
react homing_r_axis e = homing_r_axis_reaction e
react decelerating_for_completion e = decelerating_for_completion_reaction e
react homing_r_axis_decelerating_for_resume e = homing_r_axis_decelerating_for_resume_reaction e
react moving_axis e = moving_axis_reaction e
react homing_r_axis_paused e = homing_r_axis_paused_reaction e
react moving_axis_decelerating_for_resume e = moving_axis_decelerating_for_resume_reaction e
react moving_axis_paused e = moving_axis_paused_reaction e
react homing_r_axis_decelerating_for_pause e = homing_r_axis_decelerating_for_pause_reaction e
react ready_for_action e = ready_for_action_reaction e
react ready e = ready_reaction e
react decelerating_for_sequence_pause e = decelerating_for_sequence_pause_reaction e
react waiting_for_interrupt_request e = waiting_for_interrupt_request_reaction e
react homing_z_axis_decelerating_for_resume e = homing_z_axis_decelerating_for_resume_reaction e
react decelerating_after_clear e = decelerating_after_clear_reaction e
react disabled e = disabled_reaction e
react moving_axis_decelerating_for_pause e = moving_axis_decelerating_for_pause_reaction e
react homing_z_axis_decelerating_for_pause e = homing_z_axis_decelerating_for_pause_reaction e
react decelerating_for_sequence_resume e = decelerating_for_sequence_resume_reaction e
react sequence_paused e = sequence_paused_reaction e
react (undefined n) e = stay (state_machine_error ∷ [])

module _ (platform : Platform) where
  open platform use {begin_hold as start_hold, end_hold as finish_hold}

  abbrev pub set_mc :
      (McState platform.floats.Float → McState platform.floats.Float)
      → FirmwareOn platform
      → FirmwareOn platform
  set_mc f fw = record fw { mc = f fw.mc }

  -- `CHECK_STATUS`
  abbrev pub check_status : Status × FirmwareOn platform → FirmwareOn platform
  check_status (status_success, fw) = fw
  check_status (e, fw) = set_mc (λ mc. record mc { status = e; error = true }) fw

  unfoldable pub enqueue : Event → EventData → FirmwareOn platform → FirmwareOn platform
  enqueue code d fw =
      let (status, q) = EventQueue.add fw.queue code d in
      check_status (status, record fw { queue = q })

  -- `DequeueEvent`
  unfoldable pub dequeue : FirmwareOn platform → FirmwareOn platform
  dequeue fw =
      if EventQueue.is_empty fw.queue
      then fw
      else (let (code, d, q) =
            EventQueue.remove fw.queue fw.mc.queued_event_code fw.mc.queued_event_data in
          record fw {
            mc = record (fw.mc) {
              queued_event = true;
              queued_event_code = code;
              queued_event_data = d;
            };
            queue = q;
          })

  -- A code segment, run for the event `code` with its data `d`.
  unfoldable pub perform : Event → EventData → Action → FirmwareOn platform → FirmwareOn platform
  perform code d set_reset_flag fw = set_mc (λ mc. record mc { reset = true }) fw
  perform code d dequeue_event fw = dequeue fw
  perform code d enqueue_event fw = enqueue code d fw
  perform code d begin_hold fw = record fw { motion = start_hold fw.motion }
  perform code d end_hold fw = record fw { motion = (finish_hold fw.motion).1 }
  perform code d end_motion fw = Controller.end_motion platform fw
  perform code d clear_event_queue fw = record fw { queue = EventQueue.clear fw.queue }
  perform code d disable_motor_drivers fw = record fw { pins = Motors.disable fw.pins }
  perform code d enable_motor_drivers fw = record fw { pins = Motors.enable fw.pins }
  perform code d generate_interrupt fw = Controller.generate_interrupt platform fw
  perform code d home_z_axis fw = check_status (Controller.home platform z_axis d.parameter fw)
  perform code d home_r_axis fw = check_status (Controller.home platform r_axis d.parameter fw)
  perform code d move_z_axis fw =
      check_status (Controller.move platform z_axis d.parameter fw.mc.z_axis_settings fw)
  perform code d move_r_axis fw =
      check_status (Controller.move platform r_axis d.parameter fw.mc.r_axis_settings fw)
  perform code d set_z_axis_setting fw =
      check_status (Controller.update_settings platform z_axis d fw)
  perform code d set_r_axis_setting fw =
      check_status (Controller.update_settings platform r_axis d fw)
  perform code d state_machine_error fw =
      set_mc (λ mc. record mc { status = status_state_machine_error; error = true }) fw

  unfoldable pub perform_all :
      Event → EventData → List Action → FirmwareOn platform → FirmwareOn platform
  perform_all code d [] fw = fw
  perform_all code d (a ∷ actions) fw = perform_all code d actions (perform code d a fw)

  -- The next state is set first.
  unfoldable pub carry_out :
      Event → EventData → Reaction → FirmwareOn platform → FirmwareOn platform
  carry_out code d (stay actions) fw = perform_all code d actions fw
  carry_out code d (go target actions) fw =
      perform_all code d actions (set_mc (λ mc. record mc { sm_state = target }) fw)

  -- `MotorController_State_Machine_Event`
  unfoldable pub handle_event : EventData → Event → FirmwareOn platform → FirmwareOn platform
  handle_event d code fw = carry_out code d (react fw.mc.sm_state code) fw
