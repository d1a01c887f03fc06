-- ===== src/Avr/MainLoop.antt =====
-- The main loop of the controller and its limit switch interrupt, AVR/MotorController/main.cpp.
-- `junk` stands for the event data that the source leaves uninitialized.
pub mod Steps
pub mod Safety
pub mod Stranded
use ember_firmware.Prelude.{Bool, true, false, if◌then◌else◌}
use ember_firmware.Avr.Codes.{
  disabled, Event, no_event, axis_limit_reached, motion_complete, error_encountered,
  deceleration_started, axis_at_limit, EventData, status_command_unknown,
  status_command_buffer_full,
}
use ember_firmware.Avr.EventQueue
use ember_firmware.Avr.Command.{Command, no_command}
use ember_firmware.Avr.CommandBuffer
use ember_firmware.Avr.CommandMap.{get_event_code}
use ember_firmware.Avr.Platform.{Platform}
use ember_firmware.Avr.Firmware.{FirmwareOn, initial_mc}
use ember_firmware.Avr.Controller
use ember_firmware.Avr.StateMachine.Step.{set_mc, handle_event}

module _ (platform : Platform) where
  open platform use {floats, plan_hold_callback}

  -- The global state after `main` has set it up, from what the pins and the motion system were and
  -- what the storage of the buffers held.
  unfoldable pub boot : FirmwareOn platform → FirmwareOn platform
  boot fw =
      set_mc platform (λ mc. record mc { sm_state = disabled })
        (Controller.initialize platform (record fw {
          mc = initial_mc floats;
          queue = EventQueue.construct fw.queue.event_data_buffer fw.queue.event_code_buffer;
          commands = CommandBuffer.construct fw.commands.buffer;
          limit_switch_hit = false;
        }))

  unfoldable pub query_reset : FirmwareOn platform → FirmwareOn platform
  query_reset fw =
      if fw.mc.reset
      then (let current_state = fw.mc.sm_state in
          let fw1 =
            set_mc platform (λ _. record (initial_mc floats) { sm_state = current_state }) fw in
          let fw2 = Controller.initialize platform fw1 in
          record fw2 {
            commands = CommandBuffer.construct fw.commands.buffer;
            queue = EventQueue.construct fw.queue.event_data_buffer fw.queue.event_code_buffer;
          })
      else fw

  unfoldable pub query_error : EventData → FirmwareOn platform → FirmwareOn platform
  query_error junk fw =
      if fw.mc.error
      then handle_event platform junk error_encountered
          (set_mc platform (λ mc. record mc { error = false }) fw)
      else fw

  unfoldable pub query_command_buffer_full : EventData → FirmwareOn platform → FirmwareOn platform
  query_command_buffer_full junk fw =
      if CommandBuffer.is_full fw.commands
      then handle_event platform junk error_encountered
          (set_mc platform (λ mc. record mc { status = status_command_buffer_full }) fw)
      else fw

  unfoldable pub query_limit_switch_interrupt :
      EventData → FirmwareOn platform → FirmwareOn platform
  query_limit_switch_interrupt junk fw =
      if fw.limit_switch_hit
      then handle_event platform junk axis_limit_reached (record fw { limit_switch_hit = false })
      else fw

  -- `Planner::PlanHoldCallback()`, whose status the loop ignores.
  unfoldable pub plan_hold : FirmwareOn platform → FirmwareOn platform
  plan_hold fw = record fw { motion = (plan_hold_callback fw.motion).1 }

  unfoldable pub query_motion_complete : EventData → FirmwareOn platform → FirmwareOn platform
  query_motion_complete junk fw =
      if fw.mc.motion_complete
      then handle_event platform junk motion_complete
          (set_mc platform (λ mc. record mc { motion_complete = false }) fw)
      else fw

  unfoldable pub query_axis_at_limit : EventData → FirmwareOn platform → FirmwareOn platform
  query_axis_at_limit junk fw =
      if fw.mc.axis_at_limit
      then handle_event platform junk axis_at_limit
          (set_mc platform (λ mc. record mc { axis_at_limit = false }) fw)
      else fw

  unfoldable pub query_deceleration_started : EventData → FirmwareOn platform → FirmwareOn platform
  query_deceleration_started junk fw =
      if fw.mc.deceleration_started
      then handle_event platform junk deceleration_started
          (set_mc platform (λ mc. record mc { deceleration_started = false }) fw)
      else fw

  -- The handling of the event that was taken from the queue.
  unfoldable pub handle_queued : FirmwareOn platform → FirmwareOn platform
  handle_queued fw =
      handle_event platform fw.mc.queued_event_data fw.mc.queued_event_code
        (set_mc platform (λ mc. record mc { queued_event = false }) fw)

  -- The flag is the source's return value: an event was handled.
  unfoldable pub query_event_queue : FirmwareOn platform → FirmwareOn platform × Bool
  query_event_queue fw = if fw.mc.queued_event then (handle_queued fw, true) else (fw, false)

  unfoldable pub handle_command : Event → Command → FirmwareOn platform → FirmwareOn platform
  handle_command no_event c fw =
      set_mc platform (λ mc. record mc { error = true; status = status_command_unknown }) fw
  handle_command code c fw =
      handle_event platform (record { command = c.action; parameter = c.parameter }) code fw

  unfoldable pub query_command_buffer : FirmwareOn platform → FirmwareOn platform
  query_command_buffer fw =
      if CommandBuffer.is_empty fw.commands
      then fw
      else (let (c, buffer) = CommandBuffer.get_command fw.commands no_command in
          handle_command (get_event_code c.register c.action) c (record fw { commands = buffer }))

  -- One round of the endless loop.
  unfoldable pub loop_body : EventData → FirmwareOn platform → FirmwareOn platform
  loop_body junk fw =
      let fw1 = query_reset fw in
      let fw2 = query_error junk fw1 in
      let fw3 = query_command_buffer_full junk fw2 in
      let fw4 = query_limit_switch_interrupt junk fw3 in
      let fw5 = plan_hold fw4 in
      let fw6 = query_motion_complete junk fw5 in
      let fw7 = query_axis_at_limit junk fw6 in
      let fw8 = query_deceleration_started junk fw7 in
      let (fw9, handled) = query_event_queue fw8 in
      if handled then fw9 else query_command_buffer fw9

  -- `ISR (LIMIT_SW_ISR_vect)`
  unfoldable pub limit_switch_isr : FirmwareOn platform → FirmwareOn platform
  limit_switch_isr fw = record fw {
    limit_switch_hit = true;
    pins = record (fw.pins) { z_limit_interrupt = false; r_limit_interrupt = false };
  }
