-- ===== src/Avr/MainLoop/Safety/Queries.antt =====
-- The queries of the main loop that handle an event keep the invariant.
use ember_firmware.Prelude.{
  ◌≡◌, refl, if◌then◌else◌, Bool, true, false, arith, Bool-cases, inl, inr,
}
use ember_firmware.Avr.Codes.{
  status_command_buffer_full, error_encountered, axis_limit_reached, motion_complete,
  deceleration_started, axis_at_limit, status_command_unknown, Event, no_event, EventData,
}
use ember_firmware.Avr.Command.{Command, no_command}
use ember_firmware.Avr.CommandBuffer.{command_buffer_size}
use ember_firmware.Avr.CommandBuffer
use ember_firmware.Avr.CommandBuffer.Framing.{get_command-IsValid}
use ember_firmware.Avr.Platform.{Platform}
use ember_firmware.Avr.Firmware.{FirmwareOn}
use ember_firmware.Avr.StateMachine.Step.{handle_event}
use ember_firmware.Avr.StateMachine.Queueing.{is_deferrable}
use ember_firmware.Avr.CommandMap.{get_event_code}
use ember_firmware.Avr.MainLoop.{
  query_error, query_command_buffer_full, query_limit_switch_interrupt, query_motion_complete,
  query_axis_at_limit, query_deceleration_started, handle_queued, handle_command,
  query_command_buffer,
}
use ember_firmware.Avr.MainLoop.Steps.{at_reset, at_error}
use ember_firmware.Avr.MainLoop.Safety.{
  asks_reset, Safe, Settled, handled-Safe, handled-Settled, Settled-Safe, same-Safe,
}

module _ (platform : Platform) where
  -- A query that handles an event if a flag is up.
  asked-Settled :
      (flag : Bool) (d : EventData) (e : Event) (fw fw' : FirmwareOn platform)
      → asks_reset e ≡ false
      → Settled platform fw
      → Settled platform fw'
      → Settled platform (if flag then handle_event platform d e fw' else fw)
  asked-Settled true d e fw fw' other s s' = handled-Settled platform d e fw' other s'
  asked-Settled false d e fw fw' other s s' = s

  pub query_error-Settled :
      (junk : EventData) (fw : FirmwareOn platform)
      → Settled platform fw
      → Settled platform (query_error platform junk fw)
  unfolding query_error
  query_error-Settled junk fw s = asked-Settled fw.mc.error junk error_encountered fw _ refl s (
      same-Safe platform at_error fw fw.limit_switch_hit fw.pins fw.motion fw.mc.motion_complete
        fw.mc.deceleration_started false fw.mc.axis_at_limit fw.mc.status refl s)

  pub query_command_buffer_full-Settled :
      (junk : EventData) (fw : FirmwareOn platform)
      → Settled platform fw
      → Settled platform (query_command_buffer_full platform junk fw)
  unfolding query_command_buffer_full
  query_command_buffer_full-Settled junk fw s =
      asked-Settled (CommandBuffer.is_full fw.commands) junk error_encountered fw _ refl s (
        same-Safe platform at_error fw fw.limit_switch_hit fw.pins fw.motion fw.mc.motion_complete
          fw.mc.deceleration_started fw.mc.error fw.mc.axis_at_limit status_command_buffer_full refl
          s)

  pub query_limit_switch_interrupt-Settled :
      (junk : EventData) (fw : FirmwareOn platform)
      → Settled platform fw
      → Settled platform (query_limit_switch_interrupt platform junk fw)
  unfolding query_limit_switch_interrupt
  query_limit_switch_interrupt-Settled junk fw s =
      asked-Settled fw.limit_switch_hit junk axis_limit_reached fw _ refl s (
        same-Safe platform at_error fw false fw.pins fw.motion fw.mc.motion_complete
          fw.mc.deceleration_started fw.mc.error fw.mc.axis_at_limit fw.mc.status refl s)

  pub query_motion_complete-Settled :
      (junk : EventData) (fw : FirmwareOn platform)
      → Settled platform fw
      → Settled platform (query_motion_complete platform junk fw)
  unfolding query_motion_complete
  query_motion_complete-Settled junk fw s =
      asked-Settled fw.mc.motion_complete junk motion_complete fw _ refl s (
        same-Safe platform at_error fw fw.limit_switch_hit fw.pins fw.motion false
          fw.mc.deceleration_started fw.mc.error fw.mc.axis_at_limit fw.mc.status refl s)

  pub query_axis_at_limit-Settled :
      (junk : EventData) (fw : FirmwareOn platform)
      → Settled platform fw
      → Settled platform (query_axis_at_limit platform junk fw)
  unfolding query_axis_at_limit
  query_axis_at_limit-Settled junk fw s =
      asked-Settled fw.mc.axis_at_limit junk axis_at_limit fw _ refl s (
        same-Safe platform at_error fw fw.limit_switch_hit fw.pins fw.motion fw.mc.motion_complete
          fw.mc.deceleration_started fw.mc.error false fw.mc.status refl s)

  pub query_deceleration_started-Settled :
      (junk : EventData) (fw : FirmwareOn platform)
      → Settled platform fw
      → Settled platform (query_deceleration_started platform junk fw)
  unfolding query_deceleration_started
  query_deceleration_started-Settled junk fw s =
      asked-Settled fw.mc.deceleration_started junk deceleration_started fw _ refl s (
        same-Safe platform at_error fw fw.limit_switch_hit fw.pins fw.motion fw.mc.motion_complete
          false fw.mc.error fw.mc.axis_at_limit fw.mc.status refl s)

  -- The events that the queue may hold ask for no reset.
  command_no_reset : (e : Event) → is_deferrable e ≡ true → asks_reset e ≡ false
  command_no_reset e h = ground arith

  pub handle_queued-Settled :
      (fw : FirmwareOn platform)
      → fw.mc.queued_event ≡ true
      → Settled platform fw
      → Settled platform (handle_queued platform fw)
  unfolding handle_queued
  handle_queued-Settled fw taken s =
      handled-Settled platform fw.mc.queued_event_data fw.mc.queued_event_code _
        (command_no_reset fw.mc.queued_event_code (s.queue.taken taken))
        (record {
          drivers = s.drivers;
          queue = record {
            valid = s.queue.valid;
            waiting = s.queue.waiting;
            taken = λ no. ground arith;
          };
          buffer = s.buffer;
          reset_place = s.reset_place;
        })

  handle_command-Safe :
      (code : Event) (c : Command) (fw : FirmwareOn platform)
      → Settled platform fw
      → Safe platform at_reset (handle_command platform code c fw)
  unfolding handle_command
  handle_command-Safe no_event c fw s = Settled-Safe platform at_reset (
      same-Safe platform at_error fw fw.limit_switch_hit fw.pins fw.motion fw.mc.motion_complete
        fw.mc.deceleration_started true fw.mc.axis_at_limit status_command_unknown refl s)
  handle_command-Safe code c fw s =
      handled-Safe platform (record { command = c.action; parameter = c.parameter }) code fw s

  pub query_command_buffer-Safe :
      (fw : FirmwareOn platform)
      → Settled platform fw
      → Safe platform at_reset (query_command_buffer platform fw)
  unfolding query_command_buffer
  query_command_buffer-Safe fw s = elim (Bool-cases (CommandBuffer.is_empty fw.commands)) [
    | inl none_came ↦ rw none_came (Settled-Safe platform at_reset s)
    | inr came ↦
        let (c, b) = CommandBuffer.get_command fw.commands no_command in
        rw came (
          handle_command-Safe (get_event_code c.register c.action) c _ (record {
            drivers = s.drivers;
            queue = record {
              valid = s.queue.valid;
              waiting = s.queue.waiting;
              taken = s.queue.taken;
            };
            buffer = get_command-IsValid fw.commands no_command s.buffer;
            reset_place = s.reset_place;
          }))
  ]
