-- ===== src/Avr/MainLoop/Safety.antt =====
-- The invariant of the whole controller, and that handling an event keeps it.
pub mod Queries
pub mod Reachable
use ember_firmware.Prelude.{
  ◌≡◌, refl, length, if◌then◌else◌, Bool, true, false, List, Option, none, some, arith, Bool-cases,
  inl, inr,
}
use ember_firmware.Avr.Codes.{
  Status, status_command_buffer_full, error_encountered, axis_limit_reached, motion_complete,
  deceleration_started, axis_at_limit, status_command_unknown, State, undefined, homing_z_axis,
  error, homing_z_axis_paused, homing_r_axis, decelerating_for_completion,
  homing_r_axis_decelerating_for_resume, moving_axis, homing_r_axis_paused,
  moving_axis_decelerating_for_resume, moving_axis_paused, homing_r_axis_decelerating_for_pause,
  ready_for_action, ready, decelerating_for_sequence_pause, waiting_for_interrupt_request,
  homing_z_axis_decelerating_for_resume, decelerating_after_clear, disabled,
  moving_axis_decelerating_for_pause, homing_z_axis_decelerating_for_pause,
  decelerating_for_sequence_resume, sequence_paused, Event, no_event, reset_requested, EventData,
}
use ember_firmware.Avr.EventQueue.{event_queue_length}
use ember_firmware.Avr.EventQueue
use ember_firmware.Avr.EventQueue.Refine as Queue
use ember_firmware.Avr.Command.{Command, no_command}
use ember_firmware.Avr.CommandBuffer.{command_buffer_size}
use ember_firmware.Avr.CommandBuffer
use ember_firmware.Avr.CommandBuffer.Refine as Bytes
use ember_firmware.Avr.CommandBuffer.Framing.{add_command_byte-IsValid, get_command-IsValid}
use ember_firmware.Avr.Platform.{Platform}
use ember_firmware.Avr.Firmware.{Pins, FirmwareOn, initial_mc}
use ember_firmware.Avr.StateMachine.Step.{react, handle_event}
use ember_firmware.Avr.StateMachine.Outcome.{
  reset_after, over, actions_of, target_of, sm_state-carry_out, reset-carry_out, commands-carry_out,
}
use ember_firmware.Avr.StateMachine.Drivers.{PinFits, DriversFit, handle_event-DriversFit}
use ember_firmware.Avr.StateMachine.Queueing.{is_deferrable, QueueFits, handle_event-QueueFits}
use ember_firmware.Avr.CommandMap.{get_event_code}
use ember_firmware.Avr.Motors
use ember_firmware.Avr.Controller
use ember_firmware.Avr.MainLoop.{
  boot, query_reset, query_error, query_command_buffer_full, query_limit_switch_interrupt,
  plan_hold, query_motion_complete, query_axis_at_limit, query_deceleration_started,
  query_event_queue, handle_queued, handle_command, query_command_buffer, limit_switch_isr,
}
use ember_firmware.Avr.MainLoop.Steps.{
  main_step, after_queue, timer_isr, Place, at_reset, at_error, at_full, at_limit, at_hold,
  at_complete, at_axis, at_deceleration, at_events, at_commands, Step, main, limit_isr, byte_isr,
  timers, switches, Reach, here, next,
}

-- The only event that asks for a reset.
abbrev pub asks_reset : Event → Bool
asks_reset reset_requested = true
asks_reset _ = false

reset_table :
    (s : State) (e : Event)
    → let r = react s e in
      over reset_after (actions_of r) false ≡ true
      → (asks_reset e ≡ true) × (target_of r s ≡ disabled)
unfolding react
reset_table homing_z_axis e h = ground arith
reset_table error e h = ground arith
reset_table homing_z_axis_paused e h = ground arith
reset_table homing_r_axis e h = ground arith
reset_table decelerating_for_completion e h = ground arith
reset_table homing_r_axis_decelerating_for_resume e h = ground arith
reset_table moving_axis e h = ground arith
reset_table homing_r_axis_paused e h = ground arith
reset_table moving_axis_decelerating_for_resume e h = ground arith
reset_table moving_axis_paused e h = ground arith
reset_table homing_r_axis_decelerating_for_pause e h = ground arith
reset_table ready_for_action e h = ground arith
reset_table ready e h = ground arith
reset_table decelerating_for_sequence_pause e h = ground arith
reset_table waiting_for_interrupt_request e h = ground arith
reset_table homing_z_axis_decelerating_for_resume e h = ground arith
reset_table decelerating_after_clear e h = ground arith
reset_table disabled e h = ground arith
reset_table moving_axis_decelerating_for_pause e h = ground arith
reset_table homing_z_axis_decelerating_for_pause e h = ground arith
reset_table decelerating_for_sequence_resume e h = ground arith
reset_table sequence_paused e h = ground arith
reset_table (undefined n) e h = ground arith

-- A flag whose setting needs `asked` stays down without it.
stays_down : (flag asked : Bool) → (flag ≡ true → asked ≡ true) → asked ≡ false → flag ≡ false
stays_down false asked needs h = refl
stays_down true asked needs h = ground (arith, needs refl)

abbrev pub ResetFits : Place → State → Bool → Type 0
ResetFits at_reset s reset = reset ≡ true → s ≡ disabled
ResetFits _ s reset = reset ≡ false

-- The invariant: the drivers are powered as the state wants it, both buffers are well formed, the
-- event queue and the event taken from it are deferrable, and a pending reset is the next thing that
-- the main loop sees to, in state `disabled`.
pub record Safe (platform : Platform) (p : Place) (fw : FirmwareOn platform) : Type 0 where
  pub drivers : DriversFit platform fw
  pub queue : QueueFits platform fw
  pub buffer : Bytes.IsValid fw.commands
  pub reset_place : ResetFits p fw.mc.sm_state fw.mc.reset

module _ (platform : Platform) where
  -- `Safe` between two queries after the first.
  abbrev pub Settled : FirmwareOn platform → Type 0
  Settled fw = Safe platform at_error fw

  handled-commands :
      (d : EventData) (e : Event) (fw : FirmwareOn platform)
      → (handle_event platform d e fw).commands ≡ fw.commands
  unfolding handle_event
  handled-commands d e fw = commands-carry_out platform e d (react fw.mc.sm_state e) fw

  handled-sm_state :
      (d : EventData) (e : Event) (fw : FirmwareOn platform)
      → (handle_event platform d e fw).mc.sm_state
        ≡ target_of (react fw.mc.sm_state e) fw.mc.sm_state
  unfolding handle_event
  handled-sm_state d e fw = sm_state-carry_out platform e d (react fw.mc.sm_state e) fw

  handled-reset :
      (d : EventData) (e : Event) (fw : FirmwareOn platform)
      → fw.mc.reset ≡ false
      → (handle_event platform d e fw).mc.reset
        ≡ over reset_after (actions_of (react fw.mc.sm_state e)) false
  unfolding handle_event
  handled-reset d e fw clear =
      rw (reset-carry_out platform e d (react fw.mc.sm_state e) fw, clear) refl

  pub handled-Safe :
      (d : EventData) (e : Event) (fw : FirmwareOn platform)
      → Settled fw
      → Safe platform at_reset (handle_event platform d e fw)
  handled-Safe d e fw s = record {
    drivers = handle_event-DriversFit platform d e fw s.drivers s.reset_place;
    queue = handle_event-QueueFits platform e d fw s.queue;
    buffer = rw (handled-commands d e fw) s.buffer;
    reset_place =
        rw (handled-reset d e fw s.reset_place, handled-sm_state d e fw)
          (λ h. (reset_table fw.mc.sm_state e h).1);
  }

  -- Any event but a request for a reset leaves no reset pending.
  pub handled-Settled :
      (d : EventData) (e : Event) (fw : FirmwareOn platform)
      → asks_reset e ≡ false
      → Settled fw
      → Settled (handle_event platform d e fw)
  handled-Settled d e fw other s =
      let h = handled-Safe d e fw s in
      record {
        drivers = h.drivers;
        queue = h.queue;
        buffer = h.buffer;
        reset_place =
            rw (handled-reset d e fw s.reset_place)
              (stays_down _ (asks_reset e) (λ h. (reset_table fw.mc.sm_state e h).0) other);
      }

  settled-ResetFits : (p : Place) (s : State) (reset : Bool) → reset ≡ false → ResetFits p s reset
  settled-ResetFits at_reset s reset clear = λ pending. ground arith
  settled-ResetFits _ s reset clear = clear

  pub Settled-Safe : {fw : FirmwareOn platform} (p : Place) → Settled fw → Safe platform p fw
  Settled-Safe {fw} p s = record {
    drivers = s.drivers;
    queue = s.queue;
    buffer = s.buffer;
    reset_place = settled-ResetFits p fw.mc.sm_state fw.mc.reset s.reset_place;
  }

  pub settle :
      {p : Place} {fw : FirmwareOn platform}
      → (ResetFits p fw.mc.sm_state fw.mc.reset → fw.mc.reset ≡ false)
      → Safe platform p fw
      → Settled fw
  settle none_pending s = record {
    drivers = s.drivers;
    queue = s.queue;
    buffer = s.buffer;
    reset_place = none_pending s.reset_place;
  }

  -- What the invariant does not speak of may change.
  pub same-Safe :
      (p : Place) (fw : FirmwareOn platform) (limit : Bool) (pins : Pins) (motion : platform.Motion)
      (complete started failed at_end : Bool) (status : Status)
      → pins.motor_enable_high ≡ fw.pins.motor_enable_high
      → Safe platform p fw
      → Safe platform p (record fw {
        limit_switch_hit = limit;
        pins = pins;
        motion = motion;
        mc = record (fw.mc) {
          motion_complete = complete;
          deceleration_started = started;
          error = failed;
          axis_at_limit = at_end;
          status = status;
        };
      })
  same-Safe p fw limit pins motion complete started failed at_end status same s = record {
    drivers = rw same s.drivers;
    queue = record { valid = s.queue.valid; waiting = s.queue.waiting; taken = s.queue.taken };
    buffer = s.buffer;
    reset_place = s.reset_place;
  }
