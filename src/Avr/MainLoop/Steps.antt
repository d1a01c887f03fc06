-- ===== src/Avr/MainLoop/Steps.antt =====
-- The main loop and the interrupts as steps of one machine. The loop runs one query at a time, and
-- an interrupt may come between any two queries.
use ember_firmware.Prelude.{ℕ, ◌≡◌, Bool, true, false, if◌then◌else◌, Option, none, some, arith}
use ember_firmware.Avr.Codes.{EventData, Status}
use ember_firmware.Avr.CommandBuffer
use ember_firmware.Avr.Platform.{Platform}
use ember_firmware.Avr.Firmware.{FirmwareOn}
use ember_firmware.Avr.MainLoop.{
  query_reset, query_error, query_command_buffer_full, query_limit_switch_interrupt, plan_hold,
  query_motion_complete, query_axis_at_limit, query_deceleration_started, query_event_queue,
  query_command_buffer, loop_body, limit_switch_isr,
}

-- The query that the loop makes next.
pub data Place : Type 0 where
  at_reset at_error at_full at_limit at_hold at_complete at_axis at_deceleration : Place
  at_events at_commands : Place

module _ (platform : Platform) where
  -- After an event from the queue the loop begins anew.
  abbrev pub after_queue : FirmwareOn platform × Bool → Place × FirmwareOn platform
  after_queue (fw, true) = (at_reset, fw)
  after_queue (fw, false) = (at_commands, fw)

  unfoldable pub main_step : EventData → Place → FirmwareOn platform → Place × FirmwareOn platform
  main_step junk at_reset fw = (at_error, query_reset platform fw)
  main_step junk at_error fw = (at_full, query_error platform junk fw)
  main_step junk at_full fw = (at_limit, query_command_buffer_full platform junk fw)
  main_step junk at_limit fw = (at_hold, query_limit_switch_interrupt platform junk fw)
  main_step junk at_hold fw = (at_complete, plan_hold platform fw)
  main_step junk at_complete fw = (at_axis, query_motion_complete platform junk fw)
  main_step junk at_axis fw = (at_deceleration, query_axis_at_limit platform junk fw)
  main_step junk at_deceleration fw = (at_events, query_deceleration_started platform junk fw)
  main_step junk at_events fw = after_queue (query_event_queue platform fw)
  main_step junk at_commands fw = (at_reset, query_command_buffer platform fw)

  -- What the step timers' interrupts do: they change the motion system, and they may report the end
  -- of the motion, the start of its deceleration, or an error.
  unfoldable pub timer_isr :
      platform.Motion → Bool → Bool → Option Status → FirmwareOn platform → FirmwareOn platform
  timer_isr motion' complete started none fw = record fw {
    motion = motion';
    mc = record (fw.mc) { motion_complete = complete; deceleration_started = started };
  }
  timer_isr motion' complete started (some status') fw = record fw {
    motion = motion';
    mc = record (fw.mc) {
      motion_complete = complete;
      deceleration_started = started;
      status = status';
      error = true;
    };
  }

  pub data Step : Place × FirmwareOn platform → Place × FirmwareOn platform → Type 0 where
    main :
        (junk : EventData) (p : Place) (fw : FirmwareOn platform)
        → Step (p, fw) (main_step junk p fw)
    limit_isr :
        (p : Place) (fw : FirmwareOn platform) → Step (p, fw) (p, limit_switch_isr platform fw)
    -- the I2C interrupt received a byte of a command
    byte_isr :
        (byte : ℕ) (p : Place) (fw : FirmwareOn platform)
        → Step (p, fw) (p, record fw { commands = CommandBuffer.add_command_byte fw.commands byte })
    timers :
        (motion' : platform.Motion) (complete started : Bool) (report : Option Status) (p : Place)
        (fw : FirmwareOn platform)
        → Step (p, fw) (p, timer_isr motion' complete started report fw)
    -- the limit switches open and close
    switches :
        (z r : Bool) (p : Place) (fw : FirmwareOn platform)
        → Step
            (p, fw)
            (p, record fw { pins = record (fw.pins) { z_limit_hit = z; r_limit_hit = r } })

  pub data Reach (start : Place × FirmwareOn platform) : Place × FirmwareOn platform → Type 0 where
    here : Reach start start
    next : {a b : Place × FirmwareOn platform} → Reach start a → Step a b → Reach start b

  -- The steps of a round without interrupts, up to its two last queries.
  unfoldable pub eight_queries : EventData → FirmwareOn platform → FirmwareOn platform
  eight_queries junk fw =
      let (p1, fw1) = main_step junk at_reset fw in
      let (p2, fw2) = main_step junk p1 fw1 in
      let (p3, fw3) = main_step junk p2 fw2 in
      let (p4, fw4) = main_step junk p3 fw3 in
      let (p5, fw5) = main_step junk p4 fw4 in
      let (p6, fw6) = main_step junk p5 fw5 in
      let (p7, fw7) = main_step junk p6 fw6 in let (p8, fw8) = main_step junk p7 fw7 in fw8

  -- A round of the main loop is its first eight queries, one step each, and then either the
  -- handling of an event from the queue or, if none was taken from it, of a received command.
  pub loop_body_lem :
      (junk : EventData) (fw : FirmwareOn platform)
      → let fw8 = eight_queries junk fw in
        loop_body platform junk fw ≡ (
          if fw8.mc.queued_event
          then (main_step junk at_events fw8).1
          else (main_step junk at_commands fw8).1)
  unfolding loop_body eight_queries main_step query_event_queue
  loop_body_lem junk fw = ground arith
