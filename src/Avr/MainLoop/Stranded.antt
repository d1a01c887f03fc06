-- ===== src/Avr/MainLoop/Stranded.antt =====
-- What becomes of a disable command that was deferred: DisableRequested in ReadyForAction, and the
-- rounds of the main loop after it.
use ember_firmware.Prelude.{◌≡◌, true, false, if◌then◌else◌, List, [], ◌∷◌}
use ember_firmware.Avr.Codes.{disable_requested, EventData}
use ember_firmware.Avr.EventQueue
use ember_firmware.Avr.CommandBuffer
use ember_firmware.Avr.Platform.{Platform}
use ember_firmware.Avr.Firmware.{FirmwareOn}
use ember_firmware.Avr.MainLoop.{query_event_queue, query_command_buffer, loop_body}

module _ (platform : Platform) where
  -- No interrupt has left anything to do, no command waits, and no hold is to be planned.
  pub record Calm (fw : FirmwareOn platform) : Type 0 where
    pub no_reset : fw.mc.reset ≡ false
    pub no_error : fw.mc.error ≡ false
    pub no_limit : fw.limit_switch_hit ≡ false
    pub no_hold : (platform.plan_hold_callback fw.motion).1 ≡ fw.motion
    pub no_completion : fw.mc.motion_complete ≡ false
    pub not_at_limit : fw.mc.axis_at_limit ≡ false
    pub no_deceleration : fw.mc.deceleration_started ≡ false
    pub no_command : CommandBuffer.is_empty fw.commands ≡ true

  pub rounds : List EventData → FirmwareOn platform → FirmwareOn platform
  rounds [] fw = fw
  rounds (junk ∷ junks) fw = rounds junks (loop_body platform junk fw)

  -- The end of a round.
  abbrev end_of_round : FirmwareOn platform → FirmwareOn platform
  end_of_round fw =
      let (fw9, handled) = query_event_queue platform fw in
      if handled then fw9 else query_command_buffer platform fw9

  -- The state after the disable command was put back.
  abbrev put_back : FirmwareOn platform → FirmwareOn platform
  put_back fw = record fw {
    mc = record (fw.mc) { queued_event = false };
    queue = (EventQueue.add fw.queue disable_requested fw.mc.queued_event_data).1;
  }
