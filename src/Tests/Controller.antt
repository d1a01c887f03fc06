-- ===== src/Tests/Controller.antt =====
-- The state machine and the main loop on concrete controllers.
use ember_firmware.Prelude.{
  ℕ, ◌≡◌, ◌≢◌, refl, ◌⊎◌, false, true, List, [], ◌∷◌, ◌++◌, arith, zero, suc, sym, ◌∙◌, ◌≤◌, ◌<◌,
  ◌*◌, ◌^◌, replicate,
}
use ember_firmware.Prelude.Int.{ℤ, pos, negsuc, not_positive}
use ember_firmware.Avr.Codes.{
  State, undefined, error, moving_axis, ready_for_action, decelerating_for_completion, disabled,
  Event, error_encountered, motion_complete, pause_requested, resume_requested,
  move_z_axis_requested, home_r_axis_requested, interrupt_requested, EventData, status_success,
  disable_requested, no_event,
}
use ember_firmware.Avr.EventQueue.{zero_data}
use ember_firmware.Avr.AxisSettings as Settings
use ember_firmware.Avr.AxisSettings.{validate, default_settings}
use ember_firmware.Avr.AxisSettings.Validity.{
  configure, validate-configure, set_microstepping_mode_lem,
}
use ember_firmware.Avr.Firmware.{FirmwareOn}
use ember_firmware.Avr.EventQueue
use ember_firmware.Avr.EventQueue.Refine as Queue
use ember_firmware.Avr.Platform.{Platform}
use ember_firmware.Avr.CommandBuffer
use ember_firmware.Avr.Controller
use ember_firmware.Avr.StateMachine.Step.{
  handle_event, carry_out, react, perform_all, perform, dequeue,
}
use ember_firmware.Avr.StateMachine.Drivers.{DriversFit, handle_event-DriversFit}
use ember_firmware.Avr.StateMachine.Queueing.{QueueFits, handle_event-QueueFits}
use ember_firmware.Avr.StateMachine.Deferral.{Deferred, handle_event-Deferred}
use ember_firmware.Avr.StateMachine.Pausing.{move, run, Resumed, pause_and_resume}
use ember_firmware.Avr.StateMachine.Completion.{motion_ended, resumed_motion_not_ended}
use ember_firmware.Avr.MainLoop.{boot, limit_switch_isr}
use ember_firmware.Avr.MainLoop.Steps.{
  Place, at_reset, main_step, main, limit_isr, byte_isr, here, next,
}
use ember_firmware.Avr.MainLoop.Safety.{Safe}
use ember_firmware.Avr.MainLoop.Safety.Reachable.{Reach-Safe}
use ember_firmware.Tests.Machine.{
  recorder, fractions, move_ended, pool_cleared, controller_in, queue-IsValid,
  controller_in-QueueFits,
}

abbrev moving : FirmwareOn recorder
moving = controller_in moving_axis false

abbrev data_of : ℕ → EventData
data_of n = record { command = 1; parameter = pos n }

-- After an error during a move the drivers are off, and the state is `error`.
handle_event-DriversFit_example :
    DriversFit recorder (handle_event recorder zero_data error_encountered moving)
handle_event-DriversFit_example =
    handle_event-DriversFit recorder zero_data error_encountered moving refl refl

handle_event-QueueFits_example :
    QueueFits recorder (handle_event recorder (data_of 5) move_z_axis_requested moving)
handle_event-QueueFits_example =
    handle_event-QueueFits recorder move_z_axis_requested (data_of 5) moving
      (controller_in-QueueFits moving_axis false)

handle_event-Deferred_example :
    Deferred recorder home_r_axis_requested
      (data_of 5)
      moving
      (handle_event recorder (data_of 5) home_r_axis_requested moving)
handle_event-Deferred_example =
    handle_event-Deferred recorder home_r_axis_requested (data_of 5) moving
      (queue-IsValid moving_axis false) refl refl

-- A platform on which no hold is to be planned.
abbrev calm_platform : Platform
calm_platform = record recorder { plan_hold_callback = λ m. (status_success, m) }

-- A disable command has been taken from the queue, in which a homing waits.
abbrev to_disable : FirmwareOn recorder
to_disable =
    let fw = controller_in ready_for_action false in
    record fw {
      mc = record (fw.mc) {
        queued_event = true;
        queued_event_code = disable_requested;
        queued_event_data = data_of 1;
      };
      queue = record {
        head = 1;
        tail = 0;
        event_data_buffer = data_of 3 ∷ replicate 15 zero_data;
        event_code_buffer = home_r_axis_requested ∷ replicate 15 no_event;
      };
    }

-- A move is paused; a command comes before the axis stands still, and one after that.
abbrev before_stop : List (Event × EventData)
before_stop = (home_r_axis_requested, data_of 3) ∷ []

abbrev after_stop : List (Event × EventData)
after_stop = (interrupt_requested, data_of 4) ∷ []

pause_and_resume_example : Resumed recorder moving (before_stop ++ after_stop) (
    run recorder
      ((pause_requested, data_of 0)
        ∷ (before_stop
            ++ ((motion_complete, data_of 0)
                ∷ (after_stop ++ ((resume_requested, data_of 0) ∷ [])))))
      moving)
pause_and_resume_example =
    pause_and_resume recorder move before_stop after_stop (data_of 0) (data_of 0) (data_of 0) moving
      (controller_in-QueueFits moving_axis false) refl (refl, tt) (refl, tt) (omega arith)

abbrev stopping : FirmwareOn recorder
stopping = controller_in decelerating_for_completion false

state_after :
    (handle_event recorder zero_data motion_complete stopping).mc.sm_state ≡ ready_for_action
unfolding handle_event carry_out react perform_all perform dequeue EventQueue.is_empty
    Controller.end_motion
state_after = refl

state_not :
    (s : State)
    → ready_for_action ≢ s
    → (handle_event recorder zero_data motion_complete stopping).mc.sm_state ≢ s
state_not s other h = other (sym state_after ∙ h)

motion_ended_example :
    (handle_event recorder zero_data motion_complete stopping).motion
    ≡ move_ended ∷ pool_cleared ∷ []
motion_ended_example =
    motion_ended recorder zero_data motion_complete stopping refl (rw state_after refl)
      (state_not error (λ h. cc)) (state_not disabled (λ h. cc)) (λ h. cc) (λ h. cc)

resumed_motion_not_ended_example :
    let plain = run recorder ((motion_complete, data_of 3) ∷ []) stopping in
    let resumed =
      run recorder
        ((pause_requested, data_of 1)
          ∷ (resume_requested, data_of 2)
          ∷ (motion_complete, data_of 3)
          ∷ [])
        stopping in
    (plain.mc.sm_state ≡ ready_for_action)
    × (resumed.mc.sm_state ≡ ready_for_action)
    × (plain.motion ≡ move_ended ∷ pool_cleared ∷ [])
    × (resumed.motion ≡ [])
resumed_motion_not_ended_example =
    resumed_motion_not_ended recorder (data_of 1) (data_of 2) (data_of 3) stopping refl

set_microstepping_mode_lem_example :
    let (status, s') = Settings.set_microstepping_mode fractions (default_settings fractions) 6 in
    ((status ≡ status_success) × (1 ≤ 6) × (6 ≤ 6) × (s'.microstepping_factor * 2 ≡ 2 ^ 6))
    ⊎ ((status ≢ status_success)
        × ((◌≡◌ {A = ℕ} 6 0) ⊎ (6 < 6))
        × (s' ≡ default_settings fractions))
set_microstepping_mode_lem_example =
    set_microstepping_mode_lem fractions (default_settings fractions) 6

positive_not_zero :
    (n : ℤ)
    → not_positive n ≡ false
    → fractions.eq (fractions.of_int n) (Settings.unset fractions) ≡ false
positive_not_zero (pos zero) h = ground arith
positive_not_zero (pos (suc n)) h = ground arith
positive_not_zero (negsuc n) h = ground arith

thousandth_not_zero :
    (n : ℤ)
    → not_positive n ≡ false
    → fractions.eq
        (fractions.div (fractions.of_int n) (fractions.of_int (pos 1000)))
        (Settings.unset fractions)
      ≡ false
thousandth_not_zero (pos zero) h = ground arith
thousandth_not_zero (pos (suc n)) h = ground arith
thousandth_not_zero (negsuc n) h = ground arith

millionfold_not_zero :
    (n : ℤ)
    → not_positive n ≡ false
    → fractions.eq
        (fractions.mul (fractions.of_int n) (fractions.of_int (pos 1000000)))
        (Settings.unset fractions)
      ≡ false
millionfold_not_zero (pos zero) h = ground arith
millionfold_not_zero (pos (suc n)) h = ground arith
millionfold_not_zero (negsuc n) h = ground arith

validate-configure_example :
    validate fractions
      (configure fractions (default_settings fractions) (pos 1800) (pos 2000) (pos 60) (pos 10) 6)
    ≡ status_success
validate-configure_example =
    validate-configure fractions positive_not_zero thousandth_not_zero millionfold_not_zero
      (default_settings fractions) (pos 1800) (pos 2000) (pos 60) (pos 10) 6 refl refl refl refl
      (omega arith) (omega arith)

abbrev off : FirmwareOn recorder
off = controller_in (undefined 0) false

-- The controller has started, its first query has run, the limit switch and a byte have come.
abbrev started : Place × FirmwareOn recorder
started = main_step recorder zero_data at_reset (boot recorder off)

abbrev limit_came : Place × FirmwareOn recorder
limit_came = (started.0, limit_switch_isr recorder started.1)

abbrev byte_came : Place × FirmwareOn recorder
byte_came = (
  limit_came.0,
  record (limit_came.1) { commands = CommandBuffer.add_command_byte limit_came.1.commands 6 },
)

Reach-Safe_example : Safe recorder byte_came.0 byte_came.1
Reach-Safe_example = Reach-Safe recorder off refl refl refl byte_came (
    next
      (next (next here (main zero_data at_reset (boot recorder off)))
        (limit_isr started.0 started.1))
      (byte_isr 6 limit_came.0 limit_came.1))
