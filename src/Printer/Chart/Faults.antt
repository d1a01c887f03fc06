-- ===== src/Printer/Chart/Faults.antt =====
-- Fatal errors: the way to the Error state, and what is left of a print there.
use ember_firmware.Prelude.{Bool, arith, false, none, refl, true, ◌∷◌, ◌≡◌}
use ember_firmware.Printer.Codes.{
  ErrorCode, PrintEngineState, confirm_upgrade, demo_mode, door_closed, error, ev_error, printer_on,
  printing_layer, showing_version, undefined_print_engine_state, upgrade_complete,
  upgrading_projector,
}
use ember_firmware.Printer.Devices.{Call, Devices}
use ember_firmware.Printer.Engine.{
  Engine, attempt, clear_delay_timer, clear_exposure_timer, clear_motor_timeout_timer,
  handle_fatal_error,
}
use ember_firmware.Printer.Engine.Timeouts.{num}
use ember_firmware.Printer.Engine.Motion.{
  clear_current_print, clear_pending_exposure_info, set_num_layers,
}
use ember_firmware.Printer.Entry.{enter}
use ember_firmware.Printer.Reactions.{
  awaiting_cancelation_reactions, calibrating_reactions, confirm_upgrade_reactions,
  door_closed_reactions, door_open_reactions, error_reactions, home_reactions, homing_reactions,
  initializing_reactions, printer_on_reactions, registering_reactions, showing_version_reactions,
  upgrading_projector_reactions,
}
use ember_firmware.Printer.Reactions.Printing.{
  approaching_reactions, confirm_cancel_reactions, exposing_reactions, getting_feedback_reactions,
  initializing_layer_reactions, jammed_reactions, moving_to_pause_reactions,
  moving_to_resume_reactions, moving_to_start_position_reactions, paused_reactions,
  pre_exposure_delay_reactions, press_delay_reactions, pressing_reactions, printing_layer_reactions,
  reactions, separating_reactions, unjamming_reactions, unpressing_reactions,
}
use ember_firmware.Printer.Chart.{Machine, Statechart, conclude, contexts, dispatch, move}

-- The innermost states inside PrinterOn.
abbrev pub inside_printer_on : PrintEngineState → Bool
inside_printer_on undefined_print_engine_state = false
inside_printer_on printer_on = false
inside_printer_on door_closed = false
inside_printer_on printing_layer = false
inside_printer_on showing_version = false
inside_printer_on demo_mode = false
inside_printer_on confirm_upgrade = false
inside_printer_on upgrading_projector = false
inside_printer_on upgrade_complete = false
inside_printer_on _ = true

module _ (devices : Devices) where
  no_own_reaction :
      (s : PrintEngineState) → inside_printer_on s ≡ true → reactions devices s ev_error ≡ none
  unfolding reactions printer_on_reactions awaiting_cancelation_reactions showing_version_reactions
      door_closed_reactions initializing_reactions door_open_reactions homing_reactions
      error_reactions calibrating_reactions registering_reactions home_reactions
      confirm_upgrade_reactions upgrading_projector_reactions confirm_cancel_reactions
      moving_to_pause_reactions moving_to_resume_reactions moving_to_start_position_reactions
      printing_layer_reactions paused_reactions unjamming_reactions jammed_reactions
      initializing_layer_reactions pressing_reactions press_delay_reactions unpressing_reactions
      pre_exposure_delay_reactions exposing_reactions separating_reactions approaching_reactions
      getting_feedback_reactions
  no_own_reaction s h = ground arith

  -- Nothing is left of a print.
  pub record Cleared (m : Engine devices) : Type 0 where
    pub no_layers : m.status.num_layers ≡ 0
    pub no_layer : m.status.current_layer ≡ 0
    pub no_pause : m.inspection_requested ≡ false
    pub no_exposure : m.remaining_exposure_time_sec ≡ num devices 0

  attempt-Cleared :
      (c : Call (devices.doubles.Double)) (code : ErrorCode) (m : Engine devices)
      → Cleared m
      → Cleared (attempt devices c code m)
  unfolding attempt handle_fatal_error
  attempt-Cleared c code m h = ground arith

  pub clear_current_print-Cleared :
      (b : Bool) (m : Engine devices) → Cleared (clear_current_print devices b m)
  unfolding clear_current_print clear_delay_timer clear_exposure_timer clear_pending_exposure_info
      attempt set_num_layers handle_fatal_error
  clear_current_print-Cleared b m = ground arith

  module _ (chart : Statechart devices) where
    pub dispatch_error :
        (s : PrintEngineState) (a : Machine devices)
        → inside_printer_on s ≡ true
        → dispatch devices chart.within (s ∷ contexts s) ev_error a
          ≡ move devices printer_on error a
    unfolding dispatch conclude reactions awaiting_cancelation_reactions calibrating_reactions
        confirm_upgrade_reactions door_closed_reactions door_open_reactions error_reactions
        home_reactions homing_reactions initializing_reactions printer_on_reactions
        registering_reactions showing_version_reactions upgrading_projector_reactions
        approaching_reactions confirm_cancel_reactions exposing_reactions getting_feedback_reactions
        initializing_layer_reactions jammed_reactions moving_to_pause_reactions
        moving_to_resume_reactions moving_to_start_position_reactions paused_reactions
        pre_exposure_delay_reactions press_delay_reactions pressing_reactions
        printing_layer_reactions separating_reactions unjamming_reactions unpressing_reactions
    dispatch_error s a h = ground arith

    enter_error-Cleared : (m : Engine devices) → Cleared (enter devices error m)
    unfolding enter clear_motor_timeout_timer
    enter_error-Cleared m = attempt-Cleared _ _ _ (clear_current_print-Cleared false _)

    -- In any innermost state inside PrinterOn, processing EvError leads to Error with no layers,
    -- no current layer, no pause requested and no exposure left over, whether calls fail or not.
    pub fatal_error_clears_print :
        (a : Machine devices)
        → inside_printer_on a.state ≡ true
        → ((chart.process ev_error a).state ≡ error) × Cleared ((chart.process ev_error a).printer)
    unfolding move
    fatal_error_clears_print a h =
        rw (chart.documented ev_error a, dispatch_error a.state a h) (refl, enter_error-Cleared _)
