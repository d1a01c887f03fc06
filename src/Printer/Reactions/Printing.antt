-- ===== src/Printer/Reactions/Printing.antt =====
-- What the states of a print do with events, C++/PrinterStateMachine.cpp.
use ember_firmware.Prelude.{Bool, false, if◌then◌else◌, none, not, some, true}
use ember_firmware.Prelude.Int.{not_positive, pos}
use ember_firmware.Smith.Motor.Layer.{minus}
use ember_firmware.Printer.Codes.{
  PrintEngineState, approach, approach_after_jam, approaching, awaiting_cancelation, calibrating,
  confirm_cancel, confirm_upgrade, door_closed, door_open, error, ev_cancel, ev_delay_ended,
  ev_dismiss, ev_exposed, ev_initialized, ev_left_button, ev_motion_completed, ev_request_pause,
  ev_resume, ev_right_button, exposing, failed, getting_feedback, go_home_without_rotate_home, home,
  homing, initializing, initializing_layer, jammed, max_unjam_tries, moving_to_pause,
  moving_to_resume, moving_to_start_position, no_change, no_ui_sub_state, pause_and_inspect, paused,
  pre_exposure_delay, press, press_delay, pressing, print_canceled, print_completed, printer_on,
  printing_layer, recover_from_jam, registering, resume_from_inspect, separate, separating,
  showing_version, succeeded, un_press, unjamming, unpressing, upgrading_projector,
}
use ember_firmware.Printer.Devices.{Devices, motor_disable}
use ember_firmware.Printer.Engine.{Engine, carry, send_status, set_print_feedback}
use ember_firmware.Printer.Engine.LayerSettings.{nonzero}
use ember_firmware.Printer.Engine.Motion.{
  clear_current_print, clear_pending_movement, pause_movement, resume_movement, send_motor_command,
}
use ember_firmware.Printer.Engine.Layers.{
  get_tray_deflection, got_rotation_interrupt, load_next_layer_image, more_layers,
  needs_pre_exposure_delay, needs_tray_deflection_pause, set_inspection_requested,
}
use ember_firmware.Printer.Reactions.{
  Handled, Reactions, awaiting_cancelation_reactions, calibrating_reactions, command_and_go,
  confirm_upgrade_reactions, deep_history, door_closed_reactions, door_open_reactions,
  error_reactions, go, home_reactions, homing_reactions, initializing_reactions, post,
  printer_on_reactions, registering_reactions, showing_version_reactions, stay,
  upgrading_projector_reactions,
}

module _ (devices : Devices) where
  open devices use {get_int, is_internet_connected}

  unfoldable pub confirm_cancel_reactions : Reactions devices
  confirm_cancel_reactions ev_right_button = some (post devices ev_resume)
  confirm_cancel_reactions ev_resume = some (λ m.
      if m.from_paused
      then go devices moving_to_resume
          (record (send_motor_command devices resume_from_inspect m) { from_paused = false })
      else if m.from_jammed_or_unjamming
      then go devices approaching
          (record (send_motor_command devices approach_after_jam
            (clear_pending_movement devices false m)) { from_jammed_or_unjamming = false })
      else (deep_history pressing, resume_movement devices m))
  confirm_cancel_reactions ev_left_button =
      some (λ m. post devices ev_cancel (record m { homing_sub_state = print_canceled }))
  confirm_cancel_reactions _ = none

  unfoldable pub moving_to_pause_reactions : Reactions devices
  moving_to_pause_reactions ev_motion_completed = some (go devices paused)
  moving_to_pause_reactions _ = none

  unfoldable pub moving_to_resume_reactions : Reactions devices
  moving_to_resume_reactions ev_motion_completed = some (go devices initializing_layer)
  moving_to_resume_reactions _ = none

  -- After `EvRightButton` the source returns nothing, though a result is declared; it stays.
  unfoldable pub moving_to_start_position_reactions : Reactions devices
  moving_to_start_position_reactions ev_motion_completed =
      some (λ m. go devices (if m.skip_calibration then initializing_layer else calibrating) m)
  moving_to_start_position_reactions ev_left_button =
      some (λ m. post devices ev_cancel (record m { homing_sub_state = no_ui_sub_state }))
  moving_to_start_position_reactions ev_right_button = some (λ m. stay devices (
      send_status devices moving_to_start_position no_change no_ui_sub_state
        (record m { skip_calibration = true })))
  moving_to_start_position_reactions _ = none

  -- To ConfirmCancel, with the place to resume to.
  abbrev confirm : Bool → Bool → Engine devices → Handled devices
  confirm paused_before jammed_before m =
      go devices confirm_cancel
        (record m { from_paused = paused_before; from_jammed_or_unjamming = jammed_before })

  unfoldable pub printing_layer_reactions : Reactions devices
  printing_layer_reactions ev_request_pause =
      some (λ m. stay devices (set_inspection_requested devices true m))
  printing_layer_reactions ev_right_button = some (post devices ev_request_pause)
  printing_layer_reactions ev_left_button =
      some (λ m. if m.inspection_requested then stay devices m else confirm false false m)
  printing_layer_reactions _ = none

  unfoldable pub paused_reactions : Reactions devices
  paused_reactions ev_resume = some (command_and_go devices resume_from_inspect moving_to_resume)
  paused_reactions ev_right_button = some (post devices ev_resume)
  paused_reactions ev_left_button = some (confirm true false)
  paused_reactions _ = none

  unfoldable pub unjamming_motion_completed : Engine devices → Handled devices
  unjamming_motion_completed m =
      let tries = minus m.remaining_unjam_tries (pos 1) in
      let tried = record m { remaining_unjam_tries = tries } in
      if got_rotation_interrupt devices m
      then command_and_go devices approach approaching m
      else if not (not_positive tries)
      then stay devices (send_motor_command devices recover_from_jam tried)
      else go devices jammed tried

  unfoldable pub unjamming_reactions : Reactions devices
  unjamming_reactions ev_motion_completed = some unjamming_motion_completed
  unjamming_reactions ev_left_button = some (λ m. confirm false true (pause_movement devices m))
  unjamming_reactions _ = none

  unfoldable pub jammed_reactions : Reactions devices
  jammed_reactions ev_resume = some (command_and_go devices approach_after_jam approaching)
  jammed_reactions ev_right_button = some (post devices ev_resume)
  jammed_reactions ev_left_button = some (confirm false true)
  jammed_reactions _ = none

  unfoldable pub initializing_layer_reactions : Reactions devices
  initializing_layer_reactions ev_initialized = some (λ m.
      if nonzero (get_tray_deflection devices m)
      then command_and_go devices press pressing m
      else if needs_pre_exposure_delay devices m
      then go devices pre_exposure_delay m
      else go devices exposing m)
  initializing_layer_reactions _ = none

  unfoldable pub pressing_reactions : Reactions devices
  pressing_reactions ev_motion_completed = some (λ m.
      if not (needs_tray_deflection_pause devices m)
      then command_and_go devices un_press unpressing m
      else go devices press_delay m)
  pressing_reactions _ = none

  unfoldable pub press_delay_reactions : Reactions devices
  press_delay_reactions ev_delay_ended = some (command_and_go devices un_press unpressing)
  press_delay_reactions _ = none

  unfoldable pub unpressing_reactions : Reactions devices
  unpressing_reactions ev_motion_completed = some (λ m.
      go devices (if needs_pre_exposure_delay devices m then pre_exposure_delay else exposing) m)
  unpressing_reactions _ = none

  unfoldable pub pre_exposure_delay_reactions : Reactions devices
  pre_exposure_delay_reactions ev_delay_ended = some (go devices exposing)
  pre_exposure_delay_reactions _ = none

  abbrev separate_layer : Engine devices → Handled devices
  separate_layer m =
      go devices separating
        (record (send_motor_command devices separate
          (record m { got_rotation_interrupt = false })) { skip_homing_rotation = false })

  unfoldable pub exposed : Engine devices → Handled devices
  exposed m =
      let (ok, loaded) = load_next_layer_image devices m in
      if more_layers devices m
      then (if ok then separate_layer loaded else stay devices loaded)
      else separate_layer m

  unfoldable pub exposing_reactions : Reactions devices
  exposing_reactions ev_exposed = some exposed
  exposing_reactions _ = none

  -- Without the interrupt the tray has jammed, which is logged.
  unfoldable pub separating_motion_completed : Engine devices → Handled devices
  separating_motion_completed m =
      let tries = get_int max_unjam_tries m.world in
      let tried = record m { remaining_unjam_tries = tries } in
      if not (got_rotation_interrupt devices m)
      then (if not (not_positive tries)
          then command_and_go devices recover_from_jam unjamming tried
          else go devices jammed tried)
      else command_and_go devices approach approaching m

  unfoldable pub separating_reactions : Reactions devices
  separating_reactions ev_motion_completed = some separating_motion_completed
  separating_reactions _ = none

  unfoldable pub approaching_motion_completed : Engine devices → Handled devices
  approaching_motion_completed m =
      let done =
        send_motor_command devices go_home_without_rotate_home
          (record (clear_current_print devices false m) { homing_sub_state = print_completed }) in
      if not (more_layers devices m)
      then go devices (if is_internet_connected done.world then getting_feedback else homing) done
      else if m.inspection_requested
      then command_and_go devices pause_and_inspect moving_to_pause
          (set_inspection_requested devices false m)
      else go devices initializing_layer m

  unfoldable pub approaching_reactions : Reactions devices
  approaching_reactions ev_motion_completed = some approaching_motion_completed
  approaching_reactions _ = none

  unfoldable pub getting_feedback_reactions : Reactions devices
  getting_feedback_reactions ev_left_button =
      some (λ m. go devices homing (set_print_feedback devices failed m))
  getting_feedback_reactions ev_right_button =
      some (λ m. go devices homing (set_print_feedback devices succeeded m))
  getting_feedback_reactions ev_motion_completed =
      some (λ m. stay devices (carry devices motor_disable m))
  getting_feedback_reactions ev_dismiss = some (go devices homing)
  getting_feedback_reactions _ = none

  -- The reactions of a state, its own ones first in the search that follows.
  unfoldable pub reactions : PrintEngineState → Reactions devices
  reactions printer_on e = printer_on_reactions devices e
  reactions door_closed e = door_closed_reactions devices e
  reactions initializing e = initializing_reactions devices e
  reactions door_open e = door_open_reactions devices e
  reactions homing e = homing_reactions devices e
  reactions home e = home_reactions devices e
  reactions error e = error_reactions devices e
  reactions moving_to_start_position e = moving_to_start_position_reactions e
  reactions initializing_layer e = initializing_layer_reactions e
  reactions pressing e = pressing_reactions e
  reactions press_delay e = press_delay_reactions e
  reactions unpressing e = unpressing_reactions e
  reactions pre_exposure_delay e = pre_exposure_delay_reactions e
  reactions exposing e = exposing_reactions e
  reactions printing_layer e = printing_layer_reactions e
  reactions moving_to_pause e = moving_to_pause_reactions e
  reactions paused e = paused_reactions e
  reactions moving_to_resume e = moving_to_resume_reactions e
  reactions separating e = separating_reactions e
  reactions approaching e = approaching_reactions e
  reactions getting_feedback e = getting_feedback_reactions e
  reactions confirm_cancel e = confirm_cancel_reactions e
  reactions awaiting_cancelation e = awaiting_cancelation_reactions devices e
  reactions showing_version e = showing_version_reactions devices e
  reactions calibrating e = calibrating_reactions devices e
  reactions registering e = registering_reactions devices e
  reactions unjamming e = unjamming_reactions e
  reactions jammed e = jammed_reactions e
  reactions confirm_upgrade e = confirm_upgrade_reactions devices e
  reactions upgrading_projector e = upgrading_projector_reactions devices e
  reactions _ e = none
