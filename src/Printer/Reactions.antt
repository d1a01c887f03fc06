-- ===== src/Printer/Reactions.antt =====
-- What the states do with events, C++/PrinterStateMachine.cpp: the reactions outside printing. The
-- children add those of printing and of upgrading the projector.
pub mod Printing
use ember_firmware.Prelude.{Option, false, if◌then◌else◌, ltb, none, not, some, ℕ}
use ember_firmware.Printer.Codes.{
  HighLevelMotorCommand, PrintEngineState, PrinterEvent, UiSubState, awaiting_cancelation,
  clearing_screen, confirm_upgrade, demo_mode, door_open, downloading_print_data, error, ev_cancel,
  ev_connected, ev_delay_ended, ev_door_closed, ev_door_opened, ev_enter_demo_mode, ev_error,
  ev_initialized, ev_left_button, ev_left_button_hold, ev_motion_completed, ev_registered, ev_reset,
  ev_right_button, ev_start_print, ev_upgrade_completed, go_home, go_home_without_rotate_home,
  have_print_data, home, homing, initializing, initializing_layer, loaded_print_data,
  loading_print_data, move_to_start_position, moving_to_start_position, no_change, no_print_data,
  no_ui_sub_state, print_data_load_failed, print_download_failed, projector_upgrade_error,
  registered, registering, showing_version, unknown, upgrade_complete, upgrading_projector,
  usb_drive_error, usb_drive_file_found, wifi_connected, wifi_connecting, wifi_connection_failed,
}
use ember_firmware.Printer.Devices.{
  Devices, clear_job_id, load_print_file_from_usb_drive, projector_upgrade_firmware,
}
use ember_firmware.Printer.Engine.{
  Engine, Printer, carry, handle_fatal_error, post_event, send_status, set_can_load_print_data,
  set_print_feedback, show_screen_for, start_delay_timer, ◌▷◌,
}
use ember_firmware.Printer.Engine.Timeouts.{num}
use ember_firmware.Printer.Engine.Motion.{cancel_print, clear_current_print, send_motor_command}
use ember_firmware.Printer.Engine.Layers.{
  clear_print_data, has_at_least_one_layer, print_is_in_progress, try_start_print,
}
use ember_firmware.Printer.Entry.{num_leds_in_ring}

-- What a reaction returns; `nested` is an event that is processed within it, and the code after it.
pub data Outcome (D W : Type 0) : Type 0 where
  discard_event : Outcome D W
  transit : PrintEngineState → Outcome D W
  deep_history : PrintEngineState → Outcome D W
  nested : PrinterEvent → (Printer D W → Printer D W) → Outcome D W

module _ (devices : Devices) where
  open devices use {doubles, World, call, programming_complete, get_upgrade_progress}
  open doubles use {Double, div}

  abbrev pub Handled : Type 0
  Handled = Outcome Double World × Engine devices

  -- The reactions of a state: none for an event that it leaves to the states around it.
  abbrev pub Reactions : Type 0
  Reactions = PrinterEvent → Option (Engine devices → Handled)

  abbrev pub go : PrintEngineState → Engine devices → Handled
  go s m = (transit s, m)

  abbrev pub stay : Engine devices → Handled
  stay m = (discard_event, m)

  abbrev pub command_and_go : HighLevelMotorCommand → PrintEngineState → Engine devices → Handled
  command_and_go command s m = go s (send_motor_command devices command m)

  abbrev pub post : PrinterEvent → Engine devices → Handled
  post e m = stay (post_event e m)

  unfoldable pub printer_on_reactions : Reactions
  printer_on_reactions ev_reset = some (λ m. go initializing (clear_current_print devices false m))
  printer_on_reactions ev_error = some (λ m. go error m)
  printer_on_reactions ev_cancel = some (λ m.
      if print_is_in_progress devices m
      then go awaiting_cancelation (cancel_print devices m)
      else stay m)
  printer_on_reactions _ = none

  unfoldable pub awaiting_cancelation_reactions : Reactions
  awaiting_cancelation_reactions ev_motion_completed = some (λ m.
      if m.skip_homing_rotation
      then command_and_go go_home_without_rotate_home homing m
      else command_and_go go_home homing m)
  awaiting_cancelation_reactions _ = none

  unfoldable pub showing_version_reactions : Reactions
  showing_version_reactions ev_right_button = some (λ m. (deep_history error, m))
  showing_version_reactions ev_reset =
      some (λ m. go initializing (clear_current_print devices false m))
  showing_version_reactions ev_left_button =
      some (λ m. if m.status.can_upgrade_projector then go confirm_upgrade m else stay m)
  showing_version_reactions _ = none

  unfoldable pub door_closed_reactions : Reactions
  door_closed_reactions ev_door_opened = some (go door_open)
  door_closed_reactions _ = none

  unfoldable pub initializing_reactions : Reactions
  initializing_reactions ev_initialized = some (command_and_go go_home homing)
  initializing_reactions ev_enter_demo_mode = some (go demo_mode)
  initializing_reactions _ = none

  -- OK after an error message: the normal screen is shown again.
  dismiss_load_error : UiSubState → Engine devices → Engine devices
  dismiss_load_error print_data_load_failed m =
      send_status devices door_open no_change no_ui_sub_state
        (record m { home_ui_sub_state = no_ui_sub_state })
  dismiss_load_error print_download_failed m =
      send_status devices door_open no_change no_ui_sub_state
        (record m { home_ui_sub_state = no_ui_sub_state })
  dismiss_load_error _ m = m

  unfoldable pub door_open_reactions : Reactions
  unfolding dismiss_load_error
  door_open_reactions ev_door_closed =
      some (λ m.
        (deep_history initializing, send_status devices door_open no_change clearing_screen m))
  door_open_reactions ev_right_button =
      some (λ m. stay (dismiss_load_error m.status.ui_sub_state m))
  door_open_reactions _ = none

  unfoldable pub homing_reactions : Reactions
  homing_reactions ev_motion_completed = some (λ m. go home (
      record m { homing_sub_state = no_ui_sub_state }
      ▷ carry devices clear_job_id
      ▷ set_print_feedback devices unknown))
  homing_reactions _ = none

  unfoldable pub error_reactions : Reactions
  error_reactions ev_left_button = some (post ev_reset)
  error_reactions ev_left_button_hold = some (go showing_version)
  error_reactions _ = none

  unfoldable pub calibrating_reactions : Reactions
  calibrating_reactions ev_left_button =
      some (λ m. post ev_cancel (record m { homing_sub_state = no_ui_sub_state }))
  calibrating_reactions ev_right_button = some (go initializing_layer)
  calibrating_reactions _ = none

  unfoldable pub registering_reactions : Reactions
  registering_reactions ev_left_button = some (go home)
  registering_reactions ev_registered = some (go home)
  registering_reactions _ = none

  -- `Home::TryStartPrint`
  unfoldable pub home_try_start_print : Engine devices → Handled
  home_try_start_print m =
      let (started, tried) = try_start_print devices (record m { skip_homing_rotation = false }) in
      if started
      then go moving_to_start_position (
          set_can_load_print_data devices false
            (send_motor_command devices move_to_start_position tried))
      else stay tried

  abbrev data_screen : Engine devices → UiSubState
  data_screen m = if has_at_least_one_layer devices m then have_print_data else no_print_data

  -- Shows the screen for the data there is.
  abbrev refresh : Engine devices → Handled
  refresh m = stay (show_screen_for devices (data_screen m) m)

  abbrev dismiss_message : Engine devices → Handled
  dismiss_message m = refresh (record m { home_ui_sub_state = no_ui_sub_state })

  home_right_button : UiSubState → Engine devices → Handled
  home_right_button no_print_data m = stay m
  home_right_button loading_print_data m = stay m
  home_right_button downloading_print_data m = stay m
  home_right_button registered m = dismiss_message m
  home_right_button wifi_connecting m = dismiss_message m
  home_right_button wifi_connection_failed m = dismiss_message m
  home_right_button wifi_connected m = dismiss_message m
  home_right_button usb_drive_error m = dismiss_message m
  home_right_button print_data_load_failed m = refresh m
  home_right_button print_download_failed m = refresh m
  home_right_button usb_drive_file_found m =
      stay (
        carry devices load_print_file_from_usb_drive (show_screen_for devices loading_print_data m))
  home_right_button _ m = home_try_start_print m

  abbrev refresh_home : Engine devices → Handled
  refresh_home m = stay (send_status devices home no_change (data_screen m) m)

  abbrev discard_data : Engine devices → Handled
  discard_data m =
      refresh_home (if has_at_least_one_layer devices m then clear_print_data devices m else m)

  home_left_button : UiSubState → Engine devices → Handled
  home_left_button have_print_data m = discard_data m
  home_left_button loaded_print_data m = discard_data m
  home_left_button usb_drive_file_found m = refresh_home m
  home_left_button _ m = stay m

  unfoldable pub home_reactions : Reactions
  unfolding home_right_button home_left_button
  home_reactions ev_start_print = some home_try_start_print
  home_reactions ev_right_button = some (λ m. home_right_button m.status.ui_sub_state m)
  home_reactions ev_left_button = some (λ m. home_left_button m.status.ui_sub_state m)
  home_reactions ev_left_button_hold =
      some (λ m. go showing_version (set_can_load_print_data devices false m))
  home_reactions ev_connected = some (λ m. go registering (set_can_load_print_data devices false m))
  home_reactions _ = none

  unfoldable pub confirm_upgrade_reactions : Reactions
  confirm_upgrade_reactions ev_right_button = some (λ m.
      go upgrading_projector (send_status devices confirm_upgrade no_change clearing_screen m))
  confirm_upgrade_reactions ev_cancel = some (go showing_version)
  confirm_upgrade_reactions ev_reset =
      some (λ m. go initializing (clear_current_print devices false m))
  confirm_upgrade_reactions ev_left_button = some (post ev_cancel)
  confirm_upgrade_reactions _ = none

  abbrev min : ℕ → ℕ → ℕ
  min a b = if ltb b a then b else a

  -- What follows `UpgradeProjectorFirmware`.
  report_upgrade : Engine devices → Engine devices
  report_upgrade m =
      if programming_complete m.world
      then m
      else start_delay_timer devices (div (num devices 1) (num devices 1000)) m
        ▷ send_status devices upgrading_projector no_change no_ui_sub_state

  -- The progress is shown as the layer of a print; `get_upgrade_progress` is its LEDs.
  upgrading_delay_ended : Engine devices → Handled
  unfolding report_upgrade
  upgrading_delay_ended m =
      let (ok, w) = call projector_upgrade_firmware m.world in
      let asked = record m { world = w } in
      if not ok
      then stay (report_upgrade (handle_fatal_error devices projector_upgrade_error asked))
      else if programming_complete w
      then (nested ev_upgrade_completed report_upgrade, asked)
      else stay (
          report_upgrade (record asked {
            status = record asked.status {
              current_layer = min (get_upgrade_progress w) num_leds_in_ring;
            };
          }))

  unfoldable pub upgrading_projector_reactions : Reactions
  unfolding upgrading_delay_ended
  upgrading_projector_reactions ev_delay_ended = some upgrading_delay_ended
  upgrading_projector_reactions ev_upgrade_completed = some (go upgrade_complete)
  upgrading_projector_reactions ev_error = some (go error)
  upgrading_projector_reactions _ = none
