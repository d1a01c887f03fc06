-- ===== src/Printer/Engine.antt =====
-- The state of the print engine and of its state machine, and the operations on errors, the status
-- and the timers: C++/PrintEngine.cpp, `PrinterStatus` of C++/include/PrinterStatus.h and the members of
-- C++/include/PrinterStateMachine.h. An operation runs while an event is processed, so that a fatal
-- error posts `EvError`; the log is left out, and reading a timer or the door's sensor does not fail.
pub mod LayerSettings
pub mod Timeouts
pub mod Motion
pub mod Layers
use ember_firmware.Prelude.{
  ℕ, zero, Bool, true, false, List, [], ◌∷◌, ◌++◌, if◌then◌else◌, not, ◌&&◌,
}
use ember_firmware.Prelude.Int.{ℤ, pos, negsuc}
use ember_firmware.Smith.Motor.Layer.{CurrentLayerSettings}
use ember_firmware.Printer.Codes.{
  PrintEngineState, StateChange, no_change, UiSubState, no_ui_sub_state, PrintRating, PrinterEvent,
  ev_error, ErrorCode, success, ◌=ₛ◌, home, door_open, loading_print_data, downloading_print_data,
  motor_timeout_timer, pre_exposure_delay_timer, exposure_timer, temperature_timer_error,
}
use ember_firmware.Printer.Devices.{
  Devices, Call, timer_start, timer_clear, motor_timeout, delay, exposure, temperature,
}

pub record PrinterStatus (D : Type 0) : Type 0 where
  pub state : PrintEngineState
  pub change : StateChange
  pub ui_sub_state : UiSubState
  pub is_error : Bool
  pub error_code : ErrorCode
  pub num_layers : ℕ  -- int
  pub current_layer : ℕ  -- int
  pub estimated_seconds_remaining : ℤ
  pub temperature : D
  pub print_rating : PrintRating
  pub can_load_print_data : Bool
  pub can_upgrade_projector : Bool

-- `_cls`: what the motor's commands use, and the rest.
pub record LayerParameters (D : Type 0) : Type 0 where
  pub motions : CurrentLayerSettings
  pub press_wait_ms : ℤ
  pub approach_wait_ms : ℤ
  pub exposure_sec : D
  pub can_inspect : Bool
  pub inspection_height_microns : ℤ

pub record Printer (D W : Type 0) : Type 0 where
  -- the members of `PrinterStateMachine` and the static ones of its states
  pub homing_sub_state : UiSubState
  pub remaining_unjam_tries : ℤ
  pub motion_completed : Bool
  pub skip_homing_rotation : Bool
  pub from_paused : Bool
  pub from_jammed_or_unjamming : Bool
  pub remaining_exposure_time_sec : D
  -- events posted, the next one first
  pub posted : List PrinterEvent
  -- the members of `PrintEngine`
  pub status : PrinterStatus D
  pub home_ui_sub_state : UiSubState
  pub got_rotation_interrupt : Bool
  pub already_overheated : Bool
  pub inspection_requested : Bool
  pub skip_calibration : Bool
  pub remaining_motor_timeout_sec : D
  pub current_z_position : ℤ
  pub cls : LayerParameters D
  -- `_bgndThread != 0`
  pub bgnd_thread : Bool
  -- the status queue, the newest first
  pub sent : List (PrinterStatus D)
  pub world : W

-- An operation on the printer, applied to it.
infixl 20 ◌▷◌
abbrev pub ◌▷◌ {ℓ κ} : {A : Type ℓ} → {B : Type κ} → A → (A → B) → B
x ▷ f = f x

abbrev pub post_event : {D W : Type 0} → PrinterEvent → Printer D W → Printer D W
post_event e m = record m { posted = m.posted ++ (e ∷ []) }

module _ (devices : Devices) where
  open devices use {doubles, World, call, remaining_time, temperature_of}
  open doubles use {Double, of_int, gt}

  abbrev pub Engine : Type 0
  Engine = Printer Double World

  -- `HandleError` with `fatal`: the flag of a new error is raised, and cleared again when the event has
  -- been posted.
  unfoldable pub handle_fatal_error : ErrorCode → Engine → Engine
  handle_fatal_error code m = post_event ev_error (record m {
    status = record m.status { error_code = code; is_error = false; can_load_print_data = false };
  })

  -- A call whose failure is a fatal error.
  unfoldable pub attempt : Call Double → ErrorCode → Engine → Engine
  attempt c code m =
      let (ok, w) = call c m.world in
      if ok then record m { world = w } else handle_fatal_error code (record m { world = w })

  -- A call whose result is not used.
  abbrev pub carry : Call Double → Engine → Engine
  carry c m = record m { world = (call c m.world).1 }

  unfoldable pub send_status : PrintEngineState → StateChange → UiSubState → Engine → Engine
  send_status state change substate m =
      let status = record m.status {
        state = state;
        ui_sub_state = substate;
        change = change;
        temperature = temperature_of m.world;
      } in
      record m { status = status; sent = status ∷ m.sent }

  unfoldable pub clear_error : Engine → Engine
  clear_error m = record m {
    status = record m.status { error_code = success; is_error = false };
    already_overheated = false;
  }

  unfoldable pub start_delay_timer : Double → Engine → Engine
  start_delay_timer seconds = attempt (timer_start delay seconds) pre_exposure_delay_timer

  unfoldable pub clear_delay_timer : Engine → Engine
  clear_delay_timer = attempt (timer_clear delay) pre_exposure_delay_timer

  unfoldable pub start_exposure_timer : Double → Engine → Engine
  start_exposure_timer seconds = attempt (timer_start exposure seconds) exposure_timer

  unfoldable pub clear_exposure_timer : Engine → Engine
  clear_exposure_timer = attempt (timer_clear exposure) exposure_timer

  unfoldable pub start_motor_timeout_timer : ℤ → Engine → Engine
  start_motor_timeout_timer seconds =
      attempt (timer_start motor_timeout (of_int seconds)) motor_timeout_timer

  unfoldable pub clear_motor_timeout_timer : Engine → Engine
  clear_motor_timeout_timer = attempt (timer_clear motor_timeout) motor_timeout_timer

  unfoldable pub start_temperature_timer : Double → Engine → Engine
  start_temperature_timer seconds =
      attempt (timer_start temperature seconds) temperature_timer_error

  abbrev pub positive : Double → Bool
  positive x = gt x (of_int (pos zero))

  abbrev pub set_can_load_print_data : Bool → Engine → Engine
  set_can_load_print_data can m = record m {
    status = record m.status { can_load_print_data = can };
  }

  abbrev pub set_print_feedback : PrintRating → Engine → Engine
  set_print_feedback rating m = record m { status = record m.status { print_rating = rating } }

  -- `substate != LoadingPrintData && substate != DownloadingPrintData`
  abbrev pub not_loading : UiSubState → Bool
  not_loading loading_print_data = false
  not_loading downloading_print_data = false
  not_loading _ = true

  -- Refused, with an error that is only logged, in other states than Home and DoorOpen.
  unfoldable pub show_screen_for : UiSubState → Engine → Engine
  show_screen_for substate m =
      if not (m.status.state =ₛ home) && not (m.status.state =ₛ door_open)
      then m
      else record m { home_ui_sub_state = substate }
        ▷ set_can_load_print_data (not_loading substate)
        ▷ send_status m.status.state no_change substate
