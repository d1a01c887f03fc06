-- ===== src/Printer/Devices.antt =====
-- What the print engine and its state machine use of the rest of smith: the calls of C++/Motor.cpp,
-- C++/Timer.cpp, C++/Projector.cpp, C++/PrintData.cpp, C++/Settings.cpp and C++/LayerSettings.cpp, the
-- background thread, the door's sensor and the network, with the arithmetic of `double`.
use ember_firmware.Prelude.{ℕ, Bool}
use ember_firmware.Prelude.Int.{ℤ}
use ember_firmware.Printer.Codes.{HighLevelMotorCommand, Setting}

pub record Doubles : Type 1 where
  pub Double : Type 0
  pub of_int : ℤ → Double
  pub add : Double → Double → Double
  pub sub : Double → Double → Double
  pub mul : Double → Double → Double
  pub div : Double → Double → Double
  -- `x > y`
  pub gt : Double → Double → Bool
  -- `(int) x`
  pub to_int : Double → ℤ

-- The members `_exposureTimer`, `_temperatureTimer`, `_delayTimer` and `_motorTimeoutTimer`.
pub data Timer : Type 0 where
  exposure temperature delay motor_timeout : Timer

-- The calls that change something outside the print engine.
pub data Call (D : Type 0) : Type 0 where
  -- the call of `Motor` for a command, which reads the settings of the layer
  motor_command : HighLevelMotorCommand → Call D
  motor_initialize motor_pause motor_resume motor_disable motor_go_home_stay_open : Call D
  motor_clear_pending_commands : Bool → Call D
  timer_start : Timer → D → Call D
  timer_clear : Timer → Call D
  show_current_image show_black show_white : Call D
  projector_enter_program_mode : Bool → Call D
  projector_upgrade_firmware : Call D
  -- `pthread_create` for the image of a layer, and `pthread_join`
  start_thread : ℕ → Call D
  join_thread : Call D
  -- `_perLayer.Clear()`, then `Load` if the print data has per-layer settings
  load_per_layer_settings : Call D
  clear_job_id remove_print_data load_print_file_from_usb_drive : Call D
  demo_mode_requested : Call D

pub record Devices : Type 1 where
  pub doubles : Doubles
  pub World : Type 0
  -- true is success, or what the called function returns
  pub call : Call (doubles.Double) → World → Bool × World
  pub remaining_time : Timer → World → doubles.Double
  pub get_int : Setting → World → ℤ
  pub get_double : Setting → World → doubles.Double
  pub layer_int : ℕ → Setting → World → ℤ
  pub layer_double : ℕ → Setting → World → doubles.Double
  pub door_is_open : World → Bool
  pub temperature_of : World → doubles.Double
  -- `_pPrintData`
  pub has_print_data : World → Bool
  pub layer_count : World → ℕ
  pub valid_print_data : World → Bool
  pub no_thread_error : World → Bool
  pub is_internet_connected : World → Bool
  pub programming_complete : World → Bool
  pub get_upgrade_progress : World → ℕ
