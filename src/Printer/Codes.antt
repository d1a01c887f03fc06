-- ===== src/Printer/Codes.antt =====
-- The enumerations of the printer: `PrintEngineState`, `StateChange`, `UISubState` and `PrintRating`
-- of C++/include/PrinterStatus.h, the events of C++/include/PrinterStateMachine.h,
-- `HighLevelMotorCommand` and `LayerType` of C++/include/PrintEngine.h, and the names of
-- C++/include/Settings.h that the print engine reads.
use ember_firmware.Prelude.{ℕ, Bool, ◌==◌}

pub data PrintEngineState : Type 0 where
  undefined_print_engine_state printer_on door_closed initializing door_open homing home error :
      PrintEngineState
  moving_to_start_position initializing_layer pressing press_delay unpressing : PrintEngineState
  pre_exposure_delay exposing printing_layer moving_to_pause paused moving_to_resume :
      PrintEngineState
  separating approaching getting_feedback confirm_cancel awaiting_cancelation : PrintEngineState
  showing_version calibrating registering unjamming jammed demo_mode confirm_upgrade :
      PrintEngineState
  upgrading_projector upgrade_complete : PrintEngineState

-- The values that C++ gives to the enumerators.
abbrev pub state_value : PrintEngineState → ℕ
state_value undefined_print_engine_state = 0
state_value printer_on = 1
state_value door_closed = 2
state_value initializing = 3
state_value door_open = 4
state_value homing = 5
state_value home = 6
state_value error = 7
state_value moving_to_start_position = 8
state_value initializing_layer = 9
state_value pressing = 10
state_value press_delay = 11
state_value unpressing = 12
state_value pre_exposure_delay = 13
state_value exposing = 14
state_value printing_layer = 15
state_value moving_to_pause = 16
state_value paused = 17
state_value moving_to_resume = 18
state_value separating = 19
state_value approaching = 20
state_value getting_feedback = 21
state_value confirm_cancel = 22
state_value awaiting_cancelation = 23
state_value showing_version = 24
state_value calibrating = 25
state_value registering = 26
state_value unjamming = 27
state_value jammed = 28
state_value demo_mode = 29
state_value confirm_upgrade = 30
state_value upgrading_projector = 31
state_value upgrade_complete = 32

infix 50 ◌=ₛ◌
abbrev pub ◌=ₛ◌ : PrintEngineState → PrintEngineState → Bool
s =ₛ t = state_value s == state_value t

pub data StateChange : Type 0 where
  no_change entering leaving : StateChange

pub data UiSubState : Type 0 where
  no_ui_sub_state no_print_data downloading_print_data print_download_failed : UiSubState
  loading_print_data loaded_print_data print_data_load_failed have_print_data : UiSubState
  print_canceled print_completed clearing_screen registered about_to_pause : UiSubState
  wifi_connecting wifi_connection_failed wifi_connected calibrate_prompt : UiSubState
  usb_drive_file_found usb_drive_error : UiSubState

pub data PrintRating : Type 0 where
  unknown succeeded failed : PrintRating

pub data PrinterEvent : Type 0 where
  ev_reset ev_door_closed ev_door_opened ev_initialized ev_cancel ev_no_cancel ev_error :
      PrinterEvent
  ev_request_pause ev_resume ev_start_print ev_delay_ended ev_exposed ev_connected : PrinterEvent
  ev_registered ev_motion_completed ev_enter_demo_mode ev_dismiss ev_upgrade_completed :
      PrinterEvent
  ev_left_button ev_right_button ev_left_and_right_button ev_left_button_hold : PrinterEvent
  ev_right_button_hold ev_left_and_right_button_hold : PrinterEvent

pub data HighLevelMotorCommand : Type 0 where
  go_home go_home_without_rotate_home move_to_start_position separate approach :
      HighLevelMotorCommand
  approach_after_jam press un_press pause_and_inspect resume_from_inspect : HighLevelMotorCommand
  recover_from_jam : HighLevelMotorCommand

pub data LayerType : Type 0 where
  first burn_in model : LayerType

-- Layer settings come in three kinds: `FL_`, `BI_` and `ML_`.
pub data Setting : Type 0 where
  burn_in_layers hardware_rev detect_jams max_unjam_tries layer_thickness : Setting
  inspection_height max_z_travel motor_timeout_factor min_motor_timeout_sec layer_overhead : Setting
  first_exposure burn_in_exposure model_exposure max_temperature : Setting
  r_homing_speed z_homing_speed z_start_print_position r_start_print_speed : Setting
  z_start_print_speed r_start_print_angle : Setting
  fl_press fl_press_speed fl_press_wait fl_unpress_speed fl_approach_wait : Setting
  fl_separation_r_jerk fl_separation_r_speed fl_rotation fl_separation_z_jerk : Setting
  fl_separation_z_speed fl_z_lift fl_approach_r_jerk fl_approach_r_speed : Setting
  fl_approach_z_jerk fl_approach_z_speed : Setting
  bi_press bi_press_speed bi_press_wait bi_unpress_speed bi_approach_wait : Setting
  bi_separation_r_jerk bi_separation_r_speed bi_rotation bi_separation_z_jerk : Setting
  bi_separation_z_speed bi_z_lift bi_approach_r_jerk bi_approach_r_speed : Setting
  bi_approach_z_jerk bi_approach_z_speed : Setting
  ml_press ml_press_speed ml_press_wait ml_unpress_speed ml_approach_wait : Setting
  ml_separation_r_jerk ml_separation_r_speed ml_rotation ml_separation_z_jerk : Setting
  ml_separation_z_speed ml_z_lift ml_approach_r_jerk ml_approach_r_speed : Setting
  ml_approach_z_jerk ml_approach_z_speed : Setting

-- The errors that the print engine reports (`ErrorCode` of C++/include/ErrorMessage.h).
pub data ErrorCode : Type 0 where
  success motor_error motor_timeout_error motor_controller_error motor_timeout_timer : ErrorCode
  pre_exposure_delay_timer exposure_timer temperature_timer_error remaining_exposure : ErrorCode
  cant_show_image cant_show_black cant_show_white no_image_for_layer : ErrorCode
  ip_thread_already_running cant_start_ip_thread background_thread_error : ErrorCode
  no_valid_print_data_available bad_per_layer_settings over_heated cant_remove_print_data :
      ErrorCode
  illegal_state_for_ui_sub_state projector_upgrade_error front_panel_error : ErrorCode
  unknown_front_panel_status : ErrorCode
