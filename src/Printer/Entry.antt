-- ===== src/Printer/Entry.antt =====
-- The constructors and destructors of the states, C++/PrinterStateMachine.cpp, with what they call in
-- C++/PrintEngine.cpp.
use ember_firmware.Prelude.{Bool, false, if◌then◌else◌, true, ℕ}
use ember_firmware.Printer.Codes.{
  PrintEngineState, UiSubState, about_to_pause, approaching, awaiting_cancelation, calibrate_prompt,
  cant_show_black, cant_show_image, cant_show_white, confirm_cancel, demo_mode, door_open,
  downloading_print_data, entering, error, ev_delay_ended, ev_door_opened, ev_enter_demo_mode,
  ev_initialized, ev_motion_completed, exposing, hardware_rev, have_print_data, home, homing,
  initializing, initializing_layer, leaving, moving_to_pause, moving_to_resume,
  moving_to_start_position, no_print_data, no_ui_sub_state, pre_exposure_delay, press_delay,
  pressing, separating, unjamming, unpressing, upgrading_projector,
}
use ember_firmware.Printer.Devices.{
  Devices, demo_mode_requested, exposure, motor_disable, motor_go_home_stay_open,
  projector_enter_program_mode, show_black, show_current_image, show_white,
}
use ember_firmware.Printer.Engine.{
  Engine, attempt, carry, clear_motor_timeout_timer, not_loading, positive, post_event, send_status,
  set_can_load_print_data, start_delay_timer, start_exposure_timer, ◌▷◌,
}
use ember_firmware.Printer.Engine.LayerSettings.{nonzero}
use ember_firmware.Printer.Engine.Timeouts.{num}
use ember_firmware.Printer.Engine.Motion.{clear_current_print, pause_movement, resume_movement}
use ember_firmware.Printer.Engine.Layers.{
  await_end_of_background_thread, from_ms, get_exposure_time_sec, has_at_least_one_layer,
  initialize, needs_pre_exposure_delay, next_layer,
}

-- `NUM_LEDS_IN_RING`
abbrev pub num_leds_in_ring : ℕ
num_leds_in_ring = 21

module _ (devices : Devices) where
  open devices use {doubles, call, get_int, door_is_open, remaining_time}
  open doubles use {Double}

  -- `SendStatus(state, Entering, substate)`
  abbrev entered : PrintEngineState → UiSubState → Engine devices → Engine devices
  entered state substate = send_status devices state entering substate

  -- `if (_motionCompleted) post_event(EvMotionCompleted());`
  abbrev post_motion : Engine devices → Engine devices
  post_motion m = if m.motion_completed then post_event ev_motion_completed m else m

  -- `PauseRequested() ? AboutToPause : NoUISubState`
  abbrev pause_sub_state : Engine devices → UiSubState
  pause_sub_state m = if m.inspection_requested then about_to_pause else no_ui_sub_state

  -- With hardware; a failing pin reads as not requested.
  demo_mode_requested_now : Engine devices → Bool × Engine devices
  demo_mode_requested_now m =
      let (requested, w) = call demo_mode_requested m.world in
      if nonzero (get_int hardware_rev m.world)
      then (requested, record m { world = w })
      else (false, m)

  enter_initializing : Engine devices → Engine devices
  unfolding demo_mode_requested_now
  enter_initializing m =
      let (demo, read) = demo_mode_requested_now (entered initializing no_ui_sub_state m) in
      let asked = if demo then post_event ev_enter_demo_mode read else read in
      if door_is_open asked.world
      then post_event ev_door_opened asked
      else post_event ev_initialized (initialize devices asked)

  enter_awaiting_cancelation : Engine devices → Engine devices
  enter_awaiting_cancelation m =
      let told = entered awaiting_cancelation no_ui_sub_state m in
      if door_is_open told.world then post_event ev_door_opened told else post_motion told

  enter_door_open : Engine devices → Engine devices
  enter_door_open m = pause_movement devices (entered door_open (substate m.home_ui_sub_state) m)
    where
      substate : UiSubState → UiSubState
      substate downloading_print_data = downloading_print_data
      substate _ = no_ui_sub_state

  -- The status comes first, so that the print counts as failed.
  enter_error : Engine devices → Engine devices
  enter_error m =
      entered error no_ui_sub_state m
      ▷ clear_current_print devices false
      ▷ clear_motor_timeout_timer devices

  enter_home : Engine devices → Engine devices
  enter_home m =
      set_can_load_print_data devices (not_loading devices substate) m
      ▷ entered home substate
      ▷ clear_motor_timeout_timer devices
      ▷ carry devices motor_disable
    where
      screen : UiSubState → UiSubState
      screen no_ui_sub_state =
          if has_at_least_one_layer devices m then have_print_data else no_print_data
      screen s = s

      substate : UiSubState
      substate = screen m.home_ui_sub_state

  enter_initializing_layer : Engine devices → Engine devices
  enter_initializing_layer m =
      let next =
        if door_is_open m.world
        then post_event ev_door_opened m
        else record (post_event ev_initialized (next_layer devices m)) {
          skip_homing_rotation = true;
        } in
      entered initializing_layer (pause_sub_state next) next

  enter_pre_exposure_delay : Engine devices → Engine devices
  enter_pre_exposure_delay m =
      let told = entered pre_exposure_delay (pause_sub_state m) m in
      if needs_pre_exposure_delay devices told
      then start_delay_timer devices (from_ms devices told.cls.approach_wait_ms) told
      else post_event ev_delay_ended told

  -- `ShowImage`, then the timer.
  unfoldable pub expose : Double → Engine devices → Engine devices
  expose seconds m =
      attempt devices show_current_image cant_show_image m ▷ start_exposure_timer devices seconds

  -- The rest of an exposure that was left, or a new one if the image is ready.
  enter_exposing : Engine devices → Engine devices
  unfolding expose
  enter_exposing m =
      let told = entered exposing (pause_sub_state m) m in
      let (ready, awaited) = await_end_of_background_thread devices false told in
      if positive devices told.remaining_exposure_time_sec
      then expose told.remaining_exposure_time_sec told
      else if ready
      then expose (get_exposure_time_sec devices awaited) awaited
      else awaited

  -- `PutProjectorInProgramMode`
  put_projector_in_program_mode : Bool → Engine devices → Engine devices
  put_projector_in_program_mode enter m =
      let asked = carry devices (projector_enter_program_mode enter) m in
      let timed = start_delay_timer devices (num devices 5) asked in
      if enter
      then record timed { status = record timed.status { num_layers = num_leds_in_ring } }
      else asked

  -- `SetDemoMode`
  set_demo_mode : Engine devices → Engine devices
  set_demo_mode m =
      initialize devices m
      ▷ carry devices motor_go_home_stay_open
      ▷ attempt devices show_white cant_show_white

  -- The constructors.
  unfoldable pub enter : PrintEngineState → Engine devices → Engine devices
  unfolding enter_initializing enter_awaiting_cancelation enter_door_open enter_error enter_home
      enter_initializing_layer enter_pre_exposure_delay enter_exposing put_projector_in_program_mode
      set_demo_mode
  enter initializing m = enter_initializing m
  enter awaiting_cancelation m = enter_awaiting_cancelation m
  enter door_open m = enter_door_open m
  enter error m = enter_error m
  enter home m = enter_home m
  enter homing m = post_motion (entered homing m.homing_sub_state m)
  enter confirm_cancel m = pause_movement devices (entered confirm_cancel no_ui_sub_state m)
  enter moving_to_pause m = post_motion (entered moving_to_pause no_ui_sub_state m)
  enter moving_to_resume m = post_motion (entered moving_to_resume no_ui_sub_state m)
  enter moving_to_start_position m = post_motion (
      entered moving_to_start_position
        (if m.skip_calibration then no_ui_sub_state else calibrate_prompt) m)
  enter unjamming m = post_motion (entered unjamming no_ui_sub_state m)
  enter initializing_layer m = enter_initializing_layer m
  enter pressing m = post_motion (entered pressing (pause_sub_state m) m)
  enter press_delay m =
      start_delay_timer devices (from_ms devices m.cls.press_wait_ms)
        (entered press_delay (pause_sub_state m) m)
  enter unpressing m = post_motion (entered unpressing (pause_sub_state m) m)
  enter pre_exposure_delay m = enter_pre_exposure_delay m
  enter exposing m = enter_exposing m
  enter separating m = post_motion (entered separating (pause_sub_state m) m)
  enter approaching m = post_motion (entered approaching (pause_sub_state m) m)
  enter demo_mode m = set_demo_mode (entered demo_mode no_ui_sub_state m)
  enter upgrading_projector m =
      put_projector_in_program_mode true (entered upgrading_projector no_ui_sub_state m)
  enter state m = entered state no_ui_sub_state m

  -- The destructors.
  unfoldable pub leave : PrintEngineState → Engine devices → Engine devices
  unfolding put_projector_in_program_mode
  leave door_open m =
      resume_movement devices (send_status devices door_open leaving no_ui_sub_state m)
  leave exposing m =
      let dark = attempt devices show_black cant_show_black m in
      record dark { remaining_exposure_time_sec = remaining_time exposure dark.world }
      ▷ send_status devices exposing leaving no_ui_sub_state
  leave upgrading_projector m =
      put_projector_in_program_mode false
        (send_status devices upgrading_projector leaving no_ui_sub_state m)
  leave state m = send_status devices state leaving no_ui_sub_state m
