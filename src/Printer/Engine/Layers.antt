-- ===== src/Printer/Engine/Layers.antt =====
-- Starting a print and its layers: C++/PrintEngine.cpp.
use ember_firmware.Prelude.{Bool, false, if◌then◌else◌, leb, ltb, not, suc, true, ◌&&◌, ◌==◌, ◌||◌}
use ember_firmware.Prelude.Int.{not_positive, pos, ℤ}
use ember_firmware.Printer.Codes.{
  about_to_pause, background_thread_error, bad_per_layer_settings, cant_start_ip_thread,
  detect_jams, hardware_rev, initializing, ip_thread_already_running, max_temperature, motor_error,
  no_change, no_image_for_layer, no_ui_sub_state, no_valid_print_data_available, over_heated,
}
use ember_firmware.Printer.Devices.{
  Devices, clear_job_id, join_thread, load_per_layer_settings, motor_initialize, remove_print_data,
  start_thread,
}
use ember_firmware.Printer.Engine.{
  Engine, attempt, carry, clear_error, clear_motor_timeout_timer, handle_fatal_error, send_status,
  start_temperature_timer, ◌▷◌,
}
use ember_firmware.Printer.Engine.LayerSettings.{get_current_layer_settings, nonzero}
use ember_firmware.Printer.Engine.Timeouts.{num, set_estimated_print_time}
use ember_firmware.Printer.Engine.Motion.{set_num_layers}

module _ (devices : Devices) where
  open devices use {
    doubles, call, get_int, get_double, has_print_data, layer_count, valid_print_data,
    no_thread_error, temperature_of,
  }
  open doubles use {Double, of_int, sub, div, gt}

  unfoldable pub has_at_least_one_layer : Engine devices → Bool
  has_at_least_one_layer m = has_print_data m.world && leb 1 (layer_count m.world)

  unfoldable pub more_layers : Engine devices → Bool
  more_layers m = ltb m.status.current_layer m.status.num_layers

  unfoldable pub print_is_in_progress : Engine devices → Bool
  print_is_in_progress m = not (m.status.num_layers == 0)

  -- The temperature is logged for some layers.
  unfoldable pub next_layer : Engine devices → Engine devices
  next_layer m =
      record m { status = record m.status { current_layer = suc m.status.current_layer } }
      ▷ set_estimated_print_time devices
      ▷ get_current_layer_settings devices

  -- Without print data, or with the thread still running, it is a fatal error.
  unfoldable pub load_next_layer_image : Engine devices → Bool × Engine devices
  load_next_layer_image m =
      let (ok, w) = call (start_thread (suc m.status.current_layer)) m.world in
      if not (has_print_data m.world)
      then (false, handle_fatal_error devices no_image_for_layer m)
      else if m.bgnd_thread
      then (false, handle_fatal_error devices ip_thread_already_running m)
      else if ok
      then (true, record m { world = w; bgnd_thread = true })
      else (false, handle_fatal_error devices cant_start_ip_thread (record m { world = w }))

  -- The thread's own errors, and that of joining it, are what `no_thread_error` tells.
  unfoldable pub await_end_of_background_thread : Bool → Engine devices → Bool × Engine devices
  await_end_of_background_thread ignore_errors m =
      let (ok, w) = call join_thread m.world in
      let joined = if m.bgnd_thread then record m { world = w; bgnd_thread = not ok } else m in
      if not (no_thread_error joined.world) && not ignore_errors
      then (false, handle_fatal_error devices background_thread_error joined)
      else (true, joined)

  unfoldable pub is_printer_too_hot : Engine devices → Bool × Engine devices
  is_printer_too_hot m =
      if gt (temperature_of m.world) (get_double max_temperature m.world)
      then (true, record (handle_fatal_error devices over_heated m) { already_overheated = true })
      else (false, record m { already_overheated = false })

  unfoldable pub got_rotation_interrupt : Engine devices → Bool
  got_rotation_interrupt m =
      not (nonzero (get_int detect_jams m.world))
      || not (nonzero (get_int hardware_rev m.world))
      || m.got_rotation_interrupt

  unfoldable pub set_inspection_requested : Bool → Engine devices → Engine devices
  set_inspection_requested requested m =
      let set = record m { inspection_requested = requested } in
      if requested then send_status devices m.status.state no_change about_to_pause set else set

  -- What a failing step leaves is kept; a step that succeeds goes on.
  abbrev and_then :
      Bool × Engine devices → (Engine devices → Bool × Engine devices) → Bool × Engine devices
  and_then r next = if r.0 then next r.1 else r

  load_settings : Engine devices → Bool × Engine devices
  load_settings m =
      let (ok, w) = call load_per_layer_settings m.world in
      let loaded = record m { world = w } in
      if ok
      then (true, loaded)
      else (false, handle_fatal_error devices bad_per_layer_settings loaded)

  check_temperature : Engine devices → Bool × Engine devices
  check_temperature m =
      let (hot, checked) = is_printer_too_hot m in
      if hot
      then (false, checked)
      else (true, record checked { home_ui_sub_state = no_ui_sub_state })

  unfoldable pub try_start_print : Engine devices → Bool × Engine devices
  unfolding load_settings check_temperature
  try_start_print m =
      let ready = record (clear_error devices m) { skip_calibration = false } in
      let counted = set_num_layers devices (layer_count ready.world) ready in
      let awaited = (await_end_of_background_thread true counted).1 in
      if not (valid_print_data m.world)
      then (false, handle_fatal_error devices no_valid_print_data_available ready)
      else and_then (and_then (load_next_layer_image awaited) load_settings) check_temperature

  -- The error without print data is only logged.
  unfoldable pub clear_print_data : Engine devices → Engine devices
  clear_print_data m =
      let cleared =
        record m { home_ui_sub_state = no_ui_sub_state }
        ▷ carry devices remove_print_data
        ▷ carry devices clear_job_id in
      if has_print_data m.world then cleared else m

  unfoldable pub get_exposure_time_sec : Engine devices → Double
  get_exposure_time_sec m =
      let frame = div (num devices 1) (num devices 60) in
      if gt m.cls.exposure_sec frame then sub m.cls.exposure_sec frame else m.cls.exposure_sec

  -- `ms / 1000.0`
  abbrev pub from_ms : ℤ → Double
  from_ms ms = div (of_int ms) (num devices 1000)

  unfoldable pub needs_pre_exposure_delay : Engine devices → Bool
  needs_pre_exposure_delay m = not (not_positive m.cls.approach_wait_ms)

  unfoldable pub needs_tray_deflection_pause : Engine devices → Bool
  needs_tray_deflection_pause m = not (not_positive m.cls.press_wait_ms)

  unfoldable pub get_tray_deflection : Engine devices → ℤ
  get_tray_deflection m = m.cls.motions.press_microns

  unfoldable pub initialize : Engine devices → Engine devices
  initialize m =
      let timed = clear_motor_timeout_timer devices m in
      record timed {
        remaining_motor_timeout_sec = num devices 0;
        status = record timed.status {
          state = initializing;
          ui_sub_state = no_ui_sub_state;
          change = no_change;
          current_layer = 0;
          estimated_seconds_remaining = pos 0;
        };
        home_ui_sub_state = no_ui_sub_state;
      }
      ▷ clear_error devices
      -- `TEMPERATURE_MEASUREMENT_INTERVAL_SEC`
      ▷ start_temperature_timer devices (num devices 20)
      ▷ attempt devices motor_initialize motor_error
