-- ===== src/Tests/Printer.antt =====
-- The theorems on the printer at concrete devices and machines.
use ember_firmware.Prelude.{
  Bool, [], arith, false, ltb, none, refl, true, ℕ, ◌*◌, ◌+◌, ◌-◌, ◌/◌, ◌∷◌, ◌≡◌, ◌≢◌,
}
use ember_firmware.Prelude.Int.{negsuc, pos, ℤ}
use ember_firmware.Printer.Codes.{
  PrintEngineState, error, ev_error, exposing, home, no_change, no_ui_sub_state, success, unjamming,
  unknown,
}
use ember_firmware.Printer.Devices.{Devices, Doubles}
use ember_firmware.Printer.Engine.{Printer}
use ember_firmware.Printer.Engine.LayerSettings.{type_of_layer}
use ember_firmware.Printer.Engine.LayerSettings.Agreement.{told_type, types_agree}
use ember_firmware.Printer.Chart.{Active, Statechart, contexts, dispatch, process_event}
use ember_firmware.Printer.Chart.Faults.{Cleared, fatal_error_clears_print}
use ember_firmware.Printer.Chart.Layers.{Layers}
use ember_firmware.Printer.Chart.Livelock.{failing_motor_never_settles}
use ember_firmware.Printer.Chart.Unjam.{motions}
use ember_firmware.Smith.Motor.Layer.{CurrentLayerSettings}

-- `double` cut off to ℕ, enough to tell what is positive.
abbrev test_doubles : Doubles
test_doubles = record {
  Double = ℕ;
  of_int = magnitude;
  add = λ a b. a + b;
  sub = λ a b. a - b;
  mul = λ a b. a * b;
  div = λ a b. a / b;
  gt = λ a b. ltb b a;
  to_int = pos;
}
  where
    magnitude : ℤ → ℕ
    magnitude (pos n) = n
    magnitude (negsuc n) = 0

-- Devices where each call has this result; every integer setting is 5, and nothing is running.
abbrev devices_with : Bool → Devices
devices_with ok = record {
  doubles = test_doubles;
  World = ℕ;
  call = λ c w. (ok, w + 1);
  remaining_time = λ t w. 0;
  get_int = λ s w. pos 5;
  get_double = λ s w. 5;
  layer_int = λ n s w. pos 5;
  layer_double = λ n s w. 5;
  door_is_open = λ w. false;
  temperature_of = λ w. 20;
  has_print_data = λ w. true;
  layer_count = λ w. 2;
  valid_print_data = λ w. true;
  no_thread_error = λ w. true;
  is_internet_connected = λ w. false;
  programming_complete = λ w. false;
  get_upgrade_progress = λ w. 0;
}

abbrev good : Devices
good = devices_with true

abbrev bad : Devices
bad = devices_with false

-- A library that does as documented; an event inside a reaction is ignored.
abbrev chart_of : (devices : Devices) → Statechart devices
chart_of devices = record {
  process = λ e a. dispatch devices (λ e' a'. a') (a.state ∷ contexts a.state) e a;
  within = λ e' a'. a';
  documented = λ e a. refl;
}

abbrev cls_zero : CurrentLayerSettings
cls_zero = record {
  press_microns = pos 0;
  press_microns_per_sec = pos 0;
  unpress_microns_per_sec = pos 0;
  separation_rot_jerk = pos 0;
  separation_rpm = pos 0;
  rotation_milli_degrees = pos 0;
  separation_z_jerk = pos 0;
  separation_microns_per_sec = pos 0;
  z_lift_microns = pos 0;
  approach_rot_jerk = pos 0;
  approach_rpm = pos 0;
  approach_z_jerk = pos 0;
  approach_microns_per_sec = pos 0;
  layer_thickness_microns = pos 0;
}

-- A printer with this many layers, in this layer.
abbrev printer_in : ℕ → ℕ → Printer ℕ ℕ
printer_in layers layer = record {
  homing_sub_state = no_ui_sub_state;
  remaining_unjam_tries = pos 0;
  motion_completed = false;
  skip_homing_rotation = false;
  from_paused = false;
  from_jammed_or_unjamming = false;
  remaining_exposure_time_sec = 0;
  posted = [];
  status = record {
    state = home;
    change = no_change;
    ui_sub_state = no_ui_sub_state;
    is_error = false;
    error_code = success;
    num_layers = layers;
    current_layer = layer;
    estimated_seconds_remaining = pos 0;
    temperature = 20;
    print_rating = unknown;
    can_load_print_data = false;
    can_upgrade_projector = false;
  };
  home_ui_sub_state = no_ui_sub_state;
  got_rotation_interrupt = false;
  already_overheated = false;
  inspection_requested = false;
  skip_calibration = false;
  remaining_motor_timeout_sec = 0;
  current_z_position = pos 0;
  cls = record {
    motions = cls_zero;
    press_wait_ms = pos 0;
    approach_wait_ms = pos 0;
    exposure_sec = 0;
    can_inspect = false;
    inspection_height_microns = pos 0;
  };
  bgnd_thread = true;
  sent = [];
  world = 0;
}

abbrev machine_in : PrintEngineState → ℕ → ℕ → Active ℕ ℕ
machine_in s layers layer = record {
  state = s;
  printer_on_history = none;
  door_closed_history = none;
  printing_layer_history = none;
  printer = printer_in layers layer;
}

fatal_error_clears_print_example :
    (((chart_of bad).process ev_error (machine_in exposing 3 2)).state ≡ error)
    × Cleared bad ((chart_of bad).process ev_error (machine_in exposing 3 2)).printer
fatal_error_clears_print_example =
    fatal_error_clears_print bad (chart_of bad) (machine_in exposing 3 2) refl

failing_motor_never_settles_example :
    (process_event bad (chart_of bad) 100 ev_error (machine_in exposing 3 2)).printer.posted ≢ []
failing_motor_never_settles_example =
    failing_motor_never_settles bad (λ w. refl) (chart_of bad) 100 (machine_in exposing 3 2) refl
      refl

types_agree_example : type_of_layer 2 (pos 5) ≡ told_type good (printer_in 3 2)
types_agree_example = types_agree good (printer_in 3 2) (omega arith)

abbrev jam : Active ℕ ℕ
jam =
    let a = machine_in unjamming 3 2 in
    record a { printer = record a.printer { remaining_unjam_tries = pos 2 } }
