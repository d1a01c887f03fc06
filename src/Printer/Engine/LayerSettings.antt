-- ===== src/Printer/Engine/LayerSettings.antt =====
-- The settings of the current layer: `IsFirstLayer`, `IsBurnInLayer` and `GetCurrentLayerSettings` of
-- C++/PrintEngine.cpp.
pub mod Agreement
use ember_firmware.Prelude.{
  ℕ, suc, ◌+◌, Bool, true, false, if◌then◌else◌, not, ◌&&◌, ◌==◌, ltb, leb,
}
use ember_firmware.Prelude.Int.{ℤ, pos, negsuc, not_positive}
use ember_firmware.Smith.Motor.Layer.{CurrentLayerSettings, minus}
use ember_firmware.Printer.Codes.{
  LayerType, Setting, bi_approach_r_jerk, bi_approach_r_speed, bi_approach_wait, bi_approach_z_jerk,
  bi_approach_z_speed, bi_press, bi_press_speed, bi_press_wait, bi_rotation, bi_separation_r_jerk,
  bi_separation_r_speed, bi_separation_z_jerk, bi_separation_z_speed, bi_unpress_speed, bi_z_lift,
  burn_in, burn_in_exposure, burn_in_layers, first, first_exposure, fl_approach_r_jerk,
  fl_approach_r_speed, fl_approach_wait, fl_approach_z_jerk, fl_approach_z_speed, fl_press,
  fl_press_speed, fl_press_wait, fl_rotation, fl_separation_r_jerk, fl_separation_r_speed,
  fl_separation_z_jerk, fl_separation_z_speed, fl_unpress_speed, fl_z_lift, inspection_height,
  layer_thickness, max_z_travel, ml_approach_r_jerk, ml_approach_r_speed, ml_approach_wait,
  ml_approach_z_jerk, ml_approach_z_speed, ml_press, ml_press_speed, ml_press_wait, ml_rotation,
  ml_separation_r_jerk, ml_separation_r_speed, ml_separation_z_jerk, ml_separation_z_speed,
  ml_unpress_speed, ml_z_lift, model, model_exposure,
}
use ember_firmware.Printer.Devices.{Devices}
use ember_firmware.Printer.Engine.{Engine, LayerParameters}

-- `y + z`
abbrev pub plus : ℤ → ℤ → ℤ
plus y z = minus y (minus (pos 0) z)

-- `y > z`
abbrev pub exceeds : ℤ → ℤ → Bool
exceeds y z = not (not_positive (minus y z))

-- `y != 0`
abbrev pub nonzero : ℤ → Bool
nonzero (pos n) = not (n == 0)
nonzero (negsuc n) = true

-- The settings that a type of layer uses.
pub record LayerNames : Type 0 where
  pub press_name : Setting
  pub press_speed_name : Setting
  pub press_wait_name : Setting
  pub unpress_speed_name : Setting
  pub approach_wait_name : Setting
  pub exposure_name : Setting
  pub separation_r_jerk_name : Setting
  pub separation_r_speed_name : Setting
  pub rotation_name : Setting
  pub separation_z_jerk_name : Setting
  pub separation_z_speed_name : Setting
  pub z_lift_name : Setting
  pub approach_r_jerk_name : Setting
  pub approach_r_speed_name : Setting
  pub approach_z_jerk_name : Setting
  pub approach_z_speed_name : Setting

abbrev pub names_of : LayerType → LayerNames
names_of first = record {
  press_name = fl_press;
  press_speed_name = fl_press_speed;
  press_wait_name = fl_press_wait;
  unpress_speed_name = fl_unpress_speed;
  approach_wait_name = fl_approach_wait;
  exposure_name = first_exposure;
  separation_r_jerk_name = fl_separation_r_jerk;
  separation_r_speed_name = fl_separation_r_speed;
  rotation_name = fl_rotation;
  separation_z_jerk_name = fl_separation_z_jerk;
  separation_z_speed_name = fl_separation_z_speed;
  z_lift_name = fl_z_lift;
  approach_r_jerk_name = fl_approach_r_jerk;
  approach_r_speed_name = fl_approach_r_speed;
  approach_z_jerk_name = fl_approach_z_jerk;
  approach_z_speed_name = fl_approach_z_speed;
}
names_of burn_in = record {
  press_name = bi_press;
  press_speed_name = bi_press_speed;
  press_wait_name = bi_press_wait;
  unpress_speed_name = bi_unpress_speed;
  approach_wait_name = bi_approach_wait;
  exposure_name = burn_in_exposure;
  separation_r_jerk_name = bi_separation_r_jerk;
  separation_r_speed_name = bi_separation_r_speed;
  rotation_name = bi_rotation;
  separation_z_jerk_name = bi_separation_z_jerk;
  separation_z_speed_name = bi_separation_z_speed;
  z_lift_name = bi_z_lift;
  approach_r_jerk_name = bi_approach_r_jerk;
  approach_r_speed_name = bi_approach_r_speed;
  approach_z_jerk_name = bi_approach_z_jerk;
  approach_z_speed_name = bi_approach_z_speed;
}
names_of model = record {
  press_name = ml_press;
  press_speed_name = ml_press_speed;
  press_wait_name = ml_press_wait;
  unpress_speed_name = ml_unpress_speed;
  approach_wait_name = ml_approach_wait;
  exposure_name = model_exposure;
  separation_r_jerk_name = ml_separation_r_jerk;
  separation_r_speed_name = ml_separation_r_speed;
  rotation_name = ml_rotation;
  separation_z_jerk_name = ml_separation_z_jerk;
  separation_z_speed_name = ml_separation_z_speed;
  z_lift_name = ml_z_lift;
  approach_r_jerk_name = ml_approach_r_jerk;
  approach_r_speed_name = ml_approach_r_speed;
  approach_z_jerk_name = ml_approach_z_jerk;
  approach_z_speed_name = ml_approach_z_speed;
}

-- `numBurnInLayers > 0 && n <= 1 + numBurnInLayers`
abbrev pub up_to_burn_in : ℕ → ℤ → Bool
up_to_burn_in n layers = not (not_positive layers) && not (exceeds (pos n) (plus (pos 1) layers))

-- The type that `GetCurrentLayerSettings` finds for layer n.
unfoldable pub type_of_layer : ℕ → ℤ → LayerType
type_of_layer n layers = if n == 1 then first else if up_to_burn_in n layers then burn_in else model

module _ (devices : Devices) where
  open devices use {doubles, get_int, layer_int, layer_double}
  open doubles use {Double}

  unfoldable pub is_first_layer : Engine devices → Bool
  is_first_layer m = m.status.current_layer == 1

  unfoldable pub is_burn_in_layer : Engine devices → Bool
  is_burn_in_layer m =
      let layers = get_int burn_in_layers m.world in
      not (not_positive layers)
      && ltb 1 m.status.current_layer
      && not (exceeds (pos m.status.current_layer) (plus (pos 1) layers))

  -- What is set before exposure has the overrides of layer n, what is set after it those of n + 1.
  unfoldable pub get_current_layer_settings : Engine devices → Engine devices
  get_current_layer_settings m = record m { cls = cls }
    where
      n : ℕ
      n = m.status.current_layer

      names : LayerNames
      names = names_of (type_of_layer n (get_int burn_in_layers m.world))

      now : Setting → ℤ
      now name = layer_int n name m.world

      later : Setting → ℤ
      later name = layer_int (n + 1) name m.world

      height : ℤ
      height = get_int inspection_height m.world

      lift : ℤ
      lift = later (names.z_lift_name)

      cls : LayerParameters Double
      cls = record {
        motions = record {
          press_microns = now (names.press_name);
          press_microns_per_sec = now (names.press_speed_name);
          unpress_microns_per_sec = now (names.unpress_speed_name);
          separation_rot_jerk = later (names.separation_r_jerk_name);
          separation_rpm = later (names.separation_r_speed_name);
          rotation_milli_degrees = later (names.rotation_name);
          separation_z_jerk = later (names.separation_z_jerk_name);
          separation_microns_per_sec = later (names.separation_z_speed_name);
          z_lift_microns = lift;
          approach_rot_jerk = later (names.approach_r_jerk_name);
          approach_rpm = later (names.approach_r_speed_name);
          approach_z_jerk = later (names.approach_z_jerk_name);
          approach_microns_per_sec = later (names.approach_z_speed_name);
          layer_thickness_microns = later layer_thickness;
        };
        press_wait_ms = now (names.press_wait_name);
        approach_wait_ms = now (names.approach_wait_name);
        exposure_sec = layer_double n (names.exposure_name) m.world;
        can_inspect =
            nonzero height
            && exceeds (get_int max_z_travel m.world)
                (plus (plus m.current_z_position lift) height);
        inspection_height_microns = height;
      }
