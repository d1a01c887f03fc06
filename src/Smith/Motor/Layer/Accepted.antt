-- ===== src/Smith/Motor/Layer/Accepted.antt =====
-- `Send` refuses none of the commands of a layer, if the layer's settings are in range.
use ember_firmware.Prelude.{
  ◌^◌, ◌≡◌, refl, inl, inr, Bool, true, false, [], ◌∷◌, arith, if◌then◌else◌,
}
use ember_firmware.Prelude.Int.{ℤ, pos}
use ember_firmware.Avr.Codes.{rot_settings_reg, rot_action_reg, z_settings_reg, z_action_reg}
use ember_firmware.Smith.I2cDevice.{Bus, Smith}
use ember_firmware.Smith.MotorCommand.{is_zero}
use ember_firmware.Smith.Delivery.Bytes.{IsSendable, AllSendable}
use ember_firmware.Smith.Delivery.Retries.{IsReliable, send_commands_succeed}
use ember_firmware.Smith.Motor.Layer.{
  CurrentLayerSettings, negated, times, scaled_rotation, minus, command, interrupt_command,
  separate_commands, un_jam_commands, approach_commands, press_commands, unpress_commands, separate,
  un_jam, approach, press, unpress,
}
use ember_firmware.Smith.Motor.Layer.Range.{
  InRange, setting-IsSendable, action-IsSendable, interrupt-IsSendable, unless_zero-AllSendable,
  negated-IsAmount, negated_nonzero, rotation-IsAmount, larger, twice-IsAmount, twice_nonzero,
  minus-IsAmount, rpm-IsRate, z_speed-IsRate,
}

-- The rotation away from the starting position.
back :
    (cls : CurrentLayerSettings)
    → InRange cls
    → let rotation = scaled_rotation cls.rotation_milli_degrees in
      is_zero rotation ≡ false → IsSendable (command rot_action_reg 1 (negated rotation))
back cls r nz =
    let rotation : ℤ = scaled_rotation cls.rotation_milli_degrees in
    action-IsSendable rot_action_reg 1 (negated rotation) (inl refl) (omega arith)
      (negated-IsAmount rotation (2 ^ 31)
        (larger rotation (rotation-IsAmount cls.rotation_milli_degrees r.rotation)))
      (negated_nonzero rotation nz)

separate-AllSendable :
    (cls : CurrentLayerSettings) → InRange cls → AllSendable (separate_commands cls)
unfolding separate_commands
separate-AllSendable cls r = (
  setting-IsSendable rot_settings_reg 4 cls.separation_rot_jerk (inl refl) (omega arith)
      r.separation_rot_jerk,
  (
    setting-IsSendable rot_settings_reg 5 _ (inl refl) (omega arith)
        (rpm-IsRate cls.separation_rpm r.separation_rpm),
    unless_zero-AllSendable (scaled_rotation cls.rotation_milli_degrees) _ _ (back cls r) (
      setting-IsSendable z_settings_reg 4 cls.separation_z_jerk (inr refl) (omega arith)
          r.separation_z_jerk,
      (
        setting-IsSendable z_settings_reg 5 _ (inr refl) (omega arith)
            (z_speed-IsRate cls.separation_microns_per_sec r.separation_speed),
        unless_zero-AllSendable cls.z_lift_microns _ _
            (λ nz.
              action-IsSendable z_action_reg 1 cls.z_lift_microns (inr refl) (omega arith)
                (larger cls.z_lift_microns r.lift) nz)
            (interrupt-IsSendable, tt),
      ),
    ),
  ),
)

un_jam-AllSendable :
    (cls : CurrentLayerSettings) (with_interrupt : Bool)
    → InRange cls
    → AllSendable (un_jam_commands cls with_interrupt)
unfolding un_jam_commands
un_jam-AllSendable cls with_interrupt r = (
  action-IsSendable rot_action_reg 2 (pos 3600) (inl refl) (omega arith) (omega arith) refl,
  unless_zero-AllSendable (scaled_rotation cls.rotation_milli_degrees) _ _ (back cls r)
      (last with_interrupt),
)
  where
    last : (b : Bool) → AllSendable (if b then interrupt_command ∷ [] else [])
    last true = (interrupt-IsSendable, tt)
    last false = tt

-- The rotation back, by homing or by a move.
forth :
    (cls : CurrentLayerSettings) (homes_not : Bool)
    → InRange cls
    → let rotation = scaled_rotation cls.rotation_milli_degrees in
      is_zero rotation ≡ false
      → IsSendable (
          if homes_not
          then command rot_action_reg 1 rotation
          else command rot_action_reg 2 (times 2 rotation))
forth cls true r nz =
    action-IsSendable rot_action_reg 1 (scaled_rotation cls.rotation_milli_degrees) (inl refl)
      (omega arith)
      (larger (scaled_rotation cls.rotation_milli_degrees)
        (rotation-IsAmount cls.rotation_milli_degrees r.rotation))
      nz
forth cls false r nz =
    action-IsSendable rot_action_reg 2 (times 2 (scaled_rotation cls.rotation_milli_degrees))
      (inl refl) (omega arith)
      (twice-IsAmount (scaled_rotation cls.rotation_milli_degrees)
        (rotation-IsAmount cls.rotation_milli_degrees r.rotation))
      (twice_nonzero (scaled_rotation cls.rotation_milli_degrees) nz)

approach-AllSendable :
    (home_on_approach : ℤ) (cls : CurrentLayerSettings)
    → InRange cls
    → AllSendable (approach_commands home_on_approach cls)
unfolding approach_commands
approach-AllSendable home_on_approach cls r = (
  setting-IsSendable rot_settings_reg 4 cls.approach_rot_jerk (inl refl) (omega arith)
      r.approach_rot_jerk,
  (
    setting-IsSendable rot_settings_reg 5 _ (inl refl) (omega arith)
        (rpm-IsRate cls.approach_rpm r.approach_rpm),
    unless_zero-AllSendable (scaled_rotation cls.rotation_milli_degrees) _ _
        (forth cls (is_zero home_on_approach) r)
        (
          setting-IsSendable z_settings_reg 4 cls.approach_z_jerk (inr refl) (omega arith)
              r.approach_z_jerk,
          (
            setting-IsSendable z_settings_reg 5 _ (inr refl) (omega arith)
                (z_speed-IsRate cls.approach_microns_per_sec r.approach_speed),
            unless_zero-AllSendable (minus cls.layer_thickness_microns cls.z_lift_microns) _ _
                (λ nz.
                  action-IsSendable z_action_reg 1
                    (minus cls.layer_thickness_microns cls.z_lift_microns) (inr refl) (omega arith)
                    (minus-IsAmount cls.layer_thickness_microns cls.z_lift_microns r.thickness
                      r.lift)
                    nz)
                (interrupt-IsSendable, tt),
          ),
        ),
  ),
)

press-AllSendable : (cls : CurrentLayerSettings) → InRange cls → AllSendable (press_commands cls)
unfolding press_commands
press-AllSendable cls r = (
  setting-IsSendable z_settings_reg 5 _ (inr refl) (omega arith)
      (z_speed-IsRate cls.press_microns_per_sec r.press_speed),
  unless_zero-AllSendable cls.press_microns _ _
      (λ nz.
        action-IsSendable z_action_reg 1 (negated cls.press_microns) (inr refl) (omega arith)
          (negated-IsAmount cls.press_microns (2 ^ 31) (larger cls.press_microns r.press))
          (negated_nonzero cls.press_microns nz))
      (interrupt-IsSendable, tt),
)

unpress-AllSendable :
    (cls : CurrentLayerSettings) → InRange cls → AllSendable (unpress_commands cls)
unfolding unpress_commands
unpress-AllSendable cls r = (
  setting-IsSendable z_settings_reg 5 _ (inr refl) (omega arith)
      (z_speed-IsRate cls.unpress_microns_per_sec r.unpress_speed),
  unless_zero-AllSendable cls.press_microns _ _
      (λ nz.
        action-IsSendable z_action_reg 1 cls.press_microns (inr refl) (omega arith)
          (larger cls.press_microns r.press) nz)
      (interrupt-IsSendable, tt),
)

module _ (bus : Bus) (reliable : IsReliable bus) (cls : CurrentLayerSettings) (range : InRange cls)
    (s : Smith bus.World) where
  un_jam_ok : (b : Bool) → (un_jam bus cls b s).0 ≡ true
  unfolding un_jam
  un_jam_ok b =
      send_commands_succeed bus (un_jam_commands cls b) s (un_jam-AllSendable cls b range) reliable

  approach_ok : (home : ℤ) (b : Bool) → (approach bus home cls b s).0 ≡ true
  unfolding approach
  approach_ok home true = rw (un_jam_ok false) (
      send_commands_succeed bus (approach_commands home cls) (un_jam bus cls false s).1
        (approach-AllSendable home cls range) reliable)
  approach_ok home false =
      send_commands_succeed bus (approach_commands home cls) s (approach-AllSendable home cls range)
        reliable

  -- Separate, Approach with and without UnJam first, UnJam, Press and Unpress succeed on a bus
  -- where of a write and its repetition one succeeds, for layer settings with positive jerks and
  -- speeds in range.
  pub layer_motions_succeed :
      (home_on_approach : ℤ) (b : Bool)
      → ((separate bus cls s).0 ≡ true)
        × ((approach bus home_on_approach cls b s).0 ≡ true)
        × ((un_jam bus cls b s).0 ≡ true)
        × ((press bus cls s).0 ≡ true)
        × ((unpress bus cls s).0 ≡ true)
  unfolding separate press unpress
  layer_motions_succeed home_on_approach b = (
    send_commands_succeed bus (separate_commands cls) s (separate-AllSendable cls range) reliable,
    approach_ok home_on_approach b,
    un_jam_ok b,
    send_commands_succeed bus (press_commands cls) s (press-AllSendable cls range) reliable,
    send_commands_succeed bus (unpress_commands cls) s (unpress-AllSendable cls range) reliable,
  )
