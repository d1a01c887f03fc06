-- ===== src/Smith/Motor/Layer/Range.antt =====
-- The ranges of a layer's settings, and the single commands that `Send` then does not refuse.
use ember_firmware.Prelude.{
  ℕ, zero, suc, ◌*◌, ◌/◌, ◌^◌, ◌<◌, ◌≡◌, refl, ◌⊎◌, inl, inr, Bool, true, false, List, ◌∷◌, arith,
  if◌then◌else◌,
}
use ember_firmware.Prelude.Int.{ℤ, pos, negsuc}
use ember_firmware.Avr.Codes.{rot_settings_reg, rot_action_reg, z_settings_reg, z_action_reg}
use ember_firmware.Smith.MotorCommand.{MotorCommand, is_zero}
use ember_firmware.Smith.Delivery.Bytes.{IsSendable, AllSendable}
use ember_firmware.Smith.Motor.Layer.{
  CurrentLayerSettings, negated, times, scaled_rotation, minus, command, interrupt_command,
  unless_zero,
}

-- From 1 to below the bound.
abbrev pub IsRate : ℤ → ℕ → Type 0
IsRate (pos n) bound = (0 < n) × (n < bound)
IsRate (negsuc n) bound = ⊥

-- Below the bound in either direction.
abbrev pub IsAmount : ℤ → ℕ → Type 0
IsAmount (pos n) bound = n < bound
IsAmount (negsuc n) bound = suc n < bound

-- Jerks and speeds are positive; the products and differences that are sent fit an int32_t.
pub record InRange (cls : CurrentLayerSettings) : Type 0 where
  pub separation_rot_jerk : IsRate cls.separation_rot_jerk (2 ^ 31)
  pub separation_rpm : IsRate cls.separation_rpm 500000
  pub separation_z_jerk : IsRate cls.separation_z_jerk (2 ^ 31)
  pub separation_speed : IsRate cls.separation_microns_per_sec 30000000
  pub approach_rot_jerk : IsRate cls.approach_rot_jerk (2 ^ 31)
  pub approach_rpm : IsRate cls.approach_rpm 500000
  pub approach_z_jerk : IsRate cls.approach_z_jerk (2 ^ 31)
  pub approach_speed : IsRate cls.approach_microns_per_sec 30000000
  pub press_speed : IsRate cls.press_microns_per_sec 30000000
  pub unpress_speed : IsRate cls.unpress_microns_per_sec 30000000
  pub rotation : IsAmount cls.rotation_milli_degrees (2 ^ 30)
  pub lift : IsAmount cls.z_lift_microns (2 ^ 30)
  pub thickness : IsAmount cls.layer_thickness_microns (2 ^ 30)
  pub press : IsAmount cls.press_microns (2 ^ 30)

pub setting-IsSendable :
    (register cmd : ℕ) (value : ℤ)
    → (register ≡ rot_settings_reg) ⊎ (register ≡ z_settings_reg)
    → cmd < 256
    → IsRate value (2 ^ 31)
    → IsSendable (command register cmd value)
setting-IsSendable register cmd (negsuc n) r c h = absurd h
setting-IsSendable register cmd (pos n) r c h = record {
  cmd_lt = c;
  value_int = h.1;
  kind = inr (ground arith, ground arith);
  not_negative = λ e. refl;
}

pub action-IsSendable :
    (register cmd : ℕ) (value : ℤ)
    → (register ≡ rot_action_reg) ⊎ (register ≡ z_action_reg)
    → cmd < 256
    → IsAmount value (2 ^ 31)
    → is_zero value ≡ false
    → IsSendable (command register cmd value)
action-IsSendable register cmd (pos n) r c h nz = record {
  cmd_lt = c;
  value_int = h;
  kind = inr (ground arith, nz);
  not_negative = λ e. refl;
}
action-IsSendable register cmd (negsuc n) r c h nz = record {
  cmd_lt = c;
  value_int = omega (arith, h);
  kind = inr (ground arith, nz);
  not_negative = λ e. ground arith;
}

pub interrupt-IsSendable : IsSendable interrupt_command
interrupt-IsSendable = record {
  cmd_lt = omega arith;
  value_int = omega arith;
  kind = inl (refl, (omega arith, omega arith));
  not_negative = λ e. refl;
}

pub skipped-AllSendable :
    (skipped : Bool) (c : MotorCommand) (rest : List MotorCommand)
    → (skipped ≡ false → IsSendable c)
    → AllSendable rest
    → AllSendable (if skipped then rest else c ∷ rest)
skipped-AllSendable true c rest one others = others
skipped-AllSendable false c rest one others = (one refl, others)

pub unless_zero-AllSendable :
    (amount : ℤ) (c : MotorCommand) (rest : List MotorCommand)
    → (is_zero amount ≡ false → IsSendable c)
    → AllSendable rest
    → AllSendable (unless_zero amount c rest)
unless_zero-AllSendable amount c rest one others =
    skipped-AllSendable (is_zero amount) c rest one others

pub negated-IsAmount : (z : ℤ) (bound : ℕ) → IsAmount z bound → IsAmount (negated z) bound
negated-IsAmount (pos zero) bound h = h
negated-IsAmount (pos (suc n)) bound h = h
negated-IsAmount (negsuc n) bound h = h

pub negated_nonzero : (z : ℤ) → is_zero z ≡ false → is_zero (negated z) ≡ false
negated_nonzero (pos zero) h = h
negated_nonzero (pos (suc n)) h = refl
negated_nonzero (negsuc n) h = ground arith

pub rotation-IsAmount : (z : ℤ) → IsAmount z (2 ^ 30) → IsAmount (scaled_rotation z) (2 ^ 30)
rotation-IsAmount (pos n) h = omega (arith, h)
rotation-IsAmount (negsuc n) h = negated-IsAmount (pos (suc n / 100)) (2 ^ 30) (omega (arith, h))

pub larger : (z : ℤ) → IsAmount z (2 ^ 30) → IsAmount z (2 ^ 31)
larger (pos n) h = omega (arith, h)
larger (negsuc n) h = omega (arith, h)

pub twice-IsAmount : (z : ℤ) → IsAmount z (2 ^ 30) → IsAmount (times 2 z) (2 ^ 31)
twice-IsAmount (pos n) h = omega (arith, h)
twice-IsAmount (negsuc n) h = negated-IsAmount (pos (2 * suc n)) (2 ^ 31) (omega (arith, h))

pub twice_nonzero : (z : ℤ) → is_zero z ≡ false → is_zero (times 2 z) ≡ false
twice_nonzero (pos n) h = ground arith
twice_nonzero (negsuc n) h = negated_nonzero (pos (2 * suc n)) (ground arith)

pub minus-IsAmount :
    (y z : ℤ) → IsAmount y (2 ^ 30) → IsAmount z (2 ^ 30) → IsAmount (minus y z) (2 ^ 31)
minus-IsAmount (pos m) (pos n) h k = ground arith
minus-IsAmount (pos m) (negsuc n) h k = omega (arith, h, k)
minus-IsAmount (negsuc m) (pos n) h k = omega (arith, h, k)
minus-IsAmount (negsuc m) (negsuc n) h k = ground arith

pub rpm-IsRate : (z : ℤ) → IsRate z 500000 → IsRate (times 3600 z) (2 ^ 31)
rpm-IsRate (negsuc n) h = absurd h
rpm-IsRate (pos n) h = (omega (arith, h.0), omega (arith, h.1))

pub z_speed-IsRate : (z : ℤ) → IsRate z 30000000 → IsRate (times 60 z) (2 ^ 31)
z_speed-IsRate (negsuc n) h = absurd h
z_speed-IsRate (pos n) h = (omega (arith, h.0), omega (arith, h.1))
