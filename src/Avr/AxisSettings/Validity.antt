-- ===== src/Avr/AxisSettings/Validity.antt =====
-- When the settings of an axis are complete.
use ember_firmware.Prelude.{
  ℕ, ◌+◌, ◌-◌, ◌*◌, ◌^◌, ◌≤◌, ◌<◌, ◌≡◌, refl, ◌≢◌, ◌⊎◌, zero, suc, inl, inr, true, false, arith,
  ltb,
}
use native.Mathlib.Nat.{one-le-pow}
use ember_firmware.Prelude.Int.{ℤ, pos, not_positive}
use ember_firmware.Avr.Codes.{status_success}
use ember_firmware.Avr.Platform.{Floats}
use ember_firmware.Avr.AxisSettings.{
  AxisSettings, unset, set_step_angle, set_units_per_revolution, set_max_jerk, set_speed,
  set_microstepping_mode, validate,
}

-- The five calls that configure an axis, in the order of the parameters.
unfoldable pub configure :
    (floats : Floats) → AxisSettings floats.Float → ℤ → ℤ → ℤ → ℤ → ℕ → AxisSettings floats.Float
configure floats s angle units jerk speed mode =
    let s1 = (set_step_angle floats s angle).1 in
    let s2 = (set_units_per_revolution floats s1 units).1 in
    let s3 = (set_max_jerk floats s2 jerk).1 in
    let s4 = (set_speed floats s3 speed).1 in (set_microstepping_mode floats s4 mode).1

module _ (floats : Floats) where
  open floats use {Float, of_int, mul, div, eq}

  -- The microstepping modes 1 to 6 are accepted and set the factor to half of 2 to the mode; any
  -- other mode is refused and changes nothing.
  pub set_microstepping_mode_lem :
      (s : AxisSettings Float) (mode : ℕ)
      → let (status, s') = set_microstepping_mode floats s mode in
        ((status ≡ status_success)
          × (1 ≤ mode)
          × (mode ≤ 6)
          × (s'.microstepping_factor * 2 ≡ 2 ^ mode))
        ⊎ ((status ≢ status_success) × ((mode ≡ 0) ⊎ (6 < mode)) × (s' ≡ s))
  unfolding set_microstepping_mode
  set_microstepping_mode_lem s zero = inr ((λ e. cc), inl refl, refl)
  set_microstepping_mode_lem s (suc zero) = inl (refl, omega arith, omega arith, refl)
  set_microstepping_mode_lem s (suc (suc zero)) = inl (refl, omega arith, omega arith, refl)
  set_microstepping_mode_lem s (suc (suc (suc zero))) = inl (refl, omega arith, omega arith, refl)
  set_microstepping_mode_lem s (suc (suc (suc (suc zero)))) =
      inl (refl, omega arith, omega arith, refl)
  set_microstepping_mode_lem s (suc (suc (suc (suc (suc zero))))) =
      inl (refl, omega arith, omega arith, refl)
  set_microstepping_mode_lem s (suc (suc (suc (suc (suc (suc zero)))))) =
      inl (refl, omega arith, omega arith, refl)
  set_microstepping_mode_lem s (suc (suc (suc (suc (suc (suc (suc n))))))) =
      let over : ltb 6 (7 + n) ≡ true = ground arith in
      inr (ground arith, inr (omega arith), ground arith)

  -- Settings that were all set to positive values, with a microstepping mode from 1 to 6, are
  -- valid, in an arithmetic where a positive integer, its thousandth and its millionfold differ
  -- from 0.
  pub validate-configure :
      ((n : ℤ) → not_positive n ≡ false → eq (of_int n) (unset floats) ≡ false)
      → ((n : ℤ)
          → not_positive n ≡ false
          → eq (div (of_int n) (of_int (pos 1000))) (unset floats) ≡ false)
      → ((n : ℤ)
          → not_positive n ≡ false
          → eq (mul (of_int n) (of_int (pos 1000000))) (unset floats) ≡ false)
      → (s : AxisSettings Float) (angle units jerk speed : ℤ) (mode : ℕ)
      → not_positive angle ≡ false
      → not_positive units ≡ false
      → not_positive jerk ≡ false
      → not_positive speed ≡ false
      → 1 ≤ mode
      → mode ≤ 6
      → validate floats (configure floats s angle units jerk speed mode) ≡ status_success
  unfolding configure validate set_step_angle set_units_per_revolution set_max_jerk set_speed
      set_microstepping_mode
  validate-configure whole thousandth million s angle units jerk speed mode ha hu hj hs lo hi =
      ground
        (arith, whole units, whole speed, thousandth angle, million jerk, one-le-pow (mode - 1) 2)
