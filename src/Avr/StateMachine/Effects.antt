-- ===== src/Avr/StateMachine/Effects.antt =====
-- What the code segments of the state machine leave alone.
use ember_firmware.Prelude.{
  ℕ, ◌≡◌, ◌∙◌, Bool-cases, inl, inr, Bool, true, false, arith, if◌then◌else◌, ◌==◌,
}
use ember_firmware.Prelude.Int.{ℤ}
use ember_firmware.Avr.Codes.{
  Event, EventData, Status, status_success, step_angle, units_per_rev, microstepping, jerk, speed,
}
use ember_firmware.Avr.Platform.{Axis, z_axis, r_axis, Platform}
use ember_firmware.Avr.AxisSettings.{AxisSettings}
use ember_firmware.Avr.AxisSettings
use ember_firmware.Avr.Firmware.{Pins, FirmwareOn}
use ember_firmware.Avr.Motors
use ember_firmware.Avr.Controller
use ember_firmware.Avr.StateMachine.Reaction.{
  Action, set_reset_flag, dequeue_event, enqueue_event, begin_hold, end_hold, end_motion,
  clear_event_queue, disable_motor_drivers, enable_motor_drivers, generate_interrupt, home_z_axis,
  home_r_axis, move_z_axis, move_r_axis, set_z_axis_setting, set_r_axis_setting,
  state_machine_error,
}
use ember_firmware.Avr.StateMachine.Step.{check_status, perform}

-- The code segments that neither queue or take events, nor switch the drivers, nor ask for a reset.
abbrev pub is_quiet : Action → Bool
is_quiet begin_hold = true
is_quiet end_hold = true
is_quiet end_motion = true
is_quiet generate_interrupt = true
is_quiet home_z_axis = true
is_quiet home_r_axis = true
is_quiet move_z_axis = true
is_quiet move_r_axis = true
is_quiet set_z_axis_setting = true
is_quiet set_r_axis_setting = true
is_quiet state_machine_error = true
is_quiet _ = false

module _ (platform : Platform) where
  -- The parts of the state that decide how later events are handled.
  pub record Untouched (old new : FirmwareOn platform) : Type 0 where
    pub sm_state : new.mc.sm_state ≡ old.mc.sm_state
    pub reset : new.mc.reset ≡ old.mc.reset
    pub queued_event : new.mc.queued_event ≡ old.mc.queued_event
    pub queued_code : new.mc.queued_event_code ≡ old.mc.queued_event_code
    pub queue : new.queue ≡ old.queue
    pub commands : new.commands ≡ old.commands
    pub limit : new.limit_switch_hit ≡ old.limit_switch_hit
    pub drivers : new.pins.motor_enable_high ≡ old.pins.motor_enable_high

  Untouched-refl : (fw : FirmwareOn platform) → Untouched fw fw
  Untouched-refl fw = ground arith

  Untouched-trans : (a b c : FirmwareOn platform) → Untouched a b → Untouched b c → Untouched a c
  Untouched-trans a b c u v = record {
    sm_state = v.sm_state ∙ u.sm_state;
    reset = v.reset ∙ u.reset;
    queued_event = v.queued_event ∙ u.queued_event;
    queued_code = v.queued_code ∙ u.queued_code;
    queue = v.queue ∙ u.queue;
    commands = v.commands ∙ u.commands;
    limit = v.limit ∙ u.limit;
    drivers = v.drivers ∙ u.drivers;
  }

  flagged :
      (fw new : FirmwareOn platform) (e : Status)
      → Untouched fw new
      → Untouched fw (record new { mc = record (new.mc) { status = e; error = true } })
  flagged fw new e u = record {
    sm_state = u.sm_state;
    reset = u.reset;
    queued_event = u.queued_event;
    queued_code = u.queued_code;
    queue = u.queue;
    commands = u.commands;
    limit = u.limit;
    drivers = u.drivers;
  }

  check_status-Untouched :
      (fw : FirmwareOn platform) (r : Status × FirmwareOn platform)
      → Untouched fw r.1
      → Untouched fw (check_status platform r)
  check_status-Untouched fw (status_success, new) u = u
  check_status-Untouched fw (e, new) u = flagged fw new e u

  return_on_error-Untouched :
      {S : Type 0} (fw failed : FirmwareOn platform) (r : Status × S)
      (k : S → Status × FirmwareOn platform)
      → Untouched fw failed
      → ((s : S) → Untouched fw (k s).1)
      → Untouched fw (Controller.return_on_error r failed k).1
  return_on_error-Untouched fw failed (status_success, s) k u h = h s
  return_on_error-Untouched fw failed (e, s) k u h = u

  plan_move-Untouched :
      (axis : Axis) (z : ℤ) (s : AxisSettings platform.floats.Float) (fw : FirmwareOn platform)
      → Untouched fw (Controller.plan_move platform axis z s fw).1
  unfolding Controller.plan_move
  plan_move-Untouched axis z s fw = ground arith

  move-Untouched :
      (axis : Axis) (z : ℤ) (s : AxisSettings platform.floats.Float) (fw : FirmwareOn platform)
      → Untouched fw (Controller.move platform axis z s fw).1
  unfolding Controller.move
  move-Untouched axis z s fw = run (AxisSettings.validate platform.floats s)
    where
      run :
          (e : Status)
          → Untouched fw
              (Controller.return_on_error (e, fw) fw (Controller.plan_move platform axis z s)).1
      run status_success = plan_move-Untouched axis z s fw
      run e = Untouched-refl fw

  interrupt-Untouched :
      (axis : Axis) (fw : FirmwareOn platform)
      → Untouched fw (record fw { pins = Controller.enable_limit_interrupt platform axis fw.pins })
  interrupt-Untouched z_axis fw = ground arith
  interrupt-Untouched r_axis fw = ground arith

  home-Untouched :
      (axis : Axis) (z : ℤ) (fw : FirmwareOn platform)
      → Untouched fw (Controller.home platform axis z fw).1
  unfolding Controller.home
  home-Untouched axis z fw = elim (Bool-cases (Controller.limit_hit platform axis fw.pins)) [
    | inl hit ↦ rw hit (ground arith)
    | inr clear ↦ rw clear (
        Untouched-trans _ _ _ (interrupt-Untouched axis fw) (
          move-Untouched axis z (Controller.settings_of platform axis fw.mc)
            (record fw { pins = Controller.enable_limit_interrupt platform axis fw.pins })))
  ]

  pins-mode :
      (p : Pins) (n : ℕ)
      → (Motors.set_microstepping_mode p n).motor_enable_high ≡ p.motor_enable_high
  unfolding Motors.set_microstepping_mode
  pins-mode p n = ground arith

  store-Untouched :
      (axis : Axis) (fw new : FirmwareOn platform) (s : AxisSettings platform.floats.Float)
      → Untouched fw new
      → Untouched fw (Controller.store platform axis new s).1
  unfolding Controller.store
  store-Untouched z_axis fw new s u = ground arith
  store-Untouched r_axis fw new s u = ground arith

  store_pulses-Untouched :
      (axis : Axis) (fw new : FirmwareOn platform) (s : AxisSettings platform.floats.Float)
      → Untouched fw new
      → Untouched fw (Controller.store_pulses platform axis new s).1
  unfolding Controller.store_pulses
  store_pulses-Untouched z_axis fw new s u = ground arith
  store_pulses-Untouched r_axis fw new s u = ground arith

  mode-Untouched :
      (n : ℕ) (fw : FirmwareOn platform)
      → Untouched fw (record fw { pins = Motors.set_microstepping_mode fw.pins n })
  mode-Untouched n fw = ground (arith, pins-mode fw.pins n)

  record Keeps (fw : FirmwareOn platform) (r : Status × FirmwareOn platform) : Type 0 where
    kept : Untouched fw r.1

  accepted :
      (axis : Axis) (fw new : FirmwareOn platform) (r : Status × AxisSettings platform.floats.Float)
      → Untouched fw new
      → Keeps fw (Controller.return_on_error r fw (Controller.store_pulses platform axis new))
  accepted axis fw new r u = record {
    kept =
        return_on_error-Untouched fw fw r (Controller.store_pulses platform axis new)
          (Untouched-refl fw) (λ s. store_pulses-Untouched axis fw new s u);
  }

  accepted_quietly :
      (axis : Axis) (fw : FirmwareOn platform) (r : Status × AxisSettings platform.floats.Float)
      → Keeps fw (Controller.return_on_error r fw (Controller.store platform axis fw))
  accepted_quietly axis fw r = record {
    kept =
        return_on_error-Untouched fw fw r (Controller.store platform axis fw) (Untouched-refl fw)
          (λ s. store-Untouched axis fw fw s (Untouched-refl fw));
  }

  either :
      (fw : FirmwareOn platform) (b : Bool) (x y : Status × FirmwareOn platform)
      → Keeps fw x
      → Keeps fw y
      → Keeps fw (if b then x else y)
  either fw true x y u v = u
  either fw false x y u v = v

  update-Keeps :
      (axis : Axis) (d : EventData) (fw : FirmwareOn platform)
      → Keeps fw (Controller.update_settings platform axis d fw)
  unfolding Controller.update_settings
  update-Keeps axis d fw =
      either fw (d.command == step_angle) _ _
        (accepted axis fw fw (AxisSettings.set_step_angle floats s d.parameter) (Untouched-refl fw))
        (either fw (d.command == units_per_rev) _ _
          (accepted axis fw fw (AxisSettings.set_units_per_revolution floats s d.parameter)
            (Untouched-refl fw))
          (either fw (d.command == microstepping) _ _
            (accepted axis fw _ (AxisSettings.set_microstepping_mode floats s mode)
              (mode-Untouched mode fw))
            (either fw (d.command == jerk) _ _
              (accepted_quietly axis fw (AxisSettings.set_max_jerk floats s d.parameter))
              (either fw (d.command == speed) _ _
                (accepted_quietly axis fw (AxisSettings.set_speed floats s d.parameter))
                (record { kept = Untouched-refl fw })))))
    where
      open platform use {floats}

      s : AxisSettings platform.floats.Float
      s = Controller.settings_of platform axis fw.mc

      mode : ℕ
      mode = Controller.low_byte platform d.parameter

  update-Untouched :
      (axis : Axis) (d : EventData) (fw : FirmwareOn platform)
      → Untouched fw (Controller.update_settings platform axis d fw).1
  update-Untouched axis d fw = (update-Keeps axis d fw).kept

  pub quiet-Untouched :
      (code : Event) (d : EventData) (a : Action) (fw : FirmwareOn platform)
      → is_quiet a ≡ true
      → Untouched fw (perform platform code d a fw)
  unfolding perform Controller.end_motion Controller.generate_interrupt
  quiet-Untouched code d begin_hold fw q = ground arith
  quiet-Untouched code d end_hold fw q = ground arith
  quiet-Untouched code d end_motion fw q = ground arith
  quiet-Untouched code d generate_interrupt fw q = ground arith
  quiet-Untouched code d home_z_axis fw q =
      check_status-Untouched fw _ (home-Untouched z_axis d.parameter fw)
  quiet-Untouched code d home_r_axis fw q =
      check_status-Untouched fw _ (home-Untouched r_axis d.parameter fw)
  quiet-Untouched code d move_z_axis fw q =
      check_status-Untouched fw _ (move-Untouched z_axis d.parameter fw.mc.z_axis_settings fw)
  quiet-Untouched code d move_r_axis fw q =
      check_status-Untouched fw _ (move-Untouched r_axis d.parameter fw.mc.r_axis_settings fw)
  quiet-Untouched code d set_z_axis_setting fw q =
      check_status-Untouched fw _ (update-Untouched z_axis d fw)
  quiet-Untouched code d set_r_axis_setting fw q =
      check_status-Untouched fw _ (update-Untouched r_axis d fw)
  quiet-Untouched code d state_machine_error fw q = ground arith
  quiet-Untouched code d set_reset_flag fw q = cc
  quiet-Untouched code d dequeue_event fw q = cc
  quiet-Untouched code d enqueue_event fw q = cc
  quiet-Untouched code d clear_event_queue fw q = cc
  quiet-Untouched code d disable_motor_drivers fw q = cc
  quiet-Untouched code d enable_motor_drivers fw q = cc
