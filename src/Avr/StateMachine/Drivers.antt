-- ===== src/Avr/StateMachine/Drivers.antt =====
-- The motor drivers are powered in the states that can move an axis, and only in these.
use ember_firmware.Prelude.{◌≡◌, ◌⊎◌, Bool, true, false, arith}
use ember_firmware.Avr.Codes.{
  State, undefined, homing_z_axis, error, homing_z_axis_paused, homing_r_axis,
  decelerating_for_completion, homing_r_axis_decelerating_for_resume, moving_axis,
  homing_r_axis_paused, moving_axis_decelerating_for_resume, moving_axis_paused,
  homing_r_axis_decelerating_for_pause, ready_for_action, ready, decelerating_for_sequence_pause,
  waiting_for_interrupt_request, homing_z_axis_decelerating_for_resume, decelerating_after_clear,
  disabled, moving_axis_decelerating_for_pause, homing_z_axis_decelerating_for_pause,
  decelerating_for_sequence_resume, sequence_paused, Event, EventData,
}
use ember_firmware.Avr.Platform.{Platform}
use ember_firmware.Avr.Firmware.{FirmwareOn}
use ember_firmware.Avr.StateMachine.Step.{react, handle_event}
use ember_firmware.Avr.StateMachine.Outcome.{
  drivers_after, reset_after, over, actions_of, target_of, sm_state-carry_out, reset-carry_out,
  drivers-carry_out,
}

-- What the enable pin must be in a state: high (drivers off) in `error`, in a state code that is
-- none of the 22, and in `disabled` unless a reset is pending; low in every other state.
abbrev pub PinFits : State → Bool → Bool → Type 0
PinFits error high reset = high ≡ true
PinFits (undefined n) high reset = high ≡ true
PinFits disabled high reset = (high ≡ true) ⊎ (reset ≡ true)
PinFits _ high reset = high ≡ false

abbrev pub DriversFit : (platform : Platform) → FirmwareOn platform → Type 0
DriversFit platform fw = PinFits fw.mc.sm_state fw.pins.motor_enable_high fw.mc.reset

table :
    (s : State) (e : Event) (high reset : Bool)
    → PinFits s high reset
    → reset ≡ false
    → let r = react s e in
      PinFits
        (target_of r s)
        (over drivers_after (actions_of r) high)
        (over reset_after (actions_of r) reset)
unfolding react
table homing_z_axis e high reset fits clear = ground arith
table error e high reset fits clear = ground arith
table homing_z_axis_paused e high reset fits clear = ground arith
table homing_r_axis e high reset fits clear = ground arith
table decelerating_for_completion e high reset fits clear = ground arith
table homing_r_axis_decelerating_for_resume e high reset fits clear = ground arith
table moving_axis e high reset fits clear = ground arith
table homing_r_axis_paused e high reset fits clear = ground arith
table moving_axis_decelerating_for_resume e high reset fits clear = ground arith
table moving_axis_paused e high reset fits clear = ground arith
table homing_r_axis_decelerating_for_pause e high reset fits clear = ground arith
table ready_for_action e high reset fits clear = ground arith
table ready e high reset fits clear = ground arith
table decelerating_for_sequence_pause e high reset fits clear = ground arith
table waiting_for_interrupt_request e high reset fits clear = ground arith
table homing_z_axis_decelerating_for_resume e high reset fits clear = ground arith
table decelerating_after_clear e high reset fits clear = ground arith
table disabled e high reset fits clear = ground arith
table moving_axis_decelerating_for_pause e high reset fits clear = ground arith
table homing_z_axis_decelerating_for_pause e high reset fits clear = ground arith
table decelerating_for_sequence_resume e high reset fits clear = ground arith
table sequence_paused e high reset fits clear = ground arith
table (undefined n) e high reset fits clear = fits

-- Every event in every state leaves the motor drivers as the new state wants them (off in Error,
-- off in Disabled unless a reset is pending, on in every other of the 22 states), if they were so
-- before and no reset was pending.
pub handle_event-DriversFit :
    (platform : Platform) (d : EventData) (e : Event) (fw : FirmwareOn platform)
    → DriversFit platform fw
    → fw.mc.reset ≡ false
    → DriversFit platform (handle_event platform d e fw)
unfolding handle_event
handle_event-DriversFit platform d e fw fits clear =
    rw
      (
        sm_state-carry_out platform e d (react fw.mc.sm_state e) fw,
        drivers-carry_out platform e d (react fw.mc.sm_state e) fw,
        reset-carry_out platform e d (react fw.mc.sm_state e) fw,
      )
      (table fw.mc.sm_state e fw.pins.motor_enable_high fw.mc.reset fits clear)
