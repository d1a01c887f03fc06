-- ===== src/Avr/StateMachine/Outcome.antt =====
-- What each code segment, and so each event, does to the parts of the state that later events
-- depend on.
use ember_firmware.Prelude.{◌≡◌, refl, ◌∙◌, ap, Bool, true, false, List, [], ◌∷◌, arith}
use ember_firmware.Avr.Codes.{State, Event, EventData}
use ember_firmware.Avr.Platform.{Platform}
use ember_firmware.Avr.Firmware.{FirmwareOn}
use ember_firmware.Avr.Motors
use ember_firmware.Avr.StateMachine.Reaction.{
  Action, Reaction, stay, go, set_reset_flag, dequeue_event, enqueue_event, clear_event_queue,
  disable_motor_drivers, enable_motor_drivers,
}
use ember_firmware.Avr.StateMachine.Step.{enqueue, dequeue, perform, perform_all, carry_out}
use ember_firmware.Avr.StateMachine.Effects.{quiet-Untouched}

-- The driver enable pin after a code segment.
abbrev pub drivers_after : Action → Bool → Bool
drivers_after disable_motor_drivers high = true
drivers_after enable_motor_drivers high = false
drivers_after _ high = high

-- The reset flag after a code segment.
abbrev pub reset_after : Action → Bool → Bool
reset_after set_reset_flag flag = true
reset_after _ flag = flag

abbrev pub over {ℓ} : {A : Type ℓ} → (Action → A → A) → List Action → A → A
over f [] x = x
over f (a ∷ actions) x = over f actions (f a x)

abbrev pub actions_of : Reaction → List Action
actions_of (stay actions) = actions
actions_of (go target actions) = actions

abbrev pub target_of : Reaction → State → State
target_of (stay actions) s = s
target_of (go target actions) s = target

module _ (platform : Platform) (code : Event) (d : EventData) where
  sm_state-perform :
      (a : Action) (fw : FirmwareOn platform)
      → (perform platform code d a fw).mc.sm_state ≡ fw.mc.sm_state
  unfolding perform enqueue dequeue Motors.enable Motors.disable
  sm_state-perform set_reset_flag fw = ground arith
  sm_state-perform dequeue_event fw = ground arith
  sm_state-perform enqueue_event fw = ground arith
  sm_state-perform clear_event_queue fw = ground arith
  sm_state-perform disable_motor_drivers fw = ground arith
  sm_state-perform enable_motor_drivers fw = ground arith
  sm_state-perform a fw = (quiet-Untouched platform code d a fw refl).sm_state

  reset-perform :
      (a : Action) (fw : FirmwareOn platform)
      → (perform platform code d a fw).mc.reset ≡ reset_after a fw.mc.reset
  unfolding perform enqueue dequeue Motors.enable Motors.disable
  reset-perform set_reset_flag fw = ground arith
  reset-perform dequeue_event fw = ground arith
  reset-perform enqueue_event fw = ground arith
  reset-perform clear_event_queue fw = ground arith
  reset-perform disable_motor_drivers fw = ground arith
  reset-perform enable_motor_drivers fw = ground arith
  reset-perform a fw = (quiet-Untouched platform code d a fw refl).reset

  drivers-perform :
      (a : Action) (fw : FirmwareOn platform)
      → (perform platform code d a fw).pins.motor_enable_high
        ≡ drivers_after a fw.pins.motor_enable_high
  unfolding perform enqueue dequeue Motors.enable Motors.disable
  drivers-perform set_reset_flag fw = ground arith
  drivers-perform dequeue_event fw = ground arith
  drivers-perform enqueue_event fw = ground arith
  drivers-perform clear_event_queue fw = ground arith
  drivers-perform disable_motor_drivers fw = ground arith
  drivers-perform enable_motor_drivers fw = ground arith
  drivers-perform a fw = (quiet-Untouched platform code d a fw refl).drivers

  commands-perform :
      (a : Action) (fw : FirmwareOn platform)
      → (perform platform code d a fw).commands ≡ fw.commands
  unfolding perform enqueue dequeue Motors.enable Motors.disable
  commands-perform set_reset_flag fw = ground arith
  commands-perform dequeue_event fw = ground arith
  commands-perform enqueue_event fw = ground arith
  commands-perform clear_event_queue fw = ground arith
  commands-perform disable_motor_drivers fw = ground arith
  commands-perform enable_motor_drivers fw = ground arith
  commands-perform a fw = (quiet-Untouched platform code d a fw refl).commands

  limit-perform :
      (a : Action) (fw : FirmwareOn platform)
      → (perform platform code d a fw).limit_switch_hit ≡ fw.limit_switch_hit
  unfolding perform enqueue dequeue Motors.enable Motors.disable
  limit-perform set_reset_flag fw = ground arith
  limit-perform dequeue_event fw = ground arith
  limit-perform enqueue_event fw = ground arith
  limit-perform clear_event_queue fw = ground arith
  limit-perform disable_motor_drivers fw = ground arith
  limit-perform enable_motor_drivers fw = ground arith
  limit-perform a fw = (quiet-Untouched platform code d a fw refl).limit

  pub sm_state-perform_all :
      (actions : List Action) (fw : FirmwareOn platform)
      → (perform_all platform code d actions fw).mc.sm_state ≡ fw.mc.sm_state
  unfolding perform_all
  sm_state-perform_all [] fw = refl
  sm_state-perform_all (a ∷ actions) fw =
      sm_state-perform_all actions (perform platform code d a fw) ∙ sm_state-perform a fw

  pub reset-perform_all :
      (actions : List Action) (fw : FirmwareOn platform)
      → (perform_all platform code d actions fw).mc.reset ≡ over reset_after actions fw.mc.reset
  unfolding perform_all
  reset-perform_all [] fw = refl
  reset-perform_all (a ∷ actions) fw =
      reset-perform_all actions (perform platform code d a fw)
      ∙ ap (over reset_after actions) (reset-perform a fw)

  pub drivers-perform_all :
      (actions : List Action) (fw : FirmwareOn platform)
      → (perform_all platform code d actions fw).pins.motor_enable_high
        ≡ over drivers_after actions fw.pins.motor_enable_high
  unfolding perform_all
  drivers-perform_all [] fw = refl
  drivers-perform_all (a ∷ actions) fw =
      drivers-perform_all actions (perform platform code d a fw)
      ∙ ap (over drivers_after actions) (drivers-perform a fw)

  pub commands-perform_all :
      (actions : List Action) (fw : FirmwareOn platform)
      → (perform_all platform code d actions fw).commands ≡ fw.commands
  unfolding perform_all
  commands-perform_all [] fw = refl
  commands-perform_all (a ∷ actions) fw =
      commands-perform_all actions (perform platform code d a fw) ∙ commands-perform a fw

  pub limit-perform_all :
      (actions : List Action) (fw : FirmwareOn platform)
      → (perform_all platform code d actions fw).limit_switch_hit ≡ fw.limit_switch_hit
  unfolding perform_all
  limit-perform_all [] fw = refl
  limit-perform_all (a ∷ actions) fw =
      limit-perform_all actions (perform platform code d a fw) ∙ limit-perform a fw

  pub sm_state-carry_out :
      (r : Reaction) (fw : FirmwareOn platform)
      → (carry_out platform code d r fw).mc.sm_state ≡ target_of r fw.mc.sm_state
  unfolding carry_out
  sm_state-carry_out (stay actions) fw = sm_state-perform_all actions fw
  sm_state-carry_out (go target actions) fw = sm_state-perform_all actions _

  pub reset-carry_out :
      (r : Reaction) (fw : FirmwareOn platform)
      → (carry_out platform code d r fw).mc.reset ≡ over reset_after (actions_of r) fw.mc.reset
  unfolding carry_out
  reset-carry_out (stay actions) fw = reset-perform_all actions fw
  reset-carry_out (go target actions) fw = reset-perform_all actions _

  pub drivers-carry_out :
      (r : Reaction) (fw : FirmwareOn platform)
      → (carry_out platform code d r fw).pins.motor_enable_high
        ≡ over drivers_after (actions_of r) fw.pins.motor_enable_high
  unfolding carry_out
  drivers-carry_out (stay actions) fw = drivers-perform_all actions fw
  drivers-carry_out (go target actions) fw = drivers-perform_all actions _

  pub commands-carry_out :
      (r : Reaction) (fw : FirmwareOn platform)
      → (carry_out platform code d r fw).commands ≡ fw.commands
  unfolding carry_out
  commands-carry_out (stay actions) fw = commands-perform_all actions fw
  commands-carry_out (go target actions) fw = commands-perform_all actions _
