-- ===== src/Printer/Chart/Run/Steps.antt =====
-- The steps of a print: an environment that does what each state waits for, and the rank of the states
-- within a layer.
use ember_firmware.Prelude.{List, [], ap, refl, some, subst, suc, sym, true, zero, ℕ, ◌∙◌, ◌∷◌, ◌≡◌}
use ember_firmware.Printer.Codes.{
  PrintEngineState, PrinterEvent, approaching, calibrating, ev_delay_ended, ev_exposed,
  ev_right_button, exposing, moving_to_start_position, pre_exposure_delay, press_delay, pressing,
  separating, unpressing,
}
use ember_firmware.Printer.Devices.{Devices}
use ember_firmware.Printer.Engine.{Engine}
use ember_firmware.Printer.Reactions.{Handled, transit}
use ember_firmware.Printer.Reactions.Printing.{reactions}
use ember_firmware.Printer.Chart.{
  Machine, Statechart, conclude, contexts, dispatch, enter_all, entered_states, last_or, leave_all,
  left_states, motion_completed_successfully, move, process_event, settle,
}

module _ (devices : Devices) (chart : Statechart devices) where
  open devices use {doubles, World}

  -- The move of a reaction, from an active state to a target.
  abbrev pub arrive :
      PrintEngineState → PrintEngineState → PrintEngineState → Engine devices → Engine devices
  arrive active source target m =
      enter_all devices (entered_states source target)
        (leave_all devices (left_states active source target) m)

  own_reaction :
      (a : Machine devices) (s t : PrintEngineState) (ss : List PrintEngineState) (e : PrinterEvent)
      (h : Engine devices → Handled devices) (m : Engine devices)
      → reactions devices s e ≡ some h
      → h a.printer ≡ (transit t, m)
      → dispatch devices chart.within (s ∷ ss) e a ≡ move devices s t (record a { printer = m })
  unfolding dispatch conclude
  own_reaction a s t ss e h m q r =
      rw (dispatch, q)
        (ap
          (λ (x : Handled devices).
            conclude devices chart.within s x.0 (record a { printer = x.1 }))
          r)

  -- The reaction of the active state itself.
  pub reacts :
      (a : Machine devices) (s t : PrintEngineState) (e : PrinterEvent)
      (h : Engine devices → Handled devices) (m : Engine devices)
      → a.state ≡ s
      → reactions devices s e ≡ some h
      → h a.printer ≡ (transit t, m)
      → ((chart.process e a).state ≡ last_or t (entered_states s t))
        × ((chart.process e a).printer ≡ arrive s s t m)
  unfolding move
  reacts a s t e h m p q r =
      subst
        (λ (b : Machine devices).
          (b.state ≡ last_or t (entered_states s t)) × (b.printer ≡ arrive s s t m))
        (sym moved)
        (
          refl,
          ap (λ x. enter_all devices (entered_states s t) (leave_all devices (left_states x s t) m))
              p,
        )
    where
      moved : chart.process e a ≡ move devices s t (record a { printer = m })
      moved =
          chart.documented e a
          ∙ ap (λ x. dispatch devices chart.within (x ∷ contexts x) e a) p
          ∙ own_reaction a s t (contexts s) e h m q r

  pub settle_quiet :
      (fuel : ℕ) (a : Machine devices) → a.printer.posted ≡ [] → settle devices chart fuel a ≡ a
  unfolding settle
  settle_quiet zero a q = refl
  settle_quiet (suc fuel) a q = rw q refl

  pub settle_one :
      (fuel : ℕ) (a : Machine devices) (e : PrinterEvent)
      → a.printer.posted ≡ e ∷ []
      → settle devices chart (suc fuel) a
        ≡ settle devices chart fuel
            (chart.process e (record a { printer = record a.printer { posted = [] } }))
  unfolding settle
  settle_one fuel a e q = rw q refl

  -- What the environment does in a state: motions complete, timers run out, the rotation sensor
  -- interrupts before a separation completes, and the right button is pressed to end the calibration.
  unfoldable pub advance_in : PrintEngineState → ℕ → Machine devices → Machine devices
  advance_in pressing fuel a = motion_completed_successfully devices chart fuel a
  advance_in unpressing fuel a = motion_completed_successfully devices chart fuel a
  advance_in separating fuel a =
      motion_completed_successfully devices chart fuel
        (record a { printer = record a.printer { got_rotation_interrupt = true } })
  advance_in approaching fuel a = motion_completed_successfully devices chart fuel a
  advance_in press_delay fuel a = process_event devices chart fuel ev_delay_ended a
  advance_in pre_exposure_delay fuel a = process_event devices chart fuel ev_delay_ended a
  advance_in exposing fuel a = process_event devices chart fuel ev_exposed a
  advance_in moving_to_start_position fuel a = motion_completed_successfully devices chart fuel a
  advance_in calibrating fuel a = process_event devices chart fuel ev_right_button a
  advance_in _ fuel a = a

  abbrev pub advance : ℕ → Machine devices → Machine devices
  advance fuel a = advance_in a.state fuel a

  unfoldable pub run : ℕ → ℕ → Machine devices → Machine devices
  run zero fuel a = a
  run (suc n) fuel a = run n fuel (advance fuel a)
