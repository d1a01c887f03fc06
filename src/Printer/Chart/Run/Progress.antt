-- ===== src/Printer/Chart/Run/Progress.antt =====
-- Every step of a print brings it nearer to its end.
use ember_firmware.Prelude.{
  Bool, Bool-cases, List, [], arith, false, inl, inr, refl, some, subst, sym, true, ℕ, ◌∙◌, ◌∷◌,
  ◌≡◌, ◌⊎◌,
}
use ember_firmware.Printer.Codes.{
  PrintEngineState, PrinterEvent, approach, approaching, ev_delay_ended, ev_exposed,
  ev_motion_completed, exposing, pre_exposure_delay, press_delay, pressing, separate, separating,
  un_press, unpressing,
}
use ember_firmware.Printer.Devices.{Devices}
use ember_firmware.Printer.Engine.{Engine, send_status}
use ember_firmware.Printer.Engine.Motion.{send_motor_command}
use ember_firmware.Printer.Engine.Layers.{
  got_rotation_interrupt, load_next_layer_image, more_layers, needs_pre_exposure_delay,
  needs_tray_deflection_pause,
}
use ember_firmware.Printer.Entry.{enter, leave}
use ember_firmware.Printer.Reactions.{Handled, transit}
use ember_firmware.Printer.Reactions.Printing.{
  exposed, exposing_reactions, pre_exposure_delay_reactions, press_delay_reactions,
  pressing_reactions, reactions, separating_motion_completed, separating_reactions,
  unpressing_reactions,
}
use ember_firmware.Printer.Chart.{
  Machine, Statechart, enter_all, entered_states, last_or, leave_all, motion_completed_successfully,
  process_event,
}
use ember_firmware.Printer.Chart.Run.{
  Common, Fine, enter_exposing-Common, enter_moving-Common, enter_pre_exposure_delay-Common,
  enter_press_delay-Common, leave_exposing-Common, load_next_layer_image-Common,
  send_motor_command-Common,
}
use ember_firmware.Printer.Chart.Run.Steps.{advance_in, arrive, reacts, settle_quiet}

module _ (devices : Devices) (fine : Fine devices) (chart : Statechart devices) where
  open devices use {doubles, World}

  -- A machine in a state, with what matters of a print.
  abbrev pub Landed : ℕ → ℕ → List ℕ → Bool → PrintEngineState → Machine devices → Type 0
  Landed n k ls moved t b = (b.state ≡ t) × Common devices n k ls moved b.printer

  -- The interrupt of the sensor is seen, with or without the detection of jams.
  turned_seen :
      (m : Engine devices)
      → m.got_rotation_interrupt ≡ true
      → got_rotation_interrupt devices m ≡ true
  unfolding got_rotation_interrupt
  turned_seen m h = ground arith

  -- A reaction that leads to a state where nothing is posted.
  pub land_with :
      (P : Engine devices → Type 0)
      → ((m : Engine devices) → P m → m.posted ≡ [])
      → (fuel : ℕ) (a : Machine devices) (s t u : PrintEngineState) (e : PrinterEvent)
        (h : Engine devices → Handled devices) (m : Engine devices)
      → a.state ≡ s
      → reactions devices s e ≡ some h
      → h a.printer ≡ (transit t, m)
      → last_or t (entered_states s t) ≡ u
      → P (arrive devices chart s s t m)
      → ((process_event devices chart fuel e a).state ≡ u)
        × P ((process_event devices chart fuel e a).printer)
  unfolding process_event
  land_with P calm fuel a s t u e h m p q r last c =
      rw (settle_quiet devices chart fuel (chart.process e a) (calm _ arrived))
        (there.0 ∙ last, arrived)
    where
      there :
          ((chart.process e a).state ≡ last_or t (entered_states s t))
          × ((chart.process e a).printer ≡ arrive devices chart s s t m)
      there = reacts devices chart a s t e h m p q r

      arrived : P ((chart.process e a).printer)
      arrived = subst P (sym there.1) c

  module _ (n k : ℕ) (ls : List ℕ) where
    pub land :
        (moved : Bool) (fuel : ℕ) (a : Machine devices) (s t u : PrintEngineState)
        (e : PrinterEvent) (h : Engine devices → Handled devices) (m : Engine devices)
        → a.state ≡ s
        → reactions devices s e ≡ some h
        → h a.printer ≡ (transit t, m)
        → last_or t (entered_states s t) ≡ u
        → Common devices n k ls moved (arrive devices chart s s t m)
        → Landed n k ls moved u (process_event devices chart fuel e a)
    land moved = land_with (Common devices n k ls moved) (λ m c. c.3)

    -- Just begun to expose.
    abbrev pub Lit : Bool → Engine devices → Type 0
    Lit moved m = Common devices n k (k ∷ ls) moved m × (m.bgnd_thread ≡ false)

    pub land_exposing :
        (moved : Bool) (fuel : ℕ) (a : Machine devices) (s : PrintEngineState) (e : PrinterEvent)
        (h : Engine devices → Handled devices) (m : Engine devices)
        → a.state ≡ s
        → reactions devices s e ≡ some h
        → h a.printer ≡ (transit exposing, m)
        → last_or exposing (entered_states s exposing) ≡ exposing
        → Lit moved (arrive devices chart s s exposing m)
        → ((process_event devices chart fuel e a).state ≡ exposing)
          × Lit moved ((process_event devices chart fuel e a).printer)
    land_exposing moved fuel a s e h m p q r last c =
        land_with (Lit moved) (λ x c. c.0.3) fuel a s exposing exposing e h m p q r last c

    module _ (moved : Bool) (fuel : ℕ) (a : Machine devices)
        (c : Common devices n k ls moved a.printer) where
      -- The machine as the completion of a motion finds it.
      abbrev pub completed : Machine devices
      completed = record a { printer = record a.printer { motion_completed = true } }

      completed-Common : Common devices n k ls true completed.printer
      completed-Common = (c.0, c.1, c.2, c.3, c.4, refl, c.6)

      pub step_pressing :
          a.state ≡ pressing
          → Landed n k ls true press_delay (advance_in devices chart pressing fuel a)
            ⊎ Landed n k ls false unpressing (advance_in devices chart pressing fuel a)
      unfolding advance_in motion_completed_successfully reactions pressing_reactions enter_all
          leave_all leave send_status
      step_pressing p = elim (Bool-cases (needs_tray_deflection_pause devices completed.printer)) [
        | inl pause ↦ inl (
            land true fuel completed pressing press_delay press_delay ev_motion_completed _
              completed.printer p refl (rw pause refl) refl
              (enter_press_delay-Common devices fine n k ls true
                (leave devices pressing completed.printer) completed-Common))
        | inr no_pause ↦ inr (
            land false fuel completed pressing unpressing unpressing ev_motion_completed _
              (send_motor_command devices un_press completed.printer) p refl (rw no_pause refl) refl
              (enter_moving-Common devices fine n k ls unpressing
                (leave devices pressing (send_motor_command devices un_press completed.printer))
                (inr (inl refl))
                (send_motor_command-Common devices fine n k ls true un_press completed.printer
                  completed-Common)))
      ]

      pub step_press_delay :
          a.state ≡ press_delay
          → Landed n k ls false unpressing (advance_in devices chart press_delay fuel a)
      unfolding advance_in reactions press_delay_reactions enter_all leave_all leave send_status
      step_press_delay p =
          land false fuel a press_delay unpressing unpressing ev_delay_ended _
            (send_motor_command devices un_press a.printer) p refl refl refl
            (enter_moving-Common devices fine n k ls unpressing
              (leave devices press_delay (send_motor_command devices un_press a.printer))
              (inr (inl refl))
              (send_motor_command-Common devices fine n k ls moved un_press a.printer c))

      -- Unpressing and the delay before exposure.
      pub step_unpressing :
          a.state ≡ unpressing
          → Landed n k ls true pre_exposure_delay (advance_in devices chart unpressing fuel a)
            ⊎ (((advance_in devices chart unpressing fuel a).state ≡ exposing)
                × Lit true ((advance_in devices chart unpressing fuel a).printer))
      unfolding advance_in motion_completed_successfully reactions unpressing_reactions enter_all
          leave_all leave send_status needs_pre_exposure_delay
      step_unpressing p = elim (Bool-cases (needs_pre_exposure_delay devices completed.printer)) [
        | inl needed ↦ inl (
            land true fuel completed unpressing pre_exposure_delay pre_exposure_delay
              ev_motion_completed _ completed.printer p refl (rw needed refl) refl
              (enter_pre_exposure_delay-Common devices fine n k ls true
                (leave devices unpressing completed.printer) needed completed-Common))
        | inr not_needed ↦ inr (
            land_exposing true fuel completed unpressing ev_motion_completed _ completed.printer p
              refl (rw not_needed refl) refl
              (enter_exposing-Common devices fine n k ls true
                (leave devices unpressing completed.printer) completed-Common))
      ]

      pub step_pre_exposure_delay :
          a.state ≡ pre_exposure_delay
          → ((advance_in devices chart pre_exposure_delay fuel a).state ≡ exposing)
            × Lit moved ((advance_in devices chart pre_exposure_delay fuel a).printer)
      unfolding advance_in reactions pre_exposure_delay_reactions enter_all leave_all leave
          send_status
      step_pre_exposure_delay p =
          land_exposing moved fuel a pre_exposure_delay ev_delay_ended _ a.printer p refl refl refl
            (enter_exposing-Common devices fine n k ls moved
              (leave devices pre_exposure_delay a.printer) c)

      pub step_exposing :
          a.state ≡ exposing
          → a.printer.bgnd_thread ≡ false
          → Landed n k ls false separating (advance_in devices chart exposing fuel a)
      unfolding advance_in reactions exposing_reactions exposed enter_all leave_all
      step_exposing p idle = elim (Bool-cases (more_layers devices a.printer)) [
        | inl more ↦
            land false fuel a exposing separating separating ev_exposed _ (separated loaded) p refl
              (rw (more, load.0) refl) refl (arrived loaded load.1)
        | inr no_more ↦
            land false fuel a exposing separating separating ev_exposed _ (separated a.printer) p
              refl (rw no_more refl) refl (arrived a.printer c)
      ]
        where
          loaded : Engine devices
          loaded = (load_next_layer_image devices a.printer).1

          load :
              ((load_next_layer_image devices a.printer).0 ≡ true)
              × Common devices n k ls moved loaded
          load = load_next_layer_image-Common devices fine n k ls moved a.printer c idle

          separated : Engine devices → Engine devices
          separated m =
              record (send_motor_command devices separate
                (record m { got_rotation_interrupt = false })) { skip_homing_rotation = false }

          arrived :
              (m : Engine devices)
              → Common devices n k ls moved m
              → Common devices n k ls false
                  (enter devices separating (leave devices exposing (separated m)))
          arrived m d =
              enter_moving-Common devices fine n k ls separating
                (leave devices exposing (separated m)) (inr (inr (inl refl)))
                (leave_exposing-Common devices fine n k ls false (separated m) (
                  send_motor_command-Common devices fine n k ls moved separate
                    (record m { got_rotation_interrupt = false }) d))

      turned : Machine devices
      turned = record a {
        printer = record a.printer { got_rotation_interrupt = true; motion_completed = true };
      }

      pub step_separating :
          a.state ≡ separating
          → Landed n k ls false approaching (advance_in devices chart separating fuel a)
      unfolding advance_in motion_completed_successfully reactions separating_reactions
          separating_motion_completed enter_all leave_all leave send_status turned
      step_separating p =
          land false fuel turned separating approaching approaching ev_motion_completed _
            (send_motor_command devices approach turned.printer) p refl
            (rw (turned_seen turned.printer refl) refl) refl
            (enter_moving-Common devices fine n k ls approaching
              (leave devices separating (send_motor_command devices approach turned.printer))
              (inr (inr (inr refl)))
              (send_motor_command-Common devices fine n k ls true approach turned.printer
                (c.0, c.1, c.2, c.3, c.4, refl, c.6)))
