-- ===== src/Printer/Chart/Run/Layer.antt =====
-- The beginning of a layer and the end of one.
use ember_firmware.Prelude.{
  Bool, Bool-cases, List, [], ap, arith, false, inl, inr, ltb, ltb→lt, refl, some, subst, suc, sym,
  true, ℕ, ◌<◌, ◌∙◌, ◌∷◌, ◌≡◌, ◌≤◌, ◌⊎◌,
}
use ember_firmware.Printer.Codes.{
  PrintEngineState, PrinterEvent, approaching, ev_initialized, ev_motion_completed, exposing,
  getting_feedback, go_home_without_rotate_home, homing, initializing_layer, pre_exposure_delay,
  press, pressing, print_completed,
}
use ember_firmware.Printer.Devices.{Devices}
use ember_firmware.Printer.Engine.{Engine, send_status}
use ember_firmware.Printer.Engine.LayerSettings.{nonzero}
use ember_firmware.Printer.Engine.Motion.{clear_current_print, send_motor_command}
use ember_firmware.Printer.Engine.Layers.{
  get_tray_deflection, more_layers, needs_pre_exposure_delay,
}
use ember_firmware.Printer.Entry.{enter, leave}
use ember_firmware.Printer.Reactions.{Handled, transit}
use ember_firmware.Printer.Reactions.Printing.{
  approaching_motion_completed, approaching_reactions, initializing_layer_reactions, reactions,
}
use ember_firmware.Printer.Chart.{
  Machine, Statechart, enter_all, entered_states, last_or, leave_all, motion_completed_successfully,
  process_event,
}
use ember_firmware.Printer.Chart.Run.{
  Common, Fine, clear_current_print-Common, enter_exposing-Common, enter_initializing_layer-Common,
  enter_moving-Common, enter_pre_exposure_delay-Common, exposures, send_motor_command-Common,
  settled-Common,
}
use ember_firmware.Printer.Chart.Run.Steps.{advance_in, arrive, reacts, settle_one}
use ember_firmware.Printer.Chart.Run.Progress.{Landed, Lit, land, land_exposing}

module _ (devices : Devices) (fine : Fine devices) (chart : Statechart devices) where
  open devices use {doubles, World, is_internet_connected}

  -- A layer has begun: pressing, waiting or exposing.
  abbrev pub Begun : ℕ → ℕ → List ℕ → Bool → Machine devices → Type 0
  Begun n k ls moved b =
      Landed devices fine chart n k ls false pressing b
      ⊎ Landed devices fine chart n k ls moved pre_exposure_delay b
      ⊎ ((b.state ≡ exposing) × Lit devices fine chart n k ls moved b.printer)

  module _ (n k : ℕ) (ls : List ℕ) (moved : Bool) (fuel : ℕ) where
    initialized :
        (b : Machine devices)
        → b.state ≡ initializing_layer
        → Common devices n k ls moved b.printer
        → Begun n k ls moved (process_event devices chart fuel ev_initialized b)
    unfolding reactions initializing_layer_reactions enter_all leave_all leave send_status
        needs_pre_exposure_delay
    initialized b p c = elim (Bool-cases (nonzero (get_tray_deflection devices b.printer))) [
      | inl deflected ↦ inl (
          land devices fine chart n k ls false fuel b initializing_layer pressing pressing
            ev_initialized _ (send_motor_command devices press b.printer) p refl (rw deflected refl)
            refl
            (enter_moving-Common devices fine n k ls pressing
              (leave devices initializing_layer (send_motor_command devices press b.printer))
              (inl refl) (send_motor_command-Common devices fine n k ls moved press b.printer c)))
      | inr flat ↦ elim (Bool-cases (needs_pre_exposure_delay devices b.printer)) [
        | inl needed ↦ inr (
            inl (
              land devices fine chart n k ls moved fuel b initializing_layer pre_exposure_delay
                pre_exposure_delay ev_initialized _ b.printer p refl (rw (flat, needed) refl) refl
                (enter_pre_exposure_delay-Common devices fine n k ls moved
                  (leave devices initializing_layer b.printer) needed c)))
        | inr not_needed ↦ inr (
            inr (
              land_exposing devices fine chart n k ls moved fuel b initializing_layer ev_initialized
                _ b.printer p refl (rw (flat, not_needed) refl) refl
                (enter_exposing-Common devices fine n k ls moved
                  (leave devices initializing_layer b.printer) c)))
      ]
    ]

  -- From a state that goes on to the next layer.
  pub begin :
      (n k : ℕ) (ls : List ℕ) (moved : Bool) (fuel : ℕ) (a : Machine devices) (s : PrintEngineState)
      (e : PrinterEvent) (h : Engine devices → Handled devices) (m x : Engine devices)
      → a.state ≡ s
      → reactions devices s e ≡ some h
      → h a.printer ≡ (transit initializing_layer, m)
      → last_or initializing_layer (entered_states s initializing_layer) ≡ initializing_layer
      → arrive devices chart s s initializing_layer m ≡ enter devices initializing_layer x
      → Common devices n k ls moved x
      → Begun n (suc k) ls moved (process_event devices chart (suc fuel) e a)
  unfolding process_event
  begin n k ls moved fuel a s e h m x p q r last entered c =
      subst (Begun n (suc k) ls moved)
        (sym (settle_one devices chart fuel (chart.process e a) ev_initialized posted))
        (initialized n (suc k) ls moved fuel b (there.0 ∙ last) (
          subst
            (λ (y : Engine devices). Common devices n (suc k) ls moved (record y { posted = [] }))
            (sym arrived) next.0))
    where
      there :
          ((chart.process e a).state
            ≡ last_or initializing_layer (entered_states s initializing_layer))
          × ((chart.process e a).printer ≡ arrive devices chart s s initializing_layer m)
      there = reacts devices chart a s initializing_layer e h m p q r

      arrived : (chart.process e a).printer ≡ enter devices initializing_layer x
      arrived = there.1 ∙ entered

      next :
          Common devices n
            (suc k)
            ls
            moved
            (record (enter devices initializing_layer x) { posted = [] })
          × ((enter devices initializing_layer x).posted ≡ ev_initialized ∷ [])
      next = enter_initializing_layer-Common devices fine n k ls moved x c

      posted : (chart.process e a).printer.posted ≡ ev_initialized ∷ []
      posted = ap (λ (y : Engine devices). y.posted) arrived ∙ next.1

      b : Machine devices
      b = record (chart.process e a) {
        printer = record (chart.process e a).printer { posted = [] };
      }

  -- The state after the last layer.
  pub record Finished (ls : List ℕ) (b : Machine devices) : Type 0 where
    pub home_bound : (b.state ≡ getting_feedback) ⊎ (b.state ≡ homing)
    pub exposed_layers : exposures b.printer.sent ≡ ls
    pub no_print : b.printer.status.num_layers ≡ 0

  not_less : (a b : ℕ) → ltb a b ≡ false → b ≤ a
  not_less a b h = ground arith

  -- The last layer is over.
  finish :
      (n k : ℕ) (ls : List ℕ) (moved : Bool) (fuel : ℕ) (a : Machine devices)
      → Common devices n k ls moved a.printer
      → a.state ≡ approaching
      → more_layers devices a.printer ≡ false
      → Finished ls (process_event devices chart fuel ev_motion_completed a)
  unfolding reactions approaching_reactions approaching_motion_completed enter_all leave_all leave
      enter send_status
  finish n k ls moved fuel a c p no_more = elim (Bool-cases (is_internet_connected done.world)) [
    | inl online ↦ ended getting_feedback inl (
        land devices fine chart 0 0 ls false fuel a approaching getting_feedback getting_feedback
          ev_motion_completed _ done p refl (rw (no_more, online) refl) refl done-Common)
    | inr offline ↦ ended homing inr (
        land devices fine chart 0 0 ls false fuel a approaching homing homing ev_motion_completed _
          done p refl (rw (no_more, offline) refl) refl
          (settled-Common devices 0 0 ls _ done-Common))
  ]
    where
      cleared : Engine devices
      cleared = clear_current_print devices false a.printer

      done : Engine devices
      done =
          send_motor_command devices go_home_without_rotate_home
            (record cleared { homing_sub_state = print_completed })

      done-Common : Common devices 0 0 ls false done
      done-Common =
          send_motor_command-Common devices fine 0 0 ls cleared.motion_completed
            go_home_without_rotate_home (record cleared { homing_sub_state = print_completed })
            (clear_current_print-Common devices fine n k ls moved a.printer c)

      b : Machine devices
      b = process_event devices chart fuel ev_motion_completed a

      ended :
          (t : PrintEngineState)
          → (b.state ≡ t → (b.state ≡ getting_feedback) ⊎ (b.state ≡ homing))
          → Landed devices fine chart 0 0 ls false t b
          → Finished ls b
      ended t there (at, d) = record { home_bound = there at; exposed_layers = d.2; no_print = d.0 }

  -- After approaching: the next layer, or the end.
  pub step_approaching :
      (n k : ℕ) (ls : List ℕ) (moved : Bool) (fuel : ℕ) (a : Machine devices)
      → Common devices n k ls moved a.printer
      → a.state ≡ approaching
      → let b = advance_in devices chart approaching (suc fuel) a in
        ((k < n) × Begun n (suc k) ls true b) ⊎ ((n ≤ k) × Finished ls b)
  unfolding advance_in motion_completed_successfully reactions approaching_reactions
      approaching_motion_completed enter_all leave_all leave send_status more_layers
  step_approaching n k ls moved fuel a c p =
      elim (Bool-cases (ltb a.printer.status.current_layer a.printer.status.num_layers)) [
        | inl more ↦ inl (
          omega (arith, ltb→lt _ _ more, c.0, c.1),
          begin n k ls true fuel completed approaching ev_motion_completed _ completed.printer
              (leave devices approaching completed.printer) p refl (rw (more, c.4) refl) refl refl
              completed-Common,
        )
        | inr no_more ↦ inr (
          omega (arith, not_less _ _ no_more, c.0, c.1),
          finish n k ls true (suc fuel) completed completed-Common p no_more,
        )
      ]
    where
      completed : Machine devices
      completed = record a { printer = record a.printer { motion_completed = true } }

      completed-Common : Common devices n k ls true completed.printer
      completed-Common = (c.0, c.1, c.2, c.3, c.4, refl, c.6)
