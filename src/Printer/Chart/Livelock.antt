-- ===== src/Printer/Chart/Livelock.antt =====
-- A motor that cannot be paused keeps the printer busy with errors.
use ember_firmware.Prelude.{
  Bool, Bool-cases, List, [], ap, arith, false, inl, inr, refl, suc, true, zero, ℕ, ◌++◌, ◌∷◌, ◌≡◌,
  ◌≢◌,
}
use ember_firmware.Printer.Codes.{
  ErrorCode, PrintEngineState, PrinterEvent, door_open, error, ev_error, exposing, printer_on,
  upgrading_projector,
}
use ember_firmware.Printer.Devices.{Call, Devices, motor_pause, motor_resume}
use ember_firmware.Printer.Engine.{
  Engine, attempt, clear_delay_timer, clear_exposure_timer, clear_motor_timeout_timer,
  handle_fatal_error, positive, send_status, start_motor_timeout_timer,
}
use ember_firmware.Printer.Engine.Motion.{
  clear_current_print, clear_pending_exposure_info, clear_pending_movement, pause_movement,
  resume_movement, set_num_layers,
}
use ember_firmware.Printer.Entry.{enter, leave}
use ember_firmware.Printer.Chart.{
  Machine, Statechart, enter_all, leave_all, left_states, move, process_event, settle,
}
use ember_firmware.Printer.Chart.Faults.{inside_printer_on, dispatch_error}

-- All of the events that are posted are errors, and there is one.
abbrev pub Errors : List PrinterEvent → Type 0
Errors [] = Unit
Errors (e ∷ es) = (e ≡ ev_error) × Errors es

Errors-append : (es : List PrinterEvent) → Errors es → Errors (es ++ (ev_error ∷ []))
Errors-append [] h = (refl, tt)
Errors-append (e ∷ es) (h, hs) = (h, Errors-append es hs)

append_nonempty : (es : List PrinterEvent) (e : PrinterEvent) → es ++ (e ∷ []) ≢ []
append_nonempty [] e = ground arith
append_nonempty (x ∷ xs) e = ground arith

first_error :
    (es : List PrinterEvent)
    → Errors es
    → es ≢ []
    → (rest : List PrinterEvent) × (es ≡ ev_error ∷ rest) × Errors rest
first_error [] h some_event = absurd (some_event refl)
first_error (e ∷ es) (h, hs) some_event = (es, ap (λ x. x ∷ es) h, hs)

module _ (devices : Devices) where
  open devices use {doubles, call, World}

  abbrev Failing : Engine devices → Type 0
  Failing m = Errors m.posted × (m.posted ≢ [])

  handle_fatal_error-Failing :
      (code : ErrorCode) (m : Engine devices)
      → Errors m.posted
      → Failing (handle_fatal_error devices code m)
  unfolding handle_fatal_error
  handle_fatal_error-Failing code m h =
      (Errors-append m.posted h, append_nonempty m.posted ev_error)

  pub attempt-Errors :
      (c : Call (doubles.Double)) (code : ErrorCode) (m : Engine devices)
      → Errors m.posted
      → Errors (attempt devices c code m).posted
  unfolding attempt handle_fatal_error
  attempt-Errors c code m h = elim (Bool-cases (call c m.world).0) [
    | inl ok ↦ rw ok h
    | inr not_ok ↦ rw not_ok (Errors-append m.posted h)
  ]

  attempt-Failing :
      (c : Call (doubles.Double)) (code : ErrorCode) (m : Engine devices)
      → Failing m
      → Failing (attempt devices c code m)
  unfolding attempt handle_fatal_error
  attempt-Failing c code m h = elim (Bool-cases (call c m.world).0) [
    | inl ok ↦ rw ok h
    | inr not_ok ↦
        rw not_ok (handle_fatal_error-Failing code (record m { world = (call c m.world).1 }) h.0)
  ]

  attempt_fails :
      (c : Call (doubles.Double)) (code : ErrorCode) (m : Engine devices)
      → (call c m.world).0 ≡ false
      → Errors m.posted
      → Failing (attempt devices c code m)
  unfolding attempt
  attempt_fails c code m not_ok h = rw not_ok (handle_fatal_error-Failing code _ h)

  resume_movement-Errors :
      (m : Engine devices) → Errors m.posted → Errors (resume_movement devices m).posted
  unfolding resume_movement start_motor_timeout_timer
  resume_movement-Errors m h = elim (Bool-cases (call motor_resume m.world).0) [
    | inl ok ↦ elim (Bool-cases (positive devices m.remaining_motor_timeout_sec)) [
      | inl some_time ↦ rw (ok, some_time) (attempt-Errors _ _ _ h)
      | inr no_time ↦ rw (ok, no_time) h
    ]
    | inr not_ok ↦ rw not_ok (handle_fatal_error-Failing _ _ h).0
  ]

  abbrev not_upgrading : PrintEngineState → Bool
  not_upgrading upgrading_projector = false
  not_upgrading _ = true

  abbrev AllQuiet : List PrintEngineState → Type 0
  AllQuiet [] = Unit
  AllQuiet (s ∷ ss) = (not_upgrading s ≡ true) × AllQuiet ss

  leave-Errors :
      (s : PrintEngineState) (m : Engine devices)
      → not_upgrading s ≡ true
      → Errors m.posted
      → Errors (leave devices s m).posted
  unfolding leave send_status
  leave-Errors door_open m i h = resume_movement-Errors _ h
  leave-Errors exposing m i h = attempt-Errors _ _ m h
  leave-Errors upgrading_projector m i h = ground arith
  leave-Errors s m i h = h

  pub leave_all-Errors :
      (ss : List PrintEngineState) (m : Engine devices)
      → AllQuiet ss
      → Errors m.posted
      → Errors (leave_all devices ss m).posted
  unfolding leave_all
  leave_all-Errors [] m q h = h
  leave_all-Errors (s ∷ ss) m (q, qs) h =
      leave_all-Errors ss (leave devices s m) qs (leave-Errors s m q h)

  pub all_quiet :
      (s : PrintEngineState)
      → inside_printer_on s ≡ true
      → AllQuiet (left_states s printer_on error)
  all_quiet s h = ground arith

  module _ (stuck : (w : World) → (call motor_pause w).0 ≡ false) where
    -- Entering the Error state posts the next error.
    enter_error-Failing : (m : Engine devices) → Errors m.posted → Failing (enter devices error m)
    unfolding enter clear_current_print clear_motor_timeout_timer clear_pending_movement
        clear_delay_timer clear_exposure_timer pause_movement set_num_layers
        clear_pending_exposure_info send_status
    enter_error-Failing m h = attempt-Failing _ _ _ (
        attempt-Failing _ _ _ (
          attempt-Failing _ _ _ (
            attempt-Failing _ _ _
              (attempt-Failing _ _ _ (attempt-Failing _ _ _ (attempt_fails _ _ _ (stuck _) h))))))

    module _ (chart : Statechart devices) where
      process_error :
          (a : Machine devices)
          → inside_printer_on a.state ≡ true
          → Errors a.printer.posted
          → ((chart.process ev_error a).state ≡ error)
            × Failing ((chart.process ev_error a).printer)
      unfolding move enter_all enter send_status
      process_error a i h =
          rw (chart.documented ev_error a, dispatch_error devices chart a.state a i)
            (
              refl,
              enter_error-Failing
                  (enter devices printer_on
                    (leave_all devices (left_states a.state printer_on error) a.printer))
                  (leave_all-Errors (left_states a.state printer_on error) _ (all_quiet a.state i)
                    h),
            )

      settle-Failing :
          (fuel : ℕ) (a : Machine devices)
          → a.state ≡ error
          → Failing a.printer
          → Failing ((settle devices chart fuel a).printer)
      unfolding settle
      settle-Failing zero a i h = h
      settle-Failing (suc fuel) a i h = rw next.1 (settle-Failing fuel _ done.0 done.1)
        where
          next : (rest : List PrinterEvent) × (a.printer.posted ≡ ev_error ∷ rest) × Errors rest
          next = first_error a.printer.posted h.0 h.1

          b : Machine devices
          b = record a { printer = record a.printer { posted = next.0 } }

          done :
              ((chart.process ev_error b).state ≡ error)
              × Failing ((chart.process ev_error b).printer)
          done = process_error b (rw i refl) next.2

      -- If each pause of the motor fails, then after EvError in any innermost state inside
      -- PrinterOn, with no events posted, there is always another event posted, however many of
      -- them are processed.
      pub failing_motor_never_settles :
          (fuel : ℕ) (a : Machine devices)
          → inside_printer_on a.state ≡ true
          → a.printer.posted ≡ []
          → (process_event devices chart fuel ev_error a).printer.posted ≢ []
      unfolding process_event
      failing_motor_never_settles fuel a i quiet = (settle-Failing fuel _ first.0 first.1).1
        where
          first :
              ((chart.process ev_error a).state ≡ error)
              × Failing ((chart.process ev_error a).printer)
          first = process_error a i (rw quiet tt)
