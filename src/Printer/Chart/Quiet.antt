-- ===== src/Printer/Chart/Quiet.antt =====
-- When nothing is posted: leaving and entering states while no call fails.
use ember_firmware.Prelude.{
  ap, ◌∙◌, Bool, Bool-cases, List, [], false, if◌then◌else◌, inl, inr, not, refl, true, ◌∷◌, ◌≡◌,
  ◌≢◌, arith,
}
use ember_firmware.Prelude.Int.{not_positive, ℤ}
use ember_firmware.Printer.Codes.{
  ErrorCode, PrintEngineState, about_to_pause, approaching, awaiting_cancelation, cant_show_image,
  confirm_cancel, demo_mode, door_open, entering, error, exposing, home, homing, initializing,
  initializing_layer, moving_to_pause, moving_to_resume, moving_to_start_position, no_ui_sub_state,
  pre_exposure_delay, press_delay, pressing, separating, unjamming, unpressing, upgrading_projector,
}
use ember_firmware.Printer.Devices.{Call, Devices, join_thread, motor_resume, show_current_image}
use ember_firmware.Printer.Engine.{
  Engine, attempt, clear_delay_timer, clear_exposure_timer, clear_motor_timeout_timer, positive,
  send_status, start_delay_timer, start_exposure_timer, start_motor_timeout_timer,
}
use ember_firmware.Printer.Engine.Motion.{
  cancel_print, clear_current_print, clear_pending_exposure_info, clear_pending_movement,
  pause_movement, resume_movement, set_num_layers,
}
use ember_firmware.Printer.Engine.Layers.{await_end_of_background_thread, needs_pre_exposure_delay}
use ember_firmware.Printer.Entry.{enter, expose, leave}
use ember_firmware.Printer.Chart.{Machine, enter_all, entered_states, leave_all, left_states, move}
use ember_firmware.Printer.Chart.Layers.{All}

-- The states whose entry posts nothing, if the motion before has (not) completed, with this wait
-- before an exposure.
abbrev pub enters_quietly : PrintEngineState → Bool → ℤ → Bool
enters_quietly initializing moved wait = false
enters_quietly initializing_layer moved wait = false
enters_quietly awaiting_cancelation moved wait = false
enters_quietly error moved wait = false
enters_quietly demo_mode moved wait = false
enters_quietly upgrading_projector moved wait = false
enters_quietly homing moved wait = not moved
enters_quietly moving_to_pause moved wait = not moved
enters_quietly moving_to_resume moved wait = not moved
enters_quietly moving_to_start_position moved wait = not moved
enters_quietly unjamming moved wait = not moved
enters_quietly pressing moved wait = not moved
enters_quietly unpressing moved wait = not moved
enters_quietly separating moved wait = not moved
enters_quietly approaching moved wait = not moved
enters_quietly pre_exposure_delay moved wait = not (not_positive wait)
enters_quietly _ moved wait = true

module _ (devices : Devices)
    (works : (c : Call (devices.doubles.Double)) (w : devices.World)
      → (devices.call c w).0 ≡ true) where
  open devices use {doubles, World, call, no_thread_error}

  -- Nothing is posted, and what decides whether a state posts something when it is entered.
  abbrev pub Quiet : Bool → ℤ → Engine devices → Type 0
  Quiet moved wait m =
      (m.posted ≡ []) × (m.motion_completed ≡ moved) × (m.cls.approach_wait_ms ≡ wait)

  pub attempt-Quiet :
      (moved : Bool) (wait : ℤ) (c : Call (doubles.Double)) (code : ErrorCode) (m : Engine devices)
      → Quiet moved wait m
      → Quiet moved wait (attempt devices c code m)
  unfolding attempt
  attempt-Quiet moved wait c code m h = rw (works c m.world) h

  pause_movement-Quiet :
      (moved : Bool) (wait : ℤ) (m : Engine devices)
      → Quiet moved wait m
      → Quiet moved wait (pause_movement devices m)
  unfolding pause_movement clear_motor_timeout_timer
  pause_movement-Quiet moved wait m h =
      attempt-Quiet moved wait _ _ _ (attempt-Quiet moved wait _ _ m h)

  resume_movement-Quiet :
      (moved : Bool) (wait : ℤ) (m : Engine devices)
      → Quiet moved wait m
      → Quiet moved wait (resume_movement devices m)
  unfolding resume_movement start_motor_timeout_timer
  resume_movement-Quiet moved wait m h =
      elim (Bool-cases (positive devices m.remaining_motor_timeout_sec)) [
        | inl some_time ↦
            rw (works motor_resume m.world, some_time)
              (attempt-Quiet moved wait _ _ (record m { world = (call motor_resume m.world).1 }) h)
        | inr no_time ↦ rw (works motor_resume m.world, no_time) h
      ]

  -- Clearing a print that is cancelled.
  pub cancel_print-Quiet :
      (wait : ℤ) (m : Engine devices)
      → m.posted ≡ []
      → m.cls.approach_wait_ms ≡ wait
      → Quiet false wait (cancel_print devices m)
  unfolding cancel_print clear_current_print pause_movement clear_pending_movement set_num_layers
      clear_delay_timer clear_exposure_timer clear_pending_exposure_info clear_motor_timeout_timer
      start_motor_timeout_timer
  cancel_print-Quiet wait m h w = attempt-Quiet false wait _ _ _ (
      attempt-Quiet false wait _ _ _ (
        attempt-Quiet false wait _ _ _ (
          attempt-Quiet false wait _ _ _ (
            attempt-Quiet false wait _ _ _ (
              attempt-Quiet false wait _ _ _ (
                attempt-Quiet false wait _ _ (record m { motion_completed = false })
                  (h, refl, w)))))))

  leave-Quiet :
      (s : PrintEngineState) (moved : Bool) (wait : ℤ) (m : Engine devices)
      → s ≢ upgrading_projector
      → Quiet moved wait m
      → Quiet moved wait (leave devices s m)
  unfolding leave send_status
  leave-Quiet door_open moved wait m i h = resume_movement-Quiet moved wait _ h
  leave-Quiet exposing moved wait m i h = attempt-Quiet moved wait _ _ m h
  leave-Quiet upgrading_projector moved wait m i h = absurd (i refl)
  leave-Quiet s moved wait m i h = h

  pub leave_all-Quiet :
      (moved : Bool) (wait : ℤ) (ss : List PrintEngineState) (m : Engine devices)
      → All (λ s. s ≢ upgrading_projector) ss
      → Quiet moved wait m
      → Quiet moved wait (leave_all devices ss m)
  unfolding leave_all
  leave_all-Quiet moved wait [] m q h = h
  leave_all-Quiet moved wait (s ∷ ss) m (q, qs) h =
      leave_all-Quiet moved wait ss (leave devices s m) qs (leave-Quiet s moved wait m q h)

  module _ (images : (w : World) → no_thread_error w ≡ true) where
    await-Quiet :
        (moved : Bool) (wait : ℤ) (m : Engine devices)
        → Quiet moved wait m
        → let r = await_end_of_background_thread devices false m in
          (r.0 ≡ true) × Quiet moved wait r.1
    unfolding await_end_of_background_thread
    await-Quiet moved wait m h = elim (Bool-cases m.bgnd_thread) [
      | inl running ↦ rw (running, works join_thread m.world, images _) (refl, h)
      | inr idle ↦ rw (idle, images m.world) (refl, h)
    ]

    expose-Quiet :
        (moved : Bool) (wait : ℤ) (seconds : doubles.Double) (m : Engine devices)
        → Quiet moved wait m
        → Quiet moved wait (expose devices seconds m)
    unfolding expose start_exposure_timer
    expose-Quiet moved wait seconds m h =
        attempt-Quiet moved wait _ _ (attempt devices show_current_image cant_show_image m)
          (attempt-Quiet moved wait _ _ m h)

    enter_exposing-Quiet :
        (moved : Bool) (wait : ℤ) (m : Engine devices)
        → Quiet moved wait m
        → Quiet moved wait (enter devices exposing m)
    unfolding enter send_status
    enter_exposing-Quiet moved wait m h =
        elim (Bool-cases (positive devices m.remaining_exposure_time_sec)) [
          | inl left ↦ rw left (expose-Quiet moved wait _ told h)
          | inr none_left ↦ rw (none_left, awaited.0) (expose-Quiet moved wait _ next awaited.1)
        ]
      where
        told : Engine devices
        told =
            send_status devices exposing entering
              (if m.inspection_requested then about_to_pause else no_ui_sub_state) m

        next : Engine devices
        next = (await_end_of_background_thread devices false told).1

        awaited :
            ((await_end_of_background_thread devices false told).0 ≡ true) × Quiet moved wait next
        awaited = await-Quiet moved wait told h

    enter_pre_exposure_delay-Quiet :
        (moved : Bool) (wait : ℤ) (m : Engine devices)
        → not (not_positive m.cls.approach_wait_ms) ≡ true
        → Quiet moved wait m
        → Quiet moved wait (enter devices pre_exposure_delay m)
    unfolding enter send_status start_delay_timer needs_pre_exposure_delay
    enter_pre_exposure_delay-Quiet moved wait m needed h =
        rw needed (attempt-Quiet moved wait _ _ _ h)

    enter-Quiet :
        (s : PrintEngineState) (moved : Bool) (wait : ℤ) (m : Engine devices)
        → enters_quietly s moved wait ≡ true
        → Quiet moved wait m
        → Quiet moved wait (enter devices s m)
    unfolding enter send_status clear_motor_timeout_timer start_delay_timer
    enter-Quiet confirm_cancel moved wait m i h = pause_movement-Quiet moved wait _ h
    enter-Quiet door_open moved wait m i h = pause_movement-Quiet moved wait _ h
    enter-Quiet exposing moved wait m i h = enter_exposing-Quiet moved wait m h
    enter-Quiet home moved wait m i h = attempt-Quiet moved wait _ _ _ h
    enter-Quiet press_delay moved wait m i h = attempt-Quiet moved wait _ _ _ h
    enter-Quiet pre_exposure_delay moved wait m i h =
        enter_pre_exposure_delay-Quiet moved wait m (ap (λ w. not (not_positive w)) h.2 ∙ i) h
    enter-Quiet s moved wait m i h = ground arith

    pub enter_all-Quiet :
        (moved : Bool) (wait : ℤ) (ss : List PrintEngineState) (m : Engine devices)
        → All (λ s. enters_quietly s moved wait ≡ true) ss
        → Quiet moved wait m
        → Quiet moved wait (enter_all devices ss m)
    unfolding enter_all
    enter_all-Quiet moved wait [] m q h = h
    enter_all-Quiet moved wait (s ∷ ss) m (q, qs) h =
        enter_all-Quiet moved wait ss (enter devices s m) qs (enter-Quiet s moved wait m q h)

    pub move-Quiet :
        (moved : Bool) (wait : ℤ) (source target : PrintEngineState) (a : Machine devices)
        → All (λ s. s ≢ upgrading_projector) (left_states a.state source target)
        → All (λ s. enters_quietly s moved wait ≡ true) (entered_states source target)
        → Quiet moved wait a.printer
        → Quiet moved wait ((move devices source target a).printer)
    unfolding move
    move-Quiet moved wait source target a left inside h =
        enter_all-Quiet moved wait (entered_states source target)
          (leave_all devices (left_states a.state source target) a.printer) inside
          (leave_all-Quiet moved wait (left_states a.state source target) a.printer left h)
