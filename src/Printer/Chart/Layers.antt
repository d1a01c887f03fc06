-- ===== src/Printer/Chart/Layers.antt =====
-- What keeps the number of layers and the current layer.
use ember_firmware.Prelude.{
  Bool, List, [], arith, false, if◌then◌else◌, refl, true, ℕ, ◌∷◌, ◌≡◌, ◌≢◌,
}
use ember_firmware.Printer.Codes.{
  ErrorCode, PrintEngineState, about_to_pause, cant_show_image, confirm_cancel, demo_mode,
  door_open, entering, error, exposing, initializing, initializing_layer, no_ui_sub_state,
  upgrading_projector,
}
use ember_firmware.Printer.Devices.{Call, Devices, show_current_image}
use ember_firmware.Printer.Engine.{
  Engine, attempt, clear_motor_timeout_timer, handle_fatal_error, positive, send_status,
  start_delay_timer, start_exposure_timer, start_motor_timeout_timer,
}
use ember_firmware.Printer.Engine.Motion.{pause_movement, resume_movement}
use ember_firmware.Printer.Engine.Layers.{await_end_of_background_thread}
use ember_firmware.Printer.Entry.{enter, expose, leave}
use ember_firmware.Printer.Chart.{Machine, enter_all, entered_states, leave_all, left_states, move}

abbrev pub All : (PrintEngineState → Type 0) → List PrintEngineState → Type 0
All P [] = Unit
All P (s ∷ ss) = P s × All P ss

-- The states whose entry keeps the layers.
abbrev pub keeps_layers : PrintEngineState → Bool
keeps_layers initializing = false
keeps_layers initializing_layer = false
keeps_layers error = false
keeps_layers demo_mode = false
keeps_layers upgrading_projector = false
keeps_layers _ = true

module _ (devices : Devices) where
  open devices use {doubles, call}

  -- The number of layers and the current one.
  abbrev pub Layers : ℕ → ℕ → Engine devices → Type 0
  Layers n k m = (m.status.num_layers ≡ n) × (m.status.current_layer ≡ k)

  attempt-Layers :
      (n k : ℕ) (c : Call (doubles.Double)) (code : ErrorCode) (m : Engine devices)
      → Layers n k m
      → Layers n k (attempt devices c code m)
  unfolding attempt handle_fatal_error
  attempt-Layers n k c code m h = ground arith

  pause_movement-Layers :
      (n k : ℕ) (m : Engine devices) → Layers n k m → Layers n k (pause_movement devices m)
  unfolding pause_movement clear_motor_timeout_timer
  pause_movement-Layers n k m h = attempt-Layers n k _ _ _ (attempt-Layers n k _ _ m h)

  resume_movement-Layers :
      (n k : ℕ) (m : Engine devices) → Layers n k m → Layers n k (resume_movement devices m)
  unfolding resume_movement start_motor_timeout_timer handle_fatal_error attempt
  resume_movement-Layers n k m h = ground arith

  leave-Layers :
      (s : PrintEngineState) (n k : ℕ) (m : Engine devices)
      → s ≢ upgrading_projector
      → Layers n k m
      → Layers n k (leave devices s m)
  unfolding leave send_status
  leave-Layers door_open n k m i h = resume_movement-Layers n k _ h
  leave-Layers exposing n k m i h = attempt-Layers n k _ _ m h
  leave-Layers upgrading_projector n k m i h = absurd (i refl)
  leave-Layers s n k m i h = h

  if-Layers :
      (n k : ℕ) (b : Bool) (x y : Engine devices)
      → Layers n k x
      → Layers n k y
      → Layers n k (if b then x else y)
  if-Layers n k true x y h g = h
  if-Layers n k false x y h g = g

  await-Layers :
      (n k : ℕ) (b : Bool) (m : Engine devices)
      → Layers n k m
      → Layers n k ((await_end_of_background_thread devices b m).1)
  unfolding await_end_of_background_thread handle_fatal_error
  await-Layers n k b m h = ground arith

  expose-Layers :
      (n k : ℕ) (seconds : doubles.Double) (m : Engine devices)
      → Layers n k m
      → Layers n k (expose devices seconds m)
  unfolding expose start_exposure_timer
  expose-Layers n k seconds m h =
      attempt-Layers n k _ _ (attempt devices show_current_image cant_show_image m)
        (attempt-Layers n k _ _ m h)

  enter-Layers :
      (s : PrintEngineState) (n k : ℕ) (m : Engine devices)
      → keeps_layers s ≡ true
      → Layers n k m
      → Layers n k (enter devices s m)
  unfolding enter send_status clear_motor_timeout_timer start_delay_timer start_exposure_timer
      handle_fatal_error attempt
  enter-Layers confirm_cancel n k m i h = pause_movement-Layers n k _ h
  enter-Layers door_open n k m i h = pause_movement-Layers n k _ h
  enter-Layers exposing n k m i h =
      if-Layers n k (positive devices told.remaining_exposure_time_sec) _ _
        (expose-Layers n k _ told h)
        (if-Layers n k (await_end_of_background_thread devices false told).0 _ _
          (expose-Layers n k _ next awaited) awaited)
    where
      told : Engine devices
      told =
          send_status devices exposing entering
            (if m.inspection_requested then about_to_pause else no_ui_sub_state) m

      next : Engine devices
      next = (await_end_of_background_thread devices false told).1

      awaited : Layers n k next
      awaited = await-Layers n k false told h
  enter-Layers s n k m i h = ground arith

  leave_all-Layers :
      (n k : ℕ) (ss : List PrintEngineState) (m : Engine devices)
      → All (λ s. s ≢ upgrading_projector) ss
      → Layers n k m
      → Layers n k (leave_all devices ss m)
  unfolding leave_all
  leave_all-Layers n k [] m q h = h
  leave_all-Layers n k (s ∷ ss) m (q, qs) h =
      leave_all-Layers n k ss (leave devices s m) qs (leave-Layers s n k m q h)

  enter_all-Layers :
      (n k : ℕ) (ss : List PrintEngineState) (m : Engine devices)
      → All (λ s. keeps_layers s ≡ true) ss
      → Layers n k m
      → Layers n k (enter_all devices ss m)
  unfolding enter_all
  enter_all-Layers n k [] m q h = h
  enter_all-Layers n k (s ∷ ss) m (q, qs) h =
      enter_all-Layers n k ss (enter devices s m) qs (enter-Layers s n k m q h)

  pub move-Layers :
      (n k : ℕ) (source target : PrintEngineState) (a : Machine devices)
      → All (λ s. s ≢ upgrading_projector) (left_states a.state source target)
      → All (λ s. keeps_layers s ≡ true) (entered_states source target)
      → Layers n k a.printer
      → Layers n k ((move devices source target a).printer)
  unfolding move
  move-Layers n k source target a left inside h =
      enter_all-Layers n k (entered_states source target)
        (leave_all devices (left_states a.state source target) a.printer) inside
        (leave_all-Layers n k (left_states a.state source target) a.printer left h)
