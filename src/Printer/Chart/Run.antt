-- ===== src/Printer/Chart/Run.antt =====
-- A print from its first layer to its last: what an environment in which nothing fails does in each
-- state, and what the operations of a print keep.
pub mod Steps
pub mod Progress
pub mod Layer
pub mod Stages
pub mod Completion
use ember_firmware.Prelude.{
  Bool, Bool-cases, List, [], ap, ap₂, false, if◌then◌else◌, inl, inr, refl, suc, true, ℕ, ◌&&◌,
  ◌++◌, ◌-◌, ◌∙◌, ◌∷◌, ◌≡◌, ◌⊎◌,
}
use ember_firmware.Printer.Codes.{
  ErrorCode, HighLevelMotorCommand, PrintEngineState, PrinterEvent, StateChange, UiSubState,
  about_to_pause, approaching, cant_show_black, cant_show_image, entering, ev_initialized,
  ev_motion_completed, exposing, initializing_layer, no_ui_sub_state, pre_exposure_delay,
  press_delay, pressing, separating, unpressing, ◌=ₛ◌,
}
use ember_firmware.Printer.Devices.{
  Call, Devices, exposure, join_thread, motor_command, show_black, show_current_image,
}
use ember_firmware.Printer.Engine.{
  Engine, PrinterStatus, attempt, clear_delay_timer, clear_exposure_timer,
  clear_motor_timeout_timer, positive, post_event, send_status, start_delay_timer,
  start_exposure_timer, start_motor_timeout_timer,
}
use ember_firmware.Printer.Engine.LayerSettings.{get_current_layer_settings}
use ember_firmware.Printer.Engine.Timeouts.{num, set_estimated_print_time}
use ember_firmware.Printer.Engine.Motion.{
  clear_current_print, clear_pending_exposure_info, clear_pending_movement,
  engine_send_motor_command, pause_movement, send_motor_command, set_num_layers,
}
use ember_firmware.Printer.Engine.Layers.{
  await_end_of_background_thread, load_next_layer_image, needs_pre_exposure_delay, next_layer,
}
use ember_firmware.Printer.Entry.{enter, expose, leave}
use ember_firmware.Printer.Chart.Faults.{Cleared, clear_current_print-Cleared}

-- A layer is exposed when the state Exposing is entered.
abbrev is_entering : StateChange → Bool
is_entering entering = true
is_entering _ = false

-- The layers that were exposed, by the status updates, the last one first.
abbrev pub exposures : {D : Type 0} → List (PrinterStatus D) → List ℕ
exposures [] = []
exposures (s ∷ ss) =
    if (s.state =ₛ exposing) && is_entering s.change
    then s.current_layer ∷ exposures ss
    else exposures ss

-- Devices without failures, a closed door, valid data, and a timer without time left once it ended.
pub record Fine (devices : Devices) : Type 0 where
  pub works : (c : Call (devices.doubles.Double)) (w : devices.World) → (devices.call c w).0 ≡ true
  pub closed : (w : devices.World) → devices.door_is_open w ≡ false
  pub images : (w : devices.World) → devices.no_thread_error w ≡ true
  pub data_there : (w : devices.World) → devices.has_print_data w ≡ true
  pub no_time : positive devices (num devices 0) ≡ false
  pub ended : (w : devices.World) → positive devices (devices.remaining_time exposure w) ≡ false

module _ (devices : Devices) where
  open devices use {doubles, call, remaining_time, World}

  -- What matters of a print between its steps.
  abbrev pub Common : ℕ → ℕ → List ℕ → Bool → Engine devices → Type 0
  Common n k ls moved m =
      (m.status.num_layers ≡ n)
      × (m.status.current_layer ≡ k)
      × (exposures m.sent ≡ ls)
      × (m.posted ≡ [])
      × (m.inspection_requested ≡ false)
      × (m.motion_completed ≡ moved)
      × (positive devices m.remaining_exposure_time_sec ≡ false)

  pub settled-Common :
      (n k : ℕ) (ls : List ℕ) (m : Engine devices)
      → Common n k ls false m
      → Common n k ls false (if m.motion_completed then post_event ev_motion_completed m else m)
  settled-Common n k ls m (a, b, c, d, e, f, g) = rw f (a, b, c, d, e, refl, g)

  module _ (fine : Fine devices) where
    pub attempt-Common :
        (n k : ℕ) (ls : List ℕ) (moved : Bool) (c : Call (doubles.Double)) (code : ErrorCode)
        (m : Engine devices)
        → Common n k ls moved m
        → Common n k ls moved (attempt devices c code m)
    unfolding attempt
    attempt-Common n k ls moved c code m h = rw (fine.works c m.world) h

    pub send_motor_command-Common :
        (n k : ℕ) (ls : List ℕ) (moved : Bool) (command : HighLevelMotorCommand)
        (m : Engine devices)
        → Common n k ls moved m
        → Common n k ls false (send_motor_command devices command m)
    unfolding send_motor_command engine_send_motor_command start_motor_timeout_timer attempt
    send_motor_command-Common n k ls moved command m (a, b, c, d, e, f, g) =
        rw (fine.works (motor_command command) m.world, fine.works _ _) (a, b, c, d, e, refl, g)

    pub leave_exposing-Common :
        (n k : ℕ) (ls : List ℕ) (moved : Bool) (m : Engine devices)
        → Common n k ls moved m
        → Common n k ls moved (leave devices exposing m)
    unfolding leave send_status
    leave_exposing-Common n k ls moved m h =
        let (a, b, c, d, e, f, g) = attempt-Common n k ls moved show_black cant_show_black m h in
        (a, b, c, d, e, f, fine.ended _)

    pub enter_moving-Common :
        (n k : ℕ) (ls : List ℕ) (s : PrintEngineState) (m : Engine devices)
        → (s ≡ pressing) ⊎ (s ≡ unpressing) ⊎ (s ≡ separating) ⊎ (s ≡ approaching)
        → Common n k ls false m
        → Common n k ls false (enter devices s m)
    unfolding enter send_status
    enter_moving-Common n k ls s m (inl p) h = rw p (settled-Common n k ls _ h)
    enter_moving-Common n k ls s m (inr (inl p)) h = rw p (settled-Common n k ls _ h)
    enter_moving-Common n k ls s m (inr (inr (inl p))) h = rw p (settled-Common n k ls _ h)
    enter_moving-Common n k ls s m (inr (inr (inr p))) h = rw p (settled-Common n k ls _ h)

    await-Common :
        (n k : ℕ) (ls : List ℕ) (moved : Bool) (m : Engine devices)
        → Common n k ls moved m
        → let r = await_end_of_background_thread devices false m in
          (r.0 ≡ true) × (r.1.bgnd_thread ≡ false) × Common n k ls moved r.1
    unfolding await_end_of_background_thread
    await-Common n k ls moved m h = elim (Bool-cases m.bgnd_thread) [
      | inl running ↦ rw (running, fine.works join_thread m.world, fine.images _) (refl, refl, h)
      | inr idle ↦ rw (idle, fine.images m.world) (refl, refl, h)
    ]

    bgnd_thread-attempt :
        (c : Call (doubles.Double)) (code : ErrorCode) (m : Engine devices)
        → (attempt devices c code m).bgnd_thread ≡ m.bgnd_thread
    unfolding attempt
    bgnd_thread-attempt c code m = rw (fine.works c m.world) refl

    told_exposing-Common :
        (n k : ℕ) (ls : List ℕ) (moved : Bool) (sub_state : UiSubState) (m : Engine devices)
        → Common n k ls moved m
        → Common n k (k ∷ ls) moved (send_status devices exposing entering sub_state m)
    unfolding send_status
    told_exposing-Common n k ls moved sub_state m (a, b, c, d, e, f, g) =
        (a, b, ap₂ (λ x xs. x ∷ xs) b c, d, e, f, g)

    -- An exposure is begun, and the thread that loaded its image is over.
    pub enter_exposing-Common :
        (n k : ℕ) (ls : List ℕ) (moved : Bool) (m : Engine devices)
        → Common n k ls moved m
        → Common n k (k ∷ ls) moved (enter devices exposing m)
          × ((enter devices exposing m).bgnd_thread ≡ false)
    unfolding enter expose start_exposure_timer send_status
    enter_exposing-Common n k ls moved m (a, b, c, d, e, f, g) =
        rw (g, waited.0)
          (
            attempt-Common n k (k ∷ ls) moved _ _ shown
                (attempt-Common n k (k ∷ ls) moved _ _ next waited.2),
            bgnd_thread-attempt _ _ shown ∙ bgnd_thread-attempt _ _ next ∙ waited.1,
          )
      where
        screen : UiSubState
        screen = if m.inspection_requested then about_to_pause else no_ui_sub_state

        told : Engine devices
        told = send_status devices exposing entering screen m

        next : Engine devices
        next = (await_end_of_background_thread devices false told).1

        shown : Engine devices
        shown = attempt devices show_current_image cant_show_image next

        waited :
            ((await_end_of_background_thread devices false told).0 ≡ true)
            × (next.bgnd_thread ≡ false)
            × Common n k (k ∷ ls) moved next
        waited =
            await-Common n k (k ∷ ls) moved told
              (told_exposing-Common n k ls moved screen m (a, b, c, d, e, f, g))

    -- The next layer is begun.
    pub enter_initializing_layer-Common :
        (n k : ℕ) (ls : List ℕ) (moved : Bool) (m : Engine devices)
        → Common n k ls moved m
        → Common n (suc k) ls moved (record (enter devices initializing_layer m) { posted = [] })
          × ((enter devices initializing_layer m).posted ≡ ev_initialized ∷ [])
    unfolding enter next_layer set_estimated_print_time get_current_layer_settings send_status
    enter_initializing_layer-Common n k ls moved m (a, b, c, d, e, f, g) =
        rw (fine.closed m.world)
          ((a, ap suc b, c, refl, e, f, g), ap (λ es. es ++ (ev_initialized ∷ [])) d)

    pub load_next_layer_image-Common :
        (n k : ℕ) (ls : List ℕ) (moved : Bool) (m : Engine devices)
        → Common n k ls moved m
        → m.bgnd_thread ≡ false
        → ((load_next_layer_image devices m).0 ≡ true)
          × Common n k ls moved ((load_next_layer_image devices m).1)
    unfolding load_next_layer_image
    load_next_layer_image-Common n k ls moved m h idle =
        rw (fine.data_there m.world, idle, fine.works _ m.world) (refl, h)

    abbrev Told :
        List PrinterEvent → List (PrinterStatus (doubles.Double)) → Engine devices → Type 0
    Told es ss m = (m.posted ≡ es) × (m.sent ≡ ss)

    attempt-Told :
        (es : List PrinterEvent) (ss : List (PrinterStatus (doubles.Double)))
        (c : Call (doubles.Double)) (code : ErrorCode) (m : Engine devices)
        → Told es ss m
        → Told es ss (attempt devices c code m)
    unfolding attempt
    attempt-Told es ss c code m h = rw (fine.works c m.world) h

    -- Clearing the print sends no status and, without failures, posts nothing.
    pub clear_current_print-Told :
        (m : Engine devices) → Told m.posted m.sent (clear_current_print devices false m)
    unfolding clear_current_print pause_movement clear_pending_movement set_num_layers
        clear_delay_timer clear_exposure_timer clear_pending_exposure_info clear_motor_timeout_timer
    clear_current_print-Told m = attempt-Told _ _ _ _ _ (
        attempt-Told _ _ _ _ _ (
          attempt-Told _ _ _ _ _ (
            attempt-Told _ _ _ _ _
              (attempt-Told _ _ _ _ _ (attempt-Told m.posted m.sent _ _ m (refl, refl))))))

    pub enter_press_delay-Common :
        (n k : ℕ) (ls : List ℕ) (moved : Bool) (m : Engine devices)
        → Common n k ls moved m
        → Common n k ls moved (enter devices press_delay m)
    unfolding enter send_status start_delay_timer
    enter_press_delay-Common n k ls moved m h = attempt-Common n k ls moved _ _ _ h

    pub enter_pre_exposure_delay-Common :
        (n k : ℕ) (ls : List ℕ) (moved : Bool) (m : Engine devices)
        → needs_pre_exposure_delay devices m ≡ true
        → Common n k ls moved m
        → Common n k ls moved (enter devices pre_exposure_delay m)
    unfolding enter send_status start_delay_timer needs_pre_exposure_delay
    enter_pre_exposure_delay-Common n k ls moved m needed h =
        rw needed (attempt-Common n k ls moved _ _ _ h)

    -- Nothing is left of the print but what was told of it.
    pub clear_current_print-Common :
        (n k : ℕ) (ls : List ℕ) (moved : Bool) (m : Engine devices)
        → Common n k ls moved m
        → let x = clear_current_print devices false m in Common 0 0 ls x.motion_completed x
    clear_current_print-Common n k ls moved m c = (
      cleared.no_layers,
      cleared.no_layer,
      ap exposures told.1 ∙ c.2,
      told.0 ∙ c.3,
      cleared.no_pause,
      refl,
      ap (positive devices) cleared.no_exposure ∙ fine.no_time,
    )
      where
        cleared : Cleared devices (clear_current_print devices false m)
        cleared = clear_current_print-Cleared devices false m

        told : Told m.posted m.sent (clear_current_print devices false m)
        told = clear_current_print-Told m
