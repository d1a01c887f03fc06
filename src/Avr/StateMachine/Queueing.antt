-- ===== src/Avr/StateMachine/Queueing.antt =====
-- The events that the controller defers: what its queue may hold, and that nothing gets lost.
use ember_firmware.Prelude.{
  ◌≡◌, refl, sym, ◌≢◌, subst, Bool, true, false, List, [], ◌∷◌, ◌++◌, arith, Bool-cases, inl, inr,
}
use ember_firmware.Avr.Codes.{
  State, undefined, homing_z_axis, error, homing_z_axis_paused, homing_r_axis,
  decelerating_for_completion, homing_r_axis_decelerating_for_resume, moving_axis,
  homing_r_axis_paused, moving_axis_decelerating_for_resume, moving_axis_paused,
  homing_r_axis_decelerating_for_pause, ready_for_action, ready, decelerating_for_sequence_pause,
  waiting_for_interrupt_request, homing_z_axis_decelerating_for_resume, decelerating_after_clear,
  disabled, moving_axis_decelerating_for_pause, homing_z_axis_decelerating_for_pause,
  decelerating_for_sequence_resume, sequence_paused, Event, interrupt_requested,
  home_r_axis_requested, disable_requested, move_r_axis_requested, set_z_axis_setting_requested,
  move_z_axis_requested, set_r_axis_setting_requested, home_z_axis_requested, EventData, Status,
  status_success,
}
use ember_firmware.Avr.EventQueue.{EventQueue}
use ember_firmware.Avr.EventQueue
use ember_firmware.Avr.EventQueue.Refine.{
  IsValid, contents, length-contents, add-IsValid, remove-IsValid, clear-IsValid, add_refines,
  remove_refines, is_empty_iff, contents-clear,
}
use ember_firmware.Avr.EventQueue.Refine
use ember_firmware.Avr.Platform.{Platform}
use ember_firmware.Avr.Firmware.{FirmwareOn}
use ember_firmware.Avr.Motors
use ember_firmware.Avr.StateMachine.Reaction.{
  Action, Reaction, stay, go, set_reset_flag, dequeue_event, enqueue_event, clear_event_queue,
  disable_motor_drivers, enable_motor_drivers,
}
use ember_firmware.Avr.StateMachine.Step.{
  react, check_status, enqueue, dequeue, perform, perform_all, carry_out, handle_event,
}
use ember_firmware.Avr.StateMachine.Effects.{quiet-Untouched}
use ember_firmware.Avr.StateMachine.Outcome.{actions_of}

-- The events that stand for the queued commands: those that wait for the current motion to end.
abbrev pub is_deferrable : Event → Bool
is_deferrable interrupt_requested = true
is_deferrable home_r_axis_requested = true
is_deferrable disable_requested = true
is_deferrable move_r_axis_requested = true
is_deferrable set_z_axis_setting_requested = true
is_deferrable move_z_axis_requested = true
is_deferrable set_r_axis_setting_requested = true
is_deferrable home_z_axis_requested = true
is_deferrable _ = false

abbrev pub AllDeferrable : List (Event × EventData) → Type 0
AllDeferrable [] = Unit {0}
AllDeferrable ((e, d) ∷ es) = (is_deferrable e ≡ true) × AllDeferrable es

AllDeferrable-append :
    (es : List (Event × EventData)) (e : Event) (d : EventData)
    → AllDeferrable es
    → is_deferrable e ≡ true
    → AllDeferrable (es ++ ((e, d) ∷ []))
AllDeferrable-append [] e d h c = (c, tt)
AllDeferrable-append ((e', d') ∷ es) e d h c = (h.0, AllDeferrable-append es e d h.1 c)

-- The queue is well formed, and it and the event that was taken from it are deferrable.
pub record QueueFits (platform : Platform) (fw : FirmwareOn platform) : Type 0 where
  pub valid : IsValid fw.queue
  pub waiting : AllDeferrable (contents fw.queue)
  pub taken : fw.mc.queued_event ≡ true → is_deferrable fw.mc.queued_event_code ≡ true

abbrev enqueues : List Action → Bool
enqueues [] = false
enqueues (enqueue_event ∷ actions) = true
enqueues (_ ∷ actions) = enqueues actions

-- Only deferrable events are ever put into the queue.
enqueues_commands :
    (s : State) (e : Event) → enqueues (actions_of (react s e)) ≡ true → is_deferrable e ≡ true
unfolding react
enqueues_commands homing_z_axis e h = ground arith
enqueues_commands error e h = ground arith
enqueues_commands homing_z_axis_paused e h = ground arith
enqueues_commands homing_r_axis e h = ground arith
enqueues_commands decelerating_for_completion e h = ground arith
enqueues_commands homing_r_axis_decelerating_for_resume e h = ground arith
enqueues_commands moving_axis e h = ground arith
enqueues_commands homing_r_axis_paused e h = ground arith
enqueues_commands moving_axis_decelerating_for_resume e h = ground arith
enqueues_commands moving_axis_paused e h = ground arith
enqueues_commands homing_r_axis_decelerating_for_pause e h = ground arith
enqueues_commands ready_for_action e h = ground arith
enqueues_commands ready e h = ground arith
enqueues_commands decelerating_for_sequence_pause e h = ground arith
enqueues_commands waiting_for_interrupt_request e h = ground arith
enqueues_commands homing_z_axis_decelerating_for_resume e h = ground arith
enqueues_commands decelerating_after_clear e h = ground arith
enqueues_commands disabled e h = ground arith
enqueues_commands moving_axis_decelerating_for_pause e h = ground arith
enqueues_commands homing_z_axis_decelerating_for_pause e h = ground arith
enqueues_commands decelerating_for_sequence_resume e h = ground arith
enqueues_commands sequence_paused e h = ground arith
enqueues_commands (undefined n) e h = ground arith

add-AllDeferrable :
    (q : EventQueue) (e : Event) (d : EventData)
    → IsValid q
    → AllDeferrable (contents q)
    → is_deferrable e ≡ true
    → AllDeferrable (contents (EventQueue.add q e d).1)
unfolding Refine.enqueue
add-AllDeferrable q e d v h c =
    ground (arith, add_refines q e d v, AllDeferrable-append (contents q) e d h c)

abbrev DeferrableTaken : Event × EventData × List (Event × EventData) → Type 0
DeferrableTaken t = (is_deferrable t.0 ≡ true) × AllDeferrable t.2

dequeue-DeferrableTaken :
    (es : List (Event × EventData)) (e : Event) (d : EventData)
    → AllDeferrable es
    → es ≢ []
    → DeferrableTaken (Refine.dequeue es e d)
unfolding Refine.dequeue
dequeue-DeferrableTaken [] e d h some_wait = absurd (some_wait refl)
dequeue-DeferrableTaken ((e', d') ∷ es) e d h some_wait = h

remove-DeferrableTaken :
    (q : EventQueue) (e : Event) (d : EventData)
    → IsValid q
    → EventQueue.is_empty q ≡ false
    → AllDeferrable (contents q)
    → let (e', d', q') = EventQueue.remove q e d in DeferrableTaken (e', d', contents q')
remove-DeferrableTaken q e d v some_wait h = subst DeferrableTaken (sym (remove_refines q e d v)) (
    dequeue-DeferrableTaken (contents q) e d h (λ none_waits. cc ((is_empty_iff q v).1 none_waits)))

later :
    (a : Action) (actions : List Action) → enqueues actions ≡ true → enqueues (a ∷ actions) ≡ true
later enqueue_event actions e = refl
later _ actions e = e

now :
    (a : Action) (actions : List Action) → enqueues (a ∷ []) ≡ true → enqueues (a ∷ actions) ≡ true
now enqueue_event actions e = refl
now _ actions e = cc

module _ (platform : Platform) (code : Event) (d : EventData) where
  check_status-QueueFits :
      (r : Status × FirmwareOn platform)
      → QueueFits platform r.1
      → QueueFits platform (check_status platform r)
  check_status-QueueFits (status_success, fw) f = f
  check_status-QueueFits (e, fw) f = record {
    valid = f.valid;
    waiting = f.waiting;
    taken = f.taken;
  }

  enqueue-QueueFits :
      (fw : FirmwareOn platform)
      → is_deferrable code ≡ true
      → QueueFits platform fw
      → QueueFits platform (enqueue platform code d fw)
  unfolding enqueue
  enqueue-QueueFits fw c f =
      check_status-QueueFits
        (
          (EventQueue.add fw.queue code d).0,
          record fw { queue = (EventQueue.add fw.queue code d).1 },
        )
        (record {
          valid = add-IsValid fw.queue code d f.valid;
          waiting = add-AllDeferrable fw.queue code d f.valid f.waiting c;
          taken = f.taken;
        })

  dequeue-QueueFits :
      (fw : FirmwareOn platform) → QueueFits platform fw → QueueFits platform (dequeue platform fw)
  unfolding dequeue
  dequeue-QueueFits fw f = elim (Bool-cases (EventQueue.is_empty fw.queue)) [
    | inl none_waits ↦ rw none_waits f
    | inr some_wait ↦
        let found =
          remove-DeferrableTaken fw.queue fw.mc.queued_event_code fw.mc.queued_event_data f.valid
            some_wait f.waiting in
        rw some_wait (record {
          valid = remove-IsValid fw.queue fw.mc.queued_event_code fw.mc.queued_event_data f.valid;
          waiting = found.1;
          taken = λ _. found.0;
        })
  ]

  perform-QueueFits :
      (a : Action) (fw : FirmwareOn platform)
      → (enqueues (a ∷ []) ≡ true → is_deferrable code ≡ true)
      → QueueFits platform fw
      → QueueFits platform (perform platform code d a fw)
  unfolding perform Motors.enable Motors.disable
  perform-QueueFits set_reset_flag fw h f = record {
    valid = f.valid;
    waiting = f.waiting;
    taken = f.taken;
  }
  perform-QueueFits dequeue_event fw h f = dequeue-QueueFits fw f
  perform-QueueFits enqueue_event fw h f = enqueue-QueueFits fw (h refl) f
  perform-QueueFits clear_event_queue fw h f = record {
    valid = clear-IsValid fw.queue f.valid;
    waiting = rw (contents-clear fw.queue) tt;
    taken = f.taken;
  }
  perform-QueueFits disable_motor_drivers fw h f = record {
    valid = f.valid;
    waiting = f.waiting;
    taken = f.taken;
  }
  perform-QueueFits enable_motor_drivers fw h f = record {
    valid = f.valid;
    waiting = f.waiting;
    taken = f.taken;
  }
  perform-QueueFits a fw h f =
      let u = quiet-Untouched platform code d a fw refl in
      record {
        valid = rw u.queue f.valid;
        waiting = rw u.queue f.waiting;
        taken = rw (u.queued_event, u.queued_code) f.taken;
      }

  perform_all-QueueFits :
      (actions : List Action) (fw : FirmwareOn platform)
      → (enqueues actions ≡ true → is_deferrable code ≡ true)
      → QueueFits platform fw
      → QueueFits platform (perform_all platform code d actions fw)
  unfolding perform_all
  perform_all-QueueFits [] fw h f = f
  perform_all-QueueFits (a ∷ actions) fw h f =
      perform_all-QueueFits actions (perform platform code d a fw) (λ e. h (later a actions e))
        (perform-QueueFits a fw (λ e. h (now a actions e)) f)

  -- If the event queue is well formed and holds only events of interrupt, disable, home, move and
  -- settings commands, as does the event taken from it, every event in every state keeps it well
  -- formed and keeps only such events in it and in the event taken from it.
  pub handle_event-QueueFits :
      (fw : FirmwareOn platform)
      → QueueFits platform fw
      → QueueFits platform (handle_event platform d code fw)
  unfolding handle_event
  handle_event-QueueFits fw f =
      carried (react fw.mc.sm_state code) (enqueues_commands fw.mc.sm_state code)
    where
      carried :
          (r : Reaction)
          → (enqueues (actions_of r) ≡ true → is_deferrable code ≡ true)
          → QueueFits platform (carry_out platform code d r fw)
      carried (stay actions) h = unfold carry_out in perform_all-QueueFits actions fw h f
      carried (go target actions) h =
          unfold carry_out in
          perform_all-QueueFits actions _ h
            (record { valid = f.valid; waiting = f.waiting; taken = f.taken })
