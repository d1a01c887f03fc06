-- ===== src/Avr/StateMachine/Deferral.antt =====
-- Commands that arrive while an axis is busy are deferred, in order.
use ember_firmware.Prelude.{
  ◌≤◌, ◌<◌, ◌≡◌, refl, ◌⊎◌, inl, inr, Bool, true, false, [], ◌∷◌, ◌++◌, arith, length,
}
use native.Mathlib.Decide.{dec_lt}
use ember_firmware.Avr.Codes.{
  State, undefined, homing_z_axis, error, homing_z_axis_paused, homing_r_axis,
  decelerating_for_completion, homing_r_axis_decelerating_for_resume, moving_axis,
  homing_r_axis_paused, moving_axis_decelerating_for_resume, moving_axis_paused,
  homing_r_axis_decelerating_for_pause, ready_for_action, ready, decelerating_for_sequence_pause,
  waiting_for_interrupt_request, homing_z_axis_decelerating_for_resume, decelerating_after_clear,
  disabled, moving_axis_decelerating_for_pause, homing_z_axis_decelerating_for_pause,
  decelerating_for_sequence_resume, sequence_paused, Event, EventData, status_success,
  status_event_queue_full,
}
use ember_firmware.Avr.EventQueue.{EventQueue}
use ember_firmware.Avr.EventQueue
use ember_firmware.Avr.EventQueue.Refine.{IsValid, contents, add_refines, add-IsValid}
use ember_firmware.Avr.EventQueue.Refine
use ember_firmware.Avr.Platform.{Platform}
use ember_firmware.Avr.Firmware.{FirmwareOn}
use ember_firmware.Avr.StateMachine.Reaction.{stay, enqueue_event}
use ember_firmware.Avr.StateMachine.Step.{
  react, enqueue, perform, perform_all, carry_out, handle_event,
}
use ember_firmware.Avr.StateMachine.Queueing.{is_deferrable}

-- The states in which an axis moves or is held, or the queue is paused.
abbrev pub is_busy : State → Bool
is_busy homing_z_axis = true
is_busy homing_z_axis_paused = true
is_busy homing_r_axis = true
is_busy decelerating_for_completion = true
is_busy homing_r_axis_decelerating_for_resume = true
is_busy moving_axis = true
is_busy homing_r_axis_paused = true
is_busy moving_axis_decelerating_for_resume = true
is_busy moving_axis_paused = true
is_busy homing_r_axis_decelerating_for_pause = true
is_busy decelerating_for_sequence_pause = true
is_busy homing_z_axis_decelerating_for_resume = true
is_busy decelerating_after_clear = true
is_busy moving_axis_decelerating_for_pause = true
is_busy homing_z_axis_decelerating_for_pause = true
is_busy decelerating_for_sequence_resume = true
is_busy sequence_paused = true
is_busy _ = false

-- In a busy state a command is queued, and nothing else happens.
pub react_busy :
    (s : State) (e : Event)
    → is_busy s ≡ true
    → is_deferrable e ≡ true
    → react s e ≡ stay (enqueue_event ∷ [])
unfolding react
react_busy homing_z_axis e b c = ground arith
react_busy error e b c = ground arith
react_busy homing_z_axis_paused e b c = ground arith
react_busy homing_r_axis e b c = ground arith
react_busy decelerating_for_completion e b c = ground arith
react_busy homing_r_axis_decelerating_for_resume e b c = ground arith
react_busy moving_axis e b c = ground arith
react_busy homing_r_axis_paused e b c = ground arith
react_busy moving_axis_decelerating_for_resume e b c = ground arith
react_busy moving_axis_paused e b c = ground arith
react_busy homing_r_axis_decelerating_for_pause e b c = ground arith
react_busy ready_for_action e b c = ground arith
react_busy ready e b c = ground arith
react_busy decelerating_for_sequence_pause e b c = ground arith
react_busy waiting_for_interrupt_request e b c = ground arith
react_busy homing_z_axis_decelerating_for_resume e b c = ground arith
react_busy decelerating_after_clear e b c = ground arith
react_busy disabled e b c = ground arith
react_busy moving_axis_decelerating_for_pause e b c = ground arith
react_busy homing_z_axis_decelerating_for_pause e b c = ground arith
react_busy decelerating_for_sequence_resume e b c = ground arith
react_busy sequence_paused e b c = ground arith
react_busy (undefined n) e b c = cc

-- What queueing an event amounts to.
pub record Deferred (platform : Platform) (e : Event) (d : EventData)
    (old new : FirmwareOn platform) : Type 0 where
  pub same_state : new.mc.sm_state ≡ old.mc.sm_state
  pub same_motion : new.motion ≡ old.motion
  pub same_pins : new.pins ≡ old.pins
  pub stored :
      ((length (contents old.queue) < 15)
        × (contents new.queue ≡ contents old.queue ++ ((e, d) ∷ []))
        × (new.mc ≡ old.mc))
      ⊎ ((15 ≤ length (contents old.queue))
          × (contents new.queue ≡ contents old.queue)
          × (new.mc.error ≡ true)
          × (new.mc.status ≡ status_event_queue_full))

pub add_room :
    (q : EventQueue) (e : Event) (d : EventData)
    → IsValid q
    → length (contents q) < 15
    → ((EventQueue.add q e d).0 ≡ status_success)
      × (contents (EventQueue.add q e d).1 ≡ contents q ++ ((e, d) ∷ []))
unfolding Refine.enqueue
add_room q e d v room = ground (arith, add_refines q e d v)

add_full :
    (q : EventQueue) (e : Event) (d : EventData)
    → IsValid q
    → 15 ≤ length (contents q)
    → ((EventQueue.add q e d).0 ≡ status_event_queue_full)
      × (contents (EventQueue.add q e d).1 ≡ contents q)
unfolding Refine.enqueue
add_full q e d v full = ground (arith, add_refines q e d v)

module _ (platform : Platform) where
  enqueue-Deferred :
      (e : Event) (d : EventData) (fw : FirmwareOn platform)
      → IsValid fw.queue
      → Deferred platform e d fw (enqueue platform e d fw)
  unfolding enqueue
  enqueue-Deferred e d fw v = elim (dec_lt (length (contents fw.queue)) 15) [
    | yes room ↦
        let (ok, stored) = add_room fw.queue e d v room in
        rw ok (record {
          same_state = refl;
          same_motion = refl;
          same_pins = refl;
          stored = inl (room, stored, refl);
        })
    | no full ↦
        let (refused, kept) = add_full fw.queue e d v (omega arith) in
        rw refused (record {
          same_state = refl;
          same_motion = refl;
          same_pins = refl;
          stored = inr (omega arith, kept, refl, refl);
        })
  ]

  -- With a well-formed queue, an event of an interrupt, disable, home, move or settings command
  -- (not of pause, resume, clear, reset or enable) that arrives while an axis moves, stops or is
  -- held, or while the sequence is paused, is appended to the event queue without touching the
  -- motion or a pin; if 15 events wait, the queue is kept and the error flag is raised with the
  -- status for a full queue.
  pub handle_event-Deferred :
      (e : Event) (d : EventData) (fw : FirmwareOn platform)
      → IsValid fw.queue
      → is_busy fw.mc.sm_state ≡ true
      → is_deferrable e ≡ true
      → Deferred platform e d fw (handle_event platform d e fw)
  unfolding handle_event carry_out perform_all perform
  handle_event-Deferred e d fw v b c =
      rw (react_busy fw.mc.sm_state e b c, carry_out) (enqueue-Deferred e d fw v)
