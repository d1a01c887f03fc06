-- ===== src/Avr/StateMachine/Completion.antt =====
-- Whether the motion system is told that a motion is over.
use ember_firmware.Prelude.{◌≡◌, subst, ◌≢◌, ◌⊎◌, inl, inr, Bool, true, false, [], ◌∷◌, arith}
use ember_firmware.Avr.Codes.{
  State, undefined, homing_z_axis, error, homing_z_axis_paused, homing_r_axis,
  decelerating_for_completion, homing_r_axis_decelerating_for_resume, moving_axis,
  homing_r_axis_paused, moving_axis_decelerating_for_resume, moving_axis_paused,
  homing_r_axis_decelerating_for_pause, ready_for_action, ready, decelerating_for_sequence_pause,
  waiting_for_interrupt_request, homing_z_axis_decelerating_for_resume, decelerating_after_clear,
  disabled, moving_axis_decelerating_for_pause, homing_z_axis_decelerating_for_pause,
  decelerating_for_sequence_resume, sequence_paused, Event, axis_at_limit, pause_requested,
  resume_requested, motion_complete, EventData,
}
use ember_firmware.Avr.Platform.{Platform}
use ember_firmware.Avr.Firmware.{FirmwareOn}
use ember_firmware.Avr.Controller
use ember_firmware.Avr.StateMachine.Reaction.{
  Reaction, stay, go, end_motion, dequeue_event, clear_event_queue,
}
use ember_firmware.Avr.StateMachine.Step.{
  react, dequeue, perform, perform_all, carry_out, handle_event,
}
use ember_firmware.Avr.StateMachine.Outcome.{target_of, sm_state-carry_out}
use ember_firmware.Avr.StateMachine.Pausing.{run}

-- The states between the start of a motion and its completion.
abbrev pub in_motion : State → Bool
in_motion homing_z_axis = true
in_motion homing_z_axis_paused = true
in_motion homing_r_axis = true
in_motion decelerating_for_completion = true
in_motion homing_r_axis_decelerating_for_resume = true
in_motion moving_axis = true
in_motion homing_r_axis_paused = true
in_motion moving_axis_decelerating_for_resume = true
in_motion moving_axis_paused = true
in_motion homing_r_axis_decelerating_for_pause = true
in_motion decelerating_for_sequence_pause = true
in_motion homing_z_axis_decelerating_for_resume = true
in_motion decelerating_after_clear = true
in_motion moving_axis_decelerating_for_pause = true
in_motion homing_z_axis_decelerating_for_pause = true
in_motion decelerating_for_sequence_resume = true
in_motion _ = false

-- The ways to end a motion: alone, and with the queue served or cleared.
abbrev Ends : Reaction → Type 0
Ends (stay actions) = ⊥
Ends (go t actions) =
    (actions ≡ end_motion ∷ [])
    ⊎ (actions ≡ end_motion ∷ dequeue_event ∷ [])
    ⊎ (actions ≡ end_motion ∷ clear_event_queue ∷ [])

table :
    (s : State) (e : Event)
    → in_motion s ≡ true
    → in_motion (target_of (react s e) s) ≡ false
    → target_of (react s e) s ≢ error
    → target_of (react s e) s ≢ disabled
    → e ≢ axis_at_limit
    → s ≢ decelerating_for_sequence_resume
    → Ends (react s e)
unfolding react
table homing_z_axis e moving still up on move_needed other = ground arith
table error e moving still up on move_needed other = ground arith
table homing_z_axis_paused e moving still up on move_needed other = ground arith
table homing_r_axis e moving still up on move_needed other = ground arith
table decelerating_for_completion e moving still up on move_needed other = ground arith
table homing_r_axis_decelerating_for_resume e moving still up on move_needed other = ground arith
table moving_axis e moving still up on move_needed other = ground arith
table homing_r_axis_paused e moving still up on move_needed other = ground arith
table moving_axis_decelerating_for_resume e moving still up on move_needed other = ground arith
table moving_axis_paused e moving still up on move_needed other = ground arith
table homing_r_axis_decelerating_for_pause e moving still up on move_needed other = ground arith
table ready_for_action e moving still up on move_needed other = ground arith
table ready e moving still up on move_needed other = ground arith
table decelerating_for_sequence_pause e moving still up on move_needed other = ground arith
table waiting_for_interrupt_request e moving still up on move_needed other = ground arith
table homing_z_axis_decelerating_for_resume e moving still up on move_needed other = ground arith
table decelerating_after_clear e moving still up on move_needed other = ground arith
table disabled e moving still up on move_needed other = ground arith
table moving_axis_decelerating_for_pause e moving still up on move_needed other = ground arith
table homing_z_axis_decelerating_for_pause e moving still up on move_needed other = ground arith
table decelerating_for_sequence_resume e moving still up on move_needed other = ground arith
table sequence_paused e moving still up on move_needed other = ground arith
table (undefined n) e moving still up on move_needed other = cc

module _ (platform : Platform) where
  open platform use {end_move, pool_initialize}

  motion-dequeue : (fw : FirmwareOn platform) → (dequeue platform fw).motion ≡ fw.motion
  unfolding dequeue
  motion-dequeue fw = ground arith

  state-dequeue : (fw : FirmwareOn platform) → (dequeue platform fw).mc.sm_state ≡ fw.mc.sm_state
  unfolding dequeue
  state-dequeue fw = ground arith

  Ends-motion :
      (r : Reaction) (e : Event) (d : EventData) (fw : FirmwareOn platform)
      → Ends r
      → (carry_out platform e d r fw).motion ≡ end_move (pool_initialize fw.motion)
  unfolding carry_out perform_all perform Controller.end_motion
  Ends-motion (stay actions) e d fw h = absurd h
  Ends-motion (go t actions) e d fw (inl h) = rw h
  Ends-motion (go t actions) e d fw (inr (inl h)) = rw h (motion-dequeue _)
  Ends-motion (go t actions) e d fw (inr (inr h)) = rw h

  -- An event that leads from a motion to a state without one, neither Error nor Disabled, ends
  -- the motion in the planner and empties its buffers, except for an axis found at its limit and
  -- in DeceleratingForSequenceResume.
  pub motion_ended :
      (d : EventData) (e : Event) (fw : FirmwareOn platform)
      → in_motion fw.mc.sm_state ≡ true
      → in_motion (handle_event platform d e fw).mc.sm_state ≡ false
      → (handle_event platform d e fw).mc.sm_state ≢ error
      → (handle_event platform d e fw).mc.sm_state ≢ disabled
      → e ≢ axis_at_limit
      → fw.mc.sm_state ≢ decelerating_for_sequence_resume
      → (handle_event platform d e fw).motion ≡ end_move (pool_initialize fw.motion)
  unfolding handle_event
  motion_ended d e fw moving still up on move_needed other = Ends-motion (react s e) e d fw (
      table s e moving (subst (λ t. in_motion t ≡ false) next still)
        (subst (λ t. t ≢ error) next up) (subst (λ t. t ≢ disabled) next on) move_needed other)
    where
      s : State
      s = fw.mc.sm_state

      next : (carry_out platform e d (react s e) fw).mc.sm_state ≡ target_of (react s e) s
      next = sm_state-carry_out platform e d (react s e) fw

  -- From DeceleratingForCompletion, MotionComplete ends the motion in the planner, but after a
  -- pause and a resume in between the same event leads to the same state with the motion system
  -- untouched.
  pub resumed_motion_not_ended :
      (d1 d2 d3 : EventData) (fw : FirmwareOn platform)
      → fw.mc.sm_state ≡ decelerating_for_completion
      → let plain = run platform ((motion_complete, d3) ∷ []) fw in
        let resumed =
          run platform
            ((pause_requested, d1) ∷ (resume_requested, d2) ∷ (motion_complete, d3) ∷ [])
            fw in
        (plain.mc.sm_state ≡ ready_for_action)
        × (resumed.mc.sm_state ≡ ready_for_action)
        × (plain.motion ≡ end_move (pool_initialize fw.motion))
        × (resumed.motion ≡ fw.motion)
  unfolding run handle_event react carry_out perform_all perform Controller.end_motion
  resumed_motion_not_ended d1 d2 d3 fw e =
      rw e (state-dequeue _, state-dequeue _, motion-dequeue _, motion-dequeue _)
