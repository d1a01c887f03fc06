-- ===== src/Avr/StateMachine/Pausing.antt =====
-- Pausing and resuming a motion, with commands arriving meanwhile.
use ember_firmware.Prelude.{
  ◌+◌, ◌≤◌, ◌<◌, ◌≡◌, refl, sym, ◌∙◌, ap, subst, inl, inr, true, List, [], ◌∷◌, ◌++◌, arith, length,
  length-append, append-nil, append_assoc,
}
use ember_firmware.Avr.Codes.{
  State, homing_z_axis, homing_r_axis, moving_axis, homing_z_axis_decelerating_for_pause,
  homing_r_axis_decelerating_for_pause, moving_axis_decelerating_for_pause, homing_z_axis_paused,
  homing_r_axis_paused, moving_axis_paused, Event, pause_requested, resume_requested,
  motion_complete, EventData,
}
use ember_firmware.Avr.EventQueue.Refine.{contents}
use ember_firmware.Avr.Platform.{Platform}
use ember_firmware.Avr.Firmware.{McState, FirmwareOn}
use ember_firmware.Avr.StateMachine.Step.{react, carry_out, perform_all, perform, handle_event}
use ember_firmware.Avr.StateMachine.Queueing.{
  is_deferrable, AllDeferrable, QueueFits, handle_event-QueueFits,
}
use ember_firmware.Avr.StateMachine.Deferral.{is_busy, handle_event-Deferred}

-- The motions that can be paused.
pub data MotionKind : Type 0 where
  home_z home_r move : MotionKind

abbrev pub running : MotionKind → State
running home_z = homing_z_axis
running home_r = homing_r_axis
running move = moving_axis

abbrev pub stopping : MotionKind → State
stopping home_z = homing_z_axis_decelerating_for_pause
stopping home_r = homing_r_axis_decelerating_for_pause
stopping move = moving_axis_decelerating_for_pause

abbrev pub paused : MotionKind → State
paused home_z = homing_z_axis_paused
paused home_r = homing_r_axis_paused
paused move = moving_axis_paused

module _ (platform : Platform) where
  open platform use {begin_hold, end_hold}

  -- The events, each with its data, handled one after the other.
  unfoldable pub run : List (Event × EventData) → FirmwareOn platform → FirmwareOn platform
  run [] fw = fw
  run ((e, d) ∷ events) fw = run events (handle_event platform d e fw)

  run-append :
      (xs ys : List (Event × EventData)) (fw : FirmwareOn platform)
      → run (xs ++ ys) fw ≡ run ys (run xs fw)
  unfolding run
  run-append [] ys fw = refl
  run-append ((e, d) ∷ xs) ys fw = run-append xs ys (handle_event platform d e fw)

  -- What a list of deferred commands leaves behind.
  record Waited (cs : List (Event × EventData)) (old new : FirmwareOn platform) : Type 0 where
    mc : new.mc ≡ old.mc
    motion : new.motion ≡ old.motion
    queue : contents new.queue ≡ contents old.queue ++ cs
    fits : QueueFits platform new

  deferred_one :
      (e : Event) (d : EventData) (fw : FirmwareOn platform)
      → QueueFits platform fw
      → is_busy fw.mc.sm_state ≡ true
      → is_deferrable e ≡ true
      → length (contents fw.queue) < 15
      → Waited ((e, d) ∷ []) fw (handle_event platform d e fw)
  deferred_one e d fw f b c room =
      let done = handle_event-Deferred platform e d fw f.valid b c in
      elim (done.stored) [
        | inl (_, queued, same) ↦ record {
          mc = same;
          motion = done.same_motion;
          queue = queued;
          fits = handle_event-QueueFits platform e d fw f;
        }
        | inr (full, _, _, _) ↦ absurd (omega arith)
      ]

  deferred_all :
      (cs : List (Event × EventData)) (fw : FirmwareOn platform)
      → QueueFits platform fw
      → is_busy fw.mc.sm_state ≡ true
      → AllDeferrable cs
      → length (contents fw.queue) + length cs ≤ 15
      → Waited cs fw (run cs fw)
  unfolding run
  deferred_all [] fw f b h room = record {
    mc = refl;
    motion = refl;
    queue = sym (append-nil (contents fw.queue));
    fits = f;
  }
  deferred_all ((e, d) ∷ cs) fw f b h room =
      let one = deferred_one e d fw f b h.0 (omega arith) in
      let rest =
        deferred_all cs (handle_event platform d e fw) one.fits (rw one.mc b) h.1
          (omega (arith, ap length one.queue, length-append (contents fw.queue) ((e, d) ∷ []))) in
      record {
        mc = rest.mc ∙ one.mc;
        motion = rest.motion ∙ one.motion;
        queue =
            rest.queue
            ∙ ap (λ q. q ++ cs) one.queue
            ∙ append_assoc (contents fw.queue) ((e, d) ∷ []) cs;
        fits = rest.fits;
      }

  pause_lem :
      (k : MotionKind) (d : EventData) (fw : FirmwareOn platform)
      → fw.mc.sm_state ≡ running k
      → handle_event platform d pause_requested fw
        ≡ record fw { mc = record (fw.mc) { sm_state = stopping k }; motion = begin_hold fw.motion }
  unfolding handle_event react carry_out perform_all perform
  pause_lem home_z d fw e = rw e
  pause_lem home_r d fw e = rw e
  pause_lem move d fw e = rw e

  stopped_lem :
      (k : MotionKind) (d : EventData) (fw : FirmwareOn platform)
      → fw.mc.sm_state ≡ stopping k
      → handle_event platform d motion_complete fw
        ≡ record fw { mc = record (fw.mc) { sm_state = paused k } }
  unfolding handle_event react carry_out perform_all perform
  stopped_lem home_z d fw e = rw e
  stopped_lem home_r d fw e = rw e
  stopped_lem move d fw e = rw e

  resume_lem :
      (k : MotionKind) (d : EventData) (fw : FirmwareOn platform)
      → fw.mc.sm_state ≡ paused k
      → handle_event platform d resume_requested fw ≡ record fw {
        mc = record (fw.mc) { sm_state = running k };
        motion = (end_hold fw.motion).1;
      }
  unfolding handle_event react carry_out perform_all perform
  resume_lem home_z d fw e = rw e
  resume_lem home_r d fw e = rw e
  resume_lem move d fw e = rw e

  -- The state in which the pause leaves the controller, with `motion'` for its motion system.
  abbrev in_state : State → platform.Motion → FirmwareOn platform → FirmwareOn platform
  in_state s motion' fw = record fw { mc = record (fw.mc) { sm_state = s }; motion = motion' }

  in_state-QueueFits :
      (s : State) (m : platform.Motion) (fw : FirmwareOn platform)
      → QueueFits platform fw
      → QueueFits platform (in_state s m fw)
  in_state-QueueFits s m fw f = record { valid = f.valid; waiting = f.waiting; taken = f.taken }

  is_busy-stopping : (k : MotionKind) → is_busy (stopping k) ≡ true
  is_busy-stopping home_z = refl
  is_busy-stopping home_r = refl
  is_busy-stopping move = refl

  is_busy-paused : (k : MotionKind) → is_busy (paused k) ≡ true
  is_busy-paused home_z = refl
  is_busy-paused home_r = refl
  is_busy-paused move = refl

  abbrev at_state : State → McState platform.floats.Float → McState platform.floats.Float
  at_state s mc = record mc { sm_state = s }

  abbrev pub Resumed : FirmwareOn platform → List (Event × EventData) → FirmwareOn platform → Type 0
  Resumed fw es fw' =
      (fw'.mc ≡ fw.mc)
      × (fw'.motion ≡ (end_hold (begin_hold fw.motion)).1)
      × (contents fw'.queue ≡ contents fw.queue ++ es)

  -- With a well-formed queue of interrupt, disable, home, move and settings commands, a homing or
  -- move that is paused, whose axis then stops, and that is resumed goes on in the state it was
  -- in; such commands that arrived meanwhile wait in the order of arrival behind those that
  -- waited before, if these are 15 at most together; the motion system's hold has begun and ended
  -- once, and no flag has changed.
  pub pause_and_resume :
      (k : MotionKind) (cs ds : List (Event × EventData)) (d1 d2 d3 : EventData)
      (fw : FirmwareOn platform)
      → QueueFits platform fw
      → fw.mc.sm_state ≡ running k
      → AllDeferrable cs
      → AllDeferrable ds
      → length (contents fw.queue) + (length cs + length ds) ≤ 15
      → Resumed fw (cs ++ ds) (
          run
            ((pause_requested, d1)
              ∷ (cs ++ ((motion_complete, d2) ∷ (ds ++ ((resume_requested, d3) ∷ [])))))
            fw)
  unfolding run
  pause_and_resume k cs ds d1 d2 d3 fw f e hc hd room = subst (Resumed fw (cs ++ ds)) (sym whole) (
    ap (at_state (running k)) second.mc
        ∙ ap (at_state (running k)) first.mc
        ∙ ap (λ s. at_state s fw.mc) (sym e),
    ap (λ m. (end_hold m).1) (second.motion ∙ first.motion),
    second.queue ∙ ap (λ q. q ++ ds) first.queue ∙ append_assoc (contents fw.queue) cs ds,
  )
    where
      f1 : FirmwareOn platform
      f1 = in_state (stopping k) (begin_hold fw.motion) fw

      f2 : FirmwareOn platform
      f2 = run cs f1

      first : Waited cs f1 f2
      first =
          deferred_all cs f1 (in_state-QueueFits (stopping k) (begin_hold fw.motion) fw f)
            (is_busy-stopping k) hc (omega arith)

      f3 : FirmwareOn platform
      f3 = record f2 { mc = record (f2.mc) { sm_state = paused k } }

      f4 : FirmwareOn platform
      f4 = run ds f3

      second : Waited ds f3 f4
      second =
          deferred_all ds f3 (in_state-QueueFits (paused k) f2.motion f2 first.fits)
            (is_busy-paused k) hd
            (omega (arith, ap length first.queue, length-append (contents fw.queue) cs))

      last : List (Event × EventData)
      last = (resume_requested, d3) ∷ []

      whole :
          run ((pause_requested, d1) ∷ (cs ++ ((motion_complete, d2) ∷ (ds ++ last)))) fw
          ≡ in_state (running k) (end_hold f4.motion).1 f4
      whole =
          ap (run (cs ++ ((motion_complete, d2) ∷ (ds ++ last)))) (pause_lem k d1 fw e)
          ∙ run-append cs ((motion_complete, d2) ∷ (ds ++ last)) f1
          ∙ ap (run (ds ++ last)) (stopped_lem k d2 f2 (ap (λ mc. mc.sm_state) first.mc))
          ∙ run-append ds last f3
          ∙ resume_lem k d3 f4 (ap (λ mc. mc.sm_state) second.mc)
