-- ===== src/Avr/MainLoop/Safety/Reachable.antt =====
-- What holds of the controller at every moment from `main` on, whatever bytes the I2C interrupt
-- receives and whenever interrupts come.
use ember_firmware.Prelude.{
  ◌≡◌, refl, length, if◌then◌else◌, Bool, true, false, Option, none, some, arith, inl,
}
use ember_firmware.Avr.Codes.{Status, EventData}
use ember_firmware.Avr.EventQueue.{event_queue_length}
use ember_firmware.Avr.EventQueue
use ember_firmware.Avr.EventQueue.Refine as Queue
use ember_firmware.Avr.CommandBuffer.{command_buffer_size}
use ember_firmware.Avr.CommandBuffer.Refine as Bytes
use ember_firmware.Avr.CommandBuffer.Framing.{add_command_byte-IsValid}
use ember_firmware.Avr.Platform.{Platform}
use ember_firmware.Avr.Firmware.{Pins, FirmwareOn, initial_mc}
use ember_firmware.Avr.Motors
use ember_firmware.Avr.Controller
use ember_firmware.Avr.MainLoop.{
  boot, query_reset, plan_hold, query_event_queue, handle_queued, limit_switch_isr,
}
use ember_firmware.Avr.MainLoop.Steps.{
  main_step, after_queue, timer_isr, Place, at_reset, at_error, at_full, at_limit, at_hold,
  at_complete, at_axis, at_deceleration, at_events, at_commands, Step, main, limit_isr, byte_isr,
  timers, switches, Reach, here, next,
}
use ember_firmware.Avr.MainLoop.Safety.{Safe, Settled, Settled-Safe, settle, same-Safe}
use ember_firmware.Avr.MainLoop.Safety.Queries.{
  query_error-Settled, query_command_buffer_full-Settled, query_limit_switch_interrupt-Settled,
  query_motion_complete-Settled, query_axis_at_limit-Settled, query_deceleration_started-Settled,
  handle_queued-Settled, query_command_buffer-Safe,
}

module _ (platform : Platform) where
  chosen-Settled :
      (flag : Bool) (fw fw' : FirmwareOn platform)
      → (flag ≡ true → Settled platform fw')
      → (flag ≡ false → Settled platform fw)
      → Settled platform (if flag then fw' else fw)
  chosen-Settled true fw fw' up down = up refl
  chosen-Settled false fw fw' up down = down refl

  -- A reset puts both buffers and the drivers back, and keeps the state.
  query_reset-Settled :
      (fw : FirmwareOn platform)
      → Safe platform at_reset fw
      → Settled platform (query_reset platform fw)
  unfolding query_reset Controller.initialize Motors.initialize_pins Motors.disable initial_mc
      EventQueue.construct
  query_reset-Settled fw s =
      chosen-Settled fw.mc.reset fw _
        (λ pending. record {
          drivers = rw (s.reset_place pending) (inl refl);
          queue = record {
            valid =
                Queue.construct-IsValid fw.queue.event_data_buffer fw.queue.event_code_buffer
                  s.queue.valid.datas s.queue.valid.codes;
            waiting = tt;
            taken = λ h. ground arith;
          };
          buffer = Bytes.construct-IsValid fw.commands.buffer s.buffer.storage;
          reset_place = refl;
        })
        (λ clear. record {
          drivers = s.drivers;
          queue = s.queue;
          buffer = s.buffer;
          reset_place = clear;
        })

  abbrev Placed : Place × FirmwareOn platform → Type 0
  Placed c = Safe platform c.0 c.1

  after_queue-Placed :
      (flag : Bool) (fw fw' : FirmwareOn platform)
      → Settled platform fw
      → (flag ≡ true → Settled platform fw')
      → Placed (after_queue platform (if flag then (fw', true) else (fw, false)))
  after_queue-Placed true fw fw' s taken = Settled-Safe platform at_reset (taken refl)
  after_queue-Placed false fw fw' s taken = Settled-Safe platform at_commands s

  query_event_queue-Placed :
      (fw : FirmwareOn platform)
      → Settled platform fw
      → Placed (after_queue platform (query_event_queue platform fw))
  unfolding query_event_queue
  query_event_queue-Placed fw s =
      after_queue-Placed fw.mc.queued_event fw (handle_queued platform fw) s
        (λ taken. handle_queued-Settled platform fw taken s)

  main_step-Placed :
      (junk : EventData) (p : Place) (fw : FirmwareOn platform)
      → Safe platform p fw
      → Placed (main_step platform junk p fw)
  unfolding main_step plan_hold
  main_step-Placed junk at_reset fw s = Settled-Safe platform at_error (query_reset-Settled fw s)
  main_step-Placed junk at_error fw s =
      Settled-Safe platform at_full
        (query_error-Settled platform junk fw (settle platform (λ clear. clear) s))
  main_step-Placed junk at_full fw s =
      Settled-Safe platform at_limit
        (query_command_buffer_full-Settled platform junk fw (settle platform (λ clear. clear) s))
  main_step-Placed junk at_limit fw s =
      Settled-Safe platform at_hold
        (query_limit_switch_interrupt-Settled platform junk fw (settle platform (λ clear. clear) s))
  main_step-Placed junk at_hold fw s = Settled-Safe platform at_complete (
      same-Safe platform at_error fw fw.limit_switch_hit fw.pins _ fw.mc.motion_complete
        fw.mc.deceleration_started fw.mc.error fw.mc.axis_at_limit fw.mc.status refl
        (settle platform (λ clear. clear) s))
  main_step-Placed junk at_complete fw s =
      Settled-Safe platform at_axis
        (query_motion_complete-Settled platform junk fw (settle platform (λ clear. clear) s))
  main_step-Placed junk at_axis fw s =
      Settled-Safe platform at_deceleration
        (query_axis_at_limit-Settled platform junk fw (settle platform (λ clear. clear) s))
  main_step-Placed junk at_deceleration fw s =
      Settled-Safe platform at_events
        (query_deceleration_started-Settled platform junk fw (settle platform (λ clear. clear) s))
  main_step-Placed junk at_events fw s =
      query_event_queue-Placed fw (settle platform (λ clear. clear) s)
  main_step-Placed junk at_commands fw s =
      query_command_buffer-Safe platform fw (settle platform (λ clear. clear) s)

  -- What the interrupts do to the pins and the flags is outside the invariant.
  timer_isr-Safe :
      (motion' : platform.Motion) (complete started : Bool) (report : Option Status) (p : Place)
      (fw : FirmwareOn platform)
      → Safe platform p fw
      → Safe platform p (timer_isr platform motion' complete started report fw)
  unfolding timer_isr
  timer_isr-Safe motion' complete started none p fw s =
      same-Safe platform p fw fw.limit_switch_hit fw.pins motion' complete started fw.mc.error
        fw.mc.axis_at_limit fw.mc.status refl s
  timer_isr-Safe motion' complete started (some status) p fw s =
      same-Safe platform p fw fw.limit_switch_hit fw.pins motion' complete started true
        fw.mc.axis_at_limit status refl s

  -- Only the pins and the limit switch flag change.
  pins-Safe :
      (p : Place) (fw : FirmwareOn platform) (limit : Bool) (pins : Pins)
      → pins.motor_enable_high ≡ fw.pins.motor_enable_high
      → Safe platform p fw
      → Safe platform p (record fw { limit_switch_hit = limit; pins = pins })
  pins-Safe p fw limit pins same s =
      same-Safe platform p fw limit pins fw.motion fw.mc.motion_complete fw.mc.deceleration_started
        fw.mc.error fw.mc.axis_at_limit fw.mc.status same s

  -- Every step, of the main loop or of an interrupt, keeps the invariant.
  pub Step-Safe :
      (a b : Place × FirmwareOn platform)
      → Step platform a b
      → Safe platform a.0 a.1
      → Safe platform b.0 b.1
  unfolding limit_switch_isr
  Step-Safe _ _ (main junk p fw) s = main_step-Placed junk p fw s
  Step-Safe _ _ (limit_isr p fw) s = pins-Safe p fw true _ refl s
  Step-Safe _ _ (byte_isr byte p fw) s = record {
    drivers = s.drivers;
    queue = record { valid = s.queue.valid; waiting = s.queue.waiting; taken = s.queue.taken };
    buffer = add_command_byte-IsValid fw.commands byte s.buffer;
    reset_place = s.reset_place;
  }
  Step-Safe _ _ (timers motion' complete started report p fw) s =
      timer_isr-Safe motion' complete started report p fw s
  Step-Safe _ _ (switches z r p fw) s = pins-Safe p fw fw.limit_switch_hit _ refl s

  boot-Safe :
      (fw : FirmwareOn platform)
      → length fw.queue.event_data_buffer ≡ event_queue_length
      → length fw.queue.event_code_buffer ≡ event_queue_length
      → length fw.commands.buffer ≡ command_buffer_size
      → Safe platform at_reset (boot platform fw)
  unfolding boot Controller.initialize Motors.initialize_pins Motors.disable initial_mc
      EventQueue.construct
  boot-Safe fw datas codes storage = record {
    drivers = inl refl;
    queue = record {
      valid =
          Queue.construct-IsValid fw.queue.event_data_buffer fw.queue.event_code_buffer datas codes;
      waiting = tt;
      taken = λ h. ground arith;
    };
    buffer = Bytes.construct-IsValid fw.commands.buffer storage;
    reset_place = λ h. refl;
  }

  -- In every configuration that the main loop and the interrupts reach from `main`, whose arrays
  -- have their declared lengths, an interrupt coming between any two queries of the loop, the
  -- drivers are off in Error, off in Disabled unless a reset is pending, and on in every other of
  -- the 22 states, both buffers are well formed, the events in the event queue and the event
  -- taken from it are of interrupt, disable, home, move or settings commands, and a pending reset
  -- is the next thing the loop sees to.
  pub Reach-Safe :
      (fw : FirmwareOn platform)
      → length fw.queue.event_data_buffer ≡ event_queue_length
      → length fw.queue.event_code_buffer ≡ event_queue_length
      → length fw.commands.buffer ≡ command_buffer_size
      → (b : Place × FirmwareOn platform) → Reach platform (at_reset, boot platform fw) b
      → Safe platform b.0 b.1
  Reach-Safe fw datas codes storage _ here = boot-Safe fw datas codes storage
  Reach-Safe fw datas codes storage _ (next {a} {b} r step) =
      Step-Safe a b step (Reach-Safe fw datas codes storage a r)
