-- ===== src/Tests/Machine.antt =====
-- A motion system that records its calls, an arithmetic of fractions, and controllers on them.
use ember_firmware.Prelude.{
  ℕ, suc, ◌*◌, refl, Bool, true, false, not, ◌&&◌, List, [], ◌∷◌, replicate, arith, ◌==◌, ltb,
  if◌then◌else◌,
}
use ember_firmware.Prelude.Int.{ℤ, pos, negsuc}
use ember_firmware.Avr.Codes.{State, no_event, status_success}
use ember_firmware.Avr.EventQueue.{zero_data}
use ember_firmware.Avr.EventQueue.Refine as Queue
use ember_firmware.Avr.CommandBuffer.Refine as Bytes
use ember_firmware.Avr.Platform.{Floats, Platform}
use ember_firmware.Avr.AxisSettings.{default_settings}
use ember_firmware.Avr.Firmware.{Pins, FirmwareOn}
use ember_firmware.Avr.StateMachine.Queueing.{QueueFits}

-- A fraction with a sign.
pub record Fraction : Type 0 where
  pub negative : Bool
  pub over : ℕ
  pub under : ℕ

abbrev fraction_of : ℤ → Fraction
fraction_of (pos n) = record { negative = false; over = n; under = 1 }
fraction_of (negsuc n) = record { negative = true; over = suc n; under = 1 }

abbrev differ : Bool → Bool → Bool
differ true b = not b
differ false b = b

abbrev pub fractions : Floats
fractions = record {
  Float = Fraction;
  of_int = fraction_of;
  mul = λ a b. record {
    negative = differ a.negative b.negative;
    over = a.over * b.over;
    under = a.under * b.under;
  };
  div = λ a b. record {
    negative = differ a.negative b.negative;
    over = a.over * b.under;
    under = a.under * b.over;
  };
  eq = λ a b. a.over * b.under == b.over * a.under && not (differ a.negative b.negative);
  lt = λ a b. if a.negative then not b.negative else ltb (a.over * b.under) (b.over * a.under);
  fabs = λ a. record a { negative = false };
}

pub data Call : Type 0 where
  initialized positioned scaled planned held hold_began hold_ended move_ended pool_cleared : Call

-- Every call succeeds.
abbrev pub recorder : Platform
recorder = record {
  floats = fractions;
  Motion = List Call;
  motors_initialize = λ m. initialized ∷ m;
  planner_initialize = λ m. m;
  pool_initialize = λ m. pool_cleared ∷ m;
  set_axis_position = λ axis x m. positioned ∷ m;
  set_pulses_per_unit = λ axis x m. scaled ∷ m;
  plan_acceleration_line = λ distances directions speed jerk m. (status_success, planned ∷ m);
  plan_hold_callback = λ m. (status_success, held ∷ m);
  begin_hold = λ m. hold_began ∷ m;
  end_hold = λ m. (status_success, hold_ended ∷ m);
  end_move = λ m. move_ended ∷ m;
}

abbrev test_pins : Bool → Pins
test_pins high = record {
  interrupt_high = true;
  interrupt_pulses = 0;
  motor_enable_high = high;
  motor_sleep_high = true;
  motor_reset_high = true;
  mode0 = false;
  mode1 = false;
  mode2 = false;
  z_limit_interrupt = false;
  r_limit_interrupt = false;
  z_limit_hit = false;
  r_limit_hit = false;
}

-- A controller in a state, with nothing queued or received, whose driver enable pin is high or not.
abbrev pub controller_in : State → Bool → FirmwareOn recorder
controller_in s high = record {
  mc = record {
    sm_state = s;
    z_axis_settings = default_settings fractions;
    r_axis_settings = default_settings fractions;
    motion_complete = false;
    deceleration_started = false;
    queued_event = false;
    error = false;
    reset = false;
    axis_at_limit = false;
    status = status_success;
    queued_event_data = zero_data;
    queued_event_code = no_event;
  };
  queue = record {
    head = 0;
    tail = 0;
    event_data_buffer = replicate 16 zero_data;
    event_code_buffer = replicate 16 no_event;
  };
  commands = record {
    buffer = replicate 128 0;
    head = 0;
    tail = 0;
    bytes_remaining = 6;
    received_command_count = 0;
  };
  limit_switch_hit = false;
  pins = test_pins high;
  motion = [];
}

pub queue-IsValid : (s : State) (high : Bool) → Queue.IsValid (controller_in s high).queue
queue-IsValid s high = record {
  head_lt = omega arith;
  tail_lt = omega arith;
  datas = refl;
  codes = refl;
}

pub controller_in-QueueFits : (s : State) (high : Bool) → QueueFits recorder (controller_in s high)
controller_in-QueueFits s high = record {
  valid = queue-IsValid s high;
  waiting = tt;
  taken = λ h. ground arith;
}

pub commands-IsValid : (s : State) (high : Bool) → Bytes.IsValid (controller_in s high).commands
commands-IsValid s high = record {
  storage = refl;
  tail_lt = omega arith;
  head_after = refl;
  remaining_pos = omega arith;
  remaining_le = omega arith;
  count_le = omega arith;
  full_aligned = λ h. refl;
}
