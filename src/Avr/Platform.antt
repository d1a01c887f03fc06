-- ===== src/Avr/Platform.antt =====
-- What the controller's control code stands on, as parameters: the `float` arithmetic of the
-- compiler, and the motion system (Planner, PlannerBufferPool and the step generation of Motors in
-- AVR/MotorController), of which the control code only calls the operations listed here.
use ember_firmware.Prelude.{ℕ, Bool}
use ember_firmware.Prelude.Int.{ℤ}
use ember_firmware.Avr.Codes.{Status}

-- `Z_AXIS` and `R_AXIS` of AVR/MotorController/MachineDefinitions.h.
pub data Axis : Type 0 where
  z_axis r_axis : Axis

-- One value for each axis, `AXES_COUNT` of them.
pub record PerAxis (A : Type 0) : Type 0 where
  pub on_z : A
  pub on_r : A

-- `float`, with the operations that the control code uses.
pub record Floats : Type 1 where
  pub Float : Type 0
  pub of_int : ℤ → Float
  pub mul : Float → Float → Float
  pub div : Float → Float → Float
  pub eq : Float → Float → Bool
  pub lt : Float → Float → Bool
  pub fabs : Float → Float

-- The motion system: its state, and a function for each call that the control code makes.
pub record Platform : Type 1 where
  pub floats : Floats
  pub Motion : Type 0
  -- what `Motors::Initialize`, `Planner::Initialize` and `PlannerBufferPool::Initialize` do to it
  pub motors_initialize : Motion → Motion
  pub planner_initialize : Motion → Motion
  pub pool_initialize : Motion → Motion
  pub set_axis_position : Axis → floats.Float → Motion → Motion
  pub set_pulses_per_unit : Axis → floats.Float → Motion → Motion
  -- distances, directions, speed, maximum jerk
  pub plan_acceleration_line :
      PerAxis floats.Float → PerAxis ℕ → floats.Float → floats.Float → Motion → Status × Motion
  pub plan_hold_callback : Motion → Status × Motion
  pub begin_hold : Motion → Motion
  pub end_hold : Motion → Status × Motion
  pub end_move : Motion → Motion
