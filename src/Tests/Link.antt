-- ===== src/Tests/Link.antt =====
-- The queue, the command buffer and the I2C link on concrete inputs.
use ember_firmware.Prelude.{
  ℕ, ◌≡◌, refl, ◌↔◌, Bool, true, false, List, [], ◌∷◌, map, arith, replicate, ◌⊎◌, inl, inr,
}
use ember_firmware.Prelude.Int.{pos, negsuc, pattern32}
use ember_firmware.Avr.Codes.{
  pause_requested, disabled, home_z_axis_requested, status_error, EventData, z_action_reg,
  general_reg,
}
use ember_firmware.Avr.EventQueue.{EventQueue, is_empty}
use ember_firmware.Avr.EventQueue.Refine.{adds, removes, run, run_spec, run_refines, is_empty_iff}
use ember_firmware.Avr.EventQueue.Refine as Queue
use ember_firmware.Avr.Command.{Command, no_command, assemble}
use ember_firmware.Avr.Command.RoundTrip.{byte_of, assemble_bytes}
use ember_firmware.Avr.CommandBuffer.{CommandBuffer, add_command_byte, get_command, is_full}
use ember_firmware.Avr.CommandBuffer.Refine.{IsValid, contents}
use ember_firmware.Avr.CommandBuffer.Framing.{
  push_command_byte, take_command, add_command_byte-IsValid, add_command_byte_refines,
  get_command_refines,
}
use ember_firmware.Avr.CommandMap.{get_event_code}
use ember_firmware.Avr.CommandMap.Lookup.{
  Requests, Unbounded, pause, home_z, get_event_code-Requests, Requests-get_event_code,
}
use ember_firmware.Avr.I2cInterface.{Twcr, tw_sr_data_ack, I2c, initialize, twi_isr}
use ember_firmware.Avr.I2cInterface.Acknowledge.{twi_isr_refines, run_isr, full_buffer_acknowledges}
use ember_firmware.Smith.I2cDevice.{Bus, Smith, write_byte, write_array}
use ember_firmware.Smith.MotorCommand.{MotorCommand, send, try_write}
use ember_firmware.Smith.Motor.{send_commands}
use ember_firmware.Smith.Delivery.{Delivers, sent_commands_arrive}
use ember_firmware.Smith.Motor.Layer.{
  CurrentLayerSettings, separate, approach, un_jam, press, unpress,
}
use ember_firmware.Smith.Motor.Layer.Range.{InRange}
use ember_firmware.Smith.Motor.Layer.Accepted.{layer_motions_succeed}
use ember_firmware.Smith.Delivery.Retries.{IsReliable, send_commands_succeed}
use ember_firmware.Smith.Delivery.Bytes.{AllSendable, receive, drain, command_of}
use ember_firmware.Tests.Machine.{controller_in, queue-IsValid, commands-IsValid}

abbrev queue : EventQueue
queue = (controller_in disabled true).queue

abbrev data_of : ℕ → EventData
data_of n = record { command = 1; parameter = pos n }

run_refines_example :
    run queue (adds pause_requested (data_of 1) ∷ removes ∷ removes ∷ [])
    ≡ run_spec (Queue.contents queue) (adds pause_requested (data_of 1) ∷ removes ∷ removes ∷ [])
run_refines_example =
    run_refines (adds pause_requested (data_of 1) ∷ removes ∷ removes ∷ []) queue
      (queue-IsValid disabled true)

is_empty_iff_example : (is_empty queue ≡ true) ↔ (Queue.contents queue ≡ [])
is_empty_iff_example = is_empty_iff queue (queue-IsValid disabled true)

abbrev commands : CommandBuffer
commands = (controller_in disabled true).commands

-- A pause command, sent as a single byte.
add_command_byte_refines_example :
    contents (add_command_byte commands 4) ≡ push_command_byte (contents commands) 4
add_command_byte_refines_example =
    add_command_byte_refines commands 4 (commands-IsValid disabled true)

get_command_refines_example :
    let (c, b) = get_command (add_command_byte commands 4) no_command in
    ◌≡◌ {A = Command × List ℕ}
      (c, contents b)
      (take_command (contents (add_command_byte commands 4)) no_command)
get_command_refines_example =
    get_command_refines (add_command_byte commands 4) no_command
      (add_command_byte-IsValid commands 4 (commands-IsValid disabled true))

-- The status register is read between commands.
add_command_byte-IsValid_example : IsValid (add_command_byte commands 0x30)
add_command_byte-IsValid_example =
    add_command_byte-IsValid commands 0x30 (commands-IsValid disabled true)

home_is_known : get_event_code z_action_reg 2 ≡ home_z_axis_requested
home_is_known =
    Requests-get_event_code z_action_reg 2 home_z_axis_requested (inl (home_z refl refl refl))

Requests-get_event_code_example : get_event_code general_reg 4 ≡ pause_requested
Requests-get_event_code_example =
    Requests-get_event_code general_reg 4 pause_requested (inl (pause refl refl refl))

get_event_code-Requests_example :
    Requests z_action_reg 2 home_z_axis_requested ⊎ Unbounded z_action_reg 2 home_z_axis_requested
get_event_code-Requests_example =
    get_event_code-Requests z_action_reg 2 home_z_axis_requested home_is_known (λ h. cc)

-- -2, sent as fe ff ff ff.
assemble_bytes_example :
    let w = pattern32 (negsuc 1) in
    assemble (byte_of w 0) (byte_of w 1) (byte_of w 2) (byte_of w 3) ≡ negsuc 1
assemble_bytes_example = assemble_bytes (negsuc 1) (omega arith)

abbrev clear_bits : Twcr
clear_bits = record { twint = false; twea = false; twsto = false; twen = false; twie = false }

abbrev idle : I2c
idle = record { twcr = clear_bits; twar = 0; twdr = 4; commands = commands; status = status_error }

twi_isr_refines_example :
    IsValid (twi_isr tw_sr_data_ack idle).commands
    × (contents (twi_isr tw_sr_data_ack idle).commands ≡ push_command_byte (contents commands) 4)
twi_isr_refines_example = twi_isr_refines tw_sr_data_ack idle (commands-IsValid disabled true)

-- A buffer that 21 commands have filled.
abbrev full_commands : CommandBuffer
full_commands = record {
  buffer = replicate 128 1;
  head = 126;
  tail = 0;
  bytes_remaining = 6;
  received_command_count = 21;
}

full_commands-IsValid : IsValid full_commands
full_commands-IsValid = record {
  storage = refl;
  tail_lt = omega arith;
  head_after = refl;
  remaining_pos = omega arith;
  remaining_le = omega arith;
  count_le = omega arith;
  full_aligned = λ h. refl;
}

abbrev full : I2c
full = record idle { commands = full_commands }

full_buffer_acknowledges_example :
    let j = record (run_isr [] (initialize full)) { twdr = 4 } in
    (j.twcr.twea ≡ true)
    × ((twi_isr tw_sr_data_ack j).twcr.twea ≡ true)
    × (contents (twi_isr tw_sr_data_ack j).commands ≡ contents j.commands)
unfolding initialize is_full
full_buffer_acknowledges_example =
    full_buffer_acknowledges [] full 4 tw_sr_data_ack full_commands-IsValid refl

-- A bus whose world is the failures to come and the buffer, and on which the bytes of a write that
-- fails arrive as well.
abbrev flaky_write : List ℕ → List Bool × CommandBuffer → Bool × (List Bool × CommandBuffer)
flaky_write bs ([], b) = (true, ([], receive b bs))
flaky_write bs (true ∷ failures, b) = (false, (failures, receive b bs))
flaky_write bs (false ∷ failures, b) = (true, (failures, receive b bs))

abbrev flaky : Bus
flaky = record { World = List Bool × CommandBuffer; write = flaky_write }

abbrev buffer_of : List Bool × CommandBuffer → CommandBuffer
buffer_of (failures, b) = b

flaky_delivered :
    (bs : List ℕ) (w : List Bool × CommandBuffer)
    → (flaky_write bs w).0 ≡ true
    → buffer_of (flaky_write bs w).1 ≡ receive (buffer_of w) bs
flaky_delivered bs ([], b) h = refl
flaky_delivered bs (true ∷ failures, b) h = ground arith
flaky_delivered bs (false ∷ failures, b) h = refl

flaky-Delivers : Delivers flaky buffer_of
flaky-Delivers = record { delivered = flaky_delivered }

-- Home the Z axis by at most -100000 units, then ask for an interrupt.
abbrev homing : List MotorCommand
homing =
    record { cmd_register = z_action_reg; cmd = 2; value = negsuc 99999 }
    ∷ record { cmd_register = general_reg; cmd = 1; value = pos 0 }
    ∷ []

-- The third write will fail.
abbrev third_fails : Smith (List Bool × CommandBuffer)
third_fails = record { world = (false ∷ false ∷ true ∷ [], commands); errors = [] }

homing-AllSendable : AllSendable homing
homing-AllSendable = (
  record {
    cmd_lt = omega arith;
    value_int = omega arith;
    kind = inr ((omega arith, omega arith), refl);
    not_negative = λ h. ground arith;
  },
  (
    record {
      cmd_lt = omega arith;
      value_int = omega arith;
      kind = inl (refl, (omega arith, omega arith));
      not_negative = λ h. refl;
    },
    tt,
  ),
)

homing_sent : (send_commands flaky homing third_fails).0 ≡ true
unfolding send_commands send try_write write_byte write_array
homing_sent = refl

homing_no_error : (send_commands flaky homing third_fails).1.errors ≡ []
unfolding send_commands send try_write write_byte write_array
homing_no_error = refl

sent_commands_arrive_example :
    drain homing (buffer_of (send_commands flaky homing third_fails).1.world)
    ≡ map command_of homing
sent_commands_arrive_example =
    sent_commands_arrive flaky buffer_of flaky-Delivers homing third_fails homing-AllSendable
      (commands-IsValid disabled true) refl (omega arith) homing_sent homing_no_error

-- A bus on which every second write fails, the next one if the flag is up.
abbrev alternating_write : List ℕ → Bool × CommandBuffer → Bool × (Bool × CommandBuffer)
alternating_write bs (true, b) = (false, (false, b))
alternating_write bs (false, b) = (true, (true, receive b bs))

abbrev alternating : Bus
alternating = record { World = Bool × CommandBuffer; write = alternating_write }

alternating-IsReliable : IsReliable alternating
alternating-IsReliable bs (true, b) = inr refl
alternating-IsReliable bs (false, b) = inl refl

abbrev next_fails : Smith (Bool × CommandBuffer)
next_fails = record { world = (true, commands); errors = [] }

send_commands_succeed_example : (send_commands alternating homing next_fails).0 ≡ true
send_commands_succeed_example =
    send_commands_succeed alternating homing next_fails homing-AllSendable alternating-IsReliable

abbrev layer : CurrentLayerSettings
layer = record {
  press_microns = pos 0;
  press_microns_per_sec = pos 5000;
  unpress_microns_per_sec = pos 5000;
  separation_rot_jerk = pos 100000;
  separation_rpm = pos 6;
  rotation_milli_degrees = pos 60000;
  separation_z_jerk = pos 100000;
  separation_microns_per_sec = pos 3000;
  z_lift_microns = pos 2000;
  approach_rot_jerk = pos 100000;
  approach_rpm = pos 6;
  approach_z_jerk = pos 100000;
  approach_microns_per_sec = pos 3000;
  layer_thickness_microns = pos 25;
}

layer-InRange : InRange layer
layer-InRange = record {
  separation_rot_jerk = (omega arith, omega arith);
  separation_rpm = (omega arith, omega arith);
  separation_z_jerk = (omega arith, omega arith);
  separation_speed = (omega arith, omega arith);
  approach_rot_jerk = (omega arith, omega arith);
  approach_rpm = (omega arith, omega arith);
  approach_z_jerk = (omega arith, omega arith);
  approach_speed = (omega arith, omega arith);
  press_speed = (omega arith, omega arith);
  unpress_speed = (omega arith, omega arith);
  rotation = omega arith;
  lift = omega arith;
  thickness = omega arith;
  press = omega arith;
}

layer_motions_succeed_example :
    ((separate alternating layer next_fails).0 ≡ true)
    × ((approach alternating (pos 1) layer true next_fails).0 ≡ true)
    × ((un_jam alternating layer true next_fails).0 ≡ true)
    × ((press alternating layer next_fails).0 ≡ true)
    × ((unpress alternating layer next_fails).0 ≡ true)
layer_motions_succeed_example =
    layer_motions_succeed alternating alternating-IsReliable layer layer-InRange next_fails (pos 1)
      true
