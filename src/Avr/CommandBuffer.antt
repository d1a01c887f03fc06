-- ===== src/Avr/CommandBuffer.antt =====
-- The ring buffer of received command bytes, AVR/MotorController/CommandBuffer.h and
-- CommandBuffer.cpp. Bytes are moved by the interrupt service routine (`add_command_byte`) and by
-- the main loop (`get_command`).
pub mod Refine
pub mod Framing
use ember_firmware.Prelude.{
  ℕ, ◌+◌, ◌/◌, ◌%◌, Bool, List, get_or, set, replicate, ◌==◌, ltb, if◌then◌else◌, ◌&&◌,
}
use ember_firmware.Avr.Codes.{
  status_reg, general_reg, general_low_fencepost, general_high_fencepost,
}
use ember_firmware.Avr.Command.{Command, set_register, set_action, set_parameter_bytes}

abbrev pub command_size : ℕ
command_size = 6

abbrev pub command_buffer_size : ℕ
command_buffer_size = 128

abbrev pub command_capacity : ℕ
command_capacity = command_buffer_size / command_size

pub record CommandBuffer : Type 0 where
  pub buffer : List ℕ  -- unsigned char each
  pub head : ℕ  -- uint8_t
  pub tail : ℕ  -- uint8_t
  pub bytes_remaining : ℕ  -- uint8_t
  pub received_command_count : ℕ  -- uint8_t

-- `CommandBuffer()`: the array holds what its storage held.
pub construct : List ℕ → CommandBuffer
construct storage = record {
  buffer = storage;
  head = 0;
  tail = 0;
  bytes_remaining = command_size;
  received_command_count = 0;
}

unfoldable pub is_empty : CommandBuffer → Bool
is_empty b = b.received_command_count == 0

unfoldable pub is_full : CommandBuffer → Bool
is_full b = b.received_command_count == command_capacity

-- `--bytesRemaining == 0`, with what it guards; `n` is the decremented count.
count_byte : CommandBuffer → ℕ → CommandBuffer
count_byte b n =
    if n == 0
    then record b {
      bytes_remaining = command_size;
      received_command_count = (b.received_command_count + 1) % 256;
    }
    else record b { bytes_remaining = n }

pub add_byte : CommandBuffer → ℕ → CommandBuffer
unfolding is_full count_byte
add_byte b byte =
    if is_full b
    then b
    else count_byte
        (record b { buffer = set b.buffer b.head byte; head = (b.head + 1) % command_buffer_size })
        ((b.bytes_remaining + 255) % 256)

-- The six bytes that stand for a general command, which is sent as a single byte.
add_general_command : CommandBuffer → ℕ → CommandBuffer
add_general_command b byte =
    let b1 = add_byte b general_reg in
    let b2 = add_byte b1 byte in
    let b3 = add_byte b2 0x00 in
    let b4 = add_byte b3 0x00 in let b5 = add_byte b4 0x00 in add_byte b5 0x00

pub add_command_byte : CommandBuffer → ℕ → CommandBuffer
add_command_byte b byte =
    if byte == status_reg && b.bytes_remaining == command_size
    then b
    else if (ltb general_low_fencepost byte && ltb byte general_high_fencepost)
        && b.bytes_remaining == command_size
    then add_general_command b byte
    else add_byte b byte

pub remove_byte : CommandBuffer → ℕ × CommandBuffer
remove_byte b = (get_or b.buffer b.tail 0, record b { tail = (b.tail + 1) % command_buffer_size })

-- The command is the caller's variable, kept if no complete command has been received.
pub get_command : CommandBuffer → Command → Command × CommandBuffer
get_command b command =
    if b.received_command_count == 0
    then (command, b)
    else let (register, b1) = remove_byte b in
      let (action, b2) = remove_byte b1 in
      let (p0, b3) = remove_byte b2 in
      let (p1, b4) = remove_byte b3 in
      let (p2, b5) = remove_byte b4 in
      let (p3, b6) = remove_byte b5 in
      (
        set_parameter_bytes (set_action (set_register command register) action) p0 p1 p2 p3,
        record b6 { received_command_count = (b6.received_command_count + 255) % 256 },
      )
