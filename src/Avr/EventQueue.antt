-- ===== src/Avr/EventQueue.antt =====
-- The queue of deferred events, AVR/MotorController/EventQueue.h and EventQueue.cpp.
-- A method that changes the queue returns the new one; what `Remove` writes through its reference
-- parameters is returned beside it.
pub mod Refine
use ember_firmware.Prelude.{ℕ, ◌+◌, ◌%◌, Bool, List, get_or, set, ◌==◌, if◌then◌else◌, not}
use ember_firmware.Prelude.Int.{pos}
use ember_firmware.Avr.Codes.{
  Event, no_event, EventData, Status, status_success, status_event_queue_full,
}

abbrev pub event_queue_length : ℕ
event_queue_length = 16

pub record EventQueue : Type 0 where
  pub head : ℕ  -- uint8_t
  pub tail : ℕ  -- uint8_t
  pub event_data_buffer : List EventData
  pub event_code_buffer : List Event

-- What an out-of-range read gives. The indices of a well-formed queue are in range.
abbrev pub zero_data : EventData
zero_data = record { command = 0; parameter = pos 0 }

-- `EventQueue()`: the indices are set, the arrays hold what their storage held.
unfoldable pub construct : List EventData → List Event → EventQueue
construct datas codes = record {
  head = 0;
  tail = 0;
  event_data_buffer = datas;
  event_code_buffer = codes;
}

abbrev pub next_index : ℕ → ℕ
next_index i = (i + 1) % event_queue_length

unfoldable pub add : EventQueue → Event → EventData → Status × EventQueue
add q code data' =
    if not (next_index head == tail)
    then (
      status_success,
      record q {
        event_code_buffer = set event_code_buffer head code;
        event_data_buffer = set event_data_buffer head data';
        head = next_index head;
      },
    )
    else (status_event_queue_full, q)
  where
    open q use {head, tail, event_data_buffer, event_code_buffer}

-- The code and data are the caller's variables, kept if the queue is empty.
unfoldable pub remove : EventQueue → Event → EventData → Event × EventData × EventQueue
remove q code data' =
    if not (head == tail)
    then (
      get_or event_code_buffer tail no_event,
      get_or event_data_buffer tail zero_data,
      record q { tail = next_index tail },
    )
    else (code, data', q)
  where
    open q use {head, tail, event_data_buffer, event_code_buffer}

unfoldable pub clear : EventQueue → EventQueue
clear q = record q { head = 0; tail = 0 }

unfoldable pub is_empty : EventQueue → Bool
is_empty q = q.head == q.tail
