-- ===== src/Avr/CommandBuffer/Refine.antt =====
-- The command buffer against the list of the bytes that it holds.
use ember_firmware.Prelude.{
  ℕ, suc, ◌+◌, ◌-◌, ◌*◌, ◌%◌, ◌≤◌, ◌<◌, ◌≡◌, ◌≢◌, ◌∙◌, List, [], ◌∷◌, ◌++◌, arith, length,
  length-set, get_or, set, get_or-set_self, get_or-set_ne, ltb, if◌then◌else◌,
}
use native.Mathlib.Decide.{ℕ_discrete}
use ember_firmware.Prelude.Window.{window, length-window, window-write}
use ember_firmware.Avr.CommandBuffer.{
  CommandBuffer, command_size, command_buffer_size, command_capacity, construct, add_byte,
}

-- How many bytes wait: the complete commands, and the received part of the next.
abbrev pub size : CommandBuffer → ℕ
size b = 6 * b.received_command_count + (6 - b.bytes_remaining)

pub record IsValid (b : CommandBuffer) : Type 0 where
  pub storage : length b.buffer ≡ command_buffer_size
  pub tail_lt : b.tail < command_buffer_size
  pub head_after : b.head ≡ (b.tail + size b) % command_buffer_size
  pub remaining_pos : 0 < b.bytes_remaining
  pub remaining_le : b.bytes_remaining ≤ command_size
  pub count_le : b.received_command_count ≤ command_capacity
  pub full_aligned : b.received_command_count ≡ command_capacity → b.bytes_remaining ≡ command_size

abbrev pub cell : CommandBuffer → ℕ → ℕ
cell b i = get_or b.buffer i 0

-- The bytes that wait, oldest first.
abbrev pub contents : CommandBuffer → List ℕ
contents b = window (cell b) command_buffer_size b.tail (size b)

pub length-contents : (b : CommandBuffer) → length (contents b) ≡ size b
length-contents b = length-window (cell b) command_buffer_size b.tail (size b)

-- The specification of `AddByte`: 21 commands of six bytes at most.
unfoldable pub push_byte : List ℕ → ℕ → List ℕ
push_byte bs byte = if ltb (length bs) 126 then bs ++ (byte ∷ []) else bs

pub construct-IsValid :
    (storage : List ℕ) → length storage ≡ command_buffer_size → IsValid (construct storage)
unfolding construct
construct-IsValid storage h = ground arith

-- Every index that is written or read lies inside the array, and no counter wraps.
pub add_byte-IsValid : (b : CommandBuffer) (x : ℕ) → IsValid b → IsValid (add_byte b x)
unfolding add_byte
add_byte-IsValid b x v = ground (arith, length-set b.buffer b.head x)

add_byte_full :
    (b : CommandBuffer) (x : ℕ) → b.received_command_count ≡ command_capacity → add_byte b x ≡ b
unfolding add_byte
add_byte_full b x full = ground arith

-- What `AddByte` does to a buffer that is not full.
add_byte_room :
    (b : CommandBuffer) (x : ℕ)
    → IsValid b
    → b.received_command_count ≢ command_capacity
    → ((add_byte b x).buffer ≡ set b.buffer b.head x)
      × ((add_byte b x).tail ≡ b.tail)
      × (size (add_byte b x) ≡ suc (size b))
unfolding add_byte
add_byte_room b x v room = ground arith

contents-stored :
    (b : CommandBuffer) (x : ℕ)
    → IsValid b
    → b.received_command_count ≢ command_capacity
    → window (λ i. get_or (set b.buffer b.head x) i 0) command_buffer_size b.tail (suc (size b))
      ≡ contents b ++ (x ∷ [])
contents-stored b x v room =
    window-write (cell b) (λ i. get_or (set b.buffer b.head x) i 0) command_buffer_size b.tail
      (size b) b.head x v.tail_lt (omega arith) v.head_after
      (λ j ne. get_or-set_ne b.buffer b.head j x 0 ne)
      (get_or-set_self b.buffer b.head x 0 (omega arith))

-- `AddByte` appends the byte, or drops it if 21 complete commands wait.
pub add_byte_refines :
    (b : CommandBuffer) (x : ℕ) → IsValid b → contents (add_byte b x) ≡ push_byte (contents b) x
unfolding push_byte
add_byte_refines b x v = elim (ℕ_discrete b.received_command_count command_capacity) [
  | yes full ↦ rw (add_byte_full b x full) (ground (arith, length-contents b))
  | no room ↦
      let (bytes, start, grows) = add_byte_room b x v room in
      rw (bytes, start, grows) (contents-stored b x v room ∙ ground (arith, length-contents b))
]
