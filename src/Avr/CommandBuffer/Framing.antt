-- ===== src/Avr/CommandBuffer/Framing.antt =====
-- How received bytes are framed into commands of six bytes, and how commands are taken out.
use ember_firmware.Prelude.{
  ℕ, zero, suc, ◌+◌, ◌-◌, ◌%◌, ◌≤◌, ◌<◌, ◌≡◌, refl, sym, ap, ◌∙◌, Bool, true, List, [], ◌∷◌, ◌++◌,
  arith, length, length-append, append-nil, append_assoc, ltb, ◌==◌, ◌&&◌, if◌then◌else◌,
  Bool-cases, inl, inr,
}
use native.Mathlib.Decide.{ℕ_discrete}
use ember_firmware.Prelude.Window.{window}
use ember_firmware.Avr.Codes.{
  status_reg, general_reg, general_low_fencepost, general_high_fencepost,
}
use ember_firmware.Avr.Command.{Command, assemble, set_register, set_action, set_parameter_bytes}
use ember_firmware.Avr.CommandBuffer.{
  CommandBuffer, command_buffer_size, add_byte, add_general_command, add_command_byte, remove_byte,
  get_command,
}
use ember_firmware.Avr.CommandBuffer.Refine.{
  IsValid, size, cell, contents, length-contents, push_byte, add_byte-IsValid, add_byte_refines,
}

-- No part of a command waits for its end.
abbrev pub is_aligned : List ℕ → Bool
is_aligned bs = length bs % 6 == 0

abbrev pub general_bytes : ℕ → List ℕ
general_bytes x = general_reg ∷ x ∷ 0 ∷ 0 ∷ 0 ∷ 0 ∷ []

-- The specification of `AddCommandByte`: between commands, a read of the status register is
-- ignored, and a general command stands for six bytes; any other byte is appended.
unfoldable pub push_command_byte : List ℕ → ℕ → List ℕ
push_command_byte bs x =
    if x == status_reg && is_aligned bs
    then bs
    else if (ltb general_low_fencepost x && ltb x general_high_fencepost) && is_aligned bs
    then (if ltb (length bs) 126 then bs ++ general_bytes x else bs)
    else push_byte bs x

-- The specification of `GetCommand`: the oldest six bytes, if six have come.
unfoldable pub take_command : List ℕ → Command → Command × List ℕ
take_command (r ∷ a ∷ p0 ∷ p1 ∷ p2 ∷ p3 ∷ bs) c =
    (record { register = r; action = a; parameter = assemble p0 p1 p2 p3 }, bs)
take_command bs c = (c, bs)

push_bytes : List ℕ → List ℕ → List ℕ
push_bytes bs [] = bs
push_bytes bs (x ∷ xs) = push_bytes (push_byte bs x) xs

push_bytes_room : (xs bs : List ℕ) → length bs + length xs ≤ 126 → push_bytes bs xs ≡ bs ++ xs
unfolding push_bytes push_byte
push_bytes_room [] bs h = sym (append-nil bs)
push_bytes_room (x ∷ xs) bs h = elim (Bool-cases (ltb (length bs) 126)) [
  | inl room ↦ rw room (
      push_bytes_room xs (bs ++ (x ∷ [])) (omega (arith, length-append bs (x ∷ [])))
      ∙ append_assoc bs (x ∷ []) xs)
  | inr full ↦ absurd (ground arith)
]

push_bytes_full : (xs bs : List ℕ) → 126 ≤ length bs → push_bytes bs xs ≡ bs
unfolding push_bytes push_byte
push_bytes_full [] bs h = refl
push_bytes_full (x ∷ xs) bs h = elim (Bool-cases (ltb (length bs) 126)) [
  | inl room ↦ absurd (ground arith)
  | inr full ↦ rw full (push_bytes_full xs bs h)
]

add_bytes : CommandBuffer → List ℕ → CommandBuffer
add_bytes b [] = b
add_bytes b (x ∷ xs) = add_bytes (add_byte b x) xs

add_bytes-IsValid : (xs : List ℕ) (b : CommandBuffer) → IsValid b → IsValid (add_bytes b xs)
unfolding add_bytes
add_bytes-IsValid [] b v = v
add_bytes-IsValid (x ∷ xs) b v = add_bytes-IsValid xs (add_byte b x) (add_byte-IsValid b x v)

add_bytes_refines :
    (xs : List ℕ) (b : CommandBuffer)
    → IsValid b
    → contents (add_bytes b xs) ≡ push_bytes (contents b) xs
unfolding add_bytes push_bytes
add_bytes_refines [] b v = refl
add_bytes_refines (x ∷ xs) b v =
    add_bytes_refines xs (add_byte b x) (add_byte-IsValid b x v)
    ∙ ap (λ bs. push_bytes bs xs) (add_byte_refines b x v)

add_general_command_lem :
    (b : CommandBuffer) (x : ℕ) → add_general_command b x ≡ add_bytes b (general_bytes x)
unfolding add_general_command add_bytes
add_general_command_lem b x = refl

aligned_iff : (b : CommandBuffer) → IsValid b → (b.bytes_remaining == 6) ≡ is_aligned (contents b)
aligned_iff b v = ground (arith, length-contents b)

-- A received byte keeps a well-formed command buffer well formed: the indices stay inside the
-- array, the counters do not wrap and agree with the indices.
pub add_command_byte-IsValid :
    (b : CommandBuffer) (x : ℕ) → IsValid b → IsValid (add_command_byte b x)
unfolding add_command_byte
add_command_byte-IsValid b x v = ground (
  arith,
  add_byte-IsValid b x v,
  add_general_command_lem b x,
  add_bytes-IsValid (general_bytes x) b v,
)

general_refines :
    (b : CommandBuffer) (x : ℕ)
    → IsValid b
    → is_aligned (contents b) ≡ true
    → contents (add_general_command b x)
      ≡ (if ltb (length (contents b)) 126 then contents b ++ general_bytes x else contents b)
general_refines b x v aligned =
    ap contents (add_general_command_lem b x) ∙ add_bytes_refines (general_bytes x) b v ∙ framed
  where
    framed :
        push_bytes (contents b) (general_bytes x)
        ≡ (if ltb (length (contents b)) 126 then contents b ++ general_bytes x else contents b)
    framed = elim (Bool-cases (ltb (length (contents b)) 126)) [
      | inl room ↦ rw room (push_bytes_room (general_bytes x) (contents b) (ground arith))
      | inr full ↦ rw full (push_bytes_full (general_bytes x) (contents b) (ground arith))
    ]

-- On a well-formed buffer, a received byte changes the waiting bytes as the framing rule says: a
-- status register address between commands is ignored, a general command stands for six bytes,
-- any other byte is appended while fewer than 21 commands wait.
pub add_command_byte_refines :
    (b : CommandBuffer) (x : ℕ)
    → IsValid b
    → contents (add_command_byte b x) ≡ push_command_byte (contents b) x
unfolding add_command_byte push_command_byte
add_command_byte_refines b x v =
    ground (arith, aligned_iff b v, general_refines b x v, add_byte_refines b x v)

window_six :
    (f : ℕ → ℕ) (t n : ℕ)
    → 6 ≤ n
    → let next = λ (i : ℕ). (i + 1) % command_buffer_size in
      window f command_buffer_size t n
      ≡ f t
        ∷ f (next t)
        ∷ f (next (next t))
        ∷ f (next (next (next t)))
        ∷ f (next (next (next (next t))))
        ∷ f (next (next (next (next (next t)))))
        ∷ window f command_buffer_size (next (next (next (next (next (next t)))))) (n - 6)
window_six f t zero h = absurd (omega arith)
window_six f t (suc zero) h = absurd (omega arith)
window_six f t (suc (suc zero)) h = absurd (omega arith)
window_six f t (suc (suc (suc zero))) h = absurd (omega arith)
window_six f t (suc (suc (suc (suc zero)))) h = absurd (omega arith)
window_six f t (suc (suc (suc (suc (suc zero))))) h = absurd (omega arith)
window_six f t (suc (suc (suc (suc (suc (suc n)))))) h =
    ap (λ k. window f command_buffer_size t (suc (suc (suc (suc (suc (suc k))))))) (omega arith)

take_command_short : (bs : List ℕ) (c : Command) → length bs < 6 → take_command bs c ≡ (c, bs)
unfolding take_command
take_command_short [] c h = refl
take_command_short (_ ∷ []) c h = refl
take_command_short (_ ∷ _ ∷ []) c h = refl
take_command_short (_ ∷ _ ∷ _ ∷ []) c h = refl
take_command_short (_ ∷ _ ∷ _ ∷ _ ∷ []) c h = refl
take_command_short (_ ∷ _ ∷ _ ∷ _ ∷ _ ∷ []) c h = refl
take_command_short (_ ∷ _ ∷ _ ∷ _ ∷ _ ∷ _ ∷ bs) c h = absurd (omega arith)

-- `GetCommand` keeps the buffer valid.
pub get_command-IsValid :
    (b : CommandBuffer) (c : Command) → IsValid b → IsValid (get_command b c).1
unfolding get_command remove_byte
get_command-IsValid b c v = ground arith

-- On a well-formed buffer, GetCommand yields the oldest six waiting bytes as a command and
-- removes exactly these, and does nothing unless six bytes have come.
pub get_command_refines :
    (b : CommandBuffer) (c : Command)
    → IsValid b
    → let (c', b') = get_command b c in (c', contents b') ≡ take_command (contents b) c
unfolding get_command remove_byte set_register set_action set_parameter_bytes take_command
get_command_refines b c v = elim (ℕ_discrete b.received_command_count 0) [
  | yes none_ready ↦ ground (arith, take_command_short (contents b) c, length-contents b)
  | no ready ↦ rw (window_six (cell b) b.tail (size b) (omega arith), take_command) (ground arith)
]
