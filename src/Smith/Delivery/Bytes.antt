-- ===== src/Smith/Delivery/Bytes.antt =====
-- What the bytes of commands become in the controller's command buffer.
use ember_firmware.Prelude.{
  ℕ, ◌+◌, ◌%◌, ◌≤◌, ◌<◌, ◌≡◌, refl, sym, ap, ap₂, ◌∙◌, ◌⊎◌, inl, inr, false, List, [], ◌∷◌, ◌++◌,
  map, append_assoc, append-nil, arith, length, length-append, ◌==◌, ◌||◌, ◌&&◌, if◌then◌else◌,
}
use ember_firmware.Prelude.Int.{pos, IsInt32}
use ember_firmware.Avr.Codes.{general_reg, rot_settings_reg, z_settings_reg}
use ember_firmware.Avr.Command.{Command, no_command}
use ember_firmware.Avr.Command.RoundTrip.{assemble_bytes}
use ember_firmware.Avr.CommandBuffer.{CommandBuffer, add_command_byte, get_command}
use ember_firmware.Avr.CommandBuffer.Refine.{IsValid, contents, push_byte}
use ember_firmware.Avr.CommandBuffer.Framing.{
  general_bytes, push_command_byte, take_command, add_command_byte-IsValid,
  add_command_byte_refines, get_command-IsValid, get_command_refines,
}
use ember_firmware.Smith.MotorCommand.{MotorCommand, is_zero, is_negative, buf}

-- A command that `Send` does not refuse: a general command, or one for a settings or action
-- register whose value is not zero, and not negative for a settings register.
pub record IsSendable (c : MotorCommand) : Type 0 where
  pub cmd_lt : c.cmd < 256
  pub value_int : IsInt32 c.value
  pub kind :
      ((c.cmd_register ≡ general_reg) × ((0 < c.cmd) × (c.cmd < 8)))
      ⊎ (((0xa1 < c.cmd_register) × (c.cmd_register < 0xa6)) × (is_zero c.value ≡ false))
  pub not_negative :
      (c.cmd_register ≡ rot_settings_reg) ⊎ (c.cmd_register ≡ z_settings_reg)
      → is_negative c.value ≡ false

-- The bytes that smith writes for a command.
abbrev pub wire : MotorCommand → List ℕ
wire c = if c.cmd_register == general_reg then c.cmd ∷ [] else c.cmd_register ∷ buf c

-- The six bytes that the controller keeps for it.
abbrev pub frame : MotorCommand → List ℕ
frame c = if c.cmd_register == general_reg then general_bytes c.cmd else c.cmd_register ∷ buf c

-- What the controller is to take it for.
abbrev pub command_of : MotorCommand → Command
command_of c = record {
  register = c.cmd_register;
  action = c.cmd;
  parameter = if c.cmd_register == general_reg then pos 0 else c.value;
}

abbrev pub receive : CommandBuffer → List ℕ → CommandBuffer
receive b [] = b
receive b (x ∷ xs) = receive (add_command_byte b x) xs

abbrev pub push_wire : List ℕ → List ℕ → List ℕ
push_wire bs [] = bs
push_wire bs (x ∷ xs) = push_wire (push_command_byte bs x) xs

pub receive-IsValid : (xs : List ℕ) (b : CommandBuffer) → IsValid b → IsValid (receive b xs)
receive-IsValid [] b v = v
receive-IsValid (x ∷ xs) b v =
    receive-IsValid xs (add_command_byte b x) (add_command_byte-IsValid b x v)

pub receive_refines :
    (xs : List ℕ) (b : CommandBuffer)
    → IsValid b
    → contents (receive b xs) ≡ push_wire (contents b) xs
receive_refines [] b v = refl
receive_refines (x ∷ xs) b v =
    receive_refines xs (add_command_byte b x) (add_command_byte-IsValid b x v)
    ∙ ap (λ bs. push_wire bs xs) (add_command_byte_refines b x v)

-- Inside a command every byte is kept.
push_inside :
    (bs : List ℕ) (x : ℕ)
    → 0 < length bs % 6
    → length bs < 126
    → push_command_byte bs x ≡ bs ++ (x ∷ [])
unfolding push_command_byte push_byte
push_inside bs x inside room = ground arith

push_rest :
    (xs bs : List ℕ)
    → (0 < length xs → 0 < length bs % 6)
    → length bs % 6 + length xs ≤ 6
    → length bs + length xs ≤ 126
    → push_wire bs xs ≡ bs ++ xs
push_rest [] bs inside fits room = sym (append-nil bs)
push_rest (x ∷ xs) bs inside fits room =
    rw (push_inside bs x (inside (omega arith)) (omega arith)) (
      push_rest xs (bs ++ (x ∷ [])) (λ some_left. omega (arith, grown, inside (omega arith)))
        (omega (arith, grown)) (omega (arith, grown))
      ∙ append_assoc bs (x ∷ []) xs)
  where
    grown : length (bs ++ (x ∷ [])) ≡ length bs + 1
    grown = length-append bs (x ∷ [])

abbrev pub IsAddressed : MotorCommand → Type 0
IsAddressed c = (0xa1 < c.cmd_register) × (c.cmd_register < 0xa6)

pub not_general : (c : MotorCommand) → IsAddressed c → (c.cmd_register == general_reg) ≡ false
not_general c (low, high) = ground arith

pub not_refused :
    (c : MotorCommand)
    → IsSendable c
    → ((c.cmd_register == rot_settings_reg || c.cmd_register == z_settings_reg)
        && is_negative c.value)
      ≡ false
not_refused c sendable = ground (arith, sendable.not_negative)

push_first :
    (bs : List ℕ) (register : ℕ)
    → (0xa1 < register) × (register < 0xa6)
    → length bs < 126
    → push_command_byte bs register ≡ bs ++ (register ∷ [])
unfolding push_command_byte push_byte
push_first bs register (low, high) room = ground arith

push_general :
    (bs : List ℕ) (cmd : ℕ)
    → (0 < cmd) × (cmd < 8)
    → length bs % 6 ≡ 0
    → length bs < 126
    → push_command_byte bs cmd ≡ bs ++ general_bytes cmd
unfolding push_command_byte push_byte
push_general bs cmd (low, high) aligned room = ground arith

push_addressed :
    (c : MotorCommand) (bs : List ℕ)
    → IsAddressed c
    → length bs % 6 ≡ 0
    → length bs + 6 ≤ 126
    → push_wire bs (c.cmd_register ∷ buf c) ≡ bs ++ (c.cmd_register ∷ buf c)
push_addressed c bs addressed aligned room =
    rw (push_first bs c.cmd_register addressed (omega arith)) (
      push_rest (buf c) (bs ++ (c.cmd_register ∷ [])) (λ some_left. omega (arith, grown))
        (omega (arith, grown)) (omega (arith, grown))
      ∙ append_assoc bs (c.cmd_register ∷ []) (buf c))
  where
    grown : length (bs ++ (c.cmd_register ∷ [])) ≡ length bs + 1
    grown = length-append bs (c.cmd_register ∷ [])

-- A sendable command, received between commands with room for it, becomes its frame.
pub push_frame :
    (c : MotorCommand) (bs : List ℕ)
    → IsSendable c
    → length bs % 6 ≡ 0
    → length bs + 6 ≤ 126
    → push_wire bs (wire c) ≡ bs ++ frame c
push_frame c bs s aligned room = elim s.kind [
  | inl (general, range) ↦ rw general (push_general bs c.cmd range aligned (omega arith))
  | inr (addressed, nonzero) ↦
      rw (not_general c addressed) (push_addressed c bs addressed aligned room)
]

-- The frame is taken out as the command that was meant.
pub take_frame :
    (c : MotorCommand) (bs : List ℕ) (d : Command)
    → IsSendable c
    → take_command (frame c ++ bs) d ≡ (command_of c, bs)
unfolding take_command
take_frame c bs d s = elim s.kind [
  | inl (general, range) ↦ rw general refl
  | inr (addressed, nonzero) ↦ rw (not_general c addressed, assemble_bytes c.value s.value_int) refl
]

pub length-frame : (c : MotorCommand) → length (frame c) ≡ 6
length-frame c = ground arith

abbrev pub frames : List MotorCommand → List ℕ
frames [] = []
frames (c ∷ cs) = frame c ++ frames cs

-- `GetCommand`, called as often as there are commands.
abbrev pub drain : List MotorCommand → CommandBuffer → List Command
drain [] b = []
drain (c ∷ cs) b = let (d, b') = get_command b no_command in d ∷ drain cs b'

abbrev pub AllSendable : List MotorCommand → Type 0
AllSendable [] = Unit {0}
AllSendable (c ∷ cs) = IsSendable c × AllSendable cs

pub drain-frames :
    (cs : List MotorCommand) (b : CommandBuffer)
    → AllSendable cs
    → IsValid b
    → contents b ≡ frames cs
    → drain cs b ≡ map command_of cs
drain-frames [] b s v waiting = refl
drain-frames (c ∷ cs) b (s, ss) v waiting = ap₂ ◌∷◌ (ap (λ t. t.0) taken) (
    drain-frames cs (get_command b no_command).1 ss (get_command-IsValid b no_command v)
      (ap (λ t. t.1) taken))
  where
    taken :
        let (d, b') = get_command b no_command in
        ◌≡◌ {A = Command × List ℕ} (d, contents b') (command_of c, frames cs)
    taken =
        get_command_refines b no_command v
        ∙ ap (λ bs. take_command bs no_command) waiting
        ∙ take_frame c (frames cs) no_command s
