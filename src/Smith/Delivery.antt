-- ===== src/Smith/Delivery.antt =====
-- The commands that smith sends are the commands that the controller gets: the bytes of
-- C++/MotorCommand.cpp, framed by AVR/MotorController/CommandBuffer.cpp.
pub mod Bytes
pub mod Retries
use ember_firmware.Prelude.{
  ℕ, zero, suc, ◌+◌, ◌*◌, ◌%◌, ◌≤◌, ◌<◌, ◌≡◌, refl, sym, subst, ap, ◌∙◌, inl, inr, Bool, true,
  false, List, [], ◌∷◌, ◌++◌, map, append-nil, append_assoc, arith, length, length-append,
  Bool-cases, if◌then◌else◌, ◌==◌, ◌||◌, ◌&&◌,
}
use ember_firmware.Avr.Codes.{rot_settings_reg, z_settings_reg}
use ember_firmware.Avr.CommandBuffer.{CommandBuffer}
use ember_firmware.Avr.CommandBuffer.Refine.{IsValid, contents}
use ember_firmware.Smith.I2cDevice.{Bus, Smith, checked, write_byte, write_array}
use ember_firmware.Smith.MotorCommand.{MotorCommand, is_negative, buf, try_write, send}
use ember_firmware.Smith.Motor.{send_commands}
use ember_firmware.Smith.Delivery.Bytes.{
  IsSendable, not_general, not_refused, wire, frame, command_of, receive, receive-IsValid,
  receive_refines, push_frame, length-frame, frames, drain, AllSendable, drain-frames,
}

-- A bus to the controller delivers all bytes of a write that reports success. What a write that
-- reports failure delivers is left open.
pub record Delivers (bus : Bus) (buffer : bus.World → CommandBuffer) : Type 0 where
  pub delivered :
      (bs : List ℕ) (w : bus.World)
      → (bus.write bs w).0 ≡ true
      → buffer (bus.write bs w).1 ≡ receive (buffer w) bs

module _ (bus : Bus) (buffer : bus.World → CommandBuffer) (link : Delivers bus buffer) where
  -- A call logs errors or none, and if it succeeds without one, these bytes have come.
  abbrev Leaves : Bool × Smith bus.World → Smith bus.World → List ℕ → Type 0
  Leaves r s bs =
      (length s.errors ≤ length r.1.errors)
      × (r.0 ≡ true
          → length r.1.errors ≡ length s.errors
          → buffer r.1.world ≡ receive (buffer s.world) bs)

  -- A way to write writes these bytes.
  abbrev Writes : (Smith bus.World → Bool × Smith bus.World) → List ℕ → Type 0
  Writes write bs = (s : Smith bus.World) → Leaves (write s) s bs

  -- A failure is logged.
  abbrev Logs : (Smith bus.World → Bool × Smith bus.World) → Type 0
  Logs write =
      (s : Smith bus.World) → (write s).0 ≡ false → length s.errors < length (write s).1.errors

  checked-Leaves :
      (r : Bool × bus.World) (s : Smith bus.World) (bs : List ℕ)
      → (r.0 ≡ true → buffer r.1 ≡ receive (buffer s.world) bs)
      → Leaves (checked bus r s) s bs
  checked-Leaves (true, w) s bs d = (omega arith, λ ok same. d refl)
  checked-Leaves (false, w) s bs d = (omega arith, λ ok same. ground arith)

  bus-Writes : (bs : List ℕ) → Writes (λ s. checked bus (bus.write bs s.world) s) bs
  bus-Writes bs s = checked-Leaves (bus.write bs s.world) s bs (link.delivered bs s.world)

  checked-Logs :
      (r : Bool × bus.World) (s : Smith bus.World)
      → (checked bus r s).0 ≡ false
      → length s.errors < length (checked bus r s).1.errors
  checked-Logs (true, w) s h = ground arith
  checked-Logs (false, w) s h = omega arith

  bus-Logs : (bs : List ℕ) → Logs (λ s. checked bus (bus.write bs s.world) s)
  bus-Logs bs s = checked-Logs (bus.write bs s.world) s

  retry-Leaves :
      (r rest : Bool × Smith bus.World) (s : Smith bus.World) (bs : List ℕ)
      → Leaves r s bs
      → (r.0 ≡ false → length s.errors < length r.1.errors)
      → length r.1.errors ≤ length rest.1.errors
      → Leaves (if r.0 then (true, r.1) else rest) s bs
  retry-Leaves (true, s1) rest s bs first logged more = first
  retry-Leaves (false, s1) rest s bs first logged more =
      let grew = logged refl in (omega arith, λ ok same. absurd (omega arith))

  try_write-Writes :
      (tries : ℕ) (write : Smith bus.World → Bool × Smith bus.World) (bs : List ℕ)
      → Writes write bs
      → Logs write
      → Writes (try_write bus tries write) bs
  unfolding try_write
  try_write-Writes zero write bs h logs s = (omega arith, λ ok same. ground arith)
  try_write-Writes (suc tries) write bs h logs s =
      retry-Leaves (write s) (try_write bus tries write (write s).1) s bs (h s) (logs s)
        (try_write-Writes tries write bs h logs (write s).1).0

  send-Writes : (c : MotorCommand) → IsSendable c → Writes (send bus c) (wire c)
  unfolding send write_byte write_array
  send-Writes c sendable s = elim sendable.kind [
    | inl (general, range) ↦ rw general (
        try_write-Writes 2 (write_byte bus c.cmd) (c.cmd ∷ []) (bus-Writes (c.cmd ∷ []))
          (bus-Logs (c.cmd ∷ [])) s)
    | inr (addressed, nonzero) ↦
        rw (not_general c addressed, nonzero, not_refused c sendable)
          (try_write-Writes 2 (write_array bus c.cmd_register (buf c)) (c.cmd_register ∷ buf c)
            (bus-Writes (c.cmd_register ∷ buf c)) (bus-Logs (c.cmd_register ∷ buf c)) s)
  ]

  -- What has come with the commands, if all are sent.
  abbrev Arrived : List MotorCommand → CommandBuffer → CommandBuffer → Type 0
  Arrived cs b b' = IsValid b' × (contents b' ≡ contents b ++ frames cs)

  received-Arrived :
      (c : MotorCommand) (b : CommandBuffer)
      → IsSendable c
      → IsValid b
      → length (contents b) % 6 ≡ 0
      → length (contents b) + 6 ≤ 126
      → Arrived (c ∷ []) b (receive b (wire c))
  received-Arrived c b sendable v aligned room = (
    receive-IsValid (wire c) b v,
    receive_refines (wire c) b v
        ∙ push_frame c (contents b) sendable aligned room
        ∙ ap (λ f. contents b ++ f) (sym (append-nil (frame c))),
  )

  Arrived-append :
      (c : MotorCommand) (cs : List MotorCommand) (b b1 b2 : CommandBuffer)
      → Arrived (c ∷ []) b b1
      → Arrived cs b1 b2
      → Arrived (c ∷ cs) b b2
  Arrived-append c cs b b1 b2 (v1, first) (v2, others) = (
    v2,
    others
        ∙ ap (λ bs. bs ++ frames cs) (first ∙ ap (λ f. contents b ++ f) (append-nil (frame c)))
        ∙ append_assoc (contents b) (frame c) (frames cs),
  )

  grown :
      (c : MotorCommand) (b b1 : CommandBuffer)
      → Arrived (c ∷ []) b b1
      → length (contents b1) ≡ length (contents b) + 6
  grown c b b1 (v1, first) =
      ap length (first ∙ ap (λ f. contents b ++ f) (append-nil (frame c)))
      ∙ length-append (contents b) (frame c)
      ∙ ap (λ n. length (contents b) + n) (length-frame c)

  -- Success needs every part.
  both_sent :
      (r rest : Bool × Smith bus.World)
      → (if r.0 then rest else (false, r.1)).0 ≡ true
      → (r.0 ≡ true) × ((if r.0 then rest else (false, r.1)) ≡ rest)
  both_sent (true, s) rest ok = (refl, refl)
  both_sent (false, s) rest ok = ground arith

  more_errors :
      (n : ℕ) (r rest : Bool × Smith bus.World)
      → n ≤ length r.1.errors
      → length r.1.errors ≤ length rest.1.errors
      → n ≤ length (if r.0 then rest else (false, r.1)).1.errors
  more_errors n (true, s) rest h h1 = omega arith
  more_errors n (false, s) rest h h1 = h

  -- The log only grows.
  logged :
      (cs : List MotorCommand) (s : Smith bus.World)
      → AllSendable cs
      → length s.errors ≤ length (send_commands bus cs s).1.errors
  unfolding send_commands
  logged [] s sendable = omega arith
  logged (c ∷ cs) s (one, others) =
      more_errors (length s.errors) (send bus c s) (send_commands bus cs (send bus c s).1)
        (send-Writes c one s).0 (logged cs (send bus c s).1 others)

  all_sent-Arrived :
      (cs : List MotorCommand) (s : Smith bus.World)
      → AllSendable cs
      → IsValid (buffer s.world)
      → length (contents (buffer s.world)) % 6 ≡ 0
      → length (contents (buffer s.world)) + 6 * length cs ≤ 126
      → (send_commands bus cs s).0 ≡ true
      → length (send_commands bus cs s).1.errors ≡ length s.errors
      → Arrived cs (buffer s.world) (buffer (send_commands bus cs s).1.world)
  unfolding send_commands
  all_sent-Arrived [] s sendable v aligned room ok same =
      (v, sym (append-nil (contents (buffer s.world))))
  all_sent-Arrived (c ∷ cs) s (one, others) v aligned room ok same =
      subst (λ r. Arrived (c ∷ cs) b (buffer r.1.world)) (sym sent.1)
        (Arrived-append c cs b b1 _ first (
          all_sent-Arrived cs (send bus c s).1 others first.0
            (omega (arith, grown c b b1 first, aligned)) (omega (arith, grown c b b1 first, room))
            (ap (λ r. r.0) (sym sent.1) ∙ ok) (rest_same ∙ sym none_logged)))
    where
      b : CommandBuffer
      b = buffer s.world

      b1 : CommandBuffer
      b1 = buffer (send bus c s).1.world

      sent :
          ((send bus c s).0 ≡ true)
          × (send_commands bus (c ∷ cs) s ≡ send_commands bus cs (send bus c s).1)
      sent = both_sent (send bus c s) (send_commands bus cs (send bus c s).1) ok

      rest_same : length (send_commands bus cs (send bus c s).1).1.errors ≡ length s.errors
      rest_same = ap (λ r. length r.1.errors) (sym sent.1) ∙ same

      none_logged : length (send bus c s).1.errors ≡ length s.errors
      none_logged =
          omega (arith, (send-Writes c one s).0, logged cs (send bus c s).1 others, rest_same)

      first : Arrived (c ∷ []) b b1
      first =
          subst (Arrived (c ∷ []) b) (sym ((send-Writes c one s).1 sent.0 none_logged))
            (received-Arrived c b one v aligned (omega (arith, room)))

  -- If smith's SendCommands succeeds and no write of it has failed (no error is logged), with at
  -- most 21 commands that Send does not refuse, over a bus that delivers each successful write
  -- whole, into an empty well-formed buffer, then the controller takes exactly these commands out
  -- of its buffer, in order, each with its register, action and parameter.
  pub sent_commands_arrive :
      (cs : List MotorCommand) (s : Smith bus.World)
      → AllSendable cs
      → IsValid (buffer s.world)
      → contents (buffer s.world) ≡ []
      → length cs ≤ 21
      → (send_commands bus cs s).0 ≡ true
      → (send_commands bus cs s).1.errors ≡ s.errors
      → drain cs (buffer (send_commands bus cs s).1.world) ≡ map command_of cs
  sent_commands_arrive cs s sendable v empty few ok same =
      drain-frames cs _ sendable arrived.0 (arrived.1 ∙ ap (λ bs. bs ++ frames cs) empty)
    where
      arrived : Arrived cs (buffer s.world) (buffer (send_commands bus cs s).1.world)
      arrived =
          all_sent-Arrived cs s sendable v (rw empty refl) (rw empty (omega arith)) ok
            (ap length same)
