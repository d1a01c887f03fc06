-- ===== src/Smith/Delivery/Retries.antt =====
-- When smith's retries are enough, C++/MotorCommand.cpp.
use ember_firmware.Prelude.{
  ℕ, ◌≡◌, ◌∙◌, ap, refl, ◌⊎◌, inl, inr, Bool, true, false, List, [], ◌∷◌, arith,
}
use ember_firmware.Smith.I2cDevice.{Bus, Smith, checked, write_byte, write_array}
use ember_firmware.Smith.MotorCommand.{MotorCommand, buf, try_write, send}
use ember_firmware.Smith.Motor.{send_commands}
use ember_firmware.Smith.Delivery.Bytes.{IsSendable, not_general, not_refused, AllSendable}

module _ (bus : Bus) where
  -- Of a write and its repetition, one succeeds.
  abbrev pub IsReliable : Type 0
  IsReliable =
      (bs : List ℕ) (w : bus.World)
      → ((bus.write bs w).0 ≡ true) ⊎ ((bus.write bs (bus.write bs w).1).0 ≡ true)

  two_tries :
      (write : Smith bus.World → Bool × Smith bus.World) (s : Smith bus.World)
      → ((write s).0 ≡ true) ⊎ ((write (write s).1).0 ≡ true)
      → (try_write bus 2 write s).0 ≡ true
  unfolding try_write
  two_tries write s (inl first) = ground (arith, first)
  two_tries write s (inr second) = ground (arith, second)

  checked_ok : (r : Bool × bus.World) (s : Smith bus.World) → (checked bus r s).0 ≡ r.0
  checked_ok (true, w) s = refl
  checked_ok (false, w) s = refl

  checked_world : (r : Bool × bus.World) (s : Smith bus.World) → (checked bus r s).1.world ≡ r.1
  checked_world (true, w) s = refl
  checked_world (false, w) s = refl

  -- What `Send` does with these bytes.
  repeated : List ℕ → Smith bus.World → Bool × Smith bus.World
  repeated bs s = try_write bus 2 (λ s'. checked bus (bus.write bs s'.world) s') s

  retried :
      (bs : List ℕ) (s : Smith bus.World)
      → IsReliable
      → let first = checked bus (bus.write bs s.world) s in
        (first.0 ≡ true) ⊎ ((checked bus (bus.write bs first.1.world) first.1).0 ≡ true)
  retried bs s reliable =
      let first : Bool × Smith bus.World = checked bus (bus.write bs s.world) s in
      elim (reliable bs s.world) [
        | inl ok ↦ inl (checked_ok (bus.write bs s.world) s ∙ ok)
        | inr ok ↦ inr (
            checked_ok (bus.write bs first.1.world) first.1
            ∙ ap (λ w. (bus.write bs w).0) (checked_world (bus.write bs s.world) s)
            ∙ ok)
      ]

  repeated_ok : (bs : List ℕ) (s : Smith bus.World) → IsReliable → (repeated bs s).0 ≡ true
  unfolding repeated
  repeated_ok bs s reliable =
      two_tries (λ s'. checked bus (bus.write bs s'.world) s') s (retried bs s reliable)

  send_ok :
      (c : MotorCommand) (s : Smith bus.World) → IsSendable c → IsReliable → (send bus c s).0 ≡ true
  unfolding send write_byte write_array repeated
  send_ok c s sendable reliable = elim sendable.kind [
    | inl (general, range) ↦ rw general (repeated_ok (c.cmd ∷ []) s reliable)
    | inr (addressed, nonzero) ↦
        rw (not_general c addressed, nonzero, not_refused c sendable)
          (repeated_ok (c.cmd_register ∷ buf c) s reliable)
  ]

  -- SendCommands succeeds with commands that Send does not refuse, on a bus where of a write and
  -- its repetition one succeeds.
  pub send_commands_succeed :
      (cs : List MotorCommand) (s : Smith bus.World)
      → AllSendable cs
      → IsReliable
      → (send_commands bus cs s).0 ≡ true
  unfolding send_commands
  send_commands_succeed [] s sendable reliable = refl
  send_commands_succeed (c ∷ cs) s (one, others) reliable =
      rw (send_ok c s one reliable) (send_commands_succeed cs (send bus c s).1 others reliable)
