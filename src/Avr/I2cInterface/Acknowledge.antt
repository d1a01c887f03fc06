-- ===== src/Avr/I2cInterface/Acknowledge.antt =====
-- Which bytes the I2C interrupt acknowledges, and which it keeps.
use ember_firmware.Prelude.{
  ℕ, ◌≤◌, ◌≡◌, ◌∙◌, refl, sym, subst, length, Bool, true, false, List, [], ◌∷◌, arith,
  if◌then◌else◌,
}
use ember_firmware.Avr.Codes.{Status}
use ember_firmware.Avr.CommandBuffer.{CommandBuffer, is_full, add_command_byte}
use ember_firmware.Avr.CommandBuffer.Refine.{IsValid, contents, length-contents, push_byte}
use ember_firmware.Avr.CommandBuffer.Framing.{
  push_command_byte, add_command_byte-IsValid, add_command_byte_refines,
}
use ember_firmware.Avr.I2cInterface.{
  TwStatus, tw_sr_data_ack, tw_sr_gcall_data_ack, I2c, initialize, store_byte, send_status, twi_isr,
}

-- The statuses that report a received and acknowledged byte.
abbrev pub is_data_ack : TwStatus → Bool
is_data_ack tw_sr_data_ack = true
is_data_ack tw_sr_gcall_data_ack = true
is_data_ack _ = false

store_byte-commands : (i : I2c) → (store_byte i).commands ≡ add_command_byte i.commands i.twdr
unfolding store_byte
store_byte-commands i = ground arith

twi_isr-commands :
    (t : TwStatus) (i : I2c)
    → (twi_isr t i).commands
      ≡ (if is_data_ack t then add_command_byte i.commands i.twdr else i.commands)
unfolding twi_isr send_status
twi_isr-commands tw_sr_data_ack i = store_byte-commands i
twi_isr-commands tw_sr_gcall_data_ack i = store_byte-commands i
twi_isr-commands _ i = refl

abbrev Framed : Bool → I2c → CommandBuffer → Type 0
Framed kept i b =
    IsValid b
    × (contents b
        ≡ (if kept then push_command_byte (contents i.commands) i.twdr else contents i.commands))

framed :
    (kept : Bool) (i : I2c)
    → IsValid i.commands
    → Framed kept i (if kept then add_command_byte i.commands i.twdr else i.commands)
framed true i v =
    (add_command_byte-IsValid i.commands i.twdr v, add_command_byte_refines i.commands i.twdr v)
framed false i v = (v, refl)

-- Every I2C interrupt, whatever its status code, keeps a well-formed command buffer well formed,
-- frames the received byte if it was acknowledged, and else leaves the waiting bytes as they are.
pub twi_isr_refines :
    (t : TwStatus) (i : I2c)
    → IsValid i.commands
    → IsValid (twi_isr t i).commands
      × (contents (twi_isr t i).commands ≡ (
          if is_data_ack t
          then push_command_byte (contents i.commands) i.twdr
          else contents i.commands))
twi_isr_refines t i v =
    subst (Framed (is_data_ack t) i) (sym (twi_isr-commands t i)) (framed (is_data_ack t) i v)

-- The interrupts of a run: the status code of each, and the byte and the status that it finds.
abbrev pub run_isr : List (TwStatus × ℕ × Status) → I2c → I2c
run_isr [] i = i
run_isr ((t, byte, s) ∷ ts) i = run_isr ts (twi_isr t (record i { twdr = byte; status = s }))

keeps_twea : (t : TwStatus) (i : I2c) → i.twcr.twea ≡ true → (twi_isr t i).twcr.twea ≡ true
unfolding twi_isr send_status store_byte
keeps_twea t i h = ground arith

run_keeps_twea :
    (ts : List (TwStatus × ℕ × Status)) (i : I2c)
    → i.twcr.twea ≡ true
    → (run_isr ts i).twcr.twea ≡ true
run_keeps_twea [] i h = h
run_keeps_twea ((t, byte, s) ∷ ts) i h =
    run_keeps_twea ts _ (keeps_twea t (record i { twdr = byte; status = s }) h)

push_full : (bs : List ℕ) (x : ℕ) → 126 ≤ length bs → push_command_byte bs x ≡ bs
unfolding push_command_byte push_byte
push_full bs x full = ground arith

lost :
    (i : I2c) (t : TwStatus)
    → IsValid i.commands
    → is_full i.commands ≡ true
    → (if is_data_ack t
        then push_command_byte (contents i.commands) i.twdr
        else contents i.commands)
      ≡ contents i.commands
unfolding is_full
lost i t v full = ground (
  arith,
  push_full (contents i.commands) i.twdr
      (ground (arith, length-contents i.commands, v.full_aligned)),
)

-- From I2CInterface::Initialize on, after any interrupts, with a well-formed full command buffer,
-- the acknowledge bit is set before and after the next interrupt, and that interrupt leaves the
-- waiting bytes as they were, so that an acknowledged byte is lost.
pub full_buffer_acknowledges :
    (ts : List (TwStatus × ℕ × Status)) (i : I2c) (byte : ℕ) (t : TwStatus)
    → IsValid (run_isr ts (initialize i)).commands
    → is_full (run_isr ts (initialize i)).commands ≡ true
    → let j = record (run_isr ts (initialize i)) { twdr = byte } in
      (j.twcr.twea ≡ true)
      × ((twi_isr t j).twcr.twea ≡ true)
      × (contents (twi_isr t j).commands ≡ contents j.commands)
unfolding initialize
full_buffer_acknowledges ts i byte t v full =
    (acks, keeps_twea t j acks, (twi_isr_refines t j v).1 ∙ lost j t v full)
  where
    j : I2c
    j = record (run_isr ts (initialize i)) { twdr = byte }

    acks : (run_isr ts (initialize i)).twcr.twea ≡ true
    acks = run_keeps_twea ts (initialize i) (ground arith)
