-- ===== src/Avr/Command/RoundTrip.antt =====
-- The parameter of a command as four bytes, least significant first, and back.
use ember_firmware.Prelude.{ℕ, ◌+◌, ◌*◌, ◌/◌, ◌%◌, ◌^◌, ◌<◌, ◌≡◌, arith, ap, ◌∙◌, bit_or}
use ember_firmware.Prelude.Int.{ℤ, signed32, pattern32, IsInt32, signed32-pattern32, pattern32-lt}
use ember_firmware.Prelude.Bits.{bit_or_disjoint}
use ember_firmware.Avr.Command.{assemble}

-- Byte `k` of a 32-bit pattern, `(value >> 8 * k) & 0xFF`.
abbrev pub byte_of : ℕ → ℕ → ℕ
byte_of w k = w / 2 ^ (8 * k) % 256

-- Bytes joined by shifts and `|` are the digits of a number in base 256.
pub joined_bytes :
    (b0 b1 b2 b3 : ℕ)
    → b0 < 256
    → b1 < 256
    → b2 < 256
    → bit_or (bit_or (bit_or b0 (b1 * 2 ^ 8)) (b2 * 2 ^ 16)) (b3 * 2 ^ 24)
      ≡ b0 + b1 * 2 ^ 8 + b2 * 2 ^ 16 + b3 * 2 ^ 24
joined_bytes b0 b1 b2 b3 h0 h1 h2 = omega (arith, e1, e2, e3)
  where
    e1 : bit_or b0 (b1 * 2 ^ 8) ≡ b0 + b1 * 2 ^ 8
    e1 = bit_or_disjoint 8 b0 b1 (omega arith)

    e2 : bit_or (bit_or b0 (b1 * 2 ^ 8)) (b2 * 2 ^ 16) ≡ bit_or b0 (b1 * 2 ^ 8) + b2 * 2 ^ 16
    e2 = bit_or_disjoint 16 (bit_or b0 (b1 * 2 ^ 8)) b2 (omega (arith, e1))

    e3 :
        bit_or (bit_or (bit_or b0 (b1 * 2 ^ 8)) (b2 * 2 ^ 16)) (b3 * 2 ^ 24)
        ≡ bit_or (bit_or b0 (b1 * 2 ^ 8)) (b2 * 2 ^ 16) + b3 * 2 ^ 24
    e3 =
        bit_or_disjoint 24 (bit_or (bit_or b0 (b1 * 2 ^ 8)) (b2 * 2 ^ 16)) b3
          (omega (arith, e1, e2))

-- The four bytes of an int32_t, least significant first, are assembled to that int32_t.
pub assemble_bytes :
    (z : ℤ)
    → IsInt32 z
    → let w = pattern32 z in assemble (byte_of w 0) (byte_of w 1) (byte_of w 2) (byte_of w 3) ≡ z
assemble_bytes z h =
    ap signed32 (
      joined_bytes (byte_of w 0) (byte_of w 1) (byte_of w 2) (byte_of w 3) (omega arith)
        (omega arith) (omega arith)
      ∙ digits)
    ∙ signed32-pattern32 z h
  where
    w : ℕ
    w = pattern32 z

    digits : byte_of w 0 + byte_of w 1 * 2 ^ 8 + byte_of w 2 * 2 ^ 16 + byte_of w 3 * 2 ^ 24 ≡ w
    digits = omega (arith, pattern32-lt z h)
