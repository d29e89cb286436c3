-- ===== src/Gt06/Crc.antt =====
-- internal/protocol/crc.go and encoder.go: the check code, and the acknowledgements that carry it.
use Prim.Native.Nat.{bit_xor}
use tallerp_telemetry.Base.{
  ℕ, zero, suc, ◌-◌, ◌/◌, ◌%◌, [], ◌∷◌, ◌++◌, ◌==◌, if◌then◌else◌, Bytes, put16,
}

-- The eight shifts for one byte, `n` of them left.
crc_bits : ℕ → ℕ → ℕ
crc_bits zero crc = crc
crc_bits (suc n) crc = crc_bits n (if crc % 2 == 1 then bit_xor (crc / 2) 0x8408 else crc / 2)

crc_from : ℕ → Bytes → ℕ
crc_from crc [] = crc
crc_from crc (value ∷ rest) = crc_from (crc_bits 8 (bit_xor crc value)) rest

-- `^crc` on a uint16 is its difference to 0xffff.
unfoldable pub calculate_crc : Bytes → ℕ
unfolding crc_from crc_bits
calculate_crc bytes = 0xffff - crc_from 0xffff bytes

-- The four bytes that the check code of an acknowledgement is over.
abbrev pub ack_payload : ℕ → ℕ → Bytes
ack_payload protocol_number serial = 0x05 ∷ (protocol_number ∷ put16 serial)

unfoldable pub build_ack : ℕ → ℕ → Bytes
build_ack protocol_number serial =
    0x78
    ∷ 0x78
    ∷ (ack_payload protocol_number serial
        ++ (put16 (calculate_crc (ack_payload protocol_number serial)) ++ 0x0d ∷ 0x0a ∷ []))

unfoldable pub build_login_ack : ℕ → Bytes
build_login_ack serial = build_ack 0x01 serial

unfoldable pub build_heartbeat_ack : ℕ → Bytes
build_heartbeat_ack serial = build_ack 0x13 serial

unfoldable pub build_alarm_ack : ℕ → Bytes
build_alarm_ack serial = build_ack 0x16 serial
