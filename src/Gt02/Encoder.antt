-- ===== src/Gt02/Encoder.antt =====
-- internal/protocol/gt02/encoder.go: acknowledgements, and the commands that are sent to a terminal.
pub mod RoundTrip
use tallerp_telemetry.Base.{
  ℕ, ◌+◌, ◌-◌, Bool, true, not, ◌||◌, ◌&&◌, [], ◌∷◌, ◌++◌, ltb, ◌==◌, length, get_or, Bytes,
  Outcome, ok, ◌>>◌, guard, put16, put32, invalid_content,
}
use tallerp_telemetry.Gt06.Crc.{calculate_crc, build_ack}

-- The function `buildACK` of this package is that of internal/protocol.
unfoldable pub gt02_build_ack : ℕ → ℕ → Bytes
gt02_build_ack protocol_number serial = build_ack protocol_number serial

unfoldable pub gt02_login_ack : ℕ → Bytes
unfolding gt02_build_ack
gt02_login_ack serial = gt02_build_ack 0x01 serial

unfoldable pub gt02_heartbeat_ack : ℕ → Bytes
unfolding gt02_build_ack
gt02_heartbeat_ack serial = gt02_build_ack 0x13 serial

unfoldable pub gt02_alarm_ack : ℕ → Bytes
unfolding gt02_build_ack
gt02_alarm_ack serial = gt02_build_ack 0x26 serial

-- The loop over the command's bytes.
unfoldable pub is_printable : Bytes → Bool
is_printable [] = true
is_printable (value ∷ rest) = not (ltb value 0x20 || ltb 0x7e value) && is_printable rest

-- The bytes that the check code is over: from the length on.
abbrev pub command_payload : ℕ → Bytes → ℕ → ℕ → Bytes
command_payload server_flag command language serial =
    (10 + length command + 2)
    ∷ 0x80
    ∷ (4 + length command)
    ∷ (put32 server_flag ++ (command ++ (put16 language ++ put16 serial)))

unfoldable pub build_gt02_command : ℕ → Bytes → ℕ → ℕ → Outcome Bytes
unfolding is_printable
build_gt02_command server_flag command language serial = do
  guard (ltb 0 (length command) && (get_or command (length command - 1) 0 == b'#')) invalid_content
  guard (is_printable command) invalid_content
  let instruction_length = 4 + length command
  let declared_length = 1 + 1 + instruction_length + 2 + 2 + 2
  guard (not (ltb 255 instruction_length || ltb 255 declared_length)) invalid_content
  let payload = command_payload server_flag command language serial
  ok (0x78 ∷ 0x78 ∷ (payload ++ (put16 (calculate_crc payload) ++ 0x0d ∷ 0x0a ∷ [])))
