-- ===== src/Jt808/Types.antt =====
-- internal/protocol/jt808: types.go, frame.go and the constants of header.go and escape.go.
use tallerp_telemetry.Base.{
  ℕ, zero, suc, ◌%◌, Bool, ◌==◌, if◌then◌else◌, Bytes, get_or, take, length,
}

abbrev pub delimiter : ℕ
delimiter = 0x7e

abbrev pub escape_byte : ℕ
escape_byte = 0x7d

abbrev pub escaped_delimiter : ℕ
escaped_delimiter = 0x02

abbrev pub escaped_escape : ℕ
escaped_escape = 0x01

-- The mask 0x03ff keeps the ten low bits.
abbrev pub body_length_mask : ℕ
body_length_mask = 0x03ff

abbrev pub low_ten : ℕ → ℕ
low_ten props = props % 1024

abbrev pub min_header_length : ℕ
min_header_length = 12

abbrev pub subpackage_header_length : ℕ
subpackage_header_length = 16

pub record Frame : Type 0 where
  pub message_id : ℕ
  pub body_props : ℕ
  pub encryption : ℕ
  pub has_subpackage : Bool
  pub terminal_sn : Bytes
  pub message_serial : ℕ
  pub total_packets : ℕ
  pub packet_serial : ℕ
  pub body : Bytes
  pub raw : Bytes
  pub checksum : ℕ

unfoldable pub body_length : Frame → ℕ
body_length f = low_ten f.body_props

abbrev pub result_success : ℕ
result_success = 0

abbrev pub result_failure : ℕ
result_failure = 1

abbrev pub result_not_supported : ℕ
result_not_supported = 3

abbrev pub registration_success : ℕ
registration_success = 0

abbrev pub result_message_error : ℕ
result_message_error = 2

abbrev pub result_alarm_confirmed : ℕ
result_alarm_confirmed = 4

abbrev pub registration_vehicle_already_exists : ℕ
registration_vehicle_already_exists = 1

abbrev pub registration_no_such_vehicle : ℕ
registration_no_such_vehicle = 2

abbrev pub registration_terminal_already_exists : ℕ
registration_terminal_already_exists = 3

abbrev pub registration_no_such_terminal : ℕ
registration_no_such_terminal = 4

pub record RegistrationPacket : Type 0 where
  pub province_id : ℕ
  pub city_county_id : ℕ
  pub manufacturer : Bytes
  pub model : Bytes
  pub terminal_id : Bytes
  pub plate_color : ℕ
  pub vehicle_id : Bytes

pub record AuthPacket : Type 0 where
  pub auth_code : Bytes

pub record GeneralResponsePacket : Type 0 where
  pub response_serial : ℕ
  pub reply_id : ℕ
  pub result : ℕ

-- `for end > 0 && data[end-1] == 0x00 { end-- }`
trim_end : ℕ → Bytes → ℕ
trim_end zero text = 0
trim_end (suc n) text = if get_or text n 1 == 0 then trim_end n text else suc n

unfoldable pub trim_trailing_nulls : Bytes → Bytes
unfolding trim_end
trim_trailing_nulls text = take (trim_end (length text) text) text
