-- ===== src/Gt02/Helpers.antt =====
-- internal/protocol/gt02/helpers.go: the fields that the GT02 messages share.
use tallerp_telemetry.Base.{
  ℕ, ◌+◌, ◌*◌, ◌/◌, ◌%◌, Bool, not, none, some, ltb, ◌==◌, if◌then◌else◌, length, Bytes, Outcome,
  ok, err, ◌>>=◌, ◌>>◌, guard, index, slice_from, uint16_at, bit_at, invalid_content,
}
use tallerp_telemetry.Telemetry.{Float64, quotient, negative, Time}
use tallerp_telemetry.Gt06.Helpers.{
  units_per_degree, max_latitude_raw, max_longitude_raw, decode_gt_timestamp, gt_digits,
}
use tallerp_telemetry.Gt02.Types.{PowerStatus}

-- The loop is that of the GT06 login.
unfoldable pub gt02_decode_bcd : Bytes → Outcome Bytes
gt02_decode_bcd text = gt_digits text

unfoldable pub decode_imei : Bytes → Outcome Bytes
unfolding gt02_decode_bcd
decode_imei text = do
  digits ← gt02_decode_bcd text
  guard (length digits == 16) invalid_content
  leading ← index digits 0
  guard (leading == b'0') invalid_content
  slice_from digits 1

-- The same code as in internal/protocol/helpers.go.
unfoldable pub gt02_decode_timestamp : Bytes → Outcome Time
gt02_decode_timestamp text = decode_gt_timestamp text

pub record Gt02GpsStatus : Type 0 where
  pub heading : ℕ
  pub realtime : Bool
  pub located : Bool
  pub east : Bool
  pub north : Bool

unfoldable pub gt02_decode_gps_status : Bytes → Outcome Gt02GpsStatus
gt02_decode_gps_status text = do
  guard (length text == 2) invalid_content
  word ← uint16_at text 0
  let heading = word % 1024
  guard (not (ltb 360 heading)) invalid_content
  first ← index text 0
  ok (record {
    heading = heading;
    realtime = not (bit_at first 32);
    located = bit_at first 16;
    east = not (bit_at first 8);
    north = bit_at first 4;
  })

unfoldable pub gt02_decode_latitude : ℕ → Bool → Outcome Float64
gt02_decode_latitude raw north = do
  guard (not (ltb max_latitude_raw raw)) invalid_content
  let value = quotient raw units_per_degree
  ok (if north then value else negative value)

unfoldable pub gt02_decode_longitude : ℕ → Bool → Outcome Float64
gt02_decode_longitude raw east = do
  guard (not (ltb max_longitude_raw raw)) invalid_content
  let value = quotient raw units_per_degree
  ok (if east then value else negative value)

unfoldable pub decode_power : ℕ → ℕ → Outcome PowerStatus
decode_power voltage extension =
    if voltage / 16 == 0x0f
    then ok (record {
      voltage_level = none;
      battery_percent = none;
      external_voltage = some (quotient (voltage % 16 * 256 + extension) 10);
    })
    else if bit_at voltage 128
    then (if ltb 100 (voltage % 128)
        then err invalid_content
        else ok (record {
          voltage_level = none;
          battery_percent = some (voltage % 128);
          external_voltage = none;
        }))
    else if ltb 6 voltage
    then err invalid_content
    else ok
        (record { voltage_level = some voltage; battery_percent = none; external_voltage = none })
