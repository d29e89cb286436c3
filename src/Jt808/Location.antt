-- ===== src/Jt808/Location.antt =====
-- internal/protocol/jt808/location.go: the location report.
pub mod Safety
use Prim.Native.String.{String}
use tallerp_telemetry.Base.{
  ℕ, zero, suc, ◌+◌, ◌-◌, ◌*◌, ◌^◌, Bool, not, List, [], ◌∷◌, ◌++◌, Option, none, some, ltb,
  if◌then◌else◌, length, index, Bytes, Outcome, ok, err, ◌>>=◌, ◌>>◌, guard, slice, slice_from,
  uint16_at, uint32_at, bit_at, lookup, nat_key, malformed_body, ◌==◌,
}
use tallerp_telemetry.Telemetry.{Float64, quotient, negative, Time, date}
use tallerp_telemetry.Jt808.Header.{decode_bcd}
use tallerp_telemetry.Jt808.AdditionalInfo.{AdditionalItem, parse_additional_items}

abbrev pub location_fixed_body_length : ℕ
location_fixed_body_length = 28

-- Alarm flag bits.
abbrev pub alarm_bit_names : List (ℕ × String)
alarm_bit_names =
    (0, "emergency")
    ∷ (1, "overspeed")
    ∷ (7, "main_power_undervoltage")
    ∷ (8, "main_power_off")
    ∷ (15, "vibration")
    ∷ (16, "low_battery")
    ∷ (17, "dismantle")
    ∷ (20, "area_enter_exit")
    ∷ (28, "illegal_movement")
    ∷ (29, "collision")
    ∷ (30, "rollover")
    ∷ []

-- Terminal status bits.
abbrev pub status_bit_acc : ℕ
status_bit_acc = 0

abbrev pub status_bit_positioned : ℕ
status_bit_positioned = 1

abbrev pub status_bit_latitude_south : ℕ
status_bit_latitude_south = 2

abbrev pub status_bit_longitude_west : ℕ
status_bit_longitude_west = 3

abbrev pub status_bit_external_power : ℕ
status_bit_external_power = 22

pub record LocationPacket : Type 0 where
  pub alarm_flags : ℕ
  pub alarm_types : List String
  pub terminal_status : ℕ
  pub latitude : Float64
  pub longitude : Float64
  pub altitude_meters : ℕ
  pub speed_kmh : Float64
  pub heading : ℕ
  pub gps_at : Time
  pub acc : Bool
  pub gps_located : Bool
  pub external_power : Bool
  pub additional_items : List AdditionalItem

abbrev pub status_bit : ℕ → ℕ → Bool
status_bit status bit = bit_at status (2 ^ bit)

-- The name that a bit adds, if it has one.
named : Option String → List String → List String
named none alarms = alarms
named (some name) alarms = alarms ++ name ∷ []

-- The loop over the bits, `n` of them left.
alarms_from : ℕ → ℕ → ℕ → List String → List String
unfolding named
alarms_from zero flags bit alarms = alarms
alarms_from (suc n) flags bit alarms =
    alarms_from n flags (bit + 1)
      (if status_bit flags bit then named (lookup bit alarm_bit_names) alarms else alarms)

unfoldable pub decode_alarm_types : ℕ → List String
unfolding alarms_from
decode_alarm_types flags = alarms_from 32 flags 0 []

-- `int(digits[i]-'0')*10 + int(digits[i+1]-'0')`
two_digits : Bytes → ℕ → Outcome ℕ
two_digits digits i = do
  tens ← index digits i
  ones ← index digits (i + 1)
  ok ((tens - b'0') * 10 + (ones - b'0'))

unfoldable pub decode_bcd_time : Bytes → Outcome Time
unfolding two_digits
decode_bcd_time text = do
  guard (length text == 6) malformed_body
  digits ← decode_bcd text
  year ← two_digits digits 0
  month ← two_digits digits 2
  day ← two_digits digits 4
  hour ← two_digits digits 6
  minute ← two_digits digits 8
  second ← two_digits digits 10
  ok (date (2000 + year) month day hour minute second)

-- A coordinate in millionths of a degree, with its sign.
degrees : ℕ → Bool → Float64
degrees raw below = let value = quotient raw 1_000_000 in if below then negative value else value

unfoldable pub parse_location : Bytes → Outcome LocationPacket
unfolding degrees
parse_location body = do
  guard (not (ltb (length body) location_fixed_body_length)) malformed_body
  alarm_flags ← uint32_at body 0
  status ← uint32_at body 4
  raw_lat ← uint32_at body 8
  raw_lon ← uint32_at body 12
  altitude ← uint16_at body 16
  raw_speed ← uint16_at body 18
  heading ← uint16_at body 20
  time_bytes ← slice body 22 28
  gps_at ← decode_bcd_time time_bytes
  rest ← slice_from body location_fixed_body_length
  items ← parse_additional_items rest
  ok (record {
    alarm_flags = alarm_flags;
    alarm_types = decode_alarm_types alarm_flags;
    terminal_status = status;
    latitude = degrees raw_lat (status_bit status status_bit_latitude_south);
    longitude = degrees raw_lon (status_bit status status_bit_longitude_west);
    altitude_meters = altitude;
    speed_kmh = quotient raw_speed 10;
    heading = heading;
    gps_at = gps_at;
    acc = status_bit status status_bit_acc;
    gps_located = status_bit status status_bit_positioned;
    external_power = status_bit status status_bit_external_power;
    additional_items = items;
  })
