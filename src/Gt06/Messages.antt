-- ===== src/Gt06/Messages.antt =====
-- internal/protocol: login.go, location.go, heartbeat.go and alarm.go, the parsers of GT06 messages.
pub mod Safety
pub mod Bounds
use Prim.Native.String.{String}
use tallerp_telemetry.Base.{
  ℕ, ◌+◌, ◌*◌, ◌/◌, ◌%◌, Bool, not, ◌||◌, List, [], ◌∷◌, Option, none, some, ltb, ◌==◌,
  if◌then◌else◌, length, get_or, Bytes, Outcome, ok, ◌>>=◌, ◌>>◌, guard, index, slice, slice_from,
  uint16_at, uint32_at, bit_at, invalid_content, u16_of, lookup, nat_key,
}
use tallerp_telemetry.Telemetry.{Float64, Time}
use tallerp_telemetry.Gt06.Decoder.{GtFrame}
use tallerp_telemetry.Gt06.Helpers.{
  gt_digits, decode_gt_timestamp, decode_gps_status, GpsStatus, decode_latitude, decode_longitude,
  max_latitude_raw, max_longitude_raw,
}

pub record GtLoginPacket : Type 0 where
  pub imei : Bytes
  pub serial : ℕ

unfoldable pub parse_gt_login : GtFrame → Outcome GtLoginPacket
parse_gt_login frame = do
  guard (frame.protocol_number == 0x01) invalid_content
  guard (length frame.content == 8) invalid_content
  digits ← gt_digits frame.content
  leading ← index digits 0
  guard (leading == b'0') invalid_content
  imei ← slice_from digits 1
  ok (record { imei = imei; serial = frame.serial })

pub record GtLocationPacket : Type 0 where
  pub imei : Bytes
  pub gps_at : Time
  pub latitude : Float64
  pub longitude : Float64
  pub speed_kmh : ℕ
  pub heading : ℕ
  pub satellites : ℕ
  pub gps_located : Bool
  pub realtime_gps : Bool
  pub acc : Option Bool
  pub mcc : ℕ
  pub mnc : ℕ
  pub lac : ℕ
  pub cell_id : ℕ
  pub serial : ℕ

-- `uint32(content[i])<<16 | uint32(content[i+1])<<8 | uint32(content[i+2])`
unfoldable pub uint24_at : Bytes → ℕ → Outcome ℕ
uint24_at content i = do
  first ← index content i
  second ← index content (i + 1)
  third ← index content (i + 2)
  ok ((first * 256 + second) * 256 + third)

-- The packet that `ParseLocation` ends with.
unfoldable pub gt_location :
    GtFrame → Bytes → Time → ℕ → GpsStatus → ℕ → ℕ → Outcome GtLocationPacket
gt_location frame imei gps_at information status latitude_raw longitude_raw = do
  speed ← index frame.content 15
  mcc ← uint16_at frame.content 18
  mnc ← index frame.content 20
  lac ← uint16_at frame.content 21
  cell_id ← uint24_at frame.content 23
  ok (record {
    imei = imei;
    gps_at = gps_at;
    latitude = decode_latitude latitude_raw status.north;
    longitude = decode_longitude longitude_raw status.east;
    speed_kmh = speed;
    heading = status.heading;
    satellites = information % 16;
    gps_located = status.located;
    realtime_gps = status.realtime;
    acc = some status.acc;
    mcc = mcc;
    mnc = mnc;
    lac = lac;
    cell_id = cell_id;
    serial = frame.serial;
  })

unfoldable pub parse_gt_location : GtFrame → Bytes → Outcome GtLocationPacket
unfolding gt_location
parse_gt_location frame imei = do
  guard (frame.protocol_number == 0x12) invalid_content
  guard (length frame.content == 26) invalid_content
  time_bytes ← slice frame.content 0 6
  gps_at ← decode_gt_timestamp time_bytes
  information ← index frame.content 6
  guard (information / 16 == 0x0c) invalid_content
  first ← index frame.content 16
  second ← index frame.content 17
  status ← decode_gps_status first second
  latitude_raw ← uint32_at frame.content 7
  longitude_raw ← uint32_at frame.content 11
  guard (not (ltb max_latitude_raw latitude_raw)) invalid_content
  guard (not (ltb max_longitude_raw longitude_raw)) invalid_content
  gt_location frame imei gps_at information status latitude_raw longitude_raw

pub record GtHeartbeatPacket : Type 0 where
  pub imei : Bytes
  pub terminal_information : ℕ
  pub acc : Bool
  pub gps_located : Bool
  pub external_power : Bool
  pub voltage_level : ℕ
  pub gsm_signal : ℕ
  pub external_voltage : ℕ
  pub language : ℕ
  pub serial : ℕ

unfoldable pub parse_gt_heartbeat : GtFrame → Bytes → Outcome GtHeartbeatPacket
parse_gt_heartbeat frame imei = do
  guard (frame.protocol_number == 0x13) invalid_content
  guard (length frame.content == 5) invalid_content
  voltage_level ← index frame.content 1
  guard (not (ltb 6 voltage_level)) invalid_content
  gsm_signal ← index frame.content 2
  guard (not (ltb 100 gsm_signal)) invalid_content
  terminal ← index frame.content 0
  external_voltage ← index frame.content 3
  language ← index frame.content 4
  ok (record {
    imei = imei;
    terminal_information = terminal;
    acc = bit_at terminal 2;
    gps_located = bit_at terminal 64;
    external_power = bit_at terminal 4;
    voltage_level = voltage_level;
    gsm_signal = gsm_signal;
    external_voltage = external_voltage;
    language = language;
    serial = frame.serial;
  })

pub record GtAlarmPacket : Type 0 where
  pub imei : Bytes
  pub gps_at : Time
  pub latitude : Float64
  pub longitude : Float64
  pub speed_kmh : ℕ
  pub heading : ℕ
  pub satellites : ℕ
  pub alarm_type : ℕ
  pub terminal_information : ℕ
  pub acc : Bool
  pub gps_located : Bool
  pub voltage_level : ℕ
  pub gsm_signal : ℕ
  pub language : ℕ
  pub mcc : ℕ
  pub mnc : ℕ
  pub lac : ℕ
  pub cell_id : ℕ
  pub serial : ℕ

-- The packet that `ParseAlarm` ends with, behind the test of the coordinates.
unfoldable pub gt_alarm : GtFrame → Bytes → Time → ℕ → GpsStatus → ℕ → ℕ → Outcome GtAlarmPacket
gt_alarm frame imei gps_at information status latitude_raw longitude_raw = do
  voltage_level ← index frame.content 28
  guard (not (ltb 6 voltage_level)) invalid_content
  gsm_signal ← index frame.content 29
  guard (not (ltb 100 gsm_signal)) invalid_content
  terminal ← index frame.content 27
  speed ← index frame.content 15
  alarm_type ← index frame.content 30
  language ← index frame.content 31
  mcc ← uint16_at frame.content 19
  mnc ← index frame.content 21
  lac ← uint16_at frame.content 22
  cell_id ← uint24_at frame.content 24
  ok (record {
    imei = imei;
    gps_at = gps_at;
    latitude = decode_latitude latitude_raw status.north;
    longitude = decode_longitude longitude_raw status.east;
    speed_kmh = speed;
    heading = status.heading;
    satellites = information % 16;
    alarm_type = alarm_type;
    terminal_information = terminal;
    acc = bit_at terminal 2;
    gps_located = bit_at terminal 64;
    voltage_level = voltage_level;
    gsm_signal = gsm_signal;
    language = language;
    mcc = mcc;
    mnc = mnc;
    lac = lac;
    cell_id = cell_id;
    serial = frame.serial;
  })

unfoldable pub parse_gt_alarm : GtFrame → Bytes → Outcome GtAlarmPacket
unfolding gt_alarm
parse_gt_alarm frame imei = do
  guard (frame.protocol_number == 0x16) invalid_content
  guard (length frame.content == 32) invalid_content
  time_bytes ← slice frame.content 0 6
  gps_at ← decode_gt_timestamp time_bytes
  information ← index frame.content 6
  guard (information / 16 == 0x0c) invalid_content
  first ← index frame.content 16
  second ← index frame.content 17
  status ← decode_gps_status first second
  lbs_length ← index frame.content 18
  guard (lbs_length == 0x09) invalid_content
  latitude_raw ← uint32_at frame.content 7
  longitude_raw ← uint32_at frame.content 11
  guard (not (ltb max_latitude_raw latitude_raw || ltb max_longitude_raw longitude_raw))
      invalid_content
  gt_alarm frame imei gps_at information status latitude_raw longitude_raw

-- The cases of the `switch` of `AlarmTypeName`.
abbrev pub gt_alarm_names : List (ℕ × String)
gt_alarm_names =
    (0x00, "normal")
    ∷ (0x01, "sos")
    ∷ (0x02, "power_failure")
    ∷ (0x03, "vibration")
    ∷ (0x04, "enter_geofence")
    ∷ (0x05, "exit_geofence")
    ∷ (0x06, "overspeed")
    ∷ (0x09, "displacement")
    ∷ (0x0e, "low_battery")
    ∷ (0xfe, "acc_flameout")
    ∷ (0xff, "acc_ignition")
    ∷ []

unfoldable pub gt_alarm_type_name : ℕ → String
gt_alarm_type_name value = elim (lookup value gt_alarm_names) [
  | none ↦ "unknown"
  | some name ↦ name
]
