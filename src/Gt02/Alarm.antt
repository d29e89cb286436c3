-- ===== src/Gt02/Alarm.antt =====
-- internal/protocol/gt02/alarm.go: the alarm message.
use Prim.Native.String.{String, ◌++◌}
use tallerp_telemetry.Base.{
  ℕ, ◌/◌, ◌%◌, ◌≢◌, false, not, ◌||◌, List, [], ◌∷◌, none, some, arith, ltb, ◌==◌, length, get_or,
  take, drop, Bytes, Outcome, ok, panic, ◌>>=◌, ◌>>◌, guard, index, slice, uint16_at, uint32_at,
  bit_at, invalid_content, lookup, nat_key,
}
use tallerp_telemetry.Telemetry.{Float64, Time}
use tallerp_telemetry.Gt06.Decoder.{GtFrame}
use tallerp_telemetry.Gt06.Helpers.Moments.{decode_gt_timestamp-ne-panic}
use tallerp_telemetry.Gt02.Types.{PowerStatus, Gt02AlarmPacket}
use tallerp_telemetry.Gt02.Helpers.{
  gt02_decode_timestamp, Gt02GpsStatus, gt02_decode_gps_status, gt02_decode_latitude,
  gt02_decode_longitude, decode_power,
}
use tallerp_telemetry.Gt02.Messages.Safety.{gt02_decode_gps_status-ne-panic, decode_power-ne-panic}

-- The map `names` of `AlarmTypeName`.
abbrev pub gt02_alarm_names : List (ℕ × String)
gt02_alarm_names =
    (0x00, "normal")
    ∷ (0x01, "sos")
    ∷ (0x02, "power_failure")
    ∷ (0x03, "vibration")
    ∷ (0x04, "enter_geofence")
    ∷ (0x05, "exit_geofence")
    ∷ (0x06, "overspeed")
    ∷ (0x09, "displacement")
    ∷ (0x0a, "enter_gps_blind_area")
    ∷ (0x0b, "leave_gps_blind_area")
    ∷ (0x0c, "startup")
    ∷ (0x0e, "low_external_power")
    ∷ (0x0f, "external_power_low_point_protection")
    ∷ (0x11, "shutdown")
    ∷ (0x13, "removal")
    ∷ (0x14, "door")
    ∷ (0x15, "low_power_shutdown")
    ∷ (0x28, "rapid_deceleration")
    ∷ (0x29, "rapid_acceleration")
    ∷ (0x2c, "collision")
    ∷ (0x2d, "rollover")
    ∷ (0x2e, "sharp_turn")
    ∷ []

abbrev hex_letters : List String
hex_letters =
    "0" ∷ "1" ∷ "2" ∷ "3" ∷ "4" ∷ "5" ∷ "6" ∷ "7" ∷ "8" ∷ "9" ∷ "a" ∷ "b" ∷ "c" ∷ "d" ∷ "e" ∷ "f"
    ∷ []

unfoldable pub gt02_alarm_type_name : ℕ → String
gt02_alarm_type_name value = elim (lookup value gt02_alarm_names) [
  | none ↦
      "unknown_0x" ++ (get_or hex_letters (value / 16) "" ++ get_or hex_letters (value % 16) "")
  | some name ↦ name
]

-- The packet that `ParseAlarm` ends with, behind the test of the signal.
unfoldable pub gt02_alarm :
    GtFrame
    → Bytes
    → Time
    → ℕ
    → Gt02GpsStatus
    → Float64
    → Float64
    → PowerStatus
    → ℕ
    → Outcome Gt02AlarmPacket
gt02_alarm frame imei gps_at information status latitude longitude power gsm_signal = do
  terminal ← index frame.content 29
  speed ← index frame.content 15
  mcc ← uint16_at frame.content 19
  mnc ← uint16_at frame.content 21
  lac ← uint16_at frame.content 23
  cell_id ← uint32_at frame.content 25
  alarm_code ← index frame.content 32
  language ← index frame.content 33
  ok (record {
    location = record {
      imei = imei;
      gps_at = gps_at;
      latitude = latitude;
      longitude = longitude;
      speed_kmh = speed;
      heading = status.heading;
      satellites = information % 16;
      gps_located = status.located;
      realtime_gps = status.realtime;
      acc = bit_at terminal 2;
      mcc = mcc;
      mnc = mnc;
      lac = lac;
      cell_id = cell_id;
      data_reporting_mode = 0;
      is_retransmission = false;
      serial = frame.serial;
    };
    terminal_information = terminal;
    external_power = bit_at terminal 4;
    power = power;
    gsm_signal = gsm_signal;
    alarm_code = alarm_code;
    alarm_type = gt02_alarm_type_name alarm_code;
    language = language;
  })

unfoldable pub parse_gt02_alarm : GtFrame → Bytes → Outcome Gt02AlarmPacket
unfolding gt02_alarm
parse_gt02_alarm frame imei = do
  guard (frame.protocol_number == 0x32) invalid_content
  guard (length frame.content == 34) invalid_content
  time_bytes ← slice frame.content 0 6
  gps_at ← gt02_decode_timestamp time_bytes
  information ← index frame.content 6
  guard (information / 16 == 0x0c) invalid_content
  lbs_length ← index frame.content 18
  guard (lbs_length == 0x08 || (lbs_length == 0x0a)) invalid_content
  status_bytes ← slice frame.content 16 18
  status ← gt02_decode_gps_status status_bytes
  latitude_raw ← uint32_at frame.content 7
  latitude ← gt02_decode_latitude latitude_raw status.north
  longitude_raw ← uint32_at frame.content 11
  longitude ← gt02_decode_longitude longitude_raw status.east
  voltage ← index frame.content 30
  extension ← index frame.content 33
  power ← decode_power voltage extension
  gsm_signal ← index frame.content 31
  guard (not (ltb 4 gsm_signal)) invalid_content
  gt02_alarm frame imei gps_at information status latitude longitude power gsm_signal

pub parse_gt02_alarm-ne-panic :
    (frame : GtFrame) (imei : Bytes) → parse_gt02_alarm frame imei ≢ panic
unfolding parse_gt02_alarm gt02_alarm index slice uint16_at uint32_at gt02_decode_timestamp
    gt02_decode_latitude gt02_decode_longitude
parse_gt02_alarm-ne-panic frame imei = ground (
  arith,
  decode_gt_timestamp-ne-panic (take 6 frame.content),
  gt02_decode_gps_status-ne-panic (take 2 (drop 16 frame.content)),
  decode_power-ne-panic (get_or frame.content 30 0) (get_or frame.content 33 0),
)
