-- ===== src/Gt02/Handler/Bounds.antt =====
-- internal/protocol/gt02: what the parsers of positions and power accept stays in its range.
use tallerp_telemetry.Base.{ℕ, ◌≡◌, ◌≤◌, arith, Bytes, ok, index, slice, uint16_at, uint32_at}
use tallerp_telemetry.Ranges.{IfSome}
use tallerp_telemetry.Gt06.Decoder.{GtFrame}
use tallerp_telemetry.Gt06.Helpers.{WithinDegrees}
use tallerp_telemetry.Gt02.Types.{
  PowerStatus, Gt02LocationPacket, Gt02HeartbeatPacket, Gt02AlarmPacket,
}
use tallerp_telemetry.Gt02.Helpers.{
  gt02_decode_gps_status, gt02_decode_latitude, gt02_decode_longitude, decode_power,
}
use tallerp_telemetry.Gt02.Messages.{parse_gt02_heartbeat, parse_gt02_location}
use tallerp_telemetry.Gt02.Alarm.{parse_gt02_alarm, gt02_alarm}

abbrev pub PowerInRange : PowerStatus → Type 0
PowerInRange power =
    IfSome (λ n. n ≤ 6) power.voltage_level × IfSome (λ n. n ≤ 100) power.battery_percent

decode_power-range :
    (voltage extension : ℕ) (power : PowerStatus)
    → decode_power voltage extension ≡ ok power
    → PowerInRange power
unfolding decode_power
decode_power-range voltage extension power h = ground arith

pub heartbeat-bounds :
    (frame : GtFrame) (imei : Bytes) (p : Gt02HeartbeatPacket)
    → parse_gt02_heartbeat frame imei ≡ ok p
    → (p.gsm_signal ≤ 4) × PowerInRange p.power
unfolding parse_gt02_heartbeat index decode_power
heartbeat-bounds frame imei p h = ground arith

pub location-heading :
    (frame : GtFrame) (imei : Bytes) (p : Gt02LocationPacket)
    → parse_gt02_location frame imei ≡ ok p
    → (p.heading ≤ 360) × (p.satellites ≤ 15)
unfolding parse_gt02_location index slice uint16_at uint32_at gt02_decode_gps_status
location-heading frame imei p h = ground arith

pub location-latitude :
    (frame : GtFrame) (imei : Bytes) (p : Gt02LocationPacket)
    → parse_gt02_location frame imei ≡ ok p
    → WithinDegrees 90 p.latitude
unfolding parse_gt02_location index slice uint16_at uint32_at gt02_decode_latitude
location-latitude frame imei p h = ground arith

pub location-longitude :
    (frame : GtFrame) (imei : Bytes) (p : Gt02LocationPacket)
    → parse_gt02_location frame imei ≡ ok p
    → WithinDegrees 180 p.longitude
unfolding parse_gt02_location index slice uint16_at uint32_at gt02_decode_longitude
location-longitude frame imei p h = ground arith

pub alarm-heading :
    (frame : GtFrame) (imei : Bytes) (p : Gt02AlarmPacket)
    → parse_gt02_alarm frame imei ≡ ok p
    → (p.location.heading ≤ 360) × ((p.location.satellites ≤ 15) × (p.gsm_signal ≤ 4))
unfolding parse_gt02_alarm gt02_alarm index slice uint16_at uint32_at gt02_decode_gps_status
alarm-heading frame imei p h = ground arith

pub alarm-latitude :
    (frame : GtFrame) (imei : Bytes) (p : Gt02AlarmPacket)
    → parse_gt02_alarm frame imei ≡ ok p
    → WithinDegrees 90 p.location.latitude
unfolding parse_gt02_alarm gt02_alarm index slice uint16_at uint32_at gt02_decode_latitude
alarm-latitude frame imei p h = ground arith

pub alarm-longitude :
    (frame : GtFrame) (imei : Bytes) (p : Gt02AlarmPacket)
    → parse_gt02_alarm frame imei ≡ ok p
    → WithinDegrees 180 p.location.longitude
unfolding parse_gt02_alarm gt02_alarm index slice uint16_at uint32_at gt02_decode_longitude
alarm-longitude frame imei p h = ground arith

pub alarm-power :
    (frame : GtFrame) (imei : Bytes) (p : Gt02AlarmPacket)
    → parse_gt02_alarm frame imei ≡ ok p
    → PowerInRange p.power
unfolding parse_gt02_alarm gt02_alarm index slice uint16_at uint32_at decode_power
alarm-power frame imei p h = ground arith
