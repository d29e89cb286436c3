-- ===== src/Gt06/Messages/Bounds.antt =====
-- internal/protocol: what the GT06 parsers accept stays in its range.
use tallerp_telemetry.Base.{◌≡◌, ◌≤◌, arith, Bytes, ok, index, slice, uint16_at, uint32_at}
use tallerp_telemetry.Gt06.Decoder.{GtFrame}
use tallerp_telemetry.Gt06.Helpers.{
  decode_gps_status, WithinDegrees, decode_latitude, decode_longitude,
}
use tallerp_telemetry.Gt06.Messages.{
  gt_location, parse_gt_location, GtLocationPacket, GtAlarmPacket, GtHeartbeatPacket,
  parse_gt_heartbeat, gt_alarm, parse_gt_alarm,
}

-- A location that is accepted has a heading of at most 360 degrees, at most 15 satellites, a latitude
-- within 90 and a longitude within 180 degrees.
pub parse_gt_location-bounds :
    (frame : GtFrame) (imei : Bytes) (p : GtLocationPacket)
    → parse_gt_location frame imei ≡ ok p
    → (p.heading ≤ 360)
      × ((p.satellites ≤ 15) × (WithinDegrees 90 p.latitude × WithinDegrees 180 p.longitude))
unfolding parse_gt_location gt_location index slice uint32_at uint16_at decode_gps_status
    decode_latitude decode_longitude
parse_gt_location-bounds frame imei p h = ground arith

parse_gt_alarm-heading :
    (frame : GtFrame) (imei : Bytes) (p : GtAlarmPacket)
    → parse_gt_alarm frame imei ≡ ok p
    → (p.heading ≤ 360) × ((p.satellites ≤ 15) × ((p.voltage_level ≤ 6) × (p.gsm_signal ≤ 100)))
unfolding parse_gt_alarm gt_alarm index slice uint32_at uint16_at decode_gps_status
parse_gt_alarm-heading frame imei p h = ground arith

parse_gt_alarm-latitude :
    (frame : GtFrame) (imei : Bytes) (p : GtAlarmPacket)
    → parse_gt_alarm frame imei ≡ ok p
    → WithinDegrees 90 p.latitude
unfolding parse_gt_alarm gt_alarm index slice uint32_at uint16_at decode_latitude
parse_gt_alarm-latitude frame imei p h = ground arith

parse_gt_alarm-longitude :
    (frame : GtFrame) (imei : Bytes) (p : GtAlarmPacket)
    → parse_gt_alarm frame imei ≡ ok p
    → WithinDegrees 180 p.longitude
unfolding parse_gt_alarm gt_alarm index slice uint32_at uint16_at decode_longitude
parse_gt_alarm-longitude frame imei p h = ground arith

-- An alarm that is accepted has the same ranges, a voltage level of at most 6 and a GSM signal of at
-- most 100.
pub parse_gt_alarm-bounds :
    (frame : GtFrame) (imei : Bytes) (p : GtAlarmPacket)
    → parse_gt_alarm frame imei ≡ ok p
    → ((p.heading ≤ 360) × ((p.satellites ≤ 15) × ((p.voltage_level ≤ 6) × (p.gsm_signal ≤ 100))))
      × (WithinDegrees 90 p.latitude × WithinDegrees 180 p.longitude)
parse_gt_alarm-bounds frame imei p h = (
  parse_gt_alarm-heading frame imei p h,
  (parse_gt_alarm-latitude frame imei p h, parse_gt_alarm-longitude frame imei p h),
)

pub parse_gt_heartbeat-bounds :
    (frame : GtFrame) (imei : Bytes) (p : GtHeartbeatPacket)
    → parse_gt_heartbeat frame imei ≡ ok p
    → (p.voltage_level ≤ 6) × (p.gsm_signal ≤ 100)
unfolding parse_gt_heartbeat index
parse_gt_heartbeat-bounds frame imei p h = ground arith
