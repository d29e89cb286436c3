-- ===== src/Gt06/Handler.antt =====
-- internal/protocol/gt06/handler.go: the GT06 messages and their answers.
pub mod Laws
pub mod Family
pub mod Attribution
use Prim.Native.String.{String}
use tallerp_telemetry.Base.{
  ℕ, Bool, true, false, ◌&&◌, ◌||◌, [], ◌∷◌, none, some, ◌==◌, if◌then◌else◌, length, Bytes,
  unsupported_message,
}
use tallerp_telemetry.Telemetry.{exact, Time, TelemetryEvent, empty_event, hex}
use tallerp_telemetry.Session.{unknown, gt06, gt02, jt808, SessionContext, Handled, handled, parsed}
use tallerp_telemetry.Gt06.Crc.{build_login_ack, build_heartbeat_ack, build_alarm_ack}
use tallerp_telemetry.Gt06.Decoder.{GtFrame}
use tallerp_telemetry.Gt06.Messages.{
  GtLoginPacket, parse_gt_login, GtLocationPacket, parse_gt_location, GtHeartbeatPacket,
  parse_gt_heartbeat, GtAlarmPacket, parse_gt_alarm, gt_alarm_type_name,
}

unfoldable pub gt06_can_handle : GtFrame → SessionContext → Bool
gt06_can_handle frame session = elim session.family [
  | unknown ↦
      (frame.protocol_number == 0x01 && (length frame.content == 8))
      || (frame.protocol_number == 0x12 || (frame.protocol_number == 0x16))
  | gt06 ↦ true
  | gt02 ↦ false
  | jt808 ↦ false
]

-- The fields that every event of this handler has.
abbrev pub gt06_event : GtFrame → Time → String → String → Bytes → ℕ → TelemetryEvent
gt06_event frame received_at event_type protocol imei serial = record empty_event {
  event_type = event_type;
  imei = imei;
  protocol = protocol;
  protocol_family = "gt06";
  serial = serial;
  received_at = received_at;
  raw_hex = hex frame.raw;
}

abbrev pub gt06_login_event : GtFrame → Time → GtLoginPacket → TelemetryEvent
gt06_login_event frame now packet = gt06_event frame now "login" "0x01" packet.imei packet.serial

abbrev pub gt06_location_event : GtFrame → Time → GtLocationPacket → TelemetryEvent
gt06_location_event frame now packet =
    record (gt06_event frame now "location" "0x12" packet.imei packet.serial) {
      gps_at = some packet.gps_at;
      latitude = some packet.latitude;
      longitude = some packet.longitude;
      speed_kmh = some (exact packet.speed_kmh);
      heading = some packet.heading;
      satellites = some packet.satellites;
      gps_located = some packet.gps_located;
      realtime_gps = some packet.realtime_gps;
      acc = packet.acc;
    }

abbrev pub gt06_heartbeat_event : GtFrame → Time → GtHeartbeatPacket → TelemetryEvent
gt06_heartbeat_event frame now packet =
    record (gt06_event frame now "heartbeat" "0x13" packet.imei packet.serial) {
      gps_located = some packet.gps_located;
      acc = some packet.acc;
      external_power = some packet.external_power;
      gsm_signal = some packet.gsm_signal;
      voltage_level = some packet.voltage_level;
    }

abbrev pub gt06_alarm_event : GtFrame → Time → GtAlarmPacket → TelemetryEvent
gt06_alarm_event frame now packet =
    record (gt06_event frame now "alarm" "0x16" packet.imei packet.serial) {
      gps_at = some packet.gps_at;
      latitude = some packet.latitude;
      longitude = some packet.longitude;
      speed_kmh = some (exact packet.speed_kmh);
      heading = some packet.heading;
      satellites = some packet.satellites;
      gps_located = some packet.gps_located;
      acc = some packet.acc;
      gsm_signal = some packet.gsm_signal;
      voltage_level = some packet.voltage_level;
      alarm_type = some (gt_alarm_type_name packet.alarm_type);
    }

-- `Handle`
unfoldable pub handle_gt06 : GtFrame → SessionContext → Time → SessionContext × Handled
handle_gt06 frame session now =
    if frame.protocol_number == 0x01
    then parsed session (parse_gt_login frame) (λ packet. (
      record session { imei = packet.imei },
      handled (build_login_ack packet.serial) (gt06_login_event frame now packet ∷ []) none,
    ))
    else if frame.protocol_number == 0x12
    then parsed session (parse_gt_location frame session.imei)
        (λ packet. (session, handled [] (gt06_location_event frame now packet ∷ []) none))
    else if frame.protocol_number == 0x13
    then parsed session (parse_gt_heartbeat frame session.imei) (λ packet. (
      session,
      handled (build_heartbeat_ack packet.serial) (gt06_heartbeat_event frame now packet ∷ []) none,
    ))
    else if frame.protocol_number == 0x16
    then parsed session (parse_gt_alarm frame session.imei) (λ packet. (
      session,
      handled (build_alarm_ack packet.serial) (gt06_alarm_event frame now packet ∷ []) none,
    ))
    else (session, handled [] [] (some unsupported_message))
