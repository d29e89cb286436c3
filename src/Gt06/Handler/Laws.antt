-- ===== src/Gt06/Handler/Laws.antt =====
-- internal/protocol/gt06/handler.go: the handler's results on every message.
use tallerp_telemetry.Base.{refl, ◌≡◌, Bytes, ◌==◌, either_side, ok}
use tallerp_telemetry.Telemetry.{Time}
use tallerp_telemetry.Session.{SessionContext}
use tallerp_telemetry.Session.Reports.{Reports, parsed-Reports}
use tallerp_telemetry.Ranges.{InRange}
use tallerp_telemetry.Gt06.Decoder.{GtFrame}
use tallerp_telemetry.Gt06.Messages.{
  GtLoginPacket, GtLocationPacket, GtHeartbeatPacket, GtAlarmPacket, parse_gt_location,
  parse_gt_heartbeat, parse_gt_alarm,
}
use tallerp_telemetry.Gt06.Messages.Safety.{
  parse_gt_login-ne-panic, parse_gt_location-ne-panic, parse_gt_heartbeat-ne-panic,
  parse_gt_alarm-ne-panic,
}
use tallerp_telemetry.Gt06.Messages.Bounds.{
  parse_gt_location-bounds, parse_gt_heartbeat-bounds, parse_gt_alarm-bounds,
}
use tallerp_telemetry.Gt06.Handler.{
  handle_gt06, gt06_login_event, gt06_location_event, gt06_heartbeat_event, gt06_alarm_event,
}

login-InRange :
    (frame : GtFrame) (now : Time) (packet : GtLoginPacket)
    → InRange (gt06_login_event frame now packet)
login-InRange frame now packet = record {
  placed = refl;
  latitude_range = tt;
  longitude_range = tt;
  heading_range = tt;
  satellites_range = tt;
  voltage_level_range = tt;
  battery_percent_range = tt;
  gsm_signal_range = tt;
}

location-InRange :
    (frame : GtFrame) (imei : Bytes) (now : Time) (packet : GtLocationPacket)
    → parse_gt_location frame imei ≡ ok packet
    → InRange (gt06_location_event frame now packet)
location-InRange frame imei now packet e =
    let (heading, (satellites, (latitude, longitude))) =
      parse_gt_location-bounds frame imei packet e in
    record {
      placed = refl;
      latitude_range = latitude;
      longitude_range = longitude;
      heading_range = heading;
      satellites_range = satellites;
      voltage_level_range = tt;
      battery_percent_range = tt;
      gsm_signal_range = tt;
    }

heartbeat-InRange :
    (frame : GtFrame) (imei : Bytes) (now : Time) (packet : GtHeartbeatPacket)
    → parse_gt_heartbeat frame imei ≡ ok packet
    → InRange (gt06_heartbeat_event frame now packet)
heartbeat-InRange frame imei now packet e =
    let (voltage, signal) = parse_gt_heartbeat-bounds frame imei packet e in
    record {
      placed = refl;
      latitude_range = tt;
      longitude_range = tt;
      heading_range = tt;
      satellites_range = tt;
      voltage_level_range = voltage;
      battery_percent_range = tt;
      gsm_signal_range = signal;
    }

alarm-InRange :
    (frame : GtFrame) (imei : Bytes) (now : Time) (packet : GtAlarmPacket)
    → parse_gt_alarm frame imei ≡ ok packet
    → InRange (gt06_alarm_event frame now packet)
alarm-InRange frame imei now packet e =
    let ((heading, (satellites, (voltage, signal))), (latitude, longitude)) =
      parse_gt_alarm-bounds frame imei packet e in
    record {
      placed = refl;
      latitude_range = latitude;
      longitude_range = longitude;
      heading_range = heading;
      satellites_range = satellites;
      voltage_level_range = voltage;
      battery_percent_range = tt;
      gsm_signal_range = signal;
    }

-- Whatever the frame is, the GT06 handler does not panic, and its events have a latitude within 90
-- and a longitude within 180 degrees, a heading of at most 360, at most 15 satellites, a voltage
-- level of at most 6 and a GSM signal of at most 100, where they have them, and a longitude
-- wherever they have a latitude.
pub handle_gt06-InRange :
    (frame : GtFrame) (session : SessionContext) (now : Time)
    → Reports InRange (handle_gt06 frame session now)
unfolding handle_gt06
handle_gt06-InRange frame session now =
    let imei = session.imei in
    either_side (Reports InRange) (frame.protocol_number == 0x01)
      (λ _.
        parsed-Reports InRange session _ _ (parse_gt_login-ne-panic frame)
          (λ packet _. (login-InRange frame now packet, tt)))
      (λ _.
        either_side (Reports InRange) (frame.protocol_number == 0x12)
          (λ _.
            parsed-Reports InRange session _ _ (parse_gt_location-ne-panic frame imei)
              (λ packet e. (location-InRange frame imei now packet e, tt)))
          (λ _.
            either_side (Reports InRange) (frame.protocol_number == 0x13)
              (λ _.
                parsed-Reports InRange session _ _ (parse_gt_heartbeat-ne-panic frame imei)
                  (λ packet e. (heartbeat-InRange frame imei now packet e, tt)))
              (λ _.
                either_side (Reports InRange) (frame.protocol_number == 0x16)
                  (λ _.
                    parsed-Reports InRange session _ _ (parse_gt_alarm-ne-panic frame imei)
                      (λ packet e. (alarm-InRange frame imei now packet e, tt)))
                  (λ _. tt))))
