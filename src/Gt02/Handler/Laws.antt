-- ===== src/Gt02/Handler/Laws.antt =====
-- internal/protocol/gt02/handler.go: the handler's results on every message.
use tallerp_telemetry.Base.{true, ◌≡◌, refl, arith, none, ◌==◌, either_side, Bytes, ok}
use tallerp_telemetry.Telemetry.{is_placed, Time, TelemetryEvent}
use tallerp_telemetry.Session.{SessionContext}
use tallerp_telemetry.Session.Reports.{Reports, parsed-Reports}
use tallerp_telemetry.Ranges.{InRange}
use tallerp_telemetry.Gt06.Decoder.{GtFrame}
use tallerp_telemetry.Gt02.Types.{Gt02LocationPacket, Gt02HeartbeatPacket, Gt02AlarmPacket}
use tallerp_telemetry.Gt02.Messages.{parse_gt02_heartbeat, parse_gt02_location}
use tallerp_telemetry.Gt02.Messages.Safety.{
  parse_gt02_login-ne-panic, parse_gt02_heartbeat-ne-panic, parse_gt02_location-ne-panic,
  parse_lbs-ne-panic, parse_wifi-ne-panic, parse_general-ne-panic,
}
use tallerp_telemetry.Gt02.Alarm.{parse_gt02_alarm, parse_gt02_alarm-ne-panic}
use tallerp_telemetry.Gt02.Command.Valid.{parse_command_response-ne-panic}
use tallerp_telemetry.Gt02.Handler.{
  handle_gt02, gt02_heartbeat_event, gt02_location_event, gt02_alarm_event,
}
use tallerp_telemetry.Gt02.Handler.Bounds.{
  heartbeat-bounds, location-heading, location-latitude, location-longitude, alarm-heading,
  alarm-latitude, alarm-longitude, alarm-power,
}

-- An event without any of the fields that have a range.
unplaced : (event : TelemetryEvent) → event.latitude ≡ none → is_placed event ≡ true
unplaced event h = ground arith

unranged :
    (event : TelemetryEvent)
    → event.latitude ≡ none
    → event.longitude ≡ none
    → event.heading ≡ none
    → event.satellites ≡ none
    → event.voltage_level ≡ none
    → event.battery_percent ≡ none
    → event.gsm_signal ≡ none
    → InRange event
unranged event a b c d e f g = record {
  placed = unplaced event a;
  latitude_range = rw a tt;
  longitude_range = rw b tt;
  heading_range = rw c tt;
  satellites_range = rw d tt;
  voltage_level_range = rw e tt;
  battery_percent_range = rw f tt;
  gsm_signal_range = rw g tt;
}

heartbeat-InRange :
    (frame : GtFrame) (imei : Bytes) (now : Time) (packet : Gt02HeartbeatPacket)
    → parse_gt02_heartbeat frame imei ≡ ok packet
    → InRange (gt02_heartbeat_event frame now packet)
heartbeat-InRange frame imei now packet e =
    let (signal, (voltage, battery)) = heartbeat-bounds frame imei packet e in
    record {
      placed = refl;
      latitude_range = tt;
      longitude_range = tt;
      heading_range = tt;
      satellites_range = tt;
      voltage_level_range = voltage;
      battery_percent_range = battery;
      gsm_signal_range = omega arith;
    }

location-InRange :
    (frame : GtFrame) (imei : Bytes) (now : Time) (packet : Gt02LocationPacket)
    → parse_gt02_location frame imei ≡ ok packet
    → InRange (gt02_location_event frame now packet)
location-InRange frame imei now packet e =
    let (heading, satellites) = location-heading frame imei packet e in
    record {
      placed = refl;
      latitude_range = location-latitude frame imei packet e;
      longitude_range = location-longitude frame imei packet e;
      heading_range = heading;
      satellites_range = satellites;
      voltage_level_range = tt;
      battery_percent_range = tt;
      gsm_signal_range = tt;
    }

alarm-InRange :
    (frame : GtFrame) (imei : Bytes) (now : Time) (packet : Gt02AlarmPacket)
    → parse_gt02_alarm frame imei ≡ ok packet
    → InRange (gt02_alarm_event frame now packet)
alarm-InRange frame imei now packet e =
    let (heading, (satellites, signal)) = alarm-heading frame imei packet e in
    let (voltage, battery) = alarm-power frame imei packet e in
    record {
      placed = refl;
      latitude_range = alarm-latitude frame imei packet e;
      longitude_range = alarm-longitude frame imei packet e;
      heading_range = heading;
      satellites_range = satellites;
      voltage_level_range = voltage;
      battery_percent_range = battery;
      gsm_signal_range = omega arith;
    }

-- Whatever the frame is, the GT02 handler does not panic, and its events have a latitude within 90
-- and a longitude within 180 degrees, a heading of at most 360, at most 15 satellites, a voltage
-- level of at most 6, a battery of at most 100 percent and a GSM signal of at most 100, where they
-- have them, and a longitude wherever they have a latitude.
pub handle_gt02-InRange :
    (frame : GtFrame) (session : SessionContext) (now : Time)
    → Reports InRange (handle_gt02 frame session now)
unfolding handle_gt02
handle_gt02-InRange frame session now =
    let imei = session.imei in
    either_side (Reports InRange) (frame.protocol_number == 0x01)
      (λ _.
        parsed-Reports InRange session _ _ (parse_gt02_login-ne-panic frame)
          (λ packet _. (unranged _ refl refl refl refl refl refl refl, tt)))
      (λ _.
        either_side (Reports InRange) (frame.protocol_number == 0x31)
          (λ _.
            parsed-Reports InRange session _ _ (parse_gt02_location-ne-panic frame imei)
              (λ packet e. (location-InRange frame imei now packet e, tt)))
          (λ _.
            either_side (Reports InRange) (frame.protocol_number == 0x13)
              (λ _.
                parsed-Reports InRange session _ _ (parse_gt02_heartbeat-ne-panic frame imei)
                  (λ packet e. (heartbeat-InRange frame imei now packet e, tt)))
              (λ _.
                either_side (Reports InRange) (frame.protocol_number == 0x32)
                  (λ _.
                    parsed-Reports InRange session _ _ (parse_gt02_alarm-ne-panic frame imei)
                      (λ packet e. (alarm-InRange frame imei now packet e, tt)))
                  (λ _.
                    either_side (Reports InRange) (frame.protocol_number == 0x34)
                      (λ _.
                        parsed-Reports InRange session _ _ (parse_lbs-ne-panic frame imei)
                          (λ packet _. (unranged _ refl refl refl refl refl refl refl, tt)))
                      (λ _.
                        either_side (Reports InRange) (frame.protocol_number == 0x33)
                          (λ _.
                            parsed-Reports InRange session _ _ (parse_wifi-ne-panic frame imei)
                              (λ packet _. (unranged _ refl refl refl refl refl refl refl, tt)))
                          (λ _.
                            either_side (Reports InRange) (frame.protocol_number == 0x94)
                              (λ _.
                                parsed-Reports InRange session _ _
                                  (parse_general-ne-panic frame imei)
                                  (λ packet _. (unranged _ refl refl refl refl refl refl refl, tt)))
                              (λ _.
                                either_side (Reports InRange) (frame.protocol_number == 0x21)
                                  (λ _.
                                    parsed-Reports InRange session _ _
                                      (parse_command_response-ne-panic frame imei)
                                      (λ packet _.
                                        (unranged _ refl refl refl refl refl refl refl, tt)))
                                  (λ _. tt))))))))
