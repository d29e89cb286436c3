-- ===== src/Gt02/Handler.antt =====
-- internal/protocol/gt02/handler.go: the GT02 messages and their answers.
pub mod Bounds
pub mod Laws
pub mod Family
pub mod Attribution
use Prim.Native.String.{String}
use tallerp_telemetry.Base.{
  ℕ, Bool, true, false, ◌||◌, [], ◌∷◌, none, some, ◌==◌, if◌then◌else◌, length, Bytes,
  unsupported_message,
}
use tallerp_telemetry.Telemetry.{exact, Time, TelemetryEvent, empty_event, hex}
use tallerp_telemetry.Session.{unknown, gt06, gt02, jt808, SessionContext, Handled, handled, parsed}
use tallerp_telemetry.Gt06.Decoder.{GtFrame}
use tallerp_telemetry.Gt02.Types.{
  Gt02LoginPacket, Gt02LocationPacket, Gt02HeartbeatPacket, Gt02AlarmPacket, LbsPacket, WifiPacket,
  GeneralPacket, CommandResponsePacket,
}
use tallerp_telemetry.Gt02.Messages.{
  parse_gt02_login, parse_gt02_heartbeat, parse_gt02_location, parse_lbs, parse_wifi, parse_general,
}
use tallerp_telemetry.Gt02.Alarm.{parse_gt02_alarm}
use tallerp_telemetry.Gt02.Command.{parse_command_response}
use tallerp_telemetry.Gt02.Encoder.{gt02_login_ack, gt02_heartbeat_ack, gt02_alarm_ack}

unfoldable pub gt02_can_handle : GtFrame → SessionContext → Bool
gt02_can_handle frame session = elim session.family [
  | unknown ↦
      let number = frame.protocol_number in
      if number == 0x01
      then length frame.content == 12
      else number == 0x21
        || (number == 0x31
            || (number == 0x32 || (number == 0x33 || (number == 0x34 || (number == 0x94)))))
  | gt06 ↦ false
  | gt02 ↦ true
  | jt808 ↦ false
]

-- The fields that every event of this handler has.
abbrev pub gt02_event : GtFrame → Time → String → String → Bytes → ℕ → TelemetryEvent
gt02_event frame received_at event_type protocol imei serial = record empty_event {
  event_type = event_type;
  imei = imei;
  protocol = protocol;
  protocol_family = "gt02";
  serial = serial;
  received_at = received_at;
  raw_hex = hex frame.raw;
}

abbrev pub gt02_login_event : GtFrame → Time → Gt02LoginPacket → TelemetryEvent
gt02_login_event frame now packet = gt02_event frame now "login" "0x01" packet.imei packet.serial

abbrev pub gt02_location_event : GtFrame → Time → Gt02LocationPacket → TelemetryEvent
gt02_location_event frame now packet =
    record (gt02_event frame now "location" "0x31" packet.imei packet.serial) {
      gps_at = some packet.gps_at;
      latitude = some packet.latitude;
      longitude = some packet.longitude;
      speed_kmh = some (exact packet.speed_kmh);
      heading = some packet.heading;
      satellites = some packet.satellites;
      gps_located = some packet.gps_located;
      realtime_gps = some packet.realtime_gps;
      acc = some packet.acc;
      is_retransmission = some packet.is_retransmission;
      mcc = some packet.mcc;
      mnc = some packet.mnc;
      cells = record { lac = packet.lac; cell_id = packet.cell_id; rssi = 0 } ∷ [];
    }

abbrev pub gt02_heartbeat_event : GtFrame → Time → Gt02HeartbeatPacket → TelemetryEvent
gt02_heartbeat_event frame now packet =
    record (gt02_event frame now "heartbeat" "0x13" packet.imei packet.serial) {
      gps_located = some packet.gps_located;
      acc = some packet.acc;
      external_power = some packet.external_power;
      gsm_signal = some packet.gsm_signal;
      voltage_level = packet.power.voltage_level;
      battery_percent = packet.power.battery_percent;
      external_voltage = packet.power.external_voltage;
    }

abbrev pub gt02_alarm_event : GtFrame → Time → Gt02AlarmPacket → TelemetryEvent
gt02_alarm_event frame now packet =
    let location = packet.location in
    record (gt02_event frame now "alarm" "0x32" location.imei location.serial) {
      gps_at = some location.gps_at;
      latitude = some location.latitude;
      longitude = some location.longitude;
      speed_kmh = some (exact location.speed_kmh);
      heading = some location.heading;
      satellites = some location.satellites;
      gps_located = some location.gps_located;
      realtime_gps = some location.realtime_gps;
      acc = some location.acc;
      external_power = some packet.external_power;
      gsm_signal = some packet.gsm_signal;
      voltage_level = packet.power.voltage_level;
      battery_percent = packet.power.battery_percent;
      external_voltage = packet.power.external_voltage;
      alarm_type = some packet.alarm_type;
      mcc = some location.mcc;
      mnc = some location.mnc;
      cells = record { lac = location.lac; cell_id = location.cell_id; rssi = 0 } ∷ [];
    }

abbrev pub lbs_event : GtFrame → Time → LbsPacket → TelemetryEvent
lbs_event frame now packet = record (gt02_event frame now "lbs" "0x34" packet.imei packet.serial) {
  gps_at = some packet.gps_at;
  mcc = some packet.mcc;
  mnc = some packet.mnc;
  timing_advance = some packet.timing_advance;
  cells = packet.cells;
}

abbrev pub wifi_event : GtFrame → Time → WifiPacket → TelemetryEvent
wifi_event frame now packet =
    record (gt02_event frame now "wifi" "0x33" packet.imei packet.serial) {
      gps_at = some packet.gps_at;
      mcc = some packet.mcc;
      mnc = some packet.mnc;
      timing_advance = some packet.timing_advance;
      cells = packet.cells;
      wifi_access_points = packet.access_points;
    }

abbrev pub general_event : GtFrame → Time → GeneralPacket → TelemetryEvent
general_event frame now packet =
    record (gt02_event frame now "general_info" "0x94" packet.imei packet.serial) {
      general_info = some (record {
        subtype = packet.subtype;
        imei = packet.device_imei;
        imsi = packet.imsi;
        iccid = packet.iccid;
        data_hex = packet.data_hex;
      });
    }

abbrev pub command_event : GtFrame → Time → CommandResponsePacket → TelemetryEvent
command_event frame now packet =
    record (gt02_event frame now "command_response" "0x21" packet.imei packet.serial) {
      command_response = some (record {
        server_flag = packet.server_flag;
        encoding = packet.encoding;
        content = packet.content;
      });
    }

-- `Handle`
unfoldable pub handle_gt02 : GtFrame → SessionContext → Time → SessionContext × Handled
handle_gt02 frame session now =
    let number = frame.protocol_number in
    if number == 0x01
    then parsed session (parse_gt02_login frame) (λ packet. (
      record session { imei = packet.imei; device_type = packet.device_type },
      handled (gt02_login_ack packet.serial) (gt02_login_event frame now packet ∷ []) none,
    ))
    else if number == 0x31
    then parsed session (parse_gt02_location frame session.imei)
        (λ packet. (session, handled [] (gt02_location_event frame now packet ∷ []) none))
    else if number == 0x13
    then parsed session (parse_gt02_heartbeat frame session.imei) (λ packet. (
      session,
      handled (gt02_heartbeat_ack packet.serial) (gt02_heartbeat_event frame now packet ∷ []) none,
    ))
    else if number == 0x32
    then parsed session (parse_gt02_alarm frame session.imei) (λ packet. (
      session,
      handled (gt02_alarm_ack packet.location.serial) (gt02_alarm_event frame now packet ∷ []) none,
    ))
    else if number == 0x34
    then parsed session (parse_lbs frame session.imei)
        (λ packet. (session, handled [] (lbs_event frame now packet ∷ []) none))
    else if number == 0x33
    then parsed session (parse_wifi frame session.imei)
        (λ packet. (session, handled [] (wifi_event frame now packet ∷ []) none))
    else if number == 0x94
    then parsed session (parse_general frame session.imei)
        (λ packet. (session, handled [] (general_event frame now packet ∷ []) none))
    else if number == 0x21
    then parsed session (parse_command_response frame session.imei)
        (λ packet. (session, handled [] (command_event frame now packet ∷ []) none))
    else (session, handled [] [] (some unsupported_message))
