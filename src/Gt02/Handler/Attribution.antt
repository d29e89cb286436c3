-- ===== src/Gt02/Handler/Attribution.antt =====
-- internal/protocol/gt02/handler.go: whose events and answers they are.
use tallerp_telemetry.Base.{
  ℕ, ◌≡◌, refl, inl, inr, arith, ◌==◌, if◌then◌else◌, true, either_side, Bytes, ok,
}
use tallerp_telemetry.Telemetry.{Time, TelemetryEvent, hex}
use tallerp_telemetry.Session.{SessionContext}
use tallerp_telemetry.Session.Reports.{IsOf, Attributed, parsed-Attributed}
use tallerp_telemetry.Gt06.Crc.{build_ack}
use tallerp_telemetry.Gt06.Decoder.{GtFrame}
use tallerp_telemetry.Gt02.Types.{
  Gt02LoginPacket, Gt02LocationPacket, Gt02HeartbeatPacket, Gt02AlarmPacket, LbsPacket, WifiPacket,
  GeneralPacket, CommandResponsePacket,
}
use tallerp_telemetry.Gt02.Messages.{
  parse_gt02_login, parse_gt02_heartbeat, parse_gt02_location, parse_lbs, parse_wifi, parse_general,
  parse_identity,
}
use tallerp_telemetry.Gt02.Messages.Safety.{
  parse_gt02_login-ne-panic, parse_gt02_heartbeat-ne-panic, parse_gt02_location-ne-panic,
  parse_lbs-ne-panic, parse_wifi-ne-panic, parse_general-ne-panic,
}
use tallerp_telemetry.Gt02.Alarm.{parse_gt02_alarm, gt02_alarm, parse_gt02_alarm-ne-panic}
use tallerp_telemetry.Gt02.Command.{parse_command_response}
use tallerp_telemetry.Gt02.Command.Valid.{parse_command_response-ne-panic}
use tallerp_telemetry.Gt02.Encoder.{gt02_login_ack, gt02_heartbeat_ack, gt02_alarm_ack}
use tallerp_telemetry.Gt02.Handler.{handle_gt02}

login-of :
    (frame : GtFrame) (p : Gt02LoginPacket)
    → parse_gt02_login frame ≡ ok p
    → p.serial ≡ frame.serial
unfolding parse_gt02_login
login-of frame p h = ground arith

location-of :
    (frame : GtFrame) (imei : Bytes) (p : Gt02LocationPacket)
    → parse_gt02_location frame imei ≡ ok p
    → (p.imei ≡ imei) × (p.serial ≡ frame.serial)
unfolding parse_gt02_location
location-of frame imei p h = ground arith

heartbeat-of :
    (frame : GtFrame) (imei : Bytes) (p : Gt02HeartbeatPacket)
    → parse_gt02_heartbeat frame imei ≡ ok p
    → (p.imei ≡ imei) × (p.serial ≡ frame.serial)
unfolding parse_gt02_heartbeat
heartbeat-of frame imei p h = ground arith

alarm-of :
    (frame : GtFrame) (imei : Bytes) (p : Gt02AlarmPacket)
    → parse_gt02_alarm frame imei ≡ ok p
    → (p.location.imei ≡ imei) × (p.location.serial ≡ frame.serial)
unfolding parse_gt02_alarm gt02_alarm
alarm-of frame imei p h = ground arith

lbs-of :
    (frame : GtFrame) (imei : Bytes) (p : LbsPacket)
    → parse_lbs frame imei ≡ ok p
    → (p.imei ≡ imei) × (p.serial ≡ frame.serial)
unfolding parse_lbs
lbs-of frame imei p h = ground arith

wifi-of :
    (frame : GtFrame) (imei : Bytes) (p : WifiPacket)
    → parse_wifi frame imei ≡ ok p
    → (p.imei ≡ imei) × (p.serial ≡ frame.serial)
unfolding parse_wifi
wifi-of frame imei p h = ground arith

general-of :
    (frame : GtFrame) (imei : Bytes) (p : GeneralPacket)
    → parse_general frame imei ≡ ok p
    → (p.imei ≡ imei) × (p.serial ≡ frame.serial)
unfolding parse_general parse_identity
general-of frame imei p h = ground arith

command-of :
    (frame : GtFrame) (imei : Bytes) (p : CommandResponsePacket)
    → parse_command_response frame imei ≡ ok p
    → (p.imei ≡ imei) × (p.serial ≡ frame.serial)
unfolding parse_command_response
command-of frame imei p h = ground arith

-- The number of the answer to a message: an alarm, 0x32, is answered under 0x26.
abbrev pub reply_number : ℕ → ℕ
reply_number number = if number == 0x32 then 0x26 else number

answered :
    (number : ℕ) (frame : GtFrame) (serial : ℕ)
    → serial ≡ frame.serial
    → (frame.protocol_number == number) ≡ true
    → build_ack (reply_number number) serial
      ≡ build_ack (reply_number frame.protocol_number) frame.serial
answered number frame serial h is =
    let same : frame.protocol_number ≡ number = ground arith in rw (same, h) refl

origin :
    {frame : GtFrame} {now : Time} {session : SessionContext} {event : TelemetryEvent}
    → event.imei ≡ session.imei
    → event.serial ≡ frame.serial
    → event.raw_hex ≡ hex frame.raw
    → event.received_at ≡ now
    → event.protocol_family ≡ "gt02"
    → IsOf "gt02" frame now session event
origin h k a b c = record {
  of_session = h;
  of_serial = k;
  of_bytes = a;
  of_time = b;
  of_family = c;
}

-- The GT02 handler does not panic; every event of it has the serial, the bytes and the time of
-- the frame and the IMEI of the session after it; an answer that is not empty has the frame's
-- serial and its protocol number, or 0x26 for an alarm, and comes without an error.
pub handle_gt02-Attributed :
    (frame : GtFrame) (session : SessionContext) (now : Time)
    → Attributed "gt02"
        (reply_number frame.protocol_number)
        frame
        now
        (handle_gt02 frame session now)
unfolding handle_gt02 gt02_login_ack gt02_heartbeat_ack gt02_alarm_ack
handle_gt02-Attributed frame session now =
    let imei = session.imei in
    let Ours = Attributed "gt02" (reply_number frame.protocol_number) frame now in
    either_side Ours (frame.protocol_number == 0x01)
      (λ is.
        parsed-Attributed "gt02" (reply_number frame.protocol_number) frame now session _ _
          (parse_gt02_login-ne-panic frame)
          (λ packet e.
            let of = login-of frame packet e in
            ((origin refl (of) refl refl refl, tt), inr (answered 0x01 frame _ (of) is, refl))))
      (λ _.
        either_side Ours (frame.protocol_number == 0x31)
          (λ is.
            parsed-Attributed "gt02" (reply_number frame.protocol_number) frame now session _ _
              (parse_gt02_location-ne-panic frame imei)
              (λ packet e.
                let of = location-of frame imei packet e in
                ((origin of.0 (of.1) refl refl refl, tt), inl refl)))
          (λ _.
            either_side Ours (frame.protocol_number == 0x13)
              (λ is.
                parsed-Attributed "gt02" (reply_number frame.protocol_number) frame now session _ _
                  (parse_gt02_heartbeat-ne-panic frame imei)
                  (λ packet e.
                    let of = heartbeat-of frame imei packet e in
                    (
                      (origin of.0 (of.1) refl refl refl, tt),
                      inr (answered 0x13 frame _ (of.1) is, refl),
                    )))
              (λ _.
                either_side Ours (frame.protocol_number == 0x32)
                  (λ is.
                    parsed-Attributed "gt02" (reply_number frame.protocol_number) frame now session
                      _ _ (parse_gt02_alarm-ne-panic frame imei)
                      (λ packet e.
                        let of = alarm-of frame imei packet e in
                        (
                          (origin of.0 (of.1) refl refl refl, tt),
                          inr (answered 0x32 frame _ (of.1) is, refl),
                        )))
                  (λ _.
                    either_side Ours (frame.protocol_number == 0x34)
                      (λ is.
                        parsed-Attributed "gt02" (reply_number frame.protocol_number) frame now
                          session _ _ (parse_lbs-ne-panic frame imei)
                          (λ packet e.
                            let of = lbs-of frame imei packet e in
                            ((origin of.0 (of.1) refl refl refl, tt), inl refl)))
                      (λ _.
                        either_side Ours (frame.protocol_number == 0x33)
                          (λ is.
                            parsed-Attributed "gt02" (reply_number frame.protocol_number) frame now
                              session _ _ (parse_wifi-ne-panic frame imei)
                              (λ packet e.
                                let of = wifi-of frame imei packet e in
                                ((origin of.0 (of.1) refl refl refl, tt), inl refl)))
                          (λ _.
                            either_side Ours (frame.protocol_number == 0x94)
                              (λ is.
                                parsed-Attributed "gt02" (reply_number frame.protocol_number) frame
                                  now session _ _ (parse_general-ne-panic frame imei)
                                  (λ packet e.
                                    let of = general-of frame imei packet e in
                                    ((origin of.0 (of.1) refl refl refl, tt), inl refl)))
                              (λ _.
                                either_side Ours (frame.protocol_number == 0x21)
                                  (λ is.
                                    parsed-Attributed "gt02" (reply_number frame.protocol_number)
                                      frame now session _ _
                                      (parse_command_response-ne-panic frame imei)
                                      (λ packet e.
                                        let of = command-of frame imei packet e in
                                        ((origin of.0 (of.1) refl refl refl, tt), inl refl)))
                                  (λ _. (tt, inl refl)))))))))
