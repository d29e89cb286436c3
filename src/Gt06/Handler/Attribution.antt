-- ===== src/Gt06/Handler/Attribution.antt =====
-- internal/protocol/gt06/handler.go: whose events and answers they are.
use tallerp_telemetry.Base.{ℕ, ◌≡◌, refl, inl, inr, arith, ◌==◌, true, either_side, Bytes, ok}
use tallerp_telemetry.Telemetry.{Time, TelemetryEvent, hex}
use tallerp_telemetry.Session.{SessionContext}
use tallerp_telemetry.Session.Reports.{IsOf, Attributed, parsed-Attributed}
use tallerp_telemetry.Gt06.Crc.{build_ack}
use tallerp_telemetry.Gt06.Decoder.{GtFrame}
use tallerp_telemetry.Gt06.Messages.{
  GtLoginPacket, GtLocationPacket, GtHeartbeatPacket, GtAlarmPacket, parse_gt_login,
  parse_gt_location, gt_location, parse_gt_heartbeat, parse_gt_alarm, gt_alarm,
}
use tallerp_telemetry.Gt06.Messages.Safety.{
  parse_gt_login-ne-panic, parse_gt_location-ne-panic, parse_gt_heartbeat-ne-panic,
  parse_gt_alarm-ne-panic,
}
use tallerp_telemetry.Gt06.Crc.{build_login_ack, build_heartbeat_ack, build_alarm_ack}
use tallerp_telemetry.Gt06.Handler.{handle_gt06}

login-of :
    (frame : GtFrame) (p : GtLoginPacket) → parse_gt_login frame ≡ ok p → p.serial ≡ frame.serial
unfolding parse_gt_login
login-of frame p h = ground arith

location-of :
    (frame : GtFrame) (imei : Bytes) (p : GtLocationPacket)
    → parse_gt_location frame imei ≡ ok p
    → (p.imei ≡ imei) × (p.serial ≡ frame.serial)
unfolding parse_gt_location gt_location
location-of frame imei p h = ground arith

heartbeat-of :
    (frame : GtFrame) (imei : Bytes) (p : GtHeartbeatPacket)
    → parse_gt_heartbeat frame imei ≡ ok p
    → (p.imei ≡ imei) × (p.serial ≡ frame.serial)
unfolding parse_gt_heartbeat
heartbeat-of frame imei p h = ground arith

alarm-of :
    (frame : GtFrame) (imei : Bytes) (p : GtAlarmPacket)
    → parse_gt_alarm frame imei ≡ ok p
    → (p.imei ≡ imei) × (p.serial ≡ frame.serial)
unfolding parse_gt_alarm gt_alarm
alarm-of frame imei p h = ground arith

-- An answer under the number that the frame was found to have.
answered :
    (number : ℕ) (frame : GtFrame) (serial : ℕ)
    → serial ≡ frame.serial
    → (frame.protocol_number == number) ≡ true
    → build_ack number serial ≡ build_ack frame.protocol_number frame.serial
answered number frame serial h is =
    let same : frame.protocol_number ≡ number = ground arith in rw (same, h) refl

origin :
    {frame : GtFrame} {now : Time} {session : SessionContext} {event : TelemetryEvent}
    → event.imei ≡ session.imei
    → event.serial ≡ frame.serial
    → event.raw_hex ≡ hex frame.raw
    → event.received_at ≡ now
    → event.protocol_family ≡ "gt06"
    → IsOf "gt06" frame now session event
origin h k a b c = record {
  of_session = h;
  of_serial = k;
  of_bytes = a;
  of_time = b;
  of_family = c;
}

-- The GT06 handler does not panic; every event of it has the serial, the bytes and the time of
-- the frame and the IMEI of the session after it; an answer that is not empty repeats the frame's
-- protocol number and serial and comes without an error.
pub handle_gt06-Attributed :
    (frame : GtFrame) (session : SessionContext) (now : Time)
    → Attributed "gt06" frame.protocol_number frame now (handle_gt06 frame session now)
unfolding handle_gt06 build_login_ack build_heartbeat_ack build_alarm_ack
handle_gt06-Attributed frame session now =
    let imei = session.imei in
    let Ours = Attributed "gt06" frame.protocol_number frame now in
    either_side Ours (frame.protocol_number == 0x01)
      (λ is.
        parsed-Attributed "gt06" frame.protocol_number frame now session _ _
          (parse_gt_login-ne-panic frame)
          (λ packet e.
            let of = login-of frame packet e in
            ((origin refl (of) refl refl refl, tt), inr (answered 0x01 frame _ (of) is, refl))))
      (λ _.
        either_side Ours (frame.protocol_number == 0x12)
          (λ is.
            parsed-Attributed "gt06" frame.protocol_number frame now session _ _
              (parse_gt_location-ne-panic frame imei)
              (λ packet e.
                let of = location-of frame imei packet e in
                ((origin of.0 (of.1) refl refl refl, tt), inl refl)))
          (λ _.
            either_side Ours (frame.protocol_number == 0x13)
              (λ is.
                parsed-Attributed "gt06" frame.protocol_number frame now session _ _
                  (parse_gt_heartbeat-ne-panic frame imei)
                  (λ packet e.
                    let of = heartbeat-of frame imei packet e in
                    (
                      (origin of.0 (of.1) refl refl refl, tt),
                      inr (answered 0x13 frame _ (of.1) is, refl),
                    )))
              (λ _.
                either_side Ours (frame.protocol_number == 0x16)
                  (λ is.
                    parsed-Attributed "gt06" frame.protocol_number frame now session _ _
                      (parse_gt_alarm-ne-panic frame imei)
                      (λ packet e.
                        let of = alarm-of frame imei packet e in
                        (
                          (origin of.0 (of.1) refl refl refl, tt),
                          inr (answered 0x16 frame _ (of.1) is, refl),
                        )))
                  (λ _. (tt, inl refl)))))
