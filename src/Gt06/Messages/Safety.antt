-- ===== src/Gt06/Messages/Safety.antt =====
-- internal/protocol: the reads of the GT06 parsers.
use tallerp_telemetry.Base.{
  ℕ, ◌≢◌, ◌+◌, guard, ◌==◌, invalid_content, guard-ne-panic, >>=-ne-panic, ◌≤◌, arith, Bytes, panic,
  length, index, slice, slice_from, uint16_at, uint32_at, take, get_or,
}
use tallerp_telemetry.Gt06.Decoder.{GtFrame}
use tallerp_telemetry.Gt06.Helpers.{gt_digits}
use tallerp_telemetry.Gt06.Helpers.Moments.{
  gt_digits-ne-panic, gt_digits-length, decode_gt_timestamp-ne-panic, decode_gps_status-ne-panic,
}
use tallerp_telemetry.Gt06.Messages.{
  parse_gt_login, gt_location, parse_gt_location, parse_gt_heartbeat, gt_alarm, parse_gt_alarm,
  uint24_at,
}

pub parse_gt_login-ne-panic : (frame : GtFrame) → parse_gt_login frame ≢ panic
unfolding parse_gt_login index slice_from
parse_gt_login-ne-panic frame =
    >>=-ne-panic (guard (frame.protocol_number == 0x01) invalid_content) _ (guard-ne-panic _ _)
      (λ _ _.
        >>=-ne-panic (guard (length frame.content == 8) invalid_content) _ (guard-ne-panic _ _)
          (λ _ fits.
            >>=-ne-panic (gt_digits frame.content) _ (gt_digits-ne-panic frame.content)
              (λ digits e. let size = gt_digits-length frame.content digits e in ground arith)))

pub uint24_at-ne-panic :
    (content : Bytes) (i : ℕ) → i + 3 ≤ length content → uint24_at content i ≢ panic
unfolding uint24_at index
uint24_at-ne-panic content i h = ground arith

pub parse_gt_location-ne-panic :
    (frame : GtFrame) (imei : Bytes) → parse_gt_location frame imei ≢ panic
unfolding parse_gt_location gt_location index slice uint32_at uint16_at
parse_gt_location-ne-panic frame imei = ground (
  arith,
  decode_gt_timestamp-ne-panic (take 6 frame.content),
  decode_gps_status-ne-panic (get_or frame.content 16 0) (get_or frame.content 17 0),
  uint24_at-ne-panic frame.content 23,
)

pub parse_gt_heartbeat-ne-panic :
    (frame : GtFrame) (imei : Bytes) → parse_gt_heartbeat frame imei ≢ panic
unfolding parse_gt_heartbeat index
parse_gt_heartbeat-ne-panic frame imei = ground arith

pub parse_gt_alarm-ne-panic : (frame : GtFrame) (imei : Bytes) → parse_gt_alarm frame imei ≢ panic
unfolding parse_gt_alarm gt_alarm index slice uint32_at uint16_at
parse_gt_alarm-ne-panic frame imei = ground (
  arith,
  decode_gt_timestamp-ne-panic (take 6 frame.content),
  decode_gps_status-ne-panic (get_or frame.content 16 0) (get_or frame.content 17 0),
  uint24_at-ne-panic frame.content 24,
)
