-- ===== src/Gt06/Helpers/Moments.antt =====
-- internal/protocol/helpers.go: the timestamps and the GPS status that are accepted.
use tallerp_telemetry.Base.{
  ℕ, ◌+◌, ◌≤◌, ◌≡◌, ◌≢◌, ◌↔◌, ◌%◌, Bool, true, false, [], ◌∷◌, arith, Bytes, ok, panic, index,
  length, ◌++◌, ◌*◌, ◌/◌, length-append,
}
use tallerp_telemetry.Telemetry.{Time, date}
use tallerp_telemetry.Calendar.{IsMoment, civil, days_in}
use tallerp_telemetry.Gt06.Helpers.{
  gt_digits, gt_digits_onto, decode_gt_timestamp, decode_gps_status, GpsStatus, decode_latitude,
  decode_longitude, WithinDegrees, max_latitude_raw, max_longitude_raw,
}

days_in-le : (year month : ℕ) → (28 ≤ days_in year month) × (days_in year month ≤ 31)
unfolding days_in
days_in-le year month = ground arith

-- Six bytes are accepted as a timestamp exactly if the five last of them are a moment of the
-- calendar in the year 2000 plus the first, and the result is that moment.
pub decode_gt_timestamp_iff :
    (y m d h i s : ℕ) (t : Time)
    → (decode_gt_timestamp (y ∷ m ∷ d ∷ h ∷ i ∷ s ∷ []) ≡ ok t)
      ↔ (IsMoment (2000 + y) m d h i s × (t ≡ date (2000 + y) m d h i s))
unfolding decode_gt_timestamp index civil
decode_gt_timestamp_iff y m d h i s t = ground (arith, days_in-le (2000 + y) m)

pub decode_gt_timestamp-ne-panic : (text : Bytes) → decode_gt_timestamp text ≢ panic
unfolding decode_gt_timestamp index
decode_gt_timestamp-ne-panic text = ground arith

pub decode_gps_status-heading :
    (first second : ℕ) (status : GpsStatus)
    → decode_gps_status first second ≡ ok status
    → status.heading ≤ 360
unfolding decode_gps_status
decode_gps_status-heading first second status h = ground arith

pub decode_gps_status-ne-panic : (first second : ℕ) → decode_gps_status first second ≢ panic
unfolding decode_gps_status
decode_gps_status-ne-panic first second = ground arith

pub decode_latitude-WithinDegrees :
    (raw : ℕ) (north : Bool) → raw ≤ max_latitude_raw → WithinDegrees 90 (decode_latitude raw north)
unfolding decode_latitude
decode_latitude-WithinDegrees raw true h = omega arith
decode_latitude-WithinDegrees raw false h = omega arith

pub decode_longitude-WithinDegrees :
    (raw : ℕ) (east : Bool)
    → raw ≤ max_longitude_raw
    → WithinDegrees 180 (decode_longitude raw east)
unfolding decode_longitude
decode_longitude-WithinDegrees raw true h = omega arith
decode_longitude-WithinDegrees raw false h = omega arith

gt_digits_onto-ne-panic : (digits text : Bytes) → gt_digits_onto digits text ≢ panic
unfolding gt_digits_onto
gt_digits_onto-ne-panic digits [] = λ p. cc
gt_digits_onto-ne-panic digits (value ∷ rest) =
    ground (
      arith,
      gt_digits_onto-ne-panic (digits ++ (b'0' + value / 16) ∷ (b'0' + value % 16) ∷ []) rest,
    )

-- Packed digits double the bytes.
gt_digits_onto-length :
    (digits text out : Bytes)
    → gt_digits_onto digits text ≡ ok out
    → length out ≡ length digits + 2 * length text
unfolding gt_digits_onto
gt_digits_onto-length digits [] out h = ground arith
gt_digits_onto-length digits (value ∷ rest) out h =
    let more = digits ++ (b'0' + value / 16) ∷ (b'0' + value % 16) ∷ [] in
    ground (
      arith,
      gt_digits_onto-length more rest out,
      length-append digits ((b'0' + value / 16) ∷ (b'0' + value % 16) ∷ []),
    )

pub gt_digits-ne-panic : (text : Bytes) → gt_digits text ≢ panic
unfolding gt_digits
gt_digits-ne-panic text = gt_digits_onto-ne-panic [] text

pub gt_digits-length : (text out : Bytes) → gt_digits text ≡ ok out → length out ≡ 2 * length text
unfolding gt_digits
gt_digits-length text out h = omega (arith, gt_digits_onto-length [] text out h)
