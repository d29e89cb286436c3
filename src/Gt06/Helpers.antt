-- ===== src/Gt06/Helpers.antt =====
-- internal/protocol/helpers.go: the fields that the messages of GT06 share.
pub mod Moments
use tallerp_telemetry.Base.{
  ℕ, ◌+◌, ◌*◌, ◌/◌, ◌%◌, ◌≤◌, Bool, not, ◌||◌, List, [], ◌∷◌, ◌++◌, ltb, ◌==◌, if◌then◌else◌,
  length, Bytes, Outcome, ok, err, ◌>>=◌, ◌>>◌, guard, index, be16, bit_at, invalid_content,
}
use tallerp_telemetry.Telemetry.{Float64, exact, quotient, negative, Time, date}
use tallerp_telemetry.Calendar.{civil, same_date, out_of_range}

-- Units of a coordinate in a degree.
abbrev pub units_per_degree : ℕ
units_per_degree = 1_800_000

abbrev pub max_latitude_raw : ℕ
max_latitude_raw = 162_000_000

abbrev pub max_longitude_raw : ℕ
max_longitude_raw = 324_000_000

unfoldable pub decode_latitude : ℕ → Bool → Float64
decode_latitude raw north =
    let value = quotient raw units_per_degree in if north then value else negative value

unfoldable pub decode_longitude : ℕ → Bool → Float64
decode_longitude raw east =
    let value = quotient raw units_per_degree in if east then value else negative value

unfoldable pub decode_gt_timestamp : Bytes → Outcome Time
decode_gt_timestamp text = do
  guard (length text == 6) invalid_content
  century_year ← index text 0
  month ← index text 1
  day ← index text 2
  hour ← index text 3
  minute ← index text 4
  second ← index text 5
  let year = 2000 + century_year
  guard (not (out_of_range month day hour minute second)) invalid_content
  guard (same_date year month day (civil year month day)) invalid_content
  ok (date year month day hour minute second)

pub record GpsStatus : Type 0 where
  pub heading : ℕ
  pub acc : Bool
  pub realtime : Bool
  pub located : Bool
  pub east : Bool
  pub north : Bool

unfoldable pub decode_gps_status : ℕ → ℕ → Outcome GpsStatus
decode_gps_status first second = do
  let heading = be16 first second % 1024
  guard (not (ltb 360 heading)) invalid_content
  ok (record {
    heading = heading;
    acc = bit_at first 64;
    realtime = not (bit_at first 32);
    located = bit_at first 16;
    east = not (bit_at first 8);
    north = bit_at first 4;
  })

-- A coordinate of at most so many degrees, to either side.
abbrev pub WithinDegrees : ℕ → Float64 → Type 0
WithinDegrees degrees (exact n) = n ≤ degrees
WithinDegrees degrees (quotient n d) = n ≤ degrees * d
WithinDegrees degrees (negative x) = WithinDegrees degrees x

-- The digits of packed bytes, as `ParseLogin` collects them.
gt_digits_onto : Bytes → Bytes → Outcome Bytes
gt_digits_onto digits [] = ok digits
gt_digits_onto digits (value ∷ rest) =
    let more = gt_digits_onto (digits ++ (b'0' + value / 16) ∷ (b'0' + value % 16) ∷ []) rest in
    if ltb 9 (value / 16) || ltb 9 (value % 16) then err invalid_content else more

unfoldable pub gt_digits : Bytes → Outcome Bytes
unfolding gt_digits_onto
gt_digits = gt_digits_onto []
