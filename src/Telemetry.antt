-- ===== src/Telemetry.antt =====
-- internal/telemetry/event.go, and the parts of the standard library that its fields hold: hex text,
-- calendar times, and floating point numbers kept as the expressions that compute them, unrounded.
pub mod EventId
pub mod Identity
use Prim.Native.String.{String}
use tallerp_telemetry.Base.{
  ℕ, ◌+◌, ◌-◌, ◌*◌, ◌/◌, ◌%◌, Bool, true, false, some, List, [], ◌∷◌, ◌++◌, Option, none, ltb, leb,
  ◌==◌, ◌&&◌, ◌||◌, not, if◌then◌else◌, get_or, Bytes,
}

-- `exact n` is float64(n), `quotient n d` is float64(n) / d, `negative x` is -x.
pub data Float64 : Type 0 where
  exact : ℕ → Float64
  quotient : ℕ → ℕ → Float64
  negative : Float64 → Float64

-- Nanoseconds since 1970, UTC.
abbrev pub Time : Type 0
Time = ℕ

hex_digit : ℕ → ℕ
hex_digit n = if ltb n 10 then b'0' + n else b'a' + (n - 10)

abbrev pub hex_byte : ℕ → Bytes
unfolding hex_digit
hex_byte b = hex_digit (b / 16) ∷ hex_digit (b % 16) ∷ []

-- `hex.EncodeToString`
unfoldable pub hex : Bytes → Bytes
unfolding hex_digit
hex [] = []
hex (b ∷ bs) = hex_byte b ++ hex bs

unfoldable pub is_leap : ℕ → Bool
is_leap year = (year % 4 == 0) && (not (year % 100 == 0) || (year % 400 == 0))

abbrev days_before : List ℕ
days_before = 0 ∷ 31 ∷ 59 ∷ 90 ∷ 120 ∷ 151 ∷ 181 ∷ 212 ∷ 243 ∷ 273 ∷ 304 ∷ 334 ∷ []

-- The leap years up to a year.
leaps : ℕ → ℕ
leaps year = year / 4 + year / 400 - year / 100

-- `time.Date` in UTC for years from 1971 on: a month, day, hour, minute or second out of its range
-- carries over, as the standard library documents.
unfoldable pub date : ℕ → ℕ → ℕ → ℕ → ℕ → ℕ → Time
unfolding is_leap leaps
date year month day hour minute second =
    let months = year * 12 + month - 1 in
    let y = months / 12 in
    let m = months % 12 in
    let before = get_or days_before m 0 + (if leb 2 m && is_leap y then 1 else 0) in
    let days = (y - 1970) * 365 + (leaps (y - 1) - leaps 1969) + before + day - 1 in
    (((days * 24 + hour) * 60 + minute) * 60 + second) * 1_000_000_000

pub record CellObservation : Type 0 where
  pub lac : ℕ
  pub cell_id : ℕ
  pub rssi : ℕ

pub record WifiAccessPoint : Type 0 where
  pub mac : Bytes
  pub signal_strength : ℕ

pub record GeneralInformation : Type 0 where
  pub subtype : ℕ
  pub imei : Bytes
  pub imsi : Bytes
  pub iccid : Bytes
  pub data_hex : Bytes

pub record CommandResponse : Type 0 where
  pub server_flag : ℕ
  pub encoding : String
  pub content : Bytes

-- A string that the source writes as a literal is a `String`, one made of bytes received is `Bytes`;
-- a pointer that may be nil is an `Option`.
pub record TelemetryEvent : Type 0 where
  pub event_id : Bytes
  pub event_type : String
  pub imei : Bytes
  pub protocol : String
  pub protocol_family : String
  pub serial : ℕ
  pub gps_at : Option Time
  pub received_at : Time
  pub latitude : Option Float64
  pub longitude : Option Float64
  pub speed_kmh : Option Float64
  pub heading : Option ℕ
  pub satellites : Option ℕ
  pub gps_located : Option Bool
  pub realtime_gps : Option Bool
  pub acc : Option Bool
  pub external_power : Option Bool
  pub gsm_signal : Option ℕ
  pub voltage_level : Option ℕ
  pub battery_percent : Option ℕ
  pub external_voltage : Option Float64
  pub is_retransmission : Option Bool
  pub alarm_type : Option String
  pub mcc : Option ℕ
  pub mnc : Option ℕ
  pub timing_advance : Option ℕ
  pub cells : List CellObservation
  pub wifi_access_points : List WifiAccessPoint
  pub general_info : Option GeneralInformation
  pub command_response : Option CommandResponse
  pub raw_hex : Bytes
  pub terminal_sn : Option Bytes
  pub alarm_types : List String
  pub device_mileage_km : Option Float64
  pub fuel_volume_l : Option Float64
  pub oil_percent : Option Float64
  pub temperature_c : Option Float64
  pub humidity_percent : Option Float64
  pub altitude_meters : Option ℕ

-- `*event.Longitude` behind `event.Latitude != nil`, in `recordEvent` of internal/server/connection.go:
-- false is a nil dereference.
abbrev pub is_placed : TelemetryEvent → Bool
is_placed event = elim event.latitude [
  | none ↦ true
  | some _ ↦ elim event.longitude [ none ↦ false | some _ ↦ true ]
]

abbrev pub all_placed : List TelemetryEvent → Bool
all_placed [] = true
all_placed (event ∷ rest) = is_placed event && all_placed rest

-- `telemetry.TelemetryEvent{}`
abbrev pub empty_event : TelemetryEvent
empty_event = record {
  event_id = [];
  event_type = "";
  imei = [];
  protocol = "";
  protocol_family = "";
  serial = 0;
  gps_at = none;
  received_at = 0;
  latitude = none;
  longitude = none;
  speed_kmh = none;
  heading = none;
  satellites = none;
  gps_located = none;
  realtime_gps = none;
  acc = none;
  external_power = none;
  gsm_signal = none;
  voltage_level = none;
  battery_percent = none;
  external_voltage = none;
  is_retransmission = none;
  alarm_type = none;
  mcc = none;
  mnc = none;
  timing_advance = none;
  cells = [];
  wifi_access_points = [];
  general_info = none;
  command_response = none;
  raw_hex = [];
  terminal_sn = none;
  alarm_types = [];
  device_mileage_km = none;
  fuel_volume_l = none;
  oil_percent = none;
  temperature_c = none;
  humidity_percent = none;
  altitude_meters = none;
}
