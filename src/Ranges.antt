-- ===== src/Ranges.antt =====
-- The ranges that the events of internal/telemetry/event.go keep to where a GT06 or GT02 handler made
-- them, and their longitude, which `recordEvent` reads wherever there is a latitude.
use tallerp_telemetry.Base.{◌≡◌, ◌≤◌, refl, true, List, [], ◌∷◌, All, Option, none, some}
use tallerp_telemetry.Telemetry.{TelemetryEvent, is_placed, all_placed}
use tallerp_telemetry.Gt06.Helpers.{WithinDegrees}

-- A pointer that is nil or points to a value with the property.
abbrev pub IfSome {ℓ κ} : {A : Type ℓ} → (A → Type κ) → Option A → Type κ
IfSome P none = Unit
IfSome P (some a) = P a

pub record InRange (event : TelemetryEvent) : Type 0 where
  pub placed : is_placed event ≡ true
  pub latitude_range : IfSome (WithinDegrees 90) event.latitude
  pub longitude_range : IfSome (WithinDegrees 180) event.longitude
  pub heading_range : IfSome (λ n. n ≤ 360) event.heading
  pub satellites_range : IfSome (λ n. n ≤ 15) event.satellites
  pub voltage_level_range : IfSome (λ n. n ≤ 6) event.voltage_level
  pub battery_percent_range : IfSome (λ n. n ≤ 100) event.battery_percent
  pub gsm_signal_range : IfSome (λ n. n ≤ 100) event.gsm_signal

pub all_placed_lem : (events : List TelemetryEvent) → All InRange events → all_placed events ≡ true
all_placed_lem [] h = refl
all_placed_lem (event ∷ rest) h = rw (h.0.placed, all_placed_lem rest h.1) refl
