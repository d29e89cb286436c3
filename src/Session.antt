-- ===== src/Session.antt =====
-- internal/protocol/handler.go: what the server keeps of a connection's session.
pub mod Reports
use tallerp_telemetry.Base.{
  ℕ, Bool, false, List, [], Option, some, Bytes, Error, Outcome, ok, err, panic,
}
use tallerp_telemetry.Telemetry.{TelemetryEvent}

-- The constants of type `Family`; `unknown` is the empty string.
pub data Family : Type 0 where
  unknown gt06 gt02 jt808 : Family

pub record SessionContext : Type 0 where
  pub imei : Bytes
  pub family : Family
  pub device_type : ℕ
  pub terminal_sn : Bytes
  pub authenticated : Bool
  pub out_serial : ℕ

-- `SessionContext{}`
abbrev pub new_session : SessionContext
new_session = record {
  imei = [];
  family = unknown;
  device_type = 0;
  terminal_sn = [];
  authenticated = false;
  out_serial = 0;
}

-- `HandleResult` and the error beside it. An ACK may come with an error.
pub data Handled : Type 0 where
  handled : Bytes → List TelemetryEvent → Option Error → Handled
  panicked : Handled

-- `if err != nil { return HandleResult{}, err }` behind a parser, with the session as it is.
unfoldable pub parsed {ℓ} :
    {A : Type ℓ}
    → SessionContext
    → Outcome A
    → (A → SessionContext × Handled)
    → SessionContext × Handled
parsed session (ok packet) k = k packet
parsed session (err e) k = (session, handled [] [] (some e))
parsed session panic k = (session, panicked)
