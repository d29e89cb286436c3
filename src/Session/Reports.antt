-- ===== src/Session/Reports.antt =====
-- internal/protocol/handler.go: what holds of the results that a handler returns.
use Prim.Native.String.{String}
use tallerp_telemetry.Base.{
  ℕ, ◌≡◌, ◌≢◌, ◌⊎◌, refl, inl, [], none, some, All, Error, Outcome, ok, err, panic,
}
use tallerp_telemetry.Telemetry.{Time, TelemetryEvent, hex}
use tallerp_telemetry.Session.{SessionContext, Handled, handled, panicked, parsed}
use tallerp_telemetry.Gt06.Crc.{build_ack}
use tallerp_telemetry.Gt06.Decoder.{GtFrame}

-- What a parser refuses makes no answer and no event.
parsed-cases {ℓ} :
    {A : Type ℓ} (P : SessionContext × Handled → Type 0) (session : SessionContext) (m : Outcome A)
    (k : A → SessionContext × Handled)
    → m ≢ panic
    → ((e : Error) → P (session, handled [] [] (some e)))
    → ((packet : A) → m ≡ ok packet → P (k packet))
    → P (parsed session m k)
unfolding parsed
parsed-cases P session (ok packet) k h refused each = each packet refl
parsed-cases P session (err e) k h refused each = refused e
parsed-cases P session panic k h refused each = absurd (h refl)

-- A handler's result that is no panic and whose events satisfy a predicate.
abbrev pub Reports : (TelemetryEvent → Type 0) → SessionContext × Handled → Type 0
Reports P (session, handled ack events e) = All P events
Reports P (session, panicked) = ⊥

pub parsed-Reports {ℓ} :
    {A : Type ℓ} (P : TelemetryEvent → Type 0) (session : SessionContext) (m : Outcome A)
    (k : A → SessionContext × Handled)
    → m ≢ panic
    → ((packet : A) → m ≡ ok packet → Reports P (k packet))
    → Reports P (parsed session m k)
parsed-Reports P session m k h each = parsed-cases (Reports P) session m k h (λ e. tt) each

-- An event of a frame: the terminal is that of the session.
pub record IsOf (family : String) (frame : GtFrame) (now : Time) (session : SessionContext)
    (event : TelemetryEvent) : Type 0 where
  pub of_session : event.imei ≡ session.imei
  pub of_serial : event.serial ≡ frame.serial
  pub of_bytes : event.raw_hex ≡ hex frame.raw
  pub of_time : event.received_at ≡ now
  pub of_family : event.protocol_family ≡ family

-- A handler's result on a frame: the events are the frame's and the new session's, and the answer, if
-- there is one, has the frame's serial and the number given, and comes without an error.
abbrev pub Attributed : String → ℕ → GtFrame → Time → SessionContext × Handled → Type 0
Attributed family number frame now (session, handled ack events e) =
    All (IsOf family frame now session) events
    × ((ack ≡ []) ⊎ ((ack ≡ build_ack number frame.serial) × (e ≡ none)))
Attributed family number frame now (session, panicked) = ⊥

pub parsed-Attributed {ℓ} :
    {A : Type ℓ} (family : String) (number : ℕ) (frame : GtFrame) (now : Time)
    (session : SessionContext) (m : Outcome A) (k : A → SessionContext × Handled)
    → m ≢ panic
    → ((packet : A) → m ≡ ok packet → Attributed family number frame now (k packet))
    → Attributed family number frame now (parsed session m k)
parsed-Attributed family number frame now session m k h each =
    parsed-cases (Attributed family number frame now) session m k h (λ e. (tt, inl refl)) each

-- What the session keeps through a handler's branch.
pub parsed-session {ℓ} :
    {A : Type ℓ} (P : SessionContext → Type 0) (session : SessionContext) (m : Outcome A)
    (k : A → SessionContext × Handled)
    → P session
    → ((packet : A) → P (k packet).0)
    → P (parsed session m k).0
unfolding parsed
parsed-session P session (ok packet) k h each = each packet
parsed-session P session (err e) k h each = h
parsed-session P session panic k h each = h
