-- ===== src/Jt808/Handler.antt =====
-- internal/protocol/jt808/handler.go: the dispatch of one decoded frame.
pub mod Branches
pub mod Gate
pub mod Sources
pub mod Acks
use tallerp_telemetry.Base.{
  ℕ, ◌+◌, ◌%◌, ◌≢◌, Bool, true, false, not, ◌&&◌, ◌||◌, List, [], ◌∷◌, Option, none, some, ◌==◌,
  if◌then◌else◌, Bytes, Outcome, ok, err, panic, Error, not_authenticated, unsupported_message,
  auth_store_not_configured,
}
use tallerp_telemetry.Telemetry.{Time, TelemetryEvent, empty_event, hex}
use tallerp_telemetry.Session.{SessionContext}
pub use tallerp_telemetry.Session.{Handled, handled, panicked}
use tallerp_telemetry.Jt808.Types.{
  Frame, RegistrationPacket, AuthPacket, GeneralResponsePacket, result_success, result_failure,
  result_not_supported, registration_success,
}
use tallerp_telemetry.Jt808.Msg
use tallerp_telemetry.Jt808.Messages.{
  parse_registration, build_registration_ack, parse_auth, build_general_response,
  parse_general_response, parse_query_parameters_response, parse_properties_response,
}
use tallerp_telemetry.Jt808.AdditionalInfo.{apply_additional_items}
use tallerp_telemetry.Jt808.Location.{LocationPacket, parse_location}

-- The `AuthStore` interface over a store's state `S`; a failed call leaves any state behind. Both
-- calls return: they do not panic.
pub record AuthStore (S : Type 0) : Type 0 where
  pub register : S → Bytes → Bytes → Bytes → Time → S × Outcome Bytes
  pub authenticate : S → Bytes → Bytes → Outcome Bool
  pub register_returns :
      (s : S) (sn manufacturer model : Bytes) (now : Time)
      → (register s sn manufacturer model now).1 ≢ panic
  pub authenticate_returns : (s : S) (sn code : Bytes) → authenticate s sn code ≢ panic

-- `unconfiguredAuthStore`, used where no store is given.
unfoldable pub unconfigured_auth_store : AuthStore (Unit {0})
unconfigured_auth_store = record {
  register = λ s sn manufacturer model now. (s, err auth_store_not_configured);
  authenticate = λ s sn code. err auth_store_not_configured;
  register_returns = λ s sn manufacturer model now p. cc;
  authenticate_returns = λ s sn code p. cc;
}

unfoldable pub pre_auth_allowed : ℕ → Bool
pre_auth_allowed id =
    id == Msg.terminal_registration || (id == Msg.terminal_auth || id == Msg.terminal_heartbeat)

-- `nextOutSerial`: the serial to use, and the session with the counter moved on.
unfoldable pub next_out_serial : SessionContext → ℕ × SessionContext
next_out_serial session =
    (session.out_serial, record session { out_serial = (session.out_serial + 1) % 65536 })

-- A built ACK goes on, an error of the builder is returned alone.
unfoldable pub with_ack : Outcome Bytes → (Bytes → Handled) → Handled
with_ack (ok ack) k = k ack
with_ack (err e) k = handled [] [] (some e)
with_ack panic k = panicked

-- The platform general response to a frame, under the session's next serial.
unfoldable pub general_ack : Frame → SessionContext → ℕ → ℕ → (Bytes → Handled) → Handled
general_ack frame session reply_id result = with_ack (
    build_general_response frame.terminal_sn (next_out_serial session).0 frame.message_serial
      reply_id result)

-- The fields that every event of this handler has.
unfoldable pub base_event : Frame → Time → TelemetryEvent
base_event frame received_at = record empty_event {
  imei = frame.terminal_sn;
  protocol_family = "jt808";
  serial = frame.message_serial;
  received_at = received_at;
  raw_hex = hex frame.raw;
  terminal_sn = some frame.terminal_sn;
}

abbrev pub heartbeat_event : Frame → Time → TelemetryEvent
heartbeat_event frame now = record (base_event frame now) {
  event_type = "heartbeat";
  protocol = "0x0002";
}

abbrev pub registration_event : Frame → Time → TelemetryEvent
registration_event frame now = record (base_event frame now) {
  event_type = "registration";
  protocol = "0x0100";
}

-- The IMEI stays empty unless the code was right.
abbrev pub auth_event : Frame → Time → Bool → TelemetryEvent
auth_event frame now accepted = record (base_event frame now) {
  event_type = "auth";
  protocol = "0x0102";
  imei = if accepted then frame.terminal_sn else [];
}

abbrev pub location_event : Frame → Time → LocationPacket → TelemetryEvent
location_event frame now packet =
    apply_additional_items
      (record (base_event frame now) {
        event_type = "location";
        protocol = "0x0200";
        gps_at = some packet.gps_at;
        latitude = some packet.latitude;
        longitude = some packet.longitude;
        speed_kmh = some packet.speed_kmh;
        heading = some packet.heading;
        altitude_meters = some packet.altitude_meters;
        acc = some packet.acc;
        gps_located = some packet.gps_located;
        external_power = some packet.external_power;
        alarm_types = packet.alarm_types;
      })
      packet.additional_items

-- A session's copy that has the frame's serial number.
abbrev pub with_sn : Frame → SessionContext → SessionContext
with_sn frame session = record session { terminal_sn = frame.terminal_sn }

-- The session after a registration: it has the serial number only if the ACK could be built.
unfoldable pub registered_session : Frame → SessionContext → Outcome Bytes → SessionContext
registered_session frame session (ok ack) = with_sn frame session
registered_session frame session (err e) = session
registered_session frame session panic = session

-- The session after the store has answered an authentication.
abbrev pub authenticated_session : Frame → SessionContext → Bool → SessionContext
authenticated_session frame session true = record (with_sn frame session) { authenticated = true }
authenticated_session frame session false = session

-- What is parsed is dropped, its error is reported.
unfoldable pub parse_only {ℓ} : {A : Type ℓ} → Outcome A → Handled
parse_only (ok a) = handled [] [] none
parse_only (err e) = handled [] [] (some e)
parse_only panic = panicked

-- The new store, the new session, and what is returned.
abbrev pub Dispatched : Type 0 → Type 0
Dispatched S = S × SessionContext × Handled

-- The ACK of a registration.
unfoldable pub registration_ack : Frame → SessionContext → Bytes → Outcome Bytes
registration_ack frame session auth_code =
    build_registration_ack frame.terminal_sn (next_out_serial session).0 frame.message_serial
      registration_success auth_code

-- The gate in front of the `switch`.
unfoldable pub is_gated : Frame → SessionContext → Bool
is_gated frame session = not session.authenticated && not (pre_auth_allowed frame.message_id)

module _ {S : Type 0} where
  -- A general response under the session's next serial, which is used up even where none is built.
  unfoldable pub answer : S → Frame → SessionContext → ℕ → ℕ → (Bytes → Handled) → Dispatched S
  unfolding next_out_serial general_ack
  answer s frame session reply_id result k =
      (s, (next_out_serial session).1, general_ack frame session reply_id result k)

  -- A step that ends the handler on an error, with nothing changed since.
  unfoldable pub reported {ℓ} :
      {A : Type ℓ} → S → SessionContext → Outcome A → (A → Dispatched S) → Dispatched S
  reported s session (ok a) k = k a
  reported s session (err e) k = (s, session, handled [] [] (some e))
  reported s session panic k = (s, session, panicked)

  -- A registration once the store has answered.
  unfoldable pub registered : Frame → SessionContext → Time → S × Outcome Bytes → Dispatched S
  unfolding registration_ack registered_session with_ack
  registered frame session now (s, answered) = reported s session answered (λ auth_code.
      let ack = registration_ack frame session auth_code in
      (
        s,
        registered_session frame (next_out_serial session).1 ack,
        with_ack ack (λ bytes. handled bytes (registration_event frame now ∷ []) none),
      ))

  -- An authentication once the store has answered.
  unfoldable pub authenticated : S → Frame → SessionContext → Time → Bool → Dispatched S
  authenticated s frame session now accepted =
      answer s frame (authenticated_session frame session accepted) Msg.terminal_auth
        (if accepted then result_success else result_failure)
        (λ ack. handled ack (auth_event frame now accepted ∷ []) none)

  -- `Handler.Dispatch`; `auth` is the handler's store.
  unfoldable pub dispatch : AuthStore S → S → Frame → SessionContext → Time → Dispatched S
  unfolding answer registered authenticated reported parse_only registered_session with_ack
  dispatch auth s frame session now =
      let id = frame.message_id in
      if is_gated frame session
      then answer s frame session id result_failure (λ ack. handled ack [] (some not_authenticated))
      else if id == Msg.terminal_heartbeat
      then answer s frame session Msg.terminal_heartbeat result_success
          (λ ack. handled ack (heartbeat_event frame now ∷ []) none)
      else if id == Msg.terminal_registration
      then reported s session (parse_registration frame.body) (λ packet.
        registered frame session now
          (auth.register s frame.terminal_sn packet.manufacturer packet.model now))
      else if id == Msg.terminal_auth
      then reported s session (parse_auth frame.body) (λ packet.
        reported s session (auth.authenticate s frame.terminal_sn packet.auth_code)
          (λ accepted. authenticated s frame session now accepted))
      else if id == Msg.location_report
      then reported s session (parse_location frame.body) (λ packet.
        answer s frame session Msg.location_report result_success
          (λ ack. handled ack (location_event frame now packet ∷ []) none))
      else if id == Msg.terminal_general_response
      then (s, session, parse_only (parse_general_response frame.body))
      else if id == Msg.query_parameters_response
      then (s, session, parse_only (parse_query_parameters_response frame.body))
      else if id == Msg.terminal_properties_resp
      then (s, session, parse_only (parse_properties_response frame.body))
      else answer s frame session id result_not_supported
          (λ ack. handled ack [] (some unsupported_message))
