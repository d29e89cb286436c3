-- ===== src/Jt808/Handler/Branches.antt =====
-- internal/protocol/jt808/handler.go: the ways through `Dispatch`, as a relation of what it returns.
use tallerp_telemetry.Base.{
  ◌≡◌, ◌≢◌, refl, Bool, true, false, [], ◌∷◌, some, none, arith, ◌==◌, ==_iff, either_side, Outcome,
  ok, err, panic, Error, not_authenticated, unsupported_message,
}
use tallerp_telemetry.Telemetry.{Time}
use tallerp_telemetry.Session.{SessionContext}
use tallerp_telemetry.Jt808.Types.{
  Frame, RegistrationPacket, AuthPacket, result_success, result_failure, result_not_supported,
}
use tallerp_telemetry.Jt808.Msg
use tallerp_telemetry.Jt808.Messages.{parse_registration, parse_auth}
use tallerp_telemetry.Jt808.Messages.Safety.{
  parse_registration-ne-panic, parse_auth-ne-panic, parse_general_response-ne-panic,
  parse_query_parameters_response-ne-panic, parse_properties_response-ne-panic,
}
use tallerp_telemetry.Jt808.Location.{LocationPacket, parse_location}
use tallerp_telemetry.Jt808.Location.Safety.{parse_location-ne-panic}
use tallerp_telemetry.Jt808.Handler.{
  AuthStore, handled, Dispatched, is_gated, pre_auth_allowed, answer, registered, authenticated,
  reported, parse_only, heartbeat_event, location_event, dispatch,
}

module _ {S : Type 0} (auth : AuthStore S) (s : S) (frame : Frame) (session : SessionContext)
    (now : Time) where
  pub data Branch : Dispatched S → Type 0 where
    refused :
        is_gated frame session ≡ true
        → Branch (
            answer s frame session frame.message_id result_failure
              (λ ack. handled ack [] (some not_authenticated)))
    dropped : (e : Error) → Branch (s, session, handled [] [] (some e))
    heartbeat :
        frame.message_id ≡ Msg.terminal_heartbeat
        → Branch (
            answer s frame session Msg.terminal_heartbeat result_success
              (λ ack. handled ack (heartbeat_event frame now ∷ []) none))
    registration :
        (packet : RegistrationPacket)
        → frame.message_id ≡ Msg.terminal_registration
        → parse_registration frame.body ≡ ok packet
        → Branch (
            registered frame session now
              (auth.register s frame.terminal_sn packet.manufacturer packet.model now))
    authentication :
        (packet : AuthPacket) (accepted : Bool)
        → frame.message_id ≡ Msg.terminal_auth
        → parse_auth frame.body ≡ ok packet
        → auth.authenticate s frame.terminal_sn packet.auth_code ≡ ok accepted
        → Branch (authenticated s frame session now accepted)
    location :
        (packet : LocationPacket)
        → session.authenticated ≡ true
        → frame.message_id ≡ Msg.location_report
        → parse_location frame.body ≡ ok packet
        → Branch (
            answer s frame session Msg.location_report result_success
              (λ ack. handled ack (location_event frame now packet ∷ []) none))
    quiet : session.authenticated ≡ true → Branch (s, session, handled [] [] none)
    unsupported :
        session.authenticated ≡ true
        → Branch (
            answer s frame session frame.message_id result_not_supported
              (λ ack. handled ack [] (some unsupported_message)))

  reported-Branch {ℓ} :
      {A : Type ℓ} (m : Outcome A) (k : A → Dispatched S)
      → m ≢ panic
      → ((a : A) → m ≡ ok a → Branch (k a))
      → Branch (reported s session m k)
  unfolding reported
  reported-Branch (ok a) k h b = b a refl
  reported-Branch (err e) k h b = dropped e
  reported-Branch panic k h b = absurd (h refl)

  parse_only-Branch {ℓ} :
      {A : Type ℓ} (m : Outcome A)
      → session.authenticated ≡ true
      → m ≢ panic
      → Branch (s, session, parse_only m)
  unfolding parse_only
  parse_only-Branch (ok a) known h = quiet known
  parse_only-Branch (err e) known h = dropped e
  parse_only-Branch panic known h = absurd (h refl)

  -- A message behind the gate that may not come before the authentication.
  known_session :
      is_gated frame session ≡ false
      → (frame.message_id == Msg.terminal_heartbeat) ≡ false
      → (frame.message_id == Msg.terminal_registration) ≡ false
      → (frame.message_id == Msg.terminal_auth) ≡ false
      → session.authenticated ≡ true
  unfolding is_gated pre_auth_allowed
  known_session free a b c = ground arith

  pub dispatch-Branch : Branch (dispatch auth s frame session now)
  unfolding dispatch
  dispatch-Branch =
      either_side Branch _ (λ gate. refused gate)
        (λ free.
          either_side Branch _ (λ is. heartbeat ((==_iff _ _).0 is))
            (λ a.
              either_side Branch _
                (λ is.
                  reported-Branch (parse_registration frame.body) _ (parse_registration-ne-panic _)
                    (λ packet e. registration packet ((==_iff _ _).0 is) e))
                (λ b.
                  either_side Branch _
                    (λ is.
                      reported-Branch (parse_auth frame.body) _ (parse_auth-ne-panic _) (λ packet e.
                        reported-Branch (auth.authenticate s frame.terminal_sn packet.auth_code) _
                          (auth.authenticate_returns s frame.terminal_sn packet.auth_code)
                          (λ accepted q. authentication packet accepted ((==_iff _ _).0 is) e q)))
                    (λ c.
                      let known = known_session free a b c in
                      either_side Branch _
                        (λ is.
                          reported-Branch (parse_location frame.body) _ (parse_location-ne-panic _)
                            (λ packet e. location packet known ((==_iff _ _).0 is) e))
                        (λ _.
                          either_side Branch (frame.message_id == Msg.terminal_general_response)
                            (λ _.
                              parse_only-Branch _ known
                                (parse_general_response-ne-panic frame.body))
                            (λ _.
                              either_side Branch (frame.message_id == Msg.query_parameters_response)
                                (λ _.
                                  parse_only-Branch _ known
                                    (parse_query_parameters_response-ne-panic frame.body))
                                (λ _.
                                  either_side Branch
                                    (frame.message_id == Msg.terminal_properties_resp)
                                    (λ _.
                                      parse_only-Branch _ known
                                        (parse_properties_response-ne-panic frame.body))
                                    (λ _. unsupported known))))))))
