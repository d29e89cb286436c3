-- ===== src/Jt808/Handler/Gate.antt =====
-- internal/protocol/jt808/handler.go: `Dispatch` and the terminal's authentication.
use tallerp_telemetry.Base.{
  ℕ, ◌+◌, ◌%◌, ◌≡◌, ◌≢◌, ◌↔◌, ◌⊎◌, inl, inr, refl, ap, ◌==◌, sym, ◌∙◌, true, false, [], some, arith,
  Bytes, Outcome, ok, err, panic, Error, not_authenticated,
}
use tallerp_telemetry.Telemetry.{Time}
use tallerp_telemetry.Session.{SessionContext}
use tallerp_telemetry.Jt808.Types.{Frame, AuthPacket, result_failure}
use tallerp_telemetry.Jt808.Msg
use tallerp_telemetry.Jt808.Header.Safety.{encode_frame-ne-panic}
use tallerp_telemetry.Jt808.Messages.{build_general_response, build_registration_ack, parse_auth}
use tallerp_telemetry.Jt808.Handler.{
  AuthStore, Handled, handled, panicked, Dispatched, is_gated, pre_auth_allowed, next_out_serial,
  answer, registered, registered_session, registration_ack, authenticated, authenticated_session,
  reported, general_ack, with_ack, dispatch,
}
use tallerp_telemetry.Jt808.Handler.Branches.{
  Branch, refused, dropped, heartbeat, registration, authentication, location, quiet, unsupported,
  dispatch-Branch,
}

abbrev pub session_of {ℓ} : {S : Type ℓ} → S × SessionContext × Handled → SessionContext
session_of d = d.1

abbrev pub result_of {ℓ} : {S : Type ℓ} → S × SessionContext × Handled → Handled
result_of d = d.2

pub build_general_response-ne-panic :
    (sn : Bytes) (serial response_serial id result : ℕ)
    → build_general_response sn serial response_serial id result ≢ panic
unfolding build_general_response
build_general_response-ne-panic sn serial response_serial id result =
    encode_frame-ne-panic _ sn serial _

pub registration_ack-ne-panic :
    (frame : Frame) (session : SessionContext) (code : Bytes)
    → registration_ack frame session code ≢ panic
unfolding registration_ack build_registration_ack
registration_ack-ne-panic frame session code = encode_frame-ne-panic _ frame.terminal_sn _ _

with_ack-ne-panicked :
    (m : Outcome Bytes) (k : Bytes → Handled)
    → m ≢ panic
    → ((ack : Bytes) → k ack ≢ panicked)
    → with_ack m k ≢ panicked
unfolding with_ack
with_ack-ne-panicked (ok ack) k h safe = safe ack
with_ack-ne-panicked (err e) k h safe = λ p. cc
with_ack-ne-panicked panic k h safe = λ _. h refl

module _ {S : Type 0} where
  answer-ne-panicked :
      (s : S) (frame : Frame) (session : SessionContext) (id result : ℕ) (k : Bytes → Handled)
      → ((ack : Bytes) → k ack ≢ panicked)
      → result_of (answer s frame session id result k) ≢ panicked
  unfolding answer general_ack
  answer-ne-panicked s frame session id result k safe =
      with_ack-ne-panicked _ k (build_general_response-ne-panic _ _ _ _ _) safe

  registered-ne-panicked :
      (frame : Frame) (session : SessionContext) (now : Time) (answered : S × Outcome Bytes)
      → answered.1 ≢ panic
      → result_of (registered frame session now answered) ≢ panicked
  unfolding registered reported
  registered-ne-panicked frame session now (s, ok code) h =
      with_ack-ne-panicked _ _ (registration_ack-ne-panic frame session code) (λ ack p. cc)
  registered-ne-panicked frame session now (s, err e) h = λ p. cc
  registered-ne-panicked frame session now (s, panic) h = absurd (h refl)

  Branch-ne-panicked :
      (auth : AuthStore S) (s : S) (frame : Frame) (session : SessionContext) (now : Time)
      (d : Dispatched S)
      → Branch auth s frame session now d
      → result_of d ≢ panicked
  unfolding authenticated
  Branch-ne-panicked auth s frame session now _ (refused _) =
      answer-ne-panicked s frame session _ _ _ (λ ack p. cc)
  Branch-ne-panicked auth s frame session now _ (dropped e) = λ p. cc
  Branch-ne-panicked auth s frame session now _ (heartbeat _) =
      answer-ne-panicked s frame session _ _ _ (λ ack p. cc)
  Branch-ne-panicked auth s frame session now _ (registration packet _ _) =
      registered-ne-panicked frame session now _ (auth.register_returns s _ _ _ now)
  Branch-ne-panicked auth s frame session now _ (authentication packet accepted _ _ _) =
      answer-ne-panicked s frame (authenticated_session frame session accepted) _ _ _ (λ ack p. cc)
  Branch-ne-panicked auth s frame session now _ (location packet _ _ _) =
      answer-ne-panicked s frame session _ _ _ (λ ack p. cc)
  Branch-ne-panicked auth s frame session now _ (quiet _) = λ p. cc
  Branch-ne-panicked auth s frame session now _ (unsupported _) =
      answer-ne-panicked s frame session _ _ _ (λ ack p. cc)

-- Whatever the frame and its body are, and whatever a store that itself returns does, the handler
-- does not panic.
pub dispatch-ne-panicked :
    {S : Type 0} (auth : AuthStore S) (s : S) (frame : Frame) (session : SessionContext)
    (now : Time)
    → result_of (dispatch auth s frame session now) ≢ panicked
dispatch-ne-panicked auth s frame session now =
    Branch-ne-panicked auth s frame session now _ (dispatch-Branch auth s frame session now)

-- The store accepts the code of a frame that is an authentication message.
abbrev pub Accepts : {S : Type 0} → AuthStore S → S → Frame → Type 0
Accepts auth s frame =
    (frame.message_id ≡ Msg.terminal_auth)
    × ((packet : AuthPacket) × (parse_auth frame.body ≡ ok packet)
        × (auth.authenticate s frame.terminal_sn packet.auth_code ≡ ok true))

module _ {S : Type 0} (auth : AuthStore S) (s : S) (frame : Frame) (session : SessionContext)
    (now : Time) where
  registered_session-authenticated :
      (t : SessionContext) (m : Outcome Bytes)
      → (registered_session frame t m).authenticated ≡ t.authenticated
  unfolding registered_session
  registered_session-authenticated t (ok a) = refl
  registered_session-authenticated t (err e) = refl
  registered_session-authenticated t panic = refl

  registered-authenticated :
      (answered : S × Outcome Bytes)
      → (session_of (registered frame session now answered)).authenticated ≡ session.authenticated
  unfolding registered reported next_out_serial
  registered-authenticated (t, ok code) = registered_session-authenticated _ _
  registered-authenticated (t, err e) = refl
  registered-authenticated (t, panic) = refl

  Branch-authenticated :
      (d : Dispatched S)
      → Branch auth s frame session now d
      → (session_of d).authenticated ≡ true
      → (session.authenticated ≡ true) ⊎ Accepts auth s frame
  unfolding authenticated answer next_out_serial
  Branch-authenticated _ (refused _) h = inl h
  Branch-authenticated _ (dropped e) h = inl h
  Branch-authenticated _ (heartbeat _) h = inl h
  Branch-authenticated _ (registration packet _ _) h = inl (sym (registered-authenticated _) ∙ h)
  Branch-authenticated _ (authentication packet true is e q) h = inr (is, (packet, e, q))
  Branch-authenticated _ (authentication packet false is e q) h = inl h
  Branch-authenticated _ (location packet _ _ _) h = inl h
  Branch-authenticated _ (quiet _) h = inl h
  Branch-authenticated _ (unsupported _) h = inl h

  Branch-authenticated_stays :
      (d : Dispatched S)
      → Branch auth s frame session now d
      → session.authenticated ≡ true
      → (session_of d).authenticated ≡ true
  unfolding authenticated answer next_out_serial
  Branch-authenticated_stays _ (refused _) h = h
  Branch-authenticated_stays _ (dropped e) h = h
  Branch-authenticated_stays _ (heartbeat _) h = h
  Branch-authenticated_stays _ (registration packet _ _) h = registered-authenticated _ ∙ h
  Branch-authenticated_stays _ (authentication packet true _ _ _) h = refl
  Branch-authenticated_stays _ (authentication packet false _ _ _) h = h
  Branch-authenticated_stays _ (location packet _ _ _) h = h
  Branch-authenticated_stays _ (quiet _) h = h
  Branch-authenticated_stays _ (unsupported _) h = h

  accepted_open : frame.message_id ≡ Msg.terminal_auth → is_gated frame session ≡ false
  unfolding is_gated pre_auth_allowed
  accepted_open is = ground arith

  accepted-authenticated :
      Accepts auth s frame → (session_of (dispatch auth s frame session now)).authenticated ≡ true
  unfolding dispatch reported authenticated answer next_out_serial
  accepted-authenticated (is, (packet, e, q)) =
      let free = accepted_open is in
      let no_heartbeat : (frame.message_id == Msg.terminal_heartbeat) ≡ false = ground arith in
      let no_registration : (frame.message_id == Msg.terminal_registration) ≡ false =
        ground arith in
      let auth_message : (frame.message_id == Msg.terminal_auth) ≡ true = ground arith in
      rw (free, no_heartbeat, no_registration, auth_message, e, q) refl

-- The session is authenticated after a frame exactly if it was before, or if the frame is an
-- authentication message, its body parses and the store accepts its code for the frame's own
-- serial number.
pub dispatch-authenticated :
    {S : Type 0} (auth : AuthStore S) (s : S) (frame : Frame) (session : SessionContext)
    (now : Time)
    → ((session_of (dispatch auth s frame session now)).authenticated ≡ true)
      ↔ ((session.authenticated ≡ true) ⊎ Accepts auth s frame)
dispatch-authenticated auth s frame session now =
    let branch = dispatch-Branch auth s frame session now in
    (
      Branch-authenticated auth s frame session now _ branch,
      λ h. elim h [
        | inl before ↦ Branch-authenticated_stays auth s frame session now _ branch before
        | inr accepts ↦ accepted-authenticated auth s frame session now accepts
      ],
    )

refusal :
    {m : Outcome Bytes}
    → m ≢ panic
    → (ack : Bytes) × ((e : Error) × ((with_ack m (λ a. handled a [] (some not_authenticated))
            ≡ handled ack [] (some e))
          × ((e ≡ not_authenticated) ⊎ (ack ≡ []))))
unfolding with_ack
refusal {m = ok a} h = (a, (not_authenticated, (refl, inl refl)))
refusal {m = err e} h = ([], (e, (refl, inr refl)))
refusal {m = panic} h = absurd (h refl)

-- Before the authentication, a message that is no registration (0x0100), authentication (0x0102)
-- or heartbeat (0x0002) leaves the store and all of the session but its serial counter alone,
-- moves that counter on by one modulo 65536, makes no event, and returns an error, which is
-- not_authenticated wherever it comes with an answer.
pub dispatch_before_authentication :
    {S : Type 0} (auth : AuthStore S) (s : S) (frame : Frame) (session : SessionContext)
    (now : Time)
    → session.authenticated ≡ false
    → frame.message_id ≢ 0x0100
    → frame.message_id ≢ 0x0102
    → frame.message_id ≢ 0x0002
    → (ack : Bytes) × ((e : Error) × ((dispatch auth s frame session now ≡ (
      s,
      record session { out_serial = (session.out_serial + 1) % 65536 },
      handled ack [] (some e),
    ))
          × ((e ≡ not_authenticated) ⊎ (ack ≡ []))))
unfolding dispatch answer general_ack next_out_serial
dispatch_before_authentication auth s frame session now locked a b c =
    let gate : is_gated frame session ≡ true = unfold is_gated pre_auth_allowed in ground arith in
    let (ack, (e, (q, why))) = refusal (
      build_general_response-ne-panic frame.terminal_sn session.out_serial frame.message_serial
        frame.message_id result_failure) in
    (
      ack,
      (
        e,
        (
          rw gate (
              ap (λ h. (s, record session { out_serial = (session.out_serial + 1) % 65536 }, h)) q),
          why,
        ),
      ),
    )
