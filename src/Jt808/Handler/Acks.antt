-- ===== src/Jt808/Handler/Acks.antt =====
-- internal/protocol/jt808/handler.go: what the platform answers, and the serial numbers of its answers.
use tallerp_telemetry.Base.{
  ℕ, ◌+◌, ◌%◌, ◌<◌, ◌≡◌, ◌≢◌, refl, sym, Bool, true, false, List, [], ◌∷◌, ◌++◌, Option, some, none,
  arith, Bytes, Outcome, ok, err, panic, Error, put16,
}
use tallerp_telemetry.Telemetry.{Time, TelemetryEvent}
use tallerp_telemetry.Session.{SessionContext}
use tallerp_telemetry.Jt808.Types.{Frame, registration_success}
use tallerp_telemetry.Jt808.Msg
use tallerp_telemetry.Jt808.Header.RoundTrip.{Encoded, encode_frame-Encoded}
use tallerp_telemetry.Jt808.Messages.{build_general_response, build_registration_ack}
use tallerp_telemetry.Jt808.Handler.{
  AuthStore, handled, Dispatched, next_out_serial, answer, registered, registered_session,
  registration_ack, authenticated, reported, general_ack, with_ack, dispatch,
}
use tallerp_telemetry.Jt808.Handler.Branches.{
  Branch, refused, dropped, heartbeat, registration, authentication, location, quiet, unsupported,
  dispatch-Branch,
}
use tallerp_telemetry.Jt808.Handler.Gate.{session_of, result_of}

-- The messages that answer a frame: a general response with some result, or the answer to a
-- registration with the store's code.
pub data IsReply (frame : Frame) : ℕ → Bytes → Type 0 where
  general :
      (id result : ℕ)
      → id ≡ frame.message_id
      → IsReply frame Msg.platform_general_response
          (put16 frame.message_serial ++ (put16 id ++ result ∷ []))
  registration_answer :
      (auth_code : Bytes)
      → frame.message_id ≡ Msg.terminal_registration
      → IsReply frame Msg.registration_response
          (put16 frame.message_serial ++ (registration_success ∷ auth_code))

-- A reply as it stands on the wire, under a serial number of the platform.
pub record Replies (frame : Frame) (serial : ℕ) (ack : Bytes) : Type 0 where
  pub message_id : ℕ
  pub body : Bytes
  pub replies : IsReply frame message_id body
  pub encoded : Encoded message_id frame.terminal_sn serial body ack

with_ack_lem :
    (m : Outcome Bytes) (made events : List TelemetryEvent) (fault e : Option Error) (ack : Bytes)
    → with_ack m (λ a. handled a made fault) ≡ handled ack events e
    → ack ≢ []
    → m ≡ ok ack
unfolding with_ack
with_ack_lem (ok a) made events fault e ack h some_bytes = cc
with_ack_lem (err x) made events fault e ack h some_bytes = absurd (some_bytes (cc h))
with_ack_lem panic made events fault e ack h some_bytes = cc

build_general_response-Replies :
    (frame : Frame) (serial id result : ℕ) (ack : Bytes)
    → serial < 65536
    → id ≡ frame.message_id
    → build_general_response frame.terminal_sn serial frame.message_serial id result ≡ ok ack
    → Replies frame serial ack
unfolding build_general_response
build_general_response-Replies frame serial id result ack word same h = record {
  message_id = Msg.platform_general_response;
  body = put16 frame.message_serial ++ (put16 id ++ result ∷ []);
  replies = general id result same;
  encoded = encode_frame-Encoded _ frame.terminal_sn serial _ ack (omega arith) word h;
}

-- The answer to one frame: it replies to the frame, and the session's counter has moved on by one.
abbrev Acked : {S : Type 0} → Frame → SessionContext → Dispatched S → Type 0
Acked frame session d =
    (ack : Bytes) (events : List TelemetryEvent) (e : Option Error)
    → result_of d ≡ handled ack events e
    → ack ≢ []
    → Replies frame session.out_serial ack
      × ((session_of d).out_serial ≡ (session.out_serial + 1) % 65536)

registered_session-out_serial :
    (frame : Frame) (t : SessionContext) (m : Outcome Bytes)
    → (registered_session frame t m).out_serial ≡ t.out_serial
unfolding registered_session
registered_session-out_serial frame t (ok a) = refl
registered_session-out_serial frame t (err e) = refl
registered_session-out_serial frame t panic = refl

module _ {S : Type 0} (frame : Frame) (session : SessionContext)
    (word : session.out_serial < 65536) where
  answer-Acked :
      (s : S) (id result : ℕ) (made : List TelemetryEvent) (fault : Option Error)
      → id ≡ frame.message_id
      → Acked frame session (answer s frame session id result (λ a. handled a made fault))
  unfolding answer general_ack next_out_serial
  answer-Acked s id result made fault same ack events e h some_bytes = (
    build_general_response-Replies frame session.out_serial id result ack word same
        (with_ack_lem _ made events fault e ack h some_bytes),
    refl,
  )

  registered-Acked :
      (now : Time) (answered : S × Outcome Bytes)
      → frame.message_id ≡ Msg.terminal_registration
      → Acked frame session (registered frame session now answered)
  unfolding registered reported registration_ack build_registration_ack next_out_serial
  registered-Acked now (s, ok code) is ack events e h some_bytes = (
    record {
      message_id = Msg.registration_response;
      body = put16 frame.message_serial ++ (registration_success ∷ code);
      replies = registration_answer code is;
      encoded =
          encode_frame-Encoded _ frame.terminal_sn session.out_serial _ ack (omega arith) word
            (with_ack_lem _ _ events _ e ack h some_bytes);
    },
    registered_session-out_serial frame _ _,
  )
  registered-Acked now (s, err x) is ack events e h some_bytes = absurd (some_bytes (cc h))
  registered-Acked now (s, panic) is ack events e h some_bytes = cc

  authenticated-Acked :
      (s : S) (now : Time) (accepted : Bool)
      → Msg.terminal_auth ≡ frame.message_id
      → Acked frame session (authenticated s frame session now accepted)
  unfolding authenticated answer general_ack next_out_serial
  authenticated-Acked s now true same ack events e h some_bytes = (
    build_general_response-Replies frame session.out_serial _ _ ack word same
        (with_ack_lem _ _ events _ e ack h some_bytes),
    refl,
  )
  authenticated-Acked s now false same ack events e h some_bytes = (
    build_general_response-Replies frame session.out_serial _ _ ack word same
        (with_ack_lem _ _ events _ e ack h some_bytes),
    refl,
  )

  silent-Acked :
      (s : S) (fault : Option Error) → Acked frame session (s, session, handled [] [] fault)
  silent-Acked s fault ack events e h some_bytes = absurd (some_bytes (cc h))

  Branch-Acked :
      (auth : AuthStore S) (s : S) (now : Time) (d : Dispatched S)
      → Branch auth s frame session now d
      → Acked frame session d
  Branch-Acked auth s now _ (refused _) = answer-Acked s _ _ _ _ refl
  Branch-Acked auth s now _ (dropped e) = silent-Acked s (some e)
  Branch-Acked auth s now _ (heartbeat is) = answer-Acked s _ _ _ _ (sym is)
  Branch-Acked auth s now _ (registration packet is _) = registered-Acked now _ is
  Branch-Acked auth s now _ (authentication packet accepted is _ _) =
      authenticated-Acked s now accepted (sym is)
  Branch-Acked auth s now _ (location packet _ is _) = answer-Acked s _ _ _ _ (sym is)
  Branch-Acked auth s now _ (quiet _) = silent-Acked s none
  Branch-Acked auth s now _ (unsupported _) = answer-Acked s _ _ _ _ refl

-- With a counter below 65536, every answer that is not empty is a well-formed message under the
-- session's own counter that the header parser reads back, a general response naming the frame's
-- serial and ID or the answer to a registration, and the counter has moved on by one modulo
-- 65536.
pub dispatch-Replies :
    {S : Type 0} (auth : AuthStore S) (s : S) (frame : Frame) (session : SessionContext)
    (now : Time)
    → session.out_serial < 65536
    → (ack : Bytes) (events : List TelemetryEvent) (e : Option Error)
    → result_of (dispatch auth s frame session now) ≡ handled ack events e
    → ack ≢ []
    → Replies frame session.out_serial ack
      × ((session_of (dispatch auth s frame session now)).out_serial
          ≡ (session.out_serial + 1) % 65536)
dispatch-Replies auth s frame session now word =
    Branch-Acked frame session word auth s now _ (dispatch-Branch auth s frame session now)
