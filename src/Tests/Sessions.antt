-- ===== src/Tests/Sessions.antt =====
-- Runs of internal/protocol/jt808/handler.go on a store that knows one terminal.
use tallerp_telemetry.Base.{
  ℕ, ◌≡◌, ◌≢◌, ◌↔◌, ◌⊎◌, refl, true, false, [], ◌∷◌, some, none, arith, Bytes, bytes_eq, ok, Error,
  not_authenticated, ◌+◌, ◌%◌,
}
use tallerp_telemetry.Session.{new_session}
use tallerp_telemetry.Jt808.Types.{Frame}
use tallerp_telemetry.Jt808.Escape.{escape, calculate_checksum}
use tallerp_telemetry.Jt808.Header.{encode_frame, encode_bcd, wrap}
use tallerp_telemetry.Jt808.Messages.{build_general_response}
use tallerp_telemetry.Jt808.Handler.{
  AuthStore, handled, panicked, dispatch, next_out_serial, is_gated, pre_auth_allowed, answer,
  general_ack, with_ack, heartbeat_event,
}
use tallerp_telemetry.Jt808.Handler.Gate.{
  session_of, result_of, Accepts, dispatch-ne-panicked, dispatch-authenticated,
  dispatch_before_authentication,
}
use tallerp_telemetry.Jt808.Handler.Acks.{Replies, dispatch-Replies}

abbrev the_code : Bytes
the_code = b'A' ∷ b'1' ∷ []

-- A store with no state, in which every terminal has the same code.
abbrev one_code : AuthStore (Unit {0})
one_code = record {
  register = λ s sn manufacturer model now. (s, ok the_code);
  authenticate = λ s sn code. ok (bytes_eq code the_code);
  register_returns = λ s sn manufacturer model now p. cc;
  authenticate_returns = λ s sn code p. cc;
}

abbrev received : ℕ → Bytes → Frame
received message_id body = record {
  message_id = message_id;
  body_props = 0;
  encryption = 0;
  has_subpackage = false;
  terminal_sn =
      b'1' ∷ b'2' ∷ b'3' ∷ b'4' ∷ b'5' ∷ b'6' ∷ b'7' ∷ b'8' ∷ b'9' ∷ b'0' ∷ b'1' ∷ b'2' ∷ [];
  message_serial = 7;
  total_packets = 0;
  packet_serial = 0;
  body = body;
  raw = [];
  checksum = 0;
}

dispatch-ne-panicked_example :
    result_of (dispatch one_code tt (received 0x0200 (0x00 ∷ [])) new_session 5) ≢ panicked
dispatch-ne-panicked_example =
    dispatch-ne-panicked one_code tt (received 0x0200 (0x00 ∷ [])) new_session 5

dispatch-authenticated_example :
    ((session_of (dispatch one_code tt (received 0x0102 the_code) new_session 5)).authenticated
      ≡ true)
    ↔ ((new_session.authenticated ≡ true) ⊎ Accepts one_code tt (received 0x0102 the_code))
dispatch-authenticated_example =
    dispatch-authenticated one_code tt (received 0x0102 the_code) new_session 5

dispatch_before_authentication_example :
    (ack : Bytes) × ((e : Error) × ((dispatch one_code tt (received 0x0200 []) new_session 5
          ≡ (tt, record new_session { out_serial = (0 + 1) % 65536 }, handled ack [] (some e)))
        × ((e ≡ not_authenticated) ⊎ (ack ≡ []))))
dispatch_before_authentication_example =
    dispatch_before_authentication one_code tt (received 0x0200 []) new_session 5 refl (omega arith)
      (omega arith) (omega arith)

-- The answer to the first heartbeat of a session.
abbrev heartbeat_ack : Bytes
heartbeat_ack =
    0x7e ∷ 0x80 ∷ 0x01 ∷ 0x00 ∷ 0x05 ∷ 0x12 ∷ 0x34 ∷ 0x56 ∷ 0x78 ∷ 0x90 ∷ 0x12 ∷ 0x00 ∷ 0x00 ∷ 0x00
    ∷ 0x07 ∷ 0x00 ∷ 0x02 ∷ 0x00 ∷ 0xb ∷ 0x7e ∷ []

heartbeat_run :
    result_of (dispatch one_code tt (received 0x0002 []) new_session 5)
    ≡ handled heartbeat_ack (heartbeat_event (received 0x0002 []) 5 ∷ []) none
unfolding dispatch is_gated pre_auth_allowed answer general_ack with_ack next_out_serial
    build_general_response encode_frame encode_bcd wrap escape calculate_checksum
heartbeat_run = refl

dispatch-Replies_example :
    Replies (received 0x0002 []) 0 heartbeat_ack
    × ((session_of (dispatch one_code tt (received 0x0002 []) new_session 5)).out_serial ≡ 1)
dispatch-Replies_example =
    dispatch-Replies one_code tt (received 0x0002 []) new_session 5 (omega arith) heartbeat_ack
      (heartbeat_event (received 0x0002 []) 5 ∷ []) none heartbeat_run (λ p. cc)
