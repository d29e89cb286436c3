-- ===== src/Server/Process.antt =====
-- internal/server/jt808_connection.go: `processJT808Frame`. Logging is left out; the metrics, the bytes
-- written and the events given to `recordEvent` are results. Whether a write succeeds is a parameter.
pub mod Tracked
use tallerp_telemetry.Base.{
  ℕ, Bool, true, false, not, ◌&&◌, ◌||◌, List, [], ◌∷◌, ◌++◌, Option, none, some, ◌==◌,
  if◌then◌else◌, Bytes, Error, unsupported_message, not_authenticated,
}
use tallerp_telemetry.Telemetry.{Time, TelemetryEvent, all_placed}
use tallerp_telemetry.Session.{SessionContext}
use tallerp_telemetry.Jt808.Types.{Frame}
use tallerp_telemetry.Jt808.Msg
use tallerp_telemetry.Jt808.Decoder.{
  DecodeKind, invalid_checksum, truncated_frame, invalid_escape, buffer_limit,
}
use tallerp_telemetry.Jt808.Handler.{AuthStore, Handled, handled, panicked, Dispatched, dispatch}
use Prim.Native.String.{String}

-- The counters that a frame may move.
pub data Metric : Type 0 where
  unsupported_protocol unknown_message_id parse_error : Metric
  registration_counted auth_success auth_failure : Metric

pub record Processed : Type 0 where
  pub metrics : List Metric
  pub written : List Bytes
  pub recorded : List TelemetryEvent
  pub failed : Bool  -- the write error that ends the connection

-- What is counted for an error of the handler.
error_metrics : Error → List Metric
error_metrics unsupported_message = unsupported_protocol ∷ unknown_message_id ∷ []
error_metrics not_authenticated = []
error_metrics _ = parse_error ∷ []

-- The `switch` on the message ID behind a frame without an error.
frame_metrics : ℕ → Bool → Bool → List Metric
frame_metrics id was_authenticated now_authenticated =
    if id == Msg.terminal_registration
    then registration_counted ∷ []
    else if id == Msg.terminal_auth
    then (if not was_authenticated && now_authenticated
        then auth_success ∷ []
        else if now_authenticated
        then []
        else auth_failure ∷ [])
    else []

-- `if len(result.ACK) > 0` and the write; events are recorded where no write failed.
acked : (Bytes → Bool) → List Metric → Bytes → List TelemetryEvent → Processed
acked write metrics [] events = record {
  metrics = metrics;
  written = [];
  recorded = events;
  failed = false;
}
acked write metrics (b ∷ ack) events = record {
  metrics = metrics;
  written = (b ∷ ack) ∷ [];
  recorded = if write (b ∷ ack) then events else [];
  failed = not (write (b ∷ ack));
}

-- `if context.TerminalSN != ""`
identified : SessionContext → SessionContext
identified session = elim session.terminal_sn [
  | [] ↦ session
  | b ∷ sn ↦ record session { imei = b ∷ sn }
]

-- The rest of the function, from the handler's results on; `none` is a panic, in the handler or on
-- an event without a longitude.
finish_frame : (Bytes → Bool) → Frame → Bool → SessionContext → Handled → Option Processed
finish_frame write frame was session (handled ack events (some e)) =
    some (acked write (error_metrics e) ack [])
finish_frame write frame was session (handled ack events none) =
    let done = acked write (frame_metrics frame.message_id was session.authenticated) ack events in
    if done.failed || all_placed events then some done else none
finish_frame write frame was session panicked = none

module _ {S : Type 0} where
  processed : (Bytes → Bool) → Frame → Bool → Dispatched S → S × SessionContext × Option Processed
  unfolding identified finish_frame
  processed write frame was (s, session, result) =
      (s, identified session, finish_frame write frame was (identified session) result)

  unfoldable pub process_frame :
      AuthStore S
      → (Bytes → Bool)
      → S
      → SessionContext
      → Frame
      → Time
      → S × SessionContext × Option Processed
  unfolding processed acked error_metrics frame_metrics
  process_frame auth write s session frame now =
      processed write frame session.authenticated (dispatch auth s frame session now)

-- `jt808DecodeEvent`
unfoldable pub decode_event : DecodeKind → String
decode_event invalid_checksum = "jt808_checksum_error"
decode_event invalid_escape = "jt808_escape_error"
decode_event truncated_frame = "jt808_truncated_frame"
decode_event buffer_limit = "jt808_buffer_limit_error"
