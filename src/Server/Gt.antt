-- ===== src/Server/Gt.antt =====
-- internal/server/connection.go: the frames of a GT06 or GT02 connection. Logging is left out, and with
-- it the fields of the context that only logging reads; the counters that are moved, the bytes written
-- and the events given to the sink are results. Whether a write succeeds is a parameter.
pub mod Frames
pub mod Limits
pub mod Loop
use Prim.Native.String.{String, compare as compare_text}
use Prim.Native.Nat.{Ordering}
use tallerp_telemetry.Base.{
  ℕ, ◌+◌, Bool, true, false, not, ◌&&◌, ◌||◌, List, [], ◌∷◌, ◌++◌, Option, none, some, ltb, ◌==◌,
  if◌then◌else◌, Bytes, Error, unsupported_message,
}
use tallerp_telemetry.Telemetry.{Time, TelemetryEvent, all_placed}
use tallerp_telemetry.Session.{
  Family, unknown, gt06, gt02, jt808, SessionContext, Handled, handled, panicked,
}
use tallerp_telemetry.Gt06.Decoder.{GtFrame}
use tallerp_telemetry.Gt06.Handler.{gt06_can_handle, handle_gt06}
use tallerp_telemetry.Gt02.Encoder.{gt02_heartbeat_ack}
use tallerp_telemetry.Gt02.Handler.{gt02_can_handle, handle_gt02}

-- The counters that a GT connection may move.
pub data GtMetric : Type 0 where
  frames_received invalid_crc_counted protocol_detection_failure : GtMetric
  gt_unsupported_protocol frames_received_gt06 frames_received_gt02 : GtMetric
  locations_received locations_gt06 locations_gt02 locations_jt808 : GtMetric
  heartbeats_received heartbeats_jt808 : GtMetric

-- `ConnectionContext`
pub record ConnectionContext : Type 0 where
  pub session : SessionContext
  pub ambiguous_frames : ℕ

-- The error of `processFrame`, which ends the connection.
pub data GtFailure : Type 0 where
  write_failed protocol_detection_failed : GtFailure

pub record GtProcessed : Type 0 where
  pub metrics : List GtMetric
  pub written : List Bytes
  pub persisted : List TelemetryEvent
  pub failure : Option GtFailure

-- The handlers of `s.handlers`, in their order.
pub data GtHandler : Type 0 where
  gt06_handler gt02_handler : GtHandler

-- `Name`
unfoldable pub handler_name : GtHandler → Family
handler_name gt06_handler = gt06
handler_name gt02_handler = gt02

-- `CanHandle`
unfoldable pub can_handle : GtHandler → GtFrame → SessionContext → Bool
can_handle gt06_handler frame session = gt06_can_handle frame session
can_handle gt02_handler frame session = gt02_can_handle frame session

-- `Handle`
unfoldable pub handle : GtHandler → GtFrame → SessionContext → Time → SessionContext × Handled
handle gt06_handler frame session now = handle_gt06 frame session now
handle gt02_handler frame session now = handle_gt02 frame session now

-- The loop of `handlerFor`.
first_handler : List GtHandler → GtFrame → SessionContext → Option GtHandler
first_handler [] frame session = none
first_handler (h ∷ rest) frame session =
    let later = first_handler rest frame session in
    if can_handle h frame session then some h else later

unfoldable pub handler_for : GtFrame → SessionContext → Option GtHandler
unfolding first_handler can_handle
handler_for frame session = first_handler (gt06_handler ∷ gt02_handler ∷ []) frame session

-- `recordAmbiguousFrame`
unfoldable pub record_ambiguous_frame :
    ConnectionContext → List Bytes → ConnectionContext × GtProcessed
record_ambiguous_frame context written =
    let count = context.ambiguous_frames + 1 in
    (
      record context { ambiguous_frames = count },
      record {
        metrics = protocol_detection_failure ∷ [];
        written = written;
        persisted = [];
        failure = if ltb 3 count then some protocol_detection_failed else none;
      },
    )

-- `incrementFrameFamily`
unfoldable pub increment_frame_family : Family → List GtMetric
increment_frame_family unknown = []
increment_frame_family gt06 = frames_received_gt06 ∷ []
increment_frame_family gt02 = frames_received_gt02 ∷ []
increment_frame_family jt808 = []

abbrev pub text_eq : String → String → Bool
text_eq s t = elim (compare_text s t) [ Ordering.eq ↦ true | _ ↦ false ]

location_metrics : TelemetryEvent → List GtMetric
location_metrics event =
    if text_eq event.event_type "location"
    then locations_received
      ∷ (if text_eq event.protocol_family "gt02"
          then locations_gt02
          else if text_eq event.protocol_family "jt808"
          then locations_jt808
          else locations_gt06)
      ∷ []
    else []

heartbeat_metrics : TelemetryEvent → List GtMetric
heartbeat_metrics event =
    if text_eq event.event_type "heartbeat"
    then heartbeats_received
      ∷ (if text_eq event.protocol_family "jt808" then heartbeats_jt808 ∷ [] else [])
    else []

-- `recordEvent`: the counters, and the event if it goes on to `persist`.
unfoldable pub event_metrics : TelemetryEvent → List GtMetric
unfolding location_metrics heartbeat_metrics
event_metrics event = location_metrics event ++ heartbeat_metrics event

-- `text == ""`
abbrev pub is_empty : Bytes → Bool
is_empty [] = true
is_empty (b ∷ text) = false

unfoldable pub persisted_event : TelemetryEvent → List TelemetryEvent
persisted_event event = if is_empty event.imei then [] else event ∷ []

-- The loop over the events of a result.
unfoldable pub record_events : List TelemetryEvent → List GtMetric × List TelemetryEvent
record_events [] = ([], [])
record_events (event ∷ rest) =
    let later = record_events rest in
    (event_metrics event ++ later.0, persisted_event event ++ later.1)

-- What is left of `processFrame` from `if len(result.ACK) > 0` on.
unfoldable pub finish_gt :
    (Bytes → Bool) → List GtMetric → Bytes → List TelemetryEvent → GtProcessed
finish_gt write metrics [] events = record {
  metrics = metrics ++ (record_events events).0;
  written = [];
  persisted = (record_events events).1;
  failure = none;
}
finish_gt write metrics (b ∷ ack) events =
    if write (b ∷ ack)
    then record {
      metrics = metrics ++ (record_events events).0;
      written = (b ∷ ack) ∷ [];
      persisted = (record_events events).1;
      failure = none;
    }
    else record {
      metrics = metrics;
      written = (b ∷ ack) ∷ [];
      persisted = [];
      failure = some write_failed;
    }

-- `if context.Family == FamilyUnknown { context.Family = handler.Name() }`
unfoldable pub claimed : GtHandler → SessionContext → SessionContext
claimed h session = elim session.family [
  | unknown ↦ record session { family = handler_name h }
  | gt06 ↦ session
  | gt02 ↦ session
  | jt808 ↦ session
]

abbrev pub is_unknown : Family → Bool
is_unknown unknown = true
is_unknown gt06 = false
is_unknown gt02 = false
is_unknown jt808 = false

unsupported_metrics : Error → List GtMetric
unsupported_metrics unsupported_message = gt_unsupported_protocol ∷ []
unsupported_metrics _ = []

abbrev pub is_failed : Option GtFailure → Bool
is_failed none = false
is_failed (some e) = true

-- From the handler's result on; `none` is a panic, in the handler or on an event without a longitude. `before` is the family that the session had.
unfoldable pub handled_gt :
    (Bytes → Bool)
    → ConnectionContext
    → GtHandler
    → Family
    → SessionContext × Handled
    → Option (ConnectionContext × GtProcessed)
unfolding unsupported_metrics
handled_gt write context h before (session, handled ack events (some e)) = some (
  record context { session = session },
  record {
    metrics = increment_frame_family before ++ unsupported_metrics e;
    written = [];
    persisted = [];
    failure = none;
  },
)
handled_gt write context h before (session, handled ack events none) =
    let after = claimed h session in
    let done =
      finish_gt write
        (increment_frame_family before
          ++ (if is_unknown before then increment_frame_family after.family else []))
        ack events in
    if is_failed done.failure || all_placed events
    then some (record { session = after; ambiguous_frames = 0 }, done)
    else none
handled_gt write context h before (session, panicked) = none

-- The first answer could not be written.
abbrev pub unwritten : Bytes → GtProcessed
unwritten ack = record {
  metrics = [];
  written = ack ∷ [];
  persisted = [];
  failure = some write_failed;
}

-- `processFrame`
unfoldable pub process_gt_frame :
    (Bytes → Bool) → ConnectionContext → GtFrame → Time → Option (ConnectionContext × GtProcessed)
process_gt_frame write context frame now =
    let ack = gt02_heartbeat_ack frame.serial in
    if is_unknown context.session.family && (frame.protocol_number == 0x13)
    then some
        (if write ack then record_ambiguous_frame context (ack ∷ []) else (context, unwritten ack))
    else elim (handler_for frame context.session) [
      | none ↦ some (record_ambiguous_frame context [])
      | some h ↦
          handled_gt write context h context.session.family (handle h frame context.session now)
    ]
