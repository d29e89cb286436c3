-- ===== src/Server/Gt/Loop.antt =====
-- internal/server/connection.go: `handleGTConnection`, over the sequence of what its reads return.
pub mod Served
use tallerp_telemetry.Base.{
  ℕ, ◌+◌, length, Bool, true, false, List, [], ◌∷◌, ◌++◌, Option, none, some, if◌then◌else◌, Bytes,
}
use tallerp_telemetry.Telemetry.{Time, TelemetryEvent}
use tallerp_telemetry.Gt06.Decoder.{
  GtFrame, GtDecodeKind, invalid_crc, invalid_header, invalid_length, invalid_stop, gt_buffer_limit,
  GtDecodeError, GtDecoder, gt_done, gt_crashed, gt_out_of_fuel, gt_push,
}
use tallerp_telemetry.Server.Gt.{
  GtMetric, frames_received, invalid_crc_counted, ConnectionContext, GtProcessed, GtFailure,
  process_gt_frame, is_empty,
}
use Prim.Native.String.{String}

-- `decodeEvent`
unfoldable pub gt_decode_event : GtDecodeKind → String
gt_decode_event invalid_crc = "crc_error"
gt_decode_event invalid_header = "header_error"
gt_decode_event invalid_length = "length_error"
gt_decode_event invalid_stop = "stop_bits_error"
gt_decode_event gt_buffer_limit = "buffer_limit_error"

-- The error beside the bytes of a read: the end of the stream, which a closed socket is too while the
-- server closes, or any other, a failed `SetReadDeadline` among them.
pub data ReadError : Type 0 where
  end_of_stream socket_error : ReadError

pub record Read : Type 0 where
  pub bytes : Bytes
  pub error : Option ReadError
  pub received_at : Time

-- How a connection stands after some reads.
pub data GtEnding : Type 0 where
  still_open : GtDecoder → GtEnding
  left : ReadError → GtEnding
  dropped : GtFailure → GtEnding

pub record GtServed : Type 0 where
  pub context : ConnectionContext
  pub metrics : List GtMetric
  pub written : List Bytes
  pub persisted : List TelemetryEvent
  pub ending : GtEnding

-- The counters of the loop over the decode errors.
unfoldable pub crc_metrics : List GtDecodeError → List GtMetric
crc_metrics [] = []
crc_metrics (e ∷ rest) = elim e.kind [
  | invalid_crc ↦ invalid_crc_counted ∷ crc_metrics rest
  | invalid_header ↦ crc_metrics rest
  | invalid_length ↦ crc_metrics rest
  | invalid_stop ↦ crc_metrics rest
  | gt_buffer_limit ↦ crc_metrics rest
]

abbrev pub nothing_processed : GtProcessed
nothing_processed = record { metrics = []; written = []; persisted = []; failure = none }

-- What a frame did, in front of what the later ones did.
abbrev pub before_frames : GtProcessed → GtProcessed → GtProcessed
before_frames p later = record {
  metrics = frames_received ∷ (p.metrics ++ later.metrics);
  written = p.written ++ later.written;
  persisted = p.persisted ++ later.persisted;
  failure = later.failure;
}

-- Which writes of an answer succeed: by their number on the connection, from 0, and their bytes.
abbrev pub Writes : Type 0
Writes = ℕ → Bytes → Bool

-- The writes that follow the answers given.
abbrev pub after_writes : List Bytes → Writes → Writes
after_writes written write n bytes = write (length written + n) bytes

-- The loop over the frames; it is left at the first failure.
unfoldable pub process_gt_frames :
    Writes → ConnectionContext → List GtFrame → Time → Option (ConnectionContext × GtProcessed)
process_gt_frames write context [] now = some (context, nothing_processed)
process_gt_frames write context (frame ∷ rest) now =
    elim (process_gt_frame (write 0) context frame now) [
      | none ↦ none
      | some (after, p) ↦ elim p.failure [
        | some e ↦ some (after, record p { metrics = frames_received ∷ p.metrics })
        | none ↦ elim (process_gt_frames (after_writes p.written write) after rest now) [
          | none ↦ none
          | some (last, later) ↦ some (last, before_frames p later)
        ]
      ]
    ]

-- What a read did, in front of what the later ones did.
abbrev pub before_reads : List GtMetric → GtProcessed → GtServed → GtServed
before_reads counted p later = record {
  context = later.context;
  metrics = counted ++ (p.metrics ++ later.metrics);
  written = p.written ++ later.written;
  persisted = p.persisted ++ later.persisted;
  ending = later.ending;
}

abbrev pub served : ConnectionContext → List GtMetric → GtProcessed → GtEnding → GtServed
served context counted p ending = record {
  context = context;
  metrics = counted ++ p.metrics;
  written = p.written;
  persisted = p.persisted;
  ending = ending;
}

-- `decoder.Push(data)` and the two loops behind it, where the read returned bytes; `none` is a panic.
unfoldable pub receive_gt :
    Writes
    → GtDecoder
    → ConnectionContext
    → Bytes
    → Time
    → Option (GtDecoder × ConnectionContext × List GtMetric × GtProcessed)
receive_gt write decoder context bytes now =
    if is_empty bytes
    then some (decoder, context, [], nothing_processed)
    else elim (gt_push decoder bytes) [
      | gt_done decoder' frames errors ↦ elim (process_gt_frames write context frames now) [
        | none ↦ none
        | some (after, p) ↦ some (decoder', after, crc_metrics errors, p)
      ]
      | gt_crashed ↦ none
      | gt_out_of_fuel ↦ none
    ]

-- The loop over the reads.
unfoldable pub serve_gt : Writes → GtDecoder → ConnectionContext → List Read → Option GtServed
serve_gt write decoder context [] = some (served context [] nothing_processed (still_open decoder))
serve_gt write decoder context (r ∷ rest) =
    elim (receive_gt write decoder context r.bytes r.received_at) [
      | none ↦ none
      | some (decoder', after, counted, p) ↦ elim p.failure [
        | some e ↦ some (served after counted p (dropped e))
        | none ↦ elim r.error [
          | some e ↦ some (served after counted p (left e))
          | none ↦ elim (serve_gt (after_writes p.written write) decoder' after rest) [
            | none ↦ none
            | some later ↦ some (before_reads counted p later)
          ]
        ]
      ]
    ]
