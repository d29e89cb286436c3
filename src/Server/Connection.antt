-- ===== src/Server/Connection.antt =====
-- internal/server: `handleJT808Connection` of jt808_connection.go over the sequence of what its reads
-- return, and the choice between the two kinds of connection in `handleConnection` of connection.go.
pub mod Tracked
pub mod Safety
use tallerp_telemetry.Base.{
  ℕ, ◌+◌, length, Bool, true, false, List, [], ◌∷◌, ◌++◌, Option, none, some, ◌==◌, if◌then◌else◌,
  Bytes, Outcome, ok, err, panic, ◌>>=◌, index,
}
use tallerp_telemetry.Telemetry.{Time, TelemetryEvent}
use tallerp_telemetry.Session.{jt808, SessionContext, new_session}
use tallerp_telemetry.Jt808.Types.{Frame}
use tallerp_telemetry.Jt808.Decoder.{
  DecodeKind, invalid_checksum, truncated_frame, invalid_escape, buffer_limit, DecodeError, Decoder,
  new_decoder, push, done, crashed, out_of_fuel,
}
use tallerp_telemetry.Jt808.Reassembly.{
  Reassembler, new_reassembler, default_reassembly_ttl, Joined, complete, incomplete, stuck,
}
use tallerp_telemetry.Jt808.Reassembly
use tallerp_telemetry.Jt808.Handler.{AuthStore}
use tallerp_telemetry.Gt06.Decoder.{new_gt_decoder}
use tallerp_telemetry.Server.Process.{Metric, Processed, process_frame}
use tallerp_telemetry.Server.Gt.{is_empty, record_events}
use tallerp_telemetry.Server.Gt.Loop.{Writes, Read, ReadError, GtServed, serve_gt}

-- What a JT808 connection keeps; `S` is the state of the handler's store.
pub record JtConnection (S : Type 0) : Type 0 where
  pub store : S
  pub session : SessionContext
  pub decoder : Decoder
  pub reassembler : Reassembler

-- What it has done so far: `frames` and `checksum_errors` are counters of their own.
pub record JtTally : Type 0 where
  pub frames : ℕ
  pub checksum_errors : ℕ
  pub metrics : List Metric
  pub written : List Bytes
  pub persisted : List TelemetryEvent
  pub failed : Bool

abbrev pub no_tally : JtTally
no_tally = record {
  frames = 0;
  checksum_errors = 0;
  metrics = [];
  written = [];
  persisted = [];
  failed = false;
}

-- A result, a panic, or the loop of the reassembler that does not end.
pub data JtRun (A : Type 0) : Type 0 where
  jt_done : A → JtRun A
  jt_panicked : JtRun A
  jt_endless : JtRun A

unfoldable pub then_run : {A B : Type 0} → JtRun A → (A → JtRun B) → JtRun B
then_run (jt_done a) k = k a
then_run jt_panicked k = jt_panicked
then_run jt_endless k = jt_endless

-- `errors.Is(decodeError, jt808.ErrInvalidChecksum)` in the loop over the decode errors.
unfoldable pub checksum_count : List DecodeError → ℕ
checksum_count [] = 0
checksum_count (e ∷ rest) = elim e.kind [
  | invalid_checksum ↦ 1 + checksum_count rest
  | truncated_frame ↦ checksum_count rest
  | invalid_escape ↦ checksum_count rest
  | buffer_limit ↦ checksum_count rest
]

-- The events go through `recordEvent`, as those of a GT connection do.
unfoldable pub add_processed : JtTally → Processed → JtTally
add_processed tally p = record tally {
  metrics = tally.metrics ++ p.metrics;
  written = tally.written ++ p.written;
  persisted = tally.persisted ++ (record_events p.recorded).1;
  failed = p.failed;
}

-- `firstReadBytes > 0 && pending[0] == 0x7e`
unfoldable pub is_jt808 : List Read → Outcome Bool
is_jt808 [] = ok false
is_jt808 (r ∷ rest) =
    if is_empty r.bytes then ok false else (index r.bytes 0 >>= λ b. ok (b == 0x7e))

abbrev pub JtState : Type 0 → Type 0
JtState S = JtConnection S × JtTally

-- A connection with the framing that it was locked onto.
pub data Connection (S : Type 0) : Type 0 where
  gt_connection : GtServed → Connection S
  jt_connection : JtState S → Connection S

module _ {S : Type 0} where
  unfoldable pub processed_jt :
      JtConnection S → JtTally → S × SessionContext × Option Processed → JtRun (JtState S)
  unfolding add_processed
  processed_jt c tally (s, session, none) = jt_panicked
  processed_jt c tally (s, session, some p) =
      jt_done (record c { store = s; session = session }, add_processed tally p)

  unfoldable pub joined_jt :
      AuthStore S
      → Writes
      → JtConnection S
      → JtTally
      → Time
      → Reassembler × Joined
      → JtRun (JtState S)
  unfolding processed_jt
  joined_jt auth write c tally now (r, complete frame) =
      processed_jt (record c { reassembler = r }) tally
        (process_frame auth (write (length tally.written)) c.store c.session frame now)
  joined_jt auth write c tally now (r, incomplete) = jt_done (record c { reassembler = r }, tally)
  joined_jt auth write c tally now (r, stuck) = jt_endless

  -- The loop over the frames; it is left at the first failed write.
  unfoldable pub jt_frames :
      AuthStore S → Writes → JtConnection S → JtTally → List Frame → Time → JtRun (JtState S)
  unfolding joined_jt then_run
  jt_frames auth write c tally [] now = jt_done (c, tally)
  jt_frames auth write c tally (frame ∷ rest) now =
      then_run
        (joined_jt auth write c (record tally { frames = tally.frames + 1 }) now
          (Reassembly.push c.reassembler frame now))
        (λ (c', tally').
          let more = jt_frames auth write c' tally' rest now in
          if tally'.failed then jt_done (c', tally') else more)

  -- `decoder.Push(data)` and the two loops behind it, where the read returned bytes.
  unfoldable pub receive_jt :
      AuthStore S → Writes → JtConnection S → JtTally → Bytes → Time → JtRun (JtState S)
  unfolding jt_frames
  receive_jt auth write c tally bytes now =
      if is_empty bytes then jt_done (c, tally) else elim (push c.decoder bytes) [
        | done decoder frames errors ↦
            jt_frames auth write (record c { decoder = decoder })
              (record tally { checksum_errors = tally.checksum_errors + checksum_count errors })
              frames now
        | crashed ↦ jt_panicked
        | out_of_fuel ↦ jt_endless
      ]

  -- The loop over the reads, which ends at a failed write or with the error of a read.
  unfoldable pub serve_jt :
      AuthStore S → Writes → JtConnection S → JtTally → List Read → JtRun (JtState S)
  unfolding receive_jt then_run
  serve_jt auth write c tally [] = jt_done (c, tally)
  serve_jt auth write c tally (r ∷ rest) =
      then_run (receive_jt auth write c tally r.bytes r.received_at) (λ (c', tally').
        let more = serve_jt auth write c' tally' rest in
        if tally'.failed
        then jt_done (c', tally')
        else elim r.error [ none ↦ more | some e ↦ jt_done (c', tally') ])

  -- The state in which `handleJT808Connection` starts.
  abbrev pub jt_start : S → ℕ → ℕ → JtConnection S
  jt_start s max_frame_size max_buffered_bytes = record {
    store = s;
    session = record new_session { family = jt808 };
    decoder = new_decoder max_frame_size max_buffered_bytes;
    reassembler = new_reassembler default_reassembly_ttl;
  }

  -- The connection of one framing or the other.
  unfoldable pub framed_connection :
      AuthStore S → Writes → S → ℕ → ℕ → List Read → Outcome Bool → JtRun (Connection S)
  unfolding then_run
  framed_connection auth write s max_frame_size max_buffered_bytes reads (ok true) =
      then_run (serve_jt auth write (jt_start s max_frame_size max_buffered_bytes) no_tally reads)
        (λ ended. jt_done (jt_connection ended))
  framed_connection auth write s max_frame_size max_buffered_bytes reads (ok false) =
      elim (serve_gt write (new_gt_decoder max_frame_size max_buffered_bytes)
        (record { session = new_session; ambiguous_frames = 0 }) reads) [
          | none ↦ jt_panicked
          | some ended ↦ jt_done (gt_connection ended)
        ]
  framed_connection auth write s max_frame_size max_buffered_bytes reads (err e) = jt_panicked
  framed_connection auth write s max_frame_size max_buffered_bytes reads panic = jt_panicked

  -- `handleConnection`, over what its reads return, the first of them before the choice.
  unfoldable pub handle_connection :
      AuthStore S → Writes → S → ℕ → ℕ → List Read → JtRun (Connection S)
  unfolding framed_connection is_jt808
  handle_connection auth write s max_frame_size max_buffered_bytes reads =
      framed_connection auth write s max_frame_size max_buffered_bytes reads (is_jt808 reads)
