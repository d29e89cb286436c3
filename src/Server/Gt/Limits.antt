-- ===== src/Server/Gt/Limits.antt =====
-- internal/server/connection.go: a connection on which no frame can be told apart.
use tallerp_telemetry.Base.{
  ◌+◌, ◌≡◌, ◌≤◌, refl, arith, ap, inl, inr, ◌⊎◌, length, Bool, true, List, [], ◌∷◌, none, some, ltb,
  ◌==◌, Bytes, All, Bool-cases,
}
use tallerp_telemetry.Telemetry.{Time}
use tallerp_telemetry.Session.{unknown}
use tallerp_telemetry.Gt06.Decoder.{GtFrame}
use tallerp_telemetry.Gt02.Encoder.{gt02_heartbeat_ack}
use tallerp_telemetry.Server.Gt.{
  ConnectionContext, GtProcessed, GtFailure, frames_received, unwritten, handler_for,
  record_ambiguous_frame, is_unknown, process_gt_frame, write_failed, protocol_detection_failed,
}
use tallerp_telemetry.Server.Gt.Loop.{Writes, after_writes, process_gt_frames, before_frames}

-- A frame that no handler claims, or the heartbeat that both protocols share.
abbrev pub IsAmbiguous : ConnectionContext → GtFrame → Type 0
IsAmbiguous context frame =
    (context.session.family ≡ unknown)
    × ((handler_for frame context.session ≡ none) ⊎ (frame.protocol_number ≡ 0x13))

-- What an ambiguous frame does: it is counted, or its answer cannot be written.
process_gt_frame_ambiguous :
    (write : Bytes → Bool) (context : ConnectionContext) (frame : GtFrame) (now : Time)
    → IsAmbiguous context frame
    → ((written : List Bytes) × (process_gt_frame write context frame now
          ≡ some (record_ambiguous_frame context written)))
      ⊎ ((p : GtProcessed) × ((process_gt_frame write context frame now ≡ some (context, p))
            × (p.failure ≡ some write_failed)))
unfolding process_gt_frame
process_gt_frame_ambiguous write context frame now (family, how) =
    let nameless : is_unknown context.session.family ≡ true = ap is_unknown family in
    elim (Bool-cases (frame.protocol_number == 0x13)) [
      | inl heartbeat ↦ elim (Bool-cases (write (gt02_heartbeat_ack frame.serial))) [
        | inl sent ↦ inl (gt02_heartbeat_ack frame.serial ∷ [], rw (nameless, heartbeat, sent) refl)
        | inr lost ↦ inr (
          unwritten (gt02_heartbeat_ack frame.serial),
          (rw (nameless, heartbeat, lost) refl, refl),
        )
      ]
      | inr other ↦ elim how [
        | inl nobody ↦ inl ([], rw (nameless, other, nobody) refl)
        | inr number ↦ absurd (ground arith)
      ]
    ]

failed_first :
    (write : Writes) (context after : ConnectionContext) (frame : GtFrame) (rest : List GtFrame)
    (now : Time) (p : GtProcessed) (e : GtFailure)
    → process_gt_frame (write 0) context frame now ≡ some (after, p)
    → p.failure ≡ some e
    → (last : ConnectionContext) × ((q : GtProcessed) × ((e : GtFailure) × ((process_gt_frames write
                context
                (frame ∷ rest)
                now
              ≡ some (last, q))
            × (q.failure ≡ some e))))
unfolding process_gt_frames
failed_first write context after frame rest now p e done failed = (
  after,
  (
    record p { metrics = frames_received ∷ p.metrics },
    (e, (rw (done, failed, process_gt_frames) (rw failed refl), failed)),
  ),
)

-- A connection is dropped on frames that are all ambiguous - its family is unknown, and no
-- handler claims them or they are heartbeats - if it had at most three ambiguous frames in a row
-- before and has more than three with these: the detection fails, or an answer cannot be written.
pub process_gt_frames_ambiguous :
    (write : Writes) (context : ConnectionContext) (frames : List GtFrame) (now : Time)
    → All (IsAmbiguous context) frames
    → context.ambiguous_frames ≤ 3
    → 4 ≤ context.ambiguous_frames + length frames
    → (after : ConnectionContext) × ((p : GtProcessed) × ((e : GtFailure) × ((process_gt_frames
                write context frames now
              ≡ some (after, p))
            × (p.failure ≡ some e))))
unfolding process_gt_frames record_ambiguous_frame
process_gt_frames_ambiguous write context [] now h few enough = absurd (omega arith)
process_gt_frames_ambiguous write context (frame ∷ rest) now h few enough =
    elim (process_gt_frame_ambiguous (write 0) context frame now h.0) [
      | inr (p, (done, failed)) ↦
          failed_first write context context frame rest now p write_failed done failed
      | inl (written, done) ↦ elim (Bool-cases (ltb 3 (context.ambiguous_frames + 1))) [
        | inl over ↦
            failed_first write context
              (record context { ambiguous_frames = context.ambiguous_frames + 1 }) frame rest now
              (record_ambiguous_frame context written).1 protocol_detection_failed done
              (rw (over, record_ambiguous_frame) refl)
        | inr under ↦
            let counted : ConnectionContext = record context {
              ambiguous_frames = context.ambiguous_frames + 1;
            } in
            let (after, (p, (e, (runs, failed)))) =
              process_gt_frames_ambiguous (after_writes written write) counted rest now h.1
                (ground arith) (omega arith) in
            (
              after,
              (
                before_frames (record_ambiguous_frame context written).1 p,
                (e, (rw (done, under, runs, process_gt_frames) refl, failed)),
              ),
            )
      ]
    ]
