-- ===== src/Gt06/Decoder/Total.antt =====
-- internal/protocol/decoder.go: the rounds of `Push` and the length of the buffer.
use tallerp_telemetry.Base.{
  ℕ, zero, suc, ◌+◌, ◌-◌, ◌≤◌, ◌<◌, ◌≡◌, refl, List, [], ◌∷◌, ◌++◌, arith, ltb, length, drop,
  get_or, length-drop, Bytes, u16_of, Bool-cases, Option-cases, inl, inr,
}
use tallerp_telemetry.Gt06.Decoder.{
  GtFrame, GtDecodeError, GtDecoder, find_header, GtRound, gt_wait, gt_next, gt_stop,
  gt_buffer_limit, gt_round, GtRun, gt_done, gt_crashed, gt_push_loop, gt_limit_buffer, gt_push,
}
use tallerp_telemetry.Gt06.Decoder.Reads.{
  plain_kept, plain_wait, plain_discarded, plain_candidate, plain_sized, plain_header, plain_round,
  gt_round-plain,
}

-- A round that ends the loop leaves no more than it had, any other leaves less, and none panics.
abbrev Shrinks : ℕ → GtRound → Type 0
Shrinks n (gt_wait rest errors) = length rest ≤ n
Shrinks n (gt_next rest frames errors) = length rest < n
Shrinks n gt_stop = ⊥

candidate-Shrinks :
    (prefix_length declared : ℕ) (errors : List GtDecodeError) (buffer : Bytes)
    → prefix_length + declared + 2 ≤ length buffer
    → Shrinks (length buffer) (plain_candidate prefix_length declared errors buffer)
unfolding plain_candidate
candidate-Shrinks prefix_length declared errors buffer fits =
    ground (arith, length-drop 1 buffer, length-drop (prefix_length + declared + 2) buffer)

sized-Shrinks :
    (max prefix_length declared : ℕ) (errors : List GtDecodeError) (buffer : Bytes)
    → 1 ≤ length buffer
    → Shrinks (length buffer) (plain_sized max prefix_length declared errors buffer)
unfolding plain_sized
sized-Shrinks max prefix_length declared errors buffer there =
    ground (arith, length-drop 1 buffer, candidate-Shrinks prefix_length declared errors buffer)

header-Shrinks :
    (max : ℕ) (errors : List GtDecodeError) (buffer : Bytes)
    → Shrinks (length buffer) (plain_header max errors buffer)
unfolding plain_header
header-Shrinks max errors buffer = ground (
  arith,
  sized-Shrinks max 4 (u16_of buffer 2) errors buffer,
  sized-Shrinks max 3 (get_or buffer 2 0) errors buffer,
)

Shrinks-le : (r : GtRound) (n m : ℕ) → n ≤ m → Shrinks n r → Shrinks m r
Shrinks-le (gt_wait rest errors) n m h k = omega arith
Shrinks-le (gt_next rest frames errors) n m h k = omega arith
Shrinks-le gt_stop n m h k = k

wait-Shrinks : (buffer : Bytes) → Shrinks (length buffer) (plain_wait buffer)
unfolding plain_wait
wait-Shrinks buffer = ground (arith, length-drop (length buffer - plain_kept buffer) buffer)

gt_round-Shrinks : (max : ℕ) (buffer : Bytes) → Shrinks (length buffer) (gt_round max buffer)
unfolding plain_round
gt_round-Shrinks max buffer = rw gt_round-plain (elim (Option-cases (find_header buffer)) [
  | inl e ↦ rw (e, plain_round) (wait-Shrinks buffer)
  | inr (at, e) ↦
      rw (e, plain_round)
        (Shrinks-le _ (length (drop at buffer)) (length buffer)
          (omega (arith, length-drop at buffer))
          (header-Shrinks max (plain_discarded at buffer) (drop at buffer)))
])

-- How a run ends: with a buffer no longer than `n`.
abbrev Ends : ℕ → GtRun Bytes → Type 0
Ends n run =
    (rest : Bytes) × (frames : List GtFrame) × (errors : List GtDecodeError) × (run
      ≡ gt_done rest frames errors)
    × (length rest ≤ n)

-- The rest of the loop after one round.
after_round : ℕ → ℕ → List GtFrame → List GtDecodeError → GtRound → GtRun Bytes
after_round max fuel frames errors r = elim r [
  | gt_wait rest more ↦ gt_done rest frames (errors ++ more)
  | gt_next rest found more ↦ gt_push_loop max fuel rest (frames ++ found) (errors ++ more)
  | gt_stop ↦ gt_crashed
]

after_round-Ends :
    (max fuel n : ℕ) (frames : List GtFrame) (errors : List GtDecodeError) (r : GtRound)
    → n ≤ fuel
    → Shrinks n r
    → ((buffer : Bytes) (fs : List GtFrame) (es : List GtDecodeError)
        → length buffer < fuel
        → Ends (length buffer) (gt_push_loop max fuel buffer fs es))
    → Ends n (after_round max fuel frames errors r)
unfolding after_round
after_round-Ends max fuel n frames errors (gt_wait rest more) room h later =
    (rest, frames, errors ++ more, refl, h)
after_round-Ends max fuel n frames errors (gt_next rest found more) room h later =
    let (last, all, reported, runs, size) =
      later rest (frames ++ found) (errors ++ more) (omega arith) in
    (last, all, reported, runs, omega arith)
after_round-Ends max fuel n frames errors gt_stop room h later = absurd h

gt_push_loop-Ends :
    (max fuel : ℕ) (buffer : Bytes) (frames : List GtFrame) (errors : List GtDecodeError)
    → length buffer < fuel
    → Ends (length buffer) (gt_push_loop max fuel buffer frames errors)
unfolding gt_push_loop after_round
gt_push_loop-Ends max zero buffer frames errors h = absurd (omega arith)
gt_push_loop-Ends max (suc fuel) buffer frames errors h =
    after_round-Ends max fuel (length buffer) frames errors (gt_round max buffer) (omega arith)
      (gt_round-Shrinks max buffer) (λ rest fs es k. gt_push_loop-Ends max fuel rest fs es k)

gt_limit_buffer_done :
    (d : GtDecoder) (rest : Bytes) (frames : List GtFrame) (errors : List GtDecodeError)
    → (d' : GtDecoder) × (es : List GtDecodeError) × (gt_limit_buffer d (gt_done rest frames errors)
        ≡ gt_done d' frames es)
      × (length d'.buffer ≤ d.max_buffered_bytes)
      × (d'.max_frame_size ≡ d.max_frame_size)
unfolding gt_limit_buffer
gt_limit_buffer_done d rest frames errors =
    elim (Bool-cases (ltb d.max_buffered_bytes (length rest))) [
      | inl over ↦ (
        record d { buffer = [] },
        errors ++ record { kind = gt_buffer_limit; raw = rest } ∷ [],
        ground arith,
        omega arith,
        refl,
      )
      | inr fits ↦ (record d { buffer = rest }, errors, ground arith, ground arith, refl)
    ]

-- The push of the GT06 and GT02 decoder returns frames and errors for every buffer and every
-- input: its loop ends, no index and no slice of a round is out of bounds, at most
-- max_buffered_bytes bytes stay in the buffer, and the frame limit is kept.
pub gt_push_total :
    (d : GtDecoder) (data' : Bytes)
    → (d' : GtDecoder) × (frames : List GtFrame) × (errors : List GtDecodeError) × (gt_push d data'
        ≡ gt_done d' frames errors)
      × (length d'.buffer ≤ d.max_buffered_bytes)
      × (d'.max_frame_size ≡ d.max_frame_size)
unfolding gt_push
gt_push_total d data' =
    let (rest, frames, errors, runs, size) =
      gt_push_loop-Ends d.max_frame_size (suc (length (d.buffer ++ data'))) (d.buffer ++ data') []
        [] (omega arith) in
    let (d', es, limited, bound, same) = gt_limit_buffer_done d rest frames errors in
    (d', frames, es, rw runs limited, bound, same)
