-- ===== src/Jt808/Decoder/Stream.antt =====
-- internal/protocol/jt808/decoder.go and encode.go: a stream of encoded messages.
use tallerp_telemetry.Base.{
  ℕ, zero, suc, ◌+◌, ◌≤◌, ◌<◌, ◌≡◌, refl, sym, ◌∙◌, ap, subst, List, [], ◌∷◌, ◌++◌, arith, length,
  length-append, All, Bytes, ok, append_assoc, append-nil, ◌⊎◌, inl, inr,
}
use tallerp_telemetry.Jt808.Types.{Frame, delimiter}
use tallerp_telemetry.Jt808.Decoder.{
  Decoder, index_byte, round, Run, done, push_loop, limit_buffer, push,
}
use tallerp_telemetry.Jt808.Decoder.Total.{push_loop_wait, push_loop_next}
use tallerp_telemetry.Jt808.Decoder.Frames.{round-delimiter}
use tallerp_telemetry.Jt808.Decoder.Encodings.{
  Message, IsMessage, encode_all, Decoded, message_round, wire_starts, message_rounds,
  encode_all_step,
}

pub run_stream :
    (ms : List Message) (stream : Bytes) (max fuel : ℕ) (frames : List Frame)
    → All IsMessage ms
    → encode_all ms ≡ ok stream
    → 2074 ≤ max
    → length stream + 1 < fuel
    → (found : List Frame) × Decoded ms found
      × (push_loop max fuel (delimiter ∷ stream) frames []
          ≡ done (delimiter ∷ []) (frames ++ found) [])
run_stream [] stream max zero frames words sent fits h = absurd (omega arith)
run_stream [] stream max (suc fuel) frames words sent fits h =
    let empty : [] ≡ stream = cc sent in
    (
      [],
      tt,
      rw (← empty, append-nil)
          (push_loop_wait max fuel (delimiter ∷ []) _ frames [] [] (round-delimiter max)),
    )
run_stream (m ∷ ms) stream max zero frames words sent fits h = absurd (omega arith)
run_stream (m ∷ ms) stream max (suc zero) frames words sent fits h = absurd (omega arith)
run_stream (m ∷ ms) stream max (suc (suc fuel)) frames words sent fits h =
    let (wire, rest, one, more, split) = encode_all_step m ms sent in
    let (tail, starts, some_bytes, short) = wire_starts m wire words.0 one in
    let sizes : length wire + length rest ≡ length stream =
      sym (length-append wire rest) ∙ ap length split in
    let two : 2 ≤ length wire = rw starts (omega arith) in
    let (f, carries, runs) = message_rounds max fuel m wire rest frames words.0 one (omega arith) in
    let (found, decoded, later) =
      run_stream ms rest max fuel (frames ++ f ∷ []) words.1 more (omega arith) (omega arith) in
    (
      f ∷ found,
      (carries, decoded),
      subst
          (λ s.
            push_loop max (suc (suc fuel)) (delimiter ∷ s) frames []
            ≡ done (delimiter ∷ []) (frames ++ (f ∷ found)) [])
          split
          (runs
            ∙ later
            ∙ ap (λ all. done (delimiter ∷ []) all []) (append_assoc frames (f ∷ []) found)),
    )

-- The loop on a stream that starts at a frame, not at the last frame's delimiter.
run_fresh :
    (ms : List Message) (stream : Bytes) (max fuel : ℕ)
    → All IsMessage ms
    → encode_all ms ≡ ok stream
    → 2074 ≤ max
    → length stream < fuel
    → (rest : Bytes) × (found : List Frame) × Decoded ms found
      × (push_loop max fuel stream [] [] ≡ done rest found [])
      × ((rest ≡ []) ⊎ (rest ≡ delimiter ∷ []))
run_fresh ms stream max zero words sent fits h = absurd (omega arith)
run_fresh [] stream max (suc fuel) words sent fits h =
    let empty : [] ≡ stream = cc sent in
    (
      [],
      [],
      tt,
      rw (← empty) (push_loop_wait max fuel [] [] [] [] [] (unfold round index_byte in refl)),
      inl refl,
    )
run_fresh (m ∷ ms) stream max (suc fuel) words sent fits h =
    let (wire, rest, one, more, split) = encode_all_step m ms sent in
    let (tail, starts, some_bytes, short) = wire_starts m wire words.0 one in
    let sizes : length wire + length rest ≡ length stream =
      sym (length-append wire rest) ∙ ap length split in
    let two : 2 ≤ length wire = rw starts (omega arith) in
    let (f, carries, reads) = message_round max m wire rest words.0 one (omega arith) in
    let (found, decoded, later) =
      run_stream ms rest max fuel (f ∷ []) words.1 more fits (omega arith) in
    (
      delimiter ∷ [],
      f ∷ found,
      (carries, decoded),
      subst (λ s. push_loop max (suc fuel) s [] [] ≡ done (delimiter ∷ []) (f ∷ found) []) split
          (push_loop_next max fuel (wire ++ rest) (delimiter ∷ rest) [] (f ∷ []) [] [] reads
            ∙ later),
      inr refl,
    )

-- Nothing is pending but, at most, the delimiter of the last frame.
abbrev pub IsIdle : Decoder → Type 0
IsIdle d = (d.buffer ≡ []) ⊎ (d.buffer ≡ delimiter ∷ [])

-- What a push of a whole number of messages does.
abbrev pub Reads : Decoder → List Message → Run Decoder → Type 0
Reads d ms run =
    (d' : Decoder) × (frames : List Frame) × (run ≡ done d' frames [])
    × Decoded ms frames
    × IsIdle d'
    × (d'.max_frame_size ≡ d.max_frame_size)
    × (d'.max_buffered_bytes ≡ d.max_buffered_bytes)

push_from :
    (d : Decoder) (data' rest : Bytes) (frames : List Frame) (ms : List Message)
    → push_loop d.max_frame_size (suc (length (d.buffer ++ data'))) (d.buffer ++ data') [] []
      ≡ done rest frames []
    → Decoded ms frames
    → (rest ≡ []) ⊎ (rest ≡ delimiter ∷ [])
    → 1 ≤ d.max_buffered_bytes
    → Reads d ms (push d data')
unfolding push
push_from d data' rest frames ms runs decoded idle room =
    (record d { buffer = rest }, frames, rw runs (kept idle), decoded, idle, refl, refl)
  where
    kept :
        (rest ≡ []) ⊎ (rest ≡ delimiter ∷ [])
        → limit_buffer d (done rest frames []) ≡ done (record d { buffer = rest }) frames []
    kept (inl e) = rw e (ground arith)
    kept (inr e) = rw e (ground arith)

-- A stream of encoded messages, pushed into an idle decoder in one piece, comes out as exactly
-- those messages in their order, each with the raw bytes of its encoding, with no error, and the
-- decoder is idle again. The IDs and serials are below 65536, the frame limit is at least 2074
-- bytes and the buffer limit at least one.
pub push-encode_all :
    (d : Decoder) (ms : List Message) (stream : Bytes)
    → IsIdle d
    → All IsMessage ms
    → encode_all ms ≡ ok stream
    → 2074 ≤ d.max_frame_size
    → 1 ≤ d.max_buffered_bytes
    → Reads d ms (push d stream)
push-encode_all d ms stream (inl fresh) words sent fits room =
    let (rest, found, decoded, runs, idle) =
      run_fresh ms stream d.max_frame_size (suc (length stream)) words sent fits (omega arith) in
    push_from d stream rest found ms
      (subst
        (λ b.
          push_loop d.max_frame_size (suc (length (b ++ stream))) (b ++ stream) [] []
          ≡ done rest found [])
        (sym fresh) runs)
      decoded idle room
push-encode_all d ms stream (inr ready) words sent fits room =
    let (found, decoded, runs) =
      run_stream ms stream d.max_frame_size (suc (suc (length stream))) [] words sent fits
        (omega arith) in
    push_from d stream (delimiter ∷ []) found ms
      (subst
        (λ b.
          push_loop d.max_frame_size (suc (length (b ++ stream))) (b ++ stream) [] []
          ≡ done (delimiter ∷ []) found [])
        (sym ready) runs)
      decoded (inr refl) room
