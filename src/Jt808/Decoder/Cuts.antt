-- ===== src/Jt808/Decoder/Cuts.antt =====
-- internal/protocol/jt808/decoder.go: a stream that is pushed in pieces.
use tallerp_telemetry.Base.{
  ℕ, zero, suc, ◌+◌, ◌≤◌, ◌<◌, ◌≡◌, refl, sym, ◌∙◌, ap, List, [], ◌∷◌, ◌++◌, arith, ltb, length,
  length-append, concat, Bytes, append_assoc, append-nil, inl, inr, Bool-cases, le→ltb_false,
}
use tallerp_telemetry.Jt808.Types.{Frame}
use tallerp_telemetry.Jt808.Decoder.{
  DecodeError, Decoder, round, Run, done, crashed, out_of_fuel, push_loop, limit_buffer, push,
}
use tallerp_telemetry.Jt808.Decoder.Total.{
  push_loop_wait, push_loop_next, round-cases, round-next_lt, round-wait_le, push_loop_ends,
}
use tallerp_telemetry.Jt808.Decoder.Chunks.{prefixed, round-append_next, round-append_wait}

-- Fuel above the length of the buffer makes no difference.
fuel_irrelevant :
    (max f g : ℕ) (b : Bytes) (frames : List Frame) (errors : List DecodeError)
    → length b < f
    → length b < g
    → push_loop max f b frames errors ≡ push_loop max g b frames errors
fuel_irrelevant max zero g b frames errors hf hg = elim hf [ ]
fuel_irrelevant max (suc f) zero b frames errors hf hg = elim hg [ ]
fuel_irrelevant max (suc f) (suc g) b frames errors hf hg = elim (round-cases max b) [
  | inl (rest, more, e) ↦
      push_loop_wait max f b rest frames errors more e
      ∙ sym (push_loop_wait max g b rest frames errors more e)
  | inr (rest, found, more, e) ↦
      let shorter = round-next_lt max b rest found more e in
      push_loop_next max f b rest frames found errors more e
      ∙ fuel_irrelevant max f g rest (frames ++ found) (errors ++ more) (omega arith) (omega arith)
      ∙ sym (push_loop_next max g b rest frames found errors more e)
]

push_loop-prefixed :
    (max f : ℕ) (x y : Bytes) (told : List DecodeError) (frames : List Frame)
    (errors : List DecodeError)
    → round max x ≡ prefixed told (round max y)
    → push_loop max (suc f) x frames errors ≡ push_loop max (suc f) y frames (errors ++ told)
unfolding prefixed
push_loop-prefixed max f x y told frames errors h = elim (round-cases max y) [
  | inl (rest, more, e) ↦
      push_loop_wait max f x rest frames errors (told ++ more) (h ∙ rw e)
      ∙ ap (done rest frames) (sym (append_assoc errors told more))
      ∙ sym (push_loop_wait max f y rest frames (errors ++ told) more e)
  | inr (rest, found, more, e) ↦
      push_loop_next max f x rest frames found errors (told ++ more) (h ∙ rw e)
      ∙ ap (push_loop max f rest (frames ++ found)) (sym (append_assoc errors told more))
      ∙ sym (push_loop_next max f y rest frames found (errors ++ told) more e)
]

-- The loop on a longer buffer goes on from where the loop on its first part stopped.
push_loop-append :
    (max f g h : ℕ) (b more after : Bytes) (frames found : List Frame)
    (errors reported : List DecodeError)
    → length b < f
    → length (b ++ more) < g
    → length (after ++ more) < h
    → push_loop max f b frames errors ≡ done after found reported
    → push_loop max g (b ++ more) frames errors ≡ push_loop max h (after ++ more) found reported
push_loop-append max zero g h b more after frames found errors reported hf hg hh e = elim hf [ ]
push_loop-append max (suc f) zero h b more after frames found errors reported hf hg hh e =
    elim hg [ ]
push_loop-append max (suc f) (suc g) h b more after frames found errors reported hf hg hh e =
    elim (round-cases max b) [
      | inl (rest, told, r) ↦
          let same : done rest frames (errors ++ told) ≡ done after found reported =
            sym (push_loop_wait max f b rest frames errors told r) ∙ e in
          let kept : rest ≡ after = cc same in
          let le = round-wait_le max b rest told r in
          push_loop-prefixed max g (b ++ more) (rest ++ more) told frames errors
            (round-append_wait max b more rest told r)
          ∙ fuel_irrelevant max (suc g) h (rest ++ more) frames (errors ++ told)
              (omega (arith, length-append b more, length-append rest more)) (rw kept hh)
          ∙ cc same
      | inr (rest, some_frames, told, r) ↦
          let shorter = round-next_lt max b rest some_frames told r in
          push_loop_next max g (b ++ more) (rest ++ more) frames some_frames errors told
            (round-append_next max b more rest some_frames told r)
          ∙ push_loop-append max f g h rest more after (frames ++ some_frames) found
              (errors ++ told) reported (omega arith)
              (omega (arith, length-append b more, length-append rest more)) hh
              (sym (push_loop_next max f b rest frames some_frames errors told r) ∙ e)
    ]

-- What was reported before stands in front of what a run reports.
abbrev pub joined : {S : Type 0} → List Frame → List DecodeError → Run S → Run S
joined frames errors (done s found reported) = done s (frames ++ found) (errors ++ reported)
joined frames errors crashed = crashed
joined frames errors out_of_fuel = out_of_fuel

joined-joined :
    {S : Type 0} (f g : List Frame) (d e : List DecodeError) (r : Run S)
    → joined (f ++ g) (d ++ e) r ≡ joined f d (joined g e r)
joined-joined f g d e (done s found reported) =
    rw (append_assoc f g found, append_assoc d e reported)
joined-joined f g d e crashed = refl
joined-joined f g d e out_of_fuel = refl

-- An accumulator of the loop is a prefix of what it reports.
push_loop-joined :
    (max f : ℕ) (b : Bytes) (frames : List Frame) (errors : List DecodeError)
    → length b < f
    → push_loop max f b frames errors ≡ joined frames errors (push_loop max f b [] [])
push_loop-joined max zero b frames errors h = elim h [ ]
push_loop-joined max (suc f) b frames errors h = elim (round-cases max b) [
  | inl (rest, told, e) ↦
      push_loop_wait max f b rest frames errors told e
      ∙ ap (λ fs. done rest fs (errors ++ told)) (sym (append-nil frames))
      ∙ ap (joined frames errors) (sym (push_loop_wait max f b rest [] [] told e))
  | inr (rest, found, told, e) ↦
      let shorter : length rest < f = omega (arith, round-next_lt max b rest found told e) in
      push_loop_next max f b rest frames found errors told e
      ∙ push_loop-joined max f rest (frames ++ found) (errors ++ told) shorter
      ∙ joined-joined frames found errors told (push_loop max f rest [] [])
      ∙ ap (joined frames errors) (sym (push_loop-joined max f rest found told shorter))
      ∙ ap (joined frames errors) (sym (push_loop_next max f b rest [] found [] told e))
]

-- The pieces, pushed one after the other.
unfoldable pub push_all : Decoder → List Bytes → Run Decoder
push_all d [] = done d [] []
push_all d (chunk ∷ chunks) = elim (push d chunk) [
  | done d' frames errors ↦ joined frames errors (push_all d' chunks)
  | crashed ↦ crashed
  | out_of_fuel ↦ out_of_fuel
]

limit_buffer-joined :
    (d : Decoder) (frames : List Frame) (errors : List DecodeError) (r : Run Bytes)
    → limit_buffer d (joined frames errors r) ≡ joined frames errors (limit_buffer d r)
unfolding limit_buffer
limit_buffer-joined d frames errors (done b found reported) =
    elim (Bool-cases (ltb d.max_buffered_bytes (length b))) [
      | inl over ↦ rw (over, append_assoc errors reported)
      | inr fits ↦ rw fits
    ]
limit_buffer-joined d frames errors crashed = refl
limit_buffer-joined d frames errors out_of_fuel = refl

-- What a push within the limit ends with.
push_within :
    (d : Decoder) (xs after : Bytes) (found : List Frame) (reported : List DecodeError)
    → push_loop d.max_frame_size (suc (length (d.buffer ++ xs))) (d.buffer ++ xs) [] []
      ≡ done after found reported
    → length after ≤ d.max_buffered_bytes
    → push d xs ≡ done (record d { buffer = after }) found reported
unfolding push limit_buffer
push_within d xs after found reported runs fits =
    rw (runs, limit_buffer, le→ltb_false d.max_buffered_bytes (length after) fits)

-- The push of more bytes into the decoder that a first push left.
push_rest :
    (d : Decoder) (xs ys after : Bytes) (found : List Frame) (reported : List DecodeError)
    → push_loop d.max_frame_size (suc (length (d.buffer ++ xs))) (d.buffer ++ xs) [] []
      ≡ done after found reported
    → push d (xs ++ ys) ≡ joined found reported (push (record d { buffer = after }) ys)
unfolding push
push_rest d xs ys after found reported runs =
    let max = d.max_frame_size in
    let fuel = suc (length (after ++ ys)) in
    ap (λ b. limit_buffer d (push_loop max (suc (length b)) b [] []))
      (sym (append_assoc d.buffer xs ys))
    ∙ ap (limit_buffer d) (
        push_loop-append max (suc (length (d.buffer ++ xs))) (suc (length ((d.buffer ++ xs) ++ ys)))
          fuel (d.buffer ++ xs) ys after [] found [] reported (omega arith) (omega arith)
          (omega arith) runs
        ∙ push_loop-joined max fuel (after ++ ys) found reported (omega arith))
    ∙ limit_buffer-joined d found reported (push_loop max fuel (after ++ ys) [] [])

-- One cut: the first piece, then the second.
push-append :
    (d : Decoder) (xs ys : Bytes)
    → length (d.buffer ++ xs) ≤ d.max_buffered_bytes
    → (d' : Decoder) × (frames : List Frame) × (errors : List DecodeError) × (push d xs
        ≡ done d' frames errors)
      × (length d'.buffer ≤ length (d.buffer ++ xs))
      × (d'.max_buffered_bytes ≡ d.max_buffered_bytes)
      × (push d (xs ++ ys) ≡ joined frames errors (push d' ys))
push-append d xs ys room =
    let (after, found, reported, runs, size) =
      push_loop_ends d.max_frame_size (suc (length (d.buffer ++ xs))) (d.buffer ++ xs) [] []
        (omega arith) in
    (
      record d { buffer = after },
      found,
      reported,
      push_within d xs after found reported runs (omega arith),
      size,
      refl,
      push_rest d xs ys after found reported runs,
    )

joined_last :
    (s : Decoder) (frames : List Frame) (errors : List DecodeError)
    → joined frames errors (done s [] []) ≡ done s frames errors
joined_last s frames errors = rw (append-nil frames, append-nil errors)

push_all_step :
    (d d' : Decoder) (chunk : Bytes) (chunks : List Bytes) (frames : List Frame)
    (errors : List DecodeError)
    → push d chunk ≡ done d' frames errors
    → push_all d (chunk ∷ chunks) ≡ joined frames errors (push_all d' chunks)
unfolding push_all
push_all_step d d' chunk chunks frames errors h = rw (h, push_all)

-- Pushing pieces, at least one, reports the frames and the errors that pushing their
-- concatenation reports and leaves the same decoder, as long as the bytes together stay within
-- the buffer limit.
pub push_all-concat :
    (d : Decoder) (chunk : Bytes) (chunks : List Bytes)
    → length d.buffer + length (concat (chunk ∷ chunks)) ≤ d.max_buffered_bytes
    → push_all d (chunk ∷ chunks) ≡ push d (concat (chunk ∷ chunks))
push_all-concat d chunk [] room =
    let (d', frames, errors, runs, _, _, _) =
      push-append d chunk []
        (omega (arith, length-append d.buffer chunk, length-append chunk [])) in
    push_all_step d d' chunk [] frames errors runs
    ∙ unfold push_all in
      joined_last d' frames errors ∙ sym runs ∙ ap (push d) (sym (append-nil chunk))
push_all-concat d chunk (c ∷ cs) room =
    let (d', frames, errors, runs, size, same, whole) =
      push-append d chunk (concat (c ∷ cs))
        (omega (arith, length-append d.buffer chunk, length-append chunk (concat (c ∷ cs)))) in
    let later =
      push_all-concat d' c cs
        (omega (arith, length-append d.buffer chunk, length-append chunk (concat (c ∷ cs)))) in
    push_all_step d d' chunk (c ∷ cs) frames errors runs
    ∙ ap (joined frames errors) later
    ∙ sym whole
