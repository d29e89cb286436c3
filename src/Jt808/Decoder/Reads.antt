-- ===== src/Jt808/Decoder/Reads.antt =====
-- internal/protocol/jt808/decoder.go: the reads of a round of `Push`, all of them inside of the buffer.
use tallerp_telemetry.Base.{
  ℕ, zero, suc, ◌+◌, ◌-◌, ◌≤◌, ◌<◌, ◌≡◌, ◌∙◌, refl, ap, true, false, List, [], ◌∷◌, none, some,
  arith, ltb, ◌==◌, if◌then◌else◌, ltb_false→le, length, take, drop, get_or, length-drop, Bytes, ok,
  ◌>>=◌, index_lem, slice, slice_lem, slice_from_lem, Bool-cases, Option-cases, inl, inr,
}
use tallerp_telemetry.Jt808.Types.{delimiter}
use tallerp_telemetry.Jt808.Escape.{calculate_checksum}
use tallerp_telemetry.Jt808.Header.{parse_header}
use tallerp_telemetry.Jt808.Decoder.{
  DecodeError, invalid_checksum, truncated_frame, index_byte, reject, headed, summed, checked,
  judge, Round, wait, next, judged, settled, closed, framed, discarded, round,
}
use tallerp_telemetry.Jt808.Decoder.Search.{index_byte-lt}

-- The same round with reads that need no bounds.
unfoldable pub plain_closed : ℕ → List DecodeError → Bytes → ℕ → Round
plain_closed max_frame_size errors buffer i =
    if i + 1 == 1
    then next (drop 1 buffer) [] errors
    else judged (judge max_frame_size (take (i + 1 + 1) buffer) (take i (drop 1 buffer)))
        (take (i + 1 + 1) buffer) (drop (i + 1) buffer) errors

unfoldable pub plain_framed : ℕ → List DecodeError → Bytes → Round
plain_framed max_frame_size errors buffer = elim (index_byte delimiter (drop 1 buffer)) [
  | none ↦ wait buffer errors
  | some i ↦ plain_closed max_frame_size errors buffer i
]

unfoldable pub plain_discarded : ℕ → Bytes → List DecodeError
plain_discarded start buffer =
    if start == 0 then [] else record { kind = truncated_frame; raw = take start buffer } ∷ []

unfoldable pub plain_round : ℕ → Bytes → Round
plain_round max_frame_size buffer = elim (index_byte delimiter buffer) [
  | none ↦ wait buffer []
  | some start ↦ plain_framed max_frame_size (plain_discarded start buffer) (drop start buffer)
]

slice_start : (xs : Bytes) (b : ℕ) → b ≤ length xs → slice xs 0 b ≡ ok (take b xs)
slice_start xs b h = slice_lem xs 0 b (omega arith) h ∙ ap (λ n. ok (take n xs)) (omega arith)

-- Behind the length test the check code is there.
pub checked_lem :
    (frame_raw unescaped : Bytes)
    → checked frame_raw (ok unescaped) ≡ (
        let payload = take (length unescaped - 1) unescaped in
        let got = get_or unescaped (length unescaped - 1) 0 in
        if ltb (length unescaped) 13
        then reject truncated_frame
        else if got == calculate_checksum payload
        then headed frame_raw got (parse_header payload)
        else reject invalid_checksum)
unfolding checked summed
checked_lem frame_raw u = elim (Bool-cases (ltb (length u) 13)) [
  | inl short ↦ rw short refl
  | inr long ↦
      let size = ltb_false→le (length u) 13 long in
      rw
        (long, slice_start u (length u - 1) (omega arith), index_lem u (length u - 1) (omega arith))
        refl
]

closed_lem :
    (max : ℕ) (errors : List DecodeError) (buffer : Bytes) (i : ℕ)
    → i + 1 < length buffer
    → closed max errors buffer i ≡ ok (plain_closed max errors buffer i)
unfolding closed plain_closed
closed_lem max errors buffer i inside =
    let width : i + 1 - 1 ≡ i = omega arith in
    elim (Bool-cases (i + 1 == 1)) [
      | inl empty ↦ rw (empty, slice_from_lem buffer 1 (omega arith)) refl
      | inr full ↦
          rw
            (
              full,
              slice_start buffer (i + 1 + 1) (omega arith),
              slice_lem buffer 1 (i + 1) (omega arith) (omega arith),
              width,
              slice_from_lem buffer (i + 1) (omega arith),
            )
            refl
    ]

framed_lem :
    (max : ℕ) (errors : List DecodeError) (buffer : Bytes)
    → 1 ≤ length buffer
    → framed max errors buffer ≡ ok (plain_framed max errors buffer)
unfolding framed plain_framed
framed_lem max errors buffer there =
    rw (slice_from_lem buffer 1 there, ◌>>=◌)
      (elim (Option-cases (index_byte delimiter (drop 1 buffer))) [
        | inl e ↦ rw (e, plain_framed) refl
        | inr (i, e) ↦
            let inside : i + 1 < length buffer =
              omega (arith, index_byte-lt delimiter (drop 1 buffer) i e, length-drop 1 buffer) in
            rw (e, plain_framed) (closed_lem max errors buffer i inside)
      ])

discarded_lem :
    (start : ℕ) (buffer : Bytes)
    → start ≤ length buffer
    → discarded start buffer ≡ ok (plain_discarded start buffer, drop start buffer)
unfolding discarded plain_discarded
discarded_lem zero buffer h = refl
discarded_lem (suc start) buffer h =
    let later : ltb 0 (suc start) ≡ true = ground arith in
    let some_bytes : (suc start == 0) ≡ false = ground arith in
    rw (slice_start buffer (suc start) h, slice_from_lem buffer (suc start) h, later, some_bytes)
      refl

-- Every read of a round is inside of the buffer.
pub round-plain : (max : ℕ) (buffer : Bytes) → round max buffer ≡ plain_round max buffer
unfolding round settled plain_round
round-plain max buffer = elim (Option-cases (index_byte delimiter buffer)) [
  | inl e ↦ rw (e, round, plain_round) refl
  | inr (at, e) ↦
      let bound = index_byte-lt delimiter buffer at e in
      rw
        (
          e,
          round,
          plain_round,
          discarded_lem at buffer (omega arith),
          framed_lem max (plain_discarded at buffer) (drop at buffer)
              (omega (arith, length-drop at buffer)),
        )
        refl
]
