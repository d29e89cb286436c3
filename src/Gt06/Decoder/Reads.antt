-- ===== src/Gt06/Decoder/Reads.antt =====
-- internal/protocol/decoder.go: the reads of a round of `Push`, all of them inside of the buffer.
use tallerp_telemetry.Base.{
  ℕ, zero, suc, ◌+◌, ◌-◌, ◌≤◌, ◌≡◌, refl, ◌∙◌, ap, Bool, true, false, ◌&&◌, ◌||◌, not, List, [],
  ◌∷◌, ◌++◌, none, some, arith, ltb, ◌==◌, if◌then◌else◌, ltb_false→le, length, take, drop, get_or,
  length-take, length-drop, Bytes, ok, index, slice, u16_of, index_lem, slice_lem, slice_from_lem,
  uint16_at_lem, Bool-cases, Option-cases, inl, inr,
}
use tallerp_telemetry.Gt06.Crc.{calculate_crc}
use tallerp_telemetry.Gt06.Decoder.{
  GtFrame, GtDecodeError, invalid_header, invalid_length, invalid_stop, invalid_crc, find_header,
  GtRound, gt_wait, gt_next, round_of, minus, kept, without_header, gt_discarded, stopped,
  candidate_at, sized, at_header, gt_round,
}

-- The same round with reads that need no bounds.
unfoldable pub plain_kept : Bytes → ℕ
plain_kept buffer =
    let last = get_or buffer (length buffer - 1) 0 in
    if ltb 0 (length buffer) then (if last == 0x78 || (last == 0x79) then 1 else 0) else 0

unfoldable pub plain_wait : Bytes → GtRound
unfolding plain_kept
plain_wait buffer =
    let at = length buffer - plain_kept buffer in
    if ltb (plain_kept buffer) (length buffer)
    then gt_wait (drop at buffer) (record { kind = invalid_header; raw = take at buffer } ∷ [])
    else gt_wait buffer []

unfoldable pub plain_discarded : ℕ → Bytes → List GtDecodeError
plain_discarded at buffer =
    if ltb 0 at then record { kind = invalid_header; raw = take at buffer } ∷ [] else []

-- The frame that a candidate is.
unfoldable pub plain_frame : ℕ → ℕ → Bytes → GtFrame
plain_frame prefix_length declared candidate =
    let total = prefix_length + declared + 2 in
    record {
      header = take 2 candidate;
      declared = declared;
      protocol_number = get_or candidate prefix_length 0;
      content = take (total - 6 - (prefix_length + 1)) (drop (prefix_length + 1) candidate);
      serial = u16_of candidate (total - 6);
      crc = u16_of candidate (total - 4);
      raw = candidate;
    }

unfoldable pub plain_candidate : ℕ → ℕ → List GtDecodeError → Bytes → GtRound
plain_candidate prefix_length declared errors buffer =
    let total = prefix_length + declared + 2 in
    let candidate = take total buffer in
    if not (get_or candidate (total - 2) 0 == 0x0d && (get_or candidate (total - 1) 0 == 0x0a))
    then gt_next (drop 1 buffer) [] (errors ++ record { kind = invalid_stop; raw = candidate } ∷ [])
    else if u16_of candidate (total - 4) == calculate_crc (take (total - 4 - 2) (drop 2 candidate))
    then gt_next (drop total buffer) (plain_frame prefix_length declared candidate ∷ []) errors
    else gt_next (drop total buffer) []
        (errors ++ record { kind = invalid_crc; raw = candidate } ∷ [])

unfoldable pub plain_sized : ℕ → ℕ → ℕ → List GtDecodeError → Bytes → GtRound
unfolding plain_candidate
plain_sized max_frame_size prefix_length declared errors buffer =
    let total = prefix_length + declared + 2 in
    if ltb declared 5 || ltb max_frame_size total
    then gt_next (drop 1 buffer) []
        (errors ++ record { kind = invalid_length; raw = take prefix_length buffer } ∷ [])
    else if ltb (length buffer) total
    then gt_wait buffer errors
    else plain_candidate prefix_length declared errors buffer

unfoldable pub plain_header : ℕ → List GtDecodeError → Bytes → GtRound
unfolding plain_sized
plain_header max_frame_size errors buffer =
    if get_or buffer 0 0 == 0x79
    then (if ltb (length buffer) 4
        then gt_wait buffer errors
        else plain_sized max_frame_size 4 (u16_of buffer 2) errors buffer)
    else (if ltb (length buffer) 3
        then gt_wait buffer errors
        else plain_sized max_frame_size 3 (get_or buffer 2 0) errors buffer)

unfoldable pub plain_round : ℕ → Bytes → GtRound
unfolding plain_wait plain_header plain_discarded
plain_round max_frame_size buffer = elim (find_header buffer) [
  | none ↦ plain_wait buffer
  | some at ↦ plain_header max_frame_size (plain_discarded at buffer) (drop at buffer)
]

slice_start : (xs : Bytes) (b : ℕ) → b ≤ length xs → slice xs 0 b ≡ ok (take b xs)
slice_start xs b h = slice_lem xs 0 b (omega arith) h ∙ ap (λ n. ok (take n xs)) (omega arith)

minus_lem : (total n : ℕ) → n ≤ total → minus total n ≡ ok (total - n)
unfolding minus
minus_lem total n h = ground arith

kept_lem : (buffer : Bytes) → kept buffer ≡ ok (plain_kept buffer)
unfolding kept plain_kept index
kept_lem buffer = ground arith

without_header_lem : (buffer : Bytes) → without_header buffer ≡ ok (plain_wait buffer)
unfolding without_header plain_wait
without_header_lem buffer =
    let at = length buffer - plain_kept buffer in
    rw kept_lem (elim (Bool-cases (ltb (plain_kept buffer) (length buffer))) [
      | inl some_bytes ↦
          rw
            (
              some_bytes,
              slice_start buffer at (omega arith),
              slice_from_lem buffer at (omega arith),
            )
            refl
      | inr no_bytes ↦ rw no_bytes refl
    ])

gt_discarded_lem :
    (at : ℕ) (buffer : Bytes)
    → at ≤ length buffer
    → gt_discarded at buffer ≡ ok (plain_discarded at buffer, drop at buffer)
unfolding gt_discarded plain_discarded
gt_discarded_lem zero buffer h = refl
gt_discarded_lem (suc at) buffer h =
    let later : ltb 0 (suc at) ≡ true = ground arith in
    rw (slice_start buffer (suc at) h, slice_from_lem buffer (suc at) h, later) refl

-- A candidate that is long enough for its declared length.
module _ (prefix_length declared : ℕ) (errors : List GtDecodeError) (buffer : Bytes)
    (some_prefix : 3 ≤ prefix_length) (some_content : 5 ≤ declared)
    (fits : prefix_length + declared + 2 ≤ length buffer) where
  candidate_length :
      length (take (prefix_length + declared + 2) buffer) ≡ prefix_length + declared + 2
  candidate_length = omega (arith, length-take (prefix_length + declared + 2) buffer, fits)

  stopped_lem :
      stopped prefix_length declared errors buffer (take (prefix_length + declared + 2) buffer)
      ≡ ok (
          let total = prefix_length + declared + 2 in
          let candidate = take total buffer in
          if u16_of candidate (total - 4) == calculate_crc (take (total - 4 - 2) (drop 2 candidate))
          then gt_next
              (drop total buffer)
              (plain_frame prefix_length declared candidate ∷ [])
              errors
          else gt_next
              (drop total buffer)
              []
              (errors ++ record { kind = invalid_crc; raw = candidate } ∷ []))
  unfolding stopped plain_frame
  stopped_lem =
      let total = prefix_length + declared + 2 in
      let candidate = take total buffer in
      let size = candidate_length in
      rw
        (
          minus_lem total 6 (omega arith),
          minus_lem total 4 (omega arith),
          uint16_at_lem candidate (total - 6) (omega (arith, size)),
          uint16_at_lem candidate (total - 4) (omega (arith, size)),
          slice_lem candidate 2 (total - 4) (omega arith) (omega (arith, size)),
          slice_from_lem buffer total fits,
          slice_start candidate 2 (omega (arith, size)),
          index_lem candidate prefix_length (omega (arith, size)),
          slice_lem candidate (prefix_length + 1) (total - 6) (omega arith) (omega (arith, size)),
        )
        (branch
          (u16_of candidate (total - 4) == calculate_crc (take (total - 4 - 2) (drop 2 candidate)))
          _ _)
    where
      branch : (b : Bool) (x y : GtRound) → (if b then ok x else ok y) ≡ ok (if b then x else y)
      branch true x y = refl
      branch false x y = refl

  candidate_at_lem :
      candidate_at prefix_length declared errors buffer
      ≡ ok (plain_candidate prefix_length declared errors buffer)
  unfolding candidate_at plain_candidate
  candidate_at_lem =
      let total = prefix_length + declared + 2 in
      let candidate = take total buffer in
      let size = candidate_length in
      let stops =
        get_or candidate (total - 2) 0 == 0x0d && (get_or candidate (total - 1) 0 == 0x0a) in
      rw
        (
          slice_start buffer total fits,
          index_lem candidate (total - 2) (omega (arith, size)),
          index_lem candidate (total - 1) (omega (arith, size)),
          slice_from_lem buffer 1 (omega arith),
        )
        (elim (Bool-cases stops) [ inl good ↦ rw good stopped_lem | inr bad ↦ rw bad refl ])

sized_lem :
    (max prefix_length declared : ℕ) (errors : List GtDecodeError) (buffer : Bytes)
    → 3 ≤ prefix_length
    → prefix_length ≤ length buffer
    → sized max prefix_length declared errors buffer
      ≡ ok (plain_sized max prefix_length declared errors buffer)
unfolding sized plain_sized
sized_lem max prefix_length declared errors buffer some_prefix there =
    elim (Bool-cases (ltb declared 5 || ltb max (prefix_length + declared + 2))) [
      | inl bad ↦
          rw (bad, slice_start buffer prefix_length there, slice_from_lem buffer 1 (omega arith))
            refl
      | inr long ↦ rw long (elim (Bool-cases (ltb (length buffer) (prefix_length + declared + 2))) [
        | inl short ↦ rw short refl
        | inr whole ↦ rw whole (
            candidate_at_lem prefix_length declared errors buffer some_prefix (ground arith)
              (ltb_false→le _ _ whole))
      ])
    ]

at_header_lem :
    (max : ℕ) (errors : List GtDecodeError) (buffer : Bytes)
    → 2 ≤ length buffer
    → at_header max errors buffer ≡ ok (plain_header max errors buffer)
unfolding at_header plain_header
at_header_lem max errors buffer two =
    rw (index_lem buffer 0 (omega arith)) (elim (Bool-cases (get_or buffer 0 0 == 0x79)) [
      | inl long ↦ rw long (elim (Bool-cases (ltb (length buffer) 4)) [
        | inl short ↦ rw short refl
        | inr there ↦
            let size = ltb_false→le (length buffer) 4 there in
            rw (there, index_lem buffer 2 (omega arith), uint16_at_lem buffer 2 size)
              (sized_lem max 4 (u16_of buffer 2) errors buffer (omega arith) size)
      ])
      | inr small ↦ rw small (elim (Bool-cases (ltb (length buffer) 3)) [
        | inl short ↦ rw short refl
        | inr there ↦
            let size = ltb_false→le (length buffer) 3 there in
            rw (there, index_lem buffer 2 size)
              (sized_lem max 3 (get_or buffer 2 0) errors buffer (omega arith) size)
      ])
    ])

-- A header has two bytes.
find_header-le : (buffer : Bytes) (at : ℕ) → find_header buffer ≡ some at → at + 2 ≤ length buffer
unfolding find_header
find_header-le [] at e = cc
find_header-le (a ∷ []) at e = cc
find_header-le (a ∷ b ∷ rest) zero e = omega arith
find_header-le (a ∷ b ∷ rest) (suc at) e = ground (arith, find_header-le (b ∷ rest) at)

-- Every read of a round is inside of the buffer.
pub gt_round-plain : (max : ℕ) (buffer : Bytes) → gt_round max buffer ≡ plain_round max buffer
unfolding gt_round plain_round round_of
gt_round-plain max buffer = elim (Option-cases (find_header buffer)) [
  | inl e ↦ rw (e, plain_round, without_header_lem buffer) refl
  | inr (at, e) ↦
      let bound = find_header-le buffer at e in
      rw
        (
          e,
          plain_round,
          gt_discarded_lem at buffer (omega arith),
          at_header_lem max (plain_discarded at buffer) (drop at buffer)
              (omega (arith, length-drop at buffer)),
        )
        refl
]
