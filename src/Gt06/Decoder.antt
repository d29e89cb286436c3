-- ===== src/Gt06/Decoder.antt =====
-- internal/protocol/decoder.go and frame.go: the incremental decoder of a GT06 or GT02 byte stream.
pub mod Reads
pub mod Total
pub mod Acks
pub mod Framed
use tallerp_telemetry.Base.{
  ℕ, zero, suc, ◌+◌, ◌-◌, ◌*◌, Bool, ◌&&◌, ◌||◌, not, List, [], ◌∷◌, ◌++◌, Option, none, some, ltb,
  leb, ◌==◌, if◌then◌else◌, length, Bytes, Outcome, ok, err, panic, ◌>>=◌, index, slice, slice_from,
  uint16_at,
}
use tallerp_telemetry.Gt06.Crc.{calculate_crc}

pub record GtFrame : Type 0 where
  pub header : Bytes
  pub declared : ℕ
  pub protocol_number : ℕ
  pub content : Bytes
  pub serial : ℕ
  pub crc : ℕ
  pub raw : Bytes

pub data GtDecodeKind : Type 0 where
  invalid_header invalid_length invalid_stop invalid_crc gt_buffer_limit : GtDecodeKind

pub record GtDecodeError : Type 0 where
  pub kind : GtDecodeKind
  pub raw : Bytes

pub record GtDecoder : Type 0 where
  pub buffer : Bytes
  pub max_frame_size : ℕ
  pub max_buffered_bytes : ℕ

-- `NewDecoder`; a size that is not positive in the source is 0 here.
unfoldable pub new_gt_decoder : ℕ → ℕ → GtDecoder
new_gt_decoder max_frame_size max_buffered_bytes =
    let frame_size = if max_frame_size == 0 then 64 * 1024 else max_frame_size in
    let buffered = if max_buffered_bytes == 0 then 128 * 1024 else max_buffered_bytes in
    record {
      buffer = [];
      max_frame_size = frame_size;
      max_buffered_bytes = if ltb buffered frame_size then frame_size else buffered;
    }

header_later : Option ℕ → Option ℕ
header_later none = none
header_later (some i) = some (suc i)

-- `findHeader`; `none` is its -1.
pub find_header : Bytes → Option ℕ
unfolding header_later
find_header [] = none
find_header (a ∷ []) = none
find_header (a ∷ b ∷ rest) =
    let later = header_later (find_header (b ∷ rest)) in
    if (a == 0x78 && (b == 0x78)) || (a == 0x79 && (b == 0x79)) then some 0 else later

-- One round of the loop: the buffer it leaves and what it reports. `gt_wait` is a `break`.
pub data GtRound : Type 0 where
  gt_wait : Bytes → List GtDecodeError → GtRound
  gt_next : Bytes → List GtFrame → List GtDecodeError → GtRound
  gt_stop : GtRound  -- a panic

-- The round that a chain of reads leads to; a read outside the bounds is a panic.
round_of : Outcome GtRound → GtRound
round_of (ok r) = r
round_of (err e) = gt_stop
round_of panic = gt_stop

-- An offset counted from the end; one below 0 panics where it is used.
minus : ℕ → ℕ → Outcome ℕ
minus total n = if leb n total then ok (total - n) else panic

-- The last byte is kept where it may be half of a header.
kept : Bytes → Outcome ℕ
kept buffer =
    let half = index buffer (length buffer - 1) >>= λ last.
    ok (if last == 0x78 || (last == 0x79) then 1 else 0) in
    if ltb 0 (length buffer) then half else ok 0

-- `headerAt < 0`
without_header : Bytes → Outcome GtRound
unfolding kept
without_header buffer = do
  keep ← kept buffer
  if ltb keep (length buffer)
      then (do
        raw ← slice buffer 0 (length buffer - keep)
        rest ← slice_from buffer (length buffer - keep)
        ok (gt_wait rest (record { kind = invalid_header; raw = raw } ∷ [])))
      else ok (gt_wait buffer [])

-- `if headerAt > 0`: what is reported, and the buffer from the header on.
gt_discarded : ℕ → Bytes → Outcome (List GtDecodeError × Bytes)
gt_discarded at buffer =
    if ltb 0 at
    then (do
      raw ← slice buffer 0 at
      rest ← slice_from buffer at
      ok (record { kind = invalid_header; raw = raw } ∷ [], rest))
    else ok ([], buffer)

-- A candidate with the stop bytes: its check code, and the frame that it is.
stopped : ℕ → ℕ → List GtDecodeError → Bytes → Bytes → Outcome GtRound
unfolding minus
stopped prefix_length declared errors buffer candidate = do
  let total = prefix_length + declared + 2
  serial_at ← minus total 6
  crc_at ← minus total 4
  serial ← uint16_at candidate serial_at
  got ← uint16_at candidate crc_at
  covered ← slice candidate 2 crc_at
  rest ← slice_from buffer total
  if got == calculate_crc covered
      then (do
        header ← slice candidate 0 2
        number ← index candidate prefix_length
        content ← slice candidate (prefix_length + 1) serial_at
        ok (
            gt_next rest
              (record {
                header = header;
                declared = declared;
                protocol_number = number;
                content = content;
                serial = serial;
                crc = got;
                raw = candidate;
              }
                ∷ [])
              errors))
      else ok (gt_next rest [] (errors ++ record { kind = invalid_crc; raw = candidate } ∷ []))

-- From the stop bytes on; `total` is the candidate's length.
candidate_at : ℕ → ℕ → List GtDecodeError → Bytes → Outcome GtRound
unfolding stopped
candidate_at prefix_length declared errors buffer = do
  let total = prefix_length + declared + 2
  candidate ← slice buffer 0 total
  first_stop ← index candidate (total - 2)
  last_stop ← index candidate (total - 1)
  rest ← slice_from buffer 1
  if not (first_stop == 0x0d && (last_stop == 0x0a))
      then ok (gt_next rest [] (errors ++ record { kind = invalid_stop; raw = candidate } ∷ []))
      else stopped prefix_length declared errors buffer candidate

-- The buffer starts with a header and its length field has been read.
sized : ℕ → ℕ → ℕ → List GtDecodeError → Bytes → Outcome GtRound
unfolding candidate_at
sized max_frame_size prefix_length declared errors buffer =
    let total = prefix_length + declared + 2 in
    if ltb declared 5 || ltb max_frame_size total
    then (do
      raw ← slice buffer 0 prefix_length
      rest ← slice_from buffer 1
      ok (gt_next rest [] (errors ++ record { kind = invalid_length; raw = raw } ∷ [])))
    else if ltb (length buffer) total
    then ok (gt_wait buffer errors)
    else candidate_at prefix_length declared errors buffer

-- The buffer starts with a header.
at_header : ℕ → List GtDecodeError → Bytes → Outcome GtRound
unfolding sized
at_header max_frame_size errors buffer = do
  first ← index buffer 0
  let prefix_length = if first == 0x79 then 4 else 3
  if ltb (length buffer) prefix_length then ok (gt_wait buffer errors) else (do
    short ← index buffer 2
    declared ← if first == 0x79 then uint16_at buffer 2 else ok short
    sized max_frame_size prefix_length declared errors buffer)

pub gt_round : ℕ → Bytes → GtRound
unfolding round_of without_header gt_discarded at_header
gt_round max_frame_size buffer = round_of (elim (find_header buffer) [
  | none ↦ without_header buffer
  | some at ↦ gt_discarded at buffer >>= λ (errors, rest). at_header max_frame_size errors rest
])

pub data GtRun (S : Type 0) : Type 0 where
  gt_done : S → List GtFrame → List GtDecodeError → GtRun S
  gt_crashed : GtRun S
  gt_out_of_fuel : GtRun S

pub gt_push_loop : ℕ → ℕ → Bytes → List GtFrame → List GtDecodeError → GtRun Bytes
gt_push_loop max_frame_size zero buffer frames errors = gt_out_of_fuel
gt_push_loop max_frame_size (suc fuel) buffer frames errors =
    elim (gt_round max_frame_size buffer) [
      | gt_wait rest more ↦ gt_done rest frames (errors ++ more)
      | gt_next rest found more ↦
          gt_push_loop max_frame_size fuel rest (frames ++ found) (errors ++ more)
      | gt_stop ↦ gt_crashed
    ]

gt_limit_buffer : GtDecoder → GtRun Bytes → GtRun GtDecoder
gt_limit_buffer d (gt_done buffer frames errors) =
    if ltb d.max_buffered_bytes (length buffer)
    then gt_done (record d { buffer = [] }) frames
        (errors ++ record { kind = gt_buffer_limit; raw = buffer } ∷ [])
    else gt_done (record d { buffer = buffer }) frames errors
gt_limit_buffer d gt_crashed = gt_crashed
gt_limit_buffer d gt_out_of_fuel = gt_out_of_fuel

-- Every round but the last takes a byte off the buffer.
unfoldable pub gt_push : GtDecoder → Bytes → GtRun GtDecoder
unfolding gt_limit_buffer gt_push_loop
gt_push d data' =
    let buffer = d.buffer ++ data' in
    gt_limit_buffer d (gt_push_loop d.max_frame_size (suc (length buffer)) buffer [] [])
