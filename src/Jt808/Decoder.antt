-- ===== src/Jt808/Decoder.antt =====
-- internal/protocol/jt808/decoder.go: the incremental decoder of a JT808 byte stream.
pub mod Reads
pub mod Search
pub mod Total
pub mod Frames
pub mod Encodings
pub mod Stream
pub mod Chunks
pub mod Cuts
use tallerp_telemetry.Base.{
  ℕ, zero, suc, ◌+◌, ◌-◌, ◌*◌, Bool, List, [], ◌∷◌, ◌++◌, Option, none, some, ltb, ◌==◌,
  if◌then◌else◌, length, Bytes, Outcome, ok, err, panic, ◌>>=◌, index, slice, slice_from,
}
use tallerp_telemetry.Jt808.Types.{Frame, delimiter, min_header_length}
use tallerp_telemetry.Jt808.Escape.{unescape, calculate_checksum}
use tallerp_telemetry.Jt808.Header.{parse_header}

-- The sentinels that a `DecodeError` wraps.
pub data DecodeKind : Type 0 where
  invalid_checksum truncated_frame invalid_escape buffer_limit : DecodeKind

pub record DecodeError : Type 0 where
  pub kind : DecodeKind
  pub raw : Bytes

pub record Decoder : Type 0 where
  pub buffer : Bytes
  pub max_frame_size : ℕ
  pub max_buffered_bytes : ℕ

abbrev pub default_max_frame_size : ℕ
default_max_frame_size = 64 * 1024

abbrev pub default_max_buffered_bytes : ℕ
default_max_buffered_bytes = 128 * 1024

-- `NewDecoder`; a size that is not positive in the source is 0 here.
unfoldable pub new_decoder : ℕ → ℕ → Decoder
new_decoder max_frame_size max_buffered_bytes =
    let frame_size = if max_frame_size == 0 then default_max_frame_size else max_frame_size in
    let buffered =
      if max_buffered_bytes == 0 then default_max_buffered_bytes else max_buffered_bytes in
    record {
      buffer = [];
      max_frame_size = frame_size;
      max_buffered_bytes = if ltb buffered frame_size then frame_size else buffered;
    }

-- An index in the tail of a list, as one in the list.
one_later : Option ℕ → Option ℕ
one_later none = none
one_later (some i) = some (suc i)

-- `bytes.IndexByte`; `none` is its -1.
pub index_byte : ℕ → Bytes → Option ℕ
unfolding one_later
index_byte b [] = none
index_byte b (x ∷ xs) = let later = one_later (index_byte b xs) in if x == b then some 0 else later

-- What becomes of the bytes between two delimiters.
pub data Verdict : Type 0 where
  accept : Frame → Verdict
  reject : DecodeKind → Verdict
  crash : Verdict

-- The header of a payload whose checksum is right.
pub headed : Bytes → ℕ → Outcome Frame → Verdict
headed frame_raw got (ok frame) = accept (record frame { checksum = got; raw = frame_raw })
headed frame_raw got (err _) = reject truncated_frame
headed frame_raw got panic = crash

-- The payload and the check code that the unescaped bytes end with.
summed : Bytes → Outcome Bytes → Outcome ℕ → Verdict
summed frame_raw (ok payload) (ok got) =
    if got == calculate_checksum payload
    then headed frame_raw got (parse_header payload)
    else reject invalid_checksum
summed frame_raw (ok payload) (err e) = crash
summed frame_raw (ok payload) panic = crash
summed frame_raw (err e) got = crash
summed frame_raw panic got = crash

-- From the length test of the unescaped bytes on.
pub checked : Bytes → Outcome Bytes → Verdict
unfolding summed
checked frame_raw (ok unescaped) =
    if ltb (length unescaped) (min_header_length + 1)
    then reject truncated_frame
    else summed frame_raw (slice unescaped 0 (length unescaped - 1))
        (index unescaped (length unescaped - 1))
checked frame_raw (err _) = reject invalid_escape
checked frame_raw panic = crash

-- `frame_raw` has both delimiters, `inner` none.
pub judge : ℕ → Bytes → Bytes → Verdict
judge max_frame_size frame_raw inner =
    if ltb max_frame_size (length frame_raw)
    then reject truncated_frame
    else checked frame_raw (unescape inner)

-- One round of the loop of `Push`: the buffer it leaves and what it reports. `wait` is a `break`.
pub data Round : Type 0 where
  wait : Bytes → List DecodeError → Round
  next : Bytes → List Frame → List DecodeError → Round
  stop : Round  -- a panic

pub judged : Verdict → Bytes → Bytes → List DecodeError → Round
judged (accept frame) frame_raw rest errors = next rest (frame ∷ []) errors
judged (reject kind) frame_raw rest errors =
    next rest [] (errors ++ record { kind = kind; raw = frame_raw } ∷ [])
judged crash frame_raw rest errors = stop

-- The round that a chain of reads leads to; a read outside the bounds is a panic.
settled : Outcome Round → Round
settled (ok r) = r
settled (err e) = stop
settled panic = stop

-- `relativeEnd` is known: `end` is one more.
closed : ℕ → List DecodeError → Bytes → ℕ → Outcome Round
closed max_frame_size errors buffer relative_end =
    let end = relative_end + 1 in
    if end == 1 then (slice_from buffer 1 >>= λ rest. ok (next rest [] errors)) else (do
      frame_raw ← slice buffer 0 (end + 1)
      inner ← slice buffer 1 end
      rest ← slice_from buffer end
      ok (judged (judge max_frame_size frame_raw inner) frame_raw rest errors))

-- The buffer starts with a delimiter.
framed : ℕ → List DecodeError → Bytes → Outcome Round
unfolding closed
framed max_frame_size errors buffer = do
  behind ← slice_from buffer 1
  elim (index_byte delimiter behind) [
    | none ↦ ok (wait buffer errors)
    | some relative_end ↦ closed max_frame_size errors buffer relative_end
  ]

-- `if start > 0`: what is reported, and the buffer from the delimiter on.
discarded : ℕ → Bytes → Outcome (List DecodeError × Bytes)
discarded start buffer =
    if ltb 0 start
    then (do
      raw ← slice buffer 0 start
      rest ← slice_from buffer start
      ok (record { kind = truncated_frame; raw = raw } ∷ [], rest))
    else ok ([], buffer)

pub round : ℕ → Bytes → Round
unfolding settled framed discarded
round max_frame_size buffer = elim (index_byte delimiter buffer) [
  | none ↦ wait buffer []
  | some start ↦
      settled (discarded start buffer >>= λ (errors, rest). framed max_frame_size errors rest)
]

-- What a run of the loop, or a `Push`, ends with.
pub data Run (S : Type 0) : Type 0 where
  done : S → List Frame → List DecodeError → Run S
  crashed : Run S
  out_of_fuel : Run S

pub push_loop : ℕ → ℕ → Bytes → List Frame → List DecodeError → Run Bytes
push_loop max_frame_size zero buffer frames errors = out_of_fuel
push_loop max_frame_size (suc fuel) buffer frames errors = elim (round max_frame_size buffer) [
  | wait rest more ↦ done rest frames (errors ++ more)
  | next rest found more ↦ push_loop max_frame_size fuel rest (frames ++ found) (errors ++ more)
  | stop ↦ crashed
]

-- The buffer limit, tested behind the loop.
limit_buffer : Decoder → Run Bytes → Run Decoder
limit_buffer d (done buffer frames errors) =
    if ltb d.max_buffered_bytes (length buffer)
    then done (record d { buffer = [] }) frames
        (errors ++ record { kind = buffer_limit; raw = buffer } ∷ [])
    else done (record d { buffer = buffer }) frames errors
limit_buffer d crashed = crashed
limit_buffer d out_of_fuel = out_of_fuel

-- Every round but the last takes a byte off the buffer.
unfoldable pub push : Decoder → Bytes → Run Decoder
unfolding limit_buffer push_loop round framed closed judged judge checked summed headed discarded
    index_byte settled
push d data' =
    let buffer = d.buffer ++ data' in
    limit_buffer d (push_loop d.max_frame_size (suc (length buffer)) buffer [] [])
