-- ===== src/Jt808/Decoder/Total.antt =====
-- internal/protocol/jt808/decoder.go: the rounds of `Push` and the length of the buffer.
use tallerp_telemetry.Base.{
  ℕ, zero, suc, ◌+◌, ◌-◌, ◌≤◌, ◌<◌, ◌≡◌, ◌≢◌, refl, ◌∙◌, List, [], ◌∷◌, ◌++◌, arith, ltb, length,
  length-drop, take, drop, get_or, Bytes, Outcome, ok, err, panic, Option-cases, Bool-cases, ◌⊎◌,
  inl, inr,
}
use tallerp_telemetry.Jt808.Types.{Frame, delimiter}
use tallerp_telemetry.Jt808.Escape.{unescape}
use tallerp_telemetry.Jt808.Escape.RoundTrip.{unescape-ne-panic}
use tallerp_telemetry.Jt808.Header.{parse_header}
use tallerp_telemetry.Jt808.Header.Safety.{parse_header-ne-panic}
use tallerp_telemetry.Jt808.Decoder.{
  DecodeError, Decoder, index_byte, Verdict, crash, headed, checked, judge, Round, wait, next, stop,
  judged, buffer_limit, round, done, push_loop, limit_buffer, push,
}
use tallerp_telemetry.Jt808.Decoder.Reads.{
  plain_closed, plain_framed, plain_discarded, plain_round, round-plain, checked_lem,
}
use tallerp_telemetry.Jt808.Decoder.Search.{index_byte-lt}

headed-ne-crash :
    (raw : Bytes) (got : ℕ) (header : Outcome Frame)
    → header ≢ panic
    → headed raw got header ≢ crash
unfolding headed
headed-ne-crash raw got (ok f) h = λ p. cc
headed-ne-crash raw got (err e) h = λ p. cc
headed-ne-crash raw got panic h = λ _. h refl

checked-ne-crash :
    (raw : Bytes) (content : Outcome Bytes) → content ≢ panic → checked raw content ≢ crash
unfolding checked
checked-ne-crash raw (err e) h = λ p. cc
checked-ne-crash raw panic h = λ _. h refl
checked-ne-crash raw (ok u) h = rw checked_lem (ground (arith, safe))
  where
    safe : headed raw (get_or u (length u - 1) 0) (parse_header (take (length u - 1) u)) ≢ crash
    safe = headed-ne-crash raw _ _ (parse_header-ne-panic (take (length u - 1) u))

judge-ne-crash : (max : ℕ) (raw inner : Bytes) → judge max raw inner ≢ crash
unfolding judge
judge-ne-crash max raw inner =
    ground (arith, checked-ne-crash raw (unescape inner) (unescape-ne-panic inner))

-- A plain_round either waits, or goes on with a shorter buffer.
abbrev pub Shrinks : ℕ → Round → Type 0
Shrinks n (wait rest errors) = length rest ≤ n
Shrinks n (next rest frames errors) = length rest < n
Shrinks n stop = ⊥

judged-Shrinks :
    (v : Verdict) (raw rest : Bytes) (errors : List DecodeError) (n : ℕ)
    → v ≢ crash
    → length rest < n
    → Shrinks n (judged v raw rest errors)
unfolding judged
judged-Shrinks (Verdict.accept f) raw rest errors n h l = l
judged-Shrinks (Verdict.reject k) raw rest errors n h l = l
judged-Shrinks crash raw rest errors n h l = absurd (h refl)

closed-Shrinks :
    (max : ℕ) (errors : List DecodeError) (buffer : Bytes) (i : ℕ)
    → 0 < length buffer
    → Shrinks (length buffer) (plain_closed max errors buffer i)
unfolding plain_closed
closed-Shrinks max errors buffer i h = ground (
  arith,
  length-drop 1 buffer,
  length-drop (i + 1) buffer,
  judged-Shrinks (judge max (take (i + 1 + 1) buffer) (take i (drop 1 buffer)))
      (take (i + 1 + 1) buffer) (drop (i + 1) buffer) errors (length buffer)
      (judge-ne-crash max _ _),
)

framed-Shrinks :
    (max : ℕ) (errors : List DecodeError) (buffer : Bytes)
    → Shrinks (length buffer) (plain_framed max errors buffer)
unfolding plain_framed
framed-Shrinks max errors buffer = elim (Option-cases (index_byte delimiter (drop 1 buffer))) [
  | inl e ↦ rw (e, Shrinks, plain_framed) (omega arith)
  | inr (i, e) ↦
      rw (e, Shrinks, plain_framed)
        (closed-Shrinks max errors buffer i
          (omega (arith, index_byte-lt delimiter (drop 1 buffer) i e, length-drop 1 buffer)))
]

Shrinks-le : (n m : ℕ) (r : Round) → n ≤ m → Shrinks n r → Shrinks m r
Shrinks-le n m (wait rest errors) h s = omega arith
Shrinks-le n m (next rest frames errors) h s = omega arith
Shrinks-le n m stop h s = s

pub round-Shrinks : (max : ℕ) (buffer : Bytes) → Shrinks (length buffer) (round max buffer)
unfolding plain_round
round-Shrinks max buffer = rw round-plain (elim (Option-cases (index_byte delimiter buffer)) [
  | inl e ↦ rw (e, Shrinks, plain_round) (omega arith)
  | inr (i, e) ↦
      rw (e, Shrinks, plain_round)
        (Shrinks-le (length (drop i buffer)) (length buffer) _ (omega (arith, length-drop i buffer))
          (framed-Shrinks max (plain_discarded i buffer) (drop i buffer)))
])

-- What the loop does after a round, and the rounds there are.
pub push_loop_wait :
    (max fuel : ℕ) (buffer rest : Bytes) (frames : List Frame) (errors more : List DecodeError)
    → round max buffer ≡ wait rest more
    → push_loop max (suc fuel) buffer frames errors ≡ done rest frames (errors ++ more)
unfolding push_loop
push_loop_wait max fuel buffer rest frames errors more h = rw (h, push_loop)

pub push_loop_next :
    (max fuel : ℕ) (buffer rest : Bytes) (frames found : List Frame)
    (errors more : List DecodeError)
    → round max buffer ≡ next rest found more
    → push_loop max (suc fuel) buffer frames errors
      ≡ push_loop max fuel rest (frames ++ found) (errors ++ more)
unfolding push_loop
push_loop_next max fuel buffer rest frames found errors more h = rw (h, push_loop)

abbrev Waits : Round → Type 0
Waits r = (rest : Bytes) × (more : List DecodeError) × (r ≡ wait rest more)

abbrev Continues : Round → Type 0
Continues r =
    (rest : Bytes) × (found : List Frame) × (more : List DecodeError) × (r ≡ next rest found more)

Round-cases : (n : ℕ) (r : Round) → Shrinks n r → Waits r ⊎ Continues r
Round-cases n (wait rest more) s = inl (rest, more, refl)
Round-cases n (next rest found more) s = inr (rest, found, more, refl)
Round-cases n stop s = absurd s

-- A round never panics.
pub round-cases :
    (max : ℕ) (buffer : Bytes) → Waits (round max buffer) ⊎ Continues (round max buffer)
round-cases max buffer = Round-cases (length buffer) (round max buffer) (round-Shrinks max buffer)

pub round-next_lt :
    (max : ℕ) (buffer rest : Bytes) (found : List Frame) (more : List DecodeError)
    → round max buffer ≡ next rest found more
    → length rest < length buffer
round-next_lt max buffer rest found more h = rw h at (round-Shrinks max buffer)

pub round-wait_le :
    (max : ℕ) (buffer rest : Bytes) (more : List DecodeError)
    → round max buffer ≡ wait rest more
    → length rest ≤ length buffer
round-wait_le max buffer rest more h = rw h at (round-Shrinks max buffer)

-- The loop ends with a buffer that is no longer than before.
pub push_loop_ends :
    (max fuel : ℕ) (buffer : Bytes) (frames : List Frame) (errors : List DecodeError)
    → length buffer < fuel
    → (rest : Bytes) × (found : List Frame) × (reported : List DecodeError) × (push_loop max fuel
          buffer frames errors
        ≡ done rest found reported)
      × (length rest ≤ length buffer)
push_loop_ends max zero buffer frames errors h = elim h [ ]
push_loop_ends max (suc fuel) buffer frames errors h = elim (round-cases max buffer) [
  | inl (rest, more, e) ↦ (
    rest,
    frames,
    errors ++ more,
    push_loop_wait max fuel buffer rest frames errors more e,
    round-wait_le max buffer rest more e,
  )
  | inr (rest, found, more, e) ↦
      let shorter = round-next_lt max buffer rest found more e in
      let (last, all, reported, runs, size) =
        push_loop_ends max fuel rest (frames ++ found) (errors ++ more) (omega arith) in
      (
        last,
        all,
        reported,
        push_loop_next max fuel buffer rest frames found errors more e ∙ runs,
        omega arith,
      )
]

-- The decoder's push returns frames and errors for every buffer and every input: its loop ends, no
-- index and no slice of a round is out of bounds, at most max_buffered_bytes bytes stay in the
-- buffer, and the limits are kept.
pub push_total :
    (d : Decoder) (data' : Bytes)
    → (d' : Decoder) × (frames : List Frame) × (errors : List DecodeError) × (push d data'
        ≡ done d' frames errors)
      × (length d'.buffer ≤ d.max_buffered_bytes)
      × (d'.max_frame_size ≡ d.max_frame_size)
      × (d'.max_buffered_bytes ≡ d.max_buffered_bytes)
unfolding push
push_total d data' =
    let (rest, frames, errors, runs, size) =
      push_loop_ends d.max_frame_size (suc (length (d.buffer ++ data'))) (d.buffer ++ data') [] []
        (omega arith) in
    rw runs (limited rest frames errors)
  where
    limited :
        (rest : Bytes) (frames : List Frame) (errors : List DecodeError)
        → (d' : Decoder) × (fs : List Frame) × (es : List DecodeError) × (limit_buffer d
              (done rest frames errors)
            ≡ done d' fs es)
          × (length d'.buffer ≤ d.max_buffered_bytes)
          × (d'.max_frame_size ≡ d.max_frame_size)
          × (d'.max_buffered_bytes ≡ d.max_buffered_bytes)
    limited rest frames errors = elim (Bool-cases (ltb d.max_buffered_bytes (length rest))) [
      | inl over ↦ (
        record d { buffer = [] },
        frames,
        errors ++ record { kind = buffer_limit; raw = rest } ∷ [],
        ground arith,
        omega arith,
        refl,
        refl,
      )
      | inr fits ↦
          (record d { buffer = rest }, frames, errors, ground arith, ground arith, refl, refl)
    ]
