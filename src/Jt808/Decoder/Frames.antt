-- ===== src/Jt808/Decoder/Frames.antt =====
-- internal/protocol/jt808/decoder.go: one round of the loop on one encoded frame, and on the
-- delimiters between frames.
use tallerp_telemetry.Base.{
  ℕ, suc, ◌+◌, ◌-◌, ◌≤◌, ◌<◌, ◌≡◌, refl, ◌∙◌, ap, false, [], ◌∷◌, ◌++◌, arith, ◌==◌, length,
  length-append, take, drop, get_or, take-append, drop-append, Bytes, ok, append_assoc,
  le→ltb_false, ==_self,
}
use tallerp_telemetry.Jt808.Types.{Frame, delimiter}
use tallerp_telemetry.Jt808.Escape.{escape, calculate_checksum}
use tallerp_telemetry.Jt808.Escape.RoundTrip.{
  NoDelimiter, escape-NoDelimiter, length-escape, unescape-escape,
}
use tallerp_telemetry.Jt808.Header.{parse_header, wrap}
use tallerp_telemetry.Jt808.Decoder.{
  index_byte, accept, checked, judge, wait, next, judged, round, headed,
}
use tallerp_telemetry.Jt808.Decoder.Reads.{
  plain_closed, plain_framed, plain_discarded, plain_round, round-plain, checked_lem,
}
use tallerp_telemetry.Jt808.Decoder.Search.{index_byte_first}

get_or-append : (xs : Bytes) (x : ℕ) → get_or (xs ++ x ∷ []) (length xs) 0 ≡ x
get_or-append [] x = refl
get_or-append (y ∷ xs) x = get_or-append xs x

-- The bytes of one frame, `inner` between two delimiters.
abbrev between : Bytes → Bytes
between inner = delimiter ∷ (inner ++ delimiter ∷ [])

take-between :
    (n : ℕ) (inner rest : Bytes)
    → n ≡ length inner
    → take (n + 1 + 1) (delimiter ∷ (inner ++ delimiter ∷ rest)) ≡ between inner
take-between n inner rest e =
    let two : n + 1 + 1 ≡ suc (length (inner ++ delimiter ∷ [])) =
      omega (arith, length-append inner (delimiter ∷ [])) in
    rw (two, ← append_assoc inner (delimiter ∷ []) rest)
      (ap (◌∷◌ delimiter) (take-append (inner ++ delimiter ∷ []) rest))

drop-between :
    (n : ℕ) (inner rest : Bytes)
    → n ≡ length inner
    → drop (n + 1) (delimiter ∷ (inner ++ delimiter ∷ rest)) ≡ delimiter ∷ rest
drop-between n inner rest e =
    let one : n + 1 ≡ suc (length inner) = omega arith in
    rw one (drop-append inner (delimiter ∷ rest))

closed-between :
    (max : ℕ) (inner rest : Bytes)
    → 0 < length inner
    → plain_closed max [] (delimiter ∷ (inner ++ delimiter ∷ rest)) (length inner)
      ≡ judged (judge max (between inner) inner) (between inner) (delimiter ∷ rest) []
unfolding plain_closed
closed-between max inner rest h =
    let more : (length inner + 1 == 1) ≡ false = ground arith in
    rw (
      more,
      take-between (length inner) inner rest refl,
      drop-between (length inner) inner rest refl,
      take-append inner (delimiter ∷ rest),
    )

-- A plain_round on a frame that starts the buffer.
round-between :
    (max : ℕ) (inner rest : Bytes)
    → NoDelimiter inner
    → 0 < length inner
    → plain_round max (delimiter ∷ (inner ++ delimiter ∷ rest))
      ≡ judged (judge max (between inner) inner) (between inner) (delimiter ∷ rest) []
unfolding plain_round plain_framed index_byte plain_discarded
round-between max inner rest free h =
    rw (index_byte_first delimiter inner rest free, plain_framed) (closed-between max inner rest h)

-- A payload with its check code, once unescaped.
checked-payload :
    (raw payload : Bytes) (frame : Frame)
    → 12 ≤ length payload
    → parse_header payload ≡ ok frame
    → checked raw (ok (payload ++ calculate_checksum payload ∷ []))
      ≡ accept (record frame { checksum = calculate_checksum payload; raw = raw })
unfolding headed
checked-payload raw payload frame long h =
    let code = calculate_checksum payload in
    let size : length (payload ++ code ∷ []) ≡ suc (length payload) =
      omega (arith, length-append payload (code ∷ [])) in
    let before : suc (length payload) - 1 ≡ length payload = omega arith in
    rw (
      checked_lem,
      size,
      before,
      take-append payload (code ∷ []),
      get_or-append payload code,
      le→ltb_false (suc (length payload)) 13 (omega arith),
      ==_self code,
      h,
    )

judge-wrap :
    (max : ℕ) (payload : Bytes) (frame : Frame)
    → 12 ≤ length payload
    → parse_header payload ≡ ok frame
    → length (wrap payload) ≤ max
    → judge max (wrap payload) (escape (payload ++ calculate_checksum payload ∷ []))
      ≡ accept (record frame { checksum = calculate_checksum payload; raw = wrap payload })
unfolding judge
judge-wrap max payload frame long h fits =
    rw (le→ltb_false max (length (wrap payload)) fits, unescape-escape)
      (checked-payload (wrap payload) payload frame long h)

-- A round on a wrapped payload accepts it and keeps the closing delimiter.
pub round-wrap :
    (max : ℕ) (payload rest : Bytes) (frame : Frame)
    → 12 ≤ length payload
    → parse_header payload ≡ ok frame
    → length (wrap payload) ≤ max
    → round max (wrap payload ++ rest)
      ≡ next
          (delimiter ∷ rest)
          (record frame { checksum = calculate_checksum payload; raw = wrap payload } ∷ [])
          []
unfolding wrap judged
round-wrap max payload rest frame long h fits =
    let inner = escape (payload ++ calculate_checksum payload ∷ []) in
    rw (append_assoc inner (delimiter ∷ []) rest) (
      round-plain max _
      ∙ round-between max inner rest (escape-NoDelimiter _) some_bytes
      ∙ rw (judge-wrap max payload frame long h fits))
  where
    some_bytes : 0 < length (escape (payload ++ calculate_checksum payload ∷ []))
    some_bytes = omega (
      arith,
      length-escape (payload ++ calculate_checksum payload ∷ []),
      length-append payload (calculate_checksum payload ∷ []),
    )

-- A second delimiter in front of a frame is dropped.
pub round-two_delimiters :
    (max : ℕ) (rest : Bytes)
    → round max (delimiter ∷ delimiter ∷ rest) ≡ next (delimiter ∷ rest) [] []
unfolding plain_round plain_framed plain_closed index_byte plain_discarded
round-two_delimiters max rest = round-plain max (delimiter ∷ delimiter ∷ rest)

pub round-delimiter : (max : ℕ) → round max (delimiter ∷ []) ≡ wait (delimiter ∷ []) []
unfolding plain_round plain_framed index_byte plain_discarded
round-delimiter max = round-plain max (delimiter ∷ [])
