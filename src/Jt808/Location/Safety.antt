-- ===== src/Jt808/Location/Safety.antt =====
-- internal/protocol/jt808/location.go: the reads of the report's parser.
use tallerp_telemetry.Base.{
  ℕ, ◌+◌, ◌-◌, ◌*◌, ◌≤◌, ◌≡◌, ◌≢◌, refl, arith, ◌==◌, length, get_or, Bytes, ok, panic, ◌>>=◌,
  >>=-ne-panic, index_lem, slice, slice_from, uint16_at, uint32_at, take, drop, Bool-cases, inl,
  inr,
}
use tallerp_telemetry.Telemetry.{date}
use tallerp_telemetry.Jt808.Header.{decode_bcd}
use tallerp_telemetry.Jt808.Header.Safety.{decode_bcd-ne-panic, length-decode_bcd}
use tallerp_telemetry.Jt808.AdditionalInfo.Items.{parse_additional_items-ne-panic}
use tallerp_telemetry.Jt808.Location.{two_digits, decode_bcd_time, parse_location}

-- Twelve digits are enough for the reads.
two_digits_lem :
    (digits : Bytes) (i : ℕ) → i + 2 ≤ length digits → (n : ℕ) × (two_digits digits i ≡ ok n)
unfolding two_digits
two_digits_lem digits i h = (
  (get_or digits i 0 - b'0') * 10 + (get_or digits (i + 1) 0 - b'0'),
  rw (index_lem digits i (omega arith), index_lem digits (i + 1) (omega arith)) refl,
)

digits-ne-panic :
    (text digits : Bytes)
    → length digits ≡ 12
    → (do
      year ← two_digits digits 0
      month ← two_digits digits 2
      day ← two_digits digits 4
      hour ← two_digits digits 6
      minute ← two_digits digits 8
      second ← two_digits digits 10
      ok (date (2000 + year) month day hour minute second))
      ≢ panic
digits-ne-panic text digits h =
    let (a, p) = two_digits_lem digits 0 (omega arith) in
    let (b, q) = two_digits_lem digits 2 (omega arith) in
    let (c, r) = two_digits_lem digits 4 (omega arith) in
    let (d, s) = two_digits_lem digits 6 (omega arith) in
    let (e, t) = two_digits_lem digits 8 (omega arith) in
    let (f, u) = two_digits_lem digits 10 (omega arith) in rw (p, q, r, s, t, u) (λ x. cc)

decode_bcd_time-ne-panic : (text : Bytes) → decode_bcd_time text ≢ panic
unfolding decode_bcd_time
decode_bcd_time-ne-panic text = elim (Bool-cases (length text == 6)) [
  | inr other ↦ rw other (λ x. cc)
  | inl six ↦ rw six (
      >>=-ne-panic (decode_bcd text) _ (decode_bcd-ne-panic text)
        (λ digits e. digits-ne-panic text digits (ground (arith, length-decode_bcd text digits e))))
]

-- The parser of a location report does not panic, whatever the bytes are.
pub parse_location-ne-panic : (body : Bytes) → parse_location body ≢ panic
unfolding parse_location uint32_at uint16_at slice slice_from
parse_location-ne-panic body = ground (
  arith,
  decode_bcd_time-ne-panic (take 6 (drop 22 body)),
  parse_additional_items-ne-panic (drop 28 body),
)
