-- ===== src/Jt808/Header/Safety.antt =====
-- internal/protocol/jt808/header.go and encode.go: the reads of the header functions.
use tallerp_telemetry.Base.{
  ℕ, zero, suc, ◌≡◌, ◌≢◌, ◌+◌, ◌*◌, ◌/◌, ◌%◌, ◌-◌, [], ◌∷◌, ◌++◌, arith, length, take, drop, Bytes,
  ok, panic, ltb, replicate, length-replicate, length-append, Bool-cases, inl, inr, ltb_false→le,
  slice, slice_from, uint16_at,
}
use tallerp_telemetry.Jt808.Header.{
  decode_onto, decode_bcd, parse_header, pack_onto, pad_digits, encode_bcd, encode_frame,
}

decode_onto-ne-panic : (value digits : Bytes) → decode_onto digits value ≢ panic
unfolding decode_onto
decode_onto-ne-panic [] digits = λ p. cc
decode_onto-ne-panic (v ∷ rest) digits =
    ground (arith, decode_onto-ne-panic rest (digits ++ (b'0' + v / 16) ∷ (b'0' + v % 16) ∷ []))

pub decode_bcd-ne-panic : (value : Bytes) → decode_bcd value ≢ panic
unfolding decode_bcd
decode_bcd-ne-panic value = decode_onto-ne-panic value []

decode_onto-length :
    (value digits out : Bytes)
    → decode_onto digits value ≡ ok out
    → length out ≡ length digits + 2 * length value
unfolding decode_onto
decode_onto-length [] digits out h = let same : digits ≡ out = cc in rw same (omega arith)
decode_onto-length (v ∷ rest) digits out h =
    let longer = digits ++ (b'0' + v / 16) ∷ (b'0' + v % 16) ∷ [] in
    let size : length longer ≡ length digits + 2 =
      omega (arith, length-append digits ((b'0' + v / 16) ∷ (b'0' + v % 16) ∷ [])) in
    ground (arith, decode_onto-length rest longer out)

-- Two digits for each byte.
pub length-decode_bcd :
    (value digits : Bytes) → decode_bcd value ≡ ok digits → length digits ≡ 2 * length value
unfolding decode_bcd
length-decode_bcd value digits h = omega (arith, decode_onto-length value [] digits h)

-- The header parser does not panic, whatever the payload is.
pub parse_header-ne-panic : (payload : Bytes) → parse_header payload ≢ panic
unfolding parse_header uint16_at slice slice_from
parse_header-ne-panic payload = ground (arith, decode_bcd-ne-panic (take 6 (drop 4 payload)))

pack_onto-ne-panic :
    (n : ℕ) (out digits : Bytes) → length digits ≡ n * 2 → pack_onto out n digits ≢ panic
unfolding pack_onto
pack_onto-ne-panic zero out digits h = λ p. cc
pack_onto-ne-panic (suc n) out [] h = absurd (omega arith)
pack_onto-ne-panic (suc n) out (hi ∷ []) h = absurd (omega arith)
pack_onto-ne-panic (suc n) out (hi ∷ lo ∷ rest) h =
    ground (arith, pack_onto-ne-panic n (out ++ ((hi - b'0') * 16 + (lo - b'0')) ∷ []) rest)

encode_bcd-ne-panic : (digits : Bytes) (size : ℕ) → encode_bcd digits size ≢ panic
unfolding encode_bcd
encode_bcd-ne-panic digits size = elim (Bool-cases (ltb (size * 2) (length digits))) [
  | inl long ↦ rw long (λ p. cc)
  | inr fits ↦
      let enough = ltb_false→le _ _ fits in
      let zeros = length-replicate {A = ℕ} (size * 2 - length digits) b'0' in
      let all = length-append (replicate (size * 2 - length digits) b'0') digits in
      rw fits
        (pack_onto-ne-panic size [] (pad_digits (size * 2) digits) (omega (arith, zeros, all)))
]

pub encode_frame-ne-panic :
    (message_id : ℕ) (terminal_sn : Bytes) (serial : ℕ) (body : Bytes)
    → encode_frame message_id terminal_sn serial body ≢ panic
unfolding encode_frame
encode_frame-ne-panic message_id terminal_sn serial body =
    ground (arith, encode_bcd-ne-panic terminal_sn 6)
