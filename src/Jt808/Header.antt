-- ===== src/Jt808/Header.antt =====
-- internal/protocol/jt808/header.go and encode.go: BCD digits, the message header and whole frames.
pub mod Bcd
pub mod Safety
pub mod RoundTrip
use tallerp_telemetry.Base.{
  ℕ, zero, suc, ◌+◌, ◌-◌, ◌*◌, ◌/◌, ◌%◌, Bool, true, false, not, ◌||◌, List, [], ◌∷◌, ◌++◌, ltb,
  ◌==◌, if◌then◌else◌, length, replicate, Bytes, Outcome, ok, err, panic, ◌>>=◌, ◌>>◌, guard, slice,
  slice_from, uint16_at, put16, bit_at, truncated_frame, invalid_bcd, body_too_long,
  digits_too_long,
}
use tallerp_telemetry.Jt808.Types.{
  Frame, delimiter, body_length_mask, low_ten, min_header_length, subpackage_header_length,
}
use tallerp_telemetry.Jt808.Escape.{escape, calculate_checksum}

-- The loop of `decodeBCD`. `value >> 4` is `value / 16`, and `value & 0x0f` is `value % 16`.
decode_onto : Bytes → Bytes → Outcome Bytes
decode_onto digits [] = ok digits
decode_onto digits (value ∷ rest) =
    let more = decode_onto (digits ++ (b'0' + value / 16) ∷ (b'0' + value % 16) ∷ []) rest in
    if ltb 9 (value / 16) || ltb 9 (value % 16) then err invalid_bcd else more

unfoldable pub decode_bcd : Bytes → Outcome Bytes
unfolding decode_onto
decode_bcd = decode_onto []

-- The loop of `encodeBCD` over the pairs of digits, `n` of them left.
pack_onto : Bytes → ℕ → Bytes → Outcome Bytes
pack_onto out zero digits = ok out
pack_onto out (suc n) [] = panic
pack_onto out (suc n) (hi ∷ []) = panic
pack_onto out (suc n) (hi ∷ lo ∷ rest) =
    let more = pack_onto (out ++ ((hi - b'0') * 16 + (lo - b'0')) ∷ []) n rest in
    if ltb hi b'0' || ltb b'9' hi || ltb lo b'0' || ltb b'9' lo then err invalid_bcd else more

-- The digits, with zeros in front up to `want` of them.
abbrev pub pad_digits : ℕ → Bytes → Bytes
pad_digits want digits = replicate (want - length digits) b'0' ++ digits

unfoldable pub encode_bcd : Bytes → ℕ → Outcome Bytes
unfolding pack_onto
encode_bcd digits byte_len =
    if ltb (byte_len * 2) (length digits)
    then err digits_too_long
    else pack_onto [] byte_len (pad_digits (byte_len * 2) digits)

-- Total packets and packet serial, both 0 without the subpackage bit, and where the body starts.
subpackage_fields : Bytes → Bool → Outcome (ℕ × ℕ × ℕ)
subpackage_fields payload false = ok (0, 0, min_header_length)
subpackage_fields payload true = do
  guard (not (ltb (length payload) subpackage_header_length)) truncated_frame
  total_packets ← uint16_at payload 12
  packet_serial ← uint16_at payload 14
  ok (total_packets, packet_serial, subpackage_header_length)

-- The frame built at the end, once the body's length is right.
finish_header : Bytes → ℕ → ℕ → Bytes → ℕ → ℕ × ℕ × ℕ → Outcome Frame
finish_header payload message_id body_props terminal_sn serial (total, packet, header_length) = do
  body ← slice_from payload header_length
  guard (length body == low_ten body_props) truncated_frame
  ok (record {
    message_id = message_id;
    body_props = body_props;
    encryption = body_props / 1024 % 8;
    has_subpackage = bit_at body_props 0x2000;
    terminal_sn = terminal_sn;
    message_serial = serial;
    total_packets = total;
    packet_serial = packet;
    body = body;
    raw = [];
    checksum = 0;
  })

unfoldable pub parse_header : Bytes → Outcome Frame
unfolding subpackage_fields finish_header
parse_header payload = do
  guard (not (ltb (length payload) min_header_length)) truncated_frame
  message_id ← uint16_at payload 0
  body_props ← uint16_at payload 2
  sn_bytes ← slice payload 4 10
  terminal_sn ← decode_bcd sn_bytes
  serial ← uint16_at payload 10
  fields ← subpackage_fields payload (bit_at body_props 0x2000)
  finish_header payload message_id body_props terminal_sn serial fields

-- The header and the body of `EncodeFrame`, without the checksum.
abbrev pub payload_of : ℕ → Bytes → ℕ → Bytes → Bytes
payload_of message_id sn_bytes serial body =
    put16 message_id ++ (put16 (low_ten (length body)) ++ (sn_bytes ++ (put16 serial ++ body)))

-- The checksum is appended, the whole is stuffed, and the delimiters go round it.
unfoldable pub wrap : Bytes → Bytes
wrap payload = delimiter ∷ (escape (payload ++ calculate_checksum payload ∷ []) ++ delimiter ∷ [])

unfoldable pub encode_frame : ℕ → Bytes → ℕ → Bytes → Outcome Bytes
unfolding wrap
encode_frame message_id terminal_sn serial body = do
  guard (not (ltb body_length_mask (length body))) body_too_long
  sn_bytes ← encode_bcd terminal_sn 6
  ok (wrap (payload_of message_id sn_bytes serial body))
