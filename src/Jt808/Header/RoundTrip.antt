-- ===== src/Jt808/Header/RoundTrip.antt =====
-- internal/protocol/jt808/header.go and encode.go: `EncodeFrame` and `parseHeader` together.
use tallerp_telemetry.Base.{
  ℕ, ◌+◌, ◌/◌, ◌%◌, ◌≤◌, ◌<◌, ◌≡◌, refl, ◌∙◌, false, [], ◌∷◌, ◌++◌, arith, length, length-append,
  Bytes, ok, ltb, put16, be16, >>=-eq-ok, slice, slice_from, uint16_at, Bool-cases, ltb_false→le,
  le→ltb_false, inl, inr,
}
use tallerp_telemetry.Jt808.Types.{Frame}
use tallerp_telemetry.Jt808.Header.{
  parse_header, payload_of, encode_frame, wrap, decode_bcd, encode_bcd, pad_digits,
}
use tallerp_telemetry.Jt808.Header.Bcd.{decode_bcd-encode_bcd}

-- The frame that stands for an encoded message, but for the raw bytes and the checksum.
abbrev pub sent_header : ℕ → Bytes → ℕ → Bytes → Frame
sent_header message_id terminal_sn serial body = record {
  message_id = message_id;
  body_props = length body;
  encryption = 0;
  has_subpackage = false;
  terminal_sn = pad_digits 12 terminal_sn;
  message_serial = serial;
  total_packets = 0;
  packet_serial = 0;
  body = body;
  raw = [];
  checksum = 0;
}

-- The payload with its twelve header bytes written out.
parse_header-bytes :
    (m₁ m₂ p₁ p₂ a b c d e f s₁ s₂ : ℕ) (body sn : Bytes)
    → be16 p₁ p₂ ≡ length body
    → length body < 1024
    → decode_bcd (a ∷ b ∷ c ∷ d ∷ e ∷ f ∷ []) ≡ ok sn
    → parse_header (m₁ ∷ m₂ ∷ p₁ ∷ p₂ ∷ a ∷ b ∷ c ∷ d ∷ e ∷ f ∷ s₁ ∷ s₂ ∷ body)
      ≡ ok (record {
        message_id = be16 m₁ m₂;
        body_props = length body;
        encryption = 0;
        has_subpackage = false;
        terminal_sn = sn;
        message_serial = be16 s₁ s₂;
        total_packets = 0;
        packet_serial = 0;
        body = body;
        raw = [];
        checksum = 0;
      })
unfolding parse_header uint16_at slice slice_from
parse_header-bytes m₁ m₂ p₁ p₂ a b c d e f s₁ s₂ body sn hp hb hd = ground arith

parse_header-payload_of :
    (message_id serial : ℕ) (sn_bytes body sn : Bytes)
    → message_id < 65536
    → serial < 65536
    → length body < 1024
    → length sn_bytes ≡ 6
    → decode_bcd sn_bytes ≡ ok (pad_digits 12 sn)
    → parse_header (payload_of message_id sn_bytes serial body)
      ≡ ok (sent_header message_id sn serial body)
parse_header-payload_of m s (a ∷ b ∷ c ∷ d ∷ e ∷ f ∷ []) body sn hm hs hb hl hd =
    let n = length body in
    let size : be16 (n % 1024 / 256 % 256) (n % 1024 % 256) ≡ n = omega arith in
    let word : be16 (m / 256 % 256) (m % 256) ≡ m = omega arith in
    let mark : be16 (s / 256 % 256) (s % 256) ≡ s = omega arith in
    parse_header-bytes (m / 256 % 256) (m % 256) (n % 1024 / 256 % 256) (n % 1024 % 256) a b c d e f
      (s / 256 % 256) (s % 256) body (pad_digits 12 sn) size hb hd
    ∙ rw (word, mark)
parse_header-payload_of m s [] body sn hm hs hb hl hd = absurd (omega arith)
parse_header-payload_of m s (a ∷ []) body sn hm hs hb hl hd = absurd (omega arith)
parse_header-payload_of m s (a ∷ b ∷ []) body sn hm hs hb hl hd = absurd (omega arith)
parse_header-payload_of m s (a ∷ b ∷ c ∷ []) body sn hm hs hb hl hd = absurd (omega arith)
parse_header-payload_of m s (a ∷ b ∷ c ∷ d ∷ []) body sn hm hs hb hl hd = absurd (omega arith)
parse_header-payload_of m s (a ∷ b ∷ c ∷ d ∷ e ∷ []) body sn hm hs hb hl hd = absurd (omega arith)
parse_header-payload_of m s (a ∷ b ∷ c ∷ d ∷ e ∷ f ∷ g ∷ r) body sn hm hs hb hl hd =
    absurd (omega arith)

-- What an encoding that succeeds has wrapped.
pub record Encoded (message_id : ℕ) (sn : Bytes) (serial : ℕ) (body wire : Bytes) : Type 0 where
  pub payload : Bytes
  pub wraps : wire ≡ wrap payload
  pub long : 12 ≤ length payload
  pub size : length payload ≡ 12 + length body
  pub small : length body ≤ 1023
  pub reads : parse_header payload ≡ ok (sent_header message_id sn serial body)

Encoded-wrap :
    (m s : ℕ) (sn sn_bytes body : Bytes)
    → m < 65536
    → s < 65536
    → length body ≤ 1023
    → encode_bcd sn 6 ≡ ok sn_bytes
    → Encoded m sn s body (wrap (payload_of m sn_bytes s body))
Encoded-wrap m s sn sn_bytes body hm hs small packed =
    let (decoded, six, _) = decode_bcd-encode_bcd sn sn_bytes 6 packed in
    let size : length (payload_of m sn_bytes s body) ≡ 12 + length body =
      omega (arith, six, length-append sn_bytes (put16 s ++ body)) in
    record {
      payload = payload_of m sn_bytes s body;
      wraps = refl;
      long = omega (arith, size);
      size = size;
      small = small;
      reads = parse_header-payload_of m s sn_bytes body sn hm hs (omega arith) six decoded;
    }

-- A frame that is encoded, its ID and serial below 65536, has a body of at most 1023 bytes and
-- wraps a payload whose header and body the parser reads back as the message's ID, its serial
-- number padded to twelve digits, its message serial and its body.
pub encode_frame-Encoded :
    (message_id : ℕ) (sn : Bytes) (serial : ℕ) (body wire : Bytes)
    → message_id < 65536
    → serial < 65536
    → encode_frame message_id sn serial body ≡ ok wire
    → Encoded message_id sn serial body wire
unfolding encode_frame
encode_frame-Encoded m sn s body wire hm hs h = elim (Bool-cases (ltb 1023 (length body))) [
  | inl long ↦ cc (rw long at h)
  | inr fits ↦
      let (sn_bytes, packed, made) =
        >>=-eq-ok (encode_bcd sn 6) (λ b. ok (wrap (payload_of m b s body))) (rw fits at h) in
      let same : wrap (payload_of m sn_bytes s body) ≡ wire = cc made in
      rw (← same) (Encoded-wrap m s sn sn_bytes body hm hs (ltb_false→le _ _ fits) packed)
]

-- `encode_frame` succeeds on a short body and a serial number that packs.
pub encode_frame_total :
    (message_id : ℕ) (sn : Bytes) (serial : ℕ) (body packed : Bytes)
    → length body ≤ 1023
    → encode_bcd sn 6 ≡ ok packed
    → encode_frame message_id sn serial body ≡ ok (wrap (payload_of message_id packed serial body))
unfolding encode_frame
encode_frame_total m sn s body packed hb h = rw (le→ltb_false 1023 (length body) hb, h)
