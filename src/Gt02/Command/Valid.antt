-- ===== src/Gt02/Command/Valid.antt =====
-- internal/protocol/gt02/command.go: the texts that a terminal's answer decodes to.
use tallerp_telemetry.Base.{
  ℕ, zero, suc, ◌+◌, ◌-◌, ◌*◌, ◌%◌, ◌≤◌, ◌<◌, ◌⊎◌, ◌≡◌, ◌≢◌, refl, be32, ◌∙◌, arith, if◌then◌else◌,
  ◌&&◌, either_side, true, List, [], ◌∷◌, ◌++◌, length, length-append, Bytes, ok, panic, index,
  slice_from, uint32_at, get_or, drop, IsByte, All,
}
use tallerp_telemetry.Gt06.Decoder.{GtFrame}
use tallerp_telemetry.Gt02.Command.{
  between, utf16_decode, utf8_encode, text_of, valid_from, valid_string, words_of, decode_response,
  parse_command_response,
}

pub decode_response-ne-panic : (encoding : ℕ) (text : Bytes) → decode_response encoding text ≢ panic
unfolding decode_response
decode_response-ne-panic encoding text = ground arith

pub parse_command_response-ne-panic :
    (frame : GtFrame) (imei : Bytes) → parse_command_response frame imei ≢ panic
unfolding parse_command_response index slice_from uint32_at
parse_command_response-ne-panic frame imei =
    ground (arith, decode_response-ne-panic (get_or frame.content 4 0) (drop 5 frame.content))

-- A code point that is no surrogate.
IsScalar : ℕ → Type 0
IsScalar r = (r < 0xd800) ⊎ ((0xe000 ≤ r) × (r < 0x110000))

valid_from-utf8_encode :
    (r fuel : ℕ) (rest : Bytes)
    → IsScalar r
    → valid_from (suc fuel) (utf8_encode r ++ rest) ≡ valid_from fuel rest
unfolding utf8_encode valid_from IsScalar
valid_from-utf8_encode r fuel rest h = ground arith

paired :
    (w v : ℕ)
    → (between 0xd800 0xdc00 w && between 0xdc00 0xe000 v) ≡ true
    → IsScalar ((w - 0xd800) * 1024 + (v - 0xdc00) + 0x10000)
unfolding IsScalar
paired w v h = ground arith

single : (w : ℕ) → w < 65536 → IsScalar (if between 0xd800 0xe000 w then 0xfffd else w)
unfolding IsScalar
single w h = ground arith

utf8_encode-length : (r : ℕ) → 1 ≤ length (utf8_encode r)
unfolding utf8_encode
utf8_encode-length r = ground arith

utf16_decode-scalars : (ws : List ℕ) → All (λ w. w < 65536) ws → All IsScalar (utf16_decode ws)
unfolding utf16_decode IsScalar
utf16_decode-scalars [] h = tt
utf16_decode-scalars (w ∷ []) h = (single w h.0, tt)
utf16_decode-scalars (w ∷ v ∷ rest) h =
    either_side (All IsScalar) (between 0xd800 0xdc00 w && between 0xdc00 0xe000 v)
      (λ pair. (paired w v pair, utf16_decode-scalars rest h.1.1))
      (λ _. (single w h.0, utf16_decode-scalars (v ∷ rest) h.1))

text_of-valid :
    (rs : List ℕ) (fuel : ℕ)
    → All IsScalar rs
    → length (text_of rs) ≤ fuel
    → valid_from fuel (text_of rs) ≡ true
unfolding text_of valid_from utf8_encode
text_of-valid [] zero h fits = refl
text_of-valid [] (suc fuel) h fits = refl
text_of-valid (r ∷ rs) zero h fits =
    absurd (omega (arith, length-append (utf8_encode r) (text_of rs), utf8_encode-length r))
text_of-valid (r ∷ rs) (suc fuel) h fits =
    valid_from-utf8_encode r fuel (text_of rs) h.0
    ∙ text_of-valid rs fuel h.1
        (omega (arith, length-append (utf8_encode r) (text_of rs), utf8_encode-length r))

words_of-small : (text : Bytes) → All IsByte text → All (λ w. w < 65536) (words_of text)
unfolding words_of
words_of-small [] h = tt
words_of-small (b ∷ []) h = tt
words_of-small (b ∷ c ∷ rest) h = (omega arith, words_of-small rest h.1.1)

-- What the decoder of unicode/utf16 returns is valid UTF-8.
decode_response_utf16 :
    (text : Bytes)
    → All IsByte text
    → length text % 2 ≡ 0
    → decode_response 0x02 text ≡ ok (text_of (utf16_decode (words_of text)), "utf16-be")
unfolding decode_response valid_string
decode_response_utf16 text bytes even =
    let content = text_of (utf16_decode (words_of text)) in
    let valid =
      text_of-valid (utf16_decode (words_of text)) (length content)
        (utf16_decode-scalars (words_of text) (words_of-small text bytes)) (omega arith) in
    rw (even, valid) refl

-- A command response with an extended header, whose content is a server flag, the encoding 0x02
-- and an even number of bytes, is accepted with the text that they decode to, surrogates without
-- a partner replaced: the test of the UTF-8 text that follows never fails.
pub parse_command_response_utf16 :
    (frame : GtFrame) (imei : Bytes) (h a b c d : ℕ) (text : Bytes)
    → frame.protocol_number ≡ 0x21
    → frame.header ≡ 0x79 ∷ h ∷ []
    → frame.content ≡ a ∷ b ∷ c ∷ d ∷ 0x02 ∷ text
    → All IsByte text
    → length text % 2 ≡ 0
    → parse_command_response frame imei
      ≡ ok (record {
        imei = imei;
        server_flag = be32 a b c d;
        encoding = "utf16-be";
        content = text_of (utf16_decode (words_of text));
        serial = frame.serial;
      })
unfolding parse_command_response index slice_from uint32_at
parse_command_response_utf16 frame imei h a b c d text number header content bytes even =
    rw (number, header, content) ground (arith, decode_response_utf16 text bytes even)
