-- ===== src/Gt02/Command.antt =====
-- internal/protocol/gt02/command.go: the answer to a command, with the parts of unicode/utf16 and
-- unicode/utf8 that it uses. A Go string is its UTF-8 bytes.
pub mod Valid
use Prim.Native.String.{String}
use tallerp_telemetry.Base.{
  ℕ, zero, suc, ◌+◌, ◌-◌, ◌*◌, ◌/◌, ◌%◌, Bool, true, false, not, ◌||◌, ◌&&◌, drop, List, [], ◌∷◌,
  ◌++◌, ltb, leb, ◌==◌, if◌then◌else◌, length, get_or, Bytes, Outcome, ok, err, ◌>>=◌, ◌>>◌, guard,
  index, slice_from, uint32_at, be16, invalid_content,
}
use tallerp_telemetry.Gt06.Decoder.{GtFrame}
use tallerp_telemetry.Gt02.Types.{CommandResponsePacket}

-- `word < a || b <= word` is false.
abbrev pub between : ℕ → ℕ → ℕ → Bool
between a b word = leb a word && ltb word b

-- `utf16.Decode`: the code points, with U+FFFD for a surrogate that has no partner.
unfoldable pub utf16_decode : List ℕ → List ℕ
utf16_decode [] = []
utf16_decode (w ∷ []) = (if between 0xd800 0xe000 w then 0xfffd else w) ∷ []
utf16_decode (w ∷ v ∷ rest) =
    let single = utf16_decode (v ∷ rest) in
    let pair = utf16_decode rest in
    if between 0xd800 0xdc00 w && between 0xdc00 0xe000 v
    then ((w - 0xd800) * 1024 + (v - 0xdc00) + 0x10000) ∷ pair
    else (if between 0xd800 0xe000 w then 0xfffd else w) ∷ single

-- The UTF-8 bytes of a code point.
unfoldable pub utf8_encode : ℕ → Bytes
utf8_encode r =
    if ltb r 0x80
    then r ∷ []
    else if ltb r 0x800
    then (0xc0 + r / 64) ∷ (0x80 + r % 64) ∷ []
    else if ltb r 0x10000
    then (0xe0 + r / 4096) ∷ (0x80 + r / 64 % 64) ∷ (0x80 + r % 64) ∷ []
    else (0xf0 + r / 262144) ∷ (0x80 + r / 4096 % 64) ∷ (0x80 + r / 64 % 64) ∷ (0x80 + r % 64) ∷ []

-- `string(runes)`
unfoldable pub text_of : List ℕ → Bytes
text_of [] = []
text_of (r ∷ rest) = utf8_encode r ++ text_of rest

abbrev pub continues : ℕ → Bool
continues b = between 0x80 0xc0 b

-- The second byte's range depends on the first.
abbrev pub second_of_three : ℕ → ℕ → Bool
second_of_three a b =
    if a == 0xe0
    then between 0xa0 0xc0 b
    else if a == 0xed
    then between 0x80 0xa0 b
    else continues b

abbrev pub second_of_four : ℕ → ℕ → Bool
second_of_four a b =
    if a == 0xf0
    then between 0x90 0xc0 b
    else if a == 0xf4
    then between 0x80 0x90 b
    else continues b

-- `utf8.ValidString`, on fuel: a round for each byte is enough.
valid_from : ℕ → Bytes → Bool
valid_from zero text = length text == 0
valid_from (suc fuel) [] = true
valid_from (suc fuel) (a ∷ rest) =
    let one = valid_from fuel rest in
    let two = valid_from fuel (drop 1 rest) in
    let three = valid_from fuel (drop 2 rest) in
    let four = valid_from fuel (drop 3 rest) in
    let b = get_or rest 0 0 in
    let c = get_or rest 1 0 in
    let d = get_or rest 2 0 in
    if ltb a 0x80
    then one
    else if between 0xc2 0xe0 a
    then continues b && two
    else if between 0xe0 0xf0 a
    then second_of_three a b && (continues c && three)
    else if between 0xf0 0xf5 a
    then second_of_four a b && (continues c && (continues d && four))
    else false

unfoldable pub valid_string : Bytes → Bool
unfolding valid_from
valid_string text = valid_from (length text) text

-- `for _, value := range data`: whether no byte is above 0x7f.
is_ascii : Bytes → Bool
is_ascii [] = true
is_ascii (value ∷ rest) = not (ltb 0x7f value) && is_ascii rest

-- The loop over the words.
unfoldable pub words_of : Bytes → List ℕ
words_of [] = []
words_of (b ∷ []) = []
words_of (b ∷ c ∷ rest) = be16 b c ∷ words_of rest

-- The `switch` on the encoding: the text and the encoding's name.
unfoldable pub decode_response : ℕ → Bytes → Outcome (Bytes × String)
unfolding is_ascii words_of
decode_response encoding text =
    let content = text_of (utf16_decode (words_of text)) in
    if encoding == 0x01
    then (guard (is_ascii text) invalid_content >> ok (text, "ascii"))
    else if encoding == 0x02
    then (guard (length text % 2 == 0) invalid_content
        >> (guard (valid_string content) invalid_content >> ok (content, "utf16-be")))
    else err invalid_content

unfoldable pub parse_command_response : GtFrame → Bytes → Outcome CommandResponsePacket
parse_command_response frame imei = do
  guard (frame.protocol_number == 0x21) invalid_content
  guard
      ((length frame.header == 2)
        && ((get_or frame.header 0 0 == 0x79) && not (ltb (length frame.content) 5)))
      invalid_content
  server_flag ← uint32_at frame.content 0
  encoding ← index frame.content 4
  text ← slice_from frame.content 5
  decoded ← decode_response encoding text
  ok (record {
    imei = imei;
    server_flag = server_flag;
    encoding = decoded.1;
    content = decoded.0;
    serial = frame.serial;
  })
