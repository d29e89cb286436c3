-- ===== src/Jt808/Escape.antt =====
-- internal/protocol/jt808/escape.go and checksum.go: byte stuffing and the XOR check code.
pub mod RoundTrip
use Prim.Native.Nat.{bit_xor}
use tallerp_telemetry.Base.{
  ℕ, List, [], ◌∷◌, ◌++◌, ◌==◌, if◌then◌else◌, Bytes, Outcome, ok, err, invalid_escape, ◌>>=◌,
}
use tallerp_telemetry.Jt808.Types.{delimiter, escape_byte, escaped_delimiter, escaped_escape}

-- What the loop of `Escape` appends for one byte.
pub stuffed : ℕ → Bytes
stuffed value =
    if value == delimiter
    then escape_byte ∷ escaped_delimiter ∷ []
    else if value == escape_byte
    then escape_byte ∷ escaped_escape ∷ []
    else value ∷ []

escape_onto : Bytes → Bytes → Bytes
escape_onto escaped [] = escaped
escape_onto escaped (value ∷ rest) = escape_onto (escaped ++ stuffed value) rest

unfoldable pub escape : Bytes → Bytes
unfolding escape_onto stuffed
escape = escape_onto []

-- The byte that `escape_byte` and `code` stand for.
unstuffed : ℕ → Outcome ℕ
unstuffed code =
    if code == escaped_delimiter
    then ok delimiter
    else if code == escaped_escape
    then ok escape_byte
    else err invalid_escape

-- The loop of `Unescape`; a pair of bytes is taken in one round, as `i++` in the body does.
unescape_onto : Bytes → Bytes → Outcome Bytes
unescape_onto unescaped [] = ok unescaped
unescape_onto unescaped (value ∷ []) =
    if value == delimiter
    then err invalid_escape
    else if value == escape_byte
    then err invalid_escape
    else ok (unescaped ++ (value ∷ []))
unescape_onto unescaped (value ∷ code ∷ rest) =
    let plain = unescape_onto (unescaped ++ (value ∷ [])) (code ∷ rest) in
    let pair = unstuffed code >>= λ byte. unescape_onto (unescaped ++ (byte ∷ [])) rest in
    if value == delimiter then err invalid_escape else if value == escape_byte then pair else plain

unfoldable pub unescape : Bytes → Outcome Bytes
unfolding unescape_onto unstuffed
unescape = unescape_onto []

checksum_from : ℕ → Bytes → ℕ
checksum_from checksum [] = checksum
checksum_from checksum (value ∷ rest) = checksum_from (bit_xor checksum value) rest

unfoldable pub calculate_checksum : Bytes → ℕ
unfolding checksum_from
calculate_checksum = checksum_from 0
