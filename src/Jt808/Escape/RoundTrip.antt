-- ===== src/Jt808/Escape/RoundTrip.antt =====
-- internal/protocol/jt808/escape.go: `Escape` and `Unescape` together.
use tallerp_telemetry.Base.{
  ℕ, ◌*◌, ◌≤◌, ◌≡◌, ◌≢◌, refl, sym, ◌∙◌, ap, [], ◌∷◌, ◌++◌, arith, length, length-append, All,
  All-append, Bytes, ok, append-nil, append_assoc, panic,
}
use tallerp_telemetry.Jt808.Types.{delimiter, escape_byte}
use tallerp_telemetry.Jt808.Escape.{
  stuffed, escape_onto, escape, unstuffed, unescape_onto, unescape,
}

-- `escape` with no accumulator.
abbrev pub stuffing : Bytes → Bytes
stuffing [] = []
stuffing (value ∷ rest) = stuffed value ++ stuffing rest

escape_onto-stuffing :
    (escaped data' : Bytes) → escape_onto escaped data' ≡ escaped ++ stuffing data'
unfolding escape_onto
escape_onto-stuffing escaped [] = sym (append-nil escaped)
escape_onto-stuffing escaped (value ∷ rest) =
    escape_onto-stuffing (escaped ++ stuffed value) rest
    ∙ append_assoc escaped (stuffed value) (stuffing rest)

pub escape-stuffing : (data' : Bytes) → escape data' ≡ stuffing data'
unfolding escape
escape-stuffing data' = escape_onto-stuffing [] data'

abbrev pub NoDelimiter : Bytes → Type 0
NoDelimiter = All (λ b. b ≢ delimiter)

stuffed-NoDelimiter : (value : ℕ) → NoDelimiter (stuffed value)
unfolding stuffed
stuffed-NoDelimiter value = ground arith

stuffing-NoDelimiter : (data' : Bytes) → NoDelimiter (stuffing data')
stuffing-NoDelimiter [] = tt
stuffing-NoDelimiter (value ∷ rest) =
    All-append _ (stuffed value) (stuffing rest) (stuffed-NoDelimiter value)
      (stuffing-NoDelimiter rest)

-- Stuffed bytes have no delimiter among them.
pub escape-NoDelimiter : (data' : Bytes) → NoDelimiter (escape data')
escape-NoDelimiter data' = rw escape-stuffing (stuffing-NoDelimiter data')

length-stuffed : (value : ℕ) → (1 ≤ length (stuffed value)) × (length (stuffed value) ≤ 2)
unfolding stuffed
length-stuffed value = ground arith

length-stuffing :
    (data' : Bytes)
    → (length data' ≤ length (stuffing data')) × (length (stuffing data') ≤ 2 * length data')
length-stuffing [] = omega arith
length-stuffing (value ∷ rest) =
    rw length-append (omega (arith, length-stuffed value, length-stuffing rest))

pub length-escape :
    (data' : Bytes)
    → (length data' ≤ length (escape data')) × (length (escape data') ≤ 2 * length data')
length-escape data' = rw escape-stuffing (length-stuffing data')

-- One round on a byte that stands for itself.
unescape_onto-plain :
    (value : ℕ) (out rest : Bytes)
    → value ≢ delimiter
    → value ≢ escape_byte
    → unescape_onto out (value ∷ rest) ≡ unescape_onto (out ++ (value ∷ [])) rest
unfolding unescape_onto
unescape_onto-plain value out [] h k = ground arith
unescape_onto-plain value out (c ∷ rest) h k = ground arith

unescape_onto-stuffed :
    (value : ℕ) (out rest : Bytes)
    → unescape_onto out (stuffed value ++ rest) ≡ unescape_onto (out ++ (value ∷ [])) rest
unfolding unescape_onto stuffed unstuffed
unescape_onto-stuffed value out rest = ground (arith, unescape_onto-plain value out rest)

unescape_onto-stuffing :
    (data' out : Bytes) → unescape_onto out (stuffing data') ≡ ok (out ++ data')
unescape_onto-stuffing [] out = rw append-nil (unfold unescape_onto in refl)
unescape_onto-stuffing (value ∷ rest) out =
    unescape_onto-stuffed value out (stuffing rest)
    ∙ unescape_onto-stuffing rest (out ++ (value ∷ []))
    ∙ ap ok (append_assoc out (value ∷ []) rest)

-- Removing the byte stuffing gives back the bytes that were stuffed.
pub unescape-escape : (data' : Bytes) → unescape (escape data') ≡ ok data'
unfolding unescape
unescape-escape data' = rw escape-stuffing (unescape_onto-stuffing data' [])

unescape_onto-ne-panic : (data' out : Bytes) → unescape_onto out data' ≢ panic
unfolding unescape_onto unstuffed
unescape_onto-ne-panic [] out = λ p. cc
unescape_onto-ne-panic (value ∷ []) out = ground arith
unescape_onto-ne-panic (value ∷ code ∷ rest) out = ground (
  arith,
  unescape_onto-ne-panic (code ∷ rest) (out ++ value ∷ []),
  unescape_onto-ne-panic rest (out ++ delimiter ∷ []),
  unescape_onto-ne-panic rest (out ++ escape_byte ∷ []),
)

pub unescape-ne-panic : (data' : Bytes) → unescape data' ≢ panic
unfolding unescape
unescape-ne-panic data' = unescape_onto-ne-panic data' []
