-- ===== src/Jt808/Header/Bcd.antt =====
-- internal/protocol/jt808/header.go: `encodeBCD` and `decodeBCD` together.
use tallerp_telemetry.Base.{
  ℕ, zero, suc, ◌+◌, ◌-◌, ◌*◌, ◌/◌, ◌%◌, ◌≤◌, ◌≡◌, refl, ◌∙◌, ap, [], ◌∷◌, ◌++◌, arith, length,
  length-append, length-replicate, replicate, All, Bytes, ok, append-nil, append_assoc, ltb,
  ltb_false→le, Bool-cases, inl, inr,
}
use tallerp_telemetry.Jt808.Header.{decode_onto, decode_bcd, pack_onto, pad_digits, encode_bcd}

abbrev pub IsDigit : ℕ → Type 0
IsDigit c = (b'0' ≤ c) × (c ≤ b'9')

-- The byte of two digits.
abbrev byte_of : ℕ → ℕ → ℕ
byte_of hi lo = (hi - b'0') * 16 + (lo - b'0')

pack_onto_step :
    (n hi lo : ℕ) (rest out packed : Bytes)
    → pack_onto out (suc n) (hi ∷ lo ∷ rest) ≡ ok packed
    → IsDigit hi × IsDigit lo × (pack_onto (out ++ byte_of hi lo ∷ []) n rest ≡ ok packed)
unfolding pack_onto
pack_onto_step n hi lo rest out packed h = ground arith

decode_onto-byte_of :
    (hi lo : ℕ) (seen rest : Bytes)
    → IsDigit hi
    → IsDigit lo
    → decode_onto seen (byte_of hi lo ∷ rest) ≡ decode_onto (seen ++ hi ∷ lo ∷ []) rest
unfolding decode_onto
decode_onto-byte_of hi lo seen rest h k = ground (arith, digits)
  where
    digits : (b'0' + byte_of hi lo / 16 ≡ hi) × (b'0' + byte_of hi lo % 16 ≡ lo)
    digits = omega arith

-- What packing has written, read back.
record Packed (n : ℕ) (digits out packed : Bytes) : Type 0 where
  tail : Bytes
  splits : packed ≡ out ++ tail
  reads : (seen : Bytes) → decode_onto seen tail ≡ ok (seen ++ digits)
  size : length tail ≡ n
  digital : All IsDigit digits

pack_onto-Packed :
    (n : ℕ) (digits out packed : Bytes)
    → length digits ≡ n * 2
    → pack_onto out n digits ≡ ok packed
    → Packed n digits out packed
pack_onto-Packed zero [] out packed l h = record {
  tail = [];
  splits = unfold pack_onto in rw append-nil (cc h);
  reads = λ seen. rw append-nil (unfold decode_onto in refl);
  size = refl;
  digital = tt;
}
pack_onto-Packed zero (x ∷ xs) out packed l h = absurd (omega arith)
pack_onto-Packed (suc n) [] out packed l h = absurd (omega arith)
pack_onto-Packed (suc n) (hi ∷ []) out packed l h = absurd (omega arith)
pack_onto-Packed (suc n) (hi ∷ lo ∷ rest) out packed l h =
    let (p, q, more) = pack_onto_step n hi lo rest out packed h in
    let r = pack_onto-Packed n rest (out ++ byte_of hi lo ∷ []) packed (omega arith) more in
    record {
      tail = byte_of hi lo ∷ r.tail;
      splits = r.splits ∙ append_assoc out (byte_of hi lo ∷ []) r.tail;
      reads = λ seen.
          decode_onto-byte_of hi lo seen r.tail p q
          ∙ r.reads (seen ++ hi ∷ lo ∷ [])
          ∙ ap ok (append_assoc seen (hi ∷ lo ∷ []) rest);
      size = omega (arith, r.size);
      digital = (p, (q, r.digital));
    }

-- What the BCD encoder packs, the decoder unpacks to the digits with zeros in front, in as many
-- bytes as were asked for, and all of them are digits.
pub decode_bcd-encode_bcd :
    (digits packed : Bytes) (n : ℕ)
    → encode_bcd digits n ≡ ok packed
    → (decode_bcd packed ≡ ok (pad_digits (n * 2) digits))
      × (length packed ≡ n)
      × All IsDigit (pad_digits (n * 2) digits)
unfolding encode_bcd decode_bcd
decode_bcd-encode_bcd digits packed n h = elim (Bool-cases (ltb (n * 2) (length digits))) [
  | inl long ↦ cc (rw long at h)
  | inr fits ↦
      let r =
        pack_onto-Packed n (pad_digits (n * 2) digits) [] packed
          (padded (ltb_false→le (n * 2) (length digits) fits)) (rw fits at h) in
      (rw r.splits (r.reads []), rw r.splits r.size, r.digital)
]
  where
    padded : length digits ≤ n * 2 → length (pad_digits (n * 2) digits) ≡ n * 2
    padded fits = omega (
      arith,
      length-append (replicate (n * 2 - length digits) b'0') digits,
      length-replicate {A = ℕ} (n * 2 - length digits) b'0',
    )
