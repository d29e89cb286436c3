-- ===== src/Jt808/Decoder/Search.antt =====
-- internal/protocol/jt808/decoder.go: `index_byte` and the first delimiter.
use tallerp_telemetry.Base.{
  ℕ, zero, suc, ◌<◌, ◌≡◌, ◌≢◌, refl, [], ◌∷◌, ◌++◌, none, some, arith, length, drop, All, Bytes,
  Option-cases, inl, inr,
}
use tallerp_telemetry.Jt808.Decoder.{index_byte}

pub index_byte-append :
    (b : ℕ) (xs ys : Bytes) (i : ℕ) → index_byte b xs ≡ some i → index_byte b (xs ++ ys) ≡ some i
unfolding index_byte
index_byte-append b [] ys i h = cc
index_byte-append b (x ∷ xs) ys i h = elim (Option-cases (index_byte b xs)) [
  | inl e ↦ ground arith
  | inr (j, e) ↦ ground (arith, index_byte-append b xs ys j e)
]

pub index_byte-lt : (b : ℕ) (xs : Bytes) (i : ℕ) → index_byte b xs ≡ some i → i < length xs
unfolding index_byte
index_byte-lt b [] i h = cc
index_byte-lt b (x ∷ xs) i h = elim (Option-cases (index_byte b xs)) [
  | inl e ↦ ground arith
  | inr (j, e) ↦ ground (arith, index_byte-lt b xs j e)
]

-- The byte behind bytes that differ from it.
pub index_byte_first :
    (b : ℕ) (xs ys : Bytes) → All (λ x. x ≢ b) xs → index_byte b (xs ++ b ∷ ys) ≡ some (length xs)
unfolding index_byte
index_byte_first b [] ys h = ground arith
index_byte_first b (x ∷ xs) ys h = ground (arith, index_byte_first b xs ys h.1)

pub index_byte-none : (b : ℕ) (xs : Bytes) → All (λ x. x ≢ b) xs → index_byte b xs ≡ none
unfolding index_byte
index_byte-none b [] h = refl
index_byte-none b (x ∷ xs) h = ground (arith, index_byte-none b xs h.1)

-- From the place found on, the list starts with the byte.
pub drop-index_byte :
    (b : ℕ) (xs : Bytes) (i : ℕ)
    → index_byte b xs ≡ some i
    → (rest : Bytes) × (drop i xs ≡ b ∷ rest)
unfolding index_byte
drop-index_byte b [] i h = absurd (cc h)
drop-index_byte b (x ∷ xs) zero h = (xs, ground (arith, Option-cases (index_byte b xs)))
drop-index_byte b (x ∷ xs) (suc i) h =
    drop-index_byte b xs i (ground (arith, Option-cases (index_byte b xs)))
