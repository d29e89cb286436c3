-- ===== src/Base/Go.antt =====
-- Go's ways to leave a function: a result, an error value, or a panic; and the reads that panic.
-- Error values are told apart by the sentinel that they wrap; their message texts are dropped.
use Prim.Native.Nat.{ℕ, ◌+◌, ◌-◌, ◌*◌, ◌/◌, ◌%◌, ◌≤◌, ◌<◌}
use mathlib.Core.Path.{◌≡◌, refl}
use mathlib.Core.Logic.{◌≢◌}
use mathlib.Core.Bool.{Bool, true, false, ◌&&◌}
use mathlib.Core.List.{List, [], ◌∷◌}
use native.Mathlib.Omega.{arith}
use tallerp_telemetry.Base.Tests.{leb, if◌then◌else◌, ltb, ◌==◌}
use tallerp_telemetry.Base.Lists.{length, take, drop, get_or}

-- A byte slice or a Go string: a list of bytes.
abbrev pub Bytes : Type 0
Bytes = List ℕ

abbrev pub IsByte : ℕ → Type 0
IsByte b = b < 256

pub data Error : Type 0 where
  truncated_frame invalid_escape invalid_checksum invalid_bcd malformed_body : Error
  not_authenticated unsupported_message body_too_long digits_too_long : Error
  auth_store_not_configured store_failure : Error
  invalid_content : Error  -- an error made on the spot by `fmt.Errorf`, with no sentinel

pub data Outcome {ℓ} (A : Type ℓ) : Type ℓ where
  ok : A → Outcome A
  err : Error → Outcome A
  panic : Outcome A

-- What follows a step that may leave the function.
infixl 5 ◌>>=◌ ◌>>◌
abbrev pub ◌>>=◌ {ℓ κ} :
    {Out : Type ℓ} {Out' : Type κ} → Outcome Out → (Out → Outcome Out') → Outcome Out'
panic >>= then' = panic
err cause >>= then' = err cause
ok value >>= then' = then' value

-- `if !test { return err }`
abbrev pub guard : Bool → Error → Outcome (Unit {0})
guard false cause = err cause
guard true cause = ok tt

abbrev pub ◌>>◌ {ℓ} : {Out : Type ℓ} → Outcome (Unit {0}) → Outcome Out → Outcome Out
test >> later = test >>= λ _. later

-- `xs[i]`
unfoldable pub index : Bytes → ℕ → Outcome ℕ
index xs i = if ltb i (length xs) then ok (get_or xs i 0) else panic

-- `xs[a:b]`
unfoldable pub slice : Bytes → ℕ → ℕ → Outcome Bytes
slice xs a b = if leb a b && leb b (length xs) then ok (take (b - a) (drop a xs)) else panic

-- `xs[a:]`
unfoldable pub slice_from : Bytes → ℕ → Outcome Bytes
slice_from xs a = if leb a (length xs) then ok (drop a xs) else panic

-- `binary.BigEndian`: two and four bytes, highest first.
abbrev pub be16 : ℕ → ℕ → ℕ
be16 hi lo = hi * 256 + lo

abbrev pub be32 : ℕ → ℕ → ℕ → ℕ → ℕ
be32 a b c d = ((a * 256 + b) * 256 + c) * 256 + d

-- `binary.BigEndian.Uint16(xs[i:i+2])` and `Uint32(xs[i:i+4])`.
abbrev pub u16_of : Bytes → ℕ → ℕ
u16_of xs i = be16 (get_or xs i 0) (get_or xs (i + 1) 0)

abbrev pub u32_of : Bytes → ℕ → ℕ
u32_of xs i = be32 (get_or xs i 0) (get_or xs (i + 1) 0) (get_or xs (i + 2) 0) (get_or xs (i + 3) 0)

unfoldable pub uint16_at : Bytes → ℕ → Outcome ℕ
uint16_at xs i = if leb (i + 2) (length xs) then ok (u16_of xs i) else panic

unfoldable pub uint32_at : Bytes → ℕ → Outcome ℕ
uint32_at xs i = if leb (i + 4) (length xs) then ok (u32_of xs i) else panic

-- `binary.BigEndian.AppendUint16` and `AppendUint32`: what they append.
abbrev pub put16 : ℕ → Bytes
put16 v = (v / 256 % 256) ∷ (v % 256) ∷ []

abbrev pub put32 : ℕ → Bytes
put32 v = (v / 16777216 % 256) ∷ (v / 65536 % 256) ∷ (v / 256 % 256) ∷ (v % 256) ∷ []

-- `w & m != 0` for a mask `m` of one bit.
abbrev pub bit_at : ℕ → ℕ → Bool
bit_at w m = w / m % 2 == 1

-- Inside the bounds nothing panics.
pub index_lem : (xs : Bytes) (i : ℕ) → i < length xs → index xs i ≡ ok (get_or xs i 0)
unfolding index
index_lem xs i h = ground arith

pub slice_lem :
    (xs : Bytes) (a b : ℕ) → a ≤ b → b ≤ length xs → slice xs a b ≡ ok (take (b - a) (drop a xs))
unfolding slice
slice_lem xs a b h k = ground arith

pub slice_from_lem : (xs : Bytes) (a : ℕ) → a ≤ length xs → slice_from xs a ≡ ok (drop a xs)
unfolding slice_from
slice_from_lem xs a h = ground arith

pub uint16_at_lem : (xs : Bytes) (i : ℕ) → i + 2 ≤ length xs → uint16_at xs i ≡ ok (u16_of xs i)
unfolding uint16_at
uint16_at_lem xs i h = ground arith

pub uint32_at_lem : (xs : Bytes) (i : ℕ) → i + 4 ≤ length xs → uint32_at xs i ≡ ok (u32_of xs i)
unfolding uint32_at
uint32_at_lem xs i h = ground arith

pub >>=-eq-ok {ℓ κ} :
    {Out : Type ℓ} {Out' : Type κ} (step : Outcome Out) (then' : Out → Outcome Out') {last : Out'}
    → (step >>= then') ≡ ok last
    → (value : Out) × (step ≡ ok value) × (then' value ≡ ok last)
>>=-eq-ok panic then' e = cc
>>=-eq-ok (err cause) then' e = cc
>>=-eq-ok (ok value) then' e = (value, refl, e)

-- A chain panics only if a step of it does.
pub >>=-ne-panic {ℓ κ} :
    {A : Type ℓ} {B : Type κ} (m : Outcome A) (f : A → Outcome B)
    → m ≢ panic
    → ((a : A) → m ≡ ok a → f a ≢ panic)
    → (m >>= f) ≢ panic
>>=-ne-panic (ok a) f h k = k a refl
>>=-ne-panic (err e) f h k = λ p. cc
>>=-ne-panic panic f h k = λ _. h refl

pub guard-ne-panic : (b : Bool) (e : Error) → guard b e ≢ panic
guard-ne-panic true e = λ p. cc
guard-ne-panic false e = λ p. cc

pub put16_u16 : (v : ℕ) → v < 65536 → be16 (v / 256 % 256) (v % 256) ≡ v
put16_u16 v h = omega arith
