-- ===== src/Telemetry/Identity.antt =====
-- internal/telemetry/event.go: which events have the same ID.
use Prim.Native.Nat.pow
use tallerp_telemetry.Base.{
  ℕ, zero, suc, ◌+◌, ◌-◌, ◌*◌, ◌/◌, ◌%◌, ◌^◌, ◌<◌, ◌≡◌, ◌≢◌, ◌∙◌, refl, sym, ap, subst, bytes_eq,
  either_side, All-append, arith, List, [], ◌∷◌, ◌++◌, All, ltb, Bytes, IsByte,
}
use tallerp_telemetry.Telemetry.{Time, TelemetryEvent, hex, hex_digit}
use tallerp_telemetry.Telemetry.EventId.{
  codes, to_lower, decimal_digits, format_uint, join_parts, family_parts, gps_text, id_parts,
  id_text, set_id,
}

-- The number that digits stand for, behind a number that was read already.
value_from : ℕ → Bytes → ℕ
value_from n [] = n
value_from n (d ∷ digits) = value_from (n * 10 + (d - b'0')) digits

value_from-append :
    (n d : ℕ) (digits : Bytes)
    → value_from n (digits ++ d ∷ []) ≡ value_from n digits * 10 + (d - b'0')
unfolding value_from
value_from-append n d [] = refl
value_from-append n d (x ∷ digits) = value_from-append (n * 10 + (x - b'0')) d digits

value_from-decimal_digits : (fuel n : ℕ) → n < 10 ^ fuel → value_from 0 (decimal_digits fuel n) ≡ n
unfolding value_from decimal_digits
value_from-decimal_digits zero n h = omega arith
value_from-decimal_digits (suc fuel) n h =
    let power : 10 ^ suc fuel ≡ 10 * 10 ^ fuel = omega (arith, pow.suc 10 fuel) in
    ground (
      arith,
      value_from-append 0 (b'0' + n % 10) (decimal_digits fuel (n / 10)),
      value_from-decimal_digits fuel (n / 10) (omega (arith, power)),
    )

format_uint-injective :
    (m n : ℕ) → m < 10 ^ 20 → n < 10 ^ 20 → format_uint m ≡ format_uint n → m ≡ n
format_uint-injective m n small small' e =
    sym (value_from-decimal_digits 20 m small)
    ∙ (ap (value_from 0) e ∙ value_from-decimal_digits 20 n small')

-- Text without the byte 0, which separates the parts.
abbrev pub HasNoNul : Bytes → Type 0
HasNoNul text = All (λ b. b ≢ 0) text

-- A separator splits a text in one way.
split_nul :
    (a b c d : Bytes) → HasNoNul a → HasNoNul b → a ++ (0 ∷ c) ≡ b ++ (0 ∷ d) → (a ≡ b) × (c ≡ d)
split_nul [] [] c d h k e = (refl, cc)
split_nul [] (y ∷ b) c d h k e = absurd (k.0 cc)
split_nul (x ∷ a) [] c d h k e = absurd (h.0 cc)
split_nul (x ∷ a) (y ∷ b) c d h k e = let (same, rest) = split_nul a b c d h.1 k.1 cc in (cc, rest)

nul_inside : (a c : Bytes) → HasNoNul (a ++ (0 ∷ c)) → ⊥
nul_inside [] c h = h.0 refl
nul_inside (x ∷ a) c h = nul_inside a c h.1

-- Joined parts without the separator can be told apart.
join_parts-injective :
    (p q : Bytes) (ps qs : List Bytes)
    → All HasNoNul (p ∷ ps)
    → All HasNoNul (q ∷ qs)
    → join_parts (p ∷ ps) ≡ join_parts (q ∷ qs)
    → (p ∷ ps) ≡ (q ∷ qs)
unfolding join_parts
join_parts-injective p q [] [] h k e = cc
join_parts-injective p q [] (q' ∷ qs) h k e =
    absurd (nul_inside q (join_parts (q' ∷ qs)) (subst HasNoNul e h.0))
join_parts-injective p q (p' ∷ ps) [] h k e =
    absurd (nul_inside p (join_parts (p' ∷ ps)) (subst HasNoNul (sym e) k.0))
join_parts-injective p q (p' ∷ ps) (q' ∷ qs) h k e =
    let (first, rest) = split_nul p q (join_parts (p' ∷ ps)) (join_parts (q' ∷ qs)) h.0 k.0 e in
    let later = join_parts-injective p' q' ps qs h.1 k.1 rest in cc

hex_digit-injective : (m n : ℕ) → m < 16 → n < 16 → hex_digit m ≡ hex_digit n → m ≡ n
unfolding hex_digit
hex_digit-injective m n h k e = ground arith

-- The text of bytes in hexadecimal digits gives them back.
hex-injective : (a b : Bytes) → All IsByte a → All IsByte b → hex a ≡ hex b → a ≡ b
unfolding hex
hex-injective [] [] h k e = refl
hex-injective [] (y ∷ b) h k e = absurd cc
hex-injective (x ∷ a) [] h k e = absurd cc
hex-injective (x ∷ a) (y ∷ b) h k e =
    let high = hex_digit-injective (x / 16) (y / 16) (omega arith) (omega arith) cc in
    let low = hex_digit-injective (x % 16) (y % 16) (omega arith) (omega arith) cc in
    let head : x ≡ y = omega arith in let tail = hex-injective a b h.1 k.1 cc in cc

decimal_digits-HasNoNul : (fuel n : ℕ) → HasNoNul (decimal_digits fuel n)
unfolding decimal_digits
decimal_digits-HasNoNul zero n = tt
decimal_digits-HasNoNul (suc fuel) n =
    either_side HasNoNul (ltb n 10) (λ _. ((omega arith), tt))
      (λ _.
        All-append (λ b. b ≢ 0) (decimal_digits fuel (n / 10)) _
          (decimal_digits-HasNoNul fuel (n / 10)) ((omega arith), tt))

to_lower-HasNoNul : (text : Bytes) → HasNoNul text → HasNoNul (to_lower text)
to_lower-HasNoNul [] h = tt
to_lower-HasNoNul (c ∷ text) h = (ground arith, to_lower-HasNoNul text h.1)

family_parts-HasNoNul : (family : Bytes) → All HasNoNul (family_parts family)
unfolding family_parts
family_parts-HasNoNul family =
    let letters : HasNoNul (codes "gt02") =
      (omega arith, (omega arith, (omega arith, (omega arith, tt)))) in
    let letters' : HasNoNul (codes "jt808") =
      (omega arith, (omega arith, (omega arith, (omega arith, (omega arith, tt))))) in
    either_side (All HasNoNul) (bytes_eq (to_lower family) (codes "gt02")) (λ _. (letters, tt))
      (λ _.
        either_side (All HasNoNul) (bytes_eq (to_lower family) (codes "jt808"))
          (λ _. (letters', tt)) (λ _. tt))

-- An event whose texts have no byte 0 in them.
pub record IsPlain (format : Time → Bytes) (event : TelemetryEvent) : Type 0 where
  pub plain_imei : HasNoNul event.imei
  pub plain_protocol : HasNoNul (codes event.protocol)
  pub plain_serial : event.serial < 10 ^ 20
  pub plain_time : HasNoNul (gps_text format event.gps_at)
  pub plain_bytes : HasNoNul event.raw_hex

-- What the ID tells of an event.
pub record SameEvent (format : Time → Bytes) (a b : TelemetryEvent) : Type 0 where
  pub same_imei : a.imei ≡ b.imei
  pub same_protocol : codes a.protocol ≡ codes b.protocol
  pub same_serial : a.serial ≡ b.serial
  pub same_time : gps_text format a.gps_at ≡ gps_text format b.gps_at
  pub same_bytes : to_lower a.raw_hex ≡ to_lower b.raw_hex
  pub same_family : family_parts (codes a.protocol_family) ≡ family_parts (codes b.protocol_family)

plain_parts :
    (format : Time → Bytes) (event : TelemetryEvent)
    → IsPlain format event
    → All HasNoNul (id_parts format event)
unfolding id_parts
plain_parts format event h = (
  h.plain_imei,
  (
    h.plain_protocol,
    (
      decimal_digits-HasNoNul 20 event.serial,
      (
        h.plain_time,
        (
          to_lower-HasNoNul event.raw_hex h.plain_bytes,
          family_parts-HasNoNul (codes event.protocol_family),
        ),
      ),
    ),
  ),
)

-- Two events get the same ID only if they agree in IMEI, protocol, serial, the text of their
-- position's time, raw bytes and the part that their family adds, where the digest returns bytes
-- and does not collide on the texts of these two, their serials are below 10^20 and their texts
-- have no byte 0.
pub set_id-SameEvent :
    (digest : Bytes → Bytes) (format : Time → Bytes) (a b : TelemetryEvent)
    → ((text : Bytes) → All IsByte (digest text))
    → (digest (id_text format a) ≡ digest (id_text format b) → id_text format a ≡ id_text format b)
    → IsPlain format a
    → IsPlain format b
    → (set_id digest format a).event_id ≡ (set_id digest format b).event_id
    → SameEvent format a b
unfolding set_id id_text id_parts
set_id-SameEvent digest format a b bytes no_collision plain plain' e =
    let digests = hex-injective _ _ (bytes (id_text format a)) (bytes (id_text format b)) e in
    let parts =
      join_parts-injective _ _ _ _ (plain_parts format a plain) (plain_parts format b plain')
        (no_collision digests) in
    record {
      same_imei = cc;
      same_protocol = cc;
      same_serial =
          format_uint-injective a.serial b.serial plain.plain_serial plain'.plain_serial cc;
      same_time = cc;
      same_bytes = cc;
      same_family = cc;
    }
