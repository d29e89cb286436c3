-- ===== src/Jt808/Messages/Safety.antt =====
-- internal/protocol/jt808: the reads of the body parsers.
use tallerp_telemetry.Base.{
  ℕ, zero, suc, ◌+◌, ◌-◌, ◌≡◌, ◌≢◌, List, [], ◌∷◌, ◌++◌, arith, ltb, ◌≤◌, Bool-cases, ltb_false→le,
  slice_lem, uint16_at_lem, >>=-ne-panic, inl, inr, length, Bytes, ok, panic, index, slice,
  slice_from, uint16_at, uint32_at, take, drop, get_or, u32_of,
}
use tallerp_telemetry.Jt808.Header.{decode_bcd}
use tallerp_telemetry.Jt808.Header.Safety.{decode_bcd-ne-panic}
use tallerp_telemetry.Jt808.Messages.{
  parse_registration, vehicle_id, parse_auth, parse_general_response, ParamItem, params_from,
  parse_query_parameters_response, parse_properties_response, capability, properties_tail,
}

-- The parser of a registration body does not panic, whatever the bytes are.
pub parse_registration-ne-panic : (body : Bytes) → parse_registration body ≢ panic
unfolding parse_registration vehicle_id uint16_at slice slice_from index
parse_registration-ne-panic body = ground arith

pub parse_auth-ne-panic : (body : Bytes) → parse_auth body ≢ panic
unfolding parse_auth
parse_auth-ne-panic [] = λ p. cc
parse_auth-ne-panic (b ∷ bs) = λ p. cc

pub parse_general_response-ne-panic : (body : Bytes) → parse_general_response body ≢ panic
unfolding parse_general_response uint16_at index
parse_general_response-ne-panic body = ground arith

params_from-ne-panic :
    (count : ℕ) (body : Bytes) (offset : ℕ) (params : List ParamItem)
    → params_from count body offset params ≢ panic
unfolding params_from uint32_at index slice
params_from-ne-panic zero body offset params = λ p. cc
params_from-ne-panic (suc count) body offset params =
    let id = u32_of body offset in
    let size = get_or body (offset + 4) 0 in
    let value = take (offset + 5 + size - (offset + 5)) (drop (offset + 5) body) in
    ground (
      arith,
      params_from-ne-panic count body (offset + 5 + size)
          (params ++ record { id = id; value = value } ∷ []),
    )

-- The parser of a parameter answer does not panic, whatever the count and the lengths in it are.
pub parse_query_parameters_response-ne-panic :
    (body : Bytes) → parse_query_parameters_response body ≢ panic
unfolding parse_query_parameters_response uint16_at index
parse_query_parameters_response-ne-panic body =
    ground (arith, params_from-ne-panic (get_or body 2 0) body 3 [])

capability-ne-panic : (body : Bytes) (offset : ℕ) → capability body offset ≢ panic
unfolding capability index
capability-ne-panic body offset = ground arith

properties_tail-ne-panic : (body : Bytes) → 45 ≤ length body → properties_tail body ≢ panic
unfolding properties_tail slice index
properties_tail-ne-panic body h =
    let hw = 45 + get_or body 44 0 in
    let fw = hw + 1 + get_or body hw 0 in
    ground (arith, capability-ne-panic body fw, capability-ne-panic body (fw + 1))

-- The parser of a terminal's properties does not panic, whatever the bytes and the lengths in
-- them are.
pub parse_properties_response-ne-panic : (body : Bytes) → parse_properties_response body ≢ panic
unfolding parse_properties_response
parse_properties_response-ne-panic body = elim (Bool-cases (ltb (length body) 45)) [
  | inl short ↦ rw short (λ p. cc)
  | inr fits ↦
      let size : 45 ≤ length body = ltb_false→le _ _ fits in
      let here : (a b : ℕ) → a ≤ b → b ≤ 45 → slice body a b ≡ ok (take (b - a) (drop a body)) =
        λ a b h k. slice_lem body a b h (omega arith) in
      rw
        (
          fits,
          uint16_at_lem body 0 (omega arith),
          here 2 7 (omega arith) (omega arith),
          here 7 27 (omega arith) (omega arith),
          here 27 34 (omega arith) (omega arith),
          here 34 44 (omega arith) (omega arith),
        )
        (>>=-ne-panic (decode_bcd (take 10 (drop 34 body))) _ (decode_bcd-ne-panic _) (λ iccid _.
          >>=-ne-panic (properties_tail body) _ (properties_tail-ne-panic body size)
            (λ tail _ p. cc)))
]
