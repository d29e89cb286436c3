-- ===== src/Jt808/Messages.antt =====
-- internal/protocol/jt808: registration.go, auth.go, general_response.go, parameters.go, properties.go,
-- control.go and heartbeat.go. Parsers read a message's body; builders write a whole frame.
pub mod Safety
use tallerp_telemetry.Base.{
  ℕ, zero, suc, ◌+◌, Bool, true, false, not, List, [], ◌∷◌, ◌++◌, ltb, leb, ◌==◌, if◌then◌else◌,
  length, Bytes, Outcome, ok, err, panic, ◌>>=◌, ◌>>◌, guard, index, slice, slice_from, uint16_at,
  uint32_at, put16, put32, malformed_body, invalid_content,
}
use tallerp_telemetry.Jt808.Types.{
  Frame, RegistrationPacket, AuthPacket, GeneralResponsePacket, trim_trailing_nulls,
  registration_success,
}
use tallerp_telemetry.Jt808.Msg
use tallerp_telemetry.Jt808.Header.{decode_bcd, encode_frame}

abbrev pub min_registration_body_length : ℕ
min_registration_body_length = 37

-- The vehicle ID, where bytes are left for it.
vehicle_id : Bytes → Outcome Bytes
vehicle_id body =
    if ltb min_registration_body_length (length body)
    then (slice_from body min_registration_body_length >>= λ text. ok (trim_trailing_nulls text))
    else ok []

unfoldable pub parse_registration : Bytes → Outcome RegistrationPacket
unfolding vehicle_id
parse_registration body = do
  guard (not (ltb (length body) min_registration_body_length)) malformed_body
  province_id ← uint16_at body 0
  city_county_id ← uint16_at body 2
  manufacturer ← slice body 4 9
  model ← slice body 9 29
  terminal_id ← slice body 29 36
  plate_color ← index body 36
  vehicle ← vehicle_id body
  ok (record {
    province_id = province_id;
    city_county_id = city_county_id;
    manufacturer = trim_trailing_nulls manufacturer;
    model = trim_trailing_nulls model;
    terminal_id = trim_trailing_nulls terminal_id;
    plate_color = plate_color;
    vehicle_id = vehicle;
  })

unfoldable pub build_registration_ack : Bytes → ℕ → ℕ → ℕ → Bytes → Outcome Bytes
build_registration_ack terminal_sn serial response_serial result auth_code =
    encode_frame Msg.registration_response terminal_sn serial (
      put16 response_serial
      ++ (result ∷ (if result == registration_success then auth_code else [])))

unfoldable pub parse_auth : Bytes → Outcome AuthPacket
parse_auth [] = err malformed_body
parse_auth (b ∷ bs) = ok (record { auth_code = b ∷ bs })

unfoldable pub build_general_response : Bytes → ℕ → ℕ → ℕ → ℕ → Outcome Bytes
build_general_response terminal_sn serial response_serial reply_id result =
    encode_frame Msg.platform_general_response terminal_sn serial
      (put16 response_serial ++ (put16 reply_id ++ result ∷ []))

unfoldable pub parse_general_response : Bytes → Outcome GeneralResponsePacket
parse_general_response body = do
  guard (not (ltb (length body) 5)) malformed_body
  response_serial ← uint16_at body 0
  reply_id ← uint16_at body 2
  result ← index body 4
  ok (record { response_serial = response_serial; reply_id = reply_id; result = result })

unfoldable pub build_terminal_control : Bytes → ℕ → ℕ → Bytes → Outcome Bytes
build_terminal_control terminal_sn serial command params =
    encode_frame Msg.terminal_control terminal_sn serial (command ∷ params)

unfoldable pub is_heartbeat : Frame → Bool
is_heartbeat f = f.message_id == Msg.terminal_heartbeat

-- `EncodeDWORDParam`
unfoldable pub encode_dword_param : ℕ → Bytes
encode_dword_param value = put32 value

-- `EncodeStringParam`
unfoldable pub encode_string_param : Bytes → Bytes
encode_string_param value = value

-- One parameter put in order of its ID: `params` is a map, so its IDs differ.
insert_param : ℕ × Bytes → List (ℕ × Bytes) → List (ℕ × Bytes)
insert_param p [] = p ∷ []
insert_param p (q ∷ qs) = if leb p.0 q.0 then p ∷ q ∷ qs else q ∷ insert_param p qs

-- `sort.Slice` on the IDs.
sort_params : List (ℕ × Bytes) → List (ℕ × Bytes)
sort_params [] = []
sort_params (p ∷ ps) = insert_param p (sort_params ps)

-- The loop that appends the parameters.
append_params : Bytes → List (ℕ × Bytes) → Outcome Bytes
append_params body [] = ok body
append_params body ((id, value) ∷ rest) =
    let more = append_params (body ++ (put32 id ++ (length value ∷ value))) rest in
    if ltb 255 (length value) then err invalid_content else more

unfoldable pub build_set_parameters : Bytes → ℕ → List (ℕ × Bytes) → Outcome Bytes
unfolding append_params sort_params insert_param
build_set_parameters terminal_sn serial params = do
  guard (not (ltb 255 (length params))) invalid_content
  body ← append_params (length params ∷ []) (sort_params params)
  encode_frame Msg.set_terminal_parameters terminal_sn serial body

unfoldable pub build_query_parameters : Bytes → ℕ → Outcome Bytes
build_query_parameters terminal_sn serial =
    encode_frame Msg.query_terminal_parameters terminal_sn serial []

pub record ParamItem : Type 0 where
  pub id : ℕ
  pub value : Bytes

pub record ParamResponse : Type 0 where
  pub response_serial : ℕ
  pub params : List ParamItem

-- The loop over the items, `count` of them left.
params_from : ℕ → Bytes → ℕ → List ParamItem → Outcome (List ParamItem)
params_from zero body offset params = ok params
params_from (suc count) body offset params =
    guard (leb (offset + 5) (length body)) malformed_body
    >> (uint32_at body offset >>= λ id. index body (offset + 4) >>= λ size.
        guard (leb (offset + 5 + size) (length body)) malformed_body
        >> (slice body (offset + 5) (offset + 5 + size) >>= λ value.
            params_from count body (offset + 5 + size)
              (params ++ record { id = id; value = value } ∷ [])))

unfoldable pub parse_query_parameters_response : Bytes → Outcome ParamResponse
unfolding params_from
parse_query_parameters_response body = do
  guard (not (ltb (length body) 3)) malformed_body
  response_serial ← uint16_at body 0
  count ← index body 2
  params ← params_from count body 3 []
  ok (record { response_serial = response_serial; params = params })

unfoldable pub build_query_properties : Bytes → ℕ → Outcome Bytes
build_query_properties terminal_sn serial =
    encode_frame Msg.query_terminal_properties terminal_sn serial []

pub record PropertiesResponse : Type 0 where
  pub terminal_type : ℕ
  pub manufacturer : Bytes
  pub model : Bytes
  pub terminal_id : Bytes
  pub iccid : Bytes
  pub hardware_version : Bytes
  pub firmware_version : Bytes
  pub gnss_capability : ℕ
  pub comms_capability : ℕ

-- A capability byte, 0 where the body ends before it.
capability : Bytes → ℕ → Outcome ℕ
capability body offset = if ltb offset (length body) then index body offset else ok 0

abbrev properties_fixed_length : ℕ
properties_fixed_length = 2 + 5 + 20 + 7 + 10

-- The versions and the capabilities behind the fixed fields.
properties_tail : Bytes → Outcome (Bytes × Bytes × ℕ × ℕ)
unfolding capability
properties_tail body = do
  hw_len ← index body properties_fixed_length
  let hw_at = properties_fixed_length + 1
  guard (leb (hw_at + hw_len) (length body)) malformed_body
  hardware ← slice body hw_at (hw_at + hw_len)
  guard (not (leb (length body) (hw_at + hw_len))) malformed_body
  fw_len ← index body (hw_at + hw_len)
  let fw_at = hw_at + hw_len + 1
  guard (leb (fw_at + fw_len) (length body)) malformed_body
  firmware ← slice body fw_at (fw_at + fw_len)
  gnss ← capability body (fw_at + fw_len)
  comms ← capability body (fw_at + fw_len + 1)
  ok (hardware, firmware, gnss, comms)

unfoldable pub parse_properties_response : Bytes → Outcome PropertiesResponse
unfolding properties_tail
parse_properties_response body = do
  guard (not (ltb (length body) (properties_fixed_length + 1))) malformed_body
  terminal_type ← uint16_at body 0
  manufacturer ← slice body 2 7
  model ← slice body 7 27
  terminal_id ← slice body 27 34
  iccid_bytes ← slice body 34 44
  iccid ← decode_bcd iccid_bytes
  (hardware, firmware, gnss, comms) ← properties_tail body
  ok (record {
    terminal_type = terminal_type;
    manufacturer = trim_trailing_nulls manufacturer;
    model = trim_trailing_nulls model;
    terminal_id = trim_trailing_nulls terminal_id;
    iccid = iccid;
    hardware_version = hardware;
    firmware_version = firmware;
    gnss_capability = gnss;
    comms_capability = comms;
  })
