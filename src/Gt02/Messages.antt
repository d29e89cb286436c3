-- ===== src/Gt02/Messages.antt =====
-- internal/protocol/gt02: login.go, heartbeat.go, location.go, lbs.go, wifi.go and general.go.
pub mod Safety
use tallerp_telemetry.Base.{
  ℕ, zero, suc, ◌+◌, ◌-◌, ◌*◌, ◌/◌, ◌%◌, Bool, not, ◌||◌, ◌&&◌, List, [], ◌∷◌, ◌++◌, ltb, leb, ◌==◌,
  if◌then◌else◌, length, get_or, drop, Bytes, Outcome, ok, err, ◌>>=◌, ◌>>◌, guard, index, slice,
  slice_from, uint16_at, uint32_at, bit_at, invalid_content,
}
use tallerp_telemetry.Telemetry.{Time, CellObservation, WifiAccessPoint, hex, hex_byte}
use tallerp_telemetry.Gt06.Decoder.{GtFrame}
use tallerp_telemetry.Gt02.Types.{
  pos, minus, Gt02LoginPacket, Gt02LocationPacket, Gt02HeartbeatPacket, LbsPacket, WifiPacket,
  GeneralPacket,
}
use tallerp_telemetry.Gt02.Helpers.{
  gt02_decode_bcd, decode_imei, gt02_decode_timestamp, gt02_decode_gps_status, gt02_decode_latitude,
  gt02_decode_longitude, decode_power,
}

unfoldable pub parse_gt02_login : GtFrame → Outcome Gt02LoginPacket
parse_gt02_login frame = do
  guard (frame.protocol_number == 0x01) invalid_content
  guard (length frame.content == 12) invalid_content
  imei_bytes ← slice frame.content 0 8
  imei ← decode_imei imei_bytes
  timezone_language ← uint16_at frame.content 10
  let offset_hundredths = timezone_language / 16
  let hours = offset_hundredths / 100
  let minutes = offset_hundredths % 100
  guard (not (ltb 14 hours || ltb 59 minutes)) invalid_content
  let offset_minutes = hours * 60 + minutes
  device_type ← uint16_at frame.content 8
  ok (record {
    imei = imei;
    device_type = device_type;
    timezone_offset_minutes =
        if bit_at timezone_language 8 then minus offset_minutes else pos offset_minutes;
    language = timezone_language % 2;
    serial = frame.serial;
  })

unfoldable pub parse_gt02_heartbeat : GtFrame → Bytes → Outcome Gt02HeartbeatPacket
parse_gt02_heartbeat frame imei = do
  guard (frame.protocol_number == 0x13) invalid_content
  guard (length frame.content == 5) invalid_content
  gsm_signal ← index frame.content 2
  guard (not (ltb 4 gsm_signal)) invalid_content
  voltage ← index frame.content 1
  extension ← index frame.content 3
  power ← decode_power voltage extension
  terminal ← index frame.content 0
  language ← index frame.content 4
  ok (record {
    imei = imei;
    terminal_information = terminal;
    oil_electric_cut = bit_at terminal 128;
    gps_located = bit_at terminal 64;
    alarm_state = terminal / 8 % 8;
    external_power = bit_at terminal 4;
    acc = bit_at terminal 2;
    armed = bit_at terminal 1;
    power = power;
    gsm_signal = gsm_signal;
    language = language;
    serial = frame.serial;
  })

unfoldable pub parse_gt02_location : GtFrame → Bytes → Outcome Gt02LocationPacket
parse_gt02_location frame imei = do
  guard (frame.protocol_number == 0x31) invalid_content
  guard (length frame.content == 31) invalid_content
  time_bytes ← slice frame.content 0 6
  gps_at ← gt02_decode_timestamp time_bytes
  information ← index frame.content 6
  guard (information / 16 == 0x0c) invalid_content
  status_bytes ← slice frame.content 16 18
  status ← gt02_decode_gps_status status_bytes
  latitude_raw ← uint32_at frame.content 7
  latitude ← gt02_decode_latitude latitude_raw status.north
  longitude_raw ← uint32_at frame.content 11
  longitude ← gt02_decode_longitude longitude_raw status.east
  acc ← index frame.content 28
  retransmission ← index frame.content 30
  guard (not (ltb 1 acc || ltb 1 retransmission)) invalid_content
  speed ← index frame.content 15
  mcc ← uint16_at frame.content 18
  mnc ← uint16_at frame.content 20
  lac ← uint16_at frame.content 22
  cell_id ← uint32_at frame.content 24
  mode ← index frame.content 29
  ok (record {
    imei = imei;
    gps_at = gps_at;
    latitude = latitude;
    longitude = longitude;
    speed_kmh = speed;
    heading = status.heading;
    satellites = information % 16;
    gps_located = status.located;
    realtime_gps = status.realtime;
    acc = acc == 1;
    mcc = mcc;
    mnc = mnc;
    lac = lac;
    cell_id = cell_id;
    data_reporting_mode = mode;
    is_retransmission = retransmission == 1;
    serial = frame.serial;
  })

-- The seven bytes of a cell.
unfoldable pub cell_at : Bytes → ℕ → Outcome CellObservation
cell_at content offset = do
  lac ← uint16_at content offset
  cell_id ← uint32_at content (offset + 2)
  rssi ← index content (offset + 6)
  ok (record { lac = lac; cell_id = cell_id; rssi = rssi })

-- The loop over the cells, `n` of them left, the next one at `offset`.
lbs_cells : ℕ → Bytes → ℕ → List CellObservation → Outcome (List CellObservation)
lbs_cells zero content offset cells = ok cells
lbs_cells (suc n) content offset cells =
    cell_at content offset >>= λ cell. lbs_cells n content (offset + 7) (cells ++ cell ∷ [])

unfoldable pub parse_lbs : GtFrame → Bytes → Outcome LbsPacket
unfolding lbs_cells
parse_lbs frame imei = do
  guard (frame.protocol_number == 0x34) invalid_content
  guard (length frame.content == 50) invalid_content
  time_bytes ← slice frame.content 0 6
  gps_at ← gt02_decode_timestamp time_bytes
  cell_count ← index frame.content 11
  guard (not (ltb 5 cell_count)) invalid_content
  cells ← lbs_cells cell_count frame.content 12 []
  timing_advance ← index frame.content 6
  mcc ← uint16_at frame.content 7
  mnc ← uint16_at frame.content 9
  ok (record {
    imei = imei;
    gps_at = gps_at;
    timing_advance = timing_advance;
    mcc = mcc;
    mnc = mnc;
    cells = cells;
    serial = frame.serial;
  })

-- A cell that is all zeros is left out.
present : CellObservation → List CellObservation
present cell =
    if not (cell.lac == 0) || (not (cell.cell_id == 0) || not (cell.rssi == 0))
    then cell ∷ []
    else []

-- The loop over the five neighbours.
wifi_cells : ℕ → Bytes → ℕ → List CellObservation → Outcome (List CellObservation)
unfolding present
wifi_cells zero content offset cells = ok cells
wifi_cells (suc n) content offset cells =
    cell_at content offset >>= λ cell. wifi_cells n content (offset + 7) (cells ++ present cell)

-- `net.HardwareAddr.String`: pairs of hexadecimal digits with colons between them.
unfoldable pub mac_text : Bytes → Bytes
mac_text [] = []
mac_text (b ∷ []) = hex_byte b
mac_text (b ∷ c ∷ rest) = hex_byte b ++ (b':' ∷ mac_text (c ∷ rest))

wifi_access_point : Bytes → ℕ → Outcome WifiAccessPoint
wifi_access_point content offset = do
  mac ← slice content offset (offset + 6)
  strength ← index content (offset + 6)
  ok (record { mac = mac_text mac; signal_strength = strength })

-- The loop over the access points.
access_points : ℕ → Bytes → ℕ → List WifiAccessPoint → Outcome (List WifiAccessPoint)
unfolding wifi_access_point
access_points zero content offset points = ok points
access_points (suc n) content offset points = wifi_access_point content offset >>= λ point.
    access_points n content (offset + 7) (points ++ point ∷ [])

unfoldable pub parse_wifi : GtFrame → Bytes → Outcome WifiPacket
unfolding wifi_cells access_points
parse_wifi frame imei = do
  guard (frame.protocol_number == 0x33) invalid_content
  guard (not (ltb (length frame.content) 54)) invalid_content
  time_bytes ← slice frame.content 0 6
  gps_at ← gt02_decode_timestamp time_bytes
  wifi_count ← index frame.content 53
  guard (not (ltb 5 wifi_count) && (length frame.content == 54 + wifi_count * 7)) invalid_content
  serving ← cell_at frame.content 10
  cells ← wifi_cells 5 frame.content 17 (serving ∷ [])
  points ← access_points wifi_count frame.content 54 []
  mcc ← uint16_at frame.content 6
  mnc ← uint16_at frame.content 8
  timing_advance ← index frame.content 52
  ok (record {
    imei = imei;
    gps_at = gps_at;
    mcc = mcc;
    mnc = mnc;
    timing_advance = timing_advance;
    cells = cells;
    access_points = points;
    serial = frame.serial;
  })

-- A leading zero of sixteen digits is dropped.
device_imei : Bytes → Bytes
device_imei digits =
    if (length digits == 16) && (get_or digits 0 0 == b'0') then drop 1 digits else digits

-- The subtype 0x0a: three numbers in packed digits.
unfoldable pub parse_identity : GtFrame → Bytes → ℕ → Outcome GeneralPacket
unfolding device_imei
parse_identity frame imei subtype = do
  guard (length frame.content == 27) invalid_content
  imei_bytes ← slice frame.content 1 9
  device ← gt02_decode_bcd imei_bytes
  imsi_bytes ← slice frame.content 9 17
  imsi ← gt02_decode_bcd imsi_bytes
  iccid_bytes ← slice frame.content 17 27
  iccid ← gt02_decode_bcd iccid_bytes
  ok (record {
    imei = imei;
    subtype = subtype;
    device_imei = device_imei device;
    imsi = imsi;
    iccid = iccid;
    data_hex = [];
    serial = frame.serial;
  })

unfoldable pub parse_general : GtFrame → Bytes → Outcome GeneralPacket
unfolding parse_identity
parse_general frame imei = do
  guard (frame.protocol_number == 0x94) invalid_content
  guard (not (ltb (length frame.content) 1)) invalid_content
  subtype ← index frame.content 0
  rest ← slice_from frame.content 1
  if subtype == 0x0a
      then parse_identity frame imei subtype
      else ok (record {
        imei = imei;
        subtype = subtype;
        device_imei = [];
        imsi = [];
        iccid = [];
        data_hex = hex rest;
        serial = frame.serial;
      })
