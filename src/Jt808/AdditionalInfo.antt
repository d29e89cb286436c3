-- ===== src/Jt808/AdditionalInfo.antt =====
-- internal/protocol/jt808/additional_info.go: the TLV items behind a location report.
pub mod Items
pub mod Applied
use tallerp_telemetry.Base.{
  ℕ, zero, suc, ◌+◌, ◌-◌, ◌≡◌, Bool, not, List, [], ◌∷◌, ◌++◌, Option, none, some, ltb, leb, ◌==◌,
  if◌then◌else◌, length, Bytes, Outcome, ok, err, panic, ◌>>=◌, ◌>>◌, guard, index, slice,
  uint16_at, uint32_at, malformed_body,
}
use tallerp_telemetry.Telemetry.{
  Float64, exact, quotient, negative, CellObservation, WifiAccessPoint, TelemetryEvent, hex_byte,
}

-- Additional-info TLV IDs.
abbrev pub info_mileage : ℕ
info_mileage = 0x01

abbrev pub info_fuel_volume : ℕ
info_fuel_volume = 0x02

abbrev pub info_battery_percent : ℕ
info_battery_percent = 0x10

abbrev pub info_gsm_signal : ℕ
info_gsm_signal = 0x30

abbrev pub info_satellites : ℕ
info_satellites = 0x31

abbrev pub info_temperature : ℕ
info_temperature = 0x51

abbrev pub info_humidity : ℕ
info_humidity = 0x52

abbrev pub info_cells_2g : ℕ
info_cells_2g = 0x53

abbrev pub info_wifi : ℕ
info_wifi = 0x54

abbrev pub info_cells_4g : ℕ
info_cells_4g = 0x55

abbrev pub info_voltage : ℕ
info_voltage = 0xfe

abbrev pub info_oil_percent : ℕ
info_oil_percent = 0xe6

pub record AdditionalItem : Type 0 where
  pub id : ℕ
  pub raw : Bytes
  pub mileage_km : Option Float64
  pub fuel_volume_l : Option Float64
  pub battery_percent : Option ℕ
  pub gsm_signal : Option ℕ
  pub satellites : Option ℕ
  pub temperature_c : Option Float64
  pub humidity_percent : Option Float64
  pub voltage_volts : Option Float64
  pub oil_percent : Option Float64
  pub cells : List CellObservation
  pub wifi_access_points : List WifiAccessPoint

abbrev pub plain_item : ℕ → Bytes → AdditionalItem
plain_item id raw = record {
  id = id;
  raw = raw;
  mileage_km = none;
  fuel_volume_l = none;
  battery_percent = none;
  gsm_signal = none;
  satellites = none;
  temperature_c = none;
  humidity_percent = none;
  voltage_volts = none;
  oil_percent = none;
  cells = [];
  wifi_access_points = [];
}

-- The three record loops: `for i := 0; i < count && offset+recordSize <= len(value); i++`. A loop's
-- record at an offset is read by `read`.
records_from : {A : Type 0} → (Bytes → ℕ → Outcome A) → ℕ → ℕ → Bytes → ℕ → Outcome (List A)
records_from read size zero value offset = ok []
records_from read size (suc count) value offset =
    let more = read value offset >>= λ a.
    records_from read size count value (offset + size) >>= λ later. ok (a ∷ later) in
    if leb (offset + size) (length value) then more else ok []

-- A list of records behind a count byte; nothing where the byte is not there.
counted : {A : Type 0} → (Bytes → ℕ → Outcome A) → ℕ → Bytes → Outcome (List A)
counted read size [] = ok []
counted read size (count ∷ rest) = records_from read size count (count ∷ rest) 1

cell_2g : Bytes → ℕ → Outcome CellObservation
cell_2g value offset = do
  lac ← uint16_at value (offset + 3)
  cell_id ← uint16_at value (offset + 5)
  rssi ← index value (offset + 7)
  ok (record { lac = lac; cell_id = cell_id; rssi = rssi })

cell_4g : Bytes → ℕ → Outcome CellObservation
cell_4g value offset = do
  lac ← uint16_at value (offset + 3)
  cell_id ← uint32_at value (offset + 5)
  rssi ← index value (offset + 9)
  ok (record { lac = lac; cell_id = cell_id; rssi = rssi })

-- "%02x:%02x:%02x:%02x:%02x:%02x"
unfoldable pub format_mac : Bytes → Bytes
format_mac [] = []
format_mac (b ∷ []) = hex_byte b
format_mac (b ∷ c ∷ rest) = hex_byte b ++ b':' ∷ format_mac (c ∷ rest)

access_point : Bytes → ℕ → Outcome WifiAccessPoint
access_point value offset = do
  mac ← slice value offset (offset + 6)
  signal ← index value (offset + 6)
  ok (record { mac = format_mac mac; signal_strength = signal })

unfoldable pub decode_2g_cells : Bytes → Outcome (List CellObservation)
unfolding counted records_from cell_2g
decode_2g_cells = counted cell_2g 8

unfoldable pub decode_4g_cells : Bytes → Outcome (List CellObservation)
unfolding counted records_from cell_4g
decode_4g_cells = counted cell_4g 10

unfoldable pub decode_wifi : Bytes → Outcome (List WifiAccessPoint)
unfolding counted records_from access_point
decode_wifi = counted access_point 7

-- `float64(int16(w)) / 10.0`
signed_tenths : ℕ → Float64
signed_tenths w = if ltb w 32768 then quotient w 10 else negative (quotient (65536 - w) 10)

-- The lists of cells and access points of an item.
decode_lists : AdditionalItem → Bytes → Outcome AdditionalItem
decode_lists item value =
    if item.id == info_cells_2g
    then (decode_2g_cells value >>= λ cells. ok (record item { cells = cells }))
    else if item.id == info_cells_4g
    then (decode_4g_cells value >>= λ cells. ok (record item { cells = cells }))
    else if item.id == info_wifi
    then (decode_wifi value >>= λ aps. ok (record item { wifi_access_points = aps }))
    else ok item

-- The scalar of an item, read only where the value has the right length.
decode_scalar : AdditionalItem → Bytes → Outcome AdditionalItem
unfolding signed_tenths
decode_scalar item value =
    let size = length value in
    let byte = index value 0 in
    let word = uint16_at value 0 in
    if item.id == info_mileage
    then (if size == 4
        then (uint32_at value 0 >>= λ w. ok (record item { mileage_km = some (quotient w 10) }))
        else ok item)
    else if item.id == info_fuel_volume
    then (if size == 2
        then (word >>= λ w. ok (record item { fuel_volume_l = some (quotient w 10) }))
        else ok item)
    else if item.id == info_battery_percent
    then (if size == 1
        then (byte >>= λ b. ok (record item { battery_percent = some b }))
        else ok item)
    else if item.id == info_gsm_signal
    then (if size == 1 then (byte >>= λ b. ok (record item { gsm_signal = some b })) else ok item)
    else if item.id == info_satellites
    then (if size == 1 then (byte >>= λ b. ok (record item { satellites = some b })) else ok item)
    else if item.id == info_temperature
    then (if size == 2
        then (word >>= λ w. ok (record item { temperature_c = some (signed_tenths w) }))
        else ok item)
    else if item.id == info_humidity
    then (if size == 2
        then (word >>= λ w. ok (record item { humidity_percent = some (quotient w 10) }))
        else ok item)
    else if item.id == info_voltage
    then (if size == 2
        then (word >>= λ w. ok (record item { voltage_volts = some (quotient w 10) }))
        else ok item)
    else if item.id == info_oil_percent
    then (if size == 2
        then (word >>= λ w. ok (record item { oil_percent = some (exact w) }))
        else ok item)
    else ok item

-- `decodeAdditionalItem`: no ID has both a scalar and a list.
unfoldable pub decode_additional_item : AdditionalItem → Bytes → Outcome AdditionalItem
unfolding decode_lists decode_scalar
decode_additional_item item value = decode_scalar item value >>= λ scalar. decode_lists scalar value

-- One item that starts at `offset`, and the offset behind it.
item_at : Bytes → ℕ → Outcome (AdditionalItem × ℕ)
item_at body offset = do
  guard (leb (offset + 2) (length body)) malformed_body
  id ← index body offset
  size ← index body (offset + 1)
  guard (leb (offset + 2 + size) (length body)) malformed_body
  value ← slice body (offset + 2) (offset + 2 + size)
  item ← decode_additional_item (plain_item id value) value
  ok (item, offset + 2 + size)

-- The loop of `ParseAdditionalItems`. Each item has two bytes at least, so a round for each byte is
-- enough; that the fuel runs out is counted as a panic.
items_from : ℕ → Bytes → ℕ → List AdditionalItem → Outcome (List AdditionalItem)
items_from zero body offset items = if ltb offset (length body) then panic else ok items
items_from (suc fuel) body offset items =
    let more =
      item_at body offset >>= λ found. items_from fuel body found.1 (items ++ found.0 ∷ []) in
    if ltb offset (length body) then more else ok items

unfoldable pub parse_additional_items : Bytes → Outcome (List AdditionalItem)
unfolding items_from item_at
parse_additional_items body = items_from (length body) body 0 []

-- The nested `switch` of `applyAdditionalItems`: the first field of an item that is set.
apply_scalar : TelemetryEvent → AdditionalItem → TelemetryEvent
apply_scalar event item = elim item.mileage_km [
  | some v ↦ record event { device_mileage_km = some v }
  | none ↦ elim item.fuel_volume_l [
    | some v ↦ record event { fuel_volume_l = some v }
    | none ↦ elim item.battery_percent [
      | some v ↦ record event { battery_percent = some v }
      | none ↦ elim item.gsm_signal [
        | some v ↦ record event { gsm_signal = some v }
        | none ↦ elim item.satellites [
          | some v ↦ record event { satellites = some v }
          | none ↦ elim item.temperature_c [
            | some v ↦ record event { temperature_c = some v }
            | none ↦ elim item.humidity_percent [
              | some v ↦ record event { humidity_percent = some v }
              | none ↦ elim item.voltage_volts [
                | some v ↦ record event { external_voltage = some v }
                | none ↦ elim item.oil_percent [
                  | some v ↦ record event { oil_percent = some v }
                  | none ↦ event
                ]
              ]
            ]
          ]
        ]
      ]
    ]
  ]
]

apply_cells : List CellObservation → TelemetryEvent → TelemetryEvent
apply_cells [] event = event
apply_cells (c ∷ cs) event = record event { cells = c ∷ cs }

apply_wifi : List WifiAccessPoint → TelemetryEvent → TelemetryEvent
apply_wifi [] event = event
apply_wifi (a ∷ aps) event = record event { wifi_access_points = a ∷ aps }

unfoldable pub apply_additional_items : TelemetryEvent → List AdditionalItem → TelemetryEvent
unfolding apply_scalar apply_cells apply_wifi
apply_additional_items event [] = event
apply_additional_items event (item ∷ items) =
    apply_additional_items
      (apply_wifi item.wifi_access_points (apply_cells item.cells (apply_scalar event item))) items
