-- ===== src/Gt02/Messages/Safety.antt =====
-- internal/protocol/gt02: the reads of the GT02 parsers.
use tallerp_telemetry.Base.{
  ℕ, zero, suc, ◌≢◌, ◌+◌, ◌*◌, ◌≤◌, [], ◌∷◌, ◌++◌, List, arith, Bytes, panic, length, index, slice,
  slice_from, uint16_at, uint32_at, take, drop, get_or, u32_of, u16_of, >>=-ne-panic,
}
use tallerp_telemetry.Telemetry.{CellObservation, WifiAccessPoint}
use tallerp_telemetry.Gt06.Decoder.{GtFrame}
use tallerp_telemetry.Gt06.Helpers.Moments.{gt_digits-ne-panic, decode_gt_timestamp-ne-panic}
use tallerp_telemetry.Gt02.Helpers.{
  gt02_decode_bcd, decode_imei, gt02_decode_timestamp, gt02_decode_gps_status, gt02_decode_latitude,
  gt02_decode_longitude, decode_power,
}
use tallerp_telemetry.Gt02.Messages.{
  parse_gt02_login, parse_gt02_heartbeat, parse_gt02_location, cell_at, lbs_cells, parse_lbs,
  wifi_cells, present, wifi_access_point, access_points, parse_wifi, parse_identity, parse_general,
}

pub decode_imei-ne-panic : (text : Bytes) → decode_imei text ≢ panic
unfolding decode_imei gt02_decode_bcd index slice_from
decode_imei-ne-panic text = ground (arith, gt_digits-ne-panic text)

pub decode_power-ne-panic : (voltage extension : ℕ) → decode_power voltage extension ≢ panic
unfolding decode_power
decode_power-ne-panic voltage extension = ground arith

pub parse_gt02_login-ne-panic : (frame : GtFrame) → parse_gt02_login frame ≢ panic
unfolding parse_gt02_login uint16_at slice
parse_gt02_login-ne-panic frame = ground (arith, decode_imei-ne-panic (take 8 frame.content))

pub parse_gt02_heartbeat-ne-panic :
    (frame : GtFrame) (imei : Bytes) → parse_gt02_heartbeat frame imei ≢ panic
unfolding parse_gt02_heartbeat index
parse_gt02_heartbeat-ne-panic frame imei =
    ground (arith, decode_power-ne-panic (get_or frame.content 1 0) (get_or frame.content 3 0))

pub gt02_decode_gps_status-ne-panic : (text : Bytes) → gt02_decode_gps_status text ≢ panic
unfolding gt02_decode_gps_status uint16_at index
gt02_decode_gps_status-ne-panic text = ground arith

pub parse_gt02_location-ne-panic :
    (frame : GtFrame) (imei : Bytes) → parse_gt02_location frame imei ≢ panic
unfolding parse_gt02_location index slice uint16_at uint32_at gt02_decode_timestamp
    gt02_decode_latitude gt02_decode_longitude
parse_gt02_location-ne-panic frame imei = ground (
  arith,
  decode_gt_timestamp-ne-panic (take 6 frame.content),
  gt02_decode_gps_status-ne-panic (take 2 (drop 16 frame.content)),
)

cell_at-ne-panic :
    (content : Bytes) (offset : ℕ) → offset + 7 ≤ length content → cell_at content offset ≢ panic
unfolding cell_at index uint16_at uint32_at
cell_at-ne-panic content offset h = ground arith

lbs_cells-ne-panic :
    (n : ℕ) (content : Bytes) (offset : ℕ) (cells : List CellObservation)
    → offset + 7 * n ≤ length content
    → lbs_cells n content offset cells ≢ panic
unfolding lbs_cells
lbs_cells-ne-panic zero content offset cells h = λ p. cc
lbs_cells-ne-panic (suc n) content offset cells h =
    >>=-ne-panic (cell_at content offset) _ (cell_at-ne-panic content offset (omega arith))
      (λ cell _. lbs_cells-ne-panic n content (offset + 7) (cells ++ cell ∷ []) (omega arith))

wifi_cells-ne-panic :
    (n : ℕ) (content : Bytes) (offset : ℕ) (cells : List CellObservation)
    → offset + 7 * n ≤ length content
    → wifi_cells n content offset cells ≢ panic
unfolding wifi_cells
wifi_cells-ne-panic zero content offset cells h = λ p. cc
wifi_cells-ne-panic (suc n) content offset cells h =
    >>=-ne-panic (cell_at content offset) _ (cell_at-ne-panic content offset (omega arith))
      (λ cell _. wifi_cells-ne-panic n content (offset + 7) (cells ++ present cell) (omega arith))

wifi_access_point-ne-panic :
    (content : Bytes) (offset : ℕ)
    → offset + 7 ≤ length content
    → wifi_access_point content offset ≢ panic
unfolding wifi_access_point index slice
wifi_access_point-ne-panic content offset h = ground arith

access_points-ne-panic :
    (n : ℕ) (content : Bytes) (offset : ℕ) (points : List WifiAccessPoint)
    → offset + 7 * n ≤ length content
    → access_points n content offset points ≢ panic
unfolding access_points
access_points-ne-panic zero content offset points h = λ p. cc
access_points-ne-panic (suc n) content offset points h =
    >>=-ne-panic (wifi_access_point content offset) _
      (wifi_access_point-ne-panic content offset (omega arith))
      (λ point _.
        access_points-ne-panic n content (offset + 7) (points ++ point ∷ []) (omega arith))

pub parse_lbs-ne-panic : (frame : GtFrame) (imei : Bytes) → parse_lbs frame imei ≢ panic
unfolding parse_lbs index slice uint16_at gt02_decode_timestamp
parse_lbs-ne-panic frame imei = ground (
  arith,
  decode_gt_timestamp-ne-panic (take 6 frame.content),
  lbs_cells-ne-panic (get_or frame.content 11 0) frame.content 12 [],
)

pub parse_wifi-ne-panic : (frame : GtFrame) (imei : Bytes) → parse_wifi frame imei ≢ panic
unfolding parse_wifi cell_at index slice uint16_at uint32_at gt02_decode_timestamp
parse_wifi-ne-panic frame imei =
    let serving : CellObservation = record {
      lac = u16_of frame.content 10;
      cell_id = u32_of frame.content 12;
      rssi = get_or frame.content 16 0;
    } in
    ground (
      arith,
      decode_gt_timestamp-ne-panic (take 6 frame.content),
      wifi_cells-ne-panic 5 frame.content 17 (serving ∷ []),
      access_points-ne-panic (get_or frame.content 53 0) frame.content 54 [],
    )

parse_identity-ne-panic :
    (frame : GtFrame) (imei : Bytes) (subtype : ℕ) → parse_identity frame imei subtype ≢ panic
unfolding parse_identity slice gt02_decode_bcd
parse_identity-ne-panic frame imei subtype = ground (
  arith,
  gt_digits-ne-panic (take 8 (drop 1 frame.content)),
  gt_digits-ne-panic (take 8 (drop 9 frame.content)),
  gt_digits-ne-panic (take 10 (drop 17 frame.content)),
)

pub parse_general-ne-panic : (frame : GtFrame) (imei : Bytes) → parse_general frame imei ≢ panic
unfolding parse_general index slice_from
parse_general-ne-panic frame imei =
    ground (arith, parse_identity-ne-panic frame imei (get_or frame.content 0 0))
