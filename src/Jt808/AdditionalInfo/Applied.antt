-- ===== src/Jt808/AdditionalInfo/Applied.antt =====
-- internal/protocol/jt808/additional_info.go: the fields of an event that no item changes.
use tallerp_telemetry.Base.{◌≡◌, ◌∙◌, refl, List, [], ◌∷◌, arith}
use tallerp_telemetry.Telemetry.{CellObservation, WifiAccessPoint, TelemetryEvent}
use tallerp_telemetry.Jt808.AdditionalInfo.{
  AdditionalItem, apply_scalar, apply_cells, apply_wifi, apply_additional_items,
}

-- The same terminal, family and place.
pub record SameSource (event event' : TelemetryEvent) : Type 0 where
  pub imei : event'.imei ≡ event.imei
  pub terminal_sn : event'.terminal_sn ≡ event.terminal_sn
  pub family : event'.protocol_family ≡ event.protocol_family
  pub latitude : event'.latitude ≡ event.latitude
  pub longitude : event'.longitude ≡ event.longitude

SameSource-trans : (a b c : TelemetryEvent) → SameSource a b → SameSource b c → SameSource a c
SameSource-trans a b c f g = record {
  imei = g.imei ∙ f.imei;
  terminal_sn = g.terminal_sn ∙ f.terminal_sn;
  family = g.family ∙ f.family;
  latitude = g.latitude ∙ f.latitude;
  longitude = g.longitude ∙ f.longitude;
}

apply_scalar-SameSource :
    (event : TelemetryEvent) (item : AdditionalItem) → SameSource event (apply_scalar event item)
unfolding apply_scalar
apply_scalar-SameSource event item = record {
  imei = ground arith;
  terminal_sn = ground arith;
  family = ground arith;
  latitude = ground arith;
  longitude = ground arith;
}

apply_cells-SameSource :
    (cells : List CellObservation) (event : TelemetryEvent)
    → SameSource event (apply_cells cells event)
unfolding apply_cells
apply_cells-SameSource [] event = record {
  imei = refl;
  terminal_sn = refl;
  family = refl;
  latitude = refl;
  longitude = refl;
}
apply_cells-SameSource (c ∷ cs) event = record {
  imei = refl;
  terminal_sn = refl;
  family = refl;
  latitude = refl;
  longitude = refl;
}

apply_wifi-SameSource :
    (aps : List WifiAccessPoint) (event : TelemetryEvent) → SameSource event (apply_wifi aps event)
unfolding apply_wifi
apply_wifi-SameSource [] event = record {
  imei = refl;
  terminal_sn = refl;
  family = refl;
  latitude = refl;
  longitude = refl;
}
apply_wifi-SameSource (a ∷ aps) event = record {
  imei = refl;
  terminal_sn = refl;
  family = refl;
  latitude = refl;
  longitude = refl;
}

pub apply_additional_items-SameSource :
    (event : TelemetryEvent) (items : List AdditionalItem)
    → SameSource event (apply_additional_items event items)
unfolding apply_additional_items
apply_additional_items-SameSource event [] = record {
  imei = refl;
  terminal_sn = refl;
  family = refl;
  latitude = refl;
  longitude = refl;
}
apply_additional_items-SameSource event (item ∷ items) =
    let a = apply_scalar event item in
    let b = apply_cells item.cells a in
    let c = apply_wifi item.wifi_access_points b in
    SameSource-trans event a _ (apply_scalar-SameSource event item) (
      SameSource-trans a b _ (apply_cells-SameSource item.cells a) (
        SameSource-trans b c _ (apply_wifi-SameSource item.wifi_access_points b)
          (apply_additional_items-SameSource c items)))
