-- ===== src/Tests/Bodies.antt =====
-- Runs of the parsers of internal/protocol/jt808 on short and on wrong bodies.
use tallerp_telemetry.Base.{◌≢◌, [], ◌∷◌, panic}
use tallerp_telemetry.Jt808.AdditionalInfo.{parse_additional_items}
use tallerp_telemetry.Jt808.AdditionalInfo.Items.{parse_additional_items-ne-panic}

-- A 2G cell list that announces five records and has none.
parse_additional_items-ne-panic_example :
    parse_additional_items (0x30 ∷ 0x01 ∷ 0x1f ∷ 0x53 ∷ 0x01 ∷ 0x05 ∷ []) ≢ panic
parse_additional_items-ne-panic_example =
    parse_additional_items-ne-panic (0x30 ∷ 0x01 ∷ 0x1f ∷ 0x53 ∷ 0x01 ∷ 0x05 ∷ [])
