-- ===== src/Telemetry/EventId.antt =====
-- internal/telemetry/event.go: `SetID`. The digest SHA-256 and the text of a time are parameters.
use Prim.Native.String.{String}
use Prim.Native.Char.{code}
use tallerp_telemetry.Base.{
  ℕ, zero, suc, ◌+◌, ◌/◌, ◌%◌, ◌&&◌, List, [], ◌∷◌, ◌++◌, map, Option, none, some, ltb, leb,
  if◌then◌else◌, Bytes, bytes_eq,
}
use tallerp_telemetry.Telemetry.{Time, TelemetryEvent, hex}

-- The bytes of a text in ASCII.
abbrev pub codes : String → Bytes
codes String.[] = []
codes (String.◌∷◌ c s) = code c ∷ codes s

abbrev pub lower_byte : ℕ → ℕ
lower_byte c = if leb b'A' c && leb c b'Z' then c + 32 else c

-- `strings.ToLower`, on ASCII.
abbrev pub to_lower : Bytes → Bytes
to_lower text = map lower_byte text

-- `strconv.FormatUint(n, 10)`, `n` below ten to the fuel.
unfoldable pub decimal_digits : ℕ → ℕ → Bytes
decimal_digits zero n = []
decimal_digits (suc fuel) n =
    let more = decimal_digits fuel (n / 10) in
    if ltb n 10 then (b'0' + n) ∷ [] else more ++ (b'0' + n % 10) ∷ []

-- Twenty digits are enough for a uint64.
abbrev pub format_uint : ℕ → Bytes
format_uint n = decimal_digits 20 n

-- `strings.Join(parts, "\x00")`
unfoldable pub join_parts : List Bytes → Bytes
join_parts [] = []
join_parts (p ∷ []) = p
join_parts (p ∷ q ∷ rest) = p ++ (0 ∷ join_parts (q ∷ rest))

-- The part that the `switch` on the family adds; `strings.EqualFold` on ASCII.
unfoldable pub family_parts : Bytes → List Bytes
family_parts family =
    if bytes_eq (to_lower family) (codes "gt02")
    then codes "gt02" ∷ []
    else if bytes_eq (to_lower family) (codes "jt808")
    then codes "jt808" ∷ []
    else []

-- The text of the time of a position, empty without one.
abbrev pub gps_text : (Time → Bytes) → Option Time → Bytes
gps_text format none = []
gps_text format (some t) = format t

unfoldable pub id_parts : (Time → Bytes) → TelemetryEvent → List Bytes
unfolding family_parts
id_parts format event =
    event.imei
    ∷ codes event.protocol
    ∷ format_uint event.serial
    ∷ gps_text format event.gps_at
    ∷ to_lower event.raw_hex
    ∷ family_parts (codes event.protocol_family)

unfoldable pub id_text : (Time → Bytes) → TelemetryEvent → Bytes
unfolding id_parts
id_text format event = join_parts (id_parts format event)

-- `SetID`
unfoldable pub set_id : (Bytes → Bytes) → (Time → Bytes) → TelemetryEvent → TelemetryEvent
unfolding id_text
set_id digest format event = record event { event_id = hex (digest (id_text format event)) }
