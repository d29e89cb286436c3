-- ===== src/Tests/Identity.antt =====
-- Runs of internal/telemetry/event.go: one frame, its hex text in two spellings.
use tallerp_telemetry.Base.{◌≡◌, ◌%◌, refl, arith, [], ◌∷◌, map, All, Bytes, IsByte, bytes_eq}
use tallerp_telemetry.Telemetry.{Time, TelemetryEvent, empty_event}
use tallerp_telemetry.Telemetry.EventId.{set_id, id_text, join_parts, decimal_digits, family_parts}
use tallerp_telemetry.Telemetry.Identity.{IsPlain, SameEvent, set_id-SameEvent}

abbrev heartbeat_event : TelemetryEvent
heartbeat_event = record empty_event {
  imei = b'8' ∷ b'6' ∷ [];
  protocol = "0x13";
  protocol_family = "gt06";
  serial = 31;
  raw_hex = b'a' ∷ b'b' ∷ [];
}

abbrev shouted_event : TelemetryEvent
shouted_event = record heartbeat_event { raw_hex = b'A' ∷ b'B' ∷ []; received_at = 5 }

-- A digest and a text of a time, as simple as can be.
abbrev low_bytes : Bytes → Bytes
low_bytes text = map (λ b. b % 256) text

abbrev no_time : Time → Bytes
no_time t = []

low_bytes-IsByte : (text : Bytes) → All IsByte (low_bytes text)
low_bytes-IsByte [] = tt
low_bytes-IsByte (b ∷ text) = (omega arith, low_bytes-IsByte text)

same_text : id_text no_time heartbeat_event ≡ id_text no_time shouted_event
unfolding id_text join_parts decimal_digits family_parts bytes_eq
same_text = refl

same_ids :
    (set_id low_bytes no_time heartbeat_event).event_id
    ≡ (set_id low_bytes no_time shouted_event).event_id
unfolding set_id id_text join_parts decimal_digits family_parts bytes_eq
same_ids = refl

heartbeat_event-IsPlain : IsPlain no_time heartbeat_event
heartbeat_event-IsPlain = record {
  plain_imei = (omega arith, (omega arith, tt));
  plain_protocol = (omega arith, (omega arith, (omega arith, (omega arith, tt))));
  plain_serial = omega arith;
  plain_time = tt;
  plain_bytes = (omega arith, (omega arith, tt));
}

shouted_event-IsPlain : IsPlain no_time shouted_event
shouted_event-IsPlain = record {
  plain_imei = (omega arith, (omega arith, tt));
  plain_protocol = (omega arith, (omega arith, (omega arith, (omega arith, tt))));
  plain_serial = omega arith;
  plain_time = tt;
  plain_bytes = (omega arith, (omega arith, tt));
}

set_id-SameEvent_example : SameEvent no_time heartbeat_event shouted_event
set_id-SameEvent_example =
    set_id-SameEvent low_bytes no_time heartbeat_event shouted_event low_bytes-IsByte
      (λ _. same_text) heartbeat_event-IsPlain shouted_event-IsPlain same_ids
