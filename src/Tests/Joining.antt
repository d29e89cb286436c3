-- ===== src/Tests/Joining.antt =====
-- Runs of internal/protocol/jt808/reassembly.go.
use tallerp_telemetry.Base.{
  ℕ, ◌≤◌, ◌≡◌, ◌≢◌, refl, true, [], ◌∷◌, none, arith, ◌==◌, if◌then◌else◌, Bytes, lookup, delete_if,
}
use tallerp_telemetry.Jt808.Types.{Frame}
use tallerp_telemetry.Jt808.Reassembly.{
  Reassembler, ReassemblyKey, reassembly_key, key_of, complete, stuck, push, expire, add_packet,
}
use tallerp_telemetry.Jt808.Reassembly.Complete.{
  IsPacket, Brings, Distinct, only_last, push_all, push_all-parts,
}
use tallerp_telemetry.Jt808.Reassembly.Limits.{push-ne-stuck, push_65535_never_complete}

abbrev packet_of : ℕ → ℕ → Bytes → Frame
packet_of total serial body = record {
  message_id = 0x0200;
  body_props = 0x2001;
  encryption = 0;
  has_subpackage = true;
  terminal_sn = b'1' ∷ [];
  message_serial = 9;
  total_packets = total;
  packet_serial = serial;
  body = body;
  raw = [];
  checksum = 0;
}

abbrev empty_reassembler : Reassembler
empty_reassembler = record { ttl = 100; entries = [] }

abbrev message_key : ReassemblyKey
message_key = record { terminal_sn = b'1' ∷ []; message_id = 0x0200; message_serial = 9 }

abbrev part_of : ℕ → Bytes
part_of serial = if serial == 1 then 0x41 ∷ [] else 0x42 ∷ []

abbrev second_part : Frame × ℕ
second_part = (packet_of 2 2 (0x42 ∷ []), 10)

abbrev first_part : Frame × ℕ
first_part = (packet_of 2 1 (0x41 ∷ []), 20)

second_part-IsPacket : IsPacket 2 part_of message_key 0 100 second_part
second_part-IsPacket = record {
  subpackage = refl;
  keyed = refl;
  counted = refl;
  from_one = omega arith;
  to_total = omega arith;
  carries = refl;
  after = omega arith;
  before = omega arith;
}

first_part-IsPacket : IsPacket 2 part_of message_key 0 100 first_part
first_part-IsPacket = record {
  subpackage = refl;
  keyed = refl;
  counted = refl;
  from_one = omega arith;
  to_total = omega arith;
  carries = refl;
  after = omega arith;
  before = omega arith;
}

both_come :
    (s : ℕ) → 1 ≤ s → s ≤ 2 → Brings 2 part_of message_key 0 100 (second_part ∷ first_part ∷ []) s
both_come s lo hi = ground arith

no_entry : lookup message_key empty_reassembler.entries ≡ none
unfolding lookup
no_entry = refl

apart : Distinct 2 part_of message_key 0 100 (second_part ∷ first_part ∷ [])
apart = ((ground arith, tt), (tt, tt))

-- The second part comes in before the first.
push_all-parts_example :
    ((push_all 2 part_of message_key 0 100 empty_reassembler (second_part ∷ first_part ∷ [])).1
      ≡ only_last 2 part_of message_key 0 100 second_part (first_part ∷ []))
    × (lookup message_key
          (push_all 2 part_of message_key 0 100 empty_reassembler
            (second_part ∷ first_part ∷ [])).0.entries
        ≡ none)
push_all-parts_example =
    push_all-parts 2 part_of message_key 0 100 empty_reassembler second_part (first_part ∷ [])
      (omega arith) refl no_entry (second_part-IsPacket, (first_part-IsPacket, tt)) apart both_come
      refl

-- The total that a first packet sets.
total_run :
    (total : ℕ)
    → (add_packet (packet_of total 1 (0x41 ∷ [])) 5 (
        lookup (key_of (packet_of total 1 (0x41 ∷ []))) (expire empty_reassembler 5).entries)).total
      ≡ total
unfolding expire delete_if lookup add_packet
total_run total = ground arith

push-ne-stuck_example : (push empty_reassembler (packet_of 2 1 (0x41 ∷ [])) 5).1 ≢ stuck
push-ne-stuck_example =
    push-ne-stuck empty_reassembler (packet_of 2 1 (0x41 ∷ [])) 5 (omega (arith, total_run 2))

push_65535_never_complete_example :
    (push empty_reassembler (packet_of 65535 1 (0x41 ∷ [])) 5).1
    ≢ complete (packet_of 65535 1 (0x41 ∷ []))
push_65535_never_complete_example =
    push_65535_never_complete empty_reassembler (packet_of 65535 1 (0x41 ∷ []))
      (packet_of 65535 1 (0x41 ∷ [])) 5 refl (total_run 65535)
