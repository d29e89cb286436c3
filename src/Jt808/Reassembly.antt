-- ===== src/Jt808/Reassembly.antt =====
-- internal/protocol/jt808/reassembly.go: subpackaged messages joined back into one frame. The mutex
-- only serialises the calls; times are nanoseconds, and a difference below 0 is not above the TTL.
pub mod Complete
pub mod Limits
use tallerp_telemetry.Base.{
  ℕ, zero, suc, ◌+◌, ◌-◌, ◌*◌, ◌%◌, ◌≡◌, ◌↔◌, ap, Bool, true, false, not, ◌&&◌, ◌||◌, List, [], ◌∷◌,
  ◌++◌, Option, none, some, arith, ltb, leb, ◌==◌, ==_iff, if◌then◌else◌, length, Bytes, bytes_eq,
  bytes_eq_iff, Key, nat_key, lookup, insert, delete, delete_if,
}
use tallerp_telemetry.Jt808.Types.{Frame}

pub record ReassemblyKey : Type 0 where
  pub terminal_sn : Bytes
  pub message_id : ℕ
  pub message_serial : ℕ

abbrev pub same_key : ReassemblyKey → ReassemblyKey → Bool
same_key a b =
    bytes_eq a.terminal_sn b.terminal_sn
    && (a.message_id == b.message_id && a.message_serial == b.message_serial)

pub same_key_iff : (a b : ReassemblyKey) → (same_key a b ≡ true) ↔ (a ≡ b)
same_key_iff a b = ground (arith, bytes_eq_iff a.terminal_sn b.terminal_sn)

instance abbrev pub reassembly_key : Key ReassemblyKey
reassembly_key = record { beq = same_key; beq_iff = same_key_iff }

pub record ReassemblyEntry : Type 0 where
  pub total : ℕ
  pub packets : List (ℕ × Frame)
  pub last_seen : ℕ

pub record Reassembler : Type 0 where
  pub ttl : ℕ
  pub entries : List (ReassemblyKey × ReassemblyEntry)

-- Two minutes.
abbrev pub default_reassembly_ttl : ℕ
default_reassembly_ttl = 2 * 60 * 1_000_000_000

unfoldable pub new_reassembler : ℕ → Reassembler
new_reassembler ttl = record {
  ttl = if ttl == 0 then default_reassembly_ttl else ttl;
  entries = [];
}

abbrev pub is_stale : ℕ → ℕ → ReassemblyEntry → Bool
is_stale ttl now entry = ltb ttl (now - entry.last_seen)

unfoldable pub expire : Reassembler → ℕ → Reassembler
expire r now = record r { entries = delete_if (is_stale r.ttl now) r.entries }

abbrev pub key_of : Frame → ReassemblyKey
key_of f = record {
  terminal_sn = f.terminal_sn;
  message_id = f.message_id;
  message_serial = f.message_serial;
}

-- The entry to which a packet is added: the one that is there, or a new one.
entry_for : Frame → ℕ → Option ReassemblyEntry → ReassemblyEntry
entry_for frame now (some entry) = entry
entry_for frame now none = record { total = frame.total_packets; packets = []; last_seen = now }

unfoldable pub add_packet : Frame → ℕ → Option ReassemblyEntry → ReassemblyEntry
unfolding entry_for
add_packet frame now found =
    let entry = entry_for frame now found in
    record {
      total = if ltb entry.total frame.total_packets then frame.total_packets else entry.total;
      packets = insert frame.packet_serial frame entry.packets;
      last_seen = now;
    }

-- What the loop over the serials ends with.
pub data Collected : Type 0 where
  whole : Bytes → Collected
  missing : Collected
  out_of_fuel : Collected

collect_more : Option Frame → Bytes → (Bytes → Collected) → Collected
collect_more none body more = missing
collect_more (some part) body more = more (body ++ part.body)

-- `for serial := uint16(1); serial <= total; serial++`; the counter wraps at 65536.
unfoldable pub collect : ℕ → ℕ → ℕ → List (ℕ × Frame) → Bytes → Collected
unfolding collect_more
collect zero total serial packets body = out_of_fuel
collect (suc fuel) total serial packets body =
    let more =
      collect_more (lookup serial packets) body
        (collect fuel total ((serial + 1) % 65536) packets) in
    if leb serial total then more else whole body

-- What `Push` returns beside the new state. `stuck` would be a loop that does not end.
pub data Joined : Type 0 where
  complete : Frame → Joined
  incomplete : Joined
  stuck : Joined

-- The frame that is returned, and the state, once the loop has ended.
finish_push : Reassembler → Frame → Collected → Reassembler × Joined
finish_push r frame (whole body) = (
  record r { entries = delete (key_of frame) r.entries },
  complete
      (record frame { body = body; has_subpackage = false; packet_serial = 0; total_packets = 0 }),
)
finish_push r frame missing = (r, incomplete)
finish_push r frame out_of_fuel = (r, stuck)

-- Enough rounds for every uint16 total.
abbrev pub collect_fuel : ℕ → ℕ
collect_fuel total = suc (suc total)

push_entry : Reassembler → Frame → ReassemblyEntry → Reassembler × Joined
push_entry r frame entry =
    if ltb (length entry.packets % 65536) entry.total || entry.total == 0
    then (r, incomplete)
    else finish_push r frame (collect (collect_fuel entry.total) entry.total 1 entry.packets [])

pub push_subpackage : Reassembler → Frame → ℕ → Reassembler × Joined
push_subpackage r frame now =
    let entry = add_packet frame now (lookup (key_of frame) r.entries) in
    push_entry (record r { entries = insert (key_of frame) entry r.entries }) frame entry

unfoldable pub push : Reassembler → Frame → ℕ → Reassembler × Joined
unfolding push_subpackage push_entry finish_push
push r frame now =
    if frame.has_subpackage then push_subpackage (expire r now) frame now else (r, complete frame)

unfoldable pub pending : Reassembler → ℕ
pending r = length r.entries

pub push_of_subpackage :
    (r : Reassembler) (f : Frame) (now : ℕ)
    → f.has_subpackage ≡ true
    → push r f now ≡ push_subpackage (expire r now) f now
unfolding push
push_of_subpackage r f now h =
    ap (λ b. if b then push_subpackage (expire r now) f now else (r, complete f)) h
