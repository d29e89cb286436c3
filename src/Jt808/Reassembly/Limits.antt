-- ===== src/Jt808/Reassembly/Limits.antt =====
-- internal/protocol/jt808/reassembly.go: the loop over the packet serials.
use tallerp_telemetry.Base.{
  ℕ, zero, suc, ◌+◌, ◌%◌, ◌≤◌, ◌<◌, ◌≡◌, ◌≢◌, refl, sym, subst, true, List, [], Option, arith, leb,
  Bytes, lookup, nat_key, Option-cases, inl, inr, Bool-cases, ◌++◌,
}
use tallerp_telemetry.Jt808.Types.{Frame}
use tallerp_telemetry.Jt808.Reassembly.{
  ReassemblyEntry, Reassembler, expire, key_of, reassembly_key, add_packet, Collected, whole,
  out_of_fuel, collect, complete, stuck, push_entry, finish_push, push_subpackage,
  push_of_subpackage, push,
}

collect-ne-out_of_fuel :
    (fuel total serial : ℕ) (packets : List (ℕ × Frame)) (body : Bytes)
    → total < 65535
    → total + 1 < fuel + serial
    → serial ≤ total + 1
    → collect fuel total serial packets body ≢ out_of_fuel
unfolding collect
collect-ne-out_of_fuel zero total serial packets body small h inside = absurd (omega arith)
collect-ne-out_of_fuel (suc fuel) total serial packets body small h inside =
    elim (Bool-cases (leb serial total)) [
      | inl more ↦ elim (Option-cases (lookup serial packets)) [
        | inl e ↦ rw (more, e) (λ p. cc)
        | inr (f, e) ↦
            let plain : (serial + 1) % 65536 ≡ serial + 1 = ground arith in
            rw (more, e, plain)
              (collect-ne-out_of_fuel fuel total (serial + 1) packets (body ++ f.body) small
                (omega arith) (ground arith))
      ]
      | inr past ↦ rw past (λ p. cc)
    ]

abbrev total_after : Frame → ℕ → Option ReassemblyEntry → ℕ
total_after frame now found = (add_packet frame now found).total

push_entry-ne-stuck :
    (r : Reassembler) (f : Frame) (entry : ReassemblyEntry)
    → entry.total < 65535
    → (push_entry r f entry).1 ≢ stuck
unfolding push_entry finish_push
push_entry-ne-stuck r f entry small = ground (
  arith,
  collect-ne-out_of_fuel (suc (suc entry.total)) entry.total 1 entry.packets [] small (omega arith)
      (omega arith),
)

-- The loop over the packet serials ends for every total below 65535.
pub push-ne-stuck :
    (r : Reassembler) (f : Frame) (now : ℕ)
    → total_after f now (lookup (key_of f) (expire r now).entries) < 65535
    → (push r f now).1 ≢ stuck
push-ne-stuck r f now small = elim (Bool-cases f.has_subpackage) [
  | inl sub ↦ subst (λ t. t.1 ≢ stuck) (sym (push_of_subpackage r f now sub)) bound
  | inr alone ↦ unfold push in rw alone (λ p. cc)
]
  where
    bound : (push_subpackage (expire r now) f now).1 ≢ stuck
    bound =
        unfold push_subpackage in
        push_entry-ne-stuck _ f (add_packet f now (lookup (key_of f) (expire r now).entries)) small

-- The counter is a uint16, so no serial is above 65535 and the loop's test never fails.
collect_never_whole :
    (fuel serial : ℕ) (packets : List (ℕ × Frame)) (body joined : Bytes)
    → serial < 65536
    → collect fuel 65535 serial packets body ≢ whole joined
unfolding collect
collect_never_whole zero serial packets body joined word = λ p. cc
collect_never_whole (suc fuel) serial packets body joined word =
    let more : leb serial 65535 ≡ true = ground arith in
    elim (Option-cases (lookup serial packets)) [
      | inl e ↦ rw (more, e) (λ p. cc)
      | inr (f, e) ↦
          rw (more, e)
            (collect_never_whole fuel ((serial + 1) % 65536) packets (body ++ f.body) joined
              (omega arith))
    ]

finish_push_never_complete :
    (r : Reassembler) (f g : Frame) (c : Collected)
    → ((joined : Bytes) → c ≢ whole joined)
    → (finish_push r f c).1 ≢ complete g
unfolding finish_push
finish_push_never_complete r f g (whole joined) h = absurd (h joined refl)
finish_push_never_complete r f g Collected.missing h = λ p. cc
finish_push_never_complete r f g out_of_fuel h = λ p. cc

push_entry_never_complete :
    (r : Reassembler) (f g : Frame) (entry : ReassemblyEntry)
    → entry.total ≡ 65535
    → (push_entry r f entry).1 ≢ complete g
unfolding push_entry
push_entry_never_complete r f g entry e = ground (
  arith,
  finish_push_never_complete r f g (collect (suc (suc entry.total)) entry.total 1 entry.packets [])
      (subst
        (λ total.
          (joined : Bytes) → collect (suc (suc total)) total 1 entry.packets [] ≢ whole joined)
        (sym e) (λ joined. collect_never_whole 65537 1 entry.packets [] joined (omega arith))),
)

-- A message whose entry has a total of 65535 packets is never returned by a push of one of its
-- packets, whatever has come in of it before: the loop's 16-bit serial number wraps before it
-- passes the total.
pub push_65535_never_complete :
    (r : Reassembler) (f g : Frame) (now : ℕ)
    → f.has_subpackage ≡ true
    → total_after f now (lookup (key_of f) (expire r now).entries) ≡ 65535
    → (push r f now).1 ≢ complete g
push_65535_never_complete r f g now sub e =
    subst (λ t. t.1 ≢ complete g) (sym (push_of_subpackage r f now sub))
      (unfold push_subpackage in
        push_entry_never_complete _ f g
          (add_packet f now (lookup (key_of f) (expire r now).entries)) e)
