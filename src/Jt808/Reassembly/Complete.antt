-- ===== src/Jt808/Reassembly/Complete.antt =====
-- internal/protocol/jt808/reassembly.go: the packets of one message, pushed one after the other.
use tallerp_telemetry.Base.{
  ℕ, zero, suc, ◌+◌, ◌%◌, ◌≤◌, ◌<◌, ◌≡◌, ◌≢◌, refl, sym, ◌∙◌, ap, subst, true, false, List, [], ◌∷◌,
  ◌++◌, none, some, arith, ltb, leb, ◌==◌, length, All, Bytes, nat_key, lookup, insert, delete,
  lookup-insert, lookup-insert_self, lookup-delete_self, lookup-delete_if-none,
  lookup-delete_if-some, length-insert_new, append_assoc, append-nil, ◌⊎◌, inl, inr, Bool-cases,
}
use tallerp_telemetry.Jt808.Types.{Frame}
use tallerp_telemetry.Jt808.Reassembly.{
  ReassemblyKey, reassembly_key, ReassemblyEntry, Reassembler, is_stale, expire, key_of, add_packet,
  whole, collect, Joined, complete, incomplete, push_entry, finish_push, push, push_subpackage,
  push_of_subpackage,
}

-- `count` parts of a message, from number `first` on.
abbrev pub parts : (ℕ → Bytes) → ℕ → ℕ → Bytes
parts part first zero = []
parts part first (suc count) = part first ++ parts part (first + 1) count

-- A packet map that has part `s`.
abbrev Has : (ℕ → Bytes) → List (ℕ × Frame) → ℕ → Type 0
Has part packets s = (f : Frame) × (lookup s packets ≡ some f) × (f.body ≡ part s)

collect-parts :
    (part : ℕ → Bytes) (packets : List (ℕ × Frame)) (total fuel count first : ℕ) (body : Bytes)
    → first + count ≡ total + 1
    → total < 65535
    → count < fuel
    → ((s : ℕ) → first ≤ s → s ≤ total → Has part packets s)
    → collect fuel total first packets body ≡ whole (body ++ parts part first count)
unfolding collect
collect-parts part packets total zero count first body e small h has = absurd (omega arith)
collect-parts part packets total (suc fuel) zero first body e small h has =
    let past : leb first total ≡ false = ground arith in rw (past, append-nil)
collect-parts part packets total (suc fuel) (suc count) first body e small h has =
    let inside : leb first total ≡ true = ground arith in
    let (f, found, same) = has first (omega arith) (omega arith) in
    let plain : (first + 1) % 65536 ≡ first + 1 = omega arith in
    rw (inside, found, same, plain, ← append_assoc body (part first) (parts part (first + 1) count))
      (collect-parts part packets total fuel count (first + 1) (body ++ part first) (omega arith)
        small (omega arith) (λ s lo hi. has s (omega arith) hi))

push_subpackage_entry :
    (r : Reassembler) (f : Frame) (now : ℕ) {key : ReassemblyKey} {entry : ReassemblyEntry}
    → key_of f ≡ key
    → add_packet f now (lookup (key_of f) r.entries) ≡ entry
    → push_subpackage r f now
      ≡ push_entry (record r { entries = insert key entry r.entries }) f entry
unfolding push_subpackage
push_subpackage_entry r f now keyed grown =
    λ i. push_entry (record r { entries = insert (keyed i) (grown i) r.entries }) f (grown i)

module _ (n : ℕ) (part : ℕ → Bytes) (key : ReassemblyKey) (start ttl : ℕ) where
  -- A packet of the message, and the time at which it comes in.
  pub record IsPacket (p : Frame × ℕ) : Type 0 where
    pub subpackage : p.0.has_subpackage ≡ true
    pub keyed : key_of p.0 ≡ key
    pub counted : p.0.total_packets ≡ n
    pub from_one : 1 ≤ p.0.packet_serial
    pub to_total : p.0.packet_serial ≤ n
    pub carries : p.0.body ≡ part p.0.packet_serial
    pub after : start ≤ p.1
    pub before : p.1 ≤ start + ttl

  abbrev entry_of : List (ℕ × Frame) → ℕ → ReassemblyEntry
  entry_of packets now = record { total = n; packets = packets; last_seen = now }

  -- The packets that have come in so far.
  abbrev Holds : Reassembler → List (ℕ × Frame) → Type 0
  Holds r packets =
      ((lookup key r.entries ≡ none) × (packets ≡ []))
      ⊎ ((last : ℕ) × (start ≤ last) × (lookup key r.entries ≡ some (entry_of packets last)))

  add_packet-Holds :
      (r : Reassembler) (packets : List (ℕ × Frame)) (f : Frame) (now : ℕ)
      → r.ttl ≡ ttl
      → Holds r packets
      → IsPacket (f, now)
      → add_packet f now (lookup (key_of f) (expire r now).entries)
        ≡ entry_of (insert f.packet_serial f packets) now
  unfolding add_packet expire
  add_packet-Holds r packets f now e (inl (new, empty)) p =
      let gone = lookup-delete_if-none (is_stale r.ttl now) key r.entries new in
      rw (p.keyed, gone, empty) (ground (arith, p))
  add_packet-Holds r packets f now e (inr (last, later, held)) p =
      let fresh : is_stale r.ttl now (entry_of packets last) ≡ false = ground (arith, p) in
      let kept = lookup-delete_if-some (is_stale r.ttl now) key r.entries _ held fresh in
      rw (p.keyed, kept) (ground (arith, p))

  -- The state with the packet added.
  abbrev added : Reassembler → List (ℕ × Frame) → ℕ → Reassembler
  added r packets now = record r {
    entries = insert key (entry_of packets now) (expire r now).entries;
  }

  push-added :
      (r : Reassembler) (packets : List (ℕ × Frame)) (f : Frame) (now : ℕ)
      → r.ttl ≡ ttl
      → Holds r packets
      → IsPacket (f, now)
      → let packets' = insert f.packet_serial f packets in
        push r f now ≡ push_entry (added r packets' now) f (entry_of packets' now)
  unfolding expire
  push-added r packets f now e h p =
      push_of_subpackage r f now p.subpackage
      ∙ push_subpackage_entry (expire r now) f now p.keyed (add_packet-Holds r packets f now e h p)

  added-Holds :
      (r : Reassembler) (packets : List (ℕ × Frame)) (now : ℕ)
      → start ≤ now
      → Holds (added r packets now) packets
  added-Holds r packets now h =
      inr (now, h, lookup-insert_self key (entry_of packets now) (expire r now).entries)

  push_entry_incomplete :
      (r : Reassembler) (f : Frame) (packets : List (ℕ × Frame)) (now : ℕ)
      → n < 65535
      → length packets < n
      → push_entry r f (entry_of packets now) ≡ (r, incomplete)
  unfolding push_entry
  push_entry_incomplete r f packets now small few = ground arith

  -- What `Push` makes of the last packet to come in.
  abbrev pub whole_frame : Frame → Frame
  whole_frame f = record f {
    body = parts part 1 n;
    has_subpackage = false;
    packet_serial = 0;
    total_packets = 0;
  }

  push_entry_complete :
      (r : Reassembler) (f : Frame) (packets : List (ℕ × Frame)) (now : ℕ)
      → 1 ≤ n
      → n < 65535
      → length packets ≡ n
      → ((s : ℕ) → 1 ≤ s → s ≤ n → Has part packets s)
      → push_entry r f (entry_of packets now)
        ≡ (record r { entries = delete (key_of f) r.entries }, complete (whole_frame f))
  unfolding push_entry finish_push
  push_entry_complete r f packets now pos small all has =
      let enough : ltb (length packets % 65536) n ≡ false = ground arith in
      let some_total : (n == 0) ≡ false = ground arith in
      let joined =
        collect-parts part packets n (suc (suc n)) n 1 [] (omega arith) small (omega arith) has in
      rw (enough, some_total, joined)

  -- What every packet map reached so far knows of the packets still to come.
  abbrev pub Brings : List (Frame × ℕ) → ℕ → Type 0
  Brings [] s = ⊥
  Brings (p ∷ ps) s = (p.0.packet_serial ≡ s) ⊎ Brings ps s

  abbrev pub Distinct : List (Frame × ℕ) → Type 0
  Distinct [] = Unit
  Distinct (p ∷ ps) = All (λ q. p.0.packet_serial ≢ q.0.packet_serial) ps × Distinct ps

  abbrev New : List (ℕ × Frame) → List (Frame × ℕ) → Type 0
  New packets = All (λ (p : Frame × ℕ). lookup p.0.packet_serial packets ≡ none)

  New-insert :
      (packets : List (ℕ × Frame)) (f : Frame) (ps : List (Frame × ℕ))
      → All (λ q. f.packet_serial ≢ q.0.packet_serial) ps
      → New packets ps
      → New (insert f.packet_serial f packets) ps
  New-insert packets f [] d h = tt
  New-insert packets f (q ∷ ps) d h = (
    ground (arith, lookup-insert f.packet_serial q.0.packet_serial f packets),
    New-insert packets f ps d.1 h.1,
  )

  -- Each part is there, or comes with a packet.
  abbrev Covered : List (ℕ × Frame) → List (Frame × ℕ) → Type 0
  Covered packets ps = (s : ℕ) → 1 ≤ s → s ≤ n → Has part packets s ⊎ Brings ps s

  Has-insert :
      (packets : List (ℕ × Frame)) (f : Frame) (s : ℕ)
      → f.body ≡ part f.packet_serial
      → Has part packets s ⊎ (f.packet_serial ≡ s)
      → Has part (insert f.packet_serial f packets) s
  Has-insert packets f s e h = elim (Bool-cases (f.packet_serial == s)) [
    | inl same ↦
        let e' : f.packet_serial ≡ s = ground arith in
        (f, lookup-insert f.packet_serial s f packets ∙ rw same, e ∙ ap part e')
    | inr other ↦ elim h [
      | inl (g, found, good) ↦ (g, lookup-insert f.packet_serial s f packets ∙ rw other found, good)
      | inr e' ↦ absurd (ground arith)
    ]
  ]

  Covered-insert :
      (packets : List (ℕ × Frame)) (p : Frame × ℕ) (ps : List (Frame × ℕ))
      → IsPacket p
      → Covered packets (p ∷ ps)
      → Covered (insert p.0.packet_serial p.0 packets) ps
  Covered-insert packets p ps i c s lo hi = elim (c s lo hi) [
    | inl has ↦ inl (Has-insert packets p.0 s i.carries (inl has))
    | inr (inl e) ↦ inl (Has-insert packets p.0 s i.carries (inr e))
    | inr (inr later) ↦ inr later
  ]

  -- The pushes, one after the other.
  abbrev pub push_all : Reassembler → List (Frame × ℕ) → Reassembler × List Joined
  push_all r [] = (r, [])
  push_all r ((f, now) ∷ ps) =
      let (r', out) = push r f now in let (last, outs) = push_all r' ps in (last, out ∷ outs)

  -- Nothing until the last packet, and then the message.
  abbrev pub only_last : Frame × ℕ → List (Frame × ℕ) → List Joined
  only_last p [] = complete (whole_frame p.0) ∷ []
  only_last p (q ∷ ps) = incomplete ∷ only_last q ps

  -- What has come in, and what is still to come.
  record Pending (r : Reassembler) (packets : List (ℕ × Frame)) (ps : List (Frame × ℕ))
      : Type 0 where
    same_ttl : r.ttl ≡ ttl
    holds : Holds r packets
    distinct : Distinct ps
    new : New packets ps
    covered : Covered packets ps
    count : length packets + length ps ≡ n
    good : All IsPacket ps

  Pending-step :
      (r : Reassembler) (packets : List (ℕ × Frame)) (p q : Frame × ℕ) (ps : List (Frame × ℕ))
      → Pending r packets (p ∷ q ∷ ps)
      → let packets' = insert p.0.packet_serial p.0 packets in
        Pending (added r packets' p.1) packets' (q ∷ ps)
  Pending-step r packets p q ps h =
      let packets' = insert p.0.packet_serial p.0 packets in
      record {
        same_ttl = unfold expire in h.same_ttl;
        holds = added-Holds r packets' p.1 h.good.0.after;
        distinct = h.distinct.1;
        new = New-insert packets p.0 (q ∷ ps) h.distinct.0 h.new.1;
        covered = Covered-insert packets p (q ∷ ps) h.good.0 h.covered;
        count = omega (arith, length-insert_new p.0.packet_serial p.0 packets h.new.0, h.count);
        good = h.good.1;
      }

  run_packets :
      (p : Frame × ℕ) (ps : List (Frame × ℕ)) (r : Reassembler) (packets : List (ℕ × Frame))
      → n < 65535
      → Pending r packets (p ∷ ps)
      → ((push_all r (p ∷ ps)).1 ≡ only_last p ps)
        × (lookup key (push_all r (p ∷ ps)).0.entries ≡ none)
  run_packets (f, now) [] r packets small h =
      let packets' = insert f.packet_serial f packets in
      let grown = length-insert_new f.packet_serial f packets h.new.0 in
      let last =
        push-added r packets f now h.same_ttl h.holds h.good.0
        ∙ push_entry_complete (added r packets' now) f packets' now (omega (arith, h.count)) small
            (omega (arith, grown, h.count))
            (λ s lo hi. elim (Covered-insert packets (f, now) [] h.good.0 h.covered s lo hi) [
              | inl has ↦ has
              | inr never ↦ absurd never
            ]) in
      let X = (added r packets' now).entries in
      (
        ap (λ t. t.1 ∷ []) last,
        ap (λ t. lookup key t.0.entries) last
            ∙ ap (λ k. lookup key (delete k X)) h.good.0.keyed
            ∙ lookup-delete_self key X,
      )
  run_packets (f, now) (q ∷ ps) r packets small h =
      let packets' = insert f.packet_serial f packets in
      let grown = length-insert_new f.packet_serial f packets h.new.0 in
      let this =
        push-added r packets f now h.same_ttl h.holds h.good.0
        ∙ push_entry_incomplete (added r packets' now) f packets' now small
            (omega (arith, grown, h.count)) in
      let later =
        run_packets q ps (added r packets' now) packets' small
          (Pending-step r packets (f, now) q ps h) in
      subst
        (λ t.
          ((t.1 ∷ (push_all t.0 (q ∷ ps)).1) ≡ incomplete ∷ only_last q ps)
          × (lookup key (push_all t.0 (q ∷ ps)).0.entries ≡ none))
        (sym this) (ap (◌∷◌ incomplete) later.0, later.1)

  -- The n packets of a message of n parts, n below 65535, each part once, pushed in any order and
  -- before the TTL is over into a reassembler that holds nothing of it: every push but the last
  -- returns nothing, the last one returns the message with the parts in their order, and nothing
  -- of it is held any more.
  pub push_all-parts :
      (r : Reassembler) (p : Frame × ℕ) (ps : List (Frame × ℕ))
      → n < 65535
      → r.ttl ≡ ttl
      → lookup key r.entries ≡ none
      → All IsPacket (p ∷ ps)
      → Distinct (p ∷ ps)
      → ((s : ℕ) → 1 ≤ s → s ≤ n → Brings (p ∷ ps) s)
      → length (p ∷ ps) ≡ n
      → ((push_all r (p ∷ ps)).1 ≡ only_last p ps)
        × (lookup key (push_all r (p ∷ ps)).0.entries ≡ none)
  push_all-parts r p ps small e none_held good distinct brings count =
      run_packets p ps r [] small (record {
        same_ttl = e;
        holds = inl (none_held, refl);
        distinct = distinct;
        new = all_new (p ∷ ps);
        covered = λ s lo hi. inr (brings s lo hi);
        count = omega arith;
        good = good;
      })
    where
      all_new : (qs : List (Frame × ℕ)) → New [] qs
      all_new [] = tt
      all_new (q ∷ qs) = (unfold lookup in refl, all_new qs)
