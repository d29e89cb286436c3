-- ===== src/Delivery/Rounds.antt =====
-- internal/delivery/worker.go: what a round does to the queue.
use tallerp_telemetry.Base.{
  ℕ, suc, ◌≡◌, inl, inr, refl, sym, ap, subst, ◌∙◌, arith, Bool, true, false, List, [], ◌∷◌, ◌++◌,
  map, some, Bytes, bytes_eq, bytes_eq_iff, either_side, Bool-cases, All, Outcome, ok, Error, take,
}
use tallerp_telemetry.Telemetry.{Time, TelemetryEvent}
use tallerp_telemetry.Spool.{
  SpoolRow, Spool, Item, item_of, is_pending, has_id, due_rows, pending_items, TxFaults,
  update_loop, update_ids, commit_rows, deliver_row, mark_delivered, mark_retry,
}
use tallerp_telemetry.Spool.Aging.{
  Aged, Aged-refl, Aged-trans, update_ids-Aged, map-Aged, deliver_row-Ages, retry_row-Ages,
}
use tallerp_telemetry.Delivery.{
  DeliveryConfig, Response, contains, delivered_ids, RoundFaults, partial_round, marked_round,
  posted_round, batch_round, deliver_once,
}

-- No row of the event is pending.
abbrev pub IsDone : Bytes → List SpoolRow → Type 0
IsDone id rows = All (λ r. has_id id r ≡ true → is_pending r ≡ false) rows

IsDone-Aged :
    (id : Bytes) (rows rows' : List SpoolRow) → Aged rows rows' → IsDone id rows → IsDone id rows'
unfolding Aged
IsDone-Aged id [] [] h k = tt
IsDone-Aged id [] (y ∷ rows') h k = absurd h
IsDone-Aged id (x ∷ rows) [] h k = absurd h
IsDone-Aged id (x ∷ rows) (y ∷ rows') h k = (
  λ here. h.0.stays_delivered (k.0 (ap (bytes_eq id) (sym h.0.same_event) ∙ here)),
  IsDone-Aged id rows rows' h.1 k.1,
)

deliver_row-IsDone :
    (now : Time) (id : Bytes) (rows : List SpoolRow) → IsDone id (map (deliver_row now id) rows)
unfolding deliver_row
deliver_row-IsDone now id [] = tt
deliver_row-IsDone now id (r ∷ rows) = (
  either_side (λ (x : SpoolRow). has_id id x ≡ true → is_pending x ≡ false) (has_id id r)
      (λ _ _. refl) (λ other here. absurd (ground arith)),
  deliver_row-IsDone now id rows,
)

-- Where no statement fails, the loop ends, and every event named in it is done.
update_loop_delivered :
    (now : Time) (fails : ℕ → Bool) (n : ℕ) (ids : List Bytes) (rows : List SpoolRow)
    → ((n : ℕ) → fails n ≡ false)
    → (last : List SpoolRow) × ((update_loop (deliver_row now) fails n ids rows ≡ some last)
        × (Aged rows last × ((id : Bytes) → contains id ids ≡ true → IsDone id last)))
unfolding update_loop contains
update_loop_delivered now fails n [] rows fine = (rows, (refl, (Aged-refl rows, λ id h. cc)))
update_loop_delivered now fails n (id ∷ ids) rows fine =
    let changed = map (deliver_row now id) rows in
    let (last, (runs, (aged, done))) = update_loop_delivered now fails (suc n) ids changed fine in
    (
      last,
      (
        rw (fine n) runs,
        (
          Aged-trans rows changed last
              (map-Aged (deliver_row now id) rows (deliver_row-Ages now id)) aged,
          λ j h. elim (Bool-cases (bytes_eq j id)) [
            | inl same ↦ IsDone-Aged j changed last aged (
                subst (λ k. IsDone k changed) (sym ((bytes_eq_iff j id).0 same))
                  (deliver_row-IsDone now id rows))
            | inr other ↦ done j (rw other at h)
          ],
        ),
      ),
    )

-- No call of a transaction fails.
pub record NoFault (faults : TxFaults) : Type 0 where
  pub begins : faults.begin ≡ false
  pub updates : (n : ℕ) → faults.update n ≡ false
  pub commits : faults.commit ≡ false

mark_delivered-IsDone :
    (faults : TxFaults) (s : Spool) (ids : List Bytes) (now : Time) (id : Bytes)
    → NoFault faults
    → contains id ids ≡ true
    → (t : Spool) × ((mark_delivered faults s ids now ≡ (t, ok tt)) × IsDone id t.rows)
unfolding mark_delivered update_ids commit_rows contains
mark_delivered-IsDone faults s [] now id none_fails h = cc
mark_delivered-IsDone faults s (x ∷ ids) now id none_fails h =
    let (last, (runs, (aged, done))) =
      update_loop_delivered now faults.update 0 (x ∷ ids) s.rows none_fails.updates in
    (
      record s { rows = last },
      (rw (none_fails.begins, runs, none_fails.commits, commit_rows) refl, done id h),
    )

contains-delivered_ids :
    (set ids : List Bytes) (id : Bytes)
    → contains id ids ≡ true
    → contains id set ≡ true
    → contains id (delivered_ids set ids) ≡ true
unfolding contains delivered_ids
contains-delivered_ids set [] id h k = cc
contains-delivered_ids set (x ∷ ids) id h k = elim (Bool-cases (bytes_eq id x)) [
  | inl same ↦
      let here : contains x set ≡ true =
        subst (λ j. contains j set ≡ true) ((bytes_eq_iff id x).0 same) k in
      rw (here, same) refl
  | inr other ↦
      let rest = contains-delivered_ids set ids id (rw other at h) k in
      either_side (λ l. contains id l ≡ true) (contains x set) (λ _. rw other rest) (λ _. rest)
]

partial_round-IsDone :
    (faults : RoundFaults) (s : Spool) (count : ℕ) (ids : List Bytes) (next : Time) (id : Bytes)
    → IsDone id s.rows
    → IsDone id (partial_round faults s count ids next).0.rows
unfolding partial_round mark_retry
partial_round-IsDone faults s count [] next id h = h
partial_round-IsDone faults s count (x ∷ ids) next id h =
    IsDone-Aged id s.rows _ (update_ids-Aged faults.retry _ s (x ∷ ids) (retry_row-Ages next _)).0 h

marked_round-IsDone :
    (faults : RoundFaults) (done left : List Bytes) (next : Time) (id : Bytes)
    (r : Spool × Outcome (Unit {0})) (t : Spool)
    → r ≡ (t, ok tt)
    → IsDone id t.rows
    → IsDone id (marked_round faults done left next r).0.rows
unfolding marked_round
marked_round-IsDone faults done left next id r t e h =
    rw e (partial_round-IsDone faults t _ left next id h)

-- The items that a round posts, and their event IDs.
abbrev pub batch : DeliveryConfig → Spool → Time → List Item
batch config s now = map item_of (take config.batch_size (due_rows now s.rows))

abbrev pub ids_of : List Item → List Bytes
ids_of items = map (λ (i : Item). i.event.event_id) items

abbrev pub events_of : List Item → List TelemetryEvent
events_of items = map (λ (i : Item). i.event) items

batch_round-IsDone :
    (send : List TelemetryEvent → Outcome Response) (jitter : ℕ → ℕ) (text : Error → Bytes)
    (faults : RoundFaults) (s : Spool) (now : Time) (items : List Item) (answer : Response)
    (id : Bytes)
    → NoFault faults.deliver
    → send (events_of items) ≡ ok answer
    → contains id (ids_of items) ≡ true
    → contains id (answer.accepted ++ answer.duplicates) ≡ true
    → IsDone id (batch_round send jitter text faults s now (ok items)).0.rows
unfolding batch_round posted_round marked_round contains
batch_round-IsDone send jitter text faults s now [] answer id fine sent h k = cc
batch_round-IsDone send jitter text faults s now (item ∷ items) answer id fine sent h k =
    let set = answer.accepted ++ answer.duplicates in
    let ids = ids_of (item ∷ items) in
    let (t, (marks, done)) =
      mark_delivered-IsDone faults.deliver s (delivered_ids set ids) now id fine
        (contains-delivered_ids set ids id h k) in
    rw sent (
      marked_round-IsDone faults _ _ _ id
        (mark_delivered faults.deliver s (delivered_ids set ids) now) t marks done)

-- If the batch can be read, the answer of the backend arrives and the transaction that marks the
-- delivered events does not fail, then an event of the batch that the answer names as accepted or
-- as a duplicate has no pending row after the round, whether or not the update of the other
-- events fails.
pub deliver_once-IsDone :
    (send : List TelemetryEvent → Outcome Response) (jitter : ℕ → ℕ) (text : Error → Bytes)
    (faults : RoundFaults) (config : DeliveryConfig) (s : Spool) (now : Time) (answer : Response)
    (id : Bytes)
    → faults.read ≡ false
    → NoFault faults.deliver
    → send (events_of (batch config s now)) ≡ ok answer
    → contains id (ids_of (batch config s now)) ≡ true
    → contains id (answer.accepted ++ answer.duplicates) ≡ true
    → IsDone id (deliver_once send jitter text faults config s now).0.rows
unfolding deliver_once pending_items
deliver_once-IsDone send jitter text faults config s now answer id reads fine sent h k =
    rw reads (
      batch_round-IsDone send jitter text faults s now (batch config s now) answer id fine sent h k)
