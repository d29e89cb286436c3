-- ===== src/Delivery/Waiting.antt =====
-- internal/delivery/worker.go: what a round leaves to be tried again.
use tallerp_telemetry.Base.{
  ℕ, suc, ◌≡◌, inl, inr, refl, ap, ◌∙◌, arith, Bool, true, false, ◌&&◌, List, [], ◌∷◌, ◌++◌, map,
  some, Bytes, bytes_eq, bytes_eq_iff, either_side, Bool-cases, Option-cases, subst, Outcome, ok,
  err, panic, Error,
}
use tallerp_telemetry.Telemetry.{Time, TelemetryEvent}
use tallerp_telemetry.Spool.{
  SpoolRow, Spool, Item, is_pending, has_id, pending_items, TxFaults, update_loop, update_ids,
  commit_rows, deliver_row, mark_delivered, retry_row, mark_retry,
}
use tallerp_telemetry.Spool.Aging.{Ages, Ages-refl, Ages-trans, find_row, retry_row-Ages}
use tallerp_telemetry.Delivery.{
  DeliveryConfig, Response, contains, delivered_ids, RoundFaults, retried_round, partial_round,
  marked_round, posted_round, batch_round, deliver_once,
}
use tallerp_telemetry.Delivery.Rounds.{batch, ids_of, events_of}

-- The event's row is there, pending, and has grown older than `r`.
abbrev pub Waits : Bytes → SpoolRow → List SpoolRow → Type 0
Waits id r rows =
    (r' : SpoolRow) × ((find_row id rows ≡ some r') × (Ages r r' × (is_pending r' ≡ true)))

find_row-has_id :
    (id : Bytes) (rows : List SpoolRow) (r : SpoolRow) → find_row id rows ≡ some r → r.event_id ≡ id
unfolding find_row
find_row-has_id id [] r e = cc
find_row-has_id id (x ∷ rows) r e = elim (Bool-cases (has_id id x)) [
  | inl here ↦ ground (arith, bytes_eq_iff id x.event_id)
  | inr later ↦ find_row-has_id id rows r (rw later at e)
]

find_row-map :
    (change : SpoolRow → SpoolRow) (id : Bytes) (rows : List SpoolRow) (r : SpoolRow)
    → ((x : SpoolRow) → (change x).event_id ≡ x.event_id)
    → find_row id rows ≡ some r
    → find_row id (map change rows) ≡ some (change r)
unfolding find_row
find_row-map change id [] r same e = cc
find_row-map change id (x ∷ rows) r same e =
    let moved : has_id id (change x) ≡ has_id id x = ap (bytes_eq id) (same x) in
    elim (Bool-cases (has_id id x)) [
      | inl here ↦
          let first : x ≡ r = ground arith in rw (moved ∙ here) (ap (λ y. some (change y)) first)
      | inr later ↦ rw (moved ∙ later) (find_row-map change id rows r same (rw later at e))
    ]

-- A change that may be made to the row of an event while it waits.
abbrev Harmless : Bytes → (SpoolRow → SpoolRow) → Type 0
Harmless id change =
    ((x : SpoolRow) → (change x).event_id ≡ x.event_id)
    × ((x : SpoolRow)
        → x.event_id ≡ id
        → is_pending x ≡ true
        → Ages x (change x) × (is_pending (change x) ≡ true))

map-Waits :
    (change : SpoolRow → SpoolRow) (id : Bytes) (r : SpoolRow) (rows : List SpoolRow)
    → Harmless id change
    → Waits id r rows
    → Waits id r (map change rows)
map-Waits change id r rows (same, keeps) (r', (found, (ages, waiting))) =
    let (older, still) = keeps r' (find_row-has_id id rows r' found) waiting in
    (change r', (find_row-map change id rows r' same found, (Ages-trans r r' _ ages older, still)))

contains_first : (j : Bytes) (ids : List Bytes) → contains j (j ∷ ids) ≡ true
unfolding contains
contains_first j ids = rw ((bytes_eq_iff j j).1 refl) refl

contains_later :
    (k j : Bytes) (ids : List Bytes) → contains k ids ≡ true → contains k (j ∷ ids) ≡ true
unfolding contains
contains_later k j ids h = ground arith

-- The loop of a transaction over IDs, each of which stands for a harmless change.
update_loop-Waits :
    (change : Bytes → SpoolRow → SpoolRow) (fails : ℕ → Bool) (n : ℕ) (id : Bytes) (r : SpoolRow)
    (ids : List Bytes) (rows : List SpoolRow)
    → ((j : Bytes) → contains j ids ≡ true → Harmless id (change j))
    → Waits id r rows
    → (last : List SpoolRow) → update_loop change fails n ids rows ≡ some last
    → Waits id r last
unfolding update_loop
update_loop-Waits change fails n id r [] rows harmless h last e =
    let same : rows ≡ last = cc in rw (← same) h
update_loop-Waits change fails n id r (j ∷ ids) rows harmless h last e =
    elim (Bool-cases (fails n)) [
      | inl failed ↦ absurd (ground arith)
      | inr fine ↦
          update_loop-Waits change fails (suc n) id r ids (map (change j) rows)
            (λ k there. harmless k (contains_later k j ids there))
            (map-Waits (change j) id r rows (harmless j (contains_first j ids)) h) last
            (rw fine at e)
    ]

update_ids-Waits :
    (faults : TxFaults) (change : Bytes → SpoolRow → SpoolRow) (s : Spool) (id : Bytes)
    (r : SpoolRow) (ids : List Bytes)
    → ((j : Bytes) → contains j ids ≡ true → Harmless id (change j))
    → Waits id r s.rows
    → Waits id r (update_ids faults change s ids).0.rows
unfolding update_ids commit_rows
update_ids-Waits faults change s id r [] harmless h = h
update_ids-Waits faults change s id r (j ∷ ids) harmless h =
    either_side (λ (x : Spool × Outcome (Unit {0})). Waits id r x.0.rows) faults.begin (λ _. h)
      (λ _. elim (Option-cases (update_loop change faults.update 0 (j ∷ ids) s.rows)) [
        | inl failed ↦ rw (failed, commit_rows) h
        | inr (last, runs) ↦
            rw (runs, commit_rows)
              (either_side (λ (x : Spool × Outcome (Unit {0})). Waits id r x.0.rows) faults.commit
                (λ _. h)
                (λ _.
                  update_loop-Waits change faults.update 0 id r (j ∷ ids) s.rows harmless h last
                    runs))
      ])

retry_row-Harmless :
    (id : Bytes) (next : Time) (message j : Bytes) → Harmless id (retry_row next message j)
unfolding retry_row
retry_row-Harmless id next message j = (
  λ x.
      either_side (λ (y : SpoolRow). y.event_id ≡ x.event_id) (has_id j x && is_pending x)
        (λ _. refl) (λ _. refl),
  λ x _ waiting. (
    unfold retry_row in retry_row-Ages next message j x,
    either_side (λ (y : SpoolRow). is_pending y ≡ true) (has_id j x && is_pending x) (λ _. waiting)
        (λ _. waiting),
  ),
)

deliver_row-Harmless :
    (id : Bytes) (now : Time) (ids : List Bytes) (j : Bytes)
    → contains id ids ≡ false
    → contains j ids ≡ true
    → Harmless id (deliver_row now j)
unfolding deliver_row
deliver_row-Harmless id now ids j out there = (
  λ x. either_side (λ (y : SpoolRow). y.event_id ≡ x.event_id) (has_id j x) (λ _. refl) (λ _. refl),
  λ x named waiting.
      either_side (λ (y : SpoolRow). Ages x y × (is_pending y ≡ true)) (has_id j x)
        (λ here. absurd (taken x named here)) (λ _. (Ages-refl x, waiting)),
)
  where
    taken : (x : SpoolRow) → x.event_id ≡ id → has_id j x ≡ true → ⊥
    taken x named here =
        let same : j ≡ id = (bytes_eq_iff j x.event_id).0 here ∙ named in
        let both : contains id ids ≡ true = subst (λ k. contains k ids ≡ true) same there in cc

delivered_ids-out :
    (set ids : List Bytes) (id : Bytes)
    → (contains id ids && contains id set) ≡ false
    → contains id (delivered_ids set ids) ≡ false
unfolding contains delivered_ids
delivered_ids-out set [] id h = refl
delivered_ids-out set (x ∷ ids) id h = elim (Bool-cases (bytes_eq id x)) [
  | inl same ↦
      let out : contains x set ≡ false =
        subst (λ j. contains j set ≡ false) ((bytes_eq_iff id x).0 same) (rw same at h) in
      rw out (
        delivered_ids-out set ids id
          (both_false (contains id ids) (contains id set) (rw same at h)))
  | inr other ↦
      let rest = delivered_ids-out set ids id (rw other at h) in
      either_side (λ l. contains id l ≡ false) (contains x set) (λ _. rw other rest) (λ _. rest)
]
  where
    both_false : (a b : Bool) → b ≡ false → (a && b) ≡ false
    both_false a b e = ground arith

mark_retry-Waits :
    (faults : TxFaults) (s : Spool) (ids : List Bytes) (next : Time) (message id : Bytes)
    (r : SpoolRow)
    → Waits id r s.rows
    → Waits id r (mark_retry faults s ids next message).0.rows
unfolding mark_retry
mark_retry-Waits faults s ids next message id r h =
    update_ids-Waits faults _ s id r ids (λ j _. retry_row-Harmless id next _ j) h

marked_round-Waits :
    (faults : RoundFaults) (done left : List Bytes) (next : Time) (id : Bytes) (r : SpoolRow)
    (marked : Spool × Outcome (Unit {0}))
    → Waits id r marked.0.rows
    → Waits id r (marked_round faults done left next marked).0.rows
unfolding marked_round partial_round
marked_round-Waits faults done [] next id r (t, ok _) h = h
marked_round-Waits faults done (j ∷ left) next id r (t, ok _) h =
    mark_retry-Waits faults.retry t (j ∷ left) next _ id r h
marked_round-Waits faults done left next id r (t, err e) h = h
marked_round-Waits faults done left next id r (t, panic) h = h

-- The answer, if one arrives, does not take the event.
abbrev pub NotTaken : Bytes → List Bytes → Outcome Response → Type 0
NotTaken id ids answered =
    (answer : Response)
    → answered ≡ ok answer
    → (contains id ids && contains id (answer.accepted ++ answer.duplicates)) ≡ false

posted_round-Waits :
    (faults : RoundFaults) (text : Error → Bytes) (s : Spool) (ids : List Bytes) (now next : Time)
    (answered : Outcome Response) (id : Bytes) (r : SpoolRow)
    → NotTaken id ids answered
    → Waits id r s.rows
    → Waits id r (posted_round faults text s ids now next answered).0.rows
unfolding posted_round retried_round mark_delivered
posted_round-Waits faults text s ids now next (ok answer) id r out h =
    let set = answer.accepted ++ answer.duplicates in
    let spared = delivered_ids-out set ids id (out answer refl) in
    marked_round-Waits faults _ _ next id r _ (
      update_ids-Waits faults.deliver _ s id r (delivered_ids set ids)
        (λ j there. deliver_row-Harmless id now (delivered_ids set ids) j spared there) h)
posted_round-Waits faults text s ids now next (err e) id r out h =
    mark_retry-Waits faults.retry s ids next (text e) id r h
posted_round-Waits faults text s ids now next panic id r out h = h

batch_round-Waits :
    (send : List TelemetryEvent → Outcome Response) (jitter : ℕ → ℕ) (text : Error → Bytes)
    (faults : RoundFaults) (s : Spool) (now : Time) (items : List Item) (id : Bytes) (r : SpoolRow)
    → NotTaken id (ids_of items) (send (events_of items))
    → Waits id r s.rows
    → Waits id r (batch_round send jitter text faults s now (ok items)).0.rows
unfolding batch_round
batch_round-Waits send jitter text faults s now [] id r out h = h
batch_round-Waits send jitter text faults s now (item ∷ items) id r out h =
    posted_round-Waits faults text s (ids_of (item ∷ items)) now _ (send (events_of (item ∷ items)))
      id r out h

-- A round marks no event as delivered that the backend has not taken: a pending event that is not
-- in the batch, or that the answer, if one arrives, names neither as accepted nor as a duplicate,
-- is pending after the round, in a row with the same ID and payload and no fewer attempts,
-- whatever calls on the spool fail.
pub deliver_once-Waits :
    (send : List TelemetryEvent → Outcome Response) (jitter : ℕ → ℕ) (text : Error → Bytes)
    (faults : RoundFaults) (config : DeliveryConfig) (s : Spool) (now : Time) (id : Bytes)
    (r : SpoolRow)
    → find_row id s.rows ≡ some r
    → is_pending r ≡ true
    → NotTaken id (ids_of (batch config s now)) (send (events_of (batch config s now)))
    → Waits id r (deliver_once send jitter text faults config s now).0.rows
unfolding deliver_once pending_items batch_round
deliver_once-Waits send jitter text faults config s now id r found waiting out =
    let here : Waits id r s.rows = (r, (found, (Ages-refl r, waiting))) in
    elim (Bool-cases faults.read) [
      | inl unread ↦ rw unread here
      | inr readable ↦ rw readable (
          unfold batch_round in
          batch_round-Waits send jitter text faults s now (batch config s now) id r out here)
    ]
