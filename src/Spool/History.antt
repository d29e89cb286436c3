-- ===== src/Spool/History.antt =====
-- internal/spool/spool.go: what becomes of an event that is in the queue.
use tallerp_telemetry.Base.{
  ℕ, ◌≡◌, ◌⊎◌, inl, inr, refl, ◌+◌, arith, Bool, true, false, ◌||◌, List, [], ◌∷◌, ◌++◌, none, some,
  Bytes, bytes_eq_iff, if◌then◌else◌, either_side, Bool-cases, Outcome, ok,
}
use tallerp_telemetry.Telemetry.{Time, TelemetryEvent}
use tallerp_telemetry.Server.Gt.{is_empty}
use tallerp_telemetry.Spool.{
  SpoolRow, pending, Spool, is_pending, has_id, is_stored, new_row, insert_event, StoreFaults,
  store_event, mark_delivered, mark_retry, cleanup,
}
use tallerp_telemetry.Spool.Aging.{
  Ages, Ages-refl, Ages-trans, find_row, find_row-Aged, find_row-append, find_row-kept,
  update_ids-Aged, deliver_row-Ages, retry_row-Ages,
}
use tallerp_telemetry.Spool.Invariant.{
  Step, stored, marked, retried, cleaned, Steps, no_step, then_step,
}

-- The row of an event has grown older in a queue.
abbrev pub Lives : Bytes → SpoolRow → Spool → Type 0
Lives event_id r s = (r' : SpoolRow) × ((find_row event_id s.rows ≡ some r') × Ages r r')

Step-Lives :
    (event_id : Bytes) (s t : Spool) (r : SpoolRow)
    → Step s t
    → find_row event_id s.rows ≡ some r
    → is_pending r ≡ true
    → Lives event_id r t
unfolding store_event insert_event mark_delivered mark_retry cleanup
Step-Lives event_id _ _ r (stored set_id faults s event now) e h =
    let named = if is_empty event.event_id then set_id event else event in
    either_side (λ (x : Spool × Outcome Bool). Lives event_id r x.0) (faults.encode || faults.exec)
      (λ _. (r, (e, Ages-refl r)))
      (λ _.
        either_side (λ (x : Spool × Bool). Lives event_id r x.0) (is_stored named.event_id s.rows)
          (λ _. (r, (e, Ages-refl r)))
          (λ _. (r, (find_row-append event_id s.rows _ r e, Ages-refl r))))
Step-Lives event_id _ _ r (marked faults s ids now) e h =
    find_row-Aged event_id s.rows _ r (update_ids-Aged faults _ s ids (deliver_row-Ages now)).0 e
Step-Lives event_id _ _ r (retried faults s ids next message) e h =
    find_row-Aged event_id s.rows _ r (update_ids-Aged faults _ s ids (retry_row-Ages next _)).0 e
Step-Lives event_id _ _ r (cleaned fails s before) e h =
    either_side (λ (x : Spool × Outcome ℕ). Lives event_id r x.0) fails (λ _. (r, (e, Ages-refl r)))
      (λ _. (r, (find_row-kept before event_id s.rows r e h, Ages-refl r)))

-- At some time on the way from `s` to `t` the event stood in the table as delivered, unchanged.
abbrev pub WasDelivered : Bytes → SpoolRow → Spool → Spool → Type 0
WasDelivered event_id r s t =
    (u : Spool) × ((r' : SpoolRow) × (Steps s u
        × (Steps u t
            × ((find_row event_id u.rows ≡ some r') × (Ages r r' × (is_pending r' ≡ false))))))

-- No event is lost: after any calls of the spool in any order, whatever fails in them, an event
-- that is in the queue is still there with its payload, or has been in the queue as delivered on
-- the way.
pub Steps-Lives :
    (event_id : Bytes) (s t : Spool) (r : SpoolRow)
    → Steps s t
    → find_row event_id s.rows ≡ some r
    → Lives event_id r t ⊎ WasDelivered event_id r s t
Steps-Lives event_id s _ r (no_step _) e = inl (r, (e, Ages-refl r))
Steps-Lives event_id s _ r (then_step {t = m} {u = t} before step) e =
    elim (Steps-Lives event_id s m r before e) [
      | inr (u, (r', (first, (second, rest)))) ↦
          inr (u, (r', (first, (then_step second step, rest))))
      | inl (r', (found, ages)) ↦ elim (Bool-cases (is_pending r')) [
        | inr done ↦ inr (m, (r', (before, (then_step (no_step m) step, (found, (ages, done))))))
        | inl waiting ↦
            let (r'', (again, later)) = Step-Lives event_id m t r' step found waiting in
            inl (r'', (again, Ages-trans r r' r'' ages later))
      ]
    ]

-- No call fails.
abbrev pub no_faults : StoreFaults
no_faults = record { encode = false; exec = false; count = false }

is_stored-find :
    (event_id : Bytes) (rows : List SpoolRow)
    → is_stored event_id rows ≡ true
    → (r : SpoolRow) × (find_row event_id rows ≡ some r)
unfolding is_stored find_row
is_stored-find event_id [] h = cc
is_stored-find event_id (x ∷ rows) h = elim (Bool-cases (has_id event_id x)) [
  | inl here ↦ (x, rw here refl)
  | inr later ↦ let (r, found) = is_stored-find event_id rows (rw later at h) in (r, rw later found)
]

find_row-new :
    (event_id : Bytes) (rows : List SpoolRow) (r : SpoolRow)
    → is_stored event_id rows ≡ false
    → r.event_id ≡ event_id
    → find_row event_id (rows ++ r ∷ []) ≡ some r
unfolding is_stored find_row
find_row-new event_id [] r h same =
    let here : has_id event_id r ≡ true = ground (arith, bytes_eq_iff event_id r.event_id) in
    rw here refl
find_row-new event_id (x ∷ rows) r h same = elim (Bool-cases (has_id event_id x)) [
  | inl here ↦ absurd (ground arith)
  | inr later ↦ rw later (find_row-new event_id rows r (rw later at h) same)
]

-- An event that has an ID, stored without a failure, is in the queue afterwards: as a new last row
-- that is pending, due at once and never tried, holds that event under its ID and has the next row
-- ID, and the call returns true, or its ID was in the queue before, the call returns false and
-- the queue is unchanged.
pub store_event-find :
    (set_id : TelemetryEvent → TelemetryEvent) (s : Spool) (event : TelemetryEvent) (now : Time)
    → is_empty event.event_id ≡ false
    → (t : Spool) × ((fresh : Bool) × ((r : SpoolRow) × ((store_event set_id no_faults s event now
              ≡ (t, ok fresh))
            × ((find_row event.event_id t.rows ≡ some r)
                × (((fresh ≡ true)
                      × ((t ≡ record { rows = s.rows ++ r ∷ []; next_id = s.next_id + 1 })
                          × (r ≡ record {
                            id = s.next_id;
                            event_id = event.event_id;
                            payload = event;
                            status = pending;
                            attempts = 0;
                            next_attempt_at = now;
                            created_at = now;
                            delivered_at = none;
                            last_error = none;
                          })))
                    ⊎ ((fresh ≡ false) × ((t ≡ s) × (find_row event.event_id s.rows ≡ some r))))))))
unfolding store_event insert_event
store_event-find set_id s event now named = elim (Bool-cases (is_stored event.event_id s.rows)) [
  | inl known ↦
      let (r, found) = is_stored-find event.event_id s.rows known in
      (s, (false, (r, (rw (named, known) refl, (found, inr (refl, (refl, found)))))))
  | inr fresh ↦
      let row = new_row s.next_id event now in
      let t : Spool = record { rows = s.rows ++ row ∷ []; next_id = s.next_id + 1 } in
      (
        t,
        (
          true,
          (
            row,
            (
              rw (named, fresh) refl,
              (find_row-new event.event_id s.rows row fresh refl, inl (refl, (refl, refl))),
            ),
          ),
        ),
      )
]
