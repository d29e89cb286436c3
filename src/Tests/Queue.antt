-- ===== src/Tests/Queue.antt =====
-- Runs of internal/spool and internal/delivery: an event is stored, sent and cleaned up.
use tallerp_telemetry.Base.{
  ℕ, ◌≡◌, ◌≤◌, ◌<◌, ◌*◌, ◌⊎◌, refl, arith, Bool, true, false, List, [], ◌∷◌, ◌++◌, none, some, ◌+◌,
  ◌&&◌, Bytes, bytes_eq, Outcome, ok, Error,
}
use tallerp_telemetry.Telemetry.{TelemetryEvent, empty_event}
use tallerp_telemetry.Spool.{
  SpoolRow, pending, Spool, new_row, store_event, TxFaults, mark_delivered, cleanup, due_rows,
}
use tallerp_telemetry.Spool.Aging.{find_row}
use tallerp_telemetry.Spool.Invariant.{
  stored, marked, cleaned, Steps, no_step, then_step, empty_spool,
}
use tallerp_telemetry.Spool.History.{Lives, WasDelivered, Steps-Lives, no_faults, store_event-find}
use tallerp_telemetry.Delivery.{
  DeliveryConfig, Response, second, backoff, random_jitter, contains, RoundFaults, deliver_once,
}
use tallerp_telemetry.Delivery.Backoffs.{random_jitter-backoff}
use tallerp_telemetry.Delivery.Rounds.{IsDone, batch, ids_of, events_of, deliver_once-IsDone}
use tallerp_telemetry.Delivery.Waiting.{Waits, NotTaken, deliver_once-Waits}

abbrev an_id : Bytes
an_id = b'a' ∷ b'1' ∷ []

abbrev an_event : TelemetryEvent
an_event = record empty_event { event_id = an_id; imei = b'8' ∷ b'6' ∷ [] }

abbrev a_row : SpoolRow
a_row = new_row 1 an_event 5

-- The queue once the event is in it.
abbrev one_event : Spool
one_event = record { rows = a_row ∷ []; next_id = 2 }

abbrev unchanged : TelemetryEvent → TelemetryEvent
unchanged event = event

abbrev works : TxFaults
works = record { begin = false; update = λ _. false; commit = false }

abbrev after_store : Spool
after_store = (store_event unchanged no_faults empty_spool an_event 5).0

abbrev after_delivery : Spool
after_delivery = (mark_delivered works after_store (an_id ∷ []) 9).0

abbrev life : Steps empty_spool (cleanup false after_delivery 20).0
life =
    then_step
      (then_step
        (then_step (no_step empty_spool) (stored unchanged no_faults empty_spool an_event 5))
        (marked works after_store (an_id ∷ []) 9))
      (cleaned false after_delivery 20)

an_event_found : find_row an_id one_event.rows ≡ some a_row
unfolding find_row bytes_eq
an_event_found = refl

Steps-Lives_example :
    Lives an_id a_row (cleanup false one_event 20).0
    ⊎ WasDelivered an_id a_row one_event (cleanup false one_event 20).0
Steps-Lives_example =
    Steps-Lives an_id one_event (cleanup false one_event 20).0 a_row
      (then_step (no_step one_event) (cleaned false one_event 20)) an_event_found

store_event-find_example :
    (t : Spool) × ((fresh : Bool) × ((r : SpoolRow) × ((store_event unchanged no_faults one_event
              an_event 7
            ≡ (t, ok fresh))
          × ((find_row an_id t.rows ≡ some r)
              × (((fresh ≡ true)
                    × ((t ≡ record { rows = one_event.rows ++ r ∷ []; next_id = 2 + 1 })
                        × (r ≡ record {
                          id = 2;
                          event_id = an_id;
                          payload = an_event;
                          status = pending;
                          attempts = 0;
                          next_attempt_at = 7;
                          created_at = 7;
                          delivered_at = none;
                          last_error = none;
                        })))
                  ⊎ ((fresh ≡ false)
                      × ((t ≡ one_event) × (find_row an_id one_event.rows ≡ some r))))))))
store_event-find_example = store_event-find unchanged one_event an_event 7 refl

abbrev config : DeliveryConfig
config = record { batch_size = 10; interval = 5; retention = 5; critical_pending = 5 }

abbrev round_works : RoundFaults
round_works = record { read = false; deliver = works; retry = works }

-- A backend that accepts the event.
abbrev accepting : List TelemetryEvent → Outcome Response
accepting events = ok (record { accepted = an_id ∷ []; duplicates = []; rejected = [] })

abbrev no_jitter : ℕ → ℕ
no_jitter base = base

abbrev no_text : Error → Bytes
no_text e = []

-- A backend that rejects the event.
abbrev rejecting : List TelemetryEvent → Outcome Response
rejecting events = ok (record { accepted = []; duplicates = []; rejected = an_id ∷ [] })

rejects_event :
    NotTaken an_id
      (ids_of (batch config one_event 7))
      (rejecting (events_of (batch config one_event 7)))
unfolding contains
rejects_event answer e =
    let none_accepted : [] ≡ answer.accepted = cc in
    let none_known : [] ≡ answer.duplicates = cc in
    rw (← none_accepted, ← none_known) (out (contains an_id (ids_of (batch config one_event 7))))
  where
    out : (b : Bool) → (b && false) ≡ false
    out true = refl
    out false = refl

deliver_once-Waits_example :
    Waits an_id a_row
      (deliver_once rejecting no_jitter no_text round_works config one_event 7).0.rows
deliver_once-Waits_example =
    deliver_once-Waits rejecting no_jitter no_text round_works config one_event 7 an_id a_row
      an_event_found refl rejects_event

in_batch : contains an_id (ids_of (batch config one_event 7)) ≡ true
unfolding contains due_rows bytes_eq
in_batch = refl

is_accepted : contains an_id ((an_id ∷ []) ++ []) ≡ true
unfolding contains bytes_eq
is_accepted = refl

deliver_once-IsDone_example :
    IsDone an_id (deliver_once accepting no_jitter no_text round_works config one_event 7).0.rows
deliver_once-IsDone_example =
    deliver_once-IsDone accepting no_jitter no_text round_works config one_event 7
      (record { accepted = an_id ∷ []; duplicates = []; rejected = [] }) an_id refl
      (record { begins = refl; updates = λ _. refl; commits = refl }) refl in_batch is_accepted

random_jitter-backoff_example :
    (5 * second ≤ random_jitter (λ _. 0) (backoff 3))
    × (random_jitter (λ _. 0) (backoff 3) < 2160 * second)
random_jitter-backoff_example = random_jitter-backoff (λ _. 0) 3 (λ n h. omega arith)
