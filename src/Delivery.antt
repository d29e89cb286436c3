-- ===== src/Delivery.antt =====
-- internal/delivery/worker.go: one round of the delivery of queued events. Durations are nanoseconds.
-- The HTTP exchange, the JSON of the answer, the jitter and the texts of errors are parameters.
pub mod Backoffs
pub mod Rounds
pub mod Waiting
use tallerp_telemetry.Base.{
  ℕ, ◌+◌, ◌-◌, ◌*◌, ◌/◌, ◌≤◌, ◌<◌, Bool, true, false, not, ◌||◌, List, [], ◌∷◌, ◌++◌, map, Option,
  none, some, ltb, leb, ◌==◌, if◌then◌else◌, get_or, length, Bytes, bytes_eq, Error, Outcome, ok,
  err, panic, ◌>>=◌, ◌>>◌, guard, invalid_content,
}
use tallerp_telemetry.Telemetry.{Time, TelemetryEvent}
use tallerp_telemetry.Spool.{
  Spool, Item, TxFaults, pending_items, mark_delivered, mark_retry, cleanup, stats, Stats,
}

abbrev pub second : ℕ
second = 1_000_000_000

-- The fields of `Config` that matter here; what is not positive in the source is 0.
pub record DeliveryConfig : Type 0 where
  pub batch_size : ℕ
  pub interval : ℕ
  pub retention : ℕ
  pub critical_pending : ℕ

-- The defaults that `New` sets.
unfoldable pub with_defaults : DeliveryConfig → DeliveryConfig
with_defaults config = record {
  batch_size = if config.batch_size == 0 then 100 else config.batch_size;
  interval = if config.interval == 0 then 5 * second else config.interval;
  retention = if config.retention == 0 then 24 * 3600 * second else config.retention;
  critical_pending = if config.critical_pending == 0 then 100_000 else config.critical_pending;
}

-- `response`
pub record Response : Type 0 where
  pub accepted : List Bytes
  pub duplicates : List Bytes
  pub rejected : List Bytes

abbrev pub delays : List ℕ
delays =
    5 * second
    ∷ 15 * second
    ∷ 30 * second
    ∷ 60 * second
    ∷ 300 * second
    ∷ 900 * second
    ∷ 1800 * second
    ∷ []

unfoldable pub backoff : ℕ → ℕ
backoff attempt =
    let at_least = if ltb attempt 1 then 1 else attempt in
    let at_most = if ltb 7 at_least then 7 else at_least in get_or delays (at_most - 1) 0

-- `randomJitter`; `draw n` is `rand.Int64N(n)`.
unfoldable pub random_jitter : (ℕ → ℕ) → ℕ → ℕ
random_jitter draw base = base + draw (if ltb (base / 5) 1 then 1 else base / 5)

-- `post`: `exchange` is the HTTP request with the events, its result the status and the body, and
-- `decode` is `json.Unmarshal`.
unfoldable pub post :
    (List TelemetryEvent → Outcome (ℕ × Bytes))
    → (Bytes → Outcome Response)
    → List TelemetryEvent
    → Outcome Response
post exchange decode events = do
  answer ← exchange events
  guard (not (ltb answer.0 200 || leb 300 answer.0)) invalid_content
  decode answer.1

-- The loop over the items: the most attempts, from what was found so far.
max_attempts : ℕ → List Item → ℕ
max_attempts most [] = most
max_attempts most (item ∷ rest) =
    max_attempts (if ltb most item.attempts then item.attempts else most) rest

-- Whether an ID is in `deliveredSet`.
unfoldable pub contains : Bytes → List Bytes → Bool
contains id [] = false
contains id (x ∷ rest) = let later = contains id rest in if bytes_eq id x then true else later

-- The loop that splits the IDs: those that are in the set, and those that are not.
unfoldable pub delivered_ids : List Bytes → List Bytes → List Bytes
delivered_ids set [] = []
delivered_ids set (id ∷ rest) =
    let later = delivered_ids set rest in if contains id set then id ∷ later else later

unfoldable pub remaining_ids : List Bytes → List Bytes → List Bytes
remaining_ids set [] = []
remaining_ids set (id ∷ rest) =
    let later = remaining_ids set rest in if contains id set then later else id ∷ later

-- How a round ended: `failure` with the operation it names, or `deliveryCompleted` with the number of
-- events delivered. A failed `mark_retry` is a failure of its own.
pub data Operation : Type 0 where
  read_pending mark_retry_failed request mark_delivered_failed mark_partial_retry : Operation

pub data RoundEnd : Type 0 where
  idle : RoundEnd
  failed : List Operation → RoundEnd
  completed : ℕ → List Operation → RoundEnd

-- Which calls on the spool fail in a round.
pub record RoundFaults : Type 0 where
  pub read : Bool
  pub deliver : TxFaults
  pub retry : TxFaults

abbrev pub rejected_message : Bytes
rejected_message =
    b'e' ∷ b'v' ∷ b'e' ∷ b'n' ∷ b't' ∷ b' ' ∷ b'w' ∷ b'a' ∷ b's' ∷ b' ' ∷ b'n' ∷ b'o' ∷ b't' ∷ b' '
    ∷ b'a' ∷ b'c' ∷ b'c' ∷ b'e' ∷ b'p' ∷ b't' ∷ b'e' ∷ b'd' ∷ b' ' ∷ b'(' ∷ b'r' ∷ b'e' ∷ b'j'
    ∷ b'e' ∷ b'c' ∷ b't' ∷ b'e' ∷ b'd' ∷ b' ' ∷ b'o' ∷ b'r' ∷ b' ' ∷ b'a' ∷ b'b' ∷ b's' ∷ b'e'
    ∷ b'n' ∷ b't' ∷ b' ' ∷ b'f' ∷ b'r' ∷ b'o' ∷ b'm' ∷ b' ' ∷ b'r' ∷ b'e' ∷ b's' ∷ b'p' ∷ b'o'
    ∷ b'n' ∷ b's' ∷ b'e' ∷ b')' ∷ []

-- The operation is reported if the call failed.
failure_of : {A : Type 0} → Operation → Outcome A → List Operation
failure_of operation (ok a) = []
failure_of operation (err e) = operation ∷ []
failure_of operation panic = operation ∷ []

-- The request failed: all events are tried again.
retried_round : RoundFaults → Spool → List Bytes → Time → Bytes → Spool × RoundEnd
retried_round faults s ids next message =
    let (s', result) = mark_retry faults.retry s ids next message in
    (s', failed (failure_of mark_retry_failed result ++ request ∷ []))

-- The rest of a round once the delivered events are marked: `if len(remaining) > 0`.
partial_round : RoundFaults → Spool → ℕ → List Bytes → Time → Spool × RoundEnd
partial_round faults s count [] next = (s, completed count [])
partial_round faults s count (id ∷ ids) next =
    let (s', result) = mark_retry faults.retry s (id ∷ ids) next rejected_message in
    (s', completed count (failure_of mark_partial_retry result))

marked_round :
    RoundFaults → List Bytes → List Bytes → Time → Spool × Outcome (Unit {0}) → Spool × RoundEnd
unfolding partial_round
marked_round faults delivered remaining next (s, ok _) =
    partial_round faults s (length delivered) remaining next
marked_round faults delivered remaining next (s, err e) = (s, failed (mark_delivered_failed ∷ []))
marked_round faults delivered remaining next (s, panic) = (s, failed (mark_delivered_failed ∷ []))

-- What follows `post`.
posted_round :
    RoundFaults
    → (Error → Bytes)
    → Spool
    → List Bytes
    → Time
    → Time
    → Outcome Response
    → Spool × RoundEnd
unfolding retried_round marked_round
posted_round faults text s ids now next (ok answer) =
    let set = answer.accepted ++ answer.duplicates in
    marked_round faults (delivered_ids set ids) (remaining_ids set ids) next
      (mark_delivered faults.deliver s (delivered_ids set ids) now)
posted_round faults text s ids now next (err e) = retried_round faults s ids next (text e)
posted_round faults text s ids now next panic = (s, failed [])

-- A round with the items that `Pending` returned.
batch_round :
    (List TelemetryEvent → Outcome Response)
    → (ℕ → ℕ)
    → (Error → Bytes)
    → RoundFaults
    → Spool
    → Time
    → Outcome (List Item)
    → Spool × RoundEnd
unfolding posted_round max_attempts
batch_round send jitter text faults s now (ok []) = (s, idle)
batch_round send jitter text faults s now (ok (item ∷ items)) =
    let events = map (λ (i : Item). i.event) (item ∷ items) in
    let ids = map (λ (i : Item). i.event.event_id) (item ∷ items) in
    let next = now + jitter (backoff (max_attempts 0 (item ∷ items) + 1)) in
    posted_round faults text s ids now next (send events)
batch_round send jitter text faults s now (err e) = (s, failed (read_pending ∷ []))
batch_round send jitter text faults s now panic = (s, failed (read_pending ∷ []))

-- `deliverOnce`; `send` is `post`.
unfoldable pub deliver_once :
    (List TelemetryEvent → Outcome Response)
    → (ℕ → ℕ)
    → (Error → Bytes)
    → RoundFaults
    → DeliveryConfig
    → Spool
    → Time
    → Spool × RoundEnd
unfolding batch_round failure_of
deliver_once send jitter text faults config s now =
    batch_round send jitter text faults s now (pending_items faults.read s config.batch_size now)

-- The level of the metrics line.
pub data Level : Type 0 where
  info warn error_level : Level

-- `maintain`: the table, and the level unless the statistics could not be read.
unfoldable pub maintain :
    Bool → Bool → List (Option ℕ) → DeliveryConfig → Spool → Time → Spool × Option Level
maintain cleanup_fails stats_fails sizes config s now =
    let s' = (cleanup cleanup_fails s (now - config.retention)).0 in
    (
      s',
      elim (stats stats_fails sizes s' now) [
        | ok found ↦ some (
            if ltb config.critical_pending found.pending
            then error_level
            else if ltb 10000 found.pending
            then warn
            else info)
        | err e ↦ none
        | panic ↦ none
      ],
    )
