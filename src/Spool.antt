-- ===== src/Spool.antt =====
-- internal/spool/spool.go: the durable queue of events. The table telemetry_spool is the list of its rows
-- in the order of their IDs, and each SQL statement is the operation on the list that it states. The
-- database runs a statement or a transaction as a whole or not at all; which calls fail is an argument.
-- The column payload_json holds the event.
pub mod Aging
pub mod Invariant
pub mod History
use tallerp_telemetry.Base.{
  ℕ, zero, suc, ◌+◌, ◌-◌, Bool, true, false, not, ◌&&◌, ◌||◌, List, [], ◌∷◌, ◌++◌, map, Option,
  none, some, ltb, leb, if◌then◌else◌, length, take, Bytes, bytes_eq, Outcome, ok, err,
  store_failure,
}
use tallerp_telemetry.Telemetry.{Time, TelemetryEvent}
use tallerp_telemetry.Server.Gt.{is_empty}

pub data RowStatus : Type 0 where
  pending delivered : RowStatus

pub record SpoolRow : Type 0 where
  pub id : ℕ
  pub event_id : Bytes
  pub payload : TelemetryEvent
  pub status : RowStatus
  pub attempts : ℕ
  pub next_attempt_at : Time
  pub created_at : Time
  pub delivered_at : Option Time
  pub last_error : Option Bytes

pub record Spool : Type 0 where
  pub rows : List SpoolRow
  pub next_id : ℕ  -- AUTOINCREMENT

pub record Item : Type 0 where
  pub event : TelemetryEvent
  pub attempts : ℕ

abbrev pub is_pending : SpoolRow → Bool
is_pending r = elim r.status [ pending ↦ true | delivered ↦ false ]

abbrev pub has_id : Bytes → SpoolRow → Bool
has_id event_id r = bytes_eq event_id r.event_id

-- Whether some row has the event ID.
unfoldable pub is_stored : Bytes → List SpoolRow → Bool
is_stored event_id [] = false
is_stored event_id (r ∷ rest) =
    let later = is_stored event_id rest in if has_id event_id r then true else later

abbrev pub new_row : ℕ → TelemetryEvent → Time → SpoolRow
new_row id event now = record {
  id = id;
  event_id = event.event_id;
  payload = event;
  status = pending;
  attempts = 0;
  next_attempt_at = now;
  created_at = now;
  delivered_at = none;
  last_error = none;
}

-- `INSERT … ON CONFLICT(event_id) DO NOTHING`: the table, and whether a row was affected.
unfoldable pub insert_event : Spool → TelemetryEvent → Time → Spool × Bool
insert_event spool event now = if is_stored event.event_id spool.rows then (spool, false) else (
  record { rows = spool.rows ++ new_row spool.next_id event now ∷ []; next_id = spool.next_id + 1 },
  true,
)

-- Which of the calls of `Store` fail: `json.Marshal`, the statement, or the count of the rows.
pub record StoreFaults : Type 0 where
  pub encode : Bool
  pub exec : Bool
  pub count : Bool

-- `Store`; `set_id` is the event's method `SetID`.
unfoldable pub store_event :
    (TelemetryEvent → TelemetryEvent)
    → StoreFaults
    → Spool
    → TelemetryEvent
    → Time
    → Spool × Outcome Bool
store_event set_id faults spool event now =
    let named = if is_empty event.event_id then set_id event else event in
    let inserted = insert_event spool named now in
    if faults.encode || faults.exec
    then (spool, err store_failure)
    else (inserted.0, if faults.count then err store_failure else ok inserted.1)

abbrev pub is_due : Time → SpoolRow → Bool
is_due now r = is_pending r && leb r.next_attempt_at now

-- `WHERE status='pending' AND next_attempt_at<=? ORDER BY id`
unfoldable pub due_rows : Time → List SpoolRow → List SpoolRow
due_rows now [] = []
due_rows now (r ∷ rest) = let later = due_rows now rest in if is_due now r then r ∷ later else later

abbrev pub item_of : SpoolRow → Item
item_of r = record { event = r.payload; attempts = r.attempts }

-- `Pending`
unfoldable pub pending_items : Bool → Spool → ℕ → Time → Outcome (List Item)
pending_items fails spool limit now =
    if fails then err store_failure else ok (map item_of (take limit (due_rows now spool.rows)))

-- Which of the calls on a transaction fail; `update n` is the n-th statement.
pub record TxFaults : Type 0 where
  pub begin : Bool
  pub update : ℕ → Bool
  pub commit : Bool

-- The loop over the IDs inside of a transaction, `n` statements in; `none` is an error.
unfoldable pub update_loop :
    (Bytes → SpoolRow → SpoolRow)
    → (ℕ → Bool)
    → ℕ
    → List Bytes
    → List SpoolRow
    → Option (List SpoolRow)
update_loop change fails n [] rows = some rows
update_loop change fails n (id ∷ ids) rows =
    let later = update_loop change fails (suc n) ids (map (change id) rows) in
    if fails n then none else later

-- The commit; a transaction that is not committed is rolled back.
unfoldable pub commit_rows : Bool → Spool → Option (List SpoolRow) → Spool × Outcome (Unit {0})
commit_rows fails spool none = (spool, err store_failure)
commit_rows fails spool (some rows) =
    if fails then (spool, err store_failure) else (record spool { rows = rows }, ok tt)

-- `updateIDs`
unfoldable pub update_ids :
    TxFaults → (Bytes → SpoolRow → SpoolRow) → Spool → List Bytes → Spool × Outcome (Unit {0})
update_ids faults change spool [] = (spool, ok tt)
update_ids faults change spool (id ∷ ids) =
    if faults.begin
    then (spool, err store_failure)
    else commit_rows faults.commit spool (update_loop change faults.update 0 (id ∷ ids) spool.rows)

-- `SET status='delivered',delivered_at=?,last_error=NULL WHERE event_id=?`
unfoldable pub deliver_row : Time → Bytes → SpoolRow → SpoolRow
deliver_row now id r =
    if has_id id r
    then record r { status = delivered; delivered_at = some now; last_error = none }
    else r

-- `MarkDelivered`
unfoldable pub mark_delivered : TxFaults → Spool → List Bytes → Time → Spool × Outcome (Unit {0})
mark_delivered faults spool ids now = update_ids faults (deliver_row now) spool ids

-- `SET attempts=attempts+1,next_attempt_at=?,last_error=? WHERE event_id=? AND status='pending'`
unfoldable pub retry_row : Time → Bytes → Bytes → SpoolRow → SpoolRow
retry_row next message id r =
    if has_id id r && is_pending r
    then record r { attempts = r.attempts + 1; next_attempt_at = next; last_error = some message }
    else r

-- `MarkRetry`; a message is cut to 2000 bytes.
unfoldable pub mark_retry :
    TxFaults → Spool → List Bytes → Time → Bytes → Spool × Outcome (Unit {0})
mark_retry faults spool ids next message =
    update_ids faults (retry_row next (take 2000 message)) spool ids

-- `status='delivered' AND delivered_at<?`: a row without the time is not below it.
abbrev pub is_old : Time → SpoolRow → Bool
is_old before r = not (is_pending r) && elim r.delivered_at [ none ↦ false | some t ↦ ltb t before ]

-- The rows that a `DELETE` leaves.
unfoldable pub kept_rows : Time → List SpoolRow → List SpoolRow
kept_rows before [] = []
kept_rows before (r ∷ rest) =
    let later = kept_rows before rest in if is_old before r then later else r ∷ later

-- `Cleanup`: the number of rows that are gone.
unfoldable pub cleanup : Bool → Spool → Time → Spool × Outcome ℕ
cleanup fails spool before =
    let rows = kept_rows before spool.rows in
    if fails
    then (spool, err store_failure)
    else (record spool { rows = rows }, ok (length spool.rows - length rows))

pub record Stats : Type 0 where
  pub pending : ℕ
  pub oldest_pending_age : ℕ
  pub database_size : ℕ

-- `COUNT(*)` and `MIN(created_at)` of the pending rows.
unfoldable pub pending_summary : List SpoolRow → ℕ × Option Time
pending_summary [] = (0, none)
pending_summary (r ∷ rest) =
    let (count, oldest) = pending_summary rest in
    if is_pending r
    then (
      suc count,
      elim oldest [
        | none ↦ some r.created_at
        | some t ↦ some (if ltb r.created_at t then r.created_at else t)
      ],
    )
    else (count, oldest)

-- The loop over the database's files: `none` is a file whose size cannot be read.
total_size : List (Option ℕ) → ℕ
total_size [] = 0
total_size (none ∷ rest) = total_size rest
total_size (some size ∷ rest) = size + total_size rest

-- `Stats`; an age below 0 is 0.
unfoldable pub stats : Bool → List (Option ℕ) → Spool → Time → Outcome Stats
unfolding total_size
stats fails sizes spool now =
    let summary = pending_summary spool.rows in
    if fails
    then err store_failure
    else ok (record {
      pending = summary.0;
      oldest_pending_age = elim summary.1 [ none ↦ 0 | some oldest ↦ now - oldest ];
      database_size = total_size sizes;
    })
