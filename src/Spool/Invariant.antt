-- ===== src/Spool/Invariant.antt =====
-- internal/spool/spool.go: the well-formed queues, and the calls as steps.
use tallerp_telemetry.Base.{ℕ, suc, ◌≡◌, ◌≤◌, Bool, false, List, [], ◌∷◌, Bytes, All}
use tallerp_telemetry.Telemetry.{Time, TelemetryEvent}
use tallerp_telemetry.Spool.{
  SpoolRow, Spool, is_stored, StoreFaults, store_event, TxFaults, mark_delivered, mark_retry,
  cleanup,
}
use tallerp_telemetry.Spool.Aging.{IsDated}

-- The IDs grow along the table, from `low` on and below `next`.
unfoldable pub Ascends : ℕ → List SpoolRow → ℕ → Type 0
Ascends low [] next = low ≤ next
Ascends low (r ∷ rows) next = (low ≤ r.id) × Ascends (suc r.id) rows next

-- No event ID stands in two rows.
unfoldable pub Unique : List SpoolRow → Type 0
Unique [] = Unit
Unique (r ∷ rows) = (is_stored r.event_id rows ≡ false) × Unique rows

pub record IsQueue (s : Spool) : Type 0 where
  pub ascends : Ascends 0 s.rows s.next_id
  pub unique : Unique s.rows
  pub dated : All IsDated s.rows

-- A call of the spool, whatever its arguments are and whatever fails in it.
pub data Step : Spool → Spool → Type 0 where
  stored :
      (set_id : TelemetryEvent → TelemetryEvent) (faults : StoreFaults) (s : Spool)
      (event : TelemetryEvent) (now : Time)
      → Step s (store_event set_id faults s event now).0
  marked :
      (faults : TxFaults) (s : Spool) (ids : List Bytes) (now : Time)
      → Step s (mark_delivered faults s ids now).0
  retried :
      (faults : TxFaults) (s : Spool) (ids : List Bytes) (next : Time) (message : Bytes)
      → Step s (mark_retry faults s ids next message).0
  cleaned : (fails : Bool) (s : Spool) (before : Time) → Step s (cleanup fails s before).0

-- Calls one after another.
pub data Steps : Spool → Spool → Type 0 where
  no_step : (s : Spool) → Steps s s
  then_step : {s t u : Spool} → Steps s t → Step t u → Steps s u

-- The spool as `CREATE TABLE` makes it.
abbrev pub empty_spool : Spool
empty_spool = record { rows = []; next_id = 1 }
