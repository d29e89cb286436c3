-- ===== src/Spool/Aging.antt =====
-- internal/spool/spool.go: what the operations on the queue do to a row.
use tallerp_telemetry.Base.{
  ℕ, suc, ◌≡◌, ◌≢◌, ◌≤◌, inl, inr, refl, ap, subst, sym, ◌∙◌, arith, Bool, true, false, ◌&&◌, List,
  [], ◌∷◌, ◌++◌, map, Option, none, some, Bytes, bytes_eq, if◌then◌else◌, either_side, Bool-cases,
  Outcome,
}
use tallerp_telemetry.Ranges.{IfSome}
use tallerp_telemetry.Telemetry.{Time}
use tallerp_telemetry.Spool.{
  SpoolRow, Spool, is_pending, has_id, update_loop, TxFaults, commit_rows, update_ids, deliver_row,
  retry_row, is_old, kept_rows,
}

-- `SELECT … WHERE event_id=?`
unfoldable pub find_row : Bytes → List SpoolRow → Option SpoolRow
find_row event_id [] = none
find_row event_id (r ∷ rest) =
    let later = find_row event_id rest in if has_id event_id r then some r else later

-- A delivered row has the time of its delivery.
abbrev pub IsDated : SpoolRow → Type 0
IsDated r = is_pending r ≡ false → r.delivered_at ≢ none

-- What may become of a row: it stays the same event, attempts only grow, and delivered it stays.
pub record Ages (r r' : SpoolRow) : Type 0 where
  pub same_id : r'.id ≡ r.id
  pub same_event : r'.event_id ≡ r.event_id
  pub same_payload : r'.payload ≡ r.payload
  pub attempts_grow : r.attempts ≤ r'.attempts
  pub stays_delivered : is_pending r ≡ false → is_pending r' ≡ false
  pub stays_dated : IsDated r → IsDated r'

pub Ages-refl : (r : SpoolRow) → Ages r r
Ages-refl r = record {
  same_id = refl;
  same_event = refl;
  same_payload = refl;
  attempts_grow = omega arith;
  stays_delivered = λ h. h;
  stays_dated = λ h. h;
}

pub Ages-trans : (a b c : SpoolRow) → Ages a b → Ages b c → Ages a c
Ages-trans a b c f g = record {
  same_id = g.same_id ∙ f.same_id;
  same_event = g.same_event ∙ f.same_event;
  same_payload = g.same_payload ∙ f.same_payload;
  attempts_grow = omega (arith, f.attempts_grow, g.attempts_grow);
  stays_delivered = λ h. g.stays_delivered (f.stays_delivered h);
  stays_dated = λ h. g.stays_dated (f.stays_dated h);
}

pub deliver_row-Ages : (now : Time) (id : Bytes) (r : SpoolRow) → Ages r (deliver_row now id r)
unfolding deliver_row
deliver_row-Ages now id r =
    either_side (Ages r) (has_id id r)
      (λ _. record {
        same_id = refl;
        same_event = refl;
        same_payload = refl;
        attempts_grow = omega arith;
        stays_delivered = λ _. refl;
        stays_dated = λ _ _ p. cc;
      })
      (λ _. Ages-refl r)

pub retry_row-Ages :
    (next : Time) (message id : Bytes) (r : SpoolRow) → Ages r (retry_row next message id r)
unfolding retry_row
retry_row-Ages next message id r =
    either_side (Ages r) (has_id id r && is_pending r)
      (λ _. record {
        same_id = refl;
        same_event = refl;
        same_payload = refl;
        attempts_grow = omega arith;
        stays_delivered = λ h. h;
        stays_dated = λ h. h;
      })
      (λ _. Ages-refl r)

-- Row by row.
unfoldable pub Aged : List SpoolRow → List SpoolRow → Type 0
Aged [] [] = Unit
Aged [] (r ∷ rows) = ⊥
Aged (r ∷ rows) [] = ⊥
Aged (r ∷ rows) (r' ∷ rows') = Ages r r' × Aged rows rows'

pub Aged-refl : (rows : List SpoolRow) → Aged rows rows
unfolding Aged
Aged-refl [] = tt
Aged-refl (r ∷ rows) = (Ages-refl r, Aged-refl rows)

pub Aged-trans : (a b c : List SpoolRow) → Aged a b → Aged b c → Aged a c
unfolding Aged
Aged-trans [] [] [] f g = tt
Aged-trans (x ∷ a) (y ∷ b) (z ∷ c) f g = (Ages-trans x y z f.0 g.0, Aged-trans a b c f.1 g.1)
Aged-trans [] (y ∷ b) c f g = absurd f
Aged-trans (x ∷ a) [] c f g = absurd f
Aged-trans [] [] (z ∷ c) f g = absurd g
Aged-trans (x ∷ a) (y ∷ b) [] f g = absurd g

pub map-Aged :
    (change : SpoolRow → SpoolRow) (rows : List SpoolRow)
    → ((r : SpoolRow) → Ages r (change r))
    → Aged rows (map change rows)
unfolding Aged
map-Aged change [] h = tt
map-Aged change (r ∷ rows) h = (h r, map-Aged change rows h)

pub IfSome-mono :
    (P Q : List SpoolRow → Type 0) (o : Option (List SpoolRow))
    → ((rows : List SpoolRow) → P rows → Q rows)
    → IfSome P o
    → IfSome Q o
IfSome-mono P Q none f h = tt
IfSome-mono P Q (some rows) f h = f rows h

pub update_loop-Aged :
    (change : Bytes → SpoolRow → SpoolRow) (fails : ℕ → Bool) (n : ℕ) (ids : List Bytes)
    (rows : List SpoolRow)
    → ((id : Bytes) (r : SpoolRow) → Ages r (change id r))
    → IfSome (Aged rows) (update_loop change fails n ids rows)
unfolding update_loop
update_loop-Aged change fails n [] rows h = Aged-refl rows
update_loop-Aged change fails n (id ∷ ids) rows h =
    let changed = map (change id) rows in
    either_side (IfSome (Aged rows)) (fails n) (λ _. tt)
      (λ _.
        IfSome-mono (Aged changed) (Aged rows) _
          (λ last later. Aged-trans rows changed last (map-Aged (change id) rows (h id)) later)
          (update_loop-Aged change fails (suc n) ids changed h))

-- A queue whose rows have aged, and whose next ID is the same.
abbrev pub AgedSpool : Spool → Spool → Type 0
AgedSpool s s' = Aged s.rows s'.rows × (s'.next_id ≡ s.next_id)

commit_rows-Aged :
    (fails : Bool) (s : Spool) (result : Option (List SpoolRow))
    → IfSome (Aged s.rows) result
    → AgedSpool s (commit_rows fails s result).0
unfolding commit_rows
commit_rows-Aged fails s none h = (Aged-refl s.rows, refl)
commit_rows-Aged true s (some rows) h = (Aged-refl s.rows, refl)
commit_rows-Aged false s (some rows) h = (h, refl)

-- A transaction ages the rows, or changes nothing.
pub update_ids-Aged :
    (faults : TxFaults) (change : Bytes → SpoolRow → SpoolRow) (s : Spool) (ids : List Bytes)
    → ((id : Bytes) (r : SpoolRow) → Ages r (change id r))
    → AgedSpool s (update_ids faults change s ids).0
unfolding update_ids
update_ids-Aged faults change s [] h = (Aged-refl s.rows, refl)
update_ids-Aged faults change s (id ∷ ids) h =
    either_side (λ (r : Spool × Outcome (Unit {0})). AgedSpool s r.0) faults.begin
      (λ _. (Aged-refl s.rows, refl))
      (λ _.
        commit_rows-Aged faults.commit s _
          (update_loop-Aged change faults.update 0 (id ∷ ids) s.rows h))

some_injective : (a b : SpoolRow) → some a ≡ some b → a ≡ b
some_injective a b e = cc

is_old_pending : (before : Time) (r : SpoolRow) → is_pending r ≡ true → is_old before r ≡ false
is_old_pending before r h = ground arith

-- A row that is found is found again, older.
pub find_row-Aged :
    (event_id : Bytes) (rows rows' : List SpoolRow) (r : SpoolRow)
    → Aged rows rows'
    → find_row event_id rows ≡ some r
    → (r' : SpoolRow) × ((find_row event_id rows' ≡ some r') × Ages r r')
unfolding find_row Aged
find_row-Aged event_id [] [] r h e = cc
find_row-Aged event_id [] (y ∷ rows') r h e = absurd h
find_row-Aged event_id (x ∷ rows) [] r h e = absurd h
find_row-Aged event_id (x ∷ rows) (y ∷ rows') r h e =
    let same : has_id event_id y ≡ has_id event_id x = ap (bytes_eq event_id) h.0.same_event in
    elim (Bool-cases (has_id event_id x)) [
      | inl here ↦
          (y, (rw (same, here) refl, subst (λ z. Ages z y) (some_injective x r (rw here at e)) h.0))
      | inr later ↦
          let (r', (found, ages)) = find_row-Aged event_id rows rows' r h.1 (rw later at e) in
          (r', (rw (same, later) found, ages))
    ]

-- A row at the end is not in the way.
pub find_row-append :
    (event_id : Bytes) (rows more : List SpoolRow) (r : SpoolRow)
    → find_row event_id rows ≡ some r
    → find_row event_id (rows ++ more) ≡ some r
unfolding find_row
find_row-append event_id [] more r e = cc
find_row-append event_id (x ∷ rows) more r e = elim (Bool-cases (has_id event_id x)) [
  | inl here ↦ rw here (rw here at e)
  | inr later ↦ rw later (find_row-append event_id rows more r (rw later at e))
]

-- Only a row that is delivered is deleted.
pub find_row-kept :
    (before : Time) (event_id : Bytes) (rows : List SpoolRow) (r : SpoolRow)
    → find_row event_id rows ≡ some r
    → is_pending r ≡ true
    → find_row event_id (kept_rows before rows) ≡ some r
unfolding find_row kept_rows
find_row-kept before event_id [] r e h = cc
find_row-kept before event_id (x ∷ rows) r e h = elim (Bool-cases (has_id event_id x)) [
  | inl here ↦
      let same : x ≡ r = some_injective x r (rw here at e) in
      let young : is_old before x ≡ false =
        is_old_pending before x (subst (λ z. is_pending z ≡ true) (sym same) h) in
      rw (young, here, same) refl
  | inr later ↦
      let rest = find_row-kept before event_id rows r (rw later at e) h in
      either_side (λ kept. find_row event_id kept ≡ some r) (is_old before x) (λ _. rest)
        (λ _. rw later rest)
]
