-- ===== src/Store/Codes.antt =====
-- internal/jt808store/store.go: a terminal's code, from its registration to its authentication.
use tallerp_telemetry.Base.{
  ◌≡◌, ◌↔◌, refl, sym, ap, ◌∙◌, Bool, true, false, [], ◌∷◌, Option, none, some, Bytes, bytes_eq,
  bytes_eq_iff, Outcome, ok, err, panic, >>=-eq-ok,
}
use tallerp_telemetry.Telemetry.{Time}
use tallerp_telemetry.Store.{
  TerminalRecord, renewed, upserted, TerminalTable, RandomSource, Store, lookup_terminal, renew,
  new_terminal, enroll, register_found, register, authenticate,
}

-- A terminal has a row with this code.
pub record HasCode {T : Type 0} (db : TerminalTable T) (t : T) (sn code : Bytes) : Type 0 where
  pub row : TerminalRecord
  pub found : db.stored t sn ≡ some row
  pub matches : row.auth_code ≡ code

module _ {T R : Type 0} (db : TerminalTable T) (random : RandomSource R) where
  renew-HasCode :
      (s : Store T R) (r : TerminalRecord) (sn manufacturer model : Bytes) (now : Time)
      (code : Bytes)
      → db.stored s.table sn ≡ some r
      → (renew db random s r sn manufacturer model now).1 ≡ ok code
      → (code ≡ r.auth_code)
        × HasCode db (renew db random s r sn manufacturer model now).0.table sn code
  unfolding renew
  renew-HasCode s r sn manufacturer model now code held h =
      let (done, e, q) =
        >>=-eq-ok (db.update s.table sn manufacturer model now).1 (λ _. ok r.auth_code) h in
      let same : r.auth_code ≡ code = cc q in
      let self : bytes_eq sn sn ≡ true = (bytes_eq_iff sn sn).1 refl in
      (
        sym same,
        record {
          row = renewed manufacturer model now r;
          found = db.update_done s.table sn manufacturer model now r sn e held ∙ rw self refl;
          matches = same;
        },
      )

  enroll-HasCode :
      (s : Store T R) (sn manufacturer model : Bytes) (now : Time) (made : R × Outcome Bytes)
      (code : Bytes)
      → db.stored s.table sn ≡ none
      → (enroll db random s sn manufacturer model now made).1 ≡ ok code
      → HasCode db (enroll db random s sn manufacturer model now made).0.table sn code
  unfolding enroll
  enroll-HasCode s sn manufacturer model now (later, ok made) code new h =
      let row = new_terminal db random sn made manufacturer model now in
      let (done, e, q) = >>=-eq-ok (db.upsert s.table row).1 (λ _. ok made) h in
      let self : bytes_eq sn sn ≡ true = (bytes_eq_iff sn sn).1 refl in
      record {
        row = row;
        found = db.upsert_done s.table row sn e ∙ rw self (ap (λ old. some (upserted row old)) new);
        matches = cc q;
      }
  enroll-HasCode s sn manufacturer model now (later, err e) code new h = cc
  enroll-HasCode s sn manufacturer model now (later, panic) code new h = cc

  register_found-HasCode :
      (s : Store T R) (sn manufacturer model : Bytes) (now : Time)
      (answer : Outcome (Option TerminalRecord)) (code : Bytes)
      → db.select s.table sn ≡ answer
      → (register_found db random s sn manufacturer model now answer).1 ≡ ok code
      → HasCode db (register_found db random s sn manufacturer model now answer).0.table sn code
  unfolding register_found
  register_found-HasCode s sn manufacturer model now (ok (some r)) code e h =
      (renew-HasCode s r sn manufacturer model now code (sym (db.select_finds s.table sn _ e)) h).1
  register_found-HasCode s sn manufacturer model now (ok none) code e h =
      enroll-HasCode s sn manufacturer model now _ code (sym (db.select_finds s.table sn _ e)) h
  register_found-HasCode s sn manufacturer model now (err x) code e h = cc
  register_found-HasCode s sn manufacturer model now panic code e h = cc

  pub register-HasCode :
      (s : Store T R) (sn manufacturer model : Bytes) (now : Time) (code : Bytes)
      → (register db random s sn manufacturer model now).1 ≡ ok code
      → HasCode db (register db random s sn manufacturer model now).0.table sn code
  unfolding register lookup_terminal
  register-HasCode s [] manufacturer model now code h = cc
  register-HasCode s (b ∷ sn) manufacturer model now code h =
      register_found-HasCode s (b ∷ sn) manufacturer model now _ code refl h

-- Where the query on a terminal succeeds, authentication tells exactly whether the terminal has a
-- row with that code; an unknown terminal and a wrong code are refused without an error.
pub authenticate-HasCode :
    {T R : Type 0} (db : TerminalTable T) (random : RandomSource R) (s : Store T R)
    (sn code : Bytes) (found : Option TerminalRecord)
    → db.select s.table sn ≡ ok found
    → (b : Bool) × ((authenticate db random s sn code ≡ ok b)
        × ((b ≡ true) ↔ HasCode db s.table sn code))
unfolding authenticate lookup_terminal
authenticate-HasCode db random s sn code (some r) e = (
  bytes_eq r.auth_code code,
  (
    rw e refl,
    (
      λ same. record {
        row = r;
        found = sym (db.select_finds s.table sn _ e);
        matches = (bytes_eq_iff r.auth_code code).0 same;
      },
      λ has.
          let same : some r ≡ some has.row = db.select_finds s.table sn _ e ∙ has.found in
          let row : r ≡ has.row = cc same in
          (bytes_eq_iff r.auth_code code).1 (ap (λ x. x.auth_code) row ∙ has.matches),
    ),
  ),
)
authenticate-HasCode db random s sn code none e = (
  false,
  (
    rw e refl,
    (
      λ p. cc,
      λ has. let lost : none ≡ some has.row = db.select_finds s.table sn _ e ∙ has.found in cc lost,
    ),
  ),
)

-- A terminal that has just registered, with any database that keeps its promises, authenticates
-- with the code it was given, as long as the query succeeds.
pub authenticate-register :
    {T R : Type 0} (db : TerminalTable T) (random : RandomSource R) (s : Store T R)
    (sn manufacturer model : Bytes) (now : Time) (code : Bytes) (found : Option TerminalRecord)
    → (register db random s sn manufacturer model now).1 ≡ ok code
    → db.select (register db random s sn manufacturer model now).0.table sn ≡ ok found
    → authenticate db random (register db random s sn manufacturer model now).0 sn code ≡ ok true
authenticate-register db random s sn manufacturer model now code found h e =
    let has = register-HasCode db random s sn manufacturer model now code h in
    let (b, (q, means)) =
      authenticate-HasCode db random (register db random s sn manufacturer model now).0 sn code
        found e in
    q ∙ ap ok (means.1 has)

register_found_again :
    {T R : Type 0} (db : TerminalTable T) (random : RandomSource R) (s : Store T R)
    (sn manufacturer model : Bytes) (now : Time) (old code : Bytes)
    (answer : Outcome (Option TerminalRecord))
    → db.select s.table sn ≡ answer
    → HasCode db s.table sn old
    → (register_found db random s sn manufacturer model now answer).1 ≡ ok code
    → code ≡ old
unfolding register_found
register_found_again db random s sn manufacturer model now old code (ok (some r)) e has h =
    let held = db.select_finds s.table sn _ e in
    let rows : some r ≡ some has.row = held ∙ has.found in
    let row : r ≡ has.row = cc rows in
    (renew-HasCode db random s r sn manufacturer model now code (sym held) h).0
    ∙ (ap (λ x. x.auth_code) row ∙ has.matches)
register_found_again db random s sn manufacturer model now old code (ok none) e has h =
    let lost : none ≡ some has.row = db.select_finds s.table sn _ e ∙ has.found in cc lost
register_found_again db random s sn manufacturer model now old code (err x) e has h = cc
register_found_again db random s sn manufacturer model now old code panic e has h = cc

-- A terminal that registers again is given the code that its row already has, whatever
-- manufacturer, model and time it brings.
pub register_again :
    {T R : Type 0} (db : TerminalTable T) (random : RandomSource R) (s : Store T R)
    (sn manufacturer model : Bytes) (now : Time) (old code : Bytes)
    → HasCode db s.table sn old
    → (register db random s sn manufacturer model now).1 ≡ ok code
    → code ≡ old
unfolding register lookup_terminal
register_again db random s [] manufacturer model now old code has h = cc
register_again db random s (b ∷ sn) manufacturer model now old code has h =
    register_found_again db random s (b ∷ sn) manufacturer model now old code _ refl has h
