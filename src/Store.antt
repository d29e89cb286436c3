-- ===== src/Store.antt =====
-- internal/jt808store/store.go: the terminals' authentication codes. The SQL database and the random
-- source are parameters; the text columns hold what was written.
pub mod Codes
pub mod Auth
use tallerp_telemetry.Base.{
  ℕ, ◌≡◌, ◌≢◌, Bool, false, List, [], ◌∷◌, Option, none, some, if◌then◌else◌, Bytes, bytes_eq,
  Outcome, ok, err, panic, ◌>>=◌, ◌>>◌, invalid_content,
}
use tallerp_telemetry.Telemetry.{Time, hex}

pub record TerminalRecord : Type 0 where
  pub terminal_sn : Bytes
  pub auth_code : Bytes
  pub manufacturer : Bytes
  pub model : Bytes
  pub registered_at : Time
  pub updated_at : Time

-- What a row holds after `manufacturer=?, model=?, updated_at=?`.
abbrev pub renewed : Bytes → Bytes → Time → TerminalRecord → TerminalRecord
renewed manufacturer model now r = record r {
  manufacturer = manufacturer;
  model = model;
  updated_at = now;
}

-- The row under a key after `INSERT … ON CONFLICT DO UPDATE`.
abbrev pub upserted : TerminalRecord → Option TerminalRecord → TerminalRecord
upserted new none = new
upserted new (some old) = renewed new.manufacturer new.model new.updated_at old

-- The three statements on the table `jt808_terminals`, as SQL documents them: `stored` is the row under
-- a key, a query that succeeds finds it, and a statement that succeeds has its effect on the rows of
-- its key alone. No call panics.
pub record TerminalTable (T : Type 0) : Type 0 where
  pub stored : T → Bytes → Option TerminalRecord
  pub select : T → Bytes → Outcome (Option TerminalRecord)
  pub update : T → Bytes → Bytes → Bytes → Time → T × Outcome (Unit {0})
  pub upsert : T → TerminalRecord → T × Outcome (Unit {0})
  pub select_finds :
      (t : T) (sn : Bytes) (found : Option TerminalRecord)
      → select t sn ≡ ok found
      → found ≡ stored t sn
  pub update_done :
      (t : T) (sn manufacturer model : Bytes) (now : Time) (r : TerminalRecord) (key : Bytes)
      → (update t sn manufacturer model now).1 ≡ ok tt
      → stored t sn ≡ some r
      → stored (update t sn manufacturer model now).0 key
        ≡ (if bytes_eq sn key then some (renewed manufacturer model now r) else stored t key)
  pub upsert_done :
      (t : T) (new : TerminalRecord) (key : Bytes)
      → (upsert t new).1 ≡ ok tt
      → stored (upsert t new).0 key ≡ (
          if bytes_eq new.terminal_sn key
          then some (upserted new (stored t new.terminal_sn))
          else stored t key)
  pub select_returns : (t : T) (sn : Bytes) → select t sn ≢ panic
  pub update_returns :
      (t : T) (sn manufacturer model : Bytes) (now : Time)
      → (update t sn manufacturer model now).1 ≢ panic
  pub upsert_returns : (t : T) (new : TerminalRecord) → (upsert t new).1 ≢ panic

-- `crypto/rand`: sixteen bytes or an error.
pub record RandomSource (R : Type 0) : Type 0 where
  pub read : R → R × Outcome Bytes
  pub read_returns : (r : R) → (read r).1 ≢ panic

-- `Store`, with the state of the random source.
pub record Store (T R : Type 0) : Type 0 where
  pub table : T
  pub entropy : R

module _ {T R : Type 0} (db : TerminalTable T) (random : RandomSource R) where
  -- `Lookup`
  unfoldable pub lookup_terminal : Store T R → Bytes → Outcome (Option TerminalRecord)
  lookup_terminal s sn = db.select s.table sn

  -- The update of a terminal that is known.
  unfoldable pub renew :
      Store T R → TerminalRecord → Bytes → Bytes → Bytes → Time → Store T R × Outcome Bytes
  renew s r sn manufacturer model now =
      let (t, done) = db.update s.table sn manufacturer model now in
      (record s { table = t }, done >> ok r.auth_code)

  -- The row of a terminal that is new.
  abbrev pub new_terminal : Bytes → Bytes → Bytes → Bytes → Time → TerminalRecord
  new_terminal sn code manufacturer model now = record {
    terminal_sn = sn;
    auth_code = code;
    manufacturer = manufacturer;
    model = model;
    registered_at = now;
    updated_at = now;
  }

  -- `generateAuthCode`
  unfoldable pub generate_auth_code : R → R × Outcome Bytes
  generate_auth_code r = let (later, text) = random.read r in (later, text >>= λ buf. ok (hex buf))

  -- The insertion of a terminal once its code is there.
  unfoldable pub enroll :
      Store T R → Bytes → Bytes → Bytes → Time → R × Outcome Bytes → Store T R × Outcome Bytes
  enroll s sn manufacturer model now (later, ok code) =
      let (t, done) = db.upsert s.table (new_terminal sn code manufacturer model now) in
      (record { table = t; entropy = later }, done >> ok code)
  enroll s sn manufacturer model now (later, err e) = (record s { entropy = later }, err e)
  enroll s sn manufacturer model now (later, panic) = (record s { entropy = later }, panic)

  -- `Register` once the query has answered.
  unfoldable pub register_found :
      Store T R
      → Bytes
      → Bytes
      → Bytes
      → Time
      → Outcome (Option TerminalRecord)
      → Store T R × Outcome Bytes
  register_found s sn manufacturer model now (ok (some r)) = renew s r sn manufacturer model now
  register_found s sn manufacturer model now (ok none) =
      enroll s sn manufacturer model now (generate_auth_code s.entropy)
  register_found s sn manufacturer model now (err e) = (s, err e)
  register_found s sn manufacturer model now panic = (s, panic)

  unfoldable pub register : Store T R → Bytes → Bytes → Bytes → Time → Store T R × Outcome Bytes
  register s [] manufacturer model now = (s, err invalid_content)
  register s (b ∷ sn) manufacturer model now =
      register_found s (b ∷ sn) manufacturer model now (lookup_terminal s (b ∷ sn))

  -- `record.AuthCode == authCode`, where there is a record.
  abbrev pub code_matches : Option TerminalRecord → Bytes → Bool
  code_matches none code = false
  code_matches (some r) code = bytes_eq r.auth_code code

  unfoldable pub authenticate : Store T R → Bytes → Bytes → Outcome Bool
  authenticate s sn code = lookup_terminal s sn >>= λ found. ok (code_matches found code)
