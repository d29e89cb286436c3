-- ===== src/Tests/Storage.antt =====
-- Runs of internal/jt808store/store.go on a table that is a list of rows.
use tallerp_telemetry.Base.{
  ℕ, ◌≡◌, ◌↔◌, refl, Bool, true, false, ◌≢◌, List, [], ◌∷◌, Option, some, none, Bytes, lookup,
  insert, lookup-insert, bytes_key, bytes_eq, ok, if◌then◌else◌, replicate, uint16_at, slice,
  slice_from, index,
}
use tallerp_telemetry.Telemetry.{Time, hex}
use tallerp_telemetry.Session.{new_session}
use tallerp_telemetry.Store.{
  TerminalRecord, renewed, upserted, TerminalTable, RandomSource, Store, register, authenticate,
  register_found, lookup_terminal, enroll, generate_auth_code, renew,
}
use tallerp_telemetry.Store.Codes.{
  HasCode, authenticate-HasCode, authenticate-register, register_again,
}
use tallerp_telemetry.Store.Auth.{store_auth, dispatch_registration_then_auth}
use tallerp_telemetry.Jt808.Types.{Frame, RegistrationPacket, trim_trailing_nulls}
use tallerp_telemetry.Jt808.Messages.{parse_registration}
use tallerp_telemetry.Jt808.Handler.{dispatch}
use tallerp_telemetry.Jt808.Handler.Gate.{session_of}

abbrev Rows : Type 0
Rows = List (Bytes × TerminalRecord)

abbrev with_row : Rows → Bytes → Bytes → Bytes → Time → Option TerminalRecord → Rows
with_row t sn manufacturer model now none = t
with_row t sn manufacturer model now (some r) = insert sn (renewed manufacturer model now r) t

update_done_lem :
    (t : Rows) (sn manufacturer model : Bytes) (now : Time) (r : TerminalRecord) (key : Bytes)
    → lookup sn t ≡ some r
    → lookup key (with_row t sn manufacturer model now (lookup sn t))
      ≡ (if bytes_eq sn key then some (renewed manufacturer model now r) else lookup key t)
update_done_lem t sn manufacturer model now r key held =
    rw held (lookup-insert sn key (renewed manufacturer model now r) t)

abbrev rows : TerminalTable Rows
rows = record {
  stored = λ t sn. lookup sn t;
  select = λ t sn. ok (lookup sn t);
  update =
      λ t sn manufacturer model now. (with_row t sn manufacturer model now (lookup sn t), ok tt);
  upsert = λ t new. (insert new.terminal_sn (upserted new (lookup new.terminal_sn t)) t, ok tt);
  select_finds = λ t sn found e. cc e;
  update_done = λ t sn manufacturer model now r key done held.
      update_done_lem t sn manufacturer model now r key held;
  upsert_done = λ t new key done.
      lookup-insert new.terminal_sn key (upserted new (lookup new.terminal_sn t)) t;
  select_returns = λ t sn p. cc;
  update_returns = λ t sn manufacturer model now p. cc;
  upsert_returns = λ t new p. cc;
}

-- A source that reads sixteen equal bytes.
abbrev constant_source : RandomSource (Unit {0})
constant_source = record { read = λ r. (r, ok (replicate 16 0x5a)); read_returns = λ r p. cc }

abbrev empty_store : Store Rows (Unit {0})
empty_store = record { table = []; entropy = tt }

abbrev sn_1 : Bytes
sn_1 = b'1' ∷ b'2' ∷ []

abbrev code_1 : Bytes
code_1 = hex (replicate 16 0x5a)

register_run : (register rows constant_source empty_store sn_1 [] [] 3).1 ≡ ok code_1
unfolding register register_found lookup_terminal lookup enroll generate_auth_code
register_run = refl

-- The store after the first registration.
abbrev store_1 : Store Rows (Unit {0})
store_1 = (register rows constant_source empty_store sn_1 [] [] 3).0

authenticate-HasCode_example :
    (b : Bool) × ((authenticate rows constant_source empty_store sn_1 code_1 ≡ ok b)
      × ((b ≡ true) ↔ HasCode rows empty_store.table sn_1 code_1))
authenticate-HasCode_example =
    authenticate-HasCode rows constant_source empty_store sn_1 code_1 (lookup sn_1 []) refl

authenticate-register_example : authenticate rows constant_source store_1 sn_1 code_1 ≡ ok true
authenticate-register_example =
    authenticate-register rows constant_source empty_store sn_1 [] [] 3 code_1
      (lookup sn_1 store_1.table) register_run refl

-- A store that has one terminal.
abbrev one_row : Store Rows (Unit {0})
one_row = record {
  table =
      (
        sn_1,
        record {
          terminal_sn = sn_1;
          auth_code = code_1;
          manufacturer = [];
          model = [];
          registered_at = 1;
          updated_at = 1;
        },
      )
      ∷ [];
  entropy = tt;
}

one_row-HasCode : HasCode rows one_row.table sn_1 code_1
unfolding lookup bytes_eq
one_row-HasCode = record { row = _; found = refl; matches = refl }

register_again_run : (register rows constant_source one_row sn_1 (b'M' ∷ []) [] 9).1 ≡ ok code_1
unfolding register register_found lookup_terminal lookup bytes_eq renew
register_again_run = refl

register_again_example : code_1 ≡ code_1
register_again_example =
    register_again rows constant_source one_row sn_1 (b'M' ∷ []) [] 9 code_1 code_1 one_row-HasCode
      register_again_run

abbrev frame_of : ℕ → Bytes → Frame
frame_of message_id body = record {
  message_id = message_id;
  body_props = 0;
  encryption = 0;
  has_subpackage = false;
  terminal_sn = sn_1;
  message_serial = 7;
  total_packets = 0;
  packet_serial = 0;
  body = body;
  raw = [];
  checksum = 0;
}

-- A registration body of zeros: its texts are trimmed to nothing.
abbrev zero_packet : RegistrationPacket
zero_packet = record {
  province_id = 0;
  city_county_id = 0;
  manufacturer = [];
  model = [];
  terminal_id = [];
  plate_color = 0;
  vehicle_id = [];
}

parse_registration_run : parse_registration (replicate 37 0) ≡ ok zero_packet
unfolding parse_registration uint16_at slice slice_from index trim_trailing_nulls
parse_registration_run = refl

code_1_some : code_1 ≢ []
unfolding hex
code_1_some = λ p. cc

dispatch_registration_then_auth_example :
    (session_of (
      dispatch
        (store_auth rows constant_source)
        (dispatch
          (store_auth rows constant_source)
          empty_store
          (frame_of 0x0100 (replicate 37 0))
          new_session
          3).0
        (frame_of 0x0102 code_1)
        new_session
        4)).authenticated
    ≡ true
dispatch_registration_then_auth_example =
    dispatch_registration_then_auth rows constant_source empty_store
      (frame_of 0x0100 (replicate 37 0)) (frame_of 0x0102 code_1) new_session new_session 3 4
      zero_packet code_1
      (lookup sn_1
        (dispatch (store_auth rows constant_source) empty_store (frame_of 0x0100 (replicate 37 0))
          new_session 3).0.table)
      refl parse_registration_run register_run code_1_some refl refl refl refl
