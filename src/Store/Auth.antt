-- ===== src/Store/Auth.antt =====
-- internal/jt808store/store.go behind the handler's interface `AuthStore`, and a terminal's first two
-- messages through `Dispatch`.
use tallerp_telemetry.Base.{
  ◌≡◌, ◌≢◌, ◌==◌, refl, sym, ap, subst, ◌∙◌, inr, true, false, [], ◌∷◌, Option, none, some, arith,
  Bytes, Outcome, ok, err, panic, >>=-ne-panic,
}
use tallerp_telemetry.Telemetry.{Time}
use tallerp_telemetry.Session.{SessionContext}
use tallerp_telemetry.Store.{
  TerminalRecord, TerminalTable, RandomSource, Store, lookup_terminal, renew, generate_auth_code,
  enroll, register_found, register, authenticate,
}
use tallerp_telemetry.Store.Codes.{authenticate-register}
use tallerp_telemetry.Jt808.Types.{Frame, RegistrationPacket}
use tallerp_telemetry.Jt808.Msg
use tallerp_telemetry.Jt808.Messages.{parse_registration, parse_auth}
use tallerp_telemetry.Jt808.Handler.{
  AuthStore, dispatch, is_gated, pre_auth_allowed, reported, registered,
}
use tallerp_telemetry.Jt808.Handler.Gate.{session_of, dispatch-authenticated}

pub authenticate_returns :
    {T R : Type 0} (db : TerminalTable T) (random : RandomSource R) (s : Store T R)
    (sn code : Bytes)
    → authenticate db random s sn code ≢ panic
unfolding authenticate lookup_terminal
authenticate_returns db random s sn code =
    >>=-ne-panic (db.select s.table sn) _ (db.select_returns s.table sn) (λ found _ p. cc)

generate_auth_code_returns :
    {T R : Type 0} (db : TerminalTable T) (random : RandomSource R) (r : R)
    → (generate_auth_code db random r).1 ≢ panic
unfolding generate_auth_code
generate_auth_code_returns db random r =
    >>=-ne-panic (random.read r).1 _ (random.read_returns r) (λ buf _ p. cc)

enroll_returns :
    {T R : Type 0} (db : TerminalTable T) (random : RandomSource R) (s : Store T R)
    (sn manufacturer model : Bytes) (now : Time) (made : R × Outcome Bytes)
    → made.1 ≢ panic
    → (enroll db random s sn manufacturer model now made).1 ≢ panic
unfolding enroll
enroll_returns db random s sn manufacturer model now (later, ok code) h =
    >>=-ne-panic _ _ (db.upsert_returns s.table _) (λ done _ p. cc)
enroll_returns db random s sn manufacturer model now (later, err e) h = λ p. cc
enroll_returns db random s sn manufacturer model now (later, panic) h = h

register_found_returns :
    {T R : Type 0} (db : TerminalTable T) (random : RandomSource R) (s : Store T R)
    (sn manufacturer model : Bytes) (now : Time) (answer : Outcome (Option TerminalRecord))
    → answer ≢ panic
    → (register_found db random s sn manufacturer model now answer).1 ≢ panic
unfolding register_found renew
register_found_returns db random s sn manufacturer model now (ok (some r)) h =
    >>=-ne-panic _ _ (db.update_returns s.table sn manufacturer model now) (λ done _ p. cc)
register_found_returns db random s sn manufacturer model now (ok none) h =
    enroll_returns db random s sn manufacturer model now _
      (generate_auth_code_returns db random s.entropy)
register_found_returns db random s sn manufacturer model now (err e) h = λ p. cc
register_found_returns db random s sn manufacturer model now panic h = λ _. h refl

pub register_returns :
    {T R : Type 0} (db : TerminalTable T) (random : RandomSource R) (s : Store T R)
    (sn manufacturer model : Bytes) (now : Time)
    → (register db random s sn manufacturer model now).1 ≢ panic
unfolding register lookup_terminal
register_returns db random s [] manufacturer model now = λ p. cc
register_returns db random s (b ∷ sn) manufacturer model now =
    register_found_returns db random s (b ∷ sn) manufacturer model now _
      (db.select_returns s.table (b ∷ sn))

abbrev pub store_auth : {T R : Type 0} → TerminalTable T → RandomSource R → AuthStore (Store T R)
store_auth db random = record {
  register = register db random;
  authenticate = authenticate db random;
  register_returns = register_returns db random;
  authenticate_returns = authenticate_returns db random;
}

-- A registration message whose body parses leaves the store as `Register` does.
dispatch-register :
    {S : Type 0} (auth : AuthStore S) (s : S) (frame : Frame) (session : SessionContext)
    (now : Time) (packet : RegistrationPacket)
    → frame.message_id ≡ Msg.terminal_registration
    → parse_registration frame.body ≡ ok packet
    → (dispatch auth s frame session now).0
      ≡ (auth.register s frame.terminal_sn packet.manufacturer packet.model now).0
unfolding dispatch reported registered
dispatch-register {S = S} auth s frame session now packet is parsed =
    let free : is_gated frame session ≡ false = unfold is_gated pre_auth_allowed in ground arith in
    let no_heartbeat : (frame.message_id == Msg.terminal_heartbeat) ≡ false = ground arith in
    let registers : (frame.message_id == Msg.terminal_registration) ≡ true = ground arith in
    rw (free, no_heartbeat, registers, parsed)
      (registered_store (auth.register s frame.terminal_sn packet.manufacturer packet.model now))
  where
    registered_store :
        (answered : S × Outcome Bytes) → (registered frame session now answered).0 ≡ answered.0
    registered_store (t, ok code) = refl
    registered_store (t, err e) = refl
    registered_store (t, panic) = refl

parse_auth-code : (code : Bytes) → code ≢ [] → parse_auth code ≡ ok (record { auth_code = code })
unfolding parse_auth
parse_auth-code [] h = absurd (h refl)
parse_auth-code (b ∷ bs) h = refl

-- A terminal whose registration message parses and was answered by the store with a code that is
-- not empty, and whose next message, on any connection, is an authentication with that code as
-- its body, has an authenticated session after it, as long as the database answers the query.
pub dispatch_registration_then_auth :
    {T R : Type 0} (db : TerminalTable T) (random : RandomSource R) (s : Store T R)
    (first second : Frame) (session other : SessionContext) (now later : Time)
    (packet : RegistrationPacket) (code : Bytes) (found : Option TerminalRecord)
    → first.message_id ≡ Msg.terminal_registration
    → parse_registration first.body ≡ ok packet
    → (register db random s first.terminal_sn packet.manufacturer packet.model now).1 ≡ ok code
    → code ≢ []
    → second.message_id ≡ Msg.terminal_auth
    → second.terminal_sn ≡ first.terminal_sn
    → second.body ≡ code
    → db.select (dispatch (store_auth db random) s first session now).0.table first.terminal_sn
      ≡ ok found
    → (session_of (
        dispatch
          (store_auth db random)
          (dispatch (store_auth db random) s first session now).0
          second
          other
          later)).authenticated
      ≡ true
dispatch_registration_then_auth db random s first second session other now later packet code found
      is parsed coded some_code auths same_sn same_body answers =
    let auth = store_auth db random in
    let kept = dispatch-register auth s first session now packet is parsed in
    let after = (dispatch auth s first session now).0 in
    let accepted : authenticate db random after first.terminal_sn code ≡ ok true =
      subst (λ t. authenticate db random t first.terminal_sn code ≡ ok true) (sym kept)
        (authenticate-register db random s first.terminal_sn packet.manufacturer packet.model now
          code found coded
          (subst (λ t. db.select t.table first.terminal_sn ≡ ok found) kept answers)) in
    (dispatch-authenticated auth after second other later).1 (
      inr (
        auths,
        (
          record { auth_code = code },
          ap parse_auth same_body ∙ parse_auth-code code some_code,
          ap (λ sn. authenticate db random after sn code) same_sn ∙ accepted,
        ),
      ))
