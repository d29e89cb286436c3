-- ===== src/Server/Process/Tracked.antt =====
-- internal/server/jt808_connection.go: what one frame leads to on a JT808 connection.
use tallerp_telemetry.Base.{
  ◌≡◌, ◌≢◌, inl, refl, ◌∙◌, Bool, true, false, ◌||◌, arith, List, [], ◌∷◌, none, some, All,
  All-append, Bytes, either_side,
}
use tallerp_telemetry.Telemetry.{Time, TelemetryEvent, all_placed}
use tallerp_telemetry.Session.{SessionContext}
use tallerp_telemetry.Jt808.Types.{Frame}
use tallerp_telemetry.Jt808.Handler.{AuthStore, Handled, handled, panicked, dispatch}
use tallerp_telemetry.Jt808.Handler.Gate.{
  session_of, result_of, dispatch-ne-panicked, dispatch-authenticated,
}
use tallerp_telemetry.Jt808.Handler.Sources.{IsTracked, Emitted, Emits, dispatch-Emits}
use tallerp_telemetry.Server.Gt.{is_empty, persisted_event, record_events}
use tallerp_telemetry.Server.Process.{
  Metric, Processed, frame_metrics, acked, finish_frame, identified, processed, process_frame,
}

-- An event that is persisted: it has an IMEI.
abbrev pub IsPersisted : Bool → TelemetryEvent → Type 0
IsPersisted known event = (event.imei ≢ []) × IsTracked known event

is_empty-ne : (text : Bytes) → is_empty text ≡ false → text ≢ []
is_empty-ne [] h = cc
is_empty-ne (b ∷ text) h = λ p. cc

pub record_events-IsPersisted :
    (known : Bool) (events : List TelemetryEvent)
    → All (Emitted known) events
    → All (IsPersisted known) (record_events events).1
unfolding record_events persisted_event
record_events-IsPersisted known [] h = tt
record_events-IsPersisted known (event ∷ rest) h =
    All-append (IsPersisted known) (persisted_event event) (record_events rest).1
      (either_side (λ xs. All (IsPersisted known) xs) (is_empty event.imei) (λ _. tt)
        (λ named.
          let some_bytes = is_empty-ne event.imei named in ((some_bytes, h.0.1 some_bytes), tt)))
      (record_events-IsPersisted known rest h.1)

-- What is recorded of a result, whether or not its answer is written.
acked-Emits :
    (known : Bool) (write : Bytes → Bool) (metrics : List Metric) (ack : Bytes)
    (events : List TelemetryEvent)
    → All (Emitted known) events
    → All (IsPersisted known) (record_events (acked write metrics ack events).recorded).1
unfolding acked
acked-Emits known write metrics [] events h = record_events-IsPersisted known events h
acked-Emits known write metrics (b ∷ ack) events h =
    either_side (λ xs. All (IsPersisted known) (record_events xs).1) (write (b ∷ ack))
      (λ _. record_events-IsPersisted known events h) (λ _. record_events-IsPersisted known [] tt)

Emitted-placed :
    (known : Bool) (events : List TelemetryEvent)
    → All (Emitted known) events
    → all_placed events ≡ true
Emitted-placed known [] h = refl
Emitted-placed known (event ∷ rest) h = rw (h.0.0, Emitted-placed known rest h.1) refl

goes_on : (a b : Bool) → b ≡ true → (a || b) ≡ true
goes_on a b h = ground arith

finish_frame-IsPersisted :
    (known : Bool) (write : Bytes → Bool) (frame : Frame) (was : Bool) (session : SessionContext)
    (result : Handled)
    → result ≢ panicked
    → Emits known result
    → (p : Processed) × ((finish_frame write frame was session result ≡ some p)
        × All (IsPersisted known) (record_events p.recorded).1)
unfolding finish_frame
finish_frame-IsPersisted known write frame was session (handled ack events (some e)) h emits =
    (_, (refl, acked-Emits known write _ ack [] tt))
finish_frame-IsPersisted known write frame was session (handled ack events none) h emits = (
  acked write (frame_metrics frame.message_id was session.authenticated) ack events,
  (
    rw
        (goes_on
          (acked write (frame_metrics frame.message_id was session.authenticated) ack events).failed
          (all_placed events) (Emitted-placed known events emits))
        refl,
    acked-Emits known write _ ack events emits,
  ),
)
finish_frame-IsPersisted known write frame was session panicked h emits = absurd (h refl)

identified-authenticated :
    (session : SessionContext) → (identified session).authenticated ≡ session.authenticated
unfolding identified
identified-authenticated session =
    elim session.terminal_sn
      as (λ sn.
        (SessionContext.authenticated
          (elim sn [ [] ↦ session | b ∷ rest ↦ record session { imei = b ∷ rest } ]))
        ≡ session.authenticated) [ [] ↦ refl | b ∷ rest ↦ refl ]

-- A frame is always processed to its end; what it persists is allowed by the session that it leaves,
-- and an authenticated session stays so.
pub process_frame-IsPersisted :
    {S : Type 0} (auth : AuthStore S) (write : Bytes → Bool) (s : S) (session : SessionContext)
    (frame : Frame) (now : Time)
    → let after = process_frame auth write s session frame now in
      (p : Processed) × ((after.2 ≡ some p)
        × (All (IsPersisted after.1.authenticated) (record_events p.recorded).1
            × (session.authenticated ≡ true → after.1.authenticated ≡ true)))
unfolding process_frame processed
process_frame-IsPersisted auth write s session frame now =
    let d = dispatch auth s frame session now in
    let same = identified-authenticated (session_of d) in
    let (p, (runs, sound)) =
      finish_frame-IsPersisted (session_of d).authenticated write frame session.authenticated
        (identified (session_of d)) (result_of d) (dispatch-ne-panicked auth s frame session now)
        (dispatch-Emits auth s frame session now) in
    (
      p,
      (
        runs,
        (rw same sound, λ h. same ∙ (dispatch-authenticated auth s frame session now).1 (inl h)),
      ),
    )
