-- ===== src/Server/Connection/Tracked.antt =====
-- internal/server/jt808_connection.go: what a whole JT808 connection persists.
use tallerp_telemetry.Base.{
  ℕ, ◌+◌, length, ◌≡◌, inl, inr, Bool, true, false, List, [], ◌∷◌, Option, none, some, All,
  All-append, All-map, Bytes, if◌then◌else◌,
}
use tallerp_telemetry.Telemetry.{Time, TelemetryEvent}
use tallerp_telemetry.Session.{SessionContext}
use tallerp_telemetry.Jt808.Types.{Frame}
use tallerp_telemetry.Jt808.Decoder.Total.{push_total}
use tallerp_telemetry.Jt808.Reassembly
use tallerp_telemetry.Jt808.Reassembly.{Reassembler, Joined, complete, incomplete, stuck}
use tallerp_telemetry.Jt808.Handler.{AuthStore}
use tallerp_telemetry.Server.Process.{Processed}
use tallerp_telemetry.Server.Process.Tracked.{IsPersisted, process_frame-IsPersisted}
use tallerp_telemetry.Server.Gt.{is_empty, record_events}
use tallerp_telemetry.Server.Gt.Loop.{Writes, Read, ReadError}
use tallerp_telemetry.Server.Connection.{
  JtConnection, JtTally, no_tally, JtState, JtRun, jt_done, jt_panicked, jt_endless, then_run,
  checksum_count, processed_jt, joined_jt, jt_frames, receive_jt, serve_jt, jt_start,
}

-- A run that does not panic, and whose persisted events the session that it leaves allows.
abbrev pub Tracked : {S : Type 0} → JtRun (JtState S) → Type 0
Tracked (jt_done (c, tally)) = All (IsPersisted c.session.authenticated) tally.persisted
Tracked jt_panicked = ⊥
Tracked jt_endless = Unit

-- What an authentication allows later stays allowed.
IsPersisted-later :
    (known known' : Bool)
    → (known ≡ true → known' ≡ true)
    → (event : TelemetryEvent) → IsPersisted known event
    → IsPersisted known' event
IsPersisted-later known known' stays event (named, tracked) = (
  named,
  record {
    names_terminal = tracked.names_terminal;
    of_family = tracked.of_family;
    authorised = elim tracked.authorised [ inl h ↦ inl (stays h) | inr early ↦ inr early ];
  },
)

module _ {S : Type 0} where
  then_run-Tracked :
      (m : JtRun (JtState S)) (k : JtState S → JtRun (JtState S))
      → Tracked m
      → ((c : JtConnection S) (tally : JtTally)
          → Tracked (jt_done (c, tally))
          → Tracked (k (c, tally)))
      → Tracked (then_run m k)
  unfolding then_run
  then_run-Tracked (jt_done (c, tally)) k h later = later c tally h
  then_run-Tracked jt_panicked k h later = absurd h
  then_run-Tracked jt_endless k h later = tt

  Tracked-if :
      (b : Bool) (x y : JtRun (JtState S)) → Tracked x → Tracked y → Tracked (if b then x else y)
  Tracked-if true x y h k = h
  Tracked-if false x y h k = k

  processed_jt-Tracked :
      (c : JtConnection S) (tally : JtTally) (after : S × SessionContext × Option Processed)
      (p : Processed)
      → after.2 ≡ some p
      → All (IsPersisted after.1.authenticated) (record_events p.recorded).1
      → (c.session.authenticated ≡ true → after.1.authenticated ≡ true)
      → All (IsPersisted c.session.authenticated) tally.persisted
      → Tracked (processed_jt c tally after)
  unfolding processed_jt
  processed_jt-Tracked c tally (s, session, none) p e sound stays h = cc
  processed_jt-Tracked c tally (s, session, some q) p e sound stays h =
      let same : q ≡ p = cc in
      All-append (IsPersisted session.authenticated) tally.persisted _
        (All-map _ _ (IsPersisted-later c.session.authenticated session.authenticated stays)
          tally.persisted h)
        (rw same sound)

  -- The end of a read's round: on with `more`, or out with the error.
  after_read :
      (c : JtConnection S) (tally : JtTally) (fault : Option ReadError) (more : JtRun (JtState S))
      → Tracked (jt_done (c, tally))
      → Tracked more
      → Tracked (elim fault [ none ↦ more | some e ↦ jt_done (c, tally) ])
  after_read c tally none more h k = k
  after_read c tally (some e) more h k = h

module _ {S : Type 0} (auth : AuthStore S) (write : Writes) where
  joined_jt-Tracked :
      (c : JtConnection S) (tally : JtTally) (now : Time) (r : Reassembler × Joined)
      → All (IsPersisted c.session.authenticated) tally.persisted
      → Tracked (joined_jt auth write c tally now r)
  unfolding joined_jt
  joined_jt-Tracked c tally now (r, complete frame) h =
      let (p, (runs, (sound, stays))) =
        process_frame-IsPersisted auth (write (length tally.written)) c.store c.session frame now in
      processed_jt-Tracked (record c { reassembler = r }) tally _ p runs sound stays h
  joined_jt-Tracked c tally now (r, incomplete) h = h
  joined_jt-Tracked c tally now (r, stuck) h = tt

  jt_frames-Tracked :
      (c : JtConnection S) (tally : JtTally) (frames : List Frame) (now : Time)
      → All (IsPersisted c.session.authenticated) tally.persisted
      → Tracked (jt_frames auth write c tally frames now)
  unfolding jt_frames
  jt_frames-Tracked c tally [] now h = h
  jt_frames-Tracked c tally (frame ∷ rest) now h =
      then_run-Tracked _ _
        (joined_jt-Tracked c (record tally { frames = tally.frames + 1 }) now
          (Reassembly.push c.reassembler frame now) h)
        (λ c' tally' h'.
          Tracked-if tally'.failed (jt_done (c', tally')) (jt_frames auth write c' tally' rest now)
            h' (jt_frames-Tracked c' tally' rest now h'))

  receive_jt-Tracked :
      (c : JtConnection S) (tally : JtTally) (bytes : Bytes) (now : Time)
      → All (IsPersisted c.session.authenticated) tally.persisted
      → Tracked (receive_jt auth write c tally bytes now)
  unfolding receive_jt
  receive_jt-Tracked c tally bytes now h =
      let (decoder, frames, errors, pushed, _, _, _) = push_total c.decoder bytes in
      let counted = record tally {
        checksum_errors = tally.checksum_errors + checksum_count errors;
      } in
      rw pushed (
        Tracked-if (is_empty bytes) (jt_done (c, tally))
          (jt_frames auth write (record c { decoder = decoder }) counted frames now) h
          (jt_frames-Tracked (record c { decoder = decoder }) counted frames now h))

  serve_jt-Tracked :
      (c : JtConnection S) (tally : JtTally) (reads : List Read)
      → All (IsPersisted c.session.authenticated) tally.persisted
      → Tracked (serve_jt auth write c tally reads)
  unfolding serve_jt
  serve_jt-Tracked c tally [] h = h
  serve_jt-Tracked c tally (r ∷ rest) h =
      then_run-Tracked _ _ (receive_jt-Tracked c tally r.bytes r.received_at h) (λ c' tally' h'.
        Tracked-if tally'.failed (jt_done (c', tally')) _ h' (
          after_read c' tally' r.error (serve_jt auth write c' tally' rest) h'
            (serve_jt-Tracked c' tally' rest h')))

  pub serve_jt-IsTracked :
      (s : S) (max_frame_size max_buffered_bytes : ℕ) (reads : List Read)
      → Tracked (serve_jt auth write (jt_start s max_frame_size max_buffered_bytes) no_tally reads)
  serve_jt-IsTracked s max_frame_size max_buffered_bytes reads =
      serve_jt-Tracked (jt_start s max_frame_size max_buffered_bytes) no_tally reads tt
