-- ===== src/Server/Connection/Safety.antt =====
-- internal/server: no bytes make a connection panic.
use tallerp_telemetry.Base.{
  ℕ, ◌≡◌, ◌≢◌, refl, Bool, true, false, ltb, ◌==◌, if◌then◌else◌, arith, length, ok, ◌>>=◌, index,
  List, [], ◌∷◌, Bytes,
}
use tallerp_telemetry.Session.{new_session}
use tallerp_telemetry.Jt808.Handler.{AuthStore}
use tallerp_telemetry.Gt06.Decoder.{new_gt_decoder}
use tallerp_telemetry.Server.Gt.{is_empty}
use tallerp_telemetry.Server.Gt.Loop.{Writes, Read}
use tallerp_telemetry.Server.Gt.Loop.Served.{serve_gt-IsServed}
use tallerp_telemetry.Server.Connection.{
  JtState, JtRun, jt_done, jt_panicked, jt_endless, then_run, is_jt808, jt_connection,
  framed_connection, handle_connection,
}
use tallerp_telemetry.Server.Connection.Tracked.{Tracked, serve_jt-IsTracked}

module _ {S : Type 0} (auth : AuthStore S) (write : Writes) where
  -- The first byte is read only where there is one.
  is_jt808-returns : (reads : List Read) → (b : Bool) × (is_jt808 reads ≡ ok b)
  unfolding is_jt808 index
  is_jt808-returns [] = (false, refl)
  is_jt808-returns (r ∷ rest) = first r.bytes
    where
      first :
          (bytes : Bytes)
          → (b : Bool) × ((if is_empty bytes
                then ok false
                else (index bytes 0 >>= λ x. ok (x == 0x7e)))
              ≡ ok b)
      first [] = (false, refl)
      first (x ∷ bytes) =
          (x == 0x7e, let there : ltb 0 (length (x ∷ bytes)) ≡ true = ground arith in rw there refl)

  framed_connection-ne-panicked :
      (s : S) (max_frame_size max_buffered_bytes : ℕ) (reads : List Read) (b : Bool)
      → framed_connection auth write s max_frame_size max_buffered_bytes reads (ok b) ≢ jt_panicked
  unfolding framed_connection then_run
  framed_connection-ne-panicked s max_frame_size max_buffered_bytes reads true =
      ended-ne-panicked _ (serve_jt-IsTracked auth write s max_frame_size max_buffered_bytes reads)
    where
      ended-ne-panicked :
          (run : JtRun (JtState S))
          → Tracked run
          → then_run run (λ ended. jt_done (jt_connection ended)) ≢ jt_panicked
      ended-ne-panicked (jt_done ended) h = λ p. cc
      ended-ne-panicked jt_panicked h = absurd h
      ended-ne-panicked jt_endless h = λ p. cc
  framed_connection-ne-panicked s max_frame_size max_buffered_bytes reads false =
      let (ended, (runs, _)) =
        serve_gt-IsServed write (new_gt_decoder max_frame_size max_buffered_bytes)
          (record { session = new_session; ambiguous_frames = 0 }) reads in
      rw (framed_connection, runs) (λ p. cc)

  -- Whatever bytes a peer sends, in whatever pieces, neither a JT808 connection nor a GT
  -- connection panics, with any store that itself returns.
  pub handle_connection-ne-panicked :
      (s : S) (max_frame_size max_buffered_bytes : ℕ) (reads : List Read)
      → handle_connection auth write s max_frame_size max_buffered_bytes reads ≢ jt_panicked
  unfolding handle_connection
  handle_connection-ne-panicked s max_frame_size max_buffered_bytes reads =
      let (b, chosen) = is_jt808-returns reads in
      rw chosen (framed_connection-ne-panicked s max_frame_size max_buffered_bytes reads b)
