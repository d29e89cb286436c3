-- ===== src/Server/Gt/Loop/Served.antt =====
-- internal/server/connection.go: what holds of a whole GT06 or GT02 connection.
use tallerp_telemetry.Base.{
  ℕ, ◌≡◌, ◌≢◌, ◌≤◌, ◌∙◌, sym, refl, List, [], ◌∷◌, ◌++◌, none, some, Bytes, All, All-append,
  All-map, ◌⊎◌, Bool-cases, Option-cases, inl, inr,
}
use tallerp_telemetry.Telemetry.{Time, TelemetryEvent}
use tallerp_telemetry.Session.{unknown}
use tallerp_telemetry.Ranges.{InRange}
use tallerp_telemetry.Gt06.Crc.{build_ack}
use tallerp_telemetry.Gt06.Decoder.{GtFrame, GtDecoder}
use tallerp_telemetry.Gt06.Decoder.Total.{gt_push_total}
use tallerp_telemetry.Server.Gt.{
  GtMetric, ConnectionContext, GtProcessed, GtFailure, is_empty, frames_received,
}
use tallerp_telemetry.Server.Gt.Frames.{Kept, process_gt_frame-Kept}
use tallerp_telemetry.Server.Gt.Loop.{
  Writes, after_writes, Read, GtServed, GtEnding, process_gt_frames, nothing_processed,
  before_frames, receive_gt, serve_gt, served, before_reads, left, dropped, crc_metrics,
}

-- An event that has an IMEI and fields in range.
abbrev pub IsSound : TelemetryEvent → Type 0
IsSound event = (event.imei ≢ []) × InRange event

-- An acknowledgement of some number and serial.
abbrev pub IsAck : Bytes → Type 0
IsAck ack = (number : ℕ) × ((serial : ℕ) × (ack ≡ build_ack number serial))

-- What some frames may do to a connection.
pub record Lasting (context : ConnectionContext) (after : ConnectionContext × GtProcessed)
    : Type 0 where
  pub family_kept :
      context.session.family ≢ unknown → after.0.session.family ≡ context.session.family
  pub limit : context.ambiguous_frames ≤ 3 → after.1.failure ≡ none → after.0.ambiguous_frames ≤ 3
  pub acks : All IsAck after.1.written
  pub sound : All IsSound after.1.persisted

Kept-Lasting :
    (context : ConnectionContext) (frame : GtFrame) (now : Time)
    (after : ConnectionContext × GtProcessed)
    → Kept context frame now after
    → Lasting context after
Kept-Lasting context frame now after k = record {
  family_kept = k.family_kept;
  limit = k.limit;
  acks = All-map _ _ (λ ack (n, e). (n, (frame.serial, e))) _ k.answers;
  sound = All-map _ _ (λ event h. (h.has_imei, h.range)) _ k.events;
}

-- One step after another.
Lasting-trans :
    (a b : ConnectionContext) (p q r : GtProcessed) (c : ConnectionContext)
    → Lasting a (b, p)
    → p.failure ≡ none
    → Lasting b (c, q)
    → r.written ≡ p.written ++ q.written
    → r.persisted ≡ p.persisted ++ q.persisted
    → r.failure ≡ q.failure
    → Lasting a (c, r)
Lasting-trans a b p q r c first alive second w e f = record {
  family_kept = λ known.
      second.family_kept (λ u. known (sym (first.family_kept known) ∙ u)) ∙ first.family_kept known;
  limit = λ few going. second.limit (first.limit few alive) (sym f ∙ going);
  acks = rw w (All-append IsAck p.written q.written first.acks second.acks);
  sound = rw e (All-append IsSound p.persisted q.persisted first.sound second.sound);
}

-- The counters do not matter.
recounted :
    (context after : ConnectionContext) (p : GtProcessed) (metrics : List GtMetric)
    → Lasting context (after, p)
    → Lasting context (after, record p { metrics = metrics })
recounted context after p metrics l = record {
  family_kept = l.family_kept;
  limit = l.limit;
  acks = l.acks;
  sound = l.sound;
}

process_gt_frames-Lasting :
    (write : Writes) (context : ConnectionContext) (frames : List GtFrame) (now : Time)
    → (after : ConnectionContext × GtProcessed) × ((process_gt_frames write context frames now
          ≡ some after)
        × Lasting context after)
unfolding process_gt_frames
process_gt_frames-Lasting write context [] now =
    (_, (refl, record { family_kept = λ _. refl; limit = λ few _. few; acks = tt; sound = tt }))
process_gt_frames-Lasting write context (frame ∷ rest) now =
    let ((after, p), (done, kept)) = process_gt_frame-Kept (write 0) context frame now in
    let first = Kept-Lasting context frame now (after, p) kept in
    elim (Option-cases p.failure) [
      | inr (e, failed) ↦ (
        (after, record p { metrics = frames_received ∷ p.metrics }),
        (rw (done, failed, process_gt_frames) (rw failed refl), recounted context after p _ first),
      )
      | inl alive ↦
          let ((last, later), (runs, second)) =
            process_gt_frames-Lasting (after_writes p.written write) after rest now in
          (
            (last, before_frames p later),
            (
              rw (done, alive, runs, process_gt_frames) refl,
              Lasting-trans context after p later _ last first alive second refl refl refl,
            ),
          )
    ]

receive_gt-Lasting :
    (write : Writes) (decoder : GtDecoder) (context : ConnectionContext) (bytes : Bytes)
    (now : Time)
    → (decoder' : GtDecoder) × ((after : ConnectionContext) × ((counted : List GtMetric)
          × ((p : GtProcessed) × ((receive_gt write decoder context bytes now
                  ≡ some (decoder', after, counted, p))
                × Lasting context (after, p)))))
unfolding receive_gt
receive_gt-Lasting write decoder context bytes now = elim (Bool-cases (is_empty bytes)) [
  | inl nothing ↦ (
    decoder,
    (
      context,
      (
        [],
        (
          nothing_processed,
          (
            rw nothing refl,
            record { family_kept = λ _. refl; limit = λ few _. few; acks = tt; sound = tt },
          ),
        ),
      ),
    ),
  )
  | inr some_bytes ↦
      let (decoder', frames, errors, pushed, _, _) = gt_push_total decoder bytes in
      let ((after, p), (runs, lasting)) = process_gt_frames-Lasting write context frames now in
      (
        decoder',
        (
          after,
          (crc_metrics errors, (p, (rw (some_bytes, pushed, runs, receive_gt) refl, lasting))),
        ),
      )
]

-- What holds of a connection after some reads: while it is still open, fewer than four ambiguous frames
-- in a row have come in.
pub record IsServed (context : ConnectionContext) (s : GtServed) : Type 0 where
  pub family_kept :
      context.session.family ≢ unknown → s.context.session.family ≡ context.session.family
  pub limit :
      context.ambiguous_frames ≤ 3
      → ((e : GtFailure) → s.ending ≢ dropped e)
      → s.context.ambiguous_frames ≤ 3
  pub acks : All IsAck s.written
  pub sound : All IsSound s.persisted

ended :
    (context after : ConnectionContext) (counted : List GtMetric) (p : GtProcessed)
    (ending : GtEnding)
    → Lasting context (after, p)
    → (p.failure ≡ none) ⊎ ((e : GtFailure) × (ending ≡ dropped e))
    → IsServed context (served after counted p ending)
ended context after counted p ending l how = record {
  family_kept = l.family_kept;
  limit =
      λ few going. l.limit few (elim how [ inl alive ↦ alive | inr (e, is) ↦ absurd (going e is) ]);
  acks = l.acks;
  sound = l.sound;
}

continued :
    (context after : ConnectionContext) (counted : List GtMetric) (p : GtProcessed)
    (later : GtServed)
    → Lasting context (after, p)
    → p.failure ≡ none
    → IsServed after later
    → IsServed context (before_reads counted p later)
continued context after counted p later l alive k = record {
  family_kept =
      λ known. k.family_kept (λ u. known (sym (l.family_kept known) ∙ u)) ∙ l.family_kept known;
  limit = λ few going. k.limit (l.limit few alive) going;
  acks = All-append IsAck p.written later.written l.acks k.acks;
  sound = All-append IsSound p.persisted later.persisted l.sound k.sound;
}

-- Whatever a GT06 or GT02 connection reads, in whatever pieces, its loop returns without a panic;
-- its family stays once it is known, what is written are acknowledgements, every event given to
-- the sink has an IMEI and fields in range, and a connection that started with at most three
-- ambiguous frames has at most three as long as it is not dropped.
pub serve_gt-IsServed :
    (write : Writes) (decoder : GtDecoder) (context : ConnectionContext) (reads : List Read)
    → (s : GtServed) × ((serve_gt write decoder context reads ≡ some s) × IsServed context s)
unfolding serve_gt
serve_gt-IsServed write decoder context [] =
    (_, (refl, record { family_kept = λ _. refl; limit = λ few _. few; acks = tt; sound = tt }))
serve_gt-IsServed write decoder context (r ∷ rest) =
    let (decoder', (after, (counted, (p, (received, lasting))))) =
      receive_gt-Lasting write decoder context r.bytes r.received_at in
    elim (Option-cases p.failure) [
      | inr (e, failed) ↦ (
        served after counted p (dropped e),
        (
          rw (received, failed, serve_gt) refl,
          ended context after counted p (dropped e) lasting (inr (e, refl)),
        ),
      )
      | inl alive ↦ elim (Option-cases r.error) [
        | inr (e, closed) ↦ (
          served after counted p (left e),
          (
            rw (received, alive, closed, serve_gt) refl,
            ended context after counted p (left e) lasting (inl alive),
          ),
        )
        | inl open_still ↦
            let (later, (runs, k)) =
              serve_gt-IsServed (after_writes p.written write) decoder' after rest in
            (
              before_reads counted p later,
              (
                rw (received, alive, open_still, runs, serve_gt) refl,
                continued context after counted p later lasting alive k,
              ),
            )
      ]
    ]
