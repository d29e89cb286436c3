-- ===== src/Server/Gt/Frames.antt =====
-- internal/server/connection.go: what `processFrame` does with one frame, whichever handler it finds.
use Prim.Native.String.{String}
use tallerp_telemetry.Base.{
  true, ◌||◌, ℕ, ◌≤◌, ◌≡◌, ◌≢◌, ◌⊎◌, inl, inr, refl, sym, subst, ap, ◌∙◌, arith, Bool, false, ◌&&◌,
  List, [], ◌∷◌, ◌++◌, Option, none, some, ◌==◌, if◌then◌else◌, Bytes, Error, All, All-append,
  All-map, All-both, either_side, Option-cases,
}
use tallerp_telemetry.Telemetry.{all_placed, Time, TelemetryEvent}
use tallerp_telemetry.Session.{
  Family, unknown, gt06, gt02, jt808, SessionContext, Handled, handled, panicked,
}
use tallerp_telemetry.Session.Reports.{IsOf, Attributed, Reports}
use tallerp_telemetry.Ranges.{all_placed_lem, InRange}
use tallerp_telemetry.Gt06.Crc.{build_ack}
use tallerp_telemetry.Gt06.Decoder.{GtFrame}
use tallerp_telemetry.Gt06.Handler.{gt06_can_handle}
use tallerp_telemetry.Gt06.Handler.Laws.{handle_gt06-InRange}
use tallerp_telemetry.Gt06.Handler.Family.{handle_gt06-family}
use tallerp_telemetry.Gt06.Handler.Attribution.{handle_gt06-Attributed}
use tallerp_telemetry.Gt02.Encoder.{gt02_heartbeat_ack}
use tallerp_telemetry.Gt02.Handler.{gt02_can_handle}
use tallerp_telemetry.Gt02.Handler.Laws.{handle_gt02-InRange}
use tallerp_telemetry.Gt02.Handler.Family.{handle_gt02-family}
use tallerp_telemetry.Gt02.Handler.Attribution.{handle_gt02-Attributed, reply_number}
use tallerp_telemetry.Server.Gt.{
  ConnectionContext, GtProcessed, GtMetric, GtHandler, gt06_handler, gt02_handler, handler_name,
  can_handle, handle, first_handler, handler_for, record_ambiguous_frame, is_empty, persisted_event,
  record_events, finish_gt, is_failed, claimed, is_unknown, handled_gt, process_gt_frame,
  increment_frame_family,
}

-- The family as the events spell it.
abbrev pub family_text : Family → String
family_text unknown = ""
family_text gt06 = "gt06"
family_text gt02 = "gt02"
family_text jt808 = "jt808"

-- The handler that is found is the family's own, or the family is not known yet.
handler_for-family :
    (frame : GtFrame) (session : SessionContext) (h : GtHandler)
    → handler_for frame session ≡ some h
    → (session.family ≡ unknown) ⊎ (session.family ≡ handler_name h)
unfolding handler_for can_handle gt06_can_handle gt02_can_handle handler_name first_handler
handler_for-family frame session gt06_handler e = ground arith
handler_for-family frame session gt02_handler e = ground arith

claimed-family :
    (h : GtHandler) (session : SessionContext)
    → (session.family ≡ unknown) ⊎ (session.family ≡ handler_name h)
    → (claimed h session).family ≡ handler_name h
unfolding claimed handler_name
claimed-family gt06_handler session e = ground arith
claimed-family gt02_handler session e = ground arith

claimed-imei : (h : GtHandler) (session : SessionContext) → (claimed h session).imei ≡ session.imei
unfolding claimed
claimed-imei h session = ground arith

handle-family :
    (h : GtHandler) (frame : GtFrame) (session : SessionContext) (now : Time)
    → (handle h frame session now).0.family ≡ session.family
unfolding handle
handle-family gt06_handler frame session now = handle_gt06-family frame session now
handle-family gt02_handler frame session now = handle_gt02-family frame session now

-- The number under which a handler answers.
abbrev pub answer_number : GtHandler → ℕ → ℕ
answer_number gt06_handler number = number
answer_number gt02_handler number = reply_number number

handle-Attributed :
    (h : GtHandler) (frame : GtFrame) (session : SessionContext) (now : Time)
    → Attributed
        (family_text (handler_name h))
        (answer_number h frame.protocol_number)
        frame
        now
        (handle h frame session now)
unfolding handle handler_name
handle-Attributed gt06_handler frame session now = handle_gt06-Attributed frame session now
handle-Attributed gt02_handler frame session now = handle_gt02-Attributed frame session now

handle-InRange :
    (h : GtHandler) (frame : GtFrame) (session : SessionContext) (now : Time)
    → Reports InRange (handle h frame session now)
unfolding handle
handle-InRange gt06_handler frame session now = handle_gt06-InRange frame session now
handle-InRange gt02_handler frame session now = handle_gt02-InRange frame session now

-- An event that is given to the sink after a frame.
pub record IsPersisted (frame : GtFrame) (now : Time) (session : SessionContext)
    (event : TelemetryEvent) : Type 0 where
  pub has_imei : event.imei ≢ []
  pub origin : IsOf (family_text session.family) frame now session event
  pub range : InRange event

persisted_event-All {κ} :
    (P : TelemetryEvent → Type κ) (event : TelemetryEvent)
    → P event
    → All (λ e. (e.imei ≢ []) × P e) (persisted_event event)
unfolding persisted_event
persisted_event-All P event h =
    either_side (All (λ e. (e.imei ≢ []) × P e)) (is_empty event.imei) (λ _. tt)
      (λ full. ((λ (empty : event.imei ≡ []). filled event.imei empty full, h), tt))
  where
    filled : (imei : Bytes) → imei ≡ [] → is_empty imei ≡ false → ⊥
    filled imei e h = ground arith

record_events-All {κ} :
    (P : TelemetryEvent → Type κ) (events : List TelemetryEvent)
    → All P events
    → All (λ e. (e.imei ≢ []) × P e) (record_events events).1
unfolding record_events
record_events-All P [] h = tt
record_events-All P (event ∷ rest) h =
    All-append _ (persisted_event event) _ (persisted_event-All P event h.0)
      (record_events-All P rest h.1)

finish_gt-All {κ} :
    (P : TelemetryEvent → Type κ) (write : Bytes → Bool) (metrics : List GtMetric) (ack : Bytes)
    (events : List TelemetryEvent)
    → All P events
    → All (λ e. (e.imei ≢ []) × P e) (finish_gt write metrics ack events).persisted
unfolding finish_gt
finish_gt-All P write metrics [] events h = record_events-All P events h
finish_gt-All P write metrics (b ∷ ack) events h =
    either_side (λ (p : GtProcessed). All (λ e. (e.imei ≢ []) × P e) p.persisted) (write (b ∷ ack))
      (λ _. record_events-All P events h) (λ _. tt)

-- What a frame may do to a connection: a known family stays, the count of ambiguous frames stays below
-- four as long as the connection lives, what is written is an answer with the frame's serial, and a
-- frame that ends the connection has no events.
pub record Kept (context : ConnectionContext) (frame : GtFrame) (now : Time)
    (after : ConnectionContext × GtProcessed) : Type 0 where
  pub family_kept :
      context.session.family ≢ unknown → after.0.session.family ≡ context.session.family
  pub limit : context.ambiguous_frames ≤ 3 → after.1.failure ≡ none → after.0.ambiguous_frames ≤ 3
  pub answers : All (λ ack. (n : ℕ) × (ack ≡ build_ack n frame.serial)) after.1.written
  pub events : All (IsPersisted frame now after.0.session) after.1.persisted
  pub silent : after.1.failure ≢ none → after.1.persisted ≡ []

-- The events of a handler are those of the session that has claimed its family.
claimed-IsPersisted :
    (h : GtHandler) (frame : GtFrame) (now : Time) (session : SessionContext)
    (event : TelemetryEvent)
    → (session.family ≡ unknown) ⊎ (session.family ≡ handler_name h)
    → (event.imei ≢ [])
      × (IsOf (family_text (handler_name h)) frame now session event × InRange event)
    → IsPersisted frame now (claimed h session) event
claimed-IsPersisted h frame now session event own (imei, (is_of, range)) =
    let family = claimed-family h session own in
    record {
      has_imei = imei;
      origin = record {
        of_session = is_of.of_session ∙ sym (claimed-imei h session);
        of_serial = is_of.of_serial;
        of_bytes = is_of.of_bytes;
        of_time = is_of.of_time;
        of_family = is_of.of_family ∙ ap family_text (sym family);
      };
      range = range;
    }

finish_gt-written :
    (write : Bytes → Bool) (metrics : List GtMetric) (ack : Bytes) (events : List TelemetryEvent)
    (number serial : ℕ)
    → (ack ≡ []) ⊎ (ack ≡ build_ack number serial)
    → All (λ ack. (n : ℕ) × (ack ≡ build_ack n serial)) (finish_gt write metrics ack events).written
unfolding finish_gt
finish_gt-written write metrics [] events number serial h = tt
finish_gt-written write metrics (b ∷ ack) events number serial (inl h) = cc
finish_gt-written write metrics (b ∷ ack) events number serial (inr h) =
    either_side (λ (p : GtProcessed). All (λ ack. (n : ℕ) × (ack ≡ build_ack n serial)) p.written)
      (write (b ∷ ack)) (λ _. ((number, h), tt)) (λ _. ((number, h), tt))

finish_gt-silent :
    (write : Bytes → Bool) (metrics : List GtMetric) (ack : Bytes) (events : List TelemetryEvent)
    → (finish_gt write metrics ack events).failure ≢ none
    → (finish_gt write metrics ack events).persisted ≡ []
unfolding finish_gt
finish_gt-silent write metrics [] events = λ h. absurd (h refl)
finish_gt-silent write metrics (b ∷ ack) events =
    either_side (λ (p : GtProcessed). p.failure ≢ none → p.persisted ≡ []) (write (b ∷ ack))
      (λ _ h. absurd (h refl)) (λ _ h. refl)

goes_on : (a b : Bool) → b ≡ true → (a || b) ≡ true
goes_on a b h = ground arith

handled_gt-Kept :
    (write : Bytes → Bool) (context : ConnectionContext) (h : GtHandler) (frame : GtFrame)
    (now : Time) (number : ℕ) (result : SessionContext × Handled)
    → (context.session.family ≡ unknown) ⊎ (context.session.family ≡ handler_name h)
    → result.0.family ≡ context.session.family
    → Attributed (family_text (handler_name h)) number frame now result
    → Reports InRange result
    → (after : ConnectionContext × GtProcessed) × ((handled_gt write context h
            context.session.family result
          ≡ some after)
        × Kept context frame now after)
unfolding handled_gt
handled_gt-Kept write context h frame now number (session, handled ack events (some e)) own family
      of range =
    (
      _,
      (
        refl,
        record {
          family_kept = λ _. family;
          limit = λ few _. few;
          answers = tt;
          events = tt;
          silent = λ _. refl;
        },
      ),
    )
handled_gt-Kept write context h frame now number (session, handled ack events none) own family of
      range =
    let own' = subst (λ f. (f ≡ unknown) ⊎ (f ≡ handler_name h)) (sym family) own in
    let metrics =
      increment_frame_family context.session.family
      ++ (if is_unknown context.session.family
          then increment_frame_family (claimed h session).family
          else []) in
    (
      (
        record { session = claimed h session; ambiguous_frames = 0 },
        finish_gt write metrics ack events,
      ),
      (
        rw
            (goes_on (is_failed (finish_gt write metrics ack events).failure) (all_placed events)
              (all_placed_lem events range))
            refl,
        record {
          family_kept = λ known. claimed-family h session own' ∙ sym (owned known own);
          limit = λ _ _. omega arith;
          answers = finish_gt-written write metrics ack events number frame.serial (answer of.1);
          events =
              All-map _ _ (λ event. claimed-IsPersisted h frame now session event own') _
                (finish_gt-All _ write metrics ack events (All-both _ _ events of.0 range));
          silent = finish_gt-silent write metrics ack events;
        },
      ),
    )
  where
    owned : {f : Family} → f ≢ unknown → (f ≡ unknown) ⊎ (f ≡ handler_name h) → f ≡ handler_name h
    owned known (inl e) = absurd (known e)
    owned known (inr e) = e

    answer :
        {e : Option Error}
        → (ack ≡ []) ⊎ ((ack ≡ build_ack number frame.serial) × (e ≡ none))
        → (ack ≡ []) ⊎ (ack ≡ build_ack number frame.serial)
    answer (inl e) = inl e
    answer (inr e) = inr e.0
handled_gt-Kept write context h frame now number (session, panicked) own family of range =
    absurd range

record_ambiguous_frame-Kept :
    (context : ConnectionContext) (frame : GtFrame) (now : Time) (written : List Bytes)
    → All (λ ack. (n : ℕ) × (ack ≡ build_ack n frame.serial)) written
    → Kept context frame now (record_ambiguous_frame context written)
unfolding record_ambiguous_frame
record_ambiguous_frame-Kept context frame now written h = record {
  family_kept = λ _. refl;
  limit = λ few alive. ground arith;
  answers = h;
  events = tt;
  silent = λ _. refl;
}

-- Every frame is processed to its end, and does to the connection only what it may.
pub process_gt_frame-Kept :
    (write : Bytes → Bool) (context : ConnectionContext) (frame : GtFrame) (now : Time)
    → (after : ConnectionContext × GtProcessed) × ((process_gt_frame write context frame now
          ≡ some after)
        × Kept context frame now after)
unfolding process_gt_frame gt02_heartbeat_ack
process_gt_frame-Kept write context frame now =
    let Fine : Option (ConnectionContext × GtProcessed) → Type 0 = λ r.
      (after : ConnectionContext × GtProcessed) × ((r ≡ some after)
        × Kept context frame now after) in
    let session = context.session in
    either_side Fine (is_unknown session.family && (frame.protocol_number == 0x13))
      (λ _.
        either_side (λ r. Fine (some r)) (write (gt02_heartbeat_ack frame.serial))
          (λ _. (_, (refl, record_ambiguous_frame-Kept context frame now _ ((0x13, refl), tt))))
          (λ _. (
            _,
            (
              refl,
              record {
                family_kept = λ _. refl;
                limit = λ few _. few;
                answers = ((0x13, refl), tt);
                events = tt;
                silent = λ _. refl;
              },
            ),
          )))
      (λ _. elim (Option-cases (handler_for frame session)) [
        | inl nobody ↦ rw nobody (_, (refl, record_ambiguous_frame-Kept context frame now [] tt))
        | inr (h, found) ↦ rw found (
            handled_gt-Kept write context h frame now (answer_number h frame.protocol_number)
              (handle h frame session now) (handler_for-family frame session h found)
              (handle-family h frame session now) (handle-Attributed h frame session now)
              (handle-InRange h frame session now))
      ])
