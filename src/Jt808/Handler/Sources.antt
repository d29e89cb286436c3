-- ===== src/Jt808/Handler/Sources.antt =====
-- internal/protocol/jt808/handler.go: which terminal the events of a frame are of, and when they come.
use Prim.Native.String.{String}
use tallerp_telemetry.Base.{
  arith, ◌≡◌, ◌≢◌, ◌⊎◌, inl, inr, refl, ◌∙◌, sym, Bool, true, false, [], ◌∷◌, none, some, All,
  Bytes, Outcome, ok, err, panic,
}
use tallerp_telemetry.Telemetry.{Time, Float64, TelemetryEvent, is_placed}
use tallerp_telemetry.Session.{SessionContext}
use tallerp_telemetry.Jt808.Types.{Frame}
use tallerp_telemetry.Jt808.Location.{LocationPacket}
use tallerp_telemetry.Jt808.AdditionalInfo.Applied.{SameSource, apply_additional_items-SameSource}
use tallerp_telemetry.Jt808.Handler.{
  AuthStore, Handled, handled, panicked, Dispatched, answer, registered, authenticated, reported,
  general_ack, with_ack, next_out_serial, base_event, registration_ack, registration_event,
  auth_event, location_event, dispatch,
}
use tallerp_telemetry.Jt808.Handler.Branches.{
  Branch, refused, dropped, heartbeat, registration, authentication, location, quiet, unsupported,
  dispatch-Branch,
}
use tallerp_telemetry.Jt808.Handler.Gate.{session_of, result_of}

-- The events that a terminal may cause before it has authenticated.
abbrev pub IsHandshake : String → Type 0
IsHandshake event_type =
    (event_type ≡ "heartbeat") ⊎ ((event_type ≡ "registration") ⊎ (event_type ≡ "auth"))

-- An event of the terminal that its IMEI names, and no report unless the session is authenticated.
pub record IsTracked (known : Bool) (event : TelemetryEvent) : Type 0 where
  pub names_terminal : event.terminal_sn ≡ some event.imei
  pub of_family : event.protocol_family ≡ "jt808"
  pub authorised : (known ≡ true) ⊎ IsHandshake event.event_type

-- No nil is read for it, and it is such an event if it has an IMEI.
abbrev pub Emitted : Bool → TelemetryEvent → Type 0
Emitted known event = (is_placed event ≡ true) × (event.imei ≢ [] → IsTracked known event)

abbrev pub Emits : Bool → Handled → Type 0
Emits known (handled ack events e) = All (Emitted known) events
Emits known panicked = Unit

with_ack-Emits :
    (known : Bool) (m : Outcome Bytes) (k : Bytes → Handled)
    → ((ack : Bytes) → Emits known (k ack))
    → Emits known (with_ack m k)
unfolding with_ack
with_ack-Emits known (ok ack) k h = h ack
with_ack-Emits known (err e) k h = tt
with_ack-Emits known panic k h = tt

auth_event-IsTracked :
    (known : Bool) (frame : Frame) (now : Time) (accepted : Bool)
    → (auth_event frame now accepted).imei ≢ []
    → IsTracked known (auth_event frame now accepted)
unfolding base_event
auth_event-IsTracked known frame now true h = record {
  names_terminal = refl;
  of_family = refl;
  authorised = inr (inr (inr refl));
}
auth_event-IsTracked known frame now false h = absurd (h refl)

location_event-IsTracked :
    (known : Bool) (frame : Frame) (now : Time) (packet : LocationPacket)
    → known ≡ true
    → IsTracked known (location_event frame now packet)
unfolding base_event
location_event-IsTracked known frame now packet h =
    let same : SameSource _ (location_event frame now packet) =
      apply_additional_items-SameSource _ packet.additional_items in
    record {
      names_terminal = same.terminal_sn ∙ sym (ap_some same.imei);
      of_family = same.family;
      authorised = inl h;
    }
  where
    ap_some : {a b : Bytes} → a ≡ b → some a ≡ some b
    ap_some p = rw p refl

placed_at :
    (event : TelemetryEvent) (latitude longitude : Float64)
    → event.latitude ≡ some latitude
    → event.longitude ≡ some longitude
    → is_placed event ≡ true
placed_at event latitude longitude p q = ground arith

location_event-placed :
    (frame : Frame) (now : Time) (packet : LocationPacket)
    → is_placed (location_event frame now packet) ≡ true
unfolding base_event
location_event-placed frame now packet =
    let same : SameSource _ (location_event frame now packet) =
      apply_additional_items-SameSource _ packet.additional_items in
    placed_at (location_event frame now packet) packet.latitude packet.longitude same.latitude
      same.longitude

module _ {S : Type 0} (auth : AuthStore S) (s : S) (frame : Frame) (session : SessionContext)
    (now : Time) where
  registered-Emits :
      (known : Bool) (answered : S × Outcome Bytes)
      → Emits known (result_of (registered frame session now answered))
  unfolding registered reported base_event
  registered-Emits known (t, ok code) =
      with_ack-Emits known (registration_ack frame session code)
        (λ ack. handled ack (registration_event frame now ∷ []) none)
        (λ ack. (
          (
            refl,
            λ _. record {
              names_terminal = refl;
              of_family = refl;
              authorised = inr (inr (inl refl));
            },
          ),
          tt,
        ))
  registered-Emits known (t, err e) = tt
  registered-Emits known (t, panic) = tt

  Branch-Emits :
      (d : Dispatched S)
      → Branch auth s frame session now d
      → Emits (session_of d).authenticated (result_of d)
  unfolding answer general_ack authenticated base_event next_out_serial
  Branch-Emits _ (refused _) = with_ack-Emits _ _ _ (λ ack. tt)
  Branch-Emits _ (dropped e) = tt
  Branch-Emits _ (heartbeat _) = with_ack-Emits _ _ _ (λ ack. (
    (refl, λ _. record { names_terminal = refl; of_family = refl; authorised = inr (inl refl) }),
    tt,
  ))
  Branch-Emits _ (registration packet _ _) = registered-Emits _ _
  Branch-Emits _ (authentication packet accepted _ _ _) =
      with_ack-Emits _ _ _ (λ ack. ((refl, auth_event-IsTracked _ frame now accepted), tt))
  Branch-Emits _ (location packet known _ _) = with_ack-Emits _ _ _ (λ ack. (
    (
      location_event-placed frame now packet,
      λ _. location_event-IsTracked _ frame now packet known,
    ),
    tt,
  ))
  Branch-Emits _ (quiet _) = tt
  Branch-Emits _ (unsupported _) = with_ack-Emits _ _ _ (λ ack. tt)

  -- The events of a dispatched frame, as the session stands behind it.
  pub dispatch-Emits :
      Emits
        (session_of (dispatch auth s frame session now)).authenticated
        (result_of (dispatch auth s frame session now))
  dispatch-Emits = Branch-Emits _ (dispatch-Branch auth s frame session now)
