-- ===== src/Jt808/Decoder/Encodings.antt =====
-- internal/protocol/jt808/decoder.go and encode.go: messages as they are sent, and the rounds on them.
use tallerp_telemetry.Base.{
  ℕ, suc, ◌≤◌, ◌<◌, ◌≡◌, refl, ◌∙◌, ap, List, [], ◌∷◌, ◌++◌, arith, length, length-append, Bytes,
  Outcome, ok, ◌>>=◌, >>=-eq-ok, append-nil,
}
use tallerp_telemetry.Jt808.Types.{Frame, delimiter}
use tallerp_telemetry.Jt808.Escape.{escape, calculate_checksum}
use tallerp_telemetry.Jt808.Escape.RoundTrip.{length-escape}
use tallerp_telemetry.Jt808.Header.{encode_frame, wrap}
use tallerp_telemetry.Jt808.Header.RoundTrip.{sent_header, encode_frame-Encoded}
use tallerp_telemetry.Jt808.Decoder.{next, round, push_loop}
use tallerp_telemetry.Jt808.Decoder.Total.{push_loop_next}
use tallerp_telemetry.Jt808.Decoder.Frames.{round-wrap, round-two_delimiters}

-- The arguments of one call of `encode_frame`.
pub record Message : Type 0 where
  pub message_id : ℕ
  pub terminal_sn : Bytes
  pub serial : ℕ
  pub body : Bytes

-- The two numbers are of type uint16.
abbrev pub IsMessage : Message → Type 0
IsMessage m = (m.message_id < 65536) × (m.serial < 65536)

abbrev pub encode_message : Message → Outcome Bytes
encode_message m = encode_frame m.message_id m.terminal_sn m.serial m.body

-- The messages one after the other, each in its own delimiters.
abbrev pub encode_all : List Message → Outcome Bytes
encode_all [] = ok []
encode_all (m ∷ ms) = encode_message m >>= λ wire. encode_all ms >>= λ rest. ok (wire ++ rest)

-- The frame has the message's contents, and its raw bytes are the message's encoding.
abbrev pub Carries : Message → Frame → Type 0
Carries m f =
    (record f { raw = []; checksum = 0 } ≡ sent_header m.message_id m.terminal_sn m.serial m.body)
    × (encode_message m ≡ ok f.raw)

abbrev pub Decoded : List Message → List Frame → Type 0
Decoded [] [] = Unit
Decoded (m ∷ ms) (f ∷ fs) = Carries m f × Decoded ms fs
Decoded _ _ = ⊥

-- One message in front of any bytes: the frame it becomes, and the bytes that are left.
pub message_round :
    (max : ℕ) (m : Message) (wire rest : Bytes)
    → IsMessage m
    → encode_message m ≡ ok wire
    → length wire ≤ max
    → (f : Frame) × Carries m f × (round max (wire ++ rest) ≡ next (delimiter ∷ rest) (f ∷ []) [])
message_round max m wire rest word sent fits =
    let e =
      encode_frame-Encoded m.message_id m.terminal_sn m.serial m.body wire word.0 word.1 sent in
    let header = sent_header m.message_id m.terminal_sn m.serial m.body in
    (
      record header { checksum = calculate_checksum e.payload; raw = wrap e.payload },
      (refl, sent ∙ ap ok e.wraps),
      rw e.wraps (round-wrap max e.payload rest header e.long e.reads (rw e.wraps at fits)),
    )

-- A frame of at most 1023 body bytes takes at most 2074 on the wire.
wrap_short : (payload : Bytes) → length payload ≤ 1035 → length (wrap payload) ≤ 2074
unfolding wrap
wrap_short payload h =
    let inner = payload ++ calculate_checksum payload ∷ [] in
    omega (
      arith,
      length-append (escape inner) (delimiter ∷ []),
      length-escape inner,
      length-append payload (calculate_checksum payload ∷ []),
    )

pub wire_starts :
    (m : Message) (wire : Bytes)
    → IsMessage m
    → encode_message m ≡ ok wire
    → (tail : Bytes) × (wire ≡ delimiter ∷ tail) × (0 < length tail) × (length wire ≤ 2074)
wire_starts m wire word sent =
    let e =
      encode_frame-Encoded m.message_id m.terminal_sn m.serial m.body wire word.0 word.1 sent in
    let inner = escape (e.payload ++ calculate_checksum e.payload ∷ []) in
    (
      inner ++ delimiter ∷ [],
      e.wraps ∙ unfold wrap in refl,
      omega (arith, length-append inner (delimiter ∷ [])),
      rw e.wraps (wrap_short e.payload (omega (arith, e.size, e.small))),
    )

-- Two rounds, one for the delimiter that the last frame left and one for the message.
pub message_rounds :
    (max fuel : ℕ) (m : Message) (wire rest : Bytes) (frames : List Frame)
    → IsMessage m
    → encode_message m ≡ ok wire
    → length wire ≤ max
    → (f : Frame) × Carries m f
      × (push_loop max (suc (suc fuel)) (delimiter ∷ (wire ++ rest)) frames []
          ≡ push_loop max fuel (delimiter ∷ rest) (frames ++ f ∷ []) [])
message_rounds max fuel m wire rest frames word sent fits =
    let (tail, starts, _, _) = wire_starts m wire word sent in
    let (f, carries, reads) = message_round max m wire rest word sent fits in
    let doubled : round max (delimiter ∷ (wire ++ rest)) ≡ next (wire ++ rest) [] [] =
      rw starts (round-two_delimiters max (tail ++ rest)) in
    (
      f,
      carries,
      push_loop_next max (suc fuel) (delimiter ∷ (wire ++ rest)) (wire ++ rest) frames [] [] []
            doubled
          ∙ rw append-nil (
              push_loop_next max fuel (wire ++ rest) (delimiter ∷ rest) frames (f ∷ []) [] []
                reads),
    )

pub encode_all_step :
    (m : Message) (ms : List Message) {stream : Bytes}
    → encode_all (m ∷ ms) ≡ ok stream
    → (wire : Bytes) × (rest : Bytes) × (encode_message m ≡ ok wire)
      × (encode_all ms ≡ ok rest)
      × (wire ++ rest ≡ stream)
encode_all_step m ms sent =
    let (wire, one, later) =
      >>=-eq-ok (encode_message m) (λ w. encode_all ms >>= λ rest. ok (w ++ rest)) sent in
    let (rest, more, whole) = >>=-eq-ok (encode_all ms) (λ r. ok (wire ++ r)) later in
    (wire, rest, one, more, cc whole)

-- From a buffer that starts with the last frame's delimiter the loop reads the whole stream.
