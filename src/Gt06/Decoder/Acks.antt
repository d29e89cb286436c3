-- ===== src/Gt06/Decoder/Acks.antt =====
-- internal/protocol/decoder.go and encoder.go: acknowledgements read by the decoder.
use tallerp_telemetry.Base.{
  ℕ, suc, List, ◌/◌, ◌%◌, ◌≤◌, ◌<◌, ◌≡◌, refl, ◌∙◌, false, [], ◌∷◌, ◌++◌, arith, ltb, length, Bytes,
  be16, le→ltb_false, put16_u16, ==_self,
}
use tallerp_telemetry.Gt06.Crc.{calculate_crc, ack_payload, build_ack}
use tallerp_telemetry.Gt06.Decoder.{
  GtFrame, GtDecodeError, find_header, gt_next, round_of, without_header, kept, gt_round, gt_done,
  gt_push_loop, gt_limit_buffer, gt_push,
}
use tallerp_telemetry.Gt06.Decoder.Reads.{
  plain_discarded, plain_frame, plain_candidate, plain_sized, plain_header, plain_round,
  gt_round-plain,
}

pub calculate_crc-lt : (bytes : Bytes) → calculate_crc bytes < 65536
unfolding calculate_crc
calculate_crc-lt bytes = omega arith

-- The frame that an acknowledgement is.
abbrev pub ack_frame : ℕ → ℕ → GtFrame
ack_frame protocol_number serial = record {
  header = 0x78 ∷ 0x78 ∷ [];
  declared = 5;
  protocol_number = protocol_number;
  content = [];
  serial = serial;
  crc = calculate_crc (ack_payload protocol_number serial);
  raw = build_ack protocol_number serial;
}

gt_round-build_ack :
    (max protocol_number serial : ℕ)
    → 10 ≤ max
    → serial < 65536
    → gt_round max (build_ack protocol_number serial)
      ≡ gt_next [] (ack_frame protocol_number serial ∷ []) []
unfolding plain_round find_header plain_discarded plain_header plain_sized plain_candidate
    plain_frame build_ack
gt_round-build_ack max p s fits word =
    let crc = calculate_crc (ack_payload p s) in
    let serial : be16 (s / 256 % 256) (s % 256) ≡ s = put16_u16 s word in
    let code : be16 (crc / 256 % 256) (crc % 256) ≡ crc = put16_u16 crc (calculate_crc-lt _) in
    let small : ltb max 10 ≡ false = le→ltb_false max 10 fits in
    rw (gt_round-plain, plain_round, small, code, ==_self, serial) refl

length-build_ack : (protocol_number serial : ℕ) → length (build_ack protocol_number serial) ≡ 10
unfolding build_ack
length-build_ack p s = refl

pub gt_push_loop_next :
    (max fuel : ℕ) (buffer rest : Bytes) (frames found : List GtFrame)
    (errors more : List GtDecodeError)
    → gt_round max buffer ≡ gt_next rest found more
    → gt_push_loop max (suc fuel) buffer frames errors
      ≡ gt_push_loop max fuel rest (frames ++ found) (errors ++ more)
unfolding gt_push_loop
gt_push_loop_next max fuel buffer rest frames found errors more e = rw (e, gt_push_loop)

pub gt_push_loop-empty :
    (max fuel : ℕ) (frames : List GtFrame)
    → gt_push_loop max (suc fuel) [] frames [] ≡ gt_done [] frames []
unfolding gt_push_loop gt_round round_of find_header without_header kept
gt_push_loop-empty max fuel frames = refl

-- An acknowledgement with a serial below 65536, pushed into a decoder with an empty buffer and a
-- frame limit of at least ten bytes, comes out as exactly one frame with its protocol number, its
-- serial, its check code and no content, without an error.
pub gt_push-build_ack :
    (max_frame_size max_buffered_bytes protocol_number serial : ℕ)
    → 10 ≤ max_frame_size
    → serial < 65536
    → gt_push
        (record {
          buffer = [];
          max_frame_size = max_frame_size;
          max_buffered_bytes = max_buffered_bytes;
        })
        (build_ack protocol_number serial)
      ≡ gt_done
          (record {
            buffer = [];
            max_frame_size = max_frame_size;
            max_buffered_bytes = max_buffered_bytes;
          })
          (ack_frame protocol_number serial ∷ [])
          []
unfolding gt_push gt_limit_buffer
gt_push-build_ack max room p s fits word =
    let none_over : ltb room 0 ≡ false = le→ltb_false room 0 (omega arith) in
    let runs =
      gt_push_loop_next max 10 (build_ack p s) [] [] (ack_frame p s ∷ []) [] []
        (gt_round-build_ack max p s fits word)
      ∙ gt_push_loop-empty max 9 (ack_frame p s ∷ []) in
    rw (length-build_ack p s, runs, none_over) refl
