-- ===== src/Tests/Framing.antt =====
-- Runs of the JT808 framing: internal/protocol/jt808's escape.go, header.go, encode.go and decoder.go.
use tallerp_telemetry.Base.{
  ◌≤◌, ◌≡◌, ◌≢◌, refl, inl, List, [], ◌∷◌, ◌++◌, arith, length, Bytes, ok, panic, All, concat,
}
use tallerp_telemetry.Jt808.Escape.{escape, unescape}
use tallerp_telemetry.Jt808.Escape.RoundTrip.{
  NoDelimiter, unescape-escape, escape-NoDelimiter, unescape-ne-panic,
}
use tallerp_telemetry.Jt808.Header.{decode_bcd, encode_bcd, pad_digits, parse_header, encode_frame}
use tallerp_telemetry.Jt808.Header.Bcd.{decode_bcd-encode_bcd, IsDigit}
use tallerp_telemetry.Jt808.Header.RoundTrip.{Encoded, encode_frame-Encoded}
use tallerp_telemetry.Jt808.Decoder.{Decoder, done, push}
use tallerp_telemetry.Jt808.Decoder.Encodings.{Message, encode_all}
use tallerp_telemetry.Jt808.Decoder.Stream.{Reads, push-encode_all}
use tallerp_telemetry.Jt808.Decoder.Total.{push_total}
use tallerp_telemetry.Jt808.Decoder.Cuts.{push_all, push_all-concat}
use tallerp_telemetry.Jt808.Types.{Frame}
use tallerp_telemetry.Gt06.Decoder.{GtDecoder, GtFrame, GtDecodeError, gt_push, gt_done}
use tallerp_telemetry.Gt06.Decoder.Total.{gt_push_total}
use tallerp_telemetry.Gt06.Decoder.Acks.{ack_frame, gt_push-build_ack}
use tallerp_telemetry.Gt06.Crc.{build_ack}
use tallerp_telemetry.Jt808.Decoder.{DecodeError}

abbrev terminal : Bytes
terminal = b'1' ∷ b'2' ∷ b'3' ∷ b'4' ∷ b'5' ∷ b'6' ∷ b'7' ∷ b'8' ∷ b'9' ∷ b'0' ∷ b'1' ∷ b'2' ∷ []

abbrev packed_terminal : Bytes
packed_terminal = 0x12 ∷ 0x34 ∷ 0x56 ∷ 0x78 ∷ 0x90 ∷ 0x12 ∷ []

-- A heartbeat, and an authentication whose code has both bytes that are stuffed.
abbrev two_messages : List Message
two_messages =
    record { message_id = 0x0002; terminal_sn = terminal; serial = 5; body = [] }
    ∷ record {
      message_id = 0x0102;
      terminal_sn = terminal;
      serial = 6;
      body = 0x7e ∷ 0x7d ∷ 0x41 ∷ [];
    }
    ∷ []

abbrev heartbeat_wire : Bytes
heartbeat_wire =
    0x7e ∷ 0x0 ∷ 0x2 ∷ 0x0 ∷ 0x0 ∷ 0x12 ∷ 0x34 ∷ 0x56 ∷ 0x78 ∷ 0x90 ∷ 0x12 ∷ 0x0 ∷ 0x5 ∷ 0x8d ∷ 0x7e
    ∷ []

abbrev auth_wire : Bytes
auth_wire =
    0x7e ∷ 0x1 ∷ 0x2 ∷ 0x0 ∷ 0x3 ∷ 0x12 ∷ 0x34 ∷ 0x56 ∷ 0x78 ∷ 0x90 ∷ 0x12 ∷ 0x0 ∷ 0x6 ∷ 0x7d ∷ 0x2
    ∷ 0x7d ∷ 0x1 ∷ 0x41 ∷ 0xce ∷ 0x7e ∷ []

abbrev fresh_decoder : Decoder
fresh_decoder = record { buffer = []; max_frame_size = 4096; max_buffered_bytes = 8192 }

encode_frame_run : encode_frame 0x0002 terminal 5 [] ≡ ok heartbeat_wire
unfolding encode_frame encode_bcd tallerp_telemetry.Jt808.Header.wrap
    tallerp_telemetry.Jt808.Escape.escape tallerp_telemetry.Jt808.Escape.calculate_checksum
encode_frame_run = refl

encode_all_run : encode_all two_messages ≡ ok (heartbeat_wire ++ auth_wire)
unfolding encode_frame encode_bcd tallerp_telemetry.Jt808.Header.wrap
    tallerp_telemetry.Jt808.Escape.escape tallerp_telemetry.Jt808.Escape.calculate_checksum
encode_all_run = refl

push-encode_all_example :
    Reads fresh_decoder two_messages (push fresh_decoder (heartbeat_wire ++ auth_wire))
push-encode_all_example =
    push-encode_all fresh_decoder two_messages (heartbeat_wire ++ auth_wire) (inl refl)
      ((omega arith, omega arith), ((omega arith, omega arith), tt)) encode_all_run (omega arith)
      (omega arith)

-- The stream cut inside its first frame.
abbrev pieces : List Bytes
pieces = (0x10 ∷ 0x7e ∷ 0x00 ∷ []) ∷ auth_wire ∷ []

push_all-concat_example :
    push_all fresh_decoder (heartbeat_wire ∷ pieces)
    ≡ push fresh_decoder (concat (heartbeat_wire ∷ pieces))
push_all-concat_example = push_all-concat fresh_decoder heartbeat_wire pieces (omega arith)

push_total_example :
    (d' : Decoder) × (frames : List Frame) × (errors : List DecodeError) × (push fresh_decoder
        auth_wire
      ≡ done d' frames errors)
    × (length d'.buffer ≤ 8192)
    × (d'.max_frame_size ≡ 4096)
    × (d'.max_buffered_bytes ≡ 8192)
push_total_example = push_total fresh_decoder auth_wire

encode_frame-Encoded_example : Encoded 0x0002 terminal 5 [] heartbeat_wire
encode_frame-Encoded_example =
    encode_frame-Encoded 0x0002 terminal 5 [] heartbeat_wire (omega arith) (omega arith)
      encode_frame_run

unescape-escape_example : unescape (escape (0x7e ∷ 0x41 ∷ 0x7d ∷ [])) ≡ ok (0x7e ∷ 0x41 ∷ 0x7d ∷ [])
unescape-escape_example = unescape-escape (0x7e ∷ 0x41 ∷ 0x7d ∷ [])

escape-NoDelimiter_example : NoDelimiter (escape (0x7e ∷ 0x41 ∷ 0x7d ∷ []))
escape-NoDelimiter_example = escape-NoDelimiter (0x7e ∷ 0x41 ∷ 0x7d ∷ [])

unescape-ne-panic_example : unescape (0x41 ∷ 0x7d ∷ []) ≢ panic
unescape-ne-panic_example = unescape-ne-panic (0x41 ∷ 0x7d ∷ [])

encode_bcd_run : encode_bcd terminal 6 ≡ ok packed_terminal
unfolding encode_bcd
encode_bcd_run = refl

decode_bcd-encode_bcd_example :
    (decode_bcd packed_terminal ≡ ok (pad_digits 12 terminal))
    × (length packed_terminal ≡ 6)
    × All IsDigit (pad_digits 12 terminal)
decode_bcd-encode_bcd_example = decode_bcd-encode_bcd terminal packed_terminal 6 encode_bcd_run

abbrev fresh_gt_decoder : GtDecoder
fresh_gt_decoder = record { buffer = []; max_frame_size = 64; max_buffered_bytes = 128 }

-- A lone byte in front of a header whose length field is too small.
gt_push_total_example :
    (d' : GtDecoder) × (frames : List GtFrame) × (errors : List GtDecodeError) × (gt_push
        fresh_gt_decoder
        (0x00 ∷ 0x78 ∷ 0x78 ∷ 0x02 ∷ [])
      ≡ gt_done d' frames errors)
    × (length d'.buffer ≤ 128)
    × (d'.max_frame_size ≡ 64)
gt_push_total_example = gt_push_total fresh_gt_decoder (0x00 ∷ 0x78 ∷ 0x78 ∷ 0x02 ∷ [])

gt_push-build_ack_example :
    gt_push fresh_gt_decoder (build_ack 0x13 7)
    ≡ gt_done fresh_gt_decoder (ack_frame 0x13 7 ∷ []) []
gt_push-build_ack_example = gt_push-build_ack 64 128 0x13 7 (omega arith) (omega arith)
