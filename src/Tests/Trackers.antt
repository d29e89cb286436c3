-- ===== src/Tests/Trackers.antt =====
-- Runs of internal/protocol/gt06 and internal/protocol/gt02.
use tallerp_telemetry.Base.{ℕ, ◌≡◌, ◌↔◌, refl, [], ◌∷◌, ◌++◌, Bytes, ok, arith}
use tallerp_telemetry.Telemetry.{date}
use tallerp_telemetry.Session.{new_session}
use tallerp_telemetry.Session.Reports.{Reports, Attributed}
use tallerp_telemetry.Ranges.{InRange}
use tallerp_telemetry.Calendar.{IsMoment}
use tallerp_telemetry.Gt06.Decoder.{GtFrame, gt_done, gt_push}
use tallerp_telemetry.Gt06.Decoder.Framed.{framed_bytes, framed_frame}
use tallerp_telemetry.Gt02.Encoder.{build_gt02_command}
use tallerp_telemetry.Gt02.Encoder.RoundTrip.{command_content, gt_push-build_gt02_command}
use tallerp_telemetry.Gt06.Helpers.{decode_gt_timestamp}
use tallerp_telemetry.Gt06.Helpers.Moments.{decode_gt_timestamp_iff}
use tallerp_telemetry.Gt06.Handler.{handle_gt06}
use tallerp_telemetry.Gt06.Handler.Laws.{handle_gt06-InRange}
use tallerp_telemetry.Gt06.Handler.Attribution.{handle_gt06-Attributed}
use tallerp_telemetry.Gt02.Command.{
  parse_command_response, text_of, utf16_decode, words_of, utf8_encode,
}
use tallerp_telemetry.Gt02.Command.Valid.{parse_command_response_utf16}
use tallerp_telemetry.Gt02.Handler.{handle_gt02}
use tallerp_telemetry.Gt02.Handler.Laws.{handle_gt02-InRange}
use tallerp_telemetry.Gt02.Handler.Attribution.{handle_gt02-Attributed}

abbrev tracker_frame : ℕ → Bytes → GtFrame
tracker_frame number content = record {
  header = 0x79 ∷ 0x79 ∷ [];
  declared = 5;
  protocol_number = number;
  content = content;
  serial = 7;
  crc = 0;
  raw = 0x79 ∷ 0x79 ∷ [];
}

-- 29 February 2024, 23:59:58.
decode_gt_timestamp_iff_example :
    (decode_gt_timestamp (24 ∷ 2 ∷ 29 ∷ 23 ∷ 59 ∷ 58 ∷ []) ≡ ok (date 2024 2 29 23 59 58))
    ↔ (IsMoment 2024 2 29 23 59 58 × (date 2024 2 29 23 59 58 ≡ date 2024 2 29 23 59 58))
decode_gt_timestamp_iff_example = decode_gt_timestamp_iff 24 2 29 23 59 58 (date 2024 2 29 23 59 58)

-- A position south of the equator.
abbrev position : Bytes
position =
    24 ∷ 2 ∷ 29 ∷ 23 ∷ 59 ∷ 58 ∷ 0xcf ∷ 0x02 ∷ 0x6c ∷ 0x10 ∷ 0x20 ∷ 0x0c ∷ 0x38 ∷ 0xe9 ∷ 0x80 ∷ 60
    ∷ 0x14 ∷ 0x5a ∷ []

abbrev gt06_position : GtFrame
gt06_position = tracker_frame 0x12 (position ++ 2 ∷ 0xdb ∷ 1 ∷ 0 ∷ 9 ∷ 0 ∷ 0 ∷ 5 ∷ [])

handle_gt06-InRange_example : Reports InRange (handle_gt06 gt06_position new_session 5)
handle_gt06-InRange_example = handle_gt06-InRange gt06_position new_session 5

abbrev heartbeat : GtFrame
heartbeat = tracker_frame 0x13 (0x46 ∷ 4 ∷ 3 ∷ 0 ∷ 1 ∷ [])

handle_gt06-Attributed_example :
    Attributed "gt06" 0x13 heartbeat 5 (handle_gt06 heartbeat new_session 5)
handle_gt06-Attributed_example = handle_gt06-Attributed heartbeat new_session 5

handle_gt02-InRange_example : Reports InRange (handle_gt02 heartbeat new_session 5)
handle_gt02-InRange_example = handle_gt02-InRange heartbeat new_session 5

abbrev gt02_alarm_frame : GtFrame
gt02_alarm_frame =
    tracker_frame 0x32
      (position ++ 0x08 ∷ 2 ∷ 0xdb ∷ 0 ∷ 1 ∷ 0 ∷ 9 ∷ 0 ∷ 0 ∷ 0 ∷ 5 ∷ 6 ∷ 0xe4 ∷ 4 ∷ 1 ∷ 2 ∷ [])

handle_gt02-Attributed_example :
    Attributed "gt02" 0x26 gt02_alarm_frame 5 (handle_gt02 gt02_alarm_frame new_session 5)
handle_gt02-Attributed_example = handle_gt02-Attributed gt02_alarm_frame new_session 5

-- "OK" in two-byte units, behind a surrogate without its partner.
abbrev answer_text : Bytes
answer_text = 0xd8 ∷ 0x00 ∷ 0x00 ∷ 0x4f ∷ 0x00 ∷ 0x4b ∷ []

parse_command_response_utf16_example :
    parse_command_response (tracker_frame 0x21 (0 ∷ 0 ∷ 0 ∷ 9 ∷ 0x02 ∷ answer_text)) []
    ≡ ok (record {
      imei = [];
      server_flag = 9;
      encoding = "utf16-be";
      content = text_of (utf16_decode (words_of answer_text));
      serial = 7;
    })
parse_command_response_utf16_example =
    parse_command_response_utf16 (tracker_frame 0x21 (0 ∷ 0 ∷ 0 ∷ 9 ∷ 0x02 ∷ answer_text)) [] 0x79 0
      0 0 9 answer_text refl refl refl
      (omega arith, (omega arith, (omega arith, (omega arith, (omega arith, (omega arith, tt))))))
      refl

-- The lone surrogate is replaced, where the source means to refuse it.
answer_text_run :
    text_of (utf16_decode (words_of answer_text)) ≡ 0xef ∷ 0xbf ∷ 0xbd ∷ b'O' ∷ b'K' ∷ []
unfolding text_of utf16_decode words_of utf8_encode
answer_text_run = refl

-- The command `A#`, built and read back.
abbrev built_command : Bytes
built_command = framed_bytes 0x80 (command_content 1 (0x41 ∷ 0x23 ∷ []) 2) 7

build_gt02_command_run : build_gt02_command 1 (0x41 ∷ 0x23 ∷ []) 2 7 ≡ ok built_command
unfolding build_gt02_command
build_gt02_command_run = refl

gt_push-build_gt02_command_example :
    gt_push (record { buffer = []; max_frame_size = 1024; max_buffered_bytes = 4096 }) built_command
    ≡ gt_done
        (record { buffer = []; max_frame_size = 1024; max_buffered_bytes = 4096 })
        (framed_frame 0x80 (command_content 1 (0x41 ∷ 0x23 ∷ []) 2) 7 ∷ [])
        []
gt_push-build_gt02_command_example =
    gt_push-build_gt02_command 1024 4096 1 (0x41 ∷ 0x23 ∷ []) 2 7 built_command (omega arith)
      (omega arith) build_gt02_command_run
