-- ===== src/Gt02/Encoder/RoundTrip.antt =====
-- internal/protocol/gt02/encoder.go: a command read by the decoder of internal/protocol/decoder.go.
use tallerp_telemetry.Base.{
  ℕ, ◌+◌, ◌≤◌, ◌<◌, ◌≡◌, ◌∙◌, refl, ap, [], ◌∷◌, ◌++◌, arith, length, length-append, append_assoc,
  Bytes, ok, put16, put32,
}
use tallerp_telemetry.Gt06.Crc.{calculate_crc}
use tallerp_telemetry.Gt06.Decoder.{gt_done, gt_push}
use tallerp_telemetry.Gt06.Decoder.Framed.{
  frame_payload, framed_bytes, framed_frame, gt_push-framed,
}
use tallerp_telemetry.Gt02.Encoder.{build_gt02_command, command_payload}

-- The content of a command: its length, the server flag, the command and the language.
abbrev pub command_content : ℕ → Bytes → ℕ → Bytes
command_content server_flag command language =
    (4 + length command) ∷ (put32 server_flag ++ (command ++ put16 language))

payloads_agree :
    (server_flag : ℕ) (command : Bytes) (language serial : ℕ)
    → command_payload server_flag command language serial
      ≡ frame_payload 0x80 (command_content server_flag command language) serial
payloads_agree server_flag command language serial =
    let seam = append_assoc command (put16 language) (put16 serial) in
    let size : 10 + length command + 2 ≡ length (command_content server_flag command language) + 5 =
      omega (arith, length-append command (put16 language)) in
    rw (size, seam) refl

build_gt02_command-framed :
    (server_flag : ℕ) (command : Bytes) (language serial : ℕ) (bytes : Bytes)
    → build_gt02_command server_flag command language serial ≡ ok bytes
    → (bytes ≡ framed_bytes 0x80 (command_content server_flag command language) serial)
      × (length command ≤ 243)
unfolding build_gt02_command
build_gt02_command-framed server_flag command language serial bytes e =
    let payload = command_payload server_flag command language serial in
    let built : (bytes
          ≡ 0x78 ∷ 0x78 ∷ (payload ++ (put16 (calculate_crc payload) ++ 0x0d ∷ 0x0a ∷ [])))
        × (length command ≤ 243) =
      ground arith in
    (
      built.0
          ∙ ap (λ p. 0x78 ∷ 0x78 ∷ (p ++ (put16 (calculate_crc p) ++ 0x0d ∷ 0x0a ∷ [])))
              (payloads_agree server_flag command language serial),
      built.1,
    )

-- A command that could be built, its serial below 65536, pushed into a decoder with an empty
-- buffer and a frame limit of at least 260 bytes, comes out as exactly one frame with the number
-- 0x80 and its serial, whose content is the command with its length and the server flag in front
-- and the language behind; the decoder is left as it was and reports no error.
pub gt_push-build_gt02_command :
    (max room server_flag : ℕ) (command : Bytes) (language serial : ℕ) (bytes : Bytes)
    → 260 ≤ max
    → serial < 65536
    → build_gt02_command server_flag command language serial ≡ ok bytes
    → gt_push (record { buffer = []; max_frame_size = max; max_buffered_bytes = room }) bytes
      ≡ gt_done
          (record { buffer = []; max_frame_size = max; max_buffered_bytes = room })
          (framed_frame 0x80 (command_content server_flag command language) serial ∷ [])
          []
gt_push-build_gt02_command max room server_flag command language serial bytes fits word e =
    let (same, short) = build_gt02_command-framed server_flag command language serial bytes e in
    let content = command_content server_flag command language in
    let small : length content + 10 ≤ max = omega (arith, length-append command (put16 language)) in
    rw same (gt_push-framed max room 0x80 content serial small word)
