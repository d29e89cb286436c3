-- ===== src/Tests/Connections.antt =====
-- Runs of internal/server: connections that read a few frames.
use tallerp_telemetry.Server.Write.{IsWriter, IsWritten, write_ack, write_ack-IsWritten}
use Prim.Native.Nat.{min}
use tallerp_telemetry.Base.{
  ℕ, length, Option, Bytes, ◌≡◌, ◌≢◌, inr, refl, arith, true, List, [], ◌∷◌, some, none, ok,
}
use tallerp_telemetry.Session.{new_session}
use tallerp_telemetry.Jt808.Handler.{AuthStore}
use tallerp_telemetry.Gt06.Decoder.{GtFrame, new_gt_decoder}
use tallerp_telemetry.Server.Gt.{ConnectionContext, GtProcessed, GtFailure}
use tallerp_telemetry.Server.Gt.Limits.{process_gt_frames_ambiguous}
use tallerp_telemetry.Server.Gt.Loop.{Read, end_of_stream, GtServed, process_gt_frames, serve_gt}
use tallerp_telemetry.Server.Gt.Loop.Served.{IsServed, serve_gt-IsServed}
use tallerp_telemetry.Server.Connection.{handle_connection, jt_panicked}
use tallerp_telemetry.Server.Connection.Tracked.{Tracked}
use tallerp_telemetry.Server.Connection.Safety.{handle_connection-ne-panicked}

abbrev new_context : ConnectionContext
new_context = record { session = new_session; ambiguous_frames = 0 }

-- A heartbeat, without content, that both protocols could have sent.
abbrev short_heartbeat : GtFrame
short_heartbeat = record {
  header = 0x78 ∷ 0x78 ∷ [];
  declared = 5;
  protocol_number = 0x13;
  content = [];
  serial = 1;
  crc = 0;
  raw = [];
}

abbrev heartbeats : List GtFrame
heartbeats = short_heartbeat ∷ short_heartbeat ∷ short_heartbeat ∷ short_heartbeat ∷ []

process_gt_frames_ambiguous_example :
    (after : ConnectionContext) × ((p : GtProcessed) × ((e : GtFailure) × ((process_gt_frames
              (λ _ _. true)
              new_context
              heartbeats
              5
            ≡ some (after, p))
          × (p.failure ≡ some e))))
process_gt_frames_ambiguous_example =
    process_gt_frames_ambiguous (λ _ _. true) new_context heartbeats 5
      ((refl, inr refl), ((refl, inr refl), ((refl, inr refl), ((refl, inr refl), tt))))
      (omega arith) (omega arith)

-- A frame in two pieces, and the end of the stream.
abbrev two_reads : List Read
two_reads =
    record { bytes = 0x78 ∷ 0x78 ∷ 0x05 ∷ 0x13 ∷ 0x00 ∷ []; error = none; received_at = 5 }
    ∷ record {
      bytes = 0x01 ∷ 0xe9 ∷ 0xf1 ∷ 0x0d ∷ 0x0a ∷ [];
      error = some end_of_stream;
      received_at = 6;
    }
    ∷ []

serve_gt-IsServed_example :
    (s : GtServed) × ((serve_gt (λ _ _. true) (new_gt_decoder 0 0) new_context two_reads ≡ some s)
      × IsServed new_context s)
serve_gt-IsServed_example =
    serve_gt-IsServed (λ _ _. true) (new_gt_decoder 0 0) new_context two_reads

-- A store with no state, in which every terminal has the empty code.
abbrev any_store : AuthStore (Unit {0})
any_store = record {
  register = λ s sn manufacturer model now. (s, ok []);
  authenticate = λ s sn code. ok true;
  register_returns = λ s sn manufacturer model now p. cc;
  authenticate_returns = λ s sn code p. cc;
}

handle_connection-ne-panicked_example :
    handle_connection any_store (λ _ _. true) tt 0 0 two_reads ≢ jt_panicked
handle_connection-ne-panicked_example =
    handle_connection-ne-panicked any_store (λ _ _. true) tt 0 0 two_reads

-- A heartbeat from a terminal that has not authenticated, and the end of the stream.
abbrev early_heartbeat : List Read
early_heartbeat =
    record {
      bytes =
          0x7e ∷ 0x00 ∷ 0x02 ∷ 0x00 ∷ 0x00 ∷ 0x12 ∷ 0x34 ∷ 0x56 ∷ 0x78 ∷ 0x90 ∷ 0x12 ∷ 0x00 ∷ 0x07
          ∷ 0x8f ∷ 0x7e ∷ [];
      error = some end_of_stream;
      received_at = 5;
    }
    ∷ []

-- A socket that takes three bytes at a time.
abbrev slow_socket : ℕ → Bytes → Option ℕ
slow_socket n bytes = some (min 3 (length bytes))

slow_socket-IsWriter : IsWriter slow_socket
slow_socket-IsWriter n bytes written e = ground arith

write_ack-IsWritten_example :
    IsWritten (1 ∷ 2 ∷ 3 ∷ 4 ∷ 5 ∷ []) (write_ack slow_socket true (1 ∷ 2 ∷ 3 ∷ 4 ∷ 5 ∷ []))
write_ack-IsWritten_example =
    write_ack-IsWritten slow_socket slow_socket-IsWriter true (1 ∷ 2 ∷ 3 ∷ 4 ∷ 5 ∷ [])
