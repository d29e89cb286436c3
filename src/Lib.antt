-- ===== src/Lib.antt =====
-- Verification of the TallERP telemetry server, a Go program that receives the byte streams of GPS
-- trackers over TCP, decodes them, answers each message and records telemetry events.
--
-- Parts and files. The first byte of a connection chooses between two framings. A JT808 connection pushes
-- the bytes it reads into a decoder, gives each frame to a reassembler, each whole message to the handler,
-- writes the handler's answer and records its events. A GT connection has a decoder of its own and finds
-- out from the frames whether it is GT06 or GT02. An event with an IMEI is stored in the spool, a queue in a
-- database, from which the delivery worker sends batches to the backend.
--   Base        paths to the library, lists, Boolean tests, Go's results, errors and panics, maps
--   Telemetry   internal/telemetry/event.go: TelemetryEvent; calendar times and hex text; EventId has SetID,
--                 Identity which events share an ID
--   Session     internal/protocol/handler.go: Family, SessionContext, HandleResult
--   Calendar    the dates of the standard library, as the timestamp checks use them
--   Ranges      the ranges that events keep to
--   Jt808       internal/protocol/jt808:
--     Types, Msg, Words    types.go, frame.go and the constants of control.go and parameters.go
--     Escape      escape.go (Escape, Unescape), checksum.go (CalculateChecksum)
--     Header      header.go (decodeBCD, encodeBCD, parseHeader), encode.go (EncodeFrame)
--     Decoder     decoder.go (NewDecoder, Push); Frames, Encodings and Stream are about encoded
--                 messages, Chunks and Cuts about streams cut into pieces, Reads about the bounds of the
--                 reads, Total about termination
--     Reassembly  reassembly.go (Push, expireLocked, Pending)
--     Messages    registration.go, auth.go, general_response.go, parameters.go, properties.go,
--                 control.go, heartbeat.go
--     AdditionalInfo, Location   additional_info.go, location.go; Items and Safety are about their reads,
--                 Applied about the fields of an event that no item changes
--     Handler     handler.go (Dispatch); Branches has the ways through it as a relation, Gate is about
--                 authentication, Acks about the answers, Sources about the events
--   Gt06        internal/protocol:
--     Crc, Decoder    decoder.go, crc.go, encoder.go, frame.go (NewDecoder, Push); Reads is about the
--                 bounds of the reads, Framed and Acks about frames with a short header, read back
--     Helpers, Messages   helpers.go, login.go, location.go, heartbeat.go, alarm.go
--     Handler     gt06/handler.go (CanHandle, Handle); Laws has the ranges, Attribution the origin of
--                 events and answers, Family what the session keeps
--   Gt02        internal/protocol/gt02: Types, Helpers, Messages (login.go, heartbeat.go, location.go,
--                 lbs.go, wifi.go, general.go), Alarm, Command, Encoder and Handler, named for the files
--   Store       internal/jt808store/store.go (Register, Authenticate, Lookup)
--   Spool       internal/spool/spool.go (Store, Pending, MarkDelivered, MarkRetry, Cleanup, Stats); Aging is
--                 about single rows, Invariant has the calls as steps, History what becomes of an event
--   Delivery    internal/delivery/worker.go (deliverOnce, post, maintain, Backoff, randomJitter); Rounds is
--                 about the events that are taken, Waiting about those that are not
--   Server      internal/server:
--     Process     jt808_connection.go (processJT808Frame); Tracked is about the events it records
--     Gt          connection.go (processFrame, handlerFor, recordAmbiguousFrame, recordEvent); Loop has
--                 handleGTConnection, Limits the ambiguous frames
--     Connection  handleJT808Connection and handleConnection; Tracked is about the events of a whole
--                 connection, Safety about panics
--     Write       writeACK
--   Tests       the definitions and theorems at concrete inputs
--
-- Correspondence. A byte slice or a string is a list of bytes. A method that changes its receiver
-- takes the old state and returns the new one. A function that may fail returns an Outcome: a
-- result, an error told by its sentinel, or a panic, which a read out of bounds is; a slice beyond
-- the length is one even where Go would go on into the capacity. A uint16 that is counted up keeps
-- its wrap-around; `w & mask` for one bit is a division and a remainder. A nil pointer is `none`.
-- Floating point values are the expressions that compute them, without rounding. Times are
-- nanoseconds.
--
-- Bounds and fuel. The decoders' loops run on one round for each byte of the buffer and one more, since
-- every round but the last takes a byte off it. The items of a location report have a round for each
-- byte. The reassembler's loop has two rounds more than the total.
--
-- Parameters. The SQL table of the terminals, the random sources, the hash of SetID and the text of
-- a time in it, the handler's store, the HTTP exchange, the JSON of its answer and whether the n-th
-- write of an answer on a connection succeeds are parameters; the records TerminalTable,
-- RandomSource and AuthStore state what is relied on. What a socket's reads return is a list, in
-- which a deadline that cannot be set is an error of the read. The statements of the spool are
-- operations on a list of rows; which calls on the database fail is an argument, and a transaction
-- that is not committed changes nothing.
--
-- Not modelled: configuration, logging, the health endpoint, the listener with its table of
-- connections, the timers of the worker, and the sockets themselves.
pub mod Base
pub mod Telemetry
pub mod Session
pub mod Calendar
pub mod Ranges
pub mod Jt808
pub mod Gt06
pub mod Gt02
pub mod Store
pub mod Spool
pub mod Delivery
pub mod Server
pub mod Tests
