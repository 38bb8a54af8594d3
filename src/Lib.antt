-- ===== src/Lib.antt =====
-- Tapline's capture agent: the code between the network core's IPC pipe and the records that a
-- client shows; and the table of those records, with its filter.
--
-- Parts, and how they interact. The core sends length-prefixed messages over a pipe
-- (src/core/wire.ts). The inspector (src/core/inspector.ts) splits bodies off as streams whose
-- chunks wait for credits (src/core/streams.ts) and turns messages into calls of the engine's handlers. The
-- engine (src/core/engine.ts) keeps a map of transactions: it opens a record for a request, captures
-- the bodies up to a limit, follows WebSocket frames and server-sent events (src/core/sse.ts),
-- decodes what a content coding hides (src/core/rules.ts), holds a request at a breakpoint, and
-- announces every change. Which hosts are decrypted, and which rule applies, is decided by the
-- patterns of src/shared/model.ts. The panel shows each record as a row, which it filters and sorts
-- (src/webview/lib/filter.ts); what a query asks of bodies and headers it sends as text to the host,
-- which keeps the records and answers with ids (src/utils/search.ts).
--
-- Files, with the code that each is about (paths from the repository's root):
--   Base       what the modules share: tests as Booleans, lists measured by native numbers, texts
--              as lists of character codes, and association lists with the order and the
--              overwriting of a JavaScript Map.
--   Wire       src/core/wire.ts (Wire, send). The state of the reader is `Wire`, its loop is
--              `receive_loop`, and a chunk of the pipe is a call of `receive`; serialisation is a
--              parameter, and what it must satisfy is a hypothesis of each theorem.
--   Headers    src/core/rules.ts (getHeader, setHeader, applyHeaderEdits) and the helpers that
--              flatten headers.
--   Codings    src/core/rules.ts (decodeBody and the media types); zlib is a record of decoders.
--   Matching   src/shared/model.ts (matchWildcard, ruleMatches, matchHost, isHostIntercepted).
--   Sse        src/core/sse.ts (SSEParser), a character at a time.
--   ProtoRaw   src/shared/protoRaw.ts (splitFrames and the reader of varints); ProtoRaw/Messages has
--              decode, and ProtoRaw/Decoding is about it.
--   Streams    src/core/streams.ts (Streams): the credits of the byte streams that share the pipe. A
--              waiting promise or callback is an entry of `credits`; what Node holds back for a
--              Writable is `buffered`.
--   Model      src/shared/model.ts, the records.
--   Engine     src/core/engine.ts. Engine.antt has the store (add, publish, enforceEntryLimit,
--              clear, delete, annotate, log, release), Engine/Bodies capture, seal, retain and
--              trackEvents, Engine/Records create and finish, Engine/Handlers the handlers,
--              Engine/Pipeline what the rules make of a request and a response (Requests and
--              Responses: each handler is cut at its waits, as open, apply, hold, resume and answer,
--              and `settle_request` and `settle_response` put the last of them together),
--              Engine/Lifecycle resume, abort, resendFrame, stop, and one call of the engine as
--              `step`. Engine/Keeping lists by which writes a call changes the map of transactions
--              (`Keeper`), and Engine/Entries and Engine/Finished are about properties of that kind.
--              Engine/Pipeline/Bodies, Engine/Pipeline/Sent, Engine/Pipeline/Replies and
--              Engine/Pipeline/Stopping are about the rules;
--              Engine/Buffers, Engine/Holds and Engine/Tails are about single parts.
--   Filter     src/webview/lib/filter.ts, src/webview/types/messages.ts (Row, toRow) and
--              src/utils/search.ts. Filter/Query has the query language, Filter/Rows the tests of a
--              row (Filter/Rows/Terms those of a term and of the filters together),
--              Filter/Sorting sortRows, Filter/Search the terms that the host evaluates.
--              Filter/Scanning, Filter/Printed, Filter/Comparing, Filter/Placed, Filter/Ordered and
--              Filter/Whole
--              are about them. Doubles and the order of texts (localeCompare) are parameters.
--   Stats      src/webview/lib/stats.ts: the figures of the statistics pane.
--   Inspector  src/core/inspector.ts: the state; Inspector/Messages has `message`, cut where it waits
--              for a handler or a delay, and the relay of bodies, Inspector/Control sendWebSocket,
--              inlet, the exit and the stop, and all that can happen as `step`. Inspector/Sessions,
--              Inspector/Matched, Inspector/Ends and Inspector/Settling are about them.
--   SharedCore src/agent/sharedCore.ts: which engine a session is bound to, and where its calls go.
--
-- Conventions. A Map is an association list, an object that is shared through a Map is its entry
-- there, and a handler takes the engine and returns it. A call that throws gives `none` or
-- `refused` and leaves the engine as it was. `Platform` has what the engine calls of Node: URL,
-- Buffer, zlib. A clock gives `Date.now()` in milliseconds and `performance.now()` in tenths of one.
-- A promise that a handler awaits is an entry of `holds`, and its answer one of `resolved`.
--
-- Bounds and fuel. `receive_loop` runs on the length of the chunk, `pieces_from` and
-- `split_from` on that of the buffer, `decode_from` on that of the message, and `tokens_from`, which
-- stands for `matchAll` of the language, on that of the text: a round of each takes at least one byte
-- or character, or it is the last.
-- Nothing else needs fuel: the other loops go through a list. Lengths and limits are those of the
-- source: 144 MiB for a message, 64 KiB for a chunk of a stream, 500 frames, 500 events, 2000 log
-- entries, 2000 characters for a note. A size on the wire is read from its four bytes.
--
-- Not modelled: `compose`, which opens a socket, the timings of a response, and the decoding of
-- gRPC messages, which a timer starts; certificates, child processes, sockets and files; the editor's
-- side, and of the panels all but the filter and the statistics; the network core, which is another program.
pub mod Base
pub mod Codings
pub mod Engine
pub mod Filter
pub mod Headers
pub mod Inspector
pub mod Matching
pub mod Model
pub mod ProtoRaw
pub mod SharedCore
pub mod Sse
pub mod Stats
pub mod Streams
pub mod Wire
