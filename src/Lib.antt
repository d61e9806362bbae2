-- ===== src/Lib.antt =====
-- market-wire: from the bytes of a MoldUDP64 feed to a limit order book.
-- A datagram is read with the bounds-checked helpers of include/efe/byte_reader.hpp, taken apart
-- by src/moldudp64.cpp into a packet of numbered payloads, and given to the recovery engine of
-- src/recovery_engine.cpp, which buffers what lies behind a gap, asks for the gap again and releases
-- messages in order. src/main.cpp does this for one datagram after another. src/itch_decoder.cpp
-- decodes the events that the messages stand for, through the views that the compiler of
-- tools/protocolc/main.cpp generates from schemas/itch50.efe. The events go into the order book of
-- src/order_book.cpp, which finds an order by its id through the table of
-- include/efe/flat_order_index.hpp.
--
-- Prelude: the shared names, lists over native numbers, shifts and masks, and `Result`, which is what
--   a call comes to: a value, one of the named exceptions, or undefined behaviour.
-- OrderedMap: `std::map` as an association list in the order of its comparison object.
-- Wire: include/efe/byte_reader.hpp. A byte span is a list of natural numbers, a shift and a cast keep
--   their wrap-around (`% 2 ^ w`); Wire.Bytes has the positional value of a list of bytes.
-- Mold: src/moldudp64.cpp. `parse_downstream` and `encode_request` under their names; Mold.Framing
--   has an independent writer of datagrams and `IsFramed` of Mold.Accepts an independent reading.
-- Recovery: src/recovery_engine.cpp. The engine's fields are the record `RecoveryEngine`; a method
--   returns the engine it leaves beside its outcome. Recovery.Stream has the abstract view: a stream
--   is a partial map from sequence numbers to payloads, where the first payload stays.
--   Recovery.Sessions has the calls made on an engine and the last request that they answered with,
--   Recovery.Foreign a caller that goes on after exceptions.
-- OrderIndex: include/efe/flat_order_index.hpp. The table is a list of entries, and `find`, `insert` and
--   `erase` probe it as the source does, tombstones included. OrderIndex.Probe has the invariant, and
--   OrderIndex.Runs the map that the table stands for.
-- Schema: tools/protocolc/main.cpp. Schema has the lexer, Schema.Parser the parser, where a method of
--   `Parser` takes the parser's state to a result and a state, and Schema.Views what the generated C++
--   does: a view is a message of the protocol and its bytes. Schema.Text and Schema.Itch50 are
--   schemas/itch50.efe, as text and as parsed.
-- Itch: src/itch_decoder.cpp, the decoder over the views of a protocol, and in Itch.Reference the one
--   by hand.
-- Capture: src/capture.cpp. A file is the list of its bytes; the reader's state is what it has left.
-- Replay: src/replay.cpp. `run` takes the callback as a function on a state of the caller's.
--   In step mode it takes characters as the source does, which lets the end of the input pass.
-- Cli: src/main.cpp. Cli has the writers of sample messages and packets, Cli.Process the way of a
--   datagram to the book: `process_packet`, and `replay` of a capture.
-- Events: include/efe/types.hpp and include/efe/events.hpp.
-- Book: src/order_book.cpp. The arena of slots is a list, slots name each other by number, and a
--   method returns the book that it leaves beside its answer. Book.Orders has `add`, `execute`,
--   `cancel`, `erase` and `remove_order`, Book.Replace `replace`, Book.Views the reading methods.
--   Book.Chain says that a level holds a list of slots; Book.Link, Book.Unlink and Book.Walk are about
--   adding to that list, taking from it and reading it. Book.Arena has the invariant of the arena, the
--   free list and the index, with a file for each kind of change to it, and Book.Arena.Feeds the books
--   that events can lead to.
--
-- Loops: the probes of the index run for as many rounds as the source's loops do. The loop of `drain`
-- runs on fuel, one more than the entries buffered: each round but the last removes an entry, and
-- running out would be `undefined`, which the theorems exclude. `std::bit_ceil` doubles at most 64
-- times, enough for a 64-bit number. The parser's loops take two more than the bytes that are left as
-- fuel, and each round consumes a token. The loop of a replay takes one more than the bytes of the file,
-- and each round but the last reads a record. The walk along a level has a round for each slot of the arena.
--
-- Not modelled: sockets, clocks and failures of the file system (src/udp_receiver.cpp, src/metrics.cpp),
-- sleeping and floating-point numbers, the command line, the output and the loop over a socket of
-- src/main.cpp, the text of the C++ that tools/protocolc/main.cpp writes, the text of error messages,
-- and exceptions of the allocator. Payloads are copied lists where the source holds views of the
-- datagram.
pub mod Prelude
pub mod Wire
pub mod Mold
pub mod Recovery
pub mod Replay
pub mod Book
pub mod Capture
pub mod Cli
pub mod Events
pub mod Itch
pub mod OrderIndex
pub mod OrderedMap
pub mod Schema
