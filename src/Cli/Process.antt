-- ===== src/Cli/Process.antt =====
-- src/main.cpp: from a datagram to the book, in `process_packet` and in the loop of `replay`. What is
-- printed is not modelled.
use market_wire.Prelude.{ℕ, List, [], ◌∷◌, Option, none, some}
use market_wire.Prelude.Result.{Result, ok, throw, undefined, ◌>>=◌}
use market_wire.Capture.{open_writer, write}
use market_wire.Cli.{mold_packet, add_msg, cancel_msg}
use market_wire.Replay.{ReplayOptions, run}
use market_wire.Book.{OrderBook}
use market_wire.Book.Apply.{apply}
use market_wire.Book.Orders.{Answer}
use market_wire.Events.{MarketEvent}
use market_wire.Itch.{decode_book_event}
use market_wire.Mold.{MoldMessage, MoldDownstreamPacket, parse_downstream}
use market_wire.Recovery.{RecoveryEngine, Outcome, ingest, new_engine}
use market_wire.Schema.Itch50.{itch50}
use market_wire.Wire.{ByteList}

pub record Feed : Type 0 where
  pub recovery : RecoveryEngine
  pub book : OrderBook

-- A book and how the code that left it ended.
abbrev pub Applied : Type 0
Applied = OrderBook × Result (Unit {0})

abbrev pub and_apply : Applied → (OrderBook → Applied) → Applied
and_apply (b, ok done) next = next b
and_apply (b, throw f) next = (b, throw f)
and_apply (b, undefined) next = (b, undefined)

-- An event that is rejected stops nothing.
abbrev pub finish : Answer → Applied
finish (b, ok answer) = (b, ok tt)
finish (b, throw f) = (b, throw f)
finish (b, undefined) = (b, undefined)

-- `if (event) book.apply(*event)`
abbrev pub apply_event : Result (Option MarketEvent) → OrderBook → Applied
apply_event (ok none) b = (b, ok tt)
apply_event (ok (some event)) b = finish (apply b event)
apply_event (throw f) b = (b, throw f)
apply_event undefined b = (b, undefined)

unfoldable pub apply_messages : List MoldMessage → OrderBook → Applied
unfolding decode_book_event itch50 apply
apply_messages [] b = (b, ok tt)
apply_messages (m ∷ ready) b =
    and_apply (apply_event (decode_book_event itch50 m.payload) b) (apply_messages ready)

-- What a feed is left with, and how the code ended.
abbrev pub Processed : Type 0
Processed = Feed × Result (Unit {0})

abbrev pub leave : RecoveryEngine → Applied → Processed
leave e (b, done) = (record { recovery = e; book = b }, done)

abbrev pub release : Outcome → OrderBook → Processed
release (e, ok r) b = leave e (apply_messages r.ready b)
release (e, throw f) b = leave e (b, throw f)
release (e, undefined) b = leave e (b, undefined)

abbrev pub receive_datagram : Result MoldDownstreamPacket → Feed → Processed
receive_datagram (ok p) feed = release (ingest feed.recovery p) feed.book
receive_datagram (throw f) feed = (feed, throw f)
receive_datagram undefined feed = (feed, undefined)

unfoldable pub process_packet : ByteList → Feed → Processed
unfolding parse_downstream ingest apply_messages
process_packet datagram feed = receive_datagram (parse_downstream datagram) feed

abbrev pub and_process : Processed → (Feed → Processed) → Processed
and_process (feed, ok done) next = next feed
and_process (feed, throw f) next = (feed, throw f)
and_process (feed, undefined) next = (feed, undefined)

-- `ReplayEngine::run` with the callback of `replay`, on the datagrams of a capture
unfoldable pub process_all : List ByteList → Feed → Processed
unfolding process_packet
process_all [] feed = (feed, ok tt)
process_all (d ∷ ds) feed = and_process (process_packet d feed) (process_all ds)

-- `replay`, on the bytes of the file; `book` is the book that it makes.
unfoldable pub replay : OrderBook → ByteList → ReplayOptions → Feed × Result ℕ
unfolding run process_packet new_engine
replay book file options =
    run file options (λ r feed. process_packet r.datagram feed)
      (record { recovery = new_engine 1; book = book })

abbrev sample_name : ByteList
sample_name = b'D' ∷ b'E' ∷ b'M' ∷ b'O' ∷ []

abbrev sample_symbol : ByteList
sample_symbol = b'A' ∷ b'A' ∷ b'P' ∷ b'L' ∷ []

-- `make_sample_capture`, the file that it writes
unfoldable pub make_sample_capture : Result ByteList
unfolding mold_packet add_msg cancel_msg open_writer write
make_sample_capture =
    let p1 = mold_packet sample_name 1 (add_msg 10 b'B' 100 sample_symbol 2000000 ∷ []) in
    let p3 = mold_packet sample_name 3 (cancel_msg 10 25 ∷ []) in
    let p2 = mold_packet sample_name 2 (add_msg 11 b'B' 200 sample_symbol 1999000 ∷ []) in
    do out ← write 0 p1 open_writer; out ← write 1000000 p3 out; write 2000000 p2 out
