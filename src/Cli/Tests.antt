-- ===== src/Cli/Tests.antt =====
-- The sample capture of src/main.cpp, and the theorems about messages, packets and replays at it.
use market_wire.Prelude.{true, false, ℕ, ◌≡◌, refl, arith, List, [], ◌∷◌, some, ◌==◌, if◌then◌else◌}
use market_wire.Prelude.Result.{ok}
use market_wire.Book.{OrderBook, free_slots}
use market_wire.Cli.{add_msg, cancel_msg, mold_packet}
use market_wire.Cli.Messages.{decode-add_msg, decode-cancel_msg}
use market_wire.Cli.Packets.{mold_packet-encode_packet, parse_downstream-mold_packet}
use market_wire.Cli.Process.{process_all, apply_messages, replay, make_sample_capture}
use market_wire.Cli.Recorded.{counted, replay-write_all}
use market_wire.Capture.{CaptureRecord, open_writer}
use market_wire.Capture.RoundTrip.{write_all}
use market_wire.Replay.{ReplayOptions, max_speed}
use market_wire.Cli.Replay.{
  Parses, none_left, one_more, shown, process_all-ingest_all, process_all_converges,
}
use market_wire.Events.{add_event, cancel_event, buy, symbol_from}
use market_wire.Itch.{decode_book_event, side_from_char}
use market_wire.OrderedMap
use market_wire.Mold.{MoldMessage, MoldDownstreamPacket, session_from_string, parse_downstream}
use market_wire.Mold.Framing.{encode_packet, number}
use market_wire.Mold.Parse.{data_packet, IsPayload}
use market_wire.OrderIndex.{new_index}
use market_wire.Recovery.{new_engine, ingest}
use market_wire.Recovery.Runs.{ingest_all}
use market_wire.Schema.Itch50.{itch50}
use market_wire.Wire.Bytes.{splice}
use market_wire.Wire.{ByteList}

abbrev demo : ByteList
demo = b'D' ∷ b'E' ∷ b'M' ∷ b'O' ∷ []

abbrev aapl : ByteList
aapl = b'A' ∷ b'A' ∷ b'P' ∷ b'L' ∷ []

-- The three messages of `demo`, by their numbers.
abbrev sample : ℕ → ByteList
sample s =
    if s == 1
    then add_msg 10 b'B' 100 aapl 2000000
    else if s == 2
    then add_msg 11 b'B' 200 aapl 1999000
    else cancel_msg 10 25

abbrev datagram : ℕ → ByteList
datagram s = mold_packet demo s (sample s ∷ [])

abbrev packet : ℕ → MoldDownstreamPacket
packet s = data_packet (session_from_string demo) s (sample s ∷ [])

decode-add_msg_example :
    decode_book_event itch50 (add_msg 10 b'B' 100 aapl 2000000)
    ≡ ok (
        some (
          add_event (record {
            meta = record { stock_locate = 1; tracking_number = 1; timestamp_ns = 1000000 };
            order = record {
              id = 10;
              symbol = symbol_from aapl;
              side = buy;
              quantity = 100;
              price = 2000000;
            };
          })))
unfolding side_from_char
decode-add_msg_example =
    decode-add_msg 10 b'B' 100 2000000 aapl buy (omega arith) (omega arith) (omega arith) refl

decode-cancel_msg_example :
    decode_book_event itch50 (cancel_msg 10 25)
    ≡ ok (
        some (
          cancel_event (record {
            meta = record { stock_locate = 1; tracking_number = 2; timestamp_ns = 1000100 };
            order_id = 10;
            canceled_shares = 25;
          })))
decode-cancel_msg_example = decode-cancel_msg 10 25 (omega arith) (omega arith)

mold_packet-encode_packet_example :
    mold_packet demo 1 (sample 1 ∷ []) ≡ encode_packet (session_from_string demo) 1 (sample 1 ∷ [])
mold_packet-encode_packet_example = mold_packet-encode_packet demo 1 (sample 1 ∷ [])

first_IsPayload : IsPayload (sample 1)
unfolding add_msg
first_IsPayload = (omega arith, omega arith)

second_IsPayload : IsPayload (sample 2)
unfolding add_msg
second_IsPayload = (omega arith, omega arith)

third_IsPayload : IsPayload (sample 3)
unfolding cancel_msg
third_IsPayload = (omega arith, omega arith)

first_parses : parse_downstream (datagram 1) ≡ ok (packet 1)
first_parses =
    parse_downstream-mold_packet demo 1 (sample 1 ∷ []) (omega arith) (first_IsPayload, tt)
      (omega arith) (omega arith) (omega arith)

parse_downstream-mold_packet_example : parse_downstream (datagram 1) ≡ ok (packet 1)
parse_downstream-mold_packet_example =
    parse_downstream-mold_packet demo 1 (sample 1 ∷ []) (omega arith) (first_IsPayload, tt)
      (omega arith) (omega arith) (omega arith)

second_parses : parse_downstream (datagram 2) ≡ ok (packet 2)
second_parses =
    parse_downstream-mold_packet demo 2 (sample 2 ∷ []) (omega arith) (second_IsPayload, tt)
      (omega arith) (omega arith) (omega arith)

third_parses : parse_downstream (datagram 3) ≡ ok (packet 3)
third_parses =
    parse_downstream-mold_packet demo 3 (sample 3 ∷ []) (omega arith) (third_IsPayload, tt)
      (omega arith) (omega arith) (omega arith)

-- The order of arrival in `demo`, and the order of the numbers.
abbrev arrived : List ByteList
arrived = datagram 1 ∷ datagram 3 ∷ datagram 2 ∷ []

abbrev sorted : List ByteList
sorted = datagram 1 ∷ datagram 2 ∷ datagram 3 ∷ []

arrived-Parses : Parses arrived (packet 1 ∷ packet 3 ∷ packet 2 ∷ [])
arrived-Parses = one_more first_parses (one_more third_parses (one_more second_parses none_left))

sorted-Parses : Parses sorted (packet 1 ∷ packet 2 ∷ packet 3 ∷ [])
sorted-Parses = one_more first_parses (one_more second_parses (one_more third_parses none_left))

abbrev book : OrderBook
book = record { slots = free_slots 4 0; free_head = 0; index = new_index 4; books = [] }

abbrev messages : List MoldMessage
messages = number 1 (sample 1 ∷ sample 2 ∷ sample 3 ∷ [])

delivers : (ingest_all (packet 1 ∷ packet 3 ∷ packet 2 ∷ []) (new_engine 1)).1 ≡ ok messages
unfolding ingest_all ingest new_engine number session_from_string splice OrderedMap.find
    OrderedMap.erase OrderedMap.try_emplace OrderedMap.assign
delivers = refl

process_all-ingest_all_example :
    shown (process_all arrived (record { recovery = new_engine 1; book = book }))
    ≡ apply_messages messages book
process_all-ingest_all_example =
    process_all-ingest_all (new_engine 1) book messages arrived-Parses delivers

process_all_converges_example :
    shown (process_all arrived (record { recovery = new_engine 1; book = book }))
    ≡ shown (process_all sorted (record { recovery = new_engine 1; book = book }))
unfolding number session_from_string splice
process_all_converges_example =
    process_all_converges (session_from_string demo) sample 1 book
      (packet 1 ∷ packet 3 ∷ packet 2 ∷ []) (packet 1 ∷ packet 2 ∷ packet 3 ∷ []) arrived-Parses
      sorted-Parses
      (
        ((refl, refl), refl, omega arith),
        (((refl, refl), refl, omega arith), (((refl, refl), refl, omega arith), tt)),
      )
      (
        ((refl, refl), refl, omega arith),
        (((refl, refl), refl, omega arith), (((refl, refl), refl, omega arith), tt)),
      )
      ((refl, tt), ((refl, tt), ((refl, tt), tt))) ((refl, tt), ((refl, tt), ((refl, tt), tt)))
      (λ s le. ground arith)

abbrev fast : ReplayOptions
fast = record { mode = max_speed; speed_is_positive = true; too_long = λ d. false; step_input = [] }

abbrev recorded : List CaptureRecord
recorded =
    record { monotonic_ns = 0; datagram = datagram 1 }
    ∷ record { monotonic_ns = 1000000; datagram = datagram 3 }
    ∷ record { monotonic_ns = 2000000; datagram = datagram 2 }
    ∷ []

records_the_sample : make_sample_capture ≡ write_all recorded open_writer
unfolding make_sample_capture write_all
records_the_sample = refl

replay-write_all_example :
    (file : ByteList) × (write_all recorded open_writer ≡ ok file)
    × (counted (replay book file fast)
        ≡ process_all arrived (record { recovery = new_engine 1; book = book }))
unfolding mold_packet add_msg cancel_msg
replay-write_all_example =
    replay-write_all recorded book fast refl
      ((omega arith, omega arith), ((omega arith, omega arith), ((omega arith, omega arith), tt)))
      (omega arith)
