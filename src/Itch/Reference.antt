-- ===== src/Itch/Reference.antt =====
-- src/itch_decoder.cpp: `ReferenceItchDecoder`, which reads every field at a fixed offset.
use market_wire.Prelude.{
  ℕ, true, false, not, ◌||◌, Option, none, some, [], ◌∷◌, ◌==◌, if◌then◌else◌, length,
}
use market_wire.Prelude.Result.{Result, ok, throw, ◌>>=◌, ◌>>◌, empty_itch, invalid_size_type}
use market_wire.Events.{
  EventMeta, symbol_from, MarketEvent, add_event, execute_event, cancel_event, delete_event,
  replace_event,
}
use market_wire.Itch.{side_from_char}
use market_wire.Wire.{
  ByteList, at, read_u16_be, read_u32_be, read_u48_be, read_u64_be, read_char, read_ascii_view,
}

unfoldable pub require_exact : ByteList → ℕ → ℕ → Result (Unit {0})
require_exact bytes size type =
    if not (length bytes == size) || length bytes == 0 || not (at bytes 0 == type)
    then throw invalid_size_type
    else ok tt

-- The lambda `m`.
unfoldable pub reference_meta : ByteList → Result EventMeta
reference_meta b = do
  stock_locate ← read_u16_be b 1
  tracking_number ← read_u16_be b 3
  timestamp ← read_u48_be b 5
  ok (record {
    stock_locate = stock_locate;
    tracking_number = tracking_number;
    timestamp_ns = timestamp;
  })

unfoldable pub reference_add : ByteList → Result (Option MarketEvent)
unfolding reference_meta side_from_char symbol_from
reference_add b = do
  m ← reference_meta b
  id ← read_u64_be b 11
  stock ← read_ascii_view b 24 8
  side_char ← read_char b 19
  side ← side_from_char side_char
  shares ← read_u32_be b 20
  price ← read_u32_be b 32
  ok (
      some (
        add_event (record {
          meta = m;
          order = record {
            id = id;
            symbol = symbol_from stock;
            side = side;
            quantity = shares;
            price = price;
          };
        })))

unfoldable pub reference_execute : ByteList → Result (Option MarketEvent)
unfolding reference_meta
reference_execute b = do
  m ← reference_meta b
  id ← read_u64_be b 11
  shares ← read_u32_be b 19
  match_number ← read_u64_be b 23
  ok (
      some (
        execute_event (record {
          meta = m;
          order_id = id;
          executed_shares = shares;
          match_number = match_number;
          has_execution_price = false;
          execution_price = 0;
          printable = true;
        })))

unfoldable pub reference_execute_price : ByteList → Result (Option MarketEvent)
unfolding reference_meta
reference_execute_price b = do
  m ← reference_meta b
  id ← read_u64_be b 11
  shares ← read_u32_be b 19
  match_number ← read_u64_be b 23
  price ← read_u32_be b 32
  printable ← read_char b 31
  ok (
      some (
        execute_event (record {
          meta = m;
          order_id = id;
          executed_shares = shares;
          match_number = match_number;
          has_execution_price = true;
          execution_price = price;
          printable = printable == b'Y';
        })))

unfoldable pub reference_cancel : ByteList → Result (Option MarketEvent)
unfolding reference_meta
reference_cancel b = do
  m ← reference_meta b
  id ← read_u64_be b 11
  shares ← read_u32_be b 19
  ok (some (cancel_event (record { meta = m; order_id = id; canceled_shares = shares })))

unfoldable pub reference_delete : ByteList → Result (Option MarketEvent)
unfolding reference_meta
reference_delete b = do
  m ← reference_meta b
  id ← read_u64_be b 11
  ok (some (delete_event (record { meta = m; order_id = id })))

unfoldable pub reference_replace : ByteList → Result (Option MarketEvent)
unfolding reference_meta
reference_replace b = do
  m ← reference_meta b
  old ← read_u64_be b 11
  new ← read_u64_be b 19
  shares ← read_u32_be b 27
  price ← read_u32_be b 31
  ok (
      some (
        replace_event (record {
          meta = m;
          old_order_id = old;
          new_order_id = new;
          new_quantity = shares;
          new_price = price;
        })))

-- The switch on the type.
unfoldable pub reference_type : ℕ → ByteList → Result (Option MarketEvent)
unfolding require_exact reference_add reference_execute reference_execute_price reference_cancel
    reference_delete reference_replace
reference_type type b =
    if type == b'A'
    then (require_exact b 36 b'A' >> reference_add b)
    else if type == b'F'
    then (require_exact b 40 b'F' >> reference_add b)
    else if type == b'E'
    then (require_exact b 31 b'E' >> reference_execute b)
    else if type == b'C'
    then (require_exact b 36 b'C' >> reference_execute_price b)
    else if type == b'X'
    then (require_exact b 23 b'X' >> reference_cancel b)
    else if type == b'D'
    then (require_exact b 19 b'D' >> reference_delete b)
    else if type == b'U'
    then (require_exact b 35 b'U' >> reference_replace b)
    else ok none

-- `ReferenceItchDecoder::decode_book_event`
unfoldable pub reference_decode : ByteList → Result (Option MarketEvent)
unfolding reference_type
reference_decode [] = throw empty_itch
reference_decode (type ∷ rest) = reference_type type (type ∷ rest)
