-- ===== src/Itch.antt =====
-- src/itch_decoder.cpp: ITCH 5.0 messages as market events, by the generated views and by hand.
-- `ItchDecoder` reads through the views of a protocol, which is a parameter here; the program is built
-- with that of schemas/itch50.efe, `itch50` of Schema.Itch50.
pub mod Reference
pub mod Cases
pub mod Agree
mod Tests
use market_wire.Prelude.{
  ℕ, ◌^◌, Bool, true, false, not, ◌||◌, Option, none, some, List, [], ◌∷◌, ◌==◌, if◌then◌else◌,
  length,
}
use market_wire.Prelude.Result.{
  Result, ok, throw, ◌>>=◌, ◌>>◌, empty_itch, unsupported_type, length_mismatch, invalid_side,
}
use market_wire.Prelude.Text.{bytes_of}
use market_wire.Events.{
  EventMeta, Side, buy, sell, Order, symbol_from, MarketEvent, add_event, execute_event,
  cancel_event, delete_event, replace_event,
}
use market_wire.Schema.Parser.{Protocol}
use market_wire.Schema.Views.{View, new_view, number_field, text_field, message_size, message_name}
use market_wire.Wire.{ByteList, at}

unfoldable pub side_from_char : ℕ → Result Side
side_from_char c = if c == b'B' then ok buy else if c == b'S' then ok sell else throw invalid_side

-- `gen::message_size(type)`, and the comparison with it
abbrev pub require_size : Option ℕ → ℕ → Result (Unit {0})
require_size none size = throw unsupported_type
require_size (some expected) size = if size == expected then ok tt else throw length_mismatch

unfoldable pub validate : Protocol → ByteList → Result (Unit {0})
unfolding message_size
validate p [] = throw empty_itch
validate p (type ∷ rest) = require_size (message_size p type) (length (type ∷ rest))

-- `ItchDecoder::message_name`
unfoldable pub name_of_message : Protocol → ByteList → ByteList
unfolding message_name bytes_of
name_of_message p [] = bytes_of "Empty"
name_of_message p (type ∷ rest) = message_name p type

unfoldable pub meta : View → Result EventMeta
unfolding number_field
meta v = do
  stock_locate ← number_field v "stock_locate"
  tracking_number ← number_field v "tracking_number"
  timestamp ← number_field v "timestamp"
  ok (record {
    stock_locate = stock_locate;
    tracking_number = tracking_number;
    timestamp_ns = timestamp;
  })

-- The bodies of `case 'A'` and `case 'F'`, which differ in the view.
unfoldable pub decode_add : View → Result (Option MarketEvent)
unfolding meta number_field text_field side_from_char symbol_from
decode_add v = do
  m ← meta v
  id ← number_field v "order_reference"
  stock ← text_field v "stock"
  side_char ← number_field v "side"
  side ← side_from_char side_char
  shares ← number_field v "shares"
  price ← number_field v "price"
  ok (
      some (
        add_event (record {
          meta = m;
          order = record {
            id = id;
            symbol = symbol_from stock;
            side = side;
            quantity = shares;
            price = price;
          };
        })))

unfoldable pub decode_execute : View → Result (Option MarketEvent)
unfolding meta number_field
decode_execute v = do
  m ← meta v
  id ← number_field v "order_reference"
  shares ← number_field v "executed_shares"
  match_number ← number_field v "match_number"
  ok (
      some (
        execute_event (record {
          meta = m;
          order_id = id;
          executed_shares = shares;
          match_number = match_number;
          has_execution_price = false;
          execution_price = 0;
          printable = true;
        })))

unfoldable pub decode_execute_price : View → Result (Option MarketEvent)
unfolding meta number_field
decode_execute_price v = do
  m ← meta v
  id ← number_field v "order_reference"
  shares ← number_field v "executed_shares"
  match_number ← number_field v "match_number"
  price ← number_field v "execution_price"
  printable ← number_field v "printable"
  ok (
      some (
        execute_event (record {
          meta = m;
          order_id = id;
          executed_shares = shares;
          match_number = match_number;
          has_execution_price = true;
          execution_price = price;
          printable = printable == b'Y';
        })))

unfoldable pub decode_cancel : View → Result (Option MarketEvent)
unfolding meta number_field
decode_cancel v = do
  m ← meta v
  id ← number_field v "order_reference"
  shares ← number_field v "canceled_shares"
  ok (some (cancel_event (record { meta = m; order_id = id; canceled_shares = shares })))

unfoldable pub decode_delete : View → Result (Option MarketEvent)
unfolding meta number_field
decode_delete v = do
  m ← meta v
  id ← number_field v "order_reference"
  ok (some (delete_event (record { meta = m; order_id = id })))

unfoldable pub decode_replace : View → Result (Option MarketEvent)
unfolding meta number_field
decode_replace v = do
  m ← meta v
  old ← number_field v "original_order_reference"
  new ← number_field v "new_order_reference"
  shares ← number_field v "shares"
  price ← number_field v "price"
  ok (
      some (
        replace_event (record {
          meta = m;
          old_order_id = old;
          new_order_id = new;
          new_quantity = shares;
          new_price = price;
        })))

-- The switch on the type.
unfoldable pub decode_type : Protocol → ℕ → ByteList → Result (Option MarketEvent)
unfolding new_view decode_add decode_execute decode_execute_price decode_cancel decode_delete
    decode_replace
decode_type p type bytes =
    if type == b'A'
    then new_view p "AddOrder" bytes >>= decode_add
    else if type == b'F'
    then new_view p "AddOrderWithMpid" bytes >>= decode_add
    else if type == b'E'
    then new_view p "OrderExecuted" bytes >>= decode_execute
    else if type == b'C'
    then new_view p "OrderExecutedWithPrice" bytes >>= decode_execute_price
    else if type == b'X'
    then new_view p "OrderCancel" bytes >>= decode_cancel
    else if type == b'D'
    then new_view p "OrderDelete" bytes >>= decode_delete
    else if type == b'U'
    then new_view p "OrderReplace" bytes >>= decode_replace
    else ok none

-- `ItchDecoder::decode_book_event`
unfoldable pub decode_book_event : Protocol → ByteList → Result (Option MarketEvent)
unfolding validate decode_type
decode_book_event p bytes = validate p bytes >> decode_type p (at bytes 0) bytes
